-- ===== src/Calls/Cleanup.antt =====
-- `cleanupExpiredOffers` and `Stop` (pkg/rtc/session.go).
use babylontower.Prelude.{ℕ, some, List, [], ◌∷◌, Bytes, Bool, if◌then◌else◌, ltb, ◌&&◌}
use babylontower.Prelude.Assoc.{Assoc}
use babylontower.Calls.Session.{ended, Reason, normal, timeout, CallSession, is_offered, is_ended}
use babylontower.Calls.Manager.{Event, call_ended, SessionManager, emit}

unfoldable pub end_with : ℕ → Reason → CallSession → CallSession
end_with now reason s = record s { state = ended; hangup_reason = reason; ended_at = some now }

-- One tick of `cleanupExpiredOffers`: the sessions that stay, and the log.
unfoldable pub is_stale : ℕ → CallSession → Bool
is_stale now s = is_offered s.state && ltb s.expires_at now

unfoldable pub keep_fresh : ℕ → Assoc Bytes CallSession → Assoc Bytes CallSession
keep_fresh now [] = []
keep_fresh now ((id, s) ∷ m) =
    let rest = keep_fresh now m in if is_stale now s then rest else (id, s) ∷ rest

unfoldable pub log_stale : ℕ → Bool → Assoc Bytes CallSession → List Event → List Event
log_stale now on [] log = log
log_stale now on ((id, s) ∷ m) log =
    log_stale now on m
      (if is_stale now s then emit on (call_ended (end_with now timeout s)) log else log)

unfoldable pub cleanup_expired_offers : ℕ → SessionManager → SessionManager
cleanup_expired_offers now sm = record sm {
  sessions = keep_fresh now sm.sessions;
  log = log_stale now sm.on_call_ended sm.sessions sm.log;
}

-- `Stop`, less the end of the cleanup goroutine.
unfoldable pub end_all : ℕ → Assoc Bytes CallSession → Assoc Bytes CallSession
end_all now [] = []
end_all now ((id, s) ∷ m) =
    (id, if is_ended s.state then s else end_with now normal s) ∷ end_all now m

unfoldable pub stop : ℕ → SessionManager → SessionManager
unfolding end_all
stop now sm = record sm { sessions = end_all now sm.sessions }
