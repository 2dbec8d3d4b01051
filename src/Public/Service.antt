-- ===== src/Public/Service.antt =====
-- `PublicGroupService` of pkg/groups/public.go. A method holds the lock, so it is one step; an error keeps
-- what was changed before it. A group is changed in place: its entry changes. The clock is read once, in
-- Unix seconds, and whether the storage takes a group is an argument.
use babylontower.Prelude.{
  ℕ, ◌+◌, ◌-◌, ◌^◌, Option, none, some, List, [], ◌∷◌, ◌++◌, Bytes, Bool, true, false,
  if◌then◌else◌, ltb, leb, take, length, bytes_dec, Result, ok, err, Action,
}
use babylontower.Prelude.Int.{ℤ, pos, negsuc}
use babylontower.Prelude.Assoc.{Assoc, lookup, insert, delete, values}
use babylontower.Groups.State.{GroupState, Error}
use babylontower.Public.Actions.{
  BannedMember, MutedMember, ModerationAction, action_ban, action_mute,
}

pub record PublicGroupService : Type 0 where
  pub identity_sign_pub : Bytes
  pub identity_sign_priv : Bytes
  pub groups : Assoc Bytes GroupState
  pub banned : Assoc Bytes (Assoc Bytes BannedMember)
  pub muted : Assoc Bytes (Assoc Bytes MutedMember)
  pub rate_limits : Assoc Bytes (Assoc Bytes (List ℕ))

-- An error of the moderation, or one of the group's.
pub data ModerationError : Type 0 where
  already_banned already_muted : ModerationError
  group_error : Error → ModerationError
  -- the panics of a slice out of its bounds and of a write to a nil map
  slice_out_of_range write_to_nil_map : ModerationError

abbrev pub Moderation : (A : Type 0) → Type 0
Moderation A = Action PublicGroupService ModerationError A

abbrev pub or_nil : {V : Type 0} → Option (Assoc Bytes V) → Assoc Bytes V
or_nil none = []
or_nil (some m) = m

-- A group of the service has maps for its bans, mutes and senders, made with it.
unfoldable pub banned_of : Bytes → Bytes → PublicGroupService → Option BannedMember
banned_of group_id pubkey s = lookup bytes_dec pubkey (or_nil (lookup bytes_dec group_id s.banned))

unfoldable pub muted_of : Bytes → Bytes → PublicGroupService → Option MutedMember
muted_of group_id pubkey s = lookup bytes_dec pubkey (or_nil (lookup bytes_dec group_id s.muted))

abbrev pub put_banned : Bytes → BannedMember → PublicGroupService → PublicGroupService
put_banned group_id b s =
    let m = insert bytes_dec b.pubkey b (or_nil (lookup bytes_dec group_id s.banned)) in
    record s { banned = insert bytes_dec group_id m s.banned }

abbrev pub put_muted : Bytes → MutedMember → PublicGroupService → PublicGroupService
put_muted group_id x s =
    let m = insert bytes_dec x.pubkey x (or_nil (lookup bytes_dec group_id s.muted)) in
    record s { muted = insert bytes_dec group_id m s.muted }

abbrev pub put_group : Bytes → GroupState → PublicGroupService → PublicGroupService
put_group group_id state s = record s { groups = insert bytes_dec group_id state s.groups }

unfoldable pub is_banned : Bytes → Bytes → PublicGroupService → Bool
unfolding banned_of
is_banned group_id pubkey s = elim (banned_of group_id pubkey s) [ none ↦ false | some b ↦ true ]

-- An expired mute is deleted, under the read lock.
unfoldable pub is_muted : ℕ → Bytes → Bytes → PublicGroupService → PublicGroupService × Bool
unfolding muted_of
is_muted now group_id pubkey s = elim (muted_of group_id pubkey s) [
  | none ↦ (s, false)
  | some x ↦
      let m = delete bytes_dec pubkey (or_nil (lookup bytes_dec group_id s.muted)) in
      if leb x.expires_at now
      then (record s { muted = insert bytes_dec group_id m s.muted }, false)
      else (s, true)
]

-- The times after the cutoff.
unfoldable pub valid_timestamps : ℕ → List ℕ → List ℕ
valid_timestamps cutoff [] = []
valid_timestamps cutoff (t ∷ ts) =
    let rest = valid_timestamps cutoff ts in if ltb cutoff t then t ∷ rest else rest

-- `now - windowSec` is a difference of `uint64` values.
abbrev pub cutoff_of : ℕ → ℕ → ℕ
cutoff_of now window = if ltb now window then now + 2 ^ 64 - window else now - window

-- The times of a sender after a check, and whether the message is allowed. `none` is a sender without
-- times.
unfoldable pub check_timestamps : ℕ → ℕ → ℕ → Option (List ℕ) → List ℕ × Bool
unfolding valid_timestamps
check_timestamps now max_messages window none = (now ∷ [], true)
check_timestamps now max_messages window (some ts) =
    let valid = valid_timestamps (cutoff_of now window) ts in
    if leb max_messages (length valid) then (valid, false) else (valid ++ now ∷ [], true)

unfoldable pub check_rate_limit : ℕ → Bytes → Bytes → ℕ → ℕ → Moderation Bool
unfolding check_timestamps
check_rate_limit now group_id sender max_messages window s =
    let limits = lookup bytes_dec group_id s.rate_limits in
    let (ts, allowed) =
      check_timestamps now max_messages window (lookup bytes_dec sender (or_nil limits)) in
    elim limits [
      | none ↦ (s, err write_to_nil_map)
      | some m ↦ (
        record s {
          rate_limits = insert bytes_dec group_id (insert bytes_dec sender ts m) s.rate_limits;
        },
        ok allowed,
      )
    ]

abbrev pub ban_action : BannedMember → ModerationAction
ban_action b = record {
  target_member_pubkey = b.pubkey;
  action_type = action_ban;
  reason = b.reason;
  duration_seconds = 0;
  target_message_id = [];
  moderator_pubkey = b.moderator;
  timestamp = b.banned_at;
  signature = [];
}

abbrev pub mute_action : MutedMember → ModerationAction
mute_action x = record {
  target_member_pubkey = x.pubkey;
  action_type = action_mute;
  reason = x.reason;
  duration_seconds = x.duration_sec;
  target_message_id = [];
  moderator_pubkey = x.moderator;
  timestamp = x.muted_at;
  signature = [];
}

abbrev actions_of : {V : Type 0} → (V → ModerationAction) → List V → List ModerationAction
actions_of f [] = []
actions_of f (x ∷ xs) = f x ∷ actions_of f xs

-- The limit is an `int`, and a negative one is out of the bounds of the slice.
unfoldable pub get_moderation_actions :
    Bytes → ℤ → PublicGroupService → Result ModerationError (List ModerationAction)
get_moderation_actions group_id (negsuc n) s = err slice_out_of_range
get_moderation_actions group_id (pos limit) s =
    let bans = actions_of ban_action (values (or_nil (lookup bytes_dec group_id s.banned))) in
    let mutes = actions_of mute_action (values (or_nil (lookup bytes_dec group_id s.muted))) in
    ok (take limit (bans ++ mutes))
