-- ===== src/Mailbox/Deposits.antt =====
-- What the readers of a mailbox see after `StoreMessage` (pkg/mailbox/storage.go).
use babylontower.Prelude.{
  ℕ, ◌+◌, ◌/◌, ◌%◌, ◌^◌, ◌<◌, ◌≤◌, ◌≡◌, ◌∙◌, refl, sym, ap, some, Bytes, length, Result, ok, err,
  arith, Option-cases, inl, inr,
}
use babylontower.Mailbox.Database.{
  Database, IsDatabase, StoredMessage, Codec, IsCodec, get-set_same, get-set_other,
}
use babylontower.Mailbox.Keys.{message_key, meta_key, message_key-meta_key}
use babylontower.Mailbox.Metadata.{count_message, IsSized}
use babylontower.Mailbox.Storage.{
  MailboxConfig, Error, get_metadata, update_metadata, check_quota, get_stats, put_message,
  store_message, get_message, metadata_or_zero, second, new_message, and_then,
}
use babylontower.Mailbox.Messages.{
  check_quota-ok, check_quota-under, update_metadata-metadata, set_message-metadata,
}

module _ (d : Database) (c : Codec) (cfg : MailboxConfig) (now later : ℕ)
    (target message_id sender envelope : Bytes) (ttl : ℕ) (s : d.Store) {s' : d.Store}
    (stored : store_message d c cfg now later target message_id sender envelope ttl s
      ≡ (s', ok tt)) where
  abbrev message : StoredMessage
  message = new_message d c now message_id sender envelope ttl

  -- The quota was met, and the transaction went through.
  record IsDeposited : Type 0 where
    room : d.Store
    text : Bytes
    quota : check_quota d cfg target s ≡ (room, ok tt)
    marshalled : c.marshal message ≡ some text
    written :
        s'
        ≡ update_metadata d later target
            (length envelope)
            (d.set (message_key target message_id) text room)

  store_message-IsDeposited : IsDeposited
  unfolding store_message put_message
  store_message-IsDeposited = go (check_quota d cfg target s) refl stored
    where
      go :
          (r : d.Store × Result Error (Unit {0}))
          → check_quota d cfg target s ≡ r
          → and_then d c r (put_message d c later target message) ≡ (s', ok tt)
          → IsDeposited
      go (room, err e) same p = absurd (ground arith)
      go (room, ok _) same p = elim (Option-cases (c.marshal message)) [
        | inl n ↦ absurd (ground arith)
        | inr (text, e) ↦ record {
          room = room;
          text = text;
          quota = same;
          marshalled = e;
          written = ground arith;
        }
      ]

  module _ (laws : IsDatabase d) where
    -- A message that `StoreMessage` accepts is what `GetMessage` returns, with its sender, its size
    -- and its times.
    pub get_message-store_message : IsCodec c → get_message d c target message_id s' ≡ ok message
    unfolding get_message update_metadata
    get_message-store_message codec =
        let w = store_message-IsDeposited in
        let read : d.get (message_key target message_id) s' ≡ some w.text =
          ap (d.get (message_key target message_id)) w.written
          ∙ get-set_other d laws (meta_key target) (message_key target message_id) _ _
              (λ e. message_key-meta_key target message_id target (sym e))
          ∙ get-set_same d laws (message_key target message_id) w.text w.room in
        rw (read, get_message, codec.unmarshal-marshal message w.text w.marshalled) refl

    -- `StoreMessage` that accepts a message for a target whose metadata fits its fields counts it
    -- once, adds its size, and leaves the count within the limit, where the limit is a positive
    -- `uint32` and the clock an unsigned number of seconds.
    pub get_stats-store_message :
        IsSized (metadata_or_zero d (get_metadata d target s))
        → 0 < cfg.max_messages_per_target
        → cfg.max_messages_per_target < 2 ^ 32
        → later / second < 2 ^ 64
        → ((get_stats d cfg target s').stored_count ≡ (get_stats d cfg target s).stored_count + 1)
          × ((get_stats d cfg target s').used_bytes
              ≡ ((get_stats d cfg target s).used_bytes + length envelope) % 2 ^ 64)
          × ((get_stats d cfg target s').stored_count ≤ cfg.max_messages_per_target)
    unfolding get_stats count_message
    get_stats-store_message sized some_room fits clock =
        let w = store_message-IsDeposited in
        let placed = d.set (message_key target message_id) w.text w.room in
        let before : get_metadata d target placed ≡ get_metadata d target s =
          set_message-metadata d laws target message_id w.text target w.room
          ∙ check_quota-ok d laws cfg target s w.room w.quota in
        let m = metadata_or_zero d (get_metadata d target s) in
        let after : get_metadata d target s'
            ≡ some (count_message (later / second) (length envelope) m) =
          ap (get_metadata d target) w.written
          ∙ update_metadata-metadata d laws later target (length envelope) placed (rw before sized)
              clock
          ∙ ap (λ o. some (count_message (later / second) (length envelope) (metadata_or_zero d o)))
              before in
        let under : m.message_count < cfg.max_messages_per_target =
          check_quota-under d laws cfg target s w.room some_room w.quota in
        rw (after, count_message) (omega arith, refl, omega arith)
