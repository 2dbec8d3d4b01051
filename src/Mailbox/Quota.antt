-- ===== src/Mailbox/Quota.antt =====
-- The quota and the statistics of a target (pkg/mailbox/storage.go).
use babylontower.Prelude.{
  ℕ, ◌<◌, ◌≤◌, ◌≡◌, ◌∙◌, refl, List, [], ◌∷◌, Bytes, err, arith, Option-cases, inl, inr,
}
use babylontower.Mailbox.Database.{Database, IsDatabase, get-delete_other, Codec}
use babylontower.Mailbox.Keys.{message_key, meta_key, message_key-meta_key}
use babylontower.Mailbox.Storage.{
  MailboxConfig, count_limit_reached, get_metadata, check_quota, delete_messages, get_stats,
  store_message,
}

module _ (d : Database) (laws : IsDatabase d) where
  delete_messages_meta :
      (target other : Bytes) (ids : List Bytes) (s : d.Store)
      → d.get (meta_key other) (delete_messages d target ids s) ≡ d.get (meta_key other) s
  unfolding delete_messages
  delete_messages_meta target other [] s = refl
  delete_messages_meta target other (id ∷ ids) s =
      delete_messages_meta target other ids (d.delete (message_key target id) s)
      ∙ get-delete_other d laws (message_key target id) (meta_key other) s
          (message_key-meta_key target id other)

  delete_messages-metadata :
      (target other : Bytes) (ids : List Bytes) (s : d.Store)
      → get_metadata d other (delete_messages d target ids s) ≡ get_metadata d other s
  unfolding get_metadata
  delete_messages-metadata target other ids s =
      rw (delete_messages_meta target other ids s, get_metadata) refl

  check_quota_full :
      (cfg : MailboxConfig) (target : Bytes) (s : d.Store)
      → 0 < cfg.max_messages_per_target
      → cfg.max_messages_per_target ≤ (get_stats d cfg target s).stored_count
      → check_quota d cfg target s ≡ (s, err count_limit_reached)
  unfolding check_quota get_stats
  check_quota_full cfg target s some_room full = elim (Option-cases (get_metadata d target s)) [
    | inl e ↦ absurd (ground arith)
    | inr (m, e) ↦ ground arith
  ]

  -- Once the count of a target has reached its limit, `StoreMessage` refuses every message for it,
  -- also after `DeleteMessages` of any of its messages: what a client retrieves and deletes frees
  -- no room.
  pub store_message_full :
      (c : Codec) (cfg : MailboxConfig) (now later : ℕ) (target : Bytes) (ids : List Bytes)
      (id sender envelope : Bytes) (ttl : ℕ) (s : d.Store)
      → 0 < cfg.max_messages_per_target
      → cfg.max_messages_per_target ≤ (get_stats d cfg target s).stored_count
      → store_message d c cfg now later target id sender envelope ttl
          (delete_messages d target ids s)
        ≡ (delete_messages d target ids s, err count_limit_reached)
  unfolding store_message get_stats
  store_message_full c cfg now later target ids id sender envelope ttl s some_room full =
      rw
        (check_quota_full cfg target (delete_messages d target ids s) some_room
          (rw (delete_messages-metadata target target ids s) full))
        refl
