-- ===== src/Mailbox/Messages.antt =====
-- What the readers of a mailbox see after `StoreMessage` (pkg/mailbox/storage.go).
use babylontower.Prelude.{
  ℕ, zero, suc, ◌/◌, ◌^◌, ◌<◌, ◌≡◌, ◌≢◌, ◌∙◌, refl, some, List, [], ◌∷◌, Bytes, length, take, ok,
  arith, Option-cases, inl, inr, ◌⊎◌, All,
}
use babylontower.Mailbox.Database.{
  Database, IsDatabase, get-set_same, get-set_other, get-delete_other,
}
use babylontower.Mailbox.Keys.{
  mailbox_prefix, message_key, meta_key, message_key-meta_key, fourth-eq,
}
use babylontower.Mailbox.Metadata.{count_message, IsSized, decode-encode, count_message-IsSized}
use babylontower.Mailbox.Storage.{
  MailboxConfig, get_metadata, update_metadata, delete_keys, item_keys, evict_oldest, check_quota,
  metadata_or_zero, second,
}

module _ (d : Database) (laws : IsDatabase d) where
  delete_keys_other :
      (j : Bytes) (ks : List Bytes) (s : d.Store)
      → All (λ k. k ≢ j) ks
      → d.get j (delete_keys d ks s) ≡ d.get j s
  unfolding delete_keys
  delete_keys_other j [] s h = refl
  delete_keys_other j (k ∷ ks) s h =
      delete_keys_other j ks (d.delete k s) h.1 ∙ get-delete_other d laws k j s h.0

  prefix_meta :
      (target other k : Bytes)
      → take (length (mailbox_prefix target)) k ≡ mailbox_prefix target
      → k ≢ meta_key other
  unfolding mailbox_prefix meta_key
  prefix_meta target other k e f =
      let whole = rw f at e in let z = fourth-eq whole in absurd (ground arith)

  item_keys_other :
      (target other : Bytes) (n : ℕ) (items : List (Bytes × Bytes))
      → All (λ item. take (length (mailbox_prefix target)) item.0 ≡ mailbox_prefix target) items
      → All (λ k. k ≢ meta_key other) (item_keys d (take n items))
  item_keys_other target other zero items h = tt
  item_keys_other target other (suc n) [] h = tt
  item_keys_other target other (suc n) ((k, v) ∷ items) h =
      (prefix_meta target other k h.0, item_keys_other target other n items h.1)

  -- The eviction of messages keeps the metadata.
  evict_oldest-metadata :
      (target other : Bytes) (n : ℕ) (s : d.Store)
      → get_metadata d other (evict_oldest d target n s) ≡ get_metadata d other s
  unfolding get_metadata evict_oldest
  evict_oldest-metadata target other n s =
      let kept =
        delete_keys_other (meta_key other)
          (item_keys d (take n (d.iterate (mailbox_prefix target) s))) s
          (item_keys_other target other n (d.iterate (mailbox_prefix target) s)
            (laws.iterate_prefix (mailbox_prefix target) s)) in
      rw (kept, get_metadata) refl

  pub check_quota-ok :
      (cfg : MailboxConfig) (target : Bytes) (s s' : d.Store)
      → check_quota d cfg target s ≡ (s', ok tt)
      → get_metadata d target s' ≡ get_metadata d target s
  unfolding check_quota
  check_quota-ok cfg target s s' e =
      let kept = evict_oldest-metadata target target 1 s in
      elim (Option-cases (get_metadata d target s)) [
        | inl n ↦ let q : s ≡ s' = ground arith in rw (← q) refl
        | inr (m, f) ↦
            let q : (s ≡ s') ⊎ (evict_oldest d target 1 s ≡ s') = ground arith in
            elim q [ inl same ↦ rw (← same) refl | inr gone ↦ rw (← gone) kept ]
      ]

  pub update_metadata-metadata :
      (now : ℕ) (target : Bytes) (size : ℕ) (s : d.Store)
      → IsSized (metadata_or_zero d (get_metadata d target s))
      → now / second < 2 ^ 64
      → get_metadata d target (update_metadata d now target size s)
        ≡ some (count_message (now / second) size (metadata_or_zero d (get_metadata d target s)))
  unfolding get_metadata update_metadata
  update_metadata-metadata now target size s sized clock =
      let m = metadata_or_zero d (get_metadata d target s) in
      rw
        (
          get-set_same d laws (meta_key target) _ s,
          get_metadata,
          decode-encode (count_message (now / second) size m)
              (count_message-IsSized (now / second) size m sized clock),
        )
        refl

  pub check_quota-under :
      (cfg : MailboxConfig) (target : Bytes) (s s' : d.Store)
      → 0 < cfg.max_messages_per_target
      → check_quota d cfg target s ≡ (s', ok tt)
      → (metadata_or_zero d (get_metadata d target s)).message_count < cfg.max_messages_per_target
  unfolding check_quota
  check_quota-under cfg target s s' some_room e = elim (Option-cases (get_metadata d target s)) [
    | inl n ↦ rw n some_room
    | inr (m, f) ↦ rw f (ground arith)
  ]

  -- Writing a message keeps the metadata.
  pub set_message-metadata :
      (target id b other : Bytes) (s : d.Store)
      → get_metadata d other (d.set (message_key target id) b s) ≡ get_metadata d other s
  unfolding get_metadata
  set_message-metadata target id b other s =
      rw
        (
          get-set_other d laws (message_key target id) (meta_key other) b s
              (message_key-meta_key target id other),
          get_metadata,
        )
        refl
