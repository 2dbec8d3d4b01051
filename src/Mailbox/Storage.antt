-- ===== src/Mailbox/Storage.antt =====
-- `Storage` of pkg/mailbox/storage.go over a database and the protobuf code. A method of the mutex
-- is one step from the store to a new store and a result; the clock is an argument, in nanoseconds,
-- and Unix seconds are `uint64`.
use babylontower.Prelude.{
  ℕ, ◌+◌, ◌-◌, ◌*◌, ◌/◌, ◌%◌, ◌^◌, Option, none, some, List, [], ◌∷◌, Bytes, Bool, true, false,
  if◌then◌else◌, ltb, leb, take, length, Result, ok, err,
}
use babylontower.Mailbox.Database.{Database, StoredMessage, Codec}
use babylontower.Mailbox.Keys.{mailbox_prefix, message_key, meta_key}
use babylontower.Mailbox.Metadata.{MailboxMetadata, no_metadata, encode, decode, count_message}

pub record MailboxConfig : Type 0 where
  pub max_messages_per_target : ℕ
  pub max_message_size : ℕ
  pub max_total_bytes_per_target : ℕ
  pub default_ttl_seconds : ℕ
  pub deposit_rate_limit : ℕ
  pub enable_content_routing : Bool

abbrev pub default_config : MailboxConfig
default_config = record {
  max_messages_per_target = 500;
  max_message_size = 262144;
  max_total_bytes_per_target = 67108864;
  default_ttl_seconds = 604800;
  deposit_rate_limit = 100;
  enable_content_routing = false;
}

pub data Error : Type 0 where
  message_not_found count_limit_reached marshal_failed unmarshal_failed index_out_of_range : Error

pub record MailboxStats : Type 0 where
  pub target_pubkey : Bytes
  pub stored_count : ℕ
  pub used_bytes : ℕ
  pub capacity_bytes : ℕ
  pub oldest_timestamp : ℕ
  pub newest_timestamp : ℕ

abbrev pub second : ℕ
second = 1_000_000_000

-- `uint64(now.Add(time.Duration(ttlSeconds) * time.Second).Unix())`: the product is an `int64`.
unfoldable pub expiry : ℕ → ℕ → ℕ
expiry now ttl =
    let d = (ttl * second) % 2 ^ 64 in
    if ltb d (2 ^ 63)
    then (now + d) / second
    else if leb (2 ^ 64) (now + d)
    then (now + d - 2 ^ 64) / second
    else 2 ^ 64 - (2 ^ 64 - (now + d) + (second - 1)) / second

-- `time.Unix(int64(expiresAt), 0).Before(now)`
unfoldable pub has_expired : ℕ → ℕ → Bool
has_expired now expires_at = if ltb expires_at (2 ^ 63) then ltb (expires_at * second) now else true

module _ (d : Database) where
  -- `getMetadata`
  unfoldable pub get_metadata : Bytes → d.Store → Option MailboxMetadata
  get_metadata target s = elim (d.get (meta_key target) s) [
    | none ↦ none
    | some b ↦ some (decode b)
  ]

  abbrev pub metadata_or_zero : Option MailboxMetadata → MailboxMetadata
  metadata_or_zero none = no_metadata
  metadata_or_zero (some m) = m

  -- `updateMetadata`
  unfoldable pub update_metadata : ℕ → Bytes → ℕ → d.Store → d.Store
  unfolding get_metadata
  update_metadata now target size s =
      d.set (meta_key target)
        (encode (count_message (now / second) size (metadata_or_zero (get_metadata target s)))) s

  -- `txn.Delete` for each key.
  unfoldable pub delete_keys : List Bytes → d.Store → d.Store
  delete_keys [] s = s
  delete_keys (k ∷ ks) s = delete_keys ks (d.delete k s)

  abbrev pub item_keys : List (Bytes × Bytes) → List Bytes
  item_keys [] = []
  item_keys ((k, v) ∷ items) = k ∷ item_keys items

  -- `evictOldest`: the first keys in the iterator's order.
  unfoldable pub evict_oldest : Bytes → ℕ → d.Store → d.Store
  unfolding delete_keys
  evict_oldest target count s =
      delete_keys (item_keys (take count (d.iterate (mailbox_prefix target) s))) s

  -- `checkQuota`
  unfoldable pub check_quota : MailboxConfig → Bytes → d.Store → d.Store × Result Error (Unit {0})
  check_quota cfg target s = elim (get_metadata target s) [
    | none ↦ (s, ok tt)
    | some m ↦
        if leb cfg.max_messages_per_target m.message_count
        then (s, err count_limit_reached)
        else if ltb cfg.max_total_bytes_per_target ((m.total_bytes + cfg.max_message_size) % 2 ^ 64)
        then (evict_oldest target 1 s, ok tt)
        else (s, ok tt)
  ]

  -- `DeleteMessages`
  unfoldable pub delete_messages : Bytes → List Bytes → d.Store → d.Store
  delete_messages target [] s = s
  delete_messages target (id ∷ ids) s =
      delete_messages target ids (d.delete (message_key target id) s)

  -- `GetStats`
  unfoldable pub get_stats : MailboxConfig → Bytes → d.Store → MailboxStats
  get_stats cfg target s =
      let m = metadata_or_zero (get_metadata target s) in
      record {
        target_pubkey = target;
        stored_count = m.message_count;
        used_bytes = m.total_bytes;
        capacity_bytes = cfg.max_total_bytes_per_target;
        oldest_timestamp = m.oldest_time;
        newest_timestamp = m.newest_time;
      }

  module _ (c : Codec) where
    -- The transaction of `StoreMessage`; one that returns an error changes nothing.
    unfoldable pub put_message :
        ℕ → Bytes → StoredMessage → d.Store → d.Store × Result Error (Unit {0})
    put_message later target m s = elim (c.marshal m) [
      | none ↦ (s, err marshal_failed)
      | some b ↦
          (update_metadata later target m.size (d.set (message_key target m.message_id) b s), ok tt)
    ]

    abbrev pub new_message : ℕ → Bytes → Bytes → Bytes → ℕ → StoredMessage
    new_message now message_id sender envelope ttl = record {
      message_id = message_id;
      envelope = envelope;
      sender_pubkey = sender;
      stored_at = now / second;
      expires_at = expiry now ttl;
      size = length envelope;
    }

    abbrev pub and_then :
        d.Store × Result Error (Unit {0})
        → (d.Store → d.Store × Result Error (Unit {0}))
        → d.Store × Result Error (Unit {0})
    and_then (s, err e) f = (s, err e)
    and_then (s, ok _) f = f s

    -- `StoreMessage`: `now` is its clock, `later` that of `updateMetadata`.
    unfoldable pub store_message :
        MailboxConfig
        → ℕ
        → ℕ
        → Bytes
        → Bytes
        → Bytes
        → Bytes
        → ℕ
        → d.Store
        → d.Store × Result Error (Unit {0})
    store_message cfg now later target message_id sender envelope ttl s =
        and_then (check_quota cfg target s)
          (put_message later target (new_message now message_id sender envelope ttl))

    -- `GetMessage`
    unfoldable pub get_message : Bytes → Bytes → d.Store → Result Error StoredMessage
    get_message target message_id s = elim (d.get (message_key target message_id) s) [
      | none ↦ err message_not_found
      | some b ↦ elim (c.unmarshal b) [ none ↦ err unmarshal_failed | some m ↦ ok m ]
    ]

    -- The loop of `ListMessages`: expired messages are left out, and a text that does not parse fails.
    unfoldable pub list_items : ℕ → List (Bytes × Bytes) → Result Error (List StoredMessage)
    list_items now [] = ok []
    list_items now ((k, b) ∷ items) =
        let rest = list_items now items in
        elim (c.unmarshal b) [
          | none ↦ err unmarshal_failed
          | some m ↦ elim rest [
            | err e ↦ err e
            | ok ms ↦ if has_expired now m.expires_at then ok ms else ok (m ∷ ms)
          ]
        ]

    -- `ListMessages`
    unfoldable pub list_messages : ℕ → Bytes → d.Store → Result Error (List StoredMessage)
    list_messages now target s = list_items now (d.iterate (mailbox_prefix target) s)
