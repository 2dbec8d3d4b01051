-- ===== src/Mailbox/Database.antt =====
-- What pkg/mailbox/storage.go uses of BadgerDB and of the generated protobuf code, as parameters.
use babylontower.Prelude.{
  ℕ, ◌≡◌, Option, none, some, List, Bytes, ite, bytes_dec, length, take, arith, ◌≢◌, All,
}

-- A database that does not fail: a transaction reads and writes one store, and `none` is
-- `badger.ErrKeyNotFound`. `iterate` has the keys with a prefix and their values, in the order of the
-- default iterator.
pub record Database : Type 1 where
  pub Store : Type 0
  pub get : Bytes → Store → Option Bytes
  pub set : Bytes → Bytes → Store → Store
  pub delete : Bytes → Store → Store
  pub iterate : Bytes → Store → List (Bytes × Bytes)

-- A read sees the last write to the key, and an iterator has only keys with the prefix.
pub record IsDatabase (d : Database) : Type 0 where
  pub get-set :
      (k j v : Bytes) (s : d.Store)
      → d.get j (d.set k v s) ≡ ite (bytes_dec k j) (some v) (d.get j s)
  pub get-delete :
      (k j : Bytes) (s : d.Store) → d.get j (d.delete k s) ≡ ite (bytes_dec k j) none (d.get j s)
  pub iterate_prefix :
      (prefix : Bytes) (s : d.Store)
      → All (λ item. take (length prefix) item.0 ≡ prefix) (d.iterate prefix s)

-- `StoredMailboxMessage`; the times are Unix seconds.
pub record StoredMessage : Type 0 where
  pub message_id : Bytes
  pub envelope : Bytes
  pub sender_pubkey : Bytes
  pub stored_at : ℕ
  pub expires_at : ℕ
  pub size : ℕ

-- `proto.Marshal` and `proto.Unmarshal`, `none` where they fail.
pub record Codec : Type 0 where
  pub marshal : StoredMessage → Option Bytes
  pub unmarshal : Bytes → Option StoredMessage

pub record IsCodec (c : Codec) : Type 0 where
  pub unmarshal-marshal :
      (m : StoredMessage) (b : Bytes) → c.marshal m ≡ some b → c.unmarshal b ≡ some m

module _ (d : Database) (laws : IsDatabase d) where
  pub get-set_same : (k v : Bytes) (s : d.Store) → d.get k (d.set k v s) ≡ some v
  get-set_same k v s = ground (arith, laws.get-set k k v s)

  pub get-set_other : (k j v : Bytes) (s : d.Store) → k ≢ j → d.get j (d.set k v s) ≡ d.get j s
  get-set_other k j v s n = ground (arith, laws.get-set k j v s)

  pub get-delete_other : (k j : Bytes) (s : d.Store) → k ≢ j → d.get j (d.delete k s) ≡ d.get j s
  get-delete_other k j s n = ground (arith, laws.get-delete k j s)
