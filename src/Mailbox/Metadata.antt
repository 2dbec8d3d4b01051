-- ===== src/Mailbox/Metadata.antt =====
-- `MailboxMetadata` of pkg/mailbox/storage.go and its 28 bytes.
use babylontower.Prelude.{
  ℕ, zero, suc, ◌+◌, ◌*◌, ◌/◌, ◌%◌, ◌^◌, ◌<◌, ◌≡◌, refl, [], ◌∷◌, ◌++◌, Bytes, if◌then◌else◌, ltb,
  le_bytes, take, drop, length, arith, ◌==◌, ◌||◌,
}

pub record MailboxMetadata : Type 0 where
  pub message_count : ℕ
  pub total_bytes : ℕ
  pub oldest_time : ℕ
  pub newest_time : ℕ

abbrev pub no_metadata : MailboxMetadata
no_metadata = record { message_count = 0; total_bytes = 0; oldest_time = 0; newest_time = 0 }

-- `binary.LittleEndian.Uint32` and `Uint64` of a slice of their size.
unfoldable pub le_value : Bytes → ℕ
le_value [] = 0
le_value (b ∷ bs) = b + 256 * le_value bs

unfoldable pub encode : MailboxMetadata → Bytes
encode m =
    le_bytes 4 m.message_count
    ++ le_bytes 8 m.total_bytes
    ++ le_bytes 8 m.oldest_time
    ++ le_bytes 8 m.newest_time

-- Bytes of another length than 28 and more leave the zero metadata.
unfoldable pub decode : Bytes → MailboxMetadata
decode b = if ltb (length b) 28 then no_metadata else record {
  message_count = le_value (take 4 b);
  total_bytes = le_value (take 8 (drop 4 b));
  oldest_time = le_value (take 8 (drop 12 b));
  newest_time = le_value (take 8 (drop 20 b));
}

-- What `updateMetadata` does to the fields.
unfoldable pub count_message : ℕ → ℕ → MailboxMetadata → MailboxMetadata
count_message now size m = record {
  message_count = (m.message_count + 1) % 2 ^ 32;
  total_bytes = (m.total_bytes + size) % 2 ^ 64;
  oldest_time = if m.oldest_time == 0 || ltb now m.oldest_time then now else m.oldest_time;
  newest_time = now;
}

-- The fields fit their types.
pub record IsSized (m : MailboxMetadata) : Type 0 where
  pub count_fits : m.message_count < 2 ^ 32
  pub bytes_fit : m.total_bytes < 2 ^ 64
  pub oldest_fits : m.oldest_time < 2 ^ 64
  pub newest_fits : m.newest_time < 2 ^ 64

pub le_value-le_bytes : (k n : ℕ) → n < 256 ^ k → le_value (le_bytes k n) ≡ n
unfolding le_value le_bytes
le_value-le_bytes zero n h = omega arith
le_value-le_bytes (suc k) n h =
    let q : n / 256 < 256 ^ k = omega arith in rw (le_value-le_bytes k (n / 256) q) (omega arith)

-- What `updateMetadata` writes, `getMetadata` reads back.
pub decode-encode : (m : MailboxMetadata) → IsSized m → decode (encode m) ≡ m
unfolding decode encode le_bytes
decode-encode m s =
    rw
      (
        le_value-le_bytes 4 m.message_count s.count_fits,
        le_value-le_bytes 8 m.total_bytes s.bytes_fit,
        le_value-le_bytes 8 m.oldest_time s.oldest_fits,
        le_value-le_bytes 8 m.newest_time s.newest_fits,
      )
      refl

pub count_message-IsSized :
    (now size : ℕ) (m : MailboxMetadata)
    → IsSized m
    → now < 2 ^ 64
    → IsSized (count_message now size m)
unfolding count_message
count_message-IsSized now size m s h = record {
  count_fits = omega arith;
  bytes_fit = omega arith;
  oldest_fits = let o = s.oldest_fits in ground arith;
  newest_fits = h;
}
