-- ===== src/Mailbox/Tests.antt =====
-- The mailbox over an association list and a simple codec.
use babylontower.Prelude.{
  ◌+◌, ◌%◌, ◌^◌, ◌≤◌, ◌≡◌, refl, Option, none, some, List, [], ◌∷◌, ◌++◌, Bytes, ite, leb, length,
  take, drop, ok, err, arith, bytes_dec, codes, All, if_pos, if_neg, take_append, drop_append,
}
use babylontower.Prelude.Assoc.{Assoc, lookup, insert, delete, lookup-insert, lookup-delete}
use babylontower.Mailbox.Database.{Database, IsDatabase, StoredMessage, Codec, IsCodec}
use babylontower.Mailbox.Keys.{message_key-inj}
use babylontower.Mailbox.Metadata.{decode, encode, decode-encode, IsSized, MailboxMetadata}
use babylontower.Mailbox.Storage.{
  default_config, MailboxConfig, store_message, get_message, get_stats, delete_messages,
  count_limit_reached, new_message, check_quota, put_message, get_metadata, metadata_or_zero,
}
use babylontower.Mailbox.Quota.{store_message_full}
use babylontower.Mailbox.Deposits.{get_message-store_message, get_stats-store_message}
use babylontower.Mailbox.RateLimit.{check_rate_limit, increment_all, check_rate_limit-increment_all}

with_prefix : Bytes → Assoc Bytes Bytes → List (Bytes × Bytes)
with_prefix p [] = []
with_prefix p ((k, v) ∷ m) =
    let rest = with_prefix p m in ite (bytes_dec (take (length p) k) p) ((k, v) ∷ rest) rest

abbrev toy : Database
toy = record {
  Store = Assoc Bytes Bytes;
  get = lookup bytes_dec;
  set = insert bytes_dec;
  delete = delete bytes_dec;
  iterate = with_prefix;
}

with_prefix_lem :
    (p : Bytes) (m : Assoc Bytes Bytes) → All (λ item. take (length p) item.0 ≡ p) (with_prefix p m)
unfolding with_prefix
with_prefix_lem p [] = tt
with_prefix_lem p ((j, w) ∷ m) = elim (bytes_dec (take (length p) j) p) [
  | yes e ↦ rw (if_pos _ e) (e, with_prefix_lem p m)
  | no n ↦ rw (if_neg _ n) (with_prefix_lem p m)
]

toy-IsDatabase : IsDatabase toy
toy-IsDatabase = record {
  get-set = λ k j v s. lookup-insert bytes_dec k j v s;
  get-delete = λ k j s. lookup-delete bytes_dec k j s;
  iterate_prefix = with_prefix_lem;
}

abbrev toy_text : StoredMessage → Bytes
toy_text m =
    m.stored_at
    ∷ m.expires_at
    ∷ m.size
    ∷ length m.message_id
    ∷ length m.envelope
    ∷ (m.message_id ++ (m.envelope ++ m.sender_pubkey))

abbrev toy_unmarshal : Bytes → Option StoredMessage
toy_unmarshal (a ∷ b ∷ s ∷ n ∷ k ∷ rest) = some (record {
  message_id = take n rest;
  envelope = take k (drop n rest);
  sender_pubkey = drop k (drop n rest);
  stored_at = a;
  expires_at = b;
  size = s;
})
toy_unmarshal _ = none

abbrev toy_codec : Codec
toy_codec = record { marshal = λ m. some (toy_text m); unmarshal = toy_unmarshal }

toy_round_trip : (m : StoredMessage) → toy_unmarshal (toy_text m) ≡ some m
toy_round_trip m =
    rw
      (
        take_append m.message_id (m.envelope ++ m.sender_pubkey),
        drop_append m.message_id (m.envelope ++ m.sender_pubkey),
        take_append m.envelope m.sender_pubkey,
        drop_append m.envelope m.sender_pubkey,
      )
      refl

toy-IsCodec : IsCodec toy_codec
toy-IsCodec = record {
  unmarshal-marshal = λ m b e. let q : toy_text m ≡ b = ground arith in rw (← q) (toy_round_trip m);
}

abbrev target : Bytes
target = 17 ∷ 2 ∷ []

abbrev config : MailboxConfig
config = record default_config { max_messages_per_target = 1 }

abbrev hello : Bytes
hello = codes "hello"

abbrev deposited : toy.Store
deposited =
    (store_message toy toy_codec config 5_000_000_000 5_000_000_001 target (1 ∷ []) (9 ∷ []) hello
      60 []).0

deposited_ok :
    store_message toy toy_codec config 5_000_000_000 5_000_000_001 target
      (1 ∷ [])
      (9 ∷ [])
      hello
      60
      []
    ≡ (deposited, ok tt)
unfolding store_message check_quota get_metadata lookup put_message
deposited_ok = refl

get_message-store_message_example :
    get_message toy toy_codec target (1 ∷ []) deposited
    ≡ ok (new_message toy toy_codec 5_000_000_000 (1 ∷ []) (9 ∷ []) hello 60)
get_message-store_message_example =
    get_message-store_message toy toy_codec config 5_000_000_000 5_000_000_001 target (1 ∷ [])
      (9 ∷ []) hello 60 [] deposited_ok toy-IsDatabase toy-IsCodec

empty-IsSized : IsSized (metadata_or_zero toy (get_metadata toy target []))
unfolding get_metadata lookup
empty-IsSized = record {
  count_fits = omega arith;
  bytes_fit = omega arith;
  oldest_fits = omega arith;
  newest_fits = omega arith;
}

get_stats-store_message_example :
    ((get_stats toy config target deposited).stored_count
      ≡ (get_stats toy config target []).stored_count + 1)
    × ((get_stats toy config target deposited).used_bytes
        ≡ ((get_stats toy config target []).used_bytes + length hello) % 2 ^ 64)
    × ((get_stats toy config target deposited).stored_count ≤ 1)
unfolding get_metadata lookup
get_stats-store_message_example =
    get_stats-store_message toy toy_codec config 5_000_000_000 5_000_000_001 target (1 ∷ [])
      (9 ∷ []) hello 60 [] deposited_ok toy-IsDatabase empty-IsSized (omega arith) (omega arith)
      (omega arith)

deposited_count : 1 ≤ (get_stats toy config target deposited).stored_count
deposited_count =
    let grown =
      get_stats-store_message toy toy_codec config 5_000_000_000 5_000_000_001 target (1 ∷ [])
        (9 ∷ []) hello 60 [] deposited_ok toy-IsDatabase empty-IsSized (omega arith) (omega arith)
        (omega arith) in
    omega (arith, grown.0)

store_message_full_example :
    store_message toy toy_codec config 6_000_000_000 6_000_000_000 target
      (2 ∷ [])
      (9 ∷ [])
      hello
      60
      (delete_messages toy target ((1 ∷ []) ∷ []) deposited)
    ≡ (delete_messages toy target ((1 ∷ []) ∷ []) deposited, err count_limit_reached)
store_message_full_example =
    store_message_full toy toy-IsDatabase toy_codec config 6_000_000_000 6_000_000_000 target
      ((1 ∷ []) ∷ []) (2 ∷ []) (9 ∷ []) hello 60 deposited (omega arith) deposited_count

-- Three deposits in the second hour.
check_rate_limit-increment_all_example :
    check_rate_limit toy default_config 3_600_000_000_000 (9 ∷ []) target (
      increment_all toy
        (3_700_000_000_000 ∷ 3_800_000_000_000 ∷ 7_199_000_000_000 ∷ [])
        (9 ∷ [])
        target
        [])
    ≡ ok (leb 100 3)
unfolding lookup
check_rate_limit-increment_all_example =
    check_rate_limit-increment_all toy toy-IsDatabase (9 ∷ []) target 1 default_config
      3_600_000_000_000 (3_700_000_000_000 ∷ 3_800_000_000_000 ∷ 7_199_000_000_000 ∷ []) [] refl
      (refl, (refl, (refl, tt))) (omega arith) refl

abbrev third_id : Bytes
third_id = 3 ∷ []

message_key-inj_example : (target ≡ target) × (third_id ≡ third_id)
message_key-inj_example =
    message_key-inj target target third_id third_id (omega arith, (omega arith, tt))
      (omega arith, (omega arith, tt)) (omega arith, tt) (omega arith, tt) refl

abbrev two_messages : MailboxMetadata
two_messages = record { message_count = 2; total_bytes = 70000; oldest_time = 5; newest_time = 9 }

two_messages-IsSized : IsSized two_messages
two_messages-IsSized = record {
  count_fits = omega arith;
  bytes_fit = omega arith;
  oldest_fits = omega arith;
  newest_fits = omega arith;
}

decode-encode_example : decode (encode two_messages) ≡ two_messages
decode-encode_example = decode-encode two_messages two_messages-IsSized
