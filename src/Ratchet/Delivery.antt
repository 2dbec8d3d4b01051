-- ===== src/Ratchet/Delivery.antt =====
-- `Decrypt` on the messages of one sending chain, in the order of arrival (ratchet.go).
use babylontower.Prelude.{
  ℕ, suc, ◌+◌, ◌-◌, ◌≤◌, ◌<◌, ◌^◌, ◌≡◌, ap, ◌∙◌, Option, none, some, Bytes, ◌⊎◌, inl, inr, arith,
  length, ◌≢◌, ok, dec_lt,
}
use babylontower.Prelude.Assoc.{lookup, delete, lookup-delete, length-delete-le}
use babylontower.Ratchet.Crypto.{Crypto, decrypt_with_key}
use babylontower.Ratchet.State.{DoubleRatchetState, RatchetHeader, max_skipped_keys}
use babylontower.Ratchet.Skipped.{name_dec, get_skipped_key}
use babylontower.Ratchet.Cipher.{decrypt_cached, decrypt}
use babylontower.Ratchet.Chain.{
  message_key_at, Holds, IsAt, skipped, skip_rounds-Holds_old, skip_rounds-Holds,
  length-skip_rounds, skip_rounds_twice,
}
use babylontower.Ratchet.Advance.{follow_header_same, skip_rounds_fresh, Advanced, decrypt_next_lem}

module _ (c : Crypto) (start p : Bytes) (top : ℕ) where
  -- The receiver stands at message `n` of the chain of public key `p`, has cached no key of a message
  -- to come, and has room for the keys of all messages below `top`.
  pub record Receives (n : ℕ) (s : DoubleRatchetState) : Type 0 where
    pub at : IsAt c start (some p) n s
    pub fresh : (i : ℕ) → n ≤ i → lookup name_dec (some p, i) s.skipped_keys ≡ none
    pub room : length s.skipped_keys + (top - n) ≤ max_skipped_keys

  -- Message `i` is to come on the chain, or its key is cached.
  abbrev pub IsPending : ℕ → ℕ → DoubleRatchetState → Type 0
  IsPending n i s = (n ≤ i) ⊎ Holds c start (some p) i s.skipped_keys

  -- `Decrypt` returned the text, and every other message that was pending still is.
  pub record Delivers (n i : ℕ) (s : DoubleRatchetState) (s' : DoubleRatchetState) : Type 0 where
    pub next : ℕ
    pub receives : Receives next s'
    pub others : (j : ℕ) → j ≢ i → IsPending n j s → IsPending next j s'

  Advanced-Delivers :
      (n i : ℕ) (s s' : DoubleRatchetState)
      → Receives n s
      → n ≤ i
      → i < top
      → Advanced c start p n i s s'
      → Delivers n i s s'
  Advanced-Delivers n i s s' r le below adv = record {
    next = suc i;
    receives = record {
      at = adv.at;
      fresh = λ j h. rw once (
          skip_rounds_fresh c start p (i - n) n j s.skipped_keys (omega arith)
            (r.fresh j (omega arith)));
      room = omega (
        arith,
        ap length once,
        length-skip_rounds c start (some p) (i - n) n s.skipped_keys,
        r.room,
      );
    };
    others = others;
  }
    where
      held_room : length s.skipped_keys + (i - n) ≤ max_skipped_keys
      held_room = omega (arith, r.room)

      once : s'.skipped_keys ≡ skipped c start (some p) (i - n) n s.skipped_keys
      once = adv.cached ∙ skip_rounds_twice c start (some p) (i - n) n s.skipped_keys held_room

      later_or_held : (j : ℕ) → j ≢ i → n ≤ j → Dec (i < j) → IsPending (suc i) j s'
      later_or_held j ne le (yes h) = inl h
      later_or_held j ne le (no h) = inr (
          rw once (
            skip_rounds-Holds c start (some p) (i - n) n j s.skipped_keys held_room le
              (omega arith)))

      others : (j : ℕ) → j ≢ i → IsPending n j s → IsPending (suc i) j s'
      others j ne (inl le) = later_or_held j ne le (dec_lt i j)
      others j ne (inr held) =
          inr (rw once (skip_rounds-Holds_old c start (some p) (i - n) n j s.skipped_keys held))

  deleted-Delivers :
      (n i : ℕ) (s : DoubleRatchetState)
      → Receives n s
      → i < n
      → Delivers n i s (record s { skipped_keys = delete name_dec (some p, i) s.skipped_keys })
  deleted-Delivers n i s r lt = record {
    next = n;
    receives = record {
      at = record { receiving_key = r.at.receiving_key; count = r.at.count; remote = r.at.remote };
      fresh = λ j h.
          ground
            (arith, r.fresh j h, lookup-delete name_dec (some p, i) (some p, j) s.skipped_keys);
      room = omega (arith, r.room, length-delete-le name_dec (some p, i) s.skipped_keys);
    };
    others = others;
  }
    where
      others :
          (j : ℕ)
          → j ≢ i
          → IsPending n j s
          → IsPending n j (record s { skipped_keys = delete name_dec (some p, i) s.skipped_keys })
      others j ne (inl le) = inl le
      others j ne (inr held) =
          inr (ground (arith, lookup-delete name_dec (some p, i) (some p, j) s.skipped_keys))

  module _ (seed : Option Bytes) (now : ℕ) (h : RatchetHeader) (ct ad text : Bytes)
      (sender : h.dh_ratchet_pub ≡ some p) (word : top < 2 ^ 32) (below : h.message_number < top)
      (opens : decrypt_with_key c (message_key_at c start h.message_number) h.message_number ct ad
        ≡ some text) where
    deliver_next :
        (n : ℕ) (s : DoubleRatchetState)
        → Receives n s
        → n ≤ h.message_number
        → (s' : DoubleRatchetState) × (decrypt c seed now h ct ad s ≡ (s', ok text))
          × Delivers n h.message_number s s'
    unfolding decrypt get_skipped_key decrypt_cached
    deliver_next n s r le =
        let (s', e, adv) =
          decrypt_next_lem c start p now n h ct ad text s r.at le (omega arith) opens in
        (
          s',
          ground (
            arith,
            follow_header_same c seed h p s sender r.at.remote,
            r.fresh h.message_number le,
          ),
          Advanced-Delivers n h.message_number s s' r le below adv,
        )

    deliver_cached :
        (n : ℕ) (s : DoubleRatchetState)
        → Receives n s
        → h.message_number < n
        → Holds c start (some p) h.message_number s.skipped_keys
        → (s' : DoubleRatchetState) × (decrypt c seed now h ct ad s ≡ (s', ok text))
          × Delivers n h.message_number s s'
    unfolding decrypt get_skipped_key decrypt_cached
    deliver_cached n s r lt held = (
      record s { skipped_keys = delete name_dec (some p, h.message_number) s.skipped_keys },
      ground (arith, follow_header_same c seed h p s sender r.at.remote),
      deleted-Delivers n h.message_number s r lt,
    )

    -- A pending message below `top` decrypts to its text, wherever the receiver stands, and every other
    -- pending message stays pending.
    pub decrypt-Delivers :
        (n : ℕ) (s : DoubleRatchetState)
        → Receives n s
        → IsPending n h.message_number s
        → (s' : DoubleRatchetState) × (decrypt c seed now h ct ad s ≡ (s', ok text))
          × Delivers n h.message_number s s'
    decrypt-Delivers n s r pending = elim (dec_lt h.message_number n) [
      | no ahead ↦ deliver_next n s r (omega arith)
      | yes behind ↦ elim pending [
        | inl le ↦ absurd (omega arith)
        | inr held ↦ deliver_cached n s r behind held
      ]
    ]
