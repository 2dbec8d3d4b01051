-- ===== src/Storage/Pages.antt =====
-- What a page of the messages holds after any run of writes (pkg/storage/memory.go).
use babylontower.Prelude.{
  ℕ, zero, suc, ◌+◌, ◌^◌, ◌<◌, ◌≡◌, refl, ap, ◌∙◌, List, [], ◌∷◌, Bytes, ok, arith, bytes_dec,
  if◌then◌else◌, leb, take, drop, length, Option-cases, Bool-cases, inl, inr,
}
use babylontower.Prelude.Int.{pos}
use babylontower.Prelude.Assoc.{lookup}
use babylontower.Storage.Records.{SignedEnvelope}
use babylontower.Storage.Memory.{MemoryStorage, new_memory_storage}
use babylontower.Storage.Reading.{get_messages, window}
use babylontower.Storage.Spec.{Op, steps, empty_view}
use babylontower.Storage.Refinement.{view}
use babylontower.Storage.Runs.{write_all, write_all-view}

-- At most `limit` of the messages after the first `offset`; all of them if `limit` is 0.
abbrev pub page : {A : Type 0} → ℕ → ℕ → List A → List A
page limit offset all = if leb limit 0 then drop offset all else take limit (drop offset all)

drop_long : {A : Type 0} (n : ℕ) (xs : List A) → length xs < n + 1 → drop n xs ≡ []
drop_long zero [] h = refl
drop_long zero (x ∷ xs) h = absurd (omega arith)
drop_long (suc n) [] h = refl
drop_long (suc n) (x ∷ xs) h = drop_long n xs (omega arith)

take_nil : {A : Type 0} (n : ℕ) → take {A = A} n [] ≡ []
take_nil zero = refl
take_nil (suc n) = refl

window-page :
    {A : Type 0} (limit offset : ℕ) (all : List A)
    → limit + offset < 2 ^ 63
    → window (pos limit) (pos offset) all ≡ ok (page limit offset all)
window-page {A = A} limit offset all h = elim (Bool-cases (leb (length all) offset)) [
  | inl e ↦
      let nothing = drop_long offset all (ground arith) in
      let none_taken = take_nil {A = A} limit in ground arith
  | inr e ↦ ground arith
]

drop_nil : {A : Type 0} (n : ℕ) → drop {A = A} n [] ≡ []
drop_nil zero = refl
drop_nil (suc n) = refl

get_messages-page :
    (k : Bytes) (limit offset : ℕ) (s : MemoryStorage)
    → limit + offset < 2 ^ 63
    → get_messages k (pos limit) (pos offset) s ≡ ok (page limit offset ((view s).messages k))
unfolding view get_messages
get_messages-page k limit offset s h = elim (Option-cases (lookup bytes_dec k s.messages)) [
  | inl e ↦
      let nothing = drop_nil {A = SignedEnvelope} offset in
      let none_taken = take_nil {A = SignedEnvelope} limit in rw (e, get_messages) (ground arith)
  | inr (all, e) ↦ rw (e, get_messages) (window-page limit offset all h)
]

-- After any sequence of calls on the empty store that add, save, set or delete a record, a page of
-- the messages of a contact, read with a limit and an offset that are not negative and whose sum is
-- below 2^63, holds the messages that the abstract store has for the contact after the same calls:
-- in their order, without the first `offset`, and at most `limit` of them unless the limit is 0.
pub get_messages-steps :
    (ops : List Op) (k : Bytes) (limit offset : ℕ)
    → limit + offset < 2 ^ 63
    → get_messages k (pos limit) (pos offset) (write_all ops new_memory_storage).0
      ≡ ok (page limit offset ((steps ops empty_view).messages k))
get_messages-steps ops k limit offset h =
    let (s, e, v) = write_all-view ops in
    ap (λ r. get_messages k (pos limit) (pos offset) r.0) e
    ∙ get_messages-page k limit offset s h
    ∙ ap (λ w. ok (page limit offset (w.messages k))) v
