-- ===== src/Prelude/Sorting.antt =====
-- The sort by swaps that the code uses in several places: for every place, a later element that goes
-- before the one there changes places with it.
use Prim.Native.Nat.{ℕ, zero, suc, ◌≤◌}
use mathlib.Core.Path.{◌≡◌, refl, ap}
use mathlib.Core.Bool.{Bool, true, false}
use mathlib.Core.List.{
  List, [], ◌∷◌, Perm, Pairwise, Mem, mem-cons_self, mem-cons_of_mem, eq-or-mem_of_mem-cons,
  not-mem-nil,
}
use mathlib.Core.List.Perm
use mathlib.Core.Logic.{inl, inr}
use mathlib.Core.Logic.Or
use native.Mathlib.Omega.{arith}
use babylontower.Prelude.Lists.{length}
use babylontower.Prelude.Tests.{if◌then◌else◌, Bool-cases}

-- `over x y` if y goes before x.
module _ {A : Type 0} (over : A → A → Bool) where
  -- The inner loop: the element that is left at the place, and those after it.
  unfoldable pub swap_down : A → List A → A × List A
  swap_down x [] = (x, [])
  swap_down x (y ∷ ys) =
      let swap = over x y in
      let (top, rest) = swap_down (if swap then y else x) ys in
      (top, (if swap then x else y) ∷ rest)

  -- The outer loop: the number is that of the elements.
  unfoldable pub swap_sort : ℕ → List A → List A
  unfolding swap_down
  swap_sort zero xs = xs
  swap_sort (suc n) [] = []
  swap_sort (suc n) (x ∷ xs) =
      let (top, rest) = swap_down x xs in let sorted = swap_sort n rest in top ∷ sorted

  pub swap_down-perm :
      (x : A) (xs : List A) → Perm ((swap_down x xs).0 ∷ (swap_down x xs).1) (x ∷ xs)
  unfolding swap_down
  swap_down-perm x [] = Perm.rfl
  swap_down-perm x (y ∷ ys) = elim (Bool-cases (over x y)) [
    | inl e ↦ rw (e, swap_down) (Perm.trans (Perm.swap x _ _) (Perm.cons x (swap_down-perm y ys)))
    | inr e ↦
        rw (e, swap_down)
          (Perm.trans (Perm.swap y _ _)
            (Perm.trans (Perm.cons y (swap_down-perm x ys)) (Perm.swap x y ys)))
  ]

  pub swap_sort-perm : (n : ℕ) (xs : List A) → Perm (swap_sort n xs) xs
  unfolding swap_sort
  swap_sort-perm zero xs = Perm.rfl
  swap_sort-perm (suc n) [] = Perm.rfl
  swap_sort-perm (suc n) (x ∷ xs) =
      let (top, rest) = swap_down x xs in
      Perm.trans (Perm.cons top (swap_sort-perm n rest)) (swap_down-perm x xs)

  -- Among the elements that satisfy P, the order is strict, and its complement is transitive.
  pub record IsOrder (P : A → Type 0) : Type 0 where
    pub asym : (x y : A) → over x y ≡ true → over y x ≡ false
    pub trans : (x y z : A) → P y → over x y ≡ false → over y z ≡ false → over x z ≡ false

  -- No element goes before `x`.
  abbrev pub IsTop : A → List A → Type 0
  IsTop x xs = (z : A) → Mem z xs → over x z ≡ false

  IsTop-cons : (x y : A) (xs : List A) → over x y ≡ false → IsTop x xs → IsTop x (y ∷ xs)
  IsTop-cons x y xs e h z m =
      Or.elim (hlevel) (eq-or-mem_of_mem-cons m) (λ p. rw p e) (λ m'. h z m')

  module _ (P : A → Type 0) (o : IsOrder P) where
    abbrev pub Every : List A → Type 0
    Every xs = (z : A) → Mem z xs → P z

    swap_down-IsTop :
        (x : A) (xs : List A)
        → Every (x ∷ xs)
        → (over (swap_down x xs).0 x ≡ false) × IsTop (swap_down x xs).0 (swap_down x xs).1
    unfolding swap_down
    swap_down-IsTop x [] h = (
      elim (Bool-cases (over x x)) [ inl e ↦ o.asym x x e | inr e ↦ e ],
      λ z m. absurd (not-mem-nil m),
    )
    swap_down-IsTop x (y ∷ ys) h = elim (Bool-cases (over x y)) [
      | inl e ↦
          let (start, top) = swap_down-IsTop y ys (λ z m. h z (mem-cons_of_mem x m)) in
          let s =
            o.trans (swap_down y ys).0 y x (h y (mem-cons_of_mem x mem-cons_self)) start
              (o.asym x y e) in
          rw (e, swap_down) (s, IsTop-cons (swap_down y ys).0 x (swap_down y ys).1 s top)
      | inr e ↦
          let (start, top) =
            swap_down-IsTop x ys
              (λ z m. h z ((Perm.mem_iff (Perm.swap x y ys)).0 (mem-cons_of_mem y m))) in
          let s = o.trans (swap_down x ys).0 x y (h x mem-cons_self) start e in
          rw (e, swap_down) (start, IsTop-cons (swap_down x ys).0 y (swap_down x ys).1 s top)
    ]

    length-swap_down : (x : A) (xs : List A) → length (swap_down x xs).1 ≡ length xs
    unfolding swap_down
    length-swap_down x [] = refl
    length-swap_down x (y ∷ ys) = ap (λ n. suc n) (length-swap_down (if over x y then y else x) ys)

    -- The result descends when the number of rounds is at least that of the elements.
    pub swap_sort-Pairwise :
        (n : ℕ) (xs : List A)
        → length xs ≤ n
        → Every xs
        → Pairwise (λ x y. over x y ≡ false) (swap_sort n xs)
    unfolding swap_sort
    swap_sort-Pairwise zero [] l h = Pairwise.nil
    swap_sort-Pairwise zero (x ∷ xs) l h = absurd (omega arith)
    swap_sort-Pairwise (suc n) [] l h = Pairwise.nil
    swap_sort-Pairwise (suc n) (x ∷ xs) l h =
        let (start, top) = swap_down-IsTop x xs h in
        let perm = swap_down-perm x xs in
        let sorted =
          swap_sort-Pairwise n (swap_down x xs).1 (omega (arith, length-swap_down x xs))
            (λ z m. h z ((Perm.mem_iff perm).0 (mem-cons_of_mem (swap_down x xs).0 m))) in
        Pairwise.cons (λ z m. top z ((Perm.mem_iff (swap_sort-perm n (swap_down x xs).1)).0 m))
          sorted
