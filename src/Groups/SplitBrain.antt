-- ===== src/Groups/SplitBrain.antt =====
-- `ResolveSplitBrain` of pkg/groups/state.go.
use mathlib.Core.List.{Mem, mem-cons, not-mem-nil, mem-cons_self, mem-cons_of_mem}
use mathlib.Core.Logic.Or
use mathlib.Core.Logic.{∥∥₁_prop}
use mathlib.Core.Bool.{Bool-set}
use babylontower.Prelude.{
  ◌≤◌, ◌≡◌, ◌↔◌, ◌⊎◌, refl, sym, subst, Option, none, some, List, [], ◌∷◌, Bool, true, false,
  if◌then◌else◌, ltb, ◌==◌, arith, All, Bool-cases, inl, inr,
}
use babylontower.Groups.State.{GroupState}
use babylontower.Groups.ByteOrder.{
  bytes_ltb, IsLexLe, IsLexLe-of_bytes_ltb, bytes_ltb_trans, bytes_ltb_antisymm, bytes_ltb_irrefl,
  bytes_ltb_asymm,
}

-- The two tests by which a state replaces the best one so far.
unfoldable pub replaces : GroupState → GroupState → Bool
replaces state best =
    if ltb best.epoch state.epoch
    then true
    else if state.epoch == best.epoch
    then bytes_ltb state.creator_pubkey best.creator_pubkey
    else false

-- The loop over the states after the first.
unfoldable pub best_from : GroupState → List GroupState → GroupState
best_from best [] = best
best_from best (state ∷ states) = best_from (if replaces state best then state else best) states

-- `ResolveSplitBrain`; nil is `none`.
unfoldable pub resolve_split_brain : List GroupState → Option GroupState
resolve_split_brain [] = none
resolve_split_brain (state ∷ []) = some state
resolve_split_brain (state ∷ states) = some (best_from state states)

replaces_trans :
    (a b d : GroupState) → replaces b a ≡ false → replaces d b ≡ false → replaces d a ≡ false
unfolding replaces
replaces_trans a b d h k =
    ground (arith, bytes_ltb_trans a.creator_pubkey b.creator_pubkey d.creator_pubkey)

replaces_irrefl : (a : GroupState) → replaces a a ≡ false
unfolding replaces
replaces_irrefl a = ground (arith, bytes_ltb_irrefl a.creator_pubkey)

replaces_asymm : (a b : GroupState) → replaces a b ≡ true → replaces b a ≡ false
unfolding replaces
replaces_asymm a b h = ground (arith, bytes_ltb_asymm a.creator_pubkey b.creator_pubkey)

replaces_antisymm :
    (a b : GroupState)
    → replaces a b ≡ false
    → replaces b a ≡ false
    → (a.epoch ≡ b.epoch) × (a.creator_pubkey ≡ b.creator_pubkey)
unfolding replaces
replaces_antisymm a b h k = ground (arith, bytes_ltb_antisymm a.creator_pubkey b.creator_pubkey)

-- `w` is one of the states, and none of them replaces it.
record IsUnbeaten (states : List GroupState) (w : GroupState) : Type 0 where
  among : Mem w states
  unbeaten : All (λ s. replaces s w ≡ false) states

-- `w` is one of the states, none has a higher epoch, and none of the same epoch a smaller creator key.
pub record IsBest (states : List GroupState) (w : GroupState) : Type 0 where
  pub among : Mem w states
  pub latest : (s : GroupState) → Mem s states → s.epoch ≤ w.epoch
  pub least :
      (s : GroupState)
      → Mem s states
      → s.epoch ≡ w.epoch
      → IsLexLe w.creator_pubkey s.creator_pubkey

best_from-replaced :
    (best state : GroupState) (states : List GroupState)
    → replaces state best ≡ true
    → best_from best (state ∷ states) ≡ best_from state states
unfolding best_from
best_from-replaced best state states e = rw e

best_from-kept :
    (best state : GroupState) (states : List GroupState)
    → replaces state best ≡ false
    → best_from best (state ∷ states) ≡ best_from best states
unfolding best_from
best_from-kept best state states e = rw e

best_from-nil : (best : GroupState) → best_from best [] ≡ best
unfolding best_from
best_from-nil best = refl

abbrev Unbeaten : GroupState → List GroupState → GroupState → Type 0
Unbeaten best states b = (replaces best b ≡ false) × All (λ s. replaces s b ≡ false) states

best_from-Unbeaten :
    (best : GroupState) (states : List GroupState) → Unbeaten best states (best_from best states)
best_from-Unbeaten best [] = (rw best_from-nil (replaces_irrefl best), tt)
best_from-Unbeaten best (state ∷ states) = elim (Bool-cases (replaces state best)) [
  | inl e ↦
      let (first, rest) = best_from-Unbeaten state states in
      subst (Unbeaten best (state ∷ states)) (sym (best_from-replaced best state states e)) (
        replaces_trans (best_from state states) state best first (replaces_asymm state best e),
        (first, rest),
      )
  | inr e ↦
      let (first, rest) = best_from-Unbeaten best states in
      subst (Unbeaten best (state ∷ states)) (sym (best_from-kept best state states e))
        (first, (replaces_trans (best_from best states) best state first e, rest))
]

mem-skip :
    (b best state : GroupState) (states : List GroupState)
    → Mem b (best ∷ states)
    → Mem b (best ∷ state ∷ states)
mem-skip b best state states m =
    Or.elim ∥∥₁_prop (mem-cons.0 m) (λ e. rw e mem-cons_self)
      (λ t. mem-cons_of_mem best (mem-cons_of_mem state t))

best_from-mem :
    (best : GroupState) (states : List GroupState) → Mem (best_from best states) (best ∷ states)
best_from-mem best [] = rw best_from-nil mem-cons_self
best_from-mem best (state ∷ states) = elim (Bool-cases (replaces state best)) [
  | inl e ↦
      rw (best_from-replaced best state states e)
        (mem-cons_of_mem best (best_from-mem state states))
  | inr e ↦
      rw (best_from-kept best state states e)
        (mem-skip _ best state states (best_from-mem best states))
]

resolve_split_brain-IsUnbeaten :
    (states : List GroupState)
    → ((states ≡ []) × (resolve_split_brain states ≡ none))
      ⊎ ((w : GroupState) × (resolve_split_brain states ≡ some w) × IsUnbeaten states w)
unfolding resolve_split_brain
resolve_split_brain-IsUnbeaten [] = inl (refl, refl)
resolve_split_brain-IsUnbeaten (state ∷ []) =
    inr (state, refl, record { among = mem-cons_self; unbeaten = (replaces_irrefl state, tt) })
resolve_split_brain-IsUnbeaten (state ∷ s ∷ states) = inr (
  best_from state (s ∷ states),
  refl,
  record {
    among = best_from-mem state (s ∷ states);
    unbeaten = best_from-Unbeaten state (s ∷ states);
  },
)

All-mem :
    (w : GroupState) (s : GroupState) (states : List GroupState)
    → All (λ t. replaces t w ≡ false) states
    → Mem s states
    → replaces s w ≡ false
All-mem w s [] a m = absurd (not-mem-nil m)
All-mem w s (t ∷ states) a m =
    Or.elim (Bool-set _ _) (mem-cons.0 m) (λ e. rw e a.0) (λ rest. All-mem w s states a.1 rest)

replaces-epoch_le : (s w : GroupState) → replaces s w ≡ false → s.epoch ≤ w.epoch
unfolding replaces
replaces-epoch_le s w h = ground arith

replaces-not_less :
    (s w : GroupState)
    → s.epoch ≡ w.epoch
    → replaces s w ≡ false
    → bytes_ltb s.creator_pubkey w.creator_pubkey ≡ false
unfolding replaces
replaces-not_less s w e h = ground arith

-- `ResolveSplitBrain` returns nil only for no states, and otherwise one of the states, of the highest
-- epoch, and among those of a least creator key in the lexicographic order of the bytes.
pub resolve_split_brain-IsBest :
    (states : List GroupState)
    → ((states ≡ []) × (resolve_split_brain states ≡ none))
      ⊎ ((w : GroupState) × (resolve_split_brain states ≡ some w) × IsBest states w)
resolve_split_brain-IsBest states = elim (resolve_split_brain-IsUnbeaten states) [
  | inl e ↦ inl e
  | inr (w, e, b) ↦ inr (
    w,
    e,
    record {
      among = b.among;
      latest = λ s m. replaces-epoch_le s w (All-mem w s states b.unbeaten m);
      least = λ s m same.
          IsLexLe-of_bytes_ltb w.creator_pubkey s.creator_pubkey
            (replaces-not_less s w same (All-mem w s states b.unbeaten m));
    },
  )
]

-- Two nodes that know the same states, in whatever order and however often, resolve to states of
-- the same epoch and creator.
pub resolve_split_brain_agrees :
    (xs ys : List GroupState) (w v : GroupState)
    → ((s : GroupState) → Mem s xs ↔ Mem s ys)
    → resolve_split_brain xs ≡ some w
    → resolve_split_brain ys ≡ some v
    → (w.epoch ≡ v.epoch) × (w.creator_pubkey ≡ v.creator_pubkey)
resolve_split_brain_agrees xs ys w v same ex ey =
    replaces_antisymm w v (All-mem v w ys (best ys v ey).unbeaten ((same w).0 (best xs w ex).among))
      (All-mem w v xs (best xs w ex).unbeaten ((same v).1 (best ys v ey).among))
  where
    best :
        (zs : List GroupState) (z : GroupState) → resolve_split_brain zs ≡ some z → IsUnbeaten zs z
    best zs z e = elim (resolve_split_brain-IsUnbeaten zs) [
      | inl (_, n) ↦ absurd (cc)
      | inr (z', e', b) ↦ let q : z' ≡ z = cc in subst (IsUnbeaten zs) q b
    ]
