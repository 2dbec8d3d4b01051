-- ===== src/Groups/Removal.antt =====
-- What `RemoveMember` keeps, and what a reader sees after it (pkg/groups/state.go).
use babylontower.Prelude.{
  ℕ, ◌+◌, ◌≡◌, ◌≢◌, refl, sym, ◌∙◌, none, some, List, [], ◌∷◌, Bytes, false, length, bytes_dec, ok,
  arith, All, Distinct, ◌⊎◌, inl, inr, Option-cases,
}
use babylontower.Prelude.Int.{negsuc}
use babylontower.Groups.State.{GroupMember, GroupState}
use babylontower.Groups.Members.{
  is_member_of, is_member, role_of, get_member_role, remove_first, remove_member, pubkeys,
  IsWellFormed,
}
use babylontower.Groups.Roster.{role_of-absent, All-absent}

none-ne : (k : Bytes) (rest : List GroupMember) → remove_first k [] ≡ some rest → ⊥
unfolding remove_first
none-ne k rest h = cc

pub remove_first-absent :
    (k : Bytes) (ms : List GroupMember) → remove_first k ms ≡ none → is_member_of k ms ≡ false
unfolding remove_first is_member_of
remove_first-absent k [] h = refl
remove_first-absent k (x ∷ ms) h = ground (arith, remove_first-absent k ms)

length-remove_first :
    (k : Bytes) (ms rest : List GroupMember)
    → remove_first k ms ≡ some rest
    → length rest + 1 ≡ length ms
unfolding remove_first
length-remove_first k [] rest h = cc
length-remove_first k (x ∷ ms) rest h = elim (Option-cases (remove_first k ms)) [
  | inl e ↦ ground arith
  | inr (r, e) ↦ ground (arith, length-remove_first k ms r)
]

role_of-remove_first :
    (k j : Bytes) (ms rest : List GroupMember)
    → remove_first k ms ≡ some rest
    → j ≢ k
    → (role_of j rest ≡ role_of j ms) × (is_member_of j rest ≡ is_member_of j ms)
unfolding remove_first role_of is_member_of
role_of-remove_first k j [] rest h n = absurd (ground arith)
role_of-remove_first k j (x ∷ ms) rest h n = elim (Option-cases (remove_first k ms)) [
  | inl e ↦ ground arith
  | inr (r, e) ↦ ground (arith, role_of-remove_first k j ms r)
]

remove_first-cons :
    (k : Bytes) (x : GroupMember) (ms rest : List GroupMember)
    → remove_first k (x ∷ ms) ≡ some rest
    → ((x.ed25519_pubkey ≡ k) × (rest ≡ ms))
      ⊎ ((r : List GroupMember) × (x.ed25519_pubkey ≢ k)
          × (remove_first k ms ≡ some r)
          × (rest ≡ x ∷ r))
unfolding remove_first
remove_first-cons k x ms rest h = elim (bytes_dec x.ed25519_pubkey k) [
  | yes e ↦ inl (e, ground arith)
  | no n ↦ elim (Option-cases (remove_first k ms)) [
    | inl e ↦ absurd (ground arith)
    | inr (r, e) ↦ inr (r, n, e, ground arith)
  ]
]

All-remove_first :
    (j k : Bytes) (ms rest : List GroupMember)
    → remove_first k ms ≡ some rest
    → All (λ i. i ≢ j) (pubkeys ms)
    → All (λ i. i ≢ j) (pubkeys rest)
All-remove_first j k [] rest h a = absurd (none-ne k rest h)
All-remove_first j k (x ∷ ms) rest h a = elim (remove_first-cons k x ms rest h) [
  | inl (e, same) ↦ rw same a.1
  | inr (r, n, e, same) ↦ rw same (a.0, All-remove_first j k ms r e a.1)
]

Distinct-remove_first :
    (k : Bytes) (ms rest : List GroupMember)
    → remove_first k ms ≡ some rest
    → Distinct (pubkeys ms)
    → Distinct (pubkeys rest) × All (λ i. i ≢ k) (pubkeys rest)
Distinct-remove_first k [] rest h d = absurd (none-ne k rest h)
Distinct-remove_first k (x ∷ ms) rest h d = elim (remove_first-cons k x ms rest h) [
  | inl (e, same) ↦ rw (same, ← e) (d.1, d.0)
  | inr (r, n, e, same) ↦
      let (apart, gone) = Distinct-remove_first k ms r e d.1 in
      rw same ((All-remove_first x.ed25519_pubkey k ms r e d.0, apart), (n, gone))
]

module _ (now : ℕ) (k : Bytes) (s : GroupState) {s' : GroupState}
    (removed : remove_member now k s ≡ ok s') where
  remove_member-eq-ok :
      (rest : List GroupMember) × (remove_first k s.members ≡ some rest)
      × (k ≢ s.creator_pubkey)
      × (s' ≡ record s { members = rest; updated_at = now })
  unfolding remove_member
  remove_member-eq-ok = elim (Option-cases (remove_first k s.members)) [
    | inl e ↦ absurd (ground arith)
    | inr (rest, e) ↦ (rest, e, ground arith, ground arith)
  ]

  -- A successful `RemoveMember` keeps the list without duplicates, within the limit, and with the
  -- creator.
  pub remove_member-IsWellFormed : IsWellFormed s → IsWellFormed s'
  unfolding is_member
  remove_member-IsWellFormed w =
      let (rest, e, n, same) = remove_member-eq-ok in
      rw same (record {
        distinct = (Distinct-remove_first k s.members rest e w.distinct).0;
        fits = omega (arith, length-remove_first k s.members rest e, w.fits);
        creator =
            (role_of-remove_first k s.creator_pubkey s.members rest e (λ c. n (sym c))).1
            ∙ w.creator;
      })

  -- After a successful `RemoveMember` the key is no member and has role -1, and every other key has the
  -- role that it had.
  pub get_member_role-remove_member :
      IsWellFormed s
      → (is_member s' k ≡ false)
        × (get_member_role s' k ≡ negsuc 0)
        × ((j : Bytes) → j ≢ k → get_member_role s' j ≡ get_member_role s j)
  unfolding is_member get_member_role
  get_member_role-remove_member w =
      let (rest, e, n, same) = remove_member-eq-ok in
      let gone = All-absent k rest (Distinct-remove_first k s.members rest e w.distinct).1 in
      rw same
        (gone, role_of-absent k rest gone, λ j d. (role_of-remove_first k j s.members rest e d).0)
