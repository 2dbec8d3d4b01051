-- ===== src/Groups/Roster.antt =====
-- What `AddMember` keeps, and what a reader sees after it (pkg/groups/state.go).
use babylontower.Prelude.{
  ℕ, ◌<◌, ◌≡◌, ◌≢◌, refl, List, [], ◌∷◌, ◌++◌, Bytes, true, false, if◌then◌else◌, ite, length,
  length-append, bytes_dec, ok, arith, All, Distinct,
}
use babylontower.Prelude.Int.{negsuc}
use babylontower.Groups.State.{GroupMember, GroupState, max_group_members}
use babylontower.Groups.Members.{
  is_member_of, is_member, role_of, get_member_role, add_member, pubkeys, IsWellFormed,
}

is_member_of-append :
    (k : Bytes) (ms : List GroupMember) (m : GroupMember)
    → is_member_of k (ms ++ m ∷ [])
      ≡ (if is_member_of k ms then true else ite (bytes_dec m.ed25519_pubkey k) true false)
unfolding is_member_of
is_member_of-append k [] m = refl
is_member_of-append k (x ∷ ms) m = ground (arith, is_member_of-append k ms m)

role_of-append :
    (k : Bytes) (ms : List GroupMember) (m : GroupMember)
    → is_member_of m.ed25519_pubkey ms ≡ false
    → role_of k (ms ++ m ∷ []) ≡ ite (bytes_dec m.ed25519_pubkey k) m.role (role_of k ms)
unfolding is_member_of role_of
role_of-append k [] m h = refl
role_of-append k (x ∷ ms) m h = ground (arith, role_of-append k ms m)

absent-All :
    (k : Bytes) (ms : List GroupMember) → is_member_of k ms ≡ false → All (λ j. j ≢ k) (pubkeys ms)
unfolding is_member_of
absent-All k [] h = tt
absent-All k (x ∷ ms) h = (ground arith, absent-All k ms (ground arith))

pub All-absent :
    (k : Bytes) (ms : List GroupMember) → All (λ j. j ≢ k) (pubkeys ms) → is_member_of k ms ≡ false
unfolding is_member_of
All-absent k [] h = refl
All-absent k (x ∷ ms) h = ground (arith, All-absent k ms h.1)

pub role_of-absent :
    (k : Bytes) (ms : List GroupMember) → is_member_of k ms ≡ false → role_of k ms ≡ negsuc 0
unfolding is_member_of role_of
role_of-absent k [] h = refl
role_of-absent k (x ∷ ms) h = ground (arith, role_of-absent k ms)

All-append :
    (k : Bytes) (ms : List GroupMember) (m : GroupMember)
    → All (λ j. j ≢ k) (pubkeys ms)
    → m.ed25519_pubkey ≢ k
    → All (λ j. j ≢ k) (pubkeys (ms ++ m ∷ []))
All-append k [] m h n = (n, tt)
All-append k (x ∷ ms) m h n = (h.0, All-append k ms m h.1 n)

Distinct-append :
    (ms : List GroupMember) (m : GroupMember)
    → Distinct (pubkeys ms)
    → is_member_of m.ed25519_pubkey ms ≡ false
    → Distinct (pubkeys (ms ++ m ∷ []))
unfolding is_member_of
Distinct-append [] m d h = (tt, tt)
Distinct-append (x ∷ ms) m d h =
    (All-append x.ed25519_pubkey ms m d.0 (ground arith), Distinct-append ms m d.1 (ground arith))

module _ (now : ℕ) (m : GroupMember) (s : GroupState) {s' : GroupState}
    (added : add_member now m s ≡ ok s') where
  add_member-eq-ok :
      (length s.members < max_group_members)
      × (is_member_of m.ed25519_pubkey s.members ≡ false)
      × (s' ≡ record s { members = s.members ++ m ∷ []; updated_at = now })
  unfolding add_member
  add_member-eq-ok = (ground arith, ground arith, ground arith)

  -- A successful `AddMember` keeps the list without duplicates, within the limit, and with the creator.
  pub add_member-IsWellFormed : IsWellFormed s → IsWellFormed s'
  unfolding add_member is_member
  add_member-IsWellFormed w =
      let (room, absent, e) = add_member-eq-ok in
      rw e (record {
        distinct = Distinct-append s.members m w.distinct absent;
        fits = omega (arith, length-append s.members (m ∷ []));
        creator = ground (arith, is_member_of-append s.creator_pubkey s.members m, w.creator);
      })

  -- After a successful `AddMember` the new key has its role, and every other key the role that it had.
  pub get_member_role-add_member :
      (k : Bytes)
      → get_member_role s' k ≡ ite (bytes_dec m.ed25519_pubkey k) m.role (get_member_role s k)
  unfolding add_member get_member_role
  get_member_role-add_member k = ground (arith, role_of-append k s.members m)
