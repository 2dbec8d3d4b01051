-- ===== src/Groups/Changes.antt =====
-- Sequences of `AddMember` and `RemoveMember` calls from `NewGroupState` on (pkg/groups/state.go).
use babylontower.Prelude.{
  ℕ, ◌≡◌, refl, Option, none, some, List, [], ◌∷◌, Bytes, Result, ok, err, arith,
}
use babylontower.Prelude.Int.{ℤ}
use babylontower.Groups.State.{GroupMember, GroupState, Error, new_group_state}
use babylontower.Groups.Members.{is_member_of, is_member, add_member, remove_member, IsWellFormed}
use babylontower.Groups.Roster.{add_member-IsWellFormed}
use babylontower.Groups.Removal.{remove_member-IsWellFormed}

-- The calls of `AddMember` and `RemoveMember` on a state, a refused one changing nothing.
pub data Change : Type 0 where
  adds : ℕ → GroupMember → Change
  removes : ℕ → Bytes → Change

abbrev pub or_same : GroupState → Result Error GroupState → GroupState
or_same s (ok s') = s'
or_same s (err e) = s

unfoldable pub changed : GroupState → List Change → GroupState
changed s [] = s
changed s (adds now m ∷ cs) = changed (or_same s (add_member now m s)) cs
changed s (removes now k ∷ cs) = changed (or_same s (remove_member now k s)) cs

or_same-IsWellFormed :
    (s : GroupState) (r : Result Error GroupState)
    → IsWellFormed s
    → ((s' : GroupState) → r ≡ ok s' → IsWellFormed s')
    → IsWellFormed (or_same s r)
or_same-IsWellFormed s (ok s') w f = f s' refl
or_same-IsWellFormed s (err e) w f = w

changed-IsWellFormed :
    (s : GroupState) (cs : List Change) → IsWellFormed s → IsWellFormed (changed s cs)
unfolding changed
changed-IsWellFormed s [] w = w
changed-IsWellFormed s (adds now m ∷ cs) w =
    changed-IsWellFormed (or_same s (add_member now m s)) cs
      (or_same-IsWellFormed s (add_member now m s) w λ s' e. add_member-IsWellFormed now m s e w)
changed-IsWellFormed s (removes now k ∷ cs) w =
    changed-IsWellFormed (or_same s (remove_member now k s)) cs (
      or_same-IsWellFormed s (remove_member now k s) w
        λ s' e. remove_member-IsWellFormed now k s e w)

-- From a state that `NewGroupState` returns, whatever members are added and removed, no key is twice in
-- the member list, the list has at most `MaxGroupMembers` members, and the creator stays in it.
pub changed-new_group_state-IsWellFormed :
    (id : Option Bytes) (now : ℕ) (name description : Bytes) (t : ℤ) (creator x : Bytes)
    (cs : List Change) (s : GroupState)
    → new_group_state id now name description t creator x ≡ ok s
    → IsWellFormed (changed s cs)
unfolding new_group_state is_member is_member_of
changed-new_group_state-IsWellFormed none now name description t creator x cs s e =
    absurd (ground arith)
changed-new_group_state-IsWellFormed (some id) now name description t creator x cs s e =
    changed-IsWellFormed s cs
      (record { distinct = ground arith; fits = ground arith; creator = ground arith })
