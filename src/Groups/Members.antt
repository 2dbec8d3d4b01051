-- ===== src/Groups/Members.antt =====
-- The member list: `IsMember`, `GetMemberRole`, `AddMember` and `RemoveMember` of pkg/groups/state.go.
use babylontower.Prelude.{
  ℕ, ◌≤◌, ◌≡◌, Option, none, some, List, [], ◌∷◌, ◌++◌, map, Bytes, Bool, true, false,
  if◌then◌else◌, leb, ite, length, bytes_dec, Result, ok, err, Distinct,
}
use babylontower.Prelude.Int.{negsuc}
use babylontower.Groups.State.{
  GroupMember, GroupState, GroupRole, Error, max_group_members, group_full, member_exists,
  creator_removal, member_not_found,
}

unfoldable pub is_member_of : Bytes → List GroupMember → Bool
is_member_of pubkey [] = false
is_member_of pubkey (m ∷ ms) = ite (bytes_dec m.ed25519_pubkey pubkey) true (is_member_of pubkey ms)

-- `IsMember`
unfoldable pub is_member : GroupState → Bytes → Bool
unfolding is_member_of
is_member s pubkey = is_member_of pubkey s.members

unfoldable pub role_of : Bytes → List GroupMember → GroupRole
role_of pubkey [] = negsuc 0
role_of pubkey (m ∷ ms) = ite (bytes_dec m.ed25519_pubkey pubkey) m.role (role_of pubkey ms)

-- `GetMemberRole`: -1 if not a member.
unfoldable pub get_member_role : GroupState → Bytes → GroupRole
unfolding role_of
get_member_role s pubkey = role_of pubkey s.members

-- `AddMember`
unfoldable pub add_member : ℕ → GroupMember → GroupState → Result Error GroupState
unfolding is_member_of
add_member now member s =
    if leb max_group_members (length s.members)
    then err group_full
    else if is_member_of member.ed25519_pubkey s.members
    then err member_exists
    else ok (record s { members = s.members ++ member ∷ []; updated_at = now })

-- The list without the first member of the key, if there is one.
unfoldable pub remove_first : Bytes → List GroupMember → Option (List GroupMember)
remove_first pubkey [] = none
remove_first pubkey (m ∷ ms) =
    ite (bytes_dec m.ed25519_pubkey pubkey) (some ms)
      (elim (remove_first pubkey ms) [ none ↦ none | some rest ↦ some (m ∷ rest) ])

-- `RemoveMember`: the creator is refused where its turn comes in the loop.
unfoldable pub remove_member : ℕ → Bytes → GroupState → Result Error GroupState
unfolding remove_first
remove_member now pubkey s = elim (remove_first pubkey s.members) [
  | none ↦ err member_not_found
  | some rest ↦
      ite (bytes_dec pubkey s.creator_pubkey) (err creator_removal)
        (ok (record s { members = rest; updated_at = now }))
]

abbrev pub pubkeys : List GroupMember → List Bytes
pubkeys = map (λ m. m.ed25519_pubkey)

-- The member list has no key twice, fits the limit, and has the creator.
pub record IsWellFormed (s : GroupState) : Type 0 where
  pub distinct : Distinct (pubkeys s.members)
  pub fits : length s.members ≤ max_group_members
  pub creator : is_member s s.creator_pubkey ≡ true
