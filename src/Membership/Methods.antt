-- ===== src/Membership/Methods.antt =====
-- `CreateGroup`, `AddMember`, `RemoveMember`, `GetGroup` and `ListGroups` of pkg/groups/service.go. Each
-- holds the lock. The clock, what the random readers yield, and whether the storage takes what is saved,
-- are arguments.
use babylontower.Prelude.{
  ℕ, ◌+◌, ◌%◌, ◌^◌, Option, none, some, List, [], ◌∷◌, ◌++◌, Bytes, Bool, true, false, not, ite,
  bytes_dec, replicate, Result, ok, err, ◌>>=◌, ◌>>◌, Action, get, put, give, or_fail,
}
use babylontower.Prelude.Int.{ℤ, ℤ_discrete}
use babylontower.Prelude.Assoc.{Assoc, values, lookup, insert}
use babylontower.Groups.State.{
  GroupRole, GroupMember, GroupState, GroupCrypto, Error, admin_role, owner_role, new_group_state,
  sign, compute_hash, group_not_found, not_authorized, already_member, save_failed, marshal_failed,
  key_generation_failed, nil_map,
}
use babylontower.Groups.Members.{is_member}
use babylontower.SenderKeys.Key.{SenderCrypto, SenderKey, generate_sender_key}
use babylontower.SenderKeys.Messages.{Service, group_keys, store_key, keys_or_empty}

-- `isMemberWithRole` for the roles admin and owner: the first member with the key decides.
unfoldable pub has_role : List GroupRole → GroupRole → Bool
has_role [] role = false
has_role (r ∷ rs) role = ite (ℤ_discrete role r) true (has_role rs role)

unfoldable pub is_member_with_role : Bytes → List GroupRole → List GroupMember → Bool
is_member_with_role pubkey roles [] = false
is_member_with_role pubkey roles (m ∷ ms) =
    ite (bytes_dec m.ed25519_pubkey pubkey) (has_role roles m.role)
      (is_member_with_role pubkey roles ms)

abbrev pub admins : List GroupRole
admins = admin_role ∷ owner_role ∷ []

-- The loop of `RemoveMember`: the members with another key.
unfoldable pub without : Bytes → List GroupMember → List GroupMember
without pubkey [] = []
without pubkey (m ∷ ms) =
    let rest = without pubkey ms in ite (bytes_dec m.ed25519_pubkey pubkey) rest (m ∷ rest)

abbrev pub Method : (A : Type 0) → Type 0
Method A = Action Service Error A

-- `if err := ...; err != nil` on a result that does not touch the service.
abbrev pub lift : {A : Type 0} → Result Error A → Method A
lift r s = (s, r)

abbrev pub check : Bool → Error → Method (Unit {0})
check true e s = (s, ok tt)
check false e s = (s, err e)

-- The literal `&GroupState{...}` of `AddMember` and of `RemoveMember`.
unfoldable pub next_state : ℕ → Bytes → List GroupMember → GroupState → GroupState
next_state now previous_hash members state = record state {
  epoch = (state.epoch + 1) % 2 ^ 64;
  members = members;
  updated_at = now;
  state_signature = [];
  previous_state_hash = previous_hash;
}

abbrev put_group : Bytes → GroupState → Method (Unit {0})
put_group group_id state s = (record s { groups = insert bytes_dec group_id state s.groups }, ok tt)

-- What the random readers yield for one sender key, and whether the storage takes it.
pub record KeyInput : Type 0 where
  pub chain_key : Option Bytes
  pub seed : Bytes
  pub saved : Bool

module _ (gc : GroupCrypto) where
  -- `AddMember`, with the two readings of the clock.
  unfoldable pub add_member :
      ℕ → ℕ → Bool → Bytes → Bytes → Bytes → Bytes → GroupRole → Method GroupState
  add_member joined now saved group_id pubkey x25519 name role = do
    s ← get
    state ← or_fail (lookup bytes_dec group_id s.groups) group_not_found
    check (is_member_with_role s.identity_sign_pub admins state.members) not_authorized
    check (not (is_member state pubkey)) already_member
    previous ← or_fail (compute_hash gc state) marshal_failed
    let member : GroupMember = record {
      ed25519_pubkey = pubkey;
      x25519_pubkey = x25519;
      display_name = name;
      joined_at = joined;
      role = role;
    }
    new ← lift (
        sign gc s.identity_sign_priv (next_state now previous (state.members ++ member ∷ []) state))
    check saved save_failed
    put_group group_id new
    give new

module _ (sc : SenderCrypto) where
  -- The sender key that `rotateAllSenderKeys` gives a member: a new one, of the state's epoch, at the
  -- index of the member's old key if there is one.
  unfoldable pub rotated_key :
      KeyInput → GroupState → Bytes → Assoc Bytes SenderKey → Option SenderKey
  rotated_key input state pubkey keys =
      elim (generate_sender_key sc input.chain_key input.seed state.group_id pubkey) [
        | none ↦ none
        | some k ↦ elim (lookup bytes_dec pubkey keys) [
          | none ↦ some (record k { epoch = state.epoch })
          | some old ↦ some (record k { epoch = state.epoch; chain_index = old.chain_index })
        ]
      ]

  -- The loop of `rotateAllSenderKeys` over the group's map of keys; `inputs i` is for the `i`th member.
  unfoldable pub rotate_keys :
      (ℕ → KeyInput)
      → ℕ
      → GroupState
      → List GroupMember
      → Assoc Bytes SenderKey
      → Assoc Bytes SenderKey × Result Error (Unit {0})
  rotate_keys inputs i state [] keys = (keys, ok tt)
  rotate_keys inputs i state (m ∷ ms) keys =
      elim (rotated_key (inputs i) state m.ed25519_pubkey keys) [
        | none ↦ (keys, err key_generation_failed)
        | some k ↦ elim ((inputs i).saved) [
          | true ↦ rotate_keys inputs (i + 1) state ms (insert bytes_dec m.ed25519_pubkey k keys)
          | false ↦ (insert bytes_dec m.ed25519_pubkey k keys, err save_failed)
        ]
      ]

  -- The same loop where the map is nil: the first write panics.
  unfoldable pub rotate_nil :
      (ℕ → KeyInput) → GroupState → List GroupMember → Result Error (Unit {0})
  rotate_nil inputs state [] = ok tt
  rotate_nil inputs state (m ∷ ms) = elim (rotated_key (inputs 0) state m.ed25519_pubkey []) [
    | none ↦ err key_generation_failed
    | some k ↦ err nil_map
  ]

  -- `rotateAllSenderKeys`. A group without a map of keys is a nil map, which can be read and not written.
  unfoldable pub rotate_all_sender_keys : (ℕ → KeyInput) → GroupState → Method (Unit {0})
  rotate_all_sender_keys inputs state s = elim (group_keys state.group_id s) [
    | none ↦ (s, rotate_nil inputs state state.members)
    | some keys ↦
        let (keys', result) = rotate_keys inputs 0 state state.members keys in
        (record s { sender_keys = insert bytes_dec state.group_id keys' s.sender_keys }, result)
  ]

module _ (gc : GroupCrypto) (sc : SenderCrypto) where
  -- `RemoveMember`
  unfoldable pub remove_member : ℕ → Bool → (ℕ → KeyInput) → Bytes → Bytes → Method GroupState
  remove_member now saved inputs group_id pubkey = do
    s ← get
    state ← or_fail (lookup bytes_dec group_id s.groups) group_not_found
    check (is_member_with_role s.identity_sign_pub admins state.members) not_authorized
    previous ← or_fail (compute_hash gc state) marshal_failed
    new ← lift (
        sign gc s.identity_sign_priv (next_state now previous (without pubkey state.members) state))
    check saved save_failed
    put_group group_id new
    rotate_all_sender_keys sc inputs new
    give new

  abbrev x25519_or_zero : Bytes → Bytes
  x25519_or_zero [] = replicate 32 0
  x25519_or_zero key = key

  -- `CreateGroup`; `group_id` is what `NewGroupState` reads at random.
  unfoldable pub create_group :
      Option Bytes → ℕ → Bool → KeyInput → Bytes → Bytes → ℤ → Method GroupState
  create_group group_id now saved input name description group_type = do
    s ← get
    state ← lift (
        new_group_state group_id now name description group_type s.identity_sign_pub
          (x25519_or_zero s.identity_x25519_pub))
    signed ← lift (sign gc s.identity_sign_priv state)
    check saved save_failed
    key ←
        or_fail
          (generate_sender_key sc input.chain_key input.seed signed.group_id s.identity_sign_pub)
          key_generation_failed
    put (
        store_key signed.group_id s.identity_sign_pub key
          (keys_or_empty (group_keys signed.group_id s)) s)
    check input.saved save_failed
    put_group signed.group_id signed
    give signed

-- `GetGroup` and `ListGroups`
unfoldable pub get_group : Bytes → Service → Result Error GroupState
get_group group_id s = elim (lookup bytes_dec group_id s.groups) [
  | none ↦ err group_not_found
  | some state ↦ ok state
]

unfoldable pub list_groups : Service → List GroupState
list_groups s = values s.groups
