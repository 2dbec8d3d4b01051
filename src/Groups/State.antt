-- ===== src/Groups/State.antt =====
-- The types of pkg/groups/state.go, their protobuf form, hashing and signing. Go strings are byte
-- sequences. The generated types of pkg/proto have the same fields; an enum is an `int32`.
use babylontower.Prelude.{
  ℕ, ◌≡◌, Option, none, some, List, [], ◌∷◌, map, Bytes, codes, Bool, true, false, if◌then◌else◌,
  ltb, ◌==◌, length, Result, ok, err,
}
use babylontower.Prelude.Int.{ℤ, pos}
use babylontower.Prelude.Fallible.{◌>>=◌, or_fail}

abbrev pub GroupRole : Type 0
GroupRole = ℤ

abbrev pub member_role : GroupRole
member_role = pos 0

abbrev pub admin_role : GroupRole
admin_role = pos 1

abbrev pub owner_role : GroupRole
owner_role = pos 2

abbrev pub max_group_name_length : ℕ
max_group_name_length = 128

abbrev pub max_group_description_length : ℕ
max_group_description_length = 512

abbrev pub max_group_members : ℕ
max_group_members = 1000

pub record GroupMember : Type 0 where
  pub ed25519_pubkey : Bytes
  pub x25519_pubkey : Bytes
  pub display_name : Bytes
  pub joined_at : ℕ
  pub role : GroupRole

pub record GroupState : Type 0 where
  pub group_id : Bytes
  pub epoch : ℕ  -- uint64
  pub name : Bytes
  pub description : Bytes
  pub avatar_cid : Bytes
  pub group_type : ℤ
  pub members : List GroupMember
  pub creator_pubkey : Bytes
  pub created_at : ℕ
  pub updated_at : ℕ
  pub state_signature : Bytes
  pub previous_state_hash : Bytes

pub record GroupStateUpdate : Type 0 where
  pub new_state : GroupState
  pub previous_state_hash : Bytes
  pub updater_pubkey : Bytes
  pub updater_signature : Bytes

-- `pb.GroupMember` and `pb.GroupState`
pub record PbGroupMember : Type 0 where
  pub ed25519_pubkey : Bytes
  pub x25519_pubkey : Bytes
  pub display_name : Bytes
  pub joined_at : ℕ
  pub role : ℤ

pub record PbGroupState : Type 0 where
  pub group_id : Bytes
  pub epoch : ℕ
  pub name : Bytes
  pub description : Bytes
  pub avatar_cid : Bytes
  pub group_type : ℤ
  pub members : List PbGroupMember
  pub creator_pubkey : Bytes
  pub created_at : ℕ
  pub updated_at : ℕ
  pub state_signature : Bytes
  pub previous_hash : Bytes

pub data Error : Type 0 where
  random_failed name_too_long description_too_long marshal_failed : Error
  hash_mismatch epoch_not_increasing not_admin invalid_signature : Error
  group_full member_exists creator_removal member_not_found : Error
  group_not_found not_authorized already_member save_failed key_generation_failed : Error
  -- the panic of a write to a nil map
  nil_map : Error
  -- the panics of `ed25519.Verify` at a public key that has not 32 bytes and of `ed25519.Sign` at a
  -- private key that has not 64
  bad_key_length : Error

-- The serialiser of google.golang.org/protobuf and the primitives of the Go library that
-- pkg/groups calls.
pub record GroupCrypto : Type 0 where
  -- `proto.Marshal`, `none` where it returns an error.
  pub marshal : PbGroupState → Option Bytes
  pub sha256 : Bytes → Bytes
  pub sign : Bytes → Bytes → Bytes
  pub verify : Bytes → Bytes → Bytes → Bool

-- A signature that the private key of the pair makes verifies under its public key.
abbrev pub IsSignPair : GroupCrypto → Bytes → Bytes → Type 0
IsSignPair c priv public = (text : Bytes) → c.verify public text (c.sign priv text) ≡ true

-- `NewGroupState`; `group_id` is what the random reader yields and `now` the clock.
unfoldable pub new_group_state :
    Option Bytes → ℕ → Bytes → Bytes → ℤ → Bytes → Bytes → Result Error GroupState
new_group_state group_id now name description group_type creator_pubkey creator_x25519_pubkey =
    elim group_id [
      | none ↦ err random_failed
      | some group_id ↦
          if ltb max_group_name_length (length name)
          then err name_too_long
          else if ltb max_group_description_length (length description)
          then err description_too_long
          else ok (record {
            group_id = group_id;
            epoch = 1;
            name = name;
            description = description;
            avatar_cid = [];
            group_type = group_type;
            members =
                record {
                  ed25519_pubkey = creator_pubkey;
                  x25519_pubkey = creator_x25519_pubkey;
                  display_name = codes "Creator";
                  joined_at = now;
                  role = owner_role;
                }
                ∷ [];
            creator_pubkey = creator_pubkey;
            created_at = now;
            updated_at = now;
            state_signature = [];
            previous_state_hash = [];
          })
    ]

unfoldable pub member_to_proto : GroupMember → PbGroupMember
member_to_proto m = record {
  ed25519_pubkey = m.ed25519_pubkey;
  x25519_pubkey = m.x25519_pubkey;
  display_name = m.display_name;
  joined_at = m.joined_at;
  role = m.role;
}

unfoldable pub member_from_proto : PbGroupMember → GroupMember
member_from_proto m = record {
  ed25519_pubkey = m.ed25519_pubkey;
  x25519_pubkey = m.x25519_pubkey;
  display_name = m.display_name;
  joined_at = m.joined_at;
  role = m.role;
}

-- `GroupState.ToProto`
unfoldable pub to_proto : GroupState → PbGroupState
to_proto s = record {
  group_id = s.group_id;
  epoch = s.epoch;
  name = s.name;
  description = s.description;
  avatar_cid = s.avatar_cid;
  group_type = s.group_type;
  members = map member_to_proto s.members;
  creator_pubkey = s.creator_pubkey;
  created_at = s.created_at;
  updated_at = s.updated_at;
  state_signature = s.state_signature;
  previous_hash = s.previous_state_hash;
}

-- `FromProto`
unfoldable pub from_proto : PbGroupState → GroupState
from_proto s = record {
  group_id = s.group_id;
  epoch = s.epoch;
  name = s.name;
  description = s.description;
  avatar_cid = s.avatar_cid;
  group_type = s.group_type;
  members = map member_from_proto s.members;
  creator_pubkey = s.creator_pubkey;
  created_at = s.created_at;
  updated_at = s.updated_at;
  state_signature = s.state_signature;
  previous_state_hash = s.previous_hash;
}

-- The copy of a state that is signed and verified: the state without its signature.
unfoldable pub unsigned : GroupState → GroupState
unsigned s = record s { state_signature = [] }

-- `ed25519.Verify`, `none` where it panics.
unfoldable pub ed25519_verify : GroupCrypto → Bytes → Bytes → Bytes → Option Bool
ed25519_verify c public text signature =
    if length public == 32 then some (c.verify public text signature) else none

-- `ed25519.Sign`, likewise.
unfoldable pub ed25519_sign : GroupCrypto → Bytes → Bytes → Option Bytes
ed25519_sign c priv text = if length priv == 64 then some (c.sign priv text) else none

module _ (c : GroupCrypto) where
  -- `Serialize` and `ComputeHash`
  unfoldable pub serialize : GroupState → Option Bytes
  serialize s = c.marshal (to_proto s)

  unfoldable pub compute_hash : GroupState → Option Bytes
  compute_hash s = elim (serialize s) [ none ↦ none | some text ↦ some (c.sha256 text) ]

  -- `Sign`
  unfoldable pub sign : Bytes → GroupState → Result Error GroupState
  sign priv s = do
    text ← or_fail (serialize (unsigned s)) marshal_failed
    signature ← or_fail (ed25519_sign c priv text) bad_key_length
    ok (record s { state_signature = signature })

  -- `VerifySignature`, `none` where it panics.
  unfoldable pub verify_signature : GroupState → Bytes → Option Bool
  verify_signature s public =
      if length s.state_signature == 0 then some false else elim (serialize (unsigned s)) [
        | none ↦ some false
        | some text ↦ ed25519_verify c public text s.state_signature
      ]
