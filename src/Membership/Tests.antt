-- ===== src/Membership/Tests.antt =====
-- A group of two members under the service.
use babylontower.Prelude.{
  ℕ, ◌+◌, ◌≡◌, refl, some, [], ◌∷◌, Bytes, true, false, bytes_dec, All, ok, arith, replicate,
}
use babylontower.Prelude.Int.{pos, ℤ_discrete}
use babylontower.Prelude.Assoc.{Assoc, lookup, insert}
use babylontower.Groups.State.{
  ed25519_sign, GroupCrypto, GroupMember, GroupState, sign, serialize, compute_hash, unsigned,
  to_proto,
}
use babylontower.Groups.Members.{pubkeys, is_member}
use babylontower.Groups.Update.{validate_state_update}
use babylontower.SenderKeys.Key.{SenderCrypto, SenderKey, generate_sender_key}
use babylontower.SenderKeys.Messages.{Service, group_keys}
use babylontower.Membership.Methods.{
  KeyInput, is_member_with_role, has_role, next_state, without, remove_member,
  rotate_all_sender_keys, rotate_keys, rotated_key,
}
use babylontower.Membership.Updates.{update_of, removed, validate_state_update-Publishes}
use babylontower.Membership.Rotation.{HasRotated}
use babylontower.Membership.Departure.{remove_member-HasRotated}

abbrev gc : GroupCrypto
gc = record {
  marshal = λ s. some (s.epoch ∷ []);
  sha256 = λ b. 7 ∷ b;
  sign = λ key text. 2 ∷ [];
  verify = λ key text signature. true;
}

abbrev sc : SenderCrypto
sc = record {
  sha256 = λ b. b;
  generate_key = λ seed. some (seed, seed);
  sign = λ key text. some key;
  verify = λ key text signature. some true;
  hkdf = λ secret salt info n. some [];
  new_x = λ key. some key;
  seal = λ key nonce text ad. text;
  open_sealed = λ key nonce text ad. some text;
}

abbrev owner : Bytes
owner = replicate 32 1

abbrev guest : Bytes
guest = replicate 32 2

abbrev member : Bytes → ℕ → GroupMember
member key role = record {
  ed25519_pubkey = key;
  x25519_pubkey = [];
  display_name = [];
  joined_at = 1;
  role = pos role;
}

abbrev group : Bytes
group = 3 ∷ []

abbrev before : GroupState
before = record {
  group_id = group;
  epoch = 4;
  name = [];
  description = [];
  avatar_cid = [];
  group_type = pos 0;
  members = member owner 2 ∷ member guest 0 ∷ [];
  creator_pubkey = owner;
  created_at = 1;
  updated_at = 1;
  state_signature = [];
  previous_state_hash = [];
}

abbrev after : GroupState
after = record before {
  epoch = 5;
  members = member owner 2 ∷ [];
  updated_at = 9;
  state_signature = 2 ∷ [];
  previous_state_hash = 7 ∷ 4 ∷ [];
}

abbrev key_of : Bytes → Bytes → ℕ → SenderKey
key_of pubkey chain epoch = record {
  group_id = group;
  sender_pubkey = pubkey;
  chain_key = chain;
  signing_key = [];
  signing_key_priv = [];
  chain_index = 6;
  epoch = epoch;
}

abbrev old_keys : Assoc Bytes SenderKey
old_keys = (owner, key_of owner (5 ∷ []) 4) ∷ (guest, key_of guest (6 ∷ []) 4) ∷ []

abbrev new_keys : Assoc Bytes SenderKey
new_keys = (owner, key_of owner (8 ∷ []) 5) ∷ (guest, key_of guest (6 ∷ []) 4) ∷ []

abbrev service : Service
service = record {
  identity_sign_pub = owner;
  identity_sign_priv = replicate 64 1;
  identity_x25519_pub = [];
  groups = (group, before) ∷ [];
  sender_keys = (group, old_keys) ∷ [];
}

abbrev service_after : Service
service_after = record service {
  groups = (group, after) ∷ [];
  sender_keys = (group, new_keys) ∷ [];
}

abbrev inputs : ℕ → KeyInput
inputs i = record { chain_key = some (8 ∷ []); seed = []; saved = true }

guest_removed : remove_member gc sc 9 true inputs group guest service ≡ (service_after, ok after)
unfolding remove_member ed25519_sign lookup insert bytes_dec is_member_with_role has_role ℤ_discrete
    compute_hash serialize sign next_state without rotate_all_sender_keys rotate_keys rotated_key
    generate_sender_key unsigned to_proto
guest_removed = refl

service_keys : group_keys group service ≡ some old_keys
unfolding lookup bytes_dec
service_keys = refl

remove_member-HasRotated_example :
    (keys' : Assoc Bytes SenderKey) × (group_keys group service_after ≡ some keys')
    × (is_member after guest ≡ false)
    × All (HasRotated sc inputs after keys') (pubkeys after.members)
    × ((j : Bytes)
        → is_member after j ≡ false
        → lookup bytes_dec j keys' ≡ lookup bytes_dec j old_keys)
remove_member-HasRotated_example =
    remove_member-HasRotated gc sc 9 true inputs group guest service service_after after old_keys
      service_keys guest_removed

service_group : lookup bytes_dec group service.groups ≡ some before
unfolding lookup bytes_dec
service_group = refl

validate_state_update-Publishes_example :
    (validate_state_update gc (update_of service after) before ≡ ok tt)
    × (after.epoch ≡ before.epoch + 1)
validate_state_update-Publishes_example =
    validate_state_update-Publishes gc sc service group before after (λ text. refl) refl
      service_group (omega arith) (removed 9 true inputs guest service_after guest_removed)
