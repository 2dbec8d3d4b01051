-- ===== src/Groups/Tests.antt =====
-- Runs of pkg/groups/state.go over toy primitives, and the theorems at concrete inputs.
use mathlib.Core.List.Perm
use mathlib.Core.List.{Mem}
use babylontower.Prelude.{
  ◌≡◌, ◌≢◌, ◌↔◌, ◌⊎◌, refl, none, some, [], ◌∷◌, Bytes, true, false, codes, replicate, bytes_dec,
  ite, ok, arith,
}
use babylontower.Prelude.Int.{pos, negsuc, ℤ_discrete}
use babylontower.Groups.State.{
  GroupMember, GroupState, GroupStateUpdate, GroupCrypto, member_role, owner_role, new_group_state,
  unsigned, serialize, compute_hash, to_proto, ed25519_verify,
}
use babylontower.Groups.Members.{
  is_member, get_member_role, add_member, remove_member, IsWellFormed,
}
use babylontower.Groups.Removal.{get_member_role-remove_member}
use babylontower.Groups.Changes.{adds, removes, changed, changed-new_group_state-IsWellFormed}
use babylontower.Groups.Update.{
  validate_state_update, hash_matches, has_admin, Admits, validate_state_update-Admits, start, next,
  validate_state_update_stale,
}
use babylontower.Groups.ByteOrder.{bytes_ltb}
use babylontower.Groups.SplitBrain.{
  replaces, best_from, resolve_split_brain, IsBest, resolve_split_brain-IsBest,
  resolve_split_brain_agrees,
}

-- The serialised form is the epoch, and a signature is the text.
abbrev toy : GroupCrypto
toy = record {
  marshal = λ s. some (s.epoch ∷ []);
  sha256 = λ text. 7 ∷ text;
  sign = λ priv text. text;
  verify = λ public text signature. ite (bytes_dec text signature) true false;
}

abbrev creator_key : Bytes
creator_key = replicate 32 1

abbrev founder : GroupMember
founder = record {
  ed25519_pubkey = creator_key;
  x25519_pubkey = replicate 32 2;
  display_name = codes "Creator";
  joined_at = 10;
  role = owner_role;
}

abbrev founded : GroupState
founded = record {
  group_id = 9 ∷ [];
  epoch = 1;
  name = codes "g";
  description = [];
  avatar_cid = [];
  group_type = pos 0;
  members = founder ∷ [];
  creator_pubkey = creator_key;
  created_at = 10;
  updated_at = 10;
  state_signature = [];
  previous_state_hash = [];
}

founded_new :
    new_group_state (some (9 ∷ [])) 10 (codes "g") [] (pos 0) creator_key (replicate 32 2)
    ≡ ok founded
unfolding new_group_state
founded_new = refl

abbrev guest : GroupMember
guest = record founder { ed25519_pubkey = 5 ∷ []; role = member_role }

abbrev joined : GroupState
joined = record founded { members = founder ∷ guest ∷ []; updated_at = 11 }

add_member-joined : add_member 11 guest founded ≡ ok joined
unfolding add_member bytes_dec
add_member-joined = refl

remove_member-joined : remove_member 12 (5 ∷ []) joined ≡ ok (record founded { updated_at = 12 })
unfolding remove_member bytes_dec
remove_member-joined = refl

joined-IsWellFormed : IsWellFormed joined
unfolding is_member bytes_dec
joined-IsWellFormed = record { distinct = ground arith; fits = omega arith; creator = refl }

get_member_role-remove_member_example :
    (is_member (record founded { updated_at = 12 }) (5 ∷ []) ≡ false)
    × (get_member_role (record founded { updated_at = 12 }) (5 ∷ []) ≡ negsuc 0)
    × ((j : Bytes)
        → j ≢ 5 ∷ []
        → get_member_role (record founded { updated_at = 12 }) j ≡ get_member_role joined j)
get_member_role-remove_member_example =
    get_member_role-remove_member 12 (5 ∷ []) joined remove_member-joined joined-IsWellFormed

changed-new_group_state-IsWellFormed_example :
    IsWellFormed (changed founded (adds 11 guest ∷ removes 12 creator_key ∷ []))
changed-new_group_state-IsWellFormed_example =
    changed-new_group_state-IsWellFormed (some (9 ∷ [])) 10 (codes "g") [] (pos 0) creator_key
      (replicate 32 2) (adds 11 guest ∷ removes 12 creator_key ∷ []) founded founded_new

abbrev joined_epoch₂ : GroupState
joined_epoch₂ = record joined { epoch = 2 }

abbrev update : GroupStateUpdate
update = record {
  new_state = joined_epoch₂;
  previous_state_hash = 7 ∷ 1 ∷ [];
  updater_pubkey = creator_key;
  updater_signature = 2 ∷ [];
}

update_valid : validate_state_update toy update founded ≡ ok tt
unfolding validate_state_update hash_matches has_admin compute_hash serialize to_proto unsigned
    ed25519_verify bytes_dec ℤ_discrete
update_valid = refl

validate_state_update-Admits_example :
    (validate_state_update toy update founded ≡ ok tt) ↔ Admits toy update founded
validate_state_update-Admits_example = validate_state_update-Admits toy update founded

validate_state_update_stale_example :
    validate_state_update toy (record update { new_state = founded }) joined_epoch₂ ≢ ok tt
validate_state_update_stale_example =
    validate_state_update_stale toy (record update { new_state = founded })
      (next update start update_valid) (omega arith)

resolve_split_brain-IsBest_example :
    ((founded ∷ joined_epoch₂ ∷ [] ≡ [])
      × (resolve_split_brain (founded ∷ joined_epoch₂ ∷ []) ≡ none))
    ⊎ ((w : GroupState) × (resolve_split_brain (founded ∷ joined_epoch₂ ∷ []) ≡ some w)
        × IsBest (founded ∷ joined_epoch₂ ∷ []) w)
resolve_split_brain-IsBest_example = resolve_split_brain-IsBest (founded ∷ joined_epoch₂ ∷ [])

swapped : {s x y : GroupState} → Mem s (x ∷ y ∷ []) → Mem s (y ∷ x ∷ [])
swapped {s} {x} {y} m = (Perm.mem_iff (Perm.swap y x [])).0 m

resolve_split_brain_agrees_example :
    (joined_epoch₂.epoch ≡ joined_epoch₂.epoch)
    × (joined_epoch₂.creator_pubkey ≡ joined_epoch₂.creator_pubkey)
unfolding resolve_split_brain best_from replaces bytes_ltb
resolve_split_brain_agrees_example =
    resolve_split_brain_agrees (founded ∷ joined_epoch₂ ∷ []) (joined_epoch₂ ∷ founded ∷ [])
      joined_epoch₂ joined_epoch₂ (λ s. (swapped, swapped)) refl refl
