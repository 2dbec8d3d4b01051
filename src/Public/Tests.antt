-- ===== src/Public/Tests.antt =====
-- A public group whose creator is banned by an admin, and a proof of work.
use babylontower.Prelude.{
  ℕ, ◌-◌, ◌≡◌, refl, Option, some, [], ◌∷◌, Bytes, true, bytes_dec, replicate, le_bytes, err, arith,
  get_or,
}
use babylontower.Prelude.Int.{pos, ℤ_discrete}
use babylontower.Prelude.Assoc.{lookup}
use babylontower.Groups.State.{ed25519_sign, GroupCrypto, GroupMember, GroupState, creator_removal}
use babylontower.Groups.Members.{is_member, is_member_of}
use babylontower.Membership.Methods.{is_member_with_role, has_role}
use babylontower.Public.Actions.{ModerationAction, sign_action, serialize_action}
use babylontower.Public.Service.{
  PublicGroupService, already_banned, group_error, is_banned, banned_of, ban_action,
  check_timestamps, valid_timestamps,
}
use babylontower.Public.Moderation.{ban_member}
use babylontower.Public.ProofOfWork.{
  meets, compute_proof_of_work, verify_proof_of_work, verify_proof_of_work-compute_proof_of_work,
}
use babylontower.Public.Bans.{ban_member-creator}

abbrev gc : GroupCrypto
gc = record {
  marshal = λ s. some (s.epoch ∷ []);
  sha256 = λ b. b;
  sign = λ key text. key;
  verify = λ key text signature. true;
}

abbrev creator : Bytes
creator = replicate 32 1

abbrev admin : Bytes
admin = replicate 32 2

abbrev member : Bytes → ℕ → GroupMember
member key role = record {
  ed25519_pubkey = key;
  x25519_pubkey = [];
  display_name = [];
  joined_at = 1;
  role = pos role;
}

abbrev club : GroupState
club = record {
  group_id = 3 ∷ [];
  epoch = 1;
  name = [];
  description = [];
  avatar_cid = [];
  group_type = pos 1;
  members = member creator 2 ∷ member admin 1 ∷ [];
  creator_pubkey = creator;
  created_at = 1;
  updated_at = 1;
  state_signature = [];
  previous_state_hash = [];
}

abbrev service : PublicGroupService
service = record {
  identity_sign_pub = admin;
  identity_sign_priv = replicate 64 4;
  groups = (3 ∷ [], club) ∷ [];
  banned = (3 ∷ [], []) ∷ [];
  muted = (3 ∷ [], []) ∷ [];
  rate_limits = (3 ∷ [], []) ∷ [];
}

abbrev body_of : ModerationAction → Option Bytes
body_of a = some a.reason

ban_member-creator_example :
    let (s', result) = ban_member gc body_of 9 true (3 ∷ []) creator [] service in
    (result ≡ err (group_error creator_removal))
    × (lookup bytes_dec (3 ∷ []) s'.groups ≡ some club)
    × (is_banned (3 ∷ []) creator s' ≡ true)
    × ((ban_member gc body_of 9 true (3 ∷ []) creator [] s').1 ≡ err already_banned)
unfolding lookup is_member_with_role has_role is_member is_member_of is_banned banned_of sign_action
    ed25519_sign serialize_action bytes_dec ℤ_discrete
ban_member-creator_example =
    ban_member-creator gc body_of 9 true (3 ∷ []) [] club
      (record {
        target_member_pubkey = creator;
        action_type =
            (ban_action (record {
              pubkey = creator;
              banned_at = 9;
              reason = [];
              moderator = admin;
            })).action_type;
        reason = [];
        duration_seconds = 0;
        target_message_id = [];
        moderator_pubkey = admin;
        timestamp = 9;
        signature = replicate 64 4;
      })
      service refl refl refl refl refl

-- The digest is 255 less the second byte of the text: the third nonce is the first below the difficulty.
abbrev digest : Bytes → Bytes
digest b = (255 - get_or b 1 0) ∷ []

verify_proof_of_work-compute_proof_of_work_example :
    (proof : Bytes) × (compute_proof_of_work digest (0 ∷ []) 253 ≡ some proof)
    × (verify_proof_of_work digest (0 ∷ []) proof 253 ≡ true)
unfolding meets le_bytes
verify_proof_of_work-compute_proof_of_work_example =
    verify_proof_of_work-compute_proof_of_work digest (0 ∷ []) 253 3 (omega arith) (omega arith)
      refl

-- A window that is longer than the time since 1970 wraps around, and no message counts.
wrapped_window : (check_timestamps 100 1 200 (some (99 ∷ 98 ∷ []))).1 ≡ true
unfolding check_timestamps valid_timestamps
wrapped_window = refl
