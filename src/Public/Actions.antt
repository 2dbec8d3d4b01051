-- ===== src/Public/Actions.antt =====
-- The moderation actions of pkg/groups/public.go.
use babylontower.Prelude.{ℕ, Option, none, some, [], Bytes, Bool, codes, Result, ok}
use babylontower.Prelude.Fallible.{◌>>=◌, or_fail}
use babylontower.Groups.State.{
  GroupCrypto, Error, marshal_failed, bad_key_length, ed25519_sign, ed25519_verify,
}

abbrev pub action_ban : Bytes
action_ban = codes "ban"

abbrev pub action_mute : Bytes
action_mute = codes "mute"

abbrev pub action_delete_message : Bytes
action_delete_message = codes "delete_message"

pub record BannedMember : Type 0 where
  pub pubkey : Bytes
  pub banned_at : ℕ
  pub reason : Bytes
  pub moderator : Bytes

pub record MutedMember : Type 0 where
  pub pubkey : Bytes
  pub muted_at : ℕ
  pub duration_sec : ℕ
  pub expires_at : ℕ
  pub reason : Bytes
  pub moderator : Bytes

pub record ModerationAction : Type 0 where
  pub target_member_pubkey : Bytes
  pub action_type : Bytes
  pub reason : Bytes
  pub duration_seconds : ℕ
  pub target_message_id : Bytes
  pub moderator_pubkey : Bytes
  pub timestamp : ℕ
  pub signature : Bytes

-- `pb.ModerationAction` has the same fields: `ToProto` and `ModerationActionFromProto` copy them, and the
-- serialiser of the generated code is a parameter.
module _ (gc : GroupCrypto) (marshal : ModerationAction → Option Bytes) where
  -- `Serialize`, without the signature.
  unfoldable pub serialize_action : ModerationAction → Option Bytes
  serialize_action a = marshal (record a { signature = [] })

  -- `Sign`
  unfoldable pub sign_action : Bytes → ModerationAction → Result Error ModerationAction
  unfolding serialize_action
  sign_action priv a = do
    body ← or_fail (serialize_action a) marshal_failed
    signature ← or_fail (ed25519_sign gc priv body) bad_key_length
    ok (record a { signature = signature })

  -- `Verify`, `none` where it panics.
  unfoldable pub verify_action : Bytes → ModerationAction → Option Bool
  unfolding serialize_action ed25519_verify
  verify_action public a = elim (serialize_action a) [
    | none ↦ some Bool.false
    | some body ↦ ed25519_verify gc public body a.signature
  ]
