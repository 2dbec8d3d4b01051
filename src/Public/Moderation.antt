-- ===== src/Public/Moderation.antt =====
-- `CreatePublicGroup`, `BanMember`, `MuteMember` and `DeleteMessage` of pkg/groups/public.go.
use babylontower.Prelude.{
  ℕ, ◌+◌, ◌%◌, ◌^◌, Option, none, some, [], Bytes, Bool, false, if◌then◌else◌, ltb, replicate,
  bytes_dec, ok, err,
}
use babylontower.Prelude.Int.{pos}
use babylontower.Prelude.Assoc.{lookup, insert}
use babylontower.Groups.State.{
  GroupCrypto, GroupState, group_not_found, not_authorized, save_failed, new_group_state, sign,
}
use babylontower.Groups.Members.{remove_member}
use babylontower.Membership.Methods.{is_member_with_role, admins}
use babylontower.Public.Actions.{
  BannedMember, MutedMember, ModerationAction, action_delete_message, sign_action,
}
use babylontower.Public.Service.{
  Moderation, already_banned, already_muted, group_error, is_banned, muted_of, put_banned,
  put_muted, put_group, ban_action, mute_action,
}

module _ (gc : GroupCrypto) (marshal : ModerationAction → Option Bytes) where
  -- `group_id` is what `NewGroupState` reads at random.
  unfoldable pub create_public_group :
      Option Bytes → ℕ → Bool → Bytes → Bytes → Moderation GroupState
  create_public_group group_id now saved name description s =
      elim (new_group_state group_id now name description (pos 1) s.identity_sign_pub
        (replicate 32 0)) [
          | err e ↦ (s, err (group_error e))
          | ok state ↦ elim (sign gc s.identity_sign_priv state) [
            | err e ↦ (s, err (group_error e))
            | ok signed ↦
                if saved
                then (
                  record (put_group signed.group_id signed s) {
                    banned = insert bytes_dec signed.group_id [] s.banned;
                    muted = insert bytes_dec signed.group_id [] s.muted;
                    rate_limits = insert bytes_dec signed.group_id [] s.rate_limits;
                  },
                  ok signed,
                )
                else (s, err (group_error save_failed))
          ]
        ]

  -- The group without a banned member, signed and stored.
  unfoldable pub publish_removal :
      ℕ → Bool → Bytes → GroupState → ModerationAction → Moderation ModerationAction
  publish_removal now saved group_id state action s =
      let next = record state { epoch = (state.epoch + 1) % 2 ^ 64; updated_at = now } in
      elim (sign gc s.identity_sign_priv next) [
        | err e ↦ (put_group group_id next s, err (group_error e))
        | ok signed ↦ (
          put_group group_id signed s,
          if saved then ok action else err (group_error save_failed),
        )
      ]

  -- The part of `BanMember` after the checks: the ban is noted first, then the member is removed.
  unfoldable pub ban : ℕ → Bool → Bytes → GroupState → BannedMember → Moderation ModerationAction
  unfolding sign_action publish_removal
  ban now saved group_id state b s =
      elim (sign_action gc marshal s.identity_sign_priv (ban_action b)) [
        | err e ↦ (s, err (group_error e))
        | ok action ↦
            let s' = put_banned group_id b s in
            elim (remove_member now b.pubkey state) [
              | err e ↦ (s', err (group_error e))
              | ok rest ↦ publish_removal now saved group_id rest action s'
            ]
      ]

  unfoldable pub ban_member : ℕ → Bool → Bytes → Bytes → Bytes → Moderation ModerationAction
  unfolding is_banned ban
  ban_member now saved group_id pubkey reason s = elim (lookup bytes_dec group_id s.groups) [
    | none ↦ (s, err (group_error group_not_found))
    | some state ↦
        let b : BannedMember = record {
          pubkey = pubkey;
          banned_at = now;
          reason = reason;
          moderator = s.identity_sign_pub;
        } in
        if is_member_with_role s.identity_sign_pub admins state.members
        then if is_banned group_id pubkey s
          then (s, err already_banned)
          else ban now saved group_id state b s
        else (s, err (group_error not_authorized))
  ]

  -- A mute that has not expired.
  abbrev pub lasts : ℕ → Option MutedMember → Bool
  lasts now none = false
  lasts now (some x) = ltb now x.expires_at

  unfoldable pub mute : Bytes → MutedMember → Moderation ModerationAction
  unfolding sign_action
  mute group_id x s = elim (sign_action gc marshal s.identity_sign_priv (mute_action x)) [
    | err e ↦ (s, err (group_error e))
    | ok action ↦ (put_muted group_id x s, ok action)
  ]

  unfoldable pub mute_member : ℕ → Bytes → Bytes → Bytes → ℕ → Moderation ModerationAction
  unfolding muted_of mute
  mute_member now group_id pubkey reason duration s = elim (lookup bytes_dec group_id s.groups) [
    | none ↦ (s, err (group_error group_not_found))
    | some state ↦
        let x : MutedMember = record {
          pubkey = pubkey;
          muted_at = now;
          duration_sec = duration;
          expires_at = (now + duration) % 2 ^ 64;
          reason = reason;
          moderator = s.identity_sign_pub;
        } in
        if is_member_with_role s.identity_sign_pub admins state.members
        then if lasts now (muted_of group_id pubkey s)
          then (s, err already_muted)
          else mute group_id x s
        else (s, err (group_error not_authorized))
  ]

  -- `DeleteMessage` signs an action and changes nothing.
  unfoldable pub delete_message : ℕ → Bytes → Bytes → Bytes → Moderation ModerationAction
  unfolding sign_action
  delete_message now group_id message_id reason s = elim (lookup bytes_dec group_id s.groups) [
    | none ↦ (s, err (group_error group_not_found))
    | some state ↦
        let action : ModerationAction = record {
          target_member_pubkey = [];
          action_type = action_delete_message;
          reason = reason;
          duration_seconds = 0;
          target_message_id = message_id;
          moderator_pubkey = s.identity_sign_pub;
          timestamp = now;
          signature = [];
        } in
        if is_member_with_role s.identity_sign_pub admins state.members
        then elim (sign_action gc marshal s.identity_sign_priv action) [
          | err e ↦ (s, err (group_error e))
          | ok signed ↦ (s, ok signed)
        ]
        else (s, err (group_error not_authorized))
  ]
