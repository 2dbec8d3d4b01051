-- ===== src/Public/Bans.antt =====
-- What a ban of the group's creator leaves behind (pkg/groups/public.go).
use babylontower.Prelude.{
  ℕ, ◌≡◌, refl, ap, ◌∙◌, Option, some, Bytes, Bool, true, false, bytes_dec, if_pos, ok, err, arith,
  Option-cases, inl, inr,
}
use babylontower.Prelude.Assoc.{lookup, insert, lookup-insert_same}
use babylontower.Groups.State.{GroupCrypto, GroupState, creator_removal}
use babylontower.Groups.Members.{is_member, remove_first, remove_member}
use babylontower.Groups.Removal.{remove_first-absent}
use babylontower.Membership.Methods.{is_member_with_role, admins}
use babylontower.Public.Actions.{ModerationAction, BannedMember, sign_action}
use babylontower.Public.Service.{
  PublicGroupService, already_banned, group_error, is_banned, banned_of, put_banned, or_nil,
  ban_action,
}
use babylontower.Public.Moderation.{ban, ban_member}

is_banned-put_banned :
    (group_id : Bytes) (b : BannedMember) (s : PublicGroupService)
    → is_banned group_id b.pubkey (put_banned group_id b s) ≡ true
unfolding is_banned banned_of
is_banned-put_banned group_id b s =
    let m = insert bytes_dec b.pubkey b (or_nil (lookup bytes_dec group_id s.banned)) in
    let outer = lookup-insert_same bytes_dec group_id m s.banned in
    let inner =
      lookup-insert_same bytes_dec b.pubkey b (or_nil (lookup bytes_dec group_id s.banned)) in
    let noted : banned_of group_id b.pubkey (put_banned group_id b s) ≡ some b =
      ap (λ o. lookup bytes_dec b.pubkey (or_nil o)) outer ∙ inner in
    rw (noted, is_banned) refl

remove_member-creator :
    (now : ℕ) (state : GroupState)
    → is_member state state.creator_pubkey ≡ true
    → remove_member now state.creator_pubkey state ≡ err creator_removal
unfolding remove_member is_member
remove_member-creator now state m =
    elim (Option-cases (remove_first state.creator_pubkey state.members)) [
      | inl e ↦
          let a = remove_first-absent state.creator_pubkey state.members e in absurd (ground arith)
      | inr (rest, e) ↦
          rw (e, remove_member)
            (if_pos (bytes_dec state.creator_pubkey state.creator_pubkey) refl _ _)
    ]

module _ (gc : GroupCrypto) (marshal : ModerationAction → Option Bytes) where
  -- In a group of the service whose creator is a member and not banned, an admin or owner bans the
  -- creator, and the action can be serialised. BanMember reports that the creator cannot be removed;
  -- afterwards the group is as it was, the creator still a member of it, and IsBanned says that the creator
  -- is banned; a second BanMember reports that the creator is banned already.
  pub ban_member-creator :
      (now : ℕ) (saved : Bool) (group_id reason : Bytes) (state : GroupState)
      (signed : ModerationAction) (s : PublicGroupService)
      → lookup bytes_dec group_id s.groups ≡ some state
      → is_member_with_role s.identity_sign_pub admins state.members ≡ true
      → is_member state state.creator_pubkey ≡ true
      → is_banned group_id state.creator_pubkey s ≡ false
      → sign_action gc marshal s.identity_sign_priv (
          ban_action (record {
            pubkey = state.creator_pubkey;
            banned_at = now;
            reason = reason;
            moderator = s.identity_sign_pub;
          }))
        ≡ ok signed
      → let (s', result) = ban_member gc marshal now saved group_id state.creator_pubkey reason s in
        (result ≡ err (group_error creator_removal))
        × (lookup bytes_dec group_id s'.groups ≡ some state)
        × (is_banned group_id state.creator_pubkey s' ≡ true)
        × ((ban_member gc marshal now saved group_id state.creator_pubkey reason s').1
            ≡ err already_banned)
  unfolding ban_member ban
  ban_member-creator now saved group_id reason state signed s found admin member free e =
      let b : BannedMember = record {
        pubkey = state.creator_pubkey;
        banned_at = now;
        reason = reason;
        moderator = s.identity_sign_pub;
      } in
      let outcome : ban_member gc marshal now saved group_id state.creator_pubkey reason s
          ≡ (put_banned group_id b s, err (group_error creator_removal)) =
        rw (found, admin, free, e, remove_member-creator now state member, ban_member, ban) refl in
      let noted = is_banned-put_banned group_id b s in
      rw outcome (refl, found, noted, rw (found, admin, noted, ban_member) refl)
