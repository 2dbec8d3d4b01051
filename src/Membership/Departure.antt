-- ===== src/Membership/Departure.antt =====
-- The keys of a group after `RemoveMember` (pkg/groups/service.go).
use babylontower.Prelude.{
  ℕ, ◌≡◌, ◌≢◌, refl, subst, ap, ◌∙◌, some, List, [], ◌∷◌, Bytes, Bool, false, bytes_dec, All, ok,
  arith, inl, inr, Option-cases, Result-cases,
}
use babylontower.Prelude.Assoc.{Assoc, lookup, insert, lookup-insert_same}
use babylontower.Groups.State.{GroupCrypto, GroupMember, GroupState, sign, compute_hash}
use babylontower.Groups.Members.{pubkeys, is_member, is_member_of}
use babylontower.SenderKeys.Key.{SenderCrypto, SenderKey}
use babylontower.SenderKeys.Messages.{Service, group_keys}
use babylontower.Membership.Methods.{
  KeyInput, without, next_state, remove_member, rotate_keys, rotate_all_sender_keys,
}
use babylontower.Membership.Rotation.{HasRotated, rotate_keys-members, rotate_keys_other}
use babylontower.Membership.Updates.{sign-eq-ok}

without-is_member : (j : Bytes) (ms : List GroupMember) → is_member_of j (without j ms) ≡ false
unfolding is_member_of without
without-is_member j [] = refl
without-is_member j (m ∷ ms) = ground (arith, without-is_member j ms)

All-is_member :
    (j : Bytes) (ms : List GroupMember) → is_member_of j ms ≡ false → All (λ x. x ≢ j) (pubkeys ms)
unfolding is_member_of
All-is_member j [] h = tt
All-is_member j (m ∷ ms) h = (ground arith, All-is_member j ms (ground arith))

module _ (gc : GroupCrypto) (sc : SenderCrypto) where
  -- The parts of a successful removal.
  record IsRemoval (now : ℕ) (inputs : ℕ → KeyInput) (group_id pubkey : Bytes) (s s' : Service)
      (new : GroupState) : Type 0 where
    state : GroupState
    previous : Bytes
    signed :
        sign gc s.identity_sign_priv (next_state now previous (without pubkey state.members) state)
        ≡ ok new
    rotated :
        rotate_all_sender_keys sc inputs new
          (record s { groups = insert bytes_dec group_id new s.groups })
        ≡ (s', ok tt)

  remove_member-IsRemoval :
      (now : ℕ) (saved : Bool) (inputs : ℕ → KeyInput) (group_id pubkey : Bytes) (s s' : Service)
      (new : GroupState)
      → remove_member gc sc now saved inputs group_id pubkey s ≡ (s', ok new)
      → IsRemoval now inputs group_id pubkey s s' new
  unfolding remove_member
  remove_member-IsRemoval now saved inputs group_id pubkey s s' new e =
      elim (Option-cases (lookup bytes_dec group_id s.groups)) [
        | inl n ↦ absurd (ground arith)
        | inr (state, f) ↦ elim (Option-cases (compute_hash gc state)) [
          | inl n ↦ absurd (ground arith)
          | inr (previous, h) ↦
              elim (Result-cases (
                sign gc s.identity_sign_priv
                  (next_state now previous (without pubkey state.members) state))) [
                    | inr (x, n) ↦ absurd (ground arith)
                    | inl (signed, g) ↦
                        let moved : Service = record s {
                          groups = insert bytes_dec group_id signed s.groups;
                        } in
                        elim (Result-cases ((rotate_all_sender_keys sc inputs signed moved).1)) [
                          | inr (x, n) ↦ absurd (ground arith)
                          | inl (u, r) ↦
                              let same : signed ≡ new = ground arith in
                              record {
                                state = state;
                                previous = previous;
                                signed = g ∙ ap ok same;
                                rotated =
                                    subst
                                      (λ x.
                                        rotate_all_sender_keys sc inputs x (record s {
                                          groups = insert bytes_dec group_id x s.groups;
                                        })
                                        ≡ (s', ok tt))
                                      same (ground arith);
                              }
                        ]
                  ]
        ]
      ]

  -- After a successful `RemoveMember` in a group with sender keys, the key is no member, every member has a
  -- sender key of the new epoch whose chain starts from fresh random bytes, and every key that is no member,
  -- the removed one too, has in the map what it had before.
  pub remove_member-HasRotated :
      (now : ℕ) (saved : Bool) (inputs : ℕ → KeyInput) (group_id pubkey : Bytes) (s s' : Service)
      (new : GroupState) (keys : Assoc Bytes SenderKey)
      → group_keys new.group_id s ≡ some keys
      → remove_member gc sc now saved inputs group_id pubkey s ≡ (s', ok new)
      → (keys' : Assoc Bytes SenderKey) × (group_keys new.group_id s' ≡ some keys')
        × (is_member new pubkey ≡ false)
        × All (HasRotated sc inputs new keys') (pubkeys new.members)
        × ((j : Bytes)
            → is_member new j ≡ false
            → lookup bytes_dec j keys' ≡ lookup bytes_dec j keys)
  unfolding rotate_all_sender_keys is_member next_state
  remove_member-HasRotated now saved inputs group_id pubkey s s' new keys k e =
      let r = remove_member-IsRemoval now saved inputs group_id pubkey s s' new e in
      let (text, serialized, made) =
        sign-eq-ok gc sc s.identity_sign_priv
          (next_state now r.previous (without pubkey r.state.members) r.state) new r.signed in
      let members : new.members ≡ without pubkey r.state.members = ap (λ g. g.members) made in
      let run = rotate_keys sc inputs 0 new new.members keys in
      let loop : rotate_keys sc inputs 0 new new.members keys ≡ (run.0, ok tt) =
        let q = r.rotated in ground (arith, k) in
      let store : s'.sender_keys ≡ insert bytes_dec new.group_id run.0 s.sender_keys =
        let q = r.rotated in ground (arith, k) in
      (
        run.0,
        rw store (lookup-insert_same bytes_dec new.group_id run.0 s.sender_keys),
        rw members (without-is_member pubkey r.state.members),
        rotate_keys-members sc inputs new 0 new.members keys run.0 loop,
        λ j out.
            rotate_keys_other sc inputs new 0 new.members keys run.0 j loop
              (All-is_member j new.members out),
      )
