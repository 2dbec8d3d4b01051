-- ===== src/Membership/Updates.antt =====
-- What `AddMember` and `RemoveMember` publish is what `ValidateStateUpdate` of the other members accepts
-- (pkg/groups/service.go and state.go).
use babylontower.Prelude.{
  ℕ, ◌+◌, ◌^◌, ◌<◌, ◌≡◌, inl, inr, sym, subst, ap, ◌∙◌, some, List, [], ◌∷◌, ◌++◌, Bytes, Bool,
  true, bytes_dec, ok, arith, length, Option-cases, Result-cases,
}
use babylontower.Prelude.Assoc.{lookup}
use babylontower.Groups.State.{
  to_proto, GroupRole, GroupMember, GroupState, GroupStateUpdate, GroupCrypto, IsSignPair, sign,
  serialize, compute_hash, ed25519_sign, unsigned,
}
use babylontower.Groups.Update.{
  has_admin-IsAdminAmong, has_admin, is_admin_role, validate_state_update,
  validate_state_update-Admits,
}
use babylontower.SenderKeys.Key.{SenderCrypto}
use babylontower.SenderKeys.Messages.{Service}
use babylontower.Membership.Methods.{
  KeyInput, has_role, is_member_with_role, admins, without, next_state, add_member, remove_member,
}

has_role-is_admin_role : (r : GroupRole) → has_role admins r ≡ is_admin_role r
unfolding has_role is_admin_role
has_role-is_admin_role r = ground arith

-- Who may change the group by the service is an admin for the validation.
is_member_with_role-has_admin :
    (pubkey : Bytes) (ms : List GroupMember)
    → is_member_with_role pubkey admins ms ≡ true
    → has_admin pubkey ms ≡ true
unfolding is_member_with_role has_admin
is_member_with_role-has_admin pubkey [] h = h
is_member_with_role-has_admin pubkey (m ∷ ms) h =
    ground (arith, has_role-is_admin_role m.role, is_member_with_role-has_admin pubkey ms)

-- The update that carries a new state to the other members.
abbrev pub update_of : Service → GroupState → GroupStateUpdate
update_of s new = record {
  new_state = new;
  previous_state_hash = new.previous_state_hash;
  updater_pubkey = s.identity_sign_pub;
  updater_signature = new.state_signature;
}

module _ (gc : GroupCrypto) (sc : SenderCrypto) where
  -- What a successful change of a group is made of.
  pub record IsChange (s : Service) (group_id : Bytes) (new : GroupState) : Type 0 where
    pub state : GroupState
    pub found : lookup bytes_dec group_id s.groups ≡ some state
    pub admin : is_member_with_role s.identity_sign_pub admins state.members ≡ true
    pub previous : Bytes
    pub hashed : compute_hash gc state ≡ some previous
    pub now : ℕ
    pub members : List GroupMember
    pub signed : sign gc s.identity_sign_priv (next_state now previous members state) ≡ ok new

  add_member-IsChange :
      (joined now : ℕ) (saved : Bool) (group_id pubkey x25519 name : Bytes) (role : GroupRole)
      (s s' : Service) (new : GroupState)
      → add_member gc joined now saved group_id pubkey x25519 name role s ≡ (s', ok new)
      → IsChange s group_id new
  unfolding add_member
  add_member-IsChange joined now saved group_id pubkey x25519 name role s s' new e =
      elim (Option-cases (lookup bytes_dec group_id s.groups)) [
        | inl n ↦ absurd (ground arith)
        | inr (state, f) ↦ elim (Option-cases (compute_hash gc state)) [
          | inl n ↦ absurd (ground arith)
          | inr (previous, h) ↦
              let members =
                state.members
                ++ (record {
                  ed25519_pubkey = pubkey;
                  x25519_pubkey = x25519;
                  display_name = name;
                  joined_at = joined;
                  role = role;
                })
                  ∷ [] in
              elim (Result-cases
                (sign gc s.identity_sign_priv (next_state now previous members state))) [
                  | inr (x, n) ↦ absurd (ground arith)
                  | inl (signed, g) ↦ record {
                    state = state;
                    found = f;
                    admin = ground arith;
                    previous = previous;
                    hashed = h;
                    now = now;
                    members = members;
                    signed = g ∙ ground arith;
                  }
                ]
        ]
      ]

  remove_member-IsChange :
      (now : ℕ) (saved : Bool) (inputs : ℕ → KeyInput) (group_id pubkey : Bytes) (s s' : Service)
      (new : GroupState)
      → remove_member gc sc now saved inputs group_id pubkey s ≡ (s', ok new)
      → IsChange s group_id new
  unfolding remove_member
  remove_member-IsChange now saved inputs group_id pubkey s s' new e =
      elim (Option-cases (lookup bytes_dec group_id s.groups)) [
        | inl n ↦ absurd (ground arith)
        | inr (state, f) ↦ elim (Option-cases (compute_hash gc state)) [
          | inl n ↦ absurd (ground arith)
          | inr (previous, h) ↦
              let members = without pubkey state.members in
              elim (Result-cases
                (sign gc s.identity_sign_priv (next_state now previous members state))) [
                  | inr (x, n) ↦ absurd (ground arith)
                  | inl (signed, g) ↦ record {
                    state = state;
                    found = f;
                    admin = ground arith;
                    previous = previous;
                    hashed = h;
                    now = now;
                    members = members;
                    signed = g ∙ ground arith;
                  }
                ]
        ]
      ]

  -- The states that the two methods return, and so send to the other members.
  pub data Publishes (s : Service) (group_id : Bytes) : GroupState → Type 0 where
    added :
        (joined now : ℕ) (saved : Bool) (pubkey x25519 name : Bytes) (role : GroupRole)
        (s' : Service) {new : GroupState}
        → add_member gc joined now saved group_id pubkey x25519 name role s ≡ (s', ok new)
        → Publishes s group_id new
    removed :
        (now : ℕ) (saved : Bool) (inputs : ℕ → KeyInput) (pubkey : Bytes) (s' : Service)
        {new : GroupState}
        → remove_member gc sc now saved inputs group_id pubkey s ≡ (s', ok new)
        → Publishes s group_id new

  Publishes-IsChange :
      {s : Service} {group_id : Bytes} {new : GroupState}
      → Publishes s group_id new
      → IsChange s group_id new
  Publishes-IsChange {s} {group_id} {new} (added joined now saved pubkey x25519 name role s' e) =
      add_member-IsChange joined now saved group_id pubkey x25519 name role s s' new e
  Publishes-IsChange {s} {group_id} {new} (removed now saved inputs pubkey s' e) =
      remove_member-IsChange now saved inputs group_id pubkey s s' new e

  pub sign-eq-ok :
      (priv : Bytes) (state new : GroupState)
      → sign gc priv state ≡ ok new
      → (text : Bytes) × (serialize gc (unsigned state) ≡ some text)
        × (new ≡ record state { state_signature = gc.sign priv text })
  unfolding sign ed25519_sign
  sign-eq-ok priv state new e = elim (Option-cases (serialize gc (unsigned state))) [
    | inl n ↦ absurd (ground arith)
    | inr (text, f) ↦ (text, f, ground arith)
  ]

  compute_hash-some :
      (state : GroupState) (hash : Bytes)
      → compute_hash gc state ≡ some hash
      → (text : Bytes) × (gc.marshal (to_proto state) ≡ some text) × (hash ≡ gc.sha256 text)
  unfolding compute_hash serialize
  compute_hash-some state hash e = elim (Option-cases (gc.marshal (to_proto state))) [
    | inl n ↦ absurd (ground arith)
    | inr (text, f) ↦ (text, f, ground arith)
  ]

  -- A state that `AddMember` or `RemoveMember` returns, sent as an update with its own signature and previous
  -- hash, passes `ValidateStateUpdate` at every member who holds the state before it. The signing keys are a
  -- pair, the public one of 32 bytes, and the epoch does not overflow.
  pub validate_state_update-Publishes :
      (s : Service) (group_id : Bytes) (old new : GroupState)
      → IsSignPair gc s.identity_sign_priv s.identity_sign_pub
      → length s.identity_sign_pub ≡ 32
      → lookup bytes_dec group_id s.groups ≡ some old
      → old.epoch + 1 < 2 ^ 64
      → Publishes s group_id new
      → (validate_state_update gc (update_of s new) old ≡ ok tt) × (new.epoch ≡ old.epoch + 1)
  unfolding next_state unsigned serialize
  validate_state_update-Publishes s group_id old new pair size held room p =
      let c = Publishes-IsChange p in
      let same : c.state ≡ old = cc (c.found, held) in
      let (text, serialized, made) =
        sign-eq-ok s.identity_sign_priv (next_state c.now c.previous c.members c.state) new
          c.signed in
      let (before, known, hash) = compute_hash-some old c.previous (rw (← same) c.hashed) in
      let epochs : new.epoch ≡ old.epoch + 1 =
        ap (λ g. g.epoch) made ∙ omega (arith, ap (λ g. g.epoch) same, room) in
      (
        (validate_state_update-Admits gc (update_of s new) old).1 (record {
          later = omega (arith, epochs);
          admin =
              (has_admin-IsAdminAmong s.identity_sign_pub old.members).0 (
                is_member_with_role-has_admin s.identity_sign_pub old.members
                  (rw (← same) c.admin));
          text = text;
          serialized = subst (λ g. serialize gc (unsigned g) ≡ some text) (sym made) serialized;
          signed =
              subst (λ g. gc.verify s.identity_sign_pub text g.state_signature ≡ true) (sym made)
                (pair text);
          before = before;
          known = known;
          key_size = size;
          linked = inr (inr (ap (λ g. g.previous_state_hash) made ∙ hash));
        }),
        epochs,
      )
