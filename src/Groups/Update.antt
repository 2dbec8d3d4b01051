-- ===== src/Groups/Update.antt =====
-- `ValidateStateUpdate` of pkg/groups/state.go, and the histories that it admits.
use babylontower.Prelude.{
  ◌≤◌, ◌<◌, ◌≡◌, ◌≢◌, ◌↔◌, some, List, [], ◌∷◌, Bytes, Bool, true, false, if◌then◌else◌, ltb, ◌&&◌,
  ite, length, bytes_dec, Result, ok, err, arith, ◌⊎◌, inl, inr, Option-cases,
}
use babylontower.Prelude.Int.{ℤ_discrete, pos}
use babylontower.Prelude.Fallible.{◌>>=◌, ◌>>◌, or_fail}
use babylontower.Groups.State.{
  GroupMember, GroupState, GroupStateUpdate, GroupRole, GroupCrypto, Error, admin_role, owner_role,
  marshal_failed, hash_mismatch, epoch_not_increasing, not_admin, invalid_signature, bad_key_length,
  unsigned, serialize, compute_hash, to_proto, ed25519_verify,
}

abbrev pub guard : Bool → Error → Result Error (Unit {0})
guard true e = ok tt
guard false e = err e

unfoldable pub is_admin_role : GroupRole → Bool
is_admin_role role =
    ite (ℤ_discrete role admin_role) true (ite (ℤ_discrete role owner_role) true false)

-- The loop over the current members: some member of the key is admin or owner.
unfoldable pub has_admin : Bytes → List GroupMember → Bool
unfolding is_admin_role
has_admin pubkey [] = false
has_admin pubkey (m ∷ ms) =
    let rest = has_admin pubkey ms in
    ite (bytes_dec m.ed25519_pubkey pubkey) (if is_admin_role m.role then true else rest) rest

-- The hashes are compared only if the update has one and the current state has one.
unfoldable pub hash_matches : GroupStateUpdate → GroupState → Bytes → Bool
hash_matches u current current_hash =
    if ltb 0 (length u.previous_state_hash) && ltb 0 (length current.previous_state_hash)
    then ite (bytes_dec u.previous_state_hash current_hash) true false
    else true

-- `ValidateStateUpdate`
unfoldable pub validate_state_update :
    GroupCrypto → GroupStateUpdate → GroupState → Result Error (Unit {0})
validate_state_update c u current = do
  current_hash ← or_fail (compute_hash c current) marshal_failed
  guard (hash_matches u current current_hash) hash_mismatch
  guard (ltb current.epoch u.new_state.epoch) epoch_not_increasing
  guard (has_admin u.updater_pubkey current.members) not_admin
  text ← or_fail (serialize c (unsigned u.new_state)) marshal_failed
  valid ← or_fail (ed25519_verify c u.updater_pubkey text u.updater_signature) bad_key_length
  guard valid invalid_signature

-- The update has no previous hash, or the current state has none, or the update's is `hash`.
abbrev pub IsLinked : GroupStateUpdate → GroupState → Bytes → Type 0
IsLinked u current hash =
    (u.previous_state_hash ≡ [])
    ⊎ (current.previous_state_hash ≡ [])
    ⊎ (u.previous_state_hash ≡ hash)

hash_matches-IsLinked :
    (u : GroupStateUpdate) (current : GroupState) (hash : Bytes)
    → (hash_matches u current hash ≡ true) ↔ IsLinked u current hash
unfolding hash_matches
hash_matches-IsLinked u current hash = (ground arith, ground arith)

-- A member of the list has the key, and is an admin or an owner.
abbrev pub IsAdminAmong : Bytes → List GroupMember → Type 0
IsAdminAmong pubkey [] = ⊥
IsAdminAmong pubkey (m ∷ ms) =
    ((m.ed25519_pubkey ≡ pubkey) × ((m.role ≡ pos 1) ⊎ (m.role ≡ pos 2))) ⊎ IsAdminAmong pubkey ms

is_admin_role-true :
    (role : GroupRole) → (is_admin_role role ≡ true) ↔ ((role ≡ pos 1) ⊎ (role ≡ pos 2))
unfolding is_admin_role
is_admin_role-true role = (ground arith, ground arith)

pub has_admin-IsAdminAmong :
    (pubkey : Bytes) (ms : List GroupMember) → (has_admin pubkey ms ≡ true) ↔ IsAdminAmong pubkey ms
unfolding has_admin
has_admin-IsAdminAmong pubkey [] = (λ h. absurd (ground arith), λ h. absurd h)
has_admin-IsAdminAmong pubkey (m ∷ ms) =
    let (there, back) = has_admin-IsAdminAmong pubkey ms in
    let (role, role_back) = is_admin_role-true m.role in (ground arith, ground arith)

module _ (c : GroupCrypto) where
  -- What an accepted update shows.
  pub record Admits (u : GroupStateUpdate) (current : GroupState) : Type 0 where
    pub later : current.epoch < u.new_state.epoch
    pub admin : IsAdminAmong u.updater_pubkey current.members
    pub text : Bytes
    pub serialized : c.marshal (to_proto (record u.new_state { state_signature = [] })) ≡ some text
    pub signed : c.verify u.updater_pubkey text u.updater_signature ≡ true
    pub before : Bytes
    pub known : c.marshal (to_proto current) ≡ some before
    pub key_size : length u.updater_pubkey ≡ 32
    pub linked : IsLinked u current (c.sha256 before)

  Admits-of_ok :
      (u : GroupStateUpdate) (current : GroupState)
      → validate_state_update c u current ≡ ok tt
      → Admits u current
  unfolding validate_state_update ed25519_verify compute_hash serialize unsigned
  Admits-of_ok u current h = elim (Option-cases (c.marshal (to_proto current))) [
    | inl e ↦ absurd (ground arith)
    | inr (before, e) ↦
        elim (Option-cases (c.marshal (to_proto (record u.new_state { state_signature = [] })))) [
          | inl f ↦ absurd (ground arith)
          | inr (text, f) ↦ record {
            later = ground arith;
            admin = (has_admin-IsAdminAmong u.updater_pubkey current.members).0 (ground arith);
            text = text;
            serialized = f;
            signed = ground arith;
            before = before;
            known = e;
            key_size = ground arith;
            linked = (hash_matches-IsLinked u current (c.sha256 before)).0 (ground arith);
          }
        ]
  ]

  ok-of_Admits :
      (u : GroupStateUpdate) (current : GroupState)
      → Admits u current
      → validate_state_update c u current ≡ ok tt
  unfolding validate_state_update ed25519_verify compute_hash serialize unsigned
  ok-of_Admits u current a = ground (
    arith,
    a.later,
    (has_admin-IsAdminAmong u.updater_pubkey current.members).1 a.admin,
    a.serialized,
    a.signed,
    a.known,
    a.key_size,
    (hash_matches-IsLinked u current (c.sha256 a.before)).1 a.linked,
  )

  -- `ValidateStateUpdate` accepts an update exactly if both states serialise, its epoch is later, its
  -- updater has a key of 32 bytes that a current member of role admin (1) or owner (2) has, its signature
  -- verifies over the new state without its signature, and its previous hash, if both it and the current
  -- state have one, is the SHA-256 of the serialised current state.
  pub validate_state_update-Admits :
      (u : GroupStateUpdate) (current : GroupState)
      → (validate_state_update c u current ≡ ok tt) ↔ Admits u current
  validate_state_update-Admits u current = (Admits-of_ok u current, ok-of_Admits u current)

  -- The states that follow one another by accepted updates.
  pub data History (s : GroupState) : GroupState → Type 0 where
    start : History s s
    next :
        {t : GroupState} (u : GroupStateUpdate)
        → History s t
        → validate_state_update c u t ≡ ok tt
        → History s u.new_state

  History-epoch_le : {s t : GroupState} → History s t → s.epoch ≤ t.epoch
  History-epoch_le start = omega arith
  History-epoch_le (next {t} u h e) = omega (arith, History-epoch_le h, (Admits-of_ok u t e).later)

  -- However many updates were accepted since a state was current, `ValidateStateUpdate` refuses every
  -- update to that state's epoch or an earlier one: no old state, replayed or signed anew, comes back.
  pub validate_state_update_stale :
      {s t : GroupState} (u : GroupStateUpdate)
      → History s t
      → u.new_state.epoch ≤ s.epoch
      → validate_state_update c u t ≢ ok tt
  validate_state_update_stale {s} {t} u h old e =
      absurd (omega (arith, History-epoch_le h, (Admits-of_ok u t e).later))
