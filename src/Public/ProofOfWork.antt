-- ===== src/Public/ProofOfWork.antt =====
-- The proof of work of pkg/groups/public.go. SHA-256 is a parameter; its results have 32 bytes.
use babylontower.Prelude.{
  ℕ, zero, suc, ◌+◌, ◌≤◌, ◌<◌, ◌≡◌, refl, ap, Option, none, some, ◌++◌, Bytes, Bool, true, false,
  ◌&&◌, ltb, ◌==◌, length, get_or, le_bytes, dec_lt, Bool-cases, inl, inr, arith,
}

module _ (sha256 : Bytes → Bytes) where
  -- The test of `ComputeProofOfWork`: `hash[0] < difficulty` for the data followed by eight bytes.
  unfoldable pub meets : Bytes → ℕ → Bytes → Bool
  meets body difficulty nonce = ltb (get_or (sha256 (body ++ nonce)) 0 0) difficulty

  -- The loop of `ComputeProofOfWork`, with the number of rounds that are left; `nonce` is the last that was
  -- tried.
  unfoldable pub search_nonce : ℕ → ℕ → Bytes → ℕ → Option Bytes
  unfolding meets le_bytes
  search_nonce zero nonce body difficulty = none
  search_nonce (suc left) nonce body difficulty =
      elim (meets body difficulty (le_bytes 8 (nonce + 1))) [
        | true ↦ some (le_bytes 8 (nonce + 1))
        | false ↦ search_nonce left (nonce + 1) body difficulty
      ]

  -- A nonce above 1000000 that fails ends the loop: there are 1000001 rounds at most.
  unfoldable pub compute_proof_of_work : Bytes → ℕ → Option Bytes
  unfolding search_nonce
  compute_proof_of_work body difficulty = search_nonce 1000001 0 body difficulty

  unfoldable pub verify_proof_of_work : Bytes → Bytes → ℕ → Bool
  verify_proof_of_work body nonce difficulty =
      length nonce == 8 && ltb (get_or (sha256 (body ++ nonce)) 0 0) difficulty

  verify_proof_of_work-le_bytes :
      (body : Bytes) (n difficulty : ℕ)
      → meets body difficulty (le_bytes 8 n) ≡ true
      → verify_proof_of_work body (le_bytes 8 n) difficulty ≡ true
  unfolding verify_proof_of_work meets le_bytes
  verify_proof_of_work-le_bytes body n difficulty h = h

  beyond :
      (nonce n : ℕ) (body : Bytes) (difficulty : ℕ)
      → nonce < n
      → meets body difficulty (le_bytes 8 (nonce + 1)) ≡ false
      → meets body difficulty (le_bytes 8 n) ≡ true
      → nonce + 1 < n
  beyond nonce n body difficulty l e h = elim (dec_lt (nonce + 1) n) [
    | yes p ↦ p
    | no q ↦
        let same : nonce + 1 ≡ n = omega arith in
        let f = ap (λ z. meets body difficulty (le_bytes 8 z)) same in absurd (ground arith)
  ]

  search_nonce-finds :
      (left nonce n : ℕ) (body : Bytes) (difficulty : ℕ)
      → nonce < n
      → n ≤ nonce + left
      → meets body difficulty (le_bytes 8 n) ≡ true
      → (proof : Bytes) × (search_nonce left nonce body difficulty ≡ some proof)
        × (verify_proof_of_work body proof difficulty ≡ true)
  unfolding search_nonce
  search_nonce-finds zero nonce n body difficulty l u h = absurd (omega arith)
  search_nonce-finds (suc left) nonce n body difficulty l u h =
      elim (Bool-cases (meets body difficulty (le_bytes 8 (nonce + 1)))) [
        | inl e ↦ (
          le_bytes 8 (nonce + 1),
          rw (e, search_nonce) refl,
          verify_proof_of_work-le_bytes body (nonce + 1) difficulty e,
        )
        | inr e ↦
            let (proof, found, verified) =
              search_nonce-finds left (nonce + 1) n body difficulty
                (beyond nonce n body difficulty l e h) (omega arith) h in
            (proof, rw (e, search_nonce) found, verified)
      ]

  -- If one of the nonces from 1 to 1000001 meets the difficulty for some data, ComputeProofOfWork returns
  -- a proof, and VerifyProofOfWork accepts it for the same data and difficulty.
  pub verify_proof_of_work-compute_proof_of_work :
      (body : Bytes) (difficulty n : ℕ)
      → 0 < n
      → n ≤ 1000001
      → meets body difficulty (le_bytes 8 n) ≡ true
      → (proof : Bytes) × (compute_proof_of_work body difficulty ≡ some proof)
        × (verify_proof_of_work body proof difficulty ≡ true)
  unfolding compute_proof_of_work
  verify_proof_of_work-compute_proof_of_work body difficulty n l u h =
      search_nonce-finds 1000001 0 n body difficulty l u h
