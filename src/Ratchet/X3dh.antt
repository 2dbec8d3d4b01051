-- ===== src/Ratchet/X3dh.antt =====
-- `X3DHInitiator` and `X3DHResponder` (x3dh.go).
use babylontower.Prelude.{
  ℕ, ◌≡◌, refl, Option, none, some, [], ◌++◌, Bytes, codes, replicate, arith, Result, ok,
  Option-cases, inl, inr,
}
use babylontower.Prelude.Fallible.{◌>>=◌, or_fail}
use babylontower.Ratchet.Crypto.{Crypto, Laws, generate_x25519_key_pair}
use babylontower.Ratchet.State.{
  Error, key_generation_failed, x25519_failed, derivation_failed, cipher_suite_xchacha20_poly1305,
}

pub record X3dhResult : Type 0 where
  pub shared_secret : Bytes
  pub authenticated_data : Bytes
  pub used_opk_id : ℕ
  pub cipher_suite : ℕ
  pub ephemeral_pub : Option Bytes

module _ (c : Crypto) where
  -- DH4, if there is a one-time prekey: the bytes that are appended to DH1 || DH2 || DH3.
  unfoldable pub dh4_initiator : Bytes → Option Bytes → Result Error Bytes
  dh4_initiator ek_priv none = ok ([])
  dh4_initiator ek_priv (some remote_opk_pub) =
      or_fail (c.x25519 ek_priv remote_opk_pub) x25519_failed

  unfoldable pub dh4_responder : Option Bytes → Bytes → Result Error Bytes
  dh4_responder none ek_pub = ok ([])
  dh4_responder (some local_opk_priv) ek_pub =
      or_fail (c.x25519 local_opk_priv ek_pub) x25519_failed

  -- `hkdf.New(sha256.New, input, make([]byte, 32), info)`, with the initiator's identity key first.
  unfoldable pub derive_shared_secret : Bytes → Bytes → Bytes → Result Error Bytes
  derive_shared_secret input initiator_ik responder_ik =
      or_fail
        (c.hkdf input (replicate 32 0) ((codes "BabylonTowerX3DH" ++ initiator_ik) ++ responder_ik)
          32)
        derivation_failed

  unfoldable pub x3dh_initiator :
      Option Bytes → Bytes → Bytes → Bytes → Bytes → Option Bytes → Result Error X3dhResult
  x3dh_initiator seed local_ik_priv local_ik_pub remote_ik_pub remote_spk_pub remote_opk_pub = do
    (ek_priv, ek_pub) ← or_fail (generate_x25519_key_pair c seed) key_generation_failed
    dh1 ← or_fail (c.x25519 local_ik_priv remote_spk_pub) x25519_failed
    dh2 ← or_fail (c.x25519 ek_priv remote_ik_pub) x25519_failed
    dh3 ← or_fail (c.x25519 ek_priv remote_spk_pub) x25519_failed
    dh4 ← dh4_initiator ek_priv remote_opk_pub
    sk ← derive_shared_secret (((dh1 ++ dh2) ++ dh3) ++ dh4) local_ik_pub remote_ik_pub
    ok (record {
      shared_secret = sk;
      authenticated_data = local_ik_pub ++ remote_ik_pub;
      used_opk_id = 0;
      cipher_suite = cipher_suite_xchacha20_poly1305;
      ephemeral_pub = some ek_pub;
    })

  unfoldable pub x3dh_responder :
      Bytes → Bytes → Bytes → Option Bytes → Bytes → Bytes → Result Error X3dhResult
  x3dh_responder local_ik_priv local_ik_pub local_spk_priv local_opk_priv remote_ik_pub ek_pub = do
    dh1 ← or_fail (c.x25519 local_spk_priv remote_ik_pub) x25519_failed
    dh2 ← or_fail (c.x25519 local_ik_priv ek_pub) x25519_failed
    dh3 ← or_fail (c.x25519 local_spk_priv ek_pub) x25519_failed
    dh4 ← dh4_responder local_opk_priv ek_pub
    sk ← derive_shared_secret (((dh1 ++ dh2) ++ dh3) ++ dh4) remote_ik_pub local_ik_pub
    ok (record {
      shared_secret = sk;
      authenticated_data = remote_ik_pub ++ local_ik_pub;
      used_opk_id = 0;
      cipher_suite = cipher_suite_xchacha20_poly1305;
      ephemeral_pub = none;
    })

  -- `priv` and `public` are a key pair.
  abbrev pub IsPair : Bytes → Bytes → Type 0
  IsPair priv public = c.x25519 priv c.basepoint ≡ some public

  -- The private and the public half of a one-time prekey, if there is one.
  abbrev pub IsOptionalPair : Option Bytes → Option Bytes → Type 0
  IsOptionalPair none none = Unit
  IsOptionalPair (some priv) (some public) = IsPair priv public
  IsOptionalPair _ _ = ⊥

  module _ (laws : Laws c) where
    dh4_agree :
        (ek_priv ek_pub : Bytes) (opk_priv opk_pub : Option Bytes)
        → IsPair ek_priv ek_pub
        → IsOptionalPair opk_priv opk_pub
        → dh4_responder opk_priv ek_pub ≡ dh4_initiator ek_priv opk_pub
    unfolding dh4_initiator dh4_responder
    dh4_agree ek_priv ek_pub none none e o = refl
    dh4_agree ek_priv ek_pub (some b) (some pb) e o = rw (laws.agree b ek_priv pb ek_pub o e)
    dh4_agree ek_priv ek_pub none (some pb) e o = absurd o
    dh4_agree ek_priv ek_pub (some b) none e o = absurd o

    -- When `X3DHInitiator` succeeds and the responder is given its ephemeral key, `X3DHResponder`
    -- succeeds with the same shared secret, associated data and cipher suite, with a one-time
    -- prekey and without.
    pub x3dh_responder-x3dh_initiator :
        (seed : Option Bytes) (a pa b pb spk pspk : Bytes) (opk popk : Option Bytes)
        {r : X3dhResult}
        → IsPair a pa
        → IsPair b pb
        → IsPair spk pspk
        → IsOptionalPair opk popk
        → x3dh_initiator seed a pa pb pspk popk ≡ ok r
        → (ek : Bytes) × (r.ephemeral_pub ≡ some ek)
          × (x3dh_responder b pb spk opk pa ek ≡ ok (record r { ephemeral_pub = none }))
    unfolding x3dh_initiator x3dh_responder generate_x25519_key_pair
    x3dh_responder-x3dh_initiator none a pa b pb spk pspk opk popk ha hb hs ho e =
        absurd (ground arith)
    x3dh_responder-x3dh_initiator (some ek) a pa b pb spk pspk opk popk ha hb hs ho e =
        elim (Option-cases (c.x25519 ek c.basepoint)) [
          | inl f ↦ absurd (ground arith)
          | inr (pek, f) ↦ (
            pek,
            ground arith,
            ground (
              arith,
              laws.agree spk a pspk pa hs ha,
              laws.agree b ek pb pek hb f,
              laws.agree spk ek pspk pek hs f,
              dh4_agree ek pek opk popk f ho,
            ),
          )
        ]
