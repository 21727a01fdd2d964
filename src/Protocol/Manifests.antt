-- ===== src/Protocol/Manifests.antt =====
-- packages/sip-protocol/src/sip_protocol: manifests.py and attestation.py.
use sovereign_inference.Base.{
  String, Bool, true, false, not, Option, none, some, List, [], ◌∷◌, is_empty, if◌then◌else◌, ◌≡◌,
  refl, ap, ◌∙◌, arith, inl, inr, ◌⊎◌, Bool-cases,
}
use sovereign_inference.Json.{string, object, Dict, get, set, as_dict, in_texts, dict_of, set_some}
use sovereign_inference.Result.{Result, ok, raised, Exception, Result-cases}
use sovereign_inference.Runtime.{Runtime}
use sovereign_inference.Protocol.Signing.{KeyPair}
use sovereign_inference.Protocol.Documents.{
  verify_document, sign_document, signed_document, is_signed,
}

unfoldable pub sign_provider_manifest : Runtime → Dict → KeyPair → Result Dict
sign_provider_manifest R manifest kp = sign_document R manifest kp

unfoldable pub verify_provider_manifest : Runtime → Dict → Result Bool
verify_provider_manifest R manifest =
    if is_empty (R.iter_errors "provider_manifest" manifest)
    then verify_document R manifest "provider_pubkey"
    else ok false

-- It returns True.
unfoldable pub is_verified_manifest : Runtime → Dict → Bool
is_verified_manifest R manifest = elim (verify_provider_manifest R manifest) [
  | raised e ↦ false
  | ok verified ↦ verified
]

pub is_verified_manifest-true :
    (R : Runtime) (manifest : Dict)
    → is_verified_manifest R manifest ≡ true
    → verify_provider_manifest R manifest ≡ ok true
unfolding is_verified_manifest
is_verified_manifest-true R manifest h = elim (Result-cases (verify_provider_manifest R manifest)) [
  | inr (e, n) ↦ absurd (ground arith)
  | inl (b, e) ↦ e ∙ ap ok (ground arith)
]

pub true-is_verified_manifest :
    (R : Runtime) (manifest : Dict)
    → verify_provider_manifest R manifest ≡ ok true
    → is_verified_manifest R manifest ≡ true
unfolding is_verified_manifest
true-is_verified_manifest R manifest e = rw (is_verified_manifest, e) refl

-- What verification gives
pub verdicts :
    (R : Runtime) (manifest : Dict)
    → (verify_provider_manifest R manifest ≡ ok true)
      ⊎ ((verify_provider_manifest R manifest ≡ ok false)
          ⊎ ((e : Exception) × (verify_provider_manifest R manifest ≡ raised e)))
verdicts R manifest = elim (Result-cases (verify_provider_manifest R manifest)) [
  | inr (e, f) ↦ inr (inr (e, f))
  | inl (b, h) ↦ elim (Bool-cases b) [
    | inl good ↦ inl (h ∙ ap ok good)
    | inr bad ↦ inr (inl (h ∙ ap ok bad))
  ]
]

-- attestation.py

-- `TEE_TYPES`
abbrev pub tee_types : List String
tee_types = "intel-tdx" ∷ "amd-sev-snp" ∷ "nvidia-cc" ∷ "aws-nitro" ∷ "none" ∷ []

unfoldable pub build_attestation : String → String → String → String → Option String → Dict
unfolding dict_of set_some
build_attestation provider_pubkey tee_type measurement issued_at quote_ref =
    set_some
      (dict_of (
        ("schema", string "sip-ai.attestation.v1")
        ∷ ("provider_pubkey", string provider_pubkey)
        ∷ ("tee_type", string tee_type)
        ∷ ("measurement", string measurement)
        ∷ ("issued_at", string issued_at)
        ∷ []))
      "quote_ref" (elim quote_ref [ none ↦ none | some r ↦ some (string r) ])

unfoldable pub sign_attestation : Runtime → Dict → KeyPair → Dict
sign_attestation R statement kp = signed_document R statement kp

unfoldable pub verify_attestation : Runtime → Dict → Bool
verify_attestation R statement =
    if is_empty (R.iter_errors "attestation" statement)
    then is_signed R statement "provider_pubkey"
    else false

unfoldable pub attach_attestation : Dict → Dict → Dict
attach_attestation manifest attestation = set manifest "attestation" (object attestation)

-- The hardware-quote verifier is injected, and may be absent.
unfoldable pub is_attested : Runtime → Dict → List String → Option (Dict → Bool) → Bool
is_attested R manifest accepted_tee_types verifier = elim (as_dict (get manifest "attestation")) [
  | none ↦ false
  | some attestation ↦
      if not (verify_attestation R attestation)
      then false
      else if not (R.equals (get attestation "provider_pubkey") (get manifest "provider_pubkey"))
      then false
      else if not (in_texts (get attestation "tee_type") accepted_tee_types)
      then false
      else elim verifier [ none ↦ true | some v ↦ v attestation ]
]
