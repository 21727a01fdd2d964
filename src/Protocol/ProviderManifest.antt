-- ===== src/Protocol/ProviderManifest.antt =====
-- manifests.py: `build_provider_manifest`, and that what it builds verifies once it is signed.
use sovereign_inference.Base.{
  ℕ, String, false, Option, none, some, List, [], ◌∷◌, map, ℤ, length, ◌≡◌, ◌∙◌, refl, arith, ap,
  ◌==◌, is_empty, Bool-cases, inl, inr,
}
use sovereign_inference.Json.{
  Json, int, float, string, array, object, Float, Dict, get, get_or, dict_of, set_some, array_of,
  null,
}
use sovereign_inference.Json.Laws.{get_or-set}
use sovereign_inference.Runtime.{Runtime, SigningLaws}
use sovereign_inference.Protocol.Signing.{KeyPair, public_key_str}
use sovereign_inference.Protocol.Documents.{verify_document-sign_document}
use sovereign_inference.Result.{ok}
use sovereign_inference.Protocol.Manifests.{sign_provider_manifest, verify_provider_manifest}

-- The keyword arguments of `build_provider_manifest`
pub record ManifestFields : Type 0 where
  pub provider_pubkey : String
  pub models : List String
  pub runtime_adapters : List String
  pub pricing_unit : String
  pub published_at : String
  pub input_per_1m : Float
  pub output_per_1m : Float
  pub node_type : String
  pub max_context : ℕ
  pub max_concurrency : Option ℕ
  pub logging_policy : String
  pub retention_policy : Option String
  pub privacy_modes : Option (List String)
  pub benchmark : Option Dict
  pub manifest_uri : Option String

abbrev pub texts : List String → Json
texts ss = array (array_of (map string ss))

-- `_DEFAULT_PRIVACY_MODES`
abbrev pub default_privacy_modes : List String
default_privacy_modes = "direct" ∷ []

-- The part of the manifest that is always there
unfoldable pub manifest_core : ManifestFields → Dict
unfolding dict_of
manifest_core f = dict_of (
    ("schema", string "sip-ai.provider_manifest.v1")
    ∷ ("provider_pubkey", string f.provider_pubkey)
    ∷ ("node_type", string f.node_type)
    ∷ ("models", texts f.models)
    ∷ ("runtime_adapters", texts f.runtime_adapters)
    ∷ (
      "pricing",
      object (
          dict_of (
            ("unit", string f.pricing_unit)
            ∷ ("input_per_1m", float f.input_per_1m)
            ∷ ("output_per_1m", float f.output_per_1m)
            ∷ [])),
    )
    ∷ ("max_context", int (ℤ.pos f.max_context))
    ∷ ("logging_policy", string f.logging_policy)
    ∷ (
      "privacy_modes",
      texts (elim f.privacy_modes [ none ↦ default_privacy_modes | some ms ↦ ms ]),
    )
    ∷ ("published_at", string f.published_at)
    ∷ [])

abbrev with_concurrency : ManifestFields → Dict
with_concurrency f =
    set_some (manifest_core f) "max_concurrency"
      (elim f.max_concurrency [ none ↦ none | some n ↦ some (int (ℤ.pos n)) ])

abbrev with_retention : ManifestFields → Dict
with_retention f =
    set_some (with_concurrency f) "retention_policy"
      (elim f.retention_policy [ none ↦ none | some s ↦ some (string s) ])

abbrev with_benchmark : ManifestFields → Dict
with_benchmark f =
    set_some (with_retention f) "benchmark"
      (elim f.benchmark [ none ↦ none | some d ↦ some (object d) ])

unfoldable pub build_provider_manifest : ManifestFields → Dict
build_provider_manifest f =
    set_some (with_benchmark f) "manifest_uri"
      (elim f.manifest_uri [ none ↦ none | some s ↦ some (string s) ])

-- Setting another key leaves a value.
get-set_some :
    (d : Dict) (k j : String) (v : Option Json)
    → (k == j) ≡ false
    → get (set_some d k v) j ≡ get d j
unfolding set_some
get-set_some d k j none h = refl
get-set_some d k j (some v) h = get_or-set d k j v null ∙ ground arith

names_signer :
    (R : Runtime) (f : ManifestFields)
    → get (build_provider_manifest f) "provider_pubkey" ≡ string f.provider_pubkey
unfolding build_provider_manifest manifest_core dict_of get_or
names_signer R f =
    get-set_some (with_benchmark f) "manifest_uri" "provider_pubkey"
      (elim f.manifest_uri [ none ↦ none | some s ↦ some (string s) ]) refl
    ∙ get-set_some (with_retention f) "benchmark" "provider_pubkey"
        (elim f.benchmark [ none ↦ none | some d ↦ some (object d) ]) refl
    ∙ get-set_some (with_concurrency f) "retention_policy" "provider_pubkey"
        (elim f.retention_policy [ none ↦ none | some s ↦ some (string s) ]) refl
    ∙ get-set_some (manifest_core f) "max_concurrency" "provider_pubkey"
        (elim f.max_concurrency [ none ↦ none | some n ↦ some (int (ℤ.pos n)) ]) refl

-- A manifest that names its signer verifies once it is signed, exactly if the schema finds nothing
-- wrong with it.
pub verify_provider_manifest-signed :
    (R : Runtime)
    → SigningLaws R
    → (manifest signed : Dict) (kp : KeyPair) → length kp.private_key ≡ 32
    → get manifest "provider_pubkey" ≡ string (public_key_str R kp)
    → sign_provider_manifest R manifest kp ≡ ok signed
    → verify_provider_manifest R signed ≡ ok (is_empty (R.iter_errors "provider_manifest" signed))
unfolding verify_provider_manifest sign_provider_manifest
verify_provider_manifest-signed R laws manifest signed kp size named e =
    elim (Bool-cases (is_empty (R.iter_errors "provider_manifest" signed))) [
      | inr faulty ↦ rw (verify_provider_manifest, faulty) refl
      | inl fine ↦
          rw (verify_provider_manifest, fine)
            (verify_document-sign_document R laws manifest signed kp "provider_pubkey" size
              (λ e. cc) named e)
    ]

-- A manifest that is built in the name of its signer verifies once it is signed, exactly if the
-- schema finds nothing wrong with it. Holds under the laws of Ed25519 and base64, for a private key
-- of 32 bytes.
pub verify_provider_manifest-sign_provider_manifest :
    (R : Runtime)
    → SigningLaws R
    → (f : ManifestFields) (signed : Dict) (kp : KeyPair) → length kp.private_key ≡ 32
    → f.provider_pubkey ≡ public_key_str R kp
    → sign_provider_manifest R (build_provider_manifest f) kp ≡ ok signed
    → verify_provider_manifest R signed ≡ ok (is_empty (R.iter_errors "provider_manifest" signed))
verify_provider_manifest-sign_provider_manifest R laws f signed kp size named e =
    verify_provider_manifest-signed R laws (build_provider_manifest f) signed kp size
      (names_signer R f ∙ ap string named) e
