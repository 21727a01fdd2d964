-- ===== src/Gateway/Manifest.antt =====
-- The endpoints of app.py that say who the provider is: its health, and the manifest that it makes
-- up if it is given none.
use sovereign_inference.Base.{
  String, [], ◌∷◌, ◌≡◌, refl, arith, ℤ, length, is_empty, inl, inr, sym, ◌∙◌,
}
use sovereign_inference.Result.{Result, ok, ◌>>=◌, Result-cases}
use sovereign_inference.Json.{Float, int, float, string, object, Dict, get, get_or, dict_of}
use sovereign_inference.Runtime.{Runtime, Moment, SigningLaws}
use sovereign_inference.Protocol.Signing.{public_key_str}
use sovereign_inference.Protocol.Documents.{sign_document-get}
use sovereign_inference.Protocol.Manifests.{sign_provider_manifest, verify_provider_manifest}
use sovereign_inference.Protocol.ProviderManifest.{texts, verify_provider_manifest-signed}
use sovereign_inference.Gateway.Requests.{Config, Response}

unfoldable pub health : Runtime → Config → Response
unfolding dict_of
health R G = record {
  status = 200;
  content = dict_of (
      ("status", string "ok")
      ∷ ("provider_pubkey", string (public_key_str R G.keypair))
      ∷ ("models", texts G.allowed_models)
      ∷ []);
}

-- The manifest before it is signed
unfoldable pub unsigned_manifest : Runtime → Config → Float → Float → String → Moment → Dict
unfolding dict_of
unsigned_manifest R G input_price output_price logging_policy now = dict_of (
    ("schema", string "sip-ai.provider_manifest.v1")
    ∷ ("provider_pubkey", string (public_key_str R G.keypair))
    ∷ ("node_type", string "sovereign-node")
    ∷ ("models", texts G.allowed_models)
    ∷ ("runtime_adapters", texts (G.adapter_name ∷ []))
    ∷ (
      "pricing",
      object (
          dict_of (
            ("unit", string G.price_units)
            ∷ ("input_per_1m", float input_price)
            ∷ ("output_per_1m", float output_price)
            ∷ [])),
    )
    ∷ ("max_context", int (ℤ.pos G.max_input_chars))
    ∷ ("logging_policy", string logging_policy)
    ∷ ("privacy_modes", texts ("direct" ∷ []))
    ∷ ("published_at", string (R.print_time now))
    ∷ [])

-- The prices are read as floats, which raises if they are no numbers.
unfoldable pub synthesize_manifest : Runtime → Config → String → Moment → Result Dict
unfolding unsigned_manifest
synthesize_manifest R G logging_policy now = do
  input_price ← G.floats.parse G.input_per_1m
  output_price ← G.floats.parse G.output_per_1m
  sign_provider_manifest R (unsigned_manifest R G input_price output_price logging_policy now)
      G.keypair

-- A manifest that a gateway makes up, where that does not raise, verifies exactly if the schema accepts
-- it, and it names the key and the models that the health endpoint names. Holds under the laws of
-- Ed25519 and base64, for a private key of 32 bytes.
pub synthesize_manifest_lem :
    (R : Runtime)
    → SigningLaws R
    → (G : Config) (logging_policy : String) (now : Moment) (manifest : Dict)
    → length G.keypair.private_key ≡ 32
    → synthesize_manifest R G logging_policy now ≡ ok manifest
    → (verify_provider_manifest R manifest
        ≡ ok (is_empty (R.iter_errors "provider_manifest" manifest)))
      × (get manifest "provider_pubkey" ≡ get (health R G).content "provider_pubkey")
      × (get manifest "models" ≡ get (health R G).content "models")
unfolding synthesize_manifest unsigned_manifest health dict_of get_or sign_provider_manifest
synthesize_manifest_lem R laws G logging_policy now manifest size e =
    elim (Result-cases (G.floats.parse G.input_per_1m)) [
      | inr (x, n) ↦ absurd (ground arith)
      | inl (i, p) ↦ elim (Result-cases (G.floats.parse G.output_per_1m)) [
        | inr (x, n) ↦ absurd (ground arith)
        | inl (o, q) ↦
            let unsigned = unsigned_manifest R G i o logging_policy now in
            let s : sign_provider_manifest R unsigned G.keypair ≡ ok manifest =
              (sym (rw (synthesize_manifest, p, q) refl) ∙ e) in
            (
              verify_provider_manifest-signed R laws unsigned manifest G.keypair size refl s,
              sign_document-get R unsigned manifest G.keypair s "provider_pubkey" (λ e. cc),
              sign_document-get R unsigned manifest G.keypair s "models" (λ e. cc),
            )
      ]
    ]
