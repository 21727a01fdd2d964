-- ===== src/Tests/Relay.antt =====
-- Examples for the relay: a provider is reached through it, and a receipt of another key is taken.
use sovereign_inference.Base.{String, none, some, [], ◌∷◌, ◌≡◌, refl, true, ℤ, contains}
use sovereign_inference.Json.{null, string, object, Dict, dict_of, get_or, set, without, set_some}
use sovereign_inference.Result.{Result, ok}
use sovereign_inference.Runtime.{microseconds}
use sovereign_inference.Urls.{Urls, ends_with}
use sovereign_inference.Protocol.Signing.{public_key_str}
use sovereign_inference.Protocol.Documents.{
  covered_bytes, sign_document, signing_bytes, canonical_json, signed_document,
}
use sovereign_inference.Protocol.Artifacts.{
  ReceiptFields, build_receipt, sign_receipt, hash_response_body, sha256_prefixed,
}
use sovereign_inference.Protocol.Manifests.{sign_provider_manifest}
use sovereign_inference.Protocol.ProviderManifest.{
  build_provider_manifest, manifest_core, verify_provider_manifest-sign_provider_manifest,
}
use sovereign_inference.Router.Client.{Reply}
use sovereign_inference.Relay.{Answer, relay}
use sovereign_inference.Relay.Forward.{Allowed, Relayed, relay-Relayed}
use sovereign_inference.Relay.Client.{RelayResult, hash_completion, relay_chat}
use sovereign_inference.Relay.Receipts.{
  Bound, signed_answer, relay_chat-Bound, relay_chat-any_signer,
}
use sovereign_inference.Tests.Sample.{toy, toy_laws, issuer, provider}
use sovereign_inference.Tests.Discovery.{offered, offer}

-- Every URL is of the host that it spells, but one is of a loopback address.
abbrev pub net : Urls
net = record {
  split = λ u. some (record { scheme = "https"; hostname = some u });
  lower = λ s. s;
  address = λ s. none;
}

abbrev target : Dict
target = dict_of (("manifest", object offer) ∷ ("base_url", string "https://node") ∷ [])

abbrev prompt : Dict
prompt = dict_of (("model", string "m") ∷ [])

allowed : Allowed toy net target "https://node"
unfolding get_or dict_of contains ends_with sign_provider_manifest signed_document set without
    build_provider_manifest set_some manifest_core sign_document signing_bytes canonical_json
    covered_bytes
allowed = record {
  manifest = offer;
  named = refl;
  base_url = refl;
  verified =
      verify_provider_manifest-sign_provider_manifest toy toy_laws offered offer provider refl refl
        refl;
  endpoint = refl;
  outside = (
    record { scheme = "https"; hostname = some "https://node" },
    "https://node",
    refl,
    refl,
    record { there = refl; unblocked = refl; not_local = refl; not_internal = λ ip e. cc },
  );
}

abbrev upstream : String → Dict → Result Reply
upstream url completion = ok (record { status = 200; body = some null })

relay-Relayed_example :
    Relayed toy net upstream
      (some (object (dict_of (("target", object target) ∷ ("completion", object prompt) ∷ []))))
      (relay toy net upstream
        (some (object (dict_of (("target", object target) ∷ ("completion", object prompt) ∷ [])))))
relay-Relayed_example =
    relay-Relayed toy net upstream
      (some (object (dict_of (("target", object target) ∷ ("completion", object prompt) ∷ []))))

abbrev asked : String
asked = sha256_prefixed toy []

hashed : hash_completion toy prompt ≡ ok asked
unfolding hash_completion canonical_json
hashed = refl

-- The receipt is signed by the issuer, whose key is not the target's.
abbrev forged : ReceiptFields
forged = record {
  request_id = "r";
  provider_pubkey = public_key_str toy issuer;
  model_manifest_hash = "";
  model_alias = "m";
  runtime = "echo";
  input_tokens = ℤ.pos 1;
  output_tokens = ℤ.pos 1;
  price_units = "usd";
  price_amount = "0";
  privacy_mode = "direct";
  started_at = microseconds;
  completed_at = microseconds;
  response_hash = hash_response_body toy "forged";
  runtime_version = none;
  request_hash = some asked;
}

abbrev forgery : Answer
forgery = signed_answer (string "forged") (sign_receipt toy (build_receipt toy forged) issuer)

abbrev believed : RelayResult
believed = record {
  content = "forged";
  receipt = sign_receipt toy (build_receipt toy forged) issuer;
  status_code = 200;
  verified = true;
}

relay_chat-any_signer_example : relay_chat toy (λ body. ok forgery) target prompt true ≡ ok believed
relay_chat-any_signer_example =
    relay_chat-any_signer toy toy_laws issuer forged (string "forged") target prompt asked refl refl
      refl hashed refl refl

relay_chat-Bound_example : Bound toy believed.receipt believed.content prompt
relay_chat-Bound_example =
    relay_chat-Bound toy (λ body. ok forgery) target prompt true believed
      relay_chat-any_signer_example refl
