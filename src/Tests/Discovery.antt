-- ===== src/Tests/Discovery.antt =====
-- Examples for discovery: a signed manifest is announced, found in the file, and found through the
-- service.
use sovereign_inference.Base.{none, some, [], ◌∷◌, ◌≡◌, refl}
use sovereign_inference.Base.{◌⊎◌, List}
use sovereign_inference.Json.{Json, Dict, empty, as_dict, set, without, set_some, dict_of, get_or}
use sovereign_inference.Result.{ok}
use sovereign_inference.Protocol.Signing.{public_key_str, verify, after_prefix, sign}
use sovereign_inference.Protocol.Documents.{
  signed_document, verify_document, signing_bytes, canonical_json,
}
use sovereign_inference.Protocol.Manifests.{verify_provider_manifest, is_verified_manifest}
use sovereign_inference.Protocol.ProviderManifest.{
  ManifestFields, build_provider_manifest, manifest_core,
}
use sovereign_inference.Discovery.{
  DiscoveredProvider, file_announce, file_discover, http_discover, filter_and_dedupe, providers_of,
  provider_of, filed, announceable, signed_endpoint, verified_providers, verified_provider,
}
use sovereign_inference.Discovery.Sound.{FoundIn, Answered, http_discover-FoundIn}
use sovereign_inference.Discovery.Announcing.{Announces, file_announce-Announces}
use sovereign_inference.Discovery.Service.{
  service_providers, listing, http_discover-listing, http_discover-service_providers,
}
use sovereign_inference.Tests.Sample.{toy, provider, encode, decode}

abbrev pub offered : ManifestFields
offered = record {
  provider_pubkey = public_key_str toy provider;
  models = "m" ∷ [];
  runtime_adapters = "echo" ∷ [];
  pricing_unit = "usd";
  published_at = "";
  input_per_1m = record { bits = 0 };
  output_per_1m = record { bits = 0 };
  node_type = "sovereign-node";
  max_context = 4096;
  max_concurrency = none;
  logging_policy = "no_prompt_logging";
  retention_policy = none;
  privacy_modes = none;
  benchmark = none;
  manifest_uri = some "https://node";
}

abbrev pub offer : Dict
offer = signed_document toy (build_provider_manifest offered) provider

abbrev announced : Dict
announced = (file_announce toy empty offer none).1

file_announce-Announces_example :
    Announces toy empty offer none (file_announce toy empty offer none)
file_announce-Announces_example = file_announce-Announces toy empty offer none

abbrev found_then : List DiscoveredProvider
found_then = filter_and_dedupe toy (some "m") (providers_of toy (filed announced))

found : file_discover toy announced (some "m") ≡ ok found_then
unfolding file_discover filed file_announce announceable signed_endpoint verified_providers
    verified_provider verify_provider_manifest providers_of provider_of is_verified_manifest
    verify_document signing_bytes canonical_json signed_document set without build_provider_manifest
    set_some manifest_core dict_of get_or verify after_prefix public_key_str encode decode sign
found = refl

http_discover-service_providers_example :
    (payload : Json) × (service_providers toy announced (some "m") ≡ ok payload)
    × (http_discover toy (some payload) (some "m") ≡ ok found_then)
http_discover-service_providers_example =
    http_discover-service_providers toy announced (some "m") found_then found

http_discover-FoundIn_example :
    ((as_dict (listing found_then) ≡ none) × (found_then ≡ []))
    ⊎ ((manifests : List Json) × Answered toy (listing found_then) manifests
        × FoundIn toy (some "m") manifests found_then)
http_discover-FoundIn_example =
    http_discover-FoundIn toy (listing found_then) (some "m") found_then
      (http_discover-listing toy announced (some "m") found_then found)
