-- ===== src/Tests/Proxy.antt =====
-- Examples for the sources of the application: one provider is registered, and a second key is kept
-- off its endpoint.
use sovereign_inference.Base.{String, [], ◌∷◌}
use sovereign_inference.Json.{string, dict_of}
use sovereign_inference.Result.{raised, transport_error}
use sovereign_inference.Router.Registry.{ProviderEntry}
use sovereign_inference.Proxy.{Sources, build_registry, merge_provider}
use sovereign_inference.Proxy.Trust.{Sound, build_registry-Sound}
use sovereign_inference.Proxy.Pins.{Merges, merge_provider-Merges}
use sovereign_inference.Tests.Sample.{toy}
use sovereign_inference.Tests.Discovery.{offer}
use sovereign_inference.Tests.Relay.{net}

abbrev saved : Sources
saved = record {
  providers = record { base_url = "https://node"; manifest = offer } ∷ [];
  directories = "directory.json" ∷ [];
}

build_registry-Sound_example :
    Sound toy net (build_registry toy net (λ spec. raised transport_error) saved).0
build_registry-Sound_example = build_registry-Sound toy net (λ spec. raised transport_error) saved

abbrev keyed : String → ProviderEntry
keyed key = record {
  base_url = "https://node";
  manifest = dict_of (("provider_pubkey", string key) ∷ []);
}

merge_provider-Merges_example :
    Merges toy (keyed "k" ∷ []) (keyed "j") (merge_provider toy (keyed "k" ∷ []) (keyed "j"))
merge_provider-Merges_example = merge_provider-Merges toy (keyed "k" ∷ []) (keyed "j")
