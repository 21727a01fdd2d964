-- ===== src/Proxy.antt =====
-- apps/openai-proxy/src/sip_openai_proxy/sources.py: the sources of a configuration become a registry
-- of providers that may be routed to.
pub mod Trust
pub mod Pins
use sovereign_inference.Base.{
  String, Bool, true, false, not, ◌&&◌, ◌||◌, Option, none, some, List, [], ◌∷◌, ◌++◌, ◌==◌,
  if◌then◌else◌, keep,
}
use sovereign_inference.Json.{Json, Dict, get}
use sovereign_inference.Result.{Result, ok, raised, ◌>>=◌, untrusted_provider}
use sovereign_inference.Runtime.{Runtime}
use sovereign_inference.Urls.{Urls, is_safe_remote_url}
use sovereign_inference.Protocol.Manifests.{is_verified_manifest}
use sovereign_inference.Pic.X402.{nonempty_text}
use sovereign_inference.Discovery.{DiscoveredProvider, pubkey_of}
use sovereign_inference.Router.Registry.{ProviderEntry, ProviderRegistry}

-- `base_url is not None and base_url != uri`
abbrev pub asserts_other : Option String → String → Bool
asserts_other none uri = false
asserts_other (some base_url) uri = not (base_url == uri)

-- `trusted_provider_entry`
unfoldable pub trusted_provider_entry :
    Runtime → Urls → Dict → Option String → Bool → Result ProviderEntry
trusted_provider_entry R U manifest base_url require_safe_url =
    if not (is_verified_manifest R manifest)
    then raised untrusted_provider
    else elim (nonempty_text (get manifest "manifest_uri")) [
      | none ↦ raised untrusted_provider
      | some uri ↦
          if asserts_other base_url uri
          then raised untrusted_provider
          else if require_safe_url && not (is_safe_remote_url U uri)
          then raised untrusted_provider
          else ok (record { base_url = uri; manifest = manifest })
    ]

-- `_pubkey`, of a manifest that has a public key, as every manifest that verifies has
abbrev pub entry_key : Runtime → ProviderEntry → String
entry_key R e = pubkey_of R e.manifest

-- The endpoint of `new` is pinned to another key.
unfoldable pub pinned_elsewhere : Runtime → ProviderEntry → List ProviderEntry → Bool
pinned_elsewhere R new [] = false
pinned_elsewhere R new (e ∷ es) =
    e.base_url == new.base_url && not (entry_key R e == entry_key R new)
    || pinned_elsewhere R new es

-- `merge_provider`
unfoldable pub merge_provider :
    Runtime → List ProviderEntry → ProviderEntry → Result (List ProviderEntry)
unfolding pinned_elsewhere keep
merge_provider R existing new =
    if pinned_elsewhere R new existing
    then raised untrusted_provider
    else ok (keep (λ e. not (entry_key R e == entry_key R new)) existing ++ new ∷ [])

-- `AppConfig`, as far as the registry is built from it
pub record Sources : Type 0 where
  pub providers : List ProviderEntry
  pub directories : List String

-- What a warning is about; its text, with the reason, is left out.
pub data Warning : Type 0 where
  dropped : String → Warning
  unreachable : String → Warning

-- `pinned` and `warnings`
pub record Build : Type 0 where
  pub pinned : List ProviderEntry
  pub warnings : List Warning

-- `_try_add`
unfoldable pub try_add : Runtime → Urls → Dict → Option String → Bool → String → Build → Build
unfolding trusted_provider_entry merge_provider
try_add R U manifest base_url require_safe_url label b =
    elim (do
      entry ← trusted_provider_entry R U manifest base_url require_safe_url
      merge_provider R b.pinned entry) [
        | raised e ↦ record { pinned = b.pinned; warnings = b.warnings ++ dropped label ∷ [] }
        | ok pinned ↦ record { pinned = pinned; warnings = b.warnings }
      ]

-- The two loops of `build_registry` that call it
unfoldable pub add_providers : Runtime → Urls → List ProviderEntry → Build → Build
unfolding try_add
add_providers R U [] b = b
add_providers R U (e ∷ es) b =
    add_providers R U es (try_add R U e.manifest (some e.base_url) true e.base_url b)

unfoldable pub add_discovered : Runtime → Urls → List DiscoveredProvider → Build → Build
unfolding try_add
add_discovered R U [] b = b
add_discovered R U (p ∷ ps) b =
    add_discovered R U ps (try_add R U p.manifest (some p.base_url) true p.base_url b)

-- `discover` of a directory, or a failure of any kind
unfoldable pub add_directories :
    Runtime → Urls → (String → Result (List DiscoveredProvider)) → List String → Build → Build
unfolding add_discovered
add_directories R U discover [] b = b
add_directories R U discover (spec ∷ specs) b =
    add_directories R U discover specs (elim (discover spec) [
      | raised e ↦ record { pinned = b.pinned; warnings = b.warnings ++ unreachable spec ∷ [] }
      | ok discovered ↦ add_discovered R U discovered b
    ])

-- `build_registry`
unfoldable pub build_registry :
    Runtime
    → Urls
    → (String → Result (List DiscoveredProvider))
    → Sources
    → ProviderRegistry × List Warning
unfolding add_providers add_directories
build_registry R U discover sources =
    let b =
      add_directories R U discover sources.directories
        (add_providers R U sources.providers (record { pinned = []; warnings = [] })) in
    (b.pinned, b.warnings)
