-- ===== src/Discovery.antt =====
-- packages/discovery/src/sip_discovery/directory.py: signed manifests are announced, and only
-- verified ones are discovered.
pub mod Freshest
pub mod Sound
pub mod Announcing
pub mod Service
use sovereign_inference.Base.{
  ℕ, String, Bool, true, false, not, Option, none, some, List, [], ◌∷◌, map, ◌==◌, if◌then◌else◌,
}
use sovereign_inference.Json.{
  Json, null, bool, int, float, string, array, object, nil, Dict, empty, entry, elements, get,
  get_or, set, as_dict, as_list, text_in,
}
use sovereign_inference.Result.{Result, ok, raised, ◌>>=◌, discovery_error, type_error}
use sovereign_inference.Runtime.{Runtime}
use sovereign_inference.Text.{text_less}
use sovereign_inference.Protocol.Manifests.{verify_provider_manifest, is_verified_manifest}
use sovereign_inference.Pic.X402.{nonempty_text}

-- `DiscoveredProvider`, whose manifest has been verified
pub record DiscoveredProvider : Type 0 where
  pub base_url : String
  pub manifest : Dict

abbrev pub pubkey_of : Runtime → Dict → String
pubkey_of R manifest = R.text_of (get manifest "provider_pubkey")

abbrev pub key_of : Runtime → DiscoveredProvider → String
key_of R p = pubkey_of R p.manifest

abbrev pub published_at : Runtime → DiscoveredProvider → String
published_at R p = R.text_of (get_or p.manifest "published_at" (string ""))

-- The property `models`; the schema of manifests makes it a list.
abbrev pub models_of : DiscoveredProvider → List Json
models_of p = elim (as_list (get p.manifest "models")) [ none ↦ [] | some ms ↦ ms ]

-- `model is None or provider.serves(model)`
unfoldable pub wanted : Option String → DiscoveredProvider → Bool
wanted none p = true
wanted (some model) p = text_in model (models_of p)

-- The table of `_filter_and_dedupe`, in the order of insertion, takes a provider.
unfoldable pub place :
    Runtime → DiscoveredProvider → List DiscoveredProvider → List DiscoveredProvider
place R p [] = p ∷ []
place R p (q ∷ qs) =
    if key_of R q == key_of R p
    then (if text_less (published_at R q) (published_at R p) then p ∷ qs else q ∷ qs)
    else q ∷ place R p qs

-- Its loop
unfoldable pub dedupe_into :
    Runtime
    → Option String
    → List DiscoveredProvider
    → List DiscoveredProvider
    → List DiscoveredProvider
unfolding wanted place
dedupe_into R model freshest [] = freshest
dedupe_into R model freshest (p ∷ ps) =
    dedupe_into R model (if wanted model p then place R p freshest else freshest) ps

-- `_filter_and_dedupe`
unfoldable pub filter_and_dedupe :
    Runtime → Option String → List DiscoveredProvider → List DiscoveredProvider
unfolding dedupe_into
filter_and_dedupe R model providers = dedupe_into R model [] providers

-- `_signed_endpoint`
unfoldable pub signed_endpoint : Dict → Option String → Result String
signed_endpoint manifest base_url = elim (nonempty_text (get manifest "manifest_uri")) [
  | none ↦ raised discovery_error
  | some uri ↦ elim base_url [
    | none ↦ ok uri
    | some url ↦ if url == uri then ok uri else raised discovery_error
  ]
]

-- `_require_verified`, then `_signed_endpoint`
unfoldable pub announceable : Runtime → Dict → Option String → Result String
unfolding signed_endpoint
announceable R manifest base_url = do
  verified ← verify_provider_manifest R manifest
  if not verified then raised discovery_error else signed_endpoint manifest base_url

-- The body of each loop of `discover`: a verified manifest with an endpoint
unfoldable pub verified_provider : Runtime → Json → Result (Option DiscoveredProvider)
verified_provider R j = elim (as_dict j) [
  | none ↦ ok none
  | some manifest ↦ (do
    verified ← verify_provider_manifest R manifest
    ok (
        if not verified then none else elim (nonempty_text (get manifest "manifest_uri")) [
          | none ↦ none
          | some uri ↦ some (record { base_url = uri; manifest = manifest })
        ]))
]

unfoldable pub verified_providers : Runtime → List Json → Result (List DiscoveredProvider)
unfolding verified_provider
verified_providers R [] = ok []
verified_providers R (j ∷ js) = do
  found ← verified_provider R j
  rest ← verified_providers R js
  ok (elim found [ none ↦ rest | some p ↦ p ∷ rest ])

-- What they find where no verification raises
unfoldable pub provider_of : Runtime → Json → Option DiscoveredProvider
provider_of R j = elim (as_dict j) [
  | none ↦ none
  | some manifest ↦
      if not (is_verified_manifest R manifest)
      then none
      else elim (nonempty_text (get manifest "manifest_uri")) [
        | none ↦ none
        | some uri ↦ some (record { base_url = uri; manifest = manifest })
      ]
]

unfoldable pub providers_of : Runtime → List Json → List DiscoveredProvider
unfolding provider_of
providers_of R [] = []
providers_of R (j ∷ js) =
    let rest = providers_of R js in elim (provider_of R j) [ none ↦ rest | some p ↦ p ∷ rest ]

-- `FileDirectory`: the entries of the file. The order in which the file lists them is not modelled.

abbrev pub file_entry : Dict → Json
file_entry manifest = object (entry "manifest" (object manifest) empty)

unfoldable pub file_announce : Runtime → Dict → Dict → Option String → Result String × Dict
unfolding announceable
file_announce R entries manifest base_url = elim (announceable R manifest base_url) [
  | raised e ↦ (raised e, entries)
  | ok uri ↦ (ok (pubkey_of R manifest), set entries (pubkey_of R manifest) (file_entry manifest))
]

-- The manifests in the values of the file
unfoldable pub filed : Dict → List Json
filed empty = []
filed (entry k v d) =
    let rest = filed d in elim (as_dict v) [ none ↦ rest | some e ↦ get e "manifest" ∷ rest ]

unfoldable pub file_discover : Runtime → Dict → Option String → Result (List DiscoveredProvider)
unfolding filed
file_discover R entries model = do
  found ← verified_providers R (filed entries)
  ok (filter_and_dedupe R model found)

-- `ArweaveDirectory.discover`: `resolve` is `_resolve`, with the anchor that it reads from, and
-- `query` the query with its two tags.
unfoldable pub arweave_discover :
    Runtime
    → Option (List String)
    → (String → Option Json)
    → Option String
    → Result (List DiscoveredProvider)
arweave_discover R none resolve model = raised discovery_error
arweave_discover R (some uris) resolve model = do
  found ← verified_providers R (map (λ uri. elim (resolve uri) [ none ↦ null | some j ↦ j ]) uris)
  ok (filter_and_dedupe R model found)

-- The loop over `payload.get("providers", [])` of `HttpDirectory.discover`: the elements of a string
-- or of an object are strings, which it skips.
unfoldable pub provided : Json → Result (List Json)
provided (array xs) = ok (elements xs)
provided (string s) = ok []
provided (object d) = ok []
provided _ = raised type_error

-- `HttpDirectory.discover`, from the relay's payload; `none` is a failure of the request.
unfoldable pub http_discover :
    Runtime → Option Json → Option String → Result (List DiscoveredProvider)
unfolding provided
http_discover R none model = raised discovery_error
http_discover R (some payload) model = elim (as_dict payload) [
  | none ↦ ok []
  | some d ↦ do
    manifests ← provided (get_or d "providers" (array nil))
    found ← verified_providers R manifests
    ok (filter_and_dedupe R model found)
]
