-- ===== src/Router/Registry.antt =====
-- models.py, registry.py and resolver.py of packages/router/src/sip_router: the known providers, and
-- those that serve a model, the best first.
pub mod Load
use sovereign_inference.Base.{
  String, Bool, true, false, ◌||◌, Option, none, some, List, [], ◌∷◌, map, ◌==◌, if◌then◌else◌,
}
use sovereign_inference.Json.{
  Json, null, bool, int, float, string, array, nil, object, Dict, empty, entry, elements, array_of,
  get, get_or, item, as_string, as_dict, text_in,
}
use sovereign_inference.Result.{Result, ok, raised, ◌>>=◌, type_error}
use sovereign_inference.Runtime.{Runtime}
use sovereign_inference.Protocol.Signing.{after_prefix}
use sovereign_inference.Protocol.Manifests.{verify_provider_manifest}

pub record ProviderEntry : Type 0 where
  pub base_url : String
  pub manifest : Dict

-- `self._entries`
abbrev pub ProviderRegistry : Type 0
ProviderRegistry = List ProviderEntry

-- `needle in text`
unfoldable pub is_substring : String → String → Bool
is_substring needle String.[] = needle == ""
is_substring needle (String.◌∷◌ c text) =
    (elim (after_prefix needle (String.◌∷◌ c text)) [ none ↦ false | some rest ↦ true ])
    || is_substring needle text

-- `key in d`
unfoldable pub has_key : Dict → String → Bool
has_key d key = elim (item d key) [ none ↦ false | some v ↦ true ]

-- `text in v`, whatever the value is
unfoldable pub member_of : String → Json → Result Bool
unfolding is_substring has_key
member_of text (array xs) = ok (text_in text (elements xs))
member_of text (object d) = ok (has_key d text)
member_of text (string s) = ok (is_substring text s)
member_of text _ = raised type_error

-- `for_model`
unfoldable pub for_model : ProviderRegistry → String → Result (List ProviderEntry)
for_model [] model_id = ok []
for_model (e ∷ entries) model_id = do
  serves ← member_of model_id (get_or e.manifest "models" (array nil))
  rest ← for_model entries model_id
  ok (if serves then e ∷ rest else rest)

-- `save`: the JSON that it writes
abbrev pub entry_json : ProviderEntry → Json
entry_json e =
    object (entry "base_url" (string e.base_url) (entry "manifest" (object e.manifest) empty))

unfoldable pub save : ProviderRegistry → Json
unfolding array_of
save entries = array (array_of (map entry_json entries))

-- The body of the loop of `load`
unfoldable pub load_item : Json → Option ProviderEntry
load_item j = elim (as_dict j) [
  | none ↦ none
  | some d ↦ elim (as_string (get d "base_url")) [
    | none ↦ none
    | some base_url ↦ elim (as_dict (get d "manifest")) [
      | none ↦ none
      | some manifest ↦ some (record { base_url = base_url; manifest = manifest })
    ]
  ]
]

unfoldable pub load_items : List Json → ProviderRegistry
unfolding load_item
load_items [] = []
load_items (j ∷ js) =
    let rest = load_items js in elim (load_item j) [ none ↦ rest | some e ↦ e ∷ rest ]

-- `load`; `none` is a file that cannot be read or is not JSON.
unfoldable pub load : Option Json → ProviderRegistry
unfolding load_items
load (some (array xs)) = load_items (elements xs)
load _ = []

-- `[e for e in candidates if verify_provider_manifest(e.manifest)]`
unfoldable pub verified_only : Runtime → List ProviderEntry → Result (List ProviderEntry)
verified_only R [] = ok []
verified_only R (e ∷ es) = do
  verified ← verify_provider_manifest R e.manifest
  rest ← verified_only R es
  ok (if verified then e ∷ rest else rest)
