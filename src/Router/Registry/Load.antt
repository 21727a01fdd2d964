-- ===== src/Router/Registry/Load.antt =====
-- What the registry keeps: save and load, and the providers of a model.
use sovereign_inference.Base.{String, Bool, some, [], ◌∷◌, map, ◌≡◌, refl, ap, ◌∙◌}
use sovereign_inference.Json.{array, nil, get_or}
use sovereign_inference.Json.Laws.{elements-array_of}
use sovereign_inference.Result.{ok}
use sovereign_inference.Router.Registry.{
  ProviderEntry, ProviderRegistry, member_of, entry_json, save, load_item, load_items, load,
}

load_items-entry_json : (entries : ProviderRegistry) → load_items (map entry_json entries) ≡ entries
unfolding load_items load_item get_or
load_items-entry_json [] = refl
load_items-entry_json (e ∷ entries) = ap (λ l. e ∷ l) (load_items-entry_json entries)

-- A registry that is saved loads as it was.
pub load-save : (entries : ProviderRegistry) → load (some (save entries)) ≡ entries
unfolding load save
load-save entries =
    ap load_items (elements-array_of (map entry_json entries)) ∙ load_items-entry_json entries

-- A provider serves a model as far as its manifest says.
abbrev pub Serves : String → ProviderEntry → Bool → Type 0
Serves model_id e b = member_of model_id (get_or e.manifest "models" (array nil)) ≡ ok b
