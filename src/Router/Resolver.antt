-- ===== src/Router/Resolver.antt =====
-- packages/router/src/sip_router/resolver.py: the providers of a model, ranked.
use sovereign_inference.Base.{
  String, Bool, true, false, Option, none, some, List, [], ◌∷◌, All, ◌≡◌, ◌&&◌, refl, ap, ◌∙◌, keep,
  keep-keep, keep-true, All-keep, if◌then◌else◌,
}
use sovereign_inference.Json.{Float, array, nil, get_or}
use sovereign_inference.Result.{Result, ok, raised, ◌>>=◌}
use sovereign_inference.Runtime.{Runtime}
use sovereign_inference.Protocol.Manifests.{verify_provider_manifest, is_verified_manifest}
use sovereign_inference.Router.Registry.{
  ProviderEntry, ProviderRegistry, member_of, for_model, verified_only,
}
use sovereign_inference.Router.Scoring.{Arithmetic, Preferences, rank_candidates}
use sovereign_inference.Router.Scoring.Ranking.{
  FloatOrder, Scorable, Ranked, rank_candidates-Ranked,
}

-- The preferences that `resolve` passes on
abbrev pub preferences : String → Option String → Option (List (String × Float)) → Preferences
preferences model_id privacy_mode weights = record {
  measured_latency_ms = none;
  privacy_mode = privacy_mode;
  model_id = some model_id;
  weights = weights;
}

-- `resolve`
unfoldable pub resolve :
    Runtime
    → Arithmetic
    → ProviderRegistry
    → String
    → Option String
    → Option (List (String × Float))
    → Bool
    → Result (List ProviderEntry)
unfolding for_model verified_only rank_candidates
resolve R F registry model_id privacy_mode weights verify_manifests = do
  candidates ← for_model registry model_id
  eligible ← if verify_manifests then verified_only R candidates else ok candidates
  rank_candidates F (preferences model_id privacy_mode weights) eligible

-- The manifest's models are something that the model can be looked up in, and what it says.
abbrev pub serving : ProviderEntry → String → Result Bool
serving e model_id = member_of model_id (get_or e.manifest "models" (array nil))

-- Whether the manifest says that the entry serves the model
abbrev pub says : String → ProviderEntry → Bool
says model_id e = elim (serving e model_id) [ raised x ↦ false | ok b ↦ b ]

for_model-keep :
    (model_id : String) (registry : ProviderRegistry)
    → All (λ e. (b : Bool) × (serving e model_id ≡ ok b)) registry
    → for_model registry model_id ≡ ok (keep (says model_id) registry)
unfolding for_model keep
for_model-keep model_id [] h = refl
for_model-keep model_id (e ∷ es) h =
    rw (for_model, keep, says, h.0.1, for_model-keep model_id es h.1) refl

module _ (R : Runtime) where
  -- It can be told whether the manifest of the entry verifies.
  abbrev pub Verifies : ProviderEntry → Type 0
  Verifies e = (v : Bool) × (verify_provider_manifest R e.manifest ≡ ok v)

  verified_only-keep :
      (es : List ProviderEntry)
      → All Verifies es
      → verified_only R es ≡ ok (keep (λ e. is_verified_manifest R e.manifest) es)
  unfolding verified_only keep is_verified_manifest
  verified_only-keep [] h = refl
  verified_only-keep (e ∷ es) h =
      rw (verified_only, keep, is_verified_manifest, h.0.1, verified_only-keep es h.1) refl

  -- The entries that may be returned
  abbrev pub eligible : String → Bool → ProviderEntry → Bool
  eligible model_id verify_manifests e =
      says model_id e && (if verify_manifests then is_verified_manifest R e.manifest else true)

  candidates-keep :
      (model_id : String) (verify_manifests : Bool) (registry : ProviderRegistry)
      → All Verifies registry
      → (if verify_manifests
          then verified_only R (keep (says model_id) registry)
          else ok (keep (says model_id) registry))
        ≡ ok (keep (eligible model_id verify_manifests) registry)
  candidates-keep model_id true registry h =
      verified_only-keep (keep (says model_id) registry)
        (All-keep Verifies (says model_id) registry h)
      ∙ ap ok (keep-keep (λ e. is_verified_manifest R e.manifest) (says model_id) registry)
  candidates-keep model_id false registry h = ap ok (keep-true (says model_id) registry)

  -- Whether the entry serves the model and whether it verifies can be told, and its score is computed
  -- and not NaN.
  abbrev pub Rankable : Arithmetic → Preferences → String → ProviderEntry → Type 0
  Rankable F p model_id e =
      ((b : Bool) × (serving e model_id ≡ ok b)) × (Verifies e × Scorable F p e)

  All-first :
      {A : Type 0} (P Q : A → Type 0) (xs : List A) → All (λ x. P x × Q x) xs → All P xs × All Q xs
  All-first P Q [] h = (tt, tt)
  All-first P Q (x ∷ xs) h = ((h.0.0, (All-first P Q xs h.1).0), (h.0.1, (All-first P Q xs h.1).1))

  -- Resolving a model gives the entries of the registry that serve it, and whose manifests verify if
  -- that is asked for: all of them, each as often as it is registered, the best score first, and ties
  -- in the order of the registry. Holds for an order of floats and if, of each entry, the models can
  -- be searched, verifying the manifest does not raise, and the score is computed and not NaN.
  pub resolve-Ranked :
      (F : Arithmetic)
      → FloatOrder F
      → (registry : ProviderRegistry) (model_id : String) (privacy_mode : Option String)
        (weights : Option (List (String × Float))) (verify_manifests : Bool)
      → All (Rankable F (preferences model_id privacy_mode weights) model_id) registry
      → (found : List ProviderEntry) × (resolve R F registry model_id privacy_mode weights
            verify_manifests
          ≡ ok found)
        × Ranked F
            (preferences model_id privacy_mode weights)
            (keep (eligible model_id verify_manifests) registry)
            found
  unfolding resolve
  resolve-Ranked F o registry model_id privacy_mode weights verify_manifests h =
      let p = preferences model_id privacy_mode weights in
      let (found, e, r) =
        rank_candidates-Ranked F p o (keep (eligible model_id verify_manifests) registry) (
          All-keep (Scorable F p) (eligible model_id verify_manifests) registry
            (All-first Verifies (Scorable F p) registry (All-first _ _ registry h).1).1) in
      (
        found,
        rw
            (
              resolve,
              for_model-keep model_id registry (All-first _ _ registry h).0,
              candidates-keep model_id verify_manifests registry
                  (All-first Verifies (Scorable F p) registry (All-first _ _ registry h).1).0,
            )
            e,
        r,
      )
