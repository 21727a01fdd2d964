-- ===== src/Node/Recommend.antt =====
-- packages/sin-node/src/sin_node/recommend.py: the quant of a model that is chosen, its score, and the
-- ranking of the catalog. The texts that explain a recommendation are left out.
pub mod Selection
pub mod Fitting
use sovereign_inference.Base.{
  ℕ, String, Bool, true, false, not, ◌&&◌, ◌||◌, Option, none, some, List, [], ◌∷◌, keep, sort_by,
  take, contains, ltb, ◌==◌, if◌then◌else◌, is_empty,
}
use sovereign_inference.Json.{Float}
use sovereign_inference.Result.{Result, ok, raised, ◌>>=◌, value_error, index_error}
use sovereign_inference.Router.Registry.{is_substring}
use sovereign_inference.Node.{
  NodeNumbers, Accelerator, cuda, rocm, metal, vulkan, cpu, HardwareProfile, usable_memory_gb,
  MemoryEstimate, QuantOption, CatalogModel, estimate_for,
}

-- `_ACCEL_BASE_TPS`
abbrev pub base_tps : NodeNumbers → Accelerator → Float
base_tps N cuda = N.F.literal "220.0"
base_tps N rocm = N.F.literal "170.0"
base_tps N metal = N.F.literal "130.0"
base_tps N vulkan = N.F.literal "90.0"
base_tps N cpu = N.F.literal "28.0"

-- `predict_tps`
unfoldable pub predict_tps : NodeNumbers → Float → Accelerator → Float → Float
predict_tps N params_b accelerator quant_bits =
    if N.F.at_most params_b (N.F.literal "0.0")
    then N.F.literal "0.0"
    else N.round 1 (
        N.F.times (N.F.times (base_tps N accelerator) (N.F.divide (N.F.literal "1.0") params_b)) (
          N.F.divide (N.F.literal "4.5")
            (if N.F.less quant_bits (N.F.literal "1.0") then N.F.literal "1.0" else quant_bits)))

-- `any(marker in license_id for marker in _NON_COMMERCIAL_MARKERS)`
unfoldable pub some_marker : List String → String → Bool
unfolding is_substring
some_marker [] license_id = false
some_marker (marker ∷ markers) license_id =
    is_substring marker license_id || some_marker markers license_id

-- `_is_non_commercial`
unfoldable pub is_non_commercial : NodeNumbers → CatalogModel → Bool
unfolding some_marker
is_non_commercial N m =
    if not m.commercial_use
    then true
    else some_marker ("-nc" ∷ "noncommercial" ∷ "non-commercial" ∷ "cc-by-nc" ∷ [])
        (N.lower m.license)

-- The order of the key `q.bits`
abbrev pub fewer_bits : NodeNumbers → QuantOption → QuantOption → Bool
fewer_bits N p q = N.F.less p.bits q.bits

-- The quants in ascending bits, and those of them that are considered
unfoldable pub by_bits : NodeNumbers → CatalogModel → List QuantOption
unfolding sort_by
by_bits N m = sort_by (fewer_bits N) m.quants

unfoldable pub considered : NodeNumbers → CatalogModel → List QuantOption
unfolding by_bits keep
considered N m =
    let capped = keep (λ q. N.F.at_most q.bits (N.F.literal "8.5")) (by_bits N m) in
    if is_empty capped then by_bits N m else capped

-- `estimate.total_gb <= usable_gb`
abbrev pub fits_in : NodeNumbers → CatalogModel → Float → ℕ → QuantOption → Bool
fits_in N m usable_gb context q = N.F.at_most (estimate_for N m q context).total_gb usable_gb

-- The loop of `_select_quant`: the last quant that fits
unfoldable pub last_fit :
    (QuantOption → Bool) → Option QuantOption → List QuantOption → Option QuantOption
last_fit fits best [] = best
last_fit fits best (q ∷ qs) = last_fit fits (if fits q then some q else best) qs

pub record SelectedQuant : Type 0 where
  pub quant : QuantOption
  pub estimate : MemoryEstimate
  pub fits : Bool

-- `_select_quant`
unfoldable pub select_quant : NodeNumbers → CatalogModel → Float → ℕ → Result SelectedQuant
unfolding considered last_fit estimate_for
select_quant N m usable_gb context =
    elim (last_fit (fits_in N m usable_gb context) none (considered N m)) [
      | some q ↦ ok (record { quant = q; estimate = estimate_for N m q context; fits = true })
      | none ↦ elim (by_bits N m) [
        | [] ↦ raised index_error
        | q ∷ qs ↦ ok (record { quant = q; estimate = estimate_for N m q context; fits = false })
      ]
    ]

-- `_score`
unfoldable pub recommendation_score : NodeNumbers → Bool → Float → Float → Float → Float → Float
recommendation_score N fits headroom_ratio quality_score predicted_tps speed_weight =
    let at_most_one =
      λ (x : Float). if N.F.less (N.F.literal "1.0") x then N.F.literal "1.0" else x in
    let fit_component = at_most_one (N.F.divide headroom_ratio (N.F.literal "2.0")) in
    let speed_component = at_most_one (N.F.divide predicted_tps (N.F.literal "200.0")) in
    let rest = N.F.plus (N.F.literal "0.75") (N.F.negate speed_weight) in
    let quality_weight = if N.F.less (N.F.literal "0.0") rest then rest else N.F.literal "0.0" in
    let fit_weight =
      N.F.plus (N.F.plus (N.F.literal "1.0") (N.F.negate speed_weight))
        (N.F.negate quality_weight) in
    N.round 4 (
      N.F.plus (if fits then N.F.literal "1.0" else N.F.literal "0.0") (
        N.F.plus
          (N.F.plus (N.F.times fit_weight fit_component) (N.F.times quality_weight quality_score))
          (N.F.times speed_weight speed_component)))

-- `_LATENCY_SPEED_WEIGHT.get(latency, ...)`
abbrev pub speed_weight_of : NodeNumbers → String → Float
speed_weight_of N latency =
    if latency == "low"
    then N.F.literal "0.45"
    else if latency == "quality"
    then N.F.literal "0.10"
    else N.F.literal "0.25"

pub record Recommendation : Type 0 where
  pub model_id : String
  pub runtime : String
  pub context : ℕ
  pub selected : SelectedQuant
  pub headroom_ratio : Float
  pub predicted_tps : Float
  pub score : Float

-- The headroom that is shown
unfoldable pub headroom : NodeNumbers → Float → SelectedQuant → Float
headroom N usable_gb s =
    if N.F.less (N.F.literal "0.0") s.estimate.total_gb
    then (let h = N.round 3 (N.F.divide usable_gb s.estimate.total_gb) in
        if not s.fits && N.F.at_most (N.F.literal "1.0") h then N.F.literal "0.999" else h)
    else N.F.literal "0.0"

-- The body of the loop of `recommend`
unfoldable pub recommend_model :
    NodeNumbers → HardwareProfile → Float → Float → CatalogModel → Result Recommendation
unfolding select_quant headroom predict_tps recommendation_score
recommend_model N p usable_gb speed_weight m = do
  selected ← select_quant N m usable_gb m.default_context
  let ratio = headroom N usable_gb selected in
      let tps = predict_tps N m.params_b p.accelerator selected.quant.bits in
      ok (record {
        model_id = m.model_id;
        runtime = elim m.recommended_runtimes [ [] ↦ "llama.cpp" | runtime ∷ rest ↦ runtime ];
        context = m.default_context;
        selected = selected;
        headroom_ratio = ratio;
        predicted_tps = tps;
        score = recommendation_score N selected.fits ratio m.quality_score tps speed_weight;
      })

unfoldable pub recommend_all :
    NodeNumbers → HardwareProfile → Float → Float → List CatalogModel → Result (List Recommendation)
unfolding recommend_model
recommend_all N p usable_gb speed_weight [] = ok []
recommend_all N p usable_gb speed_weight (m ∷ ms) = do
  r ← recommend_model N p usable_gb speed_weight m
  rest ← recommend_all N p usable_gb speed_weight ms
  ok (r ∷ rest)

-- The order of the sort by `(fits, score)` with `reverse=True`
abbrev pub recommended_before : NodeNumbers → Recommendation → Recommendation → Bool
recommended_before N r s =
    if r.selected.fits && not s.selected.fits
    then true
    else if not r.selected.fits && s.selected.fits
    then false
    else N.F.less s.score r.score

-- `recommend` over a catalog; `load_catalog` reads the bundled one.
unfoldable pub recommend :
    NodeNumbers
    → HardwareProfile
    → String
    → Bool
    → String
    → ℕ
    → List CatalogModel
    → Result (List Recommendation)
unfolding usable_memory_gb is_non_commercial recommend_all sort_by keep contains
recommend N p task commercial_required latency top_k catalog =
    if ltb top_k 1 then raised value_error else do
      recommendations ← recommend_all N p (usable_memory_gb N p) (speed_weight_of N latency) (
          keep (λ m. not (commercial_required && is_non_commercial N m))
            (keep (λ m. contains m.tasks task) catalog))
      ok (take top_k (sort_by (recommended_before N) recommendations))
