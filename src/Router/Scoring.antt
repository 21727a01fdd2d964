-- ===== src/Router/Scoring.antt =====
-- packages/router/src/sip_router/scoring.py: the score of a provider, and the ranking by it.
pub mod Ranking
use sovereign_inference.Base.{
  String, Bool, true, false, not, Option, none, some, List, [], ◌∷◌, map, ◌==◌, if◌then◌else◌,
  sort_by, ℤ, is_empty, eqb,
}
use sovereign_inference.Json.{
  Json, Float, null, bool, int, float, string, array, nil, cons, object, Dict, empty, entry, get,
  get_or, item, as_dict,
}
use sovereign_inference.Result.{Result, ok, raised, ◌>>=◌, attribute_error}
use sovereign_inference.Router.Registry.{ProviderEntry, member_of}

-- Python's `float`: a literal of the source, `float(v)`, the operators, `sum`, `x < y`, `x <= y`, and
-- whether a float is zero or NaN.
pub record Arithmetic : Type 0 where
  pub literal : String → Float
  pub float_of : Json → Result Float
  pub plus : Float → Float → Float
  pub times : Float → Float → Float
  pub divide : Float → Float → Float
  pub negate : Float → Float
  pub sum : List Float → Float
  pub less : Float → Float → Bool
  pub at_most : Float → Float → Bool
  pub is_zero : Float → Bool
  pub is_nan : Float → Bool

-- `not v`
unfoldable pub falsy : Arithmetic → Json → Bool
falsy F null = true
falsy F (bool b) = not b
falsy F (int (ℤ.pos n)) = eqb n 0
falsy F (int (ℤ.negsuc n)) = false
falsy F (float x) = F.is_zero x
falsy F (string s) = s == ""
falsy F (array nil) = true
falsy F (array (cons x xs)) = false
falsy F (object empty) = true
falsy F (object (entry k v d)) = false

-- `v or default`
abbrev pub or_else : Arithmetic → Json → Json → Json
or_else F v default = if falsy F v then default else v

-- `max(x, 0.0)`
abbrev pub at_least_zero : Arithmetic → Float → Float
at_least_zero F x = if F.less x (F.literal "0.0") then F.literal "0.0" else x

-- `v.get(key, default)` as a float, which only a dict has
unfoldable pub float_field : Arithmetic → Json → String → Float → Result Float
float_field F v key default = elim (as_dict v) [
  | none ↦ raised attribute_error
  | some d ↦ elim (item d key) [ none ↦ F.float_of (float default) | some x ↦ F.float_of x ]
]

-- `1.0 if b else 0.0`
abbrev pub one_if : Arithmetic → Bool → Float
one_if F b = if b then F.literal "1.0" else F.literal "0.0"

-- The keyword arguments of `score_provider`; the weights are a dict of floats.
pub record Preferences : Type 0 where
  pub measured_latency_ms : Option Float
  pub privacy_mode : Option String
  pub model_id : Option String
  pub weights : Option (List (String × Float))

-- `_model_fit_score`
unfoldable pub model_fit_score : Arithmetic → ProviderEntry → Option String → Result Float
model_fit_score F e none =
    ok (one_if F (not (falsy F (or_else F (get e.manifest "models") (array nil)))))
model_fit_score F e (some model_id) = do
  fits ← member_of model_id (or_else F (get e.manifest "models") (array nil))
  ok (one_if F fits)

-- `_latency_score`
unfoldable pub effective_ms : Arithmetic → ProviderEntry → Option Float → Result Float
unfolding float_field
effective_ms F e (some ms) = ok (at_least_zero F ms)
effective_ms F e none = do
  ttft ←
      float_field F (or_else F (get e.manifest "benchmark") (object empty)) "ttft_ms"
        (F.literal "2000.0")
  tps ←
      float_field F (or_else F (get e.manifest "benchmark") (object empty)) "tokens_per_second"
        (F.literal "0.0")
  ok (
      F.plus ttft (
        if F.less (F.literal "0.0") tps
        then F.divide (F.literal "1000.0") tps
        else F.literal "2000.0"))

unfoldable pub latency_score : Arithmetic → ProviderEntry → Option Float → Result Float
unfolding effective_ms
latency_score F e measured = do
  ms ← effective_ms F e measured
  ok (F.divide (F.literal "2000.0") (F.plus (F.literal "2000.0") (at_least_zero F ms)))

-- `_price_score`
unfoldable pub price_score : Arithmetic → ProviderEntry → Result Float
unfolding float_field
price_score F e = do
  input ←
      float_field F (or_else F (get e.manifest "pricing") (object empty)) "input_per_1m"
        (F.literal "0.0")
  output ←
      float_field F (or_else F (get e.manifest "pricing") (object empty)) "output_per_1m"
        (F.literal "0.0")
  ok (
      F.divide (F.literal "100.0") (
        F.plus (F.literal "100.0")
          (at_least_zero F (F.divide (F.plus input output) (F.literal "2.0")))))

-- `_privacy_score`
unfoldable pub privacy_score : Arithmetic → ProviderEntry → Option String → Result Float
privacy_score F e none = ok (F.literal "1.0")
privacy_score F e (some mode) = do
  offered ← member_of mode (or_else F (get e.manifest "privacy_modes") (array nil))
  ok (one_if F offered)

-- `DEFAULT_WEIGHTS`
abbrev pub default_weights : Arithmetic → List (String × Float)
default_weights F =
    ("model_fit", F.literal "0.25")
    ∷ ("expected_latency", F.literal "0.20")
    ∷ ("price", F.literal "0.15")
    ∷ ("receipt_trust", F.literal "0.15")
    ∷ ("uptime", F.literal "0.10")
    ∷ ("privacy_mode_match", F.literal "0.10")
    ∷ []

-- `active.get(key, 0.0)`
unfoldable pub weight_of : Arithmetic → List (String × Float) → String → Float
weight_of F [] key = F.literal "0.0"
weight_of F ((k, w) ∷ weights) key = if k == key then w else weight_of F weights key

-- The blend of the sub-scores
unfoldable pub blend : Arithmetic → List (String × Float) → List (String × Float) → Float
unfolding weight_of
blend F active sub_scores =
    let total_weight = F.sum (map (λ w. w.1) active) in
    if F.at_most total_weight (F.literal "0.0")
    then F.literal "0.0"
    else F.divide (F.sum (map (λ s. F.times (weight_of F active s.0) s.1) sub_scores)) total_weight

-- `score_provider`
unfoldable pub score_provider : Arithmetic → Preferences → ProviderEntry → Result Float
unfolding model_fit_score latency_score price_score privacy_score blend
score_provider F p e = do
  fit ← model_fit_score F e p.model_id
  latency ← latency_score F e p.measured_latency_ms
  price ← price_score F e
  privacy ← privacy_score F e p.privacy_mode
  ok (
      blend F (elim p.weights [ none ↦ default_weights F | some ws ↦ ws ])
        (("model_fit", fit)
          ∷ ("expected_latency", latency)
          ∷ ("price", price)
          ∷ ("receipt_trust", F.literal "0.5")
          ∷ ("uptime", F.literal "0.5")
          ∷ ("privacy_mode_match", privacy)
          ∷ []))

-- An entry with its key for the sort
abbrev pub Scored : Type 0
Scored = ProviderEntry × Float

unfoldable pub score_all : Arithmetic → Preferences → List ProviderEntry → Result (List Scored)
unfolding score_provider
score_all F p [] = ok []
score_all F p (e ∷ es) = do
  score ← score_provider F p e
  rest ← score_all F p es
  ok ((e, score) ∷ rest)

-- The order of `sorted(..., reverse=True)`: descending, and stable
abbrev pub better : Arithmetic → Scored → Scored → Bool
better F a b = F.less b.1 a.1

-- `rank_candidates`
unfoldable pub rank_candidates :
    Arithmetic → Preferences → List ProviderEntry → Result (List ProviderEntry)
unfolding score_all sort_by
rank_candidates F p entries = do
  scored ← score_all F p entries
  ok (map (λ s. s.0) (sort_by (better F) scored))
