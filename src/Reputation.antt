-- ===== src/Reputation.antt =====
-- packages/reputation/src/sip_reputation: the outcomes that are recorded of each provider (store.py),
-- the health probe (health.py) and the ranking by both (rank.py).
pub mod Counts
pub mod Ranking
use sovereign_inference.Base.{
  ℕ, zero, suc, ◌+◌, String, Bool, true, false, not, ◌&&◌, ◌||◌, Option, none, some, List, [], ◌∷◌,
  map, eqb, ◌==◌, if◌then◌else◌, sort_by,
}
use sovereign_inference.Json.{
  Json, Float, null, array, nil, object, Dict, empty, entry, get, item, as_dict, as_list, is_text,
  in_texts, as_string, float, text_in, elements,
}
use sovereign_inference.Result.{Result, ok, raised, ◌>>=◌, type_error, value_error}
use sovereign_inference.Runtime.{Runtime}
use sovereign_inference.Discovery.{DiscoveredProvider, key_of, models_of}
use sovereign_inference.Router.Scoring.{Arithmetic, falsy}

-- The counters of a provider, as `record` writes them
pub record Counters : Type 0 where
  pub total : ℕ
  pub success : ℕ
  pub receipt_valid : ℕ
  pub latency_sum : Float
  pub latency_n : ℕ

-- The file of a store: a dict by public key, which `record` alone writes.
abbrev pub ReputationStore : Type 0
ReputationStore = List (String × Counters)

-- The arguments of `record`
pub record RoutingOutcome : Type 0 where
  pub provider_pubkey : String
  pub succeeded : Bool  -- `success`
  pub latency_ms : Option Float
  pub valid_receipt : Bool  -- `receipt_valid`

abbrev pub no_outcomes : Arithmetic → Counters
no_outcomes F = record {
  total = 0;
  success = 0;
  receipt_valid = 0;
  latency_sum = F.literal "0.0";
  latency_n = 0;
}

abbrev one_more : Bool → ℕ → ℕ
one_more b n = if b then n + 1 else n

-- What `record` adds to the counters
unfoldable pub counted_outcome : Arithmetic → RoutingOutcome → Counters → Counters
counted_outcome F o c = record {
  total = c.total + 1;
  success = one_more o.succeeded c.success;
  receipt_valid = one_more o.valid_receipt c.receipt_valid;
  latency_sum = elim o.latency_ms [ none ↦ c.latency_sum | some ms ↦ F.plus c.latency_sum ms ];
  latency_n = elim o.latency_ms [ none ↦ c.latency_n | some ms ↦ c.latency_n + 1 ];
}

-- `record`
unfoldable pub record_outcome : Arithmetic → RoutingOutcome → ReputationStore → ReputationStore
unfolding counted_outcome
record_outcome F o [] = (o.provider_pubkey, counted_outcome F o (no_outcomes F)) ∷ []
record_outcome F o ((key, c) ∷ stored) =
    if key == o.provider_pubkey
    then (key, counted_outcome F o c) ∷ stored
    else (key, c) ∷ record_outcome F o stored

-- `self._load().get(provider_pubkey)`
unfoldable pub counters_of : ReputationStore → String → Option Counters
counters_of [] key = none
counters_of ((k, c) ∷ stored) key = if k == key then some c else counters_of stored key

pub record ReputationScore : Type 0 where
  pub provider_pubkey : String
  pub samples : ℕ
  pub success_rate : Float
  pub receipt_valid_rate : Float
  pub avg_latency_ms : Option Float
  pub score : Float

-- `NEUTRAL_SCORE`, for a provider without outcomes
abbrev pub neutral_score : Arithmetic → String → ReputationScore
neutral_score F key = record {
  provider_pubkey = key;
  samples = 0;
  success_rate = F.literal "0.0";
  receipt_valid_rate = F.literal "0.0";
  avg_latency_ms = none;
  score = F.literal "0.5";
}

-- The rates and the score; `ratio` is the division of two integers.
unfoldable pub score_of :
    Arithmetic → (ℕ → ℕ → Float) → (ℕ → Float) → String → Counters → ReputationScore
score_of F ratio of_int key c =
    let success_rate = ratio c.success c.total in
    let receipt_valid_rate = ratio c.receipt_valid c.total in
    record {
      provider_pubkey = key;
      samples = c.total;
      success_rate = success_rate;
      receipt_valid_rate = receipt_valid_rate;
      avg_latency_ms =
          if eqb c.latency_n 0 then none else some (F.divide c.latency_sum (of_int c.latency_n));
      score =
          F.plus (F.times (F.literal "0.7") success_rate)
            (F.times (F.literal "0.3") receipt_valid_rate);
    }

-- `score`
unfoldable pub reputation :
    Arithmetic → (ℕ → ℕ → Float) → (ℕ → Float) → ReputationStore → String → ReputationScore
unfolding counters_of score_of
reputation F ratio of_int stored key = elim (counters_of stored key) [
  | none ↦ neutral_score F key
  | some c ↦ if eqb c.total 0 then neutral_score F key else score_of F ratio of_int key c
]

pub record HealthStatus : Type 0 where
  pub reachable : Bool
  pub pubkey_match : Bool
  pub model_match : Bool
  pub latency_ms : Option Float

-- The property `ok`
abbrev pub is_healthy : HealthStatus → Bool
is_healthy h = h.reachable && h.pubkey_match && h.model_match

-- An element that `set` cannot hold
abbrev pub unhashable : Json → Bool
unhashable (array xs) = true
unhashable (object d) = true
unhashable _ = false

unfoldable pub some_unhashable : List Json → Bool
some_unhashable [] = false
some_unhashable (j ∷ js) = unhashable j || some_unhashable js

-- `set(live) & set(models)` is not empty. The provider's models are strings, as the schema of
-- manifests asks.
unfoldable pub some_common : List Json → List Json → Bool
unfolding text_in
some_common [] live = false
some_common (j ∷ js) live =
    (elim (as_string j) [ none ↦ false | some s ↦ text_in s live ]) || some_common js live

-- The models of a health answer against the provider's; only a list counts.
unfoldable pub model_matches : Arithmetic → List Json → Json → Result Bool
unfolding some_unhashable some_common falsy
model_matches F models live = elim (as_list (if falsy F live then array nil else live)) [
  | none ↦ ok false
  | some js ↦ if some_unhashable js then raised type_error else ok (some_common models js)
]

-- `check`: `answer` is the JSON of the health endpoint, or `none` for a failure of the request; the
-- latency is what the two readings of the clock make it.
unfoldable pub check_health :
    Runtime
    → Arithmetic
    → (DiscoveredProvider → Option Json)
    → Float
    → DiscoveredProvider
    → Result HealthStatus
unfolding model_matches
check_health R F answer latency p = elim (answer p) [
  | none ↦
      ok
        (record { reachable = false; pubkey_match = false; model_match = false; latency_ms = none })
  | some body ↦ elim (as_dict body) [
    | none ↦ ok (record {
      reachable = true;
      pubkey_match = false;
      model_match = false;
      latency_ms = some latency;
    })
    | some d ↦ do
      model_match ← model_matches F (models_of p) (get d "models")
      ok (record {
        reachable = true;
        pubkey_match = is_text (get d "provider_pubkey") (key_of R p);
        model_match = model_match;
        latency_ms = some latency;
      })
  ]
]

pub record RankedProvider : Type 0 where
  pub provider : DiscoveredProvider
  pub reputation_score : ReputationScore
  pub health : Option HealthStatus

-- `float(v)`, where `except (TypeError, ValueError)` gives 0.0
abbrev pub zero_on_no_number : Arithmetic → Result Float → Result Float
zero_on_no_number F (raised type_error) = ok (F.literal "0.0")
zero_on_no_number F (raised value_error) = ok (F.literal "0.0")
zero_on_no_number F (raised e) = raised e
zero_on_no_number F (ok x) = ok x

abbrev pub speed_of : Arithmetic → Json → Result Float
speed_of F v = zero_on_no_number F (F.float_of v)

-- `_advertised_tps`
unfoldable pub advertised_tps : Arithmetic → DiscoveredProvider → Result Float
advertised_tps F p = elim (as_dict (get p.manifest "benchmark")) [
  | none ↦ ok (F.literal "0.0")
  | some benchmark ↦ elim (item benchmark "tokens_per_second") [
    | none ↦ ok (F.literal "0.0")
    | some v ↦ speed_of F v
  ]
]

-- `_latency_for`; `infinity` is `float("inf")`.
unfoldable pub latency_for : Float → ReputationScore → Option HealthStatus → Float
latency_for infinity r health =
    let recorded : Float = elim r.avg_latency_ms [ none ↦ infinity | some ms ↦ ms ] in
    elim health [ none ↦ recorded | some h ↦ elim h.latency_ms [ none ↦ recorded | some ms ↦ ms ] ]

-- The body of the loop of `rank_providers`; `probe` is missing if none is given.
unfoldable pub rated :
    Runtime
    → (String → ReputationScore)
    → Option (DiscoveredProvider → Result HealthStatus)
    → DiscoveredProvider
    → Result (Option RankedProvider)
rated R score_for none p =
    ok (some (record { provider = p; reputation_score = score_for (key_of R p); health = none }))
rated R score_for (some check) p = do
  health ← check p
  ok (
      if not (is_healthy health)
      then none
      else some (record {
        provider = p;
        reputation_score = score_for (key_of R p);
        health = some health;
      }))

unfoldable pub rate_all :
    Runtime
    → (String → ReputationScore)
    → Option (DiscoveredProvider → Result HealthStatus)
    → List DiscoveredProvider
    → Result (List RankedProvider)
unfolding rated
rate_all R score_for probe [] = ok []
rate_all R score_for probe (p ∷ ps) = do
  one ← rated R score_for probe p
  rest ← rate_all R score_for probe ps
  ok (elim one [ none ↦ rest | some r ↦ r ∷ rest ])

-- `x != y` and `x < y` on the keys, tuples of three floats; `equal` is `x == y`.
unfoldable pub key_less :
    Arithmetic → (Float → Float → Bool) → Float × Float × Float → Float × Float × Float → Bool
key_less F equal (a, b, c) (x, y, z) =
    if not (equal a x) then F.less a x else if not (equal b y) then F.less b y else F.less c z

-- The key of the sort
unfoldable pub rank_key : Arithmetic → Float → RankedProvider → Result (Float × Float × Float)
unfolding latency_for advertised_tps
rank_key F infinity r = do
  tps ← advertised_tps F r.provider
  ok (
    F.negate r.reputation_score.score,
    latency_for infinity r.reputation_score r.health,
    F.negate tps,
  )

-- The sort computes all keys before it compares any.
unfoldable pub rank_keys :
    Arithmetic → Float → List RankedProvider → Result (List (Float × Float × Float))
unfolding rank_key
rank_keys F infinity [] = ok []
rank_keys F infinity (r ∷ rs) = do
  key ← rank_key F infinity r
  keys ← rank_keys F infinity rs
  ok (key ∷ keys)

-- The comparison of two providers by their keys
abbrev pub ahead :
    Arithmetic → (Float → Float → Bool) → Float → RankedProvider → RankedProvider → Bool
ahead F equal infinity r s = elim (rank_key F infinity r) [
  | raised e ↦ false
  | ok a ↦ elim (rank_key F infinity s) [ raised e ↦ false | ok b ↦ key_less F equal a b ]
]

-- `rank_providers`
unfoldable pub rank_providers :
    Runtime
    → Arithmetic
    → (Float → Float → Bool)
    → Float
    → (String → ReputationScore)
    → Option (DiscoveredProvider → Result HealthStatus)
    → List DiscoveredProvider
    → Result (List RankedProvider)
unfolding rate_all key_less rank_keys sort_by
rank_providers R F equal infinity score_for probe providers = do
  ranked ← rate_all R score_for probe providers
  keys ← rank_keys F infinity ranked
  ok (sort_by (ahead F equal infinity) ranked)
