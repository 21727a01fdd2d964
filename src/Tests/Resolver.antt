-- ===== src/Tests/Resolver.antt =====
-- Examples for the registry and the ranking: two providers, of which the second is cheaper.
use sovereign_inference.Base.{
  ℕ, String, true, false, none, List, [], ◌∷◌, ◌+◌, ◌≡◌, refl, arith, ltb, eqb, keep, if◌then◌else◌,
}
use sovereign_inference.Json.{
  Float, string, float, object, array, array_of, dict_of, get_or, item, elements, text_in,
}
use sovereign_inference.Result.{ok, raised, type_error}
use sovereign_inference.Protocol.Manifests.{verify_provider_manifest}
use sovereign_inference.Protocol.Documents.{verify_document}
use sovereign_inference.Router.Registry.{ProviderEntry, ProviderRegistry, member_of}
use sovereign_inference.Router.Scoring.{
  Arithmetic, score_provider, model_fit_score, latency_score, effective_ms, price_score,
  privacy_score, float_field, blend, weight_of, falsy,
}
use sovereign_inference.Router.Scoring.Ranking.{FloatOrder, Ranked}
use sovereign_inference.Router.Resolver.{resolve, preferences, eligible, resolve-Ranked}
use sovereign_inference.Tests.Sample.{toy}

-- Floats that are natural numbers, without NaN; a quotient is 1 over a small number and 0 otherwise.
abbrev pub of_ℕ : ℕ → Float
of_ℕ n = record { bits = n }

abbrev pub naturals : Arithmetic
naturals = record {
  literal = λ s. of_ℕ 1;
  float_of = λ j. elim j [ float x ↦ ok x | _ ↦ raised type_error ];
  plus = λ x y. of_ℕ (x.bits + y.bits);
  times = λ x y. y;
  divide = λ x y. of_ℕ (if ltb y.bits 5 then 1 else 0);
  negate = λ x. x;
  sum = λ xs. elim xs [ [] ↦ of_ℕ 0 | x ∷ rest ↦ x ];
  less = λ x y. ltb x.bits y.bits;
  at_most = λ x y. false;
  is_zero = λ x. eqb x.bits 0;
  is_nan = λ x. false;
}

naturals_order : FloatOrder naturals
naturals_order = record {
  asym = λ x y h. ground arith;
  neg_trans = λ x y z a b c h k. ground arith;
}

abbrev priced : String → ℕ → ProviderEntry
priced url rate = record {
  base_url = url;
  manifest = dict_of (
      ("models", array (array_of (string "m" ∷ [])))
      ∷ ("pricing", object (dict_of (("input_per_1m", float (of_ℕ rate)) ∷ [])))
      ∷ []);
}

abbrev known : ProviderRegistry
known = priced "https://a" 9 ∷ priced "https://b" 1 ∷ []

resolve-Ranked_example :
    (found : List ProviderEntry) × (resolve toy naturals known "m" none none false ≡ ok found)
    × Ranked naturals (preferences "m" none none) (keep (eligible toy "m" false) known) found
unfolding member_of text_in elements array_of dict_of get_or score_provider model_fit_score
    latency_score effective_ms price_score privacy_score float_field blend weight_of falsy item
    verify_provider_manifest verify_document
resolve-Ranked_example = resolve-Ranked toy naturals naturals_order known "m" none none false (
  ((true, refl), ((false, refl), (_, refl, refl))),
  (((true, refl), ((false, refl), (_, refl, refl))), tt),
)
