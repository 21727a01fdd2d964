-- ===== src/Tests/Node.antt =====
-- Examples for the recommendation: a model that fits and one that does not, for a machine without GPU.
use sovereign_inference.Base.{
  ℕ, ◌≤◌, String, true, false, none, List, [], ◌∷◌, length, contains, keep, All, ◌≡◌, refl, arith,
  WeakOrder, sort_by, insert_by, leb,
}
use sovereign_inference.Result.{ok}
use sovereign_inference.Protocol.Signing.{after_prefix}
use sovereign_inference.Router.Registry.{is_substring}
use sovereign_inference.Router.Scoring.{Arithmetic}
use sovereign_inference.Node.{
  NodeNumbers, cpu, HardwareProfile, CatalogModel, usable_memory_gb, primary_gpu, kv_cache_gb_of,
  estimate_for,
}
use sovereign_inference.Node.Recommend.{
  fewer_bits, by_bits, considered, last_fit, SelectedQuant, select_quant, predict_tps,
  is_non_commercial, some_marker, recommendation_score, headroom, Recommendation, recommend_model,
  recommend_all, recommended_before, recommend,
}
use sovereign_inference.Node.Recommend.Selection.{Selection, select_quant-Selection}
use sovereign_inference.Node.Recommend.Fitting.{FittingFirst, Suits, recommend-FittingFirst}
use sovereign_inference.Tests.Resolver.{naturals, of_ℕ}

-- Natural numbers for floats, on which a product is its second factor
abbrev comparing : Arithmetic
comparing = record {
  literal = naturals.literal;
  float_of = naturals.float_of;
  plus = naturals.plus;
  times = naturals.times;
  divide = λ x y. x;
  negate = naturals.negate;
  sum = naturals.sum;
  less = naturals.less;
  at_most = λ x y. leb x.bits y.bits;
  is_zero = naturals.is_zero;
  is_nan = naturals.is_nan;
}

abbrev numbers : NodeNumbers
numbers = record {
  F = comparing;
  of_int = of_ℕ;
  ratio = λ m n. of_ℕ 1;
  round = λ digits x. x;
  lower = λ s. s;
}

abbrev laptop : HardwareProfile
laptop = record {
  ram_total_gb = of_ℕ 16;
  ram_available_gb = of_ℕ 5;
  gpus = [];
  accelerator = cpu;
  unified_memory = false;
}

abbrev model : String → ℕ → CatalogModel
model name bits = record {
  model_id = name;
  params_b = of_ℕ 3;
  quants = record { name = "q"; bits = of_ℕ bits } ∷ [];
  tasks = "chat" ∷ [];
  license = "mit";
  recommended_runtimes = [];
  default_context = 4096;
  n_layers = none;
  hidden_size = none;
  n_heads = none;
  n_kv_heads = none;
  commercial_use = true;
  quality_score = of_ℕ 1;
}

bits_order : WeakOrder (fewer_bits numbers) (λ q. Unit {0})
bits_order = record { asym = λ p q h. ground arith; neg_trans = λ p q s a b c h k. ground arith }

select_quant-Selection_example :
    (s : SelectedQuant) × (select_quant numbers (model "small" 1) (of_ℕ 5) 4096 ≡ ok s)
    × Selection numbers (model "small" 1) (of_ℕ 5) 4096 s
unfolding by_bits sort_by insert_by
select_quant-Selection_example =
    select_quant-Selection numbers (model "small" 1) (of_ℕ 5) 4096
      (record { name = "q"; bits = of_ℕ 1 }) [] refl (λ q. Unit {0}) bits_order (λ x. ground arith)
      (tt, tt)

ranking_order : WeakOrder (recommended_before numbers) (λ r. Unit {0})
ranking_order = record { asym = λ r s h. ground arith; neg_trans = λ r s t a b c h k. ground arith }

recommend-FittingFirst_example :
    (rs : List Recommendation) × (recommend numbers laptop "chat" true "low" 2
        (model "large" 9 ∷ model "small" 1 ∷ [])
      ≡ ok rs)
    × (length rs ≤ 2)
    × All (Suits numbers laptop "chat" true "low") rs
    × FittingFirst rs
unfolding usable_memory_gb primary_gpu is_non_commercial some_marker is_substring recommend_all
    recommend_model select_quant considered by_bits last_fit estimate_for kv_cache_gb_of headroom
    predict_tps recommendation_score sort_by insert_by keep contains after_prefix
recommend-FittingFirst_example =
    recommend-FittingFirst numbers laptop "chat" true "low" (λ r. Unit {0}) ranking_order 2
      (model "large" 9 ∷ model "small" 1 ∷ []) _ (omega arith) refl (tt, (tt, tt))
