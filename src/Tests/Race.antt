-- ===== src/Tests/Race.antt =====
-- Examples for racing redemptions: two batches that share an id.
use sovereign_inference.Base.{
  ℕ, zero, suc, String, true, false, List, [], ◌∷◌, ◌≡◌, refl, contains, discard, ◌↔◌, arith,
}
use sovereign_inference.Json.{Json, string, object, dict_of, item}
use sovereign_inference.Pic.SpentSet.{spend, unspend}
use sovereign_inference.Pic.Payment.{spend_all}
use sovereign_inference.Pic.Race.{accepted, spending, step, start, run}
use sovereign_inference.Pic.Race.Safety.{
  AtRest, Accounted, race_no_double_spend, race_accounts_for_table,
}
use sovereign_inference.Pic.Race.Solo.{ending, alone, alone-spend_all}

-- The first redemption has the ids a and b, the second b and c, and the others none.
unfoldable batches : ℕ → List String
batches zero = "a" ∷ "b" ∷ []
batches (suc zero) = "c" ∷ "b" ∷ []
batches (suc (suc i)) = []

abbrev schedule : List ℕ
schedule = 0 ∷ 1 ∷ 0 ∷ 1 ∷ 0 ∷ 1 ∷ 1 ∷ []

first_wins : (run (start [] batches) schedule).redeemers 0 ≡ accepted ("a" ∷ "b" ∷ [])
unfolding batches step spend unspend contains discard
first_wins = refl

all_rest : (i : ℕ) → AtRest ((run (start [] batches) schedule).redeemers i)
unfolding batches step spend unspend contains discard
all_rest zero = tt
all_rest (suc zero) = tt
all_rest (suc (suc i)) = ground arith

race_no_double_spend_example : (◌≡◌ {A = ℕ} 0 0) × (contains [] "a" ≡ false)
unfolding batches contains
race_no_double_spend_example =
    race_no_double_spend [] batches schedule 0 0 ("a" ∷ "b" ∷ []) ("a" ∷ "b" ∷ []) "a" first_wins
      first_wins refl refl

race_accounts_for_table_example :
    (contains (run (start [] batches) schedule).table "c" ≡ true)
    ↔ Accounted [] batches schedule "c"
race_accounts_for_table_example = race_accounts_for_table [] batches schedule all_rest "c"

abbrev named : String → Json
named k = object (dict_of (("voucher_id", string k) ∷ []))

alone-spend_all_example : alone 6 ("b" ∷ []) (spending ("a" ∷ "b" ∷ []) []) ≡ (
  (spend_all ("b" ∷ []) [] (named "a" ∷ named "b" ∷ [])).1,
  ending ("a" ∷ "b" ∷ []) (spend_all ("b" ∷ []) [] (named "a" ∷ named "b" ∷ [])).0,
)
unfolding item dict_of
alone-spend_all_example =
    alone-spend_all 6 ("b" ∷ []) (named "a" ∷ named "b" ∷ []) ("a" ∷ "b" ∷ []) (refl, (refl, tt))
      (omega arith)
