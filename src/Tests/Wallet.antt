-- ===== src/Tests/Wallet.antt =====
-- Examples for the wallet: a selection, and one that the wallet cannot cover.
use sovereign_inference.Base.{ℕ, String, [], ◌∷◌, ◌≡◌, refl}
use sovereign_inference.Json.{string, dict_of, get_or, item}
use sovereign_inference.Result.{ok, raised, insufficient_funds}
use sovereign_inference.Pic.Wallet.{
  Held, Wallet, add_denomination, balance, pick, is_picked, choose, take_picked, select,
}
use sovereign_inference.Pic.Wallet.Select.{Selected, select-Selected}
use sovereign_inference.Tests.Sample.{digits, digit, coefficient}

abbrev coin : ℕ → String → Held
coin identity denomination = record {
  identity = identity;
  voucher = dict_of (("denomination", string denomination) ∷ ("unit", string "usd") ∷ []);
}

abbrev purse : Wallet
purse = coin 1 "1" ∷ coin 2 "3" ∷ coin 3 "2" ∷ []

chosen : (select digits purse "4" "usd").0 ≡ ok (coin 1 "1" ∷ coin 2 "3" ∷ [])
unfolding select take_picked choose digit balance get_or dict_of add_denomination item coefficient
    pick
chosen = refl

too_poor : (select digits purse "9" "usd").0 ≡ raised insufficient_funds
unfolding select take_picked choose digit balance get_or dict_of add_denomination item coefficient
too_poor = refl

select-Selected_example :
    Selected digits "4" "usd" purse (coin 1 "1" ∷ coin 2 "3" ∷ []) (select digits purse "4" "usd").1
unfolding is_picked
select-Selected_example =
    select-Selected digits purse "4" "usd" (coin 1 "1" ∷ coin 2 "3" ∷ []) (refl, (refl, (refl, tt)))
      chosen
