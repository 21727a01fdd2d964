-- ===== src/Pic/Ledger.antt =====
-- packages/pic-vouchers/src/sip_pic/ledger.py: value credited to providers. The JSON file that may
-- stand behind the entries is not modelled.
use sovereign_inference.Base.{
  String, Bool, true, ◌&&◌, Option, none, some, List, [], ◌∷◌, ◌++◌, ◌==◌, if◌then◌else◌,
}
use sovereign_inference.Json.{string}
use sovereign_inference.Result.{Result, ok, ◌>>=◌}
use sovereign_inference.Runtime.{Decimals, Decimal, decimal_zero}

pub record Credit : Type 0 where
  pub provider_pubkey : String
  pub amount : String
  pub unit : String
  pub refs : List String

abbrev pub Ledger : Type 0
Ledger = List Credit

-- The method `record`
unfoldable pub record_credit : Ledger → String → String → String → List String → Ledger
record_credit entries provider_pubkey amount unit refs =
    entries
    ++ record { provider_pubkey = provider_pubkey; amount = amount; unit = unit; refs = refs } ∷ []

abbrev in_unit : Option String → Credit → Bool
in_unit none c = true
in_unit (some unit) c = c.unit == unit

unfoldable pub total_from : Decimals → Decimal → Ledger → Option String → Result Decimal
total_from D sum [] unit = ok sum
total_from D sum (c ∷ cs) unit =
    let skipped = total_from D sum cs unit in
    if in_unit unit c
    then (do
      amount ← D.decimal (string c.amount)
      sum' ← D.add sum amount
      total_from D sum' cs unit)
    else skipped

unfoldable pub total : Decimals → Ledger → Option String → Result Decimal
unfolding total_from
total D entries unit = total_from D decimal_zero entries unit

unfoldable pub balance_from : Decimals → Decimal → Ledger → String → Option String → Result Decimal
balance_from D sum [] provider unit = ok sum
balance_from D sum (c ∷ cs) provider unit =
    let skipped = balance_from D sum cs provider unit in
    if c.provider_pubkey == provider && in_unit unit c
    then (do
      amount ← D.decimal (string c.amount)
      sum' ← D.add sum amount
      balance_from D sum' cs provider unit)
    else skipped

unfoldable pub balance : Decimals → Ledger → String → Option String → Result Decimal
unfolding balance_from
balance D entries provider unit = balance_from D decimal_zero entries provider unit
