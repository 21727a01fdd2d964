-- ===== src/Pic/Wallet.antt =====
-- packages/pic-vouchers/src/sip_pic/wallet.py: held vouchers, their balance, and selection.
pub mod Select
use sovereign_inference.Base.{
  ℕ, String, Bool, true, false, not, Option, none, some, List, [], ◌∷◌, ◌++◌, eqb, if◌then◌else◌,
}
use sovereign_inference.Json.{Json, string, Dict, get, item, is_text}
use sovereign_inference.Result.{Result, ok, raised, ◌>>=◌, key_error, insufficient_funds}
use sovereign_inference.Runtime.{Decimals, Decimal, decimal_zero, at_least}

-- A reference to a voucher object: its identity `id(v)`, and what it holds.
pub record Held : Type 0 where
  pub identity : ℕ
  pub voucher : Dict

abbrev pub Wallet : Type 0
Wallet = List Held

unfoldable pub add : Wallet → List Held → Wallet
add wallet vouchers = wallet ++ vouchers

-- `total += Decimal(voucher["denomination"])`
unfoldable pub add_denomination : Decimals → Decimal → Dict → Result Decimal
add_denomination D total voucher = elim (item voucher "denomination") [
  | none ↦ raised key_error
  | some denomination ↦ do value ← D.decimal denomination; D.add total value
]

-- `unit is None or voucher.get("unit") == unit`
abbrev pub in_unit : Option String → Dict → Bool
in_unit none voucher = true
in_unit (some unit) voucher = is_text (get voucher "unit") unit

unfoldable pub balance_from : Decimals → Decimal → Wallet → Option String → Result Decimal
balance_from D total [] unit = ok total
balance_from D total (h ∷ hs) unit =
    let skipped = balance_from D total hs unit in
    if in_unit unit h.voucher
    then elim (add_denomination D total h.voucher) [
      | ok sum ↦ balance_from D sum hs unit
      | raised e ↦ raised e
    ]
    else skipped

unfoldable pub balance : Decimals → Wallet → Option String → Result Decimal
unfolding balance_from
balance D wallet unit = balance_from D decimal_zero wallet unit

-- The loop of `select`, from the sum accumulated so far
unfoldable pub pick : Decimals → Decimal → String → Decimal → Wallet → Result (List Held)
pick D target unit accumulated [] = ok []
pick D target unit accumulated (h ∷ hs) = elim (at_least D accumulated target) [
  | raised e ↦ raised e
  | ok true ↦ ok []
  | ok false ↦
      let skipped = pick D target unit accumulated hs in
      if in_unit (some unit) h.voucher
      then elim (add_denomination D accumulated h.voucher) [
        | raised e ↦ raised e
        | ok sum ↦ elim (pick D target unit sum hs) [
          | raised e ↦ raised e
          | ok picked ↦ ok (h ∷ picked)
        ]
      ]
      else skipped
]

-- `id(v) in picked_ids`
unfoldable pub is_picked : List Held → ℕ → Bool
is_picked [] i = false
is_picked (h ∷ hs) i = if eqb h.identity i then true else is_picked hs i

-- `[v for v in self._vouchers if id(v) not in picked_ids]`
unfoldable pub remaining : Wallet → List Held → Wallet
remaining [] picked = []
remaining (h ∷ hs) picked =
    let rest = remaining hs picked in if is_picked picked h.identity then rest else h ∷ rest

-- The body of `select` up to the loop's end
unfoldable pub choose : Decimals → Wallet → String → String → Result (List Held)
choose D wallet amount unit = do
  target ← D.decimal (string amount)
  held ← balance D wallet (some unit)
  low ← D.less held target
  if low then raised insufficient_funds else pick D target unit decimal_zero wallet

-- What is picked leaves the wallet; an exception leaves it as it is.
unfoldable pub take_picked : Wallet → Result (List Held) → Result (List Held) × Wallet
take_picked wallet (raised e) = (raised e, wallet)
take_picked wallet (ok picked) = (ok picked, remaining wallet picked)

unfoldable pub select : Decimals → Wallet → String → String → Result (List Held) × Wallet
select D wallet amount unit = take_picked wallet (choose D wallet amount unit)
