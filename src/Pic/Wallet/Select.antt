-- ===== src/Pic/Wallet/Select.antt =====
-- `Wallet.select`: the batch covers the amount, and no voucher is lost.
use sovereign_inference.Base.{
  ℕ, String, true, false, some, List, [], ◌∷◌, ◌++◌, ◌≡◌, ap, inl, inr, refl, arith, All,
  Bool-cases,
}
use mathlib.Core.List.{Perm, perm_middle}
use mathlib.Core.List.Perm
use sovereign_inference.Json.{string, get, is_text}
use sovereign_inference.Result.{Result, ok, raised, Result-cases, Exception}
use sovereign_inference.Runtime.{Decimals, Decimal, decimal_zero, at_least}
use sovereign_inference.Pic.Wallet.{
  Held, Wallet, add_denomination, in_unit, balance_from, balance, pick, is_picked, remaining,
  choose, take_picked, select,
}

-- No voucher object is held twice.
abbrev pub IsDistinct : Wallet → Type 0
IsDistinct [] = Unit
IsDistinct (h ∷ hs) = (is_picked hs h.identity ≡ false) × IsDistinct hs

-- The sum of the vouchers of a batch, in order.
pub sum_from : Decimals → Decimal → List Held → Result Decimal
sum_from D total [] = ok total
sum_from D total (h ∷ hs) = elim (add_denomination D total h.voucher) [
  | raised e ↦ raised e
  | ok sum ↦ sum_from D sum hs
]

picked_nil : (picked : List Held) → ◌≡◌ {A = Result (List Held)} (ok []) (ok picked) → picked ≡ []
picked_nil [] e = refl
picked_nil (h ∷ hs) e = cc

-- What one round of `pick` does when the sum is still short.
data Round (D : Decimals) (target : Decimal) (unit : String) (total : Decimal) (h : Held)
    (hs : Wallet) (picked : List Held) : Type 0 where
  takes :
      (sum : Decimal) (rest : List Held)
      → in_unit (some unit) h.voucher ≡ true
      → add_denomination D total h.voucher ≡ ok sum
      → pick D target unit sum hs ≡ ok rest
      → picked ≡ h ∷ rest
      → Round D target unit total h hs picked
  skips :
      in_unit (some unit) h.voucher ≡ false
      → pick D target unit total hs ≡ ok picked
      → Round D target unit total h hs picked
  stops : at_least D total target ≡ ok true → picked ≡ [] → Round D target unit total h hs picked

pick-Round :
    (D : Decimals) (target : Decimal) (unit : String) (total : Decimal) (h : Held) (hs : Wallet)
    (picked : List Held)
    → pick D target unit total (h ∷ hs) ≡ ok picked
    → Round D target unit total h hs picked
unfolding pick
pick-Round D target unit total h hs picked p = elim (Result-cases (at_least D total target)) [
  | inr (e, x) ↦ absurd (ground arith)
  | inl (b, x) ↦ elim (Bool-cases b) [
    | inl full ↦ stops (ground arith) (ground arith)
    | inr short ↦ elim (Bool-cases (in_unit (some unit) h.voucher)) [
      | inr other ↦ skips other (ground arith)
      | inl same ↦ elim (Result-cases (add_denomination D total h.voucher)) [
        | inr (e, a) ↦ absurd (ground arith)
        | inl (sum, a) ↦ elim (Result-cases (pick D target unit sum hs)) [
          | inr (e, q) ↦ absurd (ground arith)
          | inl (rest, q) ↦ takes sum rest same a q (ground arith)
        ]
      ]
    ]
  ]
]

balance_from-step :
    (D : Decimals) (total held sum : Decimal) (h : Held) (hs : Wallet) (unit : String)
    → in_unit (some unit) h.voucher ≡ true
    → add_denomination D total h.voucher ≡ ok sum
    → balance_from D total (h ∷ hs) (some unit) ≡ ok held
    → balance_from D sum hs (some unit) ≡ ok held
unfolding balance_from
balance_from-step D total held sum h hs unit same a b = ground arith

-- If the balance from here on reaches the target, so does the sum of what is picked.
pick-covers :
    (D : Decimals) (target : Decimal) (unit : String) (total held : Decimal) (wallet : Wallet)
    (picked : List Held)
    → balance_from D total wallet (some unit) ≡ ok held
    → at_least D held target ≡ ok true
    → pick D target unit total wallet ≡ ok picked
    → (sum : Decimal) × (sum_from D total picked ≡ ok sum) × (at_least D sum target ≡ ok true)
unfolding sum_from
pick-covers D target unit total held [] picked b enough p =
    (held, unfold pick balance_from in ground arith, enough)
pick-covers D target unit total held (h ∷ hs) picked b enough p =
    elim (pick-Round D target unit total h hs picked p) [
      | stops full e ↦ (total, ground arith, full)
      | skips other q ↦
          pick-covers D target unit total held hs picked (unfold balance_from in ground arith)
            enough q
      | takes sum rest same a q e ↦
          let (x, sums, y) =
            pick-covers D target unit sum held hs rest
              (balance_from-step D total held sum h hs unit same a b) enough q in
          (x, ground arith, y)
    ]

-- What is picked is in the unit.
pick-in_unit :
    (D : Decimals) (target : Decimal) (unit : String) (total : Decimal) (wallet : Wallet)
    (picked : List Held)
    → pick D target unit total wallet ≡ ok picked
    → All (λ h. is_text (get h.voucher "unit") unit ≡ true) picked
pick-in_unit D target unit total [] picked p = unfold pick in rw (picked_nil picked p) tt
pick-in_unit D target unit total (h ∷ hs) picked p =
    elim (pick-Round D target unit total h hs picked p) [
      | stops full e ↦ rw e tt
      | skips other q ↦ pick-in_unit D target unit total hs picked q
      | takes sum rest same a q e ↦ rw e (same, pick-in_unit D target unit sum hs rest q)
    ]

-- A list that leaves out some of the members of another, in order.
data Within : List Held → Wallet → Type 0 where
  none_left : {hs : Wallet} → Within [] hs
  drop : {ps : List Held} {h : Held} {hs : Wallet} → Within ps hs → Within ps (h ∷ hs)
  keep : {ps : List Held} {h : Held} {hs : Wallet} → Within ps hs → Within (h ∷ ps) (h ∷ hs)

pick-Within :
    (D : Decimals) (target : Decimal) (unit : String) (total : Decimal) (wallet : Wallet)
    (picked : List Held)
    → pick D target unit total wallet ≡ ok picked
    → Within picked wallet
pick-Within D target unit total [] picked p = unfold pick in rw (picked_nil picked p) none_left
pick-Within D target unit total (h ∷ hs) picked p =
    elim (pick-Round D target unit total h hs picked p) [
      | stops full e ↦ rw e none_left
      | skips other q ↦ drop (pick-Within D target unit total hs picked q)
      | takes sum rest same a q e ↦ rw e (keep (pick-Within D target unit sum hs rest q))
    ]

is_picked-Within :
    {ps : List Held} {hs : Wallet} (i : ℕ)
    → Within ps hs
    → is_picked hs i ≡ false
    → is_picked ps i ≡ false
unfolding is_picked
is_picked-Within i none_left h = refl
is_picked-Within i (drop w) h = is_picked-Within i w (ground arith)
is_picked-Within i (keep {ps = ps} w) h = ground (arith, is_picked-Within {ps = ps} i w)

remaining_none : (hs : Wallet) → remaining hs [] ≡ hs
unfolding remaining is_picked
remaining_none [] = refl
remaining_none (h ∷ hs) = ap (λ t. h ∷ t) (remaining_none hs)

-- An object that the wallet does not hold makes no difference among the picked.
remaining_other :
    (hs : Wallet) (p : Held) (ps : List Held)
    → is_picked hs p.identity ≡ false
    → remaining hs (p ∷ ps) ≡ remaining hs ps
unfolding remaining is_picked
remaining_other [] p ps h = refl
remaining_other (x ∷ hs) p ps h = ground (arith, remaining_other hs p ps)

remaining_drop :
    (h : Held) (hs : Wallet) (ps : List Held)
    → is_picked ps h.identity ≡ false
    → remaining (h ∷ hs) ps ≡ h ∷ remaining hs ps
unfolding remaining
remaining_drop h hs ps e = ground arith

remaining_keep :
    (h : Held) (hs : Wallet) (ps : List Held) → remaining (h ∷ hs) (h ∷ ps) ≡ remaining hs (h ∷ ps)
unfolding remaining is_picked
remaining_keep h hs ps = ground arith

-- What is picked and what remains are together what was held.
remaining-perm :
    {ps : List Held} {hs : Wallet} → Within ps hs → IsDistinct hs → Perm hs (ps ++ remaining hs ps)
remaining-perm {hs = hs} none_left d = rw remaining_none (Perm.refl hs)
remaining-perm (drop {ps = ps} {h = h} {hs = hs} w) d =
    rw (remaining_drop h hs ps (is_picked-Within h.identity w d.0)) (
      Perm.trans (Perm.cons h (remaining-perm w d.1))
        (Perm.symm (perm_middle ps (remaining hs ps))))
remaining-perm (keep {ps = ps} {h = h} {hs = hs} w) d =
    rw (remaining_keep h hs ps, remaining_other hs h ps d.0) (Perm.cons h (remaining-perm w d.1))

-- What `select` promises: the batch is in the unit, its sum is at least the amount, and batch and
-- wallet together hold what the wallet held.
pub record Selected (D : Decimals) (amount unit : String) (before picked after : List Held)
    : Type 0 where
  pub target : Decimal
  pub sum : Decimal
  pub asked : D.decimal (string amount) ≡ ok target
  pub sums : sum_from D decimal_zero picked ≡ ok sum
  pub covers : at_least D sum target ≡ ok true
  pub in_one_unit : All (λ h. is_text (get h.voucher "unit") unit ≡ true) picked
  pub conserved : Perm before (picked ++ after)

take_picked_ok :
    (wallet : Wallet) (r : Result (List Held)) (picked : List Held)
    → (take_picked wallet r).0 ≡ ok picked
    → (r ≡ ok picked) × ((take_picked wallet r).1 ≡ remaining wallet picked)
unfolding take_picked
take_picked_ok wallet (ok hs) picked e = (e, ground arith)
take_picked_ok wallet (raised x) picked e = cc

take_picked_raised :
    (wallet : Wallet) (r : Result (List Held)) (x : Exception)
    → (take_picked wallet r).0 ≡ raised x
    → (take_picked wallet r).1 ≡ wallet
unfolding take_picked
take_picked_raised wallet (ok hs) x e = cc
take_picked_raised wallet (raised y) x e = refl

module _ (D : Decimals) (wallet : Wallet) (amount unit : String) where
  chosen :
      (picked : List Held)
      → (select D wallet amount unit).0 ≡ ok picked
      → choose D wallet amount unit ≡ ok picked
  unfolding select
  chosen picked e = (take_picked_ok wallet (choose D wallet amount unit) picked e).0

  took :
      (picked : List Held)
      → (select D wallet amount unit).0 ≡ ok picked
      → (select D wallet amount unit).1 ≡ remaining wallet picked
  unfolding select
  took picked e = (take_picked_ok wallet (choose D wallet amount unit) picked e).1

  -- If `select` returns a batch from a wallet that holds no object twice, the batch is in the unit,
  -- its sum is at least the amount, and nothing is lost: the batch and the wallet that is left are
  -- together what the wallet held.
  pub select-Selected :
      (picked : List Held)
      → IsDistinct wallet
      → (select D wallet amount unit).0 ≡ ok picked
      → Selected D amount unit wallet picked (select D wallet amount unit).1
  unfolding choose balance
  select-Selected picked d e = elim (Result-cases (D.decimal (string amount))) [
    | inr (x, t) ↦ absurd (ground (arith, chosen picked e))
    | inl (target, t) ↦ elim (Result-cases (balance D wallet (some unit))) [
      | inr (x, b) ↦ absurd (ground (arith, chosen picked e))
      | inl (held, b) ↦ elim (Result-cases (D.less held target)) [
        | inr (x, l) ↦ absurd (ground (arith, chosen picked e))
        | inl (low, l) ↦ elim (Bool-cases low) [
          | inl short ↦ absurd (ground (arith, chosen picked e))
          | inr enough ↦
              let p : pick D target unit decimal_zero wallet ≡ ok picked =
                ground (arith, chosen picked e) in
              let (sum, sums, covers) =
                pick-covers D target unit decimal_zero held wallet picked b (ground arith) p in
              record {
                target = target;
                sum = sum;
                asked = t;
                sums = sums;
                covers = covers;
                in_one_unit = pick-in_unit D target unit decimal_zero wallet picked p;
                conserved =
                    rw (took picked e)
                      (remaining-perm (pick-Within D target unit decimal_zero wallet picked p) d);
              }
        ]
      ]
    ]
  ]

  -- A `select` that raises, for lack of funds or otherwise, leaves the wallet as it was.
  select_raised :
      (x : Exception)
      → (select D wallet amount unit).0 ≡ raised x
      → (select D wallet amount unit).1 ≡ wallet
  unfolding select
  select_raised x e = take_picked_raised wallet (choose D wallet amount unit) x e
