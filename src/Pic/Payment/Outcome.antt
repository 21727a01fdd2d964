-- ===== src/Pic/Payment/Outcome.antt =====
-- The outcome of a redemption: accepted for stated reasons, or refused with the table untouched.
use sovereign_inference.Base.{
  String, Bool, true, false, some, List, [], ◌∷◌, ◌≡◌, ◌⊎◌, inl, inr, refl, arith, contains,
  if◌then◌else◌, Bool-cases, Option-cases,
}
use sovereign_inference.Json.{Json, Dict, string}
use sovereign_inference.Result.{Result, ok, raised, ◌>>=◌, Result-cases}
use sovereign_inference.Runtime.{Runtime, Decimal, decimal_zero}
use sovereign_inference.Pic.SpentSet.{SpentSet, is_spent, spend}
use sovereign_inference.Pic.X402.{x402_nonce, verify_x402_payment}
use sovereign_inference.Pic.Payment.{
  RedeemResult, Terms, Check, rejected, counted, redeemed, distinct_ids, validate_all, settle_pic,
  redeem_vouchers, redeem_x402, x402_amount, x402_key,
}
use sovereign_inference.Pic.Payment.Ids.{
  HasIds, Fresh, spend_ids, distinct_ids-Fresh, validate_all-Unspent, Fresh-append, spend_all-Fresh,
}

-- Refused, or ended by an exception.
abbrev pub NotAccepted : Result RedeemResult → Type 0
NotAccepted (raised e) = Unit
NotAccepted (ok r) = r.accepted ≡ false

-- `Decimal(price)` is read, and the sum is not less.
abbrev pub Covers : Runtime → Decimal → String → Type 0
Covers R sum price =
    (do due ← R.decimals.decimal (string price); R.decimals.less sum due) ≡ ok false

-- What an accepted batch of vouchers has been found to be.
pub record BatchAccepted (R : Runtime) (t : Terms) (spent : SpentSet) (vouchers : List Json)
    : Type 0 where
  pub ids : List String
  pub sum : Decimal
  pub has : HasIds vouchers ids
  pub fresh : Fresh spent ids
  pub distinct : distinct_ids [] vouchers ≡ ok true
  pub valid : validate_all R t spent decimal_zero vouchers ≡ ok (counted sum)
  pub covers : Covers R sum t.price

Check-cases :
    (c : Check) → ((r : String) × (c ≡ rejected r)) ⊎ ((sum : Decimal) × (c ≡ counted sum))
Check-cases (rejected r) = inl (r, refl)
Check-cases (counted sum) = inr (sum, refl)

module _ (R : Runtime) (t : Terms) (spent : SpentSet) (vouchers : List Json) where
  abbrev pub BatchRefused : Type 0
  BatchRefused =
      (commit : Bool)
      → ((redeem_vouchers R t commit spent vouchers).1 ≡ spent)
        × NotAccepted (redeem_vouchers R t commit spent vouchers).0

  abbrev price_test : Decimal → Result Bool
  price_test sum = do due ← R.decimals.decimal (string t.price); R.decimals.less sum due

  -- A batch that the first two loops accept is fresh, and stands or falls with its price.
  settled :
      (sum : Decimal)
      → distinct_ids [] vouchers ≡ ok true
      → validate_all R t spent decimal_zero vouchers ≡ ok (counted sum)
      → BatchAccepted R t spent vouchers ⊎ BatchRefused
  unfolding redeem_vouchers settle_pic
  settled sum distinct valid =
      let (ids, has, fresh) = distinct_ids-Fresh [] vouchers distinct in
      let unspent = validate_all-Unspent R t spent decimal_zero vouchers ids has valid in
      elim (Result-cases (price_test sum)) [
        | inr (e, p) ↦ inr (λ commit. (ground arith, ground arith))
        | inl (low, p) ↦ elim (Bool-cases low) [
          | inl short ↦ inr (λ commit. (ground arith, ground arith))
          | inr enough ↦ inl (record {
            ids = ids;
            sum = sum;
            has = has;
            fresh = Fresh-append [] spent ids fresh unspent;
            distinct = distinct;
            valid = valid;
            covers = ground arith;
          })
        ]
      ]

  -- A batch is accepted for these reasons, or refused whatever `commit` says.
  pub redeem_vouchers-cases : BatchAccepted R t spent vouchers ⊎ BatchRefused
  unfolding redeem_vouchers
  redeem_vouchers-cases = elim (Result-cases (distinct_ids [] vouchers)) [
    | inr (e, d) ↦ inr (λ commit. (ground arith, ground arith))
    | inl (b, d) ↦ elim (Bool-cases b) [
      | inr twice ↦ inr (λ commit. (ground arith, ground arith))
      | inl once ↦ elim (Result-cases (validate_all R t spent decimal_zero vouchers)) [
        | inr (e, v) ↦ inr (λ commit. (ground arith, ground arith))
        | inl (c, v) ↦ elim (Check-cases c) [
          | inl (reason, e) ↦ inr (λ commit. (ground arith, ground arith))
          | inr (sum, e) ↦ settled sum (cc) (cc)
        ]
      ]
    ]
  ]

  -- An accepted batch is redeemed, and spent if `commit` says so.
  pub redeem_vouchers-accepted :
      (a : BatchAccepted R t spent vouchers) (commit : Bool)
      → redeem_vouchers R t commit spent vouchers ≡ (
        ok (redeemed "pic" (R.decimals.text a.sum)),
        (if commit then spend_ids spent a.ids else spent),
      )
  unfolding redeem_vouchers settle_pic
  redeem_vouchers-accepted a true =
      ground (
        arith,
        a.distinct,
        a.valid,
        a.covers,
        spend_all-Fresh spent [] vouchers a.ids a.has a.fresh,
      )
  redeem_vouchers-accepted a false = ground (arith, a.distinct, a.valid, a.covers)

-- What an accepted x402 payment has been found to be.
pub record X402Accepted (R : Runtime) (t : Terms) (spent : SpentSet) (payment : Dict) : Type 0 where
  pub nonce : String
  pub has_nonce : x402_nonce payment ≡ some nonce
  pub verified :
      verify_x402_payment R payment t.price t.unit t.now 300 t.provider_pubkey t.request_id
      ≡ ok true
  pub unspent : contains spent (x402_key nonce) ≡ false

module _ (R : Runtime) (t : Terms) (spent : SpentSet) (payment : Dict) where
  abbrev verified : Result Bool
  verified = verify_x402_payment R payment t.price t.unit t.now 300 t.provider_pubkey t.request_id

  abbrev pub X402Refused : Type 0
  X402Refused =
      (commit : Bool)
      → ((redeem_x402 R payment t spent commit).1 ≡ spent)
        × NotAccepted (redeem_x402 R payment t spent commit).0

  -- An x402 payment is accepted for these reasons, or refused whatever `commit` says.
  pub redeem_x402-cases : X402Accepted R t spent payment ⊎ X402Refused
  unfolding redeem_x402 is_spent
  redeem_x402-cases = elim (Option-cases (x402_nonce payment)) [
    | inl n ↦ inr (λ commit. (ground arith, ground arith))
    | inr (nonce, n) ↦ elim (Result-cases verified) [
      | inr (e, v) ↦ inr (λ commit. (ground arith, ground arith))
      | inl (b, v) ↦ elim (Bool-cases b) [
        | inr bad ↦ inr (λ commit. (ground arith, ground arith))
        | inl good ↦ elim (Bool-cases (contains spent (x402_key nonce))) [
          | inl old ↦ inr (λ commit. (ground arith, ground arith))
          | inr new ↦
              inl (record { nonce = nonce; has_nonce = n; verified = ground arith; unspent = new })
        ]
      ]
    ]
  ]

  -- An accepted x402 payment is redeemed, and its nonce spent if `commit` says so.
  pub redeem_x402-accepted :
      (a : X402Accepted R t spent payment) (commit : Bool)
      → redeem_x402 R payment t spent commit ≡ (
        ok (redeemed "x402" (R.text_of (x402_amount payment t.price))),
        (if commit then x402_key a.nonce ∷ spent else spent),
      )
  unfolding redeem_x402 is_spent spend
  redeem_x402-accepted a true = ground arith
  redeem_x402-accepted a false = ground arith
