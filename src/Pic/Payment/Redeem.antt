-- ===== src/Pic/Payment/Redeem.antt =====
-- `redeem_payment` of either scheme: what it promises to its callers.
use sovereign_inference.Base.{
  String, Bool, true, false, Option, none, some, List, [], ◌∷◌, ◌≡◌, ◌≢◌, ◌⊎◌, inl, inr, refl,
  arith, if◌then◌else◌, Bool-cases, Option-cases,
}
use sovereign_inference.Json.{Json, Dict, as_list, get, is_text}
use sovereign_inference.Result.{ok, raised}
use sovereign_inference.Runtime.{Runtime}
use sovereign_inference.Pic.SpentSet.{SpentSet}
use sovereign_inference.Pic.X402.{x402_nonce}
use sovereign_inference.Pic.Payment.{
  RedeemResult, Terms, redeemed, spend_key, redeem_pic, redeem_payment, x402_key, x402_amount,
}
use sovereign_inference.Pic.Payment.Ids.{HasIds, Fresh, spend_ids}
use sovereign_inference.Pic.Payment.Outcome.{
  NotAccepted, redeem_vouchers-cases, redeem_vouchers-accepted, redeem_x402-cases,
  redeem_x402-accepted,
}

-- The ids of a batch, if every voucher has one.
ids_of : List Json → Option (List String)
ids_of [] = some []
ids_of (v ∷ vs) = elim (spend_key v) [
  | raised e ↦ none
  | ok i ↦ elim (ids_of vs) [ none ↦ none | some ids ↦ some (i ∷ ids) ]
]

-- The keys under which a payment is entered in the table of spent keys.
pub payment_keys : Dict → Option (List String)
unfolding ids_of
payment_keys payment =
    if is_text (get payment "scheme") "pic"
    then elim (as_list (get payment "vouchers")) [ none ↦ none | some vs ↦ ids_of vs ]
    else elim (x402_nonce payment) [ none ↦ none | some nonce ↦ some (x402_key nonce ∷ []) ]

ids_of-HasIds : (vs : List Json) (ids : List String) → HasIds vs ids → ids_of vs ≡ some ids
unfolding ids_of
ids_of-HasIds [] [] h = refl
ids_of-HasIds [] (i ∷ ids) h = absurd h
ids_of-HasIds (v ∷ vs) [] h = absurd h
ids_of-HasIds (v ∷ vs) (i ∷ ids) h = ground (arith, ids_of-HasIds vs ids h.1)

HasIds-ne-nil : (v : Json) (vs : List Json) (ids : List String) → HasIds (v ∷ vs) ids → ids ≢ []
HasIds-ne-nil v vs [] h e = h
HasIds-ne-nil v vs (i ∷ ids) h e = cc

-- An accepted payment: the keys it takes, and what both modes of redemption return.
pub record PaymentAccepted (R : Runtime) (t : Terms) (spent : SpentSet) (payment : Dict)
    : Type 0 where
  pub result : RedeemResult
  pub keys : List String
  pub accepted : result.accepted ≡ true
  pub keys_of : payment_keys payment ≡ some keys
  pub some_key : keys ≢ []
  pub fresh : Fresh spent keys
  pub checked : redeem_payment R payment t spent false ≡ (ok result, spent)
  pub committed : redeem_payment R payment t spent true ≡ (ok result, spend_ids spent keys)

module _ (R : Runtime) (t : Terms) (spent : SpentSet) (payment : Dict) where
  abbrev pub PaymentRefused : Type 0
  PaymentRefused =
      (commit : Bool)
      → ((redeem_payment R payment t spent commit).1 ≡ spent)
        × NotAccepted (redeem_payment R payment t spent commit).0

  pic_cases :
      is_text (get payment "scheme") "pic" ≡ true
      → PaymentAccepted R t spent payment ⊎ PaymentRefused
  unfolding redeem_payment redeem_pic payment_keys
  pic_cases scheme = elim (Option-cases (as_list (get payment "vouchers"))) [
    | inl n ↦ inr (λ commit. (ground arith, ground arith))
    | inr ([], n) ↦ inr (λ commit. (ground arith, ground arith))
    | inr (v ∷ vs, n) ↦ elim (redeem_vouchers-cases R t spent (v ∷ vs)) [
      | inr no_way ↦ inr (λ commit. (ground (arith, no_way commit), ground (arith, no_way commit)))
      | inl a ↦ inl (record {
        result = redeemed "pic" (R.decimals.text a.sum);
        keys = a.ids;
        accepted = refl;
        keys_of = ground (arith, ids_of-HasIds (v ∷ vs) a.ids a.has);
        some_key = HasIds-ne-nil v vs a.ids a.has;
        fresh = a.fresh;
        checked = ground (arith, redeem_vouchers-accepted R t spent (v ∷ vs) a false);
        committed = ground (arith, redeem_vouchers-accepted R t spent (v ∷ vs) a true);
      })
    ]
  ]

  x402_cases :
      is_text (get payment "scheme") "pic" ≡ false
      → is_text (get payment "scheme") "x402" ≡ true
      → PaymentAccepted R t spent payment ⊎ PaymentRefused
  unfolding redeem_payment payment_keys
  x402_cases other scheme = elim (redeem_x402-cases R t spent payment) [
    | inr no_way ↦ inr (λ commit. (ground (arith, no_way commit), ground (arith, no_way commit)))
    | inl a ↦ inl (record {
      result = redeemed "x402" (R.text_of (x402_amount payment t.price));
      keys = x402_key a.nonce ∷ [];
      accepted = refl;
      keys_of = ground arith;
      some_key = λ e. cc;
      fresh = (a.unspent, tt);
      checked = ground (arith, redeem_x402-accepted R t spent payment a false);
      committed = ground (arith, redeem_x402-accepted R t spent payment a true);
    })
  ]

  -- Every payment is accepted, or refused with the table untouched whatever `commit` says.
  pub redeem_payment-cases : PaymentAccepted R t spent payment ⊎ PaymentRefused
  unfolding redeem_payment
  redeem_payment-cases = elim (Bool-cases (is_text (get payment "scheme") "pic")) [
    | inl pic ↦ pic_cases pic
    | inr other ↦ elim (Bool-cases (is_text (get payment "scheme") "x402")) [
      | inl x402 ↦ x402_cases other x402
      | inr unknown ↦ inr (λ commit. (ground arith, ground arith))
    ]
  ]
