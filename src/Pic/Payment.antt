-- ===== src/Pic/Payment.antt =====
-- packages/pic-vouchers/src/sip_pic/payment.py: redemption of `pic` and `x402` payments.
pub mod Completeness
pub mod Ids
pub mod Outcome
pub mod Redeem
pub mod Safety
pub mod Soundness
use Prim.Native.String.{◌++◌ as str_append}
use sovereign_inference.Base.{
  String, Bool, true, false, not, Option, none, some, List, [], ◌∷◌, ◌++◌, map, ◌==◌, is_empty,
  contains, if◌then◌else◌,
}
use sovereign_inference.Json.{
  Json, string, array, object, Dict, array_of, entry, empty, get, get_or, item, as_string, as_dict,
  as_list, is_text, in_texts, dict_of,
}
use sovereign_inference.Result.{
  Result, ok, raised, ◌>>=◌, attribute_error, key_error, type_error, invalid_operation,
}
use sovereign_inference.Runtime.{Runtime, Moment, Decimal, decimal_zero}
use sovereign_inference.Protocol.Artifacts.{verify_voucher, voucher_is_expired}
use sovereign_inference.Pic.SpentSet.{SpentSet, is_spent, spend, unspend_all}
use sovereign_inference.Pic.X402.{x402_nonce, verify_x402_payment}

pub record RedeemResult : Type 0 where
  pub accepted : Bool  -- the field `ok`
  pub scheme : String
  pub total : String
  pub reason : String

-- The keyword arguments that every redemption takes.
pub record Terms : Type 0 where
  pub price : String
  pub unit : String
  pub issuer_pubkeys : List String
  pub now : Moment
  pub provider_pubkey : Option String
  pub request_id : Option String

unfoldable pub build_pic_payment : List Json → Dict
unfolding array_of
build_pic_payment vouchers =
    entry "scheme" (string "pic") (entry "vouchers" (array (array_of vouchers)) empty)

unfoldable pub payment_required : String → String → List String → List String → Dict
unfolding array_of dict_of
payment_required price unit issuer_pubkeys accept = dict_of (
    ("price_amount", string price)
    ∷ ("price_units", string unit)
    ∷ ("accepted_schemes", array (array_of (map string accept)))
    ∷ ("pic_issuers", array (array_of (map string issuer_pubkeys)))
    ∷ [])

abbrev pub refused : String → String → String → RedeemResult
refused scheme total reason = record {
  accepted = false;
  scheme = scheme;
  total = total;
  reason = reason;
}

abbrev pub redeemed : String → String → RedeemResult
redeemed scheme total = record { accepted = true; scheme = scheme; total = total; reason = "" }

-- `_validate_voucher`
unfoldable pub validate_voucher : Runtime → Dict → Terms → Option String
validate_voucher R voucher t =
    if not (verify_voucher R voucher).valid
    then some "invalid_voucher"
    else if not (is_text (get voucher "unit") t.unit)
    then some "invalid_voucher"
    else if not (in_texts (get voucher "issuer_pubkey") t.issuer_pubkeys)
    then some "wrong_issuer"
    else if voucher_is_expired R voucher t.now
    then some "expired"
    else none

-- The first loop of `_redeem_pic`: every id is a string, and none comes twice.
unfoldable pub distinct_ids : List String → List Json → Result Bool
distinct_ids seen [] = ok true
distinct_ids seen (v ∷ vs) = elim (as_dict v) [
  | none ↦ raised attribute_error
  | some voucher ↦ elim (as_string (get voucher "voucher_id")) [
    | none ↦ ok false
    | some voucher_id ↦
        if contains seen voucher_id then ok false else distinct_ids (voucher_id ∷ seen) vs
  ]
]

-- `voucher["voucher_id"]`, as the key of a table of texts
abbrev pub spend_key : Json → Result String
spend_key v = elim (as_dict v) [
  | none ↦ raised type_error
  | some voucher ↦ elim (item voucher "voucher_id") [
    | none ↦ raised key_error
    | some k ↦ elim (as_string k) [ none ↦ raised type_error | some s ↦ ok s ]
  ]
]

-- What the second loop ends with: a reason to refuse, or the sum.
pub data Check : Type 0 where
  rejected : String → Check
  counted : Decimal → Check

-- `total += Decimal(voucher["denomination"])`
unfoldable pub add_denomination : Runtime → Decimal → Dict → Result Decimal
add_denomination R total voucher = elim (item voucher "denomination") [
  | none ↦ raised key_error
  | some denomination ↦ do value ← R.decimals.decimal denomination; R.decimals.add total value
]

-- The second loop of `_redeem_pic`
unfoldable pub validate_all : Runtime → Terms → SpentSet → Decimal → List Json → Result Check
validate_all R t spent total [] = ok (counted total)
validate_all R t spent total (v ∷ vs) = elim (as_dict v) [
  | none ↦ raised attribute_error
  | some voucher ↦ elim (validate_voucher R voucher t) [
    | some reason ↦ ok (rejected reason)
    | none ↦ elim (spend_key v) [
      | raised e ↦ raised e
      | ok voucher_id ↦
          if is_spent spent voucher_id
          then ok (rejected "double_spend")
          else elim (add_denomination R total voucher) [
            | ok sum ↦ validate_all R t spent sum vs
            | raised invalid_operation ↦ ok (rejected "invalid_voucher")
            | raised key_error ↦ ok (rejected "invalid_voucher")
            | raised type_error ↦ ok (rejected "invalid_voucher")
            | raised e ↦ raised e
          ]
    ]
  ]
]

-- The third loop: spend every id, and on a collision give back those that were spent.
unfoldable pub spend_all : SpentSet → List String → List Json → Result Bool × SpentSet
spend_all spent spent_ids [] = (ok true, spent)
spend_all spent spent_ids (v ∷ vs) = elim (spend_key v) [
  | raised e ↦ (raised e, spent)
  | ok voucher_id ↦
      let (won, after) = spend spent voucher_id in
      let rest = spend_all after (spent_ids ++ voucher_id ∷ []) vs in
      if won then rest else (ok false, unspend_all after spent_ids)
]

-- The result of the third loop as a result of the redemption
spend_result : String → Result Bool → Result RedeemResult
spend_result total (raised e) = raised e
spend_result total (ok true) = ok (redeemed "pic" total)
spend_result total (ok false) = ok (refused "pic" total "double_spend")

-- `_redeem_pic` from the comparison with the price on
unfoldable pub settle_pic :
    Runtime → Terms → Bool → SpentSet → List Json → Decimal → Result RedeemResult × SpentSet
unfolding spend_result
settle_pic R t commit spent vouchers total =
    elim (do price ← R.decimals.decimal (string t.price); R.decimals.less total price) [
      | raised e ↦ (raised e, spent)
      | ok true ↦ (ok (refused "pic" (R.decimals.text total) "insufficient"), spent)
      | ok false ↦
          if not commit
          then (ok (redeemed "pic" (R.decimals.text total)), spent)
          else (let (won, after) = spend_all spent [] vouchers in
              (spend_result (R.decimals.text total) won, after))
    ]

-- `_redeem_pic` for a list of vouchers that is not empty
unfoldable pub redeem_vouchers :
    Runtime → Terms → Bool → SpentSet → List Json → Result RedeemResult × SpentSet
redeem_vouchers R t commit spent vouchers = elim (distinct_ids [] vouchers) [
  | raised e ↦ (raised e, spent)
  | ok false ↦ (ok (refused "pic" "0" "double_spend"), spent)
  | ok true ↦ elim (validate_all R t spent decimal_zero vouchers) [
    | raised e ↦ (raised e, spent)
    | ok (rejected reason) ↦ (ok (refused "pic" "0" reason), spent)
    | ok (counted total) ↦ settle_pic R t commit spent vouchers total
  ]
]

-- `_redeem_pic`
unfoldable pub redeem_pic :
    Runtime → Dict → Terms → SpentSet → Bool → Result RedeemResult × SpentSet
redeem_pic R payment t spent commit = elim (as_list (get payment "vouchers")) [
  | none ↦ (ok (refused "pic" "0" "invalid_voucher"), spent)
  | some vouchers ↦
      if is_empty vouchers
      then (ok (refused "pic" "0" "invalid_voucher"), spent)
      else redeem_vouchers R t commit spent vouchers
]

-- `inner.get("amount", price) if isinstance(inner, dict) else price`
unfoldable pub x402_amount : Dict → String → Json
x402_amount payment price = elim (as_dict (get payment "payment")) [
  | none ↦ string price
  | some inner ↦ get_or inner "amount" (string price)
]

abbrev pub x402_key : String → String
x402_key nonce = str_append "x402:" nonce

-- `redeem_payment` for the scheme x402
unfoldable pub redeem_x402 :
    Runtime → Dict → Terms → SpentSet → Bool → Result RedeemResult × SpentSet
redeem_x402 R payment t spent commit = elim (x402_nonce payment) [
  | none ↦ (ok (refused "x402" "0" "invalid_payment"), spent)
  | some nonce ↦
      elim (verify_x402_payment R payment t.price t.unit t.now 300 t.provider_pubkey t.request_id) [
        | raised e ↦ (raised e, spent)
        | ok false ↦ (ok (refused "x402" "0" "insufficient"), spent)
        | ok true ↦
            let done = redeemed "x402" (R.text_of (x402_amount payment t.price)) in
            if is_spent spent (x402_key nonce)
            then (ok (refused "x402" "0" "double_spend"), spent)
            else if not commit
            then (ok done, spent)
            else (let (won, after) = spend spent (x402_key nonce) in
                if won then (ok done, after) else (ok (refused "x402" "0" "double_spend"), after))
      ]
]

unfoldable pub redeem_payment :
    Runtime → Dict → Terms → SpentSet → Bool → Result RedeemResult × SpentSet
redeem_payment R payment t spent commit =
    if is_text (get payment "scheme") "pic"
    then redeem_pic R payment t spent commit
    else if is_text (get payment "scheme") "x402"
    then redeem_x402 R payment t spent commit
    else (ok (refused (R.text_of (get payment "scheme")) "0" "unsupported_scheme"), spent)
