-- ===== src/Pic/Payment/Soundness.antt =====
-- What an accepted payment has been checked for.
use sovereign_inference.Base.{
  ℕ, ◌+◌, ◌*◌, ◌≤◌, String, Bool, true, false, none, some, List, [], ◌∷◌, ◌≡◌, inl, inr, refl,
  arith, All, eq_iff, Option-cases,
}
use sovereign_inference.Json.{
  Json, null, string, Dict, as_dict, as_list, as_string, get, is_text, in_texts,
}
use sovereign_inference.Result.{Result, ok, raised, ◌>>=◌, Result-cases, type_error}
use sovereign_inference.Runtime.{Runtime, Decimal, decimal_zero, at_least, microseconds, Moment}
use sovereign_inference.Protocol.Artifacts.{verify_voucher, voucher_is_expired}
use sovereign_inference.Protocol.Documents.{is_signed}
use sovereign_inference.Pic.SpentSet.{SpentSet}
use sovereign_inference.Pic.X402.{
  nonempty_text, misbound, false_on_bad_number, amount_covers, is_fresh, verify_inner,
  verify_x402_payment,
}
use sovereign_inference.Pic.Payment.{
  RedeemResult, Terms, counted, validate_voucher, add_denomination, validate_all, redeem_pic,
  redeem_payment,
}
use sovereign_inference.Pic.Payment.Ids.{HasIds, validate_all-step}
use sovereign_inference.Pic.Payment.Outcome.{
  BatchAccepted, redeem_vouchers-cases, redeem_x402-cases,
}
use sovereign_inference.Pic.Payment.Safety.{accepted_contradiction}

-- A voucher that these terms admit.
pub record Admits (R : Runtime) (t : Terms) (voucher : Dict) : Type 0 where
  pub verified : (verify_voucher R voucher).valid ≡ true
  pub unit : is_text (get voucher "unit") t.unit ≡ true
  pub issuer : in_texts (get voucher "issuer_pubkey") t.issuer_pubkeys ≡ true
  pub current : voucher_is_expired R voucher t.now ≡ false

validate_voucher-Admits :
    (R : Runtime) (t : Terms) (voucher : Dict)
    → validate_voucher R voucher t ≡ none
    → Admits R t voucher
unfolding validate_voucher
validate_voucher-Admits R t voucher h = ground arith

abbrev pub IsAdmitted : Runtime → Terms → Json → Type 0
IsAdmitted R t v = (voucher : Dict) × (as_dict v ≡ some voucher) × Admits R t voucher

-- The sum of the denominations, in order.
pub sum_of : Runtime → Decimal → List Json → Result Decimal
sum_of R total [] = ok total
sum_of R total (v ∷ vs) = elim (as_dict v) [
  | none ↦ raised type_error
  | some voucher ↦ do total' ← add_denomination R total voucher; sum_of R total' vs
]

counted-Admits :
    (R : Runtime) (t : Terms) (spent : SpentSet) (total : Decimal) (vs : List Json)
    (ids : List String) {sum : Decimal}
    → HasIds vs ids
    → validate_all R t spent total vs ≡ ok (counted sum)
    → All (IsAdmitted R t) vs × (sum_of R total vs ≡ ok sum)
unfolding sum_of
counted-Admits R t spent total [] [] h e = (tt, unfold validate_all in ground arith)
counted-Admits R t spent total [] (i ∷ ids) h e = absurd h
counted-Admits R t spent total (v ∷ vs) [] h e = absurd h
counted-Admits R t spent total (v ∷ vs) (i ∷ ids) h e =
    let (total', counts, rest) = validate_all-step R t spent total v vs i h.0 e in
    let (all, sum) = counted-Admits R t spent total' vs ids h.1 rest in
    (
      (
        (
          counts.voucher,
          counts.is_voucher,
          validate_voucher-Admits R t counts.voucher counts.valid,
        ),
        all,
      ),
      ground arith,
    )

-- What stands behind an accepted `pic` payment.
pub record PicSound (R : Runtime) (t : Terms) (payment : Dict) : Type 0 where
  pub vouchers : List Json
  pub sum : Decimal
  pub listed : as_list (get payment "vouchers") ≡ some vouchers
  pub admitted : All (IsAdmitted R t) vouchers
  pub sums : sum_of R decimal_zero vouchers ≡ ok sum
  pub due : Decimal
  pub price : R.decimals.decimal (string t.price) ≡ ok due
  pub covers : at_least R.decimals sum due ≡ ok true

module _ (R : Runtime) (payment : Dict) (t : Terms) (spent : SpentSet) (commit : Bool)
    (r : RedeemResult) where
  batch_sound :
      (vouchers : List Json)
      → as_list (get payment "vouchers") ≡ some vouchers
      → BatchAccepted R t spent vouchers
      → PicSound R t payment
  batch_sound vouchers listed a =
      let (all, sums) = counted-Admits R t spent decimal_zero vouchers a.ids a.has a.valid in
      elim (Result-cases (R.decimals.decimal (string t.price))) [
        | inr (e, p) ↦ absurd (ground (arith, a.covers))
        | inl (due, p) ↦ record {
          vouchers = vouchers;
          sum = a.sum;
          listed = listed;
          admitted = all;
          sums = sums;
          due = due;
          price = p;
          covers = ground (arith, a.covers);
        }
      ]

  -- Soundness of `pic`: if a payment of that scheme is accepted, in either mode, then each of its
  -- vouchers passes its schema and signature check, is in the unit asked for, comes from a trusted
  -- issuer and has not expired, and the sum of the denominations is at least the price.
  pub redeem_payment-PicSound :
      (redeem_payment R payment t spent commit).0 ≡ ok r
      → r.accepted ≡ true
      → is_text (get payment "scheme") "pic" ≡ true
      → PicSound R t payment
  unfolding redeem_payment redeem_pic
  redeem_payment-PicSound e yes_r pic = elim (Option-cases (as_list (get payment "vouchers"))) [
    | inl n ↦ absurd (ground arith)
    | inr ([], n) ↦ absurd (ground arith)
    | inr (v ∷ vs, n) ↦ elim (redeem_vouchers-cases R t spent (v ∷ vs)) [
      | inl a ↦ batch_sound (v ∷ vs) n a
      | inr no_way ↦ absurd (accepted_contradiction _ r (no_way commit).1 (ground arith) yes_r)
    ]
  ]

-- What stands behind an accepted `x402` payment: an assertion in the unit, signed by its payer,
-- bound to the provider and the request where they are given, no older than 300 seconds, over an
-- amount not less than the price.
pub record X402Sound (R : Runtime) (t : Terms) (payment : Dict) : Type 0 where
  pub inner : Dict
  pub is_inner : as_dict (get payment "payment") ≡ some inner
  pub unit : is_text (get inner "unit") t.unit ≡ true
  pub signed : is_signed R inner "payer_pubkey" ≡ true
  pub provider : misbound inner "provider_pubkey" t.provider_pubkey ≡ false
  pub request : misbound inner "request_id" t.request_id ≡ false
  pub covers : amount_covers R inner t.price ≡ ok true
  pub issued : Moment
  pub dated :
      (raw : String) × (as_string (get inner "issued_at") ≡ some raw)
      × (R.parse_time raw ≡ some issued)
  pub recent : t.now ≤ issued + 300 * microseconds

is_fresh-le :
    (R : Runtime) (inner : Dict) (now : Moment) (max_age : ℕ)
    → is_fresh R inner now max_age ≡ true
    → (issued : Moment) × ((raw : String) × (as_string (get inner "issued_at") ≡ some raw)
        × (R.parse_time raw ≡ some issued))
      × (now ≤ issued + max_age * microseconds)
unfolding is_fresh
is_fresh-le R inner now max_age h = elim (Option-cases (as_string (get inner "issued_at"))) [
  | inl n ↦ absurd (ground arith)
  | inr (raw, n) ↦ elim (Option-cases (R.parse_time raw)) [
    | inl m ↦ absurd (ground arith)
    | inr (issued, m) ↦ (issued, (raw, n, m), ground arith)
  ]
]

verify_inner-X402Sound :
    (R : Runtime) (t : Terms) (payment inner : Dict)
    → as_dict (get payment "payment") ≡ some inner
    → verify_inner R inner t.price t.unit t.now 300 t.provider_pubkey t.request_id ≡ ok true
    → X402Sound R t payment
unfolding verify_inner false_on_bad_number
verify_inner-X402Sound R t payment inner n h =
    elim (Option-cases (nonempty_text (get inner "nonce"))) [
      | inl m ↦ absurd (ground arith)
      | inr (nonce, m) ↦ elim (Result-cases (amount_covers R inner t.price)) [
        | inr (e, c) ↦ absurd (ground arith)
        | inl (b, c) ↦
            let (issued, dated, recent) = is_fresh-le R inner t.now 300 (ground arith) in
            record {
              inner = inner;
              is_inner = n;
              unit = ground arith;
              signed = ground arith;
              provider = ground arith;
              request = ground arith;
              covers = ground arith;
              issued = issued;
              dated = dated;
              recent = recent;
            }
      ]
    ]

x402-ne-pic : (v : Json) → is_text v "x402" ≡ true → is_text v "pic" ≡ false
x402-ne-pic (string s) h = rw ((eq_iff s "x402").0 h)
x402-ne-pic null h = refl
x402-ne-pic _ h = refl

-- Soundness of `x402`: if a payment of that scheme is accepted, in either mode, then it is an
-- assertion in the unit asked for, signed by its payer, bound to the provider and the request that
-- the terms name, issued at most 300 seconds before, over an amount not less than the price.
pub redeem_payment-X402Sound :
    (R : Runtime) (payment : Dict) (t : Terms) (spent : SpentSet) (commit : Bool) (r : RedeemResult)
    → (redeem_payment R payment t spent commit).0 ≡ ok r
    → r.accepted ≡ true
    → is_text (get payment "scheme") "x402" ≡ true
    → X402Sound R t payment
unfolding redeem_payment verify_x402_payment
redeem_payment-X402Sound R payment t spent commit r e yes_r scheme =
    elim (redeem_x402-cases R t spent payment) [
      | inr no_way ↦
          absurd (accepted_contradiction _ r (no_way commit).1 (ground (arith, other)) yes_r)
      | inl a ↦ elim (Option-cases (as_dict (get payment "payment"))) [
        | inl n ↦ absurd (ground (arith, a.verified))
        | inr (inner, n) ↦ verify_inner-X402Sound R t payment inner n (ground (arith, a.verified))
      ]
    ]
  where
    other : is_text (get payment "scheme") "pic" ≡ false
    other = x402-ne-pic (get payment "scheme") scheme
