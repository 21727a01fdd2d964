-- ===== src/Pic/Payment/Safety.antt =====
-- `redeem_payment` and the table of spent keys: all or nothing, single use, check before charge.
use sovereign_inference.Base.{
  String, Bool, true, false, ◌||◌, none, some, List, [], ◌∷◌, ◌++◌, ◌≡◌, ◌≢◌, inl, inr, refl, arith,
  contains, if◌then◌else◌, ap, subst, eq_iff,
}
use sovereign_inference.Json.{Dict}
use sovereign_inference.Result.{Result, ok, raised}
use sovereign_inference.Runtime.{Runtime}
use sovereign_inference.Pic.SpentSet.{SpentSet}
use sovereign_inference.Pic.Payment.{RedeemResult, Terms, redeem_payment}
use sovereign_inference.Pic.Payment.Ids.{Fresh, spend_ids, contains-spend_ids}
use sovereign_inference.Pic.Payment.Outcome.{NotAccepted}
use sovereign_inference.Pic.Payment.Redeem.{payment_keys, PaymentAccepted, redeem_payment-cases}

-- The keys of a payment, all of them new, are in the table now, and nothing else has changed.
pub record Charged (payment : Dict) (before after : SpentSet) : Type 0 where
  pub keys : List String
  pub keys_of : payment_keys payment ≡ some keys
  pub some_key : keys ≢ []
  pub fresh : Fresh before keys
  pub entered : after ≡ spend_ids before keys

-- A redemption charges exactly when it commits and accepts; otherwise the table is as it was.
abbrev pub Charges : Dict → Bool → SpentSet → Result RedeemResult × SpentSet → Type 0
Charges payment true before (ok r, after) =
    if r.accepted then Charged payment before after else (after ≡ before)
Charges payment _ before (_, after) = after ≡ before

pub accepted_contradiction :
    (out : Result RedeemResult) (r : RedeemResult)
    → NotAccepted out
    → out ≡ ok r
    → r.accepted ≡ true
    → ⊥
accepted_contradiction (ok q) r n e y = ground arith
accepted_contradiction (raised x) r n e y = cc

-- Keys that were spent and are still there are not fresh.
contains_head :
    (i : String) (keys : List String) (spent : SpentSet)
    → (contains (i ∷ keys) i || contains spent i) ≡ true
unfolding contains
contains_head i keys spent = ground (arith, eq_iff i i)

keys_clash :
    (spent later : SpentSet) (keys : List String)
    → keys ≢ []
    → ((k : String) → contains (spend_ids spent keys) k ≡ true → contains later k ≡ true)
    → Fresh later keys
    → ⊥
keys_clash spent later [] some_key keep f = some_key refl
keys_clash spent later (i ∷ keys) some_key keep f =
    cc (f.0, keep i (rw contains-spend_ids (contains_head i keys spent)))

module _ (R : Runtime) (payment : Dict) (t : Terms) (spent : SpentSet) where
  -- A redemption is all or nothing: if it commits and accepts, it enters every key of the payment,
  -- none of which was there, and changes nothing else; if it refuses, raises or only checks, the
  -- table stays as it was.
  pub redeem_payment_all_or_nothing :
      (commit : Bool) → Charges payment commit spent (redeem_payment R payment t spent commit)
  redeem_payment_all_or_nothing commit = elim (redeem_payment-cases R t spent payment) [
    | inl a ↦ charged a commit
    | inr no_way ↦ unchanged commit (redeem_payment R payment t spent commit) (no_way commit)
  ]
    where
      charged :
          PaymentAccepted R t spent payment
          → (c : Bool) → Charges payment c spent (redeem_payment R payment t spent c)
      charged a true =
          rw (a.committed, a.accepted)
            (record {
              keys = a.keys;
              keys_of = a.keys_of;
              some_key = a.some_key;
              fresh = a.fresh;
              entered = refl;
            })
      charged a false = rw a.checked

      unchanged :
          (c : Bool) (out : Result RedeemResult × SpentSet)
          → (out.1 ≡ spent) × NotAccepted out.0
          → Charges payment c spent out
      unchanged true (ok r, after) h = rw h.1 h.0
      unchanged true (raised e, after) h = h.0
      unchanged false (ok r, after) h = h.0
      unchanged false (raised e, after) h = h.0

  -- A payment that the check accepts is accepted, with the same result, when it is charged against
  -- the table and the terms of the check.
  pub redeem_payment_check_then_charge :
      (r : RedeemResult)
      → (redeem_payment R payment t spent false).0 ≡ ok r
      → r.accepted ≡ true
      → (redeem_payment R payment t spent true).0 ≡ ok r
  redeem_payment_check_then_charge r e yes_r = elim (redeem_payment-cases R t spent payment) [
    | inl a ↦ rw a.committed (rw a.checked at e)
    | inr no_way ↦ absurd (accepted_contradiction _ r (no_way false).1 e yes_r)
  ]

  -- Single use: once a payment has been charged, no table that still has its keys accepts it again,
  -- whatever the terms, for a check or for a charge.
  pub redeem_payment_single_use :
      (r : RedeemResult) (later : SpentSet) (t' : Terms) (commit : Bool)
      → (redeem_payment R payment t spent true).0 ≡ ok r
      → r.accepted ≡ true
      → ((k : String)
          → contains (redeem_payment R payment t spent true).1 k ≡ true
          → contains later k ≡ true)
      → NotAccepted (redeem_payment R payment t' later commit).0
  redeem_payment_single_use r later t' commit e yes_r keep =
      elim (redeem_payment-cases R t' later payment) [
        | inr no_way ↦ (no_way commit).1
        | inl again ↦ elim (redeem_payment-cases R t spent payment) [
          | inr no_way ↦ absurd (accepted_contradiction _ r (no_way true).1 e yes_r)
          | inl a ↦
              let same : again.keys ≡ a.keys = cc (again.keys_of, a.keys_of) in
              let kept =
                subst (λ s. (k : String) → contains s k ≡ true → contains later k ≡ true)
                  (ap (λ out. out.1) a.committed) keep in
              absurd (
                keys_clash spent later a.keys a.some_key kept
                  (subst (Fresh later) same again.fresh))
        ]
      ]

-- A service charges payments one after another, each under its own terms.
pub charge_all : Runtime → SpentSet → List (Dict × Terms) → SpentSet
charge_all R spent [] = spent
charge_all R spent ((payment, t) ∷ rest) =
    charge_all R (redeem_payment R payment t spent true).1 rest

-- The keys of the payments that were accepted, in order.
accepted_keys : Result RedeemResult → Dict → List String
accepted_keys (raised e) payment = []
accepted_keys (ok r) payment =
    if r.accepted then elim (payment_keys payment) [ none ↦ [] | some keys ↦ keys ] else []

pub keys_charged : Runtime → SpentSet → List (Dict × Terms) → List String
keys_charged R spent [] = []
keys_charged R spent ((payment, t) ∷ rest) =
    accepted_keys (redeem_payment R payment t spent true).0 payment
    ++ keys_charged R (redeem_payment R payment t spent true).1 rest

Fresh-append_spent :
    (spent : SpentSet) (xs ys : List String)
    → Fresh spent xs
    → Fresh (spend_ids spent xs) ys
    → Fresh spent (xs ++ ys)
Fresh-append_spent spent [] ys f g = g
Fresh-append_spent spent (x ∷ xs) ys f g = (f.0, Fresh-append_spent (x ∷ spent) xs ys f.1 g)

accepted_keys-NotAccepted :
    (out : Result RedeemResult) (payment : Dict) → NotAccepted out → accepted_keys out payment ≡ []
unfolding accepted_keys
accepted_keys-NotAccepted (ok r) payment n = rw n
accepted_keys-NotAccepted (raised e) payment n = refl

-- No double spend over any history: whatever payments are charged in whatever order and under
-- whatever terms, the keys of all that are accepted differ from one another and from those that
-- were in the table at the start.
pub keys_charged-Fresh :
    (R : Runtime) (spent : SpentSet) (requests : List (Dict × Terms))
    → Fresh spent (keys_charged R spent requests)
unfolding keys_charged accepted_keys
keys_charged-Fresh R spent [] = tt
keys_charged-Fresh R spent ((payment, t) ∷ rest) = elim (redeem_payment-cases R t spent payment) [
  | inr no_way ↦
      rw ((no_way true).0, accepted_keys-NotAccepted _ payment (no_way true).1)
        (keys_charged-Fresh R spent rest)
  | inl a ↦
      rw (a.committed, accepted_keys, a.accepted, a.keys_of)
        (Fresh-append_spent spent a.keys _ a.fresh
          (keys_charged-Fresh R (spend_ids spent a.keys) rest))
]
