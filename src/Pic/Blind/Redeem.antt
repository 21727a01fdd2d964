-- ===== src/Pic/Blind/Redeem.antt =====
-- What a redemption of a blind credit asks for and changes.
use sovereign_inference.Base.{
  String, true, false, not, ◌||◌, List, ◌∷◌, contains, ◌==◌, ◌≡◌, ◌⊎◌, refl, ap, ◌∙◌, arith, eq_iff,
  inl, inr, Bool-cases,
}
use sovereign_inference.Result.{Result, ok, raised, Result-cases}
use sovereign_inference.Runtime.{Runtime}
use sovereign_inference.Pic.SpentSet.{SpentSet, is_spent, spend}
use sovereign_inference.Pic.Payment.{RedeemResult}
use sovereign_inference.Pic.Blind.{
  Numerics, BlindCredit, credit_parts, verify_blind_credit, blind_redeemed, blind_spend_key,
  redeem_blind_credit,
}

module _ (R : Runtime) (N : Numerics) where
  -- A credit that is paid with: of an issuer that is accepted, with a valid signature, for the unit and
  -- the price, and not spent before
  pub record Payable (credit : BlindCredit) (price unit : String) (issuer_keys : List String)
      (spent : SpentSet) : Type 0 where
    pub issuer : contains issuer_keys credit.issuer ≡ true
    pub valid : verify_blind_credit R N credit ≡ ok true
    pub in_unit : credit.unit ≡ unit
    pub for_price : credit.amount ≡ price
    pub unspent : contains spent (blind_spend_key credit) ≡ false

  -- What a redemption has come to
  abbrev pub Redeems :
      BlindCredit
      → String
      → String
      → List String
      → SpentSet
      → Result RedeemResult × SpentSet
      → Type 0
  Redeems credit price unit issuer_keys spent (raised x, after) = after ≡ spent
  Redeems credit price unit issuer_keys spent (ok result, after) =
      ((result.accepted ≡ false) × (result.total ≡ "0") × (after ≡ spent))
      ⊎ ((result ≡ blind_redeemed price)
          × Payable credit price unit issuer_keys spent
          × (after ≡ blind_spend_key credit ∷ spent))

  -- A redemption of a blind credit is refused for nothing and leaves the table of spent keys as it
  -- was, or it is accepted for the price; then the credit is of an accepted issuer, its signature is
  -- valid, it is for the unit and the price, its key was not spent, and it is spent afterwards.
  pub redeem_blind_credit-Redeems :
      (credit : BlindCredit) (price unit : String) (issuer_keys : List String) (spent : SpentSet)
      → Redeems credit price unit issuer_keys spent
          (redeem_blind_credit R N credit price unit issuer_keys spent)
  unfolding redeem_blind_credit is_spent spend
  redeem_blind_credit-Redeems credit price unit issuer_keys spent =
      elim (Bool-cases (contains issuer_keys credit.issuer)) [
        | inr unknown ↦ rw (redeem_blind_credit, unknown) (inl (refl, refl, refl))
        | inl known ↦ elim (Result-cases (verify_blind_credit R N credit)) [
          | inr (x, e) ↦ rw (redeem_blind_credit, known, e) refl
          | inl (false, e) ↦ rw (redeem_blind_credit, known, e) (inl (refl, refl, refl))
          | inl (true, e) ↦
              elim (Bool-cases (not (credit.unit == unit) || not (credit.amount == price))) [
                | inl other ↦ rw (redeem_blind_credit, known, e, other) (inl (refl, refl, refl))
                | inr same ↦ elim (Bool-cases (contains spent (blind_spend_key credit))) [
                  | inl again ↦
                      rw (redeem_blind_credit, known, e, same, again) (inl (refl, refl, refl))
                  | inr fresh ↦
                      let priced : credit.amount ≡ price =
                        ground (arith, eq_iff credit.amount price) in
                      rw (redeem_blind_credit, known, e, same, fresh)
                        (inr (
                          ap blind_redeemed priced,
                          record {
                            issuer = known;
                            valid = e;
                            in_unit = ground (arith, eq_iff credit.unit unit);
                            for_price = priced;
                            unspent = fresh;
                          },
                          refl,
                        ))
                ]
              ]
        ]
      ]

  -- A credit that can be paid with is accepted.
  redeem_blind_credit-Payable :
      (credit : BlindCredit) (price unit : String) (issuer_keys : List String) (spent : SpentSet)
      → Payable credit price unit issuer_keys spent
      → redeem_blind_credit R N credit price unit issuer_keys spent
        ≡ (ok (blind_redeemed credit.amount), blind_spend_key credit ∷ spent)
  unfolding redeem_blind_credit is_spent spend
  redeem_blind_credit-Payable credit price unit issuer_keys spent p =
      rw (redeem_blind_credit, p.issuer, p.valid, p.unspent)
        (ground
          (arith, p.in_unit, p.for_price, eq_iff credit.unit unit, eq_iff credit.amount price))

  -- The credit with its token spelt in another way
  abbrev pub respelt : BlindCredit → String → BlindCredit
  respelt credit token = record {
    unit = credit.unit;
    amount = credit.amount;
    issuer = credit.issuer;
    token = token;
    signature = credit.signature;
  }

  respelt_verifies :
      (credit : BlindCredit) (token : String)
      → R.base64_decode token ≡ R.base64_decode credit.token
      → verify_blind_credit R N (respelt credit token) ≡ verify_blind_credit R N credit
  unfolding verify_blind_credit credit_parts
  respelt_verifies credit token same = rw (verify_blind_credit, credit_parts, same) refl

  -- The table of spent keys knows a credit by the spelling of its token, and the signature covers what
  -- the token decodes to: a credit that has been redeemed is accepted again if its token is spelt in
  -- another way that decodes to the same bytes, as long as that spelling has not been spent.
  pub redeem_blind_credit-respelt :
      (credit : BlindCredit) (token price unit : String) (issuer_keys : List String)
      (spent : SpentSet)
      → Payable credit price unit issuer_keys spent
      → R.base64_decode token ≡ R.base64_decode credit.token
      → contains
          (redeem_blind_credit R N credit price unit issuer_keys spent).1
          (blind_spend_key (respelt credit token))
        ≡ false
      → (redeem_blind_credit R N credit price unit issuer_keys spent).0 ≡ ok (blind_redeemed price)
        × (redeem_blind_credit R N
            (respelt credit token)
            price
            unit
            issuer_keys
            (redeem_blind_credit R N credit price unit issuer_keys spent).1).0
          ≡ ok (blind_redeemed price)
  redeem_blind_credit-respelt credit token price unit issuer_keys spent p same fresh = (
    ap (λ x. x.0) (redeem_blind_credit-Payable credit price unit issuer_keys spent p)
        ∙ ap (λ a. ok (blind_redeemed a)) p.for_price,
    ap (λ x. x.0)
          (redeem_blind_credit-Payable (respelt credit token) price unit issuer_keys
            (redeem_blind_credit R N credit price unit issuer_keys spent).1
            (record {
              issuer = p.issuer;
              valid = respelt_verifies credit token same ∙ p.valid;
              in_unit = p.in_unit;
              for_price = p.for_price;
              unspent = fresh;
            }))
        ∙ ap (λ a. ok (blind_redeemed a)) p.for_price,
  )
