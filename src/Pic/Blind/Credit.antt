-- ===== src/Pic/Blind/Credit.antt =====
-- A credit that is requested, signed and unblinded as blind.py does it verifies.
use native.Mathlib.Nat.{mod-lt, mod-mod}
use sovereign_inference.Base.{
  ◌++◌, ℕ, ◌*◌, ◌%◌, ◌^◌, ◌≤◌, ◌<◌, String, true, false, ◌&&◌, some, List, [], ◌∷◌, eqb, ltb, ◌≡◌,
  refl, ap, ◌∙◌, sym, subst, arith, inl, inr, Bool-cases, Option-cases,
}
use sovereign_inference.Result.{ok, Result-cases}
use sovereign_inference.Runtime.{Runtime, Bytes}
use sovereign_inference.Pic.Blind.Integers.{from_bytes}
use sovereign_inference.Pic.Blind.Rsa.{unblinded_verifies}
use sovereign_inference.Pic.Blind.Key.{
  BlindLaws, RsaKey, text_of_int, int_to_b64u-ok, b64u_to_int-text_of_int, name_of, pubkey_str-ok,
  from_str-name_of,
}
use sovereign_inference.Pic.Blind.{
  Numerics, BlindIssuerKey, BlindIssuer, sign_blinded, denomination_bytes, mgf1, key_bytes, fdh,
  random_unit, blind, unblind, verify_blind_token, BlindCreditRequest, BlindingSecret, BlindCredit,
  blind_credit_request, finalize_blind_credit, credit_parts, verify_blind_credit,
}

random_unit-coprime :
    (N : Numerics) (n : ℕ) (draws : List Bytes) (r : ℕ)
    → random_unit N n draws ≡ some r
    → N.gcd r n ≡ 1
unfolding random_unit
random_unit-coprime N n [] r h = cc
random_unit-coprime N n (draw ∷ draws) r h =
    elim (Bool-cases (ltb 1 (from_bytes draw % n) && eqb (N.gcd (from_bytes draw % n) n) 1)) [
      | inr other ↦ random_unit-coprime N n draws r (ground arith)
      | inl good ↦
          let same : from_bytes draw % n ≡ r = ground arith in
          subst (λ x. N.gcd x n ≡ 1) same (ground arith)
    ]

module _ (R : Runtime) (N : Numerics) (laws : BlindLaws R N) where
  fdh_mod :
      (token : Bytes) (amount unit : String) (key : BlindIssuerKey) (m : ℕ)
      → 3 ≤ key.n
      → fdh R N token amount unit key ≡ ok m
      → m % key.n ≡ m
  unfolding fdh
  fdh_mod token amount unit key m h e = elim (Result-cases (denomination_bytes R amount unit)) [
    | inr (x, d) ↦ absurd (ground arith)
    | inl (denomination, d) ↦
        elim (Result-cases
          (mgf1 N (R.encode_utf8 "sip-blind-fdh-v2:" ++ token ++ denomination) (key_bytes key))) [
            | inr (x, f) ↦ absurd (ground arith)
            | inl (digest, f) ↦
                let same : from_bytes digest % key.n ≡ m = ground arith in
                subst (λ x. x % key.n ≡ x) same (mod-mod (from_bytes digest) key.n)
          ]
  ]

  abbrev pub request_of : BlindIssuerKey → String → String → ℕ → ℕ → BlindCreditRequest
  request_of key unit amount m r = record {
    blinded = m * (r ^ key.e % key.n) % key.n;
    unit = unit;
    amount = amount;
    issuer = name_of R N key;
  }

  abbrev pub secret_of : BlindIssuerKey → String → String → Bytes → ℕ → BlindingSecret
  secret_of key unit amount token r = record {
    token = token;
    r = r;
    unit = unit;
    amount = amount;
    key = key;
  }

  abbrev pub credit_of : BlindIssuerKey → String → String → Bytes → ℕ → BlindCredit
  credit_of key unit amount token sig = record {
    unit = unit;
    amount = amount;
    issuer = name_of R N key;
    token = R.base64_encode token;
    signature = text_of_int R sig;
  }

  nonzero : (n : ℕ) → 3 ≤ n → eqb n 0 ≡ false
  nonzero n h = ground arith

  pub blind_credit_request-ok :
      (key : BlindIssuerKey) (unit amount : String) (token : Bytes) (draws : List Bytes) (m r : ℕ)
      → 3 ≤ key.n
      → fdh R N token amount unit key ≡ ok m
      → random_unit N key.n draws ≡ some r
      → blind_credit_request R N key unit amount token draws
        ≡ ok (some (request_of key unit amount m r, secret_of key unit amount token r))
  unfolding blind_credit_request blind
  blind_credit_request-ok key unit amount token draws m r h f d =
      rw (blind_credit_request, blind, f, d) (rw (nonzero key.n h, pubkey_str-ok R N laws key) refl)

  -- What a request has drawn and computed
  record Drawn (key : BlindIssuerKey) (unit amount : String) (token : Bytes)
      (request : BlindCreditRequest) (secret : BlindingSecret) : Type 0 where
    m : ℕ
    r : ℕ
    hashed : fdh R N token amount unit key ≡ ok m
    coprime : N.gcd r key.n ≡ 1
    requested : request_of key unit amount m r ≡ request
    kept : secret_of key unit amount token r ≡ secret

  blind_credit_request-Drawn :
      (key : BlindIssuerKey) (unit amount : String) (token : Bytes) (draws : List Bytes)
      (request : BlindCreditRequest) (secret : BlindingSecret)
      → 3 ≤ key.n
      → blind_credit_request R N key unit amount token draws ≡ ok (some (request, secret))
      → Drawn key unit amount token request secret
  unfolding blind_credit_request blind
  blind_credit_request-Drawn key unit amount token draws request secret h e =
      elim (Result-cases (fdh R N token amount unit key)) [
        | inr (x, f) ↦ absurd (ground arith)
        | inl (m, f) ↦ elim (Option-cases (random_unit N key.n draws)) [
          | inl n ↦ absurd (ground arith)
          | inr (r, d) ↦
              let both = sym (blind_credit_request-ok key unit amount token draws m r h f d) ∙ e in
              record {
                m = m;
                r = r;
                hashed = f;
                coprime = random_unit-coprime N key.n draws r d;
                requested = cc;
                kept = cc;
              }
        ]
      ]

  finalize-ok :
      (key : BlindIssuerKey) (unit amount : String) (token : Bytes) (r s signed : ℕ)
      → 3 ≤ key.n
      → N.inverse r key.n ≡ some s
      → finalize_blind_credit R N signed (secret_of key unit amount token r)
        ≡ ok (credit_of key unit amount token (signed * s % key.n))
  unfolding finalize_blind_credit unblind
  finalize-ok key unit amount token r s signed h i =
      rw (finalize_blind_credit, unblind, i)
        (rw
          (
            nonzero key.n h,
            pubkey_str-ok R N laws key,
            int_to_b64u-ok R N laws (signed * s % key.n),
          )
          refl)

  verify_token-ok :
      (key : BlindIssuerKey) (unit amount : String) (token : Bytes) (m sig : ℕ)
      → 3 ≤ key.n
      → fdh R N token amount unit key ≡ ok m
      → sig ^ key.e % key.n ≡ m
      → verify_blind_token R N token amount unit sig key ≡ ok true
  unfolding verify_blind_token
  verify_token-ok key unit amount token m sig h f v =
      rw (verify_blind_token, f, nonzero key.n h, v) (ground arith)

  pub verify-ok :
      (key : BlindIssuerKey) (unit amount : String) (token : Bytes) (m sig : ℕ)
      → 3 ≤ key.n
      → 2 ≤ key.e
      → fdh R N token amount unit key ≡ ok m
      → sig ^ key.e % key.n ≡ m
      → verify_blind_credit R N (credit_of key unit amount token sig) ≡ ok true
  unfolding verify_blind_credit credit_parts verify_blind_token
  verify-ok key unit amount token m sig h k f v =
      rw
        (
          verify_blind_credit,
          credit_parts,
          from_str-name_of R N laws key h k,
          laws.signing.decode-encode token,
          b64u_to_int-text_of_int R N laws sig,
        )
        (verify_token-ok key unit amount token m sig h f v)

  sign_blinded-ok :
      (issuer : BlindIssuer) (b : ℕ)
      → 3 ≤ issuer.public.n
      → 0 < b
      → b < issuer.public.n
      → sign_blinded issuer b ≡ ok (b ^ issuer.d % issuer.public.n)
  unfolding sign_blinded
  sign_blinded-ok issuer b h positive small = ground arith

  -- A credit that was requested with a serial, blinded with a factor that `_random_unit` drew, signed
  -- blindly by the issuer and unblinded, verifies, and it is for the serial, the amount and the unit
  -- that were asked for. Holds under the laws of base64 and of modular inverses, for an RSA key, unless
  -- the blinded message is 0, which the issuer refuses.
  pub blind_credit-issued :
      (issuer : BlindIssuer)
      → RsaKey issuer
      → (unit amount : String) (token : Bytes) (draws : List Bytes) (request : BlindCreditRequest)
        (secret : BlindingSecret)
      → blind_credit_request R N issuer.public unit amount token draws ≡ ok (some (request, secret))
      → 0 < request.blinded
      → (signed : ℕ) × (credit : BlindCredit) × (sign_blinded issuer request.blinded ≡ ok signed)
        × (finalize_blind_credit R N signed secret ≡ ok credit)
        × (verify_blind_credit R N credit ≡ ok true)
        × (R.base64_decode credit.token ≡ some token)
        × (credit.amount ≡ amount)
        × (credit.unit ≡ unit)
  blind_credit-issued issuer rsa unit amount token draws request secret e positive =
      let key = issuer.public in
      let drawn =
        blind_credit_request-Drawn key unit amount token draws request secret rsa.modulus e in
      let (s, i, inv) = laws.inverse drawn.r key.n (omega (arith, rsa.modulus)) drawn.coprime in
      let blinded = drawn.m * (drawn.r ^ key.e % key.n) % key.n in
      let signed = blinded ^ issuer.d % key.n in
      let is_blinded : blinded ≡ request.blinded =
        ap (λ (q : BlindCreditRequest). q.blinded) drawn.requested in
      (
        signed,
        credit_of key unit amount token (signed * s % key.n),
        subst (λ b. sign_blinded issuer b ≡ ok signed) is_blinded
            (sign_blinded-ok issuer blinded rsa.modulus
              (subst (λ b. 0 < b) (sym is_blinded) positive)
              (mod-lt (drawn.m * (drawn.r ^ key.e % key.n)) (omega (arith, rsa.modulus)))),
        subst
            (λ x.
              finalize_blind_credit R N signed x
              ≡ ok (credit_of key unit amount token (signed * s % key.n)))
            drawn.kept (finalize-ok key unit amount token drawn.r s signed rsa.modulus i),
        verify-ok key unit amount token drawn.m (signed * s % key.n) rsa.modulus rsa.exponent
            drawn.hashed
            (unblinded_verifies key.n key.e issuer.d drawn.m drawn.r s rsa.inverse inv
              ∙ fdh_mod token amount unit key drawn.m rsa.modulus drawn.hashed),
        laws.signing.decode-encode token,
        refl,
        refl,
      )
