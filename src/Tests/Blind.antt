-- ===== src/Tests/Blind.antt =====
-- Examples for blind credits: a key with the modulus 257, a hash of sevens, and inverses by search.
use native.Mathlib.Nat.{mod-lt, mod-mod}
use sovereign_inference.Base.{
  ℕ, zero, suc, ◌*◌, ◌%◌, ◌^◌, ◌<◌, String, Bool, true, false, ◌&&◌, Option, none, some, [], ◌∷◌,
  eqb, if◌then◌else◌, ℤ, ◌≡◌, refl, ap, ◌∙◌, sym, arith, Option-cases, Bool-cases, subst, inl, inr,
  length, take, contains, eq_iff,
}
use sovereign_inference.Result.{ok}
use sovereign_inference.Runtime.{Bytes}
use sovereign_inference.Pic.Blind.{
  Numerics, BlindIssuer, BlindCredit, BlindCreditRequest, BlindingSecret, fdh, random_unit, mgf1,
  denomination_bytes, blind_credit_request, sign_blinded, finalize_blind_credit,
  verify_blind_credit, redeem_blind_credit, blind_redeemed,
}
use sovereign_inference.Pic.Blind.Integers.{bit_length, from_bytes_onto}
use sovereign_inference.Pic.Blind.Rsa.{mod_pow_cong}
use sovereign_inference.Pic.Blind.Hash.{blocks, mgf1-blocks, denomination_bytes-inj}
use sovereign_inference.Pic.Blind.Key.{has_char, BlindLaws, RsaKey, name_of}
use sovereign_inference.Pic.Blind.Credit.{
  request_of, secret_of, credit_of, blind_credit_request-ok, verify-ok, blind_credit-issued,
}
use sovereign_inference.Pic.Blind.Redeem.{
  Payable, Redeems, respelt, redeem_blind_credit-Redeems, redeem_blind_credit-respelt,
}
use sovereign_inference.Tests.Sample.{toy, toy_laws, key, tick, encode, decode, decode-tick, codes}

-- The first number up to a bound that is an inverse
unfoldable pub search_inverse : ℕ → ℕ → ℕ → Option ℕ
search_inverse zero r n = none
search_inverse (suc s) r n =
    let rest = search_inverse s r n in if eqb (r * s % n) (1 % n) then some s else rest

search_inverse-some : (k r n s : ℕ) → search_inverse k r n ≡ some s → r * s % n ≡ 1 % n
unfolding search_inverse
search_inverse-some zero r n s h = cc
search_inverse-some (suc k) r n s h = elim (Bool-cases (eqb (r * k % n) (1 % n))) [
  | inr other ↦ search_inverse-some k r n s (ground arith)
  | inl good ↦ let here : k ≡ s = ground arith in subst (λ x. r * x % n ≡ 1 % n) here (ground arith)
]

abbrev read_int : Option Bytes → Option ℤ
read_int (some (n ∷ [])) = some (ℤ.pos n)
read_int _ = none

abbrev numerics : Numerics
numerics = record {
  sha256 = λ b. key 7 32;
  gcd = λ r n. elim (search_inverse n r n) [ none ↦ 0 | some s ↦ 1 ];
  inverse = λ r n. search_inverse n r n;
  print_int = λ n. tick n "";
  parse_int = λ s. read_int (decode 0 s);
}

dotless_tick : (n : ℕ) (s : String) → has_char b'.' s ≡ false → has_char b'.' (tick n s) ≡ false
unfolding tick has_char
dotless_tick zero s h = ground arith
dotless_tick (suc n) s h = ground (arith, dotless_tick n s h)

dotless : (b : Bytes) → has_char b'.' (encode b) ≡ false
unfolding encode has_char
dotless [] = refl
dotless (n ∷ ns) = dotless_tick n (encode ns) (dotless ns)

numerics_laws : BlindLaws toy numerics
unfolding decode
numerics_laws = record {
  signing = toy_laws;
  dotless = dotless;
  parse-print = λ n. ap read_int (decode-tick 0 n "") ∙ ap (λ k. some (ℤ.pos k)) (omega arith);
  inverse = λ r n positive h. elim (Option-cases (search_inverse n r n)) [
    | inl none_there ↦ absurd (ground arith)
    | inr (s, e) ↦ (s, e, search_inverse-some n r n s e)
  ];
}

-- 3 * 171 is 1 modulo 256, and 257 is a prime.
abbrev small_issuer : BlindIssuer
small_issuer = record { public = record { n = 257; e = 3 }; d = 171 }

unfoldable inverts_below : ℕ → Bool
inverts_below zero = true
inverts_below (suc x) = let rest = inverts_below x in eqb ((x ^ 171) ^ 3 % 257) (x % 257) && rest

inverts_below-lt : (k x : ℕ) → inverts_below k ≡ true → x < k → (x ^ 171) ^ 3 % 257 ≡ x % 257
unfolding inverts_below
inverts_below-lt zero x h small = absurd (omega arith)
inverts_below-lt (suc k) x h small = elim (Bool-cases (eqb x k)) [
  | inr other ↦ inverts_below-lt k x (ground arith) (ground arith)
  | inl same ↦
      let here : x ≡ k = ground arith in
      subst (λ y. (y ^ 171) ^ 3 % 257 ≡ y % 257) (sym here) (ground arith)
]

small_issuer-RsaKey : RsaKey small_issuer
unfolding inverts_below
small_issuer-RsaKey = record {
  modulus = omega arith;
  exponent = omega arith;
  inverse = λ x.
      mod_pow_cong 257 (x ^ 171) ((x % 257) ^ 171) 3
        (mod_pow_cong 257 x (x % 257) 171 (sym (mod-mod x 257)))
      ∙ inverts_below-lt 257 (x % 257) refl (mod-lt x (omega arith))
      ∙ mod-mod x 257;
}

abbrev drawn_request : BlindCreditRequest
drawn_request = request_of toy numerics numerics_laws small_issuer.public "usd" "3" 7 2

abbrev drawn_secret : BlindingSecret
drawn_secret = secret_of toy numerics numerics_laws small_issuer.public "usd" "3" (1 ∷ []) 2

drawn_request_made :
    blind_credit_request toy numerics small_issuer.public "usd" "3" (1 ∷ []) ((2 ∷ []) ∷ [])
    ≡ ok (some (drawn_request, drawn_secret))
unfolding fdh mgf1 denomination_bytes random_unit search_inverse codes bit_length from_bytes_onto
drawn_request_made =
    blind_credit_request-ok toy numerics numerics_laws small_issuer.public "usd" "3" (1 ∷ [])
      ((2 ∷ []) ∷ []) 7 2 (omega arith) refl refl

blind_credit-issued_example :
    (signed : ℕ) × (credit : BlindCredit) × (sign_blinded small_issuer drawn_request.blinded
      ≡ ok signed)
    × (finalize_blind_credit toy numerics signed drawn_secret ≡ ok credit)
    × (verify_blind_credit toy numerics credit ≡ ok true)
    × (toy.base64_decode credit.token ≡ some (1 ∷ []))
    × (credit.amount ≡ "3")
    × (credit.unit ≡ "usd")
blind_credit-issued_example =
    blind_credit-issued toy numerics numerics_laws small_issuer small_issuer-RsaKey "usd" "3"
      (1 ∷ []) ((2 ∷ []) ∷ []) drawn_request drawn_secret drawn_request_made (omega arith)

mgf1-blocks_example :
    (mgf1 numerics (1 ∷ []) 40 ≡ ok (take 40 (blocks numerics (1 ∷ []) 0 2)))
    × (length (take 40 (blocks numerics (1 ∷ []) 0 2)) ≡ 40)
mgf1-blocks_example = mgf1-blocks numerics (λ b. refl) (1 ∷ []) 40 2 (omega arith) (omega arith)

denomination_bytes-inj_example :
    (toy.encode_utf8 "1" ≡ toy.encode_utf8 "1") × (toy.encode_utf8 "0PIC" ≡ toy.encode_utf8 "0PIC")
unfolding denomination_bytes codes
denomination_bytes-inj_example = denomination_bytes-inj toy "1" "0PIC" "1" "0PIC" _ refl refl

abbrev credit : BlindCredit
credit = credit_of toy numerics numerics_laws small_issuer.public "usd" "3" (1 ∷ []) 40

payable : Payable toy numerics credit "3" "usd" (credit.issuer ∷ []) []
unfolding fdh mgf1 denomination_bytes codes bit_length from_bytes_onto contains
payable = record {
  issuer = ground (arith, eq_iff credit.issuer credit.issuer);
  valid =
      verify-ok toy numerics numerics_laws small_issuer.public "usd" "3" (1 ∷ []) 7 40 (omega arith)
        (omega arith) refl refl;
  in_unit = refl;
  for_price = refl;
  unspent = refl;
}

redeem_blind_credit-Redeems_example :
    Redeems toy numerics credit "3" "usd"
      (credit.issuer ∷ [])
      []
      (redeem_blind_credit toy numerics credit "3" "usd" (credit.issuer ∷ []) [])
redeem_blind_credit-Redeems_example =
    redeem_blind_credit-Redeems toy numerics credit "3" "usd" (credit.issuer ∷ []) []

redeem_blind_credit-respelt_example :
    ((redeem_blind_credit toy numerics credit "3" "usd" (credit.issuer ∷ []) []).0
      ≡ ok (blind_redeemed "3"))
    × ((redeem_blind_credit toy numerics
          (respelt toy numerics credit "|,")
          "3"
          "usd"
          (credit.issuer ∷ [])
          (redeem_blind_credit toy numerics credit "3" "usd" (credit.issuer ∷ []) []).1).0
        ≡ ok (blind_redeemed "3"))
unfolding decode encode contains redeem_blind_credit name_of bit_length from_bytes_onto codes
redeem_blind_credit-respelt_example =
    redeem_blind_credit-respelt toy numerics credit "|," "3" "usd" (credit.issuer ∷ []) [] payable
      refl refl
