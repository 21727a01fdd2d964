-- ===== src/Tests/Sample.antt =====
-- A small runtime that satisfies the laws, a key, two vouchers and the terms of a request.
use Prim.Native.Char.{code}
use sovereign_inference.Base.{
  ℕ, zero, suc, ◌+◌, ◌-◌, ◌*◌, ◌/◌, String, false, Option, none, some, List, [], ◌∷◌, ◌++◌, ◌≡◌,
  ◌==◌, refl, arith, ap, ltb, eqb, length, length-append, if◌then◌else◌, ℤ,
}
use sovereign_inference.Json.{Json, object, Dict, as_string}
use sovereign_inference.Result.{Result, ok, raised, invalid_operation}
use sovereign_inference.Runtime.{
  Decimal, finite, infinite, nan, Decimals, Bytes, Runtime, SigningLaws, TimeLaws, microseconds,
}
use sovereign_inference.Protocol.Signing.{KeyPair, public_key_str}
use sovereign_inference.Protocol.Artifacts.{build_voucher, sign_voucher}
use sovereign_inference.Pic.Payment.{Terms, build_pic_payment}
use sovereign_inference.Pic.X402.{build_x402_payment}

-- Decimals that are the numbers from 0 to 9, without an exponent.
unfoldable pub digit : String → Result Decimal
digit String.[] = raised invalid_operation
digit (String.◌∷◌ c s) =
    if ltb (code c) 58 then ok (finite false (code c - 48) (ℤ.pos 0)) else raised invalid_operation

unfoldable pub coefficient : Decimal → ℕ
coefficient (finite sign n e) = n
coefficient (infinite sign) = 0
coefficient (nan signaling) = 0

abbrev pub digits : Decimals
digits = record {
  decimal = λ j. elim (as_string j) [ none ↦ raised invalid_operation | some s ↦ digit s ];
  add = λ x y. ok (finite false (coefficient x + coefficient y) (ℤ.pos 0));
  less = λ x y. ok (ltb (coefficient x) (coefficient y));
  text = λ x. if eqb (coefficient x) 5 then "5" else "sum";
}

-- A byte is written as that many ticks and a semicolon.
unfoldable pub tick : ℕ → String → String
tick zero s = String.◌∷◌ ";" s
tick (suc n) s = String.◌∷◌ "|" (tick n s)

unfoldable pub encode : Bytes → String
unfolding tick
encode [] = ""
encode (n ∷ ns) = tick n (encode ns)

unfoldable pub decode : ℕ → String → Option Bytes
decode n String.[] = if eqb n 0 then some [] else none
decode n (String.◌∷◌ c s) =
    let more = decode (suc n) s in
    let rest = decode 0 s in
    if eqb (code c) b'|' then more else elim rest [ none ↦ none | some ns ↦ some (n ∷ ns) ]

pub decode-tick :
    (m n : ℕ) (s : String)
    → decode m (tick n s) ≡ elim (decode 0 s) [ none ↦ none | some ns ↦ some ((n + m) ∷ ns) ]
unfolding decode tick
decode-tick m zero s = ground arith
decode-tick m (suc n) s = ground (arith, decode-tick (suc m) n s)

decode-encode : (b : Bytes) → decode 0 (encode b) ≡ some b
unfolding encode decode
decode-encode [] = refl
decode-encode (n ∷ ns) = ground (arith, decode-tick 0 n (encode ns), decode-encode ns)

-- A printed time is the number of its seconds, in ticks.
abbrev pub seconds : Option Bytes → Option ℕ
seconds (some (n ∷ [])) = some (n * microseconds)
seconds _ = none

-- A text is encoded as the codes of its characters.
unfoldable pub codes : String → Bytes
codes String.[] = []
codes (String.◌∷◌ c s) = code c ∷ codes s

abbrev pub toy : Runtime
toy = record {
  decimals = digits;
  text_of = λ j. elim (as_string j) [ none ↦ "?" | some s ↦ s ];
  equals = λ i j. elim (as_string i) [
    | none ↦ false
    | some s ↦ elim (as_string j) [ none ↦ false | some t ↦ s == t ]
  ];
  parse_time = λ s. seconds (decode 0 s);
  print_time = λ t. tick (t / microseconds) "";
  dumps_raises = λ d. false;
  dumps = λ d. [];
  encode_utf8 = codes;
  sha256_hex = λ b. "0";
  base64_encode = encode;
  base64_decode = decode 0;
  public_of = λ k. k;
  sign_raw = λ k m. k ++ k;
  verify_raw = λ p m s. eqb (length s) (length p + length p);
  iter_errors = λ name d. [];
}

pub toy_laws : SigningLaws toy
toy_laws = record {
  decode-encode = decode-encode;
  length-public_of = λ k h. h;
  length-sign_raw = λ k m h. rw length-append (omega arith);
  verify-sign = λ k m h. rw length-append (ground arith);
}

pub toy_times : TimeLaws toy
unfolding decode
toy_times = record {
  parse-print = λ t. rw (decode-tick 0 (t / microseconds) "") (ap some (omega arith));
}

abbrev pub key : ℕ → ℕ → Bytes
key byte zero = []
key byte (suc n) = byte ∷ key byte n

abbrev pub issuer : KeyPair
issuer = record { private_key = key 0 32 }

abbrev pub provider : KeyPair
provider = record { private_key = key 1 32 }

abbrev pub voucher : String → String → Dict
voucher name denomination =
    sign_voucher toy
      (build_voucher toy name denomination "usd" (public_key_str toy issuer) microseconds
        (9 * microseconds) none)
      issuer

abbrev pub batch : List Json
batch = object (voucher "v1" "2") ∷ object (voucher "v2" "3") ∷ []

abbrev pub pic_payment : Dict
pic_payment = build_pic_payment batch

abbrev pub x402_payment : Dict
x402_payment =
    build_x402_payment toy issuer "4" "usd" microseconds "n1" none
      (some (public_key_str toy provider)) (some "r1")

abbrev pub terms_of : String → Terms
terms_of price = record {
  price = price;
  unit = "usd";
  issuer_pubkeys = public_key_str toy issuer ∷ [];
  now = 5;
  provider_pubkey = some (public_key_str toy provider);
  request_id = some "r1";
}
