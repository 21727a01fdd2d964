-- ===== src/Runtime.antt =====
-- What the program calls and does not implement: Python's `decimal`, `datetime`, `json`, `base64`
-- and `hashlib`, and the packages `cryptography` (Ed25519) and `jsonschema`. Each is a field of a
-- record that the definitions take as a parameter; what a proof needs of it is a named law.
use sovereign_inference.Base.{ℕ, String, Bool, true, false, Option, some, List, not, ◌≡◌, ◌%◌, ◌-◌}
use sovereign_inference.Base.{ℤ, length}
use sovereign_inference.Result.{Result, ok, ◌>>=◌}
use sovereign_inference.Json.{Json, Dict}

-- `Decimal.as_tuple()`: sign, coefficient and exponent, or a special value.
pub data Decimal : Type 0 where
  finite : (negative : Bool) (coefficient : ℕ) (exponent : ℤ) → Decimal
  infinite : (negative : Bool) → Decimal
  nan : (signaling : Bool) → Decimal

-- `Decimal(v)`, `a + b`, `a < b`, `str(a)`. Each may raise InvalidOperation; `Decimal(v)` raises
-- TypeError or ValueError on values of other types.
pub record Decimals : Type 0 where
  pub decimal : Json → Result Decimal
  pub add : Decimal → Decimal → Result Decimal
  pub less : Decimal → Decimal → Result Bool
  pub text : Decimal → String

-- `Decimal("0")`
abbrev pub decimal_zero : Decimal
decimal_zero = finite false 0 (ℤ.pos 0)

-- `a >= b` and `a <= b` of `Decimal` are false or raise exactly when `a < b` and `b < a` are true
-- or raise.
abbrev pub at_least : Decimals → Decimal → Decimal → Result Bool
at_least D a b = do low ← D.less a b; ok (not low)

abbrev pub Bytes : Type 0
Bytes = List ℕ

-- A moment is its number of microseconds in UTC since the first moment that `datetime` has.
abbrev pub Moment : Type 0
Moment = ℕ

abbrev pub microseconds : ℕ
microseconds = 1_000_000

pub record Runtime : Type 0 where
  pub decimals : Decimals
  -- `str(v)` and `v == w` on JSON values
  pub text_of : Json → String
  pub equals : Json → Json → Bool
  -- `datetime.fromisoformat(s.replace("Z", "+00:00")).astimezone(UTC)`; `none` is ValueError
  pub parse_time : String → Option Moment
  -- `moment.strftime("%Y-%m-%dT%H:%M:%SZ")`
  pub print_time : Moment → String
  -- `canonical_json(d)`, that is json.dumps with sorted keys and `allow_nan=False`, in UTF-8: whether
  -- it raises, as for a float that is not finite or a lone surrogate, and what it returns if not
  pub dumps_raises : Json → Bool
  pub dumps : Dict → Bytes
  pub encode_utf8 : String → Bytes
  -- `hashlib.sha256(b).hexdigest()`
  pub sha256_hex : Bytes → String
  -- `base64.urlsafe_b64encode(b).decode("ascii").rstrip("=")` and its inverse, which pads again
  pub base64_encode : Bytes → String
  pub base64_decode : String → Option Bytes
  -- Ed25519 over raw keys: the public key of a private key, signing, and verification
  pub public_of : Bytes → Bytes
  pub sign_raw : Bytes → Bytes → Bytes
  pub verify_raw : Bytes → Bytes → Bytes → Bool
  -- `iter_errors(name, document)`: what the bundled schema finds wrong with the document
  pub iter_errors : String → Dict → List String

-- Decoding inverts encoding, keys and signatures have their lengths, and a signature made with a
-- private key verifies under its public key.
pub record SigningLaws (R : Runtime) : Type 0 where
  pub decode-encode : (b : Bytes) → R.base64_decode (R.base64_encode b) ≡ some b
  pub length-public_of : (k : Bytes) → length k ≡ 32 → length (R.public_of k) ≡ 32
  pub length-sign_raw : (k m : Bytes) → length k ≡ 32 → length (R.sign_raw k m) ≡ 64
  pub verify-sign :
      (k m : Bytes) → length k ≡ 32 → R.verify_raw (R.public_of k) m (R.sign_raw k m) ≡ true

-- A printed time reads back as the moment with its fraction of a second cut off.
pub record TimeLaws (R : Runtime) : Type 0 where
  pub parse-print : (t : Moment) → R.parse_time (R.print_time t) ≡ some (t - t % microseconds)
