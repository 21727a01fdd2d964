-- ===== src/Pic/Blind/Key.antt =====
-- The printed form of an issuer's key, and what blind credits need of the libraries.
use Prim.Native.Char.{code}
use Prim.Native.String.{◌++◌ as str_append}
use text.Mathlib.TextLemmas.{append-nil, nil-append, cons-append}
use sovereign_inference.Base.{
  ℕ, ◌*◌, ◌%◌, ◌^◌, ◌≤◌, ◌<◌, String, Bool, false, ◌||◌, some, eqb, ℤ, ◌≡◌, refl, ap, ◌∙◌, arith,
}
use sovereign_inference.Result.{ok}
use sovereign_inference.Runtime.{Runtime, Bytes, SigningLaws}
use sovereign_inference.Protocol.Signing.{after_prefix-append}
use sovereign_inference.Gateway.Text.{before_sep, after_sep}
use sovereign_inference.Pic.Blind.Integers.{
  low_bytes, from_bytes-low_bytes, to_bytes-low_bytes, byte_count, byte_count-bound,
}
use sovereign_inference.Pic.Blind.{
  Numerics, issuer_prefix, int_to_b64u, b64u_to_int, BlindIssuerKey, pubkey_str, checked_key,
  from_str, BlindIssuer,
}

-- `c in s` for a character
unfoldable pub has_char : ℕ → String → Bool
has_char c String.[] = false
has_char c (String.◌∷◌ d s) = eqb (code d) c || has_char c s

partition-append :
    (sep : ℕ) (s t : String)
    → has_char sep s ≡ false
    → (before_sep sep (str_append s t) ≡ str_append s (before_sep sep t))
      × (after_sep sep (str_append s t) ≡ after_sep sep t)
unfolding before_sep after_sep has_char
partition-append sep String.[] t h = rw (nil-append t, nil-append (before_sep sep t)) (refl, refl)
partition-append sep (String.◌∷◌ c s) t h =
    let other : eqb (code c) sep ≡ false = ground arith in
    let (before, after) = partition-append sep s t (ground arith) in
    rw (cons-append c s t, cons-append c s (before_sep sep t))
      (rw (before_sep, after_sep, other, before, after) (refl, refl))

dot_first :
    (s : String)
    → (before_sep b'.' (str_append "." s) ≡ "") × (after_sep b'.' (str_append "." s) ≡ s)
unfolding before_sep after_sep
dot_first s = rw (cons-append, nil-append) (refl, refl)

-- The two parts of a text with a dot
partition_dot :
    (s t : String)
    → has_char b'.' s ≡ false
    → (before_sep b'.' (str_append s (str_append "." t)) ≡ s)
      × (after_sep b'.' (str_append s (str_append "." t)) ≡ t)
partition_dot s t h =
    let (before, after) = partition-append b'.' s (str_append "." t) h in
    (before ∙ ap (str_append s) (dot_first t).0 ∙ append-nil s, after ∙ (dot_first t).1)

-- What blind credits need of the libraries: the digits of base64 have no dot, an integer reads back
-- as it was printed, and a number without a common factor with n has an inverse modulo n.
pub record BlindLaws (R : Runtime) (N : Numerics) : Type 0 where
  pub signing : SigningLaws R
  pub dotless : (b : Bytes) → has_char b'.' (R.base64_encode b) ≡ false
  pub parse-print : (n : ℕ) → N.parse_int (N.print_int n) ≡ some (ℤ.pos n)
  pub inverse :
      (r n : ℕ) → 0 < n → N.gcd r n ≡ 1 → (s : ℕ) × (N.inverse r n ≡ some s) × (r * s % n ≡ 1 % n)

-- An RSA key: raising to d and then to e gives every number back.
pub record RsaKey (issuer : BlindIssuer) : Type 0 where
  pub modulus : 3 ≤ issuer.public.n
  pub exponent : 2 ≤ issuer.public.e
  pub inverse : (x : ℕ) → (x ^ issuer.d) ^ issuer.public.e % issuer.public.n ≡ x % issuer.public.n

-- How a number and a key are printed
unfoldable pub text_of_int : Runtime → ℕ → String
text_of_int R v = R.base64_encode (low_bytes (byte_count v) v)

unfoldable pub name_of : Runtime → Numerics → BlindIssuerKey → String
unfolding text_of_int
name_of R N key =
    str_append issuer_prefix (str_append (text_of_int R key.n) (str_append "." (N.print_int key.e)))

module _ (R : Runtime) (N : Numerics) (laws : BlindLaws R N) where
  pub int_to_b64u-ok : (v : ℕ) → int_to_b64u R v ≡ ok (text_of_int R v)
  unfolding int_to_b64u text_of_int
  int_to_b64u-ok v = rw (int_to_b64u, to_bytes-low_bytes (byte_count v) v (byte_count-bound v)) refl

  pub b64u_to_int-text_of_int : (v : ℕ) → b64u_to_int R (text_of_int R v) ≡ ok v
  unfolding b64u_to_int text_of_int
  b64u_to_int-text_of_int v =
      rw (b64u_to_int, laws.signing.decode-encode (low_bytes (byte_count v) v))
        (ap ok (from_bytes-low_bytes (byte_count v) v (byte_count-bound v)))

  pub pubkey_str-ok : (key : BlindIssuerKey) → pubkey_str R N key ≡ ok (name_of R N key)
  unfolding pubkey_str name_of
  pubkey_str-ok key = rw (pubkey_str, int_to_b64u-ok key.n) refl

  pub from_str-name_of :
      (key : BlindIssuerKey) → 3 ≤ key.n → 2 ≤ key.e → from_str R N (name_of R N key) ≡ ok key
  unfolding from_str name_of before_sep after_sep checked_key text_of_int
  from_str-name_of key h k =
      let (before, after) =
        partition_dot (text_of_int R key.n) (N.print_int key.e)
          (laws.dotless (low_bytes (byte_count key.n) key.n)) in
      rw
        (
          from_str,
          after_prefix-append issuer_prefix
              (str_append (text_of_int R key.n) (str_append "." (N.print_int key.e))),
        )
        (rw (before, after, b64u_to_int-text_of_int key.n, laws.parse-print key.e) (ground arith))
