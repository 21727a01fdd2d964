-- ===== src/Protocol/Signing.antt =====
-- packages/sip-protocol/src/sip_protocol/signing.py: Ed25519 keys and signatures as strings.
use Prim.Native.Char.{code}
use Prim.Native.String.{◌++◌}
use text.Mathlib.TextLemmas.{nil-append, cons-append}
use sovereign_inference.Base.{
  ℕ, String, Bool, true, false, Option, none, some, ◌≡◌, eqb, if◌then◌else◌, length, arith,
}
use sovereign_inference.Result.{Result, ok, raised, ◌>>=◌, key_encoding_error}
use sovereign_inference.Runtime.{Bytes, Runtime, SigningLaws}

-- `ED25519_PREFIX`
abbrev pub ed25519_prefix : String
ed25519_prefix = "ed25519:"

-- `encoded[len(prefix):]` if `encoded.startswith(prefix)`, by characters
unfoldable pub after_prefix : String → String → Option String
after_prefix String.[] s = some s
after_prefix (String.◌∷◌ c p) String.[] = none
after_prefix (String.◌∷◌ c p) (String.◌∷◌ d s) =
    if eqb (code c) (code d) then after_prefix p s else none

pub after_prefix-append : (p s : String) → after_prefix p (p ++ s) ≡ some s
unfolding after_prefix
after_prefix-append String.[] s = rw nil-append
after_prefix-append (String.◌∷◌ c p) s = rw cons-append (ground (arith, after_prefix-append p s))

-- `decode_public_key` and `decode_signature`: the two differ in the length they ask for.
decode_key : Runtime → ℕ → String → Result Bytes
decode_key R size encoded = elim (after_prefix ed25519_prefix encoded) [
  | none ↦ raised key_encoding_error
  | some payload ↦ elim (R.base64_decode payload) [
    | none ↦ raised key_encoding_error
    | some raw ↦ if eqb (length raw) size then ok raw else raised key_encoding_error
  ]
]

-- `encode_public_key` and `encode_signature`
encode_key : Runtime → Bytes → String
encode_key R raw = ed25519_prefix ++ R.base64_encode raw

-- `KeyPair`, by its raw private key
pub record KeyPair : Type 0 where
  pub private_key : Bytes

unfoldable pub public_key_str : Runtime → KeyPair → String
unfolding encode_key
public_key_str R kp = encode_key R (R.public_of kp.private_key)

unfoldable pub private_key_str : Runtime → KeyPair → String
unfolding encode_key
private_key_str R kp = encode_key R kp.private_key

unfoldable pub from_private_str : Runtime → String → Result KeyPair
unfolding decode_key
from_private_str R encoded = do raw ← decode_key R 32 encoded; ok (record { private_key = raw })

unfoldable pub sign : Runtime → KeyPair → Bytes → String
unfolding encode_key
sign R kp message = encode_key R (R.sign_raw kp.private_key message)

unfoldable pub verify : Runtime → String → Bytes → String → Bool
unfolding decode_key
verify R public_key message signature = elim (decode_key R 32 public_key) [
  | raised _ ↦ false
  | ok pub_raw ↦ elim (decode_key R 64 signature) [
    | raised _ ↦ false
    | ok raw_sig ↦ R.verify_raw pub_raw message raw_sig
  ]
]

module _ (R : Runtime) (laws : SigningLaws R) where
  decode-encode_key :
      (size : ℕ) (raw : Bytes) → length raw ≡ size → decode_key R size (encode_key R raw) ≡ ok raw
  unfolding decode_key encode_key
  decode-encode_key size raw h =
      rw (decode_key, after_prefix-append ed25519_prefix (R.base64_encode raw))
        (rw (laws.decode-encode raw) (ground arith))

  -- A signature made with a key pair verifies under its printed public key.
  pub verify-sign :
      (kp : KeyPair) (message : Bytes)
      → length kp.private_key ≡ 32
      → verify R (public_key_str R kp) message (sign R kp message) ≡ true
  unfolding verify public_key_str sign
  verify-sign kp message h =
      rw
        (
          verify,
          decode-encode_key 32 (R.public_of kp.private_key)
              (laws.length-public_of kp.private_key h),
          decode-encode_key 64 (R.sign_raw kp.private_key message)
              (laws.length-sign_raw kp.private_key message h),
        )
        (laws.verify-sign kp.private_key message h)

  -- A key pair of 32 bytes reads back from its printed form.
  pub from_private_str-private_key_str :
      (kp : KeyPair)
      → length kp.private_key ≡ 32
      → from_private_str R (private_key_str R kp) ≡ ok kp
  unfolding from_private_str private_key_str
  from_private_str-private_key_str kp h = rw (decode-encode_key 32 kp.private_key h)
