-- ===== src/Pic/Blind.antt =====
-- packages/pic-vouchers/src/sip_pic/blind.py: credits under RSA blind signatures. The integers of a
-- key are not negative.
pub mod Integers
pub mod Hash
pub mod Rsa
pub mod Key
pub mod Credit
pub mod Redeem
use Prim.Native.String.{◌++◌ as str_append}
use sovereign_inference.Base.{
  ℕ, zero, suc, ◌+◌, ◌*◌, ◌/◌, ◌%◌, ◌^◌, ◌-◌, String, Bool, true, false, not, ◌&&◌, ◌||◌, Option,
  none, some, List, [], ◌∷◌, ◌++◌, contains, length, take, ltb, leb, eqb, ◌==◌, if◌then◌else◌, ℤ,
}
use sovereign_inference.Result.{Result, ok, raised, ◌>>=◌, value_error, zero_division_error}
use sovereign_inference.Runtime.{Runtime, Bytes}
use sovereign_inference.Protocol.Signing.{after_prefix}
use sovereign_inference.Gateway.Text.{before_sep, after_sep}
use sovereign_inference.Pic.SpentSet.{SpentSet, is_spent, spend}
use sovereign_inference.Pic.Payment.{RedeemResult}
use sovereign_inference.Pic.Blind.Integers.{from_bytes, to_bytes, bit_length, byte_count}

-- `hashlib.sha256(b).digest()`, `math.gcd`, `pow(r, -1, n)` with `none` for ValueError, `str(n)` and
-- `int(s)`, with `none` for ValueError
pub record Numerics : Type 0 where
  pub sha256 : Bytes → Bytes
  pub gcd : ℕ → ℕ → ℕ
  pub inverse : ℕ → ℕ → Option ℕ
  pub print_int : ℕ → String
  pub parse_int : String → Option ℤ

abbrev pub issuer_prefix : String
issuer_prefix = "rsa-blind:"

-- `a % n`
abbrev pub modulo : ℕ → ℕ → Result ℕ
modulo a n = if eqb n 0 then raised zero_division_error else ok (a % n)

-- `pow(b, e, n)`
abbrev pub pow_mod : ℕ → ℕ → ℕ → Result ℕ
pow_mod b e n = if eqb n 0 then raised value_error else ok (b ^ e % n)

-- `_int_to_b64u`; the number fits the bytes it is given.
unfoldable pub int_to_b64u : Runtime → ℕ → Result String
unfolding to_bytes
int_to_b64u R value = do raw ← to_bytes (byte_count value) value; ok (R.base64_encode raw)

-- `_b64u_to_int`
unfoldable pub b64u_to_int : Runtime → String → Result ℕ
b64u_to_int R text = elim (R.base64_decode text) [
  | none ↦ raised value_error
  | some raw ↦ ok (from_bytes raw)
]

pub record BlindIssuerKey : Type 0 where
  pub n : ℕ
  pub e : ℕ

-- `key_bytes`; `bit_length() - 1` is -1 for 0, whose quotient by 8 is -1, and no byte is asked for.
abbrev pub key_bytes : BlindIssuerKey → ℕ
key_bytes key = (bit_length key.n - 1) / 8

-- `pubkey_str`
unfoldable pub pubkey_str : Runtime → Numerics → BlindIssuerKey → Result String
unfolding int_to_b64u
pubkey_str R N key = do
  n ← int_to_b64u R key.n
  ok (str_append issuer_prefix (str_append n (str_append "." (N.print_int key.e))))

-- The last lines of `from_str`
unfoldable pub checked_key : ℕ → Option ℤ → Result BlindIssuerKey
checked_key n none = raised value_error
checked_key n (some (ℤ.negsuc k)) = raised value_error
checked_key n (some (ℤ.pos e)) =
    if ltb n 3 || ltb e 2 then raised value_error else ok (record { n = n; e = e })

-- `from_str`
unfoldable pub from_str : Runtime → Numerics → String → Result BlindIssuerKey
unfolding after_prefix before_sep after_sep b64u_to_int checked_key
from_str R N text = elim (after_prefix issuer_prefix text) [
  | none ↦ raised value_error
  | some rest ↦ do
    n ← b64u_to_int R (before_sep b'.' rest)
    checked_key n (N.parse_int (after_sep b'.' rest))
]

-- `BlindIssuer`
pub record BlindIssuer : Type 0 where
  pub public : BlindIssuerKey
  pub d : ℕ

-- `sign_blinded`; `pow` is not given 0 for a modulus that something is less than.
unfoldable pub sign_blinded : BlindIssuer → ℕ → Result ℕ
sign_blinded issuer blinded =
    if not (ltb 0 blinded && ltb blinded issuer.public.n)
    then raised value_error
    else pow_mod blinded issuer.d issuer.public.n

-- The loop of `_mgf1`, with a bound on its rounds
unfoldable pub mgf1_loop : Numerics → ℕ → Bytes → ℕ → ℕ → Bytes → Result Bytes
unfolding to_bytes
mgf1_loop N zero seed size counter out = ok out
mgf1_loop N (suc fuel) seed size counter out = elim (leb size (length out)) [
  | true ↦ ok out
  | false ↦ do
    c ← to_bytes 4 counter
    mgf1_loop N fuel seed size (counter + 1) (out ++ N.sha256 (seed ++ c))
]

-- `_mgf1`
unfoldable pub mgf1 : Numerics → Bytes → ℕ → Result Bytes
unfolding mgf1_loop
mgf1 N seed size = do out ← mgf1_loop N (suc size) seed size 0 []; ok (take size out)

-- `_denomination_bytes`
unfoldable pub denomination_bytes : Runtime → String → String → Result Bytes
unfolding to_bytes
denomination_bytes R amount unit = do
  a ← to_bytes 4 (length (R.encode_utf8 amount))
  u ← to_bytes 4 (length (R.encode_utf8 unit))
  ok (a ++ R.encode_utf8 amount ++ u ++ R.encode_utf8 unit)

-- `_fdh`
unfoldable pub fdh : Runtime → Numerics → Bytes → String → String → BlindIssuerKey → Result ℕ
unfolding denomination_bytes mgf1
fdh R N token amount unit key = do
  denomination ← denomination_bytes R amount unit
  digest ← mgf1 N (R.encode_utf8 "sip-blind-fdh-v2:" ++ token ++ denomination) (key_bytes key)
  modulo (from_bytes digest) key.n

-- `_random_unit` on the bytes that `rng` gives, draw by draw; `none` if more are wanted. `_fdh`, which
-- is called first, has refused a modulus of 0.
unfoldable pub random_unit : Numerics → ℕ → List Bytes → Option ℕ
random_unit N n [] = none
random_unit N n (draw ∷ draws) =
    let rest = random_unit N n draws in
    if ltb 1 (from_bytes draw % n) && eqb (N.gcd (from_bytes draw % n) n) 1
    then some (from_bytes draw % n)
    else rest

-- `blind`: the blinded message and the blinding factor
unfoldable pub blind :
    Runtime
    → Numerics
    → Bytes
    → String
    → String
    → BlindIssuerKey
    → List Bytes
    → Result (Option (ℕ × ℕ))
unfolding fdh random_unit
blind R N token amount unit key draws = do
  m ← fdh R N token amount unit key
  elim (random_unit N key.n draws) [
    | none ↦ ok none
    | some r ↦ do
      power ← pow_mod r key.e key.n
      blinded ← modulo (m * power) key.n
      ok (some (blinded, r))
  ]

-- `unblind`
unfoldable pub unblind : Numerics → ℕ → ℕ → BlindIssuerKey → Result ℕ
unblind N blinded_sig r key = elim (N.inverse r key.n) [
  | none ↦ raised value_error
  | some r_inv ↦ modulo (blinded_sig * r_inv) key.n
]

-- `verify_blind_token`
unfoldable pub verify_blind_token :
    Runtime → Numerics → Bytes → String → String → ℕ → BlindIssuerKey → Result Bool
unfolding fdh
verify_blind_token R N token amount unit sig key = do
  power ← pow_mod sig key.e key.n
  m ← fdh R N token amount unit key
  ok (eqb power m)

pub record BlindCreditRequest : Type 0 where
  pub blinded : ℕ
  pub unit : String
  pub amount : String
  pub issuer : String

pub record BlindingSecret : Type 0 where
  pub token : Bytes
  pub r : ℕ
  pub unit : String
  pub amount : String
  pub key : BlindIssuerKey

pub record BlindCredit : Type 0 where
  pub unit : String
  pub amount : String
  pub issuer : String
  pub token : String
  pub signature : String

-- `blind_credit_request`, with the token and the further bytes that `rng` gives
unfoldable pub blind_credit_request :
    Runtime
    → Numerics
    → BlindIssuerKey
    → String
    → String
    → Bytes
    → List Bytes
    → Result (Option (BlindCreditRequest × BlindingSecret))
unfolding blind pubkey_str
blind_credit_request R N key unit amount token draws = do
  drawn ← blind R N token amount unit key draws
  elim drawn [
    | none ↦ ok none
    | some (blinded, r) ↦ do
      issuer ← pubkey_str R N key
      ok (
          some (
            record { blinded = blinded; unit = unit; amount = amount; issuer = issuer },
            record { token = token; r = r; unit = unit; amount = amount; key = key },
          ))
  ]

-- `finalize_blind_credit`
unfoldable pub finalize_blind_credit : Runtime → Numerics → ℕ → BlindingSecret → Result BlindCredit
unfolding unblind pubkey_str int_to_b64u
finalize_blind_credit R N blinded_sig secret = do
  sig ← unblind N blinded_sig secret.r secret.key
  issuer ← pubkey_str R N secret.key
  signature ← int_to_b64u R sig
  ok (record {
    unit = secret.unit;
    amount = secret.amount;
    issuer = issuer;
    token = R.base64_encode secret.token;
    signature = signature;
  })

-- The parts of a credit that `verify_blind_credit` reads
unfoldable pub credit_parts : Runtime → Numerics → BlindCredit → Result (BlindIssuerKey × Bytes × ℕ)
unfolding from_str b64u_to_int
credit_parts R N credit = do
  key ← from_str R N credit.issuer
  elim (R.base64_decode credit.token) [
    | none ↦ raised value_error
    | some token ↦ do sig ← b64u_to_int R credit.signature; ok (key, token, sig)
  ]

-- `verify_blind_credit`: what `credit_parts` raises is ValueError.
unfoldable pub verify_blind_credit : Runtime → Numerics → BlindCredit → Result Bool
unfolding credit_parts verify_blind_token
verify_blind_credit R N credit = elim (credit_parts R N credit) [
  | raised e ↦ ok false
  | ok (key, token, sig) ↦ verify_blind_token R N token credit.amount credit.unit sig key
]

-- The results of `redeem_blind_credit`
abbrev pub blind_refusal : String → RedeemResult
blind_refusal reason = record { accepted = false; scheme = "blind"; total = "0"; reason = reason }

abbrev pub blind_redeemed : String → RedeemResult
blind_redeemed amount = record { accepted = true; scheme = "blind"; total = amount; reason = "" }

-- The key under which a credit is spent
abbrev pub blind_spend_key : BlindCredit → String
blind_spend_key credit =
    str_append "blind:" (str_append credit.issuer (str_append ":" credit.token))

-- `redeem_blind_credit`; what `spend` returns is not looked at.
unfoldable pub redeem_blind_credit :
    Runtime
    → Numerics
    → BlindCredit
    → String
    → String
    → List String
    → SpentSet
    → Result RedeemResult × SpentSet
unfolding verify_blind_credit is_spent spend contains
redeem_blind_credit R N credit price unit issuer_keys spent =
    if not (contains issuer_keys credit.issuer)
    then (ok (blind_refusal "unknown_issuer"), spent)
    else elim (verify_blind_credit R N credit) [
      | raised e ↦ (raised e, spent)
      | ok valid ↦
          if not valid
          then (ok (blind_refusal "bad_signature"), spent)
          else if not (credit.unit == unit) || not (credit.amount == price)
          then (ok (blind_refusal "amount_mismatch"), spent)
          else if is_spent spent (blind_spend_key credit)
          then (ok (blind_refusal "double_spend"), spent)
          else (ok (blind_redeemed credit.amount), (spend spent (blind_spend_key credit)).1)
    ]
