-- ===== src/Pic/X402.antt =====
-- packages/pic-vouchers/src/sip_pic/x402.py: a payment signed by the payer.
use sovereign_inference.Base.{
  ℕ, ◌+◌, ◌*◌, String, Bool, false, not, ◌&&◌, Option, none, some, [], ◌∷◌, leb, ◌==◌,
  if◌then◌else◌,
}
use sovereign_inference.Json.{
  Json, string, object, Dict, entry, empty, get, dict_of, set_some, as_string, as_dict, is_text,
}
use sovereign_inference.Result.{Result, ok, raised, ◌>>=◌, invalid_operation, type_error}
use sovereign_inference.Runtime.{Runtime, Moment, microseconds}
use sovereign_inference.Protocol.Signing.{KeyPair, public_key_str}
use sovereign_inference.Protocol.Documents.{signed_document, is_signed}

abbrev some_text : Option String → Option Json
some_text none = none
some_text (some s) = some (string s)

-- `nonce or secrets.token_urlsafe(16)`, where `fresh` is what `token_urlsafe` draws
abbrev chosen_nonce : String → Option String → String
chosen_nonce fresh none = fresh
chosen_nonce fresh (some nonce) = if nonce == "" then fresh else nonce

unfoldable pub build_x402_payment :
    Runtime
    → KeyPair
    → String
    → String
    → Moment
    → String
    → Option String
    → Option String
    → Option String
    → Dict
unfolding dict_of set_some
build_x402_payment R payer amount unit now fresh nonce provider_pubkey request_id =
    let inner = dict_of (
      ("payer_pubkey", string (public_key_str R payer))
      ∷ ("amount", string amount)
      ∷ ("unit", string unit)
      ∷ ("nonce", string (chosen_nonce fresh nonce))
      ∷ ("issued_at", string (R.print_time now))
      ∷ []) in
    let bound =
      set_some (set_some inner "provider_pubkey" (some_text provider_pubkey)) "request_id"
        (some_text request_id) in
    entry "scheme" (string "x402") (entry "payment" (object (signed_document R bound payer)) empty)

-- A string that is not empty
abbrev pub nonempty_text : Json → Option String
nonempty_text (string s) = if s == "" then none else some s
nonempty_text _ = none

unfoldable pub x402_nonce : Dict → Option String
x402_nonce payment = elim (as_dict (get payment "payment")) [
  | none ↦ none
  | some inner ↦ nonempty_text (get inner "nonce")
]

-- `expected is not None and inner.get(field) != expected`
unfoldable pub misbound : Dict → String → Option String → Bool
misbound inner field none = false
misbound inner field (some expected) = not (is_text (get inner field) expected)

-- `except (InvalidOperation, TypeError): return False`
unfoldable pub false_on_bad_number : Result Bool → Result Bool
false_on_bad_number (ok b) = ok b
false_on_bad_number (raised invalid_operation) = ok false
false_on_bad_number (raised type_error) = ok false
false_on_bad_number (raised e) = raised e

-- `Decimal(str(inner.get("amount"))) < Decimal(price)` is false
unfoldable pub amount_covers : Runtime → Dict → String → Result Bool
amount_covers R inner price = do
  amount ← R.decimals.decimal (string (R.text_of (get inner "amount")))
  due ← R.decimals.decimal (string price)
  low ← R.decimals.less amount due
  ok (not low)

unfoldable pub is_fresh : Runtime → Dict → Moment → ℕ → Bool
is_fresh R inner now max_age_seconds = elim (as_string (get inner "issued_at")) [
  | none ↦ false
  | some raw ↦ elim (R.parse_time raw) [
    | none ↦ false
    | some issued ↦ leb now (issued + max_age_seconds * microseconds)
  ]
]

unfoldable pub verify_inner :
    Runtime → Dict → String → String → Moment → ℕ → Option String → Option String → Result Bool
unfolding misbound false_on_bad_number amount_covers is_fresh
verify_inner R inner price unit now max_age provider_pubkey request_id =
    if not (is_text (get inner "unit") unit)
    then ok false
    else elim (nonempty_text (get inner "nonce")) [
      | none ↦ ok false
      | some _ ↦
          if misbound inner "provider_pubkey" provider_pubkey
          then ok false
          else if misbound inner "request_id" request_id
          then ok false
          else (do
            covers ← false_on_bad_number (amount_covers R inner price)
            ok (covers && is_signed R inner "payer_pubkey" && is_fresh R inner now max_age))
    ]

unfoldable pub verify_x402_payment :
    Runtime → Dict → String → String → Moment → ℕ → Option String → Option String → Result Bool
unfolding verify_inner
verify_x402_payment R payment price unit now max_age provider_pubkey request_id =
    if not (is_text (get payment "scheme") "x402")
    then ok false
    else elim (as_dict (get payment "payment")) [
      | none ↦ ok false
      | some inner ↦ verify_inner R inner price unit now max_age provider_pubkey request_id
    ]
