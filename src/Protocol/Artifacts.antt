-- ===== src/Protocol/Artifacts.antt =====
-- packages/sip-protocol/src/sip_protocol: quotes.py, vouchers.py and receipts.py. The three signed
-- artifacts are built, signed, verified and dated by the same rules. Signing and verifying are modelled
-- for documents that `canonical_json` takes; on others they raise.
pub mod Issue
use Prim.Native.String.{◌++◌ as str_append}
use sovereign_inference.Base.{
  ℕ, String, Bool, true, false, ◌&&◌, Option, none, some, List, [], ◌∷◌, ◌++◌, leb, is_empty,
  if◌then◌else◌, ◌==◌, ℤ,
}
use sovereign_inference.Json.{
  Json, int, string, object, Dict, array, get, dict_of, set_some, as_string, entry, empty, array_of,
}
use sovereign_inference.Result.{Result, ok, ◌>>=◌}
use sovereign_inference.Runtime.{Runtime, Moment, Bytes}
use sovereign_inference.Protocol.Signing.{KeyPair}
use sovereign_inference.Protocol.Documents.{canonical_json, signed_document, is_signed}

-- `QuoteVerification`, `VoucherVerification` and `VerificationResult`
pub record Verification : Type 0 where
  pub valid : Bool
  pub schema_ok : Bool
  pub signature_ok : Bool
  pub errors : List String

verify_artifact : Runtime → String → String → String → Dict → Verification
verify_artifact R schema pubkey_field complaint document =
    let errors = R.iter_errors schema document in
    let signature_ok = is_signed R document pubkey_field in
    record {
      valid = is_empty errors && signature_ok;
      schema_ok = is_empty errors;
      signature_ok = signature_ok;
      errors = if signature_ok then errors else errors ++ complaint ∷ [];
    }

-- The body of `quote_is_expired` and `voucher_is_expired`: at or past `expires_at`, or malformed.
is_expired : Runtime → Dict → Moment → Bool
is_expired R document now = elim (as_string (get document "expires_at")) [
  | none ↦ true
  | some raw ↦ elim (R.parse_time raw) [ none ↦ true | some expires ↦ leb expires now ]
]

-- quotes.py

pub record QuoteFields : Type 0 where
  pub request_id : String
  pub provider_pubkey : String
  pub model_alias : String
  pub price_units : String
  pub input_per_1m : String
  pub output_per_1m : String
  pub max_output_tokens : ℤ
  pub max_price : String
  pub issued_at : Moment
  pub expires_at : Moment
  pub privacy_mode : Option String

unfoldable pub build_quote : Runtime → QuoteFields → Dict
unfolding dict_of set_some
build_quote R q =
    let quote = dict_of (
      ("quote_version", string "sip-ai.quote.v1")
      ∷ ("request_id", string q.request_id)
      ∷ ("provider_pubkey", string q.provider_pubkey)
      ∷ ("model_alias", string q.model_alias)
      ∷ ("price_units", string q.price_units)
      ∷ ("input_per_1m", string q.input_per_1m)
      ∷ ("output_per_1m", string q.output_per_1m)
      ∷ ("max_output_tokens", int q.max_output_tokens)
      ∷ ("max_price", string q.max_price)
      ∷ ("issued_at", string (R.print_time q.issued_at))
      ∷ ("expires_at", string (R.print_time q.expires_at))
      ∷ []) in
    set_some quote "privacy_mode" (elim q.privacy_mode [ none ↦ none | some m ↦ some (string m) ])

unfoldable pub sign_quote : Runtime → Dict → KeyPair → Dict
sign_quote R quote kp = signed_document R quote kp

unfoldable pub verify_quote : Runtime → Dict → Verification
unfolding verify_artifact
verify_quote R quote =
    verify_artifact R "quote" "provider_pubkey" "signature: invalid or missing provider signature"
      quote

unfoldable pub quote_is_expired : Runtime → Dict → Moment → Bool
unfolding is_expired
quote_is_expired R quote now = is_expired R quote now

-- vouchers.py

-- `voucher_id or new_voucher_id()`, where `fresh` is what `new_voucher_id` draws
abbrev chosen_id : String → Option String → String
chosen_id fresh none = fresh
chosen_id fresh (some voucher_id) = if voucher_id == "" then fresh else voucher_id

unfoldable pub build_voucher :
    Runtime → String → String → String → String → Moment → Moment → Option String → Dict
unfolding dict_of
build_voucher R fresh denomination unit issuer_pubkey issued_at expires_at voucher_id = dict_of (
    ("voucher_version", string "sip-ai.voucher.v1")
    ∷ ("voucher_id", string (chosen_id fresh voucher_id))
    ∷ ("denomination", string denomination)
    ∷ ("unit", string unit)
    ∷ ("issuer_pubkey", string issuer_pubkey)
    ∷ ("issued_at", string (R.print_time issued_at))
    ∷ ("expires_at", string (R.print_time expires_at))
    ∷ [])

unfoldable pub sign_voucher : Runtime → Dict → KeyPair → Dict
sign_voucher R voucher kp = signed_document R voucher kp

unfoldable pub verify_voucher : Runtime → Dict → Verification
unfolding verify_artifact
verify_voucher R voucher =
    verify_artifact R "voucher" "issuer_pubkey" "signature: invalid or missing issuer signature"
      voucher

unfoldable pub voucher_is_expired : Runtime → Dict → Moment → Bool
unfolding is_expired
voucher_is_expired R voucher now = is_expired R voucher now

-- receipts.py

pub record ReceiptFields : Type 0 where
  pub request_id : String
  pub provider_pubkey : String
  pub model_manifest_hash : String
  pub model_alias : String
  pub runtime : String
  pub input_tokens : ℤ
  pub output_tokens : ℤ
  pub price_units : String
  pub price_amount : String
  pub privacy_mode : String
  pub started_at : Moment
  pub completed_at : Moment
  pub response_hash : String
  pub runtime_version : Option String
  pub request_hash : Option String

abbrev some_text : Option String → Option Json
some_text none = none
some_text (some s) = some (string s)

unfoldable pub build_receipt : Runtime → ReceiptFields → Dict
unfolding dict_of set_some
build_receipt R r =
    let receipt = dict_of (
      ("receipt_version", string "sip-ai.receipt.v1")
      ∷ ("request_id", string r.request_id)
      ∷ ("provider_pubkey", string r.provider_pubkey)
      ∷ ("model_manifest_hash", string r.model_manifest_hash)
      ∷ ("model_alias", string r.model_alias)
      ∷ ("runtime", string r.runtime)
      ∷ ("input_tokens", int r.input_tokens)
      ∷ ("output_tokens", int r.output_tokens)
      ∷ ("price_units", string r.price_units)
      ∷ ("price_amount", string r.price_amount)
      ∷ ("privacy_mode", string r.privacy_mode)
      ∷ ("started_at", string (R.print_time r.started_at))
      ∷ ("completed_at", string (R.print_time r.completed_at))
      ∷ ("response_hash", string r.response_hash)
      ∷ []) in
    set_some (set_some receipt "runtime_version" (some_text r.runtime_version)) "request_hash"
      (some_text r.request_hash)

unfoldable pub sign_receipt : Runtime → Dict → KeyPair → Dict
sign_receipt R receipt kp = signed_document R receipt kp

unfoldable pub verify_receipt : Runtime → Dict → Verification
unfolding verify_artifact
verify_receipt R receipt =
    verify_artifact R "receipt" "provider_pubkey" "signature: invalid or missing provider signature"
      receipt

-- hashing.py: `sha256_prefixed`, `hash_response_body` and `hash_request`

unfoldable pub sha256_prefixed : Runtime → Bytes → String
sha256_prefixed R body = str_append "sha256:" (R.sha256_hex body)

unfoldable pub hash_response_body : Runtime → String → String
unfolding sha256_prefixed
hash_response_body R body = sha256_prefixed R (R.encode_utf8 body)

unfoldable pub hash_request : Runtime → String → List Json → Result String
unfolding sha256_prefixed
hash_request R model messages = do
  body ←
      canonical_json R
        (entry "model" (string model) (entry "messages" (array (array_of messages)) empty))
  ok (sha256_prefixed R body)
