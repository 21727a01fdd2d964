-- ===== src/Pic/Payment/Completeness.antt =====
-- A voucher that an issuer of the terms has made is one that the redemption validates.
use sovereign_inference.Base.{
  ◌-◌, ◌%◌, ◌<◌, String, true, false, Option, none, length, contains, ◌≡◌, ◌≢◌, arith, eq_iff, ◌∙◌,
  is_empty,
}
use sovereign_inference.Json.{Dict, get, get_or, dict_of, is_text, in_texts}
use sovereign_inference.Json.Laws.{in_texts-string}
use sovereign_inference.Runtime.{Moment, microseconds, Runtime, SigningLaws, TimeLaws}
use sovereign_inference.Protocol.Signing.{KeyPair, public_key_str}
use sovereign_inference.Protocol.Documents.{signature_field}
use sovereign_inference.Protocol.Artifacts.{build_voucher, verify_voucher, voucher_is_expired}
use sovereign_inference.Protocol.Artifacts.Issue.{
  issued, voucher_field, verify_voucher-issued, voucher_is_expired-issued,
}
use sovereign_inference.Pic.Payment.{Terms, validate_voucher}

validate_voucher-none :
    (R : Runtime) (voucher : Dict) (t : Terms)
    → (verify_voucher R voucher).valid ≡ true
    → is_text (get voucher "unit") t.unit ≡ true
    → in_texts (get voucher "issuer_pubkey") t.issuer_pubkeys ≡ true
    → voucher_is_expired R voucher t.now ≡ false
    → validate_voucher R voucher t ≡ none
unfolding validate_voucher
validate_voucher-none R voucher t v u i x = ground arith

module _ (R : Runtime) (laws : SigningLaws R) (kp : KeyPair) (size : length kp.private_key ≡ 32)
    (times : TimeLaws R) (fresh denomination : String) (issued_at expires_at : Moment)
    (voucher_id : Option String) (t : Terms) where
  -- A voucher that is built in the unit of the terms, signed by one of their issuers and valid
  -- under the schema is validated as long as its second of expiry has not begun.
  pub validate_voucher-issued :
      is_empty (
          R.iter_errors "voucher"
            (issued R kp fresh denomination t.unit issued_at expires_at voucher_id))
        ≡ true
      → contains t.issuer_pubkeys (public_key_str R kp) ≡ true
      → t.now < expires_at - expires_at % microseconds
      → validate_voucher R (issued R kp fresh denomination t.unit issued_at expires_at voucher_id) t
        ≡ none
  unfolding build_voucher dict_of get_or
  validate_voucher-issued schema trusted later =
      validate_voucher-none R
        (issued R kp fresh denomination t.unit issued_at expires_at voucher_id) t
        (verify_voucher-issued R laws kp size times fresh denomination t.unit issued_at expires_at
            voucher_id
          ∙ schema)
        (rw (field "unit" (λ e. cc)) (ground (arith, eq_iff t.unit t.unit)))
        (rw (field "issuer_pubkey" (λ e. cc))
          (in_texts-string (public_key_str R kp) t.issuer_pubkeys ∙ trusted))
        (voucher_is_expired-issued R laws kp size times fresh denomination t.unit issued_at
            expires_at voucher_id t.now
          ∙ ground arith)
    where
      field :
          (k : String)
          → k ≢ signature_field
          → get (issued R kp fresh denomination t.unit issued_at expires_at voucher_id) k
            ≡ get
                (build_voucher R fresh denomination t.unit
                  (public_key_str R kp)
                  issued_at
                  expires_at
                  voucher_id)
                k
      field k h =
          voucher_field R fresh denomination t.unit (public_key_str R kp) issued_at expires_at
            voucher_id kp k h
