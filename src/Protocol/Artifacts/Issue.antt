-- ===== src/Protocol/Artifacts/Issue.antt =====
-- Artifacts that are issued the way the repository issues them are accepted by its verifiers.
use sovereign_inference.Base.{
  ◌-◌, ◌%◌, String, Option, some, is_empty, length, leb, ◌≡◌, ◌≢◌, ◌∙◌, refl, arith, ap, inl, inr,
  Option-cases,
}
use sovereign_inference.Json.{string, Dict, get, get_or, dict_of, set, set_some}
use sovereign_inference.Runtime.{Moment, microseconds, Runtime, SigningLaws, TimeLaws}
use sovereign_inference.Protocol.Signing.{KeyPair, public_key_str}
use sovereign_inference.Protocol.Documents.{
  signature_field, get-signed_document, is_signed-signed_document,
}
use sovereign_inference.Protocol.Artifacts.{
  QuoteFields, build_quote, sign_quote, verify_quote, build_voucher, sign_voucher, verify_voucher,
  voucher_is_expired, ReceiptFields, build_receipt, sign_receipt, verify_receipt,
}

-- A voucher that is built and signed by its issuer
abbrev pub issued :
    Runtime → KeyPair → String → String → String → Moment → Moment → Option String → Dict
issued R kp fresh denomination unit issued_at expires_at voucher_id =
    sign_voucher R
      (build_voucher R fresh denomination unit (public_key_str R kp) issued_at expires_at
        voucher_id)
      kp

quote_signer :
    (R : Runtime) (q : QuoteFields)
    → get (build_quote R q) "provider_pubkey" ≡ string q.provider_pubkey
unfolding build_quote dict_of set_some set get_or
quote_signer R q = elim (Option-cases q.privacy_mode) [ inl n ↦ rw n refl | inr (m, e) ↦ rw e refl ]

receipt_signer :
    (R : Runtime) (r : ReceiptFields)
    → get (build_receipt R r) "provider_pubkey" ≡ string r.provider_pubkey
unfolding build_receipt dict_of set_some set get_or
receipt_signer R r = elim (Option-cases r.runtime_version) [
  | inl n ↦ elim (Option-cases r.request_hash) [
    | inl m ↦ rw (n, m) refl
    | inr (h, m) ↦ rw (n, m) refl
  ]
  | inr (v, n) ↦ elim (Option-cases r.request_hash) [
    | inl m ↦ rw (n, m) refl
    | inr (h, m) ↦ rw (n, m) refl
  ]
]

pub voucher_field :
    (R : Runtime) (fresh denomination unit issuer : String) (issued_at expires_at : Moment)
    (voucher_id : Option String) (kp : KeyPair) (k : String)
    → k ≢ signature_field
    → get
        (sign_voucher R
          (build_voucher R fresh denomination unit issuer issued_at expires_at voucher_id)
          kp)
        k
      ≡ get (build_voucher R fresh denomination unit issuer issued_at expires_at voucher_id) k
unfolding sign_voucher
voucher_field R fresh denomination unit issuer issued_at expires_at voucher_id kp k h =
    get-signed_document R _ kp k h

voucher_is_expired-parsed :
    (R : Runtime) (voucher : Dict) (raw : String) (expires now : Moment)
    → get voucher "expires_at" ≡ string raw
    → R.parse_time raw ≡ some expires
    → voucher_is_expired R voucher now ≡ leb expires now
unfolding voucher_is_expired
voucher_is_expired-parsed R voucher raw expires now named parsed = ground arith

module _ (R : Runtime) (laws : SigningLaws R) (kp : KeyPair)
    (size : length kp.private_key ≡ 32) where
  -- A quote that names its signer is valid exactly if the schema finds nothing wrong with it.
  pub verify_quote-sign_quote :
      (q : QuoteFields)
      → q.provider_pubkey ≡ public_key_str R kp
      → (verify_quote R (sign_quote R (build_quote R q) kp)).valid
        ≡ is_empty (R.iter_errors "quote" (sign_quote R (build_quote R q) kp))
  unfolding verify_quote sign_quote
  verify_quote-sign_quote q named = ground (
    arith,
    is_signed-signed_document R laws (build_quote R q) kp "provider_pubkey" size (λ e. cc)
        (quote_signer R q ∙ ap string named),
  )

  -- A receipt that names its signer is valid exactly if the schema finds nothing wrong with it.
  pub verify_receipt-sign_receipt :
      (r : ReceiptFields)
      → r.provider_pubkey ≡ public_key_str R kp
      → (verify_receipt R (sign_receipt R (build_receipt R r) kp)).valid
        ≡ is_empty (R.iter_errors "receipt" (sign_receipt R (build_receipt R r) kp))
  unfolding verify_receipt sign_receipt
  verify_receipt-sign_receipt r named = ground (
    arith,
    is_signed-signed_document R laws (build_receipt R r) kp "provider_pubkey" size (λ e. cc)
        (receipt_signer R r ∙ ap string named),
  )

  module _ (times : TimeLaws R) (fresh denomination unit : String) (issued_at expires_at : Moment)
      (voucher_id : Option String) where
    pub verify_voucher-issued :
        (verify_voucher R
          (issued R kp fresh denomination unit issued_at expires_at voucher_id)).valid
        ≡ is_empty (
            R.iter_errors "voucher"
              (issued R kp fresh denomination unit issued_at expires_at voucher_id))
    unfolding verify_voucher sign_voucher build_voucher dict_of get_or
    verify_voucher-issued = ground (
      arith,
      is_signed-signed_document R laws
          (build_voucher R fresh denomination unit (public_key_str R kp) issued_at expires_at
            voucher_id)
          kp "issuer_pubkey" size (λ e. cc) refl,
    )

    pub voucher_is_expired-issued :
        (now : Moment)
        → voucher_is_expired R
            (issued R kp fresh denomination unit issued_at expires_at voucher_id)
            now
          ≡ leb (expires_at - expires_at % microseconds) now
    unfolding build_voucher dict_of get_or
    voucher_is_expired-issued now =
        voucher_is_expired-parsed R
          (issued R kp fresh denomination unit issued_at expires_at voucher_id)
          (R.print_time expires_at) (expires_at - expires_at % microseconds) now
          (voucher_field R fresh denomination unit (public_key_str R kp) issued_at expires_at
            voucher_id kp "expires_at" (λ e. cc))
          (times.parse-print expires_at)
