-- ===== src/Tests/Signing.antt =====
-- Examples for keys, signatures and signed documents.
use sovereign_inference.Base.{true, [], ◌∷◌, ◌≡◌, refl}
use sovereign_inference.Json.{get_or, string, Dict, dict_of}
use sovereign_inference.Protocol.Signing.{public_key_str, verify, sign, verify-sign}
use sovereign_inference.Result.{ok}
use sovereign_inference.Protocol.Documents.{
  sign_document, verify_document, verify_document-sign_document, signed_document, signing_bytes,
  canonical_json, covered_bytes,
}
use sovereign_inference.Tests.Sample.{toy, toy_laws, issuer}

verify-sign_example : verify toy (public_key_str toy issuer) [] (sign toy issuer []) ≡ true
verify-sign_example = verify-sign toy toy_laws issuer [] refl

abbrev claim : Dict
claim = dict_of (("payer_pubkey", string (public_key_str toy issuer)) ∷ [])

abbrev claim_signed : Dict
claim_signed = signed_document toy claim issuer

claim_is_signed : sign_document toy claim issuer ≡ ok claim_signed
unfolding sign_document signing_bytes canonical_json signed_document covered_bytes
claim_is_signed = refl

verify_document-sign_document_example : verify_document toy claim_signed "payer_pubkey" ≡ ok true
unfolding dict_of get_or
verify_document-sign_document_example =
    verify_document-sign_document toy toy_laws claim claim_signed issuer "payer_pubkey" refl
      (λ e. cc) refl claim_is_signed
