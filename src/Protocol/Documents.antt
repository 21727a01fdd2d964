-- ===== src/Protocol/Documents.antt =====
-- packages/sip-protocol/src/sip_protocol/documents.py: one signing rule for every document.
use sovereign_inference.Base.{
  String, Bool, true, false, ◌≡◌, ◌≢◌, arith, eq_iff, refl, ap, ◌∙◌, length, if◌then◌else◌, inl,
  inr,
}
use sovereign_inference.Result.{Result, ok, raised, ◌>>=◌, value_error, Result-cases}
use sovereign_inference.Json.{
  Json, null, bool, int, float, string, array, object, Dict, get, set, without,
}
use sovereign_inference.Json.Laws.{get_or-set, get_or-without, without-without, without-set}
use sovereign_inference.Runtime.{Bytes, Runtime, SigningLaws}
use sovereign_inference.Protocol.Signing.{KeyPair, public_key_str, sign, verify, verify-sign}

-- The default of `signature_field`, which every caller keeps.
abbrev pub signature_field : String
signature_field = "signature"

-- canonical.py: `canonical_json`
unfoldable pub canonical_json : Runtime → Dict → Result Bytes
canonical_json R document =
    if R.dumps_raises (object document) then raised value_error else ok (R.dumps document)

unfoldable pub signing_bytes : Runtime → Dict → Result Bytes
signing_bytes R document = canonical_json R (without document signature_field)

-- What `signing_bytes`, `sign_document` and `verify_document` return for a document that
-- `canonical_json` takes
unfoldable pub covered_bytes : Runtime → Dict → Bytes
covered_bytes R document = R.dumps (without document signature_field)

unfoldable pub signed_document : Runtime → Dict → KeyPair → Dict
signed_document R document kp =
    let signed = without document signature_field in
    set signed signature_field (string (sign R kp (covered_bytes R signed)))

verify_fields : Runtime → Dict → Json → Json → Bool
verify_fields R document (string public_key) (string signature) =
    verify R public_key (covered_bytes R document) signature
verify_fields R document _ _ = false

unfoldable pub is_signed : Runtime → Dict → String → Bool
unfolding verify_fields
is_signed R document pubkey_field =
    verify_fields R document (get document pubkey_field) (get document signature_field)

unfoldable pub sign_document : Runtime → Dict → KeyPair → Result Dict
sign_document R document kp =
    let signed = without document signature_field in
    do bytes ← signing_bytes R signed; ok (set signed signature_field (string (sign R kp bytes)))

verify_strings : Runtime → Dict → Json → Json → Result Bool
verify_strings R document (string public_key) (string signature) = do
  bytes ← signing_bytes R document
  ok (verify R public_key bytes signature)
verify_strings R document _ _ = ok false

unfoldable pub verify_document : Runtime → Dict → String → Result Bool
unfolding verify_strings
verify_document R document pubkey_field =
    verify_strings R document (get document pubkey_field) (get document signature_field)

-- Signing keeps every field but the signature.
pub get-signed_document :
    (R : Runtime) (document : Dict) (kp : KeyPair) (k : String)
    → k ≢ signature_field
    → get (signed_document R document kp) k ≡ get document k
unfolding signed_document
get-signed_document R document kp k h =
    rw (get_or-set, get_or-without) (ground (arith, eq_iff signature_field k))

-- The bytes that a signature covers do not depend on the signature that is there.
pub covered_bytes-signed_document :
    (R : Runtime) (document : Dict) (kp : KeyPair)
    → covered_bytes R (signed_document R document kp) ≡ covered_bytes R document
unfolding covered_bytes signed_document
covered_bytes-signed_document R document kp = ap R.dumps (
    without-set (without document signature_field) signature_field _
    ∙ without-without document signature_field)

covered_bytes-without :
    (R : Runtime) (document : Dict)
    → covered_bytes R (without document signature_field) ≡ covered_bytes R document
unfolding covered_bytes
covered_bytes-without R document = ap R.dumps (without-without document signature_field)

get-sign_document_signature :
    (R : Runtime) (document : Dict) (kp : KeyPair)
    → get (signed_document R document kp) signature_field
      ≡ string (sign R kp (covered_bytes R (without document signature_field)))
unfolding signed_document
get-sign_document_signature R document kp = rw get_or-set

verify_fields-get :
    (R : Runtime) (document : Dict) (pk signature : Json)
    → verify_fields R document pk signature ≡ true
    → (s : String) × (pk ≡ string s)
unfolding verify_fields
verify_fields-get R document (string s) signature h = (s, refl)
verify_fields-get R document null signature h = cc
verify_fields-get R document (bool b) signature h = cc
verify_fields-get R document (int z) signature h = cc
verify_fields-get R document (float x) signature h = cc
verify_fields-get R document (array xs) signature h = cc
verify_fields-get R document (object d) signature h = cc

pub is_signed-signed_document :
    (R : Runtime)
    → SigningLaws R
    → (document : Dict) (kp : KeyPair) (pubkey_field : String) → length kp.private_key ≡ 32
    → pubkey_field ≢ signature_field
    → get document pubkey_field ≡ string (public_key_str R kp)
    → is_signed R (signed_document R document kp) pubkey_field ≡ true
unfolding is_signed
is_signed-signed_document R laws document kp pubkey_field size other named =
    rw (get-signed_document R document kp pubkey_field other, named, signed)
      (rw (covered_bytes-signed_document R document kp, ← covered_bytes-without R document)
        (verify-sign R laws kp (covered_bytes R (without document signature_field)) size))
  where
    signed :
        get (signed_document R document kp) signature_field
        ≡ string (sign R kp (covered_bytes R (without document signature_field)))
    signed = get-sign_document_signature R document kp

verify_strings-fields :
    (R : Runtime) (document : Dict) (pk signature : Json)
    → signing_bytes R document ≡ ok (covered_bytes R document)
    → verify_strings R document pk signature ≡ ok (verify_fields R document pk signature)
unfolding verify_strings verify_fields
verify_strings-fields R document (string s) (string t) e = rw e refl
verify_strings-fields R document (string s) null e = refl
verify_strings-fields R document (string s) (bool b) e = refl
verify_strings-fields R document (string s) (int z) e = refl
verify_strings-fields R document (string s) (float x) e = refl
verify_strings-fields R document (string s) (array xs) e = refl
verify_strings-fields R document (string s) (object d) e = refl
verify_strings-fields R document null signature e = refl
verify_strings-fields R document (bool b) signature e = refl
verify_strings-fields R document (int z) signature e = refl
verify_strings-fields R document (float x) signature e = refl
verify_strings-fields R document (array xs) signature e = refl
verify_strings-fields R document (object d) signature e = refl

signing_bytes-covered_bytes :
    (R : Runtime) (document : Dict) (bytes : Bytes)
    → signing_bytes R document ≡ ok bytes
    → bytes ≡ covered_bytes R document
unfolding signing_bytes canonical_json covered_bytes
signing_bytes-covered_bytes R document bytes e = ground arith

-- What is verified is what `is_signed` says, if `canonical_json` takes the document.
pub verify_document-is_signed :
    (R : Runtime) (document : Dict) (pubkey_field : String) (bytes : Bytes)
    → signing_bytes R document ≡ ok bytes
    → verify_document R document pubkey_field ≡ ok (is_signed R document pubkey_field)
unfolding verify_document is_signed
verify_document-is_signed R document pubkey_field bytes e =
    verify_strings-fields R document _ _
      (e ∙ ap ok (signing_bytes-covered_bytes R document bytes e))

-- What is signed is `signed_document`, and `canonical_json` takes it.
pub sign_document-signed_document :
    (R : Runtime) (document signed : Dict) (kp : KeyPair)
    → sign_document R document kp ≡ ok signed
    → (signed ≡ signed_document R document kp)
      × ((bytes : Bytes) × (signing_bytes R signed ≡ ok bytes))
unfolding sign_document signing_bytes signed_document
sign_document-signed_document R document signed kp e =
    elim (Result-cases (signing_bytes R (without document signature_field))) [
      | inr (x, n) ↦ absurd (ground arith)
      | inl (bytes, b) ↦
          let same : signed ≡ signed_document R document kp =
            (ground
              (arith, signing_bytes-covered_bytes R (without document signature_field) bytes b)) in
          (same, (bytes, ap (signing_bytes R) same ∙ reread ∙ b))
    ]
  where
    reread :
        signing_bytes R (signed_document R document kp)
        ≡ signing_bytes R (without document signature_field)
    reread =
        ap (canonical_json R) (without-set (without document signature_field) signature_field _)

-- Signing keeps every field but the signature.
pub sign_document-get :
    (R : Runtime) (document signed : Dict) (kp : KeyPair)
    → sign_document R document kp ≡ ok signed
    → (k : String) → k ≢ signature_field
    → get signed k ≡ get document k
sign_document-get R document signed kp e k other =
    ap (λ d. get d k) (sign_document-signed_document R document signed kp e).0
    ∙ get-signed_document R document kp k other

-- A document that names the signer's public key in `pubkey_field` verifies once it is signed, if it
-- can be signed, that is if `canonical_json` does not raise on it. Holds under the laws of Ed25519
-- and base64, for a private key of 32 bytes.
pub verify_document-sign_document :
    (R : Runtime)
    → SigningLaws R
    → (document signed : Dict) (kp : KeyPair) (pubkey_field : String) → length kp.private_key ≡ 32
    → pubkey_field ≢ signature_field
    → get document pubkey_field ≡ string (public_key_str R kp)
    → sign_document R document kp ≡ ok signed
    → verify_document R signed pubkey_field ≡ ok true
verify_document-sign_document R laws document signed kp pubkey_field size other named e =
    let s = sign_document-signed_document R document signed kp e in
    verify_document-is_signed R signed pubkey_field s.1.0 s.1.1
    ∙ ap ok (
        ap (λ d. is_signed R d pubkey_field) s.0
        ∙ is_signed-signed_document R laws document kp pubkey_field size other named)

-- A verified document has a string in its public-key field.
pub is_signed-get :
    (R : Runtime) (document : Dict) (pubkey_field : String)
    → is_signed R document pubkey_field ≡ true
    → (pk : String) × (get document pubkey_field ≡ string pk)
unfolding is_signed
is_signed-get R document pubkey_field h =
    verify_fields-get R document (get document pubkey_field) (get document signature_field) h
