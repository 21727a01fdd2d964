-- ===== src/Relay/Receipts.antt =====
-- What the client of a relay may conclude, and that the relay stands in the way of nothing.
use sovereign_inference.Base.{
  String, Bool, true, false, some, [], ◌≡◌, refl, arith, eq_iff, length, is_empty, inl, inr,
  Option-cases, ap, subst, sym, ◌&&◌, ◌∙◌,
}
use sovereign_inference.Json.{
  Json, string, array, nil, cons, object, Dict, empty, entry, get, is_text, get_or, item, dict_of,
  set_some, set, elements,
}
use sovereign_inference.Json.Laws.{is_text-string}
use sovereign_inference.Result.{Result, ok, Result-cases}
use sovereign_inference.Runtime.{Runtime, SigningLaws}
use sovereign_inference.Urls.{Urls}
use sovereign_inference.Protocol.Signing.{KeyPair, public_key_str}
use sovereign_inference.Protocol.Documents.{signed_document, get-signed_document}
use sovereign_inference.Protocol.Artifacts.{
  ReceiptFields, build_receipt, sign_receipt, verify_receipt, hash_response_body,
}
use sovereign_inference.Protocol.Artifacts.Issue.{verify_receipt-sign_receipt}
use sovereign_inference.Router.Client.{Reply}
use sovereign_inference.Relay.{Answer, relay, passed_on}
use sovereign_inference.Relay.Forward.{Allowed, judge-Allowed}
use sovereign_inference.Relay.Client.{
  RelayResult, content_of, hash_completion, dict_or_empty, receipt_verified, read_answer,
  relay_chat,
}

-- An answer with a content and a receipt, as a gateway sends it
abbrev pub signed_answer : Json → Dict → Answer
signed_answer content receipt = record {
  status = 200;
  content = object (
      entry "choices"
        (array (cons (object (entry "message" (object (entry "content" content empty)) empty)) nil))
        (entry "sip_receipt" (object receipt) empty));
}

build_receipt_hashes :
    (R : Runtime) (f : ReceiptFields) (h : String)
    → f.request_hash ≡ some h
    → (get (build_receipt R f) "response_hash" ≡ string f.response_hash)
      × (get (build_receipt R f) "request_hash" ≡ string h)
unfolding build_receipt dict_of set_some set get_or
build_receipt_hashes R f h e = elim (Option-cases f.runtime_version) [
  | inl n ↦ rw (n, e) (refl, refl)
  | inr (v, n) ↦ rw (n, e) (refl, refl)
]

ok-inj : {A : Type 0} {x y : A} → ok x ≡ ok y → x ≡ y
ok-inj e = cc

module _ (R : Runtime) where
  receipt_verified_of :
      (d : Dict) (content : String) (completion : Dict) (asked : String)
      → hash_completion R completion ≡ ok asked
      → (verify_receipt R d).valid ≡ true
      → get d "response_hash" ≡ string (hash_response_body R content)
      → get d "request_hash" ≡ string asked
      → receipt_verified R d content completion ≡ ok true
  unfolding receipt_verified get_or
  receipt_verified_of empty content completion asked h v a b = cc
  receipt_verified_of (entry k w d) content completion asked h v a b =
      rw (receipt_verified, h, v, a, b)
        (ap ok (
          ground (
            arith,
            eq_iff (hash_response_body R content) (hash_response_body R content),
            eq_iff asked asked,
          )))

  -- What a receipt that the client has verified says
  pub record Bound (receipt : Dict) (content : String) (completion : Dict) : Type 0 where
    pub valid : (verify_receipt R receipt).valid ≡ true
    pub answered : get receipt "response_hash" ≡ string (hash_response_body R content)
    pub asked :
        (h : String) × (hash_completion R completion ≡ ok h)
        × (get receipt "request_hash" ≡ string h)

  receipt_verified-Bound :
      (d : Dict) (content : String) (completion : Dict)
      → receipt_verified R d content completion ≡ ok true
      → Bound d content completion
  unfolding receipt_verified
  receipt_verified-Bound empty content completion h = cc
  receipt_verified-Bound (entry k w d) content completion h =
      elim (Result-cases (hash_completion R completion)) [
        | inr (x, e) ↦ absurd (ground arith)
        | inl (asked, e) ↦
            let all : ((verify_receipt R (entry k w d)).valid
                  && is_text (get (entry k w d) "response_hash") (hash_response_body R content)
                  && is_text (get (entry k w d) "request_hash") asked)
                ≡ true =
              ok-inj (sym (rw (receipt_verified, e) refl) ∙ h) in
            record {
              valid = ground arith;
              answered =
                  is_text-string (get (entry k w d) "response_hash") (hash_response_body R content)
                    (ground arith);
              asked = (
                asked,
                e,
                is_text-string (get (entry k w d) "request_hash") asked (ground arith),
              );
            }
      ]

  read_answer-Bound :
      (response : Answer) (completion : Dict) (verify_receipts : Bool) (result : RelayResult)
      → read_answer R response completion verify_receipts ≡ ok result
      → result.verified ≡ true
      → Bound result.receipt result.content completion
  unfolding read_answer
  read_answer-Bound response completion false result h v = absurd (ground arith)
  read_answer-Bound response completion true result h v =
      let payload = dict_or_empty response.content in
      let content = content_of R payload in
      let receipt = dict_or_empty (get payload "sip_receipt") in
      elim (Result-cases (receipt_verified R receipt content completion)) [
        | inr (x, e) ↦ absurd (ground arith)
        | inl (b, e) ↦
            let same : record {
              content = content;
              receipt = receipt;
              status_code = response.status;
              verified = b;
            }
                ≡ result =
              ok-inj (sym (rw e refl) ∙ h) in
            subst (λ (r : RelayResult). Bound r.receipt r.content completion) same
              (receipt_verified-Bound receipt content completion
                (e ∙ ap ok (ap (λ (r : RelayResult). r.verified) same ∙ v)))
      ]

  -- Whatever the relay answers: a result that the client marks as verified has a receipt that is
  -- valid under the key that it names, for exactly this content and for exactly this completion.
  pub relay_chat-Bound :
      (post : Dict → Result Answer) (target completion : Dict) (verify_receipts : Bool)
      (result : RelayResult)
      → relay_chat R post target completion verify_receipts ≡ ok result
      → result.verified ≡ true
      → Bound result.receipt result.content completion
  unfolding relay_chat
  relay_chat-Bound post target completion verify_receipts result h v =
      elim (Result-cases
        (post (entry "target" (object target) (entry "completion" (object completion) empty)))) [
          | inr (e, failed) ↦ absurd (ground arith)
          | inl (response, answered) ↦
              read_answer-Bound response completion verify_receipts result
                (sym (rw (relay_chat, answered) refl) ∙ h) v
        ]

  -- The client marks an answer as verified as soon as any key pair has signed a receipt for it and for
  -- the completion: the key of the target is not asked for. Holds under the laws of Ed25519 and base64,
  -- for a private key of 32 bytes, a completion that can be hashed and a receipt that the schema accepts.
  pub relay_chat-any_signer :
      SigningLaws R
      → (kp : KeyPair) (f : ReceiptFields) (content : Json) (target completion : Dict)
        (asked : String)
      → length kp.private_key ≡ 32
      → f.provider_pubkey ≡ public_key_str R kp
      → f.response_hash ≡ hash_response_body R (R.text_of content)
      → hash_completion R completion ≡ ok asked
      → f.request_hash ≡ some asked
      → R.iter_errors "receipt" (sign_receipt R (build_receipt R f) kp) ≡ []
      → relay_chat R
          (λ body. ok (signed_answer content (sign_receipt R (build_receipt R f) kp)))
          target
          completion
          true
        ≡ ok (record {
          content = R.text_of content;
          receipt = sign_receipt R (build_receipt R f) kp;
          status_code = 200;
          verified = true;
        })
  unfolding relay_chat read_answer content_of get_or item sign_receipt signed_document elements set
  relay_chat-any_signer laws kp f content target completion asked size named response hashed request
        accepted =
      rw
        (receipt_verified_of (sign_receipt R (build_receipt R f) kp) (R.text_of content) completion
          asked hashed (verify_receipt-sign_receipt R laws kp size f named ∙ ap is_empty accepted)
          (get-signed_document R (build_receipt R f) kp "response_hash" (λ e. cc)
            ∙ (build_receipt_hashes R f asked request).0
            ∙ ap string response)
          (get-signed_document R (build_receipt R f) kp "request_hash" (λ e. cc)
            ∙ (build_receipt_hashes R f asked request).1))
        refl

  -- Through the relay, the client gets what the provider answers it, for a target that may be
  -- forwarded to.
  pub relay_chat-relay :
      (U : Urls) (post : String → Dict → Result Reply) (target completion : Dict)
      (verify_receipts : Bool) (url : String)
      → Allowed R U target url
      → relay_chat R
          (λ body. (relay R U post (some (object body))).0)
          target
          completion
          verify_receipts
        ≡ relay_chat R (λ body. passed_on R (post url completion)) target completion verify_receipts
  unfolding relay_chat relay get_or
  relay_chat-relay U post target completion verify_receipts url a =
      rw (relay, judge-Allowed R U target url a) refl
