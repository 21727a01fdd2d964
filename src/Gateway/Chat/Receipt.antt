-- ===== src/Gateway/Chat/Receipt.antt =====
-- The receipt of an answer: it verifies under the provider's key and names what was answered.
use sovereign_inference.Base.{String, arith, inl, inr, true, some, length, ◌≡◌, refl, subst}
use sovereign_inference.Json.{int, string, object, Dict, get, get_or, set, dict_of, set_some}
use sovereign_inference.Runtime.{Runtime, SigningLaws}
use sovereign_inference.Protocol.Signing.{public_key_str}
use sovereign_inference.Protocol.Documents.{
  verify_document, sign_document, sign_document-get, verify_document-sign_document,
}
use sovereign_inference.Protocol.Artifacts.{build_receipt, hash_response_body, hash_request}
use sovereign_inference.Gateway.Requests.Gate.{Asked}
use sovereign_inference.Gateway.Requests.{Config, Request, Response, Call}
use sovereign_inference.Result.{ok, Result-cases}
use sovereign_inference.Gateway.Chat.{
  ChatResult, Adapter, State, Times, receipt_of, unsigned_receipt, answer_of, completion,
  chat_completions,
}
use sovereign_inference.Gateway.Chat.Outcome.{price_for, chat_completions-Served}

-- A receipt that the provider signed for these messages and this answer at this price
pub record Vouched (R : Runtime) (G : Config) (call : Call) (result : ChatResult) (price : String)
    (response : Response) : Type 0 where
  pub receipt : Dict
  pub attached : get response.content "sip_receipt" ≡ object receipt
  pub signed : verify_document R receipt "provider_pubkey" ≡ ok true
  pub provider : get receipt "provider_pubkey" ≡ string (public_key_str R G.keypair)
  pub model : get receipt "model_alias" ≡ string call.model
  pub priced : get receipt "price_amount" ≡ string price
  pub asked :
      (h : String) × (hash_request R call.model call.messages ≡ ok h)
      × (get receipt "request_hash" ≡ string h)
  pub answered : get receipt "response_hash" ≡ string (hash_response_body R result.text)
  pub billed_input : get receipt "input_tokens" ≡ int result.input_tokens
  pub billed_output : get receipt "output_tokens" ≡ int result.output_tokens

-- The receipt in a completion verifies under the provider's own key, and it names the model, the
-- price, the hashes of the request and of the answer, and the tokens that the runtime counted.
-- Holds under the laws of Ed25519 and base64, for a private key of 32 bytes.
module _ (R : Runtime) (laws : SigningLaws R) (G : Config) (request : Request) (call : Call)
    (result : ChatResult) (times : Times) (price : String)
    (size : length G.keypair.private_key ≡ 32) where
  answer_of-Vouched :
      (asked : String) (receipt : Dict)
      → hash_request R call.model call.messages ≡ ok asked
      → sign_document R (unsigned_receipt R G request call result times price asked) G.keypair
        ≡ ok receipt
      → Vouched R G call result price (answer_of request call result receipt)
  unfolding answer_of unsigned_receipt build_receipt dict_of set_some set get_or
  answer_of-Vouched asked receipt h s =
      let kept =
        sign_document-get R (unsigned_receipt R G request call result times price asked) receipt
          G.keypair s in
      record {
        receipt = receipt;
        attached = refl;
        signed =
            verify_document-sign_document R laws _ receipt G.keypair "provider_pubkey" size
              (λ e. cc) refl s;
        provider = kept "provider_pubkey" (λ e. cc);
        model = kept "model_alias" (λ e. cc);
        priced = kept "price_amount" (λ e. cc);
        asked = (asked, h, kept "request_hash" (λ e. cc));
        answered = kept "response_hash" (λ e. cc);
        billed_input = kept "input_tokens" (λ e. cc);
        billed_output = kept "output_tokens" (λ e. cc);
      }

  completion-Vouched :
      (r : Response)
      → completion R G request call result times price ≡ ok r
      → Vouched R G call result price r
  unfolding completion receipt_of
  completion-Vouched r e = elim (Result-cases (hash_request R call.model call.messages)) [
    | inr (x, n) ↦ absurd (ground arith)
    | inl (asked, h) ↦
        elim (Result-cases (
          sign_document R (unsigned_receipt R G request call result times price asked) G.keypair)) [
            | inr (x, n) ↦ absurd (ground arith)
            | inl (receipt, s) ↦
                let same : answer_of request call result receipt ≡ r = ground arith in
                subst (Vouched R G call result price) same (answer_of-Vouched asked receipt h s)
          ]
  ]

-- Every answer with status 200, paid for or not, carries a receipt that the provider has signed: it
-- verifies under the provider's key and names the model and the messages that the body asked for, the
-- answer that the runtime gave to them, and the price: the one required, or, if no payment is, the one
-- of the tokens that the runtime counted. Holds under the laws of Ed25519 and base64, for a private key
-- of 32 bytes.
pub chat_completions-Vouched :
    (R : Runtime)
    → SigningLaws R
    → (G : Config) (adapter : Adapter) (request : Request) (times : Times) (s : State)
      (r : Response)
    → length G.keypair.private_key ≡ 32
    → (chat_completions R G adapter request times s).0 ≡ ok r
    → r.status ≡ 200
    → (call : Call) × (result : ChatResult) × (price : String) × Asked request call
      × (price_for G call result ≡ ok price)
      × (adapter call.model call.messages call.max_tokens ≡ some result)
      × Vouched R G call result price r
chat_completions-Vouched R laws G adapter request times s r size e good =
    let a = chat_completions-Served R G adapter request times s r e good in
    (
      a.call,
      a.result,
      a.price,
      a.asked,
      a.priced,
      a.served,
      completion-Vouched R laws G request a.call a.result times a.price size r a.answered,
    )
