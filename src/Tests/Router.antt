-- ===== src/Tests/Router.antt =====
-- Examples for the client: a provider that is down, one that asks for payment, and one that
-- answers.
use sovereign_inference.Base.{ℤ, true, false, none, some, [], ◌∷◌, ◌≡◌, refl, ◌*◌}
use sovereign_inference.Json.{
  elements, without, set, set_some, get_or, Dict, string, object, array, array_of, dict_of,
}
use sovereign_inference.Result.{ok, raised, transport_error}
use sovereign_inference.Runtime.{microseconds}
use sovereign_inference.Protocol.Signing.{public_key_str, verify, sign, after_prefix}
use sovereign_inference.Protocol.Documents.{
  signed_document, verify_document, signing_bytes, canonical_json, covered_bytes, is_signed,
}
use sovereign_inference.Protocol.Artifacts.{
  build_receipt, hash_response_body, sha256_prefixed, verify_receipt,
}
use sovereign_inference.Router.Client.{
  Peer, Candidate, Route, transport, health_ok, post_completion, extract_content, receipt_trusted,
  receipt_binds,
}
use sovereign_inference.Router.Chat.{
  routed, no_provider_available, chat, chat_from, try_candidate, serve, catch_transport, complete,
  finish, keep_receipt, keep_quote,
}
use sovereign_inference.Router.Chat.Trust.{Routes, chat-Routes}
use sovereign_inference.Tests.Sample.{encode, decode, toy, issuer, provider}

abbrev candidate : Peer → Candidate
candidate peer = record {
  base_url = "https://p";
  provider_pubkey = public_key_str toy provider;
  peer = peer;
  nonce = "n";
  paid_at = microseconds;
  checked_at = 2 * microseconds;
}

abbrev down : Peer
down = record {
  get_path = λ path. raised transport_error;
  post = λ path headers body. raised transport_error;
}

-- Healthy; asks a price of 2 for every completion, whatever payment it gets.
abbrev greedy : Peer
greedy = record {
  get_path = λ path.
      ok (record { status = 200; body = some (object (dict_of (("status", string "ok") ∷ []))) });
  post = λ path headers body. ok (record {
    status = 402;
    body = some (
        object (
          dict_of (
            (
              "sip_payment_required",
              object (
                  dict_of (
                    ("price_amount", string "2")
                    ∷ ("price_units", string "usd")
                    ∷ ("accepted_schemes", array (array_of (string "pic" ∷ string "x402" ∷ [])))
                    ∷ [])),
            )
            ∷ [])));
  });
}

abbrev route : Route
route = record {
  model = "m";
  messages = [];
  max_tokens = 16;
  privacy_mode = "direct";
  verify_receipts = true;
  get_quote = false;
  request_id = "r1";
  token = none;
  x402_keypair = some issuer;
}

-- Healthy; answers with a receipt.
abbrev receipt : Dict
receipt =
    signed_document toy
      (build_receipt toy (record {
        request_id = "r1";
        provider_pubkey = public_key_str toy provider;
        model_manifest_hash = "h";
        model_alias = "m";
        runtime = "echo";
        input_tokens = ℤ.pos 1;
        output_tokens = ℤ.pos 1;
        price_units = "usd";
        price_amount = "0";
        privacy_mode = "direct";
        started_at = microseconds;
        completed_at = microseconds;
        response_hash = hash_response_body toy "hello";
        runtime_version = none;
        request_hash = none;
      }))
      provider

abbrev honest : Peer
honest = record {
  get_path = greedy.get_path;
  post = λ path headers body. ok (record {
    status = 200;
    body = some (
        object (
          dict_of (
            (
              "choices",
              array (
                  array_of (
                    object (
                      dict_of
                        (("message", object (dict_of (("content", string "hello") ∷ []))) ∷ []))
                    ∷ [])),
            )
            ∷ ("sip_receipt", object receipt)
            ∷ [])));
  });
}

chat-Routes_example :
    Routes toy route []
      (candidate down ∷ candidate greedy ∷ candidate honest ∷ [])
      (chat toy route (candidate down ∷ candidate greedy ∷ candidate honest ∷ []) none).0
chat-Routes_example =
    chat-Routes toy route (candidate down ∷ candidate greedy ∷ candidate honest ∷ []) none

answered :
    (chat toy route (candidate down ∷ candidate honest ∷ []) none).0
    ≡ ok (
        routed
          (candidate honest)
          (record { content = "hello"; receipt = object receipt; quote = none })
          (record { base_url = "https://p"; outcome = some transport }
            ∷ record { base_url = "https://p"; outcome = none }
            ∷ []))
unfolding chat chat_from try_candidate serve catch_transport health_ok complete finish keep_receipt
    keep_quote post_completion extract_content elements array_of receipt_trusted receipt_binds
    verify_document signed_document without set set_some get_or dict_of build_receipt signing_bytes
    canonical_json covered_bytes verify_receipt is_signed verify sign after_prefix public_key_str
    hash_response_body sha256_prefixed encode decode
answered = refl

all_down :
    (chat toy route (candidate down ∷ []) none).0
    ≡ ok (no_provider_available (record { base_url = "https://p"; outcome = some transport } ∷ []))
unfolding chat chat_from try_candidate serve catch_transport health_ok
all_down = refl
