-- ===== src/Tests/Gateway.antt =====
-- Examples for the gateway: a paid request, an unpaid one, and a burst of requests.
use sovereign_inference.Base.{
  ℕ, ◌+◌, ◌≤◌, String, Bool, true, false, none, some, List, [], ◌∷◌, ◌≡◌, refl, arith, ℤ, contains,
}
use sovereign_inference.Json.{
  Json, Dict, int, string, object, array, array_of, dict_of, get_or, elements,
}
use sovereign_inference.Result.{ok}
use sovereign_inference.Gateway.RateLimiter.{RateLimiter, allow, expire}
use sovereign_inference.Gateway.RateLimiter.Window.{allowed, in_window, allowed-limit}
use sovereign_inference.Gateway.Pricing.{price_amount, format_amount}
use sovereign_inference.Gateway.Text.{char_count, strip_end}
use sovereign_inference.Pic.Payment.{build_pic_payment}
use sovereign_inference.Gateway.Requests.{
  Config, Request, Response, Call, admit, auth_ok, admit_body, admit_call, valid_messages,
  positive_int, total_chars,
}
use sovereign_inference.Base.{is_empty}
use sovereign_inference.Json.{get}
use sovereign_inference.Protocol.Manifests.{verify_provider_manifest, sign_provider_manifest}
use sovereign_inference.Protocol.Documents.{
  sign_document, signed_document, signing_bytes, canonical_json, covered_bytes,
}
use sovereign_inference.Protocol.Artifacts.{hash_request, sha256_prefixed, build_quote}
use sovereign_inference.Gateway.Requests.Gate.{Asked}
use sovereign_inference.Gateway.Manifest.{
  health, unsigned_manifest, synthesize_manifest, synthesize_manifest_lem,
}
use sovereign_inference.Gateway.Quote.{quote_fields}
use sovereign_inference.Gateway.Requests.Gate.{Gate, admit-Gate}
use sovereign_inference.Gateway.Chat.{
  ChatResult, Adapter, State, Times, chat_completions, completion, metered_completion, receipt_of,
  unsigned_receipt, answer_of, serve_free, rate_limit,
}
use sovereign_inference.Gateway.Chat.Outcome.{price_for, Served, chat_completions-Served}
use sovereign_inference.Gateway.Chat.Receipt.{Vouched, chat_completions-Vouched}
use sovereign_inference.Tests.Sample.{toy, toy_laws, issuer, provider, pic_payment}
use sovereign_inference.Protocol.Signing.{public_key_str}

abbrev gateway : Bool → Config
gateway require_payment = record {
  keypair = provider;
  adapter_name = "echo";
  allowed_models = "m" ∷ [];
  token = none;
  max_output_tokens = 512;
  max_input_chars = 1000;
  model_manifest_hash = "h";
  price_units = "usd";
  input_per_1m = "1";
  output_per_1m = "1";
  require_payment = require_payment;
  pic_issuers = public_key_str toy issuer ∷ [];
  accept_schemes = "pic" ∷ [];
  lower = λ s. s;
  is_space = λ c. false;
  floats = record {
    millions = λ n. ok (record { bits = 0 });
    parse = λ s. ok (record { bits = 0 });
    times = λ x y. x;
    plus = λ x y. x;
    six_places = λ x. "5";
  };
}

abbrev answer : Adapter
answer model messages max_tokens =
    some (record { text = "hello"; input_tokens = ℤ.pos 1; output_tokens = ℤ.pos 1 })

abbrev paid_request : Request
paid_request = record {
  authorization = "";
  body = some (
      object (
        dict_of (
          ("model", string "m")
          ∷ (
            "messages",
            array (
                array_of (
                  object (dict_of (("role", string "user") ∷ ("content", string "hi") ∷ [])) ∷ [])),
          )
          ∷ ("max_tokens", int (ℤ.pos 16))
          ∷ ("sip_payment", object pic_payment)
          ∷ [])));
  privacy_mode = none;
  request_id = some "r1";
}

abbrev clock : Times
clock = record { clock = 0; checked = 5; started = 6; completed = 7; committed = 8 }

abbrev fresh_state : State
fresh_state = record {
  spent = [];
  ledger = some [];
  limiter = some (record { limit = 2; hits = [] });
}

admit-Gate_example : Gate (gateway true) paid_request (admit (gateway true) paid_request)
admit-Gate_example = admit-Gate (gateway true) paid_request

abbrev hello : ChatResult
hello = record { text = "hello"; input_tokens = ℤ.pos 1; output_tokens = ℤ.pos 1 }

abbrev question : Json
question = object (dict_of (("role", string "user") ∷ ("content", string "hi") ∷ []))

abbrev call : Call
call = record {
  model = "m";
  messages = question ∷ [];
  contents = "hi" ∷ [];
  max_tokens = 16;
  payment = pic_payment;
}

abbrev asked : String
asked = sha256_prefixed toy []

abbrev receipt : Dict
receipt =
    signed_document toy
      (unsigned_receipt toy (gateway false) paid_request call hello clock "5" asked) provider

abbrev reply : Response
reply = answer_of paid_request call hello receipt

answered : (chat_completions toy (gateway false) answer paid_request clock fresh_state).0 ≡ ok reply
unfolding chat_completions admit auth_ok admit_body admit_call valid_messages contains positive_int
    total_chars char_count dict_of array_of get_or elements serve_free rate_limit allow expire
    price_amount format_amount strip_end build_pic_payment metered_completion completion receipt_of
    sign_document signing_bytes canonical_json hash_request signed_document covered_bytes
answered = refl

status_200 : reply.status ≡ 200
unfolding answer_of
status_200 = refl

chat_completions-Served_example : Served toy (gateway false) answer paid_request clock reply
chat_completions-Served_example =
    chat_completions-Served toy (gateway false) answer paid_request clock fresh_state reply answered
      status_200

chat_completions-Vouched_example :
    (c : Call) × (result : ChatResult) × (price : String) × Asked paid_request c
    × (price_for (gateway false) c result ≡ ok price)
    × (answer c.model c.messages c.max_tokens ≡ some result)
    × Vouched toy (gateway false) c result price reply
chat_completions-Vouched_example =
    chat_completions-Vouched toy toy_laws (gateway false) answer paid_request clock fresh_state
      reply refl answered status_200

abbrev two_per_minute : RateLimiter
two_per_minute = record { limit = 2; hits = [] }

abbrev burst : List ℕ
burst = 0 ∷ 10 ∷ 20 ∷ 70 ∷ []

allowed-limit_example : in_window 70 [] + in_window 70 (allowed two_per_minute burst) ≤ 2
allowed-limit_example =
    allowed-limit two_per_minute 0 70 burst
      (omega arith, (omega arith, (omega arith, (omega arith, tt)))) (omega arith)

abbrev quote_request : Request
quote_request = record {
  authorization = "";
  body = some (
      object (
        dict_of (
          ("request_id", string "r1")
          ∷ ("model", string "m")
          ∷ ("max_output_tokens", int (ℤ.pos 16))
          ∷ [])));
  privacy_mode = none;
  request_id = none;
}

abbrev quote_signed : Dict
quote_signed =
    signed_document toy (build_quote toy (quote_fields toy (gateway true) "r1" "m" 16 "5" none 5))
      provider

abbrev quote_reply : Response
quote_reply = record { status = 200; content = quote_signed }

abbrev made_up : Dict
made_up =
    signed_document toy
      (unsigned_manifest toy (gateway true) (record { bits = 0 }) (record { bits = 0 }) "none" 5)
      provider

made_up_is : synthesize_manifest toy (gateway true) "none" 5 ≡ ok made_up
unfolding synthesize_manifest sign_provider_manifest sign_document signing_bytes canonical_json
    signed_document covered_bytes
made_up_is = refl

synthesize_manifest_lem_example :
    (verify_provider_manifest toy made_up
      ≡ ok (is_empty (toy.iter_errors "provider_manifest" made_up)))
    × (get made_up "provider_pubkey" ≡ get (health toy (gateway true)).content "provider_pubkey")
    × (get made_up "models" ≡ get (health toy (gateway true)).content "models")
synthesize_manifest_lem_example =
    synthesize_manifest_lem toy toy_laws (gateway true) "none" 5 made_up refl made_up_is
