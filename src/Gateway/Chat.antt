-- ===== src/Gateway/Chat.antt =====
-- `chat_completions` of app.py: the rate limit, payment checked before and charged after serving,
-- and the signed receipt.
pub mod Charging
pub mod Outcome
pub mod Receipt
use Prim.Native.String.{◌++◌ as str_append}
use sovereign_inference.Base.{
  ℕ, ◌+◌, String, Bool, true, false, not, Option, none, some, List, [], ◌∷◌, map, if◌then◌else◌, ℤ,
  ◌+ℤ◌,
}
use sovereign_inference.Json.{
  Json, int, string, array, object, Dict, get, item, as_dict, as_list, as_string, is_text, dict_of,
  array_of,
}
use sovereign_inference.Result.{Result, ok, raised, ◌>>=◌}
use sovereign_inference.Runtime.{Runtime, Moment}
use sovereign_inference.Protocol.Signing.{public_key_str}
use sovereign_inference.Protocol.Documents.{sign_document}
use sovereign_inference.Protocol.Artifacts.{
  ReceiptFields, build_receipt, hash_response_body, hash_request,
}
use sovereign_inference.Pic.SpentSet.{SpentSet}
use sovereign_inference.Pic.Payment.{RedeemResult, Terms, redeem_payment, payment_required}
use sovereign_inference.Pic.Ledger.{Ledger, record_credit}
use sovereign_inference.Gateway.RateLimiter.{RateLimiter, allow}
use sovereign_inference.Gateway.Pricing.{price_amount}
use sovereign_inference.Gateway.Requests.{
  Config, Request, Response, failure, Call, Admission, turned_away, admitted, admit, billed_words,
}

-- `ChatResult` of the runtime adapter
pub record ChatResult : Type 0 where
  pub text : String  -- the field `content`
  pub input_tokens : ℤ
  pub output_tokens : ℤ

-- The adapter raises or answers.
abbrev pub Adapter : Type 0
Adapter = String → List Json → ℕ → Option ChatResult

-- What the gateway keeps from one request to the next.
pub record State : Type 0 where
  pub spent : SpentSet
  pub ledger : Option Ledger
  pub limiter : Option RateLimiter

-- The readings of the clocks in the course of one request
pub record Times : Type 0 where
  pub clock : ℕ
  pub checked : Moment
  pub started : Moment
  pub completed : Moment
  pub committed : Moment

-- `_payment_required_response`
unfoldable pub payment_required_response : Config → String → Response
payment_required_response G price = record {
  status = 402;
  content = dict_of (
      ("error", string "payment required")
      ∷ (
        "sip_payment_required",
        object (payment_required price G.price_units G.pic_issuers G.accept_schemes),
      )
      ∷ []);
}

-- The voucher ids that are strings, in order
voucher_refs : List Json → List String
voucher_refs [] = []
voucher_refs (v ∷ vs) =
    let rest = voucher_refs vs in
    elim (as_dict v) [
      | none ↦ rest
      | some d ↦ elim (as_string (get d "voucher_id")) [ none ↦ rest | some s ↦ s ∷ rest ]
    ]

-- `_payment_refs`
unfoldable pub payment_refs : Dict → List String
unfolding voucher_refs
payment_refs payment =
    if is_text (get payment "scheme") "pic"
    then elim (as_list (get payment "vouchers")) [ none ↦ [] | some vs ↦ voucher_refs vs ]
    else if is_text (get payment "scheme") "x402"
    then elim (as_dict (get payment "payment")) [
      | none ↦ []
      | some inner ↦ elim (as_string (get inner "payer_pubkey")) [ none ↦ [] | some s ↦ s ∷ [] ]
    ]
    else []

abbrev or_default : Option String → String → String
or_default none default = default
or_default (some s) default = s

abbrev pub request_id_of : Request → String
request_id_of request = or_default request.request_id "anon"

-- The terms of both redemptions of a request; only the moment differs.
unfoldable pub terms : Runtime → Config → Request → String → Moment → Terms
terms R G request required now = record {
  price = required;
  unit = G.price_units;
  issuer_pubkeys = G.pic_issuers;
  now = now;
  provider_pubkey = some (public_key_str R G.keypair);
  request_id = some (request_id_of request);
}

-- The receipt of step 8 before it is signed, with the hash of the request
unfoldable pub unsigned_receipt :
    Runtime → Config → Request → Call → ChatResult → Times → String → String → Dict
unsigned_receipt R G request call result times price asked = build_receipt R (record {
  request_id = request_id_of request;
  provider_pubkey = public_key_str R G.keypair;
  model_manifest_hash = G.model_manifest_hash;
  model_alias = call.model;
  runtime = G.adapter_name;
  input_tokens = result.input_tokens;
  output_tokens = result.output_tokens;
  price_units = G.price_units;
  price_amount = price;
  privacy_mode = or_default request.privacy_mode "direct";
  started_at = times.started;
  completed_at = times.completed;
  response_hash = hash_response_body R result.text;
  runtime_version = none;
  request_hash = some asked;
})

-- The signed receipt of step 8. The hash of the request and the signature may raise.
unfoldable pub receipt_of :
    Runtime → Config → Request → Call → ChatResult → Times → String → Result Dict
receipt_of R G request call result times price = do
  asked ← hash_request R call.model call.messages
  sign_document R (unsigned_receipt R G request call result times price asked) G.keypair

-- The answer with its receipt
unfoldable pub answer_of : Request → Call → ChatResult → Dict → Response
answer_of request call result receipt = record {
  status = 200;
  content = dict_of (
      ("id", string (str_append "chatcmpl-" (request_id_of request)))
      ∷ ("object", string "chat.completion")
      ∷ ("model", string call.model)
      ∷ (
        "choices",
        array (
            array_of (
              object (
                dict_of (
                  ("index", int (ℤ.pos 0))
                  ∷ (
                    "message",
                    object (
                        dict_of
                          (("role", string "assistant") ∷ ("content", string result.text) ∷ [])),
                  )
                  ∷ ("finish_reason", string "stop")
                  ∷ []))
              ∷ [])),
      )
      ∷ (
        "usage",
        object (
            dict_of (
              ("prompt_tokens", int result.input_tokens)
              ∷ ("completion_tokens", int result.output_tokens)
              ∷ ("total_tokens", int (result.input_tokens +ℤ result.output_tokens))
              ∷ [])),
      )
      ∷ ("sip_receipt", object receipt)
      ∷ []);
}

unfoldable pub completion :
    Runtime → Config → Request → Call → ChatResult → Times → String → Result Response
unfolding receipt_of answer_of
completion R G request call result times price = do
  receipt ← receipt_of R G request call result times price
  ok (answer_of request call result receipt)

abbrev pub credit : Option Ledger → String → String → String → List String → Option Ledger
credit none provider amount unit refs = none
credit (some ledger) provider amount unit refs =
    some (record_credit ledger provider amount unit refs)

-- Step 8 once the charge has been tried
unfoldable pub after_charge :
    Runtime
    → Config
    → Request
    → Call
    → ChatResult
    → Times
    → String
    → Result RedeemResult
    → State
    → Result Response × State
after_charge R G request call result times required (raised e) s = (raised e, s)
after_charge R G request call result times required (ok committed) s =
    if not committed.accepted then (ok (payment_required_response G required), s) else (
      completion R G request call result times required,
      record s {
        ledger =
            credit s.ledger (public_key_str R G.keypair) required G.price_units
              (payment_refs call.payment);
      },
    )

-- Step 8: the payment is charged, and the ledger credited.
unfoldable pub settle :
    Runtime
    → Config
    → Request
    → Call
    → ChatResult
    → Times
    → String
    → State
    → Result Response × State
settle R G request call result times required s =
    let (charged, spent) =
      redeem_payment R call.payment (terms R G request required times.committed) s.spent true in
    after_charge R G request call result times required charged (record s { spent = spent })

-- The price that is asked for when payment is required
unfoldable pub required_price : Config → Call → Result String
required_price G call =
    price_amount G.floats G.input_per_1m G.output_per_1m
      (ℤ.pos (billed_words G.is_space call.contents)) (ℤ.pos call.max_tokens)

-- Steps 7 and 8 once the payment has been checked
unfoldable pub after_check :
    Runtime
    → Config
    → Adapter
    → Request
    → Call
    → Times
    → String
    → Result RedeemResult
    → State
    → Result Response × State
after_check R G adapter request call times required (raised e) s = (raised e, s)
after_check R G adapter request call times required (ok checked) s =
    if not checked.accepted
    then (ok (payment_required_response G required), s)
    else elim (adapter call.model call.messages call.max_tokens) [
      | none ↦ (ok (failure 502 "runtime error serving the model"), s)
      | some result ↦ settle R G request call result times required s
    ]

-- Steps 6 to 8 when payment is required
unfoldable pub serve_paid :
    Runtime → Config → Adapter → Request → Call → Times → State → Result Response × State
unfolding after_check
serve_paid R G adapter request call times s = elim (required_price G call) [
  | raised e ↦ (raised e, s)
  | ok required ↦
      let (check, spent) =
        redeem_payment R call.payment (terms R G request required times.checked) s.spent false in
      after_check R G adapter request call times required check (record s { spent = spent })
]

-- The answer at the price of the tokens that the runtime counted
unfoldable pub metered_completion :
    Runtime → Config → Request → Call → ChatResult → Times → Result Response
metered_completion R G request call result times = do
  price ←
      price_amount G.floats G.input_per_1m G.output_per_1m result.input_tokens result.output_tokens
  completion R G request call result times price

-- Steps 6 to 8 when it is not
unfoldable pub serve_free :
    Runtime → Config → Adapter → Request → Call → Times → State → Result Response × State
serve_free R G adapter request call times s =
    elim (adapter call.model call.messages call.max_tokens) [
      | none ↦ (ok (failure 502 "runtime error serving the model"), s)
      | some result ↦ (metered_completion R G request call result times, s)
    ]

-- Step 5
unfoldable pub rate_limit : State → ℕ → Bool × State
rate_limit s clock = elim s.limiter [
  | none ↦ (true, s)
  | some l ↦ let (go, l') = allow l clock in (go, record s { limiter = some l' })
]

unfoldable pub chat_completions :
    Runtime → Config → Adapter → Request → Times → State → Result Response × State
chat_completions R G adapter request times s = elim (admit G request) [
  | turned_away response ↦ (ok response, s)
  | admitted call ↦
      let (go, s') = rate_limit s times.clock in
      if not go
      then (ok (failure 429 "rate limited"), s')
      else if G.require_payment
      then serve_paid R G adapter request call times s'
      else serve_free R G adapter request call times s'
]
