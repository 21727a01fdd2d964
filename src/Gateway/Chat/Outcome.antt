-- ===== src/Gateway/Chat/Outcome.antt =====
-- The whole handler of the chat endpoint: what its outcome says of the gate, of the payment and of
-- the receipt.
use sovereign_inference.Base.{
  String, Bool, true, false, none, some, ◌≡◌, ◌⊎◌, inl, inr, refl, arith, subst, sym, ap, ◌∙◌, ◌≤◌,
  if◌then◌else◌, Bool-cases, Option-cases,
}
use sovereign_inference.Result.{Result, ok, Result-cases}
use sovereign_inference.Runtime.{Runtime}
use sovereign_inference.Gateway.Requests.{
  Config, Request, Response, failure, auth_ok, Call, Admission, turned_away, admitted, admit,
}
use sovereign_inference.Gateway.Requests.Gate.{WithinCaps, Asked, Gate, admit-Gate}
use sovereign_inference.Gateway.Pricing.{price_amount}
use sovereign_inference.Gateway.Chat.{
  ChatResult, Adapter, State, Times, completion, metered_completion, required_price, serve_paid,
  serve_free, rate_limit, chat_completions,
}
use sovereign_inference.Gateway.Chat.Charging.{Free, PaidFor, NotServed, serve_paid-ChargeOnSuccess}

-- Not served and nothing charged, or the request was admitted, served and paid for.
abbrev pub ChargedIfServed :
    Runtime → Config → Adapter → Request → Times → State → Result Response × State → Type 0
ChargedIfServed R G adapter request times before out =
    (Free before out.1 × NotServed out.0)
    ⊎ ((call : Call) × (admit G request ≡ admitted call)
        × PaidFor R G request call times (adapter call.model call.messages call.max_tokens) before
            out.1 out.0)

Admission-cases :
    (a : Admission) → ((r : Response) × (a ≡ turned_away r)) ⊎ ((call : Call) × (a ≡ admitted call))
Admission-cases (turned_away r) = inl (r, refl)
Admission-cases (admitted call) = inr (call, refl)

-- The price of an answer: what was required, or what the tokens that the runtime counted cost.
abbrev pub price_for : Config → Call → ChatResult → Result String
price_for G call result =
    if G.require_payment
    then required_price G call
    else price_amount G.floats G.input_per_1m G.output_per_1m result.input_tokens
        result.output_tokens

-- A completion, by the runtime, of a request that has passed the gate
pub record Served (R : Runtime) (G : Config) (adapter : Adapter) (request : Request) (times : Times)
    (r : Response) : Type 0 where
  pub call : Call
  pub result : ChatResult
  pub price : String
  pub admission : admit G request ≡ admitted call
  pub passed : auth_ok G request ≡ true
  pub caps : WithinCaps G call
  pub asked : Asked request call
  pub served : adapter call.model call.messages call.max_tokens ≡ some result
  pub priced : price_for G call result ≡ ok price
  pub answered : completion R G request call result times price ≡ ok r

if-true : {A : Type 0} {b : Bool} (x y : A) → b ≡ true → (if b then x else y) ≡ x
if-true x y e = rw e refl

if-false : {A : Type 0} {b : Bool} (x y : A) → b ≡ false → (if b then x else y) ≡ y
if-false x y e = rw e refl

ok-inj : (x y : Response) → ok x ≡ ok y → x ≡ y
ok-inj x y e = cc

failure-NotServed : (r : Response) → 400 ≤ r.status → NotServed (ok r)
failure-NotServed r low e = omega arith

module _ (R : Runtime) (G : Config) (adapter : Adapter) (request : Request) (times : Times)
    (s : State) where
  within_limit-eq :
      (call : Call)
      → admit G request ≡ admitted call
      → (rate_limit s times.clock).0 ≡ true
      → chat_completions R G adapter request times s ≡ (
          if G.require_payment
          then serve_paid R G adapter request call times (rate_limit s times.clock).1
          else serve_free R G adapter request call times (rate_limit s times.clock).1)
  unfolding chat_completions
  within_limit-eq call e go = rw (chat_completions, e, go) refl

  turned_away-eq :
      (r : Response)
      → admit G request ≡ turned_away r
      → (chat_completions R G adapter request times s).0 ≡ ok r
  unfolding chat_completions
  turned_away-eq r e = rw (chat_completions, e) refl

  rate_limited-eq :
      (call : Call)
      → admit G request ≡ admitted call
      → (rate_limit s times.clock).0 ≡ false
      → (chat_completions R G adapter request times s).0 ≡ ok (failure 429 "rate limited")
  unfolding chat_completions
  rate_limited-eq call e over = rw (chat_completions, e, over) refl

  free_failed-eq :
      (call : Call) (s' : State)
      → adapter call.model call.messages call.max_tokens ≡ none
      → (serve_free R G adapter request call times s').0
        ≡ ok (failure 502 "runtime error serving the model")
  unfolding serve_free
  free_failed-eq call s' n = rw (serve_free, n) refl

  free_served-eq :
      (call : Call) (s' : State) (result : ChatResult)
      → adapter call.model call.messages call.max_tokens ≡ some result
      → (serve_free R G adapter request call times s').0
        ≡ metered_completion R G request call result times
  unfolding serve_free
  free_served-eq call s' result e = rw (serve_free, e) refl

  -- An answer with status 200, paid for or not, is the completion of a request that was admitted:
  -- it bore the token, and what was served and priced is what its body asks for, for a model of the
  -- allowlist and within the caps. Its price is the one required, or, if no payment is, the one of the
  -- tokens that the runtime counted.
  pub chat_completions-Served :
      (r : Response)
      → (chat_completions R G adapter request times s).0 ≡ ok r
      → r.status ≡ 200
      → Served R G adapter request times r
  unfolding chat_completions metered_completion
  chat_completions-Served r e good = elim (Admission-cases (admit G request)) [
    | inl (r', a) ↦ absurd (
        failure-NotServed r' (subst (Gate G request) a (admit-Gate G request)).0
          (ap (λ x. x.status) (ok-inj r' r (sym (turned_away-eq r' a) ∙ e)) ∙ good))
    | inr (call, a) ↦ elim (Bool-cases (rate_limit s times.clock).0) [
      | inr over ↦ absurd (
          failure-NotServed (failure 429 "rate limited") (omega arith)
            (ap (λ x. x.status) (ok-inj _ r (sym (rate_limited-eq call a over) ∙ e)) ∙ good))
      | inl go ↦ elim (Bool-cases G.require_payment) [
        | inl paid ↦
            served_paid call a paid (subst (Gate G request) a (admit-Gate G request))
              (rate_limit s times.clock).1
              (ap (λ x. x.0) (sym (within_limit-eq call a go ∙ if-true _ _ paid)) ∙ e)
        | inr free ↦
            served_free call a free (subst (Gate G request) a (admit-Gate G request))
              (rate_limit s times.clock).1
              (ap (λ x. x.0) (sym (within_limit-eq call a go ∙ if-false _ _ free)) ∙ e)
      ]
    ]
  ]
    where
      served_paid :
          (call : Call)
          → admit G request ≡ admitted call
          → G.require_payment ≡ true
          → (auth_ok G request ≡ true) × WithinCaps G call × Asked request call
          → (s' : State) → (serve_paid R G adapter request call times s').0 ≡ ok r
          → Served R G adapter request times r
      served_paid call a required gate s' e' =
          elim (serve_paid-ChargeOnSuccess R G request call times adapter s') [
            | inl (kept, failed) ↦ absurd (subst NotServed e' failed good)
            | inr paid ↦ record {
              call = call;
              result = paid.result;
              price = paid.price;
              admission = a;
              passed = gate.0;
              caps = gate.1;
              asked = gate.2;
              served = paid.served;
              priced = if-true _ _ required ∙ paid.required;
              answered = sym paid.answered ∙ e';
            }
          ]

      priced_free :
          (call : Call) (result : ChatResult)
          → metered_completion R G request call result times ≡ ok r
          → (price : String) × (price_amount G.floats G.input_per_1m G.output_per_1m
                result.input_tokens result.output_tokens
              ≡ ok price)
            × (completion R G request call result times price ≡ ok r)
      priced_free call result m =
          elim (Result-cases (
            price_amount G.floats G.input_per_1m G.output_per_1m result.input_tokens
              result.output_tokens)) [
                | inr (x, n) ↦ absurd (ground arith)
                | inl (price, p) ↦ (price, p, ground arith)
              ]

      served_free :
          (call : Call)
          → admit G request ≡ admitted call
          → G.require_payment ≡ false
          → (auth_ok G request ≡ true) × WithinCaps G call × Asked request call
          → (s' : State) → (serve_free R G adapter request call times s').0 ≡ ok r
          → Served R G adapter request times r
      served_free call a free gate s' e' =
          elim (Option-cases (adapter call.model call.messages call.max_tokens)) [
            | inl n ↦ absurd (
                failure-NotServed (failure 502 "runtime error serving the model") (omega arith)
                  (ap (λ x. x.status) (ok-inj _ r (sym (free_failed-eq call s' n) ∙ e')) ∙ good))
            | inr (result, served) ↦
                let p = priced_free call result (sym (free_served-eq call s' result served) ∙ e') in
                record {
                  call = call;
                  result = result;
                  price = p.0;
                  admission = a;
                  passed = gate.0;
                  caps = gate.1;
                  asked = gate.2;
                  served = served;
                  priced = if-false _ _ free ∙ p.1;
                  answered = p.2;
                }
          ]
