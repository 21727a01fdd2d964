-- ===== src/Gateway/Chat/Charging.antt =====
-- Charge on success: who pays, what for, and what the ledger and the receipt say of it.
use sovereign_inference.Base.{
  String, true, false, Option, none, some, ◌≡◌, ◌≢◌, ◌∙◌, ◌⊎◌, inl, inr, refl, arith, Bool-cases,
}
use sovereign_inference.Json.{Dict}
use sovereign_inference.Result.{Result, ok, raised, Exception, Result-cases}
use sovereign_inference.Runtime.{Runtime}
use sovereign_inference.Protocol.Signing.{public_key_str}
use sovereign_inference.Protocol.Documents.{sign_document}
use sovereign_inference.Protocol.Artifacts.{hash_request}
use sovereign_inference.Pic.SpentSet.{SpentSet}
use sovereign_inference.Pic.Payment.{RedeemResult, Terms, redeem_payment}
use sovereign_inference.Pic.Payment.Outcome.{NotAccepted}
use sovereign_inference.Pic.Payment.Redeem.{redeem_payment-cases}
use sovereign_inference.Pic.Payment.Safety.{Charged}
use sovereign_inference.Pic.Payment.Ids.{spend_ids}
use sovereign_inference.Gateway.Requests.{Config, Request, Response, failure, Call}
use sovereign_inference.Gateway.Chat.{
  ChatResult, Adapter, State, Times, payment_required_response, payment_refs, terms, completion,
  unsigned_receipt, receipt_of, answer_of, credit, after_charge, after_check, settle,
  required_price, serve_paid,
}

-- The request left the money as it was.
abbrev pub Free : State → State → Type 0
Free before after = (after.spent ≡ before.spent) × (after.ledger ≡ before.ledger)

-- The completion is an answer with status 200, or its receipt cannot be made, because the messages
-- or the receipt cannot be serialised, and an exception leaves the handler.
abbrev pub Completed :
    Runtime → Config → Request → Call → ChatResult → Times → String → Result Response → Type 0
Completed R G request call result times price out =
    ((r : Response) × (out ≡ ok r) × (r.status ≡ 200))
    ⊎ ((e : Exception) × (out ≡ raised e)
        × ((hash_request R call.model call.messages ≡ raised e)
            ⊎ ((asked : String) × (hash_request R call.model call.messages ≡ ok asked)
                × (sign_document R (unsigned_receipt R G request call result times price asked)
                      G.keypair
                    ≡ raised e))))

-- The request was served and paid for: the payment's keys are spent, none of which was before, and
-- the completion, its receipt and the ledger entry carry the one price.
pub record PaidFor (R : Runtime) (G : Config) (request : Request) (call : Call) (times : Times)
    (answer : Option ChatResult) (before after : State) (out : Result Response) : Type 0 where
  pub result : ChatResult
  pub served : answer ≡ some result
  pub price : String
  pub required : required_price G call ≡ ok price
  pub answered : out ≡ completion R G request call result times price
  pub completed : Completed R G request call result times price out
  pub charged : Charged call.payment before.spent after.spent
  pub credited :
      after.ledger
      ≡ credit before.ledger
          (public_key_str R G.keypair)
          price
          G.price_units
          (payment_refs call.payment)

-- No answer: another status than 200, or an exception.
abbrev pub NotServed : Result Response → Type 0
NotServed (ok r) = r.status ≢ 200
NotServed (raised e) = Unit

-- Not served and nothing charged, or served and paid for.
abbrev pub ChargeOnSuccess :
    Runtime
    → Config
    → Request
    → Call
    → Times
    → Option ChatResult
    → State
    → Result Response × State
    → Type 0
ChargeOnSuccess R G request call times answer before out =
    (Free before out.1 × NotServed out.0) ⊎ PaidFor R G request call times answer before out.1 out.0

-- A check leaves the table of spent keys.
check_leaves_table :
    (R : Runtime) (payment : Dict) (t : Terms) (spent : SpentSet)
    → (redeem_payment R payment t spent false).1 ≡ spent
check_leaves_table R payment t spent = elim (redeem_payment-cases R t spent payment) [
  | inl a ↦ rw a.checked refl
  | inr no_way ↦ (no_way false).0
]

module _ (R : Runtime) (G : Config) (request : Request) (call : Call) (times : Times)
    (price : String) where
  not-402-200 : NotServed (ok (payment_required_response G price))
  unfolding payment_required_response
  not-402-200 e = absurd (omega arith)

  after_charge_refused :
      (result : ChatResult) (out : Result RedeemResult) (s : State)
      → NotAccepted out
      → Free s (after_charge R G request call result times price out s).1
        × NotServed (after_charge R G request call result times price out s).0
  unfolding after_charge
  after_charge_refused result (raised e) s n = ((refl, refl), tt)
  after_charge_refused result (ok r) s n = rw n ((refl, refl), not-402-200)

  settle-charged :
      (result : ChatResult) (s : State) (r : RedeemResult) (spent : SpentSet)
      → redeem_payment R call.payment (terms R G request price times.committed) s.spent true
        ≡ (ok r, spent)
      → r.accepted ≡ true
      → settle R G request call result times price s ≡ (
        completion R G request call result times price,
        record s {
          spent = spent;
          ledger =
              credit s.ledger
                (public_key_str R G.keypair)
                price
                G.price_units
                (payment_refs call.payment);
        },
      )
  unfolding settle after_charge
  settle-charged result s r spent e yes_r = rw e (ground arith)

  completion-Completed :
      (result : ChatResult)
      → Completed R G request call result times price
          (completion R G request call result times price)
  unfolding completion receipt_of answer_of
  completion-Completed result = elim (Result-cases (hash_request R call.model call.messages)) [
    | inr (e, n) ↦ inr (e, rw (completion, receipt_of, n) refl, inl n)
    | inl (asked, h) ↦
        elim (Result-cases (
          sign_document R (unsigned_receipt R G request call result times price asked) G.keypair)) [
            | inr (e, n) ↦ inr (e, rw (completion, receipt_of, h, n) refl, inr (asked, h, n))
            | inl (receipt, s) ↦ inl (
              answer_of request call result receipt,
              rw (completion, receipt_of, h, s) refl,
              refl,
            )
          ]
  ]

  settle-cases :
      required_price G call ≡ ok price
      → (result : ChatResult) (s : State)
      → ChargeOnSuccess R G request call times
          (some result)
          s
          (settle R G request call result times price s)
  settle-cases required result s = elim (redeem_payment-cases R t s.spent call.payment) [
    | inl a ↦
        rw (settle-charged result s a.result (spend_ids s.spent a.keys) a.committed a.accepted) (
          inr (record {
            result = result;
            served = refl;
            price = price;
            required = required;
            answered = refl;
            completed = completion-Completed result;
            charged = record {
              keys = a.keys;
              keys_of = a.keys_of;
              some_key = a.some_key;
              fresh = a.fresh;
              entered = refl;
            };
            credited = refl;
          }))
    | inr no_way ↦
        let out = redeem_payment R call.payment t s.spent true in
        let (free, failed) =
          after_charge_refused result out.0 (record s { spent = out.1 }) (no_way true).1 in
        inl (unfold settle in ((free.0 ∙ (no_way true).0, free.1), failed))
  ]
    where
      t : Terms
      t = terms R G request price times.committed

  module _ (adapter : Adapter) (required : required_price G call ≡ ok price) where
    after_check-cases :
        (s : State) (out : Result RedeemResult)
        → ChargeOnSuccess R G request call times
            (adapter call.model call.messages call.max_tokens)
            s
            (after_check R G adapter request call times price out s)
    unfolding after_check
    after_check-cases s (raised e) = inl ((refl, refl), tt)
    after_check-cases s (ok r) = elim (Bool-cases r.accepted) [
      | inr bad ↦ rw bad (inl ((refl, refl), not-402-200))
      | inl good ↦ rw good (served s (adapter call.model call.messages call.max_tokens))
    ]
      where
        served :
            (s : State) (answer : Option ChatResult)
            → ChargeOnSuccess R G request call times answer s (elim answer [
              | none ↦ (ok (failure 502 "runtime error serving the model"), s)
              | some result ↦ settle R G request call result times price s
            ])
        served s none = inl ((refl, refl), λ e. absurd (omega arith))
        served s (some result) = settle-cases required result s

-- Charge on success: a request that has to be paid for changes neither the table nor the ledger
-- and is not answered with status 200, as with a failing runtime or a lost race, or it is served: then
-- the keys of the payment are spent, none of which was before, and the completion, its receipt and the
-- ledger entry carry the price that was required.
pub serve_paid-ChargeOnSuccess :
    (R : Runtime) (G : Config) (request : Request) (call : Call) (times : Times) (adapter : Adapter)
    (s : State)
    → ChargeOnSuccess R G request call times
        (adapter call.model call.messages call.max_tokens)
        s
        (serve_paid R G adapter request call times s)
unfolding serve_paid
serve_paid-ChargeOnSuccess R G request call times adapter s =
    elim (Result-cases (required_price G call)) [
      | inr (e, n) ↦ rw (serve_paid, n) (inl ((refl, refl), tt))
      | inl (price, required) ↦
          let t = terms R G request price times.checked in
          rw (serve_paid, required, check_leaves_table R call.payment t s.spent)
            (after_check-cases R G request call times price adapter required s
              (redeem_payment R call.payment t s.spent false).0)
    ]
