-- ===== src/Router/Chat.antt =====
-- client.py: `SovereignClient.chat` over the candidates that the resolver has ranked, each of which
-- is visited by `_serve` and `_try_candidate`.
pub mod Trust
use sovereign_inference.Base.{
  ℕ, String, Bool, true, false, not, ◌||◌, ◌==◌, Option, none, some, List, [], ◌∷◌, ◌++◌, eqb, leb,
  if◌then◌else◌,
}
use sovereign_inference.Json.{
  Json, null, bool, string, array, object, nil, cons, Dict, empty, get, as_dict,
}
use sovereign_inference.Result.{Result, ok, Exception, raised, ◌>>=◌, transport_error}
use sovereign_inference.Runtime.{Runtime}
use sovereign_inference.Pic.Wallet.{Held, Wallet}
use sovereign_inference.Router.Client.{
  Reply, Candidate, Route, Label, named, http, transport, Served, Attempt, failed, served,
  safe_json, extract_content, health_ok, fetch_quote, post_completion, receipt_trusted,
  quote_honored, Prepared, unpayable, paying, prepare_payment, give_back, payment_failover,
}

-- `body.get("sip_receipt") if isinstance(body, dict) else None`
abbrev pub receipt_in : Json → Json
receipt_in body = elim (as_dict body) [ none ↦ null | some b ↦ get b "sip_receipt" ]

-- `receipt or {}`
abbrev pub or_empty : Runtime → Json → Json
or_empty R null = object empty
or_empty R (string s) = if s == "" then object empty else string s
or_empty R (array nil) = object empty
or_empty R (array (cons x xs)) = array (cons x xs)
or_empty R (object d) = object d
or_empty R number = if R.equals number (bool false) then object empty else number

-- `quote is not None and not self._quote_honored(...)` turned round
abbrev pub honours : Runtime → Option Dict → Json → Candidate → Result Bool
honours R none receipt v = ok true
honours R (some quote) receipt v = quote_honored R quote receipt v

abbrev pub trusts : Runtime → Route → Json → Candidate → String → Result Bool
trusts R r receipt v content =
    if not r.verify_receipts then ok true else receipt_trusted R receipt v content

-- `return self._payment_failover(...)`
abbrev pub refuse : Option (List Held) → Option Wallet → Label → Result Attempt × Option Wallet
refuse reserved wallet label =
    let (attempt, after) = payment_failover reserved wallet label in (ok attempt, after)

-- The test of the quote at the end of `_serve`
unfoldable pub keep_quote :
    Runtime
    → Candidate
    → Option Dict
    → Option (List Held)
    → Option Wallet
    → String
    → Json
    → Result Attempt × Option Wallet
keep_quote R v quote reserved wallet content receipt = elim (honours R quote receipt v) [
  | raised e ↦ (raised e, wallet)
  | ok false ↦ refuse reserved wallet (named "quote_violated")
  | ok true ↦ (
    ok (served (record { content = content; receipt = or_empty R receipt; quote = quote })),
    wallet,
  )
]

-- The test of the receipt, which comes before
unfoldable pub keep_receipt :
    Runtime
    → Candidate
    → Option Dict
    → Option (List Held)
    → Option Wallet
    → String
    → Json
    → Result Bool
    → Result Attempt × Option Wallet
unfolding keep_quote
keep_receipt R v quote reserved wallet content receipt (raised e) = (raised e, wallet)
keep_receipt R v quote reserved wallet content receipt (ok false) =
    refuse reserved wallet (named "receipt_unverified")
keep_receipt R v quote reserved wallet content receipt (ok true) =
    keep_quote R v quote reserved wallet content receipt

-- The end of `_serve`, from the status of the last response on
unfoldable pub finish :
    Runtime
    → Candidate
    → Route
    → Option Dict
    → Option (List Held)
    → Option Wallet
    → Reply
    → Result Attempt × Option Wallet
unfolding keep_receipt
finish R v r quote reserved wallet reply =
    if leb 500 reply.status || eqb reply.status 429
    then refuse reserved wallet (http reply.status)
    else if not (eqb reply.status 200)
    then refuse reserved wallet (http reply.status)
    else elim (extract_content (safe_json reply)) [
      | none ↦ refuse reserved wallet (named "malformed_response")
      | some content ↦
          keep_receipt R v quote reserved wallet content (receipt_in (safe_json reply))
            (trusts R r (receipt_in (safe_json reply)) v content)
    ]

-- The paid retry: if the network fails, the vouchers go back to the wallet.
unfoldable pub retry_paid :
    Runtime
    → Candidate
    → Route
    → Option Dict
    → Dict
    → Option (List Held)
    → Option Wallet
    → Result Attempt × Option Wallet
unfolding finish
retry_paid R v r quote payment reserved wallet = elim (post_completion v r (some payment)) [
  | raised e ↦ (raised e, give_back reserved wallet)
  | ok reply ↦ finish R v r quote reserved wallet reply
]

-- What follows the preparation of a payment
unfoldable pub after_prepare :
    Runtime
    → Candidate
    → Route
    → Option Dict
    → Result Prepared
    → Option Wallet
    → Result Attempt × Option Wallet
unfolding retry_paid
after_prepare R v r quote (raised e) wallet = (raised e, wallet)
after_prepare R v r quote (ok (unpayable label)) wallet = (ok (failed label), wallet)
after_prepare R v r quote (ok (paying payment reserved)) wallet =
    retry_paid R v r quote payment reserved wallet

-- The completion, and the payment if it is asked for
unfoldable pub complete :
    Runtime → Candidate → Route → Option Dict → Option Wallet → Result Attempt × Option Wallet
unfolding after_prepare finish
complete R v r quote wallet = elim (post_completion v r none) [
  | raised e ↦ (raised e, wallet)
  | ok reply ↦
      if eqb reply.status 402
      then (let (prepared, after) = prepare_payment R v r wallet reply in
          after_prepare R v r quote prepared after)
      else finish R v r quote none wallet reply
]

-- The quote, if one is asked for
abbrev pub quoted : Runtime → Candidate → Route → Result (Option (Option Dict))
quoted R v r =
    if r.get_quote
    then (do quote ← fetch_quote R v r; ok (elim quote [ none ↦ none | some q ↦ some (some q) ]))
    else ok (some none)

-- `_serve`
unfoldable pub serve : Runtime → Candidate → Route → Option Wallet → Result Attempt × Option Wallet
unfolding complete
serve R v r wallet = elim (health_ok v) [
  | raised e ↦ (raised e, wallet)
  | ok false ↦ (ok (failed (named "unhealthy")), wallet)
  | ok true ↦ elim (quoted R v r) [
    | raised e ↦ (raised e, wallet)
    | ok none ↦ (ok (failed (named "quote_invalid")), wallet)
    | ok (some quote) ↦ complete R v r quote wallet
  ]
]

abbrev pub is_transport : Exception → Bool
is_transport transport_error = true
is_transport _ = false

-- `except (httpx.TransportError, httpx.HTTPError)`
unfoldable pub catch_transport : Result Attempt → Result Attempt
catch_transport (raised e) = if is_transport e then ok (failed transport) else raised e
catch_transport (ok attempt) = ok attempt

-- `_try_candidate`
unfoldable pub try_candidate :
    Runtime → Candidate → Route → Option Wallet → Result Attempt × Option Wallet
unfolding catch_transport serve
try_candidate R v r wallet =
    let (attempt, after) = serve R v r wallet in (catch_transport attempt, after)

-- An entry of `attempts`: the provider, and the label of the attempt, which is "ok" if it served.
pub record Tried : Type 0 where
  pub base_url : String
  pub outcome : Option Label

-- `RouteResult`, or `NoProviderAvailable`
pub data Routed : Type 0 where
  routed : Candidate → Served → List Tried → Routed
  no_provider_available : List Tried → Routed

-- The loop of `chat`, with the attempts so far
unfoldable pub chat_from :
    Runtime → Route → List Tried → List Candidate → Option Wallet → Result Routed × Option Wallet
chat_from R r attempts [] wallet = (ok (no_provider_available attempts), wallet)
chat_from R r attempts (v ∷ vs) wallet =
    let (attempt, after) = try_candidate R v r wallet in
    elim attempt [
      | raised e ↦ (raised e, after)
      | ok (failed label) ↦
          chat_from R r (attempts ++ record { base_url = v.base_url; outcome = some label } ∷ []) vs
            after
      | ok (served answer) ↦ (
        ok (routed v answer (attempts ++ record { base_url = v.base_url; outcome = none } ∷ [])),
        after,
      )
    ]

-- `chat`, once the candidates are resolved and cut to `max_providers`
unfoldable pub chat :
    Runtime → Route → List Candidate → Option Wallet → Result Routed × Option Wallet
unfolding chat_from
chat R r candidates wallet = chat_from R r [] candidates wallet
