-- ===== src/Router/Client.antt =====
-- client.py: the parts of a visit to one provider, from the health check to the payment.
use Prim.Native.String.{◌++◌ as str_append}
use sovereign_inference.Base.{
  ℕ, String, Bool, false, not, ◌&&◌, Option, none, some, List, [], ◌∷◌, map, eqb, if◌then◌else◌, ℤ,
}
use sovereign_inference.Json.{
  Json, null, int, string, object, array, Dict, array_of, dict_of, set_some, get, as_string,
  as_dict, as_list, is_text, text_in,
}
use sovereign_inference.Result.{Result, ok, raised, ◌>>=◌, insufficient_funds}
use sovereign_inference.Runtime.{Runtime, Moment, Decimal}
use sovereign_inference.Protocol.Signing.{KeyPair}
use sovereign_inference.Protocol.Documents.{verify_document}
use sovereign_inference.Protocol.Artifacts.{
  verify_quote, quote_is_expired, verify_receipt, hash_response_body,
}
use sovereign_inference.Pic.Payment.{build_pic_payment}
use sovereign_inference.Pic.X402.{build_x402_payment, false_on_bad_number}
use sovereign_inference.Pic.Wallet.{Held, Wallet, add, select}

-- `httpx.Response`; the body is missing if it is not JSON.
pub record Reply : Type 0 where
  pub status : ℕ
  pub body : Option Json

abbrev pub Headers : Type 0
Headers = List (String × String)

-- `httpx.Client` for one provider: an answer, or an exception of httpx, which is `transport_error`.
-- No two requests of one visit agree in the path, the headers and the body.
pub record Peer : Type 0 where
  pub get_path : String → Result Reply
  pub post : String → Headers → Dict → Result Reply

-- A candidate, and what a visit to it draws and reads. The manifest's `provider_pubkey` is a string,
-- as its schema asks, and it is all that the client reads of the manifest.
pub record Candidate : Type 0 where
  pub base_url : String
  pub provider_pubkey : String
  pub peer : Peer
  pub nonce : String
  pub paid_at : Moment
  pub checked_at : Moment

-- The arguments of `chat`, and the client's token.
pub record Route : Type 0 where
  pub model : String
  pub messages : List Json
  pub max_tokens : ℕ
  pub privacy_mode : String
  pub verify_receipts : Bool
  pub get_quote : Bool
  pub request_id : String
  pub token : Option String
  pub x402_keypair : Option KeyPair

-- The label of an attempt: a name, `http_` with a status, or an exception of httpx.
pub data Label : Type 0 where
  named : String → Label
  http : ℕ → Label
  transport : Label

-- `_Served`
pub record Served : Type 0 where
  pub content : String
  pub receipt : Json
  pub quote : Option Dict

-- `_Attempt`
pub data Attempt : Type 0 where
  failed : Label → Attempt
  served : Served → Attempt

-- `_safe_json`
abbrev pub safe_json : Reply → Json
safe_json reply = elim reply.body [ none ↦ null | some body ↦ body ]

-- `_extract_content`
unfoldable pub extract_content : Json → Option String
extract_content body = elim (as_dict body) [
  | none ↦ none
  | some b ↦ elim (as_list (get b "choices")) [
    | none ↦ none
    | some [] ↦ none
    | some (choice ∷ _) ↦ elim (as_dict choice) [
      | none ↦ none
      | some c ↦ elim (as_dict (get c "message")) [
        | none ↦ none
        | some message ↦ as_string (get message "content")
      ]
    ]
  ]
]

-- `_health_ok`
unfoldable pub health_ok : Candidate → Result Bool
health_ok v = do
  reply ← v.peer.get_path "/sip/v1/health"
  ok (
      eqb reply.status 200 && (elim (as_dict (safe_json reply)) [
        | none ↦ false
        | some body ↦ is_text (get body "status") "ok"
      ]))

abbrev pub authorization : Option String → Headers
authorization none = []
authorization (some token) = ("Authorization", str_append "Bearer " token) ∷ []

-- `_completion_headers`
abbrev pub completion_headers : Route → Headers
completion_headers r =
    ("X-SIP-Request-Id", r.request_id)
    ∷ ("X-SIP-Privacy-Mode", r.privacy_mode)
    ∷ authorization r.token

-- `_fetch_quote`
unfoldable pub fetch_quote : Runtime → Candidate → Route → Result (Option Dict)
unfolding dict_of
fetch_quote R v r = do
  reply ← v.peer.post "/sip/v1/quote" (authorization r.token) (
      dict_of (
        ("request_id", string r.request_id)
        ∷ ("model", string r.model)
        ∷ ("max_output_tokens", int (ℤ.pos r.max_tokens))
        ∷ ("privacy_mode", string r.privacy_mode)
        ∷ []))
  ok (
      if not (eqb reply.status 200) then none else elim (as_dict (safe_json reply)) [
        | none ↦ none
        | some quote ↦ if (verify_quote R quote).valid then some quote else none
      ])

-- `_post_completion`
unfoldable pub post_completion : Candidate → Route → Option Dict → Result Reply
unfolding dict_of set_some
post_completion v r payment = v.peer.post "/v1/chat/completions" (completion_headers r) (
    set_some
      (dict_of (
        ("model", string r.model)
        ∷ ("messages", array (array_of r.messages))
        ∷ ("max_tokens", int (ℤ.pos r.max_tokens))
        ∷ []))
      "sip_payment" (elim payment [ none ↦ none | some p ↦ some (object p) ]))

-- The tests of `_receipt_trusted` on a receipt that is a dict
unfoldable pub receipt_binds : Runtime → Dict → Candidate → String → Bool
receipt_binds R d v content =
    if not (verify_receipt R d).valid
    then false
    else if not (is_text (get d "provider_pubkey") v.provider_pubkey)
    then false
    else is_text (get d "response_hash") (hash_response_body R content)

-- `_receipt_trusted`, which raises where verifying the signature of the receipt does
unfoldable pub receipt_trusted : Runtime → Json → Candidate → String → Result Bool
unfolding receipt_binds
receipt_trusted R receipt v content = elim (as_dict receipt) [
  | none ↦ ok false
  | some d ↦ (do
    signature_ok ← verify_document R d "provider_pubkey"
    ok (receipt_binds R d v content))
]

-- `Decimal(str(receipt.get("price_amount"))) <= Decimal(str(quote.get("max_price")))`. Only the two
-- conversions stand in the `try`; the comparison may raise.
unfoldable pub two_amounts : Runtime → Dict → Dict → Result (Decimal × Decimal)
two_amounts R quote receipt = do
  charged ← R.decimals.decimal (string (R.text_of (get receipt "price_amount")))
  committed ← R.decimals.decimal (string (R.text_of (get quote "max_price")))
  ok (charged, committed)

unfoldable pub price_kept : Runtime → Dict → Dict → Result Bool
unfolding two_amounts
price_kept R quote receipt = elim (two_amounts R quote receipt) [
  | raised e ↦ false_on_bad_number (raised e)
  | ok (charged, committed) ↦ do above ← R.decimals.less committed charged; ok (not above)
]

-- `_quote_honored`
unfoldable pub quote_honored : Runtime → Dict → Json → Candidate → Result Bool
quote_honored R quote receipt v =
    if not (is_text (get quote "provider_pubkey") v.provider_pubkey)
    then ok false
    else if quote_is_expired R quote v.checked_at
    then ok false
    else elim (as_dict receipt) [
      | none ↦ ok false
      | some d ↦
          if not (R.equals (get d "price_units") (get quote "price_units"))
          then ok false
          else price_kept R quote d
    ]

-- `_prepare_payment`: a label to fail over with, or a payment with the vouchers that were taken.
pub data Prepared : Type 0 where
  unpayable : Label → Prepared
  paying : Dict → Option (List Held) → Prepared

unfoldable pub pay_by_x402 : Runtime → Candidate → Route → String → String → List Json → Prepared
pay_by_x402 R v r price unit schemes = elim r.x402_keypair [
  | none ↦ unpayable (named "payment_required")
  | some payer ↦
      if text_in "x402" schemes
      then paying
          (build_x402_payment R payer price unit v.paid_at v.nonce none (some v.provider_pubkey)
            (some r.request_id))
          none
      else unpayable (named "payment_required")
]

-- What `select` gave: its batch, or the exception; a lack of funds is caught.
unfoldable pub pay_by_pic : Result (List Held) → Result Prepared
pay_by_pic (ok vouchers) =
    ok (paying (build_pic_payment (map (λ h. object h.voucher) vouchers)) (some vouchers))
pay_by_pic (raised insufficient_funds) = ok (unpayable (named "insufficient_funds"))
pay_by_pic (raised e) = raised e

abbrev pub schemes_of : Json → List Json
schemes_of accepted = elim (as_list accepted) [ none ↦ [] | some xs ↦ xs ]

unfoldable pub pay_challenge :
    Runtime → Candidate → Route → Option Wallet → Dict → Result Prepared × Option Wallet
unfolding pay_by_x402 pay_by_pic
pay_challenge R v r wallet challenge =
    let price = R.text_of (get challenge "price_amount") in
    let unit = R.text_of (get challenge "price_units") in
    let schemes = schemes_of (get challenge "accepted_schemes") in
    elim wallet [
      | none ↦ (ok (pay_by_x402 R v r price unit schemes), none)
      | some w ↦
          if text_in "pic" schemes
          then (let (batch, rest) = select R.decimals w price unit in (pay_by_pic batch, some rest))
          else (ok (pay_by_x402 R v r price unit schemes), some w)
    ]

unfoldable pub prepare_payment :
    Runtime → Candidate → Route → Option Wallet → Reply → Result Prepared × Option Wallet
prepare_payment R v r wallet reply = elim (as_dict (safe_json reply)) [
  | none ↦ (ok (unpayable (named "payment_required")), wallet)
  | some body ↦ elim (as_dict (get body "sip_payment_required")) [
    | none ↦ (ok (unpayable (named "payment_required")), wallet)
    | some challenge ↦ pay_challenge R v r wallet challenge
  ]
]

-- `wallet.add(*reserved)`
unfoldable pub give_back : Option (List Held) → Option Wallet → Option Wallet
give_back (some reserved) (some wallet) = some (add wallet reserved)
give_back _ wallet = wallet

-- `_payment_failover`, whose label is always "payment_rejected"
unfoldable pub payment_failover :
    Option (List Held) → Option Wallet → Label → Attempt × Option Wallet
unfolding give_back
payment_failover none wallet detail = (failed detail, wallet)
payment_failover (some reserved) wallet detail =
    (failed (named "payment_rejected"), give_back (some reserved) wallet)
