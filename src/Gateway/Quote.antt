-- ===== src/Gateway/Quote.antt =====
-- `quote` of app.py: a signed commitment to a price.
use sovereign_inference.Base.{
  ℕ, ◌+◌, ◌*◌, String, true, not, Option, none, some, ◌≡◌, is_empty, contains, if◌then◌else◌, ℤ,
}
use sovereign_inference.Result.{Result, ok, ◌>>=◌}
use sovereign_inference.Protocol.Documents.{sign_document}
use sovereign_inference.Json.{Dict, string, int, get, as_dict, as_string}
use sovereign_inference.Runtime.{Runtime, Moment, microseconds}
use sovereign_inference.Protocol.Signing.{public_key_str}
use sovereign_inference.Protocol.Artifacts.{QuoteFields, build_quote, verify_quote}
use sovereign_inference.Gateway.Pricing.{price_amount}
use sovereign_inference.Gateway.Requests.{Config, Request, Response, failure, auth_ok, positive_int}

-- The fields of the quote for a request of the right shape
unfoldable pub quote_fields :
    Runtime → Config → String → String → ℕ → String → Option String → Moment → QuoteFields
quote_fields R G request_id model max_out max_price privacy_mode issued = record {
  request_id = request_id;
  provider_pubkey = public_key_str R G.keypair;
  model_alias = model;
  price_units = G.price_units;
  input_per_1m = G.input_per_1m;
  output_per_1m = G.output_per_1m;
  max_output_tokens = ℤ.pos max_out;
  max_price = max_price;
  issued_at = issued;
  expires_at = issued + 300 * microseconds;
  privacy_mode = privacy_mode;
}

-- The price of the largest input with the output that is asked for
unfoldable pub max_price : Config → ℕ → Result String
max_price G max_out =
    price_amount G.floats G.input_per_1m G.output_per_1m (ℤ.pos G.max_input_chars) (ℤ.pos max_out)

-- The quote of a request of the right shape, signed. The price and the signature may raise.
unfoldable pub signed_quote :
    Runtime → Config → String → String → ℕ → Option String → Moment → Result Response
signed_quote R G request_id model max_out privacy_mode issued = do
  price ← max_price G max_out
  signed ←
      sign_document R
        (build_quote R (quote_fields R G request_id model max_out price privacy_mode issued))
        G.keypair
  ok (record { status = 200; content = signed })

unfoldable pub quote_body : Runtime → Config → Dict → Moment → Result Response
quote_body R G body issued = elim (as_string (get body "request_id")) [
  | none ↦ ok (failure 400 "missing or invalid fields")
  | some request_id ↦ elim (as_string (get body "model")) [
    | none ↦ ok (failure 400 "missing or invalid fields")
    | some model ↦ elim (positive_int (get body "max_output_tokens")) [
      | none ↦ ok (failure 400 "missing or invalid fields")
      | some max_out ↦
          if not (contains G.allowed_models model)
          then ok (failure 404 "unknown model")
          else signed_quote R G request_id model max_out (as_string (get body "privacy_mode"))
              issued
    ]
  ]
]

unfoldable pub quote : Runtime → Config → Request → Moment → Result Response
unfolding quote_body
quote R G request issued =
    if not (auth_ok G request) then ok (failure 401 "unauthorized") else elim request.body [
      | none ↦ ok (failure 400 "malformed JSON")
      | some body ↦ elim (as_dict body) [
        | none ↦ ok (failure 400 "body must be an object")
        | some d ↦ quote_body R G d issued
      ]
    ]

-- What a body asks a quote for, field by field
pub record AsksQuote (body : Dict) (request_id model : String) (max_out : ℕ) : Type 0 where
  pub request_named : get body "request_id" ≡ string request_id
  pub model_named : get body "model" ≡ string model
  pub tokens : get body "max_output_tokens" ≡ int (ℤ.pos max_out)

-- A quote that was given for a body: for a model of the allowlist, what the body asks for, with the
-- bound on the price from the caps, signed and valid if the schema accepts it.
pub record Committed (R : Runtime) (G : Config) (issued : Moment) (body : Dict) (r : Response)
    : Type 0 where
  pub request_id : String
  pub model : String
  pub max_out : ℕ
  pub price : String
  pub asked : AsksQuote body request_id model max_out
  pub known : contains G.allowed_models model ≡ true
  pub priced : max_price G max_out ≡ ok price
  pub content :
      sign_document R
        (build_quote R (
          quote_fields R G request_id model max_out price
            (as_string (get body "privacy_mode"))
            issued))
        G.keypair
      ≡ ok r.content
  pub valid : (verify_quote R r.content).valid ≡ is_empty (R.iter_errors "quote" r.content)
