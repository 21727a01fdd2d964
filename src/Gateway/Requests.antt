-- ===== src/Gateway/Requests.antt =====
-- What app.py asks of a request before it serves it: the token, the shape of the body, the model
-- allowlist and the size caps.
pub mod Gate
use Prim.Native.Char.{Char}
use sovereign_inference.Base.{
  ℕ, zero, suc, ◌+◌, ◌≤◌, String, Bool, true, false, not, ◌&&◌, Option, none, some, List, [], ◌∷◌,
  ◌==◌, ltb, leb, contains, is_empty, if◌then◌else◌, ℤ, pos,
}
use sovereign_inference.Json.{
  Json, null, int, string, array, object, Dict, get, get_or, as_dict, as_list, as_string, dict_of,
  array_of, text_in,
}
use sovereign_inference.Runtime.{Moment}
use sovereign_inference.Protocol.Signing.{KeyPair}
use sovereign_inference.Gateway.Text.{char_count, word_count, before_sep, after_sep}
use sovereign_inference.Gateway.Pricing.{Floats}

-- The keyword arguments of `create_app`. Its integers are not negative.
pub record Config : Type 0 where
  pub keypair : KeyPair
  pub adapter_name : String
  pub allowed_models : List String
  pub token : Option String
  pub max_output_tokens : ℕ
  pub max_input_chars : ℕ
  pub model_manifest_hash : String
  pub price_units : String
  pub input_per_1m : String
  pub output_per_1m : String
  pub require_payment : Bool
  pub pic_issuers : List String
  pub accept_schemes : List String
  -- `str.lower` and `str.isspace` of Python
  pub lower : String → String
  pub is_space : Char → Bool
  pub floats : Floats

-- A request as FastAPI hands it over; the body is missing if it is not JSON.
pub record Request : Type 0 where
  pub authorization : String
  pub body : Option Json
  pub privacy_mode : Option String
  pub request_id : Option String

pub record Response : Type 0 where
  pub status : ℕ
  pub content : Dict

abbrev pub failure : ℕ → String → Response
failure status message = record {
  status = status;
  content = Dict.entry "error" (string message) Dict.empty;
}

-- `_auth_ok`
unfoldable pub auth_ok : Config → Request → Bool
unfolding before_sep after_sep
auth_ok G request = elim G.token [
  | none ↦ true
  | some token ↦
      G.lower (before_sep b' ' request.authorization) == "bearer"
      && after_sep b' ' request.authorization == token
]

-- `_valid_messages`, with the contents that it finds
unfoldable pub valid_message : Json → Option String
valid_message m = elim (as_dict m) [
  | none ↦ none
  | some d ↦ elim (as_string (get d "role")) [
    | none ↦ none
    | some role ↦ as_string (get d "content")
  ]
]

unfoldable pub contents_of : List Json → Option (List String)
unfolding valid_message
contents_of [] = some []
contents_of (m ∷ ms) = elim (valid_message m) [
  | none ↦ none
  | some content ↦ elim (contents_of ms) [ none ↦ none | some contents ↦ some (content ∷ contents) ]
]

-- A list of messages that is not empty, with the content of each
unfoldable pub valid_messages : Json → Option (List Json × List String)
unfolding contents_of
valid_messages messages = elim (as_list messages) [
  | none ↦ none
  | some [] ↦ none
  | some (m ∷ ms) ↦ elim (contents_of (m ∷ ms)) [
    | none ↦ none
    | some contents ↦ some (m ∷ ms, contents)
  ]
]

-- An `int` that is no `bool` and is at least 1
unfoldable pub positive_int : Json → Option ℕ
positive_int (int (ℤ.pos n)) = if ltb 0 n then some n else none
positive_int _ = none

unfoldable pub total_chars : List String → ℕ
total_chars [] = 0
total_chars (s ∷ ss) = char_count s + total_chars ss

unfoldable pub billed_words : (Char → Bool) → List String → ℕ
billed_words is_space [] = 0
billed_words is_space (s ∷ ss) = word_count is_space s + billed_words is_space ss

-- A completion request that has passed steps 1 to 4 of `chat_completions`.
pub record Call : Type 0 where
  pub model : String
  pub messages : List Json
  pub contents : List String
  pub max_tokens : ℕ
  pub payment : Dict

pub data Admission : Type 0 where
  turned_away : Response → Admission
  admitted : Call → Admission

-- The two caps and the allowlist, for a request of the right shape
unfoldable pub admit_call : Config → Call → Admission
admit_call G call =
    if not (contains G.allowed_models call.model)
    then turned_away (failure 404 "unknown model")
    else if ltb G.max_output_tokens call.max_tokens
    then turned_away (failure 413 "max_tokens exceeds gateway cap")
    else if ltb G.max_input_chars (total_chars call.contents)
    then turned_away (failure 413 "input too large")
    else admitted call

-- `raw_payment if isinstance(raw_payment, dict) else {}`
abbrev payment_of : Dict → Dict
payment_of body = elim (as_dict (get body "sip_payment")) [ none ↦ Dict.empty | some p ↦ p ]

unfoldable pub admit_body : Config → Dict → Admission
unfolding admit_call
admit_body G body = elim (as_string (get body "model")) [
  | none ↦ turned_away (failure 400 "missing or invalid fields")
  | some model ↦ elim (valid_messages (get body "messages")) [
    | none ↦ turned_away (failure 400 "missing or invalid fields")
    | some (messages, contents) ↦ elim (positive_int (get_or body "max_tokens" (int (ℤ.pos 256)))) [
      | none ↦ turned_away (failure 400 "invalid max_tokens")
      | some max_tokens ↦ admit_call G (record {
        model = model;
        messages = messages;
        contents = contents;
        max_tokens = max_tokens;
        payment = payment_of body;
      })
    ]
  ]
]

-- Steps 1 to 4 of `chat_completions`
unfoldable pub admit : Config → Request → Admission
admit G request =
    if not (auth_ok G request)
    then turned_away (failure 401 "unauthorized")
    else elim request.body [
      | none ↦ turned_away (failure 400 "malformed JSON")
      | some body ↦ elim (as_dict body) [
        | none ↦ turned_away (failure 400 "body must be an object")
        | some d ↦ admit_body G d
      ]
    ]
