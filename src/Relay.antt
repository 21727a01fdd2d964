-- ===== src/Relay.antt =====
-- apps/relay/src/sip_relay/app.py: a relay forwards a completion to the provider whose manifest the
-- client names, and the provider's answer back.
pub mod Forward
pub mod Client
pub mod Receipts
use sovereign_inference.Base.{
  ℕ, String, Bool, true, false, not, Option, none, some, List, [], ◌∷◌, ◌==◌, if◌then◌else◌,
}
use sovereign_inference.Json.{
  Json, null, string, object, Dict, empty, entry, get, as_string, as_dict, is_text,
}
use sovereign_inference.Result.{Result, ok, raised, ◌>>=◌, value_error, transport_error}
use sovereign_inference.Runtime.{Runtime}
use sovereign_inference.Urls.{Urls, is_safe_forward_url}
use sovereign_inference.Protocol.Manifests.{verify_provider_manifest}
use sovereign_inference.Router.Client.{Reply}

-- `JSONResponse`
pub record Answer : Type 0 where
  pub status : ℕ
  pub content : Json

abbrev pub error_answer : ℕ → String → Answer
error_answer status message = record {
  status = status;
  content = object (entry "error" (string message) empty);
}

-- What the checks of the handler say of a target: an answer that refuses it, or the URL to use.
pub data Verdict : Type 0 where
  refuse : Answer → Verdict
  forward_to : String → Verdict

-- The checks of `relay` on a target
unfoldable pub judge : Runtime → Urls → Dict → Result Verdict
judge R U target = elim (as_dict (get target "manifest")) [
  | none ↦ ok (refuse (error_answer 400 "target needs base_url + manifest"))
  | some manifest ↦ elim (as_string (get target "base_url")) [
    | none ↦ ok (refuse (error_answer 400 "target needs base_url + manifest"))
    | some base_url ↦ (do
      verified ← verify_provider_manifest R manifest
      ok (
          if not verified
          then refuse (error_answer 400 "target manifest does not verify")
          else if not (is_text (get manifest "manifest_uri") base_url)
          then refuse (error_answer 400 "base_url does not match the signed manifest_uri")
          else if not (is_safe_forward_url U base_url)
          then refuse (error_answer 400 "refusing to forward to a private/loopback address")
          else forward_to base_url))
  ]
]

-- `JSONResponse(content, status)`, which serialises as `canonical_json` does and raises where it does
abbrev pub json_response : Runtime → ℕ → Json → Result Answer
json_response R status content =
    if R.dumps_raises content
    then raised value_error
    else ok (record { status = status; content = content })

-- The answer to what the provider has sent, or to a failure of the request: `httpx.HTTPError` is
-- caught. The text of the failure, which the message ends with, is left out.
unfoldable pub passed_on : Runtime → Result Reply → Result Answer
passed_on R (raised transport_error) = ok (error_answer 502 "upstream provider unreachable: ")
passed_on R (raised e) = raised e
passed_on R (ok upstream) = json_response R upstream.status (elim upstream.body [
  | none ↦ object (entry "error" (string "provider returned non-JSON") empty)
  | some payload ↦ payload
])

-- A request that the relay makes: to which provider, and with which completion.
abbrev pub ForwardedRequest : Type 0
ForwardedRequest = String × Dict

-- `relay`, with the request that it makes, if it makes one. The body is missing if it is not JSON;
-- `post` is the client for a base URL.
unfoldable pub relay :
    Runtime
    → Urls
    → (String → Dict → Result Reply)
    → Option Json
    → Result Answer × Option ForwardedRequest
unfolding judge passed_on
relay R U post none = (ok (error_answer 400 "body must be JSON"), none)
relay R U post (some j) = elim (as_dict j) [
  | none ↦ (ok (error_answer 400 "expected {target, completion}"), none)
  | some body ↦ elim (as_dict (get body "target")) [
    | none ↦ (ok (error_answer 400 "expected {target, completion}"), none)
    | some target ↦ elim (as_dict (get body "completion")) [
      | none ↦ (ok (error_answer 400 "expected {target, completion}"), none)
      | some completion ↦ elim (judge R U target) [
        | raised e ↦ (raised e, none)
        | ok (refuse answer) ↦ (ok answer, none)
        | ok (forward_to base_url) ↦
            (passed_on R (post base_url completion), some (base_url, completion))
      ]
    ]
  ]
]
