-- ===== src/Relay/Client.antt =====
-- apps/relay/src/sip_relay/client.py: the client of a relay checks the provider's receipt.
use sovereign_inference.Base.{ℕ, String, Bool, false, ◌&&◌, none, some, [], ◌∷◌, if◌then◌else◌}
use sovereign_inference.Json.{
  Json, string, array, nil, object, Dict, empty, entry, get, get_or, item, as_dict, as_list,
  is_text,
}
use sovereign_inference.Result.{Result, ok, ◌>>=◌}
use sovereign_inference.Runtime.{Runtime}
use sovereign_inference.Protocol.Documents.{canonical_json}
use sovereign_inference.Protocol.Artifacts.{verify_receipt, hash_response_body, sha256_prefixed}
use sovereign_inference.Relay.{Answer}

-- `RelayResult`
pub record RelayResult : Type 0 where
  pub content : String
  pub receipt : Dict
  pub status_code : ℕ
  pub verified : Bool

-- `_content_of`
unfoldable pub content_of : Runtime → Dict → String
content_of R payload = elim (as_list (get payload "choices")) [
  | none ↦ ""
  | some [] ↦ ""
  | some (choice ∷ _) ↦ elim (as_dict choice) [
    | none ↦ ""
    | some c ↦ elim (as_dict (get c "message")) [
      | none ↦ ""
      | some message ↦ elim (item message "content") [
        | none ↦ ""
        | some content ↦ R.text_of content
      ]
    ]
  ]
]

-- `hash_request` on the fields of a completion, whatever they are
unfoldable pub hash_completion : Runtime → Dict → Result String
unfolding sha256_prefixed
hash_completion R completion = do
  body ← canonical_json R (
      entry "model" (get_or completion "model" (string ""))
        (entry "messages" (get_or completion "messages" (array nil)) empty))
  ok (sha256_prefixed R body)

-- `x if isinstance(x, dict) else {}`
abbrev pub dict_or_empty : Json → Dict
dict_or_empty (object d) = d
dict_or_empty _ = empty

-- The verdict of the client on a receipt for a content and a completion
unfoldable pub receipt_verified : Runtime → Dict → String → Dict → Result Bool
unfolding verify_receipt
receipt_verified R empty content completion = ok false
receipt_verified R (entry k v d) content completion = do
  asked ← hash_completion R completion
  ok (
      (verify_receipt R (entry k v d)).valid
      && is_text (get (entry k v d) "response_hash") (hash_response_body R content)
      && is_text (get (entry k v d) "request_hash") asked)

-- What `relay_chat` makes of an answer
unfoldable pub read_answer : Runtime → Answer → Dict → Bool → Result RelayResult
unfolding receipt_verified content_of
read_answer R response completion verify_receipts =
    let payload = dict_or_empty response.content in
    let content = content_of R payload in
    let receipt = dict_or_empty (get payload "sip_receipt") in
    do
      verified ← if verify_receipts then receipt_verified R receipt content completion else ok false
      ok (record {
        content = content;
        receipt = receipt;
        status_code = response.status;
        verified = verified;
      })

-- `relay_chat`. `post` posts a body to the relay; its answer is JSON, or an exception of httpx.
unfoldable pub relay_chat :
    Runtime → (Dict → Result Answer) → Dict → Dict → Bool → Result RelayResult
unfolding read_answer
relay_chat R post target completion verify_receipts = do
  response ← post (entry "target" (object target) (entry "completion" (object completion) empty))
  read_answer R response completion verify_receipts
