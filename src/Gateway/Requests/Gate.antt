-- ===== src/Gateway/Requests/Gate.antt =====
-- What a request has passed once it is admitted, and how one is turned away.
use sovereign_inference.Base.{
  ℕ, ◌≤◌, String, Option, none, List, [], ◌∷◌, map, subst, sym, ap, refl, ◌∙◌, ◌⊎◌, true, some, ◌≡◌,
  inl, inr, arith, ltb, contains, Bool-cases, Option-cases, ℤ,
}
use sovereign_inference.Json.{
  Json, null, bool, int, float, string, array, object, Dict, get, get_or, as_dict, as_string, Array,
  elements,
}
use sovereign_inference.Json.Laws.{as_dict-object, as_string-string}
use sovereign_inference.Gateway.Requests.{
  Config, Request, auth_ok, valid_message, contents_of, valid_messages, positive_int, total_chars,
  Call, Admission, turned_away, admitted, admit_call, admit_body, admit,
}

-- The caps and the list of the models, and no more than that.
pub record WithinCaps (G : Config) (call : Call) : Type 0 where
  pub known : contains G.allowed_models call.model ≡ true
  pub some_tokens : 1 ≤ call.max_tokens
  pub capped_tokens : call.max_tokens ≤ G.max_output_tokens
  pub capped_input : total_chars call.contents ≤ G.max_input_chars

-- The field `content` of a message
abbrev content_field : Json → Json
content_field (object d) = get d "content"
content_field _ = null

-- What a body asks for, field by field
pub record AsksFor (body : Dict) (call : Call) : Type 0 where
  pub model : get body "model" ≡ string call.model
  pub messages : (xs : Array) × (get body "messages" ≡ array xs) × (elements xs ≡ call.messages)
  pub contents : map content_field call.messages ≡ map string call.contents
  pub tokens : get_or body "max_tokens" (int (ℤ.pos 256)) ≡ int (ℤ.pos call.max_tokens)
  pub payment :
      (get body "sip_payment" ≡ object call.payment)
      ⊎ ((as_dict (get body "sip_payment") ≡ none) × (call.payment ≡ Dict.empty))

-- The body of the request is an object that asks for the call.
abbrev pub Asked : Request → Call → Type 0
Asked request call = (d : Dict) × (request.body ≡ some (object d)) × AsksFor d call

-- Turned away with a status of the 4xx range, or authorised, within the caps and as asked for.
abbrev pub Gate : Config → Request → Admission → Type 0
Gate G request (turned_away r) = (400 ≤ r.status) × (r.status ≤ 413)
Gate G request (admitted call) = (auth_ok G request ≡ true) × WithinCaps G call × Asked request call

positive_int-le : (j : Json) (n : ℕ) → positive_int j ≡ some n → 1 ≤ n
unfolding positive_int
positive_int-le (int (ℤ.pos m)) n h = ground arith
positive_int-le (int (ℤ.negsuc m)) n h = cc
positive_int-le null n h = cc
positive_int-le (bool b) n h = cc
positive_int-le (float x) n h = cc
positive_int-le (string s) n h = cc
positive_int-le (array xs) n h = cc
positive_int-le (object d) n h = cc

pub positive_int-int : (j : Json) (n : ℕ) → positive_int j ≡ some n → j ≡ int (ℤ.pos n)
unfolding positive_int
positive_int-int (int (ℤ.pos m)) n h = ground arith
positive_int-int (int (ℤ.negsuc m)) n h = cc
positive_int-int null n h = cc
positive_int-int (bool b) n h = cc
positive_int-int (float x) n h = cc
positive_int-int (string s) n h = cc
positive_int-int (array xs) n h = cc
positive_int-int (object d) n h = cc

valid_message-content :
    (m : Json) (c : String) → valid_message m ≡ some c → content_field m ≡ string c
unfolding valid_message
valid_message-content (object d) c h = elim (Option-cases (as_string (get d "role"))) [
  | inl n ↦ absurd (ground arith)
  | inr (role, r) ↦ as_string-string (get d "content") c (ground arith)
]
valid_message-content null c h = cc
valid_message-content (bool b) c h = cc
valid_message-content (int z) c h = cc
valid_message-content (float x) c h = cc
valid_message-content (string s) c h = cc
valid_message-content (array xs) c h = cc

contents_of-map :
    (ms : List Json) (cs : List String)
    → contents_of ms ≡ some cs
    → map content_field ms ≡ map string cs
unfolding contents_of
contents_of-map [] [] h = refl
contents_of-map [] (c ∷ cs) h = cc
contents_of-map (m ∷ ms) cs h = elim (Option-cases (valid_message m)) [
  | inl n ↦ absurd (ground arith)
  | inr (c, v) ↦ elim (Option-cases (contents_of ms)) [
    | inl n ↦ absurd (ground arith)
    | inr (rest, w) ↦
        let same : c ∷ rest ≡ cs = ground arith in
        subst (λ l. content_field m ∷ map content_field ms ≡ map string l) same
          (rw (valid_message-content m c v, contents_of-map ms rest w) refl)
  ]
]

valid_messages-given :
    (j : Json) (ms : List Json) (cs : List String)
    → valid_messages j ≡ some (ms, cs)
    → ((xs : Array) × (j ≡ array xs) × (elements xs ≡ ms)) × (map content_field ms ≡ map string cs)
unfolding valid_messages
valid_messages-given (array xs) ms cs h = listed (elements xs) refl h
  where
    listed :
        (l : List Json)
        → elements xs ≡ l
        → valid_messages (array xs) ≡ some (ms, cs)
        → ((ys : Array) × (array xs ≡ array ys) × (elements ys ≡ ms))
          × (map content_field ms ≡ map string cs)
    listed [] e g = absurd (ground arith)
    listed (m ∷ rest) e g = elim (Option-cases (contents_of (m ∷ rest))) [
      | inl n ↦ absurd (ground arith)
      | inr (found, w) ↦
          let same_m : m ∷ rest ≡ ms = ground arith in
          let same_c : found ≡ cs = ground arith in
          (
            (xs, refl, e ∙ same_m),
            subst (λ l. map content_field l ≡ map string cs) same_m
                (subst (λ l. map content_field (m ∷ rest) ≡ map string l) same_c
                  (contents_of-map (m ∷ rest) found w)),
          )
    ]
valid_messages-given null ms cs h = cc
valid_messages-given (bool b) ms cs h = cc
valid_messages-given (int z) ms cs h = cc
valid_messages-given (float x) ms cs h = cc
valid_messages-given (string s) ms cs h = cc
valid_messages-given (object d) ms cs h = cc

module _ (G : Config) (request : Request) (authorised : auth_ok G request ≡ true) where
  admit_call-Gate :
      (call : Call) → 1 ≤ call.max_tokens → Asked request call → Gate G request (admit_call G call)
  unfolding admit_call
  admit_call-Gate call positive asked = elim (Bool-cases (contains G.allowed_models call.model)) [
    | inr unknown ↦ rw unknown (omega arith, omega arith)
    | inl known ↦ elim (Bool-cases (ltb G.max_output_tokens call.max_tokens)) [
      | inl over ↦ rw (known, over) (omega arith, omega arith)
      | inr tokens ↦ elim (Bool-cases (ltb G.max_input_chars (total_chars call.contents))) [
        | inl over ↦ rw (known, tokens, over) (omega arith, omega arith)
        | inr input ↦
            rw (known, tokens, input)
              (
                authorised,
                record {
                  known = known;
                  some_tokens = positive;
                  capped_tokens = ground arith;
                  capped_input = ground arith;
                },
                asked,
              )
      ]
    ]
  ]

  admit_body-Gate :
      (body : Dict) → request.body ≡ some (object body) → Gate G request (admit_body G body)
  unfolding admit_body
  admit_body-Gate body given = elim (Option-cases (as_string (get_or body "model" null))) [
    | inl n ↦ rw (admit_body, n) (omega arith, omega arith)
    | inr (model, m) ↦ elim (Option-cases (valid_messages (get body "messages"))) [
      | inl n ↦ rw (admit_body, m, n) (omega arith, omega arith)
      | inr ((messages, contents), v) ↦
          elim (Option-cases (positive_int (get_or body "max_tokens" (int (ℤ.pos 256))))) [
            | inl n ↦ rw (admit_body, m, v, n) (omega arith, omega arith)
            | inr (max_tokens, p) ↦
                rw (admit_body, m, v, p)
                  (admit_call-Gate _ (positive_int-le _ max_tokens p) (
                    body,
                    given,
                    record {
                      model = as_string-string _ model m;
                      messages = (valid_messages-given _ messages contents v).0;
                      contents = (valid_messages-given _ messages contents v).1;
                      tokens = positive_int-int _ max_tokens p;
                      payment = paid_with (as_dict (get body "sip_payment")) refl;
                    },
                  ))
          ]
    ]
  ]
    where
      paid_with :
          (found : Option Dict)
          → as_dict (get body "sip_payment") ≡ found
          → (get body "sip_payment" ≡ object (elim found [ none ↦ Dict.empty | some p ↦ p ]))
            ⊎ ((as_dict (get body "sip_payment") ≡ none)
                × (elim found [ none ↦ Dict.empty | some p ↦ p ] ≡ Dict.empty))
      paid_with none e = inr (e, refl)
      paid_with (some p) e = inl (as_dict-object _ p e)

admit-body :
    (G : Config) (request : Request) (body : Json) (d : Dict)
    → auth_ok G request ≡ true
    → request.body ≡ some body
    → as_dict body ≡ some d
    → admit G request ≡ admit_body G d
unfolding admit
admit-body G request body d authorised b o = rw (admit, authorised, b, o) refl

-- A request is turned away with a client error, from 400 to 413, or it bears the token that the
-- gateway was set up with, its model is in the allowlist, and its input and the tokens it asks for are
-- within the caps. What is admitted is what the body says: its model, its messages with the content of
-- each, its `max_tokens`, 256 if there is none, and its payment, an empty one if there is none.
pub admit-Gate : (G : Config) (request : Request) → Gate G request (admit G request)
unfolding admit auth_ok
admit-Gate G request = elim (Bool-cases (auth_ok G request)) [
  | inr no_token ↦ rw no_token (omega arith, omega arith)
  | inl authorised ↦ elim (Option-cases request.body) [
    | inl n ↦ rw (authorised, n) (omega arith, omega arith)
    | inr (body, b) ↦ elim (Option-cases (as_dict body)) [
      | inl n ↦ rw (authorised, b, n) (omega arith, omega arith)
      | inr (d, o) ↦
          subst (Gate G request) (sym (admit-body G request body d authorised b o))
            (admit_body-Gate G request authorised d (b ∙ ap some (as_dict-object body d o)))
    ]
  ]
]
