-- ===== src/Router/Chat/Trust.antt =====
-- What the client trusts: the answer that `chat` returns, and the attempts that it records.
use sovereign_inference.Base.{
  String, true, false, Option, none, some, List, [], ◌∷◌, ◌++◌, map, ◌≡◌, inl, inr, refl, arith, ap,
  sym, ◌∙◌, eqb, leb, Bool-cases, Option-cases, ◌||◌, subst,
}
use mathlib.Core.List.{append-nil}
use sovereign_inference.Json.{
  Json, null, bool, int, float, string, array, object, Dict, get, is_text,
}
use sovereign_inference.Protocol.Documents.{verify_document}
use sovereign_inference.Protocol.Artifacts.{verify_receipt, quote_is_expired, hash_response_body}
use sovereign_inference.Result.{Result, ok, raised, Result-cases}
use sovereign_inference.Runtime.{Runtime}
use sovereign_inference.Pic.Wallet.{Held, Wallet}
use sovereign_inference.Router.Client.{
  Reply, Candidate, Route, Label, named, http, Served, Attempt, failed, served, safe_json,
  extract_content, health_ok, post_completion, receipt_binds, receipt_trusted, quote_honored,
  price_kept, Prepared, unpayable, paying, prepare_payment, payment_failover,
}
use sovereign_inference.Router.Chat.{
  receipt_in, or_empty, honours, trusts, refuse, keep_quote, keep_receipt, finish, retry_paid,
  after_prepare, complete, quoted, serve, is_transport, catch_transport, try_candidate, Tried,
  Routed, routed, no_provider_available, chat_from, chat,
}

-- A valid receipt of the candidate, for this very content
pub record ReceiptFor (R : Runtime) (v : Candidate) (content : String) (receipt : Dict)
    : Type 0 where
  pub valid : (verify_receipt R receipt).valid ≡ true
  pub signer : is_text (get receipt "provider_pubkey") v.provider_pubkey ≡ true
  pub answer : is_text (get receipt "response_hash") (hash_response_body R content) ≡ true

-- A quote of the candidate that had not expired, and whose price the receipt keeps
pub record QuoteKept (R : Runtime) (v : Candidate) (quote receipt : Dict) : Type 0 where
  pub quoter : is_text (get quote "provider_pubkey") v.provider_pubkey ≡ true
  pub current : quote_is_expired R quote v.checked_at ≡ false
  pub kept : price_kept R quote receipt ≡ ok true

ok-inj : {A : Type 0} {x y : A} → ok x ≡ ok y → x ≡ y
ok-inj e = cc

receipt_trusted-ReceiptFor :
    (R : Runtime) (v : Candidate) (content : String) (receipt : Json)
    → receipt_trusted R receipt v content ≡ ok true
    → (d : Dict) × (receipt ≡ object d) × ReceiptFor R v content d
unfolding receipt_trusted receipt_binds
receipt_trusted-ReceiptFor R v content (object d) h =
    elim (Result-cases (verify_document R d "provider_pubkey")) [
      | inr (x, e) ↦ absurd (ground arith)
      | inl (signature_ok, e) ↦
          let binds : receipt_binds R d v content ≡ true =
            ok-inj (sym (rw (receipt_trusted, e) refl) ∙ h) in
          (d, refl, record { valid = ground arith; signer = ground arith; answer = ground arith })
    ]
receipt_trusted-ReceiptFor R v content null h = cc
receipt_trusted-ReceiptFor R v content (bool b) h = cc
receipt_trusted-ReceiptFor R v content (int z) h = cc
receipt_trusted-ReceiptFor R v content (float x) h = cc
receipt_trusted-ReceiptFor R v content (string s) h = cc
receipt_trusted-ReceiptFor R v content (array xs) h = cc

quote_honored-QuoteKept :
    (R : Runtime) (v : Candidate) (quote : Dict) (receipt : Json)
    → quote_honored R quote receipt v ≡ ok true
    → (d : Dict) × (receipt ≡ object d) × QuoteKept R v quote d
unfolding quote_honored
quote_honored-QuoteKept R v quote (object d) h =
    (d, refl, record { quoter = ground arith; current = ground arith; kept = ground arith })
quote_honored-QuoteKept R v quote null h = absurd (ground arith)
quote_honored-QuoteKept R v quote (bool b) h = absurd (ground arith)
quote_honored-QuoteKept R v quote (int z) h = absurd (ground arith)
quote_honored-QuoteKept R v quote (float x) h = absurd (ground arith)
quote_honored-QuoteKept R v quote (string s) h = absurd (ground arith)
quote_honored-QuoteKept R v quote (array xs) h = absurd (ground arith)

-- The answer came with a receipt that the client trusts, if it verifies receipts, and that keeps the
-- quote, if there was one.
pub record Trusted (R : Runtime) (r : Route) (v : Candidate) (a : Served) : Type 0 where
  pub receipt_ok :
      r.verify_receipts ≡ true → (d : Dict) × (a.receipt ≡ object d) × ReceiptFor R v a.content d
  pub quote_ok :
      (q : Dict) → a.quote ≡ some q → (d : Dict) × (a.receipt ≡ object d) × QuoteKept R v q d

abbrev pub TrustedIfServed : Runtime → Route → Candidate → Result Attempt → Type 0
TrustedIfServed R r v (ok (served a)) = Trusted R r v a
TrustedIfServed R r v _ = Unit

or_empty-object : (R : Runtime) (j : Json) (d : Dict) → j ≡ object d → or_empty R j ≡ object d
or_empty-object R j d e = ap (or_empty R) e

module _ (R : Runtime) (r : Route) (v : Candidate) where
  refuse-Trusted :
      (reserved : Option (List Held)) (wallet : Option Wallet) (label : Label)
      → TrustedIfServed R r v (refuse reserved wallet label).0
  unfolding payment_failover
  refuse-Trusted none wallet label = tt
  refuse-Trusted (some hs) wallet label = tt

  trusts-receipt :
      (j : Json) (content : String)
      → trusts R r j v content ≡ ok true
      → r.verify_receipts ≡ true
      → receipt_trusted R j v content ≡ ok true
  trusts-receipt j content h e = sym (rw e refl) ∙ h

  honours-quote :
      (quote : Option Dict) (j : Json)
      → honours R quote j v ≡ ok true
      → (q : Dict) → quote ≡ some q
      → quote_honored R q j v ≡ ok true
  honours-quote none j h q e = cc
  honours-quote (some p) j h q e = ground arith

  finish-Trusted :
      (quote : Option Dict) (reserved : Option (List Held)) (wallet : Option Wallet) (reply : Reply)
      → TrustedIfServed R r v (finish R v r quote reserved wallet reply).0
  unfolding finish keep_quote keep_receipt
  finish-Trusted quote reserved wallet reply =
      elim (Bool-cases (leb 500 reply.status || eqb reply.status 429)) [
        | inl busy ↦ rw (finish, busy) (refuse-Trusted reserved wallet (http reply.status))
        | inr calm ↦ elim (Bool-cases (eqb reply.status 200)) [
          | inr bad ↦ rw (finish, calm, bad) (refuse-Trusted reserved wallet (http reply.status))
          | inl good ↦ elim (Option-cases (extract_content (safe_json reply))) [
            | inl n ↦
                rw (finish, calm, good, n)
                  (refuse-Trusted reserved wallet (named "malformed_response"))
            | inr (content, c) ↦
                rw (finish, calm, good, c) (answer-Trusted content (receipt_in (safe_json reply)))
          ]
        ]
      ]
    where
      keep_quote-Trusted :
          (content : String) (j : Json)
          → trusts R r j v content ≡ ok true
          → TrustedIfServed R r v (keep_quote R v quote reserved wallet content j).0
      keep_quote-Trusted content j fair = elim (Result-cases (honours R quote j v)) [
        | inr (e, h) ↦ rw (keep_quote, h) tt
        | inl (false, h) ↦
            rw (keep_quote, h) (refuse-Trusted reserved wallet (named "quote_violated"))
        | inl (true, h) ↦
            rw (keep_quote, h)
              (record {
                receipt_ok = λ on.
                    let (d, e, f) =
                      receipt_trusted-ReceiptFor R v content j (trusts-receipt j content fair on) in
                    (d, or_empty-object R j d e, f);
                quote_ok = λ q asked.
                    let (d, e, f) =
                      quote_honored-QuoteKept R v q j (honours-quote quote j h q asked) in
                    (d, or_empty-object R j d e, f);
              })
      ]

      answer-Trusted :
          (content : String) (j : Json)
          → TrustedIfServed R r v
              (keep_receipt R v quote reserved wallet content j (trusts R r j v content)).0
      answer-Trusted content j = elim (Result-cases (trusts R r j v content)) [
        | inr (e, h) ↦ rw (keep_receipt, h) tt
        | inl (false, h) ↦
            rw (keep_receipt, h) (refuse-Trusted reserved wallet (named "receipt_unverified"))
        | inl (true, h) ↦ rw (keep_receipt, h) (keep_quote-Trusted content j h)
      ]

  retry_paid-Trusted :
      (quote : Option Dict) (payment : Dict) (reserved : Option (List Held))
      (wallet : Option Wallet)
      → TrustedIfServed R r v (retry_paid R v r quote payment reserved wallet).0
  unfolding retry_paid
  retry_paid-Trusted quote payment reserved wallet =
      elim (Result-cases (post_completion v r (some payment))) [
        | inr (e, p) ↦ rw (retry_paid, p) tt
        | inl (reply, p) ↦ rw (retry_paid, p) (finish-Trusted quote reserved wallet reply)
      ]

  after_prepare-Trusted :
      (quote : Option Dict) (prepared : Result Prepared) (wallet : Option Wallet)
      → TrustedIfServed R r v (after_prepare R v r quote prepared wallet).0
  unfolding after_prepare
  after_prepare-Trusted quote (raised e) wallet = tt
  after_prepare-Trusted quote (ok (unpayable label)) wallet = tt
  after_prepare-Trusted quote (ok (paying payment reserved)) wallet =
      retry_paid-Trusted quote payment reserved wallet

  complete-Trusted :
      (quote : Option Dict) (wallet : Option Wallet)
      → TrustedIfServed R r v (complete R v r quote wallet).0
  unfolding complete
  complete-Trusted quote wallet = elim (Result-cases (post_completion v r none)) [
    | inr (e, p) ↦ rw (complete, p) tt
    | inl (reply, p) ↦ elim (Bool-cases (eqb reply.status 402)) [
      | inl asked ↦
          let (prepared, after) = prepare_payment R v r wallet reply in
          rw (complete, p, asked) (after_prepare-Trusted quote prepared after)
      | inr settled ↦ rw (complete, p, settled) (finish-Trusted quote none wallet reply)
    ]
  ]

  serve-Trusted : (wallet : Option Wallet) → TrustedIfServed R r v (serve R v r wallet).0
  unfolding serve
  serve-Trusted wallet = elim (Result-cases (health_ok v)) [
    | inr (e, h) ↦ rw (serve, h) tt
    | inl (false, h) ↦ rw (serve, h) tt
    | inl (true, h) ↦ elim (Result-cases (quoted R v r)) [
      | inr (e, q) ↦ rw (serve, h, q) tt
      | inl (none, q) ↦ rw (serve, h, q) tt
      | inl (some quote, q) ↦ rw (serve, h, q) (complete-Trusted quote wallet)
    ]
  ]

  catch-Trusted :
      (out : Result Attempt)
      → TrustedIfServed R r v out
      → TrustedIfServed R r v (catch_transport out)
  unfolding catch_transport
  catch-Trusted (ok attempt) t = t
  catch-Trusted (raised e) t = elim (Bool-cases (is_transport e)) [
    | inl yes_e ↦ rw yes_e tt
    | inr no_e ↦ rw no_e tt
  ]

  try_candidate-Trusted :
      (wallet : Option Wallet) → TrustedIfServed R r v (try_candidate R v r wallet).0
  unfolding try_candidate
  try_candidate-Trusted wallet = catch-Trusted (serve R v r wallet).0 (serve-Trusted wallet)

abbrev pub urls_tried : List Tried → List String
urls_tried tried = map (λ t. t.base_url) tried

abbrev pub urls : List Candidate → List String
urls candidates = map (λ c. c.base_url) candidates

-- The candidates up to the one that served were tried in their order, and no other was.
pub record ServedBy (R : Runtime) (r : Route) (attempts : List Tried) (candidates : List Candidate)
    (v : Candidate) (a : Served) (tried : List Tried) : Type 0 where
  pub before : List Candidate
  pub after : List Candidate
  pub in_order : candidates ≡ before ++ v ∷ after
  pub recorded : urls_tried tried ≡ urls_tried attempts ++ urls (before ++ v ∷ [])
  pub trusted : Trusted R r v a

abbrev pub Routes : Runtime → Route → List Tried → List Candidate → Result Routed → Type 0
Routes R r attempts candidates (ok (routed v a tried)) = ServedBy R r attempts candidates v a tried
Routes R r attempts candidates (ok (no_provider_available tried)) =
    urls_tried tried ≡ urls_tried attempts ++ urls candidates
Routes R r attempts candidates (raised e) =
    (before : List Candidate) × (v : Candidate) × (after : List Candidate) × (wallet : Option
      Wallet)
    × (candidates ≡ before ++ v ∷ after)
    × ((try_candidate R v r wallet).0 ≡ raised e)

urls_tried-snoc :
    (attempts : List Tried) (t : Tried) (us : List String)
    → urls_tried (attempts ++ t ∷ []) ++ us ≡ urls_tried attempts ++ t.base_url ∷ us
urls_tried-snoc [] t us = refl
urls_tried-snoc (x ∷ attempts) t us = ap (λ l. x.base_url ∷ l) (urls_tried-snoc attempts t us)

Routes-next :
    (R : Runtime) (r : Route) (attempts : List Tried) (v : Candidate) (vs : List Candidate)
    (outcome : Option Label) (out : Result Routed)
    → Routes R r (attempts ++ record { base_url = v.base_url; outcome = outcome } ∷ []) vs out
    → Routes R r attempts (v ∷ vs) out
Routes-next R r attempts v vs outcome (raised e) (before, w, after, wallet, c, x) =
    (v ∷ before, w, after, wallet, ap (λ l. v ∷ l) c, x)
Routes-next R r attempts v vs outcome (ok (no_provider_available tried)) s =
    s ∙ urls_tried-snoc attempts _ (urls vs)
Routes-next R r attempts v vs outcome (ok (routed w a tried)) s = record {
  before = v ∷ s.before;
  after = s.after;
  in_order = ap (λ l. v ∷ l) s.in_order;
  recorded = s.recorded ∙ urls_tried-snoc attempts _ (urls (s.before ++ w ∷ []));
  trusted = s.trusted;
}

chat_from-Routes :
    (R : Runtime) (r : Route) (attempts : List Tried) (candidates : List Candidate)
    (wallet : Option Wallet)
    → Routes R r attempts candidates (chat_from R r attempts candidates wallet).0
unfolding chat_from
chat_from-Routes R r attempts [] wallet = sym (append-nil (urls_tried attempts))
chat_from-Routes R r attempts (v ∷ vs) wallet = elim (Result-cases (try_candidate R v r wallet).0) [
  | inr (e, t) ↦ rw (chat_from, t) ([], v, vs, wallet, refl, t)
  | inl (failed label, t) ↦
      rw (chat_from, t)
        (Routes-next R r attempts v vs (some label) _ (
          chat_from-Routes R r
            (attempts ++ record { base_url = v.base_url; outcome = some label } ∷ []) vs
            (try_candidate R v r wallet).1))
  | inl (served a, t) ↦
      rw (chat_from, t)
        (record {
          before = [];
          after = vs;
          in_order = refl;
          recorded = sym (append-nil _) ∙ urls_tried-snoc attempts _ [];
          trusted = subst (TrustedIfServed R r v) t (try_candidate-Trusted R r v wallet);
        })
]

-- If `chat` returns a result, it is the answer of one of the candidates, and the attempts name the
-- candidates that are ranked before it and it, in order, and no other. If receipts are verified, the
-- receipt is valid and names the candidate's key and the hash of the very content that is returned;
-- if a quote was fetched, it is the candidate's, had not expired, and the receipt keeps its price.
-- If `chat` finds no provider, the attempts name every candidate. If it raises, visiting one of the
-- candidates has raised that exception.
pub chat-Routes :
    (R : Runtime) (r : Route) (candidates : List Candidate) (wallet : Option Wallet)
    → Routes R r [] candidates (chat R r candidates wallet).0
unfolding chat
chat-Routes R r candidates wallet = chat_from-Routes R r [] candidates wallet
