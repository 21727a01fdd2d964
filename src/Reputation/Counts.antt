-- ===== src/Reputation/Counts.antt =====
-- What the counters of the store count.
use sovereign_inference.Base.{
  ◌+◌, ◌≤◌, String, Bool, true, false, none, some, List, [], ◌∷◌, length, keep, ◌==◌, if◌then◌else◌,
  ◌≡◌, refl, ap, subst, ◌∙◌, sym, arith, eq_iff, inl, inr, Bool-cases,
}
use sovereign_inference.Router.Scoring.{Arithmetic}
use sovereign_inference.Reputation.{
  Counters, ReputationStore, RoutingOutcome, no_outcomes, counted_outcome, record_outcome,
  counters_of,
}

module _ (F : Arithmetic) where
  -- The outcomes of a history, recorded one after the other
  abbrev pub replay : List RoutingOutcome → ReputationStore → ReputationStore
  replay [] store = store
  replay (o ∷ history) store = replay history (record_outcome F o store)

  -- The counters of a provider, which are zero before its first outcome
  abbrev pub current : ReputationStore → String → Counters
  current store key = elim (counters_of store key) [ none ↦ no_outcomes F | some c ↦ c ]

  -- The specification: the outcomes of one provider, counted
  abbrev pub tally : List RoutingOutcome → Counters → Counters
  tally [] c = c
  tally (o ∷ history) c = tally history (counted_outcome F o c)

  abbrev pub outcomes_of : String → List RoutingOutcome → List RoutingOutcome
  outcomes_of key history = keep (λ o. o.provider_pubkey == key) history

  -- The counters of `key`, once the outcome has been counted for its own provider
  abbrev expected : RoutingOutcome → String → Counters → Counters
  expected o key c = if o.provider_pubkey == key then counted_outcome F o c else c

  current-hit :
      (k key : String) (c : Counters) (store : ReputationStore)
      → (k == key) ≡ true
      → current ((k, c) ∷ store) key ≡ c
  unfolding counters_of
  current-hit k key c store h = rw (current, h) refl

  current-miss :
      (k key : String) (c : Counters) (store : ReputationStore)
      → (k == key) ≡ false
      → current ((k, c) ∷ store) key ≡ current store key
  unfolding counters_of
  current-miss k key c store h = rw (current, h) refl

  expected-own :
      (o : RoutingOutcome) (key : String) (c : Counters)
      → (o.provider_pubkey == key) ≡ true
      → expected o key c ≡ counted_outcome F o c
  expected-own o key c h = rw h refl

  expected-other :
      (o : RoutingOutcome) (key : String) (c : Counters)
      → (o.provider_pubkey == key) ≡ false
      → expected o key c ≡ c
  expected-other o key c h = rw h refl

  record_outcome-hit :
      (o : RoutingOutcome) (k : String) (c : Counters) (store : ReputationStore)
      → (k == o.provider_pubkey) ≡ true
      → record_outcome F o ((k, c) ∷ store) ≡ (k, counted_outcome F o c) ∷ store
  unfolding record_outcome
  record_outcome-hit o k c store h = rw h refl

  record_outcome-miss :
      (o : RoutingOutcome) (k : String) (c : Counters) (store : ReputationStore)
      → (k == o.provider_pubkey) ≡ false
      → record_outcome F o ((k, c) ∷ store) ≡ (k, c) ∷ record_outcome F o store
  unfolding record_outcome
  record_outcome-miss o k c store h = rw h refl

  counters_of-record_outcome :
      (o : RoutingOutcome) (store : ReputationStore) (key : String)
      → current (record_outcome F o store) key ≡ expected o key (current store key)
  unfolding counters_of record_outcome
  counters_of-record_outcome o [] key = elim (Bool-cases (o.provider_pubkey == key)) [
    | inl own ↦
        current-hit o.provider_pubkey key (counted_outcome F o (no_outcomes F)) [] own
        ∙ sym (expected-own o key (no_outcomes F) own)
    | inr other ↦
        current-miss o.provider_pubkey key (counted_outcome F o (no_outcomes F)) [] other
        ∙ sym (expected-other o key (no_outcomes F) other)
  ]
  counters_of-record_outcome o ((k, c) ∷ store) key = elim (Bool-cases (k == o.provider_pubkey)) [
    | inl same ↦
        ap (λ s. current s key) (record_outcome-hit o k c store same)
        ∙ (elim (Bool-cases (k == key)) [
          | inl here ↦
              current-hit k key (counted_outcome F o c) store here
              ∙ sym (
                  expected-own o key c (
                    ground (
                      arith,
                      eq_iff k o.provider_pubkey,
                      eq_iff k key,
                      eq_iff o.provider_pubkey key,
                    )))
              ∙ ap (expected o key) (sym (current-hit k key c store here))
          | inr there ↦
              current-miss k key (counted_outcome F o c) store there
              ∙ sym (current-miss k key c store there)
              ∙ sym (
                  expected-other o key _ (
                    ground (
                      arith,
                      eq_iff k o.provider_pubkey,
                      eq_iff k key,
                      eq_iff o.provider_pubkey key,
                    )))
        ])
    | inr other ↦
        ap (λ s. current s key) (record_outcome-miss o k c store other)
        ∙ (elim (Bool-cases (k == key)) [
          | inl here ↦
              current-hit k key c (record_outcome F o store) here
              ∙ sym (current-hit k key c store here)
              ∙ sym (
                  expected-other o key _ (
                    ground (
                      arith,
                      eq_iff k o.provider_pubkey,
                      eq_iff k key,
                      eq_iff o.provider_pubkey key,
                    )))
          | inr there ↦
              current-miss k key c (record_outcome F o store) there
              ∙ counters_of-record_outcome o store key
              ∙ ap (expected o key) (sym (current-miss k key c store there))
        ])
  ]

  replay-tally :
      (history : List RoutingOutcome) (store : ReputationStore) (key : String)
      → current (replay history store) key ≡ tally (outcomes_of key history) (current store key)
  unfolding keep
  replay-tally [] store key = refl
  replay-tally (o ∷ history) store key = elim (Bool-cases (o.provider_pubkey == key)) [
    | inl own ↦
        rw (keep, own)
          (replay-tally history (record_outcome F o store) key
            ∙ ap (tally (outcomes_of key history)) (
                counters_of-record_outcome o store key
                ∙ expected-own o key (current store key) own))
    | inr other ↦
        rw (keep, other)
          (replay-tally history (record_outcome F o store) key
            ∙ ap (tally (outcomes_of key history)) (
                counters_of-record_outcome o store key
                ∙ expected-other o key (current store key) other))
  ]

  -- What the counters count
  pub record Counts (c : Counters) (outcomes : List RoutingOutcome) : Type 0 where
    pub of_all : c.total ≡ length outcomes
    pub of_successes : c.success ≡ length (keep (λ o. o.succeeded) outcomes)
    pub of_valid_receipts : c.receipt_valid ≡ length (keep (λ o. o.valid_receipt) outcomes)
    pub at_most_all : (c.success ≤ c.total) × (c.receipt_valid ≤ c.total) × (c.latency_n ≤ c.total)

  tally-sums :
      (outcomes : List RoutingOutcome) (c : Counters)
      → ((tally outcomes c).total ≡ c.total + length outcomes)
        × ((tally outcomes c).success ≡ c.success + length (keep (λ o. o.succeeded) outcomes))
        × ((tally outcomes c).receipt_valid
            ≡ c.receipt_valid + length (keep (λ o. o.valid_receipt) outcomes))
        × ((tally outcomes c).latency_n ≤ c.latency_n + length outcomes)
  unfolding keep counted_outcome
  tally-sums [] c = (omega arith, omega arith, omega arith, omega arith)
  tally-sums (o ∷ outcomes) c =
      let (total, success, valid, latency) = tally-sums outcomes (counted_outcome F o c) in
      (
        omega (arith, total),
        ground (arith, success),
        ground (arith, valid),
        ground (arith, latency),
      )

  length-keep :
      (p : RoutingOutcome → Bool) (outcomes : List RoutingOutcome)
      → length (keep p outcomes) ≤ length outcomes
  unfolding keep
  length-keep p [] = omega arith
  length-keep p (o ∷ outcomes) = ground (arith, length-keep p outcomes)

  -- After any history of outcomes, of whatever providers, the counters of a provider count its own
  -- outcomes: all of them, the successes, and those with a valid receipt; none of the counters is
  -- above the number of its outcomes, so that the rates lie between zero and one.
  pub replay-Counts :
      (history : List RoutingOutcome) (key : String)
      → Counts (current (replay history []) key) (outcomes_of key history)
  unfolding counters_of
  replay-Counts history key =
      let mine = outcomes_of key history in
      let (total, success, valid, latency) = tally-sums mine (no_outcomes F) in
      subst (λ c. Counts c mine) (sym (replay-tally history [] key))
        (record {
          of_all = omega (arith, total);
          of_successes = omega (arith, success);
          of_valid_receipts = omega (arith, valid);
          at_most_all = (
            omega (arith, total, success, length-keep (λ o. o.succeeded) mine),
            omega (arith, total, valid, length-keep (λ o. o.valid_receipt) mine),
            omega (arith, total, latency),
          );
        })
