-- ===== src/Pic/Race/Safety.antt =====
-- What every schedule of racing redemptions guarantees.
use sovereign_inference.Base.{
  ℕ, String, true, false, List, [], ◌∷◌, ◌++◌, ◌≡◌, ◌∙◌, ◌⊎◌, ◌↔◌, inl, inr, refl, sym, arith,
  contains, Bool-cases,
}
use mathlib.Core.List.{append-nil, append_assoc}
use sovereign_inference.Pic.SpentSet.{SpentSet, spend}
use sovereign_inference.Pic.Race.{
  Redeemer, spending, giving_back, accepted, refused, step, System, advance, start, run, held, Inv,
}
use sovereign_inference.Pic.Race.Invariant.{Inv-start, run-Inv}

-- A redemption works on its own batch.
abbrev Follows : List String → Redeemer → Type 0
Follows batch (spending todo done) = done ++ todo ≡ batch
Follows batch (accepted ids) = ids ≡ batch
Follows batch _ = Unit

step-Follows :
    (table : SpentSet) (batch : List String) (r : Redeemer)
    → Follows batch r
    → Follows batch (step table r).1
unfolding step spend
step-Follows table batch (spending [] done) f = sym (append-nil done) ∙ f
step-Follows table batch (spending (i ∷ todo) done) f = elim (Bool-cases (contains table i)) [
  | inl old ↦ rw old tt
  | inr new ↦ rw new (append_assoc done (i ∷ []) todo ∙ f)
]
step-Follows table batch (giving_back []) f = tt
step-Follows table batch (giving_back (i ∷ done)) f = tt
step-Follows table batch (accepted ids) f = f
step-Follows table batch refused f = tt

run-Follows :
    (batches : ℕ → List String) (s : System) (schedule : List ℕ)
    → ((i : ℕ) → Follows (batches i) (s.redeemers i))
    → (i : ℕ) → Follows (batches i) ((run s schedule).redeemers i)
run-Follows batches s [] f i = f i
run-Follows batches s (j ∷ schedule) f i =
    run-Follows batches (advance s j) schedule
      (λ l. ground (arith, f l, step-Follows s.table (batches j) (s.redeemers j) (f j))) i

-- A redemption that has ended, or that has nothing in the table: it is not under way.
abbrev pub AtRest : Redeemer → Type 0
AtRest (spending todo done) = done ≡ []
AtRest (giving_back done) = done ≡ []
AtRest _ = Unit

holder_accepted :
    (k : String) (r : Redeemer)
    → contains (held r) k ≡ true
    → AtRest r
    → (ids : List String) × (r ≡ accepted ids)
unfolding contains
holder_accepted k (spending todo done) own e = absurd (ground arith)
holder_accepted k (giving_back done) own e = absurd (ground arith)
holder_accepted k (accepted ids) own e = (ids, refl)
holder_accepted k refused own e = absurd (ground arith)

module _ (table : SpentSet) (batches : ℕ → List String) (schedule : List ℕ) where
  abbrev pub outcome : System
  outcome = run (start table batches) schedule

  -- An accepted redemption has spent its whole batch.
  accepted-batch :
      (i : ℕ) (ids : List String) → outcome.redeemers i ≡ accepted ids → ids ≡ batches i
  accepted-batch i ids e =
      rw e at (run-Follows batches (start table batches) schedule (λ l. refl) i)

  -- Whatever the schedule, and however many redemptions race for one table, two that are accepted
  -- have no id in common, and no accepted redemption has an id that was spent before the race.
  pub race_no_double_spend :
      (i j : ℕ) (ids jds : List String) (k : String)
      → outcome.redeemers i ≡ accepted ids
      → outcome.redeemers j ≡ accepted jds
      → contains (batches i) k ≡ true
      → contains (batches j) k ≡ true
      → (i ≡ j) × (contains table k ≡ false)
  race_no_double_spend i j ids jds k e f h g = (
    ground (arith, inv.one_holder i j k, accepted-batch i ids e, accepted-batch j jds f),
    ground (arith, inv.is_new i k, accepted-batch i ids e),
  )
    where
      inv : Inv table outcome
      inv = run-Inv (start table batches) schedule (Inv-start table batches)

  -- In the table from the start, or in the batch of an accepted redemption.
  abbrev pub Accounted : String → Type 0
  Accounted k =
      (contains table k ≡ true)
      ⊎ ((i : ℕ) × (ids : List String) × (outcome.redeemers i ≡ accepted ids)
          × (contains (batches i) k ≡ true))

  -- Once no redemption is under way, the table holds what it held at the start and the batches of
  -- the accepted redemptions, and nothing else: a batch that was refused leaves no trace.
  pub race_accounts_for_table :
      ((i : ℕ) → AtRest (outcome.redeemers i))
      → (k : String) → (contains outcome.table k ≡ true) ↔ Accounted k
  race_accounts_for_table ended k = (there, back)
    where
      inv : Inv table outcome
      inv = run-Inv (start table batches) schedule (Inv-start table batches)

      there : contains outcome.table k ≡ true → Accounted k
      there h = elim (inv.accounted k h) [
        | inl old ↦ inl old
        | inr (i, own) ↦
            let (ids, e) = holder_accepted k (outcome.redeemers i) own (ended i) in
            inr (i, ids, e, ground (arith, accepted-batch i ids e))
      ]

      back : Accounted k → contains outcome.table k ≡ true
      back (inl old) = inv.kept k old
      back (inr (i, ids, e, own)) = inv.in_table i k (ground (arith, accepted-batch i ids e))
