-- ===== src/Pic/Race/Solo.antt =====
-- A redemption that runs alone does what `spend_all`, the loop of the source, does.
use sovereign_inference.Base.{
  ℕ, zero, suc, ◌+◌, ◌<◌, String, Bool, true, false, List, [], ◌∷◌, ◌++◌, ◌≡◌, ◌∙◌, inl, inr, refl,
  arith, contains, length, length-append, if◌then◌else◌, Bool-cases,
}
use mathlib.Core.List.{append-nil, append_assoc}
use sovereign_inference.Json.{Json}
use sovereign_inference.Result.{Result, ok}
use sovereign_inference.Pic.SpentSet.{SpentSet, spend, unspend, unspend_all}
use sovereign_inference.Pic.Payment.{spend_all}
use sovereign_inference.Pic.Payment.Ids.{HasIds, spend_all-step}
use sovereign_inference.Pic.Race.{Redeemer, spending, giving_back, accepted, refused, step}

-- How a redemption ends after the third loop has returned.
pub ending : List String → Result Bool → Redeemer
ending ids (ok true) = accepted ids
ending ids _ = refused

-- A redemption that nobody interrupts.
unfoldable pub alone : ℕ → SpentSet → Redeemer → SpentSet × Redeemer
alone zero table r = (table, r)
alone (suc n) table r = let (table', r') = step table r in alone n table' r'

alone-accepted :
    (n : ℕ) (table : SpentSet) (ids : List String)
    → alone n table (accepted ids) ≡ (table, accepted ids)
unfolding alone step
alone-accepted zero table ids = refl
alone-accepted (suc n) table ids = alone-accepted n table ids

alone-refused : (n : ℕ) (table : SpentSet) → alone n table refused ≡ (table, refused)
unfolding alone step
alone-refused zero table = refl
alone-refused (suc n) table = alone-refused n table

alone-giving_back :
    (n : ℕ) (table : SpentSet) (done : List String)
    → length done < n
    → alone n table (giving_back done) ≡ (unspend_all table done, refused)
unfolding alone step unspend_all
alone-giving_back zero table done h = absurd (omega arith)
alone-giving_back (suc n) table [] h = alone-refused n table
alone-giving_back (suc n) table (i ∷ done) h =
    alone-giving_back n (unspend table i) done (omega arith)

module _ (n : ℕ) (table : SpentSet) (done : List String) (i : String) (ids : List String) where
  alone-lost :
      contains table i ≡ true
      → alone (suc n) table (spending (i ∷ ids) done) ≡ alone n table (giving_back done)
  unfolding alone step spend
  alone-lost old = rw old

  alone-won :
      contains table i ≡ false
      → alone (suc n) table (spending (i ∷ ids) done)
        ≡ alone n (i ∷ table) (spending ids (done ++ i ∷ []))
  unfolding alone step spend
  alone-won new = rw new

alone-spending :
    (n : ℕ) (table : SpentSet) (done : List String) (vs : List Json) (ids : List String)
    → HasIds vs ids
    → length done + length ids + length ids + 1 < n
    → alone n table (spending ids done)
      ≡ ((spend_all table done vs).1, ending (done ++ ids) (spend_all table done vs).0)
alone-spending zero table done vs ids h lt = absurd (omega arith)
alone-spending (suc n) table done [] [] h lt =
    unfold alone step spend_all ending in rw (append-nil done) (alone-accepted n table done)
alone-spending (suc n) table done [] (i ∷ ids) h lt = absurd h
alone-spending (suc n) table done (v ∷ vs) [] h lt = absurd h
alone-spending (suc n) table done (v ∷ vs) (i ∷ ids) h lt = elim (Bool-cases (contains table i)) [
  | inl old ↦
      rw (step_eq, old)
        (unfold ending in
          alone-lost n table done i ids old ∙ alone-giving_back n table done (omega arith))
  | inr new ↦
      rw (step_eq, new, ← append_assoc done (i ∷ []) ids)
        (alone-won n table done i ids new
          ∙ alone-spending n (i ∷ table) (done ++ i ∷ []) vs ids h.1
              (omega (arith, length-append done (i ∷ []))))
]
  where
    step_eq : spend_all table done (v ∷ vs) ≡ (
        if contains table i
        then (ok false, unspend_all table done)
        else spend_all (i ∷ table) (done ++ i ∷ []) vs)
    step_eq = spend_all-step table done v vs i h.0

-- Refinement: a redemption that runs alone, given enough steps, ends as the third loop of
-- `_redeem_pic` does, with the table that the loop leaves: accepted with its whole batch if the
-- loop spends every id, and refused otherwise. The steps needed are at most two for each id and two
-- more.
pub alone-spend_all :
    (n : ℕ) (table : SpentSet) (vs : List Json) (ids : List String)
    → HasIds vs ids
    → length ids + length ids + 1 < n
    → alone n table (spending ids [])
      ≡ ((spend_all table [] vs).1, ending ids (spend_all table [] vs).0)
alone-spend_all n table vs ids h lt = alone-spending n table [] vs ids h (omega arith)
