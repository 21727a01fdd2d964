-- ===== src/Pic/Race/Invariant.antt =====
-- Every statement of every redemption keeps the invariant of the race.
use sovereign_inference.Base.{
  ℕ, String, false, ◌||◌, List, [], ◌∷◌, ◌++◌, ◌≡◌, ◌∙◌, ◌==◌, inl, inr, refl, arith, eqb, eq_iff,
  contains, contains-append, contains-discard, discard, if◌then◌else◌, Bool-cases,
}
use sovereign_inference.Pic.SpentSet.{SpentSet, spend, unspend}
use sovereign_inference.Pic.Race.{
  Redeemer, spending, giving_back, accepted, refused, step, System, update, advance, start, run,
  held, IsDistinct, Inv,
}

pub Inv-start : (table : SpentSet) (batches : ℕ → List String) → Inv table (start table batches)
unfolding contains
Inv-start table batches = record {
  in_table = λ i k h. cc;
  is_new = λ i k h. cc;
  one_holder = λ i j k h g. cc;
  distinct = λ i. tt;
  kept = λ k h. h;
  accounted = λ k h. inl h;
}

IsDistinct-snoc :
    (ids : List String) (x : String)
    → IsDistinct ids
    → contains ids x ≡ false
    → IsDistinct (ids ++ x ∷ [])
unfolding contains
IsDistinct-snoc [] x d h = (refl, tt)
IsDistinct-snoc (i ∷ ids) x d h = (
  rw contains-append (ground (arith, eq_iff i x, eq_iff x i)),
  IsDistinct-snoc ids x d.1 (ground arith),
)

module _ {initial : SpentSet} {table : SpentSet} {rs : ℕ → Redeemer}
    (inv : Inv initial (record { table = table; redeemers = rs })) (i : ℕ) where
  -- A statement that leaves the table and the held ids alone.
  idle-Inv :
      (r : Redeemer)
      → held r ≡ held (rs i)
      → Inv initial (record { table = table; redeemers = update rs i r })
  idle-Inv r e = record {
    in_table = λ j k h. ground (arith, inv.in_table j k);
    is_new = λ j k h. ground (arith, inv.is_new j k);
    one_holder = λ j l k h g. ground (arith, inv.one_holder j l k);
    distinct = λ j. ground (arith, inv.distinct j);
    kept = inv.kept;
    accounted = λ k h. elim (inv.accounted k h) [
      | inl old ↦ inl old
      | inr (j, own) ↦ inr (j, ground arith)
    ];
  }

  contains-update :
      (r : Redeemer) (j : ℕ) (k : String)
      → contains (held (update rs i r j)) k
        ≡ (if eqb i j then contains (held r) k else contains (held (rs j)) k)
  contains-update r j k = ground arith

  -- A statement that spends `x`.
  won-Inv :
      (r : Redeemer) (x : String)
      → held r ≡ held (rs i) ++ x ∷ []
      → contains table x ≡ false
      → Inv initial (record { table = x ∷ table; redeemers = update rs i r })
  unfolding contains
  won-Inv r x e new = record {
    in_table = λ j k h. ground (arith, now j k, inv.in_table i k, inv.in_table j k, eq_iff x k);
    is_new =
        λ j k h. ground (arith, now j k, inv.is_new i k, inv.is_new j k, inv.kept k, eq_iff x k);
    one_holder = λ j l k h g. ground (
      arith,
      now j k,
      now l k,
      inv.one_holder i l k,
      inv.one_holder j i k,
      inv.one_holder j l k,
      inv.in_table j k,
      inv.in_table l k,
      eq_iff x k,
    );
    distinct = λ j. elim (Bool-cases (eqb i j)) [
      | inl same ↦ rw same (rw e (IsDistinct-snoc (held (rs i)) x (inv.distinct i) mine))
      | inr other ↦ rw other (inv.distinct j)
    ];
    kept = λ k h. ground (arith, inv.kept k);
    accounted = λ k h. elim (Bool-cases (x == k)) [
      | inl fresh ↦ inr (i, ground (arith, now i k))
      | inr rest ↦ elim (inv.accounted k (ground arith)) [
        | inl old ↦ inl old
        | inr (j, own) ↦ inr (j, ground (arith, now j k))
      ]
    ];
  }
    where
      held-append : (k : String) → contains (held r) k ≡ (contains (held (rs i)) k || x == k)
      held-append k = rw e (contains-append (held (rs i)) (x ∷ []) k ∙ ground arith)

      now :
          (j : ℕ) (k : String)
          → contains (held (update rs i r j)) k
            ≡ (if eqb i j then contains (held (rs i)) k || x == k else contains (held (rs j)) k)
      now j k = ground (arith, contains-update r j k, held-append k)

      mine : contains (held (rs i)) x ≡ false
      mine = ground (arith, inv.in_table i x)

  -- A statement that gives `x` back.
  back-Inv :
      (r : Redeemer) (x : String)
      → held (rs i) ≡ x ∷ held r
      → Inv initial (record { table = discard x table; redeemers = update rs i r })
  unfolding contains
  back-Inv r x e = record {
    in_table = λ j k h. rw contains-discard (
        ground (
          arith,
          now j k,
          was k,
          inv.in_table i k,
          inv.in_table j k,
          eq_iff x k,
          once,
          inv.one_holder i j k,
        ));
    is_new = λ j k h. ground (arith, now j k, was k, inv.is_new i k, inv.is_new j k);
    one_holder = λ j l k h g. ground (
      arith,
      now j k,
      now l k,
      was k,
      inv.one_holder i l k,
      inv.one_holder j i k,
      inv.one_holder j l k,
    );
    distinct = λ j. elim (Bool-cases (eqb i j)) [
      | inl same ↦ rw same (rest_distinct (inv.distinct i))
      | inr other ↦ rw other (inv.distinct j)
    ];
    kept =
        λ k h. rw contains-discard (ground (arith, inv.kept k, inv.is_new i k, was k, eq_iff x k));
    accounted = λ k h. elim (inv.accounted k (ground (arith, contains-discard x k table))) [
      | inl old ↦ inl old
      | inr (j, own) ↦ inr (j, ground (arith, now j k, was k, contains-discard x k table))
    ];
  }
    where
      was : (k : String) → contains (held (rs i)) k ≡ (x == k || contains (held r) k)
      was k = rw e

      now :
          (j : ℕ) (k : String)
          → contains (held (update rs i r j)) k
            ≡ (if eqb i j then contains (held r) k else contains (held (rs j)) k)
      now j k = contains-update r j k

      rest_distinct : IsDistinct (held (rs i)) → IsDistinct (held r)
      rest_distinct d = (rw e at d).1

      once : contains (held r) x ≡ false
      once = (rw e at (inv.distinct i)).0

  -- The next statement of redemption `i`, by where it stands.
  pub step-Inv :
      (r : Redeemer)
      → rs i ≡ r
      → Inv initial (record { table = (step table r).0; redeemers = update rs i (step table r).1 })
  unfolding step spend unspend
  step-Inv (spending [] done) e = idle-Inv (accepted done) (ground arith)
  step-Inv (spending (x ∷ todo) done) e = elim (Bool-cases (contains table x)) [
    | inl old ↦ rw old (idle-Inv (giving_back done) (ground arith))
    | inr new ↦ rw new (won-Inv (spending todo (done ++ x ∷ [])) x (ground arith) new)
  ]
  step-Inv (giving_back []) e = idle-Inv refused (ground arith)
  step-Inv (giving_back (x ∷ done)) e = back-Inv (giving_back done) x (ground arith)
  step-Inv (accepted ids) e = idle-Inv (accepted ids) (ground arith)
  step-Inv refused e = idle-Inv refused (ground arith)

-- Any schedule keeps the invariant.
pub run-Inv :
    {initial : SpentSet} (s : System) (schedule : List ℕ)
    → Inv initial s
    → Inv initial (run s schedule)
run-Inv s [] inv = inv
run-Inv s (i ∷ schedule) inv = run-Inv (advance s i) schedule (step-Inv inv i (s.redeemers i) refl)
