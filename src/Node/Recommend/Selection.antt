-- ===== src/Node/Recommend/Selection.antt =====
-- Which quant `_select_quant` chooses.
use mathlib.Core.List.{Perm}
use sovereign_inference.Base.{
  Ordered, WeakOrder, sort_by-Ordered, sort_by-perm, keep, All-keep, is_empty, sym, ℕ, Bool, true,
  false, Option, none, some, List, [], ◌∷◌, ◌++◌, All, ◌≡◌, ◌⊎◌, refl, ap, subst, inl, inr,
  Bool-cases,
}
use sovereign_inference.Json.{Float}
use sovereign_inference.Result.{ok}
use sovereign_inference.Node.{NodeNumbers, QuantOption, CatalogModel, estimate_for}
use sovereign_inference.Node.Recommend.{
  fewer_bits, by_bits, considered, fits_in, last_fit, SelectedQuant, select_quant,
}

-- The last of some quants that fits: it fits, and none after it does.
abbrev pub IsLastFit : (QuantOption → Bool) → List QuantOption → QuantOption → Type 0
IsLastFit fits qs q =
    (before : List QuantOption) × (after : List QuantOption) × (qs ≡ before ++ q ∷ after)
    × (fits q ≡ true)
    × All (λ x. fits x ≡ false) after

module _ (fits : QuantOption → Bool) where
  -- What the loop finds, with what it had before
  abbrev Found : Option QuantOption → List QuantOption → Option QuantOption → Type 0
  Found best qs none = (best ≡ none) × All (λ x. fits x ≡ false) qs
  Found best qs (some q) = ((best ≡ some q) × All (λ x. fits x ≡ false) qs) ⊎ IsLastFit fits qs q

  last_fit-Found :
      (best : Option QuantOption) (qs : List QuantOption) → Found best qs (last_fit fits best qs)
  unfolding last_fit
  last_fit-Found none [] = (refl, tt)
  last_fit-Found (some q) [] = inl (refl, tt)
  last_fit-Found best (q ∷ qs) = elim (Bool-cases (fits q)) [
    | inr misfit ↦
        rw (last_fit, misfit) (skip (last_fit fits best qs) misfit (last_fit-Found best qs))
    | inl fit ↦
        rw (last_fit, fit) (keep_on (last_fit fits (some q) qs) fit (last_fit-Found (some q) qs))
  ]
    where
      skip :
          (out : Option QuantOption) → fits q ≡ false → Found best qs out → Found best (q ∷ qs) out
      skip none misfit h = (h.0, (misfit, h.1))
      skip (some x) misfit (inl h) = inl (h.0, (misfit, h.1))
      skip (some x) misfit (inr (before, after, e, f, m)) =
          inr (q ∷ before, after, ap (λ l. q ∷ l) e, f, m)

      keep_on :
          (out : Option QuantOption)
          → fits q ≡ true
          → Found (some q) qs out
          → Found best (q ∷ qs) out
      keep_on none fit h = absurd cc
      keep_on (some x) fit (inl h) =
          let same : q ≡ x = cc in
          inr ([], qs, ap (λ y. y ∷ qs) same, subst (λ y. fits y ≡ true) same fit, h.1)
      keep_on (some x) fit (inr (before, after, e, f, m)) =
          inr (q ∷ before, after, ap (λ l. q ∷ l) e, f, m)

-- A quant that is the smallest of a list, or a largest one of those that fit
abbrev pub Smallest : NodeNumbers → List QuantOption → QuantOption → Type 0
Smallest N qs s = All (λ q. N.F.less q.bits s.bits ≡ false) qs

abbrev pub LargestFit : NodeNumbers → (QuantOption → Bool) → List QuantOption → QuantOption → Type 0
LargestFit N fits qs s =
    (fits s ≡ true) × All (λ q. fits q ≡ true → N.F.less s.bits q.bits ≡ false) qs

-- What a selection has chosen of the quants of a model. `cap` is the ceiling on the bits, which counts
-- if some quant is below it.
pub record Selection (N : NodeNumbers) (m : CatalogModel) (usable_gb : Float) (context : ℕ)
    (s : SelectedQuant) : Type 0 where
  pub estimated : s.estimate ≡ estimate_for N m s.quant context
  pub sorted : Ordered (fewer_bits N) (by_bits N m)
  pub same : Perm (by_bits N m) m.quants
  pub chosen :
      ((s.fits ≡ true) × LargestFit N (fits_in N m usable_gb context) (considered N m) s.quant)
      ⊎ ((s.fits ≡ false)
          × All (λ q. fits_in N m usable_gb context q ≡ false) (considered N m)
          × Smallest N (by_bits N m) s.quant)

module _ (N : NodeNumbers) where
  smaller_before :
      (fits : QuantOption → Bool) (before after : List QuantOption) (s : QuantOption)
      → Ordered (fewer_bits N) (before ++ s ∷ after)
      → N.F.less s.bits s.bits ≡ false
      → All (λ x. fits x ≡ false) after
      → All (λ q. fits q ≡ true → N.F.less s.bits q.bits ≡ false) (before ++ s ∷ after)
  smaller_before fits [] after s o i m = ((λ f. i), misfits after m)
    where
      misfits :
          (qs : List QuantOption)
          → All (λ x. fits x ≡ false) qs
          → All (λ q. fits q ≡ true → N.F.less s.bits q.bits ≡ false) qs
      misfits [] h = tt
      misfits (q ∷ qs) h = ((λ f. absurd cc), misfits qs h.1)
  smaller_before fits (b ∷ before) after s o i m =
      ((λ f. there before o.0), smaller_before fits before after s o.1 i m)
    where
      there :
          (qs : List QuantOption)
          → All (λ x. fewer_bits N x b ≡ false) (qs ++ s ∷ after)
          → N.F.less s.bits b.bits ≡ false
      there [] h = h.0
      there (q ∷ qs) h = there qs h.1

  Ordered-keep :
      (p : QuantOption → Bool) (qs : List QuantOption)
      → Ordered (fewer_bits N) qs
      → Ordered (fewer_bits N) (keep p qs)
  unfolding keep
  Ordered-keep p [] o = tt
  Ordered-keep p (q ∷ qs) o = elim (Bool-cases (p q)) [
    | inl k ↦ rw (keep, k) (All-keep _ p qs o.0, Ordered-keep p qs o.1)
    | inr k ↦ rw (keep, k) (Ordered-keep p qs o.1)
  ]

  considered-Ordered :
      (m : CatalogModel)
      → Ordered (fewer_bits N) (by_bits N m)
      → Ordered (fewer_bits N) (considered N m)
  unfolding considered
  considered-Ordered m o =
      elim (Bool-cases
        (is_empty (keep (λ q. N.F.at_most q.bits (N.F.literal "8.5")) (by_bits N m)))) [
          | inl e ↦ rw (considered, e) o
          | inr e ↦ rw (considered, e) (Ordered-keep _ (by_bits N m) o)
        ]

-- A model with a quant gets one: of the quants that are considered, those of at most 8.5 bits if there
-- are any, one of the most bits among those that fit in the memory, or, if none fits, one of the fewest
-- bits of all, which is marked as not fitting. Holds if the order of the bits of the quants is one, as
-- it is without NaN.
pub select_quant-Selection :
    (N : NodeNumbers) (m : CatalogModel) (usable_gb : Float) (context : ℕ) (q : QuantOption)
    (qs : List QuantOption)
    → by_bits N m ≡ q ∷ qs
    → (P : QuantOption → Type 0) → WeakOrder (fewer_bits N) P
    → ((x : QuantOption) → N.F.less x.bits x.bits ≡ false)
    → All P m.quants
    → (s : SelectedQuant) × (select_quant N m usable_gb context ≡ ok s)
      × Selection N m usable_gb context s
unfolding select_quant by_bits
select_quant-Selection N m usable_gb context q qs some_quant P o irrefl ps =
    choose (last_fit fits none (considered N m)) refl (last_fit-Found fits none (considered N m))
  where
    fits : QuantOption → Bool
    fits = fits_in N m usable_gb context

    sorted : Ordered (fewer_bits N) (by_bits N m)
    sorted = sort_by-Ordered (fewer_bits N) P o m.quants ps

    same : Perm (by_bits N m) m.quants
    same = sort_by-perm (fewer_bits N) m.quants

    choose :
        (out : Option QuantOption)
        → last_fit fits none (considered N m) ≡ out
        → Found fits none (considered N m) out
        → (s : SelectedQuant) × (select_quant N m usable_gb context ≡ ok s)
          × Selection N m usable_gb context s
    choose none e h = (
      record { quant = q; estimate = estimate_for N m q context; fits = false },
      rw (select_quant, e, some_quant) refl,
      record {
        estimated = refl;
        sorted = sorted;
        same = same;
        chosen = inr (
          refl,
          h.1,
          subst (λ l. Smallest N l q) (sym some_quant)
              (irrefl q, (subst (Ordered (fewer_bits N)) some_quant sorted).0),
        );
      },
    )
    choose (some x) e (inl h) = absurd cc
    choose (some x) e (inr h) = (
      record { quant = x; estimate = estimate_for N m x context; fits = true },
      rw (select_quant, e) refl,
      record {
        estimated = refl;
        sorted = sorted;
        same = same;
        chosen = inl (
          refl,
          (
            h.3,
            subst (λ l. All (λ y. fits y ≡ true → N.F.less x.bits y.bits ≡ false) l) (sym h.2)
                (smaller_before N fits h.0 h.1 x
                  (subst (Ordered (fewer_bits N)) h.2 (considered-Ordered N m sorted)) (irrefl x)
                  h.4),
          ),
        );
      },
    )
