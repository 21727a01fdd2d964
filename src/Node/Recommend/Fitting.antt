-- ===== src/Node/Recommend/Fitting.antt =====
-- What `recommend` returns.
use sovereign_inference.Base.{
  ℕ, zero, suc, ◌≤◌, ◌<◌, String, Bool, true, false, not, ◌&&◌, List, [], ◌∷◌, keep, sort_by,
  sort_by-All, sort_by-Ordered, Ordered, WeakOrder, take, length, contains, All, ltb, ◌≡◌, refl,
  subst, arith, inl, inr, Bool-cases,
}
use sovereign_inference.Result.{Result, ok, Result-cases}
use sovereign_inference.Node.{NodeNumbers, HardwareProfile, CatalogModel, usable_memory_gb}
use sovereign_inference.Node.Recommend.{
  is_non_commercial, speed_weight_of, Recommendation, recommend_model, recommend_all,
  recommended_before, recommend,
}

-- The models that may be recommended
abbrev pub candidates : NodeNumbers → String → Bool → List CatalogModel → List CatalogModel
candidates N task commercial_required catalog =
    keep (λ m. not (commercial_required && is_non_commercial N m))
      (keep (λ m. contains m.tasks task) catalog)

-- No model that does not fit comes before one that does.
abbrev pub FittingFirst : List Recommendation → Type 0
FittingFirst [] = Unit
FittingFirst (r ∷ rs) =
    (r.selected.fits ≡ false → All (λ s. s.selected.fits ≡ false) rs) × FittingFirst rs

keep-All : (p : CatalogModel → Bool) (ms : List CatalogModel) → All (λ m. p m ≡ true) (keep p ms)
unfolding keep
keep-All p [] = tt
keep-All p (m ∷ ms) = elim (Bool-cases (p m)) [
  | inl h ↦ rw (keep, h) (h, keep-All p ms)
  | inr h ↦ rw (keep, h) (keep-All p ms)
]

keep-All_kept :
    (Q : CatalogModel → Type 0) (p : CatalogModel → Bool) (ms : List CatalogModel)
    → All Q ms
    → All (λ m. Q m × (p m ≡ true)) (keep p ms)
unfolding keep
keep-All_kept Q p [] h = tt
keep-All_kept Q p (m ∷ ms) h = elim (Bool-cases (p m)) [
  | inl e ↦ rw (keep, e) ((h.0, e), keep-All_kept Q p ms h.1)
  | inr e ↦ rw (keep, e) (keep-All_kept Q p ms h.1)
]

take-All :
    (P : Recommendation → Type 0) (k : ℕ) (rs : List Recommendation) → All P rs → All P (take k rs)
take-All P zero rs h = tt
take-All P (suc k) [] h = tt
take-All P (suc k) (r ∷ rs) h = (h.0, take-All P k rs h.1)

length-take : (k : ℕ) (rs : List Recommendation) → length (take k rs) ≤ k
length-take zero rs = omega arith
length-take (suc k) [] = omega arith
length-take (suc k) (r ∷ rs) = omega (arith, length-take k rs)

take-FittingFirst : (k : ℕ) (rs : List Recommendation) → FittingFirst rs → FittingFirst (take k rs)
take-FittingFirst zero rs h = tt
take-FittingFirst (suc k) [] h = tt
take-FittingFirst (suc k) (r ∷ rs) h =
    ((λ misfit. take-All _ k rs (h.0 misfit)), take-FittingFirst k rs h.1)

module _ (N : NodeNumbers) where
  misfits_after :
      (r : Recommendation) (rs : List Recommendation)
      → All (λ s. recommended_before N s r ≡ false) rs
      → r.selected.fits ≡ false
      → All (λ s. s.selected.fits ≡ false) rs
  misfits_after r [] h misfit = tt
  misfits_after r (s ∷ rs) h misfit = (ground (arith, h.0), misfits_after r rs h.1 misfit)

  Ordered-FittingFirst :
      (rs : List Recommendation) → Ordered (recommended_before N) rs → FittingFirst rs
  Ordered-FittingFirst [] h = tt
  Ordered-FittingFirst (r ∷ rs) h =
      ((λ misfit. misfits_after r rs h.0 misfit), Ordered-FittingFirst rs h.1)

  module _ (p : HardwareProfile) (task : String) (commercial_required : Bool)
      (latency : String) where
    abbrev pub recommended_of : CatalogModel → Result Recommendation
    recommended_of m = recommend_model N p (usable_memory_gb N p) (speed_weight_of N latency) m

    -- A recommendation of a model for the task, with a license for commercial use if that is asked for
    abbrev pub Suits : Recommendation → Type 0
    Suits r =
        (m : CatalogModel) × ((contains m.tasks task ≡ true)
          × (not (commercial_required && is_non_commercial N m) ≡ true))
        × (recommended_of m ≡ ok r)

    recommend_all-All :
        (Q : CatalogModel → Type 0) (ms : List CatalogModel) (rs : List Recommendation)
        → All Q ms
        → recommend_all N p (usable_memory_gb N p) (speed_weight_of N latency) ms ≡ ok rs
        → All (λ r. (m : CatalogModel) × Q m × (recommended_of m ≡ ok r)) rs
    unfolding recommend_all
    recommend_all-All Q [] rs q e =
        let none_there : [] ≡ rs = cc in
        subst (All (λ r. (m : CatalogModel) × Q m × (recommended_of m ≡ ok r))) none_there tt
    recommend_all-All Q (m ∷ ms) rs q e = elim (Result-cases (recommended_of m)) [
      | inr (x, f) ↦ absurd (ground arith)
      | inl (r, f) ↦
          elim (Result-cases
            (recommend_all N p (usable_memory_gb N p) (speed_weight_of N latency) ms)) [
              | inr (x, g) ↦ absurd (ground arith)
              | inl (rest, g) ↦
                  let same : r ∷ rest ≡ rs = ground arith in
                  subst (All (λ r. (m : CatalogModel) × Q m × (recommended_of m ≡ ok r))) same
                    ((m, q.0, f), recommend_all-All Q ms rest q.1 g)
            ]
    ]

    -- At most `top_k` recommendations are returned, each of a model of the task, with a license for
    -- commercial use if that is required, and none that does not fit the memory before one that fits.
    -- Holds if one at least is asked for, every candidate can be rated, and the ranking is an order on
    -- the ratings, as it is for scores that are not NaN.
    pub recommend-FittingFirst :
        (P : Recommendation → Type 0)
        → WeakOrder (recommended_before N) P
        → (top_k : ℕ) (catalog : List CatalogModel) (found : List Recommendation) → 0 < top_k
        → recommend_all N p
            (usable_memory_gb N p)
            (speed_weight_of N latency)
            (candidates N task commercial_required catalog)
          ≡ ok found
        → All P found
        → (rs : List Recommendation) × (recommend N p task commercial_required latency top_k catalog
            ≡ ok rs)
          × (length rs ≤ top_k)
          × All Suits rs
          × FittingFirst rs
    unfolding recommend
    recommend-FittingFirst P o top_k catalog found positive e ps =
        let sorted = sort_by (recommended_before N) found in
        let some_asked : ltb top_k 1 ≡ false = ground arith in
        (
          take top_k sorted,
          rw (recommend, some_asked, e) refl,
          length-take top_k sorted,
          take-All Suits top_k sorted (
              sort_by-All (recommended_before N) Suits found (
                recommend_all-All _ _ found
                  (keep-All_kept _ (λ m. not (commercial_required && is_non_commercial N m))
                    (keep (λ m. contains m.tasks task) catalog)
                    (keep-All (λ m. contains m.tasks task) catalog))
                  e)),
          take-FittingFirst top_k sorted
              (Ordered-FittingFirst sorted (sort_by-Ordered (recommended_before N) P o found ps)),
        )
