-- ===== src/Discovery/Freshest.antt =====
-- `_filter_and_dedupe` keeps one provider for each key, none that was offered being newer.
use sovereign_inference.Base.{
  String, Bool, true, false, Option, List, [], ◌∷◌, All, ◌≡◌, ◌⊎◌, inl, inr, refl, sym, ◌∙◌, arith,
  eq_iff, ◌==◌, if◌then◌else◌, Bool-cases, subst,
}
use sovereign_inference.Runtime.{Runtime}
use sovereign_inference.Text.{text_less, text_less_irrefl, text_less_neg_trans}
use sovereign_inference.Discovery.{
  DiscoveredProvider, key_of, published_at, wanted, place, dedupe_into, filter_and_dedupe,
}

-- The list has a provider of the same key that is not older.
abbrev pub Covers : Runtime → List DiscoveredProvider → DiscoveredProvider → Type 0
Covers R [] p = ⊥
Covers R (q ∷ qs) p =
    ((key_of R q ≡ key_of R p) × (text_less (published_at R q) (published_at R p) ≡ false))
    ⊎ Covers R qs p

-- No provider of the list has this key.
abbrev pub Lacks : Runtime → List DiscoveredProvider → String → Type 0
Lacks R qs key = All (λ q. (key_of R q == key) ≡ false) qs

abbrev pub DistinctKeys : Runtime → List DiscoveredProvider → Type 0
DistinctKeys R [] = Unit
DistinctKeys R (q ∷ qs) = Lacks R qs (key_of R q) × DistinctKeys R qs

if-true : {A : Type 0} {b : Bool} (x y : A) → b ≡ true → (if b then x else y) ≡ x
if-true x y e = rw e refl

module _ (R : Runtime) where
  place-All :
      (P : DiscoveredProvider → Type 0) (p : DiscoveredProvider) (qs : List DiscoveredProvider)
      → P p
      → All P qs
      → All P (place R p qs)
  unfolding place
  place-All P p [] h hs = (h, tt)
  place-All P p (q ∷ qs) h hs = elim (Bool-cases (key_of R q == key_of R p)) [
    | inr other ↦ rw other (hs.0, place-All P p qs h hs.1)
    | inl same ↦ elim (Bool-cases (text_less (published_at R q) (published_at R p))) [
      | inl newer ↦ rw (same, newer) (h, hs.1)
      | inr older ↦ rw (same, older) hs
    ]
  ]

  place-Lacks :
      (p : DiscoveredProvider) (qs : List DiscoveredProvider) (key : String)
      → (key_of R p == key) ≡ false
      → Lacks R qs key
      → Lacks R (place R p qs) key
  place-Lacks p qs key h hs = place-All (λ q. (key_of R q == key) ≡ false) p qs h hs

  Lacks-same : (qs : List DiscoveredProvider) (k j : String) → k ≡ j → Lacks R qs k → Lacks R qs j
  Lacks-same qs k j e hs = subst (Lacks R qs) e hs

  place-DistinctKeys :
      (p : DiscoveredProvider) (qs : List DiscoveredProvider)
      → DistinctKeys R qs
      → DistinctKeys R (place R p qs)
  unfolding place
  place-DistinctKeys p [] d = (tt, tt)
  place-DistinctKeys p (q ∷ qs) d = elim (Bool-cases (key_of R q == key_of R p)) [
    | inr other ↦ rw other (
      place-Lacks p qs (key_of R q)
          (ground (arith, eq_iff (key_of R q) (key_of R p), eq_iff (key_of R p) (key_of R q))) d.0,
      place-DistinctKeys p qs d.1,
    )
    | inl same ↦ elim (Bool-cases (text_less (published_at R q) (published_at R p))) [
      | inl newer ↦
          rw (same, newer)
            (
              Lacks-same qs (key_of R q) (key_of R p)
                  (ground (arith, eq_iff (key_of R q) (key_of R p))) d.0,
              d.1,
            )
      | inr older ↦ rw (same, older) d
    ]
  ]

  place-Covers_self :
      (p : DiscoveredProvider) (qs : List DiscoveredProvider) → Covers R (place R p qs) p
  unfolding place
  place-Covers_self p [] = inl (refl, text_less_irrefl (published_at R p))
  place-Covers_self p (q ∷ qs) = elim (Bool-cases (key_of R q == key_of R p)) [
    | inr other ↦ rw other (inr (place-Covers_self p qs))
    | inl same ↦ elim (Bool-cases (text_less (published_at R q) (published_at R p))) [
      | inl newer ↦ rw (same, newer) (inl (refl, text_less_irrefl (published_at R p)))
      | inr older ↦ rw (same, older) (inl (ground (arith, eq_iff (key_of R q) (key_of R p)), older))
    ]
  ]

  place-Covers :
      (p : DiscoveredProvider) (qs : List DiscoveredProvider) (x : DiscoveredProvider)
      → Covers R qs x
      → Covers R (place R p qs) x
  unfolding place
  place-Covers p [] x c = absurd c
  place-Covers p (q ∷ qs) x c = elim (Bool-cases (key_of R q == key_of R p)) [
    | inr other ↦ rw other (later (place-Covers p qs x) c)
    | inl same ↦ elim (Bool-cases (text_less (published_at R q) (published_at R p))) [
      | inr older ↦ rw (same, older) c
      | inl newer ↦
          rw (same, newer) (replaced (ground (arith, eq_iff (key_of R q) (key_of R p))) newer c)
    ]
  ]
    where
      later :
          (Covers R qs x → Covers R (place R p qs) x)
          → Covers R (q ∷ qs) x
          → Covers R (q ∷ place R p qs) x
      later go (inl here) = inl here
      later go (inr there) = inr (go there)

      replaced :
          key_of R q ≡ key_of R p
          → text_less (published_at R q) (published_at R p) ≡ true
          → Covers R (q ∷ qs) x
          → Covers R (p ∷ qs) x
      replaced same newer (inl here) = inl (
        sym same ∙ here.0,
        text_less_neg_trans _ (published_at R p) (published_at R x) newer here.1,
      )
      replaced same newer (inr there) = inr there

  dedupe_into-All :
      (P : DiscoveredProvider → Type 0) (model : Option String)
      (freshest ps : List DiscoveredProvider)
      → All P freshest
      → All (λ p. wanted model p ≡ true → P p) ps
      → All P (dedupe_into R model freshest ps)
  unfolding dedupe_into
  dedupe_into-All P model freshest [] hs ks = hs
  dedupe_into-All P model freshest (p ∷ ps) hs ks = elim (Bool-cases (wanted model p)) [
    | inr out ↦ rw out (dedupe_into-All P model freshest ps hs ks.1)
    | inl asked ↦ rw asked (
        dedupe_into-All P model (place R p freshest) ps (place-All P p freshest (ks.0 asked) hs)
          ks.1)
  ]

  dedupe_into-DistinctKeys :
      (model : Option String) (freshest ps : List DiscoveredProvider)
      → DistinctKeys R freshest
      → DistinctKeys R (dedupe_into R model freshest ps)
  unfolding dedupe_into
  dedupe_into-DistinctKeys model freshest [] d = d
  dedupe_into-DistinctKeys model freshest (p ∷ ps) d = elim (Bool-cases (wanted model p)) [
    | inr out ↦ rw out (dedupe_into-DistinctKeys model freshest ps d)
    | inl asked ↦
        rw asked
          (dedupe_into-DistinctKeys model (place R p freshest) ps (place-DistinctKeys p freshest d))
  ]

  dedupe_into-Covers :
      (model : Option String) (freshest ps : List DiscoveredProvider) (x : DiscoveredProvider)
      → Covers R freshest x
      → Covers R (dedupe_into R model freshest ps) x
  unfolding dedupe_into
  dedupe_into-Covers model freshest [] x c = c
  dedupe_into-Covers model freshest (p ∷ ps) x c = elim (Bool-cases (wanted model p)) [
    | inr out ↦ rw out (dedupe_into-Covers model freshest ps x c)
    | inl asked ↦
        rw asked (dedupe_into-Covers model (place R p freshest) ps x (place-Covers p freshest x c))
  ]

  dedupe_into-Covers_all :
      (model : Option String) (freshest ps : List DiscoveredProvider)
      → All (λ p. wanted model p ≡ true → Covers R (dedupe_into R model freshest ps) p) ps
  unfolding dedupe_into
  dedupe_into-Covers_all model freshest [] = tt
  dedupe_into-Covers_all model freshest (p ∷ ps) = (
    (λ asked.
        subst (λ f. Covers R (dedupe_into R model f ps) p) (sym (if-true _ freshest asked))
          (dedupe_into-Covers model (place R p freshest) ps p (place-Covers_self p freshest))),
    dedupe_into-Covers_all model (if wanted model p then place R p freshest else freshest) ps,
  )

  pub dedupe_into-From :
      (P : DiscoveredProvider → Type 0) (model : Option String) (ps : List DiscoveredProvider)
      → All P ps
      → All P (filter_and_dedupe R model ps)
  unfolding filter_and_dedupe
  dedupe_into-From P model ps hs = dedupe_into-All P model [] ps tt (weaken ps hs)
    where
      weaken : (xs : List DiscoveredProvider) → All P xs → All (λ p. wanted model p ≡ true → P p) xs
      weaken [] h = tt
      weaken (x ∷ xs) h = ((λ _. h.0), weaken xs h.1)

  pub filter_and_dedupe-wanted :
      (model : Option String) (ps : List DiscoveredProvider)
      → All (λ p. wanted model p ≡ true) (filter_and_dedupe R model ps)
  unfolding filter_and_dedupe
  filter_and_dedupe-wanted model ps =
      dedupe_into-All (λ p. wanted model p ≡ true) model [] ps tt (trivial ps)
    where
      trivial :
          (xs : List DiscoveredProvider)
          → All (λ p. wanted model p ≡ true → wanted model p ≡ true) xs
      trivial [] = tt
      trivial (x ∷ xs) = ((λ h. h), trivial xs)

  pub filter_and_dedupe-DistinctKeys :
      (model : Option String) (ps : List DiscoveredProvider)
      → DistinctKeys R (filter_and_dedupe R model ps)
  unfolding filter_and_dedupe
  filter_and_dedupe-DistinctKeys model ps = dedupe_into-DistinctKeys model [] ps tt

  pub filter_and_dedupe-Covers :
      (model : Option String) (ps : List DiscoveredProvider)
      → All (λ p. wanted model p ≡ true → Covers R (filter_and_dedupe R model ps) p) ps
  unfolding filter_and_dedupe
  filter_and_dedupe-Covers model ps = dedupe_into-Covers_all model [] ps
