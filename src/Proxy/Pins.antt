-- ===== src/Proxy/Pins.antt =====
-- `merge_provider` as trust on first use: which key an endpoint is pinned to.
use sovereign_inference.Base.{
  String, true, false, not, List, [], ◌∷◌, ◌++◌, ◌==◌, keep, ◌≡◌, ◌≢◌, ◌↔◌, ◌⊎◌, inl, inr, refl,
  sym, subst, ◌∙◌, arith, eq_iff, Bool-cases,
}
use sovereign_inference.Result.{Result, ok, raised, untrusted_provider}
use sovereign_inference.Runtime.{Runtime}
use sovereign_inference.Router.Registry.{ProviderEntry}
use sovereign_inference.Proxy.{entry_key, pinned_elsewhere, merge_provider}

module _ (R : Runtime) where
  -- The abstract view: an endpoint is pinned to a key by some entry.
  abbrev pub PinnedTo : List ProviderEntry → String → String → Type 0
  PinnedTo [] url key = ⊥
  PinnedTo (e ∷ es) url key = ((e.base_url ≡ url) × (entry_key R e ≡ key)) ⊎ PinnedTo es url key

  abbrev others : ProviderEntry → List ProviderEntry → List ProviderEntry
  others new es = keep (λ e. not (entry_key R e == entry_key R new)) es

  elsewhere→PinnedTo :
      (new : ProviderEntry) (es : List ProviderEntry)
      → pinned_elsewhere R new es ≡ true
      → (key : String) × PinnedTo es new.base_url key × (key ≢ entry_key R new)
  unfolding pinned_elsewhere
  elsewhere→PinnedTo new [] h = cc
  elsewhere→PinnedTo new (e ∷ es) h = elim (Bool-cases (pinned_elsewhere R new es)) [
    | inl more ↦ let (key, p, n) = elsewhere→PinnedTo new es more in (key, inr p, n)
    | inr none_more ↦ (
      entry_key R e,
      inl (ground (arith, eq_iff e.base_url new.base_url), refl),
      λ same. ground (arith, eq_iff (entry_key R e) (entry_key R new)),
    )
  ]

  PinnedTo→elsewhere :
      (new : ProviderEntry) (es : List ProviderEntry) (key : String)
      → PinnedTo es new.base_url key
      → key ≢ entry_key R new
      → pinned_elsewhere R new es ≡ true
  unfolding pinned_elsewhere
  PinnedTo→elsewhere new [] key p n = absurd p
  PinnedTo→elsewhere new (e ∷ es) key (inr p) n = ground (arith, PinnedTo→elsewhere new es key p n)
  PinnedTo→elsewhere new (e ∷ es) key (inl (u, k)) n =
      ground (arith, eq_iff e.base_url new.base_url, eq_iff (entry_key R e) (entry_key R new))

  others→PinnedTo :
      (new : ProviderEntry) (es : List ProviderEntry) (url key : String)
      → PinnedTo (others new es) url key
      → PinnedTo es url key × (key ≢ entry_key R new)
  unfolding keep
  others→PinnedTo new [] url key p = absurd p
  others→PinnedTo new (e ∷ es) url key p = elim (Bool-cases (entry_key R e == entry_key R new)) [
    | inl same ↦
        let rest = others→PinnedTo new es url key (subst (λ l. PinnedTo l url key) (drop same) p) in
        (inr rest.0, rest.1)
    | inr other ↦ elim (subst (λ l. PinnedTo l url key) (stay other) p) [
      | inl (u, k) ↦ (inl (u, k), λ same. ground (arith, eq_iff (entry_key R e) (entry_key R new)))
      | inr q ↦ let rest = others→PinnedTo new es url key q in (inr rest.0, rest.1)
    ]
  ]
    where
      drop : (entry_key R e == entry_key R new) ≡ true → others new (e ∷ es) ≡ others new es
      drop same = rw (keep, same) refl

      stay : (entry_key R e == entry_key R new) ≡ false → others new (e ∷ es) ≡ e ∷ others new es
      stay other = rw (keep, other) refl

  PinnedTo→others :
      (new : ProviderEntry) (es : List ProviderEntry) (url key : String)
      → PinnedTo es url key
      → key ≢ entry_key R new
      → PinnedTo (others new es) url key
  unfolding keep
  PinnedTo→others new [] url key p n = absurd p
  PinnedTo→others new (e ∷ es) url key p n = elim (Bool-cases (entry_key R e == entry_key R new)) [
    | inl same ↦ elim p [
      | inl (u, k) ↦ absurd (n (sym k ∙ (eq_iff (entry_key R e) (entry_key R new)).0 same))
      | inr q ↦ rw (keep, same) (PinnedTo→others new es url key q n)
    ]
    | inr other ↦ elim p [
      | inl uk ↦ rw (keep, other) (inl uk)
      | inr q ↦ rw (keep, other) (inr (PinnedTo→others new es url key q n))
    ]
  ]

  snoc→PinnedTo :
      (es : List ProviderEntry) (e : ProviderEntry) (url key : String)
      → PinnedTo (es ++ e ∷ []) url key
      → PinnedTo es url key ⊎ ((e.base_url ≡ url) × (entry_key R e ≡ key))
  snoc→PinnedTo [] e url key (inl uk) = inr uk
  snoc→PinnedTo [] e url key (inr p) = absurd p
  snoc→PinnedTo (x ∷ es) e url key (inl uk) = inl (inl uk)
  snoc→PinnedTo (x ∷ es) e url key (inr p) = elim (snoc→PinnedTo es e url key p) [
    | inl q ↦ inl (inr q)
    | inr uk ↦ inr uk
  ]

  PinnedTo→snoc :
      (es : List ProviderEntry) (e : ProviderEntry) (url key : String)
      → PinnedTo es url key ⊎ ((e.base_url ≡ url) × (entry_key R e ≡ key))
      → PinnedTo (es ++ e ∷ []) url key
  PinnedTo→snoc [] e url key (inl p) = absurd p
  PinnedTo→snoc [] e url key (inr uk) = inl uk
  PinnedTo→snoc (x ∷ es) e url key (inl (inl uk)) = inl uk
  PinnedTo→snoc (x ∷ es) e url key (inl (inr p)) = inr (PinnedTo→snoc es e url key (inl p))
  PinnedTo→snoc (x ∷ es) e url key (inr uk) = inr (PinnedTo→snoc es e url key (inr uk))

  -- What merging a new entry has come to
  abbrev pub Merges : List ProviderEntry → ProviderEntry → Result (List ProviderEntry) → Type 0
  Merges es new (raised x) =
      (x ≡ untrusted_provider)
      × ((key : String) × PinnedTo es new.base_url key × (key ≢ entry_key R new))
  Merges es new (ok out) =
      ((key : String) → PinnedTo es new.base_url key → key ≡ entry_key R new)
      × ((url key : String)
          → PinnedTo out url key ↔ (
              (PinnedTo es url key × (key ≢ entry_key R new))
              ⊎ ((new.base_url ≡ url) × (entry_key R new ≡ key))))

  -- A new entry is refused exactly if its endpoint is pinned to another key. If it is taken, its
  -- endpoint is pinned to its key and to no other, the earlier endpoints of its key are given up, and
  -- the endpoints of all other keys stay pinned as they were.
  pub merge_provider-Merges :
      (es : List ProviderEntry) (new : ProviderEntry) → Merges es new (merge_provider R es new)
  unfolding merge_provider
  merge_provider-Merges es new = elim (Bool-cases (pinned_elsewhere R new es)) [
    | inl elsewhere ↦ rw (merge_provider, elsewhere) (refl, elsewhere→PinnedTo new es elsewhere)
    | inr free ↦ rw (merge_provider, free) (own free, λ url key. (split url key, join url key))
  ]
    where
      own :
          pinned_elsewhere R new es ≡ false
          → (key : String) → PinnedTo es new.base_url key
          → key ≡ entry_key R new
      own free key p = elim (Bool-cases (key == entry_key R new)) [
        | inl same ↦ (eq_iff key (entry_key R new)).0 same
        | inr other ↦
            let there =
              PinnedTo→elsewhere new es key p (λ e. ground (arith, eq_iff key (entry_key R new))) in
            absurd (ground arith)
      ]

      split :
          (url key : String)
          → PinnedTo (others new es ++ new ∷ []) url key
          → (PinnedTo es url key × (key ≢ entry_key R new))
            ⊎ ((new.base_url ≡ url) × (entry_key R new ≡ key))
      split url key p = elim (snoc→PinnedTo (others new es) new url key p) [
        | inl q ↦ inl (others→PinnedTo new es url key q)
        | inr uk ↦ inr uk
      ]

      join :
          (url key : String)
          → (PinnedTo es url key × (key ≢ entry_key R new))
            ⊎ ((new.base_url ≡ url) × (entry_key R new ≡ key))
          → PinnedTo (others new es ++ new ∷ []) url key
      join url key (inl (p, n)) =
          PinnedTo→snoc (others new es) new url key (inl (PinnedTo→others new es url key p n))
      join url key (inr uk) = PinnedTo→snoc (others new es) new url key (inr uk)
