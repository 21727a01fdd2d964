-- ===== src/Discovery/Sound.antt =====
-- What discovery promises, whatever the directory holds or a relay answers.
use sovereign_inference.Base.{
  String, true, false, Option, none, some, List, [], ◌∷◌, All, ◌≡◌, ◌≢◌, ◌⊎◌, inl, inr, refl, sym,
  ◌∙◌, arith, ◌==◌, Bool-cases, Option-cases, ap, subst,
}
use sovereign_inference.Json.{
  Json, null, bool, int, float, string, array, object, nil, Dict, get, get_or, as_dict,
}
use sovereign_inference.Result.{ok, ◌>>=◌, Result-cases}
use sovereign_inference.Runtime.{Runtime}
use sovereign_inference.Protocol.Manifests.{
  verify_provider_manifest, is_verified_manifest, is_verified_manifest-true,
  true-is_verified_manifest,
}
use sovereign_inference.Pic.X402.{nonempty_text}
use sovereign_inference.Discovery.{
  DiscoveredProvider, wanted, filter_and_dedupe, verified_provider, verified_providers, provider_of,
  providers_of, filed, file_discover, provided, http_discover,
}
use sovereign_inference.Discovery.Freshest.{
  Covers, DistinctKeys, dedupe_into-From, filter_and_dedupe-wanted, filter_and_dedupe-DistinctKeys,
  filter_and_dedupe-Covers,
}

-- A provider whose manifest verifies, at the endpoint that the manifest has signed
pub record Genuine (R : Runtime) (p : DiscoveredProvider) : Type 0 where
  pub verified : verify_provider_manifest R p.manifest ≡ ok true
  pub endpoint : get p.manifest "manifest_uri" ≡ string p.base_url
  pub reachable : (p.base_url == "") ≡ false

-- What is found in a list of manifests that nobody vouches for
pub record FoundIn (R : Runtime) (model : Option String) (manifests : List Json)
    (found : List DiscoveredProvider) : Type 0 where
  pub genuine : All (Genuine R) found
  pub asked : All (λ p. wanted model p ≡ true) found
  pub one_each : DistinctKeys R found
  pub freshest :
      All
        (λ j.
          (p : DiscoveredProvider)
          → j ≡ object p.manifest
          → Genuine R p
          → wanted model p ≡ true
          → Covers R found p)
        manifests

pub nonempty_text-some :
    (j : Json) (s : String) → nonempty_text j ≡ some s → (j ≡ string s) × ((s == "") ≡ false)
nonempty_text-some (string t) s h = elim (Bool-cases (t == "")) [
  | inl none_there ↦ absurd (ground arith)
  | inr there ↦ (ground arith, ground arith)
]
nonempty_text-some null s h = cc
nonempty_text-some (bool b) s h = cc
nonempty_text-some (int z) s h = cc
nonempty_text-some (float x) s h = cc
nonempty_text-some (array xs) s h = cc
nonempty_text-some (object d) s h = cc

pub nonempty_text-string : (s : String) → (s == "") ≡ false → nonempty_text (string s) ≡ some s
nonempty_text-string s h = rw h refl

none-ne-some : (p : DiscoveredProvider) → ◌≢◌ {A = Option DiscoveredProvider} none (some p)
none-ne-some p e = cc

some-inj :
    (q p : DiscoveredProvider) → ◌≡◌ {A = Option DiscoveredProvider} (some q) (some p) → q ≡ p
some-inj q p e = cc

ok-inj : {A : Type 0} {x y : A} → ok x ≡ ok y → x ≡ y
ok-inj e = cc

module _ (R : Runtime) where
  provider_of-object :
      (m : Dict) (p : DiscoveredProvider) → provider_of R (object m) ≡ some p → Genuine R p
  unfolding provider_of
  provider_of-object m p h = elim (Bool-cases (is_verified_manifest R m)) [
    | inr forged ↦ absurd (ground arith)
    | inl good ↦ elim (Option-cases (nonempty_text (get_or m "manifest_uri" null))) [
      | inl n ↦ absurd (ground arith)
      | inr (uri, u) ↦
          let e : (record { base_url = uri; manifest = m }) ≡ p = ground arith in
          subst (Genuine R) e (record {
            verified = is_verified_manifest-true R m good;
            endpoint = (nonempty_text-some (get m "manifest_uri") uri u).0;
            reachable = (nonempty_text-some (get m "manifest_uri") uri u).1;
          })
    ]
  ]

  provider_of-Genuine : (j : Json) (p : DiscoveredProvider) → provider_of R j ≡ some p → Genuine R p
  unfolding provider_of
  provider_of-Genuine (object m) p h = provider_of-object m p h
  provider_of-Genuine null p h = cc
  provider_of-Genuine (bool b) p h = cc
  provider_of-Genuine (int z) p h = cc
  provider_of-Genuine (float x) p h = cc
  provider_of-Genuine (string s) p h = cc
  provider_of-Genuine (array xs) p h = cc

  nonempty_text-endpoint :
      (p : DiscoveredProvider)
      → Genuine R p
      → nonempty_text (get_or p.manifest "manifest_uri" null) ≡ some p.base_url
  nonempty_text-endpoint p g =
      ap nonempty_text g.endpoint ∙ nonempty_text-string p.base_url g.reachable

  -- A genuine provider is recognised in its own manifest.
  pub Genuine-provider_of :
      (p : DiscoveredProvider) → Genuine R p → provider_of R (object p.manifest) ≡ some p
  unfolding provider_of
  Genuine-provider_of p g =
      rw (provider_of, true-is_verified_manifest R p.manifest g.verified)
        (rw (nonempty_text-endpoint p g) refl)

  providers_of_skip :
      (j : Json) (js : List Json)
      → provider_of R j ≡ none
      → providers_of R (j ∷ js) ≡ providers_of R js
  unfolding providers_of
  providers_of_skip j js n = rw (providers_of, n) refl

  pub providers_of_take :
      (j : Json) (js : List Json) (p : DiscoveredProvider)
      → provider_of R j ≡ some p
      → providers_of R (j ∷ js) ≡ p ∷ providers_of R js
  unfolding providers_of
  providers_of_take j js p e = rw (providers_of, e) refl

  pub providers_of-Genuine : (js : List Json) → All (Genuine R) (providers_of R js)
  unfolding providers_of
  providers_of-Genuine [] = tt
  providers_of-Genuine (j ∷ js) = elim (Option-cases (provider_of R j)) [
    | inl n ↦ subst (All (Genuine R)) (sym (providers_of_skip j js n)) (providers_of-Genuine js)
    | inr (p, e) ↦
        subst (All (Genuine R)) (sym (providers_of_take j js p e))
          (provider_of-Genuine j p e, providers_of-Genuine js)
  ]

  offered :
      (Q : DiscoveredProvider → Type 0) (js : List Json)
      → All Q (providers_of R js)
      → All (λ j. (p : DiscoveredProvider) → j ≡ object p.manifest → Genuine R p → Q p) js
  unfolding providers_of
  offered Q [] h = tt
  offered Q (j ∷ js) h = elim (Option-cases (provider_of R j)) [
    | inl n ↦ (
      (λ p e g. absurd (none-ne-some p (sym n ∙ ap (provider_of R) e ∙ Genuine-provider_of p g))),
      offered Q js (subst (All Q) (providers_of_skip j js n) h),
    )
    | inr (q, t) ↦ (
      (λ p e g.
          subst Q (some-inj q p (sym t ∙ ap (provider_of R) e ∙ Genuine-provider_of p g))
            (subst (All Q) (providers_of_take j js q t) h).0),
      offered Q js (subst (All Q) (providers_of_take j js q t) h).1,
    )
  ]

  discover-FoundIn :
      (model : Option String) (manifests : List Json)
      → FoundIn R model manifests (filter_and_dedupe R model (providers_of R manifests))
  discover-FoundIn model manifests = record {
    genuine =
        dedupe_into-From R (Genuine R) model (providers_of R manifests)
          (providers_of-Genuine manifests);
    asked = filter_and_dedupe-wanted R model (providers_of R manifests);
    one_each = filter_and_dedupe-DistinctKeys R model (providers_of R manifests);
    freshest =
        offered
          (λ p.
            wanted model p ≡ true
            → Covers R (filter_and_dedupe R model (providers_of R manifests)) p)
          manifests (filter_and_dedupe-Covers R model (providers_of R manifests));
  }

  verified_provider-provider_of :
      (j : Json) (o : Option DiscoveredProvider)
      → verified_provider R j ≡ ok o
      → o ≡ provider_of R j
  unfolding verified_provider provider_of is_verified_manifest
  verified_provider-provider_of (object m) o h =
      elim (Result-cases (verify_provider_manifest R m)) [
        | inr (x, e) ↦ absurd (ground arith)
        | inl (b, e) ↦
            rw (provider_of, is_verified_manifest, e)
              (ok-inj (sym h ∙ rw (verified_provider, e) refl))
      ]
  verified_provider-provider_of null o h = ok-inj (sym h)
  verified_provider-provider_of (bool b) o h = ok-inj (sym h)
  verified_provider-provider_of (int z) o h = ok-inj (sym h)
  verified_provider-provider_of (float x) o h = ok-inj (sym h)
  verified_provider-provider_of (string s) o h = ok-inj (sym h)
  verified_provider-provider_of (array xs) o h = ok-inj (sym h)

  -- It can be told whether the manifest verifies.
  abbrev pub Verifiable : Json → Type 0
  Verifiable j = (o : Option DiscoveredProvider) × (verified_provider R j ≡ ok o)

  -- Verification goes through exactly if it does for each manifest, and finds the same.
  pub verified_providers-providers_of :
      (js : List Json) → All Verifiable js → verified_providers R js ≡ ok (providers_of R js)
  unfolding verified_providers providers_of
  verified_providers-providers_of [] h = refl
  verified_providers-providers_of (j ∷ js) h =
      rw
        (
          verified_providers,
          h.0.1 ∙ ap ok (verified_provider-provider_of j h.0.0 h.0.1),
          verified_providers-providers_of js h.1,
        )
        refl

  verified_providers-Verifiable :
      (js : List Json) (found : List DiscoveredProvider)
      → verified_providers R js ≡ ok found
      → All Verifiable js
  unfolding verified_providers
  verified_providers-Verifiable [] found h = tt
  verified_providers-Verifiable (j ∷ js) found h = elim (Result-cases (verified_provider R j)) [
    | inr (x, e) ↦ absurd (ground arith)
    | inl (o, e) ↦ elim (Result-cases (verified_providers R js)) [
      | inr (x, f) ↦ absurd (ground arith)
      | inl (rest, f) ↦ ((o, e), verified_providers-Verifiable js rest f)
    ]
  ]

  -- What is found once the manifests have been verified
  pub verify_then :
      (js : List Json) (model : Option String) (found : List DiscoveredProvider)
      → (do ps ← verified_providers R js; ok (filter_and_dedupe R model ps)) ≡ ok found
      → All Verifiable js × (filter_and_dedupe R model (providers_of R js) ≡ found)
  verify_then js model found h = elim (Result-cases (verified_providers R js)) [
    | inr (x, e) ↦ absurd (ground arith)
    | inl (ps, e) ↦
        let checked = verified_providers-Verifiable js ps e in
        let same : providers_of R js ≡ ps =
          ok-inj (sym (verified_providers-providers_of js checked) ∙ e) in
        (checked, ok-inj (ground arith))
  ]

  -- Discovery in a file, whatever its content, if it does not raise: every provider that is found has
  -- a manifest that verifies, is reached at the endpoint that its manifest has signed, and serves the
  -- model that was asked for; no two have the same key; and of every genuine manifest in the file that
  -- serves the model, a provider of its key is found that was not published before it.
  pub file_discover-FoundIn :
      (entries : Dict) (model : Option String) (found : List DiscoveredProvider)
      → file_discover R entries model ≡ ok found
      → FoundIn R model (filed entries) found
  unfolding file_discover
  file_discover-FoundIn entries model found h =
      subst (FoundIn R model (filed entries)) (verify_then (filed entries) model found h).1
        (discover-FoundIn model (filed entries))

  -- The manifests in a relay's answer
  abbrev pub Answered : Json → List Json → Type 0
  Answered payload manifests =
      (d : Dict) × (payload ≡ object d)
      × (provided (get_or d "providers" (array nil)) ≡ ok manifests)

  -- Discovery through a relay that is not trusted: whatever it answers, discovery raises, or finds
  -- nothing in an answer that is no object, or finds in the manifests of the answer what discovery
  -- in a file finds: only genuine providers, one for each key, the freshest of those that are there.
  pub http_discover-FoundIn :
      (payload : Json) (model : Option String) (found : List DiscoveredProvider)
      → http_discover R (some payload) model ≡ ok found
      → ((as_dict payload ≡ none) × (found ≡ []))
        ⊎ ((manifests : List Json) × Answered payload manifests × FoundIn R model manifests found)
  unfolding http_discover
  http_discover-FoundIn (object d) model found h =
      elim (Result-cases (provided (get_or d "providers" (array nil)))) [
        | inr (x, e) ↦ absurd (ground arith)
        | inl (manifests, e) ↦ inr (
          manifests,
          (d, refl, e),
          subst (FoundIn R model manifests)
              (verify_then manifests model found (sym (rw e refl) ∙ h)).1
              (discover-FoundIn model manifests),
        )
      ]
  http_discover-FoundIn null model found h = inl (refl, ground arith)
  http_discover-FoundIn (bool b) model found h = inl (refl, ground arith)
  http_discover-FoundIn (int z) model found h = inl (refl, ground arith)
  http_discover-FoundIn (float x) model found h = inl (refl, ground arith)
  http_discover-FoundIn (string s) model found h = inl (refl, ground arith)
  http_discover-FoundIn (array xs) model found h = inl (refl, ground arith)

  pub verified-Verifiable :
      (manifest : Dict)
      → verify_provider_manifest R manifest ≡ ok true
      → Verifiable (object manifest)
  unfolding verified_provider
  verified-Verifiable manifest h = elim (Result-cases (verified_provider R (object manifest))) [
    | inr (x, e) ↦ absurd (ground arith)
    | inl found ↦ found
  ]
