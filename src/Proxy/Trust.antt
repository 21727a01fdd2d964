-- ===== src/Proxy/Trust.antt =====
-- Which providers a configuration can bring into the registry.
use sovereign_inference.Base.{
  String, Bool, true, false, not, Option, some, List, [], ◌∷◌, ◌++◌, ◌==◌, keep, All, All-keep, ◌≡◌,
  inl, inr, subst, arith, Bool-cases, Option-cases,
}
use sovereign_inference.Json.{Dict, get, get_or, null, string}
use sovereign_inference.Result.{Result, ok, Result-cases}
use sovereign_inference.Runtime.{Runtime}
use sovereign_inference.Urls.{Urls, PublicUrl, is_safe_remote_url, is_safe_remote_url_iff}
use sovereign_inference.Protocol.Manifests.{is_verified_manifest}
use sovereign_inference.Pic.X402.{nonempty_text}
use sovereign_inference.Discovery.{DiscoveredProvider}
use sovereign_inference.Discovery.Sound.{nonempty_text-some}
use sovereign_inference.Router.Registry.{ProviderEntry}
use sovereign_inference.Proxy.{
  asserts_other, trusted_provider_entry, entry_key, pinned_elsewhere, merge_provider, Sources,
  Build, try_add, add_providers, add_discovered, add_directories, build_registry,
}

module _ (R : Runtime) (U : Urls) where
  -- An entry that may be routed to: its manifest verifies, its URL is the one that the manifest has
  -- signed, and the host is on the public side.
  pub record Trusted (e : ProviderEntry) : Type 0 where
    pub verified : is_verified_manifest R e.manifest ≡ true
    pub endpoint : get e.manifest "manifest_uri" ≡ string e.base_url
    pub outside : PublicUrl U e.base_url

  -- No two entries have the same key or the same URL.
  abbrev pub Apart : ProviderEntry → ProviderEntry → Type 0
  Apart e f = ((entry_key R e == entry_key R f) ≡ false) × ((e.base_url == f.base_url) ≡ false)

  abbrev pub Pinned : List ProviderEntry → Type 0
  Pinned [] = Unit
  Pinned (e ∷ es) = All (Apart e) es × Pinned es

  trusted_provider_entry-Trusted :
      (manifest : Dict) (base_url : Option String) (e : ProviderEntry)
      → trusted_provider_entry R U manifest base_url true ≡ ok e
      → Trusted e
  unfolding trusted_provider_entry
  trusted_provider_entry-Trusted manifest base_url e h =
      elim (Bool-cases (is_verified_manifest R manifest)) [
        | inr forged ↦ absurd (ground arith)
        | inl good ↦ elim (Option-cases (nonempty_text (get_or manifest "manifest_uri" null))) [
          | inl n ↦ absurd (ground arith)
          | inr (uri, u) ↦ elim (Bool-cases (asserts_other base_url uri)) [
            | inl other ↦ absurd (ground arith)
            | inr same ↦ elim (Bool-cases (is_safe_remote_url U uri)) [
              | inr inside ↦ absurd (ground arith)
              | inl safe ↦
                  let same_entry : (record { base_url = uri; manifest = manifest }) ≡ e =
                    ground arith in
                  subst Trusted same_entry (record {
                    verified = good;
                    endpoint = (nonempty_text-some (get manifest "manifest_uri") uri u).0;
                    outside =
                        ((is_safe_remote_url_iff U uri).1.0
                          ((is_safe_remote_url_iff U uri).0.0 safe).0);
                  })
            ]
          ]
        ]
      ]

  pinned_elsewhere-Apart :
      (new : ProviderEntry) (es : List ProviderEntry)
      → pinned_elsewhere R new es ≡ false
      → All (λ e. Apart e new) (keep (λ e. not (entry_key R e == entry_key R new)) es)
  unfolding pinned_elsewhere keep
  pinned_elsewhere-Apart new [] h = tt
  pinned_elsewhere-Apart new (e ∷ es) h = elim (Bool-cases (entry_key R e == entry_key R new)) [
    | inl same ↦ rw (keep, same) (pinned_elsewhere-Apart new es (ground arith))
    | inr other ↦
        rw (keep, other) ((other, ground arith), pinned_elsewhere-Apart new es (ground arith))
  ]

  Pinned-keep :
      (p : ProviderEntry → Bool) (es : List ProviderEntry) → Pinned es → Pinned (keep p es)
  unfolding keep
  Pinned-keep p [] h = tt
  Pinned-keep p (e ∷ es) h = elim (Bool-cases (p e)) [
    | inl k ↦ rw (keep, k) (All-keep (Apart e) p es h.0, Pinned-keep p es h.1)
    | inr k ↦ rw (keep, k) (Pinned-keep p es h.1)
  ]

  All-snoc :
      (P : ProviderEntry → Type 0) (es : List ProviderEntry) (e : ProviderEntry)
      → All P es
      → P e
      → All P (es ++ e ∷ [])
  All-snoc P [] e h p = (p, tt)
  All-snoc P (x ∷ es) e h p = (h.0, All-snoc P es e h.1 p)

  Pinned-snoc :
      (es : List ProviderEntry) (new : ProviderEntry)
      → Pinned es
      → All (λ e. Apart e new) es
      → Pinned (es ++ new ∷ [])
  Pinned-snoc [] new h a = (tt, tt)
  Pinned-snoc (e ∷ es) new h a = (All-snoc (Apart e) es new h.0 a.0, Pinned-snoc es new h.1 a.1)

  -- What holds of the entries that are pinned at any time
  pub record Sound (es : List ProviderEntry) : Type 0 where
    pub trusted : All Trusted es
    pub pinned : Pinned es

  merge_provider-Sound :
      (es : List ProviderEntry) (new : ProviderEntry) (out : List ProviderEntry)
      → Sound es
      → Trusted new
      → merge_provider R es new ≡ ok out
      → Sound out
  unfolding merge_provider
  merge_provider-Sound es new out s t h = elim (Bool-cases (pinned_elsewhere R new es)) [
    | inl elsewhere ↦ absurd (ground arith)
    | inr free ↦
        let kept = keep (λ e. not (entry_key R e == entry_key R new)) es in
        let same : kept ++ new ∷ [] ≡ out = ground arith in
        subst Sound same (record {
          trusted = All-snoc Trusted kept new (All-keep Trusted _ es s.trusted) t;
          pinned =
              Pinned-snoc kept new (Pinned-keep _ es s.pinned) (pinned_elsewhere-Apart new es free);
        })
  ]

  try_add-Sound :
      (manifest : Dict) (base_url : Option String) (label : String) (b : Build)
      → Sound b.pinned
      → Sound (try_add R U manifest base_url true label b).pinned
  unfolding try_add
  try_add-Sound manifest base_url label b s =
      elim (Result-cases (trusted_provider_entry R U manifest base_url true)) [
        | inr (x, e) ↦ rw (try_add, e) s
        | inl (entry, e) ↦ elim (Result-cases (merge_provider R b.pinned entry)) [
          | inr (x, m) ↦ rw (try_add, e, m) s
          | inl (out, m) ↦
              rw (try_add, e, m)
                (merge_provider-Sound b.pinned entry out s
                  (trusted_provider_entry-Trusted manifest base_url entry e) m)
        ]
      ]

  add_providers-Sound :
      (es : List ProviderEntry) (b : Build) → Sound b.pinned → Sound (add_providers R U es b).pinned
  unfolding add_providers
  add_providers-Sound [] b s = s
  add_providers-Sound (e ∷ es) b s =
      add_providers-Sound es _ (try_add-Sound e.manifest (some e.base_url) e.base_url b s)

  add_discovered-Sound :
      (ps : List DiscoveredProvider) (b : Build)
      → Sound b.pinned
      → Sound (add_discovered R U ps b).pinned
  unfolding add_discovered
  add_discovered-Sound [] b s = s
  add_discovered-Sound (p ∷ ps) b s =
      add_discovered-Sound ps _ (try_add-Sound p.manifest (some p.base_url) p.base_url b s)

  add_directories-Sound :
      (discover : String → Result (List DiscoveredProvider)) (specs : List String) (b : Build)
      → Sound b.pinned
      → Sound (add_directories R U discover specs b).pinned
  unfolding add_directories
  add_directories-Sound discover [] b s = s
  add_directories-Sound discover (spec ∷ specs) b s = elim (Result-cases (discover spec)) [
    | inr (x, e) ↦ rw (add_directories, e) (add_directories-Sound discover specs _ s)
    | inl (ps, e) ↦
        rw (add_directories, e)
          (add_directories-Sound discover specs _ (add_discovered-Sound ps b s))
  ]

  -- Whatever a configuration names and whatever its directories answer or fail with, every provider
  -- in the registry has a manifest that verifies, is reached at the URL that its manifest has signed
  -- and whose host is on the public side, and no two of them have the same key or the same URL.
  pub build_registry-Sound :
      (discover : String → Result (List DiscoveredProvider)) (sources : Sources)
      → Sound (build_registry R U discover sources).0
  unfolding build_registry
  build_registry-Sound discover sources =
      add_directories-Sound discover sources.directories _
        (add_providers-Sound sources.providers _ (record { trusted = tt; pinned = tt }))
