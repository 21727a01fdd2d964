-- ===== src/Discovery/Announcing.antt =====
-- FileDirectory.announce of directory.py: what an announcement does to the file.
use sovereign_inference.Base.{
  String, true, false, Option, none, some, List, All, ◌≡◌, inl, inr, refl, arith, eq_iff, ◌==◌,
  Bool-cases, Option-cases, subst,
}
use sovereign_inference.Json.{
  Json, null, bool, int, float, string, array, object, Dict, empty, entry, get, get_or, set,
}
use sovereign_inference.Result.{Result, ok, raised}
use sovereign_inference.Runtime.{Runtime}
use sovereign_inference.Protocol.Manifests.{verify_provider_manifest, verdicts}
use sovereign_inference.Pic.X402.{nonempty_text}
use sovereign_inference.Discovery.{
  DiscoveredProvider, pubkey_of, wanted, filter_and_dedupe, signed_endpoint, announceable,
  providers_of, file_entry, file_announce, filed, file_discover,
}
use sovereign_inference.Discovery.Freshest.{Covers}
use sovereign_inference.Discovery.Sound.{
  Genuine, Verifiable, verify_then, verified_providers-providers_of, verified-Verifiable,
  file_discover-FoundIn, nonempty_text-some,
}

module _ (R : Runtime) where
  -- What an announcement has done
  abbrev pub Announces : Dict → Dict → Option String → Result String × Dict → Type 0
  Announces entries manifest base_url (raised e, after) = after ≡ entries
  Announces entries manifest base_url (ok ref, after) =
      (uri : String) × Genuine R (record { base_url = uri; manifest = manifest })
      × ((url : String) → base_url ≡ some url → url ≡ uri)
      × ((model : Option String) (before : List DiscoveredProvider)
          → file_discover R entries model ≡ ok before
          → wanted model (record { base_url = uri; manifest = manifest }) ≡ true
          → (found : List DiscoveredProvider) × (file_discover R after model ≡ ok found)
            × Covers R found (record { base_url = uri; manifest = manifest }))

  filed_tail :
      (P : Json → Type 0) (k : String) (v : Json) (d : Dict)
      → All P (filed (entry k v d))
      → All P (filed d)
  unfolding filed
  filed_tail P k (object e) d h = h.1
  filed_tail P k null d h = h
  filed_tail P k (bool b) d h = h
  filed_tail P k (int z) d h = h
  filed_tail P k (float x) d h = h
  filed_tail P k (string s) d h = h
  filed_tail P k (array xs) d h = h

  filed-set :
      (P : Json → Type 0) (d : Dict) (key : String) (manifest : Dict)
      → All P (filed (set d key (file_entry manifest)))
      → P (object manifest)
  unfolding filed set get_or
  filed-set P empty key manifest h = h.0
  filed-set P (entry k v d) key manifest h = elim (Bool-cases (k == key)) [
    | inl same ↦ (subst (λ x. All P (filed x)) (set_here same) h).0
    | inr other ↦ filed-set P d key manifest (
        filed_tail P k v (set d key (file_entry manifest))
          (subst (λ x. All P (filed x)) (set_there other) h))
  ]
    where
      set_here :
          (k == key) ≡ true
          → set (entry k v d) key (file_entry manifest) ≡ entry key (file_entry manifest) d
      set_here same = rw (set, same) refl

      set_there :
          (k == key) ≡ false
          → set (entry k v d) key (file_entry manifest)
            ≡ entry k v (set d key (file_entry manifest))
      set_there other = rw (set, other) refl

  filed_set :
      (P : Json → Type 0) (d : Dict) (key : String) (manifest : Dict)
      → P (object manifest)
      → All P (filed d)
      → All P (filed (set d key (file_entry manifest)))
  unfolding filed set get_or
  filed_set P empty key manifest p h = (p, tt)
  filed_set P (entry k v d) key manifest p h = elim (Bool-cases (k == key)) [
    | inl same ↦ rw (set, same) (p, filed_tail P k v d h)
    | inr other ↦ rw (set, other) (onto v (filed_set P d key manifest p) h)
  ]
    where
      onto :
          (w : Json)
          → (All P (filed d) → All P (filed (set d key (file_entry manifest))))
          → All P (filed (entry k w d))
          → All P (filed (entry k w (set d key (file_entry manifest))))
      onto (object e) next g = (g.0, next g.1)
      onto null next g = next g
      onto (bool b) next g = next g
      onto (int z) next g = next g
      onto (float x) next g = next g
      onto (string s) next g = next g
      onto (array xs) next g = next g

  file_discover-ok :
      (entries : Dict) (model : Option String)
      → All (Verifiable R) (filed entries)
      → file_discover R entries model
        ≡ ok (filter_and_dedupe R model (providers_of R (filed entries)))
  unfolding file_discover
  file_discover-ok entries model h =
      rw (file_discover, verified_providers-providers_of R (filed entries) h) refl

  -- A refused announcement changes nothing. An accepted one is of a manifest that verifies, at the
  -- endpoint that it has signed, which an explicit `base_url` can only repeat; and discovery in the
  -- file, if it did not raise before, then finds a provider of its key, not older, for every model
  -- that it serves.
  pub file_announce-Announces :
      (entries manifest : Dict) (base_url : Option String)
      → Announces entries manifest base_url (file_announce R entries manifest base_url)
  unfolding file_announce announceable signed_endpoint
  file_announce-Announces entries manifest base_url = elim (verdicts R manifest) [
    | inr (inr (e, f)) ↦ rw (file_announce, f) refl
    | inr (inl forged) ↦ rw (file_announce, forged) refl
    | inl good ↦ elim (Option-cases (nonempty_text (get_or manifest "manifest_uri" null))) [
      | inl n ↦ rw (file_announce, good, n) refl
      | inr (uri, u) ↦ endpoint uri good u base_url
    ]
  ]
    where
      accepted :
          (uri : String)
          → verify_provider_manifest R manifest ≡ ok true
          → nonempty_text (get_or manifest "manifest_uri" null) ≡ some uri
          → (url : Option String) → ((u : String) → url ≡ some u → u ≡ uri)
          → Announces entries manifest url
              (ok (pubkey_of R manifest), set entries (pubkey_of R manifest) (file_entry manifest))
      accepted uri good u url asserted =
          let genuine : Genuine R (record { base_url = uri; manifest = manifest }) = record {
            verified = good;
            endpoint = (nonempty_text-some (get manifest "manifest_uri") uri u).0;
            reachable = (nonempty_text-some (get manifest "manifest_uri") uri u).1;
          } in
          (
            uri,
            genuine,
            asserted,
            λ model before went asked.
                let after = set entries (pubkey_of R manifest) (file_entry manifest) in
                let checked =
                  filed_set (Verifiable R) entries (pubkey_of R manifest) manifest
                    (verified-Verifiable R manifest good)
                    (unfold file_discover in
                      ((verify_then R (filed entries) model before went).0)) in
                let found = filter_and_dedupe R model (providers_of R (filed after)) in
                (
                  found,
                  file_discover-ok after model checked,
                  filed-set _ entries (pubkey_of R manifest) manifest
                      (file_discover-FoundIn R after model found
                        (file_discover-ok after model checked)).freshest
                      (record { base_url = uri; manifest = manifest }) refl genuine asked,
                ),
          )

      endpoint :
          (uri : String)
          → verify_provider_manifest R manifest ≡ ok true
          → nonempty_text (get_or manifest "manifest_uri" null) ≡ some uri
          → (url : Option String)
          → Announces entries manifest url (file_announce R entries manifest url)
      endpoint uri good u none = rw (file_announce, good, u) (accepted uri good u none (λ x e. cc))
      endpoint uri good u (some url) = elim (Bool-cases (url == uri)) [
        | inr other ↦ rw (file_announce, good, u, other) refl
        | inl same ↦
            rw (file_announce, good, u, same)
              (accepted uri good u (some url) (λ x e. ground (arith, eq_iff url uri)))
      ]
