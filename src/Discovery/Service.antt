-- ===== src/Discovery/Service.antt =====
-- apps/directory-service/src/sip_directory_service/app.py over a file, and the client of such a
-- service. What the service sends, the client receives.
use sovereign_inference.Base.{
  String, true, false, Option, none, some, List, [], ◌∷◌, ◌++◌, map, All, ◌≡◌, refl, sym, ◌∙◌,
  arith, eq_iff, ◌==◌, ap,
}
use mathlib.Core.List.{append_assoc, append-nil}
use sovereign_inference.Json.{
  Json, string, array, object, Dict, empty, entry, array_of, get_or, as_dict,
}
use sovereign_inference.Json.Laws.{elements-array_of}
use sovereign_inference.Result.{Result, ok, raised, ◌>>=◌, discovery_error}
use sovereign_inference.Runtime.{Runtime}
use sovereign_inference.Discovery.{
  DiscoveredProvider, key_of, wanted, place, dedupe_into, filter_and_dedupe, providers_of,
  file_announce, file_discover, provided, http_discover,
}
use sovereign_inference.Discovery.Freshest.{Lacks, DistinctKeys}
use sovereign_inference.Discovery.Sound.{
  Genuine, Verifiable, verified-Verifiable, verified_providers-providers_of, file_discover-FoundIn,
  Genuine-provider_of, providers_of_take,
}
use sovereign_inference.Gateway.Requests.{Response, failure}

-- `announce` of the service; the body is missing if it is not JSON.
unfoldable pub service_announce : Runtime → Dict → Option Json → Result Response × Dict
service_announce R entries none =
    (ok (failure 400 "body must be a JSON provider manifest"), entries)
service_announce R entries (some body) = elim (as_dict body) [
  | none ↦ (ok (failure 400 "body must be a JSON object"), entries)
  | some manifest ↦
      let (ref, after) = file_announce R entries manifest none in
      (
        elim ref [
          | raised discovery_error ↦ ok (failure 400 "refused")
          | raised e ↦ raised e
          | ok key ↦ ok (record { status = 200; content = entry "ref" (string key) empty })
        ],
        after,
      )
]

-- What the service lists
unfoldable pub listing : List DiscoveredProvider → Json
unfolding array_of
listing found =
    object (entry "providers" (array (array_of (map (λ p. object p.manifest) found))) empty)

-- `providers` of the service
unfoldable pub service_providers : Runtime → Dict → Option String → Result Json
unfolding array_of listing
service_providers R entries model = do found ← file_discover R entries model; ok (listing found)

module _ (R : Runtime) where
  providers_of-manifests :
      (ps : List DiscoveredProvider)
      → All (Genuine R) ps
      → providers_of R (map (λ p. object p.manifest) ps) ≡ ps
  unfolding providers_of
  providers_of-manifests [] h = refl
  providers_of-manifests (p ∷ ps) h =
      providers_of_take R (object p.manifest) (map (λ p. object p.manifest) ps) p
        (Genuine-provider_of R p h.0)
      ∙ ap (λ l. p ∷ l) (providers_of-manifests ps h.1)

  place_new :
      (p : DiscoveredProvider) (qs : List DiscoveredProvider)
      → Lacks R qs (key_of R p)
      → place R p qs ≡ qs ++ p ∷ []
  unfolding place
  place_new p [] h = refl
  place_new p (q ∷ qs) h = rw h.0 (ap (λ l. q ∷ l) (place_new p qs h.1))

  Lacks-append :
      (qs : List DiscoveredProvider) (p : DiscoveredProvider) (key : String)
      → Lacks R qs key
      → (key_of R p == key) ≡ false
      → Lacks R (qs ++ p ∷ []) key
  Lacks-append [] p key h e = (e, tt)
  Lacks-append (q ∷ qs) p key h e = (h.0, Lacks-append qs p key h.1 e)

  Lacks-snoc :
      (qs : List DiscoveredProvider) (p : DiscoveredProvider) (ps : List DiscoveredProvider)
      → All (λ x. Lacks R qs (key_of R x)) ps
      → Lacks R ps (key_of R p)
      → All (λ x. Lacks R (qs ++ p ∷ []) (key_of R x)) ps
  Lacks-snoc qs p [] h d = tt
  Lacks-snoc qs p (x ∷ ps) h d = (
    Lacks-append qs p (key_of R x) h.0
        (ground (arith, d.0, eq_iff (key_of R x) (key_of R p), eq_iff (key_of R p) (key_of R x))),
    Lacks-snoc qs p ps h.1 d.1,
  )

  dedupe_into_distinct :
      (model : Option String) (qs ps : List DiscoveredProvider)
      → All (λ p. wanted model p ≡ true) ps
      → All (λ p. Lacks R qs (key_of R p)) ps
      → DistinctKeys R ps
      → dedupe_into R model qs ps ≡ qs ++ ps
  unfolding dedupe_into
  dedupe_into_distinct model qs [] w l d = sym (append-nil qs)
  dedupe_into_distinct model qs (p ∷ ps) w l d =
      rw (w.0, place_new p qs l.0)
        (dedupe_into_distinct model (qs ++ p ∷ []) ps w.1 (Lacks-snoc qs p ps l.1 d.0) d.1
          ∙ append_assoc qs (p ∷ []) ps)

  Lacks-nil : (ps : List DiscoveredProvider) → All (λ p. Lacks R [] (key_of R p)) ps
  Lacks-nil [] = tt
  Lacks-nil (p ∷ ps) = (tt, Lacks-nil ps)

  manifests-Verifiable :
      (ps : List DiscoveredProvider)
      → All (Genuine R) ps
      → All (Verifiable R) (map (λ p. object p.manifest) ps)
  manifests-Verifiable [] h = tt
  manifests-Verifiable (p ∷ ps) h =
      (verified-Verifiable R p.manifest h.0.verified, manifests-Verifiable ps h.1)

  pub http_discover-listing :
      (entries : Dict) (model : Option String) (found : List DiscoveredProvider)
      → file_discover R entries model ≡ ok found
      → http_discover R (some (listing found)) model ≡ ok found
  unfolding http_discover listing provided get_or filter_and_dedupe
  http_discover-listing entries model found h =
      let f = file_discover-FoundIn R entries model found h in
      rw
        (
          elements-array_of (map (λ p. object p.manifest) found),
          verified_providers-providers_of R (map (λ p. object p.manifest) found)
              (manifests-Verifiable found f.genuine),
        )
        (ap ok (
          ap (dedupe_into R model []) (providers_of-manifests found f.genuine)
          ∙ dedupe_into_distinct model [] found f.asked (Lacks-nil found) f.one_each))

  -- Over a service that keeps its directory in a file, discovery finds what discovery in that file
  -- finds, if that does not raise: verifying again and removing duplicates again changes nothing.
  -- Holds if the model, where one is asked for, is the same for the service and the client.
  pub http_discover-service_providers :
      (entries : Dict) (model : Option String) (found : List DiscoveredProvider)
      → file_discover R entries model ≡ ok found
      → (payload : Json) × (service_providers R entries model ≡ ok payload)
        × (http_discover R (some payload) model ≡ ok found)
  unfolding service_providers
  http_discover-service_providers entries model found h =
      (listing found, rw (service_providers, h) refl, http_discover-listing entries model found h)
