-- ===== src/Relay/Forward.antt =====
-- When the relay forwards a request, and what it answers.
use sovereign_inference.Base.{
  String, true, Option, none, some, ◌≡◌, ◌⊎◌, inl, inr, refl, arith, eq_iff, Bool-cases,
  Option-cases, ap, subst,
}
use sovereign_inference.Json.{
  Json, null, string, object, Dict, get, get_or, as_string, as_dict, is_text,
}
use sovereign_inference.Json.Laws.{as_dict-object, as_string-string, is_text-string}
use sovereign_inference.Result.{Result, ok, raised, Exception}
use sovereign_inference.Runtime.{Runtime}
use sovereign_inference.Urls.{
  Urls, is_safe_forward_url, PublicUrl, is_safe_forward_url-PublicUrl,
  is_safe_forward_url-of_PublicUrl,
}
use sovereign_inference.Protocol.Manifests.{verify_provider_manifest, verdicts}
use sovereign_inference.Router.Client.{Reply}
use sovereign_inference.Relay.{
  Answer, Verdict, refuse, forward_to, judge, passed_on, ForwardedRequest, relay,
}

Verdict-cases :
    (v : Result Verdict)
    → (((answer : Answer) × (v ≡ ok (refuse answer))) ⊎ ((e : Exception) × (v ≡ raised e)))
      ⊎ ((url : String) × (v ≡ ok (forward_to url)))
Verdict-cases (raised e) = inl (inr (e, refl))
Verdict-cases (ok (refuse answer)) = inl (inl (answer, refl))
Verdict-cases (ok (forward_to url)) = inr (url, refl)

-- A target that may be forwarded to at a URL: a manifest that verifies and has signed the URL,
-- which is on the public side.
pub record Allowed (R : Runtime) (U : Urls) (target : Dict) (url : String) : Type 0 where
  pub manifest : Dict
  pub named : get target "manifest" ≡ object manifest
  pub base_url : get target "base_url" ≡ string url
  pub verified : verify_provider_manifest R manifest ≡ ok true
  pub endpoint : get manifest "manifest_uri" ≡ string url
  pub outside : PublicUrl U url

-- A target whose manifest cannot be verified, because `verify_provider_manifest` raises
pub record Unverifiable (R : Runtime) (target : Dict) (e : Exception) : Type 0 where
  pub manifest : Dict
  pub named : get target "manifest" ≡ object manifest
  pub failed : verify_provider_manifest R manifest ≡ raised e

module _ (R : Runtime) (U : Urls) where
  -- What a verdict promises
  Judged : Dict → Result Verdict → Type 0
  Judged target (raised e) = Unverifiable R target e
  Judged target (ok (refuse answer)) = answer.status ≡ 400
  Judged target (ok (forward_to url)) = Allowed R U target url

  judge-Judged : (target : Dict) → Judged target (judge R U target)
  unfolding judge Judged
  judge-Judged target = elim (Option-cases (as_dict (get_or target "manifest" null))) [
    | inl n ↦ rw (judge, n) refl
    | inr (manifest, m) ↦ elim (Option-cases (as_string (get_or target "base_url" null))) [
      | inl n ↦ rw (judge, m, n) refl
      | inr (url, u) ↦ elim (verdicts R manifest) [
        | inr (inr (e, f)) ↦
            rw (judge, m, u, f)
              (record {
                manifest = manifest;
                named = as_dict-object (get target "manifest") manifest m;
                failed = f;
              })
        | inr (inl forged) ↦ rw (judge, m, u, forged) refl
        | inl good ↦ elim (Bool-cases (is_text (get_or manifest "manifest_uri" null) url)) [
          | inr other ↦ rw (judge, m, u, good, other) refl
          | inl same ↦ elim (Bool-cases (is_safe_forward_url U url)) [
            | inr inside ↦ rw (judge, m, u, good, same, inside) refl
            | inl safe ↦
                rw (judge, m, u, good, same, safe)
                  (record {
                    manifest = manifest;
                    named = as_dict-object (get target "manifest") manifest m;
                    base_url = as_string-string (get target "base_url") url u;
                    verified = good;
                    endpoint = is_text-string (get manifest "manifest_uri") url same;
                    outside = is_safe_forward_url-PublicUrl U url safe;
                  })
          ]
        ]
      ]
    ]
  ]

  -- What the relay has done with a request: it forwarded the completion to one URL, or nothing.
  abbrev pub Relayed :
      (String → Dict → Result Reply)
      → Option Json
      → Result Answer × Option ForwardedRequest
      → Type 0
  Relayed post request (ok answer, none) = answer.status ≡ 400
  Relayed post request (raised e, none) =
      (body : Dict) × (target : Dict) × (request ≡ some (object body))
      × (get body "target" ≡ object target)
      × Unverifiable R target e
  Relayed post request (answer, some (url, completion)) =
      (body : Dict) × (target : Dict) × (request ≡ some (object body))
      × (get body "target" ≡ object target)
      × (get body "completion" ≡ object completion)
      × Allowed R U target url
      × (answer ≡ passed_on R (post url completion))

  -- The relay answers 400 and contacts nobody, or it forwards the completion of the request once, to
  -- the URL that a manifest which verifies has signed and whose host is on the public side, and
  -- passes the provider's answer on as it is, or, if the target's manifest cannot be verified for an
  -- exception, raises that exception and contacts nobody.
  pub relay-Relayed :
      (post : String → Dict → Result Reply) (request : Option Json)
      → Relayed post request (relay R U post request)
  unfolding relay Judged
  relay-Relayed post none = refl
  relay-Relayed post (some j) = elim (Option-cases (as_dict j)) [
    | inl n ↦ rw (relay, n) refl
    | inr (body, b) ↦ elim (Option-cases (as_dict (get_or body "target" null))) [
      | inl n ↦ rw (relay, b, n) refl
      | inr (target, t) ↦ elim (Option-cases (as_dict (get_or body "completion" null))) [
        | inl n ↦ rw (relay, b, t, n) refl
        | inr (completion, c) ↦ elim (Verdict-cases (judge R U target)) [
          | inl (inr (e, v)) ↦
              rw (relay, b, t, c, v)
                (
                  body,
                  target,
                  ap some (as_dict-object j body b),
                  as_dict-object (get body "target") target t,
                  subst (Judged target) v (judge-Judged target),
                )
          | inl (inl (answer, v)) ↦
              rw (relay, b, t, c, v) (subst (Judged target) v (judge-Judged target))
          | inr (url, v) ↦
              rw (relay, b, t, c, v)
                (
                  body,
                  target,
                  ap some (as_dict-object j body b),
                  as_dict-object (get body "target") target t,
                  as_dict-object (get body "completion") completion c,
                  subst (Judged target) v (judge-Judged target),
                  refl,
                )
        ]
      ]
    ]
  ]

  -- A target that may be forwarded to is forwarded to.
  pub judge-Allowed :
      (target : Dict) (url : String)
      → Allowed R U target url
      → judge R U target ≡ ok (forward_to url)
  unfolding judge
  judge-Allowed target url a =
      rw (judge, a.named, a.base_url, a.verified)
        (rw (a.endpoint, is_safe_forward_url-of_PublicUrl U url a.outside)
          (ground (arith, eq_iff url url)))
