-- ===== src/Tests/Reputation.antt =====
-- Examples for reputation: two outcomes are counted, and two providers ranked.
use sovereign_inference.Base.{
  String, Bool, true, false, none, some, List, [], ◌∷◌, ◌==◌, eqb, ◌≡◌, refl, arith, eq_iff, All,
  contains,
}
use sovereign_inference.Json.{Json, Float, string, dict_of}
use sovereign_inference.Result.{Result, ok}
use sovereign_inference.Runtime.{microseconds}
use sovereign_inference.Protocol.Signing.{public_key_str}
use sovereign_inference.Discovery.{DiscoveredProvider}
use sovereign_inference.Pic.Payment.{validate_voucher}
use sovereign_inference.Pic.Issuer.{Issuer, issue, issue-validated}
use sovereign_inference.Reputation.{RoutingOutcome, HealthStatus}
use sovereign_inference.Reputation.Counts.{Counts, replay, current, outcomes_of, replay-Counts}
use sovereign_inference.Tests.Sample.{toy, toy_laws, toy_times, issuer, terms_of}
use sovereign_inference.Tests.Resolver.{naturals, of_ℕ}

abbrev outcome : String → Bool → RoutingOutcome
outcome key succeeded = record {
  provider_pubkey = key;
  succeeded = succeeded;
  latency_ms = some (of_ℕ 3);
  valid_receipt = true;
}

abbrev history : List RoutingOutcome
history = outcome "a" true ∷ outcome "b" false ∷ outcome "a" false ∷ []

replay-Counts_example :
    Counts naturals
      (current naturals (replay naturals history []) "a")
      (outcomes_of naturals "a" history)
replay-Counts_example = replay-Counts naturals history "a"

abbrev same_float : Float → Float → Bool
same_float x y = eqb x.bits y.bits

abbrev found_at : String → DiscoveredProvider
found_at key = record { base_url = key; manifest = dict_of (("provider_pubkey", string key) ∷ []) }

-- Only the provider a is live.
abbrev probe : DiscoveredProvider → Result HealthStatus
probe p = ok (record {
  reachable = true;
  pubkey_match = p.base_url == "a";
  model_match = true;
  latency_ms = some (of_ℕ 2);
})

abbrev bank : Issuer
bank = record { keypair = issuer; unit = "usd" }

issue-validated_example :
    All
      (λ v. validate_voucher toy v (terms_of "3") ≡ none)
      (issue toy bank "3" ("v7" ∷ "v8" ∷ []) 8 microseconds)
unfolding contains
issue-validated_example =
    issue-validated toy toy_laws toy_times bank refl "3" 8 microseconds (terms_of "3") refl
      (ground (arith, eq_iff (public_key_str toy issuer) (public_key_str toy issuer))) (omega arith)
      ("v7" ∷ "v8" ∷ []) (refl, (refl, tt))
