-- ===== src/Reputation/Ranking.antt =====
-- What `rank_providers` promises.
use mathlib.Core.List.{Perm}
use sovereign_inference.Base.{
  String, Bool, true, false, Option, none, some, List, map, keep, All, ◌≡◌, Ordered,
}
use sovereign_inference.Json.{Float}
use sovereign_inference.Result.{Result, ok, raised}
use sovereign_inference.Runtime.{Runtime}
use sovereign_inference.Discovery.{DiscoveredProvider, key_of}
use sovereign_inference.Router.Scoring.{Arithmetic}
use sovereign_inference.Reputation.{
  ReputationScore, HealthStatus, is_healthy, RankedProvider, rank_key, ahead,
}

-- The key of the provider is computed.
abbrev pub Keyed : Arithmetic → Float → RankedProvider → Type 0
Keyed F infinity r = (key : Float × Float × Float) × (rank_key F infinity r ≡ ok key)

-- Whether a provider is kept: without a probe, all of them are.
abbrev pub is_live : Option (DiscoveredProvider → Result HealthStatus) → DiscoveredProvider → Bool
is_live none p = true
is_live (some check) p = elim (check p) [ raised e ↦ false | ok h ↦ is_healthy h ]

-- The probe of the provider returns.
abbrev pub Probed : Option (DiscoveredProvider → Result HealthStatus) → DiscoveredProvider → Type 0
Probed none p = Unit
Probed (some check) p = (h : HealthStatus) × (check p ≡ ok h)

-- The health that is shown: none without a probe, and that of the probe, which is good, with one
abbrev pub ShowsHealth : Option (DiscoveredProvider → Result HealthStatus) → RankedProvider → Type 0
ShowsHealth none r = r.health ≡ none
ShowsHealth (some check) r =
    (h : HealthStatus) × (check r.provider ≡ ok h) × (is_healthy h ≡ true) × (r.health ≡ some h)

module _ (R : Runtime) (score_for : String → ReputationScore)
    (probe : Option (DiscoveredProvider → Result HealthStatus)) where
  -- Providers with their scores, before they are sorted
  pub record Rated (providers : List DiscoveredProvider) (ranked : List RankedProvider)
      : Type 0 where
    pub live : map (λ r. r.provider) ranked ≡ keep (is_live probe) providers
    pub scores : All (λ r. r.reputation_score ≡ score_for (key_of R r.provider)) ranked
    pub healthy : All (ShowsHealth probe) ranked

-- A ranking by reputation
pub record RankedBy (R : Runtime) (F : Arithmetic) (equal : Float → Float → Bool) (infinity : Float)
    (score_for : String → ReputationScore)
    (probe : Option (DiscoveredProvider → Result HealthStatus))
    (providers : List DiscoveredProvider) (ranked : List RankedProvider) : Type 0 where
  pub found : List RankedProvider
  pub of_providers : Rated R score_for probe providers found
  pub permuted : Perm ranked found
  pub best_first : Ordered (ahead F equal infinity) ranked
