-- ===== src/Router/Scoring/Ranking.antt =====
-- What `rank_candidates` promises.
use mathlib.Core.List.{Perm}
use sovereign_inference.Base.{
  true, false, List, [], ◌∷◌, map, All, ◌≡◌, refl, ap, keep, sort_by, sort_by-perm, sort_by-Ordered,
  sort_by-keep, Ordered, tied, WeakOrder,
}
use sovereign_inference.Json.{Float}
use sovereign_inference.Result.{ok}
use sovereign_inference.Router.Registry.{ProviderEntry}
use sovereign_inference.Router.Scoring.{
  Arithmetic, Preferences, score_provider, Scored, score_all, better, rank_candidates,
}

-- `<` orders the floats that are not NaN.
pub record FloatOrder (F : Arithmetic) : Type 0 where
  pub asym : (x y : Float) → F.less x y ≡ true → F.less y x ≡ false
  pub neg_trans :
      (x y z : Float)
      → F.is_nan x ≡ false
      → F.is_nan y ≡ false
      → F.is_nan z ≡ false
      → F.less x y ≡ false
      → F.less y z ≡ false
      → F.less x z ≡ false

-- The score of the entry is computed, and it is not NaN.
abbrev pub Scorable : Arithmetic → Preferences → ProviderEntry → Type 0
Scorable F p e = (score : Float) × (score_provider F p e ≡ ok score) × (F.is_nan score ≡ false)

-- A ranking of some entries: all of them, in descending order of their scores, and in the order that
-- they were in where the scores are tied
pub record Ranked (F : Arithmetic) (p : Preferences) (entries ranked : List ProviderEntry)
    : Type 0 where
  pub scored : List Scored
  pub of_entries : map (λ s. s.0) scored ≡ entries
  pub scores : All (λ s. score_provider F p s.0 ≡ ok s.1) scored
  pub best_first : List Scored
  pub listed : map (λ s. s.0) best_first ≡ ranked
  pub permuted : Perm best_first scored
  pub descending : Ordered (better F) best_first
  pub stable :
      (s : Scored)
      → F.is_nan s.1 ≡ false
      → keep (tied (better F) s) best_first ≡ keep (tied (better F) s) scored

module _ (F : Arithmetic) (p : Preferences) where
  -- The scores of entries that have one
  record AllScored (entries : List ProviderEntry) : Type 0 where
    scored : List Scored
    computed : score_all F p entries ≡ ok scored
    of_entries : map (λ s. s.0) scored ≡ entries
    scores : All (λ s. score_provider F p s.0 ≡ ok s.1) scored
    not_nan : All (λ s. F.is_nan s.1 ≡ false) scored

  score_all-AllScored :
      (entries : List ProviderEntry) → All (Scorable F p) entries → AllScored entries
  unfolding score_all
  score_all-AllScored [] h = record {
    scored = [];
    computed = refl;
    of_entries = refl;
    scores = tt;
    not_nan = tt;
  }
  score_all-AllScored (e ∷ es) h =
      let rest = score_all-AllScored es h.1 in
      record {
        scored = (e, h.0.0) ∷ rest.scored;
        computed = rw (score_all, h.0.1, rest.computed) refl;
        of_entries = ap (λ l. e ∷ l) rest.of_entries;
        scores = (h.0.1, rest.scores);
        not_nan = (h.0.2, rest.not_nan);
      }

  better-WeakOrder : FloatOrder F → WeakOrder (better F) (λ s. F.is_nan s.1 ≡ false)
  better-WeakOrder o = record {
    asym = λ x y h. o.asym y.1 x.1 h;
    neg_trans = λ x y z a b c h k. o.neg_trans z.1 y.1 x.1 c b a k h;
  }

  -- Entries whose scores are computed and not NaN are ranked: all of them, the best score first,
  -- and ties in the order of the registry. Holds for an order of floats.
  pub rank_candidates-Ranked :
      FloatOrder F
      → (entries : List ProviderEntry) → All (Scorable F p) entries
      → (ranked : List ProviderEntry) × (rank_candidates F p entries ≡ ok ranked)
        × Ranked F p entries ranked
  unfolding rank_candidates
  rank_candidates-Ranked o entries h =
      let a = score_all-AllScored entries h in
      (
        map (λ s. s.0) (sort_by (better F) a.scored),
        rw (rank_candidates, a.computed) refl,
        record {
          scored = a.scored;
          of_entries = a.of_entries;
          scores = a.scores;
          best_first = sort_by (better F) a.scored;
          listed = refl;
          permuted = sort_by-perm (better F) a.scored;
          descending =
              sort_by-Ordered (better F) (λ s. F.is_nan s.1 ≡ false) (better-WeakOrder o) a.scored
                a.not_nan;
          stable = λ s n.
              sort_by-keep (better F) (λ s. F.is_nan s.1 ≡ false) (better-WeakOrder o) s a.scored n
                a.not_nan;
        },
      )
