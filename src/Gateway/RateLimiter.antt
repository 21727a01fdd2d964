-- ===== src/Gateway/RateLimiter.antt =====
-- `_RateLimiter`: a sliding window of one minute. The clock is read in nanoseconds.
pub mod Window
use sovereign_inference.Base.{
  ℕ, ◌+◌, ◌*◌, Bool, true, false, List, [], ◌∷◌, ◌++◌, leb, length, if◌then◌else◌,
}

-- `60.0`
abbrev pub minute : ℕ
minute = 60 * 1_000_000_000

pub record RateLimiter : Type 0 where
  pub limit : ℕ
  pub hits : List ℕ  -- oldest first

-- `while self._hits and self._hits[0] <= window_start: self._hits.popleft()`
unfoldable pub expire : ℕ → List ℕ → List ℕ
expire now [] = []
expire now (hit ∷ hits) =
    let rest = expire now hits in if leb (hit + minute) now then rest else hit ∷ hits

unfoldable pub allow : RateLimiter → ℕ → Bool × RateLimiter
allow l now =
    let hits = expire now l.hits in
    if leb l.limit (length hits)
    then (false, record l { hits = hits })
    else (true, record l { hits = hits ++ now ∷ [] })
