-- ===== src/Gateway/RateLimiter/Window.antt =====
-- The limiter lets at most `limit` requests through in any minute.
use sovereign_inference.Base.{
  ℕ, suc, ◌+◌, ◌≤◌, ◌<◌, true, false, ◌&&◌, List, [], ◌∷◌, ◌++◌, ◌≡◌, refl, arith, leb, ltb, length,
  length-append, if◌then◌else◌, Bool-cases, inl, inr,
}
use native.Mathlib.Decide.{dec_le}
use native.Mathlib.Nat.{le_refl}
use sovereign_inference.Gateway.RateLimiter.{minute, RateLimiter, expire, allow}

-- The times at which requests were let through, for a list of readings of the clock.
pub allowed : RateLimiter → List ℕ → List ℕ
allowed l [] = []
allowed l (now ∷ times) =
    let (go, after) = allow l now in
    let rest = allowed after times in if go then now ∷ rest else rest

-- The clock never goes back.
abbrev pub Monotone : ℕ → List ℕ → Type 0
Monotone from [] = Unit
Monotone from (now ∷ times) = (from ≤ now) × Monotone now times

-- How many of the times lie in the minute that ends at `t`.
pub in_window : ℕ → List ℕ → ℕ
in_window t [] = 0
in_window t (x ∷ xs) =
    let rest = in_window t xs in if leb x t && ltb t (x + minute) then suc rest else rest

in_window-append :
    (t : ℕ) (xs ys : List ℕ) → in_window t (xs ++ ys) ≡ in_window t xs + in_window t ys
unfolding in_window
in_window-append t [] ys = omega arith
in_window-append t (x ∷ xs) ys = ground (arith, in_window-append t xs ys)

in_window-le : (t : ℕ) (xs : List ℕ) → in_window t xs ≤ length xs
unfolding in_window
in_window-le t [] = omega arith
in_window-le t (x ∷ xs) = ground (arith, in_window-le t xs)

-- What has left the window by `now` is in no window that ends later.
in_window-expire :
    (t now : ℕ) (xs : List ℕ) → now ≤ t → in_window t (expire now xs) ≡ in_window t xs
unfolding in_window expire
in_window-expire t now [] h = refl
in_window-expire t now (x ∷ xs) h = ground (arith, in_window-expire t now xs h)

-- Before any reading of the rest, only what was let through so far counts.
in_window_later :
    (t from : ℕ) (l : RateLimiter) (times : List ℕ)
    → Monotone from times
    → t < from
    → in_window t (allowed l times) ≡ 0
unfolding in_window allowed
in_window_later t from l [] m h = refl
in_window_later t from l (now ∷ times) m h = elim (Bool-cases (allow l now).0) [
  | inl go ↦ rw go (ground (arith, in_window_later t now (allow l now).1 times m.1))
  | inr stop ↦ rw stop (in_window_later t now (allow l now).1 times m.1 (omega arith))
]

limit-allow : (l : RateLimiter) (now : ℕ) → (allow l now).1.limit ≡ l.limit
unfolding allow
limit-allow l now = ground arith

length-expire : (now : ℕ) (xs : List ℕ) → length (expire now xs) ≤ length xs
unfolding expire
length-expire now [] = omega arith
length-expire now (x ∷ xs) = ground (arith, length-expire now xs)

length-allow :
    (l : RateLimiter) (now : ℕ) → length l.hits ≤ l.limit → length (allow l now).1.hits ≤ l.limit
unfolding allow
length-allow l now h =
    ground (arith, length-expire now l.hits, length-append (expire now l.hits) (now ∷ []))

-- A request that is let through is entered; one that is not leaves only the expiry.
in_window-allow :
    (l : RateLimiter) (t now : ℕ)
    → now ≤ t
    → in_window t (allow l now).1.hits
      ≡ in_window t l.hits + (if (allow l now).0 then in_window t (now ∷ []) else 0)
unfolding allow
in_window-allow l t now h = elim (Bool-cases (leb l.limit (length (expire now l.hits)))) [
  | inl full ↦ rw full (omega (arith, in_window-expire t now l.hits h))
  | inr room ↦ rw room (
      omega
        (arith, in_window-append t (expire now l.hits) (now ∷ []), in_window-expire t now l.hits h))
]

in_window-cons :
    (t x : ℕ) (xs : List ℕ) → in_window t (x ∷ xs) ≡ in_window t (x ∷ []) + in_window t xs
unfolding in_window
in_window-cons t x xs = ground arith

module _ (l : RateLimiter) (now : ℕ) (times : List ℕ) where
  allowed_go :
      (allow l now).0 ≡ true → allowed l (now ∷ times) ≡ now ∷ allowed (allow l now).1 times
  unfolding allowed
  allowed_go go = rw go

  allowed_stop : (allow l now).0 ≡ false → allowed l (now ∷ times) ≡ allowed (allow l now).1 times
  unfolding allowed
  allowed_stop stop = rw stop

module _ (l : RateLimiter) (t now : ℕ) where
  in_window-allow_go :
      (allow l now).0 ≡ true
      → now ≤ t
      → in_window t (allow l now).1.hits ≡ in_window t l.hits + in_window t (now ∷ [])
  in_window-allow_go go h = ground (arith, in_window-allow l t now h)

  in_window-allow_stop :
      (allow l now).0 ≡ false → now ≤ t → in_window t (allow l now).1.hits ≡ in_window t l.hits
  in_window-allow_stop stop h = ground (arith, in_window-allow l t now h)

-- In any minute at most `limit` requests are let through, counting the hits that the limiter starts
-- with, whenever the clock does not go back.
pub allowed-limit :
    (l : RateLimiter) (from t : ℕ) (times : List ℕ)
    → Monotone from times
    → length l.hits ≤ l.limit
    → in_window t l.hits + in_window t (allowed l times) ≤ l.limit
allowed-limit l from t [] m h = unfold allowed in_window in omega (arith, in_window-le t l.hits)
allowed-limit l from t (now ∷ times) m h =
    round (allowed-limit (allow l now).1 now t times m.1 (rw limit-allow (length-allow l now h)))
  where
    later : RateLimiter
    later = (allow l now).1

    round :
        in_window t later.hits + in_window t (allowed later times) ≤ later.limit
        → in_window t l.hits + in_window t (allowed l (now ∷ times)) ≤ l.limit
    round ih = elim (dec_le now t) [
      | no early ↦
          omega
            (arith, in_window_later t now l (now ∷ times) (le_refl now, m.1), in_window-le t l.hits)
      | yes reached ↦ elim (Bool-cases (allow l now).0) [
        | inl go ↦ rw (allowed_go l now times go) (
            omega (
              arith,
              ih,
              limit-allow l now,
              in_window-cons t now (allowed later times),
              in_window-allow_go l t now go reached,
            ))
        | inr stop ↦
            rw (allowed_stop l now times stop)
              (omega (arith, ih, limit-allow l now, in_window-allow_stop l t now stop reached))
      ]
    ]
