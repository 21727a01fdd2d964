-- ===== src/Pic/Race.antt =====
-- Redemptions that race for one table, in several threads or processes: the third loop of
-- `_redeem_pic` (packages/pic-vouchers/src/sip_pic/payment.py) a statement at a time, each a single
-- atomic statement of `SpentSet`. The x402 branch of `redeem_payment` is the case of one key.
pub mod Invariant
pub mod Safety
pub mod Solo
use sovereign_inference.Base.{
  ℕ, String, Bool, true, false, ◌||◌, List, [], ◌∷◌, ◌++◌, ◌≡◌, ◌⊎◌, inl, inr, refl, arith, eqb,
  eq_iff, contains, contains-append, contains-discard, if◌then◌else◌,
}
use sovereign_inference.Pic.SpentSet.{SpentSet, spend, unspend}

-- Where a redemption stands.
pub data Redeemer : Type 0 where
  spending : (todo done : List String) → Redeemer
  giving_back : (done : List String) → Redeemer
  accepted : (ids : List String) → Redeemer
  refused : Redeemer

-- The next statement of one redemption. One that has ended makes no further step.
unfoldable pub step : SpentSet → Redeemer → SpentSet × Redeemer
unfolding spend unspend
step table (spending [] done) = (table, accepted done)
step table (spending (i ∷ todo) done) =
    let (won, after) = spend table i in
    if won then (after, spending todo (done ++ i ∷ [])) else (after, giving_back done)
step table (giving_back []) = (table, refused)
step table (giving_back (i ∷ done)) = (unspend table i, giving_back done)
step table (accepted ids) = (table, accepted ids)
step table refused = (table, refused)

pub record System : Type 0 where
  pub table : SpentSet
  pub redeemers : ℕ → Redeemer

abbrev pub update : (ℕ → Redeemer) → ℕ → Redeemer → ℕ → Redeemer
update f i r j = if eqb i j then r else f j

-- The scheduler lets redemption `i` make its next statement.
abbrev pub advance : System → ℕ → System
advance s i =
    let (table, r) = step s.table (s.redeemers i) in
    record { table = table; redeemers = update s.redeemers i r }

-- Every redemption starts with the ids of its batch.
abbrev pub start : SpentSet → (ℕ → List String) → System
start table batches = record { table = table; redeemers = λ i. spending (batches i) [] }

-- A schedule is the list of the redemptions that move, in order.
abbrev pub run : System → List ℕ → System
run s [] = s
run s (i ∷ schedule) = run (advance s i) schedule

-- The ids that a redemption has in the table at the moment.
abbrev pub held : Redeemer → List String
held (spending todo done) = done
held (giving_back done) = done
held (accepted ids) = ids
held refused = []

-- No id comes twice.
abbrev pub IsDistinct : List String → Type 0
IsDistinct [] = Unit
IsDistinct (i ∷ ids) = (contains ids i ≡ false) × IsDistinct ids

-- What every schedule keeps: held ids are in the table, were not there at the start, are held once
-- and by one redemption, and account for all that has been added.
pub record Inv (initial : SpentSet) (s : System) : Type 0 where
  pub in_table :
      (i : ℕ) (k : String) → contains (held (s.redeemers i)) k ≡ true → contains s.table k ≡ true
  pub is_new :
      (i : ℕ) (k : String) → contains (held (s.redeemers i)) k ≡ true → contains initial k ≡ false
  pub one_holder :
      (i j : ℕ) (k : String)
      → contains (held (s.redeemers i)) k ≡ true
      → contains (held (s.redeemers j)) k ≡ true
      → i ≡ j
  pub distinct : (i : ℕ) → IsDistinct (held (s.redeemers i))
  pub kept : (k : String) → contains initial k ≡ true → contains s.table k ≡ true
  pub accounted :
      (k : String)
      → contains s.table k ≡ true
      → (contains initial k ≡ true) ⊎ ((i : ℕ) × (contains (held (s.redeemers i)) k ≡ true))
