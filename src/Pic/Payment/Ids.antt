-- ===== src/Pic/Payment/Ids.antt =====
-- The ids of a batch of vouchers, and what the three loops of `_redeem_pic` do with them.
use sovereign_inference.Base.{
  String, true, false, ◌||◌, none, some, List, [], ◌∷◌, ◌++◌, ◌≡◌, ◌≢◌, refl, ◌∙◌, ap, arith,
  eq_iff, contains, contains-append, discard, discard_absent, if◌then◌else◌, Bool-cases,
  Option-cases, inl, inr,
}
use sovereign_inference.Json.{
  Json, null, bool, int, float, string, array, object, Dict, as_dict, as_string, get,
}
use sovereign_inference.Json.Laws.{item-get}
use sovereign_inference.Result.{ok, Result-cases}
use sovereign_inference.Runtime.{Runtime, Decimal}
use sovereign_inference.Pic.SpentSet.{SpentSet, is_spent, spend, unspend, unspend_all}
use sovereign_inference.Pic.Payment.{
  Terms, counted, spend_key, distinct_ids, validate_voucher, add_denomination, validate_all,
  spend_all,
}

as_string-some : (v : Json) (s : String) → as_string v ≡ some s → v ≡ string s
as_string-some (string t) s h = cc
as_string-some null s h = cc
as_string-some (bool b) s h = cc
as_string-some (int z) s h = cc
as_string-some (float x) s h = cc
as_string-some (array xs) s h = cc
as_string-some (object d) s h = cc

-- The vouchers carry these ids, in this order.
abbrev pub HasIds : List Json → List String → Type 0
HasIds [] [] = Unit
HasIds [] (i ∷ ids) = ⊥
HasIds (v ∷ vs) [] = ⊥
HasIds (v ∷ vs) (i ∷ ids) = (spend_key v ≡ ok i) × HasIds vs ids

-- None of the ids is in the set, and no id comes twice.
abbrev pub Fresh : SpentSet → List String → Type 0
Fresh spent [] = Unit
Fresh spent (i ∷ ids) = (contains spent i ≡ false) × Fresh (i ∷ spent) ids

abbrev pub Unspent : SpentSet → List String → Type 0
Unspent spent [] = Unit
Unspent spent (i ∷ ids) = (contains spent i ≡ false) × Unspent spent ids

-- The set with the ids spent, in order.
abbrev pub spend_ids : SpentSet → List String → SpentSet
spend_ids spent [] = spent
spend_ids spent (i ∷ ids) = spend_ids (i ∷ spent) ids

pub contains-spend_ids :
    (spent : SpentSet) (ids : List String) (k : String)
    → contains (spend_ids spent ids) k ≡ (contains ids k || contains spent k)
unfolding contains
contains-spend_ids spent [] k = refl
contains-spend_ids spent (i ∷ ids) k = ground (arith, contains-spend_ids (i ∷ spent) ids k)

-- What one round of the first loop finds out.
distinct_ids-step :
    (seen : List String) (v : Json) (vs : List Json)
    → distinct_ids seen (v ∷ vs) ≡ ok true
    → (i : String) × (spend_key v ≡ ok i)
      × (contains seen i ≡ false)
      × (distinct_ids (i ∷ seen) vs ≡ ok true)
unfolding distinct_ids
distinct_ids-step seen v vs h = elim (Option-cases (as_dict v)) [
  | inl e ↦ absurd (ground arith)
  | inr (d, e) ↦ elim (Option-cases (as_string (get d "voucher_id"))) [
    | inl n ↦ absurd (ground arith)
    | inr (i, n) ↦ (
      i,
      ground (arith, item-get d "voucher_id" i, as_string-some (get d "voucher_id") i),
      ground arith,
      ground arith,
    )
  ]
]

-- The first loop accepts only batches of distinct ids.
pub distinct_ids-Fresh :
    (seen : List String) (vs : List Json)
    → distinct_ids seen vs ≡ ok true
    → (ids : List String) × HasIds vs ids × Fresh seen ids
distinct_ids-Fresh seen [] h = ([], tt, tt)
distinct_ids-Fresh seen (v ∷ vs) h =
    let (i, key, new, rest) = distinct_ids-step seen v vs h in
    let (ids, has, fresh) = distinct_ids-Fresh (i ∷ seen) vs rest in
    (i ∷ ids, (key, has), (new, fresh))

-- What one round of the second loop has found out of a voucher that it counts.
pub record Counts (R : Runtime) (t : Terms) (spent : SpentSet) (total : Decimal) (v : Json)
    (i : String) (sum : Decimal) : Type 0 where
  pub voucher : Dict
  pub is_voucher : as_dict v ≡ some voucher
  pub valid : validate_voucher R voucher t ≡ none
  pub unspent : contains spent i ≡ false
  pub adds : add_denomination R total voucher ≡ ok sum

pub validate_all-step :
    (R : Runtime) (t : Terms) (spent : SpentSet) (total : Decimal) (v : Json) (vs : List Json)
    (i : String) {sum : Decimal}
    → spend_key v ≡ ok i
    → validate_all R t spent total (v ∷ vs) ≡ ok (counted sum)
    → (sum' : Decimal) × Counts R t spent total v i sum'
      × (validate_all R t spent sum' vs ≡ ok (counted sum))
unfolding validate_all is_spent
validate_all-step R t spent total v vs i key h = elim (Option-cases (as_dict v)) [
  | inl e ↦ absurd (ground arith)
  | inr (d, e) ↦ elim (Result-cases (add_denomination R total d)) [
    | inl (sum', a) ↦ (
      sum',
      record {
        voucher = d;
        is_voucher = e;
        valid = ground arith;
        unspent = ground arith;
        adds = a;
      },
      ground arith,
    )
    | inr (x, a) ↦ absurd (ground arith)
  ]
]

-- A batch that the second loop counts has no spent id.
pub validate_all-Unspent :
    (R : Runtime) (t : Terms) (spent : SpentSet) (total : Decimal) (vs : List Json)
    (ids : List String) {sum : Decimal}
    → HasIds vs ids
    → validate_all R t spent total vs ≡ ok (counted sum)
    → Unspent spent ids
validate_all-Unspent R t spent total [] [] h e = tt
validate_all-Unspent R t spent total [] (i ∷ ids) h e = absurd h
validate_all-Unspent R t spent total (v ∷ vs) [] h e = absurd h
validate_all-Unspent R t spent total (v ∷ vs) (i ∷ ids) h e =
    let (sum', counts, rest) = validate_all-step R t spent total v vs i h.0 e in
    (counts.unspent, validate_all-Unspent R t spent sum' vs ids h.1 rest)

pub Fresh-append :
    (seen spent : List String) (ids : List String)
    → Fresh seen ids
    → Unspent spent ids
    → Fresh (seen ++ spent) ids
Fresh-append seen spent [] f u = tt
Fresh-append seen spent (i ∷ ids) f u =
    (rw contains-append (ground arith), Fresh-append (i ∷ seen) spent ids f.1 u.1)

-- The third loop spends every id of a fresh batch.
pub spend_all-Fresh :
    (spent : SpentSet) (done : List String) (vs : List Json) (ids : List String)
    → HasIds vs ids
    → Fresh spent ids
    → spend_all spent done vs ≡ (ok true, spend_ids spent ids)
unfolding spend_all spend
spend_all-Fresh spent done [] [] h f = refl
spend_all-Fresh spent done [] (i ∷ ids) h f = absurd h
spend_all-Fresh spent done (v ∷ vs) [] h f = absurd h
spend_all-Fresh spent done (v ∷ vs) (i ∷ ids) h f =
    rw (h.0, spend_all, f.0) (spend_all-Fresh (i ∷ spent) (done ++ i ∷ []) vs ids h.1 f.1)

-- A spent id at the head of a batch: the second loop counts no sum.
pub validate_all_spent :
    (R : Runtime) (t : Terms) (spent : SpentSet) (total : Decimal) (v : Json) (vs : List Json)
    (i : String) {sum : Decimal}
    → spend_key v ≡ ok i
    → contains spent i ≡ true
    → validate_all R t spent total (v ∷ vs) ≢ ok (counted sum)
validate_all_spent R t spent total v vs i key old h =
    let (sum', counts, rest) = validate_all-step R t spent total v vs i key h in
    cc (counts.unspent, old)

contains_head : (i : String) (spent : SpentSet) → contains (i ∷ spent) i ≡ true
unfolding contains
contains_head i spent = ground (arith, eq_iff i i)

contains_tail :
    (i : String) (spent : SpentSet) (k : String)
    → contains spent k ≡ true
    → contains (i ∷ spent) k ≡ true
unfolding contains
contains_tail i spent k h = ground arith

discard_head :
    (i : String) (spent : SpentSet) → contains spent i ≡ false → discard i (i ∷ spent) ≡ spent
unfolding discard
discard_head i spent h = ground (arith, eq_iff i i, discard_absent i spent h)

-- Giving back a key that is not among the others commutes with spending them.
discard-spend_ids :
    (k : String) (spent : SpentSet) (ids : List String)
    → contains ids k ≡ false
    → discard k (spend_ids spent ids) ≡ spend_ids (discard k spent) ids
unfolding contains discard
discard-spend_ids k spent [] h = refl
discard-spend_ids k spent (i ∷ ids) h =
    discard-spend_ids k (i ∷ spent) ids (ground arith)
    ∙ ap (λ s. spend_ids s ids) (ground (arith, eq_iff i k))

-- A batch is fresh for every set that holds no more.
pub Fresh-mono :
    (a b : SpentSet) (ids : List String)
    → ((k : String) → contains b k ≡ true → contains a k ≡ true)
    → Fresh a ids
    → Fresh b ids
unfolding contains
Fresh-mono a b [] sub f = tt
Fresh-mono a b (i ∷ ids) sub f =
    (ground (arith, sub i), Fresh-mono (i ∷ a) (i ∷ b) ids (λ k h. ground (arith, sub k)) f.1)

-- What a set holds is not in a batch that is fresh for it.
pub contains-Fresh :
    (spent : SpentSet) (ids : List String) (k : String)
    → Fresh spent ids
    → contains spent k ≡ true
    → contains ids k ≡ false
unfolding contains
contains-Fresh spent [] k f h = refl
contains-Fresh spent (i ∷ ids) k f h =
    ground (arith, eq_iff i k, contains-Fresh (i ∷ spent) ids k f.1)

-- Giving back a fresh batch that was spent restores the table.
pub unspend_all-spend_ids :
    (spent : SpentSet) (done : List String)
    → Fresh spent done
    → unspend_all (spend_ids spent done) done ≡ spent
unfolding unspend_all unspend
unspend_all-spend_ids spent [] f = refl
unspend_all-spend_ids spent (i ∷ done) f =
    rw (discard-spend_ids i (i ∷ spent) done absent, discard_head i spent f.0)
      (unspend_all-spend_ids spent done fresh)
  where
    absent : contains done i ≡ false
    absent = contains-Fresh (i ∷ spent) done i f.1 (contains_head i spent)

    fresh : Fresh spent done
    fresh = Fresh-mono (i ∷ spent) spent done (λ k h. contains_tail i spent k h) f.1

-- One round of the third loop.
pub spend_all-step :
    (spent : SpentSet) (done : List String) (v : Json) (vs : List Json) (i : String)
    → spend_key v ≡ ok i
    → spend_all spent done (v ∷ vs) ≡ (
        if contains spent i
        then (ok false, unspend_all spent done)
        else spend_all (i ∷ spent) (done ++ i ∷ []) vs)
unfolding spend_all spend
spend_all-step spent done v vs i key = ground arith

pub spend_ids-snoc :
    (spent : SpentSet) (done : List String) (i : String)
    → spend_ids spent (done ++ i ∷ []) ≡ i ∷ spend_ids spent done
spend_ids-snoc spent [] i = refl
spend_ids-snoc spent (j ∷ done) i = spend_ids-snoc (j ∷ spent) done i

pub Fresh-snoc :
    (spent : SpentSet) (done : List String) (i : String)
    → Fresh spent done
    → contains (spend_ids spent done) i ≡ false
    → Fresh spent (done ++ i ∷ [])
Fresh-snoc spent [] i f h = (h, tt)
Fresh-snoc spent (j ∷ done) i f h = (f.0, Fresh-snoc (j ∷ spent) done i f.1 h)

-- A batch that loses a race gives back what it had spent: the table is as it was.
pub spend_all_lost :
    (spent : SpentSet) (done : List String) (vs : List Json) (ids : List String)
    → HasIds vs ids
    → Fresh spent done
    → (spend_all (spend_ids spent done) done vs).0 ≡ ok false
    → (spend_all (spend_ids spent done) done vs).1 ≡ spent
spend_all_lost spent done [] [] h f e = unfold spend_all in cc e
spend_all_lost spent done [] (i ∷ ids) h f e = absurd h
spend_all_lost spent done (v ∷ vs) [] h f e = absurd h
spend_all_lost spent done (v ∷ vs) (i ∷ ids) h f e =
    elim (Bool-cases (contains (spend_ids spent done) i)) [
      | inl old ↦ rw (step, old) (unspend_all-spend_ids spent done f)
      | inr new ↦
          let next =
            spend_all_lost spent (done ++ i ∷ []) vs ids h.1 (Fresh-snoc spent done i f new) in
          rw (step, new, ← spend_ids-snoc spent done i)
            (next (rw (step, new, ← spend_ids-snoc spent done i) at e))
    ]
  where
    step : spend_all (spend_ids spent done) done (v ∷ vs) ≡ (
        if contains (spend_ids spent done) i
        then (ok false, unspend_all (spend_ids spent done) done)
        else spend_all (i ∷ spend_ids spent done) (done ++ i ∷ []) vs)
    step = spend_all-step (spend_ids spent done) done v vs i h.0
