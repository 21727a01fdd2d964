-- ===== src/Base/Sort.antt =====
-- Python's `sorted`: a stable sort, given by the test `<` on the keys of its elements.
use mathlib.Core.Path.{◌≡◌, refl, ◌∙◌}
use mathlib.Core.Bool.{Bool, true, false, not, ◌&&◌}
use mathlib.Core.Logic.{inl, inr}
use mathlib.Core.List.{List, [], ◌∷◌, Perm}
use mathlib.Core.List.Perm
use native.Mathlib.Omega.{arith}
use sovereign_inference.Base.Tests.{if◌then◌else◌, Bool-cases}
use sovereign_inference.Base.Lists.{All}

module _ {ℓ} {A : Type ℓ} where
  -- `[x for x in xs if p(x)]`
  unfoldable pub keep : (A → Bool) → List A → List A
  keep p [] = []
  keep p (x ∷ xs) = let rest = keep p xs in if p x then x ∷ rest else rest

  pub keep-keep : (p q : A → Bool) (xs : List A) → keep p (keep q xs) ≡ keep (λ x. q x && p x) xs
  unfolding keep
  keep-keep p q [] = refl
  keep-keep p q (x ∷ xs) = ground (arith, keep-keep p q xs)

  pub keep-true : (q : A → Bool) (xs : List A) → keep q xs ≡ keep (λ x. q x && true) xs
  unfolding keep
  keep-true q [] = refl
  keep-true q (x ∷ xs) = ground (arith, keep-true q xs)

module _ {ℓ κ} {A : Type ℓ} (P : A → Type κ) where
  pub All-keep : (p : A → Bool) (xs : List A) → All P xs → All P (keep p xs)
  unfolding keep
  All-keep p [] h = tt
  All-keep p (x ∷ xs) h = elim (Bool-cases (p x)) [
    | inl e ↦ rw (keep, e) (h.0, All-keep p xs h.1)
    | inr e ↦ rw (keep, e) (All-keep p xs h.1)
  ]

module _ {ℓ} {A : Type ℓ} (less : A → A → Bool) where
  unfoldable pub insert_by : A → List A → List A
  insert_by x [] = x ∷ []
  insert_by x (y ∷ ys) = let rest = insert_by x ys in if less y x then y ∷ rest else x ∷ y ∷ ys

  -- `sorted(xs, key=...)`
  unfoldable pub sort_by : List A → List A
  unfolding insert_by
  sort_by [] = []
  sort_by (x ∷ xs) = insert_by x (sort_by xs)

  -- No element comes after one that it is less than.
  abbrev pub Ordered : List A → Type ℓ
  Ordered [] = Unit
  Ordered (x ∷ xs) = All (λ y. less y x ≡ false) xs × Ordered xs

  -- Elements that the order does not tell apart
  abbrev pub tied : A → A → Bool
  tied x y = not (less x y) && not (less y x)

  -- An order on the elements of some kind: `<` on floats is one on those that are not NaN.
  pub record WeakOrder {κ} (P : A → Type κ) : Type (ℓ ⊔ κ) where
    pub asym : (x y : A) → less x y ≡ true → less y x ≡ false
    pub neg_trans :
        (x y z : A) → P x → P y → P z → less x y ≡ false → less y z ≡ false → less x z ≡ false

  insert_later :
      (x y : A) (ys : List A) → less y x ≡ true → insert_by x (y ∷ ys) ≡ y ∷ insert_by x ys
  unfolding insert_by
  insert_later x y ys h = rw (insert_by, h) refl

  insert_here : (x y : A) (ys : List A) → less y x ≡ false → insert_by x (y ∷ ys) ≡ x ∷ y ∷ ys
  unfolding insert_by
  insert_here x y ys h = rw (insert_by, h) refl

  insert_by-perm : (x : A) (ys : List A) → Perm (insert_by x ys) (x ∷ ys)
  unfolding insert_by
  insert_by-perm x [] = Perm.rfl
  insert_by-perm x (y ∷ ys) = elim (Bool-cases (less y x)) [
    | inl h ↦
        rw (insert_later x y ys h)
          (Perm.trans (Perm.cons y (insert_by-perm x ys)) (Perm.swap x y ys))
    | inr h ↦ rw (insert_here x y ys h) Perm.rfl
  ]

  -- Sorting keeps every element as often as it is there.
  pub sort_by-perm : (xs : List A) → Perm (sort_by xs) xs
  unfolding sort_by
  sort_by-perm [] = Perm.rfl
  sort_by-perm (x ∷ xs) = Perm.trans (insert_by-perm x (sort_by xs)) (Perm.cons x (sort_by-perm xs))

  insert_by-All {κ} :
      (P : A → Type κ) (x : A) (ys : List A) → P x → All P ys → All P (insert_by x ys)
  unfolding insert_by
  insert_by-All P x [] p ps = (p, tt)
  insert_by-All P x (y ∷ ys) p ps = elim (Bool-cases (less y x)) [
    | inl h ↦ rw (insert_later x y ys h) (ps.0, insert_by-All P x ys p ps.1)
    | inr h ↦ rw (insert_here x y ys h) (p, ps)
  ]

  pub sort_by-All {κ} : (P : A → Type κ) (xs : List A) → All P xs → All P (sort_by xs)
  unfolding sort_by
  sort_by-All P [] ps = tt
  sort_by-All P (x ∷ xs) ps = insert_by-All P x (sort_by xs) ps.0 (sort_by-All P xs ps.1)

  module _ {κ} (P : A → Type κ) (o : WeakOrder P) where
    All_below :
        (x y : A) (ys : List A)
        → P x
        → P y
        → All P ys
        → less y x ≡ false
        → All (λ z. less z y ≡ false) ys
        → All (λ z. less z x ≡ false) ys
    All_below x y [] p q ps h hs = tt
    All_below x y (z ∷ zs) p q ps h hs =
        (o.neg_trans z y x ps.0 q p hs.0 h, All_below x y zs p q ps.1 h hs.1)

    insert_by-Ordered :
        (x : A) (ys : List A) → P x → All P ys → Ordered ys → Ordered (insert_by x ys)
    unfolding insert_by
    insert_by-Ordered x [] p ps h = (tt, tt)
    insert_by-Ordered x (y ∷ ys) p ps h = elim (Bool-cases (less y x)) [
      | inl e ↦ rw (insert_later x y ys e) (
        insert_by-All (λ z. less z y ≡ false) x ys (o.asym y x e) h.0,
        insert_by-Ordered x ys p ps.1 h.1,
      )
      | inr e ↦ rw (insert_here x y ys e) ((e, All_below x y ys p ps.0 ps.1 e h.0), h)
    ]

    -- The result of sorting is in order.
    pub sort_by-Ordered : (xs : List A) → All P xs → Ordered (sort_by xs)
    unfolding sort_by
    sort_by-Ordered [] ps = tt
    sort_by-Ordered (x ∷ xs) ps =
        insert_by-Ordered x (sort_by xs) ps.0 (sort_by-All P xs ps.1) (sort_by-Ordered xs ps.1)

    insert_by-keep :
        (a x : A) (ys : List A)
        → P a
        → P x
        → All P ys
        → keep (tied a) (insert_by x ys) ≡ keep (tied a) (x ∷ ys)
    unfolding insert_by keep
    insert_by-keep a x [] q p ps = refl
    insert_by-keep a x (y ∷ ys) q p ps = elim (Bool-cases (less y x)) [
      | inr e ↦ rw (insert_here x y ys e) refl
      | inl e ↦
          rw (insert_later x y ys e)
            (ground (arith, insert_by-keep a x ys q p ps.1, o.neg_trans y a x ps.0 q p))
    ]

    -- Sorting is stable: elements that the order does not tell apart keep their order.
    pub sort_by-keep :
        (a : A) (xs : List A) → P a → All P xs → keep (tied a) (sort_by xs) ≡ keep (tied a) xs
    unfolding sort_by keep
    sort_by-keep a [] q ps = refl
    sort_by-keep a (x ∷ xs) q ps =
        insert_by-keep a x (sort_by xs) q ps.0 (sort_by-All P xs ps.1)
        ∙ ground (arith, sort_by-keep a xs q ps.1)
