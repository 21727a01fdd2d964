-- ===== src/Pic/Blind/Hash.antt =====
-- `_mgf1` gives as many bytes as are asked for, and `_denomination_bytes` is unambiguous.
use mathlib.Core.List.{append_assoc, append-nil}
use sovereign_inference.Base.{
  ℕ, zero, suc, ◌+◌, ◌*◌, ◌^◌, ◌≤◌, ◌<◌, String, true, false, [], ◌∷◌, ◌++◌, take, length,
  length-append, leb, ltb, ◌≡◌, refl, ap, ◌∙◌, sym, arith, inl, inr, Bool-cases,
}
use sovereign_inference.Result.{Result, ok, Result-cases}
use sovereign_inference.Runtime.{Runtime, Bytes}
use sovereign_inference.Pic.Blind.Integers.{
  to_bytes, low_bytes, from_bytes, from_bytes-low_bytes, length-low_bytes, to_bytes-low_bytes,
}
use sovereign_inference.Pic.Blind.{Numerics, mgf1_loop, mgf1, denomination_bytes}

take-append : (n : ℕ) (xs ys : Bytes) → n ≤ length xs → take n (xs ++ ys) ≡ take n xs
take-append zero xs ys h = refl
take-append (suc n) [] ys h = absurd (omega arith)
take-append (suc n) (x ∷ xs) ys h = ap (λ l. x ∷ l) (take-append n xs ys (omega arith))

pub length-take : (n : ℕ) (xs : Bytes) → n ≤ length xs → length (take n xs) ≡ n
length-take zero xs h = refl
length-take (suc n) [] h = absurd (omega arith)
length-take (suc n) (x ∷ xs) h = omega (arith, length-take n xs (omega arith))

-- The hash function gives 32 bytes.
abbrev pub Sha256Size : Numerics → Type 0
Sha256Size N = (b : Bytes) → length (N.sha256 b) ≡ 32

-- Some blocks of MGF1, as its definition in PKCS 1 has them: the hash of the seed and a counter
unfoldable pub blocks : Numerics → Bytes → ℕ → ℕ → Bytes
blocks N seed counter zero = []
blocks N seed counter (suc k) =
    N.sha256 (seed ++ low_bytes 4 counter) ++ blocks N seed (counter + 1) k

module _ (N : Numerics) (sized : Sha256Size N) where
  length-blocks : (seed : Bytes) (counter k : ℕ) → length (blocks N seed counter k) ≡ 32 * k
  unfolding blocks
  length-blocks seed counter zero = refl
  length-blocks seed counter (suc k) = omega (
    arith,
    length-append (N.sha256 (seed ++ low_bytes 4 counter)) (blocks N seed (counter + 1) k),
    sized (seed ++ low_bytes 4 counter),
    length-blocks seed (counter + 1) k,
  )

  -- What the loop leaves: bytes that start as the blocks do
  abbrev Extends : ℕ → Bytes → Result Bytes → Type 0
  Extends size expected result =
      (out : Bytes) × (result ≡ ok out) × (take size out ≡ take size expected)

  mgf1_loop_next :
      (fuel : ℕ) (seed : Bytes) (size counter : ℕ) (out : Bytes)
      → leb size (length out) ≡ false
      → counter < 256 ^ 4
      → mgf1_loop N (suc fuel) seed size counter out
        ≡ mgf1_loop N fuel seed size (counter + 1) (out ++ N.sha256 (seed ++ low_bytes 4 counter))
  unfolding mgf1_loop
  mgf1_loop_next fuel seed size counter out more h =
      rw (mgf1_loop, more, to_bytes-low_bytes 4 counter h) refl

  mgf1_loop-Extends :
      (fuel : ℕ) (seed : Bytes) (size counter k : ℕ) (out : Bytes)
      → size < length out + fuel
      → size ≤ length out + 32 * k
      → counter + k ≤ 256 ^ 4
      → Extends size (out ++ blocks N seed counter k) (mgf1_loop N fuel seed size counter out)
  unfolding mgf1_loop blocks
  mgf1_loop-Extends zero seed size counter k out f h c =
      (out, refl, sym (take-append size out (blocks N seed counter k) (omega arith)))
  mgf1_loop-Extends (suc fuel) seed size counter zero out f h c =
      (out, rw (mgf1_loop, enough) refl, sym (take-append size out [] (omega arith)))
    where
      enough : leb size (length out) ≡ true
      enough = ground arith
  mgf1_loop-Extends (suc fuel) seed size counter (suc k) out f h c =
      elim (Bool-cases (leb size (length out))) [
        | inl enough ↦ (
          out,
          rw (mgf1_loop, enough) refl,
          sym (take-append size out (blocks N seed counter (suc k)) (ground arith)),
        )
        | inr more ↦
            let block = N.sha256 (seed ++ low_bytes 4 counter) in
            let longer : length (out ++ block) ≡ length out + 32 =
              omega (arith, length-append out block, sized (seed ++ low_bytes 4 counter)) in
            let (rest, e, t) =
              mgf1_loop-Extends fuel seed size (counter + 1) k (out ++ block) (omega arith)
                (omega arith) (omega arith) in
            (
              rest,
              mgf1_loop_next fuel seed size counter out more (omega arith) ∙ e,
              t ∙ ap (take size) (append_assoc out block (blocks N seed (counter + 1) k)),
            )
      ]

  -- MGF1 terminates with exactly as many bytes as are asked for: the first ones of the concatenation
  -- of the hashes of the seed with the counters from 0 on. Holds for a hash function with 32 bytes and
  -- as long as the counter fits four bytes.
  pub mgf1-blocks :
      (seed : Bytes) (size k : ℕ)
      → size ≤ 32 * k
      → k ≤ 256 ^ 4
      → (mgf1 N seed size ≡ ok (take size (blocks N seed 0 k)))
        × (length (take size (blocks N seed 0 k)) ≡ size)
  unfolding mgf1
  mgf1-blocks seed size k h c =
      let (out, e, t) =
        mgf1_loop-Extends (suc size) seed size 0 k [] (omega arith) (omega arith) (omega arith) in
      (
        rw (mgf1, e) (ap ok t),
        length-take size (blocks N seed 0 k) (omega (arith, length-blocks seed 0 k)),
      )

same_prefix :
    (xs ys us vs : Bytes) → length xs ≡ length ys → xs ++ us ≡ ys ++ vs → (xs ≡ ys) × (us ≡ vs)
same_prefix [] [] us vs h e = (refl, e)
same_prefix [] (y ∷ ys) us vs h e = absurd (omega arith)
same_prefix (x ∷ xs) [] us vs h e = absurd (omega arith)
same_prefix (x ∷ xs) (y ∷ ys) us vs h e =
    let (p, q) = same_prefix xs ys us vs (omega arith) cc in (cc, q)

to_bytes-some :
    (size value : ℕ) (b : Bytes)
    → to_bytes size value ≡ ok b
    → (value < 256 ^ size) × (b ≡ low_bytes size value)
unfolding to_bytes
to_bytes-some size value b h = elim (Bool-cases (ltb value (256 ^ size))) [
  | inr large ↦ absurd (ground arith)
  | inl fits ↦ (ground arith, ground arith)
]

-- A text after its length, as `_denomination_bytes` writes it, followed by other bytes
same_text :
    (a b us vs x y : Bytes)
    → to_bytes 4 (length a) ≡ ok x
    → to_bytes 4 (length b) ≡ ok y
    → x ++ (a ++ us) ≡ y ++ (b ++ vs)
    → (a ≡ b) × (us ≡ vs)
same_text a b us vs x y h k e =
    let (small, p) = to_bytes-some 4 (length a) x h in
    let (fits, q) = to_bytes-some 4 (length b) y k in
    let (heads, tails) =
      same_prefix x y (a ++ us) (b ++ vs)
        (ap length p
          ∙ length-low_bytes 4 (length a)
          ∙ sym (ap length q ∙ length-low_bytes 4 (length b)))
        e in
    same_prefix a b us vs
      (sym (from_bytes-low_bytes 4 (length a) small)
        ∙ ap from_bytes (sym p ∙ heads ∙ q)
        ∙ from_bytes-low_bytes 4 (length b) fits)
      tails

-- The parts of a denomination as it is encoded
record Parts (R : Runtime) (amount unit : String) (b : Bytes) : Type 0 where
  amount_size : Bytes
  unit_size : Bytes
  amount_fits : to_bytes 4 (length (R.encode_utf8 amount)) ≡ ok amount_size
  unit_fits : to_bytes 4 (length (R.encode_utf8 unit)) ≡ ok unit_size
  whole : amount_size ++ (R.encode_utf8 amount ++ (unit_size ++ R.encode_utf8 unit)) ≡ b

denomination_bytes-Parts :
    (R : Runtime) (amount unit : String) (b : Bytes)
    → denomination_bytes R amount unit ≡ ok b
    → Parts R amount unit b
unfolding denomination_bytes
denomination_bytes-Parts R amount unit b h =
    elim (Result-cases (to_bytes 4 (length (R.encode_utf8 amount)))) [
      | inr (x, e) ↦ absurd (ground arith)
      | inl (a, e) ↦ elim (Result-cases (to_bytes 4 (length (R.encode_utf8 unit)))) [
        | inr (x, f) ↦ absurd (ground arith)
        | inl (u, f) ↦ record {
          amount_size = a;
          unit_size = u;
          amount_fits = e;
          unit_fits = f;
          whole =
              sym (append_assoc a (R.encode_utf8 amount) (u ++ R.encode_utf8 unit))
              ∙ sym (append_assoc (a ++ R.encode_utf8 amount) u (R.encode_utf8 unit))
              ∙ ground arith;
        }
      ]
    ]

-- The encoding of a denomination is unambiguous: the bytes of the amount and of the unit can be told
-- from it.
pub denomination_bytes-inj :
    (R : Runtime) (amount unit amount' unit' : String) (b : Bytes)
    → denomination_bytes R amount unit ≡ ok b
    → denomination_bytes R amount' unit' ≡ ok b
    → (R.encode_utf8 amount ≡ R.encode_utf8 amount') × (R.encode_utf8 unit ≡ R.encode_utf8 unit')
denomination_bytes-inj R amount unit amount' unit' b h k =
    let p = denomination_bytes-Parts R amount unit b h in
    let q = denomination_bytes-Parts R amount' unit' b k in
    let (amounts, rest) =
      same_text (R.encode_utf8 amount) (R.encode_utf8 amount') (p.unit_size ++ R.encode_utf8 unit)
        (q.unit_size ++ R.encode_utf8 unit') p.amount_size q.amount_size p.amount_fits q.amount_fits
        (p.whole ∙ sym q.whole) in
    let (units, nothing) =
      same_text (R.encode_utf8 unit) (R.encode_utf8 unit') [] [] p.unit_size q.unit_size p.unit_fits
        q.unit_fits
        (ap (λ x. p.unit_size ++ x) (append-nil (R.encode_utf8 unit))
          ∙ rest
          ∙ sym (ap (λ x. q.unit_size ++ x) (append-nil (R.encode_utf8 unit')))) in
    (amounts, units)
