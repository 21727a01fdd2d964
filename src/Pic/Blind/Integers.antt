-- ===== src/Pic/Blind/Integers.antt =====
-- Python's integers as big-endian bytes: `int.from_bytes`, `int.to_bytes` and `int.bit_length`.
use native.Mathlib.Nat.{pow-suc, pow-le-pow_right}
use sovereign_inference.Base.{
  ℕ, zero, suc, ◌+◌, ◌*◌, ◌/◌, ◌%◌, ◌^◌, ◌≤◌, ◌<◌, true, [], ◌∷◌, ◌++◌, length, length-append, ltb,
  eqb, if◌then◌else◌, ◌≡◌, refl, ap, arith, inl, inr, Bool-cases,
}
use sovereign_inference.Result.{Result, ok, raised, overflow_error}
use sovereign_inference.Runtime.{Bytes}

-- `int.from_bytes(b, "big")`
unfoldable pub from_bytes_onto : ℕ → Bytes → ℕ
from_bytes_onto high [] = high
from_bytes_onto high (b ∷ bs) = from_bytes_onto (high * 256 + b) bs

abbrev pub from_bytes : Bytes → ℕ
from_bytes bs = from_bytes_onto 0 bs

-- The lowest bytes of a number, the highest of them first
unfoldable pub low_bytes : ℕ → ℕ → Bytes
low_bytes zero value = []
low_bytes (suc size) value = low_bytes size (value / 256) ++ value % 256 ∷ []

-- `value.to_bytes(size, "big")`
unfoldable pub to_bytes : ℕ → ℕ → Result Bytes
unfolding low_bytes
to_bytes size value =
    if ltb value (256 ^ size) then ok (low_bytes size value) else raised overflow_error

-- `value.bit_length()`; a number has no more bits than its value.
unfoldable pub bit_length_from : ℕ → ℕ → ℕ
bit_length_from zero value = 0
bit_length_from (suc fuel) value =
    let rest = bit_length_from fuel (value / 2) in if eqb value 0 then 0 else suc rest

unfoldable pub bit_length : ℕ → ℕ
unfolding bit_length_from
bit_length value = bit_length_from value value

from_bytes_onto-append :
    (high : ℕ) (bs : Bytes) (b : ℕ)
    → from_bytes_onto high (bs ++ b ∷ []) ≡ from_bytes_onto high bs * 256 + b
unfolding from_bytes_onto
from_bytes_onto-append high [] b = refl
from_bytes_onto-append high (c ∷ bs) b = from_bytes_onto-append (high * 256 + c) bs b

pub from_bytes-low_bytes :
    (size value : ℕ) → value < 256 ^ size → from_bytes (low_bytes size value) ≡ value
unfolding low_bytes from_bytes_onto
from_bytes-low_bytes zero value h = omega arith
from_bytes-low_bytes (suc size) value h = omega (
  arith,
  from_bytes_onto-append 0 (low_bytes size (value / 256)) (value % 256),
  from_bytes-low_bytes size (value / 256) (omega (arith, pow-suc 256 size)),
)

pub length-low_bytes : (size value : ℕ) → length (low_bytes size value) ≡ size
unfolding low_bytes
length-low_bytes zero value = refl
length-low_bytes (suc size) value = omega (
  arith,
  length-append (low_bytes size (value / 256)) (value % 256 ∷ []),
  length-low_bytes size (value / 256),
)

bit_length_from-suc :
    (fuel n : ℕ) → bit_length_from (suc fuel) (suc n) ≡ suc (bit_length_from fuel (suc n / 2))
unfolding bit_length_from
bit_length_from-suc fuel n = ground arith

bit_length_from-bound : (fuel value : ℕ) → value ≤ fuel → value < 2 ^ bit_length_from fuel value
unfolding bit_length_from
bit_length_from-bound zero value h = omega arith
bit_length_from-bound (suc fuel) zero h = omega arith
bit_length_from-bound (suc fuel) (suc n) h = omega (
  arith,
  ap (λ k. 2 ^ k) (bit_length_from-suc fuel n),
  pow-suc 2 (bit_length_from fuel (suc n / 2)),
  bit_length_from-bound fuel (suc n / 2) (omega arith),
)

-- A number is less than two to the power of its number of bits.
pub bit_length-bound : (value : ℕ) → value < 2 ^ bit_length value
unfolding bit_length
bit_length-bound value = bit_length_from-bound value value (omega arith)

four_bits : (n : ℕ) → 2 ^ suc (suc (suc (suc n))) ≡ 16 * 2 ^ n
four_bits n =
    omega (
      arith,
      pow-suc 2 n,
      pow-suc 2 (suc n),
      pow-suc 2 (suc (suc n)),
      pow-suc 2 (suc (suc (suc n))),
    )

pow-256 : (k : ℕ) → 256 ^ k ≡ 2 ^ (8 * k)
pow-256 zero = refl
pow-256 (suc k) = omega (
  arith,
  pow-256 k,
  pow-suc 256 k,
  four_bits (8 * k),
  four_bits (suc (suc (suc (suc (8 * k))))),
  ap (λ n. 2 ^ n) (eight k),
)
  where
    eight : (k : ℕ) → 8 * suc k ≡ suc (suc (suc (suc (suc (suc (suc (suc (8 * k))))))))
    eight k = omega arith

-- A number that fits is written as its low bytes.
pub to_bytes-low_bytes :
    (size value : ℕ) → value < 256 ^ size → to_bytes size value ≡ ok (low_bytes size value)
unfolding to_bytes
to_bytes-low_bytes size value h = ground arith

-- `max(1, (value.bit_length() + 7) // 8)`
abbrev pub byte_count : ℕ → ℕ
byte_count value = let n = (bit_length value + 7) / 8 in if eqb n 0 then 1 else n

pub byte_count-bound : (value : ℕ) → value < 256 ^ byte_count value
byte_count-bound value = elim (Bool-cases (eqb ((bit_length value + 7) / 8) 0)) [
  | inl none_there ↦
      rw none_there (omega (arith, bit_length-bound value, no_bits (bits none_there)))
  | inr some_there ↦ rw some_there (enough ((bit_length value + 7) / 8) (omega arith))
]
  where
    bits : eqb ((bit_length value + 7) / 8) 0 ≡ true → bit_length value ≡ 0
    bits h = ground arith

    no_bits : bit_length value ≡ 0 → 2 ^ bit_length value ≡ 1
    no_bits h = rw h refl

    enough : (n : ℕ) → bit_length value ≤ 8 * n → value < 256 ^ n
    enough n h = omega (
      arith,
      pow-256 n,
      bit_length-bound value,
      pow-le-pow_right {n = 2} (omega arith) {i = bit_length value} {j = 8 * n} h,
    )
