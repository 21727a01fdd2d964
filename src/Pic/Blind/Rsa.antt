-- ===== src/Pic/Blind/Rsa.antt =====
-- Arithmetic modulo n: blinding with a unit, raising to the private exponent and unblinding gives the
-- same as raising to the private exponent.
use native.Mathlib.Nat.{
  add-mul, add-mul-mod_self_left, div-add-mod, mod-mod, mul_assoc, mul_comm, mul-mul-mul_comm,
  pow-suc, pow-zero,
}
use sovereign_inference.Base.{ℕ, zero, suc, ◌+◌, ◌*◌, ◌/◌, ◌%◌, ◌^◌, ◌≡◌, refl, ap, ◌∙◌, sym, arith}

mod_mul : (n a b : ℕ) → a % n * b % n ≡ a * b % n
mod_mul n a b =
    sym (add-mul-mod_self_left (a % n * b) n (a / n * b))
    ∙ ap (λ x. x % n)
        (ap (λ x. a % n * b + x) (sym (mul_assoc n (a / n) b))
          ∙ sym (add-mul (a % n) (n * (a / n)) b)
          ∙ ap (λ x. x * b) (omega (arith, div-add-mod a n)))

-- Factors may be replaced by others with the same remainders.
pub mod_mul_cong : (n a b c d : ℕ) → a % n ≡ b % n → c % n ≡ d % n → a * c % n ≡ b * d % n
mod_mul_cong n a b c d h k =
    sym (mod_mul n a c)
    ∙ ap (λ x. x * c % n) h
    ∙ mod_mul n b c
    ∙ ap (λ x. x % n) (mul_comm b c)
    ∙ sym (mod_mul n c b)
    ∙ ap (λ x. x * b % n) k
    ∙ mod_mul n d b
    ∙ ap (λ x. x % n) (mul_comm d b)

pub mod_pow_cong : (n a b e : ℕ) → a % n ≡ b % n → a ^ e % n ≡ b ^ e % n
mod_pow_cong n a b zero h = ap (λ x. x % n) (pow-zero a ∙ sym (pow-zero b))
mod_pow_cong n a b (suc e) h =
    ap (λ x. x % n) (pow-suc a e)
    ∙ mod_mul_cong n (a ^ e) (b ^ e) a b (mod_pow_cong n a b e h) h
    ∙ ap (λ x. x % n) (sym (pow-suc b e))

mul-pow : (a b e : ℕ) → (a * b) ^ e ≡ a ^ e * b ^ e
mul-pow a b zero = rw (pow-zero (a * b), pow-zero a, pow-zero b) refl
mul-pow a b (suc e) =
    pow-suc (a * b) e
    ∙ ap (λ x. x * (a * b)) (mul-pow a b e)
    ∙ mul-mul-mul_comm (a ^ e) (b ^ e) a b
    ∙ ap (λ x. x * (b ^ e * b)) (sym (pow-suc a e))
    ∙ ap (λ x. a ^ suc e * x) (sym (pow-suc b e))

one-pow : (e : ℕ) → 1 ^ e ≡ 1
one-pow zero = refl
one-pow (suc e) = pow-suc 1 e ∙ ap (λ x. x * 1) (one-pow e)

-- If raising to d and then to e gives the message back, and s is the inverse of r, then the blinded
-- message, signed and unblinded, is a signature of the message.
pub unblinded_verifies :
    (n e d m r s : ℕ)
    → ((x : ℕ) → (x ^ d) ^ e % n ≡ x % n)
    → r * s % n ≡ 1 % n
    → (((m * (r ^ e % n) % n) ^ d % n) * s % n) ^ e % n ≡ m % n
unblinded_verifies n e d m r s rsa inverse =
    mod_pow_cong n (signed * s % n) (signed * s) e (mod-mod (signed * s) n)
    ∙ ap (λ x. x % n) (mul-pow signed s e)
    ∙ mod_mul_cong n (signed ^ e) (m * r ^ e) (s ^ e) (s ^ e) signed_back refl
    ∙ ap (λ x. x % n) (mul_assoc m (r ^ e) (s ^ e) ∙ ap (λ x. m * x) (sym (mul-pow r s e)))
    ∙ mod_mul_cong n m m ((r * s) ^ e) 1 refl
        (mod_pow_cong n (r * s) 1 e inverse ∙ ap (λ x. x % n) (one-pow e))
    ∙ ap (λ x. x % n) (omega arith)
  where
    signed : ℕ
    signed = (m * (r ^ e % n) % n) ^ d % n

    signed_back : ((m * (r ^ e % n) % n) ^ d % n) ^ e % n ≡ m * r ^ e % n
    signed_back =
        mod_pow_cong n _ ((m * (r ^ e % n) % n) ^ d) e (mod-mod _ n)
        ∙ rsa (m * (r ^ e % n) % n)
        ∙ mod-mod (m * (r ^ e % n)) n
        ∙ mod_mul_cong n m m (r ^ e % n) (r ^ e) refl (mod-mod (r ^ e) n)
