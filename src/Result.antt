-- ===== src/Result.antt =====
-- Python's exceptions as values: what a call returns, or the exception that leaves it.
use sovereign_inference.Base.{◌≡◌, refl, ◌⊎◌, inl, inr}

-- The exceptions that the modelled code raises, lets through or catches.
pub data Exception : Type 0 where
  key_error : Exception
  attribute_error : Exception
  type_error : Exception
  value_error : Exception
  invalid_operation : Exception
  insufficient_funds : Exception
  transport_error : Exception
  discovery_error : Exception
  untrusted_provider : Exception
  overflow_error : Exception
  zero_division_error : Exception
  index_error : Exception
  no_provider : Exception
  key_encoding_error : Exception
  runtime_error : Exception

-- What a call gives back to its caller
pub data Result {ℓ} (Value : Type ℓ) : Type ℓ where
  raised : Exception → Result Value
  ok : Value → Result Value

-- An exception skips what would have followed.
infixl 5 ◌>>=◌
abbrev pub ◌>>=◌ {ℓ κ} :
    {Value : Type ℓ} {Next : Type κ} → Result Value → (Value → Result Next) → Result Next
raised e >>= _ = raised e
ok v >>= next = next v

pub Result-cases {ℓ} :
    {Value : Type ℓ} (outcome : Result Value)
    → ((v : Value) × (outcome ≡ ok v)) ⊎ ((e : Exception) × (outcome ≡ raised e))
Result-cases (raised e) = inr (e, refl)
Result-cases (ok v) = inl (v, refl)
