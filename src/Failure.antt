-- ===== src/Failure.antt =====
-- What a call of the server raises, and results that may be such an exception.
use notifyr.Base.{ℕ, String, ◌≡◌, refl, ◌⊎◌, inl, inr}

pub data Failure : Type 0 where
  -- fastapi's HTTPException(status_code, detail).
  http : ℕ → String → Failure
  -- Python's KeyError, ZeroDivisionError, ValueError, TypeError, AttributeError and UnboundLocalError.
  key_error zero_division value_error type_error attribute_error unbound_local : Failure
  -- An exception class of the program, by its name.
  error : String → Failure

pub data Result {ℓ} (A : Type ℓ) : Type ℓ where
  ok : A → Result A
  raise : Failure → Result A

infixl 5 ◌>>=◌ ◌>>◌
abbrev pub ◌>>=◌ {ℓ κ} : {A : Type ℓ} {B : Type κ} → Result A → (A → Result B) → Result B
ok a >>= f = f a
raise e >>= f = raise e

abbrev pub ◌>>◌ {ℓ} : {B : Type ℓ} → Result (Unit {0}) → Result B → Result B
m >> k = m >>= λ _. k

pub Result-cases {ℓ} :
    {A : Type ℓ} (r : Result A) → ((a : A) × (r ≡ ok a)) ⊎ ((e : Failure) × (r ≡ raise e))
Result-cases (ok a) = inl (a, refl)
Result-cases (raise e) = inr (e, refl)
