-- ===== src/Runtime/Result.antt =====
-- src/runtime/include/hasten/runtime/error.hpp and result.hpp: error codes, errors, and results.
use hasten.Common.{ℕ, String, ◌≡◌, refl, ◌⊎◌, inl, inr}

pub data ErrorCode : Type 0 where
  ok transport_error timeout cancelled internal_error unimplemented : ErrorCode

unfoldable pub message_of : ErrorCode → String
message_of ErrorCode.ok = "ok"
message_of transport_error = "transport error"
message_of timeout = "timeout"
message_of cancelled = "cancelled"
message_of internal_error = "internal error"
message_of unimplemented = "unimplemented"

-- A `std::error_code` of the runtime's category, or an errno of the generic one.
pub data Code : Type 0 where
  hasten_code : ErrorCode → Code
  errno_code : ℕ → Code

pub record Error : Type 0 where
  pub code : Code
  pub message : String

abbrev pub make_error : ErrorCode → String → Error
make_error c m = record { code = hasten_code c; message = m }

-- What the language leaves undefined, and the end of the model's fuel.
pub data Fault : Type 0 where
  oversized_shift out_of_range dangling_span out_of_fuel : Fault

-- `std::expected<T, Error>`, or a run that gives no value at all.
pub data Result {ℓ} (A : Type ℓ) : Type ℓ where
  ok : A → Result A
  err : Error → Result A
  fault : Fault → Result A

infixl 5 ◌>>=◌ ◌>>◌
abbrev pub ◌>>=◌ {ℓ κ} : {A : Type ℓ} {B : Type κ} → Result A → (A → Result B) → Result B
ok a >>= f = f a
err e >>= f = err e
fault x >>= f = fault x

abbrev pub ◌>>◌ {ℓ} : {B : Type ℓ} → Result (Unit {0}) → Result B → Result B
m >> k = m >>= λ _. k

abbrev pub unexpected_result {ℓ} : {A : Type ℓ} → ErrorCode → String → Result A
unexpected_result c m = err (make_error c m)

-- The result is a value, or is an error; it is no fault.
abbrev pub IsDefined {ℓ} : {A : Type ℓ} → Result A → Type 0
IsDefined (ok a) = Unit {0}
IsDefined (err e) = Unit {0}
IsDefined (fault x) = ⊥

pub defined_cases {ℓ} :
    {A : Type ℓ} (r : Result A) → IsDefined r → ((a : A) × (r ≡ ok a)) ⊎ ((e : Error) × (r ≡ err e))
defined_cases (ok a) h = inl (a, refl)
defined_cases (err e) h = inr (e, refl)
defined_cases (fault x) h = absurd h

-- A value has the property, and a fault is one that the input can cause.
abbrev pub Ensures {ℓ} : {A : Type ℓ} → (A → Type 0) → Result A → Type 0
Ensures P (ok a) = P a
Ensures P (err e) = Unit {0}
Ensures P (fault oversized_shift) = ⊥
Ensures P (fault out_of_fuel) = ⊥
Ensures P (fault _) = Unit {0}

pub >>=-Ensures {ℓ κ} :
    {A : Type ℓ} {B : Type κ} (P : A → Type 0) (Q : B → Type 0) (r : Result A) (f : A → Result B)
    → Ensures P r
    → ((a : A) → P a → Ensures Q (f a))
    → Ensures Q (r >>= f)
>>=-Ensures P Q (ok a) f p q = q a p
>>=-Ensures P Q (err e) f p q = tt
>>=-Ensures P Q (fault oversized_shift) f p q = p
>>=-Ensures P Q (fault out_of_fuel) f p q = p
>>=-Ensures P Q (fault out_of_range) f p q = tt
>>=-Ensures P Q (fault dangling_span) f p q = tt

pub Ensures-mono {ℓ} :
    {A : Type ℓ} (P Q : A → Type 0) (r : Result A)
    → ((a : A) → P a → Q a)
    → Ensures P r
    → Ensures Q r
Ensures-mono P Q (ok a) f p = f a p
Ensures-mono P Q (err e) f p = tt
Ensures-mono P Q (fault oversized_shift) f p = p
Ensures-mono P Q (fault out_of_fuel) f p = p
Ensures-mono P Q (fault out_of_range) f p = tt
Ensures-mono P Q (fault dangling_span) f p = tt
