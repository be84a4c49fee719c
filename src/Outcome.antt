-- ===== src/Outcome.antt =====
-- How a call ends when it does not return: the C++ exceptions of the library, and the faults that
-- are undefined behaviour, a failed `assert`, or a spin that nobody can end.

use mathlib.Core.Option.{Option, none, some}
use mathlib.Core.Path.{◌≡◌, subst}

-- `std::domain_error`, `std::logic_error`, and `std::runtime_error` of `gthread_log_fatal`
-- (util/log_impl.h), `std::bad_function_call` and `std::system_error`.
pub data Exception : Type 0 where
  domain_error logic_error runtime_error bad_function_call system_error : Exception

pub data Fault : Type 0 where
  null_deref uninitialised assertion spins out_of_bounds : Fault

-- A call that changes nothing but what it returns.
pub data Result {ℓ} (A : Type ℓ) : Type ℓ where
  ok : A → Result A
  throw : Exception → Result A
  fault : Fault → Result A

infixl 5 ◌>>=◌
abbrev pub ◌>>=◌ {ℓ κ} : {A : Type ℓ} {B : Type κ} → Result A → (A → Result B) → Result B
ok a >>= f = f a
throw e >>= f = throw e
fault e >>= f = fault e

-- `P` of the result, if there is one
abbrev pub OnOk {ℓ κ} : {A : Type ℓ} → (A → Type κ) → Result A → Type κ
OnOk P (ok a) = P a
OnOk P (throw e) = Unit
OnOk P (fault f) = Unit

pub of_ok {ℓ κ} : {A : Type ℓ} (P : A → Type κ) (r : Result A) (a : A) → OnOk P r → r ≡ ok a → P a
of_ok P r a p e = subst (OnOk P) e p

abbrev pub OnSome {ℓ κ} : {A : Type ℓ} → (A → Type κ) → Option A → Type κ
OnSome P (some a) = P a
OnSome P none = Unit

pub of_some {ℓ κ} :
    {A : Type ℓ} (P : A → Type κ) (r : Option A) (a : A) → OnSome P r → r ≡ some a → P a
of_some P r a p e = subst (OnSome P) e p
