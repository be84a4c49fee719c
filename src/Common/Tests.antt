-- ===== src/Common/Tests.antt =====
-- The Boolean tests on numbers, the conditional, and pointers as numbers.
use Prim.Native.Nat.{ℕ, suc, compare, Ordering}
use mathlib.Core.Path.{◌≡◌, refl}
use mathlib.Core.Logic.{◌≢◌, ◌⊎◌, inl, inr}
use mathlib.Core.Bool.{Bool, true, false}
use native.Mathlib.Omega.{arith}

abbrev pub ltb : ℕ → ℕ → Bool
ltb a b = elim (compare a b) [ Ordering.lt ↦ true | _ ↦ false ]

abbrev pub leb : ℕ → ℕ → Bool
leb a b = elim (compare a b) [ Ordering.gt ↦ false | _ ↦ true ]

infix 50 ◌==◌
abbrev pub ◌==◌ : ℕ → ℕ → Bool
a == b = elim (compare a b) [ Ordering.eq ↦ true | _ ↦ false ]

infix 1 if◌then◌else◌
abbrev pub if◌then◌else◌ {ℓ} : {A : Type ℓ} → Bool → A → A → A
if true then x else y = x
if false then x else y = y

-- Equality of flags.
abbrev pub same_flag : Bool → Bool → Bool
same_flag true b = b
same_flag false true = false
same_flag false false = true

-- A pointer is its address; `nullptr` is 0.
abbrev pub Ptr : Type 0
Ptr = ℕ

abbrev pub null : Ptr
null = 0

pub Bool-cases : (b : Bool) → (b ≡ true) ⊎ (b ≡ false)
Bool-cases true = inl refl
Bool-cases false = inr refl

pub eq_of_== : (a b : ℕ) → (a == b) ≡ true → a ≡ b
eq_of_== a b h = ground arith

pub ==-of_ne : (a b : ℕ) → a ≢ b → (a == b) ≡ false
==-of_ne a b h = ground arith

pub ==_self : (a : ℕ) → (a == a) ≡ true
==_self a = ground arith

pub ltb-zero-suc : (n : ℕ) → ltb 0 (suc n) ≡ true
ltb-zero-suc n = ground arith
