-- ===== src/Common/Lists.antt =====
-- Lists over the native numbers, and functions updated at one address.
use Prim.Native.Nat.{ℕ, suc, ◌+◌}
use mathlib.Core.Path.{◌≡◌}
use mathlib.Core.Logic.{◌≢◌}
use mathlib.Core.List.{List, [], ◌∷◌, ◌++◌}
use native.Mathlib.Omega.{arith}
use gthread.Common.Tests.{◌==◌, if◌then◌else◌}

module _ {ℓ} {A : Type ℓ} where
  abbrev pub length : List A → ℕ
  length [] = 0
  length (x ∷ xs) = suc (length xs)

  pub length-append : (xs ys : List A) → length (xs ++ ys) ≡ length xs + length ys
  length-append [] ys = omega arith
  length-append (x ∷ xs) ys = omega (arith, length-append xs ys)

-- Every element satisfies `P`.
abbrev pub All {ℓ κ} : {A : Type ℓ} → (A → Type κ) → List A → Type κ
All P [] = Unit
All P (x ∷ xs) = P x × All P xs

pub All-map {ℓ κ} :
    {A : Type ℓ} (P Q : A → Type κ) (xs : List A) → ((x : A) → P x → Q x) → All P xs → All Q xs
All-map P Q [] f h = tt
All-map P Q (x ∷ xs) f h = (f x h.0, All-map P Q xs f h.1)

-- How often an address occurs.
abbrev pub count : ℕ → List ℕ → ℕ
count a [] = 0
count a (x ∷ xs) = (if x == a then 1 else 0) + count a xs

-- A map from addresses, written at one of them.
abbrev pub update {ℓ} : {A : Type ℓ} → (ℕ → A) → ℕ → A → ℕ → A
update f p v q = if p == q then v else f q

pub update_self {ℓ} : {A : Type ℓ} (f : ℕ → A) (p : ℕ) (v : A) → update f p v p ≡ v
update_self f p v = ground arith

pub update_ne {ℓ} : {A : Type ℓ} (f : ℕ → A) (p q : ℕ) (v : A) → p ≢ q → update f p v q ≡ f q
update_ne f p q v h = ground arith

pub All-ne_of_count : (a : ℕ) (xs : List ℕ) → count a xs ≡ 0 → All (λ x. x ≢ a) xs
All-ne_of_count a [] h = tt
All-ne_of_count a (x ∷ xs) h = (ground arith, All-ne_of_count a xs (ground arith))
