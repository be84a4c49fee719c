-- ===== src/Tls/Images.antt =====
-- The images of the loaded modules: where they are found, and the bytes they take.
use gthread.Tls.{Bytes, memcpy}
use gthread.Loader.{IsImage, Image, prefix_bytes}
use gthread.Common.{
  ℕ, ◌+◌, ◌-◌, ◌≤◌, ◌<◌, ◌≡◌, refl, ap, ◌⊎◌, inl, inr, List, [], ◌∷◌, ◌++◌, arith, ltb,
  if◌then◌else◌, Ptr, null, Bool-cases, All, ==-of_ne,
}

-- the bytes that the images reserve
abbrev pub total : List Image → ℕ
total [] = 0
total (x ∷ xs) = x.reserve + total xs

-- no image from here on
abbrev pub AllEmpty : List Image → Type 0
AllEmpty ys = All (λ x. x.address ≡ null) ys

pub total-append : (xs ys : List Image) → total (xs ++ ys) ≡ total xs + total ys
total-append [] ys = omega arith
total-append (x ∷ xs) ys = omega (arith, total-append xs ys)

pub prefix_bytes-append :
    (xs ys : List Image) → All IsImage xs → prefix_bytes (xs ++ ys) ≡ total xs + prefix_bytes ys
unfolding prefix_bytes
prefix_bytes-append [] ys h = omega arith
prefix_bytes-append (x ∷ xs) ys h =
    rw (==-of_ne x.address 0 h.0.some_address) (omega (arith, prefix_bytes-append xs ys h.1))

pub prefix_bytes-empty : (ys : List Image) → AllEmpty ys → prefix_bytes ys ≡ 0
unfolding prefix_bytes
prefix_bytes-empty [] h = refl
prefix_bytes-empty (y ∷ ys) h = ground (arith, h.0)

pub prefix_bytes-packed :
    (xs ys : List Image) → All IsImage xs → AllEmpty ys → prefix_bytes (xs ++ ys) ≡ total xs
prefix_bytes-packed xs ys h e = omega (arith, prefix_bytes-append xs ys h, prefix_bytes-empty ys e)

pub prefix_bytes-gap :
    (xs ys : List Image) (gap : Image)
    → All IsImage xs
    → gap.address ≡ null
    → prefix_bytes (xs ++ (gap ∷ ys)) ≡ total xs
unfolding prefix_bytes
prefix_bytes-gap [] ys gap h g = ground arith
prefix_bytes-gap (x ∷ xs) ys gap h g =
    rw (==-of_ne x.address 0 h.0.some_address) (omega (arith, prefix_bytes-gap xs ys gap h.1 g))

-- Bytes that a copy does not reach keep their values.
pub memcpy_outside :
    (to from n : ℕ) (m : Bytes) (a : Ptr) → (a < to) ⊎ (to + n ≤ a) → memcpy to from n m a ≡ m a
memcpy_outside to from n m a (inl h) = ground arith
memcpy_outside to from n m a (inr h) = ground arith

pub memcpy_at :
    (to from n k : ℕ) (m : Bytes)
    → memcpy to from n m (to + k) ≡ (if ltb k n then m (from + k) else m (to + k))
memcpy_at to from n k m = elim (Bool-cases (ltb k n)) [
  | inl h ↦ ground (arith, ap m (shift_back to from k))
  | inr h ↦ ground arith
]
  where
    shift_back : (a b c : ℕ) → b + (a + c - a) ≡ b + c
    shift_back a b c = omega arith

pub All-append : (xs ys : List Image) → All IsImage (xs ++ ys) → All IsImage xs × All IsImage ys
All-append [] ys h = (tt, h)
All-append (x ∷ xs) ys h = let r = All-append xs ys h.1 in ((h.0, r.0), r.1)
