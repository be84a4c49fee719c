-- ===== src/Tls/Place.antt =====
-- Where the constructor of `tls` places the images.
use mathlib.Core.Path.{subst}
use gthread.Tls.{Tls, Bytes, place_image, place_images, memcpy, static_at}
use gthread.Loader.{Image, IsImage}
use gthread.Tls.Images.{total, AllEmpty, memcpy_outside}
use gthread.Common.{
  sub_size-le, ℕ, suc, ◌+◌, ◌-◌, ◌≤◌, ◌<◌, ◌≡◌, refl, sym, ap, ◌∙◌, ◌≢◌, ◌⊎◌, inl, inr, List, [],
  ◌∷◌, ◌++◌, arith, Ptr, null, length, All, update, modulus, update_self, ==-of_ne,
}

-- the object after one image
abbrev pub placed : Image → ℕ → Ptr → Tls → Tls
placed x i base t = record t {
  memory =
      memcpy (base - x.reserve + x.mem_offset) (x.address + x.mem_offset) x.image_size t.memory;
  slots = update t.slots (i + 1) (static_at (base - x.reserve));
}

pub place_image_lem :
    (x : Image) (i : ℕ) (base : Ptr) (t : Tls)
    → x.address ≢ null
    → x.reserve ≤ base
    → base < modulus
    → place_image x i (base, t) ≡ (base - x.reserve, placed x i base t)
unfolding place_image
place_image_lem x i base t n le lt =
    rw (==-of_ne x.address 0 n) (rw (sub_size-le base x.reserve le lt) refl)

pub place_images-append :
    (xs ys : List Image) (i : ℕ) (s : Ptr × Tls)
    → place_images (xs ++ ys) i s ≡ place_images ys (i + length xs) (place_images xs i s)
unfolding place_images
place_images-append [] ys i s = ap (λ k. place_images ys k s) (omega arith)
place_images-append (x ∷ xs) ys i s =
    place_images-append xs ys (suc i) (place_image x i s)
    ∙ ap (λ k. place_images ys k (place_images xs (suc i) (place_image x i s))) (omega arith)

place_image-slots :
    (x : Image) (i j : ℕ) (s : Ptr × Tls) → j ≤ i → (place_image x i s).1.slots j ≡ s.1.slots j
unfolding place_image
place_image-slots x i j (base, t) h = ground arith

-- Later rounds keep the slots of the earlier ones.
pub place_images-slots :
    (xs : List Image) (i j : ℕ) (s : Ptr × Tls)
    → j ≤ i
    → (place_images xs i s).1.slots j ≡ s.1.slots j
unfolding place_images
place_images-slots [] i j s h = refl
place_images-slots (x ∷ xs) i j s h =
    place_images-slots xs (suc i) j (place_image x i s) (omega arith) ∙ place_image-slots x i j s h

place_image-base : (x : Image) (i : ℕ) (s : Ptr × Tls) → (place_image x i s).1.base ≡ s.1.base
unfolding place_image
place_image-base x i (base, t) = ground arith

pub place_images-base :
    (xs : List Image) (i : ℕ) (s : Ptr × Tls) → (place_images xs i s).1.base ≡ s.1.base
unfolding place_images
place_images-base [] i s = refl
place_images-base (x ∷ xs) i s =
    place_images-base xs (suc i) (place_image x i s) ∙ place_image-base x i s

place_image-after : (x : Image) (i : ℕ) (s : Ptr × Tls) → (place_image x i s).1.after ≡ s.1.after
unfolding place_image
place_image-after x i (base, t) = ground arith

pub place_images-after :
    (xs : List Image) (i : ℕ) (s : Ptr × Tls) → (place_images xs i s).1.after ≡ s.1.after
unfolding place_images
place_images-after [] i s = refl
place_images-after (x ∷ xs) i s =
    place_images-after xs (suc i) (place_image x i s) ∙ place_image-after x i s

pub place_images-empty :
    (ys : List Image) (i : ℕ) (s : Ptr × Tls) → AllEmpty ys → place_images ys i s ≡ s
unfolding place_images place_image
place_images-empty [] i s e = refl
place_images-empty (y ∷ ys) i (base, t) e = rw (e.0) (place_images-empty ys (suc i) (base, t) e.1)

-- the bytes outside of what the images reserve are those of `m`
abbrev pub Keeps : List Image → Ptr → Bytes → Ptr × Tls → Type 0
Keeps xs base m s =
    (s.0 ≡ base - total xs) × ((a : Ptr) → (a < base - total xs) ⊎ (base ≤ a) → s.1.memory a ≡ m a)

Keeps-step :
    (x : Image) (xs : List Image) (i : ℕ) (base : Ptr) (t : Tls) (s : Ptr × Tls)
    → IsImage x
    → x.reserve + total xs ≤ base
    → Keeps xs (base - x.reserve) (placed x i base t).memory s
    → Keeps (x ∷ xs) base t.memory s
Keeps-step x xs i base t s h le rest = (
  omega (arith, rest.0),
  λ a o.
      rest.1 a (still a o)
      ∙ memcpy_outside (base - x.reserve + x.mem_offset) _ _ t.memory a (apart a o),
)
  where
    still :
        (a : Ptr)
        → (a < base - total (x ∷ xs)) ⊎ (base ≤ a)
        → (a < base - x.reserve - total xs) ⊎ (base - x.reserve ≤ a)
    still a (inl l) = inl (omega arith)
    still a (inr l) = inr (omega arith)

    apart :
        (a : Ptr)
        → (a < base - total (x ∷ xs)) ⊎ (base ≤ a)
        → (a < base - x.reserve + x.mem_offset)
          ⊎ (base - x.reserve + x.mem_offset + x.image_size ≤ a)
    apart a (inl l) = inl (omega arith)
    apart a (inr l) = inr (omega (arith, h.fits))

-- Images placed one after the other below `base` take what they reserve, and write nothing else.
pub place_images-Keeps :
    (xs : List Image) (i : ℕ) (base : Ptr) (t : Tls)
    → All IsImage xs
    → total xs ≤ base
    → base < modulus
    → Keeps xs base t.memory (place_images xs i (base, t))
unfolding place_images
place_images-Keeps [] i base t h le lt = (omega arith, λ a o. refl)
place_images-Keeps (x ∷ xs) i base t h le lt =
    subst (λ s. Keeps (x ∷ xs) base t.memory (place_images xs (suc i) s))
      (sym (place_image_lem x i base t h.0.some_address (omega arith) lt))
      (Keeps-step x xs i base t (place_images xs (suc i) (base - x.reserve, placed x i base t)) h.0
        le
        (place_images-Keeps xs (suc i) (base - x.reserve) (placed x i base t) h.1 (omega arith)
          (omega arith)))

-- the slot that the round for `x` writes
pub place_images-slot :
    (x : Image) (rest : List Image) (i : ℕ) (base : Ptr) (t : Tls)
    → x.address ≢ null
    → x.reserve ≤ base
    → base < modulus
    → (place_images (x ∷ rest) i (base, t)).1.slots (i + 1) ≡ static_at (base - x.reserve)
unfolding place_images
place_images-slot x rest i base t n le lt =
    place_images-slots rest (suc i) (i + 1) (place_image x i (base, t)) (omega arith)
    ∙ (ap (λ s. s.1.slots (i + 1)) (place_image_lem x i base t n le lt)
        ∙ update_self t.slots (i + 1) (static_at (base - x.reserve)))

-- The images in front of `x` move its place down by what they reserve.
pub place_images-slot_after :
    (front : List Image) (x : Image) (rest : List Image) (base : Ptr) (t : Tls)
    → All IsImage front
    → x.address ≢ null
    → total front + x.reserve ≤ base
    → base < modulus
    → (place_images (front ++ (x ∷ rest)) 0 (base, t)).1.slots (length front + 1)
      ≡ static_at (base - total front - x.reserve)
place_images-slot_after front x rest base t h n le lt =
    ap (λ s. s.1.slots (length front + 1)) (place_images-append front (x ∷ rest) 0 (base, t))
    ∙ (ap
          (λ k.
            (place_images (x ∷ rest) k (place_images front 0 (base, t))).1.slots (length front + 1))
          (omega arith)
        ∙ (place_images-slot x rest (length front) (place_images front 0 (base, t)).0
              (place_images front 0 (base, t)).1 n (omega (arith, at.0)) (omega (arith, at.0))
            ∙ ap (λ b. static_at (b - x.reserve)) at.0))
  where
    at : Keeps front base t.memory (place_images front 0 (base, t))
    at = place_images-Keeps front 0 base t h (omega arith) lt

pub place_images-packed :
    (xs ys : List Image) (s : Ptr × Tls)
    → AllEmpty ys
    → place_images (xs ++ ys) 0 s ≡ place_images xs 0 s
place_images-packed xs ys s e =
    place_images-append xs ys 0 s ∙ place_images-empty ys (0 + length xs) (place_images xs 0 s) e

place_image-gap :
    (gap : Image) (i : ℕ) (s : Ptr × Tls) → gap.address ≡ null → place_image gap i s ≡ s
unfolding place_image
place_image-gap gap i (base, t) e = rw e refl

-- An image behind an empty entry is placed as if that were not there, in the slot of its own index.
pub place_images-slot_gap :
    (xs rest : List Image) (gap x : Image) (base : Ptr) (t : Tls)
    → All IsImage xs
    → gap.address ≡ null
    → x.address ≢ null
    → total xs + x.reserve ≤ base
    → base < modulus
    → (place_images (xs ++ (gap ∷ x ∷ rest)) 0 (base, t)).1.slots (length xs + 2)
      ≡ static_at (base - total xs - x.reserve)
unfolding place_images
place_images-slot_gap xs rest gap x base t h g n le lt =
    ap (λ s. s.1.slots (length xs + 2)) (place_images-append xs (gap ∷ x ∷ rest) 0 (base, t))
    ∙ (ap (λ s. (place_images (x ∷ rest) (suc (0 + length xs)) s).1.slots (length xs + 2))
          (place_image-gap gap (0 + length xs) (place_images xs 0 (base, t)) g)
        ∙ (ap
              (λ k.
                (place_images (x ∷ rest) (suc (0 + length xs))
                    (place_images xs 0 (base, t))).1.slots
                  k)
              (omega arith)
            ∙ (place_images-slot x rest (suc (0 + length xs)) (place_images xs 0 (base, t)).0
                  (place_images xs 0 (base, t)).1 n (omega (arith, at.0)) (omega (arith, at.0))
                ∙ ap (λ b. static_at (b - x.reserve)) at.0)))
  where
    at : Keeps xs base t.memory (place_images xs 0 (base, t))
    at = place_images-Keeps xs 0 base t h (omega arith) lt
