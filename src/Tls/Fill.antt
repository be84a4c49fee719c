-- ===== src/Tls/Fill.antt =====
-- The second loop of `tls::reset`, where the modules' images come first.
use gthread.Tls.{Tls, put_image, fill_images, static_at}
use gthread.Loader.{Image, IsImage}
use gthread.Tls.Images.{total, memcpy_outside}
use gthread.Outcome.{Result}
use gthread.Common.{
  sub_size-le, ℕ, suc, ◌+◌, ◌-◌, ◌≤◌, ◌<◌, ◌≡◌, refl, ap, ◌∙◌, ◌⊎◌, inl, inr, true, false, List, [],
  ◌∷◌, ◌++◌, arith, ltb, Ptr, length, All, update, modulus, update_self, update_ne, ==-of_ne,
}

-- the object after the images are put back below `base`
unfoldable pub filled : List Image → ℕ → Ptr → Tls → Tls
filled [] n base t = t
filled (x ∷ xs) n base t =
    filled xs (suc n) (base - x.reserve) (put_image x (suc n) (base - x.reserve) t)

fill_images-stops :
    (ys : List Image) (n : ℕ) (base : Ptr) (t : Tls)
    → t.base ≡ base
    → fill_images ys n base t ≡ Result.ok t
unfolding fill_images
fill_images-stops [] n base t e = refl
fill_images-stops (y ∷ ys) n base t e = rw e (ground arith)

fill_images-step :
    (x : Image) (xs : List Image) (n : ℕ) (base : Ptr) (t : Tls)
    → IsImage x
    → t.base + x.reserve ≤ base
    → base < modulus
    → fill_images (x ∷ xs) n base t
      ≡ fill_images xs (suc n) (base - x.reserve) (put_image x (suc n) (base - x.reserve) t)
unfolding fill_images
fill_images-step x xs n base t h le lt =
    rw (sub_size-le base x.reserve (omega arith) lt)
      (rw (above) (rw (==-of_ne x.address 0 h.some_address) (rw (not_below) refl)))
  where
    above : ltb t.base base ≡ true
    above = ground (arith, h.some_bytes)

    not_below : ltb (base - x.reserve) t.base ≡ false
    not_below = ground arith

-- The loop ends at the lowest address of the object, with every image put back.
pub fill_images-filled :
    (xs ys : List Image) (n : ℕ) (base : Ptr) (t : Tls)
    → All IsImage xs
    → t.base + total xs ≡ base
    → base < modulus
    → fill_images (xs ++ ys) n base t ≡ Result.ok (filled xs n base t)
unfolding filled
fill_images-filled [] ys n base t h e lt = fill_images-stops ys n base t (omega arith)
fill_images-filled (x ∷ xs) ys n base t h e lt =
    fill_images-step x (xs ++ ys) n base t h.0 (omega arith) lt
    ∙ fill_images-filled xs ys (suc n) (base - x.reserve) (put_image x (suc n) (base - x.reserve) t)
        h.1 (omega arith) (omega arith)

pub filled-append :
    (xs ys : List Image) (n : ℕ) (base : Ptr) (t : Tls)
    → filled (xs ++ ys) n base t ≡ filled ys (n + length xs) (base - total xs) (filled xs n base t)
unfolding filled
filled-append [] ys n base t =
    ap (λ k. filled ys k base t) (omega arith) ∙ ap (λ b. filled ys (n + 0) b t) (omega arith)
filled-append (x ∷ xs) ys n base t =
    filled-append xs ys (suc n) (base - x.reserve) t'
    ∙ (ap (λ k. filled ys k (base - x.reserve - total xs) (filled xs (suc n) (base - x.reserve) t'))
          (omega arith)
        ∙ ap (λ b. filled ys (n + suc (length xs)) b (filled xs (suc n) (base - x.reserve) t'))
            (omega arith))
  where
    t' : Tls
    t' = put_image x (suc n) (base - x.reserve) t

-- Later rounds keep the slots of the earlier ones.
pub filled-slots :
    (xs : List Image) (n j : ℕ) (base : Ptr) (t : Tls)
    → j ≤ n + 1
    → (filled xs n base t).slots j ≡ t.slots j
unfolding filled
filled-slots [] n j base t h = refl
filled-slots (x ∷ xs) n j base t h =
    filled-slots xs (suc n) j (base - x.reserve) (put_image x (suc n) (base - x.reserve) t)
      (omega arith)
    ∙ update_ne t.slots (suc n + 1) j (static_at (base - x.reserve)) (omega arith)

pub filled-base :
    (xs : List Image) (n : ℕ) (base : Ptr) (t : Tls) → (filled xs n base t).base ≡ t.base
unfolding filled
filled-base [] n base t = refl
filled-base (x ∷ xs) n base t =
    filled-base xs (suc n) (base - x.reserve) (put_image x (suc n) (base - x.reserve) t)

pub filled-freed :
    (xs : List Image) (n : ℕ) (base : Ptr) (t : Tls) → (filled xs n base t).freed ≡ t.freed
unfolding filled
filled-freed [] n base t = refl
filled-freed (x ∷ xs) n base t =
    filled-freed xs (suc n) (base - x.reserve) (put_image x (suc n) (base - x.reserve) t)

-- the slot that the round for `x` writes
pub filled-slot :
    (front : List Image) (x : Image) (rest : List Image) (base : Ptr) (t : Tls)
    → (filled (front ++ (x ∷ rest)) 0 base t).slots (length front + 2)
      ≡ static_at (base - total front - x.reserve)
unfolding filled
filled-slot front x rest base t =
    ap (λ u. u.slots (length front + 2)) (filled-append front (x ∷ rest) 0 base t)
    ∙ (filled-slots rest (suc (0 + length front)) (length front + 2) (b - x.reserve)
          (put_image x (suc (0 + length front)) (b - x.reserve) before) (omega arith)
        ∙ (ap (update before.slots (suc (0 + length front) + 1) (static_at (b - x.reserve)))
              (omega arith)
            ∙ update_self before.slots (suc (0 + length front) + 1) (static_at (b - x.reserve))))
  where
    b : Ptr
    b = base - total front

    before : Tls
    before = filled front 0 base t

-- Only bytes that the images reserve are written.
pub filled-outside :
    (xs : List Image) (n : ℕ) (base : Ptr) (t : Tls) (a : Ptr)
    → All IsImage xs
    → total xs ≤ base
    → (a < base - total xs) ⊎ (base ≤ a)
    → (filled xs n base t).memory a ≡ t.memory a
unfolding filled
filled-outside [] n base t a h le o = refl
filled-outside (x ∷ xs) n base t a h le o =
    filled-outside xs (suc n) (base - x.reserve) (put_image x (suc n) (base - x.reserve) t) a h.1
      (omega arith) (still o)
    ∙ memcpy_outside (base - x.reserve) x.address x.image_size t.memory a (apart o)
  where
    still :
        (a < base - total (x ∷ xs)) ⊎ (base ≤ a)
        → (a < base - x.reserve - total xs) ⊎ (base - x.reserve ≤ a)
    still (inl l) = inl (omega arith)
    still (inr l) = inr (omega arith)

    apart :
        (a < base - total (x ∷ xs)) ⊎ (base ≤ a)
        → (a < base - x.reserve) ⊎ (base - x.reserve + x.image_size ≤ a)
    apart (inl l) = inl (omega arith)
    apart (inr l) = inr (omega (arith, h.0.fits))
