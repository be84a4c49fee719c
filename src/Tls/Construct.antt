-- ===== src/Tls/Construct.antt =====
-- What the constructor of `tls` makes of its block.
use mathlib.Core.Path.{subst}
use gthread.Tls.{
  construct, fresh, Tls, Bytes, place_images, static_at, elsewhere, tcbhead_bytes, vector_bytes,
}
use gthread.Loader.{Magic, Image, prefix_bytes, IsImage}
use gthread.Tls.Images.{
  total, AllEmpty, All-append, prefix_bytes-packed, prefix_bytes-gap, total-append,
}
use gthread.Tls.Place.{
  Keeps, place_images-Keeps, place_images-packed, place_images-base, place_images-slot_after,
  place_images-slot_gap,
}
use gthread.Common.{
  sub_size-le, ◌+◌, ◌-◌, ◌≤◌, ◌<◌, ◌≡◌, ap, ◌∙◌, ◌⊎◌, inl, inr, List, ◌∷◌, ◌++◌, arith, Ptr, null,
  length, All, modulus, sub_size,
}

elsewhere-outside :
    (after vector : Ptr) (m : Bytes) (a : Ptr)
    → (a < after) ⊎ (after + tcbhead_bytes ≤ a)
    → (a < vector) ⊎ (vector + vector_bytes ≤ a)
    → elsewhere after vector m a ≡ m a
elsewhere-outside after vector m a (inl l) (inl k) = ground arith
elsewhere-outside after vector m a (inl l) (inr k) = ground arith
elsewhere-outside after vector m a (inr l) (inl k) = ground arith
elsewhere-outside after vector m a (inr l) (inr k) = ground arith

-- The object that the constructor makes of images that were found before, when those of the modules
-- come first and empty entries after them, when the bytes of `prefix_bytes` lie below its header, and
-- the header's address is below 2 ^ 64. No byte is written but those of `prefix_bytes`, of the header and of the vector of modules
-- that `new` made; the block that each module is given lies in the first of these, the first module's
-- at the top and each next one right below, and entry 0 has the lowest address of all.
pub construct-fits :
    (xs ys : List Image) (magic : Magic) (after vector : Ptr) (memory : Bytes)
    → All IsImage xs
    → AllEmpty ys
    → prefix_bytes (xs ++ ys) ≤ after
    → after < modulus
    → ((construct (xs ++ ys) magic after vector memory).base ≡ after - prefix_bytes (xs ++ ys))
      × ((a : Ptr)
          → (a < after - prefix_bytes (xs ++ ys)) ⊎ (after + tcbhead_bytes ≤ a)
          → (a < vector) ⊎ (vector + vector_bytes ≤ a)
          → (construct (xs ++ ys) magic after vector memory).memory a ≡ memory a)
      × ((front : List Image) (x : Image) (rest : List Image)
          → xs ≡ front ++ (x ∷ rest)
          → ((construct (xs ++ ys) magic after vector memory).slots (length front + 1)
              ≡ static_at (after - total front - x.reserve))
            × (after - prefix_bytes (xs ++ ys) ≤ after - total front - x.reserve))
unfolding construct fresh
construct-fits xs ys magic after vector memory h e le lt = (
  place_images-base (xs ++ ys) 0 (after, start) ∙ sub_size-le after (prefix_bytes (xs ++ ys)) le lt,
  λ a o d.
      ap (λ s. s.1.memory a) (place_images-packed xs ys (after, start) e)
      ∙ (at.1 a (below_or_above a o) ∙ elsewhere-outside after vector memory a (off_header a o) d),
  λ front x rest k. (slot front x rest k, below front x rest k),
)
  where
    start : Tls
    start = fresh (xs ++ ys) magic after vector memory

    p : prefix_bytes (xs ++ ys) ≡ total xs
    p = prefix_bytes-packed xs ys h e

    at : Keeps xs after (elsewhere after vector memory) (place_images xs 0 (after, start))
    at = place_images-Keeps xs 0 after start h (omega (arith, p)) lt

    below_or_above :
        (a : Ptr)
        → (a < after - prefix_bytes (xs ++ ys)) ⊎ (after + tcbhead_bytes ≤ a)
        → (a < after - total xs) ⊎ (after ≤ a)
    below_or_above a (inl l) = inl (omega (arith, p))
    below_or_above a (inr l) = inr (omega arith)

    off_header :
        (a : Ptr)
        → (a < after - prefix_bytes (xs ++ ys)) ⊎ (after + tcbhead_bytes ≤ a)
        → (a < after) ⊎ (after + tcbhead_bytes ≤ a)
    off_header a (inl l) = inl (omega arith)
    off_header a (inr l) = inr l

    parts :
        (front : List Image) (x : Image) (rest : List Image)
        → xs ≡ front ++ (x ∷ rest)
        → All IsImage front × All IsImage (x ∷ rest)
    parts front x rest k = All-append front (x ∷ rest) (subst (All IsImage) k h)

    slot :
        (front : List Image) (x : Image) (rest : List Image)
        → xs ≡ front ++ (x ∷ rest)
        → (place_images (xs ++ ys) 0 (after, start)).1.slots (length front + 1)
          ≡ static_at (after - total front - x.reserve)
    slot front x rest k =
        ap (λ s. s.1.slots (length front + 1))
          (place_images-packed xs ys (after, start) e
            ∙ ap (λ zs. place_images zs 0 (after, start)) k)
        ∙ place_images-slot_after front x rest after start (parts front x rest k).0
            (parts front x rest k).1.0.some_address
            (omega (arith, p, ap total k, total-append front (x ∷ rest))) lt

    below :
        (front : List Image) (x : Image) (rest : List Image)
        → xs ≡ front ++ (x ∷ rest)
        → after - prefix_bytes (xs ++ ys) ≤ after - total front - x.reserve
    below front x rest k = omega (arith, p, ap total k, total-append front (x ∷ rest))

-- The images as they are when a module was unloaded: an empty entry, and a module behind it. Then
-- the constructor gives that module a block below the lowest address of the object: `prefix_bytes`
-- counts up to the first empty entry only, and the constructor places the images behind it too.
pub construct-overruns :
    (xs rest : List Image) (gap x : Image) (magic : Magic) (after vector : Ptr) (memory : Bytes)
    → All IsImage xs
    → gap.address ≡ null
    → IsImage x
    → total xs + x.reserve ≤ after
    → after < modulus
    → (p : Ptr) × ((construct (xs ++ (gap ∷ x ∷ rest)) magic after vector memory).slots
          (length xs + 2)
        ≡ static_at p)
      × (p + x.reserve ≡ (construct (xs ++ (gap ∷ x ∷ rest)) magic after vector memory).base)
      × (p < (construct (xs ++ (gap ∷ x ∷ rest)) magic after vector memory).base)
unfolding construct fresh
construct-overruns xs rest gap x magic after vector memory h g z le lt = (
  after - total xs - x.reserve,
  place_images-slot_gap xs rest gap x after start h g z.some_address le lt,
  omega (arith, low),
  omega (arith, low, z.some_bytes),
)
  where
    images : List Image
    images = xs ++ (gap ∷ x ∷ rest)

    start : Tls
    start = fresh images magic after vector memory

    low : (place_images images 0 (after, start)).1.base ≡ after - total xs
    low =
        place_images-base images 0 (after, start)
        ∙ (ap (sub_size after) (prefix_bytes-gap xs (x ∷ rest) gap h g)
            ∙ sub_size-le after (total xs) (omega arith) lt)
