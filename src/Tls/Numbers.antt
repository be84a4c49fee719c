-- ===== src/Tls/Numbers.antt =====
-- The numbers of the modules before and after `tls::reset`.
use gthread.Tls.{Bytes, construct, fresh, Tls, reset, static_at, tcbhead_bytes, vector_bytes}
use gthread.Loader.{Magic, Image, prefix_bytes, k_num_slots, IsImage}
use gthread.Tls.Images.{total, AllEmpty, prefix_bytes-packed}
use gthread.Tls.Place.{place_images-after}
use gthread.Tls.Construct.{construct-fits}
use gthread.Tls.Fill.{filled, filled-slot, filled-slots}
use gthread.Tls.Slots.{clear_slots-Leaves}
use gthread.Tls.Reset.{emptied, restored, reset_lem}
use gthread.Outcome.{Result}
use gthread.Common.{
  ◌+◌, ◌-◌, ◌≤◌, ◌<◌, ◌≡◌, sym, ap, ◌∙◌, ◌⊎◌, List, ◌∷◌, ◌++◌, arith, Ptr, length, All, modulus,
}

-- For an object that the constructor made of images that come first, with empty entries after them:
-- after `reset` the slot after the one of its module number names each module's block, and slot 1
-- is as before. The constructor writes slot `i + 1` for image `i`; `reset` counts the module up
-- before it writes slot `module + 1`.
pub reset-misnumbers :
    (xs ys : List Image) (magic : Magic) (after vector : Ptr) (memory : Bytes)
    → All IsImage xs
    → AllEmpty ys
    → prefix_bytes (xs ++ ys) ≤ after
    → after < modulus
    → (u : Tls) × (reset (xs ++ ys) (construct (xs ++ ys) magic after vector memory) ≡ Result.ok u)
      × (u.slots 1 ≡ (construct (xs ++ ys) magic after vector memory).slots 1)
      × ((front : List Image) (x : Image) (rest : List Image)
          → xs ≡ front ++ (x ∷ rest)
          → u.slots (length front + 2)
            ≡ (construct (xs ++ ys) magic after vector memory).slots (length front + 1))
unfolding construct fresh
reset-misnumbers xs ys magic after vector memory h e le lt = (
  restored xs t,
  reset_lem xs ys t h (omega (arith, fits.0, top, p)) (omega (arith, top)),
  filled-slots xs 0 1 t.after (emptied t) (omega arith)
      ∙ (clear_slots-Leaves k_num_slots 0 t).first,
  λ front x rest k.
      ap (λ zs. (filled zs 0 t.after (emptied t)).slots (length front + 2)) k
      ∙ (filled-slot front x rest t.after (emptied t)
          ∙ (ap (λ a. static_at (a - total front - x.reserve)) top
              ∙ sym (fits.2 front x rest k).0)),
)
  where
    t : Tls
    t = construct (xs ++ ys) magic after vector memory

    fits :
        (t.base ≡ after - prefix_bytes (xs ++ ys))
        × ((a : Ptr)
            → (a < after - prefix_bytes (xs ++ ys)) ⊎ (after + tcbhead_bytes ≤ a)
            → (a < vector) ⊎ (vector + vector_bytes ≤ a)
            → t.memory a ≡ memory a)
        × ((front : List Image) (x : Image) (rest : List Image)
            → xs ≡ front ++ (x ∷ rest)
            → (t.slots (length front + 1) ≡ static_at (after - total front - x.reserve))
              × (after - prefix_bytes (xs ++ ys) ≤ after - total front - x.reserve))
    fits = construct-fits xs ys magic after vector memory h e le lt

    p : prefix_bytes (xs ++ ys) ≡ total xs
    p = prefix_bytes-packed xs ys h e

    top : t.after ≡ after
    top = place_images-after (xs ++ ys) 0 (after, fresh (xs ++ ys) magic after vector memory)
