-- ===== src/Tls/Reset.antt =====
-- What `tls::reset` makes of an object.
use mathlib.Core.Path.{subst}
use gthread.Tls.{Tls, reset, wiped, clear_slots, put_image, zero_bytes}
use gthread.Loader.{Image, k_num_slots, IsImage}
use gthread.Tls.Images.{total, AllEmpty, All-append, total-append, memcpy_at}
use gthread.Tls.Fill.{filled, fill_images-filled, filled-append, filled-outside}
use gthread.Tls.Slots.{clear_slots-Leaves}
use gthread.Outcome
use gthread.Outcome.{Result}
use gthread.Common.{
  ℕ, suc, ◌+◌, ◌-◌, ◌≤◌, ◌<◌, ◌≡◌, sym, ap, ◌∙◌, ◌⊎◌, inl, inr, true, false, ◌&&◌, List, ◌∷◌, ◌++◌,
  arith, ltb, leb, if◌then◌else◌, Ptr, Bool-cases, length, All, modulus,
}

-- the object that the images are put back into
abbrev pub emptied : Tls → Tls
emptied t = wiped (clear_slots k_num_slots 0 t)

-- and the object that `reset` gives
abbrev pub restored : List Image → Tls → Tls
restored xs t = record (filled xs 0 t.after (emptied t)) { did_ctype_init = false }

pub reset_lem :
    (xs ys : List Image) (t : Tls)
    → All IsImage xs
    → t.base + total xs ≡ t.after
    → t.after < modulus
    → reset (xs ++ ys) t ≡ Result.ok (restored xs t)
unfolding reset
reset_lem xs ys t h e lt =
    ap (λ r. Outcome.◌>>=◌ {A = Tls} r (λ u. Result.ok (record u { did_ctype_init = false })))
      (fill_images-filled xs ys 0 t.after (emptied t) h
        (ap (λ b. b + total xs) (clear_slots-Leaves k_num_slots 0 t).base ∙ e) lt)

-- an image whose bytes lie outside of the block
abbrev pub IsApart : Tls → Image → Type 0
IsApart t x = (x.address + x.image_size ≤ t.base) ⊎ (t.after ≤ x.address)

-- the bytes before the images are put back
wiped_at :
    (t : Tls) (a : Ptr)
    → (emptied t).memory a
      ≡ (if leb t.base a && ltb a (t.base + (t.after - t.base)) then 0 else t.memory a)
wiped_at t a =
    let s = clear_slots-Leaves k_num_slots 0 t in
    ap
      (λ b.
        zero_bytes b ((clear_slots k_num_slots 0 t).after - b) (clear_slots k_num_slots 0 t).memory
          a)
      s.base
    ∙ (ap (λ f. zero_bytes t.base (f - t.base) (clear_slots k_num_slots 0 t).memory a) s.after
        ∙ ap (λ m. zero_bytes t.base (t.after - t.base) m a) s.memory)

wiped_inside : (t : Tls) (a : Ptr) → t.base ≤ a → a < t.after → (emptied t).memory a ≡ 0
wiped_inside t a l h = wiped_at t a ∙ ground arith

wiped_outside :
    (t : Tls) (a : Ptr)
    → t.base ≤ t.after
    → (a < t.base) ⊎ (t.after ≤ a)
    → (emptied t).memory a ≡ t.memory a
wiped_outside t a b (inl h) = wiped_at t a ∙ ground arith
wiped_outside t a b (inr h) = wiped_at t a ∙ ground arith

-- the bytes of an image are read as they were before
source_kept :
    (front : List Image) (x : Image) (t : Tls) (k : ℕ)
    → All IsImage front
    → t.base + (total front + x.reserve) ≤ t.after
    → IsApart t x
    → k < x.image_size
    → (filled front 0 t.after (emptied t)).memory (x.address + k) ≡ t.memory (x.address + k)
source_kept front x t k h le apart l =
    filled-outside front 0 t.after (emptied t) (x.address + k) h (omega arith) (far apart)
    ∙ wiped_outside t (x.address + k) (omega arith) (out apart)
  where
    out : IsApart t x → (x.address + k < t.base) ⊎ (t.after ≤ x.address + k)
    out (inl p) = inl (omega arith)
    out (inr p) = inr (omega arith)

    far : IsApart t x → (x.address + k < t.after - total front) ⊎ (t.after ≤ x.address + k)
    far (inl p) = inl (omega arith)
    far (inr p) = inr (omega arith)

-- the byte number `k` of the block of the module `x`
contents :
    (front : List Image) (x : Image) (rest : List Image) (t : Tls) (k : ℕ)
    → All IsImage front
    → IsImage x
    → All IsImage rest
    → t.base + (total front + (x.reserve + total rest)) ≡ t.after
    → IsApart t x
    → k < x.reserve
    → (filled (front ++ (x ∷ rest)) 0 t.after (emptied t)).memory
        (t.after - total front - x.reserve + k)
      ≡ (if ltb k x.image_size then t.memory (x.address + k) else 0)
unfolding filled
contents front x rest t k hf hx hr e apart l =
    ap (λ u. u.memory (v + k)) (filled-append front (x ∷ rest) 0 t.after (emptied t))
    ∙ (filled-outside rest (suc (0 + length front)) v
          (put_image x (suc (0 + length front)) v before) (v + k) hr (omega arith)
          (inr (omega arith))
        ∙ (memcpy_at v x.address x.image_size k before.memory
            ∙ elim (Bool-cases (ltb k x.image_size)) [
              | inl p ↦
                  rw p (source_kept front x t k hf (omega arith) apart (ltb→lt k x.image_size p))
              | inr p ↦ rw p (
                  filled-outside front 0 t.after (emptied t) (v + k) hf (omega arith)
                    (inl (omega arith))
                  ∙ wiped_inside t (v + k) (omega arith) (omega arith))
            ]))
  where
    v : Ptr
    v = t.after - total front - x.reserve

    before : Tls
    before = filled front 0 t.after (emptied t)

    ltb→lt : (a b : ℕ) → ltb a b ≡ true → a < b
    ltb→lt a b h = ground arith

-- `reset`, when the modules' images come first, empty entries after them, and the images take the
-- whole block: it succeeds, and the block of each module, whose image lies outside of all blocks,
-- has the bytes of its image at the start and zeros in the rest.
pub reset-fills :
    (xs ys : List Image) (t : Tls)
    → All IsImage xs
    → AllEmpty ys
    → t.base + total xs ≡ t.after
    → t.after < modulus
    → (u : Tls) × (reset (xs ++ ys) t ≡ Result.ok u)
      × ((front : List Image) (x : Image) (rest : List Image) (k : ℕ)
          → xs ≡ front ++ (x ∷ rest)
          → IsApart t x
          → k < x.reserve
          → u.memory (t.after - total front - x.reserve + k)
            ≡ (if ltb k x.image_size then t.memory (x.address + k) else 0))
reset-fills xs ys t h g e lt = (
  restored xs t,
  reset_lem xs ys t h e lt,
  λ front x rest k p apart l.
      let parts = All-append front (x ∷ rest) (subst (All IsImage) p h) in
      subst
        (λ zs.
          (filled zs 0 t.after (emptied t)).memory (t.after - total front - x.reserve + k)
          ≡ (if ltb k x.image_size then t.memory (x.address + k) else 0))
        (sym p)
        (contents front x rest t k parts.0 parts.1.0 parts.1.1
          (omega (arith, ap total p, total-append front (x ∷ rest))) apart l),
)
