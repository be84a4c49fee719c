-- ===== src/Tls/Once.antt =====
-- The slots after `tls::reset`, and what is left to free.
use gthread.Tls.{Tls, reset, wiped, destruct, fill_images, clear_slots, put_image}
use gthread.Loader.{Image, k_num_slots}
use gthread.Tls.Slots.{AllSettled, clear_slots-freed, clear_slots-settles, free_slots-settled}
use gthread.Outcome
use gthread.Outcome.{OnOk, of_ok, Result}
use gthread.Common.{
  ℕ, suc, ◌+◌, ◌≡◌, refl, ap, ◌∙◌, inl, inr, false, List, [], ◌∷◌, arith, ltb, ◌==◌, Ptr, null,
  Bool-cases, sub_size,
}

-- what putting images back leaves to free
abbrev Frees : List Ptr → Tls → Type 0
Frees freed u = AllSettled u × (u.freed ≡ freed)

put_image-settled :
    (x : Image) (n : ℕ) (base : Ptr) (t : Tls) → AllSettled t → AllSettled (put_image x n base t)
put_image-settled x n base t s j l = elim (Bool-cases (n + 1 == suc (suc j))) [
  | inl e ↦ rw e refl
  | inr e ↦ rw e (s j l)
]

fill_images-Frees :
    (xs : List Image) (n : ℕ) (base : Ptr) (t : Tls)
    → AllSettled t
    → OnOk (Frees t.freed) (fill_images xs n base t)
unfolding fill_images
fill_images-Frees [] n base t s = (s, refl)
fill_images-Frees (x ∷ xs) n base t s = elim (Bool-cases (ltb t.base base)) [
  | inr e ↦ rw e (s, refl)
  | inl e ↦ rw e (elim (Bool-cases (x.address == null)) [
    | inl a ↦ rw a (fill_images-Frees xs n base t s)
    | inr a ↦ rw a (elim (Bool-cases (ltb (sub_size base x.reserve) t.base)) [
      | inl b ↦ rw b tt
      | inr b ↦ rw b (
          fill_images-Frees xs (suc n) (sub_size base x.reserve)
            (put_image x (suc n) (sub_size base x.reserve) t)
            (put_image-settled x (suc n) (sub_size base x.reserve) t s))
    ])
  ])
]

then_flag :
    (freed : List Ptr) (r : Result Tls)
    → OnOk (Frees freed) r
    → OnOk
        (Frees freed)
        (Outcome.◌>>=◌ {A = Tls} r (λ u. Result.ok (record u { did_ctype_init = false })))
then_flag freed (Result.ok u) h = h
then_flag freed (Result.throw e) h = tt
then_flag freed (Result.fault f) h = tt

-- the object before the images are put back has nothing left to free
emptied-settled : (t : Tls) → AllSettled (wiped (clear_slots k_num_slots 0 t))
emptied-settled t j l =
    clear_slots-settles k_num_slots 0 (suc (suc j)) t (omega arith) (omega arith)

reset-Frees :
    (images : List Image) (t : Tls)
    → OnOk (Frees (clear_slots k_num_slots 0 t).freed) (reset images t)
unfolding reset
reset-Frees images t =
    then_flag (clear_slots k_num_slots 0 t).freed
      (fill_images images 0 t.after (wiped (clear_slots k_num_slots 0 t)))
      (fill_images-Frees images 0 t.after (wiped (clear_slots k_num_slots 0 t)) (emptied-settled t))

-- Modules that were loaded dynamically are freed once: a `reset` that succeeds frees what the
-- destructor would have freed, in the same order, and leaves the destructor nothing to free. This
-- holds whatever the images are.
pub reset-frees_once :
    (images : List Image) (t u : Tls)
    → reset images t ≡ Result.ok u
    → (u.freed ≡ (destruct t).freed) × ((destruct u).freed ≡ u.freed)
unfolding destruct
reset-frees_once images t u e =
    let f =
      of_ok (Frees (clear_slots k_num_slots 0 t).freed) (reset images t) u (reset-Frees images t)
        e in
    (
      f.1 ∙ clear_slots-freed k_num_slots 0 t t refl (λ j l. refl),
      ap (λ k. k.freed) (free_slots-settled k_num_slots 0 u (omega arith) f.0),
    )
