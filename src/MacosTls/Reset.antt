-- ===== src/MacosTls/Reset.antt =====
-- `tls::reset` and `tls::~tls`: the slots that the loops go through.
use native.Mathlib.Decide.{ℕ_discrete}
use gthread.MacosTls.{
  Process, slot_at, clear_slot, clear_slots, free_slots, k_num_freed_slots, k_num_copied_slots,
  k_num_slots, reset, destruct, get_thread, k_thread_slot_a, after, with_slots,
}
use gthread.MacosTls.Fresh.{slots_of, with_slots_lem}
use gthread.Common.{
  ℕ, zero, suc, ◌+◌, ◌≤◌, ◌<◌, ◌≡◌, refl, sym, ap, ◌∙◌, ◌≢◌, ◌⊎◌, inl, some, arith, ◌==◌,
  if◌then◌else◌, Ptr, null, count,
}

-- how many of `n` slots from `i` on hold the address `a`
abbrev pub held : ℕ → ℕ → Ptr → (Ptr → ℕ) → Ptr → ℕ
held zero i slots m a = 0
held (suc n) i slots m a = (if m (slot_at slots i) == a then 1 else 0) + held n (suc i) slots m a

held-same :
    (n i : ℕ) (slots a : Ptr) (m m' : Ptr → ℕ)
    → ((j : ℕ) → i ≤ j → m (slot_at slots j) ≡ m' (slot_at slots j))
    → held n i slots m a ≡ held n i slots m' a
held-same zero i slots a m m' e = refl
held-same (suc n) i slots a m m' e = rw (e i (omega arith)) (
    ap (λ k. (if m' (slot_at slots i) == a then 1 else 0) + k)
      (held-same n (suc i) slots a m m' (λ j l. e j (omega arith))))

clear_slot_ne :
    (slots a : Ptr) (i : ℕ) (p : Process)
    → a ≢ slot_at slots i
    → (clear_slot slots i p).memory a ≡ p.memory a
clear_slot_ne slots a i p n = ground arith

clear_slot-null :
    (slots : Ptr) (i : ℕ) (p : Process) → (clear_slot slots i p).memory (slot_at slots i) ≡ 0
clear_slot-null slots i p = ground arith

clear_slot-count :
    (slots a : Ptr) (i : ℕ) (p : Process)
    → a ≢ null
    → count a (clear_slot slots i p).freed
      ≡ count a p.freed + (if p.memory (slot_at slots i) == a then 1 else 0)
clear_slot-count slots a i p n = ground arith

clear_slots_ne :
    (n i : ℕ) (slots a : Ptr) (p : Process)
    → (a < slot_at slots i) ⊎ (slot_at slots (i + n) ≤ a)
    → (clear_slots n i slots p).memory a ≡ p.memory a
unfolding clear_slots
clear_slots_ne zero i slots a p o = refl
clear_slots_ne (suc n) i slots a p o =
    clear_slots_ne n (suc i) slots a (clear_slot slots i p) (ground (arith, o))
    ∙ clear_slot_ne slots a i p (λ e. ground (arith, o))

clear_slots-null :
    (n i j : ℕ) (slots : Ptr) (p : Process)
    → i ≤ j
    → j < i + n
    → (clear_slots n i slots p).memory (slot_at slots j) ≡ 0
unfolding clear_slots
clear_slots-null zero i j slots p b l = absurd (omega arith)
clear_slots-null (suc n) i j slots p b l = elim (ℕ_discrete i j) [
  | yes e ↦
      clear_slots_ne n (suc i) slots (slot_at slots j) (clear_slot slots i p) (inl (omega arith))
      ∙ ap (λ k. (clear_slot slots i p).memory (slot_at slots k)) (sym e)
      ∙ clear_slot-null slots i p
  | no d ↦ clear_slots-null n (suc i) j slots (clear_slot slots i p) (omega arith) (omega arith)
]

clear_slots-count :
    (n i : ℕ) (slots a : Ptr) (p : Process)
    → a ≢ null
    → count a (clear_slots n i slots p).freed ≡ count a p.freed + held n i slots p.memory a
unfolding clear_slots
clear_slots-count zero i slots a p d = omega arith
clear_slots-count (suc n) i slots a p d =
    clear_slots-count n (suc i) slots a (clear_slot slots i p) d
    ∙ omega (
      arith,
      clear_slot-count slots a i p d,
      held-same n (suc i) slots a (clear_slot slots i p).memory p.memory
          (λ j l. clear_slot_ne slots (slot_at slots j) i p (λ e. omega arith)),
    )

clear_slots-size :
    (n i : ℕ) (slots : Ptr) (p : Process)
    → (clear_slots n i slots p).pthread_t_size ≡ p.pthread_t_size
unfolding clear_slots
clear_slots-size zero i slots p = refl
clear_slots-size (suc n) i slots p = clear_slots-size n (suc i) slots (clear_slot slots i p) ∙ same
  where
    same : (clear_slot slots i p).pthread_t_size ≡ p.pthread_t_size
    same = ground arith

clear_slots-settled :
    (n i : ℕ) (slots : Ptr) (p : Process)
    → ((j : ℕ) → i ≤ j → j < i + n → p.memory (slot_at slots j) ≡ 0)
    → (clear_slots n i slots p ≡ p) × (free_slots n i slots p ≡ p)
unfolding clear_slots free_slots
clear_slots-settled zero i slots p z = (refl, refl)
clear_slots-settled (suc n) i slots p z =
    let rest = clear_slots-settled n (suc i) slots p (λ j b l. z j (omega arith) (omega arith)) in
    let first : p.memory (slot_at slots i) ≡ 0 = z i (omega arith) (omega arith) in
    (rw first rest.0, rw first rest.1)

-- the process after `reset`
abbrev pub cleared : Process → Ptr → Process
cleared p t = clear_slots k_num_freed_slots k_num_copied_slots (slots_of p t) p

with_slots-cleared :
    {A : Type 0} (fuel : ℕ) (t : Ptr) (p : Process) (f : Ptr → Process → A)
    → p.pthread_t_size ≢ 0
    → with_slots fuel t (cleared p t) f ≡ some (f (slots_of p t) (cleared p t))
with_slots-cleared fuel t p f n =
    let same = clear_slots-size k_num_freed_slots k_num_copied_slots (slots_of p t) p in
    with_slots_lem fuel t (cleared p t) f (λ e. n (sym same ∙ e))
    ∙ ap (λ k. some (f (after t + k) (cleared p t))) same

-- `reset`, once the size of the header is known: it ends, has freed each address as often as the slots
-- from `k_num_copied_slots` on held it, and leaves these empty and all other words, the first slot and
-- the thread among them, as they were. A second `reset` and the destructor then change nothing: nothing
-- is freed twice.
pub reset-frees_all :
    (fuel : ℕ) (p : Process) (t : Ptr)
    → p.pthread_t_size ≢ 0
    → (v : Process) × (reset fuel t p ≡ some v)
      × ((a : Ptr)
          → a ≢ null
          → count a v.freed
            ≡ count a p.freed + held k_num_freed_slots k_num_copied_slots (slots_of p t) p.memory a)
      × ((j : ℕ)
          → k_num_copied_slots ≤ j
          → j < k_num_slots
          → v.memory (slot_at (slots_of p t) j) ≡ null)
      × ((a : Ptr)
          → (a < slot_at (slots_of p t) k_num_copied_slots)
            ⊎ (slot_at (slots_of p t) k_num_slots ≤ a)
          → v.memory a ≡ p.memory a)
      × (get_thread fuel t v ≡ get_thread fuel t p)
      × (reset fuel t v ≡ some v)
      × (destruct fuel t v ≡ some v)
unfolding reset destruct get_thread
reset-frees_all fuel p t n =
    let z = λ (j : ℕ) (b : k_num_copied_slots ≤ j) (l : j < k_num_copied_slots + k_num_freed_slots).
      clear_slots-null k_num_freed_slots k_num_copied_slots j (slots_of p t) p b l in
    let again =
      clear_slots-settled k_num_freed_slots k_num_copied_slots (slots_of p t) (cleared p t) z in
    (
      cleared p t,
      with_slots_lem fuel t p _ n,
      λ a d. clear_slots-count k_num_freed_slots k_num_copied_slots (slots_of p t) a p d,
      λ j b l. z j b (omega arith),
      λ a o.
          clear_slots_ne k_num_freed_slots k_num_copied_slots (slots_of p t) a p
            (ground (arith, o)),
      with_slots-cleared fuel t p (λ slots q. q.memory (slot_at slots k_thread_slot_a)) n
          ∙ ap some (
              clear_slots_ne k_num_freed_slots k_num_copied_slots (slots_of p t)
                (slot_at (slots_of p t) k_thread_slot_a) p (inl (omega arith)))
          ∙ sym (with_slots_lem fuel t p (λ slots q. q.memory (slot_at slots k_thread_slot_a)) n),
      with_slots-cleared fuel t p _ n ∙ ap some again.0,
      with_slots-cleared fuel t p _ n ∙ ap some again.1,
    )
