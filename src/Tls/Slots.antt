-- ===== src/Tls/Slots.antt =====
-- The loops over the slots, by which the destructor and `reset` free the modules that were loaded
-- dynamically.
use mathlib.Core.Path.{subst}
use gthread.Tls.{Tls, Slot, unallocated, free_slot, free_slots, clear_slot, clear_slots}
use gthread.Loader.{k_num_slots}
use gthread.Common.{
  ℕ, zero, suc, ◌+◌, ◌≤◌, ◌<◌, ◌≡◌, refl, sym, ap, ◌∙◌, inl, inr, false, not, ◌&&◌, arith, ◌==◌,
  Bool-cases, update_ne, eq_of_==,
}

-- nothing to free
abbrev pub IsSettled : Slot → Type 0
IsSettled s = (not s.is_static && not (s.v == unallocated.v)) ≡ false

-- nothing to free in any slot that the loops go through
abbrev pub AllSettled : Tls → Type 0
AllSettled t = (j : ℕ) → j < k_num_slots → IsSettled (t.slots (suc (suc j)))

free_slot-slots : (i j : ℕ) (t : Tls) → (free_slot i t).slots j ≡ t.slots j
unfolding free_slot
free_slot-slots i j t = ground arith

free_slot-freed :
    (i : ℕ) (t u : Tls)
    → t.freed ≡ u.freed
    → t.slots (i + 2) ≡ u.slots (i + 2)
    → (free_slot i t).freed ≡ (free_slot i u).freed
unfolding free_slot
free_slot-freed i t u e f = ground arith

free_slot-settled : (i : ℕ) (t : Tls) → IsSettled (t.slots (i + 2)) → free_slot i t ≡ t
unfolding free_slot
free_slot-settled i t e = rw e refl

-- `reset` and the destructor free the same.
pub clear_slots-freed :
    (n i : ℕ) (t u : Tls)
    → t.freed ≡ u.freed
    → ((j : ℕ) → i + 2 ≤ j → t.slots j ≡ u.slots j)
    → (clear_slots n i t).freed ≡ (free_slots n i u).freed
unfolding clear_slots free_slots clear_slot
clear_slots-freed zero i t u e f = e
clear_slots-freed (suc n) i t u e f =
    clear_slots-freed n (suc i) (clear_slot i t) (free_slot i u)
      (free_slot-freed i t u e (f (i + 2) (omega arith)))
      (λ j l.
        update_ne t.slots (i + 2) j unallocated (omega arith)
        ∙ (f j (omega arith) ∙ sym (free_slot-slots i j u)))

-- What is settled is not freed.
pub free_slots-settled :
    (n i : ℕ) (t : Tls) → i + n ≤ k_num_slots → AllSettled t → free_slots n i t ≡ t
unfolding free_slots
free_slots-settled zero i t l s = refl
free_slots-settled (suc n) i t l s =
    ap (free_slots n (suc i))
      (free_slot-settled i t (subst (λ k. IsSettled (t.slots k)) (two_more i) (s i (omega arith))))
    ∙ free_slots-settled n (suc i) t (omega arith) s
  where
    two_more : (k : ℕ) → suc (suc k) ≡ k + 2
    two_more k = omega arith

clear_slot-settles :
    (i j : ℕ) (t : Tls) → IsSettled (t.slots j) → IsSettled ((clear_slot i t).slots j)
unfolding clear_slot
clear_slot-settles i j t s = ground arith

clear_slots-IsSettled :
    (n i j : ℕ) (t : Tls) → IsSettled (t.slots j) → IsSettled ((clear_slots n i t).slots j)
unfolding clear_slots
clear_slots-IsSettled zero i j t s = s
clear_slots-IsSettled (suc n) i j t s =
    clear_slots-IsSettled n (suc i) j (clear_slot i t) (clear_slot-settles i j t s)

cleared : (i j : ℕ) (t : Tls) → j ≡ i + 2 → IsSettled ((clear_slot i t).slots j)
unfolding clear_slot
cleared i j t e = ground arith

-- The loop settles every slot that it goes through.
pub clear_slots-settles :
    (n i j : ℕ) (t : Tls) → i + 2 ≤ j → j < i + 2 + n → IsSettled ((clear_slots n i t).slots j)
unfolding clear_slots
clear_slots-settles zero i j t l h = absurd (omega arith)
clear_slots-settles (suc n) i j t l h = elim (Bool-cases (j == i + 2)) [
  | inl e ↦
      clear_slots-IsSettled n (suc i) j (clear_slot i t) (cleared i j t (eq_of_== j (i + 2) e))
  | inr e ↦ clear_slots-settles n (suc i) j (clear_slot i t) (ground arith) (omega arith)
]

-- what the loop leaves alone
pub record Leaves (t u : Tls) : Type 0 where
  pub base : u.base ≡ t.base
  pub after : u.after ≡ t.after
  pub memory : u.memory ≡ t.memory
  pub first : u.slots 1 ≡ t.slots 1

clear_slot-Leaves : (i : ℕ) (t : Tls) → Leaves t (clear_slot i t)
unfolding clear_slot free_slot
clear_slot-Leaves i t = record {
  base = ground arith;
  after = ground arith;
  memory = ground arith;
  first = ground arith;
}

pub clear_slots-Leaves : (n i : ℕ) (t : Tls) → Leaves t (clear_slots n i t)
unfolding clear_slots
clear_slots-Leaves zero i t = record { base = refl; after = refl; memory = refl; first = refl }
clear_slots-Leaves (suc n) i t =
    let r = clear_slots-Leaves n (suc i) (clear_slot i t) in
    let s = clear_slot-Leaves i t in
    record {
      base = r.base ∙ s.base;
      after = r.after ∙ s.after;
      memory = r.memory ∙ s.memory;
      first = r.first ∙ s.first;
    }
