-- ===== src/MacosMemory/Ports.antt =====
-- The stacks of the two ports side by side.
use gthread.Memory
use gthread.MacosMemory
use gthread.Memory.{Attr, Os, Allocated, guard_of, total_of, protect, word, max_word}
use gthread.MacosMemory.{Mach, Mapped, kern_success, minus_one, eagain, map_stack, finish}
use gthread.Common.{
  ℕ, ◌+◌, ◌%◌, ◌≡◌, refl, ◌∙◌, ◌≢◌, inl, inr, true, false, not, ◌&&◌, Option, none, some, ◌==◌,
  if◌then◌else◌, Ptr, null, Bool-cases, eq_of_==, ==-of_ne, arith,
}

-- what `mmap` returns for a region that is mapped somewhere or refused: `MAP_FAILED` if refused
abbrev pub mmap_result : Option Ptr → Ptr
mmap_result none = max_word
mmap_result (some p) = p

-- The two kernels have the same pages, map a region at the same address or both refuse it, never map
-- one at null, and protect the same guards of what they map. `mach_vm_allocate` counts where `mach_vm_map` fails.
pub record Alike (os : Os) (k : Mach) (calls : ℕ) (a : Attr) : Type 0 where
  pub page : os.page_size ≡ k.vm_page_size
  pub mapped : os.mmap calls (total_of a) ≡ mmap_result (map_stack k calls (total_of a))
  pub some_place : os.mmap calls (total_of a) ≢ null
  pub guarded :
      (p : Ptr)
      → map_stack k calls (total_of a) ≡ some p
      → os.mprotect_fails p (guard_of a) ≡ k.mach_vm_protect_fails p (guard_of a)

-- the report of a stack that the Linux port makes of a mapping
abbrev pub mapped_at : Attr → Ptr → Allocated
mapped_at a p = record {
  success = true;
  stack = some ((p + total_of a) % word);
  total = some (total_of a);
}

-- its report of a failure after the call of `mmap`
abbrev pub failed : Attr → Allocated
failed a = record { success = false; stack = none; total = some (total_of a) }

-- the report of a stack that the macOS port makes of a mapping, with the range that is protected
abbrev pub mach_mapped_at : Attr → Ptr → Option (Ptr × ℕ) → Mapped
mach_mapped_at a p guard = record {
  code = kern_success;
  stack = some ((p + total_of a) % word);
  total = some (total_of a);
  guard = guard;
}

-- its report of a mapping that is refused
abbrev pub mach_refused : Attr → Mapped
mach_refused a = record { code = eagain; stack = none; total = some (total_of a); guard = none }

-- The reports `m` of the macOS port and `l` of the Linux port, in each case of the request and of the
-- kernel's answers.
pub data Compares (os : Os) (k : Mach) (calls : ℕ) (a : Attr) (m : Mapped) (l : Allocated)
    : Type 0 where
  unaligned :
      a.addr ≢ null
      → (a.addr % k.vm_page_size == 0) ≡ false
      → m ≡ record { code = minus_one; stack = none; total = none; guard = none }
      → l ≡ record { success = false; stack = none; total = none }
      → Compares os k calls a m l
  own :
      a.addr ≢ null
      → (a.addr % k.vm_page_size == 0) ≡ true
      → m ≡ record { code = kern_success; stack = some a.addr; total = none; guard = none }
      → l ≡ record { success = true; stack = some a.addr; total = none }
      → Compares os k calls a m l
  no_guard :
      (p : Ptr)
      → a.addr ≡ null
      → map_stack k calls (total_of a) ≡ some p
      → (guard_of a == 0) ≡ true
      → m ≡ mach_mapped_at a p none
      → l ≡ mapped_at a p
      → Compares os k calls a m l
  guard_set :
      (p : Ptr)
      → a.addr ≡ null
      → map_stack k calls (total_of a) ≡ some p
      → (guard_of a == 0) ≡ false
      → k.mach_vm_protect_fails p (guard_of a) ≡ false
      → m ≡ mach_mapped_at a p (some (p, guard_of a))
      → l ≡ mapped_at a p
      → Compares os k calls a m l
  guard_refused :
      (p : Ptr)
      → a.addr ≡ null
      → map_stack k calls (total_of a) ≡ some p
      → (guard_of a == 0) ≡ false
      → k.mach_vm_protect_fails p (guard_of a) ≡ true
      → m ≡ mach_mapped_at a p none
      → l ≡ failed a
      → Compares os k calls a m l
  refused :
      a.addr ≡ null
      → map_stack k calls (total_of a) ≡ none
      → m ≡ mach_refused a
      → l ≡ (
          if not (guard_of a == 0) && os.mprotect_fails max_word (guard_of a)
          then failed a
          else mapped_at a max_word)
      → Compares os k calls a m l

module _ (os : Os) (k : Mach) (calls : ℕ) (a : Attr) (e : Alike os k calls a) where
  own-Compares :
      (a.addr == null) ≡ false
      → Compares os k calls a
          (MacosMemory.allocate_stack k calls a)
          (Memory.allocate_stack os calls a)
  unfolding MacosMemory.allocate_stack Memory.allocate_stack
  own-Compares n = elim (Bool-cases (a.addr % k.vm_page_size == 0)) [
    | inl h ↦ Compares.own (λ z. ground arith) h (rw (n, h) refl) (rw (n, e.page, h) refl)
    | inr h ↦ Compares.unaligned (λ z. ground arith) h (rw (n, h) refl) (rw (n, e.page, h) refl)
  ]

  -- the report of the Linux port for what the other kernel mapped
  linux_report :
      (r : Option Ptr)
      → (a.addr == null) ≡ true
      → map_stack k calls (total_of a) ≡ r
      → Memory.allocate_stack os calls a ≡ (
          if not (guard_of a == 0) && os.mprotect_fails (mmap_result r) (guard_of a)
          then failed a
          else mapped_at a (mmap_result r))
  unfolding Memory.allocate_stack protect
  linux_report r n h = rw (n, ==-of_ne _ _ e.some_place, e.mapped, h) refl

  mach_report :
      (r : Option Ptr)
      → (a.addr == null) ≡ true
      → map_stack k calls (total_of a) ≡ r
      → MacosMemory.allocate_stack k calls a ≡ finish k a r
  unfolding MacosMemory.allocate_stack
  mach_report r n h = rw (n, h) refl

  mapped-Compares :
      (r : Option Ptr)
      → (a.addr == null) ≡ true
      → map_stack k calls (total_of a) ≡ r
      → Compares os k calls a
          (MacosMemory.allocate_stack k calls a)
          (Memory.allocate_stack os calls a)
  mapped-Compares none n h =
      Compares.refused (eq_of_== _ _ n) h (mach_report none n h) (linux_report none n h)
  mapped-Compares (some p) n h = elim (Bool-cases (guard_of a == 0)) [
    | inl g ↦
        Compares.no_guard p (eq_of_== _ _ n) h g (mach_report (some p) n h ∙ rw g refl)
          (linux_report (some p) n h ∙ rw g refl)
    | inr g ↦ elim (Bool-cases (k.mach_vm_protect_fails p (guard_of a))) [
      | inl f ↦
          Compares.guard_refused p (eq_of_== _ _ n) h g f
            (mach_report (some p) n h ∙ rw (g, f) refl)
            (linux_report (some p) n h ∙ rw (g, e.guarded p h, f) refl)
      | inr f ↦
          Compares.guard_set p (eq_of_== _ _ n) h g f (mach_report (some p) n h ∙ rw (g, f) refl)
            (linux_report (some p) n h ∙ rw (g, e.guarded p h, f) refl)
    ]
  ]

-- The two ports of `allocate_stack` on kernels with the same pages that map at the same address, which
-- is not null, or both refuse, and that protect the same guards there. They report the same code, stack
-- and total for a stack of the user's, aligned or not, and for a mapping without a guard or with one
-- that is protected. If the guard is refused, macOS reports the stack and success, and Linux -1 and no
-- stack. If the mapping is refused, macOS reports `EAGAIN` and no stack, and Linux -1 if a guard is
-- asked for and refused at `MAP_FAILED`, and otherwise success with the end of a stack at `MAP_FAILED`.
pub allocate_stack-Compares :
    (os : Os) (k : Mach) (calls : ℕ) (a : Attr)
    → Alike os k calls a
    → Compares os k calls a
        (MacosMemory.allocate_stack k calls a)
        (Memory.allocate_stack os calls a)
allocate_stack-Compares os k calls a e = elim (Bool-cases (a.addr == null)) [
  | inl n ↦ mapped-Compares os k calls a e _ n refl
  | inr n ↦ own-Compares os k calls a e n
]
