-- ===== src/MacosMemory.antt =====
-- platform/memory_macos.cc with arch/bit_twiddle.h: stacks for tasks on macOS. The calls of the Mach
-- kernel are a parameter, `Mach`.
pub mod Mask
pub mod Ports
use gthread.Memory.{Attr, Range, guard_of, total_of, word}
use gthread.Common.{
  ℕ, zero, suc, ◌+◌, ◌-◌, ◌*◌, ◌/◌, ◌%◌, ◌^◌, ◌≤◌, ◌<◌, ◌≡◌, refl, sym, ap, ◌∙◌, ◌≢◌, ◌⊎◌, inl, inr,
  Bool, true, false, not, ◌&&◌, ◌||◌, Option, none, some, List, [], ◌∷◌, ◌++◌, arith, ltb, leb,
  ◌==◌, if◌then◌else◌, Ptr, null, Bool-cases, length, All, All-map, count, update, modulus,
  sub_size, update_self, update_ne, eq_of_==, ==-of_ne, ==_self,
}

-- how many binary digits a number below `2 ^ digits` has
abbrev pub bit_length : ℕ → ℕ → ℕ
bit_length zero b = 0
bit_length (suc digits) b = if b == 0 then 0 else suc (bit_length digits (b / 2))

-- The instruction `lzcntq`: the leading zeroes of 64 binary digits.
abbrev pub lzcntq : ℕ → ℕ
lzcntq b = 64 - bit_length 64 b

-- `right_mask`; a shift of 64 digits goes by its number modulo 64.
unfoldable pub right_mask : ℕ → ℕ
right_mask bits = (2 ^ 64 - 1) / 2 ^ (lzcntq bits % 64)

-- What the kernel answers: to its n-th call of `mach_vm_map` for that many bytes and that mask, and of
-- `mach_vm_allocate`, an address if it succeeds; to `mach_vm_protect` of a range, whether it fails.
pub record Mach : Type 0 where
  pub vm_page_size : ℕ
  pub mach_vm_map : ℕ → ℕ → ℕ → Option Ptr
  pub mach_vm_allocate : ℕ → ℕ → Option Ptr
  pub mach_vm_protect_fails : Ptr → ℕ → Bool

-- the return codes 0, -1 and `EAGAIN`
pub data Code : Type 0 where
  kern_success minus_one eagain : Code

-- The return code, what was written through `stack` and `total_stack_size`, and the range that the
-- kernel has protected.
pub record Mapped : Type 0 where
  pub code : Code
  pub stack : Option Ptr
  pub total : Option ℕ
  pub guard : Option Range

-- `mach_vm_map`, and `mach_vm_allocate` as a fallback
abbrev pub map_stack : Mach → ℕ → ℕ → Option Ptr
map_stack k calls total = elim (k.mach_vm_map calls total (right_mask total)) [
  | some a ↦ some a
  | none ↦ k.mach_vm_allocate calls total
]

-- the range protected by a call whose result is not read
abbrev pub protected : Mach → Attr → Ptr → Option Range
protected k a stackaddr =
    if not (guard_of a == 0) && not (k.mach_vm_protect_fails stackaddr (guard_of a))
    then some (stackaddr, guard_of a)
    else none

-- The end of `allocate_stack`, from what was mapped.
abbrev pub finish : Mach → Attr → Option Ptr → Mapped
finish k a none = record { code = eagain; stack = none; total = some (total_of a); guard = none }
finish k a (some stackaddr) = record {
  code = kern_success;
  stack = some ((stackaddr + total_of a) % word);
  total = some (total_of a);
  guard = protected k a stackaddr;
}

unfoldable pub allocate_stack : Mach → ℕ → Attr → Mapped
unfolding right_mask
allocate_stack k calls a =
    if not (a.addr == null)
    then (if not (a.addr % k.vm_page_size == 0)
        then record { code = minus_one; stack = none; total = none; guard = none }
        else record { code = kern_success; stack = some a.addr; total = none; guard = none })
    else finish k a (map_stack k calls (total_of a))

-- `free_stack`: what `mach_vm_deallocate` is called with, and the code that its answer gives
unfoldable pub free_stack : (Ptr → ℕ → Bool) → Ptr → ℕ → Code × Range
free_stack fails base total = (if fails base total then eagain else kern_success, (base, total))
