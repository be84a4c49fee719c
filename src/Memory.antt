-- ===== src/Memory.antt =====
-- platform/memory_linux.cc with sched/task_attr.h: stacks for tasks. The system calls `mmap` and
-- `mprotect` and the page size are a parameter, `Os`; addresses are 64 bits wide.
pub mod Stack
use gthread.Common.{
  ℕ, ◌+◌, ◌*◌, ◌-◌, ◌%◌, ◌^◌, Bool, true, false, not, if◌then◌else◌, ◌==◌, Ptr, null, Option, none,
  some, ◌&&◌,
}

-- `struct attr`
pub record Attr : Type 0 where
  pub addr : Ptr
  pub size : ℕ
  pub guardsize : ℕ
  pub alloc_tls : Bool

abbrev pub word : ℕ
word = 2 ^ 64

-- `static_cast<size_t>(-1)`, also the address `MAP_FAILED`
abbrev pub max_word : ℕ
max_word = 2 ^ 64 - 1

abbrev pub k_stack_min : ℕ
k_stack_min = 0x2000

-- constexpr attr k_default_attr
abbrev pub k_default_attr : Attr
k_default_attr = record {
  addr = null;
  size = 4 * 1024 * 1024;
  guardsize = max_word;
  alloc_tls = true;
}

-- constexpr attr k_light_attr
abbrev pub k_light_attr : Attr
k_light_attr = record k_default_attr { alloc_tls = false }

-- What the kernel answers: `mmap` to its n-th call for that many bytes, `mprotect` to a range.
pub record Os : Type 0 where
  pub page_size : ℕ
  pub mmap : ℕ → ℕ → Ptr
  pub mprotect_fails : Ptr → ℕ → Bool

-- The return code 0 or -1, and what was written through `stack` and `total_stack_size`.
pub record Allocated : Type 0 where
  pub success : Bool
  pub stack : Option Ptr
  pub total : Option ℕ

-- the guard that a request gets
abbrev pub guard_of : Attr → ℕ
guard_of a = if not (a.guardsize == max_word) then a.guardsize else k_stack_min

abbrev pub total_of : Attr → ℕ
total_of a = (a.size + guard_of a) % word

-- The rest of `allocate_stack`, from the test of the address that `mmap` returned.
unfoldable pub protect : Os → Attr → Ptr → Allocated
protect os a stackaddr =
    if stackaddr == null
    then record { success = false; stack = none; total = some (total_of a) }
    else if not (guard_of a == 0) && os.mprotect_fails stackaddr (guard_of a)
    then record { success = false; stack = none; total = some (total_of a) }
    else record {
      success = true;
      stack = some ((stackaddr + total_of a) % word);
      total = some (total_of a);
    }

-- `calls` counts the calls of `mmap` before this one.
unfoldable pub allocate_stack : Os → ℕ → Attr → Allocated
unfolding protect
allocate_stack os calls a =
    if not (a.addr == null)
    then (if not (a.addr % os.page_size == 0)
        then record { success = false; stack = none; total = none }
        else record { success = true; stack = some a.addr; total = none })
    else protect os a (os.mmap calls (total_of a))

-- `munmap` of a range: what it is called with.
abbrev pub Range : Type 0
Range = Ptr × ℕ

unfoldable pub free_stack : Ptr → ℕ → Range
free_stack base total = (base, total)
