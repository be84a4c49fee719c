-- ===== src/Memory/Stack.antt =====
-- What `allocate_stack` promises (platform/memory.h), and where it breaks that promise.
use gthread.Common.{ℕ, ◌+◌, ◌-◌, ◌<◌, ◌≡◌, true, false, null, some, arith}
use gthread.Memory.{Attr, Os, word, max_word, guard_of, total_of, allocate_stack}

-- When the kernel maps a region that does not reach the end of the address space, and protects its
-- guard, `allocate_stack` succeeds: the stack pointer it hands out is the first address above the
-- region of stack and guard, so that nothing of the sum wrapped.
pub allocate_stack_maps :
    (os : Os) (calls : ℕ) (a : Attr)
    → a.addr ≡ null
    → a.size + guard_of a < word
    → 0 < os.mmap calls (total_of a)
    → os.mmap calls (total_of a) + (a.size + guard_of a) < word
    → os.mprotect_fails (os.mmap calls (total_of a)) (guard_of a) ≡ false
    → allocate_stack os calls a ≡ record {
      success = true;
      stack = some (os.mmap calls (total_of a) + (a.size + guard_of a));
      total = some (a.size + guard_of a);
    }
unfolding allocate_stack
allocate_stack_maps os calls a e f p r g = ground arith

-- The code compares what `mmap` returned with `nullptr`, and `mmap` reports failure by the address
-- `MAP_FAILED`: without a guard every failed mapping is reported as a success, with a stack pointer
-- that has wrapped round to just below the size asked for.
pub allocate_stack_misses_failure :
    (os : Os) (calls : ℕ) (a : Attr)
    → a.addr ≡ null
    → a.guardsize ≡ 0
    → 0 < a.size
    → a.size < word
    → os.mmap calls (total_of a) ≡ max_word
    → allocate_stack os calls a
      ≡ record { success = true; stack = some (a.size - 1); total = some a.size }
unfolding allocate_stack
allocate_stack_misses_failure os calls a e g p q f = ground arith
