-- ===== src/Task/Layout.antt =====
-- Where `task::create` puts the task, its thread-local storage and its stack.
use gthread.Memory.Stack.{allocate_stack_maps}
use gthread.Outcome.{uninitialised, fault, ok}
use gthread.Common.{
  refl, ◌≢◌, update, update_self, update_ne, ℕ, ◌+◌, ◌-◌, ◌≤◌, ◌<◌, ◌%◌, ◌≡◌, true, false, null,
  arith, Ptr,
}
use gthread.Memory.{allocate_stack, Attr, Os, word, guard_of, total_of}
use gthread.Task.{stopped, Heap, create, Task, Sizes, construct}

-- From the top down: the task, the thread-local storage if there is one, and the aligned start of
-- the stack, which lies above the guard.
pub record IsLaidOut (z : Sizes) (a : Attr) (base : Ptr) (p : Ptr) (t : Task) : Type 0 where
  pub below_top : p + z.task_bytes ≡ t.stack
  pub top : t.stack ≡ base + t.total_stack_size
  pub own_tls : a.alloc_tls ≡ true → t.tls + z.postfix_bytes ≡ p
  pub tls_free : a.alloc_tls ≡ true → t.stack_begin + z.prefix_bytes ≤ t.tls
  pub no_tls : a.alloc_tls ≡ false → (t.tls ≡ null) × (t.stack_begin ≤ p)
  pub aligned : t.stack_begin % 16 ≡ 0
  pub above_guard : base + guard_of a < t.stack_begin

-- A region that `mmap` gives to a request whose stack has room for the task, its thread-local
-- storage and the alignment, and that does not reach the end of the address space.
pub record IsMapped (os : Os) (z : Sizes) (a : Attr) (calls : ℕ) : Type 0 where
  pub own : a.addr ≡ null
  pub room : z.task_bytes + z.prefix_bytes + z.postfix_bytes + 16 < a.size
  pub fits : a.size + guard_of a < word
  pub mapped : 0 < os.mmap calls (total_of a)
  pub below_end : os.mmap calls (total_of a) + (a.size + guard_of a) < word
  pub protected : os.mprotect_fails (os.mmap calls (total_of a)) (guard_of a) ≡ false

construct-IsLaidOut :
    (z : Sizes) (a : Attr) (base total : ℕ)
    → total ≡ a.size + guard_of a
    → z.task_bytes + z.prefix_bytes + z.postfix_bytes + 16 < a.size
    → IsLaidOut z a base
        (base + total - z.task_bytes)
        (construct z (base + total) (base + total - z.task_bytes) total a.alloc_tls)
unfolding construct
construct-IsLaidOut z a base total e room = ground arith

-- the task that `create` makes from a mapping
abbrev made : Os → Sizes → Attr → ℕ → Task
made os z a calls =
    let base = os.mmap calls (total_of a) in
    let total = a.size + guard_of a in
    construct z (base + total) (base + total - z.task_bytes) total a.alloc_tls

abbrev made_at : Os → Sizes → Attr → ℕ → Ptr
made_at os z a calls = os.mmap calls (total_of a) + (a.size + guard_of a) - z.task_bytes

create_lem :
    (os : Os) (z : Sizes) (a : Attr) (h : Heap)
    → IsMapped os z a h.maps
    → create os z a h
      ≡ ok (
        made_at os z a h.maps,
        record h {
          tasks = update h.tasks (made_at os z a h.maps) (made os z a h.maps);
          maps = h.maps + 1;
        },
      )
unfolding create
create_lem os z a h m =
    ground (arith, allocate_stack_maps os h.maps a m.own m.fits m.mapped m.below_end m.protected)

-- A request without an address of its own, whose stack is larger than the task, a thread-local
-- storage (the bytes before and after its object) and 16 bytes together, and whose stack and guard
-- fit in a word together; the kernel maps it, not at null and not up to the end of the address space,
-- and protects its guard. Then `create` returns a stopped task of the total size of stack and guard,
-- which stands at the top of its own stack, with its thread-local storage below it if it has one, and
-- an aligned stack start above the guard, and it changes no other task.
pub create-IsLaidOut :
    (os : Os) (z : Sizes) (a : Attr) (h : Heap)
    → IsMapped os z a h.maps
    → (p : Ptr) × (h' : Heap) × (create os z a h ≡ ok (p, h'))
      × IsLaidOut z a (os.mmap h.maps (total_of a)) p (h'.tasks p)
      × ((h'.tasks p).run_state ≡ stopped)
      × ((h'.tasks p).total_stack_size ≡ a.size + guard_of a)
      × ((q : Ptr) → p ≢ q → h'.tasks q ≡ h.tasks q)
unfolding construct
create-IsLaidOut os z a h m = (
  made_at os z a h.maps,
  record h {
    tasks = update h.tasks (made_at os z a h.maps) (made os z a h.maps);
    maps = h.maps + 1;
  },
  create_lem os z a h m,
  rw (update_self h.tasks) (construct-IsLaidOut z a (os.mmap h.maps (total_of a)) _ refl m.room),
  rw (update_self h.tasks) refl,
  rw (update_self h.tasks) refl,
  λ q n. update_ne h.tasks _ q _ n,
)

-- `create` does not look at what `allocate_stack` returned. A task on a stack that the user
-- provides reads a total size that was never written, whether or not the address is accepted.
pub create-user_stack :
    (os : Os) (z : Sizes) (a : Attr) (h : Heap)
    → a.addr ≢ null
    → create os z a h ≡ fault uninitialised
unfolding create allocate_stack
create-user_stack os z a h n = ground arith
