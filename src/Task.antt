-- ===== src/Task.antt =====
-- sched/task.h and sched/task.cc: the task record, the placement of a task on its own stack, and
-- the life of a task between uses. The saved registers `_ctx` are not data here: what a task does
-- when it is resumed is the `Run` of `Effects`.
pub mod Layout
use gthread.Common.{
  ℕ, ◌+◌, ◌-◌, ◌%◌, Bool, true, false, if◌then◌else◌, not, ◌==◌, Ptr, null, Option, none, some,
  update, List, ◌∷◌,
}
use gthread.Outcome.{Result, ok, fault, uninitialised, ◌>>=◌}
use gthread.Memory.{Attr, Os, Range, allocate_stack, free_stack}

-- `run_state_t`
pub data RunState : Type 0 where
  running suspended stopped waiting : RunState

abbrev pub is_state : RunState → RunState → Bool
is_state running running = true
is_state suspended suspended = true
is_state stopped stopped = true
is_state waiting waiting = true
is_state _ _ = false

-- `struct task`. `vruntime` counts microseconds; a function and its argument are addresses.
pub record Task : Type 0 where
  pub tls : Ptr
  pub stack : Ptr
  pub stack_begin : Ptr
  pub total_stack_size : ℕ
  pub run_state : RunState
  pub entry : Ptr
  pub arg : Ptr
  pub return_value : Ptr
  pub joiner : Ptr
  pub detached : Bool
  pub vruntime : ℕ
  pub priority_boost : ℕ
  pub no_preempt_flag : Bool

-- The memory of the tasks by address, how often `mmap` was called, and the ranges unmapped.
pub record Heap : Type 0 where
  pub tasks : Ptr → Task
  pub maps : ℕ
  pub unmapped : List Range

abbrev pub has_tls : Task → Bool
has_tls t = not (t.tls == null)

-- `sizeof(task)`, `tls::prefix_bytes()` and `tls::postfix_bytes()`
pub record Sizes : Type 0 where
  pub task_bytes : ℕ
  pub prefix_bytes : ℕ
  pub postfix_bytes : ℕ

-- `p & ~0xF`
abbrev pub sixteen_byte_align : Ptr → Ptr
sixteen_byte_align p = p - p % 16

-- `task::task()`, the state of `_host_task`
abbrev pub host_task : Task
host_task = record {
  tls = null;
  stack = null;
  stack_begin = null;
  total_stack_size = 0;
  run_state = running;
  entry = null;
  arg = null;
  return_value = null;
  joiner = null;
  detached = false;
  vruntime = 0;
  priority_boost = 0;
  no_preempt_flag = false;
}

-- `task::task(stack, stack_begin, total_stack_size, alloc_tls)`
unfoldable pub construct : Sizes → Ptr → Ptr → ℕ → Bool → Task
construct z stack stack_begin total alloc_tls =
    let tls_begin = stack_begin - z.postfix_bytes in
    record host_task {
      tls = if alloc_tls then tls_begin else null;
      stack = stack;
      stack_begin =
          sixteen_byte_align (if alloc_tls then tls_begin - z.prefix_bytes else stack_begin);
      total_stack_size = total;
      run_state = stopped;
    }

-- `new (task_place) task(...)`: the out-parameters are read whatever `allocate_stack` returned.
unfoldable pub place : Sizes → Attr → Option Ptr → Option ℕ → Heap → Result (Ptr × Heap)
unfolding construct
place z a (some stack) (some total) h =
    let task_place = stack - z.task_bytes in
    ok (
      task_place,
      record h {
        tasks = update h.tasks task_place (construct z stack task_place total a.alloc_tls);
      },
    )
place z a _ _ h = fault uninitialised

-- `task::create`
unfoldable pub create : Os → Sizes → Attr → Heap → Result (Ptr × Heap)
unfolding place
create os z a h =
    let r = allocate_stack os h.maps a in
    place z a r.stack r.total (record h { maps = if a.addr == null then h.maps + 1 else h.maps })

-- `task::destroy`: a wrapped task has no stack of its own, and nothing is unmapped.
unfoldable pub destroy : Ptr → Heap → Heap
unfolding free_stack
destroy p h =
    let t = h.tasks p in
    if not (t.stack == null)
    then record h {
      unmapped = free_stack (t.stack - t.total_stack_size) t.total_stack_size ∷ h.unmapped;
    }
    else h

-- `task::reset`, but for the contents of the thread-local storage
unfoldable pub reset : Task → Task
reset t = record t {
  run_state = stopped;
  entry = null;
  arg = null;
  return_value = null;
  joiner = null;
  detached = false;
  vruntime = 0;
  priority_boost = 0;
  no_preempt_flag = false;
}
