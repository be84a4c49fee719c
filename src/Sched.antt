-- ===== src/Sched.antt =====
-- sched/sched.h, sched.cc and sched_impl.h, with `task::start` and `task::stop` (sched/task.cc): the
-- calls that a program makes. The context that the first call sets up is taken as set up.
pub mod Exit
pub mod Waiting
pub mod Join
pub mod Spawn
pub mod Detach
pub mod Unjoined
pub mod Value
pub mod Context
use gthread.Freelist
use gthread.Memory.{Attr}
use gthread.Preempt
use gthread.Preempt.{critical, has_node}
use gthread.Node
use gthread.Outcome
use gthread.Outcome.{
  Result, Exception, domain_error, logic_error, runtime_error, Fault, null_deref, uninitialised,
  assertion, spins,
}
use gthread.Task.{running, suspended, stopped, waiting, is_state}
use gthread.Effects.{M, ◌>>=◌, ◌>>◌, pure, raise, assert, when, lift, current, load, store}
use gthread.Common.{ℕ, Bool, true, false, not, Option, none, some, ◌==◌, if◌then◌else◌, Ptr, null}

-- `sched::yield`: without a node it logs and returns.
unfoldable pub yield : M (Unit {0})
yield = do here ← has_node; if not here then pure tt else critical (Preempt.node >> Node.yield)

-- `sched::sleep_for`, the duration in ticks of the system clock
unfoldable pub sleep_for : ℕ → M (Unit {0})
sleep_for duration = critical (Preempt.node >> Node.yield_for duration)

-- `ctx.freelist->make_task(attr)`
unfoldable pub make_task : Attr → M Ptr
make_task a = lift (λ w.
    Outcome.◌>>=◌ (Freelist.make_task w.machine.os w.machine.sizes a w.freelist w.heap)
      (λ r. Result.ok (r.0, record w { freelist = r.1; heap = r.2 })))

-- `ctx.freelist->return_task(t)`
unfoldable pub return_task : Ptr → M (Unit {0})
unfolding Node.return_task
return_task t = Node.return_task t

-- `task::start`: the new stack is entered and left again at once.
unfoldable pub start : Ptr → M (Unit {0})
start p = do
  t ← load p
  assert (is_state t.run_state stopped)
  cur ← current
  assert (not (p == cur))
  store p (record t { run_state = suspended })

-- `sched::spawn`: the handle is the address of the task.
unfoldable pub spawn : Attr → Ptr → Ptr → M Ptr
spawn a entry arg = if entry == null then raise domain_error else (do
  p ← make_task a
  t ← load p
  store p (record t { entry = entry; arg = arg })
  start p
  critical (Preempt.node >> Node.schedule p)
  pure p)

-- A handle passed by address: `none` for a null pointer, `some null` for a handle without a task.
abbrev pub task_in : Option Ptr → Ptr
task_in none = null
task_in (some t) = t

-- The block of `join` under its lock: whether the caller has to wait.
unfoldable pub join_or_wait : Ptr → Ptr → M Bool
join_or_wait p cur = do
  t ← load p
  when (not (t.joiner == null)) (raise logic_error)
  if not (is_state t.run_state stopped)
      then (do
        store p (record t { joiner = cur })
        c ← load cur
        store cur (record c { run_state = waiting })
        pure true)
      else pure false

-- the rest of `join`: the value returned, and the handle without a task
unfoldable pub collect : Ptr → Bool → M (Option Ptr × Ptr)
collect p wanted = do
  t ← load p
  assert (is_state t.run_state stopped)
  return_task p
  pure (if wanted then some t.return_value else none, null)

-- `sched::join`; `wanted` says that `return_value` is not null.
unfoldable pub join : Option Ptr → Bool → M (Option Ptr × Ptr)
join handle wanted = if task_in handle == null then raise domain_error else (do
  cur ← current
  waits ← critical (join_or_wait (task_in handle) cur)
  when waits yield
  collect (task_in handle) wanted)

-- The block of `detach` under its lock: whether the task still runs.
unfoldable pub detach_running : Ptr → M Bool
detach_running p = do
  t ← load p
  if not (is_state t.run_state stopped)
      then store p (record t { detached = true }) >> pure true
      else pure false

-- `sched::detach`, with the handle that it leaves
unfoldable pub detach : Option Ptr → M Ptr
detach handle = if task_in handle == null then raise domain_error else (do
  still_running ← critical (detach_running (task_in handle))
  when (not still_running) (do
    t ← load (task_in handle)
    assert (is_state t.run_state stopped)
    return_task (task_in handle))
  pure null)

-- the part of `exit` under its lock
unfoldable pub finish : Ptr → Ptr → M (Unit {0})
finish cur return_value = do
  c ← load cur
  store cur (record c { return_value = return_value; run_state = stopped })
  when (not (c.joiner == null)) (Preempt.node >> Node.schedule c.joiner)
  Preempt.node
  Node.yield

-- `sched::exit`
unfoldable pub exit : Ptr → M (Unit {0})
exit return_value = do
  cur ← current
  c ← load cur
  if c.entry == null then raise runtime_error else critical (finish cur return_value)

-- `task::stop` with `task_end_handler`: the handler must not return.
unfoldable pub stop : Ptr → Ptr → M (Unit {0})
stop p return_value = do
  t ← load p
  store p (record t { return_value = return_value })
  t' ← load p
  exit t'.return_value
  raise runtime_error

-- `gthread_task_entry`, from the first time that control comes to the task; `entry` is its function.
unfoldable pub task_entry : (Ptr → Ptr → M Ptr) → M (Unit {0})
task_entry call = do
  cur ← current
  c ← load cur
  store cur (record c { run_state = running })
  return_value ← call c.entry c.arg
  stop cur return_value
