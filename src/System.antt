-- ===== src/System.antt =====
-- The parts together: the tasks of a program on one node, each of which calls the scheduler and the
-- waiters at will, while the alarm rings. It composes `sched::yield`, `spawn`, `join`, `detach` and
-- `exit` (sched/sched.cc), the trap of sched/preempt.cc, `waiter::park`, `unpark` and `swap`
-- (concur/internal/waiter.cc) and the start of a task (sched/task.cc).
pub mod Sound
pub mod Arrives
pub mod Departs
pub mod Depart
pub mod Still
pub mod Yield
pub mod Wait
pub mod Park
pub mod Join
pub mod Wake
pub mod Unpark
pub mod Leaves
pub mod End
pub mod Quiet
pub mod Reach
use gthread.Sched
use gthread.Preempt.{trap}
use gthread.Waiter.{park, unpark, swap}
use gthread.Memory.{Attr}
use gthread.Outcome
use gthread.Outcome.{
  Result, Exception, domain_error, logic_error, runtime_error, Fault, null_deref, uninitialised,
  assertion, spins,
}
use gthread.Task.{Task, Heap, RunState, running, suspended, stopped, waiting, is_state, has_tls}
use gthread.Effects.{
  World, Node, Rq, Machine, M, Run, ok, throw, fault, switched, bind, ◌>>=◌, ◌>>◌, unwind, guarded,
  pure, raise, modify, gets, assert, when, lift, current_of, current, task_of, load, with_task,
  store, with_node, with_rq, now_cpu, now_wall,
}
use gthread.Common.{
  ℕ, zero, suc, ◌+◌, ◌-◌, ◌*◌, ◌/◌, ◌%◌, ◌^◌, ◌≤◌, ◌<◌, ◌≡◌, refl, sym, ap, ◌∙◌, ◌≢◌, ◌⊎◌, inl, inr,
  Bool, true, false, not, ◌&&◌, ◌||◌, Option, none, some, List, [], ◌∷◌, ◌++◌, arith, ltb, leb,
  ◌==◌, if◌then◌else◌, Ptr, null, Bool-cases, length, All, All-map, count, update, modulus,
  sub_size, update_self, update_ne, eq_of_==, ==-of_ne, ==_self,
}

-- what a task goes on with when control comes back to it
abbrev pub Frame : Type 0
Frame = World → Run (Option Ptr)

-- The world; of each task that control has left what it goes on with; and the task whose end it waits
-- for, if it was left in `join`.
pub record System : Type 0 where
  pub world : World
  pub frames : Ptr → Option Frame
  pub awaits : Ptr → Ptr

-- What the current task does, or the alarm.
pub data Op : Type 0 where
  yields rings : Op
  parks unparks swaps exits detaches joins : Ptr → Op
  spawns : Attr → Ptr → Ptr → Op

-- A call, with the task that it makes.
unfoldable pub act : Op → M (Option Ptr)
act yields = do Sched.yield; pure none
act rings = do trap; pure none
act (parks a) = do _ ← park a; pure none
act (unparks a) = do _ ← unpark a; pure none
act (swaps a) = do _ ← swap a; pure none
act (exits value) = do Sched.exit value; pure none
act (detaches p) = do _ ← Sched.detach (some p); pure none
act (joins p) = do _ ← Sched.join (some p) false; pure none
act (spawns attr entry arg) = do p ← Sched.spawn attr entry arg; pure (some p)

-- The head of `gthread_task_entry`, up to the call of the function.
unfoldable pub enter_task : Frame
enter_task = do cur ← current; c ← load cur; store cur (record c { run_state = running }); pure none

abbrev pub with_new : {A : Type 0} → Option Ptr → A → (Ptr → A) → Ptr → A
with_new none a f = f
with_new (some p) a f = update f p a

-- control is in the current task of the world, if its call has returned
abbrev pub settled : (Ptr → Option Frame) → (Ptr → Ptr) → Run (Option Ptr) → Option System
settled f n (ok new w) =
    some (record {
      world = w;
      frames = with_new new (some enter_task) f;
      awaits = with_new new null n;
    })
settled f n _ = none

-- Control has come to the current task of `v`, which goes on.
abbrev pub resume : Option Frame → (Ptr → Option Frame) → (Ptr → Ptr) → World → Option System
resume none f n v = none
resume (some k) f n v = settled (update f (current_of v) none) (update n (current_of v) null) (k v)

-- One step: a call of the current task, up to where it returns or where control has come to another
-- task; `t` is the task that it then waits for. `none` is a call that throws or faults.
abbrev pub after_call : System → Ptr → Run (Option Ptr) → Option System
after_call s t (switched v k) =
    let f = update s.frames (current_of s.world) (some k) in
    let n = update s.awaits (current_of s.world) t in resume (f (current_of v)) f n v
after_call s t (ok new w) = settled s.frames s.awaits (ok new w)
after_call s t _ = none

-- the task that a call waits for
abbrev pub target_of : Op → Ptr
target_of (joins p) = p
target_of _ = null

unfoldable pub step : Op → System → Option System
unfolding act
step o s = after_call s (target_of o) (act o s.world)

-- The steps of a run, one after the other.
unfoldable pub run : List Op → System → Option System
unfolding step
run [] s = some s
run (o ∷ os) s = elim (step o s) [ none ↦ none | some u ↦ run os u ]
