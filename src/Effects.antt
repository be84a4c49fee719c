-- ===== src/Effects.antt =====
-- The state of the program on its one kernel thread, and what a call does to it: it returns, throws,
-- faults, or switches to another task and goes on when control comes back.
use gthread.Task.{Task, Heap, Sizes}
use gthread.Memory.{Os}
use gthread.Freelist.{Freelist}
use gthread.Outcome.{Result, Exception, Fault, assertion, null_deref}
use gthread.TimeQueue.{Entry}
use gthread.Common.{ℕ, ◌+◌, Bool, true, false, List, ◌==◌, if◌then◌else◌, Ptr, null, update}

-- What stands outside the program: the memory calls, the sizes, and the n-th readings of the
-- thread's processor clock (nanoseconds) and of the system clock.
pub record Machine : Type 0 where
  pub os : Os
  pub sizes : Sizes
  pub cpu : ℕ → ℕ
  pub wall : ℕ → ℕ

-- `internal::rq` (sched/internal/rq.h)
pub record Rq : Type 0 where
  pub runqueue : List Ptr
  pub sleepqueue : List Entry
  pub min_vruntime : ℕ

-- `sched_node` (sched/sched_node.h), but for the list of free tasks, which it shares
pub record Node : Type 0 where
  pub spin_lock : Bool
  pub running : Bool
  pub deferred : Ptr
  pub rq : Rq
  pub last_tick : ℕ
  pub host : Ptr

-- `tls_now` is the thread-local storage in use, `threads` the thread pointer kept in each, and
-- `on_node` whether its `g_current_sched_node` is set. `waiters` is the word of each
-- `internal::waiter` by its address.
pub record World : Type 0 where
  pub machine : Machine
  pub reads : ℕ
  pub heap : Heap
  pub freelist : Freelist
  pub node : Node
  pub tls_now : Ptr
  pub threads : Ptr → Ptr
  pub on_node : Ptr → Bool
  pub waiters : Ptr → Ptr

-- `switched w k`: control has left for the task that is current in `w`; once it comes back, in a
-- world `w'`, the call goes on as `k w'`.
pub data Run (A : Type 0) : Type 0 where
  ok : A → World → Run A
  throw : Exception → World → Run A
  fault : Fault → Run A
  switched : World → (World → Run A) → Run A

abbrev pub M : Type 0 → Type 0
M A = World → Run A

abbrev pub bind : {A B : Type 0} → Run A → (A → M B) → Run B
bind (ok a w) f = f a w
bind (throw e w) f = throw e w
bind (fault e) f = fault e
bind (switched w k) f = switched w (λ w'. bind (k w') f)

infixl 5 ◌>>=◌ ◌>>◌
abbrev pub ◌>>=◌ : {A B : Type 0} → M A → (A → M B) → M B
◌>>=◌ m f w = bind (m w) f

abbrev pub ◌>>◌ : {B : Type 0} → M (Unit {0}) → M B → M B
m >> k = m >>= λ _. k

-- The destructor of a guard: it runs when the scope returns and when it throws.
abbrev pub unwind : {A : Type 0} → Run A → M (Unit {0}) → Run A
unwind (ok a w) u = bind (u w) (λ _ w'. ok a w')
unwind (throw e w) u = bind (u w) (λ _ w'. throw e w')
unwind (fault e) u = fault e
unwind (switched w k) u = switched w (λ w'. unwind (k w') u)

-- A scope with a guard: its constructor, the body, its destructor.
abbrev pub guarded : {A : Type 0} → M (Unit {0}) → M (Unit {0}) → M A → M A
guarded acquire release body = acquire >> λ w. unwind (body w) release

abbrev pub pure : {A : Type 0} → A → M A
pure a w = ok a w

abbrev pub raise : {A : Type 0} → Exception → M A
raise e w = throw e w

abbrev pub modify : (World → World) → M (Unit {0})
modify f w = ok tt (f w)

abbrev pub gets : {A : Type 0} → (World → A) → M A
gets f w = ok (f w) w

-- `assert`
abbrev pub assert : Bool → M (Unit {0})
assert true w = ok tt w
assert false w = fault assertion

abbrev pub when : Bool → M (Unit {0}) → M (Unit {0})
when true m = m
when false m = pure tt

-- A call whose result and new world are computed at once.
abbrev pub lift : {A : Type 0} → (World → Result (A × World)) → M A
lift f w = elim (f w) [
  | Result.ok r ↦ ok r.0 r.1
  | Result.throw e ↦ throw e w
  | Result.fault e ↦ fault e
]

-- `task::current()`: the thread pointer of the thread-local storage in use (platform/tls.h)
abbrev pub current_of : World → Ptr
current_of w = w.threads w.tls_now

abbrev pub current : M Ptr
current = gets current_of

abbrev pub task_of : World → Ptr → Task
task_of w p = w.heap.tasks p

-- A task is read through a pointer that is not null.
abbrev pub load : Ptr → M Task
load p w = if p == null then fault null_deref else ok (task_of w p) w

abbrev pub with_task : World → Ptr → Task → World
with_task w p t = record w { heap = record (w.heap) { tasks = update (w.heap.tasks) p t } }

abbrev pub store : Ptr → Task → M (Unit {0})
store p t = modify (λ w. with_task w p t)

abbrev pub with_node : World → Node → World
with_node w n = record w { node = n }

abbrev pub with_rq : World → Rq → World
with_rq w q = record w { node = record (w.node) { rq = q } }

-- `vruntime_clock::now()` and `sleepqueue_clock::now()`
abbrev pub now_cpu : M ℕ
now_cpu w = ok (w.machine.cpu w.reads) (record w { reads = w.reads + 1 })

abbrev pub now_wall : M ℕ
now_wall w = ok (w.machine.wall w.reads) (record w { reads = w.reads + 1 })
