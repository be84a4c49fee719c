-- ===== src/Waiter.antt =====
-- concur/internal/waiter.h, waiter_impl.h and waiter.cc: a place at which one task can wait off the
-- runqueue. The word `_waiter` stands in the world, by the address of the waiter.
pub mod Park
pub mod Unpark
pub mod Swap
use gthread.Preempt
use gthread.Preempt.{critical}
use gthread.Node
use gthread.Sched
use gthread.Outcome
use gthread.Outcome.{
  Result, Exception, domain_error, logic_error, runtime_error, Fault, null_deref, uninitialised,
  assertion, spins,
}
use gthread.Task.{Task, Heap, RunState, running, suspended, stopped, waiting, is_state, has_tls}
use gthread.Effects.{
  World, Node, Rq, Machine, M, Run, ok, throw, fault, switched, bind, ◌>>=◌, ◌>>◌, unwind, guarded,
  pure, raise, modify, gets, assert, when, lift, current_of, current, task_of, load, with_task,
  store, with_node, with_rq, now_cpu, now_wall,
}
use gthread.Common.{
  ℕ, zero, suc, ◌+◌, ◌-◌, ◌*◌, ◌/◌, ◌%◌, ◌^◌, ◌≤◌, ◌<◌, ◌≡◌, refl, sym, ap, ◌∙◌, ◌≢◌, ◌⊎◌, inl, inr,
  Bool, true, false, not, ◌&&◌, ◌||◌, Option, none, some, List, [], ◌∷◌, ◌++◌, arith, ltb, leb,
  ◌==◌, if◌then◌else◌, Ptr, null, Bool-cases, length, All, All-map, count, update, update_self,
  update_ne, eq_of_==, ==-of_ne, ==_self,
}

-- `_waiter.load()`
abbrev pub waiting_at : Ptr → World → Ptr
waiting_at a w = w.waiters a

-- `_waiter.store(p)`
abbrev pub set_waiter : Ptr → Ptr → World → World
set_waiter a p w = record w { waiters = update w.waiters a p }

-- `_waiter.compare_exchange_strong(expected, desired)`
abbrev pub exchange : Ptr → Ptr → Ptr → M Bool
exchange a expected desired w =
    if waiting_at a w == expected then ok true (set_waiter a desired w) else ok false w

-- `park_if` once the waiter is its own, with the answer of the check
unfoldable pub park_checked : Ptr → Ptr → Bool → M Bool
park_checked a cur false = modify (set_waiter a null) >> pure false
park_checked a cur true = do
  c ← load cur
  store cur (record c { run_state = waiting })
  Sched.yield
  pure true

-- `waiter::park_if`
unfoldable pub park_if : Ptr → M Bool → M Bool
park_if a check_thunk = do
  cur ← current
  claimed ← exchange a null cur
  if not claimed then pure false else (check_thunk >>= park_checked a cur)

-- `waiter::park`
unfoldable pub park : Ptr → M Bool
park a = park_if a (pure true)

-- The test at the head of `unpark` and `swap`, with the exchange: whether the task that waits at `a`,
-- if it is suspended as waiting, was replaced by `desired`.
unfoldable pub release : Ptr → Ptr → M Bool
release a desired = do
  parked ← gets (waiting_at a)
  if parked == null then pure false else (do
    t ← load parked
    if not (is_state t.run_state waiting) then pure false else exchange a parked desired)

-- the block of `unpark` under its lock
abbrev pub make_ready : Ptr → M (Unit {0})
make_ready parked = do
  t ← load parked
  store parked (record t { run_state = suspended })
  Preempt.node
  Node.schedule parked

-- the end of `unpark`
unfoldable pub resume_parked : Ptr → M Bool
resume_parked parked = do
  t ← load parked
  assert (is_state t.run_state waiting)
  critical (make_ready parked)
  pure true

-- `waiter::unpark`
unfoldable pub unpark : Ptr → M Bool
unpark a = do
  parked ← gets (waiting_at a)
  released ← release a null
  if released then resume_parked parked else pure false

-- the end of `swap`
unfoldable pub trade_places : Ptr → Ptr → M Bool
trade_places parked cur = do
  critical (do
    c ← load cur
    store cur (record c { run_state = waiting })
    Preempt.node
    Node.switch_to parked)
  pure true

-- `waiter::swap`
unfoldable pub swap : Ptr → M Bool
swap a = do
  parked ← gets (waiting_at a)
  cur ← current
  released ← release a cur
  if released then trade_places parked cur else pure false
