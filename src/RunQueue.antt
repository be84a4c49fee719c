-- ===== src/RunQueue.antt =====
-- sched/internal/rq.h, rq_impl.h and rq.cc: the tasks that can run, by their virtual runtime, and
-- the tasks that sleep. The `std::multiset` is its members in order.
pub mod Order
pub mod Pop
use gthread.Outcome
use gthread.Outcome.{
  Result, Exception, domain_error, logic_error, runtime_error, Fault, null_deref, uninitialised,
  assertion, spins,
}
use gthread.Task.{Task, Heap, RunState, running, suspended, stopped, waiting, is_state, has_tls}
use gthread.Effects.{
  World, Node, Rq, Machine, M, Run, ok, throw, fault, switched, bind, ◌>>=◌, ◌>>◌, unwind, guarded,
  pure, raise, modify, gets, assert, when, lift, current_of, current, task_of, load, with_task,
  store, with_node, with_rq, now_cpu, now_wall,
}
use gthread.TimeQueue
use gthread.TimeQueue.{Entry}
use gthread.Common.{
  ℕ, zero, suc, ◌+◌, ◌-◌, ◌*◌, ◌/◌, ◌%◌, ◌^◌, ◌≤◌, ◌<◌, ◌≡◌, refl, sym, ap, ◌∙◌, ◌≢◌, ◌⊎◌, inl, inr,
  Bool, true, false, not, ◌&&◌, ◌||◌, Option, none, some, List, [], ◌∷◌, ◌++◌, arith, ltb, leb,
  ◌==◌, if◌then◌else◌, Ptr, null, Bool-cases, length, All, All-map, count, update, update_self,
  update_ne, eq_of_==, ==-of_ne, ==_self,
}

-- `time_ordered_compare`
abbrev pub before : (Ptr → Task) → Ptr → Ptr → Bool
before s a b =
    if not ((s a).vruntime == (s b).vruntime) then ltb (s a).vruntime (s b).vruntime else ltb a b

-- `_runqueue.emplace(t)`: behind the members that are not greater.
unfoldable pub emplace : (Ptr → Task) → Ptr → List Ptr → List Ptr
emplace s t [] = t ∷ []
emplace s t (x ∷ q) = if before s t x then t ∷ x ∷ q else x ∷ emplace s t q

abbrev pub with_runqueue : World → List Ptr → World
with_runqueue w q = with_rq w (record (w.node.rq) { runqueue = q })

abbrev pub with_sleepqueue : World → List Entry → World
with_sleepqueue w q = with_rq w (record (w.node.rq) { sleepqueue = q })

-- `rq::push`
unfoldable pub push : Ptr → M (Unit {0})
push t = modify (λ w. with_runqueue w (emplace w.heap.tasks t w.node.rq.runqueue))

-- `rq::sleep_push`: it puts the current task to sleep, whatever task it is given.
unfoldable pub sleep_push : Ptr → ℕ → M (Unit {0})
sleep_push t sleep_duration = do
  now ← now_wall
  cur ← current
  c ← load cur
  store cur (record c { run_state = waiting })
  modify (λ w. with_sleepqueue w (TimeQueue.push (now + sleep_duration) cur w.node.rq.sleepqueue))

unfoldable pub is_empty : List Ptr → Bool
is_empty [] = true
is_empty (x ∷ q) = false

-- `_sleepqueue.pop(&next_runnable)`
unfoldable pub pop_sleeper : M (Ptr × ℕ)
unfolding TimeQueue.pop
pop_sleeper = do
  now ← now_wall
  lift (λ w.
      Outcome.◌>>=◌ (TimeQueue.pop now w.node.rq.sleepqueue)
        (λ r. Result.ok ((r.0, r.1), with_sleepqueue w r.2)))

-- What `rq::pop` does when no sleeper came off the queue: it idles if nothing else can run, and
-- then puts `sleeper`, which is null here, on the runqueue.
unfoldable pub idle_for : (ℕ → M (Unit {0})) → Ptr → ℕ → M (Unit {0})
unfolding push is_empty
idle_for idle_thunk sleeper next_runnable = do
  empty ← gets (λ w. is_empty w.node.rq.runqueue)
  when empty
      (do idle_thunk next_runnable; now ← now_wall; assert (leb next_runnable now); push sleeper)

-- What it does when there are sleepers.
unfoldable pub wake : (ℕ → M (Unit {0})) → M (Unit {0})
unfolding pop_sleeper idle_for push
wake idle_thunk = do
  r ← pop_sleeper
  if not (r.0 == null) then push r.0 else idle_for idle_thunk r.0 r.1

-- The first part of `rq::pop`: make sure that a task can run.
unfoldable pub refill : (ℕ → M (Unit {0})) → M (Unit {0})
unfolding wake is_empty TimeQueue.is_empty
refill idle_thunk = do
  no_sleeper ← gets (λ w. TimeQueue.is_empty w.node.rq.sleepqueue)
  empty ← gets (λ w. is_empty w.node.rq.runqueue)
  if not no_sleeper then wake idle_thunk else if empty then raise runtime_error else pure tt

take_from : List Ptr → M Ptr
take_from [] = λ w. fault null_deref
take_from (next_task ∷ q) = do
  modify (λ w. with_runqueue w q)
  t ← load next_task
  least ← gets (λ w. w.node.rq.min_vruntime)
  when (ltb least t.vruntime)
      (modify (λ w. with_rq w (record (w.node.rq) { min_vruntime = t.vruntime })))
  pure next_task

-- The second part: take the first member, and keep the greatest `vruntime` seen.
unfoldable pub take_first : M Ptr
unfolding take_from
take_first w = take_from w.node.rq.runqueue w

-- `rq::pop`
unfoldable pub pop : (ℕ → M (Unit {0})) → M Ptr
pop idle_thunk = do refill idle_thunk; take_first
