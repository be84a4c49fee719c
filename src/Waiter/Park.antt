-- ===== src/Waiter/Park.antt =====
-- `waiter::park` and `waiter::park_if`, on each branch.
use gthread.Preempt
use gthread.Preempt.{critical}
use gthread.Preempt.Critical.{
  flag-flagged, joiner-flagged, flagged, with_task-IsReady, flagged-IsReady,
}
use gthread.Node
use gthread.Node.Choice.{IsReady, unlocked}
use gthread.Node.Switch.{back}
use gthread.Node.Block.{Blocks, yield-Blocks}
use gthread.Sched
use gthread.Sched.Waiting.{waiting_in, yield_lem, resumed, unlock-resumed}
use gthread.Waiter.{park_if, park, park_checked, waiting_at, set_waiter}
use gthread.Task.{waiting}
use gthread.Effects.{World, M, Run, ok, switched, bind, unwind, pure, current_of, task_of}
use gthread.Common.{
  update_ne, update, ◌≡◌, refl, sym, ap, ◌∙◌, ◌≢◌, inl, inr, Bool, true, false, List, [], ◌∷◌,
  arith, ◌==◌, if◌then◌else◌, Ptr, null, Bool-cases, count, update_self,
}

-- the world in which the task that parks calls `yield`
abbrev parked_at : Ptr → World → World
parked_at a w = waiting_in (set_waiter a (current_of w) w)

-- the world in which it leaves
abbrev leaving : Ptr → World → World
leaving a w = flagged (parked_at a w) true

park-yields :
    (w : World) (a : Ptr)
    → current_of w ≢ null
    → waiting_at a w ≡ null
    → park a w ≡ bind (Sched.yield (parked_at a w)) (λ _. pure true)
unfolding park park_if park_checked
park-yields w a c e = ground arith

flag-parked :
    (w : World) (a : Ptr)
    → (task_of (parked_at a w) (current_of w)).no_preempt_flag
      ≡ (task_of w (current_of w)).no_preempt_flag
flag-parked w a = ap (λ t. t.no_preempt_flag) (update_self w.heap.tasks (current_of w) _)

park-leaves :
    (w : World) (a : Ptr)
    → current_of w ≢ null
    → w.on_node w.tls_now ≡ true
    → (task_of w (current_of w)).no_preempt_flag ≡ false
    → waiting_at a w ≡ null
    → park a w ≡ bind (unwind (Node.yield (leaving a w)) Preempt.unlock) (λ _. pure true)
park-leaves w a c e f n =
    park-yields w a c n
    ∙ ap (λ m. bind m (λ _. pure true)) (yield_lem (parked_at a w) c e (flag-parked w a ∙ f))

state-leaving : (w : World) (a : Ptr) → (task_of (leaving a w) (current_of w)).run_state ≡ waiting
state-leaving w a =
    ap (λ t. t.run_state) (update_self (parked_at a w).heap.tasks (current_of w) _)
    ∙ ap (λ t. t.run_state) (update_self w.heap.tasks (current_of w) _)

leaving-IsReady : (w : World) (a : Ptr) → IsReady w → IsReady (leaving a w)
leaving-IsReady w a r = flagged-IsReady (parked_at a w) true (
    with_task-IsReady (set_waiter a (current_of w) w) (current_of w) _ refl (record {
      is_running = r.is_running;
      free = r.free;
      some_current = r.some_current;
      sorted = r.sorted;
      live = r.live;
      absent = r.absent;
      once = r.once;
    }))

-- How `park` at a free waiter goes on: control leaves for `x`, first on the runqueue, in a world ready
-- for the next `yield`. The caller waits at the waiter and is on no queue. When control comes back to
-- it, `park` returns true.
pub record Parks (w : World) (a x : Ptr) (q : List Ptr) : Type 0 where
  pub world : World
  pub rest : World → Run Bool
  pub leaves : park a w ≡ switched world rest
  pub next : current_of world ≡ x
  pub queue : world.node.rq.runqueue ≡ q
  pub ready : IsReady world
  pub waits : (task_of world (current_of w)).run_state ≡ waiting
  pub waiter : waiting_at a world ≡ current_of w
  pub off_queue : count (current_of w) world.node.rq.runqueue ≡ 0
  pub flag : (task_of world (current_of w)).no_preempt_flag ≡ true
  pub joiner : (task_of world (current_of w)).joiner ≡ (task_of w (current_of w)).joiner
  pub others : (p : Ptr) → current_of w ≢ p → task_of world p ≡ task_of w p
  pub here : world.on_node world.tls_now ≡ true
  pub awake : world.node.rq.sleepqueue ≡ []
  pub settled : world.node.deferred ≡ null
  pub waiters : world.waiters ≡ update w.waiters a (current_of w)
  pub returns :
      (u : World)
      → current_of u ≡ current_of w
      → u.node.spin_lock ≡ false
      → (task_of u (current_of w)).no_preempt_flag ≡ true
      → rest u ≡ ok true (resumed u)

-- `park` at a waiter that nobody holds, by a task outside of a critical section, in a ready world in
-- which no task sleeps and some task can run, parks the task as described above.
pub park-Parks :
    (w : World) (a x : Ptr) (q : List Ptr)
    → IsReady w
    → w.on_node w.tls_now ≡ true
    → (task_of w (current_of w)).no_preempt_flag ≡ false
    → waiting_at a w ≡ null
    → w.node.rq.sleepqueue ≡ []
    → w.node.rq.runqueue ≡ x ∷ q
    → Parks w a x q
park-Parks w a x q r e f n asleep first = record {
  world = b.world;
  rest = λ u. bind (unwind (b.rest u) Preempt.unlock) (λ _. pure true);
  leaves =
      park-leaves w a r.some_current e f n
      ∙ ap (λ m. bind (unwind m Preempt.unlock) (λ _. pure true)) b.leaves;
  next = b.next;
  queue = b.queue;
  ready = b.ready;
  waits = ap (λ t. t.run_state) b.itself ∙ state-leaving w a;
  waiter = ap (λ k. k a) b.waiters ∙ update_self w.waiters a (current_of w);
  off_queue = b.off_queue;
  flag = ap (λ t. t.no_preempt_flag) b.itself ∙ flag-flagged (parked_at a w) true;
  joiner =
      ap (λ t. t.joiner) b.itself
      ∙ joiner-flagged (parked_at a w) true
      ∙ ap (λ t. t.joiner) (update_self w.heap.tasks (current_of w) _);
  others = λ p c.
      b.others p c
      ∙ update_ne (parked_at a w).heap.tasks (current_of w) p _ c
      ∙ update_ne w.heap.tasks (current_of w) p _ c;
  here = b.here;
  awake = b.awake;
  settled = b.deferred;
  waiters = b.waiters;
  returns = λ u c free flag.
      ap (λ m. bind (unwind m Preempt.unlock) (λ _. pure true))
        (b.returns u c free ∙ ap (λ k. ok tt (unlocked (back u k))) (sym c))
      ∙ ap (λ m. bind (bind m (λ _. pure tt)) (λ _. pure true))
          (unlock-resumed u (rw c r.some_current) (rw c flag));
}
  where
    b : Blocks (leaving a w) x q null
    b =
        yield-Blocks (leaving a w) x q (leaving-IsReady w a r) (rw (state-leaving w a) (refl, refl))
          asleep first

-- `park_if` with a check that says no: it returns false, and a waiter that was free is free again; at
-- a waiter that is held already, nothing is checked and nothing changes.
pub park_if-refuses :
    (w u : World) (a : Ptr) (check_thunk : M Bool)
    → check_thunk (set_waiter a (current_of w) w) ≡ ok false u
    → park_if a check_thunk w ≡ ok false (if waiting_at a w == null then set_waiter a null u else w)
unfolding park_if park_checked
park_if-refuses w u a check_thunk s = elim (Bool-cases (waiting_at a w == null)) [
  | inl e ↦ rw e (rw s refl)
  | inr e ↦ rw e refl
]
