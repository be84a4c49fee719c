-- ===== src/Node/Block.antt =====
-- `sched_node::yield` of a task that has to wait or has ended: it is not put back on the runqueue.
use gthread.Node.{unlock, yield}
use gthread.Node.Choice.{first-IsReady, first_other, IsReady, locked, unlocked}
use gthread.Node.Reschedule.{reschedule-switches, yield_lem, resume, resume_lem}
use gthread.Node.Next.{charged, IsBlocked, get_next_task-blocked, picked_first}
use gthread.Node.Switch.{
  on_node-left, waiters-left, left, back, current-left, node-left, vruntime-left,
  task_of-left_blocked, task_of-left_ne,
}
use gthread.Node.Schedule.{returned, yield-returns}
use gthread.Node.Return.{returned-tasks, returned-IsReady}
use mathlib.Core.Path.{subst}
use native.Mathlib.Decide.{ℕ_discrete}
use gthread.Effects.{World, Run, ok, switched, unwind, current_of, task_of}
use gthread.Common.{
  true, update_ne, ◌≡◌, refl, sym, ap, ◌∙◌, ◌≢◌, false, List, [], ◌∷◌, arith, Ptr, null, count,
  update_self,
}

-- the world in which control is about to leave the blocked task
abbrev blocked_in : World → Ptr → List Ptr → World
blocked_in w x q = unlocked (picked_first (locked w) (current_of w) x q)

-- How a `yield` of a blocked task ends: control leaves for the first task of the runqueue, in a world
-- ready for the next `yield`. The blocked task is not on the runqueue; it was charged for its time
-- and is otherwise what it was, as are all other tasks. When control comes back to it, the call
-- returns with it running. The return of the task `d` is put off, if there is one.
pub record Blocks (w : World) (x : Ptr) (q : List Ptr) (d : Ptr) : Type 0 where
  pub world : World
  pub rest : World → Run (Unit {0})
  pub leaves : yield w ≡ switched world rest
  pub next : current_of world ≡ x
  pub queue : world.node.rq.runqueue ≡ q
  pub ready : IsReady world
  pub itself : task_of world (current_of w) ≡ charged w (task_of w (current_of w))
  pub others : (p : Ptr) → current_of w ≢ p → task_of world p ≡ task_of w p
  pub off_queue : count (current_of w) world.node.rq.runqueue ≡ 0
  pub deferred : world.node.deferred ≡ d
  pub here : world.on_node world.tls_now ≡ true
  pub awake : world.node.rq.sleepqueue ≡ []
  pub waiters : world.waiters ≡ w.waiters
  pub returns :
      (u : World)
      → current_of u ≡ current_of w
      → u.node.spin_lock ≡ false
      → rest u ≡ ok tt (unlocked (back u (current_of w)))

-- A blocked task leaves, when no return is put off.
settled-Blocks :
    (w : World) (x : Ptr) (q : List Ptr)
    → IsReady w
    → IsBlocked (task_of w (current_of w))
    → w.node.rq.sleepqueue ≡ []
    → w.node.deferred ≡ null
    → w.node.rq.runqueue ≡ x ∷ q
    → Blocks w x q null
settled-Blocks w x q r b asleep d e = record {
  world = left u x;
  rest = resume (current_of w);
  leaves =
      yield_lem w r.is_running r.free
      ∙ ap (λ m. unwind m unlock)
          (reschedule-switches (locked w) (picked_first (locked w) (current_of w) x q) x d
            (get_next_task-blocked (locked w) (current_of w) x q r.some_current b asleep e other.0)
            r.some_current other.0 other.1 other.1);
  next = current-left u x;
  queue = queue;
  ready =
      first-IsReady w (left u x) x q r e (current-left u x)
        (ap (λ m. m.running) (node-left u x) ∙ r.is_running) (ap (λ m. m.spin_lock) (node-left u x))
        queue (λ p. sym (vruntime-left u x p));
  itself =
      task_of-left_blocked u x (rw (update_self w.heap.tasks) b.0) ∙ update_self w.heap.tasks _ _;
  others = λ p n. task_of-left_ne u x p n ∙ update_ne w.heap.tasks _ p _ n;
  here = on_node-left u x;
  awake = ap (λ m. m.rq.sleepqueue) (node-left u x) ∙ asleep;
  waiters = waiters-left u x;
  off_queue = rw queue (ground (arith, ap (count (current_of w)) (sym e) ∙ r.absent));
  deferred = ap (λ m. m.deferred) (node-left u x) ∙ d;
  returns = λ v c f. resume_lem v (current_of w) r.some_current c f;
}
  where
    u : World
    u = blocked_in w x q

    other : (x ≢ null) × (x ≢ current_of w)
    other = first_other w x q r e

    queue : (left u x).node.rq.runqueue ≡ q
    queue = ap (λ m. m.rq.runqueue) (node-left u x)

-- A return that is put off is made before that.
pub returned-Blocks :
    (w : World) (x : Ptr) (q : List Ptr) (d : Ptr)
    → IsReady w
    → w.node.deferred ≢ null
    → Blocks (returned w) x q d
    → Blocks w x q d
returned-Blocks w x q d r n b =
    let e = returned-tasks w in
    record {
      world = b.world;
      rest = b.rest;
      leaves = (yield-returns w r.is_running r.free n).0 ∙ b.leaves;
      next = b.next;
      queue = b.queue;
      ready = b.ready;
      itself = b.itself ∙ ap (λ k. charged w (k (current_of w))) e;
      others = λ p c. b.others p c ∙ ap (λ k. k p) e;
      off_queue = b.off_queue;
      deferred = b.deferred;
      here = b.here;
      awake = b.awake;
      waiters = b.waiters;
      returns = b.returns;
    }

-- `yield` of a blocked task, one that waits or that is stopped and attached, in a ready world in
-- which no task sleeps and some task can run, blocks as described above.
pub yield-Blocks :
    (w : World) (x : Ptr) (q : List Ptr)
    → IsReady w
    → IsBlocked (task_of w (current_of w))
    → w.node.rq.sleepqueue ≡ []
    → w.node.rq.runqueue ≡ x ∷ q
    → Blocks w x q null
yield-Blocks w x q r b asleep e = elim (ℕ_discrete w.node.deferred null) [
  | yes d ↦ settled-Blocks w x q r b asleep d e
  | no n ↦ returned-Blocks w x q null r n (
      settled-Blocks (returned w) x q (returned-IsReady w r)
        (subst (λ k. IsBlocked (k (current_of w))) (sym (returned-tasks w)) b) asleep refl e)
]
