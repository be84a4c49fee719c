-- ===== src/Node/Done.antt =====
-- What becomes of a detached task that is done: it is not freed while the program runs on its stack.
use gthread.Node.{unlock, yield}
use gthread.Node.Choice.{first-IsReady, first_other, IsReady, locked, unlocked}
use gthread.Node.Block.{Blocks, returned-Blocks}
use gthread.Node.Return.{returned-tasks, returned-IsReady}
use gthread.Node.Schedule.{returned}
use native.Mathlib.Decide.{ℕ_discrete}
use gthread.Node.Reschedule.{reschedule-switches, yield_lem, resume, resume_lem}
use gthread.Node.Next.{get_next_task-done, picked_after}
use gthread.Node.Switch.{
  on_node-left, waiters-left, task_of-left_blocked, task_of-left_ne, unmapped-left, left,
  current-left, node-left, vruntime-left, freelist-left,
}
use gthread.Task.{stopped}
use gthread.Effects.{World, Run, switched, unwind, current_of, task_of}
use gthread.Common.{
  update_self, update_ne, count, arith, ◌≡◌, refl, sym, ap, ◌∙◌, ◌≢◌, true, List, [], ◌∷◌, Ptr,
  null,
}

-- the world in which control leaves the task that is done
abbrev parted : World → Ptr → List Ptr → World
parted w x q = unlocked (picked_after (locked w) (current_of w) x q)

parted-IsReady :
    (w : World) (x : Ptr) (q : List Ptr)
    → IsReady w
    → w.node.rq.runqueue ≡ x ∷ q
    → IsReady (left (parted w x q) x)
parted-IsReady w x q r e =
    first-IsReady w (left u x) x q r e (current-left u x)
      (ap (λ m. m.running) (node-left u x) ∙ r.is_running) (ap (λ m. m.spin_lock) (node-left u x))
      (ap (λ m. m.rq.runqueue) (node-left u x)) (λ p. sym (vruntime-left u x p))
  where
    u : World
    u = parted w x q

-- Such a task leaves, when no return is put off yet.
done-Blocks :
    (w : World) (x : Ptr) (q : List Ptr)
    → IsReady w
    → (task_of w (current_of w)).run_state ≡ stopped
    → (task_of w (current_of w)).detached ≡ true
    → w.node.rq.sleepqueue ≡ []
    → w.node.deferred ≡ null
    → w.node.rq.runqueue ≡ x ∷ q
    → Blocks w x q (current_of w)
done-Blocks w x q r s d asleep none_deferred e = record {
  world = left u x;
  rest = resume (current_of w);
  leaves =
      yield_lem w r.is_running r.free
      ∙ ap (λ m. unwind m unlock)
          (reschedule-switches (locked w) (picked_after (locked w) (current_of w) x q) x
            none_deferred
            (get_next_task-done (locked w) (current_of w) x q r.some_current s d asleep e next.0)
            r.some_current next.0 next.1 next.1);
  next = current-left u x;
  queue = ap (λ m. m.rq.runqueue) (node-left u x);
  ready = parted-IsReady w x q r e;
  itself =
      task_of-left_blocked u x (rw (update_self w.heap.tasks, s) refl)
      ∙ update_self w.heap.tasks _ _;
  others = λ p n. task_of-left_ne u x p n ∙ update_ne w.heap.tasks _ p _ n;
  here = on_node-left u x;
  awake = ap (λ m. m.rq.sleepqueue) (node-left u x) ∙ asleep;
  waiters = waiters-left u x;
  off_queue =
      ap (λ m. count (current_of w) m.rq.runqueue) (node-left u x)
      ∙ ground (arith, ap (count (current_of w)) (sym e) ∙ r.absent);
  deferred = ap (λ m. m.deferred) (node-left u x);
  returns = λ v c f. resume_lem v (current_of w) r.some_current c f;
}
  where
    u : World
    u = parted w x q

    next : (x ≢ null) × (x ≢ current_of w)
    next = first_other w x q r e

-- `yield` of a task that is stopped and detached, in a ready world in which no task sleeps and some task
-- can run: it leaves as a blocked task does, and its own return is put off.
pub yield-done :
    (w : World) (x : Ptr) (q : List Ptr)
    → IsReady w
    → (task_of w (current_of w)).run_state ≡ stopped
    → (task_of w (current_of w)).detached ≡ true
    → w.node.rq.sleepqueue ≡ []
    → w.node.rq.runqueue ≡ x ∷ q
    → Blocks w x q (current_of w)
yield-done w x q r s d asleep e = elim (ℕ_discrete w.node.deferred null) [
  | yes z ↦ done-Blocks w x q r s d asleep z e
  | no n ↦
      let t = returned-tasks w in
      returned-Blocks w x q (current_of w) r n (
        done-Blocks (returned w) x q (returned-IsReady w r)
          (ap (λ k. (k (current_of w)).run_state) t ∙ s)
          (ap (λ k. (k (current_of w)).detached) t ∙ d) asleep refl e)
]

-- `yield` of a task that is stopped and detached, in a ready world in which no task sleeps and no
-- earlier return is put off yet, with another task first on the runqueue: control leaves for
-- that task in a world ready for the next `yield`, and the return of the stopped task is put off: the free tasks are as they were and no stack was unmapped, its own among them.
pub yield-defers :
    (w : World) (x : Ptr) (q : List Ptr)
    → IsReady w
    → (task_of w (current_of w)).run_state ≡ stopped
    → (task_of w (current_of w)).detached ≡ true
    → w.node.rq.sleepqueue ≡ []
    → w.node.deferred ≡ null
    → w.node.rq.runqueue ≡ x ∷ q
    → (w' : World) × (k : World → Run (Unit {0})) × (yield w ≡ switched w' k)
      × (current_of w' ≡ x)
      × IsReady w'
      × (w'.node.rq.runqueue ≡ q)
      × (w'.node.deferred ≡ current_of w)
      × (w'.freelist ≡ w.freelist)
      × (w'.heap.unmapped ≡ w.heap.unmapped)
yield-defers w x q r s d asleep none_deferred e = (
  left (parted w x q) x,
  resume (current_of w),
  yield_lem w r.is_running r.free
      ∙ ap (λ m. unwind m unlock)
          (reschedule-switches (locked w) (picked_after (locked w) (current_of w) x q) x
            none_deferred
            (get_next_task-done (locked w) (current_of w) x q r.some_current s d asleep e next.0)
            r.some_current next.0 next.1 next.1),
  current-left (parted w x q) x,
  parted-IsReady w x q r e,
  ap (λ m. m.rq.runqueue) (node-left (parted w x q) x),
  ap (λ m. m.deferred) (node-left (parted w x q) x),
  freelist-left (parted w x q) x,
  unmapped-left (parted w x q) x,
)
  where
    next : (x ≢ null) × (x ≢ current_of w)
    next = first_other w x q r e
