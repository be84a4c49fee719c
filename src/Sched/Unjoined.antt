-- ===== src/Sched/Unjoined.antt =====
-- `sched::exit` (sched/sched.cc) of a task that nobody joins.
use gthread.Preempt
use gthread.Preempt.Critical.{flagged, node_lem, with_task-IsReady}
use gthread.Node
use gthread.Node.Choice.{IsReady, unlocked}
use gthread.Node.Switch.{back}
use gthread.Node.Block.{Blocks, yield-Blocks}
use gthread.Node.Done.{yield-done}
use gthread.Sched.{exit, finish}
use gthread.Sched.Exit.{ended, ended_as, exit_lem}
use gthread.Sched.Waiting.{resumed, unlock-resumed}
use mathlib.Core.Path.{subst}
use gthread.Task.{stopped}
use gthread.Effects.{World, Run, ok, switched, bind, unwind, pure, current_of, task_of}
use gthread.Common.{
  ◌≡◌, refl, sym, ap, ◌∙◌, ◌≢◌, inl, inr, Bool, Bool-cases, if◌then◌else◌, true, false, List, ◌∷◌,
  [], Ptr, null, count, update_self, update_ne, ==-of_ne, ==_self, ◌==◌,
}

finish-unjoined :
    (w : World) (return_value : Ptr)
    → w.on_node w.tls_now ≡ true
    → current_of w ≢ null
    → (task_of w (current_of w)).joiner ≡ null
    → finish (current_of w) return_value w ≡ Node.yield (ended w return_value)
unfolding finish
finish-unjoined w v e n m =
    rw (==-of_ne (current_of w) 0 n)
      (rw (ap (λ j. j == 0) m ∙ ==_self 0) (rw (node_lem (ended w v) e) refl))

-- the task whose return is put off: a detached one, which nobody gives back
abbrev pub put_off : Bool → Ptr → Ptr
put_off detached p = if detached then p else null

-- How `exit` ends for a task that nobody joins: control leaves for `x`, first on the runqueue. The task
-- is stopped, holds its return value and is not on the runqueue, and no other task is touched. If it
-- is detached, its return is put off.
pub record Ends (w : World) (return_value x : Ptr) (q : List Ptr) : Type 0 where
  pub world : World
  pub rest : World → Run (Unit {0})
  pub leaves : exit return_value w ≡ switched world rest
  pub next : current_of world ≡ x
  pub queue : world.node.rq.runqueue ≡ q
  pub ready : IsReady world
  pub is_stopped : (task_of world (current_of w)).run_state ≡ stopped
  pub value : (task_of world (current_of w)).return_value ≡ return_value
  pub flag : (task_of world (current_of w)).no_preempt_flag ≡ true
  pub others : (p : Ptr) → current_of w ≢ p → task_of world p ≡ task_of w p
  pub here : world.on_node world.tls_now ≡ true
  pub awake : world.node.rq.sleepqueue ≡ []
  pub settled : world.node.deferred ≡ put_off (task_of w (current_of w)).detached (current_of w)
  pub waiters : world.waiters ≡ w.waiters
  pub off_queue : count (current_of w) world.node.rq.runqueue ≡ 0
  pub returns :
      (u : World)
      → current_of u ≡ current_of w
      → u.node.spin_lock ≡ false
      → (task_of u (current_of w)).no_preempt_flag ≡ true
      → rest u ≡ ok tt (resumed u)

-- `exit` of a task with an entry function and without a joiner, outside of a critical
-- section, in a ready world in which no task sleeps and some task can run, ends as described above.
pub exit-Ends :
    (w : World) (return_value x : Ptr) (q : List Ptr)
    → IsReady w
    → w.on_node w.tls_now ≡ true
    → (task_of w (current_of w)).entry ≢ null
    → (task_of w (current_of w)).no_preempt_flag ≡ false
    → (task_of w (current_of w)).joiner ≡ null
    → w.node.rq.sleepqueue ≡ []
    → w.node.rq.runqueue ≡ x ∷ q
    → Ends w return_value x q
exit-Ends w v x q r on e f alone asleep first = record {
  world = b.world;
  rest = λ u. unwind (b.rest u) Preempt.unlock;
  leaves =
      exit_lem w v r.some_current e f
      ∙ ap (λ m. unwind m Preempt.unlock)
          (finish-unjoined (flagged w true) v on r.some_current
              (ap (λ t. t.joiner) (update_self w.heap.tasks (current_of w) _) ∙ alone)
            ∙ b.leaves);
  next = b.next;
  queue = b.queue;
  ready = b.ready;
  is_stopped = ap (λ k. k.run_state) b.itself ∙ ap (λ k. k.run_state) t;
  value = ap (λ k. k.return_value) b.itself ∙ ap (λ k. k.return_value) t;
  flag = ap (λ k. k.no_preempt_flag) b.itself ∙ ap (λ k. k.no_preempt_flag) t;
  others = λ p n.
      b.others p n
      ∙ (update_ne (flagged w true).heap.tasks _ p _ n ∙ update_ne w.heap.tasks _ p _ n);
  here = b.here;
  awake = b.awake;
  settled = b.deferred;
  waiters = b.waiters;
  off_queue = b.off_queue;
  returns = λ u c free flag.
      ap (λ m. unwind m Preempt.unlock)
        (b.returns u c free ∙ ap (λ k. ok tt (unlocked (back u k))) (sym c))
      ∙ ap (λ m. bind m (λ _. pure tt)) (unlock-resumed u (rw c r.some_current) (rw c flag));
}
  where
    u : World
    u = ended (flagged w true) v

    t : task_of u (current_of w) ≡ record (task_of w (current_of w)) {
      no_preempt_flag = true;
      return_value = v;
      run_state = stopped;
    }
    t =
        update_self (flagged w true).heap.tasks (current_of w) _
        ∙ ap (ended_as v) (update_self w.heap.tasks (current_of w) _)

    ready : IsReady u
    ready =
        with_task-IsReady (flagged w true) (current_of w) _ refl
          (with_task-IsReady w (current_of w) _ refl r)

    b : Blocks u x q (put_off (task_of w (current_of w)).detached (current_of w))
    b = elim (Bool-cases (task_of w (current_of w)).detached) [
      | inl y ↦
          subst (λ d. Blocks u x q (put_off d (current_of w))) (sym y)
            (yield-done u x q ready (ap (λ k. k.run_state) t) (ap (λ k. k.detached) t ∙ y) asleep
              first)
      | inr y ↦
          subst (λ d. Blocks u x q (put_off d (current_of w))) (sym y)
            (yield-Blocks u x q ready (rw t (refl, rw y refl)) asleep first)
    ]
