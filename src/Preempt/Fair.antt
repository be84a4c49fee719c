-- ===== src/Preempt/Fair.antt =====
-- The trap of the alarm in a world in which the running task can be preempted.
use gthread.Preempt
use gthread.Preempt.{trap}
use gthread.Preempt.Critical.{
  flagged, trap_lem, unlock_lem, flag-flagged, joiner-flagged, flagged-IsReady,
}
use gthread.Node
use gthread.Node.Choice.{IsReady, Picks, unlocked}
use gthread.Node.Switch.{back}
use gthread.Node.Settled.{Switches, Stays}
use gthread.Node.Yield.{yield-fair}
use gthread.Sched.Waiting.{resumed, unlock-resumed}
use gthread.Task.{Task, running, suspended}
use gthread.Effects.{World, Run, ok, switched, bind, unwind, pure, current_of, task_of}
use gthread.Common.{
  update_ne, ◌≡◌, refl, sym, ap, ◌∙◌, ◌≢◌, ◌⊎◌, inl, inr, true, false, List, [], Ptr, null,
  update_self,
}

-- How the alarm preempts the running task: control leaves for `x`, in a world ready for the next
-- `yield`, with the others in `q` and the task suspended. When control comes back to it, still with
-- its flag set, the trap returns and the task runs outside of a critical section.
pub record Preempts (w : World) (x : Ptr) (q : List Ptr) : Type 0 where
  pub world : World
  pub rest : World → Run (Unit {0})
  pub leaves : trap w ≡ switched world rest
  pub next : current_of world ≡ x
  pub queue : world.node.rq.runqueue ≡ q
  pub ready : IsReady world
  pub parked : (task_of world (current_of w)).run_state ≡ suspended
  pub flag : (task_of world (current_of w)).no_preempt_flag ≡ true
  pub joiner : (task_of world (current_of w)).joiner ≡ (task_of w (current_of w)).joiner
  pub others : (p : Ptr) → current_of w ≢ p → task_of world p ≡ task_of w p
  pub here : world.on_node world.tls_now ≡ true
  pub awake : world.node.rq.sleepqueue ≡ []
  pub settled : world.node.deferred ≡ null
  pub waiters : world.waiters ≡ w.waiters
  pub returns :
      (u : World)
      → current_of u ≡ current_of w
      → u.node.spin_lock ≡ false
      → (task_of u (current_of w)).no_preempt_flag ≡ true
      → rest u ≡ ok tt (resumed u)

-- How the alarm lets the running task go on: the trap returns, in a ready world with the same task
-- current and outside of a critical section.
pub record Spares (w : World) (q : List Ptr) : Type 0 where
  pub world : World
  pub returned : trap w ≡ ok tt world
  pub same_current : current_of world ≡ current_of w
  pub same_queue : world.node.rq.runqueue ≡ q
  pub still_ready : IsReady world
  pub is_free : (task_of world (current_of w)).no_preempt_flag ≡ false
  pub runs : (task_of world (current_of w)).run_state ≡ running
  pub joiner : (task_of world (current_of w)).joiner ≡ (task_of w (current_of w)).joiner
  pub others : (p : Ptr) → current_of w ≢ p → task_of world p ≡ task_of w p
  pub here : world.on_node world.tls_now ≡ w.on_node w.tls_now
  pub awake : world.node.rq.sleepqueue ≡ []
  pub settled : world.node.deferred ≡ null
  pub waiters : world.waiters ≡ w.waiters

pub trap-open :
    (w : World)
    → current_of w ≢ null
    → w.on_node w.tls_now ≡ true
    → (task_of w (current_of w)).no_preempt_flag ≡ false
    → trap w ≡ unwind (Node.yield (flagged w true)) Preempt.unlock
trap-open w n e f = trap_lem w n e ∙ rw f refl

Switches-Preempts :
    (w : World) (x : Ptr) (q : List Ptr)
    → current_of w ≢ null
    → trap w ≡ unwind (Node.yield (flagged w true)) Preempt.unlock
    → Switches (flagged w true) x q
    → Preempts w x q
Switches-Preempts w x q n e s = record {
  world = s.world;
  rest = λ u. unwind (s.rest u) Preempt.unlock;
  leaves = e ∙ ap (λ m. unwind m Preempt.unlock) s.leaves;
  next = s.next;
  queue = s.queue;
  ready = s.ready;
  parked = s.parked;
  flag = s.flag ∙ flag-flagged w true;
  joiner = s.joiner ∙ joiner-flagged w true;
  others = λ p c. s.others p c ∙ update_ne w.heap.tasks (current_of w) p _ c;
  here = s.here;
  awake = s.awake;
  settled = s.settled;
  waiters = s.waiters;
  returns = λ u c free flag.
      ap (λ m. unwind m Preempt.unlock)
        (s.returns u c free ∙ ap (λ k. ok tt (unlocked (back u k))) (sym c))
      ∙ ap (λ m. bind m (λ _. pure tt)) (unlock-resumed u (rw c n) (rw c flag));
}

Stays-Spares :
    (w : World) (q : List Ptr)
    → current_of w ≢ null
    → trap w ≡ unwind (Node.yield (flagged w true)) Preempt.unlock
    → Stays (flagged w true) q
    → Spares w q
Stays-Spares w q n e s = record {
  world = flagged s.world false;
  returned =
      e
      ∙ ap (λ m. unwind m Preempt.unlock) s.returned
      ∙ ap (λ m. bind m (λ _. pure tt))
          (unlock_lem s.world (rw s.same_current n)
            (rw s.same_current (s.flag ∙ flag-flagged w true)));
  same_current = s.same_current;
  same_queue = s.same_queue;
  still_ready = flagged-IsReady s.world false s.still_ready;
  is_free =
      ap (λ k. (task_of (flagged s.world false) k).no_preempt_flag) (sym s.same_current)
      ∙ flag-flagged s.world false;
  runs =
      ap {A = Task} (λ k. k.run_state)
        (ap (λ k. task_of (flagged s.world false) k) (sym s.same_current)
          ∙ update_self s.world.heap.tasks (current_of s.world) _)
      ∙ ap (λ k. (task_of s.world k).run_state) s.same_current
      ∙ s.runs;
  joiner =
      ap (λ k. (task_of (flagged s.world false) k).joiner) (sym s.same_current)
      ∙ joiner-flagged s.world false
      ∙ ap (λ k. (task_of s.world k).joiner) s.same_current
      ∙ s.joiner
      ∙ joiner-flagged w true;
  others = λ p c.
      update_ne s.world.heap.tasks (current_of s.world) p _ (λ k. c (sym s.same_current ∙ k))
      ∙ s.rest_same p c
      ∙ update_ne w.heap.tasks (current_of w) p _ c;
  here = s.here;
  awake = s.awake;
  settled = s.settled;
  waiters = s.waiters;
}

-- The alarm rings while a running task is outside of a critical section, in a ready world in which no
-- task sleeps. From the runqueue and the current task, charged for its time,
-- a task `x` with the least virtual runtime is picked, and none of the others is lost or doubled. If
-- that is the current task it is spared, and if not it is preempted, as described above.
pub trap-fair :
    (w : World)
    → IsReady w
    → w.on_node w.tls_now ≡ true
    → (task_of w (current_of w)).no_preempt_flag ≡ false
    → (task_of w (current_of w)).run_state ≡ running
    → w.node.rq.sleepqueue ≡ []
    → (x : Ptr) × (q : List Ptr) × Picks (flagged w true) x q
      × (((x ≡ current_of w) × Spares w q) ⊎ ((x ≢ current_of w) × Preempts w x q))
trap-fair w r e f run asleep =
    let t = trap-open w r.some_current e f in
    let same = ap {A = Task} (λ k. k.run_state) (update_self w.heap.tasks (current_of w) _) in
    let (x, q, p, k) = yield-fair (flagged w true) (flagged-IsReady w true r) (same ∙ run) asleep in
    (
      x,
      q,
      p,
      elim k [
        | inl (c, s) ↦ inl (c, Stays-Spares w q r.some_current t s)
        | inr (c, s) ↦ inr (c, Switches-Preempts w x q r.some_current t s)
      ],
    )
