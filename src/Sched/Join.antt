-- ===== src/Sched/Join.antt =====
-- `sched::join`: the caller waits until the task has ended, and takes its return value.
use gthread.Sched.Waiting.{
  collected, value_if, collect_lem, join_or_wait-taken, join_or_wait-done, join_lem, leaving,
  released, leaving-IsReady, state-leaving, joiner-leaving, resumed, join-returns,
}
use mathlib.Core.Path.{subst}
use native.Mathlib.Decide.{ℕ_discrete}
use gthread.Preempt
use gthread.Preempt.{critical}
use gthread.Preempt.Critical.{flagged, lock_lem, unlock_lem, flag-flagged}
use gthread.Node.Choice.{IsReady, unlocked}
use gthread.Node.Switch.{back}
use gthread.Node.Block.{Blocks, yield-Blocks}
use gthread.Sched.{join, collect}
use gthread.Outcome.{logic_error}
use gthread.Task.{stopped, waiting, is_state}
use gthread.Effects.{World, Run, ok, throw, switched, bind, unwind, current_of, task_of}
use gthread.Common.{
  arith, ◌≡◌, refl, sym, ap, ◌∙◌, ◌≢◌, Bool, true, false, Option, some, List, [], ◌∷◌, Ptr, null,
  count, update_ne, ==-of_ne,
}

-- How `join` of a task that still runs goes on: control leaves for `x`, first on the runqueue. The
-- caller waits, on no queue, and is the joiner of the task, and the next `yield` finds its world
-- ready. When control comes back to it after the task has ended, `join` returns the task's return
-- value, if that is wanted, and an empty handle.
pub record Awaits (w : World) (p : Ptr) (wanted : Bool) (x : Ptr) (q : List Ptr) : Type 0 where
  pub world : World
  pub rest : World → Run (Option Ptr × Ptr)
  pub leaves : join (some p) wanted w ≡ switched world rest
  pub next : current_of world ≡ x
  pub queue : world.node.rq.runqueue ≡ q
  pub ready : IsReady world
  pub waits : (task_of world (current_of w)).run_state ≡ waiting
  pub off_queue : count (current_of w) world.node.rq.runqueue ≡ 0
  pub joined : (task_of world p).joiner ≡ current_of w
  pub collects :
      (u : World)
      → current_of u ≡ current_of w
      → u.node.spin_lock ≡ false
      → (task_of u (current_of w)).no_preempt_flag ≡ true
      → (task_of u p).run_state ≡ stopped
      → rest u ≡ ok (value_if wanted (task_of u p).return_value, null) (collected (resumed u) p)
  pub flag : (task_of world (current_of w)).no_preempt_flag ≡ true
  pub states : (a : Ptr) → current_of w ≢ a → (task_of world a).run_state ≡ (task_of w a).run_state
  pub flags :
      (a : Ptr)
      → current_of w ≢ a
      → (task_of world a).no_preempt_flag ≡ (task_of w a).no_preempt_flag
  pub joiners : (a : Ptr) → a ≢ p → (task_of world a).joiner ≡ (task_of w a).joiner
  pub here : world.on_node world.tls_now ≡ true
  pub awake : world.node.rq.sleepqueue ≡ []
  pub settled : world.node.deferred ≡ null
  pub waiters : world.waiters ≡ w.waiters

left-state :
    (w : World) (p a : Ptr)
    → current_of w ≢ a
    → (task_of (leaving w p) a).run_state ≡ (task_of w a).run_state
left-state w p a n = ground arith

left-flag :
    (w : World) (p a : Ptr)
    → current_of w ≢ a
    → (task_of (leaving w p) a).no_preempt_flag ≡ (task_of w a).no_preempt_flag
left-flag w p a n = ground arith

left-joiner :
    (w : World) (p a : Ptr) → a ≢ p → (task_of (leaving w p) a).joiner ≡ (task_of w a).joiner
left-joiner w p a n = ground arith

-- `join` of a task that has not ended and that nobody joins, by another task outside of a critical
-- section, in a ready world in which no task sleeps and some task can run, awaits its end as
-- described above.
pub join-Awaits :
    (w : World) (p : Ptr) (wanted : Bool) (x : Ptr) (q : List Ptr)
    → IsReady w
    → p ≢ null
    → current_of w ≢ p
    → w.on_node w.tls_now ≡ true
    → (task_of w (current_of w)).no_preempt_flag ≡ false
    → (task_of w p).joiner ≡ null
    → is_state (task_of w p).run_state stopped ≡ false
    → w.node.rq.sleepqueue ≡ []
    → w.node.rq.runqueue ≡ x ∷ q
    → Awaits w p wanted x q
join-Awaits w p wanted x q r n other e f j s asleep first = record {
  world = b.world;
  rest = λ u. bind (unwind (b.rest u) Preempt.unlock) (λ _. collect p wanted);
  leaves =
      join_lem w p wanted n r.some_current other e f j s
      ∙ ap (λ m. bind (unwind m Preempt.unlock) (λ _. collect p wanted)) b.leaves;
  next = b.next;
  queue = b.queue;
  ready = b.ready;
  waits = ap (λ t. t.run_state) b.itself ∙ state-leaving w p;
  off_queue = b.off_queue;
  joined = ap (λ t. t.joiner) (b.others p other) ∙ joiner-leaving w p other;
  collects = λ u c free flag st.
      join-returns u p wanted (b.rest u)
        (b.returns u c free ∙ ap (λ k. ok tt (unlocked (back u k))) (sym c)) (rw c r.some_current) n
        (rw c other) (rw c flag) st;
  flag = ap (λ t. t.no_preempt_flag) b.itself ∙ flag-flagged (released w p) true;
  states = λ a c. ap (λ t. t.run_state) (b.others a c) ∙ left-state w p a c;
  flags = λ a c. ap (λ t. t.no_preempt_flag) (b.others a c) ∙ left-flag w p a c;
  joiners = λ a m. elim (ℕ_discrete (current_of w) a) [
    | yes h ↦
        subst (λ k. (task_of b.world k).joiner ≡ (task_of w k).joiner) h
          (ap (λ t. t.joiner) b.itself ∙ left-joiner w p (current_of w) other)
    | no c ↦ ap (λ t. t.joiner) (b.others a c) ∙ left-joiner w p a m
  ];
  here = b.here;
  awake = b.awake;
  settled = b.deferred;
  waiters = b.waiters;
}
  where
    b : Blocks (leaving w p) x q null
    b =
        yield-Blocks (leaving w p) x q (leaving-IsReady w p r) (rw (state-leaving w p) (refl, refl))
          asleep first

task_of-left :
    (w : World) (p : Ptr)
    → current_of w ≢ p
    → task_of (flagged (flagged w true) false) p ≡ task_of w p
task_of-left w p n =
    update_ne (flagged w true).heap.tasks (current_of w) p _ n
    ∙ update_ne w.heap.tasks (current_of w) p _ n

taken-join :
    (w : World) (p : Ptr) (wanted : Bool)
    → p ≢ null
    → current_of w ≢ null
    → current_of w ≢ p
    → (task_of w (current_of w)).no_preempt_flag ≡ false
    → (task_of w p).joiner ≢ null
    → join (some p) wanted w ≡ throw logic_error (flagged (flagged w true) false)
unfolding join
taken-join w p wanted n c other f j = rw (==-of_ne p 0 n) (
    rw (lock_lem w c f) (
      rw (join_or_wait-taken (flagged w true) p n (rw (update_ne w.heap.tasks _ p _ other) j))
        (rw (unlock_lem (flagged w true) c (flag-flagged w true)) refl)))

pub ended-join :
    (w : World) (p : Ptr) (wanted : Bool)
    → p ≢ null
    → current_of w ≢ null
    → current_of w ≢ p
    → (task_of w (current_of w)).no_preempt_flag ≡ false
    → (task_of w p).joiner ≡ null
    → (task_of w p).run_state ≡ stopped
    → join (some p) wanted w
      ≡ ok
          (value_if wanted (task_of w p).return_value, null)
          (collected (flagged (flagged w true) false) p)
unfolding join
ended-join w p wanted n c other f j s = rw (==-of_ne p 0 n) (
    rw (lock_lem w c f) (
      rw
        (join_or_wait-done (flagged w true) p n (rw (update_ne w.heap.tasks _ p _ other) j)
          (rw (update_ne w.heap.tasks _ p _ other) s))
        (rw (unlock_lem (flagged w true) c (flag-flagged w true)) (
          collect_lem (flagged (flagged w true) false) p wanted n
            (ap (λ t. t.run_state) (task_of-left w p other) ∙ s)
          ∙ ap
              (λ t.
                ok (value_if wanted t.return_value, null)
                  (collected (flagged (flagged w true) false) p))
              (task_of-left w p other)))))

-- `join` of a task that has ended and that nobody joins, by another task outside of a critical
-- section: it gives the task's return value, if that is wanted, and an empty handle, and the task
-- has become one of the free tasks or was destroyed.
pub join-collects :
    (w : World) (p : Ptr) (wanted : Bool)
    → p ≢ null
    → current_of w ≢ null
    → current_of w ≢ p
    → (task_of w (current_of w)).no_preempt_flag ≡ false
    → (task_of w p).joiner ≡ null
    → (task_of w p).run_state ≡ stopped
    → (u : World) × (join (some p) wanted w
        ≡ ok (value_if wanted (task_of w p).return_value, null) (collected u p))
      × (u.freelist ≡ w.freelist)
      × (task_of u p ≡ task_of w p)
      × ((task_of u (current_of w)).no_preempt_flag ≡ false)
join-collects w p wanted n c other f j s = (
  flagged (flagged w true) false,
  ended-join w p wanted n c other f j s,
  refl,
  task_of-left w p other,
  flag-flagged (flagged w true) false,
)

-- `join` of a task that another one joins already, by another task outside of a critical section,
-- throws a logic error, and the critical section is left.
pub join-refuses :
    (w : World) (p : Ptr) (wanted : Bool)
    → p ≢ null
    → current_of w ≢ null
    → current_of w ≢ p
    → (task_of w (current_of w)).no_preempt_flag ≡ false
    → (task_of w p).joiner ≢ null
    → (u : World) × (join (some p) wanted w ≡ throw logic_error u)
      × ((task_of u (current_of w)).no_preempt_flag ≡ false)
      × (task_of u p ≡ task_of w p)
join-refuses w p wanted n c other f j = (
  flagged (flagged w true) false,
  taken-join w p wanted n c other f j,
  flag-flagged (flagged w true) false,
  task_of-left w p other,
)
