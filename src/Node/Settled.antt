-- ===== src/Node/Settled.antt =====
-- How `sched_node::yield` of a running task ends, when no return of a task is put off.
use gthread.RunQueue.{emplace}
use gthread.RunQueue.Order.{IsSorted-same}
use gthread.Node.Choice.{IsReady, Picks, locked, unlocked, choice, alive}
use gthread.Node.Reschedule.{reschedule-stays, resume, reschedule-switches, yield_lem, resume_lem}
use gthread.Node.{unlock, get_next_task, yield}
use gthread.Node.Switch.{
  waiters-left, on_node-left, task_of-left_ne, flag-left, joiner-left, state-left, vruntime-left,
  left, back, current-left, node-left,
}
use gthread.Node.Next.{charged_tasks, picked, get_next_task-running}
use native.Mathlib.Decide.{ℕ_discrete}
use mathlib.Core.Path.{subst}
use gthread.Task.{running, suspended}
use gthread.Effects.{World, Run, ok, switched, unwind, current_of, task_of}
use gthread.Common.{
  update_ne, ◌≡◌, refl, sym, ap, ◌∙◌, ◌≢◌, ◌⊎◌, inl, inr, true, false, List, [], ◌∷◌, arith, Ptr,
  null, update_self,
}

-- How a `yield` that picks another task ends: control leaves with `x` as the current task, the lock
-- is free and the others wait in `q`. The task that yielded is suspended. The next `yield` finds
-- its world ready, and when control comes back the call returns with the task running again.
pub record Switches (w : World) (x : Ptr) (q : List Ptr) : Type 0 where
  pub world : World
  pub rest : World → Run (Unit {0})
  pub leaves : yield w ≡ switched world rest
  pub next : current_of world ≡ x
  pub queue : world.node.rq.runqueue ≡ q
  pub ready : IsReady world
  pub parked : (task_of world (current_of w)).run_state ≡ suspended
  pub flag :
      (task_of world (current_of w)).no_preempt_flag ≡ (task_of w (current_of w)).no_preempt_flag
  pub joiner : (task_of world (current_of w)).joiner ≡ (task_of w (current_of w)).joiner
  pub others : (p : Ptr) → current_of w ≢ p → task_of world p ≡ task_of w p
  pub here : world.on_node world.tls_now ≡ true
  pub awake : world.node.rq.sleepqueue ≡ []
  pub settled : world.node.deferred ≡ null
  pub waiters : world.waiters ≡ w.waiters
  pub returns :
      (u : World)
      → current_of u ≡ current_of w
      → u.node.spin_lock ≡ false
      → rest u ≡ ok tt (unlocked (back u (current_of w)))

-- the world in which control leaves
abbrev departed : World → Ptr → List Ptr → World
departed w x q = left (unlocked (picked (locked w) (current_of w) x q)) x

-- A world in which the picked task is current and the others wait is ready.
arrived-IsReady :
    (w v : World) (x : Ptr) (q : List Ptr)
    → IsReady w
    → Picks w x q
    → x ≢ current_of w
    → current_of v ≡ x
    → v.node.running ≡ true
    → v.node.spin_lock ≡ false
    → v.node.rq.runqueue ≡ q
    → ((p : Ptr) → (charged_tasks w (current_of w) p).vruntime ≡ (task_of v p).vruntime)
    → IsReady v
arrived-IsReady w v x q r p n cur run free queue same = record {
  is_running = run;
  free = free;
  some_current = ground (arith, p.same null, r.live, r.some_current);
  sorted = rw queue (IsSorted-same (charged_tasks w (current_of w)) v.heap.tasks q same p.in_order);
  live = rw queue (ground (arith, p.same null, r.live, r.some_current));
  absent = rw (queue, cur) (ground (arith, p.same x, r.once x));
  once = λ a. rw queue (ground (arith, p.same a, r.once a, r.absent));
}

departed-IsReady :
    (w : World) (x : Ptr) (q : List Ptr)
    → IsReady w
    → Picks w x q
    → x ≢ current_of w
    → IsReady (departed w x q)
departed-IsReady w x q r p n =
    arrived-IsReady w (departed w x q) x q r p n (current-left u x)
      (ap (λ m. m.running) (node-left u x) ∙ r.is_running) (ap (λ m. m.spin_lock) (node-left u x))
      (ap (λ m. m.rq.runqueue) (node-left u x)) (λ a. sym (vruntime-left u x a))
  where
    u : World
    u = unlocked (picked (locked w) (current_of w) x q)

Picks-next :
    (w : World) (x : Ptr) (q : List Ptr)
    → IsReady w
    → Picks w x q
    → (task_of w (current_of w)).run_state ≡ running
    → w.node.rq.sleepqueue ≡ []
    → emplace (charged_tasks w (current_of w)) (current_of w) w.node.rq.runqueue ≡ x ∷ q
    → get_next_task (current_of w) (locked w) ≡ ok x (picked (locked w) (current_of w) x q)
Picks-next w x q r p run asleep e =
    get_next_task-running (locked w) (current_of w) x q r.some_current run asleep e
      (alive w x q r p)

yield-Switches :
    (w : World) (x : Ptr) (q : List Ptr)
    → IsReady w
    → Picks w x q
    → (task_of w (current_of w)).run_state ≡ running
    → w.node.rq.sleepqueue ≡ []
    → w.node.deferred ≡ null
    → emplace (charged_tasks w (current_of w)) (current_of w) w.node.rq.runqueue ≡ x ∷ q
    → x ≢ current_of w
    → Switches w x q
yield-Switches w x q r p run asleep d e n = record {
  world = departed w x q;
  rest = resume (current_of w);
  leaves =
      yield_lem w r.is_running r.free
      ∙ ap (λ m. unwind m unlock)
          (reschedule-switches (locked w) (picked (locked w) (current_of w) x q) x d
            (Picks-next w x q r p run asleep e) r.some_current (alive w x q r p) n n);
  next = current-left u x;
  queue = ap (λ m. m.rq.runqueue) (node-left u x);
  ready = departed-IsReady w x q r p n;
  parked = state-left u x (rw (update_self w.heap.tasks) run);
  flag = flag-left u x ∙ ap (λ t. t.no_preempt_flag) (update_self w.heap.tasks (current_of w) _);
  joiner = joiner-left u x ∙ ap (λ t. t.joiner) (update_self w.heap.tasks (current_of w) _);
  others = λ a c. task_of-left_ne u x a c ∙ update_ne w.heap.tasks (current_of w) a _ c;
  here = on_node-left u x;
  awake = ap (λ m. m.rq.sleepqueue) (node-left u x) ∙ asleep;
  settled = ap (λ m. m.deferred) (node-left u x) ∙ d;
  waiters = waiters-left u x;
  returns = λ v c f. resume_lem v (current_of w) r.some_current c f;
}
  where
    u : World
    u = unlocked (picked (locked w) (current_of w) x q)

-- How a `yield` that picks the current task again ends: it returns, with the same task current and
-- running, charged for its time and with its flag as it was, and the world is ready for the next call.
pub record Stays (w : World) (q : List Ptr) : Type 0 where
  pub world : World
  pub returned : yield w ≡ ok tt world
  pub same_current : current_of world ≡ current_of w
  pub same_queue : world.node.rq.runqueue ≡ q
  pub still_ready : IsReady world
  pub runs : (task_of world (current_of w)).run_state ≡ running
  pub flag :
      (task_of world (current_of w)).no_preempt_flag ≡ (task_of w (current_of w)).no_preempt_flag
  pub joiner : (task_of world (current_of w)).joiner ≡ (task_of w (current_of w)).joiner
  pub rest_same : (p : Ptr) → current_of w ≢ p → task_of world p ≡ task_of w p
  pub here : world.on_node world.tls_now ≡ w.on_node w.tls_now
  pub awake : world.node.rq.sleepqueue ≡ []
  pub settled : world.node.deferred ≡ null
  pub waiters : world.waiters ≡ w.waiters

stays-IsReady :
    (w : World) (q : List Ptr)
    → IsReady w
    → Picks w (current_of w) q
    → IsReady (unlocked (picked (locked w) (current_of w) (current_of w) q))
stays-IsReady w q r p = record {
  is_running = r.is_running;
  free = refl;
  some_current = r.some_current;
  sorted = p.in_order;
  live = ground (arith, p.same null, r.live, r.some_current);
  absent = ground (arith, p.same (current_of w), r.absent);
  once = λ a. ground (arith, p.same a, r.once a, r.absent);
}

yield-Stays :
    (w : World) (q : List Ptr)
    → IsReady w
    → Picks w (current_of w) q
    → (task_of w (current_of w)).run_state ≡ running
    → w.node.rq.sleepqueue ≡ []
    → w.node.deferred ≡ null
    → emplace (charged_tasks w (current_of w)) (current_of w) w.node.rq.runqueue ≡ current_of w ∷ q
    → Stays w q
unfolding unlock
yield-Stays w q r p run asleep d e = record {
  world = unlocked (picked (locked w) (current_of w) (current_of w) q);
  returned =
      yield_lem w r.is_running r.free
      ∙ ap (λ m. unwind m unlock)
          (reschedule-stays (locked w) _ d (Picks-next w (current_of w) q r p run asleep e));
  same_current = refl;
  same_queue = refl;
  still_ready = stays-IsReady w q r p;
  runs = rw (update_self w.heap.tasks) run;
  flag = ap (λ t. t.no_preempt_flag) (update_self w.heap.tasks (current_of w) _);
  joiner = ap (λ t. t.joiner) (update_self w.heap.tasks (current_of w) _);
  rest_same = λ a c. update_ne w.heap.tasks (current_of w) a _ c;
  here = refl;
  awake = asleep;
  settled = d;
  waiters = refl;
}

pub settled-fair :
    (w : World)
    → IsReady w
    → (task_of w (current_of w)).run_state ≡ running
    → w.node.rq.sleepqueue ≡ []
    → w.node.deferred ≡ null
    → (x : Ptr) × (q : List Ptr) × Picks w x q
      × (((x ≡ current_of w) × Stays w q) ⊎ ((x ≢ current_of w) × Switches w x q))
settled-fair w r run asleep d =
    let (x, q, e, p) = choice w r in
    (
      x,
      q,
      p,
      elim (ℕ_discrete x (current_of w)) [
        | yes same ↦ inl (
          same,
          yield-Stays w q r (subst (λ y. Picks w y q) same p) run asleep d
              (e ∙ ap (λ y. y ∷ q) same),
        )
        | no other ↦ inr (other, yield-Switches w x q r p run asleep d e other)
      ],
    )
