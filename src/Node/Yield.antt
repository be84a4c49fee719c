-- ===== src/Node/Yield.antt =====
-- `sched_node::yield` is fair: it runs the task with the least virtual runtime next.
use gthread.RunQueue.Order.{IsSorted}
use gthread.Node.Choice.{IsReady, Picks}
use gthread.Node.Next.{charged}
use gthread.Node.Settled.{Switches, Stays, settled-fair}
use gthread.Node.Schedule.{returned, yield-returns}
use gthread.Node.Return.{returned-tasks, returned-IsReady}
use native.Mathlib.Decide.{ℕ_discrete}
use mathlib.Core.Path.{subst}
use gthread.Task.{running}
use gthread.Effects.{World, current_of, task_of}
use gthread.Common.{◌≤◌, ◌≡◌, refl, ap, ◌∙◌, ◌≢◌, ◌⊎◌, inl, inr, List, [], Ptr, null, update, All}

-- A return that is put off is made before anything else.
returned-Picks : (w : World) (x : Ptr) (q : List Ptr) → Picks (returned w) x q → Picks w x q
returned-Picks w x q p =
    let c = current_of w in
    let e = returned-tasks w in
    record {
      same = p.same;
      fair =
          subst
            (λ k.
              All
                (λ y.
                  (update k c (charged w (k c)) x).vruntime
                  ≤ (update k c (charged w (k c)) y).vruntime)
                q)
            e p.fair;
      in_order = subst (λ k. IsSorted (update k c (charged w (k c))) q) e p.in_order;
    }

returned-Switches :
    (w : World) (x : Ptr) (q : List Ptr)
    → IsReady w
    → w.node.deferred ≢ null
    → Switches (returned w) x q
    → Switches w x q
returned-Switches w x q r n s =
    let e = returned-tasks w in
    record {
      world = s.world;
      rest = s.rest;
      leaves = (yield-returns w r.is_running r.free n).0 ∙ s.leaves;
      next = s.next;
      queue = s.queue;
      ready = s.ready;
      parked = s.parked;
      flag = s.flag ∙ ap (λ k. (k (current_of w)).no_preempt_flag) e;
      joiner = s.joiner ∙ ap (λ k. (k (current_of w)).joiner) e;
      others = λ p c. s.others p c ∙ ap (λ k. k p) e;
      here = s.here;
      awake = s.awake;
      settled = s.settled;
      waiters = s.waiters;
      returns = s.returns;
    }

returned-Stays :
    (w : World) (q : List Ptr)
    → IsReady w
    → w.node.deferred ≢ null
    → Stays (returned w) q
    → Stays w q
returned-Stays w q r n s =
    let e = returned-tasks w in
    record {
      world = s.world;
      returned = (yield-returns w r.is_running r.free n).0 ∙ s.returned;
      same_current = s.same_current;
      same_queue = s.same_queue;
      still_ready = s.still_ready;
      runs = s.runs;
      flag = s.flag ∙ ap (λ k. (k (current_of w)).no_preempt_flag) e;
      joiner = s.joiner ∙ ap (λ k. (k (current_of w)).joiner) e;
      rest_same = λ p c. s.rest_same p c ∙ ap (λ k. k p) e;
      here = s.here;
      awake = s.awake;
      settled = s.settled;
      waiters = s.waiters;
    }

-- `yield` of a running task in a ready world in which no task sleeps. From the runqueue and the current
-- task, charged for its time, it picks a task `x` whose virtual runtime is the least, and loses and
-- doubles none of the others. If that is the current task the call returns with it running; if not,
-- control leaves for `x` with the lock free and the current task suspended, and when it comes back
-- the call returns. In both cases no return of a task is put off any more, and the next `yield` finds
-- its world ready.
pub yield-fair :
    (w : World)
    → IsReady w
    → (task_of w (current_of w)).run_state ≡ running
    → w.node.rq.sleepqueue ≡ []
    → (x : Ptr) × (q : List Ptr) × Picks w x q
      × (((x ≡ current_of w) × Stays w q) ⊎ ((x ≢ current_of w) × Switches w x q))
yield-fair w r run asleep = elim (ℕ_discrete w.node.deferred null) [
  | yes d ↦ settled-fair w r run asleep d
  | no n ↦
      let (x, q, p, c) =
        settled-fair (returned w) (returned-IsReady w r)
          (ap (λ k. (k (current_of w)).run_state) (returned-tasks w) ∙ run) asleep refl in
      (
        x,
        q,
        returned-Picks w x q p,
        elim c [
          | inl (h, s) ↦ inl (h, returned-Stays w q r n s)
          | inr (h, s) ↦ inr (h, returned-Switches w x q r n s)
        ],
      )
]
