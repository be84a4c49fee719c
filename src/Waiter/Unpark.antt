-- ===== src/Waiter/Unpark.antt =====
-- `waiter::unpark`, and the refusal of `unpark` and `swap`.
use gthread.Preempt.{critical}
use gthread.Preempt.Critical.{
  critical_lem, flagged, lock_lem, unlock_lem, node_lem, with_task-IsReady, flag-flagged,
  flagged-IsReady,
}
use gthread.Node.Choice.{IsReady}
use gthread.Node.Schedule.{
  admitted, task_of-admitted, schedule_lem, scheduled, scheduled-IsReady, admitted_tasks_ne,
  occurs-scheduled, state-admitted,
}
use gthread.Waiter.{make_ready, unpark, swap, release, resume_parked, waiting_at, set_waiter}
use gthread.Task.{Task, suspended, waiting, is_state}
use gthread.Effects.{World, ok, bind, pure, current_of, task_of, with_task}
use gthread.Common.{
  update, ◌≡◌, refl, sym, ap, ◌∙◌, ◌≢◌, ◌⊎◌, inl, inr, true, false, ◌∷◌, arith, Ptr, null, count,
  update_self, update_ne, ==-of_ne,
}

-- the task `p` is set to be scheduled again
abbrev resumable : World → Ptr → World
resumable w p = with_task w p (record (task_of w p) { run_state = suspended })

-- the world in which `p` is taken from the waiter, inside of the critical section
abbrev taken : World → Ptr → Ptr → World
taken w a p = resumable (flagged (set_waiter a null w) true) p

-- the world in which `unpark` returns
abbrev pub unparked : World → Ptr → Ptr → World
unparked w a p = flagged (scheduled (taken w a p) p) false

unpark-resumes :
    (w : World) (a p : Ptr)
    → p ≢ null
    → waiting_at a w ≡ p
    → (task_of w p).run_state ≡ waiting
    → unpark a w ≡ resume_parked p (set_waiter a null w)
unfolding unpark release
unpark-resumes w a p n e s = ground arith

make_ready_lem :
    (w : World) (p : Ptr)
    → p ≢ null
    → w.on_node w.tls_now ≡ true
    → w.node.spin_lock ≡ false
    → make_ready p w ≡ ok tt (scheduled (resumable w p) p)
make_ready_lem w p n e f =
    rw (==-of_ne p 0 n) (rw (node_lem (resumable w p) e) (schedule_lem (resumable w p) p f n))

-- the flag of the current task is still set when the other one is scheduled
still_set :
    (w : World) (a p : Ptr)
    → current_of w ≢ p
    → (task_of (scheduled (taken w a p) p) (current_of w)).no_preempt_flag ≡ true
still_set w a p other =
    ap (λ t. t.no_preempt_flag)
      (admitted_tasks_ne (taken w a p) p (current_of w) (λ e. other (sym e))
        ∙ update_ne (flagged w true).heap.tasks p (current_of w) _ (λ e. other (sym e)))
    ∙ flag-flagged w true

resume_parked-critical :
    (w : World) (p : Ptr)
    → p ≢ null
    → (task_of w p).run_state ≡ waiting
    → resume_parked p w ≡ bind (critical (make_ready p) w) (λ _. pure true)
unfolding resume_parked
resume_parked-critical w p n s = rw (==-of_ne p 0 n) (rw s refl)

resume_lem :
    (w : World) (a p : Ptr)
    → p ≢ null
    → current_of w ≢ null
    → current_of w ≢ p
    → w.on_node w.tls_now ≡ true
    → w.node.spin_lock ≡ false
    → (task_of w (current_of w)).no_preempt_flag ≡ false
    → (task_of w p).run_state ≡ waiting
    → resume_parked p (set_waiter a null w) ≡ ok true (unparked w a p)
resume_lem w a p n c other e l f s =
    resume_parked-critical (set_waiter a null w) p n s
    ∙ ap (λ m. bind m (λ _. pure true))
        (critical_lem (make_ready p) (set_waiter a null w) (scheduled (taken w a p) p)
          (unparked w a p) tt (lock_lem (set_waiter a null w) c f)
          (make_ready_lem (flagged (set_waiter a null w) true) p n e l)
          (unlock_lem (scheduled (taken w a p) p) c (still_set w a p other)))

unparked-IsReady :
    (w : World) (a p : Ptr)
    → IsReady w
    → p ≢ null
    → current_of w ≢ p
    → count p w.node.rq.runqueue ≡ 0
    → IsReady (unparked w a p)
unparked-IsReady w a p r n other fresh = flagged-IsReady (scheduled (taken w a p) p) false (
    scheduled-IsReady (taken w a p) p
      (with_task-IsReady (flagged (set_waiter a null w) true) p _ refl (
        flagged-IsReady (set_waiter a null w) true (record {
          is_running = r.is_running;
          free = r.free;
          some_current = r.some_current;
          sorted = r.sorted;
          live = r.live;
          absent = r.absent;
          once = r.once;
        })))
      n (λ e. other (sym e)) fresh)

-- the task taken from the waiter can run
state-unparked :
    (w : World) (a p : Ptr) → current_of w ≢ p → (task_of (unparked w a p) p).run_state ≡ suspended
state-unparked w a p other =
    ap (λ t. t.run_state)
      (update_ne (scheduled (taken w a p) p).heap.tasks (current_of w) p _ other)
    ∙ (state-admitted (taken w a p) p
        ∙ ap (λ t. t.run_state) (update_self (flagged (set_waiter a null w) true).heap.tasks p _))

-- what `unpark` of the task `p` at `a` leaves in the world `u`
pub record Unparks (w : World) (a p : Ptr) (u : World) : Type 0 where
  pub returned : unpark a w ≡ ok true u
  pub ready : IsReady u
  pub same_current : current_of u ≡ current_of w
  pub here : u.on_node u.tls_now ≡ w.on_node w.tls_now
  pub awake : u.node.rq.sleepqueue ≡ w.node.rq.sleepqueue
  pub settled : u.node.deferred ≡ w.node.deferred
  pub waiters : u.waiters ≡ update w.waiters a null
  pub runs : (task_of u p).run_state ≡ suspended
  pub flag : (task_of u p).no_preempt_flag ≡ (task_of w p).no_preempt_flag
  pub joiner : (task_of u p).joiner ≡ (task_of w p).joiner
  pub others : (q : Ptr) → p ≢ q → current_of w ≢ q → task_of u q ≡ task_of w q
  pub caller :
      task_of u (current_of w) ≡ record (task_of w (current_of w)) { no_preempt_flag = false }
  pub queued : (q : Ptr) → count q u.node.rq.runqueue ≡ count q (p ∷ w.node.rq.runqueue)

flag-admitted : (w : World) (t : Task) → (admitted w t).no_preempt_flag ≡ t.no_preempt_flag
flag-admitted w t = ground arith

pub joiner-admitted : (w : World) (t : Task) → (admitted w t).joiner ≡ t.joiner
joiner-admitted w t = ground arith

pub unparked-Unparks :
    (w : World) (a p : Ptr)
    → IsReady w
    → w.on_node w.tls_now ≡ true
    → (task_of w (current_of w)).no_preempt_flag ≡ false
    → waiting_at a w ≡ p
    → p ≢ null
    → (task_of w p).run_state ≡ waiting
    → current_of w ≢ p
    → count p w.node.rq.runqueue ≡ 0
    → Unparks w a p (unparked w a p)
unparked-Unparks w a p r e f h n s other fresh = record {
  returned = unpark-resumes w a p n h s ∙ resume_lem w a p n r.some_current other e r.free f s;
  ready = unparked-IsReady w a p r n other fresh;
  same_current = refl;
  here = refl;
  awake = refl;
  settled = refl;
  waiters = refl;
  runs = state-unparked w a p other;
  flag =
      ap (λ t. t.no_preempt_flag)
        (update_ne (scheduled (taken w a p) p).heap.tasks (current_of w) p _ other
          ∙ task_of-admitted (taken w a p) p)
      ∙ flag-admitted (taken w a p) (task_of (taken w a p) p)
      ∙ ap (λ t. t.no_preempt_flag)
          (update_self (flagged (set_waiter a null w) true).heap.tasks p _)
      ∙ ap (λ t. t.no_preempt_flag) (update_ne w.heap.tasks (current_of w) p _ other);
  joiner =
      ap (λ t. t.joiner)
        (update_ne (scheduled (taken w a p) p).heap.tasks (current_of w) p _ other
          ∙ task_of-admitted (taken w a p) p)
      ∙ joiner-admitted (taken w a p) (task_of (taken w a p) p)
      ∙ ap (λ t. t.joiner) (update_self (flagged (set_waiter a null w) true).heap.tasks p _)
      ∙ ap (λ t. t.joiner) (update_ne w.heap.tasks (current_of w) p _ other);
  others = λ q a' c.
      update_ne (scheduled (taken w a p) p).heap.tasks (current_of w) q _ c
      ∙ admitted_tasks_ne (taken w a p) p q a'
      ∙ update_ne (flagged (set_waiter a null w) true).heap.tasks p q _ a'
      ∙ update_ne w.heap.tasks (current_of w) q _ c;
  caller =
      update_self (scheduled (taken w a p) p).heap.tasks (current_of w) _
      ∙ ap {A = Task} (λ t. record t { no_preempt_flag = false })
          (admitted_tasks_ne (taken w a p) p (current_of w) (λ e. other (sym e))
            ∙ update_ne (flagged (set_waiter a null w) true).heap.tasks p (current_of w) _
                (λ e. other (sym e))
            ∙ update_self w.heap.tasks (current_of w) _);
  queued = λ q. occurs-scheduled (taken w a p) p q;
}

-- `unpark` at a waiter at which a task is held that waits and is on no queue, by another task outside
-- of a critical section in a ready world: it returns true in a ready world in which the waiter is
-- free and the task can run, being on the runqueue besides the others.
pub unpark-IsReady :
    (w : World) (a p : Ptr)
    → IsReady w
    → w.on_node w.tls_now ≡ true
    → (task_of w (current_of w)).no_preempt_flag ≡ false
    → waiting_at a w ≡ p
    → p ≢ null
    → (task_of w p).run_state ≡ waiting
    → current_of w ≢ p
    → count p w.node.rq.runqueue ≡ 0
    → (u : World) × (unpark a w ≡ ok true u)
      × IsReady u
      × (waiting_at a u ≡ null)
      × ((task_of u p).run_state ≡ suspended)
      × ((q : Ptr) → count q u.node.rq.runqueue ≡ count q (p ∷ w.node.rq.runqueue))
unpark-IsReady w a p r e f h n s other fresh =
    let m = unparked-Unparks w a p r e f h n s other fresh in
    (
      unparked w a p,
      m.returned,
      m.ready,
      ap (λ k. k a) m.waiters ∙ update_self w.waiters a null,
      m.runs,
      m.queued,
    )

-- `unpark` and `swap` at a waiter where nobody is held, or a task that does not wait yet, return
-- false and change nothing.
pub unpark-refuses :
    (w : World) (a p : Ptr)
    → waiting_at a w ≡ p
    → (p ≡ null) ⊎ (is_state (task_of w p).run_state waiting ≡ false)
    → (unpark a w ≡ ok false w) × (swap a w ≡ ok false w)
unfolding unpark swap release
unpark-refuses w a p h (inl e) = (ground arith, ground arith)
unpark-refuses w a p h (inr e) = (ground arith, ground arith)
