-- ===== src/Sched/Waiting.antt =====
-- The steps of `sched::join`: its block under the lock, its wait and its end.
use gthread.Freelist
use gthread.Preempt
use gthread.Preempt.{critical}
use gthread.Preempt.Critical.{
  flagged, lock_lem, unlock_lem, critical-yield, with_task-IsReady, flag-flagged, flagged-IsReady,
}
use gthread.Node
use gthread.Node.Choice.{IsReady, unlocked}
use gthread.Node.Switch.{back}
use gthread.Sched.{join, join_or_wait, collect, return_task, yield}
use gthread.Outcome.{logic_error}
use gthread.Task.{stopped, waiting, is_state}
use gthread.Effects.{World, Run, ok, throw, bind, unwind, pure, current_of, task_of, with_task}
use gthread.Common.{
  ◌≡◌, refl, ap, ◌∙◌, ◌≢◌, Bool, true, false, Option, none, some, arith, if◌then◌else◌, Ptr, null,
  update_self, update_ne, ==-of_ne,
}

-- the world in which the task `p` was returned
abbrev pub collected : World → Ptr → World
collected w p =
    let r = Freelist.return_task p w.freelist w.heap in record w { freelist = r.0; heap = r.1 }

abbrev pub value_if : Bool → Ptr → Option Ptr
value_if wanted v = if wanted then some v else none

pub collect_lem :
    (w : World) (p : Ptr) (wanted : Bool)
    → p ≢ null
    → (task_of w p).run_state ≡ stopped
    → collect p wanted w ≡ ok (value_if wanted (task_of w p).return_value, null) (collected w p)
unfolding collect return_task
collect_lem w p wanted n s = ground arith

-- The worlds in which `join` has entered its section, has marked the task `p`, and waits.
abbrev pub marked : World → Ptr → World
marked w p = with_task w p (record (task_of w p) { joiner = current_of w })

abbrev pub waiting_in : World → World
waiting_in w =
    with_task w (current_of w) (record (task_of w (current_of w)) { run_state = waiting })

abbrev pub awaiting : World → Ptr → World
awaiting w p = waiting_in (marked (flagged w true) p)

pub join_or_wait-waits :
    (w : World) (p : Ptr)
    → p ≢ null
    → current_of w ≢ null
    → (task_of w p).joiner ≡ null
    → is_state (task_of w p).run_state stopped ≡ false
    → join_or_wait p (current_of w) w ≡ ok true (waiting_in (marked w p))
unfolding join_or_wait
join_or_wait-waits w p n c j s = ground arith

pub join_or_wait-taken :
    (w : World) (p : Ptr)
    → p ≢ null
    → (task_of w p).joiner ≢ null
    → join_or_wait p (current_of w) w ≡ throw logic_error w
unfolding join_or_wait
join_or_wait-taken w p n j = ground arith

pub join_or_wait-done :
    (w : World) (p : Ptr)
    → p ≢ null
    → (task_of w p).joiner ≡ null
    → (task_of w p).run_state ≡ stopped
    → join_or_wait p (current_of w) w ≡ ok false w
unfolding join_or_wait
join_or_wait-done w p n j s = ground arith

-- the current task keeps its flag while another one is marked
pub still_flagged :
    (w : World) (p : Ptr)
    → current_of w ≢ p
    → (task_of (awaiting w p) (current_of w)).no_preempt_flag ≡ true
still_flagged w p n = ground arith

-- the world in which `join` calls `yield`
abbrev pub released : World → Ptr → World
released w p = flagged (awaiting w p) false

pub join-critical :
    (w : World) (p : Ptr)
    → p ≢ null
    → current_of w ≢ null
    → current_of w ≢ p
    → (task_of w (current_of w)).no_preempt_flag ≡ false
    → (task_of w p).joiner ≡ null
    → is_state (task_of w p).run_state stopped ≡ false
    → critical (join_or_wait p (current_of w)) w ≡ ok true (released w p)
join-critical w p n c other f j s = rw (lock_lem w c f) (
    rw
      (join_or_wait-waits (flagged w true) p n c (rw (update_ne w.heap.tasks _ p _ other) j)
        (rw (update_ne w.heap.tasks _ p _ other) s))
      (rw (unlock_lem (awaiting w p) c (still_flagged w p other)) refl))

pub yield_lem :
    (w : World)
    → current_of w ≢ null
    → w.on_node w.tls_now ≡ true
    → (task_of w (current_of w)).no_preempt_flag ≡ false
    → yield w ≡ unwind (Node.yield (flagged w true)) Preempt.unlock
unfolding yield
yield_lem w c e f = rw e (critical-yield w c e f)

pub join_lem :
    (w : World) (p : Ptr) (wanted : Bool)
    → p ≢ null
    → current_of w ≢ null
    → current_of w ≢ p
    → w.on_node w.tls_now ≡ true
    → (task_of w (current_of w)).no_preempt_flag ≡ false
    → (task_of w p).joiner ≡ null
    → is_state (task_of w p).run_state stopped ≡ false
    → join (some p) wanted w
      ≡ bind
          (unwind (Node.yield (flagged (released w p) true)) Preempt.unlock)
          (λ _. collect p wanted)
unfolding join
join_lem w p wanted n c other e f j s = rw (==-of_ne p 0 n) (
    rw (join-critical w p n c other f j s)
      (rw (yield_lem (released w p) c e (flag-flagged (awaiting w p) false)) refl))

-- the world in which the caller of `join` leaves
abbrev pub leaving : World → Ptr → World
leaving w p = flagged (released w p) true

pub leaving-IsReady : (w : World) (p : Ptr) → IsReady w → IsReady (leaving w p)
leaving-IsReady w p r = flagged-IsReady (released w p) true (
    flagged-IsReady (awaiting w p) false (
      with_task-IsReady (marked (flagged w true) p) (current_of w) _ refl
        (with_task-IsReady (flagged w true) p _ refl (flagged-IsReady w true r))))

pub state-leaving :
    (w : World) (p : Ptr) → (task_of (leaving w p) (current_of w)).run_state ≡ waiting
state-leaving w p =
    ap (λ t. t.run_state) (update_self (released w p).heap.tasks (current_of w) _)
    ∙ (ap (λ t. t.run_state) (update_self (awaiting w p).heap.tasks (current_of w) _)
        ∙ ap (λ t. t.run_state)
            (update_self (marked (flagged w true) p).heap.tasks (current_of w) _))

pub joiner-leaving :
    (w : World) (p : Ptr) → current_of w ≢ p → (task_of (leaving w p) p).joiner ≡ current_of w
joiner-leaving w p n =
    ap (λ t. t.joiner)
      (update_ne (released w p).heap.tasks (current_of w) p _ n
        ∙ (update_ne (awaiting w p).heap.tasks (current_of w) p _ n
            ∙ update_ne (marked (flagged w true) p).heap.tasks (current_of w) p _ n))
    ∙ ap (λ t. t.joiner) (update_self (flagged w true).heap.tasks p _)

-- the world in which control is back in the caller of `join`, its section left
abbrev pub resumed : World → World
resumed u = flagged (unlocked (back u (current_of u))) false

pub unlock-resumed :
    (u : World)
    → current_of u ≢ null
    → (task_of u (current_of u)).no_preempt_flag ≡ true
    → Preempt.unlock (unlocked (back u (current_of u))) ≡ ok tt (resumed u)
unlock-resumed u n f =
    unlock_lem (unlocked (back u (current_of u))) n
      (ap (λ t. t.no_preempt_flag) (update_self u.heap.tasks (current_of u) _) ∙ f)

pub task_of-resumed : (u : World) (p : Ptr) → current_of u ≢ p → task_of (resumed u) p ≡ task_of u p
task_of-resumed u p n =
    update_ne (back u (current_of u)).heap.tasks (current_of u) p _ n
    ∙ update_ne u.heap.tasks (current_of u) p _ n

-- what `join` does once `yield` has returned to it
pub join-returns :
    (u : World) (p : Ptr) (wanted : Bool) (m : Run (Unit {0}))
    → m ≡ ok tt (unlocked (back u (current_of u)))
    → current_of u ≢ null
    → p ≢ null
    → current_of u ≢ p
    → (task_of u (current_of u)).no_preempt_flag ≡ true
    → (task_of u p).run_state ≡ stopped
    → bind (unwind m Preempt.unlock) (λ _. collect p wanted)
      ≡ ok (value_if wanted (task_of u p).return_value, null) (collected (resumed u) p)
join-returns u p wanted m e c n other f s =
    ap (λ k. bind (unwind k Preempt.unlock) (λ _. collect p wanted)) e
    ∙ (ap (λ k. bind (bind k (λ _. pure tt)) (λ _. collect p wanted)) (unlock-resumed u c f)
        ∙ (collect_lem (resumed u) p wanted n (ap (λ t. t.run_state) same ∙ s)
            ∙ ap (λ t. ok (value_if wanted t.return_value, null) (collected (resumed u) p)) same))
  where
    same : task_of (resumed u) p ≡ task_of u p
    same = task_of-resumed u p other
