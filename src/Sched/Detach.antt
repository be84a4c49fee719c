-- ===== src/Sched/Detach.antt =====
-- `sched::detach` (sched/sched.cc), and what it and `join` of an ended task leave alone.
use gthread.Freelist
use gthread.Freelist.{Freelist}
use gthread.Preempt.Critical.{
  flagged, critical_lem, lock_lem, unlock_lem, flag-flagged, flagged-IsReady, with_task-IsReady,
}
use gthread.Node.Choice.{IsReady}
use gthread.Node.Return.{return_task-tasks}
use gthread.Sched
use gthread.Sched.{detach, detach_running}
use gthread.Sched.Waiting.{collected}
use gthread.Task.{RunState, running, suspended, stopped, waiting, is_state}
use gthread.Effects.{World, ok, current_of, task_of, with_task}
use gthread.Common.{
  ◌≡◌, refl, ap, ◌∙◌, ◌≢◌, ◌⊎◌, inl, inr, Bool, true, false, some, arith, Ptr, null, ==-of_ne,
}

-- What a call of the current task leaves alone: the node, the waiters, and of each task its state, its
-- joiner and whether it is in a critical section. The world is still ready.
pub record Quiet (w u : World) : Type 0 where
  pub ready : IsReady u
  pub same_current : current_of u ≡ current_of w
  pub here : u.on_node u.tls_now ≡ w.on_node w.tls_now
  pub node : u.node ≡ w.node
  pub waiters : u.waiters ≡ w.waiters
  pub states : (p : Ptr) → (task_of u p).run_state ≡ (task_of w p).run_state
  pub joiners : (p : Ptr) → (task_of u p).joiner ≡ (task_of w p).joiner
  pub flags : (p : Ptr) → (task_of u p).no_preempt_flag ≡ (task_of w p).no_preempt_flag

-- the world in which the critical section was entered and left
abbrev pub visited : World → World
visited w = flagged (flagged w true) false

-- the world in which the task `p` was detached in the critical section, and the one after it
abbrev marked_in : World → Ptr → World
marked_in w p =
    with_task (flagged w true) p (record (task_of (flagged w true) p) { detached = true })

abbrev pub detached_in : World → Ptr → World
detached_in w p = flagged (marked_in w p) false

marked-flag :
    (w : World) (p : Ptr) → (task_of (marked_in w p) (current_of w)).no_preempt_flag ≡ true
marked-flag w p = ground arith

detach_running-marks :
    (w : World) (p : Ptr)
    → p ≢ null
    → is_state (task_of w p).run_state stopped ≡ false
    → detach_running p w ≡ ok true (with_task w p (record (task_of w p) { detached = true }))
unfolding detach_running
detach_running-marks w p n s = ground arith

detach_running-ended :
    (w : World) (p : Ptr)
    → p ≢ null
    → (task_of w p).run_state ≡ stopped
    → detach_running p w ≡ ok false w
unfolding detach_running
detach_running-ended w p n s = ground arith

state_cases : (r : RunState) → (r ≡ stopped) ⊎ (is_state r stopped ≡ false)
state_cases running = inr refl
state_cases suspended = inr refl
state_cases stopped = inl refl
state_cases waiting = inr refl

state-flagged :
    (w : World) (p : Ptr) (b : Bool) → (task_of (flagged w b) p).run_state ≡ (task_of w p).run_state
state-flagged w p b = ground arith

pub detach-marks :
    (w : World) (p : Ptr)
    → p ≢ null
    → current_of w ≢ null
    → (task_of w (current_of w)).no_preempt_flag ≡ false
    → is_state (task_of w p).run_state stopped ≡ false
    → detach (some p) w ≡ ok null (detached_in w p)
unfolding detach
detach-marks w p n c f s = rw (==-of_ne p 0 n) (
    rw
      (critical_lem (detach_running p) w (marked_in w p) (detached_in w p) true (lock_lem w c f)
        (detach_running-marks (flagged w true) p n (rw (state-flagged w p true) s))
        (unlock_lem (marked_in w p) c (marked-flag w p)))
      refl)

visited-state : (w : World) (p : Ptr) → (task_of (visited w) p).run_state ≡ (task_of w p).run_state
visited-state w p = state-flagged (flagged w true) p false ∙ state-flagged w p true

pub detach-collects :
    (w : World) (p : Ptr)
    → p ≢ null
    → current_of w ≢ null
    → (task_of w (current_of w)).no_preempt_flag ≡ false
    → (task_of w p).run_state ≡ stopped
    → detach (some p) w ≡ ok null (collected (visited w) p)
unfolding detach Sched.return_task
detach-collects w p n c f s = rw (==-of_ne p 0 n) (
    rw
      (critical_lem (detach_running p) w (flagged w true) (visited w) false (lock_lem w c f)
        (detach_running-ended (flagged w true) p n (state-flagged w p true ∙ s))
        (unlock_lem (flagged w true) c (flag-flagged w true)))
      (rw (==-of_ne p 0 n) (rw (visited-state w p ∙ s) refl)))

detached_in-Quiet :
    (w : World) (p : Ptr)
    → IsReady w
    → (task_of w (current_of w)).no_preempt_flag ≡ false
    → Quiet w (detached_in w p)
detached_in-Quiet w p r f = record {
  ready =
      flagged-IsReady (marked_in w p) false
        (with_task-IsReady (flagged w true) p _ refl (flagged-IsReady w true r));
  same_current = refl;
  here = refl;
  node = refl;
  waiters = refl;
  states = λ q. ground arith;
  joiners = λ q. ground arith;
  flags = λ q. ground arith;
}

pub collected-Quiet :
    (w : World) (p : Ptr)
    → IsReady w
    → (task_of w (current_of w)).no_preempt_flag ≡ false
    → Quiet w (collected (visited w) p)
collected-Quiet w p r f =
    let t : (collected (visited w) p).heap.tasks ≡ (visited w).heap.tasks =
      return_task-tasks p w.freelist (visited w).heap in
    let v = flagged-IsReady (flagged w true) false (flagged-IsReady w true r) in
    record {
      ready = record {
        is_running = v.is_running;
        free = v.free;
        some_current = v.some_current;
        sorted = rw t v.sorted;
        live = v.live;
        absent = v.absent;
        once = v.once;
      };
      same_current = refl;
      here = refl;
      node = refl;
      waiters = refl;
      states = λ q. ap (λ k. (k q).run_state) t ∙ visited-state w q;
      joiners = λ q. ap (λ k. (k q).joiner) t ∙ ground arith;
      flags = λ q. ap (λ k. (k q).no_preempt_flag) t ∙ ground arith;
    }

-- `detach` of a task in a ready world, by a task outside of a critical section: it leaves an empty
-- handle, and all that the scheduler decides on is as it was. A task that runs on is detached, and one
-- that has ended is free or destroyed.
pub detach-Quiet :
    (w : World) (p : Ptr)
    → IsReady w
    → p ≢ null
    → (task_of w (current_of w)).no_preempt_flag ≡ false
    → (u : World) × (detach (some p) w ≡ ok null u)
      × Quiet w u
      × (((is_state (task_of w p).run_state stopped ≡ false) × ((task_of u p).detached ≡ true))
          ⊎ (((task_of w p).run_state ≡ stopped)
              × ((u.freelist, u.heap) ≡ Freelist.return_task p w.freelist (visited w).heap)))
detach-Quiet w p r n f = elim (state_cases (task_of w p).run_state) [
  | inl e ↦ (
    collected (visited w) p,
    detach-collects w p n r.some_current f e,
    collected-Quiet w p r f,
    inr (e, refl),
  )
  | inr e ↦ (
    detached_in w p,
    detach-marks w p n r.some_current f e,
    detached_in-Quiet w p r f,
    inl (e, ground arith),
  )
]
