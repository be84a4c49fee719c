-- ===== src/Threads/Handle.antt =====
-- The handle of a `g` after `join` and `detach`.
use gthread.Preempt.Critical.{flagged, critical_lem, lock_lem, unlock_lem, flag-flagged}
use gthread.Preempt.{critical}
use gthread.Sched
use gthread.Sched.{detach_running}
use gthread.Sched.Waiting.{collected}
use gthread.Sched.Join.{join-collects}
use gthread.Threads.{join, detach}
use gthread.Outcome.{logic_error}
use gthread.Task.{Task, stopped, is_state}
use gthread.Effects.{World, ok, throw, current_of, task_of, with_task}
use gthread.Common.{
  ◌≡◌, refl, sym, ap, ◌∙◌, ◌≢◌, true, false, Ptr, null, update_self, update_ne, ==-of_ne,
}

empty_join : (w : World) → join null w ≡ throw logic_error w
unfolding join
empty_join w = refl

empty_detach : (w : World) → detach null w ≡ ok null w
unfolding detach
empty_detach w = refl

-- `g::join` of a task that has ended and that nobody joins, by another task outside of a critical
-- section: it leaves an empty handle and the task with the free tasks or destroyed. Of that handle,
-- a second `join` throws a logic error, and `detach`, which is what the destructor does, does nothing.
pub join-once :
    (w : World) (p : Ptr)
    → p ≢ null
    → current_of w ≢ null
    → current_of w ≢ p
    → (task_of w (current_of w)).no_preempt_flag ≡ false
    → (task_of w p).joiner ≡ null
    → (task_of w p).run_state ≡ stopped
    → (u : World) × (h : Ptr) × (join p w ≡ ok h (collected u p))
      × (u.freelist ≡ w.freelist)
      × (join h (collected u p) ≡ throw logic_error (collected u p))
      × (detach h (collected u p) ≡ ok h (collected u p))
unfolding join
join-once w p n c other f j s =
    let r = join-collects w p false n c other f j s in
    (
      r.0,
      null,
      rw (==-of_ne p 0 n) (rw r.1 refl),
      r.2,
      empty_join (collected r.0 p),
      empty_detach (collected r.0 p),
    )

-- the world in which the task `p` is marked as detached
abbrev detached_in : World → Ptr → World
detached_in w p = with_task w p (record (task_of w p) { detached = true })

marks :
    (w : World) (p : Ptr)
    → p ≢ null
    → is_state (task_of w p).run_state stopped ≡ false
    → detach_running p w ≡ ok true (detached_in w p)
unfolding detach_running
marks w p n s = rw (==-of_ne p 0 n) (rw s refl)

detach-marked :
    (w u : World) (p : Ptr)
    → p ≢ null
    → critical (detach_running p) w ≡ ok true u
    → detach p w ≡ ok null u
unfolding detach Sched.detach
detach-marked w u p n e = rw (==-of_ne p 0 n) (rw e refl)

-- the world in which `detach` returns
abbrev marked : World → Ptr → World
marked w p = flagged (detached_in (flagged w true) p) false

still_flagged :
    (w : World) (p : Ptr)
    → current_of w ≢ p
    → (task_of (detached_in (flagged w true) p) (current_of w)).no_preempt_flag ≡ true
still_flagged w p other =
    ap (λ t. t.no_preempt_flag)
      (update_ne (flagged w true).heap.tasks p (current_of w) _ (λ e. other (sym e)))
    ∙ flag-flagged w true

detach-critical :
    (w : World) (p : Ptr)
    → p ≢ null
    → current_of w ≢ null
    → current_of w ≢ p
    → (task_of w (current_of w)).no_preempt_flag ≡ false
    → is_state (task_of w p).run_state stopped ≡ false
    → critical (detach_running p) w ≡ ok true (marked w p)
detach-critical w p n c other f s =
    critical_lem (detach_running p) w (detached_in (flagged w true) p) (marked w p) true
      (lock_lem w c f)
      (marks (flagged w true) p n (
        ap (λ t. is_state t.run_state stopped) (update_ne w.heap.tasks (current_of w) p _ other)
        ∙ s))
      (unlock_lem (detached_in (flagged w true) p) c (still_flagged w p other))

-- `g::detach` of a task that has not ended, by another task outside of a critical section: it leaves
-- an empty handle, marks the task as detached and changes nothing else of it, nor of any other task
-- but the caller, whose critical section is left.
pub detach-marks :
    (w : World) (p : Ptr)
    → p ≢ null
    → current_of w ≢ null
    → current_of w ≢ p
    → (task_of w (current_of w)).no_preempt_flag ≡ false
    → is_state (task_of w p).run_state stopped ≡ false
    → (u : World) × (detach p w ≡ ok null u)
      × (task_of u p ≡ record (task_of w p) { detached = true })
      × ((task_of u (current_of w)).no_preempt_flag ≡ false)
      × ((q : Ptr) → p ≢ q → current_of w ≢ q → task_of u q ≡ task_of w q)
detach-marks w p n c other f s = (
  marked w p,
  detach-marked w (marked w p) p n (detach-critical w p n c other f s),
  update_ne (detached_in (flagged w true) p).heap.tasks (current_of w) p _ other
      ∙ (update_self (flagged w true).heap.tasks p _
          ∙ ap {A = Task} (λ t. record t { detached = true })
              (update_ne w.heap.tasks (current_of w) p _ other)),
  flag-flagged (detached_in (flagged w true) p) false,
  λ q a b.
      update_ne (detached_in (flagged w true) p).heap.tasks (current_of w) q _ b
      ∙ (update_ne (flagged w true).heap.tasks p q _ a
          ∙ update_ne w.heap.tasks (current_of w) q _ b),
)
