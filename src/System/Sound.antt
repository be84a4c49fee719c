-- ===== src/System/Sound.antt =====
-- The invariant of the system.
use gthread.System.{System, Frame}
use gthread.Node.Choice.{IsReady}
use gthread.Node.Switch.{back}
use gthread.Sched.Waiting.{resumed, collected}
use gthread.Task.{Task, RunState, running, suspended, waiting, stopped, is_state}
use gthread.Effects.{World, ok, current_of, task_of}
use gthread.Common.{
  ◌≡◌, sym, ap, ◌∙◌, ◌≢◌, ◌⊎◌, inl, inr, Bool, true, false, Option, none, some, [], if◌then◌else◌,
  Ptr, null, count,
}

-- Where a task can wait: at the waiter with that address, or for the end of that task.
pub data Place : Type 0 where
  at_waiter at_end : Ptr → Place

-- the task that waits for the end of `t`
abbrev pub joiner_of : Task → Ptr
joiner_of t = if is_state t.run_state stopped then null else t.joiner

-- the task that waits there
abbrev pub occupant : World → Place → Ptr
occupant w (at_waiter a) = w.waiters a
occupant w (at_end t) = joiner_of (task_of w t)

-- the task whose end is waited for there
abbrev pub target : Place → Ptr
target (at_waiter a) = null
target (at_end t) = t

-- What a task off the processor goes on with, the task that its `join` waits for, and the flag that it
-- left with: inside of a critical section it leaves that, at its start it enters its function, and
-- in `join` of a task that has ended it leaves the section and gives that task back.
abbrev pub CanResume : Option Frame → Ptr → Ptr → Bool → Type 0
CanResume none p t b = ⊥
CanResume (some k) p t b =
    ((t ≡ null)
      × (((b ≡ true)
            × ((u : World)
                → current_of u ≡ p
                → u.node.spin_lock ≡ false
                → (task_of u p).no_preempt_flag ≡ true
                → k u ≡ ok none (resumed u)))
          ⊎ ((b ≡ false) × ((u : World) → current_of u ≡ p → k u ≡ ok none (back u p)))))
    ⊎ ((t ≢ null)
        × (b ≡ true)
        × ((u : World)
            → current_of u ≡ p
            → u.node.spin_lock ≡ false
            → (task_of u p).no_preempt_flag ≡ true
            → (task_of u t).run_state ≡ stopped
            → k u ≡ ok none (collected (resumed u) t)))

-- the task `p` is off the processor in the given state, and can go on
abbrev pub IsOff : System → Ptr → RunState → Type 0
IsOff s p st =
    ((task_of s.world p).run_state ≡ st)
    × CanResume (s.frames p) p (s.awaits p) (task_of s.world p).no_preempt_flag

-- The task `p` is off the processor and can go on, when it is picked from the runqueue. One that was put
-- there by the end of the task it joins is still marked as waiting.
abbrev pub CanRun : System → Ptr → Type 0
CanRun s p = IsOff s p suspended ⊎ IsOff s p waiting

-- the task `p` is on the runqueue, once, or waits
abbrev pub IsSomewhere : World → Ptr → Type 0
IsSomewhere w p = (count p w.node.rq.runqueue ≡ 1) ⊎ ((a : Place) × (occupant w a ≡ p))

-- The current task runs outside of a critical section in a ready world in which no task sleeps. Every
-- task that waits, at a waiter or for the end of a task, does so there alone and is on no queue. These
-- and all on the runqueue can go on. No task is lost: one that control has left is on the runqueue,
-- once, or waits, or it has ended.
pub record Base (s : System) : Type 0 where
  pub ready : IsReady s.world
  pub here : s.world.on_node s.world.tls_now ≡ true
  pub runs : (task_of s.world (current_of s.world)).run_state ≡ running
  pub unflagged : (task_of s.world (current_of s.world)).no_preempt_flag ≡ false
  pub awake : s.world.node.rq.sleepqueue ≡ []
  pub awaits_none : s.awaits (current_of s.world) ≡ null
  pub queued : (p : Ptr) → count p s.world.node.rq.runqueue ≢ 0 → CanRun s p
  pub parked :
      (a : Place) (p : Ptr)
      → occupant s.world a ≡ p
      → p ≢ null
      → (p ≢ current_of s.world)
        × (count p s.world.node.rq.runqueue ≡ 0)
        × (s.awaits p ≡ target a)
        × IsOff s p waiting
  pub apart :
      (a b : Place) → occupant s.world a ≡ occupant s.world b → occupant s.world a ≢ null → a ≡ b
  pub kept :
      (p : Ptr)
      → s.frames p ≢ none
      → (p ≢ null) × (IsSomewhere s.world p ⊎ ((task_of s.world p).run_state ≡ stopped))

-- A system that runs as it should: in addition, if a task on the runqueue was left in `join`, the task
-- that it joins has ended.
pub record Sound (s : System) : Type 0 where
  pub base : Base s
  pub joins :
      (p : Ptr)
      → count p s.world.node.rq.runqueue ≢ 0
      → s.awaits p ≢ null
      → (task_of s.world (s.awaits p)).run_state ≡ stopped

-- the current task has not ended
pub current-not_stopped :
    (s : System) (p : Ptr)
    → Base s
    → (task_of s.world p).run_state ≡ stopped
    → p ≢ current_of s.world
current-not_stopped s p g e h =
    absurd (cc (sym g.runs ∙ (ap (λ k. (task_of s.world k).run_state) (sym h) ∙ e)))

-- a task that can run has not ended
pub CanRun-live :
    (s : System) (p : Ptr) → CanRun s p → is_state (task_of s.world p).run_state stopped ≡ false
CanRun-live s p (inl c) = ap (λ r. is_state r stopped) c.0
CanRun-live s p (inr c) = ap (λ r. is_state r stopped) c.0

-- what it goes on with
pub CanRun-frame :
    (s : System) (p : Ptr)
    → CanRun s p
    → CanResume (s.frames p) p (s.awaits p) (task_of s.world p).no_preempt_flag
CanRun-frame s p (inl c) = c.1
CanRun-frame s p (inr c) = c.1
