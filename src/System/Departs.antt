-- ===== src/System/Departs.antt =====
-- A step by which control leaves the current task for another one.
use gthread.System.{System, Frame}
use gthread.System.Sound.{
  CanResume, Place, occupant, target, IsSomewhere, Sound, current-not_stopped,
}
use gthread.Node.Choice.{IsReady}
use gthread.Task.{RunState, suspended, waiting, stopped, is_state}
use gthread.Effects.{World, current_of, task_of}
use gthread.Common.{◌≡◌, sym, ◌∙◌, ◌≢◌, ◌⊎◌, true, false, some, [], Ptr, null, count}

-- Control leaves the current task, in the state `st` and to go on by `k` once the task `t` has ended, if
-- there is one, for the task `x` in `v`.
pub record Departs (s : System) (v : World) (x : Ptr) (k : Frame) (st : RunState) (t : Ptr)
    : Type 0 where
  pub ready : IsReady v
  pub next : current_of v ≡ x
  pub here : v.on_node v.tls_now ≡ true
  pub awake : v.node.rq.sleepqueue ≡ []
  pub state : (task_of v (current_of s.world)).run_state ≡ st
  pub flag : (task_of v (current_of s.world)).no_preempt_flag ≡ true
  pub states :
      (p : Ptr) → current_of s.world ≢ p → (task_of v p).run_state ≡ (task_of s.world p).run_state
  pub flags :
      (p : Ptr)
      → current_of s.world ≢ p
      → (task_of v p).no_preempt_flag ≡ (task_of s.world p).no_preempt_flag
  pub other : x ≢ current_of s.world
  pub live : is_state (task_of s.world x).run_state stopped ≡ false
  pub frame : CanResume (s.frames x) x (s.awaits x) (task_of s.world x).no_preempt_flag
  pub ended :
      (p : Ptr)
      → (p ≡ x) ⊎ (count p v.node.rq.runqueue ≢ 0)
      → p ≢ current_of s.world
      → s.awaits p ≢ null
      → (task_of v (s.awaits p)).run_state ≡ stopped
  pub returns : CanResume (some k) (current_of s.world) t true
  pub queued :
      (p : Ptr)
      → count p v.node.rq.runqueue ≢ 0
      → ((p ≡ current_of s.world) × (st ≡ suspended) × (t ≡ null))
        ⊎ ((p ≢ current_of s.world) × (count p s.world.node.rq.runqueue ≢ 0))
  pub parked :
      (a : Place) (p : Ptr)
      → occupant v a ≡ p
      → p ≢ null
      → (p ≢ x)
        × (count p v.node.rq.runqueue ≡ 0)
        × (((p ≡ current_of s.world) × (st ≡ waiting) × (t ≡ target a))
            ⊎ ((p ≢ current_of s.world) × (occupant s.world a ≡ p)))
  pub apart : (a b : Place) → occupant v a ≡ occupant v b → occupant v a ≢ null → a ≡ b
  pub kept_current : IsSomewhere v (current_of s.world) ⊎ (st ≡ stopped)
  pub kept :
      (p : Ptr)
      → p ≢ null
      → p ≢ x
      → p ≢ current_of s.world
      → IsSomewhere s.world p
      → IsSomewhere v p

-- The tasks that are joined by those on the runqueue have still ended.
pub ended-still :
    (s : System) (v : World)
    → Sound s
    → ((p : Ptr) → current_of s.world ≢ p → (task_of v p).run_state ≡ (task_of s.world p).run_state)
    → (p : Ptr) → count p s.world.node.rq.runqueue ≢ 0
    → s.awaits p ≢ null
    → (task_of v (s.awaits p)).run_state ≡ stopped
ended-still s v g o p n a =
    let e = g.joins p n a in
    o (s.awaits p) (λ h. current-not_stopped s (s.awaits p) g.base e (sym h)) ∙ e
