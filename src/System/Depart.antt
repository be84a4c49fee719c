-- ===== src/System/Depart.antt =====
-- A step by which control leaves the current task ends in a sound system.
use gthread.System.{System, Frame, after_call}
use gthread.System.Sound.{
  CanResume, IsOff, Place, occupant, target, IsSomewhere, Base, Sound, current-not_stopped,
}
use gthread.System.Arrives.{Arrives, go_on}
use native.Mathlib.Decide.{ℕ_discrete}
use gthread.Task.{RunState, suspended, waiting, stopped, is_state}
use gthread.Effects.{World, switched, current_of, task_of}
use gthread.Common.{
  ◌≡◌, refl, sym, ap, ◌∙◌, ◌≢◌, ◌⊎◌, inl, inr, false, Option, none, some, Ptr, null, count, update,
  update_self, update_ne,
}
use gthread.System.Departs.{Departs}

module _ (s : System) (v : World) (x : Ptr) (k : Frame) (st : RunState) (t : Ptr) (g : Base s)
    (d : Departs s v x k st t) where
  -- what the tasks go on with and wait for, but for the one that control has come to
  left_frames : Ptr → Option Frame
  left_frames = update s.frames (current_of s.world) (some k)

  left_awaits : Ptr → Ptr
  left_awaits = update s.awaits (current_of s.world) t

  awaits_other : (p : Ptr) → p ≢ current_of s.world → left_awaits p ≡ s.awaits p
  unfolding left_awaits
  awaits_other p n = update_ne s.awaits (current_of s.world) p t (λ e. n (sym e))

  frame_other :
      (p : Ptr)
      → p ≢ current_of s.world
      → CanResume (s.frames p) p (s.awaits p) (task_of s.world p).no_preempt_flag
      → CanResume (left_frames p) p (left_awaits p) (task_of v p).no_preempt_flag
  unfolding left_frames
  frame_other p n c =
      rw (update_ne s.frames (current_of s.world) p (some k) (λ e. n (sym e)))
        (rw (awaits_other p n) (rw (d.flags p (λ e. n (sym e))) c))

  frame_current :
      (p : Ptr)
      → p ≡ current_of s.world
      → CanResume (left_frames p) p (left_awaits p) (task_of v p).no_preempt_flag
  unfolding left_frames left_awaits
  frame_current p e =
      rw
        (
          e,
          update_self s.frames (current_of s.world) (some k),
          update_self s.awaits (current_of s.world) t,
          d.flag,
        )
        d.returns

  -- a task that has ended is still as it was
  stopped-left :
      (p : Ptr) → (task_of s.world p).run_state ≡ stopped → (task_of v p).run_state ≡ stopped
  stopped-left p e = d.states p (λ h. current-not_stopped s p g e (sym h)) ∙ e

  ended_next : left_awaits x ≢ null → (task_of v (left_awaits x)).run_state ≡ stopped
  ended_next n =
      let e = awaits_other x d.other in
      ap (λ q. (task_of v q).run_state) e ∙ d.ended x (inl refl) d.other (λ h. n (e ∙ h))

  live_next : is_state (task_of v x).run_state stopped ≡ false
  live_next = ap (λ r. is_state r stopped) (d.states x (λ e. d.other (sym e))) ∙ d.live

  module _ (w : World) (a : Arrives v w) where
    -- the system in which the next task goes on
    arrived : System
    arrived = record {
      world = w;
      frames = update left_frames (current_of v) none;
      awaits = update left_awaits (current_of v) null;
    }

    task-arrived : (p : Ptr) → p ≢ x → task_of w p ≡ task_of v p
    task-arrived p n = a.others p (λ e. n (sym e ∙ d.next))

    frame-arrived : (p : Ptr) → p ≢ x → arrived.frames p ≡ left_frames p
    unfolding arrived
    frame-arrived p n = update_ne left_frames (current_of v) p none (λ e. n (sym e ∙ d.next))

    awaits-arrived : (p : Ptr) → p ≢ x → arrived.awaits p ≡ left_awaits p
    unfolding arrived
    awaits-arrived p n = update_ne left_awaits (current_of v) p null (λ e. n (sym e ∙ d.next))

    stopped-arrived :
        (p : Ptr) → (task_of v p).run_state ≡ stopped → (task_of w p).run_state ≡ stopped
    stopped-arrived p e =
        ap (λ t. t.run_state)
          (task-arrived p (λ h. absurd (
            cc (
              sym (ap (λ q. is_state (task_of v q).run_state stopped) h ∙ live_next)
              ∙ ap (λ r. is_state r stopped) e))))
        ∙ e

    off-arrived :
        (p : Ptr) (r : RunState)
        → p ≢ x
        → (task_of v p).run_state ≡ r
        → CanResume (left_frames p) p (left_awaits p) (task_of v p).no_preempt_flag
        → IsOff arrived p r
    unfolding arrived
    off-arrived p r n e c = (
      ap (λ t. t.run_state) (task-arrived p n) ∙ e,
      rw (frame-arrived p n) (rw (awaits-arrived p n) (rw (task-arrived p n) c)),
    )

    -- a task that is off the processor stays so, and the one that control has left gets there
    off_current :
        (p : Ptr) (r : RunState) → p ≢ x → p ≡ current_of s.world → st ≡ r → IsOff arrived p r
    off_current p r n e h =
        off-arrived p r n (ap (λ q. (task_of v q).run_state) e ∙ d.state ∙ h) (frame_current p e)

    off_other :
        (p : Ptr) (r : RunState) → p ≢ x → p ≢ current_of s.world → IsOff s p r → IsOff arrived p r
    off_other p r n m o =
        off-arrived p r n (d.states p (λ e. m (sym e)) ∙ o.0) (frame_other p m o.1)

    queue-arrived : (p : Ptr) → count p w.node.rq.runqueue ≡ count p v.node.rq.runqueue
    queue-arrived p = ap (λ q. count p q.runqueue) a.rq

    not_next : (p : Ptr) → count p v.node.rq.runqueue ≢ 0 → p ≢ x
    not_next p n e = n (ap (λ q. count q v.node.rq.runqueue) (e ∙ sym d.next) ∙ d.ready.absent)

    joins-arrived :
        (p : Ptr)
        → count p v.node.rq.runqueue ≢ 0
        → arrived.awaits p ≢ null
        → (task_of w (arrived.awaits p)).run_state ≡ stopped
    unfolding left_awaits
    joins-arrived p n m =
        let h = awaits-arrived p (not_next p n) in
        elim (d.queued p n) [
          | inl (e, _, z) ↦
              absurd
                (m (h ∙ (ap left_awaits e ∙ (update_self s.awaits (current_of s.world) t ∙ z))))
          | inr (o, _) ↦
              let i = h ∙ awaits_other p o in
              ap (λ b. (task_of w b).run_state) i
              ∙ stopped-arrived (s.awaits p) (d.ended p (inr n) o (λ z. m (i ∙ z)))
        ]

    here_or_at : (p : Ptr) → IsSomewhere v p → IsSomewhere w p
    here_or_at p (inl e) = inl (queue-arrived p ∙ e)
    here_or_at p (inr (b, e)) = inr (b, a.occupants b ∙ e)

    left_current :
        IsSomewhere w (current_of s.world) ⊎ ((task_of w (current_of s.world)).run_state ≡ stopped)
    left_current = elim d.kept_current [
      | inl h ↦ inl (here_or_at (current_of s.world) h)
      | inr e ↦ inr (
          ap (λ t. t.run_state) (task-arrived (current_of s.world) (λ e. d.other (sym e)))
          ∙ (d.state ∙ e))
    ]

    kept-arrived :
        (p : Ptr)
        → arrived.frames p ≢ none
        → (p ≢ null) × (IsSomewhere w p ⊎ ((task_of w p).run_state ≡ stopped))
    unfolding arrived left_frames
    kept-arrived p n =
        let m : p ≢ x = λ e. n (
          ap (λ q. update left_frames (current_of v) none q) (e ∙ sym d.next)
          ∙ update_self left_frames (current_of v) none) in
        elim (ℕ_discrete p (current_of s.world)) [
          | yes e ↦ (λ h. g.ready.some_current (sym e ∙ h), rw e left_current)
          | no o ↦
              let c = g.kept p (λ h. n (
                frame-arrived p m
                ∙ update_ne s.frames (current_of s.world) p (some k) (λ e. o (sym e))
                ∙ h)) in
              (
                c.0,
                elim c.1 [
                  | inl h ↦ inl (here_or_at p (d.kept p c.0 m o h))
                  | inr h ↦ inr (stopped-arrived p (stopped-left p h))
                ],
              )
        ]

    parked-arrived :
        (b : Place) (p : Ptr)
        → occupant w b ≡ p
        → p ≢ null
        → (p ≢ current_of w)
          × (count p w.node.rq.runqueue ≡ 0)
          × (arrived.awaits p ≡ target b)
          × IsOff arrived p waiting
    unfolding left_awaits
    parked-arrived b p e n =
        let c = d.parked b p (sym (a.occupants b) ∙ e) n in
        let i = awaits-arrived p c.0 in
        (
          λ h. c.0 (h ∙ a.cur ∙ d.next),
          queue-arrived p ∙ c.1,
          elim c.2 [
            | inl (h, _, z) ↦
                i ∙ (ap left_awaits h ∙ (update_self s.awaits (current_of s.world) t ∙ z))
            | inr (o, h) ↦ i ∙ (awaits_other p o ∙ (g.parked b p h n).2)
          ],
          elim c.2 [
            | inl (h, r, _) ↦ off_current p waiting c.0 h r
            | inr (o, h) ↦ off_other p waiting c.0 o (g.parked b p h n).3
          ],
        )

    arrived-Base : Base arrived
    unfolding arrived
    arrived-Base = record {
      ready = a.ready;
      here = a.here ∙ d.here;
      runs = ap (λ p. (task_of w p).run_state) a.cur ∙ a.runs;
      unflagged = ap (λ p. (task_of w p).no_preempt_flag) a.cur ∙ a.unflagged;
      awake = ap (λ q. q.sleepqueue) a.rq ∙ d.awake;
      awaits_none =
          ap (update left_awaits (current_of v) null) a.cur
          ∙ update_self left_awaits (current_of v) null;
      queued = λ p n.
          let m : count p v.node.rq.runqueue ≢ 0 = λ e. n (queue-arrived p ∙ e) in
          elim (d.queued p m) [
            | inl (e, h, _) ↦ inl (off_current p suspended (not_next p m) e h)
            | inr (o, q) ↦ elim (g.queued p q) [
              | inl c ↦ inl (off_other p suspended (not_next p m) o c)
              | inr c ↦ inr (off_other p waiting (not_next p m) o c)
            ]
          ];
      parked = parked-arrived;
      apart = λ b c e n.
          d.apart b c (sym (a.occupants b) ∙ (e ∙ a.occupants c)) (λ h. n (a.occupants b ∙ h));
      kept = λ p n. kept-arrived p n;
    }

    arrived-Sound : Sound arrived
    unfolding arrived
    arrived-Sound = record {
      base = arrived-Base;
      joins = λ p n. joins-arrived p (λ e. n (queue-arrived p ∙ e));
    }

-- From a sound system, such a step ends in a sound one.
pub Departs-Sound :
    (s : System) (v : World) (x : Ptr) (k : Frame) (st : RunState) (t : Ptr)
    → Base s
    → Departs s v x k st t
    → (u : System) × (after_call s t (switched v k) ≡ some u) × Sound u
unfolding left_frames left_awaits arrived
Departs-Sound s v x k st t g d =
    let f = left_frames s v x k st t g d in
    let n = left_awaits s v x k st t g d in
    let (w, e, a) =
      go_on f n (f (current_of v)) (n (current_of v)) v d.ready
        (rw d.next (live_next s v x k st t g d))
        (rw d.next (frame_other s v x k st t g d x d.other d.frame))
        (rw d.next (ended_next s v x k st t g d)) in
    (arrived s v x k st t g d w a, e, arrived-Sound s v x k st t g d w a)
