-- ===== src/System/Wake.antt =====
-- How another task gets on the runqueue: it is taken from the place where it waits, or it is new.
use gthread.System.{System}
use gthread.System.Sound.{IsOff, CanRun, Place, occupant, Base, Sound, current-not_stopped}
use gthread.System.Still.{IsOff-same, stilled}
use gthread.System.Wait.{Takes}
use gthread.Node.Choice.{IsReady}
use mathlib.Core.Path.{subst}
use native.Mathlib.Decide.{ℕ_discrete}
use gthread.Task.{RunState, running, suspended, waiting, stopped}
use gthread.Effects.{World, current_of, task_of}
use gthread.Common.{
  ◌≡◌, refl, sym, ap, ◌∙◌, ◌≢◌, ◌⊎◌, inl, inr, true, false, List, [], ◌∷◌, arith, Ptr, null, count,
}

-- in `u`, the task `p` is on the runqueue besides those of `s`
pub record Joins (s u : System) (p : Ptr) : Type 0 where
  pub ready : IsReady u.world
  pub cur : current_of u.world ≡ current_of s.world
  pub here : u.world.on_node u.world.tls_now ≡ true
  pub awake : u.world.node.rq.sleepqueue ≡ []
  pub runs : (task_of u.world (current_of s.world)).run_state ≡ running
  pub unflagged : (task_of u.world (current_of s.world)).no_preempt_flag ≡ false
  pub off : CanRun u p
  pub states :
      (q : Ptr)
      → p ≢ q
      → current_of s.world ≢ q
      → (task_of u.world q).run_state ≡ (task_of s.world q).run_state
  pub flags :
      (q : Ptr)
      → p ≢ q
      → current_of s.world ≢ q
      → (task_of u.world q).no_preempt_flag ≡ (task_of s.world q).no_preempt_flag
  pub frames : (q : Ptr) → p ≢ q → u.frames q ≡ s.frames q
  pub awaits : (q : Ptr) → p ≢ q → u.awaits q ≡ s.awaits q
  pub queue : (q : Ptr) → count q u.world.node.rq.runqueue ≡ count q (p ∷ s.world.node.rq.runqueue)
  pub fresh : count p s.world.node.rq.runqueue ≡ 0
  pub some_task : p ≢ null
  pub other : current_of s.world ≢ p
  pub waiting_in :
      (b : Place) (q : Ptr) → occupant u.world b ≡ q → q ≢ null → (q ≢ p) × (occupant s.world b ≡ q)
  pub still_waiting :
      (b : Place) (q : Ptr) → q ≢ null → q ≢ p → occupant s.world b ≡ q → occupant u.world b ≡ q

one_more : (p : Ptr) (l : List Ptr) → count p l ≡ 0 → count p (p ∷ l) ≡ 1
one_more p l e = ground arith

module _ (s u : System) (p : Ptr) (g : Base s) (j : Joins s u p) where
  -- the other tasks off the processor
  off_other : (q : Ptr) (t : RunState) → q ≢ p → q ≢ current_of s.world → IsOff s q t → IsOff u q t
  off_other q t n o c =
      IsOff-same s u q t (j.states q (λ e. n (sym e)) (λ e. o (sym e)))
        (j.flags q (λ e. n (sym e)) (λ e. o (sym e))) (j.frames q (λ e. n (sym e)))
        (j.awaits q (λ e. n (sym e))) c

  -- a task other than `p` that has ended is still as it was
  stopped_other :
      (q : Ptr)
      → q ≢ p
      → (task_of s.world q).run_state ≡ stopped
      → (task_of u.world q).run_state ≡ stopped
  stopped_other q n e = j.states q (λ h. n (sym h)) (λ h. current-not_stopped s q g e (sym h)) ∙ e

  queued_before :
      (q : Ptr)
      → q ≢ p
      → count q u.world.node.rq.runqueue ≢ 0
      → count q s.world.node.rq.runqueue ≢ 0
  queued_before q o n e = n (ground (arith, j.queue q))

  pub Joins-Base : Base u
  Joins-Base = record {
    ready = j.ready;
    here = j.here;
    runs = ap (λ k. (task_of u.world k).run_state) j.cur ∙ j.runs;
    unflagged = ap (λ k. (task_of u.world k).no_preempt_flag) j.cur ∙ j.unflagged;
    awake = j.awake;
    awaits_none =
        ap u.awaits j.cur ∙ (j.awaits (current_of s.world) (λ e. j.other (sym e)) ∙ g.awaits_none);
    queued = λ q n. elim (ℕ_discrete q p) [
      | yes e ↦ subst (CanRun u) (sym e) j.off
      | no o ↦
          let k = queued_before q o n in
          let c : q ≢ current_of s.world =
            λ h. k (ap (λ z. count z s.world.node.rq.runqueue) h ∙ g.ready.absent) in
          elim (g.queued q k) [
            | inl i ↦ inl (off_other q suspended o c i)
            | inr i ↦ inr (off_other q waiting o c i)
          ]
    ];
    parked = λ b q e n.
        let w = j.waiting_in b q e n in
        let c = g.parked b q w.1 n in
        (
          λ h. c.0 (h ∙ j.cur),
          ground (arith, j.queue q, c.1, w.0),
          j.awaits q (λ h. w.0 (sym h)) ∙ c.2,
          off_other q waiting w.0 c.0 c.3,
        );
    apart = λ b c e n.
        let w = j.waiting_in b (occupant u.world b) refl n in
        let v = j.waiting_in c (occupant u.world b) (sym e) n in
        g.apart b c (w.1 ∙ sym v.1) (λ h. n (sym w.1 ∙ h));
    kept = λ q n. elim (ℕ_discrete q p) [
      | yes e ↦ (
        λ h. j.some_task (sym e ∙ h),
        inl (
            inl (
              ap (λ k. count k u.world.node.rq.runqueue) e
              ∙ (j.queue p ∙ one_more p s.world.node.rq.runqueue j.fresh))),
      )
      | no o ↦
          let c = g.kept q (λ h. n (j.frames q (λ e. o (sym e)) ∙ h)) in
          (
            c.0,
            elim c.1 [
              | inl (inl e) ↦ inl (inl (ground (arith, j.queue q)))
              | inl (inr (b, e)) ↦ inl (inr (b, j.still_waiting b q c.0 o e))
              | inr e ↦ inr (stopped_other q o e)
            ],
          )
    ];
  }

-- The task `p` waits for no end of another, or for one that has come; and nobody waits for the end of
-- `p`, if that has come.
pub Joins-Sound :
    (s u : System) (p : Ptr)
    → Sound s
    → Joins s u p
    → (u.awaits p ≢ null → (task_of s.world (u.awaits p)).run_state ≡ stopped)
    → ((q : Ptr) → (task_of s.world (u.awaits q)).run_state ≡ stopped → u.awaits q ≢ p)
    → Sound u
Joins-Sound s u p g j ended unawaited =
    let joins : (q : Ptr)
        → count q u.world.node.rq.runqueue ≢ 0
        → u.awaits q ≢ null
        → (task_of s.world (u.awaits q)).run_state ≡ stopped =
      λ q n m. elim (ℕ_discrete q p) [
        | yes e ↦
            ap (λ k. (task_of s.world (u.awaits k)).run_state) e
            ∙ ended (λ h. m (ap u.awaits e ∙ h))
        | no o ↦
            let a = j.awaits q (λ e. o (sym e)) in
            ap (λ k. (task_of s.world k).run_state) a
            ∙ g.joins q (queued_before s u p g.base j q o n) (λ h. m (a ∙ h))
      ] in
    record {
      base = Joins-Base s u p g.base j;
      joins = λ q n m.
          let e = joins q n m in stopped_other s u p g.base j (u.awaits q) (unawaited q e) e;
    }

-- in `v`, the task `p` has been taken from the place `a` and is on the runqueue
pub record Frees (w v : World) (a : Place) (p : Ptr) : Type 0 where
  pub ready : IsReady v
  pub same_current : current_of v ≡ current_of w
  pub here : v.on_node v.tls_now ≡ w.on_node w.tls_now
  pub awake : v.node.rq.sleepqueue ≡ w.node.rq.sleepqueue
  pub runs : (task_of v (current_of w)).run_state ≡ (task_of w (current_of w)).run_state
  pub unflagged : (task_of v (current_of w)).no_preempt_flag ≡ false
  pub state : ((task_of v p).run_state ≡ suspended) ⊎ ((task_of v p).run_state ≡ waiting)
  pub flag : (task_of v p).no_preempt_flag ≡ (task_of w p).no_preempt_flag
  pub states :
      (q : Ptr) → p ≢ q → current_of w ≢ q → (task_of v q).run_state ≡ (task_of w q).run_state
  pub flags :
      (q : Ptr)
      → p ≢ q
      → current_of w ≢ q
      → (task_of v q).no_preempt_flag ≡ (task_of w q).no_preempt_flag
  pub queue : (q : Ptr) → count q v.node.rq.runqueue ≡ count q (p ∷ w.node.rq.runqueue)
  pub takes : Takes w v a null

pub Frees-Joins :
    (s : System) (v : World) (a : Place) (p : Ptr)
    → Base s
    → occupant s.world a ≡ p
    → p ≢ null
    → Frees s.world v a p
    → Joins s (stilled s v) p
Frees-Joins s v a p g z n m =
    let c = g.parked a p z n in
    record {
      ready = m.ready;
      cur = m.same_current;
      here = m.here ∙ g.here;
      awake = m.awake ∙ g.awake;
      runs = m.runs ∙ g.runs;
      unflagged = m.unflagged;
      off = elim m.state [ inl e ↦ inl (e, rw m.flag c.3.1) | inr e ↦ inr (e, rw m.flag c.3.1) ];
      states = m.states;
      flags = m.flags;
      frames = λ q _. refl;
      awaits = λ q _. refl;
      queue = m.queue;
      fresh = c.1;
      some_task = n;
      other = λ e. c.0 (sym e);
      waiting_in = λ b q e k.
          let d : b ≢ a = λ h. k (sym e ∙ (ap (occupant v) h ∙ m.takes.taken)) in
          let o = sym (m.takes.rest b d) ∙ e in
          (λ h. d (g.apart b a (o ∙ (h ∙ sym z)) (λ i. k (sym o ∙ i))), o);
      still_waiting =
          λ b q k o e. m.takes.rest b (λ h. o (sym e ∙ (ap (occupant s.world) h ∙ z))) ∙ e;
    }
