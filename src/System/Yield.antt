-- ===== src/System/Yield.antt =====
-- The steps `yields` and `rings`: the current task is preempted, or spared.
use gthread.System.{System, act, yields, rings, after_call}
use gthread.System.Sound.{Place, occupant, Sound, CanRun-live, CanRun-frame}
use gthread.System.Departs.{Departs, ended-still}
use gthread.System.Depart.{Departs-Sound}
use gthread.System.Still.{Still, stilled, Still-Sound, live_of, ends_same, occupants_same}
use gthread.Preempt.{trap}
use gthread.Preempt.Critical.{flagged}
use gthread.Preempt.Fair.{Preempts, Spares, trap-fair, trap-open}
use gthread.Node.Choice.{Picks}
use gthread.Sched
use gthread.Sched.Waiting.{yield_lem}
use mathlib.Core.Path.{subst}
use native.Mathlib.Decide.{ℕ_discrete}
use gthread.Task.{running, suspended, stopped, is_state}
use gthread.Effects.{Run, ok, switched, bind, pure, current_of, task_of}
use gthread.Common.{
  ◌≡◌, refl, sym, ap, ◌∙◌, ◌≢◌, ◌⊎◌, inl, inr, true, false, none, some, List, arith, Ptr, null,
  count,
}

module _ (s : System) (g : Sound s) where
  pub current-live : is_state (task_of s.world (current_of s.world)).run_state stopped ≡ false
  current-live = live_of _ running g.base.runs refl

  -- a task on the runqueue can be the next one
  pub queued-live :
      (x : Ptr)
      → count x s.world.node.rq.runqueue ≢ 0
      → is_state (task_of s.world x).run_state stopped ≡ false
  queued-live x n = CanRun-live s x (g.base.queued x n)

  Preempts-Departs :
      (x : Ptr) (q : List Ptr)
      → Picks (flagged s.world true) x q
      → x ≢ current_of s.world
      → (m : Preempts s.world x q)
      → Departs s m.world x (λ u. bind (m.rest u) (λ _. pure none)) suspended null
  Preempts-Departs x q p other m =
      let queued : (a : Ptr)
          → a ≢ x
          → a ≢ current_of s.world
          → count a m.world.node.rq.runqueue ≡ count a s.world.node.rq.runqueue =
        λ a n o. ap (count a) m.queue ∙ ground (arith, p.same a) in
      let first : count x s.world.node.rq.runqueue ≢ 0 = λ e. ground (arith, p.same x) in
      let before : (y : Ptr)
          → (y ≡ x) ⊎ (count y m.world.node.rq.runqueue ≢ 0)
          → y ≢ current_of s.world
          → count y s.world.node.rq.runqueue ≢ 0 =
        λ y h o. elim h [
          | inl e ↦ λ z. first (ap (λ k. count k s.world.node.rq.runqueue) (sym e) ∙ z)
          | inr n ↦ λ z. n (
              queued y
                (λ h.
                  n (ap (λ k. count k m.world.node.rq.runqueue) (h ∙ sym m.next) ∙ m.ready.absent))
                o
              ∙ z)
        ] in
      let at : (a : Place) → occupant m.world a ≡ occupant s.world a =
        occupants_same m.world s.world m.waiters (
          ends_same m.world s.world (live_of _ suspended m.parked refl) current-live m.joiner
            m.others) in
      record {
        ready = m.ready;
        next = m.next;
        here = m.here;
        awake = m.awake;
        state = m.parked;
        flag = m.flag;
        states = λ a c. ap (λ t. t.run_state) (m.others a c);
        flags = λ a c. ap (λ t. t.no_preempt_flag) (m.others a c);
        other = other;
        live = queued-live x first;
        frame = CanRun-frame s x (g.base.queued x first);
        ended = λ y h o a.
            ended-still s m.world g (λ a c. ap (λ t. t.run_state) (m.others a c)) y (before y h o)
              a;
        returns =
            inl
              (refl, inl (refl, λ u c f b. ap (λ r. bind r (λ _. pure none)) (m.returns u c f b)));
        queued = λ y n. elim (ℕ_discrete y (current_of s.world)) [
          | yes e ↦ inl (e, refl, refl)
          | no o ↦ inr (o, before y (inr n) o)
        ];
        parked = λ a y e n.
            let c = g.base.parked a y (sym (at a) ∙ e) n in
            let d : y ≢ x = λ h. first (ap (λ k. count k s.world.node.rq.runqueue) (sym h) ∙ c.1) in
            (d, queued y d c.0 ∙ c.1, inr (c.0, sym (at a) ∙ e));
        apart = λ a b e n. g.base.apart a b (sym (at a) ∙ (e ∙ at b)) (λ h. n (at a ∙ h));
        kept_current = inl (
            inl (
              ap (count (current_of s.world)) m.queue
              ∙ ground (arith, p.same (current_of s.world), g.base.ready.absent)));
        kept =
            λ y z n o h. elim h [ inl e ↦ inl (queued y n o ∙ e) | inr (a, e) ↦ inr (a, at a ∙ e) ];
      }

  -- the state and the flag of each task, when the current one is spared
  spared-state :
      (q : List Ptr)
      → (m : Spares s.world q) → (p : Ptr)
      → ((task_of m.world p).run_state ≡ (task_of s.world p).run_state)
        × ((task_of m.world p).no_preempt_flag ≡ (task_of s.world p).no_preempt_flag)
  spared-state q m p = elim (ℕ_discrete (current_of s.world) p) [
    | yes e ↦
        subst
          (λ k.
            ((task_of m.world k).run_state ≡ (task_of s.world k).run_state)
            × ((task_of m.world k).no_preempt_flag ≡ (task_of s.world k).no_preempt_flag))
          e (m.runs ∙ sym g.base.runs, m.is_free ∙ sym g.base.unflagged)
    | no n ↦ (ap (λ t. t.run_state) (m.others p n), ap (λ t. t.no_preempt_flag) (m.others p n))
  ]

  Spares-Still :
      (q : List Ptr)
      → Picks (flagged s.world true) (current_of s.world) q
      → (m : Spares s.world q) → Still s.world m.world
  Spares-Still q p m = record {
    ready = m.still_ready;
    same_current = m.same_current;
    here = m.here;
    awake = m.awake ∙ sym g.base.awake;
    queue = λ a. ap (count a) m.same_queue ∙ ground (arith, p.same a);
    occupants =
        occupants_same m.world s.world m.waiters (
          ends_same m.world s.world (live_of _ running m.runs refl) current-live m.joiner m.others);
    states = λ a. (spared-state q m a).0;
    flags = λ a. (spared-state q m a).1;
  }

  -- a call that does what the trap of the alarm does
  trapped-Sound :
      (r : Run (Unit {0}))
      → r ≡ trap s.world
      → (u : System) × (after_call s null (bind r (λ _. pure none)) ≡ some u) × Sound u
  trapped-Sound r e =
      let (x, q, p, c) =
        trap-fair s.world g.base.ready g.base.here g.base.unflagged g.base.runs g.base.awake in
      let into = λ (r' : Run (Unit {0})) (k : trap s.world ≡ r').
        ap (λ m. after_call s null (bind m (λ _. pure none))) (e ∙ k) in
      elim c [
        | inl (h, m) ↦ (
          stilled s m.world,
          into (ok tt m.world) m.returned,
          Still-Sound s m.world g
              (Spares-Still q (subst (λ y. Picks (flagged s.world true) y q) h p) m),
        )
        | inr (o, m) ↦
            let (u, k, z) =
              Departs-Sound s m.world x (λ u. bind (m.rest u) (λ _. pure none)) suspended null
                g.base (Preempts-Departs x q p o m) in
            (u, into (switched m.world m.rest) m.leaves ∙ k, z)
      ]

  pub rings-Sound : (u : System) × (after_call s null (act rings s.world) ≡ some u) × Sound u
  unfolding act
  rings-Sound = trapped-Sound (trap s.world) refl

  pub yields-Sound : (u : System) × (after_call s null (act yields s.world) ≡ some u) × Sound u
  unfolding act
  yields-Sound = trapped-Sound (Sched.yield s.world) (
      yield_lem s.world g.base.ready.some_current g.base.here g.base.unflagged
      ∙ sym (trap-open s.world g.base.ready.some_current g.base.here g.base.unflagged))
