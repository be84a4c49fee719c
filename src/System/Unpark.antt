-- ===== src/System/Unpark.antt =====
-- The steps `unparks` and `spawns`: a task is taken from a waiter, or is new.
use gthread.System.{System, act, unparks, spawns, after_call, enter_task}
use gthread.System.Sound.{Place, at_waiter, at_end, occupant, joiner_of, Base, Sound}
use gthread.System.Still.{stilled, live_of, joiner_of-live, joiner_of-none}
use gthread.System.Wait.{waiter-Takes}
use gthread.System.Wake.{Joins-Sound, Frees, Frees-Joins}
use gthread.Node.Switch.{back}
use gthread.Waiter.Unpark.{Unparks, unparked, unparked-Unparks, unpark-refuses}
use gthread.Freelist.{Freelist}
use gthread.Freelist
use gthread.Memory.{Attr}
use gthread.Sched.Spawn.{Launches, spawn-Launches}
use mathlib.Core.Path.{subst}
use native.Mathlib.Decide.{ℕ_discrete}
use gthread.Outcome.{Result}
use gthread.Task.{Heap, suspended, waiting, stopped}
use gthread.Effects.{World, ok, bind, pure, current_of, task_of}
use gthread.Common.{
  ◌≡◌, refl, sym, ap, ◌∙◌, ◌≢◌, inl, inr, none, some, Ptr, null, count, update, update_self,
  update_ne, ==-of_ne,
}

unparked_end :
    (s : System) (a p t : Ptr)
    → Sound s
    → s.world.waiters a ≡ p
    → p ≢ null
    → (m : Unparks s.world a p (unparked s.world a p))
    → joiner_of (task_of (unparked s.world a p) t) ≡ joiner_of (task_of s.world t)
unparked_end s a p t g z n m =
    let v = unparked s.world a p in
    let same : (k : Ptr)
        → k ≡ t
        → joiner_of (task_of v k) ≡ joiner_of (task_of s.world k)
        → joiner_of (task_of v t) ≡ joiner_of (task_of s.world t) =
      λ k e h. subst (λ k. joiner_of (task_of v k) ≡ joiner_of (task_of s.world k)) e h in
    elim (ℕ_discrete p t) [
      | yes e ↦ same p e (
          joiner_of-live (task_of v p) (task_of s.world p) (live_of _ suspended m.runs refl)
            (live_of _ waiting (g.base.parked (at_waiter a) p z n).3.0 refl) m.joiner)
      | no o ↦ elim (ℕ_discrete (current_of s.world) t) [
        | yes e ↦ same (current_of s.world) e (ap joiner_of m.caller)
        | no c ↦ ap joiner_of (m.others t o c)
      ]
    ]

Unparks-Frees :
    (s : System) (a p : Ptr)
    → Sound s
    → s.world.waiters a ≡ p
    → p ≢ null
    → (m : Unparks s.world a p (unparked s.world a p))
    → Frees s.world (unparked s.world a p) (at_waiter a) p
Unparks-Frees s a p g z n m = record {
  ready = m.ready;
  same_current = m.same_current;
  here = m.here;
  awake = m.awake;
  runs = ap (λ t. t.run_state) m.caller;
  unflagged = ap (λ t. t.no_preempt_flag) m.caller;
  state = inl m.runs;
  flag = m.flag;
  states = λ q a c. ap (λ t. t.run_state) (m.others q a c);
  flags = λ q a c. ap (λ t. t.no_preempt_flag) (m.others q a c);
  queue = m.queued;
  takes =
      waiter-Takes s.world (unparked s.world a p) a null m.waiters
        (λ t. unparked_end s a p t g z n m);
}

-- a task that waits has not ended
pub waits-not_stopped :
    (s : System) (a : Place) (p q : Ptr)
    → Base s
    → occupant s.world a ≡ p
    → p ≢ null
    → (task_of s.world q).run_state ≡ stopped
    → q ≢ p
waits-not_stopped s a p q g z n e h =
    absurd (cc (sym (g.parked a p z n).3.0 ∙ (ap (λ k. (task_of s.world k).run_state) (sym h) ∙ e)))

pub unparks-Sound :
    (s : System) (a : Ptr)
    → Sound s
    → (u : System) × (after_call s null (act (unparks a) s.world) ≡ some u) × Sound u
unfolding act
unparks-Sound s a g = elim (ℕ_discrete (s.world.waiters a) null) [
  | yes z ↦ (
    s,
    ap (λ r. after_call s null (bind r (λ _. pure none)))
        (unpark-refuses s.world a null z (inl refl)).0,
    g,
  )
  | no n ↦
      let p = s.world.waiters a in
      let c = g.base.parked (at_waiter a) p refl n in
      let m =
        unparked-Unparks s.world a p g.base.ready g.base.here g.base.unflagged refl n c.3.0
          (λ e. c.0 (sym e)) c.1 in
      let u = stilled s (unparked s.world a p) in
      (
        u,
        ap (λ r. after_call s null (bind r (λ _. pure none))) m.returned,
        Joins-Sound s u p g
            (Frees-Joins s (unparked s.world a p) (at_waiter a) p g.base refl n
              (Unparks-Frees s a p g refl n m))
            (λ h. absurd (h c.2))
            (λ q e. waits-not_stopped s (at_waiter a) p (s.awaits q) g.base refl n e),
      )
]

enter_task_lem :
    (v : World) (p : Ptr) → p ≢ null → current_of v ≡ p → enter_task v ≡ ok none (back v p)
unfolding enter_task
enter_task_lem v p n e = rw (e, ==-of_ne p 0 n) refl

-- The task that `make_task` gives for `spawn`: one that is not null, not current and on no queue, that
-- waits nowhere, and whose end is waited for by nobody and was not by one that still has to take it.
pub record GetsNew (s : System) (attr : Attr) (entry : Ptr) : Type 0 where
  pub some_entry : entry ≢ null
  pub task : Ptr
  pub freelist : Freelist
  pub heap : Heap
  pub makes :
      Freelist.make_task s.world.machine.os s.world.machine.sizes attr s.world.freelist s.world.heap
      ≡ Result.ok (task, freelist, heap)
  pub some_task : task ≢ null
  pub other : current_of s.world ≢ task
  pub off_queue : count task s.world.node.rq.runqueue ≡ 0
  pub at_none : (a : Place) → occupant s.world a ≢ task
  pub unawaited : (q : Ptr) → s.awaits q ≢ task
  pub unjoined : occupant s.world (at_end task) ≡ null

spawned_occupant :
    (s : System) (w : World) (p entry arg : Ptr)
    → current_of s.world ≢ p
    → occupant s.world (at_end p) ≡ null
    → Launches s.world p entry arg w
    → (a : Place) → occupant w a ≡ occupant s.world a
spawned_occupant s w p entry arg other z l (at_waiter a) = ap (λ f. f a) l.waiters
spawned_occupant s w p entry arg other z l (at_end t) = elim (ℕ_discrete p t) [
  | yes e ↦
      subst (λ k. joiner_of (task_of w k) ≡ joiner_of (task_of s.world k)) e
        (joiner_of-none (task_of w p) l.unjoined ∙ sym z)
  | no o ↦ elim (ℕ_discrete (current_of s.world) t) [
    | yes e ↦
        subst (λ k. joiner_of (task_of w k) ≡ joiner_of (task_of s.world k)) e
          (ap joiner_of l.caller)
    | no c ↦ ap joiner_of (l.others t o c)
  ]
]

pub spawns-Sound :
    (s : System) (attr : Attr) (entry arg : Ptr)
    → Sound s
    → GetsNew s attr entry
    → (u : System) × (after_call s null (act (spawns attr entry arg) s.world) ≡ some u) × Sound u
unfolding act
spawns-Sound s attr entry arg g n =
    let (w, e, l, _) =
      spawn-Launches attr entry arg s.world n.task n.freelist n.heap g.base.ready n.some_entry
        g.base.here g.base.unflagged n.makes n.some_task n.other n.off_queue in
    let u : System = record {
      world = w;
      frames = update s.frames n.task (some enter_task);
      awaits = update s.awaits n.task null;
    } in
    let none_awaited = update_self s.awaits n.task null in
    let at = spawned_occupant s w n.task entry arg n.other n.unjoined l in
    (
      u,
      ap (λ r. after_call s null (bind r (λ p. pure (some p)))) e,
      Joins-Sound s u n.task g
          (record {
            ready = l.ready;
            cur = l.same_current;
            here = l.here ∙ g.base.here;
            awake = l.awake ∙ g.base.awake;
            runs = ap (λ t. t.run_state) l.caller ∙ g.base.runs;
            unflagged = ap (λ t. t.no_preempt_flag) l.caller;
            off = inl (
              l.runs,
              rw (update_self s.frames n.task (some enter_task)) (
                  rw none_awaited
                    (inl (refl, inr (l.unflagged, λ v c. enter_task_lem v n.task n.some_task c)))),
            );
            states = λ q a c. ap (λ t. t.run_state) (l.others q a c);
            flags = λ q a c. ap (λ t. t.no_preempt_flag) (l.others q a c);
            frames = λ q o. update_ne s.frames n.task q (some enter_task) o;
            awaits = λ q o. update_ne s.awaits n.task q null o;
            queue = l.queued;
            fresh = n.off_queue;
            some_task = n.some_task;
            other = n.other;
            waiting_in = λ b q i k. let o = sym (at b) ∙ i in (λ h. n.at_none b (o ∙ h), o);
            still_waiting = λ b q k o i. at b ∙ i;
          })
          (λ h. absurd (h none_awaited))
          (λ q _. elim (ℕ_discrete n.task q) [
            | yes i ↦ λ h. n.some_task (sym h ∙ (ap u.awaits (sym i) ∙ none_awaited))
            | no o ↦ λ h. n.unawaited q (sym (update_ne s.awaits n.task q null o) ∙ h)
          ]),
    )
