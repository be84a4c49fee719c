-- ===== src/System/Leaves.antt =====
-- The current task leaves for good.
use gthread.System.{System, Frame}
use gthread.System.Sound.{CanResume, Place, occupant, joiner_of, Base, CanRun-live, CanRun-frame}
use gthread.System.Departs.{Departs}
use gthread.System.Still.{joiner_of-same, joiner_of-none}
use gthread.Node.Choice.{IsReady}
use mathlib.Core.Path.{subst}
use native.Mathlib.Decide.{ℕ_discrete}
use gthread.Task.{Task, stopped}
use gthread.Effects.{World, current_of, task_of}
use gthread.Common.{
  ◌≡◌, refl, sym, ap, ◌∙◌, ◌≢◌, ◌⊎◌, inl, inr, true, some, List, [], ◌∷◌, arith, Ptr, null, count,
}

-- The current task has left for good, for `x`; `q` is what it leaves on the runqueue.
pub record Leaves (s : System) (v : World) (x : Ptr) (q : List Ptr) (k : Frame) : Type 0 where
  pub ready : IsReady v
  pub next : current_of v ≡ x
  pub queue : v.node.rq.runqueue ≡ q
  pub here : v.on_node v.tls_now ≡ true
  pub awake : v.node.rq.sleepqueue ≡ []
  pub state : (task_of v (current_of s.world)).run_state ≡ stopped
  pub flag : (task_of v (current_of s.world)).no_preempt_flag ≡ true
  pub states :
      (p : Ptr) → current_of s.world ≢ p → (task_of v p).run_state ≡ (task_of s.world p).run_state
  pub flags :
      (p : Ptr)
      → current_of s.world ≢ p
      → (task_of v p).no_preempt_flag ≡ (task_of s.world p).no_preempt_flag
  pub members : (p : Ptr) → count p (x ∷ q) ≡ count p s.world.node.rq.runqueue
  pub occupants : (a : Place) → occupant v a ≡ occupant s.world a
  pub ended :
      (p : Ptr)
      → count p s.world.node.rq.runqueue ≢ 0
      → s.awaits p ≢ null
      → (task_of v (s.awaits p)).run_state ≡ stopped
  pub returns : CanResume (some k) (current_of s.world) null true

pub Leaves-Departs :
    (s : System) (v : World) (x : Ptr) (q : List Ptr) (k : Frame)
    → Base s
    → Leaves s v x q k
    → Departs s v x k stopped null
Leaves-Departs s v x q k g m =
    let queue : (y : Ptr) → count y v.node.rq.runqueue ≡ count y q = λ y. ap (count y) m.queue in
    let there : count x s.world.node.rq.runqueue ≢ 0 = λ e. ground (arith, m.members x) in
    let before : (y : Ptr)
        → (y ≡ x) ⊎ (count y v.node.rq.runqueue ≢ 0)
        → count y s.world.node.rq.runqueue ≢ 0 =
      λ y h. elim h [
        | inl e ↦ λ z. there (ap (λ k. count k s.world.node.rq.runqueue) (sym e) ∙ z)
        | inr n ↦ λ e. n (ground (arith, queue y, m.members y))
      ] in
    record {
      ready = m.ready;
      next = m.next;
      here = m.here;
      awake = m.awake;
      state = m.state;
      flag = m.flag;
      states = m.states;
      flags = m.flags;
      other = λ h. there (ap (λ z. count z s.world.node.rq.runqueue) h ∙ g.ready.absent);
      live = CanRun-live s x (g.queued x there);
      frame = CanRun-frame s x (g.queued x there);
      ended = λ y h _ a. m.ended y (before y h) a;
      returns = m.returns;
      queued = λ y n.
          let l = before y (inr n) in
          inr (λ h. l (ap (λ z. count z s.world.node.rq.runqueue) h ∙ g.ready.absent), l);
      parked = λ b y e n.
          let i = sym (m.occupants b) ∙ e in
          let c = g.parked b y i n in
          (
            λ l. there (ap (λ z. count z s.world.node.rq.runqueue) (sym l) ∙ c.1),
            ground (arith, queue y, m.members y, c.1),
            inr (c.0, i),
          );
      apart = λ a b e n.
          g.apart a b (sym (m.occupants a) ∙ (e ∙ m.occupants b)) (λ h. n (m.occupants a ∙ h));
      kept_current = inr refl;
      kept = λ y nn n o h. elim h [
        | inl e ↦ inl (ground (arith, queue y, m.members y))
        | inr (b, e) ↦ inr (b, m.occupants b ∙ e)
      ];
    }

joiner_of-stopped : (t : Task) → t.run_state ≡ stopped → joiner_of t ≡ null
joiner_of-stopped t e = rw e refl

-- The places of the end of a task, when the current one, which nobody joins, has ended.
pub ends_left :
    (v w : World)
    → (task_of v (current_of w)).run_state ≡ stopped
    → (task_of w (current_of w)).joiner ≡ null
    → ((p : Ptr) → current_of w ≢ p → (task_of v p).run_state ≡ (task_of w p).run_state)
    → ((p : Ptr) → current_of w ≢ p → (task_of v p).joiner ≡ (task_of w p).joiner)
    → (t : Ptr) → joiner_of (task_of v t) ≡ joiner_of (task_of w t)
ends_left v w e n r j t = elim (ℕ_discrete (current_of w) t) [
  | yes h ↦
      subst (λ k. joiner_of (task_of v k) ≡ joiner_of (task_of w k)) h
        (joiner_of-stopped (task_of v (current_of w)) e
          ∙ sym (joiner_of-none (task_of w (current_of w)) n))
  | no c ↦ joiner_of-same (task_of v t) (task_of w t) (r t c) (j t c)
]
