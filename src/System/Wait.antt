-- ===== src/System/Wait.antt =====
-- How the current task leaves to wait: it takes a place, and control goes to the first task on the
-- runqueue or to the one whose place it takes.
use gthread.System.{System, Frame}
use gthread.System.Sound.{
  CanResume, Place, at_waiter, at_end, occupant, joiner_of, target, Sound, CanRun-frame,
}
use gthread.System.Departs.{Departs, ended-still}
use gthread.System.Still.{live_of}
use gthread.System.Yield.{queued-live}
use gthread.Node.Choice.{IsReady, first_other}
use native.Mathlib.Decide.{ℕ_discrete}
use gthread.Task.{waiting}
use gthread.Effects.{World, current_of, task_of}
use gthread.Common.{
  ◌≡◌, refl, sym, ap, ◌∙◌, ◌≢◌, ◌⊎◌, inl, inr, true, some, List, [], ◌∷◌, arith, Ptr, null, count,
  update, update_self, update_ne,
}

-- in `v`, the task `c` is at the place `a`, and all others are where they were
pub record Takes (w v : World) (a : Place) (c : Ptr) : Type 0 where
  pub taken : occupant v a ≡ c
  pub rest : (b : Place) → b ≢ a → occupant v b ≡ occupant w b

pub place_cases : (a b : Place) → (a ≡ b) ⊎ (a ≢ b)
place_cases (at_waiter a) (at_waiter b) = elim (ℕ_discrete a b) [
  | yes e ↦ inl (ap Place.at_waiter e)
  | no n ↦ inr (λ e. n (cc e))
]
place_cases (at_waiter a) (at_end t) = inr (λ e. absurd (cc e))
place_cases (at_end t) (at_waiter a) = inr (λ e. absurd (cc e))
place_cases (at_end t) (at_end u) = elim (ℕ_discrete t u) [
  | yes e ↦ inl (ap Place.at_end e)
  | no n ↦ inr (λ e. n (cc e))
]

waiter_rest :
    (w v : World) (a c : Ptr)
    → v.waiters ≡ update w.waiters a c
    → ((t : Ptr) → joiner_of (task_of v t) ≡ joiner_of (task_of w t))
    → (b : Place) → b ≢ at_waiter a
    → occupant v b ≡ occupant w b
waiter_rest w v a c e j (at_waiter b) n =
    ap (λ f. f b) e ∙ update_ne w.waiters a b c (λ h. n (ap Place.at_waiter (sym h)))
waiter_rest w v a c e j (at_end t) n = j t

pub waiter-Takes :
    (w v : World) (a c : Ptr)
    → v.waiters ≡ update w.waiters a c
    → ((t : Ptr) → joiner_of (task_of v t) ≡ joiner_of (task_of w t))
    → Takes w v (at_waiter a) c
waiter-Takes w v a c e j = record {
  taken = ap (λ f. f a) e ∙ update_self w.waiters a c;
  rest = waiter_rest w v a c e j;
}

end_rest :
    (w v : World) (p : Ptr)
    → v.waiters ≡ w.waiters
    → ((t : Ptr) → t ≢ p → joiner_of (task_of v t) ≡ joiner_of (task_of w t))
    → (b : Place) → b ≢ at_end p
    → occupant v b ≡ occupant w b
end_rest w v p e j (at_waiter a) n = ap (λ f. f a) e
end_rest w v p e j (at_end t) n = j t (λ h. n (ap Place.at_end h))

pub end-Takes :
    (w v : World) (p c : Ptr)
    → v.waiters ≡ w.waiters
    → joiner_of (task_of v p) ≡ c
    → ((t : Ptr) → t ≢ p → joiner_of (task_of v t) ≡ joiner_of (task_of w t))
    → Takes w v (at_end p) c
end-Takes w v p c e h j = record { taken = h; rest = end_rest w v p e j }

-- The current task has left to wait at `a`, to go on by `k`.
pub record Waits (s : System) (v : World) (a : Place) (k : Frame) : Type 0 where
  pub ready : IsReady v
  pub here : v.on_node v.tls_now ≡ true
  pub awake : v.node.rq.sleepqueue ≡ []
  pub state : (task_of v (current_of s.world)).run_state ≡ waiting
  pub flag : (task_of v (current_of s.world)).no_preempt_flag ≡ true
  pub states :
      (p : Ptr) → current_of s.world ≢ p → (task_of v p).run_state ≡ (task_of s.world p).run_state
  pub flags :
      (p : Ptr)
      → current_of s.world ≢ p
      → (task_of v p).no_preempt_flag ≡ (task_of s.world p).no_preempt_flag
  pub takes : Takes s.world v a (current_of s.world)
  pub returns : CanResume (some k) (current_of s.world) (target a) true

module _ (s : System) (g : Sound s) (v : World) (a : Place) (k : Frame) (m : Waits s v a k) where
  -- Who is at a place now: the current task, or one that was there before.
  taken_at :
      (b : Place) (p : Ptr)
      → occupant v b ≡ p
      → ((b ≡ a) × (p ≡ current_of s.world)) ⊎ ((b ≢ a) × (occupant s.world b ≡ p))
  taken_at b p e = elim (place_cases b a) [
    | inl h ↦ inl (h, sym e ∙ (ap (occupant v) h ∙ m.takes.taken))
    | inr n ↦ inr (n, sym (m.takes.rest b n) ∙ e)
  ]

  -- No place has the current task, so that one more is still apart.
  apart_after : (b c : Place) → occupant v b ≡ occupant v c → occupant v b ≢ null → b ≡ c
  apart_after b c e n =
      let cur = current_of s.world in
      elim (taken_at b (occupant v b) refl) [
        | inl (h, i) ↦ elim (taken_at c (occupant v b) (sym e)) [
          | inl (j, _) ↦ h ∙ sym j
          | inr (_, l) ↦ absurd ((g.base.parked c cur (l ∙ i) g.base.ready.some_current).0 refl)
        ]
        | inr (h, i) ↦ elim (taken_at c (occupant v b) (sym e)) [
          | inl (_, l) ↦ absurd ((g.base.parked b cur (i ∙ l) g.base.ready.some_current).0 refl)
          | inr (_, l) ↦ g.base.apart b c (i ∙ sym l) (λ j. n (sym i ∙ j))
        ]
      ]

  -- The place was free, and control goes to the first task on the runqueue.
  pub first-Departs :
      (x : Ptr) (q : List Ptr)
      → occupant s.world a ≡ null
      → s.world.node.rq.runqueue ≡ x ∷ q
      → current_of v ≡ x
      → v.node.rq.runqueue ≡ q
      → Departs s v x k waiting (target a)
  first-Departs x q z first next left =
      let members : (y : Ptr) → count y s.world.node.rq.runqueue ≡ count y (x ∷ q) =
        λ y. ap (count y) first in
      let queue : (y : Ptr) → count y v.node.rq.runqueue ≡ count y q = λ y. ap (count y) left in
      let there : count x s.world.node.rq.runqueue ≢ 0 = λ e. ground (arith, members x) in
      let before : (y : Ptr)
          → (y ≡ x) ⊎ (count y v.node.rq.runqueue ≢ 0)
          → count y s.world.node.rq.runqueue ≢ 0 =
        λ y h. elim h [
          | inl e ↦ λ z. there (ap (λ k. count k s.world.node.rq.runqueue) (sym e) ∙ z)
          | inr n ↦ λ e. n (ground (arith, queue y, members y))
        ] in
      record {
        ready = m.ready;
        next = next;
        here = m.here;
        awake = m.awake;
        state = m.state;
        flag = m.flag;
        states = m.states;
        flags = m.flags;
        other = (first_other s.world x q g.base.ready first).1;
        live = queued-live s g x there;
        frame = CanRun-frame s x (g.base.queued x there);
        ended = λ y h _ a. ended-still s v g m.states y (before y h) a;
        returns = m.returns;
        queued = λ y n.
            let l = before y (inr n) in
            inr (λ h. l (ap (λ z. count z s.world.node.rq.runqueue) h ∙ g.base.ready.absent), l);
        parked = λ b y e n. elim (taken_at b y e) [
          | inl (h, i) ↦ (
            λ l. (first_other s.world x q g.base.ready first).1 (sym l ∙ i),
            ap (λ z. count z v.node.rq.runqueue) i
                ∙ ground (
                  arith,
                  queue (current_of s.world),
                  members (current_of s.world),
                  g.base.ready.absent,
                ),
            inl (i, refl, ap target (sym h)),
          )
          | inr (h, i) ↦
              let c = g.base.parked b y i n in
              (
                λ l. there (ap (λ z. count z s.world.node.rq.runqueue) (sym l) ∙ c.1),
                ground (arith, queue y, members y, c.1),
                inr (c.0, i),
              )
        ];
        apart = apart_after;
        kept_current = inl (inr (a, m.takes.taken));
        kept = λ y nn n o h. elim h [
          | inl e ↦ inl (ground (arith, queue y, members y))
          | inr (b, e) ↦
              inr (b, m.takes.rest b (λ i. nn (sym e ∙ (ap (occupant s.world) i ∙ z))) ∙ e)
        ];
      }

  -- The task `p` was at the place, a waiter, and control goes to it.
  pub trade-Departs :
      (p : Ptr)
      → target a ≡ null
      → occupant s.world a ≡ p
      → p ≢ null
      → current_of v ≡ p
      → v.node.rq.runqueue ≡ s.world.node.rq.runqueue
      → Departs s v p k waiting (target a)
  trade-Departs p t z n next same =
      let c = g.base.parked a p z n in
      let queue : (y : Ptr) → count y v.node.rq.runqueue ≡ count y s.world.node.rq.runqueue =
        λ y. ap (count y) same in
      record {
        ready = m.ready;
        next = next;
        here = m.here;
        awake = m.awake;
        state = m.state;
        flag = m.flag;
        states = m.states;
        flags = m.flags;
        other = c.0;
        live = live_of _ waiting c.3.0 refl;
        frame = c.3.1;
        ended = λ y h _ i. elim h [
          | inl e ↦ absurd (i (ap s.awaits e ∙ (c.2 ∙ t)))
          | inr l ↦ ended-still s v g m.states y (λ e. l (queue y ∙ e)) i
        ];
        returns = m.returns;
        queued = λ y k.
            let l : count y s.world.node.rq.runqueue ≢ 0 = λ e. k (queue y ∙ e) in
            inr (λ h. l (ap (λ z. count z s.world.node.rq.runqueue) h ∙ g.base.ready.absent), l);
        parked = λ b y e i. elim (taken_at b y e) [
          | inl (h, l) ↦ (
            λ j. c.0 (sym j ∙ l),
            queue y ∙ (ap (λ z. count z s.world.node.rq.runqueue) l ∙ g.base.ready.absent),
            inl (l, refl, ap target (sym h)),
          )
          | inr (h, l) ↦
              let d = g.base.parked b y l i in
              (
                λ j. h (g.base.apart b a (l ∙ (j ∙ sym z)) (λ o. i (sym l ∙ o))),
                queue y ∙ d.1,
                inr (d.0, l),
              )
        ];
        apart = apart_after;
        kept_current = inl (inr (a, m.takes.taken));
        kept = λ y nn i o h. elim h [
          | inl e ↦ inl (queue y ∙ e)
          | inr (b, e) ↦
              inr (b, m.takes.rest b (λ j. i (sym e ∙ (ap (occupant s.world) j ∙ z))) ∙ e)
        ];
      }
