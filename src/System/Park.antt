-- ===== src/System/Park.antt =====
-- The steps `parks` and `swaps`: the current task waits at a waiter.
use gthread.System.{System, act, parks, swaps, after_call}
use gthread.System.Sound.{at_waiter, Sound}
use gthread.System.Depart.{Departs-Sound}
use gthread.System.Still.{live_of, ends_same}
use gthread.System.Yield.{current-live}
use gthread.System.Wait.{Waits, waiter-Takes, first-Departs, trade-Departs}
use gthread.Waiter.{park, park_if, swap}
use gthread.Waiter.Unpark.{unpark-refuses}
use gthread.Preempt.Critical.{flagged}
use gthread.Node.Switch.{back}
use gthread.Waiter.Park.{Parks, park-Parks}
use gthread.Waiter.Swap.{Trades, swap-Trades, regained}
use gthread.Sched.Waiting.{resumed}
use native.Mathlib.Decide.{ℕ_discrete}
use gthread.Task.{waiting}
use gthread.Effects.{World, Run, ok, bind, pure, current_of, with_node}
use gthread.Common.{
  ◌≡◌, refl, ap, ◌∙◌, ◌≢◌, ◌⊎◌, inl, inr, Bool, false, true, none, some, List, [], ◌∷◌, Ptr, null,
  ==-of_ne,
}

nonempty : (q : List Ptr) → q ≢ [] → (x : Ptr) × (r : List Ptr) × (q ≡ x ∷ r)
nonempty [] n = absurd (n refl)
nonempty (x ∷ r) n = (x, r, refl)

-- the spin lock that is free need not be released
released : (u : World) → u.node.spin_lock ≡ false → regained u ≡ resumed u
released u f =
    ap (λ b. flagged (with_node (back u (current_of u)) (record (u.node) { spin_lock = b })) false)
      f

park-refuses : (w : World) (a : Ptr) → w.waiters a ≢ null → park a w ≡ ok false w
unfolding park park_if
park-refuses w a n = rw (==-of_ne (w.waiters a) 0 n) refl

module _ (s : System) (g : Sound s) where
  Parks-Waits :
      (a x : Ptr) (q : List Ptr) (m : Parks s.world a x q)
      → Waits s m.world (at_waiter a) (λ u. bind (m.rest u) (λ _. pure none))
  Parks-Waits a x q m = record {
    ready = m.ready;
    here = m.here;
    awake = m.awake;
    state = m.waits;
    flag = m.flag;
    states = λ p c. ap (λ t. t.run_state) (m.others p c);
    flags = λ p c. ap (λ t. t.no_preempt_flag) (m.others p c);
    takes = waiter-Takes s.world m.world a (current_of s.world) m.waiters (
        ends_same m.world s.world (live_of _ waiting m.waits refl) (current-live s g) m.joiner
          m.others);
    returns =
        inl (refl, inl (refl, λ u c f b. ap (λ r. bind r (λ _. pure none)) (m.returns u c f b)));
  }

  Trades-Waits :
      (a p : Ptr) (m : Trades s.world a p)
      → Waits s m.world (at_waiter a) (λ u. bind (m.rest u) (λ _. pure none))
  Trades-Waits a p m = record {
    ready = m.ready;
    here = m.here;
    awake = m.awake ∙ g.base.awake;
    state = ap (λ t. t.run_state) m.itself;
    flag = ap (λ t. t.no_preempt_flag) m.itself;
    states = λ p c. ap (λ t. t.run_state) (m.others p c);
    flags = λ p c. ap (λ t. t.no_preempt_flag) (m.others p c);
    takes = waiter-Takes s.world m.world a (current_of s.world) m.waiters (
        ends_same m.world s.world (live_of _ waiting (ap (λ t. t.run_state) m.itself) refl)
          (current-live s g) (ap (λ t. t.joiner) m.itself) m.others);
    returns = inl (
      refl,
      inl (
        refl,
        λ u e f b.
            ap (λ r. bind r (λ _. pure none)) (m.returns u e b ∙ ap (ok true) (released u f)),
      ),
    );
  }

  -- a call that returns false and changes nothing
  refused-Sound :
      (r : Run Bool)
      → r ≡ ok false s.world
      → (u : System) × (after_call s null (bind r (λ _. pure none)) ≡ some u) × Sound u
  refused-Sound r e = (s, ap (λ m. after_call s null (bind m (λ _. pure none))) e, g)

  pub parks-Sound :
      (a : Ptr)
      → (s.world.waiters a ≢ null) ⊎ (s.world.node.rq.runqueue ≢ [])
      → (u : System) × (after_call s null (act (parks a) s.world) ≡ some u) × Sound u
  unfolding act
  parks-Sound a h = elim (ℕ_discrete (s.world.waiters a) null) [
    | yes z ↦
        let (x, q, e) =
          nonempty s.world.node.rq.runqueue (elim h [ inl n ↦ absurd (n z) | inr n ↦ n ]) in
        let m =
          park-Parks s.world a x q g.base.ready g.base.here g.base.unflagged z g.base.awake e in
        let k = λ (u : World). bind (m.rest u) (λ _. pure none) in
        let (u, c, i) = Departs-Sound s m.world x k waiting null g.base (
          first-Departs s g m.world (at_waiter a) k (Parks-Waits a x q m) x q z e m.next m.queue) in
        (u, ap (λ r. after_call s null (bind r (λ _. pure none))) m.leaves ∙ c, i)
    | no n ↦ refused-Sound (park a s.world) (park-refuses s.world a n)
  ]

  pub swaps-Sound :
      (a : Ptr) → (u : System) × (after_call s null (act (swaps a) s.world) ≡ some u) × Sound u
  unfolding act
  swaps-Sound a = elim (ℕ_discrete (s.world.waiters a) null) [
    | yes z ↦ refused-Sound (swap a s.world) (unpark-refuses s.world a null z (inl refl)).1
    | no n ↦
        let p = s.world.waiters a in
        let c = g.base.parked (at_waiter a) p refl n in
        let m =
          swap-Trades s.world a p g.base.ready g.base.here g.base.unflagged refl n c.3.0 c.0 c.1 in
        let k = λ (u : World). bind (m.rest u) (λ _. pure none) in
        let (u, e, i) = Departs-Sound s m.world p k waiting null g.base (
          trade-Departs s g m.world (at_waiter a) k (Trades-Waits a p m) p refl refl n m.next
            m.queue) in
        (u, ap (λ r. after_call s null (bind r (λ _. pure none))) m.leaves ∙ e, i)
  ]
