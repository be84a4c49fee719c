-- ===== src/System/Join.antt =====
-- The step `joins`: the current task takes a task that has ended, or waits for its end.
use gthread.System.{System, act, joins, after_call}
use gthread.System.Sound.{at_end, joiner_of, Sound}
use gthread.System.Depart.{Departs-Sound}
use gthread.System.Still.{
  joiner_of-some, stilled, Still-Sound, live_of, joiner_of-live, joiner_of-same, joiner_of-none,
}
use gthread.System.Quiet.{Quiet-Still}
use gthread.System.Yield.{current-live}
use gthread.System.Wait.{Waits, end-Takes, first-Departs}
use gthread.Sched.Detach.{visited, collected-Quiet}
use gthread.Sched.Join.{Awaits, join-Awaits, ended-join}
use gthread.Sched.Waiting.{collected}
use mathlib.Core.Path.{subst}
use native.Mathlib.Decide.{ℕ_discrete}
use gthread.Task.{stopped, waiting, is_state}
use gthread.Effects.{World, bind, pure, current_of, task_of}
use gthread.Common.{
  ◌≡◌, refl, sym, ap, ◌∙◌, ◌≢◌, ◌⊎◌, inl, inr, false, none, some, List, ◌∷◌, Ptr, null,
}

-- What `join` of the task `p` asks for: it is another task, that nobody joins, and it has ended or some
-- task can run meanwhile.
pub record CanJoin (s : System) (p : Ptr) : Type 0 where
  pub some_task : p ≢ null
  pub other : current_of s.world ≢ p
  pub unjoined : (task_of s.world p).joiner ≡ null
  pub goes_on :
      ((task_of s.world p).run_state ≡ stopped)
      ⊎ ((is_state (task_of s.world p).run_state stopped ≡ false)
          × ((x : Ptr) × (q : List Ptr) × (s.world.node.rq.runqueue ≡ x ∷ q)))

module _ (s : System) (g : Sound s) (p : Ptr) where
  -- the places for the end of other tasks
  other_ends :
      (x : Ptr) (q : List Ptr) (m : Awaits s.world p false x q)
      → (t : Ptr) → t ≢ p
      → joiner_of (task_of m.world t) ≡ joiner_of (task_of s.world t)
  other_ends x q m t n = elim (ℕ_discrete (current_of s.world) t) [
    | yes h ↦
        subst (λ k. joiner_of (task_of m.world k) ≡ joiner_of (task_of s.world k)) h
          (joiner_of-live (task_of m.world (current_of s.world))
            (task_of s.world (current_of s.world)) (live_of _ waiting m.waits refl)
            (current-live s g) (m.joiners (current_of s.world) (λ e. n (sym h ∙ e))))
    | no o ↦ joiner_of-same (task_of m.world t) (task_of s.world t) (m.states t o) (m.joiners t n)
  ]

  Awaits-Waits :
      (x : Ptr) (q : List Ptr)
      → p ≢ null
      → current_of s.world ≢ p
      → is_state (task_of s.world p).run_state stopped ≡ false
      → (m : Awaits s.world p false x q)
      → Waits s m.world (at_end p) (λ u. bind (m.rest u) (λ _. pure none))
  Awaits-Waits x q n other live m = record {
    ready = m.ready;
    here = m.here;
    awake = m.awake;
    state = m.waits;
    flag = m.flag;
    states = m.states;
    flags = m.flags;
    takes =
        end-Takes s.world m.world p (current_of s.world) m.waiters
          (joiner_of-some (task_of m.world p)
              (ap (λ r. is_state r stopped) (m.states p other) ∙ live)
            ∙ m.joined)
          (other_ends x q m);
    returns = inr (n, refl, λ u c f b e. ap (λ r. bind r (λ _. pure none)) (m.collects u c f b e));
  }

  pub joins-Sound :
      CanJoin s p → (u : System) × (after_call s p (act (joins p) s.world) ≡ some u) × Sound u
  unfolding act
  joins-Sound n = elim n.goes_on [
    | inl e ↦
        let w = collected (visited s.world) p in
        (
          stilled s w,
          ap (λ r. after_call s p (bind r (λ _. pure none)))
              (ended-join s.world p false n.some_task g.base.ready.some_current n.other
                g.base.unflagged n.unjoined e),
          Still-Sound s w g
              (Quiet-Still s.world w (collected-Quiet s.world p g.base.ready g.base.unflagged)),
        )
    | inr (live, c) ↦
        let (x, q, e) = c in
        let m =
          join-Awaits s.world p false x q g.base.ready n.some_task n.other g.base.here
            g.base.unflagged n.unjoined live g.base.awake e in
        let k = λ (u : World). bind (m.rest u) (λ _. pure none) in
        let (u, d, i) = Departs-Sound s m.world x k waiting p g.base (
          first-Departs s g m.world (at_end p) k (Awaits-Waits x q n.some_task n.other live m) x q
            (joiner_of-none (task_of s.world p) n.unjoined) e m.next m.queue) in
        (u, ap (λ r. after_call s p (bind r (λ _. pure none))) m.leaves ∙ d, i)
  ]
