-- ===== src/System/End.antt =====
-- The step `exits`: the current task ends, and the task that joins it, if there is one, is put on the
-- runqueue.
use gthread.System.{System, act, exits, after_call}
use gthread.System.Sound.{at_end, occupant, Sound}
use gthread.System.Departs.{ended-still}
use gthread.System.Depart.{Departs-Sound}
use gthread.System.Still.{stilled, occupants_same, joiner_of-same, joiner_of-none, joiner_of-some}
use gthread.System.Yield.{current-live}
use gthread.System.Wait.{end-Takes}
use gthread.System.Wake.{Joins-Base, Frees, Frees-Joins}
use gthread.Node.Schedule.{scheduled, scheduled-IsReady, occurs-scheduled}
use gthread.Preempt.Critical.{with_task-IsReady}
use gthread.Sched.Unjoined.{Ends, exit-Ends}
use gthread.Sched.Exit.{HandsOver, exit-HandsOver}
use native.Mathlib.Decide.{ℕ_discrete}
use gthread.Task.{stopped}
use gthread.Effects.{World, bind, pure, current_of, task_of, with_task}
use gthread.Common.{
  ◌≡◌, refl, sym, ap, ◌∙◌, ◌≢◌, ◌⊎◌, inl, inr, false, none, some, List, ◌∷◌, arith, Ptr, null,
  count,
}
use gthread.System.Leaves.{Leaves, Leaves-Departs, ends_left}

-- What a task that ends asks for: it has an entry function, and it is joined and attached or another task
-- can run.
pub record CanEnd (s : System) : Type 0 where
  pub some_entry : (task_of s.world (current_of s.world)).entry ≢ null
  pub goes_on :
      (((task_of s.world (current_of s.world)).joiner ≢ null)
        × ((task_of s.world (current_of s.world)).detached ≡ false))
      ⊎ (((task_of s.world (current_of s.world)).joiner ≡ null)
          × ((x : Ptr) × (q : List Ptr) × (s.world.node.rq.runqueue ≡ x ∷ q)))

module _ (s : System) (g : Sound s) (value : Ptr) where
  Ends-Leaves :
      (x : Ptr) (q : List Ptr)
      → (task_of s.world (current_of s.world)).joiner ≡ null
      → s.world.node.rq.runqueue ≡ x ∷ q
      → (m : Ends s.world value x q) → Leaves s m.world x q (λ u. bind (m.rest u) (λ _. pure none))
  Ends-Leaves x q alone first m = record {
    ready = m.ready;
    next = m.next;
    queue = m.queue;
    here = m.here;
    awake = m.awake;
    state = m.is_stopped;
    flag = m.flag;
    states = λ p c. ap (λ t. t.run_state) (m.others p c);
    flags = λ p c. ap (λ t. t.no_preempt_flag) (m.others p c);
    members = λ p. ap (count p) (sym first);
    occupants = occupants_same m.world s.world m.waiters (
        ends_left m.world s.world m.is_stopped alone (λ p c. ap (λ t. t.run_state) (m.others p c))
          (λ p c. ap (λ t. t.joiner) (m.others p c)));
    ended = ended-still s m.world g (λ p c. ap (λ t. t.run_state) (m.others p c));
    returns =
        inl (refl, inl (refl, λ u c f b. ap (λ r. bind r (λ _. pure none)) (m.returns u c f b)));
  }

  -- Nobody joins the current task.
  unjoined-Sound :
      (task_of s.world (current_of s.world)).entry ≢ null
      → (task_of s.world (current_of s.world)).joiner ≡ null
      → ((x : Ptr) × (q : List Ptr) × (s.world.node.rq.runqueue ≡ x ∷ q))
      → (u : System) × (after_call s null (act (exits value) s.world) ≡ some u) × Sound u
  unfolding act
  unjoined-Sound entry alone (x, q, first) =
      let m =
        exit-Ends s.world value x q g.base.ready g.base.here entry g.base.unflagged alone
          g.base.awake first in
      let (u, k, i) =
        Departs-Sound s m.world x (λ u. bind (m.rest u) (λ _. pure none)) stopped null g.base
          (Leaves-Departs s m.world x q (λ u. bind (m.rest u) (λ _. pure none)) g.base
            (Ends-Leaves x q alone first m)) in
      (u, ap (λ r. after_call s null (bind r (λ _. pure none))) m.leaves ∙ k, i)

  -- The world in which nobody joins the current task any more and its joiner is scheduled.
  abbrev woken : Ptr → World
  woken j =
      scheduled
        (with_task s.world (current_of s.world)
          (record (task_of s.world (current_of s.world)) { joiner = null }))
        j

  module _ (j : Ptr) (n : j ≢ null) (e : (task_of s.world (current_of s.world)).joiner ≡ j) where
    joined : occupant s.world (at_end (current_of s.world)) ≡ j
    joined = joiner_of-some (task_of s.world (current_of s.world)) (current-live s g) ∙ e

    woken_others :
        (p : Ptr)
        → current_of s.world ≢ p
        → ((task_of (woken j) p).run_state ≡ (task_of s.world p).run_state)
          × ((task_of (woken j) p).no_preempt_flag ≡ (task_of s.world p).no_preempt_flag)
          × ((task_of (woken j) p).joiner ≡ (task_of s.world p).joiner)
    woken_others p c = (ground arith, ground arith, ground arith)

    woken_current :
        j ≢ current_of s.world
        → task_of (woken j) (current_of s.world)
          ≡ record (task_of s.world (current_of s.world)) { joiner = null }
    woken_current c = ground arith

    members-woken :
        (p : Ptr) → count p (woken j).node.rq.runqueue ≡ count p (j ∷ s.world.node.rq.runqueue)
    members-woken p =
        occurs-scheduled
          (with_task s.world (current_of s.world)
            (record (task_of s.world (current_of s.world)) { joiner = null }))
          j p

    woken-Frees : Frees s.world (woken j) (at_end (current_of s.world)) j
    woken-Frees =
        let c = g.base.parked (at_end (current_of s.world)) j joined n in
        let t = woken_current c.0 in
        record {
          ready =
              scheduled-IsReady
                (with_task s.world (current_of s.world)
                  (record (task_of s.world (current_of s.world)) { joiner = null }))
                j (with_task-IsReady s.world (current_of s.world) _ refl g.base.ready) n c.0 c.1;
          same_current = refl;
          here = refl;
          awake = refl;
          runs = ap (λ k. k.run_state) t;
          unflagged = ap (λ k. k.no_preempt_flag) t ∙ g.base.unflagged;
          state = inr ((woken_others j (λ e. c.0 (sym e))).0 ∙ c.3.0);
          flag = (woken_others j (λ e. c.0 (sym e))).1;
          states = λ q _ o. (woken_others q o).0;
          flags = λ q _ o. (woken_others q o).1;
          queue = members-woken;
          takes =
              end-Takes s.world (woken j) (current_of s.world) null refl
                (joiner_of-none (task_of (woken j) (current_of s.world)) (ap (λ k. k.joiner) t))
                (λ q o.
                  joiner_of-same (task_of (woken j) q) (task_of s.world q)
                    (woken_others q (λ e. o (sym e))).0 (woken_others q (λ e. o (sym e))).2);
        }

    HandsOver-Leaves :
        (x : Ptr) (q : List Ptr)
        → (m : HandsOver s.world value j x q)
        → Leaves (stilled s (woken j)) m.world x q (λ u. bind (m.rest u) (λ _. pure none))
    HandsOver-Leaves x q m =
        let c = g.base.parked (at_end (current_of s.world)) j joined n in
        record {
          ready = m.ready;
          next = m.next;
          queue = m.queue;
          here = m.here;
          awake = m.awake;
          state = m.is_stopped;
          flag = m.flag;
          states = λ p o. m.states p o ∙ sym (woken_others p o).0;
          flags = λ p o. m.flags p o ∙ sym (woken_others p o).1;
          members = λ p. m.members p ∙ sym (members-woken p);
          occupants = occupants_same m.world (woken j) m.waiters (
              ends_left m.world (woken j) m.is_stopped (ap (λ k. k.joiner) (woken_current c.0))
                (λ p o. m.states p o ∙ sym (woken_others p o).0)
                (λ p o. m.joiners p o ∙ sym (woken_others p o).2));
          ended = λ p h a. elim (ℕ_discrete p j) [
            | yes e ↦ ap (λ k. (task_of m.world k).run_state) (ap s.awaits e ∙ c.2) ∙ m.is_stopped
            | no o ↦ ended-still s m.world g m.states p (λ z. h (ground (arith, members-woken p))) a
          ];
          returns =
              inl (
                refl,
                inl (refl, λ u c f b. ap (λ r. bind r (λ _. pure none)) (m.returns u c f b)),
              );
        }

    -- The joiner of the current task is put on the runqueue.
    joined-Sound :
        (task_of s.world (current_of s.world)).entry ≢ null
        → (task_of s.world (current_of s.world)).detached ≡ false
        → (u : System) × (after_call s null (act (exits value) s.world) ≡ some u) × Sound u
    unfolding act
    joined-Sound entry attached =
        let c = g.base.parked (at_end (current_of s.world)) j joined n in
        let (x, q, m) =
          exit-HandsOver s.world value j g.base.ready g.base.here entry g.base.unflagged attached e
            n c.0 c.1 g.base.awake in
        let base =
          Joins-Base s (stilled s (woken j)) j g.base
            (Frees-Joins s (woken j) (at_end (current_of s.world)) j g.base joined n woken-Frees) in
        let (u, k, i) =
          Departs-Sound (stilled s (woken j)) m.world x (λ u. bind (m.rest u) (λ _. pure none))
            stopped null base
            (Leaves-Departs (stilled s (woken j)) m.world x q
              (λ u. bind (m.rest u) (λ _. pure none)) base (HandsOver-Leaves x q m)) in
        (u, ap (λ r. after_call s null (bind r (λ _. pure none))) m.leaves ∙ k, i)

  pub exits-Sound :
      CanEnd s → (u : System) × (after_call s null (act (exits value) s.world) ≡ some u) × Sound u
  unfolding act
  exits-Sound d = elim d.goes_on [
    | inl (n, a) ↦ joined-Sound (task_of s.world (current_of s.world)).joiner n refl d.some_entry a
    | inr (z, r) ↦ unjoined-Sound d.some_entry z r
  ]
