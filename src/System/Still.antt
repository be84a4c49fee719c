-- ===== src/System/Still.antt =====
-- Steps after which the same task is current and every task is where it was.
use gthread.System.{System}
use gthread.System.Sound.{IsOff, Place, occupant, joiner_of, Sound}
use gthread.Node.Choice.{IsReady}
use mathlib.Core.Path.{subst}
use native.Mathlib.Decide.{ℕ_discrete}
use gthread.Task.{Task, RunState, suspended, stopped, waiting, is_state}
use gthread.Effects.{World, current_of, task_of}
use gthread.Common.{◌≡◌, refl, sym, ap, ◌∙◌, ◌≢◌, inl, inr, false, arith, Ptr, null, count}

pub IsOff-same :
    (s u : System) (p : Ptr) (st : RunState)
    → (task_of u.world p).run_state ≡ (task_of s.world p).run_state
    → (task_of u.world p).no_preempt_flag ≡ (task_of s.world p).no_preempt_flag
    → u.frames p ≡ s.frames p
    → u.awaits p ≡ s.awaits p
    → IsOff s p st
    → IsOff u p st
IsOff-same s u p st e b f n o = (e ∙ o.0, rw f (rw n (rw b o.1)))

-- Two tasks that have not ended and have the same joiner.
pub joiner_of-live :
    (t u : Task)
    → is_state t.run_state stopped ≡ false
    → is_state u.run_state stopped ≡ false
    → t.joiner ≡ u.joiner
    → joiner_of t ≡ joiner_of u
joiner_of-live t u a b e = rw (a, b) e

pub joiner_of-same :
    (t u : Task) → t.run_state ≡ u.run_state → t.joiner ≡ u.joiner → joiner_of t ≡ joiner_of u
joiner_of-same t u e j = rw (e, j) refl

pub joiner_of-none : (t : Task) → t.joiner ≡ null → joiner_of t ≡ null
joiner_of-none t e = ground arith

pub joiner_of-some : (t : Task) → is_state t.run_state stopped ≡ false → joiner_of t ≡ t.joiner
joiner_of-some t e = rw e refl

-- a task that is in some other state has not ended
pub live_of : (r st : RunState) → r ≡ st → is_state st stopped ≡ false → is_state r stopped ≡ false
live_of r st e f = ap (λ r. is_state r stopped) e ∙ f

-- The places for the end of a task are as they were if the current task, which has not ended, keeps its
-- joiner, and with the waiters so are all places.
pub ends_same :
    (v w : World)
    → is_state (task_of v (current_of w)).run_state stopped ≡ false
    → is_state (task_of w (current_of w)).run_state stopped ≡ false
    → (task_of v (current_of w)).joiner ≡ (task_of w (current_of w)).joiner
    → ((p : Ptr) → current_of w ≢ p → task_of v p ≡ task_of w p)
    → (t : Ptr) → joiner_of (task_of v t) ≡ joiner_of (task_of w t)
ends_same v w l m j o t = elim (ℕ_discrete (current_of w) t) [
  | yes h ↦
      subst (λ k. joiner_of (task_of v k) ≡ joiner_of (task_of w k)) h
        (joiner_of-live (task_of v (current_of w)) (task_of w (current_of w)) l m j)
  | no n ↦ ap joiner_of (o t n)
]

pub occupants_same :
    (v w : World)
    → v.waiters ≡ w.waiters
    → ((t : Ptr) → joiner_of (task_of v t) ≡ joiner_of (task_of w t))
    → (a : Place) → occupant v a ≡ occupant w a
occupants_same v w e j (Place.at_waiter a) = ap (λ f. f a) e
occupants_same v w e j (Place.at_end t) = j t

-- What such a step leaves alone: the queues, up to their order, the places, and of each task its state
-- and whether it is in a critical section. The world is still ready.
pub record Still (w u : World) : Type 0 where
  pub ready : IsReady u
  pub same_current : current_of u ≡ current_of w
  pub here : u.on_node u.tls_now ≡ w.on_node w.tls_now
  pub awake : u.node.rq.sleepqueue ≡ w.node.rq.sleepqueue
  pub queue : (p : Ptr) → count p u.node.rq.runqueue ≡ count p w.node.rq.runqueue
  pub occupants : (a : Place) → occupant u a ≡ occupant w a
  pub states : (p : Ptr) → (task_of u p).run_state ≡ (task_of w p).run_state
  pub flags : (p : Ptr) → (task_of u p).no_preempt_flag ≡ (task_of w p).no_preempt_flag

-- the system after such a step
abbrev pub stilled : System → World → System
stilled s w = record { world = w; frames = s.frames; awaits = s.awaits }

pub Still-Sound : (s : System) (w : World) → Sound s → Still s.world w → Sound (stilled s w)
Still-Sound s w g m =
    let off : (p : Ptr) (st : RunState) → IsOff s p st → IsOff (stilled s w) p st =
      λ p st o. IsOff-same s (stilled s w) p st (m.states p) (m.flags p) refl refl o in
    record {
      base = record {
        ready = m.ready;
        here = m.here ∙ g.base.here;
        runs =
            ap (λ k. (task_of w k).run_state) m.same_current
            ∙ (m.states (current_of s.world) ∙ g.base.runs);
        unflagged =
            ap (λ k. (task_of w k).no_preempt_flag) m.same_current
            ∙ (m.flags (current_of s.world) ∙ g.base.unflagged);
        awake = m.awake ∙ g.base.awake;
        awaits_none = ap s.awaits m.same_current ∙ g.base.awaits_none;
        queued = λ p n. elim (g.base.queued p (λ e. n (m.queue p ∙ e))) [
          | inl c ↦ inl (off p suspended c)
          | inr c ↦ inr (off p waiting c)
        ];
        parked = λ a p e n.
            let c = g.base.parked a p (sym (m.occupants a) ∙ e) n in
            (λ h. c.0 (h ∙ m.same_current), m.queue p ∙ c.1, c.2, off p waiting c.3);
        apart = λ a b e n.
            g.base.apart a b (sym (m.occupants a) ∙ (e ∙ m.occupants b))
              (λ h. n (m.occupants a ∙ h));
        kept = λ p n.
            let c = g.base.kept p n in
            (
              c.0,
              elim c.1 [
                | inl (inl e) ↦ inl (inl (m.queue p ∙ e))
                | inl (inr (a, e)) ↦ inl (inr (a, m.occupants a ∙ e))
                | inr e ↦ inr (m.states p ∙ e)
              ],
            );
      };
      joins = λ p n a. m.states (s.awaits p) ∙ g.joins p (λ e. n (m.queue p ∙ e)) a;
    }
