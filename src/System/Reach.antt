-- ===== src/System/Reach.antt =====
-- What every run of the system keeps.
use gthread.System.{
  System, Op, yields, rings, parks, unparks, swaps, exits, detaches, joins, spawns, step, run,
}
use gthread.System.Sound.{Place, at_waiter, at_end, occupant, joiner_of, Sound}
use gthread.System.Yield.{yields-Sound, rings-Sound}
use gthread.System.Park.{parks-Sound, swaps-Sound}
use gthread.System.Unpark.{GetsNew, unparks-Sound, spawns-Sound}
use gthread.System.Join.{CanJoin, joins-Sound}
use gthread.System.End.{CanEnd, exits-Sound}
use gthread.System.Quiet.{detaches-Sound}
use gthread.Sched.Context.{
  sched_context, make_context, set_up, set_up-IsReady, current-set_up, host-set_up,
  sched_context_lem,
}
use mathlib.Core.Path.{subst}
use native.Mathlib.Decide.{ℕ_discrete}
use gthread.Outcome.{OnSome, of_some}
use gthread.Effects.{World, ok, task_of}
use gthread.Common.{
  ◌≡◌, refl, sym, ap, ◌∙◌, ◌≢◌, ◌⊎◌, true, Option, none, some, List, [], ◌∷◌, Ptr, null,
  update_self, update_ne,
}

-- What a step asks for: `parks` that the waiter is held or that another task can run, `spawns` that the
-- memory of the task is new, `exits` that the task can end, `detaches` a task, and `joins` one that it
-- can join.
abbrev pub Allowed : Op → System → Type 0
Allowed (parks a) s = (s.world.waiters a ≢ null) ⊎ (s.world.node.rq.runqueue ≢ [])
Allowed (spawns attr entry arg) s = GetsNew s attr entry
Allowed (exits value) s = CanEnd s
Allowed (detaches p) s = p ≢ null
Allowed (joins p) s = CanJoin s p
Allowed _ s = Unit

-- each step of a run finds what it asks for
abbrev pub Follows : List Op → System → Type 0
Follows [] s = Unit
Follows (o ∷ os) s = Allowed o s × OnSome (λ u. Follows os u) (step o s)

pub step-Sound :
    (o : Op) (s : System) → Sound s → Allowed o s → (u : System) × (step o s ≡ some u) × Sound u
unfolding step
step-Sound yields s g a = yields-Sound s g
step-Sound rings s g a = rings-Sound s g
step-Sound (parks p) s g a = parks-Sound s g p a
step-Sound (unparks p) s g a = unparks-Sound s p g
step-Sound (swaps p) s g a = swaps-Sound s g p
step-Sound (exits value) s g a = exits-Sound s g value a
step-Sound (detaches p) s g a = detaches-Sound s p g a
step-Sound (joins p) s g a = joins-Sound s g p a
step-Sound (spawns attr entry arg) s g a = spawns-Sound s attr entry arg g a

-- In a sound system a run whose steps find what they ask for comes to its end in a sound system.
pub run-Sound :
    (os : List Op) (s : System)
    → Sound s
    → Follows os s
    → (u : System) × (run os s ≡ some u) × Sound u
unfolding run
run-Sound [] s g f = (s, refl, g)
run-Sound (o ∷ os) s g (a, f) =
    let (u, e, h) = step-Sound o s g a in
    let (v, e', i) = run-Sound os u h (of_some (Follows os) (step o s) u f e) in
    (v, ap {B = Option System} (λ k. elim k [ none ↦ none | some u ↦ run os u ]) e ∙ e', i)

-- the system in which the scheduler was set up, with its host task alone
abbrev pub initial : Ptr → World → System
initial host w = record { world = set_up host w; frames = λ _. none; awaits = λ _. null }

-- nobody waits after the set-up if nobody did before it
pub initial_occupant :
    (host : Ptr) (w : World)
    → ((a : Place) → occupant w a ≡ null)
    → (a : Place) → occupant (set_up host w) a ≡ null
initial_occupant host w free (at_waiter a) = free (at_waiter a)
initial_occupant host w free (at_end t) = elim (ℕ_discrete host t) [
  | yes e ↦
      subst (λ k. joiner_of (task_of (set_up host w) k) ≡ null) e
        (ap joiner_of (host-set_up host w))
  | no n ↦
      ap joiner_of
        (update_ne (make_context host w).heap.tasks host t _ n ∙ update_ne w.heap.tasks host t _ n)
      ∙ free (at_end t)
]

initial-Sound :
    (host : Ptr) (w : World)
    → host ≢ null
    → ((a : Place) → occupant w a ≡ null)
    → Sound (initial host w)
initial-Sound host w n free =
    let empty = initial_occupant host w free in
    record {
      base = record {
        ready = set_up-IsReady host w n;
        here = update_self w.on_node w.tls_now true;
        runs =
            ap (λ p. (task_of (set_up host w) p).run_state) (current-set_up host w)
            ∙ ap (λ t. t.run_state) (host-set_up host w);
        unflagged =
            ap (λ p. (task_of (set_up host w) p).no_preempt_flag) (current-set_up host w)
            ∙ ap (λ t. t.no_preempt_flag) (host-set_up host w);
        awake = refl;
        awaits_none = refl;
        queued = λ p k. absurd (k refl);
        parked = λ a p h k. absurd (k (sym h ∙ empty a));
        apart = λ a b h k. absurd (k (empty a));
        kept = λ p k. absurd (k refl);
      };
      joins = λ p k. absurd (k refl);
    }

-- A program from the set-up of the scheduler on, with its host task at an address that is not null and
-- nobody waiting at a waiter or for the end of a task. Whatever its tasks call, as long as each `park`
-- leaves another task to run or finds the waiter held, each `spawn` gets a new task, each `exit` is
-- that of a task with an entry function and either wakes a joiner, the task being attached, or has none
-- and leaves another task to run, each `detach` has a task, and each `join` has another task that
-- nobody else joins and that has ended or leaves another task to run, the set-up and all calls come to
-- their end, none throws or faults, and the system is sound: each task that control has left is once on
-- the runqueue, or waits in one place, or has ended, and a task on the runqueue that was left in `join`
-- finds the other one ended.
pub program-Sound :
    (host : Ptr) (w : World) (os : List Op)
    → host ≢ null
    → ((a : Place) → occupant w a ≡ null)
    → Follows os (initial host w)
    → (sched_context host w ≡ ok tt (set_up host w))
      × ((s : System) × (run os (initial host w) ≡ some s) × Sound s)
program-Sound host w os n z f =
    (sched_context_lem host w, run-Sound os (initial host w) (initial-Sound host w n z) f)
