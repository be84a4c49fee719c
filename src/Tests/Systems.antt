-- ===== src/Tests/Systems.antt =====
-- A program of two tasks, which wait for each other at a waiter.
use gthread.System.{
  System, Op, yields, rings, parks, unparks, swaps, exits, detaches, joins, spawns, run, step, act,
  enter_task,
}
use gthread.Sched
use gthread.Node
use gthread.RunQueue
use gthread.Preempt
use gthread.Waiter
use gthread.Waiter.{park, park_if, park_checked, unpark, resume_parked, swap, trade_places}
use gthread.Preempt.{trap, trap_held, is_held}
use gthread.System.Sound.{Place, at_waiter, at_end, occupant, Sound}
use gthread.System.Unpark.{GetsNew}
use gthread.System.Reach.{Follows, initial, initial_occupant, program-Sound}
use gthread.System.End.{CanEnd}
use gthread.System.Join.{CanJoin}
use gthread.Outcome.{OnSome}
use gthread.Sched.Context.{sched_context, set_up}
use gthread.Memory.{k_light_attr, allocate_stack, protect}
use gthread.Tests.Worlds.{alone, sizes, freelist, os}
use gthread.Task.{create, place, construct}
use gthread.Freelist.{make_task, take_free, supply, return_task, insert_task}
use gthread.Effects.{ok}
use gthread.Common.{
  ◌≢◌, ◌≡◌, refl, sym, ◌∙◌, inl, null, false, Option, none, some, List, [], ◌∷◌, ◌++◌, inr, arith,
  update, Ptr,
}

abbrev fourth : Ptr
fourth = 37822264

-- The host starts a task and yields; the task waits at 50, the host takes its place, and the task
-- unparks it; then the alarm rings.
abbrev at_waiter_50 : List Op
at_waiter_50 = spawns k_light_attr 7 9 ∷ yields ∷ parks 50 ∷ swaps 50 ∷ unparks 50 ∷ rings ∷ []

-- Then the host joins the task, which ends.
abbrev program : List Op
program =
    spawns k_light_attr 7 9
    ∷ yields
    ∷ parks 50
    ∷ swaps 50
    ∷ unparks 50
    ∷ rings
    ∷ joins fourth
    ∷ exits 6
    ∷ []

-- nobody waits in the world that the program starts from
empty : (a : Place) → occupant alone a ≡ null
empty (at_waiter a) = refl
empty (at_end t) = ground arith

at_none : (a : Place) → occupant (initial 400 alone).world a ≢ fourth
at_none a h = absurd (omega (arith, sym (initial_occupant 400 alone empty a) ∙ h))

new : GetsNew (initial 400 alone) k_light_attr 7
unfolding make_task take_free supply create place allocate_stack protect
new = record {
  some_entry = omega arith;
  task = fourth;
  freelist = record freelist { max_size = 64 };
  heap = record ((set_up 400 alone).heap) {
    maps = 3;
    tasks =
        update (set_up 400 alone).heap.tasks fourth (construct sizes 37822464 fourth 4202496 false);
  };
  makes = refl;
  some_task = omega arith;
  other = omega arith;
  off_queue = refl;
  at_none = at_none;
  unawaited = λ q. omega arith;
  unjoined = refl;
}

-- the system after a run
after : List Op → Option System
unfolding run step act enter_task Sched.join Sched.join_or_wait Sched.collect Sched.return_task
    Sched.detach Sched.detach_running Node.return_task return_task insert_task Sched.spawn
    Sched.make_task Sched.start Sched.yield Sched.exit Sched.finish Preempt.lock Preempt.unlock
    Preempt.node Node.schedule Node.schedule_body Node.lock Node.unlock Node.yield Node.reschedule
    Node.return_deferred Node.get_next_task Node.charge Node.put_back Node.tick Node.switch_task
    Node.leave_for Node.come_back Node.enter RunQueue.push RunQueue.pop RunQueue.emplace
    RunQueue.refill RunQueue.take_first RunQueue.is_empty make_task take_free supply create place
    allocate_stack protect park park_if park_checked unpark Waiter.release resume_parked trap
    trap_held is_held swap trade_places Node.switch_to Node.charge_and_tick
after os = run os (initial 400 alone)

-- the runqueue and the free tasks after a run
queue_after : List Op → Option (List Ptr)
unfolding after
queue_after os = elim (after os) [ none ↦ none | some s ↦ some s.world.node.rq.runqueue ]

free_after : List Op → Option (List Ptr)
unfolding after
free_after os = elim (after os) [ none ↦ none | some s ↦ some s.world.freelist.list ]

cons_ne : (x : Ptr) (q : List Ptr) → ◌≢◌ {A = List Ptr} (x ∷ q) []
cons_ne x q e = absurd (cc e)

-- The task starts, and the host runs again once it has waited at 50.
first_steps : queue_after (spawns k_light_attr 7 9 ∷ yields ∷ parks 50 ∷ []) ≡ some []
unfolding queue_after
first_steps = refl

last_steps : queue_after program ≡ some []
unfolding queue_after
last_steps = refl

-- The host detaches a task, which ends; it is with the free tasks only once the host has yielded.
abbrev detached_end : List Op
detached_end = spawns k_light_attr 7 9 ∷ detaches fourth ∷ yields ∷ exits 6 ∷ []

still_kept : free_after detached_end ≡ some []
unfolding free_after
still_kept = refl

then_free : free_after (detached_end ++ (yields ∷ [])) ≡ some (fourth ∷ [])
unfolding free_after
then_free = refl

can_join : OnSome (λ s. CanJoin s fourth) (run at_waiter_50 (initial 400 alone))
unfolding after
can_join = record {
  some_task = omega arith;
  other = omega arith;
  unjoined = refl;
  goes_on = inr (refl, (fourth, [], refl));
}

can_end : OnSome CanEnd (run (at_waiter_50 ++ (joins fourth ∷ [])) (initial 400 alone))
unfolding after
can_end = record { some_entry = omega arith; goes_on = inl (omega arith, refl) }

program-Follows : Follows program (initial 400 alone)
unfolding after
program-Follows = (new, (tt, (inr (cons_ne 400 []), (tt, (tt, (tt, (can_join, (can_end, tt))))))))

program-Sound_example :
    (sched_context 400 alone ≡ ok tt (set_up 400 alone))
    × ((s : System) × (run program (initial 400 alone) ≡ some s) × Sound s)
program-Sound_example = program-Sound 400 alone program (omega arith) empty program-Follows
