-- ===== src/Tests/Calls.antt =====
-- The calls of a program on the small worlds.
use gthread.Threads.Copies.{copies-return_twice}
use gthread.Preempt.Fair.{Spares, Preempts, trap-fair}
use gthread.Preempt.Critical.{flagged}
use gthread.Node.Choice.{Picks}
use gthread.Common.{some, Option, ◌≢◌, ◌⊎◌}
use gthread.Sched.Context.{sched_context-IsReady, sched_context}
use gthread.Waiter.Swap.{swap-Trades, Trades}
use gthread.Sched.Spawn.{spawn-Launches, Launches}
use gthread.Memory.{protect, allocate_stack, k_light_attr}
use gthread.Outcome.{runtime_error}
use gthread.Threads.{marshall, call}
use gthread.Threads
use gthread.Freelist
use gthread.Outcome.{Result}
use gthread.Freelist.{take_free, supply}
use gthread.Tests.Worlds.{alone, sizes, os, freelist, tasks, heap, busy, world, busy-IsReady}
use gthread.Node.Choice.{IsReady}
use gthread.Sched.{exit, spawn}
use gthread.Sched.Exit.{exit-HandsOver, HandsOver}
use gthread.Waiter.{unpark, waiting_at, set_waiter}
use gthread.Waiter.Park.{park-Parks, Parks}
use gthread.Waiter.Unpark.{unpark-IsReady}
use gthread.Sched.Context.{sched_context, sched_context-IsReady}
use gthread.Sched
use gthread.Sched.Value.{join-takes_exit}
use gthread.Sched.Join.{join-Awaits, Awaits}
use gthread.Task.{running, host_task, construct, place, Heap, create, suspended, waiting, stopped}
use gthread.Effects.{switched, Run, current_of, throw, World, ok, task_of, with_task}
use gthread.Common.{update, ◌≡◌, refl, true, false, List, [], ◌∷◌, arith, Ptr, null, count}

trap-fair_example :
    (x : Ptr) × (q : List Ptr) × Picks (flagged busy true) x q
    × (((x ≡ 100) × Spares busy q) ⊎ ((x ≢ 100) × Preempts busy x q))
trap-fair_example = trap-fair busy busy-IsReady refl refl refl refl

-- 300 joins 100
abbrev joined : World
joined = with_task (world (200 ∷ [])) 100 (record (task_of busy 100) { joiner = 300 })

joined-IsReady : IsReady joined
joined-IsReady = record {
  is_running = refl;
  free = refl;
  some_current = omega arith;
  sorted = (tt, tt);
  live = refl;
  absent = refl;
  once = λ a. ground arith;
}

exit-HandsOver_example : (x : Ptr) × (q : List Ptr) × HandsOver joined 5 300 x q
exit-HandsOver_example =
    exit-HandsOver joined 5 300 joined-IsReady refl (omega arith) refl refl refl (omega arith)
      (omega arith) refl refl

join-Awaits_example : Awaits busy 300 true 200 (300 ∷ [])
join-Awaits_example =
    join-Awaits busy 300 true 200 (300 ∷ []) busy-IsReady (omega arith) (omega arith) refl refl refl
      refl refl refl

-- 300 runs alone, and 100 was left in its `join`
abbrev awaited : World
awaited =
    record (with_task
      (with_task alone 100
        (record (task_of alone 100) { run_state = waiting; no_preempt_flag = true }))
      300 (record (task_of alone 300) { run_state = running; joiner = 100 })) { threads = λ _. 300 }

awaited-IsReady : IsReady awaited
awaited-IsReady = record {
  is_running = refl;
  free = refl;
  some_current = omega arith;
  sorted = tt;
  live = refl;
  absent = refl;
  once = λ a. omega arith;
}

join-takes_exit_example :
    (w : World) × (rest : World → Run (Option Ptr × Ptr)) × (Sched.join (some 300) true busy
      ≡ switched w rest)
    × ((task_of w 300).joiner ≡ 100)
    × ((v : World) × (k : World → Run (Unit {0})) × (Sched.exit 5 awaited ≡ switched v k)
        × (current_of v ≡ 100)
        × ((u : World) × (rest v ≡ ok (some 5, null) u)))
join-takes_exit_example =
    join-takes_exit busy awaited 300 5 200 true (300 ∷ []) busy-IsReady (omega arith) (omega arith)
      refl refl refl refl refl refl awaited-IsReady refl refl (omega arith) refl refl refl refl refl
      refl

-- 300 has ended with the value 5
abbrev ended : World
ended = with_task busy 300 (record (task_of busy 300) { run_state = stopped; return_value = 5 })

park-Parks_example : Parks busy 50 200 (300 ∷ [])
park-Parks_example = park-Parks busy 50 200 (300 ∷ []) busy-IsReady refl refl refl refl refl

-- 300 waits at 50
abbrev held : World
held =
    set_waiter 50 300
      (with_task (world (200 ∷ [])) 300 (record (task_of busy 300) { run_state = waiting }))

held-IsReady : IsReady held
held-IsReady = record {
  is_running = refl;
  free = refl;
  some_current = omega arith;
  sorted = (tt, tt);
  live = refl;
  absent = refl;
  once = λ a. ground arith;
}

unpark-IsReady_example :
    (u : World) × (unpark 50 held ≡ ok true u)
    × IsReady u
    × (waiting_at 50 u ≡ null)
    × ((task_of u 300).run_state ≡ suspended)
    × ((q : Ptr) → count q u.node.rq.runqueue ≡ count q (300 ∷ 200 ∷ []))
unpark-IsReady_example =
    unpark-IsReady held 50 300 held-IsReady refl refl refl (omega arith) refl (omega arith) refl

swap-Trades_example : Trades held 50 300
swap-Trades_example =
    swap-Trades held 50 300 held-IsReady refl refl refl (omega arith) refl (omega arith) refl

sched_context-IsReady_example :
    (u : World) × (sched_context 400 alone ≡ ok tt u)
    × IsReady u
    × (u.on_node u.tls_now ≡ true)
    × (u.node.rq.runqueue ≡ [])
    × (u.node.rq.sleepqueue ≡ [])
    × (u.node.deferred ≡ null)
    × (current_of u ≡ 400)
    × (task_of u 400 ≡ record host_task { tls = 10; run_state = running })
    × (u.waiters ≡ (λ _. null))
    × ((v : Ptr) → exit v u ≡ throw runtime_error u)
sched_context-IsReady_example = sched_context-IsReady 400 alone (omega arith)

-- where the fourth task lies: below the end of the third region that `mmap` hands out
abbrev fourth : Ptr
fourth = 37822264

-- the memory with the fourth task in it
abbrev with_fourth : Heap
with_fourth = record heap {
  maps = 3;
  tasks = update tasks fourth (construct sizes 37822464 fourth 4202496 false);
}

make_task-fourth :
    Freelist.make_task os sizes k_light_attr freelist heap
    ≡ Result.ok (fourth, freelist, with_fourth)
unfolding Freelist.make_task take_free supply create place allocate_stack protect
make_task-fourth = refl

spawn-Launches_example :
    (u : World) × (spawn k_light_attr 7 9 busy ≡ ok fourth u)
    × Launches busy fourth 7 9 u
    × (u.freelist ≡ freelist)
spawn-Launches_example =
    spawn-Launches k_light_attr 7 9 busy fourth freelist with_fourth busy-IsReady (omega arith) refl
      refl make_task-fourth (omega arith) (omega arith) refl

copies-return_twice_example :
    (u : World) × (v : World) × (Threads.destruct 300 ended ≡ ok tt u)
    × (Threads.destruct 300 u ≡ ok tt v)
    × (count 300 v.freelist.list ≡ 2)
copies-return_twice_example =
    copies-return_twice ended 300 (omega arith) (omega arith) (omega arith) refl refl (omega arith)
