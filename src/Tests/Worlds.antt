-- ===== src/Tests/Worlds.antt =====
-- Three tasks on one node: the task at 100 runs, with thread-local storage at 10; the task at 200
-- has storage at 20 and the task at 300 has none.
use gthread.Memory.{Os}
use gthread.Task.{host_task, Sizes}
use gthread.Freelist.{Freelist}
use gthread.Node.Choice.{IsReady}
use gthread.Task.{Task, Heap, RunState, running, suspended, stopped, waiting}
use gthread.Effects.{World, Machine, task_of, with_task}
use gthread.Common.{ℕ, ◌+◌, ◌*◌, refl, true, false, List, [], ◌∷◌, arith, Ptr, null, update}

-- a task in the given state, with its storage, its virtual runtime and its entry function
abbrev pub task : RunState → Ptr → ℕ → Ptr → Task
task state tls vruntime entry = record host_task {
  tls = tls;
  stack = 9000;
  stack_begin = 8000;
  total_stack_size = 4096;
  run_state = state;
  entry = entry;
  vruntime = vruntime;
}

abbrev pub tasks : Ptr → Task
tasks =
    update (update (update (λ _. host_task) 100 (task running 10 7 1)) 200 (task suspended 20 5 2))
      300 (task suspended 0 9 3)

-- `mmap` hands out one region after the other, and a page is 4096 bytes.
abbrev pub os : Os
os = record {
  page_size = 4096;
  mmap = λ n size. 65536 + 16777216 * n;
  mprotect_fails = λ p size. false;
}

abbrev pub sizes : Sizes
sizes = record { task_bytes = 200; prefix_bytes = 512; postfix_bytes = 1800 }

-- 3 µs pass between two readings of the processor clock, and 10 ticks of the system clock.
abbrev pub machine : Machine
machine = record { os = os; sizes = sizes; cpu = λ n. 3000 * n; wall = λ n. 10 * n }

abbrev pub heap : Heap
heap = record { tasks = tasks; maps = 2; unmapped = [] }

abbrev pub freelist : Freelist
freelist = record { list = []; max_size = 64 }

-- the world in which 100 runs and the given tasks can run
abbrev pub world : List Ptr → World
world q = record {
  machine = machine;
  reads = 1;
  heap = heap;
  freelist = freelist;
  node = record {
    spin_lock = false;
    running = true;
    deferred = null;
    rq = record { runqueue = q; sleepqueue = []; min_vruntime = 4 };
    last_tick = 0;
    host = 100;
  };
  tls_now = 10;
  threads = λ _. 100;
  on_node = λ _. true;
  waiters = λ _. null;
}

-- both other tasks can run
abbrev pub busy : World
busy = world (200 ∷ 300 ∷ [])

-- no other task can run
abbrev pub alone : World
alone = world []

-- `w` with the current task in another state
abbrev pub in_state : World → RunState → World
in_state w s = with_task w 100 (record (task_of w 100) { run_state = s })

pub busy-IsReady : IsReady busy
busy-IsReady = record {
  is_running = refl;
  free = refl;
  some_current = omega arith;
  sorted = ((refl, tt), (tt, tt));
  live = refl;
  absent = refl;
  once = λ a. ground arith;
}

pub alone-IsReady : IsReady alone
alone-IsReady = record {
  is_running = refl;
  free = refl;
  some_current = omega arith;
  sorted = tt;
  live = refl;
  absent = refl;
  once = λ a. omega arith;
}

-- 100 waits
abbrev pub blocked : World
blocked = in_state busy waiting

pub blocked-IsReady : IsReady blocked
blocked-IsReady = record {
  is_running = refl;
  free = refl;
  some_current = omega arith;
  sorted = ((refl, tt), (tt, tt));
  live = refl;
  absent = refl;
  once = λ a. ground arith;
}

-- 100 is done and detached
abbrev pub done : World
done = with_task busy 100 (record (task_of busy 100) { run_state = stopped; detached = true })

pub done-IsReady : IsReady done
done-IsReady = record {
  is_running = refl;
  free = refl;
  some_current = omega arith;
  sorted = ((refl, tt), (tt, tt));
  live = refl;
  absent = refl;
  once = λ a. ground arith;
}
