-- ===== src/Sched/Context.antt =====
-- `sched_context` of sched/sched.cc, which the first call sets up, with the constructor of the node.
-- The alarm, which it then enables, has a state of its own.
use gthread.Task.{host_task}
use gthread.Node.{start_async}
use gthread.Node.Choice.{IsReady}
use gthread.Sched.{exit}
use gthread.Outcome.{runtime_error}
use gthread.Task.{Task, running}
use gthread.Effects.{World, Node, M, ok, throw, ◌>>◌, modify, current_of, task_of}
use gthread.Common.{
  ◌+◌, ◌≡◌, refl, ap, ◌∙◌, ◌≢◌, true, false, [], arith, Ptr, null, update, update_self, ==-of_ne,
}

-- `sched_node::sched_node`, its host task at the address `host`
abbrev pub sched_node : Ptr → Node
sched_node host = record {
  spin_lock = false;
  running = false;
  deferred = null;
  rq = record { runqueue = []; sleepqueue = []; min_vruntime = 0 };
  last_tick = 0;
  host = host;
}

-- the members of the context, as they are made
abbrev pub make_context : Ptr → World → World
make_context host w = record w {
  freelist = record { list = []; max_size = 64 };
  heap = record (w.heap) { tasks = update w.heap.tasks host host_task };
  node = sched_node host;
}

unfoldable pub sched_context : Ptr → M (Unit {0})
unfolding start_async
sched_context host = modify (make_context host) >> start_async

-- the world in which the context is set up
abbrev pub set_up : Ptr → World → World
set_up host w =
    let v = make_context host w in
    record v {
      reads = w.reads + 1;
      on_node = update w.on_node w.tls_now true;
      threads = update w.threads w.tls_now host;
      heap = record (v.heap) {
        tasks =
            update v.heap.tasks host
              (record (task_of v host) { tls = w.tls_now; run_state = running });
      };
      node = record (sched_node host) { running = true; last_tick = w.machine.cpu w.reads };
    }

pub sched_context_lem : (host : Ptr) (w : World) → sched_context host w ≡ ok tt (set_up host w)
unfolding sched_context
sched_context_lem host w = refl

pub current-set_up : (host : Ptr) (w : World) → current_of (set_up host w) ≡ host
current-set_up host w = update_self w.threads w.tls_now host

pub host-set_up :
    (host : Ptr) (w : World)
    → task_of (set_up host w) host ≡ record host_task { tls = w.tls_now; run_state = running }
host-set_up host w =
    update_self (make_context host w).heap.tasks host _
    ∙ ap {A = Task} (λ t. record t { tls = w.tls_now; run_state = running })
        (update_self w.heap.tasks host host_task)

pub set_up-IsReady : (host : Ptr) (w : World) → host ≢ null → IsReady (set_up host w)
set_up-IsReady host w n = record {
  is_running = refl;
  free = refl;
  some_current = rw (current-set_up host w) n;
  sorted = tt;
  live = refl;
  absent = refl;
  once = λ a. omega arith;
}

exit-set_up :
    (host return_value : Ptr) (w : World)
    → host ≢ null
    → exit return_value (set_up host w) ≡ throw runtime_error (set_up host w)
unfolding exit
exit-set_up host v w n =
    rw (current-set_up host w) (rw (==-of_ne host 0 n) (rw (host-set_up host w) refl))

-- The first call of the scheduler, its host task at an address that is not null: the set-up returns
-- in a ready world, with the node set, no task on a queue and the waiters
-- as they were. The caller is the host task, which runs
-- outside of a critical section; it has no entry function, and `exit` throws for it and does nothing
-- else.
pub sched_context-IsReady :
    (host : Ptr) (w : World)
    → host ≢ null
    → (u : World) × (sched_context host w ≡ ok tt u)
      × IsReady u
      × (u.on_node u.tls_now ≡ true)
      × (u.node.rq.runqueue ≡ [])
      × (u.node.rq.sleepqueue ≡ [])
      × (u.node.deferred ≡ null)
      × (current_of u ≡ host)
      × (task_of u host ≡ record host_task { tls = w.tls_now; run_state = running })
      × (u.waiters ≡ w.waiters)
      × ((v : Ptr) → exit v u ≡ throw runtime_error u)
sched_context-IsReady host w n = (
  set_up host w,
  sched_context_lem host w,
  set_up-IsReady host w n,
  update_self w.on_node w.tls_now true,
  refl,
  refl,
  refl,
  current-set_up host w,
  host-set_up host w,
  refl,
  λ v. exit-set_up host v w n,
)
