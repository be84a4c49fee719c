-- ===== src/Node.antt =====
-- sched/sched_node.h and sched_node.cc, with `task::switch_to` (sched/task_impl.h): the scheduler of
-- the one kernel thread.
pub mod Switch
pub mod Next
pub mod Choice
pub mod Reschedule
pub mod Settled
pub mod Yield
pub mod Sleep
pub mod Block
pub mod Done
pub mod Schedule
pub mod Return
pub mod Direct
use gthread.Freelist
use gthread.Memory.{Os}
use gthread.RunQueue
use gthread.Outcome
use gthread.Outcome.{
  Result, Exception, domain_error, logic_error, runtime_error, Fault, null_deref, uninitialised,
  assertion, spins,
}
use gthread.Task.{Task, Heap, RunState, running, suspended, stopped, waiting, is_state, has_tls}
use gthread.Effects.{
  World, Node, Rq, Machine, M, Run, ok, throw, fault, switched, bind, ◌>>=◌, ◌>>◌, unwind, guarded,
  pure, raise, modify, gets, assert, when, lift, current_of, current, task_of, load, with_task,
  store, with_node, with_rq, now_cpu, now_wall,
}
use gthread.Common.{
  ℕ, zero, suc, ◌+◌, ◌-◌, ◌*◌, ◌/◌, ◌%◌, ◌^◌, ◌≤◌, ◌<◌, ◌≡◌, refl, sym, ap, ◌∙◌, ◌≢◌, ◌⊎◌, inl, inr,
  Bool, true, false, not, ◌&&◌, ◌||◌, Option, none, some, List, [], ◌∷◌, ◌++◌, arith, ltb, leb,
  ◌==◌, if◌then◌else◌, Ptr, null, Bool-cases, length, All, All-map, count, update, update_self,
  update_ne, eq_of_==, ==-of_ne, ==_self,
}

-- `spin_lock::lock`: on one kernel thread nobody can release the lock while a spin goes on.
unfoldable pub lock : M (Unit {0})
lock w =
    if w.node.spin_lock
    then fault spins
    else ok tt (with_node w (record (w.node) { spin_lock = true }))

-- `spin_lock::try_lock`
unfoldable pub try_lock : M Bool
try_lock w =
    if w.node.spin_lock
    then ok false w
    else ok true (with_node w (record (w.node) { spin_lock = true }))

unfoldable pub unlock : M (Unit {0})
unlock w = ok tt (with_node w (record (w.node) { spin_lock = false }))

-- `set_thread` and `use` on the storage of `t`, or `set_thread` on the one in use.
unfoldable pub enter : Ptr → Task → M (Unit {0})
enter p t w =
    if not (t.tls == null)
    then ok tt (record w { threads = update w.threads t.tls p; tls_now = t.tls })
    else ok tt (record w { threads = update w.threads w.tls_now p })

-- `gthread_switch_to`: control leaves, and comes back in some later world.
abbrev pub suspend : M (Unit {0})
suspend w = switched w (λ w'. ok tt w')

-- `task::switch_to_internal` on the task `p`, up to the switch
unfoldable pub leave_for : Ptr → M (Unit {0}) → M Ptr
unfolding enter
leave_for p thunk = do
  prev ← current
  assert (not (p == prev))
  c ← load prev
  when (is_state c.run_state running) (store prev (record c { run_state = suspended }))
  t ← load p
  enter p t
  thunk
  pure prev

-- and from there on
unfoldable pub come_back : Ptr → M (Unit {0})
come_back prev = do
  cur ← current
  assert (prev == cur)
  c ← load prev
  store prev (record c { run_state = running })

-- `task::switch_to`
unfoldable pub switch_task : Ptr → M (Unit {0}) → M (Unit {0})
switch_task p thunk = do prev ← leave_for p thunk; suspend; come_back prev

-- `g_current_sched_node = this`
abbrev pub set_node : M (Unit {0})
set_node = modify (λ w. record w { on_node = update w.on_node w.tls_now true })

-- The idle thunk of `get_next_task`: the kernel thread sleeps with the spin lock released.
unfoldable pub idle_thunk : ℕ → M (Unit {0})
unfolding lock unlock
idle_thunk wake_time = guarded unlock lock (pure tt)

-- nanoseconds to microseconds
abbrev pub micros : ℕ → ℕ
micros ns = ns / 1000

-- The first part of `get_next_task`: charge the task for the time since the last tick.
unfoldable pub charge : Ptr → M (Unit {0})
charge cur = do
  now ← now_cpu
  c ← load cur
  last ← gets (λ w. w.node.last_tick)
  store cur (record c { vruntime = c.vruntime + micros (now - last) })

-- The second: put a running task back on the runqueue, and put off the return of one that is done.
unfoldable pub put_back : Ptr → M (Unit {0})
unfolding RunQueue.push
put_back cur = do
  c ← load cur
  if is_state c.run_state running
      then RunQueue.push cur
      else when (is_state c.run_state stopped && c.detached)
          (modify (λ w. with_node w (record (w.node) { deferred = cur })))

-- `_last_tick = vruntime_clock::now()`
unfoldable pub tick : M (Unit {0})
tick = do now ← now_cpu; modify (λ w. with_node w (record (w.node) { last_tick = now }))

unfoldable pub get_next_task : Ptr → M Ptr
get_next_task cur = do
  charge cur
  put_back cur
  next_task ← RunQueue.pop idle_thunk
  tick
  pure next_task

-- `_task_freelist->return_task(t)`
unfoldable pub return_task : Ptr → M (Unit {0})
return_task t w =
    let r = Freelist.return_task t w.freelist w.heap in
    ok tt (record w { freelist = r.0; heap = r.1 })

-- the start of `yield`: a return that was put off is made now
unfoldable pub return_deferred : M (Unit {0})
unfolding return_task
return_deferred = do
  t ← gets (λ w. w.node.deferred)
  when (not (t == null))
      (return_task t >> modify (λ w. with_node w (record (w.node) { deferred = null })))

-- the body of `yield` under its guard
unfoldable pub reschedule : M (Unit {0})
reschedule = do
  return_deferred
  cur ← current
  next_task ← get_next_task cur
  when (not (next_task == cur)) (guarded unlock lock (switch_task next_task set_node))

-- `sched_node::yield`
unfoldable pub yield : M (Unit {0})
yield w = if not w.node.running then ok tt w else guarded lock unlock reschedule w

-- `sched_node::yield_for`
unfoldable pub yield_for : ℕ → M (Unit {0})
yield_for duration = do
  cur ← current
  guarded lock unlock (do
    c ← load cur
    store cur (record c { run_state = waiting })
    RunQueue.sleep_push cur duration)
  yield

-- `sched_node::schedule`
unfoldable pub schedule_body : Ptr → M (Unit {0})
unfolding RunQueue.push
schedule_body t = do
  c ← load t
  least ← gets (λ w. w.node.rq.min_vruntime)
  when (c.vruntime == 0) (store t (record c { vruntime = least }))
  RunQueue.push t

unfoldable pub schedule : Ptr → M (Unit {0})
unfolding schedule_body lock unlock
schedule t = guarded lock unlock (schedule_body t)

-- the first block of `sched_node::switch_to`
unfoldable pub charge_and_tick : M (Unit {0})
charge_and_tick = do
  now ← now_cpu
  cur ← current
  c ← load cur
  last ← gets (λ w. w.node.last_tick)
  store cur (record c { vruntime = c.vruntime + micros (now - last) })
  modify (λ w. with_node w (record (w.node) { last_tick = now }))

-- `sched_node::switch_to`
unfoldable pub switch_to : Ptr → M (Unit {0})
unfolding charge_and_tick lock unlock
switch_to t = do guarded lock unlock charge_and_tick; switch_task t set_node

-- `task::wrap_current` on the host task
unfoldable pub wrap_current : Ptr → M (Unit {0})
wrap_current p = do
  modify (λ w.
      with_task (record w { threads = update w.threads w.tls_now p }) p
        (record (task_of w p) { tls = w.tls_now; run_state = running }))

-- `_running.compare_exchange_strong(expected, true)`
unfoldable pub set_running : M (Unit {0})
set_running w =
    if w.node.running
    then throw runtime_error w
    else ok tt (with_node w (record (w.node) { running = true }))

-- `sched_node::start_async`
unfoldable pub start_async : M (Unit {0})
unfolding wrap_current set_running tick
start_async = do set_node; tick; host ← gets (λ w. w.node.host); wrap_current host; set_running

-- `sched_node::start`
unfoldable pub start : M (Unit {0})
unfolding start_async
start = do
  start_async
  host ← gets (λ w. w.node.host)
  c ← load host
  store host (record c { run_state = waiting })
  yield
  still ← gets (λ w. w.node.running)
  when still (raise runtime_error)
