-- ===== src/Node/Next.antt =====
-- `sched_node::get_next_task`, when no task sleeps.
use gthread.RunQueue.{with_sleepqueue, emplace, with_runqueue}
use gthread.RunQueue.Pop.{pop-wakes_early, ticked, pop-deadlock, taken, pop-runnable}
use gthread.Node.{charge, put_back, tick, get_next_task, idle_thunk, micros}
use gthread.Outcome.{runtime_error}
use gthread.Task.{Task, running, stopped, waiting, is_state}
use gthread.Effects.{World, ok, throw, task_of, with_task, with_node}
use gthread.Common.{
  ℕ, ◌+◌, ◌-◌, ◌≤◌, ◌≡◌, refl, ◌≢◌, true, false, ◌&&◌, List, [], ◌∷◌, arith, Ptr, null, update,
  update_self,
}

-- the task `t` after it was charged for the time that the clock now shows
abbrev pub charged : World → Task → Task
charged w t = record t { vruntime = t.vruntime + micros (w.machine.cpu w.reads - w.node.last_tick) }

abbrev pub charged_in : World → Ptr → World
charged_in w cur = with_task (record w { reads = w.reads + 1 }) cur (charged w (task_of w cur))

charge_lem : (w : World) (cur : Ptr) → cur ≢ null → charge cur w ≡ ok tt (charged_in w cur)
unfolding charge
charge_lem w cur n = ground arith

-- the world with `cur` back on the runqueue
abbrev pub queued : World → Ptr → World
queued w cur = with_runqueue w (emplace w.heap.tasks cur w.node.rq.runqueue)

put_back-running :
    (w : World) (cur : Ptr)
    → cur ≢ null
    → (task_of w cur).run_state ≡ running
    → put_back cur w ≡ ok tt (queued w cur)
unfolding put_back
put_back-running w cur n e = ground arith

abbrev pub ticked_in : World → World
ticked_in w = record w {
  reads = w.reads + 1;
  node = record (w.node) { last_tick = w.machine.cpu w.reads };
}

tick_lem : (w : World) → tick w ≡ ok tt (ticked_in w)
unfolding tick
tick_lem w = refl

-- the world in which `get_next_task` has picked `x` and left `q`
abbrev pub picked : World → Ptr → Ptr → List Ptr → World
picked w cur x q = ticked_in (taken (queued (charged_in w cur) cur) x q)

-- the tasks after the current one was charged
abbrev pub charged_tasks : World → Ptr → Ptr → Task
charged_tasks w cur = update w.heap.tasks cur (charged w (task_of w cur))

pub get_next_task-running :
    (w : World) (cur x : Ptr) (q : List Ptr)
    → cur ≢ null
    → (task_of w cur).run_state ≡ running
    → w.node.rq.sleepqueue ≡ []
    → emplace (charged_tasks w cur) cur w.node.rq.runqueue ≡ x ∷ q
    → x ≢ null
    → get_next_task cur w ≡ ok x (picked w cur x q)
unfolding get_next_task
get_next_task-running w cur x q n r s e nx = rw (
  charge_lem w cur n,
  put_back-running (charged_in w cur) cur n (rw (update_self w.heap.tasks) r),
  pop-runnable idle_thunk (queued (charged_in w cur) cur) x q s e nx,
  tick_lem,
)

pub put_back-waiting :
    (w : World) (cur : Ptr)
    → cur ≢ null
    → (task_of w cur).run_state ≡ waiting
    → put_back cur w ≡ ok tt w
unfolding put_back
put_back-waiting w cur n e = ground arith

-- A task that waits is not put back: with nothing else to run, that is a deadlock.
pub get_next_task-deadlock :
    (w : World) (cur : Ptr)
    → cur ≢ null
    → (task_of w cur).run_state ≡ waiting
    → w.node.rq.sleepqueue ≡ []
    → w.node.rq.runqueue ≡ []
    → get_next_task cur w ≡ throw runtime_error (charged_in w cur)
unfolding get_next_task
get_next_task-deadlock w cur n r s e = rw (
  charge_lem w cur n,
  put_back-waiting (charged_in w cur) cur n (rw (update_self w.heap.tasks) r),
  pop-deadlock idle_thunk (charged_in w cur) s e,
)

-- the world in which `get_next_task` has picked the only sleeper
abbrev pub picked_early : World → Ptr → World
picked_early w cur = ticked_in (taken (with_sleepqueue (ticked (charged_in w cur)) []) cur [])

-- A task that waits and is the only one asleep is picked before its time.
pub get_next_task-sleeper :
    (w : World) (cur : Ptr) (k : ℕ)
    → cur ≢ null
    → (task_of w cur).run_state ≡ waiting
    → w.node.rq.sleepqueue ≡ (k, cur) ∷ []
    → w.machine.wall (w.reads + 1) ≤ k
    → w.node.rq.runqueue ≡ []
    → get_next_task cur w ≡ ok cur (picked_early w cur)
unfolding get_next_task
get_next_task-sleeper w cur k n r s l e = rw (
  charge_lem w cur n,
  put_back-waiting (charged_in w cur) cur n (rw (update_self w.heap.tasks) r),
  pop-wakes_early idle_thunk (charged_in w cur) k cur [] s l e n,
  tick_lem,
)

-- the world in which the return of `cur` is put off
abbrev pub put_off : World → Ptr → World
put_off w cur = with_node w (record (w.node) { deferred = cur })

put_back-done :
    (w : World) (cur : Ptr)
    → cur ≢ null
    → (task_of w cur).run_state ≡ stopped
    → (task_of w cur).detached ≡ true
    → put_back cur w ≡ ok tt (put_off w cur)
unfolding put_back
put_back-done w cur n e d = ground arith

-- the world in which the first task is picked and the return of `cur` is put off
abbrev pub picked_after : World → Ptr → Ptr → List Ptr → World
picked_after w cur x q = ticked_in (taken (put_off (charged_in w cur) cur) x q)

pub get_next_task-done :
    (w : World) (cur x : Ptr) (q : List Ptr)
    → cur ≢ null
    → (task_of w cur).run_state ≡ stopped
    → (task_of w cur).detached ≡ true
    → w.node.rq.sleepqueue ≡ []
    → w.node.rq.runqueue ≡ x ∷ q
    → x ≢ null
    → get_next_task cur w ≡ ok x (picked_after w cur x q)
unfolding get_next_task
get_next_task-done w cur x q n r d s e nx = rw (
  charge_lem w cur n,
  put_back-done (charged_in w cur) cur n (rw (update_self w.heap.tasks) r)
      (rw (update_self w.heap.tasks) d),
  pop-runnable idle_thunk (put_off (charged_in w cur) cur) x q s e nx,
  tick_lem,
)

-- A task that neither runs nor is done and detached is not put back, and nothing else is done.
abbrev pub IsBlocked : Task → Type 0
IsBlocked t =
    (is_state t.run_state running ≡ false) × ((is_state t.run_state stopped && t.detached) ≡ false)

put_back-blocked :
    (w : World) (cur : Ptr) → cur ≢ null → IsBlocked (task_of w cur) → put_back cur w ≡ ok tt w
unfolding put_back
put_back-blocked w cur n b = ground arith

-- the world in which the first task is picked and `cur` is not put back
abbrev pub picked_first : World → Ptr → Ptr → List Ptr → World
picked_first w cur x q = ticked_in (taken (charged_in w cur) x q)

pub get_next_task-blocked :
    (w : World) (cur x : Ptr) (q : List Ptr)
    → cur ≢ null
    → IsBlocked (task_of w cur)
    → w.node.rq.sleepqueue ≡ []
    → w.node.rq.runqueue ≡ x ∷ q
    → x ≢ null
    → get_next_task cur w ≡ ok x (picked_first w cur x q)
unfolding get_next_task
get_next_task-blocked w cur x q n b s e nx = rw (
  charge_lem w cur n,
  put_back-blocked (charged_in w cur) cur n (still b),
  pop-runnable idle_thunk (charged_in w cur) x q s e nx,
  tick_lem,
)
  where
    still : IsBlocked (task_of w cur) → IsBlocked (task_of (charged_in w cur) cur)
    still k = rw (update_self w.heap.tasks) k
