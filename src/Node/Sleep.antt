-- ===== src/Node/Sleep.antt =====
-- `sched_node::yield_for` and the deadlocks that `yield` reports.
use gthread.RunQueue.{sleep_push}
use gthread.TimeQueue
use gthread.Node.{lock, unlock, get_next_task, yield, yield_for}
use gthread.Node.Choice.{locked, unlocked}
use gthread.Node.Reschedule.{reschedule-stays, reschedule-throws, yield_lem}
use gthread.Node.Next.{charged_in, get_next_task-deadlock, get_next_task-sleeper, picked_early}
use gthread.Outcome.{runtime_error}
use gthread.Task.{waiting}
use gthread.Effects.{World, ok, throw, unwind, current_of, task_of}
use gthread.Common.{
  ℕ, ◌+◌, ◌≤◌, ◌≡◌, refl, ap, ◌∙◌, ◌≢◌, true, false, [], ◌∷◌, arith, null, update, ==_self,
}

-- The world that a deadlock leaves: the waiting task charged, the lock free.
abbrev deadlocked : World → World
deadlocked w = unlocked (charged_in (locked w) (current_of w))

-- With nothing to run and nobody asleep, a task that waits cannot yield: the call throws a runtime
-- error, with the lock released and the queues as empty as they were.
pub yield-deadlock :
    (w : World)
    → w.node.running ≡ true
    → w.node.spin_lock ≡ false
    → current_of w ≢ null
    → (task_of w (current_of w)).run_state ≡ waiting
    → w.node.rq.runqueue ≡ []
    → w.node.rq.sleepqueue ≡ []
    → w.node.deferred ≡ null
    → (w' : World) × (yield w ≡ throw runtime_error w')
      × (w'.node.spin_lock ≡ false)
      × (w'.node.rq.runqueue ≡ [])
      × (w'.node.rq.sleepqueue ≡ [])
unfolding unlock
yield-deadlock w run free n s e asleep d = (
  deadlocked w,
  yield_lem w run free
      ∙ ap (λ m. unwind m unlock)
          (reschedule-throws (locked w) runtime_error _ d
            (get_next_task-deadlock (locked w) (current_of w) n s asleep e)),
  refl,
  e,
  asleep,
)

-- `duration` from the reading of the system clock that `sleep_push` makes
abbrev wake_time : World → ℕ → ℕ
wake_time w duration = w.machine.wall w.reads + duration

-- the world in which a lone task has put itself to sleep
abbrev asleep_in : World → ℕ → World
asleep_in w duration =
    let c = current_of w in
    record w {
      reads = w.reads + 1;
      heap = record (w.heap) {
        tasks =
            update (update w.heap.tasks c (record (task_of w c) { run_state = waiting })) c
              (record (update w.heap.tasks c (record (task_of w c) { run_state = waiting }) c) {
                run_state = waiting;
              });
      };
      node = record (w.node) {
        spin_lock = false;
        rq = record (w.node.rq) { sleepqueue = (wake_time w duration, c) ∷ [] };
      };
    }

yield_for_lem :
    (w : World) (duration : ℕ)
    → w.node.spin_lock ≡ false
    → current_of w ≢ null
    → w.node.rq.sleepqueue ≡ []
    → yield_for duration w ≡ yield (asleep_in w duration)
unfolding yield_for lock unlock sleep_push TimeQueue.push
yield_for_lem w duration free n s = ground arith

early :
    (w : World) (duration : ℕ)
    → current_of w ≢ null
    → w.node.rq.runqueue ≡ []
    → w.machine.wall (w.reads + 2) ≤ wake_time w duration
    → get_next_task (current_of w) (locked (asleep_in w duration))
      ≡ ok (current_of w) (picked_early (locked (asleep_in w duration)) (current_of w))
early w duration n e l =
    get_next_task-sleeper (locked (asleep_in w duration)) (current_of w) (wake_time w duration) n
      (rw (==_self (current_of w))) refl (rw two_reads l) e
  where
    two_reads : w.reads + 1 + 1 ≡ w.reads + 2
    two_reads = omega arith

-- the world after the sleep
abbrev woke : World → ℕ → World
woke w duration = unlocked (picked_early (locked (asleep_in w duration)) (current_of w))

waits : (w : World) (duration : ℕ) → (task_of (woke w duration) (current_of w)).run_state ≡ waiting
waits w duration = rw (==_self (current_of w))

-- A sleep that is not over when the scheduler looks returns at once, and strands its task: if the
-- runqueue is empty and nobody sleeps, `yield_for` returns without a switch, with the current task
-- still in the state of a waiting one and both queues empty. The next `yield` throws the runtime
-- error of a deadlock.
pub yield_for-strands :
    (w : World) (duration : ℕ)
    → w.node.running ≡ true
    → w.node.spin_lock ≡ false
    → current_of w ≢ null
    → w.node.rq.runqueue ≡ []
    → w.node.rq.sleepqueue ≡ []
    → w.node.deferred ≡ null
    → w.machine.wall (w.reads + 2) ≤ wake_time w duration
    → (w' : World) × (yield_for duration w ≡ ok tt w')
      × (current_of w' ≡ current_of w)
      × ((task_of w' (current_of w)).run_state ≡ waiting)
      × (w'.node.rq.runqueue ≡ [])
      × (w'.node.rq.sleepqueue ≡ [])
      × ((w'' : World) × (yield w' ≡ throw runtime_error w''))
unfolding unlock
yield_for-strands w duration run free n e s d l = (
  woke w duration,
  yield_for_lem w duration free n s
      ∙ (yield_lem (asleep_in w duration) run refl
          ∙ ap (λ m. unwind m unlock)
              (reschedule-stays (locked (asleep_in w duration)) _ d (early w duration n e l))),
  refl,
  waits w duration,
  refl,
  refl,
  (stranded.0, stranded.1),
)
  where
    stranded :
        (w'' : World) × (yield (woke w duration) ≡ throw runtime_error w'')
        × (w''.node.spin_lock ≡ false)
        × (w''.node.rq.runqueue ≡ [])
        × (w''.node.rq.sleepqueue ≡ [])
    stranded = yield-deadlock (woke w duration) run refl n (waits w duration) refl refl d
