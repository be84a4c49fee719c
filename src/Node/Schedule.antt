-- ===== src/Node/Schedule.antt =====
-- `sched_node::schedule`, and the return of a task that `yield` had put off.
use gthread.Freelist
use gthread.RunQueue.{emplace, with_runqueue}
use gthread.RunQueue.Order.{IsSorted, count-emplace, emplace-IsSorted, IsSorted-update}
use gthread.Node.{unlock, schedule, yield, return_deferred, reschedule}
use gthread.Node.Reschedule.{return_deferred-none, yield_lem}
use gthread.Node.Choice.{IsReady, locked}
use gthread.Task.{Task}
use gthread.Effects.{World, ok, unwind, current_of, task_of}
use gthread.Common.{All-ne_of_count}
use gthread.Common.{
  ◌≡◌, refl, sym, ap, ◌∙◌, ◌≢◌, inl, inr, true, false, List, ◌∷◌, arith, ◌==◌, if◌then◌else◌, Ptr,
  null, Bool-cases, All, count, update,
}

-- the task as it is put on the runqueue: a new one starts at the least virtual runtime
abbrev pub admitted : World → Task → Task
admitted w t = if t.vruntime == 0 then record t { vruntime = w.node.rq.min_vruntime } else t

-- the tasks with `t` admitted
abbrev pub admitted_tasks : World → Ptr → Ptr → Task
admitted_tasks w t =
    if (task_of w t).vruntime == 0
    then update w.heap.tasks t (record (task_of w t) { vruntime = w.node.rq.min_vruntime })
    else w.heap.tasks

-- the world in which `t` is scheduled
abbrev pub scheduled : World → Ptr → World
scheduled w t =
    with_runqueue (record w { heap = record (w.heap) { tasks = admitted_tasks w t } })
      (emplace (admitted_tasks w t) t w.node.rq.runqueue)

pub schedule_lem :
    (w : World) (t : Ptr)
    → w.node.spin_lock ≡ false
    → t ≢ null
    → schedule t w ≡ ok tt (scheduled w t)
unfolding schedule
schedule_lem w t f n = ground arith

admitted_tasks-IsSorted :
    (w : World) (t : Ptr) (q : List Ptr)
    → All (λ x. x ≢ t) q
    → IsSorted w.heap.tasks q
    → IsSorted (admitted_tasks w t) q
admitted_tasks-IsSorted w t q n s = elim (Bool-cases ((task_of w t).vruntime == 0)) [
  | inl e ↦ rw e (IsSorted-update w.heap.tasks t _ q n s)
  | inr e ↦ rw e s
]

pub task_of-admitted : (w : World) (t : Ptr) → admitted_tasks w t t ≡ admitted w (task_of w t)
task_of-admitted w t = ground arith

pub state-admitted :
    (w : World) (t : Ptr) → (task_of (scheduled w t) t).run_state ≡ (task_of w t).run_state
state-admitted w t = ground arith

pub admitted_tasks_ne : (w : World) (t q : Ptr) → t ≢ q → admitted_tasks w t q ≡ w.heap.tasks q
admitted_tasks_ne w t q n = ground arith

pub occurs-scheduled :
    (w : World) (t a : Ptr)
    → count a (scheduled w t).node.rq.runqueue ≡ count a (t ∷ w.node.rq.runqueue)
occurs-scheduled w t a = count-emplace (admitted_tasks w t) t a w.node.rq.runqueue

pub scheduled-IsReady :
    (w : World) (t : Ptr)
    → IsReady w
    → t ≢ null
    → t ≢ current_of w
    → count t w.node.rq.runqueue ≡ 0
    → IsReady (scheduled w t)
scheduled-IsReady w t r n c fresh = record {
  is_running = r.is_running;
  free = r.free;
  some_current = r.some_current;
  sorted = emplace-IsSorted (admitted_tasks w t) t w.node.rq.runqueue (
      admitted_tasks-IsSorted w t w.node.rq.runqueue (All-ne_of_count t w.node.rq.runqueue fresh)
        r.sorted);
  live = ground (arith, occurs-scheduled w t null, r.live);
  absent = ground (arith, occurs-scheduled w t (current_of w), r.absent);
  once = λ a. ground (arith, occurs-scheduled w t a, r.once a);
}

-- Scheduling a task that is neither current nor on the runqueue, in a ready world: the call returns
-- in a ready world whose runqueue holds that task besides the others. A task that never ran starts
-- with the least virtual runtime that the node has seen, any other keeps its own; no other task
-- changes.
pub schedule-IsReady :
    (w : World) (t : Ptr)
    → IsReady w
    → t ≢ null
    → t ≢ current_of w
    → count t w.node.rq.runqueue ≡ 0
    → (w' : World) × (schedule t w ≡ ok tt w')
      × IsReady w'
      × ((a : Ptr) → count a w'.node.rq.runqueue ≡ count a (t ∷ w.node.rq.runqueue))
      × (task_of w' t ≡ admitted w (task_of w t))
      × ((q : Ptr) → t ≢ q → task_of w' q ≡ task_of w q)
schedule-IsReady w t r n c fresh = (
  scheduled w t,
  schedule_lem w t r.free n,
  scheduled-IsReady w t r n c fresh,
  occurs-scheduled w t,
  task_of-admitted w t,
  λ q e. admitted_tasks_ne w t q e,
)

-- the world in which the task put off is returned
abbrev pub returned : World → World
returned w =
    let r = Freelist.return_task w.node.deferred w.freelist w.heap in
    record w { freelist = r.0; heap = r.1; node = record (w.node) { deferred = null } }

return_deferred_lem : (w : World) → w.node.deferred ≢ null → return_deferred w ≡ ok tt (returned w)
unfolding return_deferred
return_deferred_lem w n = ground arith

reschedule-returned : (w : World) → w.node.deferred ≢ null → reschedule w ≡ reschedule (returned w)
unfolding reschedule
reschedule-returned w n =
    rw (return_deferred_lem w n) (rw (return_deferred-none (returned w) refl) refl)

-- `yield` makes a return that was put off before anything else: it goes on as in the world in which
-- the task is back with the free tasks, or destroyed if there is no room for it, and in which no
-- return is put off any more.
pub yield-returns :
    (w : World)
    → w.node.running ≡ true
    → w.node.spin_lock ≡ false
    → w.node.deferred ≢ null
    → (yield w ≡ yield (returned w)) × ((returned w).node.deferred ≡ null)
yield-returns w r f n = (
  yield_lem w r f
      ∙ (ap (λ m. unwind m unlock) (reschedule-returned (locked w) n)
          ∙ sym (yield_lem (returned w) r f)),
  refl,
)
