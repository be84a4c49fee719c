-- ===== src/Sched/Exit.antt =====
-- `sched::exit`: a task that ends hands over to the task that joins it.
use gthread.RunQueue.Order.{count-emplace}
use gthread.Preempt
use gthread.Preempt.{critical}
use gthread.Preempt.Critical.{flagged, lock_lem, node_lem, with_task-IsReady}
use gthread.Node
use gthread.Node.Choice.{IsReady, unlocked, emplace-nonempty}
use gthread.Node.Block.{Blocks, yield-Blocks}
use gthread.Node.Schedule.{
  scheduled, admitted_tasks, admitted_tasks_ne, schedule_lem, scheduled-IsReady,
}
use gthread.Sched.{exit, finish}
use gthread.Sched.Waiting.{resumed, unlock-resumed}
use gthread.Node.Switch.{back}
use gthread.Task.{Task, stopped}
use gthread.Effects.{World, Run, ok, switched, bind, pure, unwind, current_of, task_of, with_task}
use gthread.Common.{
  ◌≡◌, refl, sym, ap, ◌∙◌, ◌≢◌, arith, true, false, List, [], ◌∷◌, Ptr, null, count, update_self,
  ==-of_ne,
}

-- the task `t` as it ends with that value
abbrev pub ended_as : Ptr → Task → Task
ended_as return_value t = record t { return_value = return_value; run_state = stopped }

-- the world in which the current task has ended with that value
abbrev pub ended : World → Ptr → World
ended w return_value = with_task w (current_of w) (ended_as return_value (task_of w (current_of w)))

finish_lem :
    (w : World) (return_value : Ptr)
    → w.on_node w.tls_now ≡ true
    → w.node.spin_lock ≡ false
    → current_of w ≢ null
    → (task_of w (current_of w)).joiner ≢ null
    → finish (current_of w) return_value w
      ≡ Node.yield (scheduled (ended w return_value) (task_of w (current_of w)).joiner)
unfolding finish
finish_lem w v e f n m =
    let j : Ptr = (task_of w (current_of w)).joiner in
    rw (==-of_ne (current_of w) 0 n) (
      rw (==-of_ne j 0 m) (
        rw (node_lem (ended w v) e)
          (rw (schedule_lem (ended w v) j f m) (rw (node_lem (scheduled (ended w v) j) e) refl))))

pub exit_lem :
    (w : World) (return_value : Ptr)
    → current_of w ≢ null
    → (task_of w (current_of w)).entry ≢ null
    → (task_of w (current_of w)).no_preempt_flag ≡ false
    → exit return_value w
      ≡ unwind (finish (current_of w) return_value (flagged w true)) Preempt.unlock
unfolding exit
exit_lem w v n e f =
    rw (==-of_ne (current_of w) 0 n) (rw (==-of_ne _ 0 e) (rw (lock_lem w n f) refl))

-- How `exit` ends for a task with a joiner: control leaves for `x`. The joiner is `x` or waits to run
-- with the others in `q`. The task is stopped, holds its return value and is not on the runqueue,
-- and the next `yield` finds its world ready.
pub record HandsOver (w : World) (return_value j x : Ptr) (q : List Ptr) : Type 0 where
  pub world : World
  pub rest : World → Run (Unit {0})
  pub leaves : exit return_value w ≡ switched world rest
  pub next : current_of world ≡ x
  pub queue : world.node.rq.runqueue ≡ q
  pub members : (a : Ptr) → count a (x ∷ q) ≡ count a (j ∷ w.node.rq.runqueue)
  pub ready : IsReady world
  pub is_stopped : (task_of world (current_of w)).run_state ≡ stopped
  pub value : (task_of world (current_of w)).return_value ≡ return_value
  pub off_queue : count (current_of w) world.node.rq.runqueue ≡ 0
  pub flag : (task_of world (current_of w)).no_preempt_flag ≡ true
  pub states : (a : Ptr) → current_of w ≢ a → (task_of world a).run_state ≡ (task_of w a).run_state
  pub flags :
      (a : Ptr)
      → current_of w ≢ a
      → (task_of world a).no_preempt_flag ≡ (task_of w a).no_preempt_flag
  pub joiners : (a : Ptr) → current_of w ≢ a → (task_of world a).joiner ≡ (task_of w a).joiner
  pub here : world.on_node world.tls_now ≡ true
  pub awake : world.node.rq.sleepqueue ≡ []
  pub settled : world.node.deferred ≡ null
  pub waiters : world.waiters ≡ w.waiters
  pub returns :
      (u : World)
      → current_of u ≡ current_of w
      → u.node.spin_lock ≡ false
      → (task_of u (current_of w)).no_preempt_flag ≡ true
      → rest u ≡ ok tt (resumed u)

-- the world in which the joiner is scheduled
abbrev joined_in : World → Ptr → Ptr → World
joined_in w v j = scheduled (ended (flagged w true) v) j

joined-IsReady :
    (w : World) (v j : Ptr)
    → IsReady w
    → j ≢ null
    → j ≢ current_of w
    → count j w.node.rq.runqueue ≡ 0
    → IsReady (joined_in w v j)
joined-IsReady w v j r n other fresh =
    scheduled-IsReady (ended (flagged w true) v) j
      (with_task-IsReady (flagged w true) (current_of w) _ refl
        (with_task-IsReady w (current_of w) _ refl r))
      n other fresh

-- the ended task, as it stands when the joiner is scheduled
ended_task :
    (w : World) (v j : Ptr)
    → j ≢ current_of w
    → task_of (joined_in w v j) (current_of w) ≡ record (task_of w (current_of w)) {
      no_preempt_flag = true;
      return_value = v;
      run_state = stopped;
    }
ended_task w v j other =
    admitted_tasks_ne (ended (flagged w true) v) j (current_of w) other
    ∙ (update_self (flagged w true).heap.tasks (current_of w) _
        ∙ ap (ended_as v) (update_self w.heap.tasks (current_of w) _))

joined_state :
    (w : World) (v j a : Ptr)
    → current_of w ≢ a
    → (task_of (joined_in w v j) a).run_state ≡ (task_of w a).run_state
joined_state w v j a n = ground arith

joined_flag :
    (w : World) (v j a : Ptr)
    → current_of w ≢ a
    → (task_of (joined_in w v j) a).no_preempt_flag ≡ (task_of w a).no_preempt_flag
joined_flag w v j a n = ground arith

joined_joiner :
    (w : World) (v j a : Ptr)
    → current_of w ≢ a
    → (task_of (joined_in w v j) a).joiner ≡ (task_of w a).joiner
joined_joiner w v j a n = ground arith

-- `exit` of a task with an entry function, attached and joined by a task `j` that is not on the
-- runqueue, outside of a critical section and in a ready world in which no task sleeps, hands over
-- as described above.
pub exit-HandsOver :
    (w : World) (return_value j : Ptr)
    → IsReady w
    → w.on_node w.tls_now ≡ true
    → (task_of w (current_of w)).entry ≢ null
    → (task_of w (current_of w)).no_preempt_flag ≡ false
    → (task_of w (current_of w)).detached ≡ false
    → (task_of w (current_of w)).joiner ≡ j
    → j ≢ null
    → j ≢ current_of w
    → count j w.node.rq.runqueue ≡ 0
    → w.node.rq.sleepqueue ≡ []
    → (x : Ptr) × (q : List Ptr) × HandsOver w return_value j x q
exit-HandsOver w v j r on e f att joined nj other fresh asleep =
    let (x, q, first) =
      emplace-nonempty (admitted_tasks (ended (flagged w true) v) j) j w.node.rq.runqueue in
    let t = ended_task w v j other in
    let b : Blocks (joined_in w v j) x q null =
      yield-Blocks (joined_in w v j) x q (joined-IsReady w v j r nj other fresh)
        (rw t (refl, rw att)) asleep first in
    (
      x,
      q,
      record {
        world = b.world;
        rest = λ u. unwind (b.rest u) Preempt.unlock;
        leaves =
            exit_lem w v r.some_current e f
            ∙ ap (λ m. unwind m Preempt.unlock)
                (finish_lem (flagged w true) v on r.free r.some_current (rw same_joiner nj)
                  ∙ (ap (λ k. Node.yield (scheduled (ended (flagged w true) v) k)) same_joiner
                      ∙ b.leaves));
        next = b.next;
        queue = b.queue;
        members = λ a.
            ap (count a) (sym first)
            ∙ count-emplace (admitted_tasks (ended (flagged w true) v) j) j a w.node.rq.runqueue;
        ready = b.ready;
        is_stopped = ap (λ k. k.run_state) b.itself ∙ ap (λ k. k.run_state) t;
        value = ap (λ k. k.return_value) b.itself ∙ ap (λ k. k.return_value) t;
        off_queue = b.off_queue;
        flag = ap (λ k. k.no_preempt_flag) b.itself ∙ ap (λ k. k.no_preempt_flag) t;
        states = λ a c. ap (λ k. k.run_state) (b.others a c) ∙ joined_state w v j a c;
        flags = λ a c. ap (λ k. k.no_preempt_flag) (b.others a c) ∙ joined_flag w v j a c;
        joiners = λ a c. ap (λ k. k.joiner) (b.others a c) ∙ joined_joiner w v j a c;
        here = b.here;
        awake = b.awake;
        settled = b.deferred;
        waiters = b.waiters;
        returns = λ u c free flag.
            ap (λ m. unwind m Preempt.unlock)
              (b.returns u c free ∙ ap (λ k. ok tt (unlocked (back u k))) (sym c))
            ∙ ap (λ m. bind m (λ _. pure tt)) (unlock-resumed u (rw c r.some_current) (rw c flag));
      },
    )
  where
    same_joiner : (task_of (flagged w true) (current_of w)).joiner ≡ j
    same_joiner = ap (λ t. t.joiner) (update_self w.heap.tasks (current_of w) _) ∙ joined
