-- ===== src/Preempt/Critical.antt =====
-- Critical sections of the current task.
use gthread.RunQueue.Order.{IsSorted-same}
use gthread.Preempt.{lock, unlock, critical, trap, node}
use gthread.Node.Choice.{IsReady}
use gthread.Node
use gthread.Task.{Task}
use gthread.Effects.{World, M, ok, ◌>>◌, unwind, current_of, task_of, with_task}
use gthread.Common.{
  ◌≡◌, refl, ap, ◌∙◌, ◌≢◌, inl, inr, Bool, true, false, arith, if◌then◌else◌, Ptr, null, Bool-cases,
  update, update_self,
}

-- the world with the flag of the current task set to `b`
abbrev pub flagged : World → Bool → World
flagged w b = with_task w (current_of w) (record (task_of w (current_of w)) { no_preempt_flag = b })

pub lock_lem :
    (w : World)
    → current_of w ≢ null
    → (task_of w (current_of w)).no_preempt_flag ≡ false
    → lock w ≡ ok tt (flagged w true)
unfolding lock
lock_lem w n f = ground arith

pub unlock_lem :
    (w : World)
    → current_of w ≢ null
    → (task_of w (current_of w)).no_preempt_flag ≡ true
    → unlock w ≡ ok tt (flagged w false)
unfolding unlock
unlock_lem w n f = ground arith

pub node_lem : (w : World) → w.on_node w.tls_now ≡ true → node w ≡ ok tt w
unfolding node
node_lem w e = ground arith

-- A scope under the lock, from its three parts.
pub critical_lem :
    {A : Type 0} (body : M A) (w v u : World) (a : A)
    → lock w ≡ ok tt (flagged w true)
    → body (flagged w true) ≡ ok a v
    → unlock v ≡ ok tt u
    → critical body w ≡ ok a u
critical_lem body w v u a l b e = rw l (rw b (rw e refl))

-- A world in which only tasks outside the runqueue, or things other than virtual runtimes, have
-- changed is as ready as before.
pub with_task-IsReady :
    (w : World) (p : Ptr) (t : Task)
    → t.vruntime ≡ (task_of w p).vruntime
    → IsReady w
    → IsReady (with_task w p t)
with_task-IsReady w p t e r = record {
  is_running = r.is_running;
  free = r.free;
  some_current = r.some_current;
  sorted =
      IsSorted-same w.heap.tasks (update w.heap.tasks p t) w.node.rq.runqueue (λ q. same q)
        r.sorted;
  live = r.live;
  absent = r.absent;
  once = r.once;
}
  where
    same : (q : Ptr) → (w.heap.tasks q).vruntime ≡ (update w.heap.tasks p t q).vruntime
    same q = ground arith

trap-held :
    (w : World)
    → current_of w ≢ null
    → w.on_node w.tls_now ≡ true
    → (task_of w (current_of w)).no_preempt_flag ≡ true
    → trap w ≡ ok tt w
unfolding trap
trap-held w n e f = ground arith

trap-free :
    (w : World)
    → current_of w ≢ null
    → w.on_node w.tls_now ≡ true
    → (task_of w (current_of w)).no_preempt_flag ≡ false
    → trap w ≡ critical (node >> Node.yield) w
unfolding trap
trap-free w n e f = ground arith

pub critical-yield :
    (w : World)
    → current_of w ≢ null
    → w.on_node w.tls_now ≡ true
    → (task_of w (current_of w)).no_preempt_flag ≡ false
    → critical (node >> Node.yield) w ≡ unwind (Node.yield (flagged w true)) unlock
critical-yield w n e f = rw (lock_lem w n f) (rw (node_lem (flagged w true) e) refl)

-- The alarm rings on a node. In a critical section of the current task nothing happens; outside of
-- one the task yields inside a critical section of its own.
pub trap_lem :
    (w : World)
    → current_of w ≢ null
    → w.on_node w.tls_now ≡ true
    → trap w ≡ (
        if (task_of w (current_of w)).no_preempt_flag
        then ok tt w
        else unwind (Node.yield (flagged w true)) unlock)
trap_lem w n e = elim (Bool-cases (task_of w (current_of w)).no_preempt_flag) [
  | inl f ↦ rw f (trap-held w n e f)
  | inr f ↦ rw f (trap-free w n e f ∙ critical-yield w n e f)
]

pub flag-flagged :
    (w : World) (b : Bool) → (task_of (flagged w b) (current_of w)).no_preempt_flag ≡ b
flag-flagged w b = ap (λ t. t.no_preempt_flag) (update_self w.heap.tasks (current_of w) _)

pub joiner-flagged :
    (w : World) (b : Bool)
    → (task_of (flagged w b) (current_of w)).joiner ≡ (task_of w (current_of w)).joiner
joiner-flagged w b = ap (λ t. t.joiner) (update_self w.heap.tasks (current_of w) _)

pub flagged-IsReady : (w : World) (b : Bool) → IsReady w → IsReady (flagged w b)
flagged-IsReady w b r = with_task-IsReady w (current_of w) _ refl r
