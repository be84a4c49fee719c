-- ===== src/Node/Direct.antt =====
-- `sched_node::switch_to`: a switch to a given task, past the runqueue.
use gthread.RunQueue.Order.{IsSorted, IsSorted-update, IsSorted-same}
use mathlib.Core.Path.{subst}
use gthread.Node.{switch_to, charge_and_tick, come_back}
use gthread.Node.Next.{charged_in}
use gthread.Node.Choice.{IsReady}
use gthread.Node.Switch.{left, current-left, node-left, vruntime-left, switch_task_lem}
use gthread.Common.{All-ne_of_count}
use gthread.Effects.{World, switched, current_of}
use gthread.Common.{◌≡◌, sym, ap, ◌∙◌, ◌≢◌, false, Ptr, null, count, ==-of_ne}

-- the world in which the current task is charged and the clock is read, with the lock released
abbrev pub direct : World → World
direct w = record (charged_in w (current_of w)) {
  node = record (w.node) { last_tick = w.machine.cpu w.reads; spin_lock = false };
}

pub switch_to_lem :
    (w : World) (p : Ptr)
    → w.node.spin_lock ≡ false
    → current_of w ≢ null
    → p ≢ null
    → p ≢ current_of w
    → switch_to p w ≡ switched (left (direct w) p) (come_back (current_of w))
unfolding switch_to charge_and_tick
switch_to_lem w p f c n d =
    rw f (rw (==-of_ne (current_of w) 0 c) (switch_task_lem (direct w) p c n d))

-- A ready world is ready for the next `yield` after the switch, if the task switched to is not on the
-- runqueue.
pub direct-IsReady :
    (w : World) (p : Ptr)
    → IsReady w
    → p ≢ null
    → count p w.node.rq.runqueue ≡ 0
    → IsReady (left (direct w) p)
direct-IsReady w p r n fresh = record {
  is_running = ap (λ m. m.running) same ∙ r.is_running;
  free = ap (λ m. m.spin_lock) same;
  some_current = rw (current-left (direct w) p) n;
  sorted =
      subst (λ l. IsSorted (left (direct w) p).heap.tasks l) (sym (ap (λ m. m.rq.runqueue) same))
        (IsSorted-same (direct w).heap.tasks (left (direct w) p).heap.tasks w.node.rq.runqueue
          (λ q. sym (vruntime-left (direct w) p q))
          (IsSorted-update w.heap.tasks (current_of w) _ w.node.rq.runqueue
            (All-ne_of_count (current_of w) w.node.rq.runqueue r.absent) r.sorted));
  live = rw same r.live;
  absent = rw (same, current-left (direct w) p) fresh;
  once = λ a. rw same (r.once a);
}
  where
    same : (left (direct w) p).node ≡ (direct w).node
    same = node-left (direct w) p
