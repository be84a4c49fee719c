-- ===== src/Node/Return.antt =====
-- The return of a task that `yield` had put off changes nothing that the scheduler decides on.
use gthread.Freelist
use gthread.Freelist.{Freelist}
use gthread.Node.Choice.{IsReady}
use gthread.Node.Schedule.{returned}
use gthread.Task.{Heap, destroy}
use gthread.Effects.{World}
use gthread.Common.{◌≡◌, refl, inl, inr, Bool-cases, arith, Ptr, ltb, length}

-- The tasks of the heap are as they were, when a task becomes free or is destroyed.
pub return_task-tasks :
    (p : Ptr) (f : Freelist) (h : Heap) → (Freelist.return_task p f h).1.tasks ≡ h.tasks
unfolding Freelist.return_task destroy
return_task-tasks p f h = elim (Bool-cases (ltb (length f.list) f.max_size)) [
  | inl room ↦ rw room refl
  | inr full ↦ ground arith
]

pub returned-tasks : (w : World) → (returned w).heap.tasks ≡ w.heap.tasks
returned-tasks w = return_task-tasks w.node.deferred w.freelist w.heap

pub returned-IsReady : (w : World) → IsReady w → IsReady (returned w)
returned-IsReady w r = record {
  is_running = r.is_running;
  free = r.free;
  some_current = r.some_current;
  sorted = rw (returned-tasks w) r.sorted;
  live = r.live;
  absent = r.absent;
  once = r.once;
}
