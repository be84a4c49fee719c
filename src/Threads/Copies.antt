-- ===== src/Threads/Copies.antt =====
-- Two `g` objects with the same handle: the class has a destructor and no copy constructor of its own,
-- so that a copy has the handle of the original, and both destructors detach it.
use gthread.Threads.{detach, destruct}
use gthread.Sched.Detach.{visited, detach-collects}
use gthread.Freelist
use gthread.Freelist.{Freelist, insert_task}
use gthread.Freelist.Insert.{count-insert_task, length-insert_task}
use gthread.Preempt.Critical.{flagged}
use gthread.Task.{Heap, stopped}
use gthread.Effects.{World, ok, current_of, task_of}
use gthread.Common.{
  ◌+◌, ◌<◌, ◌≡◌, refl, ap, ◌∙◌, ◌≢◌, true, false, arith, Ptr, null, length, count, update_self,
  update_ne, ==-of_ne,
}

return_task-kept :
    (t : Ptr) (f : Freelist) (h : Heap)
    → length f.list < f.max_size
    → Freelist.return_task t f h ≡ (record f { list = insert_task h.tasks t f.list }, h)
unfolding Freelist.return_task
return_task-kept t f h l = ground arith

-- the task `p`, which is not the current one, in the world in which the section was left
task-visited : (w : World) (p : Ptr) → current_of w ≢ p → task_of (visited w) p ≡ task_of w p
task-visited w p other =
    update_ne (flagged w true).heap.tasks (current_of w) p _ other
    ∙ update_ne w.heap.tasks (current_of w) p _ other

-- the world in which the task is back with the free ones
abbrev returned : World → Ptr → World
returned w p = record (visited w) {
  freelist = record (w.freelist) { list = insert_task (visited w).heap.tasks p w.freelist.list };
}

destruct-returns :
    (w : World) (p : Ptr)
    → p ≢ null
    → current_of w ≢ null
    → current_of w ≢ p
    → (task_of w (current_of w)).no_preempt_flag ≡ false
    → (task_of w p).run_state ≡ stopped
    → length w.freelist.list < w.freelist.max_size
    → destruct p w ≡ ok tt (returned w p)
unfolding destruct detach
destruct-returns w p n c other f s l =
    rw (==-of_ne p 0 n) (
      rw (detach-collects w p n c f s) (rw (return_task-kept p w.freelist (visited w).heap l) refl))

-- Two `g` objects, one a copy of the other, of a task that has ended and that nobody joins, in a world
-- whose free tasks have room for two more: when both are destructed, by a task outside of a critical
-- section, the task is on the list of free tasks twice more than before, to be handed out to two.
pub copies-return_twice :
    (w : World) (p : Ptr)
    → p ≢ null
    → current_of w ≢ null
    → current_of w ≢ p
    → (task_of w (current_of w)).no_preempt_flag ≡ false
    → (task_of w p).run_state ≡ stopped
    → length w.freelist.list + 1 < w.freelist.max_size
    → (u : World) × (v : World) × (destruct p w ≡ ok tt u)
      × (destruct p u ≡ ok tt v)
      × (count p v.freelist.list ≡ count p w.freelist.list + 2)
copies-return_twice w p n c other f s l = (
  returned w p,
  returned (returned w p) p,
  destruct-returns w p n c other f s (omega arith),
  destruct-returns (returned w p) p n c other
      (ap (λ t. t.no_preempt_flag) (update_self (flagged w true).heap.tasks (current_of w) _))
      (ap (λ t. t.run_state) (task-visited w p other) ∙ s)
      (omega (arith, length-insert_task (visited w).heap.tasks p w.freelist.list)),
  ground (
    arith,
    count-insert_task (visited (returned w p)).heap.tasks p p (returned w p).freelist.list,
    count-insert_task (visited w).heap.tasks p p w.freelist.list,
  ),
)
