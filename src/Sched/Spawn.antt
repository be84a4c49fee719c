-- ===== src/Sched/Spawn.antt =====
-- `sched::spawn`: a task for the function, on the runqueue.
use mathlib.Core.Path.{subst}
use gthread.Freelist.{Freelist}
use gthread.Freelist
use gthread.Freelist.New.{Makes, make_task-Makes}
use gthread.Memory.{Attr}
use gthread.Outcome
use gthread.Outcome.{Result}
use gthread.Task.{Heap, suspended, stopped}
use gthread.Sched.{spawn, make_task, start}
use gthread.Preempt
use gthread.Preempt.{critical}
use gthread.Preempt.Critical.{
  critical_lem, flagged, lock_lem, unlock_lem, node_lem, with_task-IsReady, flag-flagged,
  flagged-IsReady,
}
use gthread.Node
use gthread.Node.Choice.{IsReady}
use gthread.Node.Schedule.{
  task_of-admitted, schedule_lem, admitted, scheduled, scheduled-IsReady, admitted_tasks_ne,
  occurs-scheduled,
}
use gthread.RunQueue.Order.{IsSorted, IsSorted-update}
use gthread.Common.{All-ne_of_count}
use gthread.Outcome
use gthread.Outcome.{
  Result, Exception, domain_error, logic_error, runtime_error, Fault, null_deref, uninitialised,
  assertion, spins,
}
use gthread.Task.{Task, Heap, suspended, stopped}
use gthread.Effects.{World, ok, ◌>>◌, lift, current_of, task_of, with_task}
use gthread.Common.{
  ◌≡◌, refl, sym, ap, ◌∙◌, ◌≢◌, true, false, ◌∷◌, arith, Ptr, null, count, update_self, update_ne,
  ==-of_ne,
}

-- the world in which the task is made
abbrev made : World → Freelist → Heap → World
made w f h = record w { freelist = f; heap = h }

-- and in which it has its function
abbrev named : World → Ptr → Ptr → Ptr → World
named v p entry arg = with_task v p (record (task_of v p) { entry = entry; arg = arg })

-- and in which it has been started
abbrev started : World → Ptr → World
started v p = with_task v p (record (task_of v p) { run_state = suspended })

-- the rest of `spawn`
abbrev spawned : World → Ptr → World
spawned v p = flagged (scheduled (flagged v true) p) false

make_task-made :
    (a : Attr) (w : World) (p : Ptr) (f : Freelist) (h : Heap)
    → Freelist.make_task w.machine.os w.machine.sizes a w.freelist w.heap ≡ Result.ok (p, f, h)
    → make_task a w ≡ ok p (made w f h)
unfolding make_task
make_task-made a w p f h e =
    ap {A = Result (Ptr × Freelist × Heap)}
      (λ r. lift (λ _. Outcome.◌>>=◌ r (λ k. Result.ok (k.0, made w k.1 k.2))) w) e

start_lem :
    (v : World) (p : Ptr)
    → p ≢ null
    → current_of v ≢ p
    → (task_of v p).run_state ≡ stopped
    → start p v ≡ ok tt (started v p)
unfolding start
start_lem v p n other e = ground arith

-- the last part of `spawn`, in a critical section
admit_lem :
    (v : World) (p : Ptr)
    → p ≢ null
    → current_of v ≢ null
    → current_of v ≢ p
    → v.on_node v.tls_now ≡ true
    → v.node.spin_lock ≡ false
    → (task_of v (current_of v)).no_preempt_flag ≡ false
    → critical (Preempt.node >> Node.schedule p) v ≡ ok tt (spawned v p)
admit_lem v p n c other e l f =
    critical_lem (Preempt.node >> Node.schedule p) v (scheduled (flagged v true) p) (spawned v p) tt
      (lock_lem v c f) (rw (node_lem (flagged v true) e) (schedule_lem (flagged v true) p l n))
      (unlock_lem (scheduled (flagged v true) p) c (
        ap (λ t. t.no_preempt_flag)
          (admitted_tasks_ne (flagged v true) p (current_of v) (λ k. other (sym k)))
        ∙ flag-flagged v true))

-- Once `spawn` has a task, it returns the task after its three other parts.
spawn_lem :
    (a : Attr) (entry arg : Ptr) (w v : World) (p : Ptr)
    → entry ≢ null
    → make_task a w ≡ ok p v
    → p ≢ null
    → start p (named v p entry arg) ≡ ok tt (started (named v p entry arg) p)
    → critical (Preempt.node >> Node.schedule p) (started (named v p entry arg) p)
      ≡ ok tt (spawned (started (named v p entry arg) p) p)
    → spawn a entry arg w ≡ ok p (spawned (started (named v p entry arg) p) p)
unfolding spawn
spawn_lem a entry arg w v p ne m n s c =
    rw (==-of_ne entry 0 ne) (rw m (rw (==-of_ne p 0 n) (rw s (rw c refl))))

-- the world in which `spawn` returns
abbrev pub launched : World → Freelist → Heap → Ptr → Ptr → Ptr → World
launched w f h p entry arg = spawned (started (named (made w f h) p entry arg) p) p

-- what `spawn` leaves in the world `u`
pub record Launches (w : World) (p entry arg : Ptr) (u : World) : Type 0 where
  pub ready : IsReady u
  pub runs : (task_of u p).run_state ≡ suspended
  pub calls : ((task_of u p).entry ≡ entry) × ((task_of u p).arg ≡ arg)
  pub fair : (task_of u p).vruntime ≡ w.node.rq.min_vruntime
  pub queued : (q : Ptr) → count q u.node.rq.runqueue ≡ count q (p ∷ w.node.rq.runqueue)
  pub others : (q : Ptr) → p ≢ q → current_of w ≢ q → task_of u q ≡ task_of w q
  pub caller :
      task_of u (current_of w) ≡ record (task_of w (current_of w)) { no_preempt_flag = false }
  pub unflagged : (task_of u p).no_preempt_flag ≡ false
  pub unjoined : (task_of u p).joiner ≡ null
  pub same_current : current_of u ≡ current_of w
  pub here : u.on_node u.tls_now ≡ w.on_node w.tls_now
  pub awake : u.node.rq.sleepqueue ≡ w.node.rq.sleepqueue
  pub settled : u.node.deferred ≡ w.node.deferred
  pub waiters : u.waiters ≡ w.waiters

-- the world in which the task is scheduled, outside of the critical section
abbrev begun : World → Freelist → Heap → Ptr → Ptr → Ptr → World
begun w f h p entry arg = started (named (made w f h) p entry arg) p

module _ (w : World) (f : Freelist) (h : Heap) (p entry arg : Ptr) (m : Makes w.heap p h)
    (other : current_of w ≢ p) where
  -- the tasks other than the new one, before it is scheduled
  begun-others : (q : Ptr) → p ≢ q → task_of (begun w f h p entry arg) q ≡ task_of w q
  begun-others q a =
      update_ne (named (made w f h) p entry arg).heap.tasks p q _ a
      ∙ (update_ne h.tasks p q _ a ∙ (ap (λ s. s q) m.0 ∙ update_ne w.heap.tasks p q _ a))

  launched-others :
      (q : Ptr) → p ≢ q → current_of w ≢ q → task_of (launched w f h p entry arg) q ≡ task_of w q
  launched-others q a b =
      update_ne (scheduled (flagged (begun w f h p entry arg) true) p).heap.tasks (current_of w) q _
        b
      ∙ (admitted_tasks_ne (flagged (begun w f h p entry arg) true) p q a
          ∙ (update_ne (begun w f h p entry arg).heap.tasks (current_of w) q _ b
              ∙ begun-others q a))

  launched-caller :
      task_of (launched w f h p entry arg) (current_of w)
      ≡ record (task_of w (current_of w)) { no_preempt_flag = false }
  launched-caller =
      update_self (scheduled (flagged (begun w f h p entry arg) true) p).heap.tasks (current_of w) _
      ∙ ap {A = Task} (λ t. record t { no_preempt_flag = false })
          (admitted_tasks_ne (flagged (begun w f h p entry arg) true) p (current_of w)
              (λ e. other (sym e))
            ∙ update_self (begun w f h p entry arg).heap.tasks (current_of w) _
            ∙ ap {A = Task} (λ t. record t { no_preempt_flag = true })
                (begun-others (current_of w) (λ e. other (sym e))))

  flag-begun :
      (task_of (begun w f h p entry arg) (current_of w)).no_preempt_flag
      ≡ (task_of w (current_of w)).no_preempt_flag
  flag-begun = ap (λ t. t.no_preempt_flag) (begun-others (current_of w) (λ e. other (sym e)))

  -- the new task when it is put on the runqueue
  begun-task :
      task_of (flagged (begun w f h p entry arg) true) p
      ≡ record (h.tasks p) { entry = entry; arg = arg; run_state = suspended }
  begun-task =
      update_ne (begun w f h p entry arg).heap.tasks (current_of w) p _ other
      ∙ (update_self (named (made w f h) p entry arg).heap.tasks p _
          ∙ ap {A = Task} (λ t. record t { run_state = suspended }) (update_self h.tasks p _))

  launched-task : task_of (launched w f h p entry arg) p ≡ record (h.tasks p) {
    entry = entry;
    arg = arg;
    run_state = suspended;
    vruntime = w.node.rq.min_vruntime;
  }
  launched-task =
      update_ne (scheduled (flagged (begun w f h p entry arg) true) p).heap.tasks (current_of w) p _
        other
      ∙ (task_of-admitted (flagged (begun w f h p entry arg) true) p
          ∙ (ap (admitted w) begun-task ∙ rw m.1.no_vruntime refl))

  made-IsReady : IsReady w → count p w.node.rq.runqueue ≡ 0 → IsReady (made w f h)
  made-IsReady r fresh = record {
    is_running = r.is_running;
    free = r.free;
    some_current = r.some_current;
    sorted =
        subst (λ s. IsSorted s w.node.rq.runqueue) (sym m.0)
          (IsSorted-update w.heap.tasks p _ w.node.rq.runqueue
            (All-ne_of_count p w.node.rq.runqueue fresh) r.sorted);
    live = r.live;
    absent = r.absent;
    once = r.once;
  }

  launched-IsReady :
      IsReady w → p ≢ null → count p w.node.rq.runqueue ≡ 0 → IsReady (launched w f h p entry arg)
  launched-IsReady r n fresh =
      flagged-IsReady (scheduled (flagged (begun w f h p entry arg) true) p) false (
        scheduled-IsReady (flagged (begun w f h p entry arg) true) p
          (flagged-IsReady (begun w f h p entry arg) true (
            with_task-IsReady (named (made w f h) p entry arg) p _ refl
              (with_task-IsReady (made w f h) p _ refl (made-IsReady r fresh))))
          n (λ e. other (sym e)) fresh)

  launched-Launches :
      IsReady w
      → p ≢ null
      → count p w.node.rq.runqueue ≡ 0
      → Launches w p entry arg (launched w f h p entry arg)
  launched-Launches r n fresh = record {
    ready = launched-IsReady r n fresh;
    runs = ap (λ t. t.run_state) launched-task;
    calls = (ap (λ t. t.entry) launched-task, ap (λ t. t.arg) launched-task);
    fair = ap (λ t. t.vruntime) launched-task;
    queued = occurs-scheduled (flagged (begun w f h p entry arg) true) p;
    others = launched-others;
    caller = launched-caller;
    unflagged = ap (λ t. t.no_preempt_flag) launched-task ∙ m.1.no_flag;
    unjoined = ap (λ t. t.joiner) launched-task ∙ m.1.no_joiner;
    same_current = refl;
    here = refl;
    awake = refl;
    settled = refl;
    waiters = refl;
  }

  -- what is left of `spawn` once it has the task
  launch_lem :
      (a : Attr)
      → IsReady w
      → p ≢ null
      → entry ≢ null
      → w.on_node w.tls_now ≡ true
      → (task_of w (current_of w)).no_preempt_flag ≡ false
      → make_task a w ≡ ok p (made w f h)
      → spawn a entry arg w ≡ ok p (launched w f h p entry arg)
  launch_lem a r n ne e l k =
      spawn_lem a entry arg w (made w f h) p ne k n
        (start_lem (named (made w f h) p entry arg) p n other
          (ap (λ t. t.run_state) (update_self h.tasks p _) ∙ m.1.is_stopped))
        (admit_lem (begun w f h p entry arg) p n r.some_current other e r.free (flag-begun ∙ l))

-- `spawn` of a function by a task outside of a critical section, in a ready world, when the free
-- tasks or the system give it a task that is not null, not the current one and not on the runqueue:
-- it returns that task in a ready world. The task has the function and its argument, can run, and
-- starts with the node's `min_vruntime`; it is on the runqueue besides the others, and no task but it
-- and the current one has changed.
pub spawn-Launches :
    (a : Attr) (entry arg : Ptr) (w : World) (p : Ptr) (f : Freelist) (h : Heap)
    → IsReady w
    → entry ≢ null
    → w.on_node w.tls_now ≡ true
    → (task_of w (current_of w)).no_preempt_flag ≡ false
    → Freelist.make_task w.machine.os w.machine.sizes a w.freelist w.heap ≡ Result.ok (p, f, h)
    → p ≢ null
    → current_of w ≢ p
    → count p w.node.rq.runqueue ≡ 0
    → (u : World) × (spawn a entry arg w ≡ ok p u) × Launches w p entry arg u × (u.freelist ≡ f)
spawn-Launches a entry arg w p f h r ne e l k n other fresh =
    let m = make_task-Makes w.machine.os w.machine.sizes a w.freelist f w.heap h p k in
    (
      launched w f h p entry arg,
      launch_lem w f h p entry arg m other a r n ne e l (make_task-made a w p f h k),
      launched-Launches w f h p entry arg m other r n fresh,
      refl,
    )
