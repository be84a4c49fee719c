-- ===== src/System/Arrives.antt =====
-- A task to which control comes goes on as it should.
use gthread.System.{Frame, settled, resume}
use gthread.Preempt.Critical.{with_task-IsReady, flagged-IsReady}
use gthread.Node.Choice.{IsReady, unlocked}
use gthread.Node.Switch.{back}
use gthread.Node.Return.{return_task-tasks}
use gthread.Sched.Waiting.{resumed, collected}
use gthread.Task.{Task, running, stopped, is_state}
use gthread.Effects.{World, current_of, task_of}
use gthread.Common.{
  ◌≡◌, refl, ap, ◌∙◌, ◌≢◌, inl, inr, false, Option, none, some, arith, Ptr, null, update,
  update_self, update_ne,
}
use gthread.System.Sound.{CanResume, Place, at_waiter, at_end, occupant, joiner_of}

-- the world `w` in which the task goes on to which control has come in `v`
pub record Arrives (v w : World) : Type 0 where
  pub ready : IsReady w
  pub cur : current_of w ≡ current_of v
  pub here : w.on_node w.tls_now ≡ v.on_node v.tls_now
  pub runs : (task_of w (current_of v)).run_state ≡ running
  pub unflagged : (task_of w (current_of v)).no_preempt_flag ≡ false
  pub rq : w.node.rq ≡ v.node.rq
  pub occupants : (a : Place) → occupant w a ≡ occupant v a
  pub others : (p : Ptr) → current_of v ≢ p → task_of w p ≡ task_of v p

back-IsReady : (v : World) (p : Ptr) → IsReady v → IsReady (back v p)
back-IsReady v p r = with_task-IsReady v p _ refl r

joiner-back :
    (v : World) (t : Ptr)
    → is_state (task_of v (current_of v)).run_state stopped ≡ false
    → joiner_of (task_of (back v (current_of v)) t) ≡ joiner_of (task_of v t)
joiner-back v t l = ground arith

joiner-resumed :
    (v : World) (t : Ptr)
    → is_state (task_of v (current_of v)).run_state stopped ≡ false
    → joiner_of (task_of (resumed v) t) ≡ joiner_of (task_of v t)
joiner-resumed v t l = ground arith

back-occupants :
    (v : World) (a : Place)
    → is_state (task_of v (current_of v)).run_state stopped ≡ false
    → occupant (back v (current_of v)) a ≡ occupant v a
back-occupants v (at_waiter a) l = refl
back-occupants v (at_end t) l = joiner-back v t l

resumed-occupants :
    (v : World) (a : Place)
    → is_state (task_of v (current_of v)).run_state stopped ≡ false
    → occupant (resumed v) a ≡ occupant v a
resumed-occupants v (at_waiter a) l = refl
resumed-occupants v (at_end t) l = joiner-resumed v t l

back-Arrives :
    (v : World)
    → IsReady v
    → is_state (task_of v (current_of v)).run_state stopped ≡ false
    → (task_of v (current_of v)).no_preempt_flag ≡ false
    → Arrives v (back v (current_of v))
back-Arrives v r l f = record {
  ready = back-IsReady v (current_of v) r;
  cur = refl;
  here = refl;
  runs = ap (λ t. t.run_state) (update_self v.heap.tasks (current_of v) _);
  unflagged = ap (λ t. t.no_preempt_flag) (update_self v.heap.tasks (current_of v) _) ∙ f;
  rq = refl;
  occupants = λ a. back-occupants v a l;
  others = λ p c. update_ne v.heap.tasks (current_of v) p _ c;
}

unlocked-IsReady : (v : World) → IsReady v → IsReady (unlocked v)
unlocked-IsReady v r = record {
  is_running = r.is_running;
  free = refl;
  some_current = r.some_current;
  sorted = r.sorted;
  live = r.live;
  absent = r.absent;
  once = r.once;
}

resumed-Arrives :
    (v : World)
    → IsReady v
    → is_state (task_of v (current_of v)).run_state stopped ≡ false
    → Arrives v (resumed v)
resumed-Arrives v r l = record {
  ready =
      flagged-IsReady (unlocked (back v (current_of v))) false
        (unlocked-IsReady (back v (current_of v)) (back-IsReady v (current_of v) r));
  cur = refl;
  here = refl;
  runs =
      ap (λ t. t.run_state)
        (update_self (back v (current_of v)).heap.tasks (current_of v) _
          ∙ ap {A = Task} (λ t. record t { no_preempt_flag = false })
              (update_self v.heap.tasks (current_of v) _));
  unflagged =
      ap (λ t. t.no_preempt_flag) (update_self (back v (current_of v)).heap.tasks (current_of v) _);
  rq = refl;
  occupants = λ a. resumed-occupants v a l;
  others = λ p c.
      update_ne (back v (current_of v)).heap.tasks (current_of v) p _ c
      ∙ update_ne v.heap.tasks (current_of v) p _ c;
}

collected-occupants : (w : World) (t : Ptr) (a : Place) → occupant (collected w t) a ≡ occupant w a
collected-occupants w t (at_waiter a) = refl
collected-occupants w t (at_end p) =
    ap (λ k. joiner_of (k p)) (return_task-tasks t w.freelist w.heap)

collected-Arrives : (v w : World) (t : Ptr) → Arrives v w → Arrives v (collected w t)
collected-Arrives v w t a =
    let e = return_task-tasks t w.freelist w.heap in
    record {
      ready = record {
        is_running = a.ready.is_running;
        free = a.ready.free;
        some_current = a.ready.some_current;
        sorted = rw e a.ready.sorted;
        live = a.ready.live;
        absent = a.ready.absent;
        once = a.ready.once;
      };
      cur = a.cur;
      here = a.here;
      runs = ap (λ k. (k (current_of v)).run_state) e ∙ a.runs;
      unflagged = ap (λ k. (k (current_of v)).no_preempt_flag) e ∙ a.unflagged;
      rq = a.rq;
      occupants = λ b. collected-occupants w t b ∙ a.occupants b;
      others = λ p c. ap (λ k. k p) e ∙ a.others p c;
    }

-- A task that can go on does so when control comes to it, if the task that it joins has ended.
pub go_on :
    (f : Ptr → Option Frame) (n : Ptr → Ptr) (o : Option Frame) (t : Ptr) (v : World)
    → IsReady v
    → is_state (task_of v (current_of v)).run_state stopped ≡ false
    → CanResume o (current_of v) t (task_of v (current_of v)).no_preempt_flag
    → (t ≢ null → (task_of v t).run_state ≡ stopped)
    → (w : World) × (resume o f n v
        ≡ some (record {
          world = w;
          frames = update f (current_of v) none;
          awaits = update n (current_of v) null;
        }))
      × Arrives v w
go_on f n none t v r l c e = absurd c
go_on f n (some k) t v r l (inl (_, inl (b, g))) e = (
  resumed v,
  ap (settled (update f (current_of v) none) (update n (current_of v) null)) (g v refl r.free b),
  resumed-Arrives v r l,
)
go_on f n (some k) t v r l (inl (_, inr (b, g))) e = (
  back v (current_of v),
  ap (settled (update f (current_of v) none) (update n (current_of v) null)) (g v refl),
  back-Arrives v r l b,
)
go_on f n (some k) t v r l (inr (m, b, g)) e = (
  collected (resumed v) t,
  ap (settled (update f (current_of v) none) (update n (current_of v) null))
      (g v refl r.free b (e m)),
  collected-Arrives v (resumed v) t (resumed-Arrives v r l),
)
