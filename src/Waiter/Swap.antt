-- ===== src/Waiter/Swap.antt =====
-- `waiter::swap`: the current task and the one that waits trade places.
use gthread.Preempt
use gthread.Preempt.{critical}
use gthread.Preempt.Critical.{
  flagged, lock_lem, unlock_lem, node_lem, with_task-IsReady, flagged-IsReady,
}
use gthread.Node.{come_back}
use gthread.Node.Choice.{IsReady}
use gthread.Node.Direct.{direct, switch_to_lem, direct-IsReady}
use gthread.Node.Switch.{
  on_node-left, left, back, current-left, node-left, waiters-left, task_of-left_blocked,
  task_of-left_ne, come_back_lem,
}
use gthread.Sched.Waiting.{waiting_in}
use gthread.Node.Next.{charged}
use gthread.Waiter.{swap, release, trade_places, waiting_at, set_waiter}
use gthread.Task.{Task, running, waiting, is_state}
use gthread.Effects.{World, Run, ok, switched, bind, unwind, pure, current_of, task_of}
use gthread.Common.{
  update, ◌≡◌, refl, sym, ap, ◌∙◌, ◌≢◌, Bool, true, false, arith, Ptr, null, count, update_self,
  update_ne, ==-of_ne,
}

-- the world in which the current task has the waiter and calls `switch_to`
abbrev trading : World → Ptr → World
trading w a = waiting_in (flagged (set_waiter a (current_of w) w) true)

swap-trades :
    (w : World) (a p : Ptr)
    → p ≢ null
    → waiting_at a w ≡ p
    → (task_of w p).run_state ≡ waiting
    → swap a w ≡ trade_places p (current_of w) (set_waiter a (current_of w) w)
unfolding swap release
swap-trades w a p n e s = ground arith

trade_places_lem :
    (w : World) (a p : Ptr)
    → p ≢ null
    → p ≢ current_of w
    → current_of w ≢ null
    → w.on_node w.tls_now ≡ true
    → w.node.spin_lock ≡ false
    → (task_of w (current_of w)).no_preempt_flag ≡ false
    → trade_places p (current_of w) (set_waiter a (current_of w) w)
      ≡ bind
          (unwind
            (switched (left (direct (trading w a)) p) (come_back (current_of w)))
            Preempt.unlock)
          (λ _. pure true)
unfolding trade_places
trade_places_lem w a p n other c e l f = rw (lock_lem (set_waiter a (current_of w) w) c f) (
    rw (==-of_ne (current_of w) 0 c)
      (rw (node_lem (trading w a) e) (rw (switch_to_lem (trading w a) p l c n other) refl)))

-- the current task as it waits: charged for its time, in its critical section
abbrev pub traded : World → Task
traded w = record (charged w (task_of w (current_of w))) {
  no_preempt_flag = true;
  run_state = waiting;
}

traded_task : (w : World) (a : Ptr) → task_of (direct (trading w a)) (current_of w) ≡ traded w
traded_task w a =
    update_self (trading w a).heap.tasks (current_of w) _
    ∙ ap {A = Task} (charged (trading w a)) (
        update_self (flagged (set_waiter a (current_of w) w) true).heap.tasks (current_of w) _
        ∙ ap {A = Task} (λ t. record t { run_state = waiting })
            (update_self w.heap.tasks (current_of w) _))

trading_others :
    (w : World) (a q : Ptr) → current_of w ≢ q → task_of (direct (trading w a)) q ≡ task_of w q
trading_others w a q n =
    update_ne (trading w a).heap.tasks (current_of w) q _ n
    ∙ (update_ne (flagged (set_waiter a (current_of w) w) true).heap.tasks (current_of w) q _ n
        ∙ update_ne w.heap.tasks (current_of w) q _ n)

trading-IsReady : (w : World) (a : Ptr) → IsReady w → IsReady (trading w a)
trading-IsReady w a r =
    with_task-IsReady (flagged (set_waiter a (current_of w) w) true) (current_of w) _ refl (
      flagged-IsReady (set_waiter a (current_of w) w) true (record {
        is_running = r.is_running;
        free = r.free;
        some_current = r.some_current;
        sorted = r.sorted;
        live = r.live;
        absent = r.absent;
        once = r.once;
      }))

-- the world in which `swap` returns
abbrev pub regained : World → World
regained u = flagged (back u (current_of u)) false

swap-returns :
    (u : World) (cur : Ptr)
    → cur ≢ null
    → current_of u ≡ cur
    → (task_of u cur).no_preempt_flag ≡ true
    → bind (unwind (come_back cur u) Preempt.unlock) (λ _. pure true) ≡ ok true (regained u)
swap-returns u cur n e f =
    ap (λ m. bind (unwind m Preempt.unlock) (λ _. pure true))
      (come_back_lem u cur n e ∙ ap (λ k. ok tt (back u k)) (sym e))
    ∙ ap (λ m. bind (bind m (λ _. pure tt)) (λ _. pure true))
        (unlock_lem (back u (current_of u)) (rw e n)
          (ap (λ t. t.no_preempt_flag) (update_self u.heap.tasks (current_of u) _) ∙ rw e f))

-- How `swap` goes on at a waiter where `p` waits: control leaves for `p`, in a world ready for the
-- next `yield`, with the runqueue as it was. The caller waits at the waiter in its place, charged for
-- its time; no other task has changed. When control comes back to it, `swap` returns true.
pub record Trades (w : World) (a p : Ptr) : Type 0 where
  pub world : World
  pub rest : World → Run Bool
  pub leaves : swap a w ≡ switched world rest
  pub next : current_of world ≡ p
  pub queue : world.node.rq.runqueue ≡ w.node.rq.runqueue
  pub ready : IsReady world
  pub itself : task_of world (current_of w) ≡ traded w
  pub others : (q : Ptr) → current_of w ≢ q → task_of world q ≡ task_of w q
  pub waiter : waiting_at a world ≡ current_of w
  pub waiters : world.waiters ≡ update w.waiters a (current_of w)
  pub here : world.on_node world.tls_now ≡ true
  pub awake : world.node.rq.sleepqueue ≡ w.node.rq.sleepqueue
  pub settled : world.node.deferred ≡ w.node.deferred
  pub returns :
      (u : World)
      → current_of u ≡ current_of w
      → (task_of u (current_of w)).no_preempt_flag ≡ true
      → rest u ≡ ok true (regained u)

-- `swap` at a waiter where a task waits that is on no queue, by another task outside of a critical
-- section in a ready world, trades places as described above.
pub swap-Trades :
    (w : World) (a p : Ptr)
    → IsReady w
    → w.on_node w.tls_now ≡ true
    → (task_of w (current_of w)).no_preempt_flag ≡ false
    → waiting_at a w ≡ p
    → p ≢ null
    → (task_of w p).run_state ≡ waiting
    → p ≢ current_of w
    → count p w.node.rq.runqueue ≡ 0
    → Trades w a p
swap-Trades w a p r e f h n s other fresh = record {
  world = left (direct (trading w a)) p;
  rest = λ u. bind (unwind (come_back (current_of w) u) Preempt.unlock) (λ _. pure true);
  leaves = swap-trades w a p n h s ∙ trade_places_lem w a p n other r.some_current e r.free f;
  next = current-left (direct (trading w a)) p;
  queue = ap (λ m. m.rq.runqueue) (node-left (direct (trading w a)) p);
  ready = direct-IsReady (trading w a) p (trading-IsReady w a r) n fresh;
  itself =
      task_of-left_blocked (direct (trading w a)) p
        (ap (λ t. is_state t.run_state running) (traded_task w a))
      ∙ traded_task w a;
  others = λ q d. task_of-left_ne (direct (trading w a)) p q d ∙ trading_others w a q d;
  waiter =
      ap (λ k. k a) (waiters-left (direct (trading w a)) p)
      ∙ update_self w.waiters a (current_of w);
  waiters = waiters-left (direct (trading w a)) p;
  here = on_node-left (direct (trading w a)) p;
  awake = ap (λ m. m.rq.sleepqueue) (node-left (direct (trading w a)) p);
  settled = ap (λ m. m.deferred) (node-left (direct (trading w a)) p);
  returns = λ u c k. swap-returns u (current_of w) r.some_current c k;
}
