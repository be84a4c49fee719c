-- ===== src/Node/Choice.antt =====
-- Whom `sched_node::yield` picks: the task with the least virtual runtime.
use gthread.RunQueue.{emplace}
use gthread.RunQueue.Order.{
  IsSorted, count-emplace, emplace-IsSorted, IsSorted-update, IsSorted-same, IsSorted-same, least,
}
use gthread.Node.Next.{charged_tasks}
use mathlib.Core.Path.{subst}
use gthread.RunQueue.{before}
use gthread.Task.{Task}
use gthread.Effects.{World, current_of, task_of, with_node}
use gthread.Common.{
  All-ne_of_count, ◌≤◌, ◌≡◌, refl, sym, ap, ◌∙◌, ◌≢◌, inl, inr, true, false, List, [], ◌∷◌, arith,
  Ptr, null, Bool-cases, All, count,
}

-- A world in which the current task may call `yield`: the node runs, its lock is free, and its
-- runqueue is sorted and holds no null task, not the current one, and no task twice.
pub record IsReady (w : World) : Type 0 where
  pub is_running : w.node.running ≡ true
  pub free : w.node.spin_lock ≡ false
  pub some_current : current_of w ≢ null
  pub sorted : IsSorted w.heap.tasks w.node.rq.runqueue
  pub live : count null w.node.rq.runqueue ≡ 0
  pub absent : count (current_of w) w.node.rq.runqueue ≡ 0
  pub once : (a : Ptr) → count a w.node.rq.runqueue ≤ 1

abbrev pub locked : World → World
locked w = with_node w (record (w.node) { spin_lock = true })

abbrev pub unlocked : World → World
unlocked w = with_node w (record (w.node) { spin_lock = false })

-- The members of the queue that `yield` picks from: the runqueue and the current task, once that
-- is charged. `x` comes first.
pub record Picks (w : World) (x : Ptr) (q : List Ptr) : Type 0 where
  pub same : (a : Ptr) → count a (x ∷ q) ≡ count a (current_of w ∷ w.node.rq.runqueue)
  pub fair :
      All
        (λ y.
          (charged_tasks w (current_of w) x).vruntime ≤ (charged_tasks w (current_of w) y).vruntime)
        q
  pub in_order : IsSorted (charged_tasks w (current_of w)) q

pub emplace-nonempty :
    (s : Ptr → Task) (t : Ptr) (q : List Ptr) → (x : Ptr) × (r : List Ptr) × (emplace s t q ≡ x ∷ r)
unfolding emplace
emplace-nonempty s t [] = (t, [], refl)
emplace-nonempty s t (x ∷ q) = elim (Bool-cases (before s t x)) [
  | inl e ↦ (t, x ∷ q, rw e)
  | inr e ↦ (x, emplace s t q, rw e)
]

pub choice :
    (w : World)
    → IsReady w
    → (x : Ptr) × (q : List Ptr) × (emplace
          (charged_tasks w (current_of w))
          (current_of w)
          w.node.rq.runqueue
        ≡ x ∷ q)
      × Picks w x q
choice w r =
    let s = charged_tasks w (current_of w) in
    let c = current_of w in
    let (x, q, e) = emplace-nonempty s c w.node.rq.runqueue in
    let sorted' : IsSorted s (x ∷ q) = subst (IsSorted s) e (
      emplace-IsSorted s c w.node.rq.runqueue (
        IsSorted-update w.heap.tasks c _ w.node.rq.runqueue
          (All-ne_of_count c w.node.rq.runqueue r.absent) r.sorted)) in
    (
      x,
      q,
      e,
      record {
        same = λ a. ap (count a) (sym e) ∙ count-emplace s c a w.node.rq.runqueue;
        fair = least s x q sorted';
        in_order = sorted'.1;
      },
    )

pub alive : (w : World) (x : Ptr) (q : List Ptr) → IsReady w → Picks w x q → x ≢ null
alive w x q r p = ground (arith, p.same null, r.live, r.some_current)

-- A world in which the first task of the runqueue is current and the others wait is ready.
pub first-IsReady :
    (w v : World) (x : Ptr) (q : List Ptr)
    → IsReady w
    → w.node.rq.runqueue ≡ x ∷ q
    → current_of v ≡ x
    → v.node.running ≡ true
    → v.node.spin_lock ≡ false
    → v.node.rq.runqueue ≡ q
    → ((p : Ptr) → (charged_tasks w (current_of w) p).vruntime ≡ (task_of v p).vruntime)
    → IsReady v
first-IsReady w v x q r e cur run free queue same = record {
  is_running = run;
  free = free;
  some_current = rw cur (ground (arith, live));
  sorted = rw queue (
      IsSorted-same (charged_tasks w (current_of w)) v.heap.tasks q same (
        IsSorted-update w.heap.tasks (current_of w) _ q
          (All-ne_of_count (current_of w) q (ground (arith, absent))) sorted.1));
  live = rw queue (ground (arith, live));
  absent = rw (queue, cur) (ground (arith, once x));
  once = λ a. rw queue (ground (arith, once a));
}
  where
    sorted : IsSorted w.heap.tasks (x ∷ q)
    sorted = subst (IsSorted w.heap.tasks) e r.sorted

    live : count null (x ∷ q) ≡ 0
    live = ap (count null) (sym e) ∙ r.live

    absent : count (current_of w) (x ∷ q) ≡ 0
    absent = ap (count (current_of w)) (sym e) ∙ r.absent

    once : (a : Ptr) → count a (x ∷ q) ≤ 1
    once a = subst (λ l. count a l ≤ 1) e (r.once a)

-- The first task of the runqueue is neither null nor current.
pub first_other :
    (w : World) (x : Ptr) (q : List Ptr)
    → IsReady w
    → w.node.rq.runqueue ≡ x ∷ q
    → (x ≢ null) × (x ≢ current_of w)
first_other w x q r e = (
  ground (arith, subst (λ l. count null l ≡ 0) e r.live),
  ground (arith, subst (λ l. count (current_of w) l ≡ 0) e r.absent),
)
