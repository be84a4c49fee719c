-- ===== src/Node/Switch.antt =====
-- `task::switch_to`: what control takes along to the next task, and what it finds when it is back.
use gthread.Node.{leave_for, come_back, switch_task, set_node}
use gthread.Task.{Task, running, suspended, is_state}
use gthread.Effects.{World, Run, ok, switched, current_of, task_of, with_task}
use gthread.Common.{
  ◌≡◌, ap, ◌∙◌, ◌≢◌, true, false, not, arith, ◌==◌, if◌then◌else◌, Ptr, null, update,
}

-- the world in which `p` is the task of the thread-local storage it runs on
abbrev pub entered : World → Ptr → World
entered w p =
    if not ((task_of w p).tls == null)
    then record w { threads = update w.threads (task_of w p).tls p; tls_now = (task_of w p).tls }
    else record w { threads = update w.threads w.tls_now p }

-- the task `cur` as it stops to run
abbrev pub parked : Task → Task
parked t = if is_state t.run_state running then record t { run_state = suspended } else t

abbrev pub parked_in : World → Ptr → World
parked_in w cur =
    if is_state (task_of w cur).run_state running
    then with_task w cur (record (task_of w cur) { run_state = suspended })
    else w

-- the world at the switch to `p`
abbrev pub left : World → Ptr → World
left w p =
    let w' = entered (parked_in w (current_of w)) p in
    record w' { on_node = update w'.on_node w'.tls_now true }

-- the world in which `cur` runs again
abbrev pub back : World → Ptr → World
back w cur = with_task w cur (record (task_of w cur) { run_state = running })

leave_for_lem :
    (w : World) (p : Ptr)
    → current_of w ≢ null
    → p ≢ null
    → p ≢ current_of w
    → leave_for p set_node w ≡ ok (current_of w) (left w p)
unfolding leave_for
leave_for_lem w p c n d = ground arith

pub come_back_lem :
    (w : World) (cur : Ptr) → cur ≢ null → current_of w ≡ cur → come_back cur w ≡ ok tt (back w cur)
unfolding come_back
come_back_lem w cur n e = ground arith

pub switch_task_lem :
    (w : World) (p : Ptr)
    → current_of w ≢ null
    → p ≢ null
    → p ≢ current_of w
    → switch_task p set_node w ≡ switched (left w p) (come_back (current_of w))
unfolding switch_task
switch_task_lem w p c n d = rw (leave_for_lem w p c n d)

-- the current task changes with the storage that is in use
pub current-entered : (w : World) (p : Ptr) → current_of (entered w p) ≡ p
current-entered w p = ground arith

pub current-left : (w : World) (p : Ptr) → current_of (left w p) ≡ p
current-left w p = ground arith

pub on_node-left : (w : World) (p : Ptr) → (left w p).on_node (left w p).tls_now ≡ true
on_node-left w p = ground arith

pub node-left : (w : World) (p : Ptr) → (left w p).node ≡ w.node
node-left w p = ground arith

pub waiters-left : (w : World) (p : Ptr) → (left w p).waiters ≡ w.waiters
waiters-left w p = ground arith

pub freelist-left : (w : World) (p : Ptr) → (left w p).freelist ≡ w.freelist
freelist-left w p = ground arith

pub heap-left : (w : World) (p : Ptr) → (left w p).heap ≡ (parked_in w (current_of w)).heap
heap-left w p = ground arith

task_of-parked_in : (w : World) (c : Ptr) → task_of (parked_in w c) c ≡ parked (task_of w c)
task_of-parked_in w c = ground arith

task_of-parked_in_ne : (w : World) (c q : Ptr) → c ≢ q → task_of (parked_in w c) q ≡ task_of w q
task_of-parked_in_ne w c q n = ground arith

-- A switch from a task to another one: control leaves with the other as the current task, whether
-- or not that has thread-local storage of its own, and with the node set in the storage in use. A
-- running task is suspended, any other keeps its state; no other task and nothing of the node
-- changes. When control comes back to the task, it is set to run and the switch returns.
pub switch_task-leaves :
    (w : World) (p : Ptr)
    → current_of w ≢ null
    → p ≢ null
    → p ≢ current_of w
    → (w' : World) × (k : World → Run (Unit {0})) × (switch_task p set_node w ≡ switched w' k)
      × (current_of w' ≡ p)
      × (w'.on_node w'.tls_now ≡ true)
      × (task_of w' (current_of w) ≡ parked (task_of w (current_of w)))
      × ((q : Ptr) → current_of w ≢ q → task_of w' q ≡ task_of w q)
      × (w'.node ≡ w.node)
      × ((u : World) → current_of u ≡ current_of w → k u ≡ ok tt (back u (current_of w)))
switch_task-leaves w p c n d = (
  left w p,
  come_back (current_of w),
  switch_task_lem w p c n d,
  current-left w p,
  on_node-left w p,
  ap (λ h. h.tasks (current_of w)) (heap-left w p) ∙ task_of-parked_in w (current_of w),
  λ q e. ap (λ h. h.tasks q) (heap-left w p) ∙ task_of-parked_in_ne w (current_of w) q e,
  node-left w p,
  λ u e. come_back_lem u (current_of w) c e,
)

pub vruntime-left :
    (w : World) (p q : Ptr) → (task_of (left w p) q).vruntime ≡ (task_of w q).vruntime
vruntime-left w p q = ap (λ h. (h.tasks q).vruntime) (heap-left w p) ∙ same
  where
    same : (task_of (parked_in w (current_of w)) q).vruntime ≡ (task_of w q).vruntime
    same = ground arith

pub state-left :
    (w : World) (p : Ptr)
    → (task_of w (current_of w)).run_state ≡ running
    → (task_of (left w p) (current_of w)).run_state ≡ suspended
state-left w p e =
    ap (λ h. (h.tasks (current_of w)).run_state) (heap-left w p)
    ∙ (ap (λ t. t.run_state) (task_of-parked_in w (current_of w)) ∙ rw e)

pub flag-left :
    (w : World) (p : Ptr)
    → (task_of (left w p) (current_of w)).no_preempt_flag
      ≡ (task_of w (current_of w)).no_preempt_flag
flag-left w p =
    ap (λ h. (h.tasks (current_of w)).no_preempt_flag) (heap-left w p)
    ∙ (ap (λ t. t.no_preempt_flag) (task_of-parked_in w (current_of w)) ∙ same)
  where
    same :
        (parked (task_of w (current_of w))).no_preempt_flag
        ≡ (task_of w (current_of w)).no_preempt_flag
    same = ground arith

pub joiner-left :
    (w : World) (p : Ptr)
    → (task_of (left w p) (current_of w)).joiner ≡ (task_of w (current_of w)).joiner
joiner-left w p =
    ap (λ h. (h.tasks (current_of w)).joiner) (heap-left w p)
    ∙ (ap (λ t. t.joiner) (task_of-parked_in w (current_of w)) ∙ same)
  where
    same : (parked (task_of w (current_of w))).joiner ≡ (task_of w (current_of w)).joiner
    same = ground arith

pub unmapped-left : (w : World) (p : Ptr) → (left w p).heap.unmapped ≡ w.heap.unmapped
unmapped-left w p = ap (λ h. h.unmapped) (heap-left w p) ∙ same
  where
    same : (parked_in w (current_of w)).heap.unmapped ≡ w.heap.unmapped
    same = ground arith

pub task_of-left_blocked :
    (w : World) (p : Ptr)
    → is_state (task_of w (current_of w)).run_state running ≡ false
    → task_of (left w p) (current_of w) ≡ task_of w (current_of w)
task_of-left_blocked w p e =
    ap (λ h. h.tasks (current_of w)) (heap-left w p) ∙ (task_of-parked_in w (current_of w) ∙ rw e)

pub task_of-left_ne :
    (w : World) (p q : Ptr) → current_of w ≢ q → task_of (left w p) q ≡ task_of w q
task_of-left_ne w p q n =
    ap (λ h. h.tasks q) (heap-left w p) ∙ task_of-parked_in_ne w (current_of w) q n
