-- ===== src/Node/Reschedule.antt =====
-- The steps of `sched_node::yield`, and what is left of it once control is back.
use gthread.Node.Choice.{locked, unlocked}
use gthread.Node.{come_back, lock, unlock, get_next_task, return_deferred, reschedule, yield}
use gthread.Node.Switch.{left, back, come_back_lem, switch_task_lem}
use gthread.Outcome.{Exception}
use gthread.Effects.{World, M, ok, throw, switched, unwind, current_of}
use gthread.Common.{◌≡◌, refl, ◌≢◌, true, false, arith, Ptr, null, ==-of_ne, ==_self}

pub return_deferred-none : (w : World) → w.node.deferred ≡ null → return_deferred w ≡ ok tt w
unfolding return_deferred
return_deferred-none w e = ground arith

pub reschedule-stays :
    (w w' : World)
    → w.node.deferred ≡ null
    → get_next_task (current_of w) w ≡ ok (current_of w) w'
    → reschedule w ≡ ok tt w'
unfolding reschedule
reschedule-stays w w' d e = rw (return_deferred-none w d) (rw e (rw (==_self (current_of w))))

pub reschedule-throws :
    (w : World) (e : Exception) (w' : World)
    → w.node.deferred ≡ null
    → get_next_task (current_of w) w ≡ throw e w'
    → reschedule w ≡ throw e w'
unfolding reschedule
reschedule-throws w e w' d t = rw (return_deferred-none w d) (rw t refl)

-- what is left of `reschedule` and `yield` once control is back in `cur`
abbrev pub resume : Ptr → M (Unit {0})
resume cur u = unwind (unwind (come_back cur u) lock) unlock

pub reschedule-switches :
    (w w' : World) (x : Ptr)
    → w.node.deferred ≡ null
    → get_next_task (current_of w) w ≡ ok x w'
    → current_of w' ≢ null
    → x ≢ null
    → x ≢ current_of w
    → x ≢ current_of w'
    → reschedule w
      ≡ switched (left (unlocked w') x) (λ u. unwind (come_back (current_of w') u) lock)
unfolding reschedule unlock
reschedule-switches w w' x d e c n nx nx' =
    rw (return_deferred-none w d)
      (rw e (rw (==-of_ne x (current_of w) nx) (rw (switch_task_lem (unlocked w') x c n nx') refl)))

pub yield_lem :
    (w : World)
    → w.node.running ≡ true
    → w.node.spin_lock ≡ false
    → yield w ≡ unwind (reschedule (locked w)) unlock
unfolding yield lock
yield_lem w r f = ground arith

pub resume_lem :
    (u : World) (cur : Ptr)
    → cur ≢ null
    → current_of u ≡ cur
    → u.node.spin_lock ≡ false
    → resume cur u ≡ ok tt (unlocked (back u cur))
unfolding lock unlock
resume_lem u cur n e f = rw (come_back_lem u cur n e) (rw f refl)
