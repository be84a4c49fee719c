-- ===== src/Sched/Value.antt =====
-- `sched::join` and `sched::exit` together: the joiner gets the value that the other task ends with.
use gthread.Node.Choice.{IsReady}
use gthread.Sched.{join, exit}
use gthread.Sched.Join.{join-Awaits}
use gthread.Sched.Exit.{HandsOver, exit-HandsOver}
use gthread.Sched.Waiting.{collected, resumed, value_if}
use native.Mathlib.Decide.{ℕ_discrete}
use gthread.Task.{stopped, is_state}
use gthread.Effects.{World, Run, ok, switched, current_of, task_of}
use gthread.Common.{
  ◌≡◌, sym, ap, ◌∙◌, ◌≢◌, Bool, true, false, Option, some, List, [], ◌∷◌, arith, Ptr, null, count,
}

-- The joiner is next when no other task can run.
joiner_next :
    (w : World) (v j x : Ptr) (q : List Ptr) → w.node.rq.runqueue ≡ [] → HandsOver w v j x q → x ≡ j
joiner_next w v j x q e h = elim (ℕ_discrete x j) [
  | yes i ↦ i
  | no n ↦ absurd (ground (arith, h.members x, ap (count x) e))
]

-- `join` by the current task of `w`, outside of a critical section, of another task `p` that has not
-- ended and that nobody joins, in a ready world in which no task sleeps and some task can run: it leaves
-- in a world in which the caller is the joiner of `p`. In a ready world `v` in which `p` then runs, with
-- an entry function, attached and outside of a critical section, no other task can run or sleeps, and
-- the joiner is as it left, `exit` of `p` with a value leaves for the joiner, whose `join` returns with
-- that value, if it is wanted, and an empty handle.
pub join-takes_exit :
    (w v : World) (p value x : Ptr) (wanted : Bool) (q : List Ptr)
    → IsReady w
    → p ≢ null
    → current_of w ≢ p
    → w.on_node w.tls_now ≡ true
    → (task_of w (current_of w)).no_preempt_flag ≡ false
    → (task_of w p).joiner ≡ null
    → is_state (task_of w p).run_state stopped ≡ false
    → w.node.rq.sleepqueue ≡ []
    → w.node.rq.runqueue ≡ x ∷ q
    → IsReady v
    → current_of v ≡ p
    → v.on_node v.tls_now ≡ true
    → (task_of v (current_of v)).entry ≢ null
    → (task_of v (current_of v)).no_preempt_flag ≡ false
    → (task_of v (current_of v)).detached ≡ false
    → (task_of v (current_of v)).joiner ≡ current_of w
    → (task_of v (current_of w)).no_preempt_flag ≡ true
    → v.node.rq.sleepqueue ≡ []
    → v.node.rq.runqueue ≡ []
    → (w' : World) × (rest : World → Run (Option Ptr × Ptr)) × (join (some p) wanted w
        ≡ switched w' rest)
      × ((task_of w' p).joiner ≡ current_of w)
      × ((v' : World) × (k : World → Run (Unit {0})) × (exit value v ≡ switched v' k)
          × (current_of v' ≡ current_of w)
          × ((u : World) × (rest v' ≡ ok (value_if wanted value, null) u)))
join-takes_exit w v p value x wanted q r n other on f alone live asleep first rv c onv entry fv att
      joiner left asleepv empty =
    let m = join-Awaits w p wanted x q r n other on f alone live asleep first in
    let away : current_of w ≢ current_of v = λ e. other (e ∙ c) in
    let (y, l, h) =
      exit-HandsOver v value (current_of w) rv onv entry fv att joiner r.some_current away
        (ap (count (current_of w)) empty) asleepv in
    let next = h.next ∙ joiner_next v value (current_of w) y l empty h in
    (
      m.world,
      m.rest,
      m.leaves,
      m.joined,
      (
        h.world,
        h.rest,
        h.leaves,
        next,
        (
          collected (resumed h.world) p,
          m.collects h.world next h.ready.free (h.flags (current_of w) (λ e. away (sym e)) ∙ left)
                (ap (λ k. (task_of h.world k).run_state) (sym c) ∙ h.is_stopped)
              ∙ ap (λ k. ok (value_if wanted k, null) (collected (resumed h.world) p))
                  (ap (λ k. (task_of h.world k).return_value) (sym c) ∙ h.value),
        ),
      ),
    )
