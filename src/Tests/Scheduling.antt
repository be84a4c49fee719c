-- ===== src/Tests/Scheduling.antt =====
-- The scheduler of one node on the small worlds.
use gthread.Tests.Worlds.{busy, alone, done, busy-IsReady, done-IsReady}
use gthread.Node.{yield, yield_for}
use gthread.Node.Choice.{IsReady, Picks}
use gthread.Node.Settled.{Switches, Stays}
use gthread.Node.Yield.{yield-fair}
use gthread.Node.Done.{yield-defers}
use gthread.Node.Sleep.{yield_for-strands}
use gthread.Node.Schedule.{yield-returns, returned}
use gthread.Outcome.{runtime_error}
use gthread.Task.{waiting}
use gthread.Effects.{World, Run, ok, throw, switched, current_of, task_of, with_node}
use gthread.Common.{◌≡◌, refl, ◌≢◌, ◌⊎◌, List, [], ◌∷◌, arith, Ptr, null}

yield-fair_example :
    (x : Ptr) × (q : List Ptr) × Picks busy x q
    × (((x ≡ 100) × Stays busy q) ⊎ ((x ≢ 100) × Switches busy x q))
yield-fair_example = yield-fair busy busy-IsReady refl refl

yield-defers_example :
    (w' : World) × (k : World → Run (Unit {0})) × (yield done ≡ switched w' k)
    × (current_of w' ≡ 200)
    × IsReady w'
    × (w'.node.rq.runqueue ≡ 300 ∷ [])
    × (w'.node.deferred ≡ 100)
    × (w'.freelist ≡ done.freelist)
    × (w'.heap.unmapped ≡ [])
yield-defers_example = yield-defers done 200 (300 ∷ []) done-IsReady refl refl refl refl refl

yield_for-strands_example :
    (w' : World) × (yield_for 50 alone ≡ ok tt w')
    × (current_of w' ≡ 100)
    × ((task_of w' 100).run_state ≡ waiting)
    × (w'.node.rq.runqueue ≡ [])
    × (w'.node.rq.sleepqueue ≡ [])
    × ((w'' : World) × (yield w' ≡ throw runtime_error w''))
yield_for-strands_example =
    yield_for-strands alone 50 refl refl (omega arith) refl refl refl (omega arith)

-- 200 waits to be returned
abbrev pending : World
pending = with_node busy (record (busy.node) { deferred = 200 })

yield-returns_example :
    (yield pending ≡ yield (returned pending)) × ((returned pending).node.deferred ≡ null)
yield-returns_example = yield-returns pending refl refl (omega arith)
