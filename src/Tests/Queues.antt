-- ===== src/Tests/Queues.antt =====
-- The queues of one node.
use gthread.TimeQueue.{Entry}
use gthread.RunQueue.{with_sleepqueue}
use gthread.Tests.Worlds.{alone}
use gthread.Effects.{World, M, pure}
use gthread.Common.{ℕ, List, [], ◌∷◌}

abbrev sleepers : List Entry
sleepers = (50, 300) ∷ (30, 200) ∷ (50, 100) ∷ []

-- nothing can run, and 200 sleeps until the given time
abbrev dozing : ℕ → World
dozing k = with_sleepqueue alone ((k, 200) ∷ [])

-- an idle thunk that only waits
abbrev waits : ℕ → M (Unit {0})
waits k = pure tt
