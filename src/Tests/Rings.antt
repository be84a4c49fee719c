-- ===== src/Tests/Rings.antt =====
-- The ring buffer with eight slots, on short runs.
use native.Mathlib.Nat.{dvd-mul_right}
use gthread.Ring.{slot, Sys, Reader, Writer, init, Reach, later, write, Write}
use gthread.Ring.Keep.{IsSize}
use gthread.Ring.Stall.{published, write_through, park-loses_wakeup}
use gthread.Ring.Fifo.{Reach-fifo, Reach-no_overwrite}
use gthread.Common.{ℕ, ◌+◌, ◌≤◌, ◌<◌, ◌≡◌, refl, ◌≢◌, List, [], ◌∷◌, ◌++◌, arith, length}

eight : IsSize 8
eight = record {
  positive = omega arith;
  divides = dvd-mul_right 8 2305843009213693952;
  fits = omega arith;
}

abbrev blank : ℕ → ℕ
blank _ = 0

-- the value 7 is written
abbrev one_written : Sys
one_written = record (init blank) { mem = published 8 (init blank).mem 7 }

one_written-Reach : Reach 8 (init blank) one_written
one_written-Reach = write_through 8 (init blank) 7 refl refl refl (omega arith)

-- and then 9 is about to be written
abbrev placing : Sys
placing = record one_written { writer = Writer.place 9 1 }

placing-Reach : Reach 8 (init blank) placing
placing-Reach =
    later
      (later
        (later (later (later one_written-Reach (write (Write.call 9))) (write (Write.go_on refl)))
          (write Write.load_w))
        (write Write.load_r))
      (write (Write.room (omega arith)))

Reach-fifo_example :
    (q : List ℕ) × (7 ∷ [] ≡ [] ++ q)
    × (length q ≤ 8)
    × ((r v : ℕ) → Reader.idle ≡ Reader.storing r v → (rest : List ℕ) × (q ≡ v ∷ rest))
Reach-fifo_example = Reach-fifo 8 blank eight one_written-Reach

Reach-no_overwrite_example :
    (q : List ℕ) × (7 ∷ [] ≡ [] ++ q) × ((d : ℕ) → d < length q → slot 8 (0 + d) ≢ 1)
Reach-no_overwrite_example = Reach-no_overwrite 8 blank 9 1 eight placing-Reach refl

-- the reader is about to park, and nothing was written
abbrev about_to_park : Sys
about_to_park = record (init blank) { reader = Reader.parking 0 }

park-loses_wakeup_example :
    (t : Sys) × Reach 8 about_to_park t
    × (t.reader ≡ Reader.asleep 0)
    × (t.writer ≡ Writer.idle)
    × (t.mem.sent ≡ 7 ∷ [])
    × (t.mem.received ≡ [])
park-loses_wakeup_example = park-loses_wakeup 8 about_to_park 7 0 refl refl refl refl (omega arith)
