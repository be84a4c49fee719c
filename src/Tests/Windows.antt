-- ===== src/Tests/Windows.antt =====
-- The channel without a buffer on short runs, and the alarm.
use gthread.Outcome.{Result}
use gthread.Alarm.{Itimerval, set_interval, milliseconds, microseconds, unset}
use gthread.Alarm.Interval.{set_interval-roundtrip}
use gthread.Window.{the_reader, Reader, Writer, Read, Sys, read, Reach, here, later, init}
use gthread.Window.Inv.{IsSome}
use gthread.Window.Handover.{Reach-handover}
use gthread.Window.Failures.{write-fails, write_through, Reach-trans}
use gthread.Common.{◌+◌, ◌*◌, ◌<◌, ◌≡◌, refl, ◌≢◌, true, false, some, [], ◌∷◌, ◌++◌}

-- the reader has parked
abbrev reader_parked : Sys
reader_parked = record init {
  mem = record (init.mem) { waiter = some the_reader; reader_set = true };
  reader = Reader.asleep;
}

reader_parked-Reach : Reach init reader_parked
reader_parked-Reach =
    later
      (later
        (later (later (later here (read Read.call)) (read (Read.enter refl)))
          (read (Read.go_on refl)))
        (read (Read.claim refl)))
      (read (Read.sleep refl))

-- and 7 was handed over
abbrev handed_over : Sys
handed_over = record {
  mem = record (init.mem) { ret = some 7; sent = 7 ∷ [] };
  reader = Reader.leaving;
  writer = Writer.idle;
}

handed_over-Reach : Reach init handed_over
handed_over-Reach =
    later
      (later (Reach-trans reader_parked-Reach (write_through reader_parked.mem 7 refl refl refl))
        (read (Read.assert_taken refl)))
      (read (Read.none_waits refl))

Reach-handover_example :
    (handed_over.mem.sent ≡ handed_over.mem.received ++ (7 ∷ []))
    × (Reader.leaving ≡ Reader.leaving → IsSome (some 7))
    × (Reader.leaving ≢ Reader.failed)
Reach-handover_example = Reach-handover handed_over-Reach refl

write-fails_example :
    (t : Sys) × Reach
      (record { mem = reader_parked.mem; reader = Reader.asleep; writer = Writer.idle })
      t
    × (t.reader ≡ Reader.idle)
    × (t.writer ≡ Writer.failed)
    × (t.mem.closed ≡ false)
    × (t.mem.received ≡ 7 ∷ [])
write-fails_example = write-fails reader_parked.mem 7 8 refl refl refl

-- Preemption on a system that accepts every interval.
set_interval-roundtrip_example :
    (v : Itimerval) × (set_interval (λ _. false) (milliseconds 2500) unset
      ≡ Result.ok (record unset { timer = some v; interval = microseconds (milliseconds 2500) }))
    × (v.it_value ≡ v.it_interval)
    × (v.it_value.tv_usec < 1_000_000)
    × (v.it_value.tv_sec * 1_000_000 + v.it_value.tv_usec ≡ 2_500_000)
set_interval-roundtrip_example = set_interval-roundtrip (λ _. false) (milliseconds 2500) unset refl
