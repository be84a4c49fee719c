-- ===== src/Window/Failures.antt =====
-- Uses of the channel without a buffer in which an assertion fails.
use gthread.Window.{
  Party, the_reader, Window, Reader, Writer, Read, Write, Sys, parked_reader, parked_writer, read,
  write, reader_unparks, writer_unparks, Reach, here, later,
}
use gthread.Common.{ℕ, ◌≡◌, refl, sym, ◌∙◌, true, false, Option, none, some, List, [], ◌∷◌, ◌++◌}

-- `m` with the reader set or not, the waiter, and what is handed over and returned
abbrev pub at_rest : Window → Option Party → Option ℕ → List ℕ → List ℕ → Window
at_rest m p r sent received = record m {
  reader_set = false;
  waiter = p;
  ret = r;
  sent = sent;
  received = received;
}

-- a whole call of `write` with `u` that finds the reader waiting
pub write_through :
    (m : Window) (u : ℕ)
    → m.waiter ≡ some the_reader
    → m.closed ≡ false
    → m.reader_set ≡ true
    → Reach
        (record { mem = m; reader = Reader.asleep; writer = Writer.idle })
        (record {
          mem = at_rest m none (some u) (m.sent ++ (u ∷ [])) m.received;
          reader = Reader.woken;
          writer = Writer.idle;
        })
write_through m u p c s =
    later
      (later
        (later
          (later
            (later (later (later here (write (Write.call u))) (write (Write.go_on c)))
              (write (Write.busy (λ e. cc (sym e ∙ p)))))
            (write (Write.look (λ e. cc (sym e ∙ p)) s)))
          (write Write.place))
        (write Write.unset_placed))
      (writer_unparks refl p parked_reader)

-- A second `write` that follows at once parks, and the reader, on its way out, unparks it.
parks_and_wakes :
    (m : Window) (u : ℕ)
    → m.waiter ≡ none
    → m.closed ≡ false
    → m.reader_set ≡ false
    → Reach
        (record { mem = m; reader = Reader.woken; writer = Writer.idle })
        (record {
          mem = record m { waiter = none };
          reader = Reader.leaving;
          writer = Writer.woken u;
        })
parks_and_wakes m u p c s =
    later
      (later
        (later
          (later (later (later here (write (Write.call u))) (write (Write.go_on c)))
            (write (Write.claim p)))
          (write (Write.sleep c)))
        (read (Read.assert_taken s)))
      (reader_unparks refl refl parked_writer)

pub Reach-trans : {s t u : Sys} → Reach s t → Reach t u → Reach s u
Reach-trans r here = r
Reach-trans r (later q x) = later (Reach-trans r q) x

-- Two calls of `write` can meet a failing assertion on an open channel with one `read`: take any
-- state in which the reader waits with its result empty, and the writer is between two calls. The
-- first call hands its value over and returns; the second parks before the reader goes on; the
-- reader then unparks that writer on its way out and returns the first value; and the writer, woken
-- with no reader there, fails its assertion that `_reader` is set.
pub write-fails :
    (m : Window) (u v : ℕ)
    → m.waiter ≡ some the_reader
    → m.closed ≡ false
    → m.reader_set ≡ true
    → (t : Sys) × Reach (record { mem = m; reader = Reader.asleep; writer = Writer.idle }) t
      × (t.reader ≡ Reader.idle)
      × (t.writer ≡ Writer.failed)
      × (t.mem.closed ≡ false)
      × (t.mem.received ≡ m.received ++ (u ∷ []))
write-fails m u v p c s = (
  record {
    mem = at_rest m none none (m.sent ++ (u ∷ [])) (m.received ++ (u ∷ []));
    reader = Reader.idle;
    writer = Writer.failed;
  },
  later
      (later
        (later
          (Reach-trans (write_through m u p c s) (
            parks_and_wakes (at_rest m none (some u) (m.sent ++ (u ∷ [])) m.received) v refl c
              refl))
          (read (Read.give_back refl)))
        (write (Write.keep_on c)))
      (write (Write.deliver_fails refl)),
  refl,
  refl,
  c,
  refl,
)

-- Two calls of `read` on a closed channel whose `_reader` `close` has reset: the first returns nothing
-- and leaves `_reader` set to its result, and the second fails its assertion that it is not set.
pub read-fails :
    (m : Window) (w : Writer)
    → m.closed ≡ true
    → m.reader_set ≡ false
    → (s t : Sys) × Reach (record { mem = m; reader = Reader.idle; writer = w }) s
      × (s.reader ≡ Reader.idle)
      × (s.mem.received ≡ m.received)
      × Reach s t
      × (t.reader ≡ Reader.failed)
read-fails m w c s = (
  record { mem = record m { reader_set = true; ret = none }; reader = Reader.idle; writer = w },
  record { mem = record m { reader_set = true; ret = none }; reader = Reader.failed; writer = w },
  later (later (later (later here (read Read.call)) (read (Read.enter s))) (read (Read.stop c)))
      (read (Read.give_nothing refl)),
  refl,
  refl,
  later (later here (read Read.call)) (read (Read.enter_fails refl)),
  refl,
)
