-- ===== src/Tests/Channels.antt =====
-- The ends of a channel on their way through the program.
use gthread.CloseWrapper.{
  Op, make_wishbone_channel, Wrappers, absent, destroy, move_construct, run, blank,
}
use gthread.CloseWrapper.Balance.{holds, run-closes_once}
use gthread.Common.{◌≡◌, refl, some, List, ◌∷◌, [], ◌++◌, arith, count, ◌+◌}

-- the channel on the monitor at 7; the writer is moved on, and both ends go away
abbrev program : List Op
program = make_wishbone_channel 7 ++ (move_construct 4 3 ∷ destroy 3 ∷ destroy 4 ∷ destroy 2 ∷ [])

abbrev after : Wrappers
after = record {
  cells = absent ∷ absent ∷ absent ∷ absent ∷ absent ∷ [];
  closed = 7 ∷ 7 ∷ [];
  released = 7 ∷ 7 ∷ [];
}

run-program : run program (blank 5) ≡ some after
unfolding run
run-program = refl

run-closes_once_example : count 7 after.closed + holds 7 after.cells ≡ 2
run-closes_once_example =
    run-closes_once 7 5 program after (omega arith)
      (tt, (tt, (tt, (tt, (tt, (tt, (tt, (tt, (tt, (tt, tt)))))))))) run-program
