-- ===== src/Ring/Stall.antt =====
-- A wake-up of the reader that is lost.
use gthread.Ring.{
  reading, next_size, slot, Shared, Reader, Writer, Sys, Read, Write, read, write, Reach, here,
  later,
}
use mathlib.Core.Path.{subst}
use gthread.Common.{sub_size, ℕ, ◌≡◌, refl, sym, ◌≢◌, false, none, some, [], ◌∷◌, ◌++◌, update}

-- the members after a call of `write` with `u`
abbrev pub published : ℕ → Shared → ℕ → Shared
published size m u = record m {
  buffer = update m.buffer (slot size m.w) u;
  w = next_size m.w;
  sent = m.sent ++ (u ∷ []);
}

-- A whole call of `write` that finds room and nobody to wake.
pub write_through :
    (size : ℕ) (s : Sys) (u : ℕ)
    → s.writer ≡ Writer.idle
    → s.mem.closed ≡ false
    → s.mem.stalled ≡ none
    → sub_size s.mem.w s.mem.r ≢ size
    → Reach size s (record s { mem = published size s.mem u; writer = Writer.idle })
write_through size s u e c n room =
    later
      (later
        (later
          (later
            (later
              (later
                (later
                  (later here (
                    write (
                      subst (λ p. Write size s.mem p s.mem (Writer.open_check u)) (sym e)
                        (Write.call u))))
                  (write (Write.go_on c)))
                (write Write.load_w))
              (write Write.load_r))
            (write (Write.room room)))
          (write Write.move_in))
        (write Write.store_w))
      (write (Write.done n))

-- A wake-up can be lost: take any state in which the reader has seen an empty buffer and is about to
-- park, nobody waits, the channel is open, and the writer is between two calls with room in the
-- buffer. A call of `write` can then run to its end before the reader goes on, and the reader goes
-- to sleep with that value in the buffer and the writer done: `park_if` checks only that the channel
-- is open, and not once more that the buffer is empty.
pub park-loses_wakeup :
    (size : ℕ) (s : Sys) (u r : ℕ)
    → s.reader ≡ Reader.parking r
    → s.writer ≡ Writer.idle
    → s.mem.closed ≡ false
    → s.mem.stalled ≡ none
    → sub_size s.mem.w s.mem.r ≢ size
    → (t : Sys) × Reach size s t
      × (t.reader ≡ Reader.asleep r)
      × (t.writer ≡ Writer.idle)
      × (t.mem.sent ≡ s.mem.sent ++ (u ∷ []))
      × (t.mem.received ≡ s.mem.received)
park-loses_wakeup size s u r p e c n room = (
  record {
    mem = record (published size s.mem u) { stalled = some reading };
    reader = Reader.asleep r;
    writer = Writer.idle;
  },
  later
      (later (write_through size s u e c n room) (
        read (
          subst
            (λ k.
              Read size (published size s.mem u) k
                (record (published size s.mem u) { stalled = some reading }) (Reader.checking r))
            (sym p) (Read.claim n))))
      (read (Read.sleep c)),
  refl,
  refl,
  refl,
  refl,
)
