-- ===== src/Ring/Fifo.antt =====
-- The buffer is a queue: in every interleaving the reader takes what the writer has sent, in order.
use mathlib.Core.Path.{subst}
use gthread.Ring.{
  slot, Reader, Writer, Sys, Step, read, write, wake_writer, wake_reader, close, close_reader,
  close_writer, Reach, init, here, later,
}
use gthread.Ring.Count.{slot-mod, slot_apart}
use gthread.Ring.Inv.{ReaderKnows, WriterKnows, Inv}
use gthread.Ring.Keep.{synced, IsSize}
use gthread.Ring.Steps.{Read-Inv, Write-Inv}
use gthread.Common.{
  ℕ, ◌+◌, ◌-◌, ◌≤◌, ◌<◌, ◌≡◌, refl, sym, ap, ◌∙◌, ◌≢◌, true, none, List, [], ◌∷◌, ◌++◌, arith,
  length,
}

Inv-init : (size : ℕ) (b : ℕ → ℕ) → Inv size (init b).mem (init b).reader (init b).writer
Inv-init size b = record {
  pending = [];
  split = refl;
  few = omega arith;
  r_count = refl;
  w_count = refl;
  window = tt;
  reader = tt;
  writer = tt;
}

-- Each step keeps the invariant.
Step-Inv :
    (size : ℕ)
    → IsSize size
    → {s t : Sys} → Step size s t
    → Inv size s.mem s.reader s.writer
    → Inv size t.mem t.reader t.writer
Step-Inv size z (read st) i = Read-Inv size z st i
Step-Inv size z (write st) i = Write-Inv size z st i
Step-Inv size z {s} (wake_writer rp wp st) i =
    synced size s.mem none s.mem.closed i tt (subst (WriterKnows size s.mem i.pending) wp i.writer)
Step-Inv size z {s} (wake_reader wp rp st) i =
    synced size s.mem none s.mem.closed i (subst (ReaderKnows s.mem i.pending) rp i.reader) tt
Step-Inv size z {s} close i = synced size s.mem s.mem.stalled true i i.reader i.writer
Step-Inv size z {s} (close_reader c rp st) i =
    synced size s.mem none s.mem.closed i (subst (ReaderKnows s.mem i.pending) rp i.reader) i.writer
Step-Inv size z {s} (close_writer c wp st) i =
    synced size s.mem none s.mem.closed i i.reader
      (subst (WriterKnows size s.mem i.pending) wp i.writer)

pub Reach-Inv :
    (size : ℕ) (b : ℕ → ℕ) {s : Sys}
    → IsSize size
    → Reach size (init b) s
    → Inv size s.mem s.reader s.writer
Reach-Inv size b z here = Inv-init size b
Reach-Inv size b z (later r st) = Step-Inv size z st (Reach-Inv size b z r)

-- In every state that the reader, the writer and `close` can reach, in whatever order their accesses
-- of memory are interleaved and however often the counters have wrapped: the values that `write`
-- has sent are those that `read` has taken, in the same order, followed by at most `size` values
-- that are still in the buffer. The reader that is about to return a value has the oldest of them.
pub Reach-fifo :
    (size : ℕ) (b : ℕ → ℕ) {s : Sys}
    → IsSize size
    → Reach size (init b) s
    → (q : List ℕ) × (s.mem.sent ≡ s.mem.received ++ q)
      × (length q ≤ size)
      × ((r v : ℕ) → s.reader ≡ Reader.storing r v → (rest : List ℕ) × (q ≡ v ∷ rest))
Reach-fifo size b {s} z r =
    let i = Reach-Inv size b z r in
    (i.pending, i.split, i.few, λ k v e. (subst (ReaderKnows s.mem i.pending) e i.reader).1)

-- The writer never overwrites a value that was not taken: when it is about to fill a slot, the slot
-- is none of those that hold the values still in the buffer.
pub Reach-no_overwrite :
    (size : ℕ) (b : ℕ → ℕ) {s : Sys} (u w : ℕ)
    → IsSize size
    → Reach size (init b) s
    → s.writer ≡ Writer.place u w
    → (q : List ℕ) × (s.mem.sent ≡ s.mem.received ++ q)
      × ((d : ℕ) → d < length q → slot size (length s.mem.received + d) ≢ slot size w)
Reach-no_overwrite size b {s} u w z r e = (i.pending, i.split, apart)
  where
    i : Inv size s.mem s.reader s.writer
    i = Reach-Inv size b z r

    knows : (w ≡ s.mem.w) × (length i.pending < size)
    knows = subst (WriterKnows size s.mem i.pending) e i.writer

    at : slot size w ≡ slot size (length s.mem.received + length i.pending)
    at =
        ap (slot size) (knows.0 ∙ i.w_count)
        ∙ slot-mod size (length s.mem.received + length i.pending) z.divides

    apart : (d : ℕ) → d < length i.pending → slot size (length s.mem.received + d) ≢ slot size w
    apart d l k =
        slot_apart size (length s.mem.received + d) (length i.pending - d - 1)
          (omega (arith, knows.1)) (ap (slot size) (omega arith) ∙ sym (k ∙ at))
