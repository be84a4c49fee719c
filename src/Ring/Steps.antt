-- ===== src/Ring/Steps.antt =====
-- Each step of the reader, of the writer and of the two together keeps the invariant.
use mathlib.Core.Path.{subst}
use mathlib.Core.List.{append_assoc}
use gthread.Common.{modulus, length-append}
use gthread.Ring.{next_size, slot, Shared, Reader, Writer, reading, writing, Read, Write}
use gthread.Ring.Count.{next_size-mod, slot-mod}
use gthread.Ring.Window.{Window, Window-snoc, Window-next}
use gthread.Ring.Inv.{WriterKnows, Inv}
use gthread.Ring.Keep.{
  synced, writer_after_read, reader_after_write, reader_after_place, IsSize, some_pending,
  some_room, first_value,
}
use gthread.Common.{
  ℕ, suc, ◌+◌, ◌%◌, ◌≡◌, refl, sym, ap, ◌∙◌, none, some, List, [], ◌∷◌, ◌++◌, arith, length, update,
  update_self,
}

module _ (size : ℕ) (z : IsSize size) where
  -- the reader publishes that it has taken `v`
  stored_r :
      (m : Shared) (r v : ℕ) (wp : Writer)
      → Inv size m (Reader.storing r v) wp
      → Inv size
          (record m { r = next_size r; received = m.received ++ (v ∷ []) })
          (Reader.waking v)
          wp
  stored_r m r v wp i = record {
    pending = rest;
    split = i.split ∙ (ap (λ k. m.received ++ k) e ∙ sym (append_assoc m.received (v ∷ []) rest));
    few = omega (arith, i.few, longer);
    r_count =
        ap next_size (i.reader.0 ∙ i.r_count)
        ∙ (next_size-mod (length m.received)
            ∙ ap (λ k. k % modulus) (sym (length-append m.received (v ∷ []))));
    w_count =
        i.w_count
        ∙ ap (λ k. k % modulus) (omega (arith, longer, length-append m.received (v ∷ [])));
    window =
        subst (λ k. Window size m.buffer k rest) (omega (arith, length-append m.received (v ∷ [])))
          (subst (Window size m.buffer (length m.received)) e i.window).1;
    reader = tt;
    writer =
        writer_after_read size m v rest (next_size r) wp
          (subst (λ k. WriterKnows size m k wp) e i.writer);
  }
    where
      rest : List ℕ
      rest = i.reader.1.0

      e : i.pending ≡ v ∷ rest
      e = i.reader.1.1

      longer : length i.pending ≡ suc (length rest)
      longer = ap length e

  -- the writer fills the slot behind the window
  moved_in :
      (m : Shared) (rp : Reader) (u w : ℕ)
      → Inv size m rp (Writer.place u w)
      → Inv size (record m { buffer = update m.buffer (slot size w) u }) rp (Writer.storing u w)
  moved_in m rp u w i = record {
    pending = i.pending;
    split = i.split;
    few = i.few;
    r_count = i.r_count;
    w_count = i.w_count;
    window =
        subst (λ k. Window size (update m.buffer k u) (length m.received) i.pending) (sym at)
          (Window-next size m.buffer (length m.received) i.pending u i.writer.1 i.window);
    reader = reader_after_place m i.pending (update m.buffer (slot size w) u) rp i.reader;
    writer = (
      i.writer.0,
      i.writer.1,
      ap (update m.buffer (slot size w) u) (sym at) ∙ update_self m.buffer (slot size w) u,
    );
  }
    where
      at : slot size w ≡ slot size (length m.received + length i.pending)
      at =
          ap (slot size) (i.writer.0 ∙ i.w_count)
          ∙ slot-mod size (length m.received + length i.pending) z.divides

  -- the writer publishes `u`
  stored_w :
      (m : Shared) (rp : Reader) (u w : ℕ)
      → Inv size m rp (Writer.storing u w)
      → Inv size (record m { w = next_size w; sent = m.sent ++ (u ∷ []) }) rp Writer.waking
  stored_w m rp u w i = record {
    pending = i.pending ++ (u ∷ []);
    split = ap (λ k. k ++ (u ∷ [])) i.split ∙ append_assoc m.received i.pending (u ∷ []);
    few = omega (arith, length-append i.pending (u ∷ []), i.writer.1);
    r_count = i.r_count;
    w_count =
        ap next_size (i.writer.0 ∙ i.w_count)
        ∙ (next_size-mod (length m.received + length i.pending)
            ∙ ap (λ k. k % modulus) (omega (arith, length-append i.pending (u ∷ []))));
    window = Window-snoc size m.buffer (length m.received) i.pending u i.window i.writer.2;
    reader = reader_after_write m i.pending u (next_size w) rp i.reader;
    writer = tt;
  }

  pub Read-Inv :
      {m m' : Shared} {rp rp' : Reader} {wp : Writer}
      → Read size m rp m' rp'
      → Inv size m rp wp
      → Inv size m' rp' wp
  Read-Inv {m} Read.load_r i = synced size m m.stalled m.closed i refl i.writer
  Read-Inv {m} Read.load_w i =
      synced size m m.stalled m.closed i (i.reader, (length i.pending, omega arith, i.w_count))
        i.writer
  Read-Inv {m} (Read.empty e) i = synced size m m.stalled m.closed i i.reader.0 i.writer
  Read-Inv {m} (Read.nonempty {r} {w} n) i =
      synced size m m.stalled m.closed i
        (i.reader.0, some_pending size m i.pending r w z i.few i.r_count i.reader n) i.writer
  Read-Inv {m} (Read.busy n) i = synced size m m.stalled m.closed i i.reader i.writer
  Read-Inv {m} (Read.claim n) i = synced size m (some reading) m.closed i i.reader i.writer
  Read-Inv {m} (Read.give_up c) i = synced size m none m.closed i tt i.writer
  Read-Inv {m} (Read.sleep c) i = synced size m m.stalled m.closed i i.reader i.writer
  Read-Inv {m} Read.load_again i =
      synced size m m.stalled m.closed i (i.reader, (length i.pending, omega arith, i.w_count))
        i.writer
  Read-Inv {m} (Read.move_out {r}) i =
      synced size m m.stalled m.closed i
        (i.reader.0, first_value size m i.pending r z i.r_count i.window i.reader) i.writer
  Read-Inv {m} {wp} (Read.store_r {r} {v}) i = stored_r m r v wp i
  Read-Inv {m} (Read.done n) i = synced size m m.stalled m.closed i tt i.writer

  pub Write-Inv :
      {m m' : Shared} {wp wp' : Writer} {rp : Reader}
      → Write size m wp m' wp'
      → Inv size m rp wp
      → Inv size m' rp wp'
  Write-Inv {m} (Write.call u) i = synced size m m.stalled m.closed i i.reader tt
  Write-Inv {m} (Write.reject c) i = synced size m m.stalled m.closed i i.reader tt
  Write-Inv {m} (Write.go_on c) i = synced size m m.stalled m.closed i i.reader tt
  Write-Inv {m} Write.load_w i = synced size m m.stalled m.closed i i.reader refl
  Write-Inv {m} Write.load_r i =
      synced size m m.stalled m.closed i i.reader
        (i.writer, (length m.received, omega arith, omega (arith, i.few), i.r_count))
  Write-Inv {m} (Write.full e) i = synced size m m.stalled m.closed i i.reader i.writer.0
  Write-Inv {m} (Write.room {u} {w} {r} n) i =
      synced size m m.stalled m.closed i i.reader
        (i.writer.0, some_room size m i.pending u w r z i.w_count i.writer n)
  Write-Inv {m} (Write.busy n) i = synced size m m.stalled m.closed i i.reader i.writer
  Write-Inv {m} (Write.claim n) i = synced size m (some writing) m.closed i i.reader i.writer
  Write-Inv {m} (Write.give_up c) i = synced size m none m.closed i i.reader tt
  Write-Inv {m} (Write.sleep c) i = synced size m m.stalled m.closed i i.reader i.writer
  Write-Inv {m} Write.load_again i =
      synced size m m.stalled m.closed i i.reader
        (i.writer, (length m.received, omega arith, omega (arith, i.few), i.r_count))
  Write-Inv {m} {rp} (Write.move_in {u} {w}) i = moved_in m rp u w i
  Write-Inv {m} {rp} (Write.store_w {u} {w}) i = stored_w m rp u w i
  Write-Inv {m} (Write.done n) i = synced size m m.stalled m.closed i i.reader tt
