-- ===== src/Window/Handover.antt =====
-- The channel without a buffer hands each value over.
use mathlib.Core.Path.{subst}
use gthread.Window.{
  Party, the_reader, the_writer, Window, Reader, Writer, Read, Write, Sys, Resumes, parked_reader,
  swapped_reader, parked_writer, swapped_writer, Step, read, write, reader_unparks, reader_swaps,
  writer_unparks, writer_swaps, close, close_resets, close_unparks, Reach, here, later, init,
}
use gthread.Window.Steps.{Read-Inv, Write-Inv}
use gthread.Window.Inv.{
  plain, giving, within, arrived, Inv, Fits, IsSome, share, stage, pending, writer_waits,
  reader_waits, has_seen, has_failed, clash, arrived-unset,
}
use gthread.Common.{◌≡◌, refl, sym, ap, ◌∙◌, ◌≢◌, true, false, Option, none, some, ◌++◌}

-- where the writer is when it was resumed
resumed_writer :
    {r r' : Reader} {w w' : Writer}
    → Resumes the_writer r w r' w'
    → (share w ≡ plain) × (share w' ≡ plain) × (has_seen w' ≡ false)
resumed_writer parked_writer = (refl, refl, refl)
resumed_writer swapped_writer = (refl, refl, refl)

resumed_reader :
    {r r' : Reader} {w w' : Writer}
    → Resumes the_reader r w r' w'
    → (stage r ≡ within) × (stage r' ≡ arrived) × (has_failed r' ≡ false)
resumed_reader parked_reader = (refl, refl, refl)
resumed_reader swapped_reader = (refl, refl, refl)

-- The reader resumes the writer, and leaves the loop or waits in its place.
reader_goes_on :
    (m : Window) (r r' : Reader) (w w' : Writer) (p : Option Party)
    → Resumes the_writer r w r w'
    → stage r ≡ stage r'
    → has_failed r' ≡ false
    → (p ≡ some the_reader → reader_waits r' ≡ true)
    → p ≢ some the_writer
    → Inv m r w
    → Inv (record m { waiter = p }) r' w'
reader_goes_on m r r' w w' p s e f at nw i =
    let k = resumed_writer s in
    record {
      fits =
          subst (λ g. Fits g (share w') m.reader_set m.ret) e
            (subst (λ h. Fits (stage r) h m.reader_set m.ret) (k.0 ∙ sym k.1) i.fits);
      sound = f;
      reader_at = at;
      writer_at = λ h. absurd (nw h);
      seen = λ h. clash k.2 h;
      split = i.split;
    }

-- The writer, which has handed its value over, resumes the reader.
writer_goes_on :
    (m : Window) (r r' : Reader) (w w' : Writer) (p : Option Party)
    → Resumes the_reader r w r' w
    → share w ≡ giving
    → share w' ≡ plain
    → has_seen w' ≡ false
    → (p ≡ some the_writer → writer_waits w' ≡ true)
    → p ≢ some the_reader
    → Inv m r w
    → Inv (record m { waiter = p }) r' w'
writer_goes_on m r r' w w' p s g e f at nr i =
    let k = resumed_reader s in
    record {
      fits =
          subst (λ h. Fits (stage r') h m.reader_set m.ret) (sym e)
            (subst (λ h. Fits h plain m.reader_set m.ret) (sym k.1)
              (subst (λ h. Fits h giving m.reader_set m.ret) k.0
                (subst (λ h. Fits (stage r) h m.reader_set m.ret) g i.fits)));
      sound = k.2;
      reader_at = λ h. absurd (nr h);
      writer_at = at;
      seen = λ h. clash f h;
      split = i.split;
    }

Read-closed :
    {m m' : Window} {r r' : Reader} → Read m r m' r' → m'.closed ≡ false → m.closed ≡ false
Read-closed Read.call e = e
Read-closed (Read.enter _) e = e
Read-closed (Read.enter_fails _) e = e
Read-closed (Read.stop _) e = e
Read-closed (Read.go_on _) e = e
Read-closed (Read.claim _) e = e
Read-closed (Read.busy _) e = e
Read-closed (Read.give_up _) e = e
Read-closed (Read.sleep _) e = e
Read-closed (Read.assert_taken _) e = e
Read-closed (Read.assert_fails _) e = e
Read-closed (Read.none_waits _) e = e
Read-closed Read.no_swap e = e
Read-closed (Read.give_back _) e = e
Read-closed (Read.give_nothing _) e = e

Write-closed :
    {m m' : Window} {w w' : Writer} → Write m w m' w' → m'.closed ≡ false → m.closed ≡ false
Write-closed (Write.call u) e = e
Write-closed (Write.reject _) e = e
Write-closed (Write.go_on _) e = e
Write-closed (Write.claim _) e = e
Write-closed (Write.busy _) e = e
Write-closed (Write.give_up _) e = e
Write-closed (Write.sleep _) e = e
Write-closed (Write.reject_woken _) e = e
Write-closed (Write.keep_on _) e = e
Write-closed (Write.deliver _) e = e
Write-closed (Write.deliver_fails _) e = e
Write-closed Write.unset e = e
Write-closed (Write.look _ _) e = e
Write-closed (Write.again_no_waiter _) e = e
Write-closed (Write.again_unset _) e = e
Write-closed Write.place e = e
Write-closed Write.unset_placed e = e
Write-closed (Write.none_waits _) e = e

-- A channel that is open was open before.
Step-closed : {s t : Sys} → Step s t → t.mem.closed ≡ false → s.mem.closed ≡ false
Step-closed (read x) e = Read-closed x e
Step-closed (write x) e = Write-closed x e
Step-closed (reader_unparks _ _ _) e = e
Step-closed (reader_swaps _ _ _) e = e
Step-closed (writer_unparks _ _ _) e = e
Step-closed (writer_swaps _ _ _) e = e
Step-closed close e = cc e
Step-closed (close_resets _) e = e
Step-closed (close_unparks _ _ _) e = e

Step-Inv :
    {s t : Sys}
    → Step s t
    → s.mem.closed ≡ false
    → t.mem.closed ≡ false
    → Inv s.mem s.reader s.writer
    → Inv t.mem t.reader t.writer
Step-Inv {s} (read x) c d i = Read-Inv s.writer x c i
Step-Inv {s} (write x) c d i = Write-Inv s.reader x c i
Step-Inv {s} (reader_unparks {w} e h x) c d i =
    reader_goes_on s.mem Reader.unparking Reader.leaving s.writer w none x refl refl
      (λ k. absurd (cc k)) (λ k. cc k) (subst (λ r. Inv s.mem r s.writer) e i)
Step-Inv {s} (reader_swaps {w} e h x) c d i =
    reader_goes_on s.mem Reader.swapping Reader.swapped s.writer w (some the_reader) x refl refl
      (λ k. refl) (λ k. cc k) (subst (λ r. Inv s.mem r s.writer) e i)
Step-Inv {s} (writer_unparks {r} e h x) c d i =
    writer_goes_on s.mem s.reader r Writer.unparking Writer.idle none x refl refl refl
      (λ k. absurd (cc k)) (λ k. cc k) (subst (Inv s.mem s.reader) e i)
Step-Inv {s} (writer_swaps {r} e h x) c d i =
    writer_goes_on s.mem s.reader r Writer.swapping Writer.swapped (some the_writer) x refl refl
      refl (λ k. refl) (λ k. cc k) (subst (Inv s.mem s.reader) e i)
Step-Inv close c d i = absurd (cc d)
Step-Inv (close_resets e) c d i = clash c e
Step-Inv (close_unparks e h x) c d i = clash c e

Reach-Inv : {s : Sys} → Reach init s → s.mem.closed ≡ false → Inv s.mem s.reader s.writer
Reach-Inv here c = record {
  fits = (refl, refl);
  sound = refl;
  reader_at = λ h. absurd (cc h);
  writer_at = λ h. absurd (cc h);
  seen = λ h. absurd (cc h);
  split = refl;
}
Reach-Inv (later r x) c = Step-Inv x (Step-closed x c) c (Reach-Inv r (Step-closed x c))

-- As long as the channel is open, in whatever order the accesses of memory of the reader and the
-- writer are interleaved: the values that `write` has handed over are those that `read` has
-- returned, in the same order, and at most one more, which is in the result of the `read` that is
-- going on. A `read` that returns has such a value, and none of its assertions fails.
pub Reach-handover :
    {s : Sys}
    → Reach init s
    → s.mem.closed ≡ false
    → (s.mem.sent ≡ s.mem.received ++ pending s.mem.ret)
      × (s.reader ≡ Reader.leaving → IsSome s.mem.ret)
      × (s.reader ≢ Reader.failed)
Reach-handover {s} r c =
    let i = Reach-Inv r c in
    (
      i.split,
      λ e.
          (arrived-unset (share s.writer) s.mem.reader_set s.mem.ret
            (subst (λ k. Fits (stage k) (share s.writer) s.mem.reader_set s.mem.ret) e i.fits)).1,
      λ e. clash i.sound (ap has_failed e),
    )
