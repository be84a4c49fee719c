-- ===== src/Window/Steps.antt =====
-- Each step keeps what the members say while the channel is open.
use mathlib.Core.List.{append-nil}
use gthread.Window.{Party, the_reader, the_writer, Window, Reader, Writer, Read, Write}
use gthread.Window.Inv.{
  Inv, share, stage, pending, writer_waits, advance_reader, advance_writer, clash, enters, out-none,
  out-unset, arrived-unset, returns, takes_aim, puts, puts_aimed, gives,
}
use gthread.Common.{ℕ, ◌≡◌, refl, sym, ap, ◌∙◌, ◌≢◌, true, false, Option, none, some, [], ◌∷◌, ◌++◌}

none-ne_some : {A : Type 0} {m : Option Party} {p : Party} → m ≡ none → m ≡ some p → A
none-ne_some e f = absurd (cc (sym e ∙ f))

pub Read-Inv :
    {m m' : Window} {r r' : Reader} (w : Writer)
    → Read m r m' r'
    → m.closed ≡ false
    → Inv m r w
    → Inv m' r' w
Read-Inv {m} w Read.call c i = advance_reader m Reader.idle Reader.entered w refl (λ h. h) refl i
Read-Inv {m} w (Read.enter e) c i = record {
  fits = enters (share w) m.reader_set m.ret i.fits;
  sound = refl;
  reader_at = i.reader_at;
  writer_at = i.writer_at;
  seen = i.seen;
  split =
      i.split ∙ ap (λ k. m.received ++ pending k) (out-none (share w) m.reader_set m.ret i.fits);
}
Read-Inv {m} w (Read.enter_fails e) c i = clash (out-unset (share w) m.reader_set m.ret i.fits) e
Read-Inv w (Read.stop e) c i = clash c e
Read-Inv {m} w (Read.go_on e) c i =
    advance_reader m Reader.test Reader.parking w refl (λ h. h) refl i
Read-Inv {m} w (Read.claim e) c i = record {
  fits = i.fits;
  sound = refl;
  reader_at = λ _. refl;
  writer_at = λ h. cc;
  seen = λ _. refl;
  split = i.split;
}
Read-Inv {m} w (Read.busy e) c i =
    advance_reader m Reader.parking Reader.swapping w refl (λ h. h) refl i
Read-Inv w (Read.give_up e) c i = clash c e
Read-Inv {m} w (Read.sleep e) c i =
    advance_reader m Reader.checking Reader.asleep w refl (λ h. h) refl i
Read-Inv {m} w (Read.assert_taken e) c i =
    advance_reader m Reader.woken Reader.unparking w refl (λ h. h) refl i
Read-Inv {m} w (Read.assert_fails e) c i =
    clash (arrived-unset (share w) m.reader_set m.ret i.fits).0 e
Read-Inv {m} w (Read.none_waits e) c i =
    advance_reader m Reader.unparking Reader.leaving w refl (λ h. h) refl i
Read-Inv {m} w Read.no_swap c i =
    advance_reader m Reader.swapping Reader.test w refl (λ h. h) refl i
Read-Inv {m} w (Read.give_back {v} e) c i = record {
  fits = returns (share w) m.reader_set m.ret i.fits;
  sound = refl;
  reader_at = i.reader_at;
  writer_at = i.writer_at;
  seen = i.seen;
  split =
      i.split ∙ (ap (λ k. m.received ++ pending k) e ∙ sym (append-nil (m.received ++ (v ∷ []))));
}
Read-Inv {m} w (Read.give_nothing e) c i =
    let v = (arrived-unset (share w) m.reader_set m.ret i.fits).1 in absurd (cc (sym e ∙ v.1))

-- A value is handed over where none was pending.
hands_over :
    (m : Window) (u : ℕ)
    → m.sent ≡ m.received ++ pending m.ret
    → m.ret ≡ none
    → m.sent ++ (u ∷ []) ≡ m.received ++ (u ∷ [])
hands_over m u s e =
    ap (λ l. l ++ (u ∷ [])) (s ∙ (ap (λ k. m.received ++ pending k) e ∙ append-nil m.received))

the_other :
    (p : Option Party) (w : Writer)
    → p ≢ none
    → (p ≡ some the_writer → writer_waits w ≡ true)
    → writer_waits w ≡ false
    → p ≡ some the_reader
the_other none w n h f = absurd (n refl)
the_other (some the_reader) w n h f = refl
the_other (some the_writer) w n h f = clash f (h refl)

pub Write-Inv :
    {m m' : Window} (r : Reader) {w w' : Writer}
    → Write m w m' w'
    → m.closed ≡ false
    → Inv m r w
    → Inv m' r w'
Write-Inv {m} r (Write.call u) c i =
    advance_writer m r Writer.idle (Writer.test u) refl (λ h. h) (λ h. h) i
Write-Inv r (Write.reject e) c i = clash c e
Write-Inv {m} r (Write.go_on {u} e) c i =
    advance_writer m r (Writer.test u) (Writer.parking u) refl (λ h. h) (λ h. h) i
Write-Inv {m} r (Write.claim e) c i = record {
  fits = i.fits;
  sound = i.sound;
  reader_at = λ h. cc;
  writer_at = λ _. refl;
  seen = λ h. absurd (cc h);
  split = i.split;
}
Write-Inv {m} r (Write.busy {u} e) c i =
    advance_writer m r (Writer.parking u) (Writer.looking u) refl (λ h. h) (λ h. h) i
Write-Inv r (Write.give_up e) c i = clash c e
Write-Inv {m} r (Write.sleep {u} e) c i =
    advance_writer m r (Writer.checking u) (Writer.asleep u) refl (λ h. h) (λ h. h) i
Write-Inv r (Write.reject_woken e) c i = clash c e
Write-Inv {m} r (Write.keep_on {u} e) c i =
    advance_writer m r (Writer.woken u) (Writer.delivering u) refl (λ h. h) (λ h. h) i
Write-Inv {m} r (Write.deliver {u} e) c i =
    let p = puts (stage r) m.reader_set m.ret u e i.fits in
    record {
      fits = p.0;
      sound = i.sound;
      reader_at = i.reader_at;
      writer_at = i.writer_at;
      seen = λ h. absurd (cc h);
      split = hands_over m u i.split p.1;
    }
Write-Inv {m} r (Write.deliver_fails {u} e) c i =
    advance_writer m r (Writer.delivering u) Writer.failed refl (λ h. h) (λ h. h) i
Write-Inv {m} r Write.unset c i = record {
  fits = gives (stage r) m.reader_set m.ret i.fits;
  sound = i.sound;
  reader_at = i.reader_at;
  writer_at = i.writer_at;
  seen = λ h. absurd (cc h);
  split = i.split;
}
Write-Inv {m} r (Write.look {u} n e) c i = record {
  fits = takes_aim (stage r) m.reader_set m.ret e i.fits;
  sound = i.sound;
  reader_at = i.reader_at;
  writer_at = i.writer_at;
  seen = λ _. the_other m.waiter (Writer.looking u) n i.writer_at refl;
  split = i.split;
}
Write-Inv {m} r (Write.again_no_waiter {u} e) c i =
    advance_writer m r (Writer.looking u) (Writer.test u) refl (λ h. h) (λ h. h) i
Write-Inv {m} r (Write.again_unset {u} e) c i =
    advance_writer m r (Writer.looking u) (Writer.test u) refl (λ h. h) (λ h. h) i
Write-Inv {m} r (Write.place {u}) c i =
    let p = puts_aimed (stage r) m.reader_set m.ret u i.fits in
    record {
      fits = p.0;
      sound = i.sound;
      reader_at = i.reader_at;
      writer_at = i.writer_at;
      seen = i.seen;
      split = hands_over m u i.split p.1;
    }
Write-Inv {m} r Write.unset_placed c i = record {
  fits = gives (stage r) m.reader_set m.ret i.fits;
  sound = i.sound;
  reader_at = i.reader_at;
  writer_at = i.writer_at;
  seen = i.seen;
  split = i.split;
}
Write-Inv {m} r (Write.none_waits e) c i = none-ne_some e (i.seen refl)
