-- ===== src/Window/Inv.antt =====
-- What the members say while the channel is open.
use mathlib.Core.Path.{subst}
use gthread.Window.{the_reader, the_writer, Window, Reader, Writer}
use gthread.Common.{
  ℕ, ◌≡◌, refl, sym, ◌∙◌, Bool, true, false, Option, none, some, List, [], ◌∷◌, ◌++◌,
}

-- before, in, and after the part of `read` in which a value can arrive
pub data Stage : Type 0 where
  out within arrived : Stage

abbrev pub stage : Reader → Stage
stage Reader.idle = out
stage Reader.entered = out
stage Reader.failed = out
stage Reader.test = within
stage Reader.parking = within
stage Reader.checking = within
stage Reader.asleep = within
stage Reader.swapping = within
stage Reader.swapped = within
stage Reader.woken = arrived
stage Reader.unparking = arrived
stage Reader.leaving = arrived

-- how far `write` is with handing its value over
pub data Share : Type 0 where
  plain aimed put giving : Share

abbrev pub share : Writer → Share
share (Writer.placing u) = aimed
share Writer.delivered = put
share Writer.placed = put
share Writer.swapping = giving
share Writer.unparking = giving
share Writer.idle = plain
share (Writer.test u) = plain
share (Writer.parking u) = plain
share (Writer.checking u) = plain
share (Writer.asleep u) = plain
share (Writer.woken u) = plain
share (Writer.delivering u) = plain
share Writer.swapped = plain
share (Writer.looking u) = plain
share Writer.failed = plain

abbrev pub IsSome : Option ℕ → Type 0
IsSome r = (v : ℕ) × (r ≡ some v)

-- `_reader` and what it points to, at each stage
abbrev pub Fits : Stage → Share → Bool → Option ℕ → Type 0
Fits out plain s r = (s ≡ false) × (r ≡ none)
Fits within plain s r = (s ≡ true) × (r ≡ none)
Fits within aimed s r = (s ≡ true) × (r ≡ none)
Fits within put s r = (s ≡ true) × IsSome r
Fits within giving s r = (s ≡ false) × IsSome r
Fits arrived plain s r = (s ≡ false) × IsSome r
Fits _ _ _ _ = ⊥

-- a reader that holds the waiter
abbrev pub reader_waits : Reader → Bool
reader_waits Reader.checking = true
reader_waits Reader.asleep = true
reader_waits Reader.swapped = true
reader_waits _ = false

abbrev pub writer_waits : Writer → Bool
writer_waits (Writer.checking u) = true
writer_waits (Writer.asleep u) = true
writer_waits Writer.swapped = true
writer_waits _ = false

-- a writer that has seen the reader at the waiter
abbrev pub has_seen : Writer → Bool
has_seen (Writer.placing u) = true
has_seen Writer.placed = true
has_seen Writer.unparking = true
has_seen _ = false

abbrev pub has_failed : Reader → Bool
has_failed Reader.failed = true
has_failed _ = false

-- the value that is handed over
abbrev pub pending : Option ℕ → List ℕ
pending none = []
pending (some v) = v ∷ []

pub record Inv (m : Window) (r : Reader) (w : Writer) : Type 0 where
  pub fits : Fits (stage r) (share w) m.reader_set m.ret
  pub sound : has_failed r ≡ false
  pub reader_at : m.waiter ≡ some the_reader → reader_waits r ≡ true
  pub writer_at : m.waiter ≡ some the_writer → writer_waits w ≡ true
  pub seen : has_seen w ≡ true → m.waiter ≡ some the_reader
  pub split : m.sent ≡ m.received ++ pending m.ret

-- The reader moves on in its stage.
pub advance_reader :
    (m : Window) (r r' : Reader) (w : Writer)
    → stage r ≡ stage r'
    → (reader_waits r ≡ true → reader_waits r' ≡ true)
    → has_failed r' ≡ false
    → Inv m r w
    → Inv m r' w
advance_reader m r r' w e k f i = record {
  fits = subst (λ s. Fits s (share w) m.reader_set m.ret) e i.fits;
  sound = f;
  reader_at = λ h. k (i.reader_at h);
  writer_at = i.writer_at;
  seen = i.seen;
  split = i.split;
}

pub advance_writer :
    (m : Window) (r : Reader) (w w' : Writer)
    → share w ≡ share w'
    → (writer_waits w ≡ true → writer_waits w' ≡ true)
    → (has_seen w' ≡ true → has_seen w ≡ true)
    → Inv m r w
    → Inv m r w'
advance_writer m r w w' e k f i = record {
  fits = subst (λ s. Fits (stage r) s m.reader_set m.ret) e i.fits;
  sound = i.sound;
  reader_at = i.reader_at;
  writer_at = λ h. k (i.writer_at h);
  seen = λ h. i.seen (f h);
  split = i.split;
}

pub clash : {A : Type 0} {b : Bool} → b ≡ false → b ≡ true → A
clash e f = cc (sym e ∙ f)

-- How the stages follow one another.
pub enters : (k : Share) (s : Bool) (r : Option ℕ) → Fits out k s r → Fits within k true none
enters plain s r h = (refl, refl)
enters aimed s r h = absurd h
enters put s r h = absurd h
enters giving s r h = absurd h

pub out-none : (k : Share) (s : Bool) (r : Option ℕ) → Fits out k s r → r ≡ none
out-none plain s r h = h.1
out-none aimed s r h = absurd h
out-none put s r h = absurd h
out-none giving s r h = absurd h

pub out-unset : (k : Share) (s : Bool) (r : Option ℕ) → Fits out k s r → s ≡ false
out-unset plain s r h = h.0
out-unset aimed s r h = absurd h
out-unset put s r h = absurd h
out-unset giving s r h = absurd h

pub arrived-unset :
    (k : Share) (s : Bool) (r : Option ℕ) → Fits arrived k s r → (s ≡ false) × IsSome r
arrived-unset plain s r h = h
arrived-unset aimed s r h = absurd h
arrived-unset put s r h = absurd h
arrived-unset giving s r h = absurd h

pub returns : (k : Share) (s : Bool) (r : Option ℕ) → Fits arrived k s r → Fits out k s none
returns plain s r h = (h.0, refl)
returns aimed s r h = absurd h
returns put s r h = absurd h
returns giving s r h = absurd h

pub takes_aim :
    (g : Stage) (s : Bool) (r : Option ℕ) → s ≡ true → Fits g plain s r → Fits g aimed s r
takes_aim out s r e h = clash h.0 e
takes_aim within s r e h = h
takes_aim arrived s r e h = clash h.0 e

pub puts :
    (g : Stage) (s : Bool) (r : Option ℕ) (u : ℕ)
    → s ≡ true
    → Fits g plain s r
    → Fits g put s (some u) × (r ≡ none)
puts out s r u e h = clash h.0 e
puts within s r u e h = ((e, (u, refl)), h.1)
puts arrived s r u e h = clash h.0 e

pub puts_aimed :
    (g : Stage) (s : Bool) (r : Option ℕ) (u : ℕ)
    → Fits g aimed s r
    → Fits g put s (some u) × (r ≡ none)
puts_aimed out s r u h = absurd h
puts_aimed within s r u h = ((h.0, (u, refl)), h.1)
puts_aimed arrived s r u h = absurd h

pub gives : (g : Stage) (s : Bool) (r : Option ℕ) → Fits g put s r → Fits g giving false r
gives out s r h = absurd h
gives within s r h = (refl, h.1)
gives arrived s r h = absurd h
