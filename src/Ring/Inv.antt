-- ===== src/Ring/Inv.antt =====
-- What holds between the steps of the reader and the writer.
use gthread.Ring.{Shared, Reader, Writer, slot}
use gthread.Ring.Window.{Window}
use gthread.Common.{modulus, ℕ, ◌+◌, ◌%◌, ◌≤◌, ◌<◌, ◌≡◌, List, ◌∷◌, ◌++◌, length}

-- What the local variables of `read` say: `loaded_r` is current, `loaded_w` may be behind.
abbrev pub ReaderKnows : Shared → List ℕ → Reader → Type 0
ReaderKnows m q Reader.idle = Unit
ReaderKnows m q (Reader.have_r r) = r ≡ m.r
ReaderKnows m q (Reader.test r w) =
    (r ≡ m.r) × ((k : ℕ) × (k ≤ length q) × (w ≡ (length m.received + k) % modulus))
ReaderKnows m q (Reader.parking r) = r ≡ m.r
ReaderKnows m q (Reader.checking r) = r ≡ m.r
ReaderKnows m q (Reader.asleep r) = r ≡ m.r
ReaderKnows m q (Reader.reload r) = r ≡ m.r
ReaderKnows m q (Reader.take r) = (r ≡ m.r) × (0 < length q)
ReaderKnows m q (Reader.storing r v) = (r ≡ m.r) × ((rest : List ℕ) × (q ≡ v ∷ rest))
ReaderKnows m q (Reader.waking v) = Unit

-- What those of `write` say: `loaded_w` is current, `loaded_r` may be behind.
abbrev pub WriterKnows : ℕ → Shared → List ℕ → Writer → Type 0
WriterKnows size m q Writer.idle = Unit
WriterKnows size m q (Writer.open_check u) = Unit
WriterKnows size m q (Writer.before_w u) = Unit
WriterKnows size m q (Writer.have_w u w) = w ≡ m.w
WriterKnows size m q (Writer.test u w r) =
    (w ≡ m.w)
    × ((old : ℕ) × (old ≤ length m.received)
        × (length m.received + length q ≤ old + size)
        × (r ≡ old % modulus))
WriterKnows size m q (Writer.parking u w) = w ≡ m.w
WriterKnows size m q (Writer.checking u w) = w ≡ m.w
WriterKnows size m q (Writer.asleep u w) = w ≡ m.w
WriterKnows size m q (Writer.reload u w) = w ≡ m.w
WriterKnows size m q (Writer.place u w) = (w ≡ m.w) × (length q < size)
WriterKnows size m q (Writer.storing u w) =
    (w ≡ m.w) × (length q < size) × (m.buffer (slot size (length m.received + length q)) ≡ u)
WriterKnows size m q Writer.waking = Unit

pub record Inv (size : ℕ) (m : Shared) (rp : Reader) (wp : Writer) : Type 0 where
  pub pending : List ℕ
  pub split : m.sent ≡ m.received ++ pending
  pub few : length pending ≤ size
  pub r_count : m.r ≡ length m.received % modulus
  pub w_count : m.w ≡ (length m.received + length pending) % modulus
  pub window : Window size m.buffer (length m.received) pending
  pub reader : ReaderKnows m pending rp
  pub writer : WriterKnows size m pending wp
