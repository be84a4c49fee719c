-- ===== src/Ring.antt =====
-- concur/internal/ring_buffer.h and ring_buffer_impl.h: a buffered channel of one reader and one
-- writer, which may be interleaved at any access of shared memory. `Read` and `Write` are the steps
-- of one side by itself, `Step` those of the two together and of `close`.
pub mod Count
pub mod Window
pub mod Inv
pub mod Keep
pub mod Steps
pub mod Fifo
pub mod Stall
use gthread.Common.{
  modulus, sub_size, ℕ, ◌+◌, ◌-◌, ◌%◌, ◌^◌, ◌≡◌, ◌≢◌, Bool, true, false, Option, none, some, List,
  [], ◌∷◌, ◌++◌, update,
}

-- `a + 1` on `size_t`
abbrev pub next_size : ℕ → ℕ
next_size a = (a + 1) % modulus

-- `i & _mask`, for a size that is a power of two
abbrev pub slot : ℕ → ℕ → ℕ
slot size i = i % size

-- the side that waits in `_stalled`
pub data Side : Type 0 where
  reading writing : Side

-- The members of `ring_buffer`, with the values that `write` has published and those that `read`
-- has taken so far, oldest first.
pub record Shared : Type 0 where
  pub buffer : ℕ → ℕ
  pub r : ℕ
  pub w : ℕ
  pub closed : Bool
  pub stalled : Option Side
  pub sent : List ℕ
  pub received : List ℕ

-- Where `read` stands, with its local variables.
pub data Reader : Type 0 where
  idle : Reader  -- not in a call
  have_r : (loaded_r : ℕ) → Reader  -- before `_w.load()`
  test : (loaded_r loaded_w : ℕ) → Reader  -- at the head of the loop
  parking : (loaded_r : ℕ) → Reader  -- at the start of `park_if`
  checking : (loaded_r : ℕ) → Reader  -- in `_stalled`, before the check
  asleep : (loaded_r : ℕ) → Reader  -- waiting
  reload : (loaded_r : ℕ) → Reader  -- before `_w.load()` in the loop
  take : (loaded_r : ℕ) → Reader  -- after the loop
  storing : (loaded_r v : ℕ) → Reader  -- before `_r.store()`
  waking : (v : ℕ) → Reader  -- in the loop that unparks the other side

-- Where `write` stands, with its argument and its local variables.
pub data Writer : Type 0 where
  idle : Writer
  open_check : (u : ℕ) → Writer  -- before `_closed.load()`
  before_w : (u : ℕ) → Writer
  have_w : (u loaded_w : ℕ) → Writer
  test : (u loaded_w loaded_r : ℕ) → Writer
  parking : (u loaded_w : ℕ) → Writer
  checking : (u loaded_w : ℕ) → Writer
  asleep : (u loaded_w : ℕ) → Writer
  reload : (u loaded_w : ℕ) → Writer
  place : (u loaded_w : ℕ) → Writer
  storing : (u loaded_w : ℕ) → Writer
  waking : Writer

-- One step of `read`.
pub data Read (size : ℕ) (m : Shared) : Reader → Shared → Reader → Type 0 where
  load_r : Read size m Reader.idle m (Reader.have_r m.r)
  load_w : {r : ℕ} → Read size m (Reader.have_r r) m (Reader.test r m.w)
  empty : {r w : ℕ} → sub_size w r ≡ 0 → Read size m (Reader.test r w) m (Reader.parking r)
  nonempty : {r w : ℕ} → sub_size w r ≢ 0 → Read size m (Reader.test r w) m (Reader.take r)
  busy : {r : ℕ} → m.stalled ≢ none → Read size m (Reader.parking r) m (Reader.reload r)
  claim :
      {r : ℕ}
      → m.stalled ≡ none
      → Read size m (Reader.parking r) (record m { stalled = some reading }) (Reader.checking r)
  give_up :
      {r : ℕ}
      → m.closed ≡ true
      → Read size m (Reader.checking r) (record m { stalled = none }) Reader.idle
  sleep : {r : ℕ} → m.closed ≡ false → Read size m (Reader.checking r) m (Reader.asleep r)
  load_again : {r : ℕ} → Read size m (Reader.reload r) m (Reader.test r m.w)
  move_out : {r : ℕ} → Read size m (Reader.take r) m (Reader.storing r (m.buffer (slot size r)))
  store_r :
      {r v : ℕ}
      → Read size m
          (Reader.storing r v)
          (record m { r = next_size r; received = m.received ++ (v ∷ []) })
          (Reader.waking v)
  done : {v : ℕ} → m.stalled ≡ none → Read size m (Reader.waking v) m Reader.idle

-- One step of `write`.
pub data Write (size : ℕ) (m : Shared) : Writer → Shared → Writer → Type 0 where
  call : (u : ℕ) → Write size m Writer.idle m (Writer.open_check u)
  reject : {u : ℕ} → m.closed ≡ true → Write size m (Writer.open_check u) m Writer.idle
  go_on : {u : ℕ} → m.closed ≡ false → Write size m (Writer.open_check u) m (Writer.before_w u)
  load_w : {u : ℕ} → Write size m (Writer.before_w u) m (Writer.have_w u m.w)
  load_r : {u w : ℕ} → Write size m (Writer.have_w u w) m (Writer.test u w m.r)
  full : {u w r : ℕ} → sub_size w r ≡ size → Write size m (Writer.test u w r) m (Writer.parking u w)
  room : {u w r : ℕ} → sub_size w r ≢ size → Write size m (Writer.test u w r) m (Writer.place u w)
  busy : {u w : ℕ} → m.stalled ≢ none → Write size m (Writer.parking u w) m (Writer.reload u w)
  claim :
      {u w : ℕ}
      → m.stalled ≡ none
      → Write size m
          (Writer.parking u w)
          (record m { stalled = some writing })
          (Writer.checking u w)
  give_up :
      {u w : ℕ}
      → m.closed ≡ true
      → Write size m (Writer.checking u w) (record m { stalled = none }) Writer.idle
  sleep : {u w : ℕ} → m.closed ≡ false → Write size m (Writer.checking u w) m (Writer.asleep u w)
  load_again : {u w : ℕ} → Write size m (Writer.reload u w) m (Writer.test u w m.r)
  move_in :
      {u w : ℕ}
      → Write size m
          (Writer.place u w)
          (record m { buffer = update m.buffer (slot size w) u })
          (Writer.storing u w)
  store_w :
      {u w : ℕ}
      → Write size m
          (Writer.storing u w)
          (record m { w = next_size w; sent = m.sent ++ (u ∷ []) })
          Writer.waking
  done : m.stalled ≡ none → Write size m Writer.waking m Writer.idle

pub record Sys : Type 0 where
  pub mem : Shared
  pub reader : Reader
  pub writer : Writer

-- One step of the two sides and of `close`. A side that finds the other asleep in `_stalled` unparks
-- it; while the other has claimed `_stalled` and does not sleep yet, it yields and tries again, which
-- changes nothing.
pub data Step (size : ℕ) (s : Sys) : Sys → Type 0 where
  read :
      {m : Shared} {p : Reader}
      → Read size s.mem s.reader m p
      → Step size s (record s { mem = m; reader = p })
  write :
      {m : Shared} {p : Writer}
      → Write size s.mem s.writer m p
      → Step size s (record s { mem = m; writer = p })
  wake_writer :
      {v u w : ℕ}
      → s.reader ≡ Reader.waking v
      → s.writer ≡ Writer.asleep u w
      → s.mem.stalled ≡ some writing
      → Step size s (record {
        mem = record (s.mem) { stalled = none };
        reader = Reader.idle;
        writer = Writer.reload u w;
      })
  wake_reader :
      {r : ℕ}
      → s.writer ≡ Writer.waking
      → s.reader ≡ Reader.asleep r
      → s.mem.stalled ≡ some reading
      → Step size s (record {
        mem = record (s.mem) { stalled = none };
        reader = Reader.reload r;
        writer = Writer.idle;
      })
  close : Step size s (record s { mem = record (s.mem) { closed = true } })
  close_reader :
      {r : ℕ}
      → s.mem.closed ≡ true
      → s.reader ≡ Reader.asleep r
      → s.mem.stalled ≡ some reading
      → Step size s (record s { mem = record (s.mem) { stalled = none }; reader = Reader.reload r })
  close_writer :
      {u w : ℕ}
      → s.mem.closed ≡ true
      → s.writer ≡ Writer.asleep u w
      → s.mem.stalled ≡ some writing
      → Step size s
          (record s { mem = record (s.mem) { stalled = none }; writer = Writer.reload u w })

-- the constructor of `ring_buffer`; what the slots hold at first is not read
abbrev pub init : (ℕ → ℕ) → Sys
init buffer = record {
  mem = record {
    buffer = buffer;
    r = 0;
    w = 0;
    closed = false;
    stalled = none;
    sent = [];
    received = [];
  };
  reader = Reader.idle;
  writer = Writer.idle;
}

pub data Reach (size : ℕ) (s : Sys) : Sys → Type 0 where
  here : Reach size s s
  later : {t u : Sys} → Reach size s t → Step size t u → Reach size s u
