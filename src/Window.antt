-- ===== src/Window.antt =====
-- concur/internal/channel_window.h and channel_window_impl.h: the channel without a buffer, of one
-- reader and one writer, which may be interleaved at any access of shared memory. `Step` is one step
-- of one side, or of `close`, which any task may call.
pub mod Inv
pub mod Steps
pub mod Handover
pub mod Failures
use gthread.Common.{ℕ, ◌≡◌, ◌≢◌, Bool, true, false, Option, none, some, List, [], ◌∷◌, ◌++◌}

pub data Party : Type 0 where
  the_reader the_writer : Party

-- The members of `channel_window`: `reader_set` says whether `_reader` is not null, and `ret` is what
-- it points to, the result of `read`. `sent` are the values that `write` put there and `received`
-- those that `read` has returned, oldest first.
pub record Window : Type 0 where
  pub waiter : Option Party
  pub reader_set : Bool
  pub closed : Bool
  pub ret : Option ℕ
  pub sent : List ℕ
  pub received : List ℕ

-- Where `read` stands.
pub data Reader : Type 0 where
  idle : Reader  -- in no call
  entered : Reader  -- before the assertion, and `_reader = &ret`
  test : Reader  -- at the head of the loop
  parking : Reader  -- at the start of `park_if`
  checking : Reader  -- in `_waiter`, before the check
  asleep : Reader  -- waiting in `park_if`
  woken : Reader  -- before the assertion that follows
  unparking : Reader  -- in the loop that unparks the writer
  swapping : Reader  -- at the start of `swap`
  swapped : Reader  -- waiting in `swap`
  leaving : Reader  -- after the loop
  failed : Reader  -- an assertion failed

-- Where `write` stands, with the value that it is to write.
pub data Writer : Type 0 where
  idle : Writer
  test : (u : ℕ) → Writer
  parking : (u : ℕ) → Writer
  checking : (u : ℕ) → Writer
  asleep : (u : ℕ) → Writer
  woken : (u : ℕ) → Writer  -- `park_if` has returned true
  delivering : (u : ℕ) → Writer  -- before the assertion that `_reader` is set
  delivered : Writer  -- before `_reader = nullptr`
  swapping : Writer  -- in the loop that swaps with the reader
  swapped : Writer  -- waiting in `swap`
  looking : (u : ℕ) → Writer  -- before the test of `_waiter` and `_reader`
  placing : (u : ℕ) → Writer  -- after it
  placed : Writer  -- before `_reader = nullptr`
  unparking : Writer  -- in the loop that unparks the reader
  failed : Writer

-- One step of `read` by itself.
pub data Read (m : Window) : Reader → Window → Reader → Type 0 where
  call : Read m Reader.idle m Reader.entered
  enter :
      m.reader_set ≡ false
      → Read m Reader.entered (record m { reader_set = true; ret = none }) Reader.test
  enter_fails : m.reader_set ≡ true → Read m Reader.entered m Reader.failed
  stop : m.closed ≡ true → Read m Reader.test m Reader.leaving
  go_on : m.closed ≡ false → Read m Reader.test m Reader.parking
  claim :
      m.waiter ≡ none
      → Read m Reader.parking (record m { waiter = some the_reader }) Reader.checking
  busy : m.waiter ≢ none → Read m Reader.parking m Reader.swapping
  give_up : m.closed ≡ true → Read m Reader.checking (record m { waiter = none }) Reader.swapping
  sleep : m.closed ≡ false → Read m Reader.checking m Reader.asleep
  assert_taken : m.reader_set ≡ false → Read m Reader.woken m Reader.unparking
  assert_fails : m.reader_set ≡ true → Read m Reader.woken m Reader.failed
  none_waits : m.waiter ≡ none → Read m Reader.unparking m Reader.leaving
  no_swap : Read m Reader.swapping m Reader.test
  give_back :
      {v : ℕ}
      → m.ret ≡ some v
      → Read m Reader.leaving
          (record m { ret = none; received = m.received ++ (v ∷ []) })
          Reader.idle
  give_nothing : m.ret ≡ none → Read m Reader.leaving m Reader.idle

-- One step of `write` by itself.
pub data Write (m : Window) : Writer → Window → Writer → Type 0 where
  call : (u : ℕ) → Write m Writer.idle m (Writer.test u)
  reject : {u : ℕ} → m.closed ≡ true → Write m (Writer.test u) m Writer.idle
  go_on : {u : ℕ} → m.closed ≡ false → Write m (Writer.test u) m (Writer.parking u)
  claim :
      {u : ℕ}
      → m.waiter ≡ none
      → Write m (Writer.parking u) (record m { waiter = some the_writer }) (Writer.checking u)
  busy : {u : ℕ} → m.waiter ≢ none → Write m (Writer.parking u) m (Writer.looking u)
  give_up :
      {u : ℕ}
      → m.closed ≡ true
      → Write m (Writer.checking u) (record m { waiter = none }) (Writer.looking u)
  sleep : {u : ℕ} → m.closed ≡ false → Write m (Writer.checking u) m (Writer.asleep u)
  reject_woken :
      {u : ℕ}
      → m.closed ≡ true
      → Write m (Writer.woken u) (record m { reader_set = false }) Writer.idle
  keep_on : {u : ℕ} → m.closed ≡ false → Write m (Writer.woken u) m (Writer.delivering u)
  deliver :
      {u : ℕ}
      → m.reader_set ≡ true
      → Write m
          (Writer.delivering u)
          (record m { ret = some u; sent = m.sent ++ (u ∷ []) })
          Writer.delivered
  deliver_fails : {u : ℕ} → m.reader_set ≡ false → Write m (Writer.delivering u) m Writer.failed
  unset : Write m Writer.delivered (record m { reader_set = false }) Writer.swapping
  look :
      {u : ℕ}
      → m.waiter ≢ none
      → m.reader_set ≡ true
      → Write m (Writer.looking u) m (Writer.placing u)
  again_no_waiter : {u : ℕ} → m.waiter ≡ none → Write m (Writer.looking u) m (Writer.test u)
  again_unset : {u : ℕ} → m.reader_set ≡ false → Write m (Writer.looking u) m (Writer.test u)
  place :
      {u : ℕ}
      → Write m
          (Writer.placing u)
          (record m { ret = some u; sent = m.sent ++ (u ∷ []) })
          Writer.placed
  unset_placed : Write m Writer.placed (record m { reader_set = false }) Writer.unparking
  none_waits : m.waiter ≡ none → Write m Writer.unparking m Writer.idle

pub record Sys : Type 0 where
  pub mem : Window
  pub reader : Reader
  pub writer : Writer

-- Where a task that waits at the waiter goes on when it is unparked.
pub data Resumes : Party → Reader → Writer → Reader → Writer → Type 0 where
  parked_reader : {w : Writer} → Resumes the_reader Reader.asleep w Reader.woken w
  swapped_reader : {w : Writer} → Resumes the_reader Reader.swapped w Reader.leaving w
  parked_writer : {r : Reader} {u : ℕ} → Resumes the_writer r (Writer.asleep u) r (Writer.woken u)
  swapped_writer : {r : Reader} → Resumes the_writer r Writer.swapped r Writer.idle

-- One step. Where a side unparks the other, or swaps with it, the other is set to wait; as long as it
-- is not, the loops yield and try again, which changes nothing.
pub data Step (s : Sys) : Sys → Type 0 where
  read :
      {m : Window} {p : Reader}
      → Read s.mem s.reader m p
      → Step s (record s { mem = m; reader = p })
  write :
      {m : Window} {p : Writer}
      → Write s.mem s.writer m p
      → Step s (record s { mem = m; writer = p })
  reader_unparks :
      {w : Writer}
      → s.reader ≡ Reader.unparking
      → s.mem.waiter ≡ some the_writer
      → Resumes the_writer Reader.unparking s.writer Reader.unparking w
      → Step s
          (record { mem = record (s.mem) { waiter = none }; reader = Reader.leaving; writer = w })
  reader_swaps :
      {w : Writer}
      → s.reader ≡ Reader.swapping
      → s.mem.waiter ≡ some the_writer
      → Resumes the_writer Reader.swapping s.writer Reader.swapping w
      → Step s (record {
        mem = record (s.mem) { waiter = some the_reader };
        reader = Reader.swapped;
        writer = w;
      })
  writer_unparks :
      {r : Reader}
      → s.writer ≡ Writer.unparking
      → s.mem.waiter ≡ some the_reader
      → Resumes the_reader s.reader Writer.unparking r Writer.unparking
      → Step s (record { mem = record (s.mem) { waiter = none }; reader = r; writer = Writer.idle })
  writer_swaps :
      {r : Reader}
      → s.writer ≡ Writer.swapping
      → s.mem.waiter ≡ some the_reader
      → Resumes the_reader s.reader Writer.swapping r Writer.swapping
      → Step s (record {
        mem = record (s.mem) { waiter = some the_writer };
        reader = r;
        writer = Writer.swapped;
      })
  close : Step s (record s { mem = record (s.mem) { closed = true } })
  close_resets :
      s.mem.closed ≡ true → Step s (record s { mem = record (s.mem) { reader_set = false } })
  close_unparks :
      {p : Party} {r : Reader} {w : Writer}
      → s.mem.closed ≡ true
      → s.mem.waiter ≡ some p
      → Resumes p s.reader s.writer r w
      → Step s (record { mem = record (s.mem) { waiter = none }; reader = r; writer = w })

-- the constructor of `channel_window`
abbrev pub init : Sys
init = record {
  mem = record {
    waiter = none;
    reader_set = false;
    closed = false;
    ret = none;
    sent = [];
    received = [];
  };
  reader = Reader.idle;
  writer = Writer.idle;
}

pub data Reach (s : Sys) : Sys → Type 0 where
  here : Reach s s
  later : {t u : Sys} → Reach s t → Step t u → Reach s u
