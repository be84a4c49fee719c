-- ===== src/CloseWrapper.antt =====
-- util/close_wrapper.h with the channel ends of concur/channel_impl.h: a wrapper closes its resource
-- when it is destroyed, and can be moved.
pub mod Balance
use gthread.Common.{
  ℕ, zero, suc, ◌+◌, ◌≡◌, ◌==◌, if◌then◌else◌, Option, none, some, List, [], ◌∷◌, Ptr, null,
}

-- A place in memory: there is no wrapper yet or any more, or one with that `_resource`.
pub data Cell : Type 0 where
  absent : Cell
  wrapper : Ptr → Cell

-- The places, the resources closed, and those that a wrapper gave its share of back; the last come
-- first.
pub record Wrappers : Type 0 where
  pub cells : List Cell
  pub closed : List Ptr
  pub released : List Ptr

abbrev pub cell_at : List Cell → ℕ → Option Cell
cell_at [] i = none
cell_at (c ∷ cs) zero = some c
cell_at (c ∷ cs) (suc i) = cell_at cs i

abbrev pub put : List Cell → ℕ → Cell → List Cell
put [] i d = []
put (c ∷ cs) zero d = d ∷ cs
put (c ∷ cs) (suc i) d = c ∷ put cs i d

-- A share of a pointer that is not null, given back or used to close.
abbrev pub note : Ptr → List Ptr → List Ptr
note p l = if p == null then l else p ∷ l

-- What a program does with wrappers, each named by its place. `construct i r` is `close_wrapper(r)`.
pub data Op : Type 0 where
  construct : ℕ → Ptr → Op
  move_construct : ℕ → ℕ → Op
  move_assign : ℕ → ℕ → Op
  destroy : ℕ → Op

-- `std::move` of the shared pointer in the wrapper at `j`, which is null from then on
unfoldable pub take : Option Cell → ℕ → Wrappers → Option (Ptr × Wrappers)
take (some (wrapper p)) j s = some (p, record s { cells = put s.cells j (wrapper null) })
take _ j s = none

-- a constructor at `i`
unfoldable pub build : Option Cell → ℕ → Ptr → Wrappers → Option Wrappers
build (some absent) i p s = some (record s { cells = put s.cells i (wrapper p) })
build _ i p s = none

-- `operator=`, which is the one of the shared pointer
unfoldable pub assign : Option Cell → ℕ → Ptr → Wrappers → Option Wrappers
assign (some (wrapper q)) i p s =
    some (record s { cells = put s.cells i (wrapper p); released = note q s.released })
assign _ i p s = none

-- `~close_wrapper`, with the destructor of the shared pointer
unfoldable pub destruct : Option Cell → ℕ → Wrappers → Option Wrappers
destruct (some (wrapper p)) i s = some (record s {
  cells = put s.cells i absent;
  closed = note p s.closed;
  released = note p s.released;
})
destruct _ i s = none

abbrev pub then_build : ℕ → Option (Ptr × Wrappers) → Option Wrappers
then_build i none = none
then_build i (some r) = build (cell_at r.1.cells i) i r.0 r.1

abbrev pub then_assign : ℕ → Option (Ptr × Wrappers) → Option Wrappers
then_assign i none = none
then_assign i (some r) = assign (cell_at r.1.cells i) i r.0 r.1

-- One step; `none` where no wrapper is, or is not yet, as the step supposes.
unfoldable pub step : Op → Wrappers → Option Wrappers
unfolding take build assign destruct
step (construct i r) s = build (cell_at s.cells i) i r s
step (move_construct i j) s = then_build i (take (cell_at s.cells j) j s)
step (move_assign i j) s = then_assign i (take (cell_at s.cells j) j s)
step (destroy i) s = destruct (cell_at s.cells i) i s

unfoldable pub run : List Op → Wrappers → Option Wrappers
unfolding step
run [] s = some s
run (o ∷ os) s = elim (step o s) [ none ↦ none | some s' ↦ run os s' ]

-- `n` empty places
abbrev pub blank_cells : ℕ → List Cell
blank_cells zero = []
blank_cells (suc n) = absent ∷ blank_cells n

abbrev pub blank : ℕ → Wrappers
blank n = record { cells = blank_cells n; closed = []; released = [] }

-- `make_wishbone_channel`: the ends of the channel are the places 2 and 3, moved from the local ones,
-- which go away in reverse order.
abbrev pub make_wishbone_channel : Ptr → List Op
make_wishbone_channel monitor =
    construct 0 monitor
    ∷ construct 1 monitor
    ∷ move_construct 2 0
    ∷ move_construct 3 1
    ∷ destroy 1
    ∷ destroy 0
    ∷ []
