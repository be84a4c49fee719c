-- ===== src/Freelist.antt =====
-- sched/internal/task_freelist.cc: finished tasks kept for use again, at most `max_size`, with the
-- large stacks first. The mutex `_mu` is held over each change of the list and never across a
-- switch, so each call is one step.
pub mod Insert
pub mod Reuse
pub mod New
use gthread.Common.{
  ℕ, Bool, true, false, if◌then◌else◌, not, ◌&&◌, ◌||◌, ◌==◌, ltb, leb, same_flag, length, Ptr,
  null, List, [], ◌∷◌, update,
}
use gthread.Outcome.{Result, ok, ◌>>=◌}
use gthread.Memory.{Attr, Os}
use gthread.Task.{Task, Heap, Sizes, has_tls, create, destroy, reset}

pub record Freelist : Type 0 where
  pub list : List Ptr
  pub max_size : ℕ

-- The test of `find_task`.
abbrev pub fits : Attr → Task → Bool
fits a t = a.size == t.total_stack_size && same_flag a.alloc_tls (has_tls t)

-- The first task that fits, taken off the list; `nullptr` if there is none.
unfoldable pub find_task : (Ptr → Task) → Attr → List Ptr → Ptr × List Ptr
find_task s a [] = (null, [])
find_task s a (i ∷ l) =
    if fits a (s i) then (i, l) else (let (t, rest) = find_task s a l in (t, i ∷ rest))

-- The test of `insert_task`: the new task goes before this one.
abbrev pub goes_before : Task → Task → Bool
goes_before t i = leb i.total_stack_size t.total_stack_size && (has_tls t || not (has_tls i))

unfoldable pub insert_task : (Ptr → Task) → Ptr → List Ptr → List Ptr
insert_task s t [] = t ∷ []
insert_task s t (i ∷ l) = if goes_before (s t) (s i) then t ∷ i ∷ l else i ∷ insert_task s t l

-- The first part of `make_task`, under the mutex.
unfoldable pub take_free : (Ptr → Task) → Attr → Freelist → Ptr × List Ptr
unfolding find_task
take_free s a f = if ltb 0 (length f.list) then find_task s a f.list else (null, f.list)

-- `make_task` from what was found.
unfoldable pub supply : Os → Sizes → Attr → Freelist → Heap → Ptr → Result (Ptr × Freelist × Heap)
unfolding create reset
supply os z a f h t =
    if not (t == null)
    then ok (t, f, record h { tasks = update h.tasks t (reset (h.tasks t)) })
    else (create os z a h >>= λ r. ok (r.0, f, r.1))

unfoldable pub make_task : Os → Sizes → Attr → Freelist → Heap → Result (Ptr × Freelist × Heap)
unfolding take_free supply
make_task os z a f h =
    let (t, l) = take_free h.tasks a f in supply os z a (record f { list = l }) h t

unfoldable pub return_task : Ptr → Freelist → Heap → Freelist × Heap
unfolding insert_task destroy
return_task t f h =
    if ltb (length f.list) f.max_size
    then (record f { list = insert_task h.tasks t f.list }, h)
    else (f, destroy t h)
