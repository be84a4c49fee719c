-- ===== src/Freelist/Reuse.antt =====
-- Which task `make_task` hands out, and when it has to create one.
use gthread.Memory.{Attr}
use gthread.Task.{Task}
use gthread.Freelist.{fits, Freelist, find_task, take_free}
use mathlib.Core.Path.{subst, subst⁻¹}
use gthread.Outcome.{ok, ◌>>=◌}
use gthread.Memory.{Attr, Os, guard_of}
use gthread.Task.{Task, Heap, Sizes, create, reset}
use gthread.Freelist.{Freelist, fits, find_task, take_free, supply, make_task}
use gthread.Common.{
  ltb-zero-suc, ◌+◌, ◌≡◌, refl, ap, ◌≢◌, ◌⊎◌, inl, inr, true, false, List, [], ◌∷◌, ◌++◌, arith,
  ltb, if◌then◌else◌, Ptr, null, Bool-cases, length, All, All-map, update, ==-of_ne,
}

-- The task found is the first that fits; the others stay in the list in their order.
pub record Found (s : Ptr → Task) (a : Attr) (l : List Ptr) (t : Ptr) (rest : List Ptr)
    : Type 0 where
  pub before : List Ptr
  pub after : List Ptr
  pub split : l ≡ before ++ (t ∷ after)
  pub others : rest ≡ before ++ after
  pub first : All (λ i. fits a (s i) ≡ false) before
  pub fitting : fits a (s t) ≡ true

-- What `find_task` returns: the first task that fits, or `nullptr` and the list as it was.
abbrev pub Search : (Ptr → Task) → Attr → List Ptr → Ptr × List Ptr → Type 0
Search s a l (t, rest) =
    ((t ≢ null) × Found s a l t rest)
    ⊎ ((t ≡ null) × (rest ≡ l) × All (λ i. fits a (s i) ≡ false) l)

Search-cons :
    (s : Ptr → Task) (a : Attr) (i : Ptr) (l : List Ptr) (t : Ptr) (rest : List Ptr)
    → fits a (s i) ≡ false
    → Search s a l (t, rest)
    → Search s a (i ∷ l) (t, i ∷ rest)
Search-cons s a i l t rest n (inl (nn, f)) = inl (
  nn,
  record {
    before = i ∷ f.before;
    after = f.after;
    split = ap (λ k. i ∷ k) f.split;
    others = ap (λ k. i ∷ k) f.others;
    first = (n, f.first);
    fitting = f.fitting;
  },
)
Search-cons s a i l t rest n (inr (e, r, all)) = inr (e, ap (λ k. i ∷ k) r, (n, all))

find_task-fits :
    (s : Ptr → Task) (a : Attr) (i : Ptr) (l : List Ptr)
    → fits a (s i) ≡ true
    → find_task s a (i ∷ l) ≡ (i, l)
unfolding find_task
find_task-fits s a i l e = rw e

find_task-skips :
    (s : Ptr → Task) (a : Attr) (i : Ptr) (l : List Ptr)
    → fits a (s i) ≡ false
    → find_task s a (i ∷ l) ≡ ((find_task s a l).0, i ∷ (find_task s a l).1)
unfolding find_task
find_task-skips s a i l e = rw e

find_task-nil : (s : Ptr → Task) (a : Attr) → find_task s a [] ≡ (null, [])
unfolding find_task
find_task-nil s a = refl

Found-first :
    (s : Ptr → Task) (a : Attr) (i : Ptr) (l : List Ptr)
    → fits a (s i) ≡ true
    → Found s a (i ∷ l) i l
Found-first s a i l e = record {
  before = [];
  after = l;
  split = refl;
  others = refl;
  first = tt;
  fitting = e;
}

pub find_task-Search :
    (s : Ptr → Task) (a : Attr) (l : List Ptr)
    → All (λ p. p ≢ null) l
    → Search s a l (find_task s a l)
find_task-Search s a [] h = subst⁻¹ (Search s a []) (find_task-nil s a) (inr (refl, refl, tt))
find_task-Search s a (i ∷ l) h = elim (Bool-cases (fits a (s i))) [
  | inl good ↦
      subst⁻¹ (Search s a (i ∷ l)) (find_task-fits s a i l good)
        (inl (h.0, Found-first s a i l good))
  | inr bad ↦
      subst⁻¹ (Search s a (i ∷ l)) (find_task-skips s a i l bad)
        (Search-cons s a i l _ _ bad (find_task-Search s a l h.1))
]

find_task-none :
    (s : Ptr → Task) (a : Attr) (l : List Ptr)
    → All (λ i. fits a (s i) ≡ false) l
    → find_task s a l ≡ (null, l)
unfolding find_task
find_task-none s a [] h = refl
find_task-none s a (i ∷ l) h = rw (h.0, find_task-none s a l h.1)

take_free_lem : (s : Ptr → Task) (a : Attr) (f : Freelist) → take_free s a f ≡ find_task s a f.list
unfolding take_free
take_free_lem s a f = nonempty f.list
  where
    nonempty :
        (l : List Ptr) → (if ltb 0 (length l) then find_task s a l else (null, l)) ≡ find_task s a l
    nonempty [] = refl
    nonempty (x ∷ l) = rw (ltb-zero-suc (length l))

-- the state after `make_task` has taken `t` from the list for use again
abbrev reused : Freelist → Heap → Ptr → List Ptr → Freelist × Heap
reused f h t rest =
    (record f { list = rest }, record h { tasks = update h.tasks t (reset (h.tasks t)) })

make_task-reuse :
    (os : Os) (z : Sizes) (a : Attr) (f : Freelist) (h : Heap) (t : Ptr) (rest : List Ptr)
    → find_task h.tasks a f.list ≡ (t, rest)
    → t ≢ null
    → make_task os z a f h ≡ ok (t, (reused f h t rest).0, (reused f h t rest).1)
unfolding make_task supply
make_task-reuse os z a f h t rest e n = rw (take_free_lem h.tasks a f, e, ==-of_ne t 0 n)

make_task-create :
    (os : Os) (z : Sizes) (a : Attr) (f : Freelist) (h : Heap)
    → find_task h.tasks a f.list ≡ (null, f.list)
    → make_task os z a f h ≡ (create os z a h >>= λ r. ok (r.0, f, r.1))
unfolding make_task supply
make_task-create os z a f h e = rw (take_free_lem h.tasks a f, e)

-- `make_task` on a list of free tasks: if one fits the attributes it hands out the first that does,
-- taken off the list and reset, with no call of `mmap`; if none fits it creates a task and leaves
-- the list alone.
pub make_task_lem :
    (os : Os) (z : Sizes) (a : Attr) (f : Freelist) (h : Heap)
    → All (λ p. p ≢ null) f.list
    → ((t : Ptr) × (rest : List Ptr) × Found h.tasks a f.list t rest
        × (make_task os z a f h
            ≡ ok (
              t,
              record f { list = rest },
              record h { tasks = update h.tasks t (reset (h.tasks t)) },
            )))
      ⊎ (All (λ i. fits a (h.tasks i) ≡ false) f.list
          × (make_task os z a f h ≡ (create os z a h >>= λ r. ok (r.0, f, r.1))))
make_task_lem os z a f h live = decide (find_task h.tasks a f.list) refl
  where
    decide :
        (r : Ptr × List Ptr)
        → find_task h.tasks a f.list ≡ r
        → ((t : Ptr) × (rest : List Ptr) × Found h.tasks a f.list t rest
            × (make_task os z a f h
                ≡ ok (
                  t,
                  record f { list = rest },
                  record h { tasks = update h.tasks t (reset (h.tasks t)) },
                )))
          ⊎ (All (λ i. fits a (h.tasks i) ≡ false) f.list
              × (make_task os z a f h ≡ (create os z a h >>= λ r. ok (r.0, f, r.1))))
    decide (t, rest) e =
        elim (subst (Search h.tasks a f.list) e (find_task-Search h.tasks a f.list live)) [
          | inl (n, found) ↦ inl (t, rest, found, make_task-reuse os z a f h t rest e n)
          | inr (_, _, none_fits) ↦
              inr
                (none_fits, make_task-create os z a f h (find_task-none h.tasks a f.list none_fits))
        ]

-- A task whose total size is that of a request with a guard does not fit that request: the total
-- counts the guard, and `find_task` compares it with the size of the stack alone.
not_fitting :
    (a : Attr) (t : Task)
    → t.total_stack_size ≡ a.size + guard_of a
    → guard_of a ≢ 0
    → fits a t ≡ false
not_fitting a t e n = rw (==-of_ne a.size t.total_stack_size (omega arith))

-- The free tasks are never used again for the attributes that they were made with, unless there is
-- no guard: if every task on the list has the total size that `create` gives to a task of the
-- attributes `a`, `make_task` creates a new task.
pub make_task-never_reuses :
    (os : Os) (z : Sizes) (a : Attr) (f : Freelist) (h : Heap)
    → guard_of a ≢ 0
    → All (λ p. (h.tasks p).total_stack_size ≡ a.size + guard_of a) f.list
    → make_task os z a f h ≡ (create os z a h >>= λ r. ok (r.0, f, r.1))
make_task-never_reuses os z a f h n made = make_task-create os z a f h (
    find_task-none h.tasks a f.list
      (All-map _ _ f.list (λ p e. not_fitting a (h.tasks p) e n) made))
