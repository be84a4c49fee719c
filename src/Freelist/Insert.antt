-- ===== src/Freelist/Insert.antt =====
-- The order that `insert_task` keeps, and that no task is lost or doubled.
use gthread.Common.{
  ◌∙◌, refl, sym, inr, inl, ltb, ◌⊎◌, ◌<◌, null, All-map, ◌≢◌, true, ◌≤◌, All, Bool-cases, ◌≡◌,
  arith, length, count, Ptr, suc, List, [], ◌∷◌,
}
use gthread.Task.{destroy, Heap, Task}
use gthread.Freelist.{Freelist, goes_before, return_task, insert_task}

pub count-insert_task :
    (s : Ptr → Task) (t a : Ptr) (l : List Ptr) → count a (insert_task s t l) ≡ count a (t ∷ l)
unfolding insert_task
count-insert_task s t a [] = ground arith
count-insert_task s t a (i ∷ l) = ground (arith, count-insert_task s t a l)

pub length-insert_task :
    (s : Ptr → Task) (t : Ptr) (l : List Ptr) → length (insert_task s t l) ≡ suc (length l)
unfolding insert_task
length-insert_task s t [] = ground arith
length-insert_task s t (i ∷ l) = ground (arith, length-insert_task s t l)

-- No task stands behind one that it could go before but not the other way round.
abbrev pub IsOrdered : (Ptr → Task) → List Ptr → Type 0
IsOrdered s [] = Unit
IsOrdered s (x ∷ xs) =
    All (λ y. goes_before (s y) (s x) ≡ true → goes_before (s x) (s y) ≡ true) xs × IsOrdered s xs

goes_before_trans :
    (s t u : Task) → goes_before s t ≡ true → goes_before t u ≡ true → goes_before s u ≡ true
goes_before_trans s t u p q = ground arith

All-insert_task :
    (P : Ptr → Type 0) (s : Ptr → Task) (t : Ptr) (l : List Ptr)
    → P t
    → All P l
    → All P (insert_task s t l)
unfolding insert_task
All-insert_task P s t [] p h = (p, tt)
All-insert_task P s t (i ∷ l) p h = elim (Bool-cases (goes_before (s t) (s i))) [
  | inl yes_ ↦ rw yes_ (p, h)
  | inr not_ ↦ rw not_ (h.0, All-insert_task P s t l p h.1)
]

-- What may stand behind `i` may stand behind a `t` that goes before `i`.
before-All :
    (s : Ptr → Task) (t i : Ptr) (l : List Ptr)
    → goes_before (s t) (s i) ≡ true
    → All (λ y. goes_before (s y) (s i) ≡ true → goes_before (s i) (s y) ≡ true) l
    → All (λ y. goes_before (s y) (s t) ≡ true → goes_before (s t) (s y) ≡ true) l
before-All s t i l g =
    All-map _ _ l
      (λ y k q. goes_before_trans (s t) (s i) (s y) g (k (goes_before_trans (s y) (s t) (s i) q g)))

pub insert_task-IsOrdered :
    (s : Ptr → Task) (t : Ptr) (l : List Ptr) → IsOrdered s l → IsOrdered s (insert_task s t l)
unfolding insert_task
insert_task-IsOrdered s t [] h = (tt, tt)
insert_task-IsOrdered s t (i ∷ l) h = elim (Bool-cases (goes_before (s t) (s i))) [
  | inl g ↦ rw g ((λ _. g, before-All s t i l g h.0), h)
  | inr n ↦
      rw n (
        All-insert_task _ s t l (λ q. absurd (cc (sym q ∙ n))) h.0,
        insert_task-IsOrdered s t l h.1,
      )
]

-- What the list of free tasks keeps: at most `max_size` tasks, in order, none of them null.
pub record IsValid (s : Ptr → Task) (f : Freelist) : Type 0 where
  pub bounded : length f.list ≤ f.max_size
  pub ordered : IsOrdered s f.list
  pub live : All (λ p. p ≢ null) f.list

-- A task that is returned is either put on the list, which then holds it once more and all else as
-- often as before, with nothing unmapped; or, exactly if the list is full, it is destroyed and the
-- list is left alone. In both cases the list stays bounded and ordered.
pub return_task_lem :
    (t : Ptr) (f : Freelist) (h : Heap)
    → t ≢ null
    → IsValid h.tasks f
    → let (f', h') = return_task t f h in
      IsValid h.tasks f'
      × (((length f.list < f.max_size)
            × ((a : Ptr) → count a f'.list ≡ count a (t ∷ f.list))
            × (h' ≡ h))
          ⊎ ((length f.list ≡ f.max_size) × (f' ≡ f) × (h' ≡ destroy t h)))
unfolding return_task
return_task_lem t f h n v = elim (Bool-cases (ltb (length f.list) f.max_size)) [
  | inl room ↦ rw room (
    record {
      bounded = ground (arith, length-insert_task h.tasks t f.list, v.bounded);
      ordered = insert_task-IsOrdered h.tasks t f.list v.ordered;
      live = All-insert_task _ h.tasks t f.list n v.live;
    },
    inl (ground arith, λ a. count-insert_task h.tasks t a f.list, refl),
  )
  | inr full ↦ rw full (v, inr (ground (arith, v.bounded), refl, refl))
]
