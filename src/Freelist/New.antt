-- ===== src/Freelist/New.antt =====
-- The tasks that `make_task` hands out, as they are before they are started.
use mathlib.Core.Path.{subst}
use gthread.Memory.{Attr, Os, allocate_stack}
use gthread.Task.{Task, Heap, Sizes, stopped, create, place, construct, reset}
use gthread.Outcome
use gthread.Outcome.{Result, OnOk, of_ok}
use gthread.Freelist.{Freelist, supply, take_free, make_task}
use gthread.Common.{
  ℕ, ◌-◌, ◌≡◌, refl, sym, ap, ◌∙◌, inl, inr, false, Option, none, some, ◌==◌, Ptr, null, Bool-cases,
  update, update_self,
}

-- a task that has not been started
pub record IsNew (t : Task) : Type 0 where
  pub is_stopped : t.run_state ≡ stopped
  pub no_vruntime : t.vruntime ≡ 0
  pub no_joiner : t.joiner ≡ null
  pub attached : t.detached ≡ false
  pub no_flag : t.no_preempt_flag ≡ false

-- a new task at `p`, and all others as before
abbrev pub Makes : Heap → Ptr → Heap → Type 0
Makes h p h' = (h'.tasks ≡ update h.tasks p (h'.tasks p)) × IsNew (h'.tasks p)

updated-Makes :
    (h h' : Heap) (p : Ptr) (t : Task) → IsNew t → h'.tasks ≡ update h.tasks p t → Makes h p h'
updated-Makes h h' p t n e =
    let at : h'.tasks p ≡ t = ap (λ f. f p) e ∙ update_self h.tasks p t in
    (e ∙ ap (update h.tasks p) (sym at), subst IsNew (sym at) n)

place-Makes :
    (z : Sizes) (a : Attr) (stack : Option Ptr) (total : Option ℕ) (h h' : Heap)
    → h'.tasks ≡ h.tasks
    → OnOk {A = Ptr × Heap} (λ r. Makes h r.0 r.1) (place z a stack total h')
unfolding place construct
place-Makes z a (some stack) (some total) h h' e =
    let at = stack - z.task_bytes in
    let t = construct z stack at total a.alloc_tls in
    updated-Makes h (record h' { tasks = update h'.tasks at t }) at t
      (record {
        is_stopped = refl;
        no_vruntime = refl;
        no_joiner = refl;
        attached = refl;
        no_flag = refl;
      })
      (ap (λ f. update f at t) e)
place-Makes z a (some stack) none h h' e = tt
place-Makes z a none total h h' e = tt

create-Makes :
    (os : Os) (z : Sizes) (a : Attr) (h : Heap)
    → OnOk {A = Ptr × Heap} (λ r. Makes h r.0 r.1) (create os z a h)
unfolding create
create-Makes os z a h =
    place-Makes z a (allocate_stack os h.maps a).stack (allocate_stack os h.maps a).total h _ refl

then_freelist :
    (h : Heap) (f : Freelist) (r : Result (Ptr × Heap))
    → OnOk {A = Ptr × Heap} (λ k. Makes h k.0 k.1) r
    → OnOk {A = Ptr × Freelist × Heap}
        (λ k. Makes h k.0 k.2)
        (Outcome.◌>>=◌ r (λ k. Result.ok (k.0, f, k.1)))
then_freelist h f (Result.ok k) m = m
then_freelist h f (Result.throw e) m = tt
then_freelist h f (Result.fault e) m = tt

supply-Makes :
    (os : Os) (z : Sizes) (a : Attr) (f : Freelist) (h : Heap) (t : Ptr)
    → OnOk {A = Ptr × Freelist × Heap} (λ k. Makes h k.0 k.2) (supply os z a f h t)
unfolding supply reset
supply-Makes os z a f h t = elim (Bool-cases (t == null)) [
  | inl e ↦ rw e (then_freelist h f (create os z a h) (create-Makes os z a h))
  | inr e ↦ rw e (
      updated-Makes h (record h { tasks = update h.tasks t (reset (h.tasks t)) }) t
        (reset (h.tasks t))
        (record {
          is_stopped = refl;
          no_vruntime = refl;
          no_joiner = refl;
          attached = refl;
          no_flag = refl;
        })
        refl)
]

pub make_task-Makes :
    (os : Os) (z : Sizes) (a : Attr) (f f' : Freelist) (h h' : Heap) (p : Ptr)
    → make_task os z a f h ≡ Result.ok (p, f', h')
    → Makes h p h'
unfolding make_task
make_task-Makes os z a f f' h h' p e =
    of_ok {A = Ptr × Freelist × Heap} (λ k. Makes h k.0 k.2) (make_task os z a f h) (p, f', h')
      (supply-Makes os z a (record f { list = (take_free h.tasks a f).1 }) h
        (take_free h.tasks a f).0)
      e
