-- ===== src/Mutex/Exclusion.antt =====
-- The mutex keeps two tasks apart.
use mathlib.Core.Path.{subst}
use gthread.Mutex.{
  Place, Mutex, init, Step, Reach, here, later, call_lock, lock_again, enter, wait, claim, sleep,
  reenter, take, call_unlock, call_unlock_outside, check, throws, free, wake, leave,
}
use gthread.Common.{
  ℕ, ◌≡◌, refl, sym, ap, ◌∙◌, ◌≢◌, ◌⊎◌, inl, inr, Bool, true, false, arith, ◌==◌, Ptr, null,
  Bool-cases, update, update_ne, eq_of_==,
}

-- a task that has `_lock`
abbrev pub in_section : Place → Bool
in_section Place.testing = true
in_section Place.deciding = true
in_section Place.leaving = true
in_section _ = false

-- a task that has the mutex for sure
abbrev pub holds : Place → Bool
holds Place.holding = true
holds Place.leaving = true
holds _ = false

pub record Inv (lock : Bool) (owner : Ptr) (places : Ptr → Place) : Type 0 where
  pub locked : (t : Ptr) → in_section (places t) ≡ true → lock ≡ true
  pub apart : (t u : Ptr) → in_section (places t) ≡ true → in_section (places u) ≡ true → t ≡ u
  pub owns : (t : Ptr) → holds (places t) ≡ true → (owner ≡ t) × (t ≢ null)

pub absurd-Bool : {A : Type 0} → false ≡ true → A
absurd-Bool e = ground arith

-- where a task stands once `t` has moved to `p`
pub place-cases :
    (places : Ptr → Place) (t : Ptr) (p : Place) (a : Ptr)
    → ((a ≡ t) × (update places t p a ≡ p)) ⊎ ((t ≢ a) × (update places t p a ≡ places a))
place-cases places t p a = elim (Bool-cases (a == t)) [
  | inl e ↦ inl (eq_of_== a t e, ground arith)
  | inr e ↦ inr (ground arith, ground arith)
]

-- What is true of a task after `t` has moved was true before, if `t` gains nothing.
pub before :
    (f : Place → Bool) (places : Ptr → Place) (t : Ptr) (p : Place)
    → (f p ≡ true → f (places t) ≡ true)
    → (a : Ptr) → f (update places t p a) ≡ true
    → f (places a) ≡ true
before f places t p k a e = elim (place-cases places t p a) [
  | inl (x, y) ↦ subst (λ b. f (places b) ≡ true) (sym x) (k (ap f (sym y) ∙ e))
  | inr (x, y) ↦ ap f (sym y) ∙ e
]

-- A task moves without taking or leaving `_lock`.
move :
    {lock : Bool} {owner : Ptr} {places : Ptr → Place} (t : Ptr) (p : Place)
    → (in_section p ≡ true → in_section (places t) ≡ true)
    → ((a : Ptr) → holds (update places t p a) ≡ true → (owner ≡ a) × (a ≢ null))
    → Inv lock owner places
    → Inv lock owner (update places t p)
move {lock} {owner} {places} t p s h i = record {
  locked = λ a e. i.locked a (before in_section places t p s a e);
  apart = λ a b e f.
      i.apart a b (before in_section places t p s a e) (before in_section places t p s b f);
  owns = h;
}

-- A task moves on to a place at which it has neither `_lock` nor the mutex.
step_back :
    {lock : Bool} {owner : Ptr} {places : Ptr → Place} (t : Ptr) (p : Place)
    → in_section p ≡ false
    → holds p ≡ false
    → Inv lock owner places
    → Inv lock owner (update places t p)
step_back {lock} {owner} {places} t p s h i =
    move t p (λ e. absurd-Bool (sym s ∙ e))
      (λ a e. i.owns a (before holds places t p (λ e'. absurd-Bool (sym h ∙ e')) a e)) i

-- Nobody has `_lock` while it is free.
pub nobody :
    {owner : Ptr} {places : Ptr → Place}
    → Inv false owner places
    → (a : Ptr) → in_section (places a) ≡ true
    → ⊥
nobody i a e = absurd-Bool (i.locked a e)

-- A task takes `_lock`.
take_lock :
    {owner : Ptr} {places : Ptr → Place} (t : Ptr) (p : Place)
    → holds p ≡ false
    → Inv false owner places
    → Inv true owner (update places t p)
take_lock {owner} {places} t p h i = record {
  locked = λ a e. refl;
  apart = λ a b e f. only a e ∙ sym (only b f);
  owns = λ a e. i.owns a (before holds places t p (λ e'. absurd-Bool (sym h ∙ e')) a e);
}
  where
    only : (a : Ptr) → in_section (update places t p a) ≡ true → a ≡ t
    only a e = elim (place-cases places t p a) [
      | inl (x, y) ↦ x
      | inr (x, y) ↦ absurd (nobody i a (ap in_section (sym y) ∙ e))
    ]

-- A task that has `_lock` leaves it.
leave_lock :
    {lock : Bool} {owner owner' : Ptr} {places : Ptr → Place} (t : Ptr) (p : Place)
    → in_section (places t) ≡ true
    → in_section p ≡ false
    → ((a : Ptr) → holds (update places t p a) ≡ true → (owner' ≡ a) × (a ≢ null))
    → Inv lock owner places
    → Inv false owner' (update places t p)
leave_lock {lock} {owner} {owner'} {places} t p at_t s h i = record {
  locked = λ a e. absurd (none_left a e);
  apart = λ a b e f. absurd (none_left a e);
  owns = h;
}
  where
    none_left : (a : Ptr) → in_section (update places t p a) ≡ true → ⊥
    none_left a e = elim (place-cases places t p a) [
      | inl (x, y) ↦ absurd-Bool (sym s ∙ (ap in_section (sym y) ∙ e))
      | inr (x, y) ↦ x (i.apart t a at_t (ap in_section (sym y) ∙ e))
    ]

-- A task that takes the mutex owns it, if nobody else does.
gains :
    (places : Ptr → Place) (t : Ptr) (p : Place)
    → t ≢ null
    → ((a : Ptr) → holds (places a) ≡ true → t ≡ a)
    → (a : Ptr) → holds (update places t p a) ≡ true
    → (t ≡ a) × (a ≢ null)
gains places t p n none_else a e = elim (place-cases places t p a) [
  | inl (x, y) ↦ (sym x, λ k. n (sym x ∙ k))
  | inr (x, y) ↦ absurd (x (none_else a (ap holds (sym y) ∙ e)))
]

-- When the owner gives the mutex up, nobody has it.
gives_up :
    {lock : Bool} {owner owner' : Ptr} {places : Ptr → Place} (t : Ptr) (p : Place)
    → owner ≡ t
    → holds p ≡ false
    → Inv lock owner places
    → (a : Ptr) → holds (update places t p a) ≡ true
    → (owner' ≡ a) × (a ≢ null)
gives_up {lock} {owner} {owner'} {places} t p o h i a e = elim (place-cases places t p a) [
  | inl (x, y) ↦ absurd-Bool (sym h ∙ (ap holds (sym y) ∙ e))
  | inr (x, y) ↦ absurd (x (sym o ∙ (i.owns a (ap holds (sym y) ∙ e)).0))
]

flag-ne : (f : Place → Bool) {p q : Place} → p ≡ q → f q ≡ false → f p ≡ true → ⊥
flag-ne f e n h = absurd-Bool (sym n ∙ (ap f (sym e) ∙ h))

Inv-init : (boosts : Ptr → ℕ) → Inv false null (init boosts).places
Inv-init boosts = record {
  locked = λ t e. absurd-Bool e;
  apart = λ t u e f. absurd-Bool e;
  owns = λ t e. absurd-Bool e;
}

-- Two tasks that have `_lock` are one.
one_section :
    {lock : Bool} {owner : Ptr} {places : Ptr → Place} (t a : Ptr) {p : Place}
    → Inv lock owner places
    → places t ≡ p
    → in_section p ≡ true
    → in_section (places a) ≡ true
    → t ≡ a
one_section t a i e s h = i.apart t a (ap in_section e ∙ s) h

pub Step-Inv : {m n : Mutex} → Step m n → Inv m.lock m.owner m.places → Inv n.lock n.owner n.places
Step-Inv {m} (call_lock {t} z e) i = step_back t Place.entering refl refl i
Step-Inv {m} (lock_again {t} e) i = step_back t Place.entering refl refl i
Step-Inv {m} (enter {t} z e l) i =
    take_lock t Place.testing refl (subst (λ b. Inv b m.owner m.places) l i)
Step-Inv {m} (wait {t} e o) i =
    leave_lock t Place.parking (ap in_section e) refl
      (λ a h. i.owns a (before holds m.places t Place.parking (λ k. absurd-Bool k) a h)) i
Step-Inv {m} (claim {t} e) i = step_back t Place.claimed refl refl i
Step-Inv {m} (sleep {t} e) i = step_back t Place.asleep refl refl i
Step-Inv {m} (reenter {t} z e l) i =
    take_lock t Place.testing refl (subst (λ b. Inv b m.owner m.places) l i)
Step-Inv {m} (take {t} z e o) i =
    leave_lock t Place.holding (ap in_section e) refl
      (gains m.places t Place.holding z (λ a h. absurd ((i.owns a h).1 (sym (i.owns a h).0 ∙ o)))) i
Step-Inv {m} (call_unlock {t} e) i = step_back t Place.releasing refl refl i
Step-Inv {m} (call_unlock_outside {t} e) i = step_back t Place.releasing refl refl i
Step-Inv {m} (check {t} e l) i =
    take_lock t Place.deciding refl (subst (λ b. Inv b m.owner m.places) l i)
Step-Inv {m} (throws {t} e o) i =
    leave_lock t Place.outside (ap in_section e) refl
      (λ a h. i.owns a (before holds m.places t Place.outside (λ k. absurd-Bool k) a h)) i
Step-Inv {m} (free {t} e o q) i =
    leave_lock t Place.outside (ap in_section e) refl (gives_up t Place.outside o refl i) i
Step-Inv {m} (wake {t} {u} {q} z e o w p) i =
    move t Place.leaving (λ _. still) (λ a h. (o ∙ (gained a h).0, (gained a h).1)) j
  where
    j : Inv m.lock m.owner (update m.places u Place.reentering)
    j = step_back u Place.reentering refl refl i

    other : u ≢ t
    other k = flag-ne in_section p refl (ap (λ b. in_section (m.places b)) k ∙ ap in_section e)

    still : in_section (update m.places u Place.reentering t) ≡ true
    still = ap in_section (update_ne m.places u t Place.reentering other ∙ e)

    gained :
        (a : Ptr)
        → holds (update (update m.places u Place.reentering) t Place.leaving a) ≡ true
        → (t ≡ a) × (a ≢ null)
    gained =
        gains (update m.places u Place.reentering) t Place.leaving z (λ a h. sym o ∙ (j.owns a h).0)
Step-Inv {m} (leave {t} e w) i =
    leave_lock t Place.outside (ap in_section e) refl
      (gives_up t Place.outside (i.owns t (ap holds e)).0 refl i) i

pub Reach-Inv : (boosts : Ptr → ℕ) {m : Mutex} → Reach (init boosts) m → Inv m.lock m.owner m.places
Reach-Inv boosts here = Inv-init boosts
Reach-Inv boosts (later r s) = Step-Inv s (Reach-Inv boosts r)

-- Mutual exclusion: in every state that any tasks can reach by calls of `lock` and `unlock`, however
-- they are interleaved and whichever of them call `unlock` without having the mutex, two tasks for
-- which `lock` has returned and that have not called it or `unlock` since are the same task, and that
-- task is the owner.
pub Reach-exclusive :
    (boosts : Ptr → ℕ) {m : Mutex} (t u : Ptr)
    → Reach (init boosts) m
    → m.places t ≡ Place.holding
    → m.places u ≡ Place.holding
    → (t ≡ u) × (m.owner ≡ t)
Reach-exclusive boosts t u r e f =
    let i = Reach-Inv boosts r in
    (sym (i.owns t (ap holds e)).0 ∙ (i.owns u (ap holds f)).0, (i.owns t (ap holds e)).0)
