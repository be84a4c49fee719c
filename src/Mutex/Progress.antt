-- ===== src/Mutex/Progress.antt =====
-- A task that waits for the mutex is not left behind.
use mathlib.Core.Path.{subst}
use gthread.Mutex.{
  Place, Mutex, init, Step, Reach, here, later, call_lock, lock_again, enter, wait, claim, sleep,
  reenter, take, call_unlock, call_unlock_outside, check, throws, free, wake, leave,
}
use gthread.Mutex.Exclusion.{Inv, in_section, absurd-Bool, place-cases, before, nobody, Reach-Inv}
use gthread.Common.{
  ℕ, ◌≡◌, refl, sym, ap, ◌∙◌, ◌≢◌, ◌⊎◌, inl, inr, Bool, true, false, List, [], ◌∷◌, Ptr, null,
  update, update_self, update_ne,
}

-- the task whose waiter was woken has the mutex still to give up
abbrev is_leaving : Place → Bool
is_leaving Place.leaving = true
is_leaving _ = false

-- a task that was woken and has not taken `_lock` since
abbrev is_woken : Place → Bool
is_woken Place.reentering = true
is_woken _ = false

-- a task that is about to test the owner
abbrev pub is_on_its_way : Place → Bool
is_on_its_way Place.reentering = true
is_on_its_way Place.testing = true
is_on_its_way _ = false

record Progress (owner : Ptr) (queue : List Ptr) (places : Ptr → Place) : Type 0 where
  woken :
      (a b : Ptr) (q : List Ptr)
      → is_leaving (places a) ≡ true
      → queue ≡ b ∷ q
      → is_woken (places b) ≡ true
  served : owner ≡ null → (queue ≡ []) ⊎ ((u : Ptr) × (is_on_its_way (places u) ≡ true))

-- What is true of a task stays true when `t` moves, if `t` keeps it.
still :
    (f : Place → Bool) (places : Ptr → Place) (t : Ptr) (p : Place)
    → (f (places t) ≡ true → f p ≡ true)
    → (a : Ptr) → f (places a) ≡ true
    → f (update places t p a) ≡ true
still f places t p k a e = elim (place-cases places t p a) [
  | inl (x, y) ↦ ap f y ∙ k (ap (λ b. f (places b)) (sym x) ∙ e)
  | inr (x, y) ↦ ap f y ∙ e
]

still_served :
    (queue : List Ptr) (places : Ptr → Place) (t : Ptr) (p : Place)
    → (is_on_its_way (places t) ≡ true → is_on_its_way p ≡ true)
    → (queue ≡ []) ⊎ ((u : Ptr) × (is_on_its_way (places u) ≡ true))
    → (queue ≡ []) ⊎ ((u : Ptr) × (is_on_its_way (update places t p u) ≡ true))
still_served queue places t p k (inl e) = inl e
still_served queue places t p k (inr (u, e)) = inr (u, still is_on_its_way places t p k u e)

-- A task moves that neither was woken nor wakes.
move :
    {owner : Ptr} {queue : List Ptr} {places : Ptr → Place} (t : Ptr) (p q : Place)
    → places t ≡ p
    → is_woken p ≡ false
    → is_leaving q ≡ false
    → (is_on_its_way p ≡ true → is_on_its_way q ≡ true)
    → Progress owner queue places
    → Progress owner queue (update places t q)
move {owner} {queue} {places} t p q e w l k i = record {
  woken = λ a b r h n.
      still is_woken places t q (λ z. absurd-Bool (sym w ∙ (ap is_woken (sym e) ∙ z))) b
        (i.woken a b r (before is_leaving places t q (λ z. absurd-Bool (sym l ∙ z)) a h) n);
  served = λ o. still_served queue places t q (λ z. k (ap is_on_its_way (sym e) ∙ z)) (i.served o);
}

leaving-in_section : (p : Place) → is_leaving p ≡ true → in_section p ≡ true
leaving-in_section Place.leaving h = refl
leaving-in_section _ h = cc

-- While another task has `_lock`, or nobody, none is leaving.
none_leaving :
    {lock : Bool} {owner : Ptr} {places : Ptr → Place} (t : Ptr) (p : Place)
    → places t ≡ p
    → in_section p ≡ true
    → is_leaving p ≡ false
    → Inv lock owner places
    → (a : Ptr) → is_leaving (places a) ≡ true
    → ⊥
none_leaving {places = places} t p e s l i a h = absurd-Bool (
    sym l
    ∙ (ap is_leaving (sym e)
        ∙ (ap (λ b. is_leaving (places b))
              (i.apart t a (ap in_section e ∙ s) (leaving-in_section (places a) h))
            ∙ h)))

still_none :
    (places : Ptr → Place) (t : Ptr) (q : Place)
    → is_leaving q ≡ false
    → ((a : Ptr) → is_leaving (places a) ≡ true → ⊥)
    → (a : Ptr) → is_leaving (update places t q a) ≡ true
    → ⊥
still_none places t q l nobody_leaves a h =
    nobody_leaves a (before is_leaving places t q (λ z. absurd-Bool (sym l ∙ z)) a h)

-- A task that has `_lock`, and is not leaving, moves.
move_alone :
    {lock : Bool} {owner owner' : Ptr} {queue' : List Ptr} {places : Ptr → Place} (t : Ptr)
    (p q : Place)
    → places t ≡ p
    → in_section p ≡ true
    → is_leaving p ≡ false
    → is_leaving q ≡ false
    → Inv lock owner places
    → (owner' ≡ null → (queue' ≡ []) ⊎ ((u : Ptr) × (is_on_its_way (update places t q u) ≡ true)))
    → Progress owner' queue' (update places t q)
move_alone {places = places} t p q e s l k i served = record {
  woken = λ a b r h n. absurd (still_none places t q k (none_leaving t p e s l i) a h);
  served = served;
}

-- A task that was woken takes `_lock`.
move_woken :
    {owner : Ptr} {queue : List Ptr} {places : Ptr → Place} (t : Ptr)
    → Inv false owner places
    → Progress owner queue places
    → Progress owner queue (update places t Place.testing)
move_woken {places = places} t i j = record {
  woken = λ a b r h n. absurd (
      still_none places t Place.testing refl (λ c z. nobody i c (leaving-in_section (places c) z)) a
        h);
  served = λ o. still_served _ places t Place.testing (λ _. refl) (j.served o);
}

head_eq : {a b : Ptr} {q r : List Ptr} → a ∷ q ≡ b ∷ r → a ≡ b
head_eq e = cc

-- A task wakes the first that waits.
move_wakes :
    {owner : Ptr} {queue : List Ptr} (places : Ptr → Place) (t u : Ptr) (q : List Ptr)
    → t ≢ null
    → owner ≡ t
    → queue ≡ u ∷ q
    → t ≢ u
    → Progress owner queue (update (update places u Place.reentering) t Place.leaving)
move_wakes places t u q z o w other = record {
  woken = λ a b r h n.
      ap is_woken (
        update_ne (update places u Place.reentering) t b Place.leaving
          (λ k. other (k ∙ sym (head_eq (sym w ∙ n)))))
      ∙ ap (λ c. is_woken (update places u Place.reentering c)) (sym (head_eq (sym w ∙ n)))
      ∙ ap is_woken (update_self places u Place.reentering);
  served = λ k. absurd (z (sym o ∙ k));
}

woken-on_its_way : (p : Place) → is_woken p ≡ true → is_on_its_way p ≡ true
woken-on_its_way Place.reentering h = refl
woken-on_its_way _ h = cc

-- A task that has woken the first that waits gives the mutex up.
move_leaves :
    {lock : Bool} {owner : Ptr} {queue : List Ptr} {places : Ptr → Place} (t u : Ptr) (q : List Ptr)
    → places t ≡ Place.leaving
    → queue ≡ u ∷ q
    → Inv lock owner places
    → Progress owner queue places
    → Progress null q (update places t Place.outside)
move_leaves {places = places} t u q e w i j = record {
  woken = λ a b r h n. elim (place-cases places t Place.outside a) [
    | inl (x, y) ↦ absurd-Bool (ap is_leaving (sym y) ∙ h)
    | inr (x, y) ↦ absurd (
        x (
          i.apart t a (ap in_section e)
            (leaving-in_section (places a) (ap is_leaving (sym y) ∙ h))))
  ];
  served = λ _. inr (
    u,
    woken-on_its_way (update places t Place.outside u) (
        still is_woken places t Place.outside (λ z. absurd-Bool (sym (ap is_woken e) ∙ z)) u
          (j.woken t u q (ap is_leaving e) w)),
  );
}

Step-Progress :
    {m n : Mutex}
    → Step m n
    → Inv m.lock m.owner m.places
    → Progress m.owner m.waitqueue m.places
    → Progress n.owner n.waitqueue n.places
Step-Progress (call_lock {t} z e) i j = move t Place.outside Place.entering e refl refl (λ k. cc) j
Step-Progress (lock_again {t} e) i j = move t Place.holding Place.entering e refl refl (λ k. cc) j
Step-Progress (enter {t} z e l) i j = move t Place.entering Place.testing e refl refl (λ _. refl) j
Step-Progress {m} (wait {t} e o) i j =
    move_alone t Place.testing Place.parking e refl refl refl i (λ k. absurd (o k))
Step-Progress (claim {t} e) i j = move t Place.parking Place.claimed e refl refl (λ k. cc) j
Step-Progress (sleep {t} e) i j = move t Place.claimed Place.asleep e refl refl (λ k. cc) j
Step-Progress {m} (reenter {t} z e l) i j = move_woken t (subst (λ b. Inv b m.owner m.places) l i) j
Step-Progress {m} (take {t} z e o) i j =
    move_alone t Place.testing Place.holding e refl refl refl i (λ k. absurd (z k))
Step-Progress (call_unlock {t} e) i j = move t Place.holding Place.releasing e refl refl (λ k. cc) j
Step-Progress (call_unlock_outside {t} e) i j =
    move t Place.outside Place.releasing e refl refl (λ k. cc) j
Step-Progress (check {t} e l) i j = move t Place.releasing Place.deciding e refl refl (λ k. cc) j
Step-Progress (throws {t} e o) i j = move t Place.deciding Place.outside e refl refl (λ k. cc) j
Step-Progress {m} (free {t} e o q) i j =
    move_alone t Place.deciding Place.outside e refl refl refl i (λ _. inl q)
Step-Progress {m} (wake {t} {u} {q} z e o w p) i j =
    move_wakes m.places t u q z o w
      (λ k. absurd-Bool (ap in_section (sym p ∙ (ap m.places (sym k) ∙ e))))
Step-Progress {m} (leave {t} {u} {q} e w) i j = move_leaves t u q e w i j

Reach-Progress :
    (boosts : Ptr → ℕ) {m : Mutex} → Reach (init boosts) m → Progress m.owner m.waitqueue m.places
Reach-Progress boosts here = record { woken = λ a b q h n. absurd-Bool h; served = λ _. inl refl }
Reach-Progress boosts (later r s) = Step-Progress s (Reach-Inv boosts r) (Reach-Progress boosts r)

-- No task is left behind: in every state that any tasks can reach by calls of `lock` and `unlock`,
-- if nobody owns the mutex, then either no waiter is queued, or some task is on its way to it: one
-- that was woken and takes `_lock` next, or one that has `_lock` and is about to test the owner.
pub Reach-served :
    (boosts : Ptr → ℕ) {m : Mutex}
    → Reach (init boosts) m
    → m.owner ≡ null
    → (m.waitqueue ≡ []) ⊎ ((u : Ptr) × (is_on_its_way (m.places u) ≡ true))
Reach-served boosts r o = (Reach-Progress boosts r).served o
