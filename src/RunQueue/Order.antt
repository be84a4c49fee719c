-- ===== src/RunQueue/Order.antt =====
-- The runqueue is kept in the order of its comparison, so that its first member has the least
-- virtual runtime, and an insertion loses and doubles nothing.
use gthread.Task.{Task}
use gthread.RunQueue.{before, emplace}
use gthread.Common.{
  ◌≤◌, ◌≡◌, refl, sym, ◌≢◌, inl, inr, true, false, List, [], ◌∷◌, arith, Ptr, Bool-cases, All,
  All-map, count, update, update_ne,
}

-- No member stands behind a greater one.
abbrev pub IsSorted : (Ptr → Task) → List Ptr → Type 0
IsSorted s [] = Unit
IsSorted s (x ∷ q) = All (λ y. before s y x ≡ false) q × IsSorted s q

pub All-emplace :
    (P : Ptr → Type 0) (s : Ptr → Task) (t : Ptr) (q : List Ptr)
    → P t
    → All P q
    → All P (emplace s t q)
unfolding emplace
All-emplace P s t [] p h = (p, tt)
All-emplace P s t (x ∷ q) p h = elim (Bool-cases (before s t x)) [
  | inl e ↦ rw e (p, h)
  | inr e ↦ rw e (h.0, All-emplace P s t q p h.1)
]

pub count-emplace :
    (s : Ptr → Task) (t a : Ptr) (q : List Ptr) → count a (emplace s t q) ≡ count a (t ∷ q)
unfolding emplace
count-emplace s t a [] = refl
count-emplace s t a (x ∷ q) = ground (arith, count-emplace s t a q)

not_before :
    (s : Ptr → Task) (t x y : Ptr)
    → before s t x ≡ true
    → before s y x ≡ false
    → before s y t ≡ false
not_before s t x y p q = ground arith

not_before_self : (s : Ptr → Task) (t x : Ptr) → before s t x ≡ true → before s x t ≡ false
not_before_self s t x p = ground arith

pub emplace-IsSorted :
    (s : Ptr → Task) (t : Ptr) (q : List Ptr) → IsSorted s q → IsSorted s (emplace s t q)
unfolding emplace
emplace-IsSorted s t [] h = (tt, tt)
emplace-IsSorted s t (x ∷ q) h = elim (Bool-cases (before s t x)) [
  | inl e ↦ rw e ((not_before_self s t x e, All-map _ _ q (λ y. not_before s t x y e) h.0), h)
  | inr e ↦ rw e (All-emplace _ s t q e h.0, emplace-IsSorted s t q h.1)
]

-- The order of a queue looks at no task outside it.
pub IsSorted-update :
    (s : Ptr → Task) (p : Ptr) (t : Task) (q : List Ptr)
    → All (λ x. x ≢ p) q
    → IsSorted s q
    → IsSorted (update s p t) q
IsSorted-update s p t [] n h = tt
IsSorted-update s p t (x ∷ q) n h = (same x q n.0 n.1 h.0, IsSorted-update s p t q n.1 h.1)
  where
    same :
        (x : Ptr) (l : List Ptr)
        → x ≢ p
        → All (λ y. y ≢ p) l
        → All (λ y. before s y x ≡ false) l
        → All (λ y. before (update s p t) y x ≡ false) l
    same x [] nx n k = tt
    same x (y ∷ l) nx n k = (
      rw (update_ne s p x t (λ e. nx (sym e)), update_ne s p y t (λ e. n.0 (sym e))) k.0,
      same x l nx n.1 k.1,
    )

pub least :
    (s : Ptr → Task) (x : Ptr) (q : List Ptr)
    → IsSorted s (x ∷ q)
    → All (λ y. (s x).vruntime ≤ (s y).vruntime) q
least s x q h = All-map _ _ q (λ y e. ground arith) h.0

-- The order of a queue looks at nothing but the virtual runtimes.
pub IsSorted-same :
    (s s' : Ptr → Task) (q : List Ptr)
    → ((p : Ptr) → (s p).vruntime ≡ (s' p).vruntime)
    → IsSorted s q
    → IsSorted s' q
IsSorted-same s s' [] e h = tt
IsSorted-same s s' (x ∷ q) e h =
    (All-map _ _ q (λ y b. rw (← e x, ← e y) b) h.0, IsSorted-same s s' q e h.1)
