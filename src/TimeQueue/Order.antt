-- ===== src/TimeQueue/Order.antt =====
-- The queue is kept in the order of its times.
use gthread.TimeQueue.{Entry, push}
use native.Mathlib.Nat.{le_trans}
use gthread.Common.{
  ℕ, ◌+◌, ◌≤◌, ◌≡◌, refl, inl, inr, ◌&&◌, List, [], ◌∷◌, arith, ltb, ◌==◌, if◌then◌else◌, Ptr,
  Bool-cases, All, All-map,
}

-- Times do not fall from the front to the back.
abbrev pub IsOrdered : List Entry → Type 0
IsOrdered [] = Unit
IsOrdered ((k, v) ∷ q) = All (λ e. k ≤ e.0) q × IsOrdered q

-- How often a task waits for a time.
abbrev pub count_entry : ℕ → Ptr → List Entry → ℕ
count_entry k v [] = 0
count_entry k v ((k', v') ∷ q) = (if (k' == k) && (v' == v) then 1 else 0) + count_entry k v q

pub All-push :
    (P : Entry → Type 0) (r : ℕ) (u : Ptr) (q : List Entry)
    → P (r, u)
    → All P q
    → All P (push r u q)
unfolding push
All-push P r u [] p h = (p, tt)
All-push P r u ((k, v) ∷ q) p h = elim (Bool-cases (ltb r k)) [
  | inl e ↦ rw e (p, h)
  | inr e ↦ rw e (h.0, All-push P r u q p h.1)
]

pub push-IsOrdered : (r : ℕ) (u : Ptr) (q : List Entry) → IsOrdered q → IsOrdered (push r u q)
unfolding push
push-IsOrdered r u [] h = (tt, tt)
push-IsOrdered r u ((k, v) ∷ q) h = elim (Bool-cases (ltb r k)) [
  | inl e ↦
      let below : r ≤ k = ground arith in
      rw e ((below, All-map _ _ q (λ x l. le_trans below l) h.0), h)
  | inr e ↦ rw e (All-push _ r u q (ground arith) h.0, push-IsOrdered r u q h.1)
]

count-push :
    (k : ℕ) (v : Ptr) (r : ℕ) (u : Ptr) (q : List Entry)
    → count_entry k v (push r u q) ≡ count_entry k v ((r, u) ∷ q)
unfolding push
count-push k v r u [] = refl
count-push k v r u ((k', v') ∷ q) = ground (arith, count-push k v r u q)

-- `push` keeps the queue in the order of its times and adds exactly the one entry.
pub push_lem :
    (r : ℕ) (u : Ptr) (q : List Entry)
    → IsOrdered q
    → IsOrdered (push r u q)
      × ((k : ℕ) (v : Ptr) → count_entry k v (push r u q) ≡ count_entry k v ((r, u) ∷ q))
push_lem r u q h = (push-IsOrdered r u q h, λ k v. count-push k v r u q)
