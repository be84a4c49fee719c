-- ===== src/TimeQueue.antt =====
-- sched/internal/time_ordered_queue{.h,_impl.h} at `T = task*`: the `std::multimap` is its entries
-- in order, where `emplace` puts an entry behind those of the same key.
pub mod Order
pub mod Drain
use gthread.Outcome.{Result, ok, fault, null_deref}
use gthread.Common.{
  ℕ, zero, suc, ◌+◌, ◌-◌, ◌*◌, ◌/◌, ◌%◌, ◌^◌, ◌≤◌, ◌<◌, ◌≡◌, refl, sym, ap, ◌∙◌, ◌≢◌, ◌⊎◌, inl, inr,
  Bool, true, false, not, ◌&&◌, ◌||◌, Option, none, some, List, [], ◌∷◌, ◌++◌, arith, ltb, leb,
  ◌==◌, if◌then◌else◌, Ptr, null, Bool-cases, length, All, All-map, count, update, update_self,
  update_ne, eq_of_==, ==-of_ne, ==_self,
}

abbrev pub Entry : Type 0
Entry = ℕ × Ptr

unfoldable pub push : ℕ → Ptr → List Entry → List Entry
push ripe u [] = (ripe, u) ∷ []
push ripe u ((k, v) ∷ q) = if ltb ripe k then (ripe, u) ∷ (k, v) ∷ q else (k, v) ∷ push ripe u q

-- What is returned, what is written through `ripe`, and the queue; `begin()` of an empty map may
-- not be read.
unfoldable pub pop : ℕ → List Entry → Result (Ptr × ℕ × List Entry)
pop now [] = fault null_deref
pop now ((k, v) ∷ q) = if leb now k then ok (v, k, q) else ok (null, k, (k, v) ∷ q)

unfoldable pub is_empty : List Entry → Bool
is_empty [] = true
is_empty (e ∷ q) = false
