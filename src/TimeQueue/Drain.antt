-- ===== src/TimeQueue/Drain.antt =====
-- The queue as a whole: what comes out of it against what was put in.
use gthread.TimeQueue.{Entry, push, pop}
use gthread.Outcome
use gthread.Outcome.{Result, ok}
use gthread.Common.{ℕ, zero, suc, List, [], ◌∷◌, ◌==◌, if◌then◌else◌, Ptr}

-- entries pushed one after the other
abbrev pub push_all : List Entry → List Entry → List Entry
push_all [] q = q
push_all ((r, u) ∷ es) q = push_all es (push r u q)

-- At most so many calls of `pop`, up to an empty queue: what they return, with the times reported.
abbrev pub pop_all : ℕ → ℕ → List Entry → Result (List Entry)
pop_all zero now q = ok []
pop_all (suc n) now [] = ok []
pop_all (suc n) now (e ∷ q) =
    Outcome.◌>>=◌ (pop now (e ∷ q))
      (λ x. Outcome.◌>>=◌ (pop_all n now x.2) (λ es. ok ((x.1, x.0) ∷ es)))

-- the tasks that wait for a time, in their order
abbrev pub at_time : ℕ → List Entry → List Ptr
at_time k [] = []
at_time k ((r, u) ∷ q) = if r == k then u ∷ at_time k q else at_time k q
