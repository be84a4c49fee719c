-- ===== src/RunQueue/Pop.antt =====
-- What `rq::pop` does in each situation: with tasks to run and no sleepers, with nothing to do, and
-- with sleepers.
use gthread.TimeQueue.{Entry}
use gthread.RunQueue.{refill, emplace, push, pop, with_runqueue, with_sleepqueue, take_first}
use gthread.Outcome.{runtime_error, null_deref, assertion}
use gthread.Effects.{
  World, M, ok, throw, fault, bind, ◌>>=◌, ◌>>◌, assert, task_of, with_rq, now_wall,
}
use gthread.Common.{
  ℕ, max, ◌+◌, ◌≤◌, ◌<◌, ◌≡◌, refl, ap, ◌∙◌, ◌≢◌, ◌⊎◌, inl, inr, List, [], ◌∷◌, arith, leb, Ptr,
  null,
}

-- the world after the first member `x` was taken off, leaving `q`
abbrev pub taken : World → Ptr → List Ptr → World
taken w x q = with_rq w (record (w.node.rq) {
  runqueue = q;
  min_vruntime = max w.node.rq.min_vruntime (task_of w x).vruntime;
})

pub take_first_lem :
    (w : World) (x : Ptr) (q : List Ptr)
    → w.node.rq.runqueue ≡ x ∷ q
    → x ≢ null
    → take_first w ≡ ok x (taken w x q)
unfolding take_first
take_first_lem w x q e n = ground arith

refill-runnable :
    (idle : ℕ → M (Unit {0})) (w : World) (x : Ptr) (q : List Ptr)
    → w.node.rq.sleepqueue ≡ []
    → w.node.rq.runqueue ≡ x ∷ q
    → refill idle w ≡ ok tt w
unfolding refill
refill-runnable idle w x q s e = ground arith

pub pop-runnable :
    (idle : ℕ → M (Unit {0})) (w : World) (x : Ptr) (q : List Ptr)
    → w.node.rq.sleepqueue ≡ []
    → w.node.rq.runqueue ≡ x ∷ q
    → x ≢ null
    → pop idle w ≡ ok x (taken w x q)
unfolding pop
pop-runnable idle w x q s e n =
    ap (λ r. bind r (λ _. take_first)) (refill-runnable idle w x q s e) ∙ take_first_lem w x q e n

-- With nothing to run and nothing asleep, `rq::pop` reports the deadlock.
pub pop-deadlock :
    (idle : ℕ → M (Unit {0})) (w : World)
    → w.node.rq.sleepqueue ≡ []
    → w.node.rq.runqueue ≡ []
    → pop idle w ≡ throw runtime_error w
unfolding pop refill
pop-deadlock idle w s e = ground arith

-- the world after one more reading of the clock
abbrev pub ticked : World → World
ticked w = record w { reads = w.reads + 1 }

-- a sleeper taken off its queue and put on the runqueue
abbrev pub woken : World → Ptr → List Entry → World
woken w v rest =
    let w' = with_sleepqueue (ticked w) rest in
    with_runqueue w' (emplace w.heap.tasks v w.node.rq.runqueue)

refill-wakes :
    (idle : ℕ → M (Unit {0})) (w : World) (k : ℕ) (v : Ptr) (rest : List Entry)
    → w.node.rq.sleepqueue ≡ (k, v) ∷ rest
    → w.machine.wall w.reads ≤ k
    → v ≢ null
    → refill idle w ≡ ok tt (woken w v rest)
unfolding refill
refill-wakes idle w k v rest e l n = ground arith

refill-late :
    (idle : ℕ → M (Unit {0})) (w : World) (k : ℕ) (v x : Ptr) (rest : List Entry) (q : List Ptr)
    → w.node.rq.sleepqueue ≡ (k, v) ∷ rest
    → k < w.machine.wall w.reads
    → w.node.rq.runqueue ≡ x ∷ q
    → refill idle w ≡ ok tt (ticked w)
unfolding refill
refill-late idle w k v x rest q e l r = ground arith

pop-wakes :
    (idle : ℕ → M (Unit {0})) (w : World) (k : ℕ) (v x : Ptr) (rest : List Entry) (q : List Ptr)
    → w.node.rq.sleepqueue ≡ (k, v) ∷ rest
    → w.machine.wall w.reads ≤ k
    → v ≢ null
    → emplace w.heap.tasks v w.node.rq.runqueue ≡ x ∷ q
    → x ≢ null
    → pop idle w ≡ ok x (taken (woken w v rest) x q)
unfolding pop
pop-wakes idle w k v x rest q e l n f nx =
    ap (λ r. bind r (λ _. take_first)) (refill-wakes idle w k v rest e l n)
    ∙ take_first_lem (woken w v rest) x q f nx

-- A task that sleeps alone is resumed before its time: if the runqueue is empty and the earliest
-- sleeper's time has not come, `rq::pop` returns that sleeper at once, and calls no idle thunk.
pub pop-wakes_early :
    (idle : ℕ → M (Unit {0})) (w : World) (k : ℕ) (v : Ptr) (rest : List Entry)
    → w.node.rq.sleepqueue ≡ (k, v) ∷ rest
    → w.machine.wall w.reads ≤ k
    → w.node.rq.runqueue ≡ []
    → v ≢ null
    → pop idle w ≡ ok v (taken (with_sleepqueue (ticked w) rest) v [])
unfolding emplace
pop-wakes_early idle w k v rest e l r n = pop-wakes idle w k v v rest [] e l n (rw r) n

-- what follows the idle thunk when the earliest sleeper was due at `k`
abbrev idled : ℕ → M (Unit {0})
idled k = now_wall >>= λ now. assert (leb k now) >> push null

refill-idles :
    (idle : ℕ → M (Unit {0})) (w : World) (k : ℕ) (v : Ptr) (rest : List Entry)
    → w.node.rq.sleepqueue ≡ (k, v) ∷ rest
    → k < w.machine.wall w.reads
    → w.node.rq.runqueue ≡ []
    → refill idle w ≡ (idle k >> idled k) (ticked w)
unfolding refill
refill-idles idle w k v rest e l r = ground arith

idled-pushes_null :
    (w : World) (k : ℕ)
    → w.node.rq.runqueue ≡ []
    → (idled k w ≡ fault assertion) ⊎ (idled k w ≡ ok tt (with_runqueue (ticked w) (null ∷ [])))
unfolding push emplace
idled-pushes_null w k r = ground arith

take_first-null :
    (w : World) (q : List Ptr) → w.node.rq.runqueue ≡ null ∷ q → take_first w ≡ fault null_deref
unfolding take_first
take_first-null w q e = ground arith

-- A task that sleeps alone and is late is lost, and the program with it: if the runqueue is empty
-- and the earliest sleeper's time has passed, then after any idle thunk that returns and leaves the
-- runqueue empty `rq::pop` fails its assertion or reads a null task.
pub pop-late_crash :
    (idle : ℕ → M (Unit {0})) (w w' : World) (k : ℕ) (v : Ptr) (rest : List Entry)
    → w.node.rq.sleepqueue ≡ (k, v) ∷ rest
    → k < w.machine.wall w.reads
    → w.node.rq.runqueue ≡ []
    → idle k (ticked w) ≡ ok tt w'
    → w'.node.rq.runqueue ≡ []
    → (pop idle w ≡ fault assertion) ⊎ (pop idle w ≡ fault null_deref)
unfolding pop
pop-late_crash idle w w' k v rest e l r i r' = elim (idled-pushes_null w' k r') [
  | inl a ↦ inl (rw (refill-idles idle w k v rest e l r, i, a))
  | inr b ↦ inr (
      rw (refill-idles idle w k v rest e l r, i, b)
        (take_first-null (with_runqueue (ticked w') (null ∷ [])) [] refl))
]
