-- ===== src/Mutex.antt =====
-- concur/mutex.h and mutex.cc, with concur/internal/spin_lock.h: a mutex of any number of tasks, which
-- may be interleaved wherever the spin lock `_lock` does not keep them apart. `Step` is one step of
-- one task: what a task does to the members while it holds `_lock` is one step up to the next call.
pub mod Exclusion
pub mod Progress
use gthread.Common.{
  ℕ, ◌+◌, ◌-◌, ◌≡◌, ◌≢◌, Bool, true, false, List, [], ◌∷◌, ◌++◌, Ptr, null, update,
}

-- Where a task stands.
pub data Place : Type 0 where
  outside : Place  -- in no call, without the mutex
  entering : Place  -- in `lock`, before `_lock` is taken
  testing : Place  -- at the head of the loop, with `_lock`
  parking : Place  -- in `park`, before its waiter holds it
  claimed : Place  -- before it is set to wait
  asleep : Place  -- waiting
  reentering : Place  -- woken, before `_lock` is taken again
  holding : Place  -- `lock` has returned
  releasing : Place  -- in `unlock`, before `_lock` is taken
  deciding : Place  -- in `unlock`, with `_lock`
  leaving : Place  -- the first waiter is woken, with `_lock`

-- The members of `mutex`, the `priority_boost` of each task and where it stands. A waiter of
-- `_waitqueue` is named by the task that put it there, which has no other one there.
pub record Mutex : Type 0 where
  pub lock : Bool
  pub owner : Ptr
  pub waitqueue : List Ptr
  pub priority_boost : ℕ
  pub boosts : Ptr → ℕ
  pub places : Ptr → Place

-- `mutex::mutex`
abbrev pub init : (Ptr → ℕ) → Mutex
init boosts = record {
  lock = false;
  owner = null;
  waitqueue = [];
  priority_boost = 0;
  boosts = boosts;
  places = λ _. Place.outside;
}

-- `m` with the task `t` at another place
abbrev pub at : Mutex → Ptr → Place → Mutex
at m t p = record m { places = update m.places t p }

-- One step of the task `t`. A spin that finds `_lock` taken yields and tries again, as does an
-- `unlock` whose waiter is not set to wait yet; that changes nothing.
pub data Step (m : Mutex) : Mutex → Type 0 where
  call_lock : {t : Ptr} → t ≢ null → m.places t ≡ Place.outside → Step m (at m t Place.entering)
  lock_again : {t : Ptr} → m.places t ≡ Place.holding → Step m (at m t Place.entering)
  enter :
      {t : Ptr}
      → t ≢ null
      → m.places t ≡ Place.entering
      → m.lock ≡ false
      → Step m (record (at m t Place.testing) { lock = true })
  wait :
      {t : Ptr}
      → m.places t ≡ Place.testing
      → m.owner ≢ null
      → Step m (record (at m t Place.parking) {
        lock = false;
        priority_boost = m.priority_boost + 1;
        boosts = update m.boosts m.owner (m.boosts m.owner + 1);
        waitqueue = m.waitqueue ++ (t ∷ []);
      })
  claim : {t : Ptr} → m.places t ≡ Place.parking → Step m (at m t Place.claimed)
  sleep : {t : Ptr} → m.places t ≡ Place.claimed → Step m (at m t Place.asleep)
  reenter :
      {t : Ptr}
      → t ≢ null
      → m.places t ≡ Place.reentering
      → m.lock ≡ false
      → Step m
          (record (at m t Place.testing) { lock = true; priority_boost = m.priority_boost - 1 })
  take :
      {t : Ptr}
      → t ≢ null
      → m.places t ≡ Place.testing
      → m.owner ≡ null
      → Step m (record (at m t Place.holding) {
        lock = false;
        owner = t;
        boosts = update m.boosts t m.priority_boost;
      })
  call_unlock : {t : Ptr} → m.places t ≡ Place.holding → Step m (at m t Place.releasing)
  call_unlock_outside : {t : Ptr} → m.places t ≡ Place.outside → Step m (at m t Place.releasing)
  check :
      {t : Ptr}
      → m.places t ≡ Place.releasing
      → m.lock ≡ false
      → Step m (record (at m t Place.deciding) { lock = true })
  throws :
      {t : Ptr}
      → m.places t ≡ Place.deciding
      → m.owner ≢ t
      → Step m (record (at m t Place.outside) { lock = false })
  free :
      {t : Ptr}
      → m.places t ≡ Place.deciding
      → m.owner ≡ t
      → m.waitqueue ≡ []
      → Step m (record (at m t Place.outside) { lock = false; owner = null })
  wake :
      {t u : Ptr} {q : List Ptr}
      → t ≢ null
      → m.places t ≡ Place.deciding
      → m.owner ≡ t
      → m.waitqueue ≡ u ∷ q
      → m.places u ≡ Place.asleep
      → Step m (at (at m u Place.reentering) t Place.leaving)
  leave :
      {t u : Ptr} {q : List Ptr}
      → m.places t ≡ Place.leaving
      → m.waitqueue ≡ u ∷ q
      → Step m (record (at m t Place.outside) {
        lock = false;
        owner = null;
        waitqueue = q;
        boosts = update m.boosts t 0;
      })

pub data Reach (s : Mutex) : Mutex → Type 0 where
  here : Reach s s
  later : {t u : Mutex} → Reach s t → Step t u → Reach s u
