-- ===== src/Tests/Mutexes.antt =====
-- A mutex of two tasks, 100 and 200.
use gthread.Mutex.{
  claim, sleep, call_unlock, check, wake, leave, Place, Mutex, init, at, Reach, here, later,
  call_lock, enter, wait, take,
}
use gthread.Mutex.Progress.{is_on_its_way, Reach-served}
use gthread.Mutex.Exclusion.{Reach-exclusive}
use gthread.Common.{null, false, true, ◌⊎◌, ◌≡◌, refl, [], ◌∷◌, arith, Ptr, update}

-- 100 has the mutex
abbrev owned : Mutex
owned =
    record (at (at (at (init (λ _. 0)) 100 Place.entering) 100 Place.testing) 100 Place.holding) {
      owner = 100;
      boosts = update (λ _. 0) 100 0;
    }

-- and 200 waits for it
abbrev contended : Mutex
contended = record (at (at (at owned 200 Place.entering) 200 Place.testing) 200 Place.parking) {
  priority_boost = 1;
  boosts = update owned.boosts 100 1;
  waitqueue = 200 ∷ [];
}

owned-Reach : Reach (init (λ _. 0)) owned
owned-Reach =
    later
      (later (later here (call_lock {t = 100} (omega arith) refl))
        (enter {t = 100} (omega arith) refl refl))
      (take {t = 100} (omega arith) refl refl)

contended-Reach : Reach (init (λ _. 0)) contended
contended-Reach =
    later
      (later (later owned-Reach (call_lock {t = 200} (omega arith) refl))
        (enter {t = 200} (omega arith) refl refl))
      (wait {t = 200} refl (omega arith))

Reach-exclusive_example : ((◌≡◌ {A = Ptr} 100 100)) × (contended.owner ≡ 100)
Reach-exclusive_example = Reach-exclusive (λ _. 0) 100 100 contended-Reach refl refl

-- 300 waits too; 100 has unlocked, and 200 is woken
abbrev unlocked : Mutex
unlocked =
    record (at
      (at
        (at
          (at
            (at
              (at (at (at (at contended 300 Place.entering) 300 Place.testing) 300 Place.parking)
                200 Place.claimed)
              200 Place.asleep)
            100 Place.releasing)
          100 Place.deciding)
        200 Place.reentering)
      100 Place.leaving) {
        priority_boost = 2;
        boosts = update contended.boosts 100 2;
        lock = true;
        waitqueue = 200 ∷ 300 ∷ [];
      }

unlocked-Reach : Reach (init (λ _. 0)) unlocked
unlocked-Reach =
    later
      (later
        (later
          (later
            (later
              (later
                (later (later contended-Reach (call_lock {t = 300} (omega arith) refl))
                  (enter {t = 300} (omega arith) refl refl))
                (wait {t = 300} refl (omega arith)))
              (claim {t = 200} refl))
            (sleep {t = 200} refl))
          (call_unlock {t = 100} refl))
        (check {t = 100} refl refl))
      (wake {t = 100} {u = 200} (omega arith) refl refl refl refl)

-- and the mutex is free, with 300 in its queue
abbrev given_up : Mutex
given_up = record (at unlocked 100 Place.outside) {
  lock = false;
  owner = null;
  waitqueue = 300 ∷ [];
  boosts = update unlocked.boosts 100 0;
}

Reach-served_example :
    (given_up.waitqueue ≡ []) ⊎ ((u : Ptr) × (is_on_its_way (given_up.places u) ≡ true))
Reach-served_example = Reach-served (λ _. 0) (later unlocked-Reach (leave {t = 100} refl refl)) refl
