-- ===== src/Clock.antt =====
-- platform/clock.cc and platform/timer.h: the clock of a thread, and the timer that reports how long it
-- was held.
pub mod Elapsed
use gthread.Common.{
  ℕ, zero, suc, ◌+◌, ◌-◌, ◌*◌, ◌/◌, ◌%◌, ◌^◌, ◌≤◌, ◌<◌, ◌≡◌, refl, sym, ap, ◌∙◌, ◌≢◌, ◌⊎◌, inl, inr,
  Bool, true, false, not, ◌&&◌, ◌||◌, Option, none, some, List, [], ◌∷◌, ◌++◌, arith, ltb, leb,
  ◌==◌, if◌then◌else◌, Ptr, null, Bool-cases, length, All, All-map, count, update, modulus,
  sub_size, update_self, update_ne, eq_of_==, ==-of_ne, ==_self,
}

-- `struct timespec`
pub record Timespec : Type 0 where
  pub tv_sec : ℕ
  pub tv_nsec : ℕ

-- The end of `posix_time_from_type` and of `posix_time_resolution_from_type`: nanoseconds, on 64 bits.
abbrev pub nanoseconds : Timespec → ℕ
nanoseconds t = (t.tv_sec * 1000 * 1000 * 1000 + t.tv_nsec) % modulus

-- What the system answers about `CLOCK_THREAD_CPUTIME_ID`: its n-th reading, and its resolution.
pub record ThreadClock : Type 0 where
  pub clock_gettime : ℕ → Timespec
  pub clock_getres : Timespec

-- `thread_clock::now` and `thread_clock::resolution`
unfoldable pub now : ThreadClock → ℕ → ℕ
now c n = nanoseconds (c.clock_gettime n)

unfoldable pub resolution : ThreadClock → ℕ
resolution c = nanoseconds (c.clock_getres)

-- `timer`: `end_function` says whether there is still a function to call.
pub record Timer : Type 0 where
  pub start : ℕ
  pub end_function : Bool

-- The timers of a program by their places, how often the clock was read, and the durations reported, the
-- last one first.
pub record Timers : Type 0 where
  pub timers : Ptr → Timer
  pub reads : ℕ
  pub reports : List ℕ

-- the constructor at `t`
unfoldable pub hold : ThreadClock → Ptr → Timers → Timers
unfolding now
hold c t s = record s {
  timers = update s.timers t (record { start = now c s.reads; end_function = true });
  reads = s.reads + 1;
}

-- The move constructor at `t` from the timer at `u`: the functions are swapped.
unfoldable pub move : Ptr → Ptr → Timers → Timers
move t u s = record s {
  timers = update (update s.timers t (s.timers u)) u (record (s.timers u) { end_function = false });
}

-- `~timer`
unfoldable pub release : ThreadClock → Ptr → Timers → Timers
unfolding now
release c t s =
    if (s.timers t).end_function
    then record s {
      reads = s.reads + 1;
      reports = sub_size (now c s.reads) (s.timers t).start ∷ s.reports;
    }
    else s
