-- ===== src/Clock/Elapsed.antt =====
-- What a timer reports.
use gthread.Clock.{now, Timespec, nanoseconds, ThreadClock, Timers, hold, move, release}
use gthread.Common.{
  ℕ, ◌+◌, ◌-◌, ◌*◌, ◌^◌, ◌≤◌, ◌<◌, ◌≡◌, refl, sym, ap, ◌∙◌, ◌≢◌, ◌⊎◌, true, false, ◌∷◌, arith, Ptr,
  update, sub_size, update_self, update_ne,
}

-- two readings, the first one not after the second, of some centuries at most
pub record InOrder (a b : Timespec) : Type 0 where
  pub normal : (a.tv_nsec < 1000000000) × (b.tv_nsec < 1000000000)
  pub fits : b.tv_sec < 2 ^ 34
  pub before : (a.tv_sec < b.tv_sec) ⊎ ((a.tv_sec ≡ b.tv_sec) × (a.tv_nsec ≤ b.tv_nsec))

-- the nanoseconds from `a` to `b`
abbrev pub between : Timespec → Timespec → ℕ
between a b = b.tv_sec * 1000000000 + b.tv_nsec - (a.tv_sec * 1000000000 + a.tv_nsec)

elapsed : (a b : Timespec) → InOrder a b → sub_size (nanoseconds b) (nanoseconds a) ≡ between a b
elapsed a b o = ground (arith, o.before, o.fits, o.normal)

release-ended :
    (c : ThreadClock) (t : Ptr) (s : Timers) → (s.timers t).end_function ≡ false → release c t s ≡ s
unfolding release
release-ended c t s e = rw e refl

release-reports :
    (c : ThreadClock) (t : Ptr) (s : Timers)
    → (s.timers t).end_function ≡ true
    → (release c t s).reports ≡ sub_size (now c s.reads) (s.timers t).start ∷ s.reports
unfolding release
release-reports c t s e = rw e refl

moved_from : (t u : Ptr) (s : Timers) → ((move t u s).timers u).end_function ≡ false
unfolding move
moved_from t u s = ap (λ k. k.end_function) (update_self (update s.timers t (s.timers u)) u _)

moved_to : (t u : Ptr) (s : Timers) → t ≢ u → (move t u s).timers t ≡ s.timers u
unfolding move
moved_to t u s n =
    update_ne (update s.timers t (s.timers u)) u t _ (λ e. n (sym e))
    ∙ update_self s.timers t (s.timers u)

held :
    (c : ThreadClock) (t : Ptr) (s : Timers)
    → (hold c t s).timers t ≡ record { start = now c s.reads; end_function = true }
unfolding hold
held c t s = update_self s.timers t _

-- A timer that is made at `t`, moved to another place `u` and released at both: it reports once, at the
-- release of `u`, the nanoseconds between the two readings of the clock, if these are in order.
pub timer-reports_once :
    (c : ThreadClock) (t u : Ptr) (s : Timers)
    → t ≢ u
    → InOrder (c.clock_gettime s.reads) (c.clock_gettime (s.reads + 1))
    → (release c u (release c t (move u t (hold c t s)))).reports
      ≡ (between (c.clock_gettime s.reads) (c.clock_gettime (s.reads + 1))) ∷ s.reports
unfolding hold move now
timer-reports_once c t u s n o =
    let at = moved_to u t (hold c t s) (λ e. n (sym e)) ∙ held c t s in
    ap (λ v. (release c u v).reports)
      (release-ended c t (move u t (hold c t s)) (moved_from u t (hold c t s)))
    ∙ release-reports c u (move u t (hold c t s)) (ap (λ k. k.end_function) at)
    ∙ ap (λ k. sub_size (now c (s.reads + 1)) k ∷ s.reports) (ap (λ k. k.start) at)
    ∙ ap (λ d. d ∷ s.reports) (elapsed (c.clock_gettime s.reads) (c.clock_gettime (s.reads + 1)) o)
