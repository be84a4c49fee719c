-- ===== src/Alarm/Interval.antt =====
-- The interval of the alarm, and what turning preemption on and off leaves.
use gthread.Outcome.{Result}
use gthread.Alarm.{
  Alarm, Duration, Itimerval, preempt, microseconds, itimerval_of, set_interval, set_interval_impl,
  set_interval_internal, enable_timer_preemption, disable_timer_preemption, clear_interval, arm,
  set_trap, unset,
}
use gthread.Common.{◌+◌, ◌*◌, ◌<◌, ◌≡◌, refl, Bool, true, false, some, arith}

-- `set_interval` of a duration that the system accepts: the timer is told this many microseconds,
-- for the first ring and for the next ones, as seconds and microseconds that stay below a second,
-- and from these the interval is read back. Nothing else changes.
pub set_interval-roundtrip :
    (fails : Itimerval → Bool) (d : Duration) (a : Alarm)
    → fails (itimerval_of (microseconds d)) ≡ false
    → (v : Itimerval) × (set_interval fails d a
        ≡ Result.ok (record a { timer = some v; interval = microseconds d }))
      × (v.it_value ≡ v.it_interval)
      × (v.it_value.tv_usec < 1_000_000)
      × (v.it_value.tv_sec * 1_000_000 + v.it_value.tv_usec ≡ microseconds d)
unfolding set_interval set_interval_impl set_interval_internal
set_interval-roundtrip fails d a e =
    (itimerval_of (microseconds d), rw e refl, refl, omega arith, omega arith)

-- Preemption is turned on, off, and on again, on a system that accepts every interval, from an
-- alarm that is unset: the trap is set and its handler installed once, the timer rings every 50 ms
-- while preemption is on, and is stopped, with the trap kept, while it is off.
pub enable-disable-enable :
    (fails : Itimerval → Bool)
    → ((v : Itimerval) → fails v ≡ false)
    → (on off : Alarm) × (enable_timer_preemption fails unset ≡ Result.ok on)
      × (disable_timer_preemption fails on ≡ Result.ok off)
      × (enable_timer_preemption fails off ≡ Result.ok on)
      × (on.trap ≡ preempt)
      × (on.installed ≡ 1)
      × (on.interval ≡ 50_000)
      × (off.timer ≡ some (itimerval_of 0))
      × (off.trap ≡ preempt)
unfolding enable_timer_preemption disable_timer_preemption clear_interval set_interval
    set_interval_impl set_interval_internal arm set_trap
enable-disable-enable fails accepts = (
  record {
    trap = preempt;
    interval = 50_000;
    armed = true;
    timer = some (itimerval_of 50_000);
    installed = 1;
  },
  record {
    trap = preempt;
    interval = 0;
    armed = true;
    timer = some (itimerval_of 0);
    installed = 1;
  },
  rw (accepts (itimerval_of 50_000)) refl,
  rw (accepts (itimerval_of 0)) refl,
  rw (accepts (itimerval_of 50_000)) refl,
  refl,
  refl,
  refl,
  refl,
  refl,
)
