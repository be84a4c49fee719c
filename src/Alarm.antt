-- ===== src/Alarm.antt =====
-- platform/alarm.h, alarm_impl.h and alarm.cc, with the arming of the alarm in sched/preempt.cc: the
-- timer signal that rings at an interval, and the trap that it springs.
pub mod Interval
use gthread.Outcome
use gthread.Outcome.{Result, system_error}
use gthread.Effects.{M, pure}
use gthread.Common.{
  ℕ, zero, suc, ◌+◌, ◌-◌, ◌*◌, ◌/◌, ◌%◌, ◌^◌, ◌≤◌, ◌<◌, ◌≡◌, refl, sym, ap, ◌∙◌, ◌≢◌, ◌⊎◌, inl, inr,
  Bool, true, false, not, ◌&&◌, ◌||◌, Option, none, some, List, [], ◌∷◌, ◌++◌, arith, ltb, leb,
  ◌==◌, if◌then◌else◌, Ptr, null, Bool-cases, length, All, All-map, count, update, modulus,
  sub_size, update_self, update_ne, eq_of_==, ==-of_ne, ==_self,
}

-- `std::chrono::duration`: a count of ticks of num / den seconds
pub record Duration : Type 0 where
  pub ticks : ℕ
  pub num : ℕ
  pub den : ℕ

-- `std::chrono::duration_cast<std::chrono::microseconds>`
abbrev pub microseconds : Duration → ℕ
microseconds d = d.ticks * d.num * 1_000_000 / d.den

-- `std::chrono::milliseconds`
abbrev pub milliseconds : ℕ → Duration
milliseconds n = record { ticks = n; num = 1; den = 1000 }

-- `struct timeval` and `struct itimerval`
pub record Timeval : Type 0 where
  pub tv_sec : ℕ
  pub tv_usec : ℕ

pub record Itimerval : Type 0 where
  pub it_value : Timeval
  pub it_interval : Timeval

-- What the alarm may do when it rings: nothing yet, or the trap of `enable_timer_preemption`.
pub data Trap : Type 0 where
  no_trap preempt : Trap

abbrev pub is_set : Trap → Bool
is_set no_trap = false
is_set preempt = true

-- The static members of `alarm` and the flag `g_alarm_armed`, with what the system was told: the
-- timer, and how often the handler was installed.
pub record Alarm : Type 0 where
  pub trap : Trap
  pub interval : ℕ
  pub armed : Bool
  pub timer : Option Itimerval
  pub installed : ℕ

-- the argument of `setitimer` in `set_interval_internal`
abbrev pub itimerval_of : ℕ → Itimerval
itimerval_of usec = record {
  it_value = record { tv_sec = usec / 1_000_000; tv_usec = usec % 1_000_000 };
  it_interval = record { tv_sec = usec / 1_000_000; tv_usec = usec % 1_000_000 };
}

-- `set_interval_internal`; `fails` says of which values `setitimer` is refused.
unfoldable pub set_interval_internal : (Itimerval → Bool) → ℕ → Alarm → Result Alarm
set_interval_internal fails usec a =
    if fails (itimerval_of usec)
    then Result.throw system_error
    else Result.ok (record a { timer = some (itimerval_of usec) })

-- `alarm::set_interval_impl`
unfoldable pub set_interval_impl : (Itimerval → Bool) → ℕ → Alarm → Result Alarm
unfolding set_interval_internal
set_interval_impl fails usec a =
    Outcome.◌>>=◌ {A = Alarm} (set_interval_internal fails usec a)
      (λ b. Result.ok (record b { interval = usec }))

-- `alarm::set_interval`
unfoldable pub set_interval : (Itimerval → Bool) → Duration → Alarm → Result Alarm
unfolding set_interval_impl
set_interval fails d a = set_interval_impl fails (microseconds d) a

-- `alarm::clear_interval`
unfoldable pub clear_interval : (Itimerval → Bool) → Alarm → Result Alarm
unfolding set_interval_impl
clear_interval fails a = set_interval_impl fails 0 a

-- `alarm::set_signal`
abbrev pub set_signal : Alarm → Alarm
set_signal a = record a { installed = a.installed + 1 }

-- `alarm::set_trap`
unfoldable pub set_trap : Trap → Alarm → Alarm
set_trap f a =
    if not (is_set a.trap) then set_signal (record a { trap = f }) else record a { trap = f }

-- `preempt_interval`
abbrev pub preempt_interval : Duration
preempt_interval = milliseconds 50

-- the block of `enable_timer_preemption` under `test_and_set`
unfoldable pub arm : Alarm → Alarm
unfolding set_trap
arm a = if a.armed then a else set_trap preempt (record a { armed = true })

-- `enable_timer_preemption`
unfoldable pub enable_timer_preemption : (Itimerval → Bool) → Alarm → Result Alarm
unfolding arm set_interval
enable_timer_preemption fails a = set_interval fails preempt_interval (arm a)

-- `disable_timer_preemption`
unfoldable pub disable_timer_preemption : (Itimerval → Bool) → Alarm → Result Alarm
unfolding clear_interval
disable_timer_preemption fails a = clear_interval fails a

-- `alarm::alarm_handler`, with the trap as a computation on the state of the program
abbrev pub alarm_handler : Alarm → M (Unit {0}) → M (Unit {0})
alarm_handler a trap = if is_set a.trap then trap else pure tt

-- the alarm before `main`
abbrev pub unset : Alarm
unset = record { trap = no_trap; interval = 0; armed = false; timer = none; installed = 0 }
