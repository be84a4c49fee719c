-- ===== src/Preempt.antt =====
-- sched/preempt.h and preempt.cc: the flag by which a task holds off its preemption, and what the
-- alarm does on each kernel thread when it rings.
pub mod Critical
pub mod Fair
use gthread.Node.{yield}
use gthread.Effects.{M, ◌>>=◌, ◌>>◌, guarded, pure, gets, assert, current, load, store}
use gthread.Common.{Bool, true, false, not, if◌then◌else◌}

-- `preempt_mutex::lock`: `compare_exchange_strong` from false to true, and its assertion
unfoldable pub lock : M (Unit {0})
lock = do
  cur ← current
  c ← load cur
  assert (not c.no_preempt_flag)
  store cur (record c { no_preempt_flag = true })

-- `preempt_mutex::unlock`
unfoldable pub unlock : M (Unit {0})
unlock = do
  cur ← current
  c ← load cur
  assert c.no_preempt_flag
  store cur (record c { no_preempt_flag = false })

-- `operator bool`
unfoldable pub is_held : M Bool
is_held = do cur ← current; c ← load cur; pure c.no_preempt_flag

-- `sched_node::current() != nullptr`
abbrev pub has_node : M Bool
has_node = gets (λ w. w.on_node w.tls_now)

-- `preempt_mutex::node`
unfoldable pub node : M (Unit {0})
node = do here ← has_node; assert here

-- a scope under `std::lock_guard<preempt_mutex>`
abbrev pub critical : {A : Type 0} → M A → M A
critical body = guarded lock unlock body

-- the trap that `enable_timer_preemption` sets
unfoldable pub trap_held : Bool → M (Unit {0})
trap_held true = pure tt
trap_held false = critical (node >> yield)

unfoldable pub trap : M (Unit {0})
unfolding trap_held is_held
trap = do here ← has_node; if not here then pure tt else (is_held >>= trap_held)
