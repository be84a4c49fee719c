-- ===== src/Threads.antt =====
-- gthread.h and gthread_impl.h, with util/function_marshall.h: the objects by which a program starts
-- its tasks and waits for them.
pub mod Handle
pub mod Copies
use gthread.Sched
use gthread.Memory.{k_light_attr}
use gthread.Outcome.{bad_function_call}
use gthread.Outcome
use gthread.Outcome.{
  Result, Exception, domain_error, logic_error, runtime_error, Fault, null_deref, uninitialised,
  assertion, spins,
}
use gthread.Task.{Task, Heap, RunState, running, suspended, stopped, waiting, is_state, has_tls}
use gthread.Effects.{
  World, Node, Rq, Machine, M, Run, ok, throw, fault, switched, bind, ◌>>=◌, ◌>>◌, unwind, guarded,
  pure, raise, modify, gets, assert, when, lift, current_of, current, task_of, load, with_task,
  store, with_node, with_rq, now_cpu, now_wall,
}
use gthread.Common.{
  ℕ, zero, suc, ◌+◌, ◌-◌, ◌*◌, ◌/◌, ◌%◌, ◌^◌, ◌≤◌, ◌<◌, ◌≡◌, refl, sym, ap, ◌∙◌, ◌≢◌, ◌⊎◌, inl, inr,
  Bool, true, false, not, ◌&&◌, ◌||◌, Option, none, some, List, [], ◌∷◌, ◌++◌, arith, ltb, leb,
  ◌==◌, if◌then◌else◌, Ptr, null, Bool-cases, length, All, All-map, count, update, update_self,
  update_ne, eq_of_==, ==-of_ne, ==_self,
}

-- `function_marshall`: a function with its arguments, and whether it was called
pub record FunctionMarshall (A B : Type 0) : Type 0 where
  pub used : Bool
  pub function : A → Result B
  pub args : A

-- the constructor of `function_marshall`
abbrev pub marshall : {A B : Type 0} → (A → Result B) → A → FunctionMarshall A B
marshall function args = record { used = false; function = function; args = args }

-- `function_marshall::operator()`: its result, and the object after it
unfoldable pub call : {A B : Type 0} → FunctionMarshall A B → Result B × FunctionMarshall A B
call m =
    if m.used
    then (Result.throw bad_function_call, m)
    else (m.function m.args, record m { used = true })

-- `g_polymorphic_start`: the object goes with the call.
unfoldable pub polymorphic_start : {A B : Type 0} → FunctionMarshall A B → Result Ptr
unfolding call
polymorphic_start closure = Outcome.◌>>=◌ (call closure).0 (λ _. Result.ok null)

-- `g::g(function, args...)`: `entry` is the address of its `g_polymorphic_start`, `closure` that of
-- the object. The result is the handle.
unfoldable pub start : Ptr → Ptr → M Ptr
start entry closure = Sched.spawn k_light_attr entry closure

-- `g::join`, with the handle that it leaves
unfoldable pub join : Ptr → M Ptr
join handle =
    if handle == null then raise logic_error else (do r ← Sched.join (some handle) false; pure r.1)

-- `g::detach`, with the handle that it leaves
unfoldable pub detach : Ptr → M Ptr
detach handle = if handle == null then pure handle else Sched.detach (some handle)

-- `g::~g`
unfoldable pub destruct : Ptr → M (Unit {0})
destruct handle = do _ ← detach handle; pure tt

-- `g::g()` and `g::operator bool`
abbrev pub no_handle : Ptr
no_handle = null

abbrev pub represents : Ptr → Bool
represents handle = not (handle == null)

-- `self::yield` and `self::sleep_for`
unfoldable pub self_yield : M (Unit {0})
self_yield = Sched.yield

unfoldable pub self_sleep_for : ℕ → M (Unit {0})
self_sleep_for duration = Sched.sleep_for duration
