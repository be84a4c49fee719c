-- ===== src/Lib.antt =====
-- gthread, green threads for C++: a model of the scheduler and of the primitives on top of it, and
-- what is proved of them.
--
-- The program. A task (sched/task.h) is an execution context on a stack of its own, which
-- platform/memory_linux.cc maps. Tasks that have ended are kept for reuse by
-- sched/internal/task_freelist.cc. The scheduler node of a kernel thread (sched/sched_node.cc) keeps
-- the tasks that can run ordered by virtual runtime, and those that sleep by time
-- (sched/internal/rq.cc, sched/internal/time_ordered_queue.h); its `yield` charges the current task,
-- puts it back, takes the next one and switches to it. sched/sched.cc offers spawn, join, detach, exit
-- and yield on top of the node, each in a critical section of sched/preempt.cc, whose flag holds off
-- the alarm. A waiter (concur/internal/waiter.cc) parks a task off the runqueue; the mutex
-- (concur/mutex.cc) and the channels (concur/internal/ring_buffer.h, concur/internal/channel_window.h)
-- wait on it. Thread-local storage (platform/tls.h) lies beside the stack of each task; its contents
-- come from the images that the loaded modules carry, which platform/tls_linux.cc reads.
--
-- The files.
-- - Common and Outcome: the shared helpers, on the native numbers; results and exceptions.
-- - Memory: platform/memory_linux.cc. `mmap`, `mprotect` and the page size are a parameter.
-- - Task: sched/task.cc, the record and its placement on its own stack. A pointer is a number and
--   null is 0; the memory of the tasks is a function of the address.
-- - Freelist: sched/internal/task_freelist.cc. Its mutex is held for the whole of an operation.
-- - TimeQueue and RunQueue: the multimap and the multiset as lists in order.
-- - Effects: the state of the program on its one kernel thread, `World`, and the monad `M` of what
--   runs on it. A call returns, throws, faults (a failed assertion, a null pointer, a spin that cannot
--   end) or switches: then control leaves with a world, and the value goes on as a function of the
--   world in which control comes back, which may be any. The saved registers of a task are that
--   function, so that arch/switch_to.s is not modelled as instructions.
-- - Node: sched/sched_node.cc and `task::switch_to` of sched/task_impl.h.
-- - Preempt: sched/preempt.cc. Sched: sched/sched.cc, sched/sched_impl.h, and the start and the end of
--   a task in sched/task.cc.
-- - Waiter: concur/internal/waiter.cc, on Sched and Node.
-- - Ring, Window and Mutex: concur/internal/ring_buffer.h, concur/internal/channel_window.h and
--   concur/mutex.cc as step relations, in which a task may be preempted between any two accesses of
--   shared memory that its locks allow; a property of them is an invariant of every state that steps
--   can reach.
-- - CloseWrapper: util/close_wrapper.h and the ends of a channel in concur/channel_impl.h. Wrappers
--   are places in memory; a program is a list of the constructions, moves and destructions it makes.
-- - Threads: gthread_impl.h and util/function_marshall.h, on Sched; a closure is named by its address.
-- - Clock: platform/clock.cc and platform/timer.h. The readings of the system are a parameter.
-- - System: the parts together. The tasks of a program yield, spawn, join and detach others, end,
--   park, unpark and swap at will, and the alarm rings; what a task goes on with is kept from the switch
--   that left it, and runs when control comes back. A step goes from one running task to the next.
-- - Loader and Tls: platform/tls_linux.cc. Loader finds the images in the program headers that
--   `dl_iterate_phdr` gives, which are a parameter; Tls builds, resets and frees a storage. Its
--   memory maps an address to a byte, except for the header and the vector of modules, whose contents
--   are fields of the record; where `new` puts the vector is a parameter.
-- - Alarm: platform/alarm.cc, and the arming of the timer in sched/preempt.cc.
-- - MacosMemory and MacosTls: platform/memory_macos.cc with arch/bit_twiddle.h, and
--   platform/tls_macos.cc. The Mach kernel is a parameter. The search for the slots of a thread walks
--   memory until it finds what it looks for, and has fuel; any number above that of the words before
--   it is enough.
-- - Tests: small worlds and runs, with the theorems at inputs that meet their hypotheses.
--
-- What is taken for granted. There is one kernel thread. The clocks are a sequence of readings that
-- is a parameter; time differences are on natural numbers, as the processor clock of a thread does
-- not run backwards, and virtual runtimes do not wrap round. Durations are not negative. `size_t`
-- in Ring wraps at 2 ^ 64. Every definition is structural but for that search, and where the code
-- spins on something that nobody can change on one kernel thread, the model faults. A step relation
-- leaves out the turns of a spin that change nothing. The context of the scheduler, which the first
-- call sets up (`sched_context`), is there in the calls from the start. The alignment of an image
-- is 0 or a power of two, so that the masks of platform/tls_linux.cc are remainders (`low_part`).
-- `new` of a storage's vector of modules does not fail, and its deletion is left out. A write
-- through a `_reader` that is no longer there is taken as one to `ret`. `World` keeps of a storage
-- the thread pointer and the node only; the contents are the matter of Tls. The memory that
-- MacosTls looks at is words by address; no two words overlap in part.
--
-- What is not modelled. In System, sleep_for and the exit of a task that is both joined and detached,
-- which are modelled in Sched and Node one call at a time. Logging and the macros of util; the assembly
-- of the switch; the signal that alarm_handler unblocks; tests and benchmarks.
pub mod Common
pub mod Outcome
pub mod Memory
pub mod Task
pub mod Freelist
pub mod TimeQueue
pub mod Effects
pub mod RunQueue
pub mod Node
pub mod Preempt
pub mod Sched
pub mod Tests
pub mod Waiter
pub mod Ring
pub mod Mutex
pub mod Threads
pub mod Alarm
pub mod Loader
pub mod Tls
pub mod Window
pub mod CloseWrapper
pub mod MacosTls
pub mod MacosMemory
pub mod System
pub mod Clock
