-- ===== src/Tests/Macos.antt =====
-- A thread and a kernel of macOS.
use gthread.MacosTls.{
  Process, get_pthread_slots_offset, construct, set_thread, use_storage, postfix_bytes, reset,
  destruct, get_thread, slot_at, sizeof_tls, k_num_slots, k_num_copied_slots, k_num_freed_slots,
}
use gthread.MacosTls.Offset.{StandsAt, measured, get_pthread_slots_offset-ends}
use gthread.MacosTls.Fresh.{Runs, construct-Runs}
use gthread.MacosTls.Reset.{held, reset-frees_all}
use gthread.MacosMemory
use gthread.MacosMemory.{Mach, right_mask}
use gthread.MacosMemory.Ports.{Alike, Compares, allocate_stack-Compares}
use gthread.Memory
use gthread.Memory.{k_light_attr}
use gthread.Tests.Worlds.{os}
use gthread.Common.{
  ℕ, ◌+◌, ◌*◌, ◌≤◌, ◌<◌, ◌≡◌, ◌≢◌, ◌⊎◌, refl, false, none, some, [], arith, Ptr, null, count,
  update,
}

-- a thread at 4096 with a header of two words and an empty storage behind it
abbrev thread : Process
thread = record { memory = update (λ _. 5) 4112 4096; gs = 4112; pthread_t_size = 0; freed = [] }

thread-StandsAt : StandsAt thread 2
thread-StandsAt = record { there = refl; earlier = λ j l. ground arith }

get_pthread_slots_offset-ends_example :
    (get_pthread_slots_offset 10 thread ≡ some (16, measured thread 2))
    × ((again : ℕ)
        → get_pthread_slots_offset again (measured thread 2) ≡ some (16, measured thread 2))
get_pthread_slots_offset-ends_example =
    get_pthread_slots_offset-ends 10 2 thread refl thread-StandsAt (omega arith) (omega arith)

construct-Runs_example :
    (u : Process) × (v : Process) × (w : Process) × (construct 10 9000 (measured thread 2) ≡ some u)
    × (set_thread 10 9000 300 u ≡ some v)
    × (use_storage 10 9000 v ≡ some w)
    × (postfix_bytes 10 (measured thread 2) ≡ some (sizeof_tls + k_num_slots * 8 + 8 * 2))
    × Runs (measured thread 2) 9000 300 2 w
construct-Runs_example =
    construct-Runs 10 (measured thread 2) 9000 300 2 refl (omega arith) (λ k l x y. omega arith)

-- the slot 300 of the storage at 9000 holds 7000
abbrev busy_storage : Process
busy_storage = record thread { memory = update (λ _. 0) 11417 7000; pthread_t_size = 16 }

reset-frees_all_example :
    (v : Process) × (reset 10 9000 busy_storage ≡ some v)
    × ((a : Ptr)
        → ◌≢◌ {A = Ptr} a null
        → count a v.freed
          ≡ 0 + held k_num_freed_slots k_num_copied_slots 9017 (update (λ _. 0) 11417 7000) a)
    × ((j : ℕ) → k_num_copied_slots ≤ j → j < k_num_slots → v.memory (slot_at 9017 j) ≡ null)
    × ((a : Ptr)
        → (a < slot_at 9017 k_num_copied_slots) ⊎ (slot_at 9017 k_num_slots ≤ a)
        → v.memory a ≡ update (λ _. 0) 11417 7000 a)
    × (get_thread 10 9000 v ≡ get_thread 10 9000 busy_storage)
    × (reset 10 9000 v ≡ some v)
    × (destruct 10 9000 v ≡ some v)
reset-frees_all_example = reset-frees_all 10 busy_storage 9000 (omega arith)

-- a kernel on which only the fallback succeeds, with the addresses that `os` gives
abbrev mach : Mach
mach = record {
  vm_page_size = 4096;
  mach_vm_map = λ n size mask. none;
  mach_vm_allocate = λ n size. some (65536 + 16777216 * n);
  mach_vm_protect_fails = λ p size. false;
}

mach-Alike : Alike os mach 0 k_light_attr
mach-Alike = record { page = refl; mapped = refl; some_place = omega arith; guarded = λ p h. refl }

allocate_stack-Compares_example :
    Compares os mach 0 k_light_attr
      (MacosMemory.allocate_stack mach 0 k_light_attr)
      (Memory.allocate_stack os 0 k_light_attr)
allocate_stack-Compares_example = allocate_stack-Compares os mach 0 k_light_attr mach-Alike
