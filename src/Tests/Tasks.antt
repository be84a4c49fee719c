-- ===== src/Tests/Tasks.antt =====
-- Stacks, tasks and the list of free tasks.
use gthread.Memory.{Os, Attr, k_default_attr, k_light_attr, max_word, allocate_stack, total_of}
use gthread.Memory.Stack.{allocate_stack_misses_failure}
use gthread.Task.{create, destroy, host_task, reset}
use gthread.Task.Layout.{IsLaidOut, create-IsLaidOut}
use gthread.Freelist.{Freelist, make_task, return_task, fits}
use gthread.Freelist.Insert.{IsValid, return_task_lem}
use gthread.Freelist.Reuse.{Found, make_task_lem, make_task-never_reuses}
use gthread.Tests.Worlds.{os, sizes, heap, tasks}
use gthread.Outcome
use gthread.Outcome.{
  Result, Exception, domain_error, logic_error, runtime_error, Fault, null_deref, uninitialised,
  assertion, spins,
}
use gthread.Task.{Heap, stopped}
use gthread.Common.{
  ◌<◌, ◌≡◌, refl, ◌≢◌, ◌⊎◌, true, false, some, List, [], ◌∷◌, arith, Ptr, null, length, All, count,
  update,
}

abbrev unguarded : Attr
unguarded = record k_light_attr { guardsize = 0 }

-- a system without memory
abbrev exhausted : Os
exhausted = record os { mmap = λ n size. max_word }

allocate_stack_misses_failure_example :
    allocate_stack exhausted 0 unguarded
    ≡ record { success = true; stack = some 4194303; total = some 4194304 }
allocate_stack_misses_failure_example =
    allocate_stack_misses_failure exhausted 0 unguarded refl refl (omega arith) (omega arith) refl

create-IsLaidOut_example :
    (p : Ptr) × (h' : Heap) × (create os sizes k_default_attr heap ≡ Result.ok (p, h'))
    × IsLaidOut sizes k_default_attr (os.mmap 2 (total_of k_default_attr)) p (h'.tasks p)
    × ((h'.tasks p).run_state ≡ stopped)
    × ((h'.tasks p).total_stack_size ≡ 4202496)
    × ((q : Ptr) → p ≢ q → h'.tasks q ≡ tasks q)
create-IsLaidOut_example = create-IsLaidOut os sizes k_default_attr heap (record {
  own = refl;
  room = omega arith;
  fits = omega arith;
  mapped = omega arith;
  below_end = omega arith;
  protected = refl;
})

-- a stack that the user provides
abbrev provided : Attr
provided = record k_light_attr { addr = 8192 }

-- 200 and 300 are free
abbrev two_free : Freelist
two_free = record { list = 200 ∷ 300 ∷ []; max_size = 3 }

return_task_lem_example :
    let (f', h') = return_task 100 two_free heap in
    IsValid tasks f'
    × (((length two_free.list < 3)
          × ((a : Ptr) → count a f'.list ≡ count a (100 ∷ 200 ∷ 300 ∷ []))
          × (h' ≡ heap))
        ⊎ ((length two_free.list ≡ 3) × (f' ≡ two_free) × (h' ≡ destroy 100 heap)))
return_task_lem_example = return_task_lem 100 two_free heap (omega arith) (record {
  bounded = omega arith;
  ordered = ((λ q. refl, tt), (tt, tt));
  live = (omega arith, (omega arith, tt));
})

-- the attributes that the task at 300 fits
abbrev small : Attr
small = record { addr = null; size = 4096; guardsize = 0; alloc_tls = false }

make_task_lem_example :
    ((t : Ptr) × (rest : List Ptr) × Found tasks small two_free.list t rest
      × (make_task os sizes small two_free heap
          ≡ Result.ok (
            t,
            record two_free { list = rest },
            record heap { tasks = update tasks t (reset (tasks t)) },
          )))
    ⊎ (All (λ i. fits small (tasks i) ≡ false) two_free.list
        × (make_task os sizes small two_free heap
            ≡ Outcome.◌>>=◌ (create os sizes small heap) (λ r. Result.ok (r.0, two_free, r.1))))
make_task_lem_example = make_task_lem os sizes small two_free heap (omega arith, (omega arith, tt))

-- 100, as `create` makes it from the default attributes, is free
abbrev made_default : Heap
made_default = record heap {
  tasks = update tasks 100 (record host_task { tls = 7; total_stack_size = 4202496 });
}

abbrev one_free : Freelist
one_free = record { list = 100 ∷ []; max_size = 64 }

make_task-never_reuses_example :
    make_task os sizes k_default_attr one_free made_default
    ≡ Outcome.◌>>=◌
        (create os sizes k_default_attr made_default)
        (λ r. Result.ok (r.0, one_free, r.1))
make_task-never_reuses_example =
    make_task-never_reuses os sizes k_default_attr one_free made_default (omega arith) (refl, tt)
