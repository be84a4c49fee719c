-- ===== src/Tls/Current.antt =====
-- The object in use by the kernel thread.
use gthread.Tls.{Cpu, use_tls, current, current_thread, set_thread}
use gthread.Common.{◌≡◌, ap, ◌∙◌, inl, inr, true, arith, Ptr, Bool-cases, update, update_self}

-- the thread pointer of the object at `this` is set
abbrev pub named : Ptr → Ptr → Cpu → Cpu
named this p c = record c { objects = update c.objects this (set_thread p (c.objects this)) }

current-use_tls : (this : Ptr) (c : Cpu) → current (use_tls this c) ≡ this
unfolding use_tls current
current-use_tls this c = elim (Bool-cases (c.objects this).did_ctype_init) [
  | inl e ↦ rw e (omega arith)
  | inr e ↦ rw e (omega arith)
]

thread-use_tls :
    (this : Ptr) (c : Cpu) → ((use_tls this c).objects this).thread ≡ (c.objects this).thread
unfolding use_tls
thread-use_tls this c = ground arith

flag-use_tls : (this : Ptr) (c : Cpu) → ((use_tls this c).objects this).did_ctype_init ≡ true
unfolding use_tls
flag-use_tls this c = ground arith

-- After `set_thread` and `use` of an object, that object is the current one and what was set is the
-- current thread. Its `__ctype_init` was called, then or before, and a second `use` calls it for no
-- object again.
pub current_thread-use_tls :
    (this p : Ptr) (c : Cpu)
    → (current (use_tls this (named this p c)) ≡ this)
      × (current_thread (use_tls this (named this p c)) ≡ p)
      × (((use_tls this (named this p c)).objects this).did_ctype_init ≡ true)
      × ((use_tls this (use_tls this (named this p c))).ctype_inits
          ≡ (use_tls this (named this p c)).ctype_inits)
unfolding current_thread
current_thread-use_tls this p c = (
  current-use_tls this (named this p c),
  ap (λ q. ((use_tls this (named this p c)).objects q).thread)
        (current-use_tls this (named this p c))
      ∙ (thread-use_tls this (named this p c)
          ∙ ap (λ t. t.thread) (update_self c.objects this (set_thread p (c.objects this)))),
  flag-use_tls this (named this p c),
  again (use_tls this (named this p c)) (flag-use_tls this (named this p c)),
)
  where
    again :
        (d : Cpu)
        → (d.objects this).did_ctype_init ≡ true
        → (use_tls this d).ctype_inits ≡ d.ctype_inits
    again d e = unfold use_tls in ground arith
