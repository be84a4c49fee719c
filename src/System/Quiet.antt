-- ===== src/System/Quiet.antt =====
-- The step `detaches`, and other calls that leave alone all that the scheduler decides on.
use gthread.System.{System, act, detaches, after_call}
use gthread.System.Sound.{Sound}
use gthread.System.Still.{Still, stilled, Still-Sound, occupants_same, joiner_of-same}
use gthread.Sched.Detach.{Quiet, detach-Quiet}
use gthread.Effects.{World, bind, pure, task_of}
use gthread.Common.{◌≡◌, ap, ◌≢◌, none, some, Ptr, null, count}

pub Quiet-Still : (w u : World) → Quiet w u → Still w u
Quiet-Still w u m = record {
  ready = m.ready;
  same_current = m.same_current;
  here = m.here;
  awake = ap (λ k. k.rq.sleepqueue) m.node;
  queue = λ p. ap (λ k. count p k.rq.runqueue) m.node;
  occupants =
      occupants_same u w m.waiters
        (λ t. joiner_of-same (task_of u t) (task_of w t) (m.states t) (m.joiners t));
  states = m.states;
  flags = m.flags;
}

pub detaches-Sound :
    (s : System) (p : Ptr)
    → Sound s
    → p ≢ null
    → (u : System) × (after_call s null (act (detaches p) s.world) ≡ some u) × Sound u
unfolding act
detaches-Sound s p g n =
    let (w, e, m, _) = detach-Quiet s.world p g.base.ready n g.base.unflagged in
    (
      stilled s w,
      ap (λ r. after_call s null (bind r (λ _. pure none))) e,
      Still-Sound s w g (Quiet-Still s.world w m),
    )
