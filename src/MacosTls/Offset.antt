-- ===== src/MacosTls/Offset.antt =====
-- `get_pthread_slots_offset`: how far behind the thread's own address its slots begin.
use gthread.MacosTls.{Process, pthread_self, search_self, keep_offset, get_pthread_slots_offset}
use gthread.Common.{
  ℕ, zero, suc, ◌+◌, ◌*◌, ◌<◌, ◌≡◌, refl, sym, ap, ◌∙◌, ◌≢◌, some, arith, ◌==◌, Ptr, ==-of_ne,
  ==_self,
}

-- The address of the thread stands at the word `k` of its header and at no earlier one.
pub record StandsAt (p : Process) (k : ℕ) : Type 0 where
  pub there : p.memory (pthread_self p + 8 * k) ≡ pthread_self p
  pub earlier : (j : ℕ) → j < k → p.memory (pthread_self p + 8 * j) ≢ pthread_self p

search_self-ends :
    (fuel k : ℕ) (m : Ptr → ℕ) (self word : Ptr)
    → k < fuel
    → m (word + 8 * k) ≡ self
    → ((j : ℕ) → j < k → m (word + 8 * j) ≢ self)
    → search_self fuel m self word ≡ some (word + 8 * k)
unfolding search_self
search_self-ends zero k m self word l e n = absurd (omega arith)
search_self-ends (suc fuel) zero m self word l e n =
    rw (ap (λ x. x == self) (ap m first ∙ e) ∙ ==_self self, search_self) (ap some first)
  where
    first : word ≡ word + 8 * 0
    first = omega arith
search_self-ends (suc fuel) (suc k) m self word l e n =
    rw (==-of_ne (m word) self (λ h. n 0 (omega arith) (ap m (sym first) ∙ h)), search_self)
      (search_self-ends fuel k m self (word + 8) (omega arith) (ap m (sym (next k)) ∙ e)
          (λ j b h. n (suc j) (omega arith) (ap m (next j) ∙ h))
        ∙ ap some (sym (next k)))
  where
    first : word ≡ word + 8 * 0
    first = omega arith

    next : (j : ℕ) → word + 8 * suc j ≡ word + 8 + 8 * j
    next j = omega arith

-- the process once the offset was found
abbrev pub measured : Process → ℕ → Process
measured p k = record p { pthread_t_size = 8 * k }

pub offset-kept :
    (fuel : ℕ) (p : Process)
    → p.pthread_t_size ≢ 0
    → get_pthread_slots_offset fuel p ≡ some (p.pthread_t_size, p)
unfolding get_pthread_slots_offset
offset-kept fuel p n = rw (==-of_ne p.pthread_t_size 0 n) refl

-- The first call, in a thread whose address stands at the word `k` of its header, not the first, and
-- at no earlier one, with fuel for more than `k` words: the search ends and gives the offset of that
-- word, and every later call gives the same with no search at all.
pub get_pthread_slots_offset-ends :
    (fuel k : ℕ) (p : Process)
    → p.pthread_t_size ≡ 0
    → StandsAt p k
    → k < fuel
    → 0 < k
    → (get_pthread_slots_offset fuel p ≡ some (8 * k, measured p k))
      × ((again : ℕ) → get_pthread_slots_offset again (measured p k) ≡ some (8 * k, measured p k))
unfolding get_pthread_slots_offset
get_pthread_slots_offset-ends fuel k p z s l pos = (
  rw z (
      ap (keep_offset p)
        (search_self-ends fuel k p.memory (pthread_self p) (pthread_self p) l s.there s.earlier)
      ∙ ap {A = ℕ} (λ o. some (o, record p { pthread_t_size = o })) (omega arith)),
  λ again. offset-kept again (measured p k) (omega arith),
)
