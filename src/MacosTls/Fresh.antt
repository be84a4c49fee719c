-- ===== src/MacosTls/Fresh.antt =====
-- A new storage: `tls::tls`, then `set_thread` and `use`, and what `current`, `current_thread` and
-- `get_thread` give.
use mathlib.Core.Option
use native.Mathlib.Decide.{ℕ_discrete}
use gthread.MacosTls.{
  construct, current, current_thread, sizeof_tls, postfix_bytes, prefix_bytes, get_thread,
  use_storage, current_thread, set_thread, Process, pthread_self, copy_words, zero_words,
  initialise, after, write, slot_at, k_thread_slot_a, k_num_slots, with_slots, at_offset,
}
use gthread.MacosTls.Offset.{offset-kept}
use gthread.Common.{
  ℕ, zero, suc, ◌+◌, ◌-◌, ◌*◌, ◌/◌, ◌≤◌, ◌<◌, ◌≡◌, refl, sym, ap, ◌∙◌, ◌≢◌, ◌⊎◌, inl, some, arith,
  Ptr, update, update_self, update_ne,
}

zero_words_ne :
    (n i : ℕ) (to a : Ptr) (m : Ptr → ℕ)
    → (a < to + 8 * i) ⊎ (to + 8 * (i + n) ≤ a)
    → zero_words n i to m a ≡ m a
unfolding zero_words
zero_words_ne zero i to a m h = refl
zero_words_ne (suc n) i to a m h =
    zero_words_ne n (suc i) to a (update m (to + 8 * i) 0) (ground (arith, h))
    ∙ update_ne m (to + 8 * i) a 0 (λ e. ground (arith, h))

zero_words-zero :
    (n i j : ℕ) (to : Ptr) (m : Ptr → ℕ) → i ≤ j → j < i + n → zero_words n i to m (to + 8 * j) ≡ 0
unfolding zero_words
zero_words-zero zero i j to m b l = absurd (omega arith)
zero_words-zero (suc n) i j to m b l = elim (ℕ_discrete i j) [
  | yes e ↦
      zero_words_ne n (suc i) to (to + 8 * j) (update m (to + 8 * i) 0) (inl (omega arith))
      ∙ ap (λ k. update m (to + 8 * i) 0 (to + 8 * k)) (sym e)
      ∙ update_self m (to + 8 * i) 0
  | no d ↦ zero_words-zero n (suc i) j to (update m (to + 8 * i) 0) (omega arith) (omega arith)
]

copy_words_ne :
    (n i : ℕ) (to from a : Ptr) (m : Ptr → ℕ)
    → (a < to + 8 * i) ⊎ (to + 8 * (i + n) ≤ a)
    → copy_words n i to from m a ≡ m a
unfolding copy_words
copy_words_ne zero i to from a m h = refl
copy_words_ne (suc n) i to from a m h =
    copy_words_ne n (suc i) to from a (update m (to + 8 * i) (m (from + 8 * i))) (ground (arith, h))
    ∙ update_ne m (to + 8 * i) a _ (λ e. ground (arith, h))

copy_words-copied :
    (n i j : ℕ) (to from : Ptr) (m : Ptr → ℕ)
    → i ≤ j
    → j < i + n
    → ((k l : ℕ) → k < i + n → l < i + n → to + 8 * k ≢ from + 8 * l)
    → copy_words n i to from m (to + 8 * j) ≡ m (from + 8 * j)
unfolding copy_words
copy_words-copied zero i j to from m b l d = absurd (omega arith)
copy_words-copied (suc n) i j to from m b l d =
    let m' = update m (to + 8 * i) (m (from + 8 * i)) in
    elim (ℕ_discrete i j) [
      | yes e ↦
          copy_words_ne n (suc i) to from (to + 8 * j) m' (inl (omega arith))
          ∙ ap (λ k. m' (to + 8 * k)) (sym e)
          ∙ update_self m (to + 8 * i) _
          ∙ ap (λ k. m (from + 8 * k)) e
      | no c ↦
          copy_words-copied n (suc i) j to from m' (omega arith) (omega arith)
            (λ k o x y. d k o (omega arith) (omega arith))
          ∙ update_ne m (to + 8 * i) (from + 8 * j) _ (d i j (omega arith) l)
    ]

-- the process in which the storage at `t` was made, and that in which it is in use by `thread`
abbrev pub made : Process → Ptr → Process
made p t = initialise t (after t + p.pthread_t_size) p

abbrev pub set : Process → Ptr → Ptr → Process
set p t thread = write (slot_at (after t + p.pthread_t_size) k_thread_slot_a) thread p

abbrev pub in_use : Process → Ptr → Process
in_use p t = record p { gs = after t + p.pthread_t_size }

pub with_slots_lem :
    {A : Type 0} (fuel : ℕ) (t : Ptr) (p : Process) (f : Ptr → Process → A)
    → p.pthread_t_size ≢ 0
    → with_slots fuel t p f ≡ some (f (after t + p.pthread_t_size) p)
with_slots_lem fuel t p f n = ap (λ o. at_offset t o f) (offset-kept fuel p n)

-- the memory once the storage is in use
abbrev pub final : Process → Ptr → Ptr → Process
final p t thread = in_use (set (made p t) t thread) t

-- its slots
abbrev pub slots_of : Process → Ptr → Ptr
slots_of p t = after t + p.pthread_t_size

-- the memory of which the first slot and that of the thread are still to be set
abbrev blank : Process → Ptr → Ptr → ℕ
blank p t =
    zero_words k_num_slots 0 (slots_of p t)
      (copy_words (p.pthread_t_size / 8) 0 (after t) (pthread_self p) p.memory)

-- a storage with a header of `h` words
module _ (p : Process) (t thread : Ptr) (h : ℕ) (size : p.pthread_t_size ≡ 8 * h) where
  final-other :
      (a : Ptr)
      → a ≢ slot_at (slots_of p t) 0
      → a ≢ slot_at (slots_of p t) k_thread_slot_a
      → (final p t thread).memory a ≡ blank p t a
  unfolding initialise
  final-other a n m =
      update_ne (made p t).memory (slot_at (slots_of p t) k_thread_slot_a) a thread (λ e. m (sym e))
      ∙ update_ne (blank p t) (slot_at (slots_of p t) 0) a (after t) (λ e. n (sym e))

  final-outside :
      (a : Ptr)
      → (a < after t) ⊎ (slots_of p t + 8 * k_num_slots ≤ a)
      → (final p t thread).memory a ≡ p.memory a
  final-outside a o =
      final-other a (λ e. ground (arith, o)) (λ e. ground (arith, o))
      ∙ zero_words_ne k_num_slots 0 (slots_of p t) a
          (copy_words (p.pthread_t_size / 8) 0 (after t) (pthread_self p) p.memory)
          (ground (arith, o))
      ∙ copy_words_ne (p.pthread_t_size / 8) 0 (after t) (pthread_self p) a p.memory
          (ground (arith, o))

  final-empty :
      (i : ℕ)
      → i < k_num_slots
      → i ≢ 0
      → i ≢ k_thread_slot_a
      → (final p t thread).memory (slot_at (slots_of p t) i) ≡ 0
  final-empty i l z a =
      final-other (slot_at (slots_of p t) i) (λ e. z (omega arith)) (λ e. a (omega arith))
      ∙ zero_words-zero k_num_slots 0 i (slots_of p t) _ (omega arith) (omega arith)

  final-header :
      ((k l : ℕ) → k < h → l < h → after t + 8 * k ≢ pthread_self p + 8 * l)
      → (j : ℕ) → j < h
      → (final p t thread).memory (after t + 8 * j) ≡ p.memory (pthread_self p + 8 * j)
  final-header d j l =
      final-other (after t + 8 * j) (λ e. omega arith) (λ e. omega arith)
      ∙ zero_words_ne k_num_slots 0 (slots_of p t) (after t + 8 * j)
          (copy_words (p.pthread_t_size / 8) 0 (after t) (pthread_self p) p.memory)
          (inl (omega arith))
      ∙ copy_words-copied (p.pthread_t_size / 8) 0 j (after t) (pthread_self p) p.memory
          (omega arith) (omega arith) (λ k o x y. d k o (omega arith) (omega arith))

pub self-final : (p : Process) (t thread : Ptr) → pthread_self (final p t thread) ≡ after t
unfolding initialise
self-final p t thread =
    ap (final p t thread).memory (first (slots_of p t))
    ∙ update_ne (made p t).memory (slot_at (slots_of p t) k_thread_slot_a)
        (slot_at (slots_of p t) 0) thread (λ e. omega arith)
    ∙ update_self (blank p t) (slot_at (slots_of p t) 0) (after t)
  where
    first : (a : Ptr) → a ≡ slot_at a 0
    first a = omega arith

-- What a process looks like that has made the storage at `t`, set its thread and taken it in use.
pub record Runs (p : Process) (t thread : Ptr) (h : ℕ) (w : Process) : Type 0 where
  pub is_current : current w ≡ t
  pub has_thread : current_thread w ≡ thread
  pub gets_thread : (fuel : ℕ) → get_thread fuel t w ≡ some thread
  pub empty :
      (i : ℕ) → i < k_num_slots → i ≢ 0 → i ≢ k_thread_slot_a → w.memory (slot_at w.gs i) ≡ 0
  pub header : (j : ℕ) → j < h → w.memory (after t + 8 * j) ≡ p.memory (pthread_self p + 8 * j)
  pub outside :
      (a : Ptr)
      → (a < t + prefix_bytes + sizeof_tls) ⊎ (t + sizeof_tls + k_num_slots * 8 + 8 * h ≤ a)
      → w.memory a ≡ p.memory a

-- `tls::tls`, `set_thread` and `use` at `t`, once the header is known to have `h` words, not none,
-- when the storage does not lie over the header of the thread that runs: all three end. Then the
-- storage is the current one and gives the thread; its header is that of the thread that ran, and all
-- slots but the first and that of the thread are empty. Nothing was written outside of the bytes that
-- `prefix_bytes` and `postfix_bytes` reserve.
pub construct-Runs :
    (fuel : ℕ) (p : Process) (t thread : Ptr) (h : ℕ)
    → p.pthread_t_size ≡ 8 * h
    → 0 < h
    → ((k l : ℕ) → k < h → l < h → after t + 8 * k ≢ pthread_self p + 8 * l)
    → (u : Process) × (v : Process) × (w : Process) × (construct fuel t p ≡ some u)
      × (set_thread fuel t thread u ≡ some v)
      × (use_storage fuel t v ≡ some w)
      × (postfix_bytes fuel p ≡ some (sizeof_tls + k_num_slots * 8 + 8 * h))
      × Runs p t thread h w
unfolding construct set_thread use_storage initialise get_thread postfix_bytes
construct-Runs fuel p t thread h size pos d =
    let known : p.pthread_t_size ≢ 0 = λ e. omega arith in
    (
      made p t,
      set (made p t) t thread,
      final p t thread,
      with_slots_lem fuel t p (initialise t) known,
      with_slots_lem fuel t (made p t) _ known,
      with_slots_lem fuel t (set (made p t) t thread) _ known,
      ap (Option.map _) (offset-kept fuel p known)
          ∙ ap (λ o. some (sizeof_tls + k_num_slots * 8 + o)) size,
      record {
        is_current = ap (λ a. a - sizeof_tls) (self-final p t thread) ∙ omega arith;
        has_thread = update_self (made p t).memory (slot_at (slots_of p t) k_thread_slot_a) thread;
        gets_thread = λ again.
            with_slots_lem again t (final p t thread) _ known
            ∙ ap some
                (update_self (made p t).memory (slot_at (slots_of p t) k_thread_slot_a) thread);
        empty = final-empty p t thread h size;
        header = final-header p t thread h size d;
        outside = λ a o. final-outside p t thread h size a (ground (arith, o));
      },
    )
