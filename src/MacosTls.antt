-- ===== src/MacosTls.antt =====
-- platform/tls_macos.cc and platform/tls_impl_macos.h: thread-local storage on macOS. A storage is a
-- copy of the header of the thread with the slots behind it. A word of memory is named by its address.
pub mod Offset
pub mod Fresh
pub mod Reset
use mathlib.Core.Option
use gthread.Common.{
  ℕ, zero, suc, ◌+◌, ◌-◌, ◌*◌, ◌/◌, ◌%◌, ◌^◌, ◌≤◌, ◌<◌, ◌≡◌, refl, sym, ap, ◌∙◌, ◌≢◌, ◌⊎◌, inl, inr,
  Bool, true, false, not, ◌&&◌, ◌||◌, Option, none, some, List, [], ◌∷◌, ◌++◌, arith, ltb, leb,
  ◌==◌, if◌then◌else◌, Ptr, null, Bool-cases, length, All, All-map, count, update, modulus,
  sub_size, update_self, update_ne, eq_of_==, ==-of_ne, ==_self,
}

-- `k_num_slots`, `k_num_copied_slots` and `k_thread_slot_a`
abbrev pub k_num_slots : ℕ
k_num_slots = 768

abbrev pub k_num_copied_slots : ℕ
k_num_copied_slots = 256

abbrev pub k_thread_slot_a : ℕ
k_thread_slot_a = 6

-- What the calls read and write: the words of memory, the base of the segment `gs`, the static
-- `pthread_t_size`, and the addresses that were freed, the last one first.
pub record Process : Type 0 where
  pub memory : Ptr → ℕ
  pub gs : Ptr
  pub pthread_t_size : ℕ
  pub freed : List Ptr

-- `sizeof(tls)`, of a class without members, and `tls::after`
abbrev pub sizeof_tls : ℕ
sizeof_tls = 1

abbrev pub after : Ptr → Ptr
after t = t + sizeof_tls

-- the address of a slot
abbrev pub slot_at : Ptr → ℕ → Ptr
slot_at slots i = slots + 8 * i

-- `*g_pthread_self_slot`
abbrev pub pthread_self : Process → Ptr
pthread_self p = p.memory p.gs

-- The loop of `get_pthread_slots_offset`, for at most so many words.
unfoldable pub search_self : ℕ → (Ptr → ℕ) → Ptr → Ptr → Option Ptr
search_self zero m self search = none
search_self (suc fuel) m self search = elim (m search == self) [
  | true ↦ some search
  | false ↦ search_self fuel m self (search + 8)
]

-- the offset found, which is kept
abbrev pub keep_offset : Process → Option Ptr → Option (ℕ × Process)
keep_offset p none = none
keep_offset p (some search) =
    some (search - pthread_self p, record p { pthread_t_size = search - pthread_self p })

unfoldable pub get_pthread_slots_offset : ℕ → Process → Option (ℕ × Process)
unfolding search_self
get_pthread_slots_offset fuel p =
    if not (p.pthread_t_size == 0)
    then some (p.pthread_t_size, p)
    else keep_offset p (search_self fuel p.memory (pthread_self p) (pthread_self p))

-- The slots of the storage at `t`, handed to what follows.
abbrev pub at_offset : {A : Type 0} → Ptr → Option (ℕ × Process) → (Ptr → Process → A) → Option A
at_offset t none f = none
at_offset t (some r) f = some (f (after t + r.0) r.1)

abbrev pub with_slots : {A : Type 0} → ℕ → Ptr → Process → (Ptr → Process → A) → Option A
with_slots fuel t p f = at_offset t (get_pthread_slots_offset fuel p) f

abbrev pub write : Ptr → ℕ → Process → Process
write a v p = record p { memory = update p.memory a v }

-- `memcpy` and `memset` to null of `n` words, from the one with the number `i` on
unfoldable pub copy_words : ℕ → ℕ → Ptr → Ptr → (Ptr → ℕ) → Ptr → ℕ
copy_words zero i to from m = m
copy_words (suc n) i to from m =
    copy_words n (suc i) to from (update m (to + 8 * i) (m (from + 8 * i)))

unfoldable pub zero_words : ℕ → ℕ → Ptr → (Ptr → ℕ) → Ptr → ℕ
zero_words zero i to m = m
zero_words (suc n) i to m = zero_words n (suc i) to (update m (to + 8 * i) 0)

-- `tls::tls`, for the slots at `slots`
unfoldable pub initialise : Ptr → Ptr → Process → Process
initialise t slots p = record p {
  memory =
      update
        (zero_words k_num_slots 0 slots
          (copy_words (p.pthread_t_size / 8) 0 (after t) (pthread_self p) p.memory))
        (slot_at slots 0) (after t);
}

unfoldable pub construct : ℕ → Ptr → Process → Option Process
construct fuel t p = with_slots fuel t p (initialise t)

-- `gthread::free` of a slot, if there is something in it
abbrev pub free_slot : Ptr → ℕ → Process → Process
free_slot slots i p =
    if not (p.memory (slot_at slots i) == null)
    then record p { freed = p.memory (slot_at slots i) ∷ p.freed }
    else p

-- the loop of the destructor, `n` slots from `i` on
unfoldable pub free_slots : ℕ → ℕ → Ptr → Process → Process
free_slots zero i slots p = p
free_slots (suc n) i slots p = free_slots n (suc i) slots (free_slot slots i p)

-- the body of the loop of `reset`
abbrev pub clear_slot : Ptr → ℕ → Process → Process
clear_slot slots i p =
    if not (p.memory (slot_at slots i) == null)
    then write (slot_at slots i) null (free_slot slots i p)
    else p

unfoldable pub clear_slots : ℕ → ℕ → Ptr → Process → Process
clear_slots zero i slots p = p
clear_slots (suc n) i slots p = clear_slots n (suc i) slots (clear_slot slots i p)

-- how many slots the loops go through
abbrev pub k_num_freed_slots : ℕ
k_num_freed_slots = k_num_slots - k_num_copied_slots

-- `tls::~tls` and `tls::reset`
unfoldable pub destruct : ℕ → Ptr → Process → Option Process
destruct fuel t p = with_slots fuel t p (free_slots k_num_freed_slots k_num_copied_slots)

unfoldable pub reset : ℕ → Ptr → Process → Option Process
reset fuel t p = with_slots fuel t p (clear_slots k_num_freed_slots k_num_copied_slots)

-- `tls::prefix_bytes` and `tls::postfix_bytes`
abbrev pub prefix_bytes : ℕ
prefix_bytes = 0

unfoldable pub postfix_bytes : ℕ → Process → Option ℕ
postfix_bytes fuel p =
    Option.map (λ r. sizeof_tls + k_num_slots * 8 + r.0) (get_pthread_slots_offset fuel p)

-- `tls::current`, `tls::set_thread`, `tls::get_thread`, `tls::use` and `tls::current_thread`
abbrev pub current : Process → Ptr
current p = pthread_self p - sizeof_tls

unfoldable pub set_thread : ℕ → Ptr → Ptr → Process → Option Process
set_thread fuel t thread p =
    with_slots fuel t p (λ slots. write (slot_at slots k_thread_slot_a) thread)

unfoldable pub get_thread : ℕ → Ptr → Process → Option Ptr
get_thread fuel t p = with_slots fuel t p (λ slots q. q.memory (slot_at slots k_thread_slot_a))

unfoldable pub use_storage : ℕ → Ptr → Process → Option Process
use_storage fuel t p = with_slots fuel t p (λ slots q. record q { gs = slots })

abbrev pub current_thread : Process → Ptr
current_thread p = p.memory (slot_at p.gs k_thread_slot_a)
