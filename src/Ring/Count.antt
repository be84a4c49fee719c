-- ===== src/Ring/Count.antt =====
-- Counters that wrap round at 2 ^ 64, and the slots that they name.
use native.Mathlib.Nat.{mod-lt, mod-mod_of_dvd, mod-eq_of_lt, mod-eq-sub-mod, mod-add-mod}
use native.Mathlib.Decide.{dec_lt}
use gthread.Ring.{next_size, slot}
use Prim.Native.Nat.{◌∣◌}
use gthread.Common.{sub_size, modulus, ℕ, suc, ◌+◌, ◌-◌, ◌%◌, ◌<◌, ◌≡◌, ◌∙◌, ◌≢◌, arith}

-- The difference of two counters, of which the greater is ahead by less than the modulus.
pub sub_size-mod : (a d : ℕ) → d < modulus → sub_size ((a + d) % modulus) (a % modulus) ≡ d
sub_size-mod a d h = omega arith

pub sub_size-eq : (a b d : ℕ) → b ≡ a + d → d < modulus → sub_size (b % modulus) (a % modulus) ≡ d
sub_size-eq a b d e h = rw e (sub_size-mod a d h)

pub next_size-mod : (a : ℕ) → next_size (a % modulus) ≡ (a + 1) % modulus
next_size-mod a = omega arith

-- The slot of a counter that has wrapped is the slot of the count.
pub slot-mod : (size a : ℕ) → size ∣ modulus → slot size (a % modulus) ≡ slot size a
slot-mod size a h = mod-mod_of_dvd size a h

ahead-ne : (size h k : ℕ) → h < size → suc k < size → (h + suc k) % size ≢ h
ahead-ne size h k hh hk = elim (dec_lt (h + suc k) size) [
  | yes below ↦ omega (arith, mod-eq_of_lt below)
  | no above ↦ omega (
    arith,
    mod-eq-sub-mod {n = h + suc k} {m = size} (omega arith),
    mod-eq_of_lt {n = h + suc k - size} {m = size} (omega arith),
  )
]

-- Fewer than `size` counts further on is another slot.
pub slot_apart : (size n d : ℕ) → suc d < size → slot size (n + suc d) ≢ slot size n
slot_apart size n d h e =
    ahead-ne size (n % size) d (omega (arith, mod-lt n {m = size} (omega arith))) h
      (mod-add-mod n size (suc d) ∙ e)
