-- ===== src/MacosMemory/Mask.antt =====
-- The mask by which `mach_vm_map` aligns a stack.
use native.Mathlib.Nat.{div-eq_of_lt-le, zero-add, one-mul, pow-succ', mul_assoc}
use native.Mathlib.Decide.{dec_lt}
use gthread.MacosMemory.{bit_length, right_mask}
use gthread.Common.{
  ℕ, zero, suc, ◌+◌, ◌-◌, ◌*◌, ◌/◌, ◌%◌, ◌^◌, ◌≤◌, ◌<◌, ◌≡◌, refl, sym, ap, ◌∙◌, arith, ==-of_ne,
}

bit_length-zero : (digits : ℕ) → bit_length digits 0 ≡ 0
bit_length-zero zero = refl
bit_length-zero (suc n) = refl

bit_length-pos : (n b : ℕ) → 0 < b → bit_length (suc n) b ≡ suc (bit_length n (b / 2))
bit_length-pos n b l = rw (==-of_ne b 0 (λ e. omega arith)) refl

bit_length-above : (digits b : ℕ) → b < 2 ^ digits → b < 2 ^ bit_length digits b
bit_length-above zero b l = l
bit_length-above (suc n) zero l = omega arith
bit_length-above (suc n) (suc b) l =
    rw (bit_length-pos n (suc b) (omega arith))
      (omega (arith, bit_length-above n (suc b / 2) (omega arith)))

bit_length-below : (digits b : ℕ) → 0 < b → b < 2 ^ digits → 2 ^ bit_length digits b ≤ 2 * b
bit_length-below zero b p l = absurd (omega arith)
bit_length-below (suc n) b p l = rw (bit_length-pos n b p) (elim (dec_lt 1 b) [
  | yes k ↦ omega (arith, bit_length-below n (b / 2) (omega arith) (omega arith))
  | no k ↦ rw (half k) (rw (bit_length-zero n) (omega arith))
])
  where
    half : (1 < b → ⊥) → b / 2 ≡ 0
    half k = omega arith

bit_length-le : (digits b : ℕ) → bit_length digits b ≤ digits
bit_length-le zero b = omega arith
bit_length-le (suc n) b = ground (arith, bit_length-le n (b / 2))

power_of_sum : (n k : ℕ) → 2 ^ (n + k) ≡ 2 ^ n * 2 ^ k
power_of_sum zero k = ap (λ m. 2 ^ m) (zero-add k) ∙ sym (one-mul (2 ^ k))
power_of_sum (suc n) k =
    ap (λ m. 2 ^ m) (up n)
    ∙ pow-succ' 2 (n + k)
    ∙ ap (λ m. 2 * m) (power_of_sum n k)
    ∙ sym (mul_assoc 2 (2 ^ n) (2 ^ k))
    ∙ ap (λ m. m * 2 ^ k) (sym (pow-succ' 2 n))
  where
    up : (n : ℕ) → suc n + k ≡ suc (n + k)
    up n = omega arith

power_pos : (n : ℕ) → 0 < 2 ^ n
power_pos zero = omega arith
power_pos (suc n) = omega (arith, power_pos n)

shifted : (p q : ℕ) → 0 < p → (p * suc q - 1) / p ≡ q
shifted p q l = div-eq_of_lt-le p (grind arith) (grind arith)

digits_pos : (n b : ℕ) → 0 < b → 0 < bit_length (suc n) b
digits_pos n b l = rw (bit_length-pos n b l) (omega arith)

mask_of_length : (k : ℕ) → 0 < k → k ≤ 64 → (2 ^ 64 - 1) / 2 ^ ((64 - k) % 64) + 1 ≡ 2 ^ k
mask_of_length k p l =
    ap (λ e. (2 ^ 64 - 1) / 2 ^ e + 1) small
    ∙ ap (λ m. (m - 1) / 2 ^ (64 - k) + 1) split
    ∙ ap (λ m. m + 1) (shifted (2 ^ (64 - k)) (2 ^ k - 1) (power_pos (64 - k)))
    ∙ omega (arith, power_pos k)
  where
    small : (64 - k) % 64 ≡ 64 - k
    small = omega arith

    split : 2 ^ 64 ≡ 2 ^ (64 - k) * suc (2 ^ k - 1)
    split =
        ap (λ n. 2 ^ n) (whole k l)
        ∙ power_of_sum (64 - k) k
        ∙ ap (λ m. 2 ^ (64 - k) * m) (omega (arith, power_pos k))
      where
        whole : (n : ℕ) → n ≤ 64 → 64 ≡ 64 - n + n
        whole n h = omega arith

-- `right_mask` of a number of 64 binary digits that is not zero: one more than the mask is a power of
-- two, above the number and at most twice as large.
pub right_mask-bounds :
    (bits : ℕ)
    → 0 < bits
    → bits < 2 ^ 64
    → (k : ℕ) × (right_mask bits + 1 ≡ 2 ^ k) × (bits < 2 ^ k) × (2 ^ k ≤ 2 * bits)
unfolding right_mask
right_mask-bounds bits p l = (
  bit_length 64 bits,
  mask_of_length (bit_length 64 bits) (digits_pos 63 bits p) (bit_length-le 64 bits),
  bit_length-above 64 bits l,
  bit_length-below 64 bits p l,
)
