-- ===== src/Ring/Window.antt =====
-- What the slots of the buffer hold.
use gthread.Ring.{slot}
use gthread.Ring.Count.{slot_apart}
use gthread.Common.{
  ℕ, suc, ◌+◌, ◌-◌, ◌<◌, ◌≡◌, sym, ap, ◌∙◌, ◌≢◌, List, [], ◌∷◌, ◌++◌, arith, length, update,
  update_ne,
}

-- From the count `n` on, the slots hold the values of the list in order.
abbrev pub Window : ℕ → (ℕ → ℕ) → ℕ → List ℕ → Type 0
Window size buffer n [] = Unit
Window size buffer n (x ∷ q) = (buffer (slot size n) ≡ x) × Window size buffer (suc n) q

-- A slot behind the window may be written.
pub Window-update :
    (size : ℕ) (buffer : ℕ → ℕ) (n : ℕ) (q : List ℕ) (i u : ℕ)
    → ((d : ℕ) → d < length q → slot size (n + d) ≢ i)
    → Window size buffer n q
    → Window size (update buffer i u) n q
Window-update size buffer n [] i u apart h = tt
Window-update size buffer n (x ∷ q) i u apart h = (
  update_ne buffer i (slot size n) u (λ e. apart 0 (omega arith) (ap (slot size) add_zero ∙ sym e))
      ∙ h.0,
  Window-update size buffer (suc n) q i u
      (λ d l e. apart (suc d) (omega arith) (ap (slot size) (shift d) ∙ e)) h.1,
)
  where
    add_zero : n + 0 ≡ n
    add_zero = omega arith

    shift : (d : ℕ) → n + suc d ≡ suc n + d
    shift d = omega arith

-- The value in the slot just behind the window extends it.
pub Window-snoc :
    (size : ℕ) (buffer : ℕ → ℕ) (n : ℕ) (q : List ℕ) (u : ℕ)
    → Window size buffer n q
    → buffer (slot size (n + length q)) ≡ u
    → Window size buffer n (q ++ (u ∷ []))
Window-snoc size buffer n [] u h e = (ap (λ k. buffer (slot size k)) (omega arith) ∙ e, tt)
Window-snoc size buffer n (x ∷ q) u h e = (
  h.0,
  Window-snoc size buffer (suc n) q u h.1 (ap (λ k. buffer (slot size k)) (omega arith) ∙ e),
)

-- The slot that the writer fills is none that the reader has still to read.
pub Window-next :
    (size : ℕ) (buffer : ℕ → ℕ) (n : ℕ) (q : List ℕ) (u : ℕ)
    → length q < size
    → Window size buffer n q
    → Window size (update buffer (slot size (n + length q)) u) n q
Window-next size buffer n q u room h =
    Window-update size buffer n q (slot size (n + length q)) u apart h
  where
    apart : (d : ℕ) → d < length q → slot size (n + d) ≢ slot size (n + length q)
    apart d l e =
        slot_apart size (n + d) (length q - d - 1) (omega arith)
          (ap (slot size) (omega arith) ∙ sym e)
