-- ===== src/CloseWrapper/Balance.antt =====
-- The account of the shares that wrappers take, hold and give back.
use gthread.CloseWrapper.{
  Cell, absent, wrapper, Wrappers, cell_at, put, note, Op, construct, move_construct, move_assign,
  destroy, take, build, assign, destruct, then_build, then_assign, step, run, blank_cells, blank,
}
use gthread.Outcome.{OnSome}
use mathlib.Core.Path.{subst}
use mathlib.Core.Option.{some-injective}
use gthread.Common.{
  ℕ, zero, suc, ◌+◌, ◌≡◌, refl, ap, sym, ◌∙◌, ◌≢◌, ◌==◌, if◌then◌else◌, Option, none, some, List,
  [], ◌∷◌, Ptr, null, arith, count, All, ==-of_ne,
}

-- whether a pointer is `r`, as a number
abbrev is : Ptr → Ptr → ℕ
is r p = if p == r then 1 else 0

abbrev weight : Ptr → Cell → ℕ
weight r absent = 0
weight r (wrapper p) = is r p

-- the wrappers that hold `r`
abbrev pub holds : Ptr → List Cell → ℕ
holds r [] = 0
holds r (c ∷ cs) = weight r c + holds r cs

abbrev constructs : Ptr → Op → ℕ
constructs r (construct i p) = is r p
constructs r _ = 0

-- how many wrappers a program makes for `r`
abbrev pub constructed : Ptr → List Op → ℕ
constructed r [] = 0
constructed r (o ∷ os) = constructs r o + constructed r os

-- a step that is not a move assignment
abbrev pub KeepsTarget : Op → Type 0
KeepsTarget (move_assign i j) = ⊥
KeepsTarget _ = Unit

holds-put :
    (r : Ptr) (cs : List Cell) (i : ℕ) (c d : Cell)
    → cell_at cs i ≡ some c
    → holds r (put cs i d) + weight r c ≡ holds r cs + weight r d
holds-put r [] i c d e = absurd (cc e)
holds-put r (x ∷ cs) zero c d e = omega (arith, ap (weight r) (some-injective x c e))
holds-put r (x ∷ cs) (suc i) c d e = omega (arith, holds-put r cs i c d e)

holds-blank : (r : Ptr) (n : ℕ) → holds r (blank_cells n) ≡ 0
holds-blank r zero = refl
holds-blank r (suc n) = omega (arith, holds-blank r n)

count-note : (r p : Ptr) (l : List Ptr) → r ≢ null → count r (note p l) ≡ count r l + is r p
count-note r p l n = ground arith

OnSome-map :
    {A : Type 0} (P Q : A → Type 0) (k : Option A) → ((a : A) → P a → Q a) → OnSome P k → OnSome Q k
OnSome-map P Q none f h = tt
OnSome-map P Q (some a) f h = f a h

-- the shares of `r` given back or still held
abbrev total : Ptr → Wrappers → ℕ
total r s = count r s.released + holds r s.cells

build-total :
    (r : Ptr) (c : Option Cell) (i : ℕ) (p : Ptr) (s : Wrappers)
    → cell_at s.cells i ≡ c
    → OnSome
        (λ s'.
          (total r s' ≡ total r s + is r p) × (s'.closed ≡ s.closed) × (s'.released ≡ s.released))
        (build c i p s)
unfolding build
build-total r (some absent) i p s e =
    (omega (arith, holds-put r s.cells i absent (wrapper p) e), refl, refl)
build-total r (some (wrapper q)) i p s e = tt
build-total r none i p s e = tt

take-total :
    (r : Ptr) (c : Option Cell) (j : ℕ) (s : Wrappers)
    → r ≢ null
    → cell_at s.cells j ≡ c
    → OnSome {A = Ptr × Wrappers}
        (λ k.
          (total r k.1 + is r k.0 ≡ total r s)
          × (k.1.closed ≡ s.closed)
          × (k.1.released ≡ s.released))
        (take c j s)
unfolding take
take-total r (some absent) j s n e = tt
take-total r (some (wrapper p)) j s n e =
    (ground (arith, holds-put r s.cells j (wrapper p) (wrapper null) e), refl, refl)
take-total r none j s n e = tt

assign-total :
    (r : Ptr) (c : Option Cell) (i : ℕ) (p : Ptr) (s : Wrappers)
    → r ≢ null
    → cell_at s.cells i ≡ c
    → OnSome (λ s'. total r s' ≡ total r s + is r p) (assign c i p s)
unfolding assign
assign-total r (some absent) i p s n e = tt
assign-total r (some (wrapper q)) i p s n e =
    omega (arith, holds-put r s.cells i (wrapper q) (wrapper p) e, count-note r q s.released n)
assign-total r none i p s n e = tt

destruct-total :
    (r : Ptr) (c : Option Cell) (i : ℕ) (s : Wrappers)
    → r ≢ null
    → cell_at s.cells i ≡ c
    → OnSome
        (λ s'. (total r s' ≡ total r s) × (s.closed ≡ s.released → s'.closed ≡ s'.released))
        (destruct c i s)
unfolding destruct
destruct-total r (some absent) i s n e = tt
destruct-total r (some (wrapper q)) i s n e = (
  omega (arith, holds-put r s.cells i (wrapper q) absent e, count-note r q s.released n),
  λ k. ap (note q) k,
)
destruct-total r none i s n e = tt

-- what one step adds to the shares, and that it closes what it gives back
abbrev Accounts : Ptr → ℕ → Type 0 → Wrappers → Wrappers → Type 0
Accounts r n keeps s s' =
    (total r s' ≡ total r s + n) × (keeps → s.closed ≡ s.released → s'.closed ≡ s'.released)

then_build-Accounts :
    (r : Ptr) (i : ℕ) (s : Wrappers) (k : Option (Ptr × Wrappers))
    → OnSome {A = Ptr × Wrappers}
        (λ k.
          (total r k.1 + is r k.0 ≡ total r s)
          × (k.1.closed ≡ s.closed)
          × (k.1.released ≡ s.released))
        k
    → OnSome (Accounts r 0 Unit s) (then_build i k)
then_build-Accounts r i s none h = tt
then_build-Accounts r i s (some (p, v)) (a, b, c) =
    OnSome-map _ _ (build (cell_at v.cells i) i p v)
      (λ s' h. (omega (arith, a, h.0), λ _ e. h.1 ∙ (b ∙ (e ∙ sym (h.2 ∙ c)))))
      (build-total r (cell_at v.cells i) i p v refl)

then_assign-Accounts :
    (r : Ptr) (i : ℕ) (s : Wrappers) (k : Option (Ptr × Wrappers))
    → r ≢ null
    → OnSome {A = Ptr × Wrappers}
        (λ k.
          (total r k.1 + is r k.0 ≡ total r s)
          × (k.1.closed ≡ s.closed)
          × (k.1.released ≡ s.released))
        k
    → OnSome (Accounts r 0 ⊥ s) (then_assign i k)
then_assign-Accounts r i s none n h = tt
then_assign-Accounts r i s (some (p, v)) n (a, b, c) =
    OnSome-map _ _ (assign (cell_at v.cells i) i p v) (λ s' h. (omega (arith, a, h), λ x. absurd x))
      (assign-total r (cell_at v.cells i) i p v n refl)

step-Accounts :
    (r : Ptr) (o : Op) (s : Wrappers)
    → r ≢ null
    → OnSome (Accounts r (constructs r o) (KeepsTarget o) s) (step o s)
unfolding step
step-Accounts r (construct i p) s n =
    OnSome-map _ _ (build (cell_at s.cells i) i p s) (λ s' h. (h.0, λ _ e. h.1 ∙ (e ∙ sym h.2)))
      (build-total r (cell_at s.cells i) i p s refl)
step-Accounts r (move_construct i j) s n =
    then_build-Accounts r i s (take (cell_at s.cells j) j s)
      (take-total r (cell_at s.cells j) j s n refl)
step-Accounts r (move_assign i j) s n =
    then_assign-Accounts r i s (take (cell_at s.cells j) j s) n
      (take-total r (cell_at s.cells j) j s n refl)
step-Accounts r (destroy i) s n =
    OnSome-map _ _ (destruct (cell_at s.cells i) i s) (λ s' h. (omega (arith, h.0), λ _ e. h.1 e))
      (destruct-total r (cell_at s.cells i) i s n refl)

rest-Accounts :
    (r : Ptr) (o : Op) (os : List Op) (s : Wrappers) (k : Option Wrappers)
    → OnSome (Accounts r (constructs r o) (KeepsTarget o) s) k
    → ((s' : Wrappers) → OnSome (Accounts r (constructed r os) (All KeepsTarget os) s') (run os s'))
    → OnSome
        (Accounts r (constructed r (o ∷ os)) (All KeepsTarget (o ∷ os)) s)
        (elim k [ none ↦ none | some s' ↦ run os s' ])
rest-Accounts r o os s none h f = tt
rest-Accounts r o os s (some s') h f =
    OnSome-map _ _ (run os s') (λ u k. (omega (arith, h.0, k.0), λ t e. k.1 t.1 (h.1 t.0 e))) (f s')

run-Accounts :
    (r : Ptr) (os : List Op) (s : Wrappers)
    → r ≢ null
    → OnSome (Accounts r (constructed r os) (All KeepsTarget os) s) (run os s)
unfolding run
run-Accounts r [] s n = (omega arith, λ _ e. e)
run-Accounts r (o ∷ os) s n =
    rest-Accounts r o os s (step o s) (step-Accounts r o s n) (λ s'. run-Accounts r os s' n)

-- A program that makes, moves and destroys wrappers and never assigns to one, from places that are
-- empty: the wrappers that still hold a resource and the times that it was closed are together the
-- wrappers made for it. So each wrapper closes it once, whatever places it moves through.
pub run-closes_once :
    (r : Ptr) (n : ℕ) (os : List Op) (s : Wrappers)
    → r ≢ null
    → All KeepsTarget os
    → run os (blank n) ≡ some s
    → count r s.closed + holds r s.cells ≡ constructed r os
run-closes_once r n os s nr t e =
    let h =
      subst (OnSome (Accounts r (constructed r os) (All KeepsTarget os) (blank n))) e
        (run-Accounts r os (blank n) nr) in
    omega (arith, h.0, holds-blank r n, ap (count r) (h.1 t refl))

-- An assignment to a wrapper that holds a resource gives its share back and closes nothing.
assign-skips_close :
    (i j : ℕ) (p q : Ptr) (s : Wrappers)
    → q ≢ null
    → cell_at s.cells j ≡ some (wrapper p)
    → cell_at (put s.cells j (wrapper null)) i ≡ some (wrapper q)
    → (u : Wrappers) × (step (move_assign i j) s ≡ some u)
      × (u.closed ≡ s.closed)
      × (u.released ≡ q ∷ s.released)
unfolding step take assign
assign-skips_close i j p q s n e f = (
  record s { cells = put (put s.cells j (wrapper null)) i (wrapper p); released = q ∷ s.released },
  rw e (rw f (rw (==-of_ne q 0 n) refl)),
  refl,
  refl,
)
