-- ===== src/Ring/Keep.antt =====
-- Each step of the reader and of the writer keeps the invariant.
use Prim.Native.Nat.{◌∣◌}
use gthread.Common.{
  modulus, modulus, modulus, modulus, modulus, modulus, modulus, sub_size, modulus, length-append,
}
use gthread.Ring.{slot, Shared, Reader, Writer, Side}
use gthread.Ring.Count.{sub_size-mod, sub_size-eq, slot-mod}
use gthread.Ring.Window.{Window}
use gthread.Ring.Inv.{ReaderKnows, WriterKnows, Inv}
use gthread.Common.{
  ℕ, ◌+◌, ◌-◌, ◌%◌, ◌≤◌, ◌<◌, ◌≡◌, sym, ap, ◌∙◌, ◌≢◌, Bool, Option, List, [], ◌∷◌, ◌++◌, arith,
  length,
}

-- Neither side looks at `_stalled` and `_closed` for what it knows of the values.
writer_synced :
    (size : ℕ) (m : Shared) (q : List ℕ) (b : Option Side) (c : Bool) (wp : Writer)
    → WriterKnows size m q wp
    → WriterKnows size (record m { stalled = b; closed = c }) q wp
writer_synced size m q b c Writer.idle h = h
writer_synced size m q b c _ h = h

reader_synced :
    (m : Shared) (q : List ℕ) (b : Option Side) (c : Bool) (rp : Reader)
    → ReaderKnows m q rp
    → ReaderKnows (record m { stalled = b; closed = c }) q rp
reader_synced m q b c Reader.idle h = h
reader_synced m q b c _ h = h

-- The same values under another state of `_stalled` and `_closed`, and other positions.
pub synced :
    (size : ℕ) (m : Shared) (b : Option Side) (c : Bool) {rp rp' : Reader} {wp wp' : Writer}
    (i : Inv size m rp wp)
    → ReaderKnows m i.pending rp'
    → WriterKnows size m i.pending wp'
    → Inv size (record m { stalled = b; closed = c }) rp' wp'
synced size m b c {rp' = rp'} {wp' = wp'} i kr kw = record {
  pending = i.pending;
  split = i.split;
  few = i.few;
  r_count = i.r_count;
  w_count = i.w_count;
  window = i.window;
  reader = reader_synced m i.pending b c rp' kr;
  writer = writer_synced size m i.pending b c wp' kw;
}

-- What the writer knows after the reader has taken the value `v`.
pub writer_after_read :
    (size : ℕ) (m : Shared) (v : ℕ) (rest : List ℕ) (r : ℕ) (wp : Writer)
    → WriterKnows size m (v ∷ rest) wp
    → WriterKnows size (record m { r = r; received = m.received ++ (v ∷ []) }) rest wp
writer_after_read size m v rest r Writer.idle h = h
writer_after_read size m v rest r (Writer.test u w l) (e, (old, a, b, c)) = (
  e,
  (
    old,
    omega (arith, length-append m.received (v ∷ [])),
    omega (arith, length-append m.received (v ∷ [])),
    c,
  ),
)
writer_after_read size m v rest r (Writer.place u w) (e, l) = (e, omega arith)
writer_after_read size m v rest r (Writer.storing u w) (e, l, b) = (
  e,
  omega arith,
  ap (λ k. m.buffer (slot size k)) (omega (arith, length-append m.received (v ∷ []))) ∙ b,
)
writer_after_read size m v rest r _ h = h

-- What the reader knows after the writer has published the value `u`.
pub reader_after_write :
    (m : Shared) (q : List ℕ) (u w : ℕ) (rp : Reader)
    → ReaderKnows m q rp
    → ReaderKnows (record m { w = w; sent = m.sent ++ (u ∷ []) }) (q ++ (u ∷ [])) rp
reader_after_write m q u w Reader.idle h = h
reader_after_write m q u w (Reader.test r l) (e, (k, a, b)) =
    (e, (k, omega (arith, length-append q (u ∷ [])), b))
reader_after_write m q u w (Reader.take r) (e, l) = (e, omega (arith, length-append q (u ∷ [])))
reader_after_write m q u w (Reader.storing r v) (e, (rest, s)) =
    (e, (rest ++ (u ∷ []), ap (λ k. k ++ (u ∷ [])) s))
reader_after_write m q u w _ h = h

pub reader_after_place :
    (m : Shared) (q : List ℕ) (b : ℕ → ℕ) (rp : Reader)
    → ReaderKnows m q rp
    → ReaderKnows (record m { buffer = b }) q rp
reader_after_place m q b Reader.idle h = h
reader_after_place m q b _ h = h

-- The size of a buffer: not 0, and a divisor of 2 ^ 64 below it, as a power of two is.
pub record IsSize (size : ℕ) : Type 0 where
  pub positive : 0 < size
  pub divides : size ∣ modulus
  pub fits : size < modulus

-- A reader that sees counters apart sees a value.
pub some_pending :
    (size : ℕ) (m : Shared) (q : List ℕ) (r w : ℕ)
    → IsSize size
    → length q ≤ size
    → m.r ≡ length m.received % modulus
    → ReaderKnows m q (Reader.test r w)
    → sub_size w r ≢ 0
    → 0 < length q
some_pending size m q r w z few rc (e, (k, l, ew)) n =
    let d : sub_size w r ≡ k =
      rw (ew, e, rc) (sub_size-mod (length m.received) k (omega (arith, z.fits))) in
    omega (arith, d)

-- A writer that sees counters less than `size` apart sees room.
pub some_room :
    (size : ℕ) (m : Shared) (q : List ℕ) (u w r : ℕ)
    → IsSize size
    → m.w ≡ (length m.received + length q) % modulus
    → WriterKnows size m q (Writer.test u w r)
    → sub_size w r ≢ size
    → length q < size
some_room size m q u w r z wc (e, (old, l, b, er)) n =
    let d : ℕ = length m.received + length q - old in
    let seen : sub_size w r ≡ d =
      rw (e, wc, er)
        (sub_size-eq old (length m.received + length q) d (omega arith) (omega (arith, z.fits))) in
    omega (arith, seen)

-- The window after its first value was taken.
pub first_value :
    (size : ℕ) (m : Shared) (q : List ℕ) (r : ℕ)
    → IsSize size
    → m.r ≡ length m.received % modulus
    → Window size m.buffer (length m.received) q
    → (r ≡ m.r) × (0 < length q)
    → (rest : List ℕ) × (q ≡ m.buffer (slot size r) ∷ rest)
first_value size m [] r z rc h (e, l) = absurd (omega arith)
first_value size m (x ∷ q) r z rc h (e, l) = (
  q,
  ap (λ k. k ∷ q)
      (sym (
        ap m.buffer (ap (slot size) (e ∙ rc) ∙ slot-mod size (length m.received) z.divides) ∙ h.0)),
)
