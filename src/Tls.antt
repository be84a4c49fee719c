-- ===== src/Tls.antt =====
-- platform/tls.h and platform/tls_linux.cc: the thread-local storage of a task. A block has the
-- images of the loaded modules below the address `after` and the thread's header from there on.
pub mod Images
pub mod Place
pub mod Construct
pub mod Fill
pub mod Reset
pub mod Slots
pub mod Once
pub mod Numbers
pub mod Current
use gthread.Loader.{prefix_bytes, Image, Magic, k_num_slots}
use gthread.Outcome
use gthread.Outcome.{Result, runtime_error, out_of_bounds}
use gthread.Common.{
  ℕ, zero, suc, ◌+◌, ◌-◌, ◌*◌, ◌/◌, ◌%◌, ◌^◌, ◌≤◌, ◌<◌, ◌≡◌, refl, sym, ap, ◌∙◌, ◌≢◌, ◌⊎◌, inl, inr,
  Bool, true, false, not, ◌&&◌, ◌||◌, Option, none, some, List, [], ◌∷◌, ◌++◌, arith, ltb, leb,
  ◌==◌, if◌then◌else◌, Ptr, null, Bool-cases, length, All, All-map, count, update, modulus,
  sub_size, update_self, update_ne, eq_of_==, ==-of_ne, ==_self,
}

-- `sizeof(tls)`, of a class without members
abbrev pub sizeof_tls : ℕ
sizeof_tls = 1

-- an entry of the vector of modules
pub record Slot : Type 0 where
  pub v : Ptr
  pub is_static : Bool

-- `TLS_DTV_UNALLOCATED`
abbrev pub unallocated : Slot
unallocated = record { v = modulus - 1; is_static = false }

abbrev pub Bytes : Type 0
Bytes = Ptr → ℕ

-- `sizeof(tcbhead)`: the last field stands behind 24 + 8 + 3 * 8 + 1632 bytes.
abbrev pub tcbhead_bytes : ℕ
tcbhead_bytes = 1696

-- the bytes of `new dtv[k_num_slots + 2]`, 16 for each entry
abbrev pub vector_bytes : ℕ
vector_bytes = (k_num_slots + 2) * 16

-- A `tls` object with the header behind it: `after` is the address of the header, `base` and
-- `num_modules` stand in entry 0 of the vector, `slots` are the entries from 1 on. `memory` are the
-- bytes of the program outside of the header and the vector, whose contents are the other fields
-- (inside of them it is 0), and `freed` is what was given to `free`.
pub record Tls : Type 0 where
  pub after : Ptr
  pub base : Ptr
  pub num_modules : ℕ
  pub slots : ℕ → Slot
  pub thread : Ptr
  pub did_ctype_init : Bool
  pub magic : Magic
  pub memory : Bytes
  pub freed : List Ptr

abbrev pub memcpy : Ptr → Ptr → ℕ → Bytes → Bytes
memcpy to from n m a = if leb to a && ltb a (to + n) then m (from + (a - to)) else m a

abbrev pub zero_bytes : Ptr → ℕ → Bytes → Bytes
zero_bytes to n m a = if leb to a && ltb a (to + n) then 0 else m a

-- the bytes outside of a header and a vector of modules
abbrev pub elsewhere : Ptr → Ptr → Bytes → Bytes
elsewhere after vector m = zero_bytes after tcbhead_bytes (zero_bytes vector vector_bytes m)

-- the number in so many bytes, the lowest digits first
unfoldable pub bytes_at : ℕ → Bytes → Ptr → ℕ
bytes_at zero m a = 0
bytes_at (suc n) m a = m a + 256 * bytes_at n m (a + 1)

abbrev pub static_at : Ptr → Slot
static_at p = record { v = p; is_static = true }

-- one round of the loop of the constructor, with `image_base`
unfoldable pub place_image : Image → ℕ → Ptr × Tls → Ptr × Tls
place_image x i (base, t) =
    let base' = sub_size base x.reserve in
    if x.address == null then (base, t) else (
      base',
      record t {
        memory = memcpy (base' + x.mem_offset) (x.address + x.mem_offset) x.image_size t.memory;
        slots = update t.slots (i + 1) (static_at base');
      },
    )

unfoldable pub place_images : List Image → ℕ → Ptr × Tls → Ptr × Tls
place_images [] i s = s
place_images (x ∷ xs) i s = place_images xs (suc i) (place_image x i s)

-- The object before the images are placed, whose vector `new` has put at an address. The field
-- `thread` is not set: it is what its eight bytes in the header were.
unfoldable pub fresh : List Image → Magic → Ptr → Ptr → Bytes → Tls
unfolding bytes_at
fresh images magic after vector memory = record {
  after = after;
  base = sub_size after (prefix_bytes images);
  num_modules = k_num_slots;
  slots = update (λ _. unallocated) 1 (record { v = after; is_static = false });
  thread = bytes_at 8 memory (after + 16);
  did_ctype_init = false;
  magic = magic;
  memory = elsewhere after vector memory;
  freed = [];
}

-- `tls::tls`
unfoldable pub construct : List Image → Magic → Ptr → Ptr → Bytes → Tls
unfolding fresh place_images
construct images magic after vector memory =
    (place_images images 0 (after, fresh images magic after vector memory)).1

-- `free` of the module in a slot, if it was allocated dynamically
unfoldable pub free_slot : ℕ → Tls → Tls
free_slot i t =
    if not (t.slots (i + 2)).is_static && not ((t.slots (i + 2)).v == unallocated.v)
    then record t { freed = t.freed ++ ((t.slots (i + 2)).v ∷ []) }
    else t

-- the loop of the destructor, with the rounds left
unfoldable pub free_slots : ℕ → ℕ → Tls → Tls
free_slots zero i t = t
free_slots (suc n) i t = free_slots n (suc i) (free_slot i t)

-- `tls::~tls`
unfoldable pub destruct : Tls → Tls
unfolding free_slots
destruct t = free_slots k_num_slots 0 t

unfoldable pub clear_slot : ℕ → Tls → Tls
unfolding free_slot
clear_slot i t = record (free_slot i t) { slots = update t.slots (i + 2) unallocated }

-- the first loop of `reset`
unfoldable pub clear_slots : ℕ → ℕ → Tls → Tls
clear_slots zero i t = t
clear_slots (suc n) i t = clear_slots n (suc i) (clear_slot i t)

-- one image put back, as module number `number`
abbrev pub put_image : Image → ℕ → Ptr → Tls → Tls
put_image x number base t = record t {
  memory = memcpy base x.address x.image_size t.memory;
  slots = update t.slots (number + 1) (static_at base);
}

-- the second loop of `reset`, with its variables `module`, here `number`, and `image_base`
unfoldable pub fill_images : List Image → ℕ → Ptr → Tls → Result Tls
fill_images [] number base t = Result.ok t
fill_images (x ∷ xs) number base t =
    let base' = sub_size base x.reserve in
    let skipped = fill_images xs number base t in
    let next = fill_images xs (suc number) base' (put_image x (suc number) base' t) in
    if not (ltb t.base base)
    then Result.ok t
    else if x.address == null
    then skipped
    else if ltb base' t.base
    then Result.throw runtime_error
    else next

-- the block with zeros in place of the images
abbrev pub wiped : Tls → Tls
wiped t = record t { memory = zero_bytes t.base (t.after - t.base) t.memory }

-- `tls::reset`
unfoldable pub reset : List Image → Tls → Result Tls
unfolding clear_slots fill_images
reset images t =
    Outcome.◌>>=◌ (fill_images images 0 t.after (wiped (clear_slots k_num_slots 0 t)))
      (λ u. Result.ok (record u { did_ctype_init = false }))

-- `tls::set_thread` and `tls::get_thread`
abbrev pub set_thread : Ptr → Tls → Tls
set_thread p t = record t { thread = p }

abbrev pub get_thread : Tls → Ptr
get_thread t = t.thread

-- The kernel thread: its register `fs`, the objects by their address, and for which of them
-- `__ctype_init` was called.
pub record Cpu : Type 0 where
  pub fs : Ptr
  pub objects : Ptr → Tls
  pub ctype_inits : List Ptr

-- `after()` of the object at an address
abbrev pub after_of : Ptr → Ptr
after_of this = this + sizeof_tls

-- `tls::use` of the object at an address
unfoldable pub use_tls : Ptr → Cpu → Cpu
use_tls this c =
    let t = c.objects this in
    if not t.did_ctype_init
    then record {
      fs = after_of this;
      objects = update c.objects this (record t { did_ctype_init = true });
      ctype_inits = c.ctype_inits ++ (this ∷ []);
    }
    else record c { fs = after_of this }

-- `tls::current`
unfoldable pub current : Cpu → Ptr
current c = c.fs - sizeof_tls

-- `tls::current_thread`: the field `thread` of the header at `fs`
unfoldable pub current_thread : Cpu → Ptr
unfolding current
current_thread c = get_thread (c.objects (current c))
