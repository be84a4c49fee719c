-- ===== src/Tests/Storage.antt =====
-- Thread-local storage with the images of two modules.
use native.Mathlib.Nat.{dvd-mul_right}
use gthread.Tls.{
  Bytes, construct, Tls, reset, destruct, free_slots, free_slot, static_at, unallocated,
  tcbhead_bytes, vector_bytes,
}
use gthread.Loader.{
  set, last_tls, callback, iterate, find_tls_images, Phdr, DlInfo, Magic, Image, no_image,
  prefix_bytes, k_num_slots, image_of, blank, IsImage,
}
use gthread.Tls.Images.{total, AllEmpty}
use gthread.Tls.Construct.{construct-fits, construct-overruns}
use gthread.Tls.Reset.{IsApart, reset-fills, restored, reset_lem}
use gthread.Tls.Numbers.{reset-misnumbers}
use gthread.Tls.Once.{reset-frees_once}
use gthread.Loader.Headers.{IsHeader, image_of-IsImage}
use gthread.Outcome.{Result}
use gthread.Common.{
  ℕ, ◌+◌, ◌-◌, ◌%◌, ◌≤◌, ◌<◌, ◌≡◌, refl, ◌⊎◌, true, false, some, List, [], ◌∷◌, ◌++◌, arith, ltb,
  if◌then◌else◌, Ptr, length, All, update,
}

abbrev first : Image
first = record { address = 1000; image_size = 16; mem_offset = 8; reserve = 64 }

abbrev second : Image
second = record { address = 2000; image_size = 4; mem_offset = 0; reserve = 32 }

abbrev modules : List Image
modules = first ∷ second ∷ []

abbrev unused : List Image
unused = no_image ∷ no_image ∷ []

abbrev magic : Magic
magic = record { sysinfo = 1; stack_guard = 2; pointer_guard = 3; glibc_stack_size = 4 }

-- each byte is the last one of its address
abbrev memory : Bytes
memory a = a % 256

modules-AreImages : All IsImage modules
modules-AreImages = (
  record { some_address = omega arith; fits = omega arith; some_bytes = omega arith },
  (record { some_address = omega arith; fits = omega arith; some_bytes = omega arith }, tt),
)

unused-AllEmpty : AllEmpty unused
unused-AllEmpty = (refl, (refl, tt))

abbrev object : Tls
object = construct (modules ++ unused) magic 9000 500000 memory

prefix_lem : prefix_bytes (modules ++ unused) ≡ 96
unfolding prefix_bytes
prefix_lem = refl

construct-fits_example :
    (object.base ≡ 9000 - prefix_bytes (modules ++ unused))
    × ((a : Ptr)
        → (a < 9000 - prefix_bytes (modules ++ unused)) ⊎ (9000 + tcbhead_bytes ≤ a)
        → (a < 500000) ⊎ (500000 + vector_bytes ≤ a)
        → object.memory a ≡ memory a)
    × ((front : List Image) (x : Image) (rest : List Image)
        → modules ≡ front ++ (x ∷ rest)
        → (object.slots (length front + 1) ≡ static_at (9000 - total front - x.reserve))
          × (9000 - prefix_bytes (modules ++ unused) ≤ 9000 - total front - x.reserve))
construct-fits_example =
    construct-fits modules unused magic 9000 500000 memory modules-AreImages unused-AllEmpty
      (omega (arith, prefix_lem)) (omega arith)

construct-overruns_example :
    (p : Ptr) × ((construct (modules ++ (no_image ∷ second ∷ [])) magic 9000 500000 memory).slots 4
      ≡ static_at p)
    × (p + 32 ≡ (construct (modules ++ (no_image ∷ second ∷ [])) magic 9000 500000 memory).base)
    × (p < (construct (modules ++ (no_image ∷ second ∷ [])) magic 9000 500000 memory).base)
construct-overruns_example =
    construct-overruns modules [] no_image second magic 9000 500000 memory modules-AreImages refl
      modules-AreImages.1.0 (omega arith) (omega arith)

-- an object of these images whose slot 5 was allocated dynamically
abbrev loaded : Tls
loaded = record {
  after = 9000;
  base = 8904;
  num_modules = k_num_slots;
  slots = update (λ _. unallocated) 5 (record { v = 7000; is_static = false });
  thread = 100;
  did_ctype_init = true;
  magic = magic;
  memory = memory;
  freed = [];
}

reset-fills_example :
    (u : Tls) × (reset (modules ++ unused) loaded ≡ Result.ok u)
    × ((front : List Image) (x : Image) (rest : List Image) (k : ℕ)
        → modules ≡ front ++ (x ∷ rest)
        → IsApart loaded x
        → k < x.reserve
        → u.memory (9000 - total front - x.reserve + k)
          ≡ (if ltb k x.image_size then memory (x.address + k) else 0))
reset-fills_example =
    reset-fills modules unused loaded modules-AreImages unused-AllEmpty refl (omega arith)

reset-misnumbers_example :
    (u : Tls) × (reset (modules ++ unused) object ≡ Result.ok u)
    × (u.slots 1 ≡ object.slots 1)
    × ((front : List Image) (x : Image) (rest : List Image)
        → modules ≡ front ++ (x ∷ rest)
        → u.slots (length front + 2) ≡ object.slots (length front + 1))
reset-misnumbers_example =
    reset-misnumbers modules unused magic 9000 500000 memory modules-AreImages unused-AllEmpty
      (omega (arith, prefix_lem)) (omega arith)

reset-frees_once_example :
    ((restored modules loaded).freed ≡ (destruct loaded).freed)
    × ((destruct (restored modules loaded)).freed ≡ (restored modules loaded).freed)
reset-frees_once_example =
    reset-frees_once (modules ++ unused) loaded (restored modules loaded)
      (reset_lem modules unused loaded modules-AreImages refl (omega arith))

freed_lem : (destruct loaded).freed ≡ 7000 ∷ []
unfolding destruct free_slots free_slot
freed_lem = refl

abbrev info : DlInfo
info = record {
  dlpi_addr = 4000;
  dlpi_tls_modid = 1;
  headers = record { is_tls = true; p_vaddr = 96; p_filesz = 20; p_memsz = 50; p_align = 16 } ∷ [];
}

abbrev header : Phdr
header = record { is_tls = true; p_vaddr = 96; p_filesz = 20; p_memsz = 50; p_align = 16 }

header-IsHeader : IsHeader info header
header-IsHeader = record {
  file_fits = omega arith;
  some_memory = omega arith;
  aligns = dvd-mul_right 16 1152921504606846976;
  no_wrap = omega arith;
  some_align = omega arith;
  some_place = omega arith;
}

image_of-IsImage_example :
    IsImage (image_of info header)
    × ((image_of info header).reserve % 16 ≡ 0)
    × (50 ≤ (image_of info header).reserve)
    × ((image_of info header).reserve < 50 + 16)
image_of-IsImage_example = image_of-IsImage info header header-IsHeader

found_lem :
    find_tls_images (info ∷ []) magic (record { has = false; images = []; magic_pointers = magic })
    ≡ Result.ok (
      some (image_of info header ∷ blank 31),
      record { has = true; images = image_of info header ∷ blank 31; magic_pointers = magic },
    )
unfolding find_tls_images iterate callback last_tls set
found_lem = refl
