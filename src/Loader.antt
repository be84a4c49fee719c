-- ===== src/Loader.antt =====
-- The first part of platform/tls_linux.cc: the images of thread-local storage in the modules that are
-- loaded, as the loader's program headers describe them.
pub mod Headers
use gthread.Outcome
use gthread.Outcome.{Result, runtime_error, out_of_bounds}
use gthread.Common.{
  ℕ, zero, suc, ◌+◌, ◌-◌, ◌*◌, ◌/◌, ◌%◌, ◌^◌, ◌≤◌, ◌<◌, ◌≡◌, refl, sym, ap, ◌∙◌, ◌≢◌, ◌⊎◌, inl, inr,
  Bool, true, false, not, ◌&&◌, ◌||◌, Option, none, some, List, [], ◌∷◌, ◌++◌, arith, ltb, leb,
  ◌==◌, if◌then◌else◌, Ptr, null, Bool-cases, length, All, All-map, count, update, modulus,
  sub_size, update_self, update_ne, eq_of_==, ==-of_ne, ==_self,
}

abbrev pub k_num_slots : ℕ
k_num_slots = 32

-- `tls_image`; a slot without an image has the address null.
pub record Image : Type 0 where
  pub address : Ptr
  pub image_size : ℕ
  pub mem_offset : ℕ
  pub reserve : ℕ

abbrev pub no_image : Image
no_image = record { address = null; image_size = 0; mem_offset = 0; reserve = 0 }

-- `ElfW(Phdr)`, and `dl_phdr_info` with its program headers, which the loader gives
pub record Phdr : Type 0 where
  pub is_tls : Bool
  pub p_vaddr : ℕ
  pub p_filesz : ℕ
  pub p_memsz : ℕ
  pub p_align : ℕ

pub record DlInfo : Type 0 where
  pub dlpi_addr : ℕ
  pub dlpi_tls_modid : ℕ
  pub headers : List Phdr

-- `n & (align - 1)`, for an alignment that is 0 or a power of two
abbrev pub low_part : ℕ → ℕ → ℕ
low_part n align = if align == 0 then n else n % align

-- what the callback writes for a module
abbrev pub image_of : DlInfo → Phdr → Image
image_of info p =
    let offset = low_part (sub_size 0 p.p_memsz) p.p_align in
    record {
      address = (info.dlpi_addr + p.p_vaddr) % modulus;
      image_size = p.p_filesz;
      mem_offset = offset;
      reserve = (offset + p.p_memsz) % modulus;
    }

-- the loop of the callback, from the last header to the first
unfoldable pub last_tls : List Phdr → Option Phdr
last_tls [] = none
last_tls (p ∷ ps) = elim (last_tls ps) [
  | some q ↦ some q
  | none ↦ if p.is_tls then some p else none
]

-- An array that is written at an index.
unfoldable pub set : List Image → ℕ → Image → List Image
set [] i x = []
set (y ∷ ys) zero x = x ∷ ys
set (y ∷ ys) (suc i) x = y ∷ set ys i x

-- `dl_iterate_phdr_init_cb`; `none` is the result -1.
unfoldable pub callback : DlInfo → List Image → Result (Option (List Image))
unfolding last_tls set
callback info images = elim (last_tls info.headers) [
  | none ↦ Result.ok (some images)
  | some p ↦
      if info.dlpi_tls_modid == 0
      then Result.ok none
      else if ltb (info.dlpi_tls_modid - 1) (length images)
      then Result.ok (some (set images (info.dlpi_tls_modid - 1) (image_of info p)))
      else Result.fault out_of_bounds
]

-- `dl_iterate_phdr` calls the callback on one module after the other until it fails.
unfoldable pub iterate : List DlInfo → List Image → Result (Option (List Image))
unfolding callback
iterate [] images = Result.ok (some images)
iterate (m ∷ ms) images =
    Outcome.◌>>=◌ (callback m images)
      (λ r. elim r [ none ↦ Result.ok none | some images' ↦ iterate ms images' ])

abbrev pub blank : ℕ → List Image
blank zero = []
blank (suc n) = no_image ∷ blank n

-- the fields of the thread's header that glibc needs
pub record Magic : Type 0 where
  pub sysinfo : ℕ
  pub stack_guard : ℕ
  pub pointer_guard : ℕ
  pub glibc_stack_size : ℕ

-- the static variables of `find_tls_images`, with `magic_pointers`
pub record Found : Type 0 where
  pub has : Bool
  pub images : List Image
  pub magic_pointers : Magic

-- `find_tls_images`, with the modules loaded and the header in use; `none` is the null pointer.
unfoldable pub find_tls_images : List DlInfo → Magic → Found → Result (Option (List Image) × Found)
unfolding iterate
find_tls_images modules magic f =
    if f.has
    then Result.ok (some f.images, f)
    else Outcome.◌>>=◌ (iterate modules (blank k_num_slots)) (λ r. elim r [
      | none ↦ Result.ok (none, f)
      | some images ↦
          Result.ok (some images, record { has = true; images = images; magic_pointers = magic })
    ])

-- `tls::prefix_bytes`, from the images
unfoldable pub prefix_bytes : List Image → ℕ
prefix_bytes [] = 0
prefix_bytes (x ∷ xs) = if x.address == null then 0 else x.reserve + prefix_bytes xs

-- An image whose bytes fit in what is reserved for it.
pub record IsImage (x : Image) : Type 0 where
  pub some_address : x.address ≢ null
  pub fits : x.mem_offset + x.image_size ≤ x.reserve
  pub some_bytes : 0 < x.reserve
