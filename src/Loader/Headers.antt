-- ===== src/Loader/Headers.antt =====
-- The images that `find_tls_images` finds.
use Prim.Native.Nat.{◌∣◌}
use native.Mathlib.Nat.{mod-lt, mod-add-mod, mod-eq-zero_of_dvd, mod-eq_of_lt}
use gthread.Loader.{DlInfo, Phdr, image_of, low_part, IsImage}
use gthread.Common.{
  ℕ, ◌+◌, ◌-◌, ◌%◌, ◌≤◌, ◌<◌, ◌≡◌, ap, ◌∙◌, ◌≢◌, arith, null, modulus, sub_size, ==-of_ne,
}

-- What the loader promises of the header of a module's image: the bytes in the file are the first of
-- those in memory, the alignment is a power of two, and the sizes are far from wrapping round.
pub record IsHeader (info : DlInfo) (p : Phdr) : Type 0 where
  pub file_fits : p.p_filesz ≤ p.p_memsz
  pub some_memory : 0 < p.p_memsz
  pub aligns : p.p_align ∣ modulus
  pub no_wrap : p.p_memsz + p.p_align ≤ modulus
  pub some_align : 0 < p.p_align
  pub some_place : (info.dlpi_addr + p.p_vaddr) % modulus ≢ null

-- The image that the callback writes for a header as the loader promises: its bytes fit in what it
-- reserves, which is the least multiple of the alignment that holds the bytes in memory.
pub image_of-IsImage :
    (info : DlInfo) (p : Phdr)
    → IsHeader info p
    → IsImage (image_of info p)
      × ((image_of info p).reserve % p.p_align ≡ 0)
      × (p.p_memsz ≤ (image_of info p).reserve)
      × ((image_of info p).reserve < p.p_memsz + p.p_align)
image_of-IsImage info p h = (
  record {
    some_address = h.some_place;
    fits = omega (arith, same, reserved, h.file_fits);
    some_bytes = omega (arith, reserved, h.some_memory);
  },
  ap (λ n. n % p.p_align) reserved ∙ multiple,
  omega (arith, reserved),
  omega (arith, reserved, below),
)
  where
    offset : ℕ
    offset = (modulus - p.p_memsz) % p.p_align

    below : offset < p.p_align
    below = mod-lt (modulus - p.p_memsz) {m = p.p_align} h.some_align

    multiple : (offset + p.p_memsz) % p.p_align ≡ 0
    multiple =
        mod-add-mod (modulus - p.p_memsz) p.p_align p.p_memsz
        ∙ (ap (λ n. n % p.p_align) (omega (arith, h.no_wrap))
            ∙ mod-eq-zero_of_dvd p.p_align h.aligns)

    same : low_part (sub_size 0 p.p_memsz) p.p_align ≡ offset
    same =
        rw (==-of_ne p.p_align 0 (omega (arith, h.some_align)))
          (ap (λ n. n % p.p_align) (omega (arith, h.no_wrap, h.some_align, h.some_memory)))

    reserved : (image_of info p).reserve ≡ offset + p.p_memsz
    reserved =
        ap (λ n. (n + p.p_memsz) % modulus) same ∙ mod-eq_of_lt (omega (arith, below, h.no_wrap))
