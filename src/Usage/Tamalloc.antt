-- ===== src/Usage/Tamalloc.antt =====
-- tamalloc.c: an allocation of zeroed pages that are reserved and not yet backed by memory.
use native.Mathlib.Decide.{ℕ_discrete, dec_lt}
use so2_202110206_2svac.Common.{
  ℕ, ◌+◌, ◌-◌, ◌*◌, ◌/◌, ◌≤◌, ◌<◌, ◌≡◌, ◌⊎◌, inl, inr, ◌==◌, if◌then◌else◌, arith,
}
use so2_202110206_2svac.Common.Word.{word, page_size, page_align, err_word, is_err_value}
use so2_202110206_2svac.Kernel.{einval, enomem}

-- `PROT_READ | PROT_WRITE`
abbrev pub prot : ℕ
prot = 0x3

-- `MAP_PRIVATE | MAP_ANONYMOUS | MAP_NORESERVE`
abbrev pub flags : ℕ
flags = 0x4022

-- `vm_mmap` with no file takes an address, a length, a protection, flags and an offset.
unfoldable pub tamalloc : (ℕ → ℕ → ℕ → ℕ → ℕ → ℕ) → ℕ → ℕ
tamalloc vm_mmap size =
    if size == 0
    then err_word einval
    else let aligned_size = page_align size in
      if aligned_size == 0
      then err_word enomem
      else let addr = vm_mmap 0 aligned_size prot flags 0 in
        if is_err_value addr then addr else addr

-- For a size below 2 ^ 64, `julioz_tamalloc` fails with -EINVAL for no bytes and with -ENOMEM where
-- the size does not round up to whole pages below 2 ^ 64; else it returns what `vm_mmap` makes of
-- whole pages that hold the size with less than a page to spare.
pub tamalloc_lem :
    (vm_mmap : ℕ → ℕ → ℕ → ℕ → ℕ → ℕ) (size : ℕ)
    → size < word
    → ((size ≡ 0) × (tamalloc vm_mmap size ≡ err_word einval))
      ⊎ ((word - page_size < size) × (tamalloc vm_mmap size ≡ err_word enomem))
      ⊎ ((pages : ℕ) × (tamalloc vm_mmap size ≡ vm_mmap 0 (pages * page_size) prot flags 0)
          × (size ≤ pages * page_size)
          × (pages * page_size < size + page_size))
unfolding tamalloc
tamalloc_lem vm_mmap size h = elim (ℕ_discrete size 0) [
  | yes e ↦ inl (e, ground arith)
  | no some_bytes ↦ elim (dec_lt (word - page_size) size) [
    | yes big ↦ inr (inl (big, ground arith))
    | no fits ↦ inr (inr ((size + 4095) / page_size, ground arith, omega arith, omega arith))
  ]
]
