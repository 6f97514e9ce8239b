-- ===== src/Mmap/Ksys.antt =====
-- `ksys_mmap_pgoff` and the two system calls on it, of mmap.c, and the `ksys_mmap_pgoff` of
-- files/originalmmap.c, which has no limit check.
use so2_202110206_2svac.Common.{
  ℕ, ◌+◌, ◌-◌, ◌/◌, ◌*◌, ◌%◌, ◌^◌, not, Option, none, some, inl, inr, ◌==◌, if◌then◌else◌,
}
use so2_202110206_2svac.Common.Word.{add64, page_shr, page_size, err_word}
use so2_202110206_2svac.Kernel.{Mm, enomem, ebadf, einval, efault}
use so2_202110206_2svac.Limits.{Limits, is_request_accepted}
use so2_202110206_2svac.Mmap.{File, has, map_anonymous, map_hugetlb}
use so2_202110206_2svac.Mmap.Map.{MapEnv}

-- `ALIGN(x, size)` for a power of two.
abbrev align_to : ℕ → ℕ → ℕ
align_to x size = add64 x (size - 1) / size * size

-- How `ksys_mmap_pgoff` comes by its file: it returns at once, or goes to `out_fput` with a file
-- and a code, or goes on with a file (or none) and the length.
pub data Opened : Type 0 where
  returns : ℕ → Opened
  puts : File → ℕ → Opened
  opened : Option File → ℕ → Opened

unfoldable pub open_file : MapEnv → ℕ → ℕ → ℕ → Opened
open_file k len flags fd =
    if not (has flags map_anonymous)
    then elim (k.fget fd) [
      | none ↦ returns (err_word ebadf)
      | some file ↦
          if file.hugepages
          then opened (some file) (align_to len file.huge_page_size)
          else if has flags map_hugetlb
          then puts file (err_word einval)
          else opened (some file) len
    ]
    else if has flags map_hugetlb
    then elim (k.hstate_sizelog (flags / 2 ^ 26 % 64)) [
      | none ↦ returns (err_word einval)
      | some size ↦
          let len' = align_to len size in
          elim (k.hugetlb_file_setup len') [
            | inl e ↦ returns e
            | inr file ↦ opened (some file) len'
          ]
    ]
    else opened none len

-- The memory and the limits after a call, what it returns, and how many references to files the
-- task holds, those of before included.
pub record MapOutcome : Type 0 where
  pub limits : Limits
  pub mm : Mm
  pub result : ℕ
  pub files_held : ℕ

hold : Option File → ℕ → ℕ
hold none held = held
hold (some file) held = held + 1

fput : Option File → ℕ → ℕ
fput none held = held
fput (some file) held = held - 1

-- The call of `vm_mmap_pgoff` and the label `out_fput`.
map_and_put : MapEnv → Limits → Mm → ℕ → Option File → ℕ → ℕ → ℕ → ℕ → ℕ → MapOutcome
unfolding fput
map_and_put k s mm held file addr len prot flags pgoff =
    let (mm', result) = k.vm_mmap_pgoff mm file addr len prot flags pgoff in
    record { limits = s; mm = mm'; result = result; files_held = fput file held }

-- A return with neither memory nor limits changed.
abbrev unmapped : Limits → Mm → ℕ → ℕ → MapOutcome
unmapped s mm held result = record { limits = s; mm = mm; result = result; files_held = held }

-- `ksys_mmap_pgoff` once it has its file.
unfoldable pub checked_map : MapEnv → Limits → Mm → ℕ → Opened → ℕ → ℕ → ℕ → ℕ → MapOutcome
unfolding hold fput map_and_put
checked_map k s mm held (returns e) addr prot flags pgoff = unmapped s mm held e
checked_map k s mm held (puts file e) addr prot flags pgoff =
    unmapped s mm (fput (some file) (hold (some file) held)) e
checked_map k s mm held (opened file len) addr prot flags pgoff =
    let (s', accepted) = is_request_accepted k.env s k.current_pid len in
    if not accepted
    then unmapped s' mm (fput file (hold file held)) (err_word enomem)
    else map_and_put k s' mm (hold file held) file addr len prot flags pgoff

unfoldable pub ksys_mmap_pgoff : MapEnv → Limits → Mm → ℕ → ℕ → ℕ → ℕ → ℕ → ℕ → ℕ → MapOutcome
ksys_mmap_pgoff k s mm held addr len prot flags fd pgoff =
    checked_map k s mm held (open_file k len flags fd) addr prot flags pgoff

-- The same of files/originalmmap.c, which makes no check.
unfoldable pub unchecked_map : MapEnv → Limits → Mm → ℕ → Opened → ℕ → ℕ → ℕ → ℕ → MapOutcome
unfolding hold fput map_and_put
unchecked_map k s mm held (returns e) addr prot flags pgoff = unmapped s mm held e
unchecked_map k s mm held (puts file e) addr prot flags pgoff =
    unmapped s mm (fput (some file) (hold (some file) held)) e
unchecked_map k s mm held (opened file len) addr prot flags pgoff =
    map_and_put k s mm (hold file held) file addr len prot flags pgoff

unfoldable pub original_ksys_mmap_pgoff :
    MapEnv → Limits → Mm → ℕ → ℕ → ℕ → ℕ → ℕ → ℕ → ℕ → MapOutcome
original_ksys_mmap_pgoff k s mm held addr len prot flags fd pgoff =
    unchecked_map k s mm held (open_file k len flags fd) addr prot flags pgoff

-- `struct mmap_arg_struct`
pub record MmapArgs : Type 0 where
  pub addr : ℕ
  pub len : ℕ
  pub prot : ℕ
  pub flags : ℕ
  pub fd : ℕ
  pub offset : ℕ

-- The structure is what `copy_from_user` makes of the argument, `none` if it fails.
unfoldable pub old_mmap : MapEnv → Limits → Mm → ℕ → Option MmapArgs → MapOutcome
old_mmap k s mm held none = record {
  limits = s;
  mm = mm;
  result = err_word efault;
  files_held = held;
}
old_mmap k s mm held (some a) =
    if not (a.offset % page_size == 0)
    then unmapped s mm held (err_word einval)
    else ksys_mmap_pgoff k s mm held a.addr a.len a.prot a.flags a.fd (page_shr a.offset)
