-- ===== src/Mmap.antt =====
-- Proyecto3/project3/mm/mmap.c: the `brk` and `mmap` system calls, with the checks against
-- crudmemlimit.c that the project adds to them. This file has what their parts share: flags,
-- areas, files and the kernel around one call. Flag values are those of x86-64.
pub mod Checks
pub mod Brk
pub mod Map
pub mod Ksys
pub mod Growth
pub mod Enforce
pub mod Bounded
pub mod Intercept
pub mod Requests
mod Tests
use so2_202110206_2svac.Common.{ℕ, ◌-◌, Bool, Option, bit_and, not, ◌==◌, ltb}
use so2_202110206_2svac.Common.Int.{ℤ}
use so2_202110206_2svac.Kernel.{Mm, Env}

abbrev pub vm_exec : ℕ
vm_exec = 0x4

abbrev pub vm_shared : ℕ
vm_shared = 0x8

-- `VM_MAYREAD | VM_MAYWRITE | VM_MAYEXEC`
abbrev pub vm_may_access : ℕ
vm_may_access = 0x70

abbrev pub vm_maywrite : ℕ
vm_maywrite = 0x20

abbrev pub vm_mayexec : ℕ
vm_mayexec = 0x40

abbrev pub vm_mayshare : ℕ
vm_mayshare = 0x80

-- `VM_GROWSDOWN | VM_GROWSUP`, the second of which is 0.
abbrev pub vm_grows : ℕ
vm_grows = 0x100

abbrev pub vm_locked : ℕ
vm_locked = 0x2000

abbrev pub vm_account : ℕ
vm_account = 0x10_0000

abbrev pub vm_noreserve : ℕ
vm_noreserve = 0x20_0000

abbrev pub map_shared : ℕ
map_shared = 0x1

abbrev pub map_private : ℕ
map_private = 0x2

abbrev pub map_shared_validate : ℕ
map_shared_validate = 0x3

abbrev pub map_type : ℕ
map_type = 0xf

abbrev pub map_fixed : ℕ
map_fixed = 0x10

abbrev pub map_anonymous : ℕ
map_anonymous = 0x20

abbrev pub map_locked : ℕ
map_locked = 0x2000

abbrev pub map_noreserve : ℕ
map_noreserve = 0x4000

abbrev pub map_populate : ℕ
map_populate = 0x8000

-- `MAP_POPULATE | MAP_NONBLOCK`
abbrev pub map_populate_nonblock : ℕ
map_populate_nonblock = 0x1_8000

abbrev pub map_hugetlb : ℕ
map_hugetlb = 0x4_0000

abbrev pub map_fixed_noreplace : ℕ
map_fixed_noreplace = 0x10_0000

abbrev pub prot_read : ℕ
prot_read = 0x1

abbrev pub prot_write : ℕ
prot_write = 0x2

abbrev pub prot_exec : ℕ
prot_exec = 0x4

-- `flags & mask`, as a test, and `flags & ~mask`.
abbrev pub has : ℕ → ℕ → Bool
has flags mask = not (bit_and flags mask == 0)

abbrev pub without : ℕ → ℕ → ℕ
without flags mask = flags - bit_and flags mask

-- A `vm_area_struct` that a search returns; `start_gap` is its `vm_start_gap`.
pub record Vma : Type 0 where
  pub vm_start : ℕ
  pub vm_end : ℕ
  pub start_gap : ℕ

-- What `struct file` and its inode show here. The first five are `is_file_hugepages`, its page
-- size, and whether `f_mode` has FMODE_READ, FMODE_WRITE and FMODE_UNSIGNED_OFFSET; `regular` is
-- that the inode is a regular file, a block device or a socket.
pub record File : Type 0 where
  pub hugepages : Bool
  pub huge_page_size : ℕ
  pub readable : Bool
  pub writable : Bool
  pub unsigned_offset : Bool
  pub regular : Bool
  pub noexec : Bool
  pub swapfile : Bool
  pub append_only : Bool
  pub has_mmap : Bool
  pub supported_flags : ℕ

-- The kernel around one call: the configuration, the limits of the process, and what the functions
-- of other files, or of this file below the modelled ones, answer.
pub record MmapEnv : Type 0 where
  pub env : Env
  pub open env use *
  pub current_pid : ℤ
  -- what `mmap_write_lock_killable` reports
  pub lock_killed : Bool
  pub compat_brk : Bool
  pub brk_randomized : Bool
  pub rlimit_data : ℕ
  pub rlimit_max_data : ℕ
  pub rlimit_as : ℕ
  pub rlimit_memlock : ℕ
  pub ignore_rlimit_data : Bool
  pub sysctl_max_map_count : ℕ
  pub stack_guard_gap : ℕ
  pub mmap_min_addr : ℕ
  pub vm_data_default_flags : ℕ
  -- whether `check_data_rlimit` fails, given the limit, the new break and the data segment
  pub check_data_rlimit : ℕ → ℕ → ℕ → ℕ → ℕ → Bool
  pub is_data_mapping : ℕ → Bool
  -- `get_unmapped_area` for a file (or none), an address, a length, an offset and flags
  pub get_unmapped_area : Option File → ℕ → ℕ → ℕ → ℕ → ℕ
  -- `vma_find` from an address up to a limit, and `vma_prev_limit`
  pub vma_find : ℕ → ℕ → Option Vma
  pub vma_prev_limit : ℕ → Option Vma
  -- `do_vma_munmap` of a range: the memory after it, and whether it failed
  pub do_vma_munmap : Mm → ℕ → ℕ → Mm × Bool
  -- whether `security_vm_enough_memory_mm` refuses so many pages
  pub out_of_memory : ℕ → Bool
  -- whether an area has no policy and `can_vma_merge_after` allows it to take in what follows it
  pub can_vma_merge_after : Vma → ℕ → Bool
  pub prealloc_ok : Bool
  pub vm_area_alloc_ok : Bool
  pub store_ok : Bool
