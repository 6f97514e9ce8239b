-- ===== src/Open.antt =====
-- Proyecto1/kernel-linux/fs/open.c: opening files, to which the project adds a call of
-- `track_syscall`, and the other calls of that file. Flag values are those of x86-64.
pub mod Flags
pub mod Consistent
pub mod Descriptors
pub mod Installed
pub mod Holds
pub mod Truncate
pub mod Attributes
pub mod Directories
pub mod Balanced
pub mod Access
pub mod Allocate
mod Tests
use so2_202110206_2svac.Common.{ℕ}

abbrev pub o_creat : ℕ
o_creat = 0x40

abbrev pub o_excl : ℕ
o_excl = 0x80

abbrev pub o_trunc : ℕ
o_trunc = 0x200

abbrev pub o_append : ℕ
o_append = 0x400

abbrev pub o_dsync : ℕ
o_dsync = 0x1000

abbrev pub o_largefile : ℕ
o_largefile = 0x8000

abbrev pub o_directory : ℕ
o_directory = 0x1_0000

abbrev pub o_nofollow : ℕ
o_nofollow = 0x2_0000

abbrev pub o_cloexec : ℕ
o_cloexec = 0x8_0000

-- `__O_SYNC`
abbrev pub o_sync : ℕ
o_sync = 0x10_0000

abbrev pub o_path : ℕ
o_path = 0x20_0000

-- `__O_TMPFILE`
abbrev pub o_tmpfile : ℕ
o_tmpfile = 0x40_0000

abbrev pub valid_open_flags : ℕ
valid_open_flags = 0x7f_ffc3

abbrev pub may_write : ℕ
may_write = 0x2

abbrev pub may_append : ℕ
may_append = 0x8

abbrev pub resolve_no_xdev : ℕ
resolve_no_xdev = 0x1

abbrev pub resolve_no_magiclinks : ℕ
resolve_no_magiclinks = 0x2

abbrev pub resolve_no_symlinks : ℕ
resolve_no_symlinks = 0x4

abbrev pub resolve_beneath : ℕ
resolve_beneath = 0x8

abbrev pub resolve_in_root : ℕ
resolve_in_root = 0x10

abbrev pub resolve_cached : ℕ
resolve_cached = 0x20

-- S_IALLUGO and S_IFREG
abbrev pub all_permissions : ℕ
all_permissions = 0xfff

abbrev pub regular_file : ℕ
regular_file = 0x8000

-- `struct open_how`
pub record OpenHow : Type 0 where
  pub flags : ℕ
  pub mode : ℕ
  pub resolve : ℕ

-- `struct open_flags`
pub record OpenFlags : Type 0 where
  pub open_flag : ℕ
  pub mode : ℕ
  pub acc_mode : ℕ
  pub intent : ℕ
  pub lookup_flags : ℕ
