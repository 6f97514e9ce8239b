-- ===== src/Io.antt =====
-- Proyecto1/kernel-linux/fs/read_write.c: seeking in a file, and the `read` and `write` system
-- calls, to which the project adds calls of `track_syscall`. A `loff_t`, `ssize_t` or result is
-- its 64-bit word: it is negative from 2 ^ 63 on.
pub mod Seek
pub mod Transfer
pub mod Positions
pub mod Bounds
pub mod Counted
mod Tests
use so2_202110206_2svac.Common.{ℕ, ◌-◌, ◌*◌, ◌^◌, Bool, not, ltb}
use so2_202110206_2svac.Common.Word.{word, add64}

-- What the calls read and change of a `struct file`; the tests are of bits of its `f_mode`.
pub record File : Type 0 where
  pub f_pos : ℕ
  pub f_version : ℕ
  pub readable : Bool
  pub can_read : Bool
  pub writable : Bool
  pub can_write : Bool
  pub stream : Bool
  pub seekable : Bool
  pub pread : Bool
  pub pwrite : Bool
  pub unsigned_offsets : Bool

abbrev pub half : ℕ
half = 2 ^ 63

abbrev pub is_negative : ℕ → Bool
is_negative x = not (ltb x half)

-- `a < b` of signed numbers
abbrev pub signed_ltb : ℕ → ℕ → Bool
signed_ltb a b = ltb (add64 a half) (add64 b half)
