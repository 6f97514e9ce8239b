-- ===== src/Fork.antt =====
-- Proyecto1/kernel-linux/kernel/fork.c: how a task is made, with the calls of `track_syscall` that
-- the project adds to `fork` and `clone`. Flag values are those of x86-64.
pub mod Stages
pub mod Copy
pub mod Unwound
pub mod Create
pub mod Counted
mod Tests
use so2_202110206_2svac.Common.{ℕ, Bool}

abbrev pub clone_vm : ℕ
clone_vm = 0x100

abbrev pub clone_fs : ℕ
clone_fs = 0x200

abbrev pub clone_sighand : ℕ
clone_sighand = 0x800

abbrev pub clone_pidfd : ℕ
clone_pidfd = 0x1000

abbrev pub clone_vfork : ℕ
clone_vfork = 0x4000

abbrev pub clone_parent : ℕ
clone_parent = 0x8000

abbrev pub clone_thread : ℕ
clone_thread = 0x1_0000

abbrev pub clone_newns : ℕ
clone_newns = 0x2_0000

abbrev pub clone_parent_settid : ℕ
clone_parent_settid = 0x10_0000

abbrev pub clone_detached : ℕ
clone_detached = 0x40_0000

abbrev pub clone_untraced : ℕ
clone_untraced = 0x80_0000

abbrev pub clone_newuser : ℕ
clone_newuser = 0x1000_0000

abbrev pub clone_newpid : ℕ
clone_newpid = 0x2000_0000

abbrev pub csignal : ℕ
csignal = 0xff

abbrev pub sigchld : ℕ
sigchld = 17

-- The fields of `struct kernel_clone_args` that the modelled code reads.
pub record CloneArgs : Type 0 where
  pub flags : ℕ
  pub exit_signal : ℕ
  pub pidfd : ℕ
  pub parent_tid : ℕ
  pub child_tid : ℕ
  pub stack : ℕ
  pub tls : ℕ
  pub kthread : Bool
