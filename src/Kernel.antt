-- ===== src/Kernel.antt =====
-- What the modelled code sees of the rest of the kernel (Linux 6.8, outside this repository): tasks
-- and their memory descriptors as records, error codes, and the services that a system call uses.
-- A service is a function of an `Env`, one value for one call; nothing is assumed of its result.
use so2_202110206_2svac.Common.{ℕ, zero, suc, Bool, Option}
use so2_202110206_2svac.Common.Int.{ℤ, pos, negsuc}

-- The fields of `struct mm_struct` that the modelled code reads or writes. Addresses are in bytes,
-- `total_vm`, `data_vm`, `locked_vm` and `rss` (what `get_mm_rss` returns) in pages.
pub record Mm : Type 0 where
  pub total_vm : ℕ
  pub data_vm : ℕ
  pub exec_vm : ℕ
  pub stack_vm : ℕ
  pub locked_vm : ℕ
  pub rss : ℕ
  pub brk : ℕ
  pub start_brk : ℕ
  pub start_data : ℕ
  pub end_data : ℕ
  pub map_count : ℕ
  pub def_flags : ℕ

-- `struct task_struct`: `mm` is null for a kernel thread, and `oom_score_adj` is that of `signal`.
pub record Task : Type 0 where
  pub pid : ℤ
  pub mm : Option Mm
  pub oom_score_adj : Option ℤ

pub record Env : Type 0 where
  pub find_task_by_vpid : ℤ → Option Task
  -- `capable(CAP)`
  pub capable : ℕ → Bool
  -- whether `kmalloc` of so many bytes, or `kmalloc_array` of so many items of a size, succeeds
  pub kmalloc : ℕ → Bool
  pub kmalloc_array : ℕ → ℕ → Bool
  -- the bytes that `copy_to_user` could not copy to an address, and what `put_user` returns
  pub copy_to_user : ℕ → ℕ → ℕ
  pub put_user : ℕ → ℕ

-- `-E` as the `long` that a system call returns.
abbrev pub error : ℕ → ℤ
error zero = pos 0
error (suc n) = negsuc n

abbrev pub eperm : ℕ
eperm = 1

abbrev pub esrch : ℕ
esrch = 3

abbrev pub eintr : ℕ
eintr = 4

abbrev pub ebadf : ℕ
ebadf = 9

abbrev pub eagain : ℕ
eagain = 11

abbrev pub enomem : ℕ
enomem = 12

abbrev pub eacces : ℕ
eacces = 13

abbrev pub efault : ℕ
efault = 14

abbrev pub eexist : ℕ
eexist = 17

abbrev pub enodev : ℕ
enodev = 19

abbrev pub einval : ℕ
einval = 22

abbrev pub etxtbsy : ℕ
etxtbsy = 26

abbrev pub eoverflow : ℕ
eoverflow = 75

abbrev pub eopnotsupp : ℕ
eopnotsupp = 95

abbrev pub cap_setgid : ℕ
cap_setgid = 6

abbrev pub cap_setuid : ℕ
cap_setuid = 7

abbrev pub cap_ipc_lock : ℕ
cap_ipc_lock = 14

abbrev pub cap_sys_admin : ℕ
cap_sys_admin = 21
