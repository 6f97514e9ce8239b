-- ===== src/Open/Descriptors.antt =====
-- The calls of open.c that open and close a file descriptor: `do_sys_openat2`, `open`, `openat`,
-- `openat2`, `creat` and `close`. The table of descriptors is that of fs/file.c.
use so2_202110206_2svac.Common.{ℕ, Bool, ◌||◌, Option, none, some, bit_or, ltb, ◌==◌, if◌then◌else◌}
use so2_202110206_2svac.Common.Int.{ℤ, pos, negsuc}
use so2_202110206_2svac.Common.Result.{Result, ok, err, ◌>>=◌}
use so2_202110206_2svac.Kernel.{einval, eintr, ebadf}
use so2_202110206_2svac.Mmap.{has}
use so2_202110206_2svac.Monitor.Track.{Timespec, Counters, Tracked, track_syscall}
use so2_202110206_2svac.Open.{OpenHow, OpenFlags, o_largefile, o_path}
use so2_202110206_2svac.Open.Flags.{build_open_how, build_open_flags}

-- A table of descriptors: one that is unused is reserved, given up or filled, and a filled one is
-- emptied. A file is its number.
pub record FdTable (T : Type 0) : Type 0 where
  pub get_unused_fd_flags : T → ℕ → Result (ℕ × T)
  pub put_unused_fd : T → ℕ → T
  pub fd_install : T → ℕ → ℕ → T
  pub file_close_fd : T → ℕ → Option (ℕ × T)
  pub file_of : T → ℕ → Option ℕ

-- The kernel around one call: a name from the memory of the caller, the lookup of a file relative
-- to a directory, and a flush when a descriptor goes.
pub record OpenEnv : Type 0 where
  pub getname : ℕ → Result ℕ
  pub do_filp_open : ℤ → ℕ → OpenFlags → Result ℕ
  pub force_o_largefile : Bool
  -- what `copy_struct_from_user` makes of an address and a size
  pub copy_how : ℕ → ℕ → Result OpenHow
  -- `file_count`, and `f_op->flush`, a code that is 0 if there is none
  pub file_count : ℕ → ℕ
  pub flush : ℕ → ℕ

-- AT_FDCWD
abbrev pub at_fdcwd : ℤ
at_fdcwd = negsuc 99

-- The table after a call, and its descriptor or error.
abbrev pub Opened : Type 0 → Type 0
Opened T = T × Result ℕ

module _ {T : Type 0} (fds : FdTable T) (k : OpenEnv) where
  -- The last steps, with a descriptor reserved.
  unfoldable pub open_reserved : T → ℕ → ℤ → ℕ → OpenFlags → Opened T
  open_reserved t fd dfd name op = elim (k.do_filp_open dfd name op) [
    | err e ↦ (fds.put_unused_fd t fd, err e)
    | ok f ↦ (fds.fd_install t fd f, ok fd)
  ]

  unfoldable pub open_named : T → ℤ → ℕ → OpenHow → OpenFlags → Opened T
  open_named t dfd name how op = elim (fds.get_unused_fd_flags t how.flags) [
    | err e ↦ (t, err e)
    | ok (fd, t') ↦ open_reserved t' fd dfd name op
  ]

  unfoldable pub do_sys_openat2 : T → ℤ → ℕ → OpenHow → Opened T
  do_sys_openat2 t dfd filename how = elim (build_open_flags how) [
    | err e ↦ (t, err e)
    | ok op ↦ elim (k.getname filename) [
      | err e ↦ (t, err e)
      | ok name ↦ open_named t dfd name how op
    ]
  ]

  unfoldable pub do_sys_open : T → ℤ → ℕ → ℕ → ℕ → Opened T
  do_sys_open t dfd filename flags mode = do_sys_openat2 t dfd filename (build_open_how flags mode)

  abbrev pub large : ℕ → ℕ
  large flags = if k.force_o_largefile then bit_or flags o_largefile else flags

  -- `__NR_open` is 2.
  unfoldable pub sys_open : Counters → Timespec → T → ℕ → ℕ → ℕ → Tracked × Opened T
  sys_open c now t filename flags mode =
      (track_syscall c (pos 2) now, do_sys_open t at_fdcwd filename (large flags) mode)

  unfoldable pub sys_openat : T → ℤ → ℕ → ℕ → ℕ → Opened T
  sys_openat t dfd filename flags mode = do_sys_open t dfd filename (large flags) mode

  -- OPEN_HOW_SIZE_VER0 is 24.
  unfoldable pub sys_openat2 : T → ℤ → ℕ → ℕ → ℕ → Opened T
  sys_openat2 t dfd filename how usize =
      if ltb usize 24 then (t, err einval) else elim (k.copy_how how usize) [
        | err e ↦ (t, err e)
        | ok tmp ↦
            do_sys_openat2 t dfd filename
              (record tmp { flags = if has tmp.flags o_path then tmp.flags else large tmp.flags })
      ]

  -- `O_CREAT | O_WRONLY | O_TRUNC`
  unfoldable pub sys_creat : T → ℕ → ℕ → Opened T
  sys_creat t pathname mode = do_sys_open t at_fdcwd pathname (large 0x241) mode

  -- The part of `filp_flush` that has a result.
  unfoldable pub filp_flush : ℕ → ℕ
  filp_flush f = if k.file_count f == 0 then 0 else k.flush f

  -- -ERESTARTSYS, -ERESTARTNOINTR, -ERESTARTNOHAND and -ERESTART_RESTARTBLOCK
  abbrev pub restarts : ℕ → Bool
  restarts e = e == 512 || e == 513 || e == 514 || e == 516

  -- The table after `close`, and its error, 0 for none.
  unfoldable pub sys_close : T → ℕ → T × ℕ
  sys_close t fd = elim (fds.file_close_fd t fd) [
    | none ↦ (t, ebadf)
    | some (f, t') ↦ (t', if restarts (filp_flush f) then eintr else filp_flush f)
  ]

-- `file_open_name`, `filp_open` and `file_open_root`, by which the kernel opens a file itself.
unfoldable pub file_open_name : OpenEnv → ℕ → ℕ → ℕ → Result ℕ
file_open_name k name flags mode = do
  op ← build_open_flags (build_open_how flags mode)
  k.do_filp_open at_fdcwd name op

unfoldable pub filp_open : OpenEnv → ℕ → ℕ → ℕ → Result ℕ
filp_open k filename flags mode = do name ← k.getname filename; file_open_name k name flags mode
