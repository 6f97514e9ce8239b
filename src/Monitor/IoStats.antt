-- ===== src/Monitor/IoStats.antt =====
-- kernel/usac/syscall3.c: the input and output of the calling task.
use so2_202110206_2svac.Common.{ℕ, Bool, Option, none, some, not, ◌==◌, if◌then◌else◌}
use so2_202110206_2svac.Common.Int.{ℤ, pos}
use so2_202110206_2svac.Kernel.{Env, error, efault}

-- `struct io_stats`
pub record IoStats : Type 0 where
  pub bytes_read : ℕ
  pub bytes_written : ℕ
  pub cancel_count : ℕ
  pub io_wait_time : ℕ
  pub disk_io_time : ℕ

-- `task->ioac`
pub record TaskIo : Type 0 where
  pub read_bytes : ℕ
  pub write_bytes : ℕ
  pub cancelled_write_bytes : ℕ

-- The first argument is CONFIG_TASK_IO_ACCOUNTING.
unfoldable pub get_io_throttle : Bool → Env → TaskIo → ℕ → Option IoStats × ℤ
get_io_throttle accounting env ioac user_stats =
    let stats : IoStats = record {
      bytes_read = if accounting then ioac.read_bytes else 0;
      bytes_written = if accounting then ioac.write_bytes else 0;
      cancel_count = if accounting then ioac.cancelled_write_bytes else 0;
      io_wait_time = 0;
      disk_io_time = 0;
    } in
    if not (env.copy_to_user user_stats 40 == 0) then (none, error efault) else (some stats, pos 0)
