-- ===== src/Monitor/Track.antt =====
-- kernel/usac/syscall2.c: how often each system call has run, and when last.
use so2_202110206_2svac.Common.{
  ℕ, ◌*◌, Option, none, some, not, List, [], ◌∷◌, leb, ◌==◌, if◌then◌else◌, get_elem?, set,
  replicate,
}
use so2_202110206_2svac.Common.Int.{ℤ, pos, negsuc}
use so2_202110206_2svac.Common.Word.{add64}
use so2_202110206_2svac.Kernel.{Env, error, enomem, efault}

-- `struct timespec64`
pub record Timespec : Type 0 where
  pub tv_sec : ℕ
  pub tv_nsec : ℕ

pub record SyscallUsage : Type 0 where
  pub count : ℕ
  pub time_last_used : Timespec

abbrev pub max_sys_calls : ℕ
max_sys_calls = 1024

-- `syscall_counters`: null, or the array.
abbrev pub Counters : Type 0
Counters = Option (List SyscallUsage)

abbrev pub zeroed : SyscallUsage
zeroed = record { count = 0; time_last_used = record { tv_sec = 0; tv_nsec = 0 } }

-- `kzalloc` of the array succeeds where the kernel's `kmalloc` of as many bytes does.
unfoldable pub init_syscall_counters : Env → Counters
init_syscall_counters env =
    if env.kmalloc (24 * max_sys_calls) then some (replicate max_sys_calls zeroed) else none

-- The memory after `track_syscall`, or a write outside the array.
pub data Tracked : Type 0 where
  tracked : Counters → Tracked
  out_of_bounds : Tracked

-- `syscall_counters[i]` counted up and stamped, for an index that may lie outside.
unfoldable pub bump : List SyscallUsage → ℕ → Timespec → Tracked
bump us i now = elim (get_elem? us i) [
  | none ↦ out_of_bounds
  | some u ↦ tracked (some (set us i (record { count = add64 u.count 1; time_last_used = now })))
]

-- The id is an `int`, and is compared as one.
unfoldable pub track_syscall : Counters → ℤ → Timespec → Tracked
track_syscall none id now = tracked none
track_syscall (some us) (pos i) now =
    if leb max_sys_calls i then tracked (some us) else bump us i now
track_syscall (some us) (negsuc i) now = out_of_bounds

-- What `julioz_track_syscall_usage` copies to the caller, and returns.
unfoldable pub copy_counters : Env → List SyscallUsage → ℕ → Option (List SyscallUsage) × ℤ
copy_counters env us statistics =
    if not (env.copy_to_user statistics (24 * max_sys_calls) == 0)
    then (none, error efault)
    else (some us, pos 0)

unfoldable pub track_syscall_usage : Env → Counters → ℕ → Counters × Option (List SyscallUsage) × ℤ
track_syscall_usage env (some us) statistics =
    let (out, code) = copy_counters env us statistics in (some us, out, code)
track_syscall_usage env none statistics = elim (init_syscall_counters env) [
  | none ↦ (none, none, error enomem)
  | some us ↦ let (out, code) = copy_counters env us statistics in (some us, out, code)
]

-- Calls of `track_syscall` in order, up to the first that writes outside the array.
unfoldable pub track_all : Counters → List (ℤ × Timespec) → Tracked
track_all c [] = tracked c
track_all c ((id, now) ∷ calls) = elim (track_syscall c id now) [
  | tracked c' ↦ track_all c' calls
  | out_of_bounds ↦ out_of_bounds
]
