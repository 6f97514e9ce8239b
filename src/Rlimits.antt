-- ===== src/Rlimits.antt =====
-- Proyecto1/kernel-linux/kernel/sys.c: the resource limits of processes, and the system calls that
-- read and change them. Numbers of resources are those of x86-64.
pub mod Calls
pub mod Steps
pub mod Answers
mod Tests
use so2_202110206_2svac.Common.{
  ℕ, ◌-◌, ◌^◌, Bool, not, ◌&&◌, List, ◌∷◌, Option, none, some, ltb, leb, ◌==◌, if◌then◌else◌,
}
use so2_202110206_2svac.Common.Int.{ℤ}
use so2_202110206_2svac.Common.Result.{Result, ok, err, ◌>>◌, ◌>>=◌, refuse_if, refuse}
use so2_202110206_2svac.Common.Word.{word}
use so2_202110206_2svac.Kernel.{einval, eperm}

-- `struct rlimit`, and also `struct rlimit64` and `struct compat_rlimit`.
pub record Rlimit : Type 0 where
  pub rlim_cur : ℕ
  pub rlim_max : ℕ

-- What the calls read of a task: itself, its `signal`, which threads share and which holds the
-- limits, and its credentials.
pub record Process : Type 0 where
  pub tid : ℕ
  pub signal : ℕ
  pub uid : ℕ
  pub euid : ℕ
  pub suid : ℕ
  pub gid : ℕ
  pub egid : ℕ
  pub sgid : ℕ
  pub user_ns : ℕ

-- The limits by `signal` and resource, and the CPU timers that were armed, the last one first.
pub record System : Type 0 where
  pub limits : ℕ → ℕ → Rlimit
  pub armed : List (ℕ × ℕ)

-- The kernel around one call. Checks return an error's number, 0 for none.
pub record RlimitEnv : Type 0 where
  pub current : Process
  pub find_task_by_vpid : ℤ → Option Process
  -- `capable(CAP_SYS_RESOURCE)`, and the same in a user namespace
  pub capable : Bool
  pub ns_capable : ℕ → Bool
  pub sysctl_nr_open : ℕ
  pub security_task_setrlimit : Process → ℕ → Rlimit → ℕ
  -- the security module's check of reading, of writing, or both
  pub security_task_prlimit : Process → Bool → Bool → ℕ
  pub posix_timers : Bool
  -- what an address holds, if it can be read, and whether it can be written
  pub copy_from_user : ℕ → Option Rlimit
  pub copy_to_user : ℕ → Bool

abbrev pub rlim_nlimits : ℕ
rlim_nlimits = 16

abbrev pub rlimit_cpu : ℕ
rlimit_cpu = 0

abbrev pub rlimit_nofile : ℕ
rlimit_nofile = 7

-- RLIM_INFINITY and RLIM64_INFINITY
abbrev pub rlim_infinity : ℕ
rlim_infinity = word - 1

-- One limit replaced.
abbrev pub set_limit : (ℕ → ℕ → Rlimit) → ℕ → ℕ → Rlimit → ℕ → ℕ → Rlimit
set_limit limits signal resource new s r = if s == signal && r == resource then new else limits s r

abbrev pub check_new : RlimitEnv → ℕ → Option Rlimit → Result (Unit {0})
check_new k resource none = ok tt
check_new k resource (some new) = do
  refuse_if (ltb new.rlim_max new.rlim_cur) einval
  refuse_if (resource == rlimit_nofile && ltb k.sysctl_nr_open new.rlim_max) eperm

abbrev pub permit_new : RlimitEnv → Process → ℕ → Rlimit → Option Rlimit → Result (Unit {0})
permit_new k p resource old none = ok tt
permit_new k p resource old (some new) = do
  refuse_if (ltb old.rlim_max new.rlim_max && not k.capable) eperm
  refuse (k.security_task_setrlimit p resource new)

abbrev pub store_new : RlimitEnv → System → Process → ℕ → Option Rlimit → System
store_new k s p resource none = s
store_new k s p resource (some new) = record {
  limits = set_limit s.limits p.signal resource new;
  armed =
      if resource == rlimit_cpu && not (new.rlim_cur == rlim_infinity) && k.posix_timers
      then (p.signal, new.rlim_cur) ∷ s.armed
      else s.armed;
}

-- `do_prlimit`: an error, which changes nothing, or the limits after it and the old limit.
unfoldable pub do_prlimit :
    RlimitEnv → System → Process → ℕ → Option Rlimit → Result (System × Rlimit)
do_prlimit k s p resource new = do
  refuse_if (leb rlim_nlimits resource) einval
  check_new k resource new
  permit_new k p resource (s.limits p.signal resource) new
  ok (store_new k s p resource new, s.limits p.signal resource)
