-- ===== src/Ids.antt =====
-- Proyecto1/kernel-linux/kernel/sys.c: the user and group ids of a task, and the system calls that
-- change them.
pub mod User
pub mod Group
pub mod Fs
pub mod Escalation
pub mod Groups
pub mod Drop
mod Tests
use so2_202110206_2svac.Common.{
  ℕ, ◌^◌, ◌-◌, Bool, Option, true, false, not, ◌&&◌, ◌==◌, if◌then◌else◌,
}
use so2_202110206_2svac.Common.Int.{ℤ, pos}
use so2_202110206_2svac.Common.Result.{Result, ok, err}
use so2_202110206_2svac.Kernel.{error}

-- `struct cred`: the ids as kernel ids, and the user that the task counts for.
pub record Cred : Type 0 where
  pub uid : ℕ
  pub euid : ℕ
  pub suid : ℕ
  pub fsuid : ℕ
  pub gid : ℕ
  pub egid : ℕ
  pub sgid : ℕ
  pub fsgid : ℕ
  pub user : ℕ

-- The calling task: its credentials, and its flag PF_NPROC_EXCEEDED.
pub record Current : Type 0 where
  pub cred : Cred
  pub nproc_exceeded : Bool

-- The kernel around one call. An error is its number, and 0 is none.
pub record IdEnv : Type 0 where
  pub make_kuid : ℕ → ℕ
  pub make_kgid : ℕ → ℕ
  pub from_kuid_munged : ℕ → ℕ
  pub from_kgid_munged : ℕ → ℕ
  -- `ns_capable_setid` for CAP_SETUID and for CAP_SETGID
  pub setuid_capable : Bool
  pub setgid_capable : Bool
  pub prepare_creds_ok : Bool
  pub alloc_uid : ℕ → Option ℕ
  -- `security_task_fix_setuid` and `_setgid` for the new and old credentials
  pub task_fix_setuid : Cred → Cred → ℕ
  pub task_fix_setgid : Cred → Cred → ℕ
  pub set_cred_ucounts : Cred → ℕ
  -- whether the new credentials have the old `ucounts`, and whether these are over RLIMIT_NPROC
  pub same_ucounts : Cred → Bool
  pub over_nproc : Cred → Bool
  pub init_user : ℕ
  -- what `put_user` returns for an address
  pub put_user : ℕ → ℕ

-- `(uid_t) -1`: as an argument it means no change, and as a kernel id none.
abbrev pub minus_one : ℕ
minus_one = 2 ^ 32 - 1

abbrev pub given : ℕ → Bool
given id = not (id == minus_one)

-- `commit_creds`, or `abort_creds` and the error.
abbrev pub finish : Current → Result Current → Current × ℤ
finish t (ok t') = (t', pos 0)
finish t (err e) = (t, error e)
