-- ===== src/Sessions.antt =====
-- Proyecto1/kernel-linux/kernel/sys.c: process groups and sessions, with one namespace of process
-- ids, in which a `struct pid` is its number.
pub mod Groups
pub mod Coherent
pub mod Steps
mod Tests
use so2_202110206_2svac.Common.{
  ℕ, zero, suc, Bool, true, false, not, ◌&&◌, ◌||◌, Option, none, some, ◌==◌, if◌then◌else◌,
}
use so2_202110206_2svac.Common.Int.{ℤ}

-- A process: its parent's (that of `real_parent`), its flag PF_FORKNOEXEC, `signal->leader`, its
-- group, its session, and its terminal.
pub record Process : Type 0 where
  pub parent : ℕ
  pub forknoexec : Bool
  pub leader : Bool
  pub pgrp : ℕ
  pub session : ℕ
  pub tty : Option ℕ

-- The processes by their ids, which are those of the leaders of their thread groups.
abbrev pub Processes : Type 0
Processes = ℕ → Option Process

-- The kernel around one call: the calling process, the process of each thread, and the largest id
-- and one. A security check returns an error's number, 0 for none.
pub record SessionEnv : Type 0 where
  pub current : ℕ
  pub process_of_thread : ℕ → Option ℕ
  pub pid_max : ℕ
  pub security_task_setpgid : ℕ → ℕ → ℕ
  pub security_task_getpgid : ℕ → ℕ
  pub security_task_getsid : ℕ → ℕ

abbrev pub in_group : ℕ → Option Process → Bool
in_group g none = false
in_group g (some p) = p.pgrp == g

-- `pid_task` for PIDTYPE_PGID: a process of a group, among those of ids below a bound.
abbrev pub pid_task : Processes → ℕ → ℕ → Option ℕ
pid_task s g zero = none
pid_task s g (suc n) = let rest = pid_task s g n in if in_group g (s n) then some n else rest

-- One process replaced.
abbrev pub change : Processes → ℕ → Process → Processes
change s i p j = if j == i then some p else s j
