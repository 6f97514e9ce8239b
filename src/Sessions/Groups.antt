-- ===== src/Sessions/Groups.antt =====
-- The system calls of sys.c on process groups and sessions.
use so2_202110206_2svac.Common.{
  ℕ, zero, suc, Bool, true, false, not, Option, none, some, ◌==◌, if◌then◌else◌,
}
use so2_202110206_2svac.Common.Int.{ℤ, pos, negsuc, eq_ℤ}
use so2_202110206_2svac.Common.Result.{Result, ok, err, ◌>>◌, refuse_if, refuse}
use so2_202110206_2svac.Kernel.{eperm, esrch, eacces, einval}
use so2_202110206_2svac.Sessions.{Process, Processes, SessionEnv, pid_task, change}

abbrev pub session_of : Processes → ℕ → Option ℕ
session_of s i = elim (s i) [ none ↦ none | some p ↦ some p.session ]

abbrev pub same_session : Processes → ℕ → ℕ → Bool
same_session s i j = elim (s i) [
  | none ↦ false
  | some p ↦ elim (s j) [ none ↦ false | some q ↦ p.session == q.session ]
]

-- Whether the caller may move process `i`: a child that has not yet called `exec`, or itself.
abbrev pub may_move : SessionEnv → Processes → ℕ → Process → Result (Unit {0})
may_move k s i p =
    if p.parent == k.current
    then (do
      refuse_if (not (same_session s i k.current)) eperm
      refuse_if (not p.forknoexec) eacces)
    else refuse_if (not (i == k.current)) esrch

-- Whether a process of the caller's session is in group `g`, if that is not the one of `i`'s id.
abbrev pub may_join : SessionEnv → Processes → ℕ → ℕ → Result (Unit {0})
may_join k s i g = if g == i then ok tt else elim (pid_task s g k.pid_max) [
  | none ↦ err eperm
  | some member ↦ refuse_if (not (same_session s member k.current)) eperm
]

abbrev pub move : SessionEnv → Processes → ℕ → ℕ → Process → Result Processes
move k s i g p = do
  may_move k s i p
  refuse_if p.leader eperm
  may_join k s i g
  refuse (k.security_task_setpgid i g)
  ok (change s i (record p { pgrp = g }))

-- A thread that leads its group, and its process.
abbrev pub leading : SessionEnv → Processes → ℤ → Result (ℕ × Process)
leading k s (negsuc n) = err esrch
leading k s (pos i) = elim (k.process_of_thread i) [
  | none ↦ err esrch
  | some leader ↦
      if not (leader == i) then err einval else elim (s i) [ none ↦ err esrch | some p ↦ ok (i, p) ]
]

abbrev pub set_group : SessionEnv → Processes → ℤ → ℤ → Result Processes
set_group k s pid (negsuc n) = err einval
set_group k s pid (pos g) = elim (leading k s pid) [ err e ↦ err e | ok (i, p) ↦ move k s i g p ]

abbrev pub or_else : ℤ → ℤ → ℤ
or_else pid other = if eq_ℤ pid (pos 0) then other else pid

unfoldable pub setpgid : SessionEnv → Processes → ℤ → ℤ → Result Processes
setpgid k s pid pgid =
    let target = or_else pid (pos k.current) in set_group k s target (or_else pgid target)

-- `do_getpgid` and `getsid`: what is asked of a process, with the security check of others.
abbrev pub ask : SessionEnv → Processes → (Process → ℕ) → (ℕ → ℕ) → ℤ → Result ℕ
ask k s field security (negsuc n) = err esrch
ask k s field security (pos zero) = elim (s k.current) [ none ↦ err esrch | some p ↦ ok (field p) ]
ask k s field security (pos (suc n)) = elim (k.process_of_thread (suc n)) [
  | none ↦ err esrch
  | some i ↦ elim (s i) [ none ↦ err esrch | some p ↦ do refuse (security (suc n)); ok (field p) ]
]

unfoldable pub do_getpgid : SessionEnv → Processes → ℤ → Result ℕ
do_getpgid k s pid = ask k s (λ p. p.pgrp) k.security_task_getpgid pid

unfoldable pub getsid : SessionEnv → Processes → ℤ → Result ℕ
getsid k s pid = ask k s (λ p. p.session) k.security_task_getsid pid

-- `ksys_setsid`: the processes after it, and the new session.
unfoldable pub ksys_setsid : SessionEnv → Processes → Result (Processes × ℕ)
ksys_setsid k s = elim (s k.current) [
  | none ↦ err eperm
  | some p ↦ if p.leader then err eperm else elim (pid_task s k.current k.pid_max) [
    | some member ↦ err eperm
    | none ↦ ok (
      change s k.current
          (record p { leader = true; pgrp = k.current; session = k.current; tty = none }),
      k.current,
    )
  ]
]
