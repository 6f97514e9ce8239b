-- ===== src/Sessions/Tests.antt =====
-- A shell, its child and the child of another session.
use so2_202110206_2svac.Common.{
  ℕ, ◌≡◌, refl, true, false, none, some, ◌==◌, ltb, if◌then◌else◌, arith,
}
use so2_202110206_2svac.Common.Int.{pos}
use so2_202110206_2svac.Common.Result.{ok, err}
use so2_202110206_2svac.Kernel.{eperm}
use so2_202110206_2svac.Sessions.{Process, Processes, SessionEnv, change}
use so2_202110206_2svac.Sessions.Groups.{setpgid, ksys_setsid, getsid, do_getpgid}
use so2_202110206_2svac.Sessions.Coherent.{IsCoherent}
use so2_202110206_2svac.Sessions.Steps.{
  start, next, by_setpgid, Reach-IsCoherent, ksys_setsid-leads,
}

abbrev shell : Process
shell = record {
  parent = 1;
  forknoexec = false;
  leader = true;
  pgrp = 4;
  session = 4;
  tty = some 1;
}

abbrev child : Process
child = record {
  parent = 4;
  forknoexec = true;
  leader = false;
  pgrp = 4;
  session = 4;
  tty = some 1;
}

abbrev processes : Processes
processes i = if i == 4 then some shell else if i == 6 then some child else none

abbrev env : ℕ → SessionEnv
env current = record {
  current = current;
  process_of_thread = λ i. if ltb i 10 then some i else none;
  pid_max = 10;
  security_task_setpgid = λ i g. 0;
  security_task_getpgid = λ i. 0;
  security_task_getsid = λ i. 0;
}

processes-IsCoherent : IsCoherent 10 processes
processes-IsCoherent = record {
  bounded = λ i p e. ground arith;
  groups = λ i j p q e f same. ground arith;
  founders = λ i j p q e f same. ground arith;
}

-- The shell gives its child a group of its own, and the child may then not make a session.
abbrev regrouped : Processes
regrouped = change processes 6 (record child { pgrp = 6 })

shell_moves : setpgid (env 4) processes (pos 6) (pos 0) ≡ ok regrouped
unfolding setpgid
shell_moves = refl

child_refused : ksys_setsid (env 6) regrouped ≡ err eperm
unfolding ksys_setsid
child_refused = refl

Reach-IsCoherent_example : IsCoherent 10 regrouped
Reach-IsCoherent_example =
    Reach-IsCoherent (next start (by_setpgid (env 4) (pos 6) (pos 0) refl shell_moves))
      processes-IsCoherent

abbrev led : Processes
led = change processes 6 (record child { leader = true; pgrp = 6; session = 6; tty = none })

child_leads : ksys_setsid (env 6) processes ≡ ok (led, 6)
unfolding ksys_setsid
child_leads = refl

ksys_setsid-leads_run :
    (getsid (env 6) led (pos 0) ≡ ok 6)
    × (do_getpgid (env 6) led (pos 0) ≡ ok 6)
    × (ksys_setsid (env 6) led ≡ err eperm)
ksys_setsid-leads_run = ksys_setsid-leads (env 6) processes led 6 child_leads
