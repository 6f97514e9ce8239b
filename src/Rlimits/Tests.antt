-- ===== src/Rlimits/Tests.antt =====
-- Calls on the limits of two processes.
use so2_202110206_2svac.Common.{
  ℕ, ◌≡◌, ◌≢◌, refl, true, false, not, [], ◌∷◌, none, some, ◌==◌, if◌then◌else◌, arith,
}
use so2_202110206_2svac.Common.Int.{pos, eq_ℤ}
use so2_202110206_2svac.Kernel.{efault}
use so2_202110206_2svac.Rlimits.{Rlimit, Process, System, RlimitEnv, do_prlimit, store_new}
use so2_202110206_2svac.Rlimits.Calls.{
  getrlimit, setrlimit, compat_setrlimit, compat_getrlimit, prlimit64, change_limit,
  check_prlimit_permission,
}
use so2_202110206_2svac.Rlimits.Steps.{
  Reach, IsValid, Lowers, by_setrlimit, by_prlimit64, start, next, Reach-IsValid, Reach-Lowers,
}
use so2_202110206_2svac.Rlimits.Answers.{
  getrlimit-setrlimit, compat_getrlimit-compat_setrlimit, prlimit64-refuses, prlimit64-unwritten,
}

abbrev process : ℕ → ℕ → Process
process tid id = record {
  tid = tid;
  signal = tid;
  uid = id;
  euid = id;
  suid = id;
  gid = id;
  egid = id;
  sgid = id;
  user_ns = 0;
}

abbrev small : Rlimit
small = record { rlim_cur = 512; rlim_max = 1024 }

-- Address 1 holds the small limit, and address 9 can be neither read nor written.
abbrev env : RlimitEnv
env = record {
  current = process 5 1000;
  find_task_by_vpid = λ pid. if eq_ℤ pid (pos 6) then some (process 6 1001) else none;
  capable = false;
  ns_capable = λ ns. false;
  sysctl_nr_open = 1048576;
  security_task_setrlimit = λ p r new. 0;
  security_task_prlimit = λ p reads writes. 0;
  posix_timers = true;
  copy_from_user = λ address. if address == 1 then some small else none;
  copy_to_user = λ address. not (address == 9);
}

abbrev system : System
system = record {
  limits = λ signal resource. record { rlim_cur = 1024; rlim_max = 4096 };
  armed = [];
}

-- The soft limit of CPU time arms a timer.
arm_timer : (setrlimit env system 0 1).system.armed ≡ (5, 512) ∷ []
unfolding setrlimit do_prlimit
arm_timer = refl

getrlimit-setrlimit_run : (getrlimit env (setrlimit env system 7 1).system 7 2).written ≡ some small
unfolding setrlimit do_prlimit
getrlimit-setrlimit_run = getrlimit-setrlimit env system 7 1 2 small refl refl refl

compat_getrlimit-compat_setrlimit_example :
    (compat_getrlimit env (compat_setrlimit env system 7 1).system 7 2).written ≡ some small
unfolding compat_setrlimit do_prlimit
compat_getrlimit-compat_setrlimit_example =
    compat_getrlimit-compat_setrlimit env system 7 1 2 small refl refl (omega arith) (omega arith)
      refl

prlimit64-refuses_run :
    let a = prlimit64 env system (pos 6) 7 (some 1) none in
    (a.code ≢ 0) × (a.system ≡ system) × (a.written ≡ none)
prlimit64-refuses_run =
    prlimit64-refuses env system (pos 6) 7 (some 1) none (process 6 1001) refl (omega arith) refl
      refl

prlimit64-unwritten_run : prlimit64 env system (pos 0) 7 (some 1) (some 9) ≡ record {
  system = store_new env system (process 5 1000) 7 (some small);
  code = efault;
  written = none;
}
unfolding change_limit check_prlimit_permission do_prlimit
prlimit64-unwritten_run =
    prlimit64-unwritten env system (pos 0) 7 (some 1) 9
      (store_new env system (process 5 1000) 7 (some small))
      (record { rlim_cur = 1024; rlim_max = 4096 }) refl refl

system-IsValid : IsValid system
system-IsValid signal resource = omega arith

two_calls :
    Reach
      (λ k. k.capable ≡ false)
      system
      (prlimit64 env (setrlimit env system 7 1).system (pos 0) 3 (some 1) none).system
two_calls =
    next (next start (by_setrlimit env 7 1 refl)) (by_prlimit64 env (pos 0) 3 (some 1) none refl)

Reach-IsValid_run :
    IsValid (prlimit64 env (setrlimit env system 7 1).system (pos 0) 3 (some 1) none).system
Reach-IsValid_run = Reach-IsValid two_calls system-IsValid

Reach-Lowers_example :
    Lowers system (prlimit64 env (setrlimit env system 7 1).system (pos 0) 3 (some 1) none).system
Reach-Lowers_example = Reach-Lowers two_calls
