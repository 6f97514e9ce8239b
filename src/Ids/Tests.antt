-- ===== src/Ids/Tests.antt =====
-- Changes of ids in a namespace that maps every id to itself.
use so2_202110206_2svac.Common.{
  ℕ, Bool, ◌≡◌, refl, true, false, some, List, [], ◌∷◌, ◌==◌, ◌||◌, arith,
}
use so2_202110206_2svac.Common.Int.{pos}
use so2_202110206_2svac.Kernel.{error, eperm}
use so2_202110206_2svac.Ids.{Current, IdEnv}
use so2_202110206_2svac.Ids.User.{
  setuid, setresuid, getresuid, switch_user, set_user, commit_uids, flag_nproc_exceeded,
  change_resuid,
}
use so2_202110206_2svac.Ids.Escalation
use so2_202110206_2svac.Ids.Escalation.{Within, IdCall, set_re, set, set_res, set_fs, calls-Within}
use so2_202110206_2svac.Ids.Groups
use so2_202110206_2svac.Ids.Groups.{GroupsWithin, GroupCall, calls-GroupsWithin}
use so2_202110206_2svac.Ids.Drop.{setuid-irrevocable, getresuid-setresuid}

abbrev kernel : Bool → IdEnv
kernel privileged = record {
  make_kuid = λ id. id;
  make_kgid = λ id. id;
  from_kuid_munged = λ id. id;
  from_kgid_munged = λ id. id;
  setuid_capable = privileged;
  setgid_capable = privileged;
  prepare_creds_ok = true;
  alloc_uid = λ id. some id;
  task_fix_setuid = λ new old. 0;
  task_fix_setgid = λ new old. 0;
  set_cred_ucounts = λ new. 0;
  same_ucounts = λ new. true;
  over_nproc = λ new. false;
  init_user = 0;
  put_user = λ to. 0;
}

-- A task of user 1000 that runs a program of user 2000.
abbrev task : Current
task = record {
  cred = record {
    uid = 1000;
    euid = 2000;
    suid = 2000;
    fsuid = 2000;
    gid = 1000;
    egid = 2000;
    sgid = 2000;
    fsgid = 2000;
    user = 1000;
  };
  nproc_exceeded = false;
}

abbrev own : ℕ → Bool
own id = id == 1000 || id == 2000

-- To its own id, back, and to that of the superuser.
abbrev changes : List (IdEnv × IdCall)
changes =
    (kernel false, set 1000)
    ∷ (kernel false, set_res 2000 2000 1000)
    ∷ (kernel false, set_fs 0)
    ∷ (kernel false, set_re 0 0)
    ∷ []

calls-Within_example : Within own (Escalation.calls task changes).cred
calls-Within_example =
    calls-Within own task changes (refl, (refl, (refl, (refl, tt)))) (refl, refl, refl, refl)

abbrev group_changes : List (IdEnv × GroupCall)
group_changes =
    (kernel false, Groups.set 1000)
    ∷ (kernel false, Groups.set_re 2000 0)
    ∷ (kernel false, Groups.set_res 2000 2000 1000)
    ∷ []

calls-GroupsWithin_run : GroupsWithin own (Groups.calls task group_changes).cred
calls-GroupsWithin_run =
    calls-GroupsWithin own task group_changes (refl, (refl, (refl, tt))) (refl, refl, refl, refl)

drops : (setuid (kernel true) task 5).1 ≡ pos 0
unfolding setuid switch_user set_user commit_uids flag_nproc_exceeded
drops = refl

setuid-irrevocable_example :
    setuid (kernel false) (setuid (kernel true) task 5).0 0
    ≡ ((setuid (kernel true) task 5).0, error eperm)
setuid-irrevocable_example =
    setuid-irrevocable (kernel true) (kernel false) task 5 0 refl drops refl refl (omega arith)
      (omega arith)

sets : (setresuid (kernel false) task 2000 1000 1000).1 ≡ pos 0
unfolding setresuid change_resuid switch_user set_user commit_uids flag_nproc_exceeded
sets = refl

getresuid-setresuid_run :
    getresuid (kernel false) (setresuid (kernel false) task 2000 1000 1000).0.cred 8 16 24
    ≡ record { first = some 2000; second = some 1000; third = some 1000; code = pos 0 }
getresuid-setresuid_run =
    getresuid-setresuid (kernel false) task 2000 1000 1000 8 16 24 (omega arith) (omega arith)
      (omega arith) refl refl refl refl refl refl sets
