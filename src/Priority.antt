-- ===== src/Priority.antt =====
-- Proyecto1/kernel-linux/kernel/sys.c: `setpriority` and `getpriority`.
pub mod Walks
pub mod Rank
pub mod Users
mod Tests
use so2_202110206_2svac.Common.{
  ℕ, ◌+◌, ◌-◌, Bool, not, ◌&&◌, ◌||◌, List, [], ◌∷◌, Option, none, some, ◌==◌, if◌then◌else◌,
}
use so2_202110206_2svac.Common.Int.{ℤ, pos, negsuc, eq_ℤ, ltb_ℤ}
use so2_202110206_2svac.Kernel.{error, eperm, esrch, eacces, einval}

-- A thread as these calls see it: `task_pid_vnr` (0 outside the caller's namespace), its process
-- group, the ids of its credentials, and `task_nice`.
pub record Thread : Type 0 where
  pub pid : ℤ
  pub pgrp : ℤ
  pub uid : ℕ
  pub euid : ℕ
  pub nice : ℤ

-- The caller, and the kernel around one call. An error is its number, and 0 is none.
pub record PrioEnv : Type 0 where
  pub uid : ℕ
  pub euid : ℕ
  pub current_pid : ℤ
  pub current_pgrp : ℤ
  pub make_kuid : ℤ → ℕ
  -- `ns_capable` for CAP_SYS_NICE over the thread's namespace
  pub sys_nice : Thread → Bool
  pub can_nice : Thread → ℤ → Bool
  pub task_setnice : Thread → ℤ → ℕ
  -- the thread after `set_user_nice`
  pub set_user_nice : Thread → ℤ → Thread
  pub find_user : ℕ → Bool
  pub nice_to_rlimit : ℤ → ℤ

-- All threads in the order of the walks, and the references to users that the caller holds.
pub record Threads : Type 0 where
  pub threads : List Thread
  pub user_refs : ℕ

abbrev pub prio_process : ℤ
prio_process = pos 0

abbrev pub prio_pgrp : ℤ
prio_pgrp = pos 1

abbrev pub prio_user : ℤ
prio_user = pos 2

abbrev pub min_nice : ℤ
min_nice = negsuc 19

abbrev pub max_nice : ℤ
max_nice = pos 19

unfoldable pub set_one_prio_perm : PrioEnv → Thread → Bool
set_one_prio_perm k t = t.uid == k.euid || t.euid == k.euid || k.sys_nice t

-- The last argument is the error so far.
unfoldable pub set_one_prio : PrioEnv → Thread → ℤ → ℤ → Thread × ℤ
set_one_prio k t niceval code =
    if not (set_one_prio_perm k t)
    then (t, error eperm)
    else if ltb_ℤ niceval t.nice && not (k.can_nice t niceval)
    then (t, error eacces)
    else if not (k.task_setnice t niceval == 0)
    then (t, error (k.task_setnice t niceval))
    else (k.set_user_nice t niceval, if eq_ℤ code (error esrch) then pos 0 else code)

unfoldable pub clamp_nice : ℤ → ℤ
clamp_nice niceval =
    let low = if ltb_ℤ niceval min_nice then min_nice else niceval in
    if ltb_ℤ max_nice low then max_nice else low

-- `find_task_by_vpid` and what is done to the thread that it finds.
unfoldable pub set_first : PrioEnv → ℤ → ℤ → ℤ → List Thread → List Thread × ℤ
set_first k pid niceval code [] = ([], code)
set_first k pid niceval code (t ∷ ts) =
    let (t', found) = set_one_prio k t niceval code in
    let (ts', later) = set_first k pid niceval code ts in
    if eq_ℤ t.pid pid then (t' ∷ ts, found) else (t ∷ ts', later)

-- A walk over the threads that a test selects.
unfoldable pub set_all : PrioEnv → (Thread → Bool) → ℤ → ℤ → List Thread → List Thread × ℤ
set_all k selects niceval code [] = ([], code)
set_all k selects niceval code (t ∷ ts) =
    let (t', code') : Thread × ℤ = if selects t then set_one_prio k t niceval code else (t, code) in
    let (ts', code'') = set_all k selects niceval code' ts in (t' ∷ ts', code'')

abbrev pub in_group : ℤ → Thread → Bool
in_group pgrp t = eq_ℤ t.pgrp pgrp

abbrev pub of_user : ℕ → Thread → Bool
of_user uid t = t.uid == uid && not (eq_ℤ t.pid (pos 0))

-- The process and the group that an argument stands for.
abbrev pub process_of : PrioEnv → ℤ → ℤ
process_of k who = if eq_ℤ who (pos 0) then k.current_pid else who

abbrev pub group_of : PrioEnv → ℤ → ℤ
group_of k who = if eq_ℤ who (pos 0) then k.current_pgrp else who

-- The user that it stands for, with the references then held; `none` if there is no such user.
unfoldable pub user_of : PrioEnv → ℤ → ℕ → Option (ℕ × ℕ)
user_of k who refs =
    if eq_ℤ who (pos 0)
    then some (k.uid, refs)
    else if k.make_kuid who == k.uid
    then some (k.make_kuid who, refs)
    else if k.find_user (k.make_kuid who)
    then some (k.make_kuid who, refs + 1)
    else none

-- `free_uid`, for the user that `find_user` has found.
abbrev pub release : PrioEnv → ℕ → ℕ → ℕ
release k uid refs = if not (uid == k.uid) then refs - 1 else refs

abbrev pub bad_which : ℤ → Bool
bad_which which = ltb_ℤ prio_user which || ltb_ℤ which prio_process

-- What a walk leaves, with the references held after it.
abbrev pub walked : ℕ → List Thread × ℤ → Threads × ℤ
walked refs (ts, code) = (record { threads = ts; user_refs = refs }, code)

unfoldable pub setpriority : PrioEnv → Threads → ℤ → ℤ → ℤ → Threads × ℤ
setpriority k s which who niceval =
    let n = clamp_nice niceval in
    if bad_which which
    then (s, error einval)
    else if eq_ℤ which prio_process
    then walked s.user_refs (set_first k (process_of k who) n (error esrch) s.threads)
    else if eq_ℤ which prio_pgrp
    then walked s.user_refs (set_all k (in_group (group_of k who)) n (error esrch) s.threads)
    else elim (user_of k who s.user_refs) [
      | none ↦ (s, error esrch)
      | some (uid, refs) ↦
          walked (release k uid refs) (set_all k (of_user uid) n (error esrch) s.threads)
    ]

-- `if (niceval > retval) retval = niceval;`
abbrev pub raise : ℤ → ℤ → ℤ
raise niceval retval = if ltb_ℤ retval niceval then niceval else retval

unfoldable pub get_first : PrioEnv → ℤ → ℤ → List Thread → ℤ
get_first k pid retval [] = retval
get_first k pid retval (t ∷ ts) =
    if eq_ℤ t.pid pid then raise (k.nice_to_rlimit t.nice) retval else get_first k pid retval ts

unfoldable pub get_all : PrioEnv → (Thread → Bool) → ℤ → List Thread → ℤ
get_all k selects retval [] = retval
get_all k selects retval (t ∷ ts) =
    get_all k selects (if selects t then raise (k.nice_to_rlimit t.nice) retval else retval) ts

unfoldable pub getpriority : PrioEnv → Threads → ℤ → ℤ → Threads × ℤ
getpriority k s which who =
    if bad_which which
    then (s, error einval)
    else if eq_ℤ which prio_process
    then (s, get_first k (process_of k who) (error esrch) s.threads)
    else if eq_ℤ which prio_pgrp
    then (s, get_all k (in_group (group_of k who)) (error esrch) s.threads)
    else elim (user_of k who s.user_refs) [
      | none ↦ (s, error esrch)
      | some (uid, refs) ↦ (
        record s { user_refs = release k uid refs },
        get_all k (of_user uid) (error esrch) s.threads,
      )
    ]
