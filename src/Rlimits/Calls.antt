-- ===== src/Rlimits/Calls.antt =====
-- The system calls of sys.c on resource limits.
use so2_202110206_2svac.Common.{
  ℕ, ◌-◌, ◌^◌, Bool, true, false, not, ◌&&◌, Option, none, some, ltb, leb, ◌==◌, if◌then◌else◌,
}
use so2_202110206_2svac.Common.Int.{ℤ, pos, eq_ℤ}
use so2_202110206_2svac.Common.Result.{Result, ok, err, ◌>>◌, ◌>>=◌, refuse}
use so2_202110206_2svac.Kernel.{einval, eperm, efault, esrch}
use so2_202110206_2svac.Rlimits.{
  Rlimit, Process, System, RlimitEnv, rlim_nlimits, rlim_infinity, do_prlimit,
}

-- The limits after a call, its error or 0, and what it wrote to the caller's memory.
pub record Answer : Type 0 where
  pub system : System
  pub code : ℕ
  pub written : Option Rlimit

abbrev pub fails : System → ℕ → Answer
fails s e = record { system = s; code = e; written = none }

abbrev pub succeeds : System → Answer
succeeds s = fails s 0

-- `copy_to_user` of a limit at the end of a call.
abbrev pub write_out : RlimitEnv → System → ℕ → Rlimit → Answer
write_out k s address value =
    if k.copy_to_user address
    then record { system = s; code = 0; written = some value }
    else fails s efault

unfoldable pub getrlimit : RlimitEnv → System → ℕ → ℕ → Answer
getrlimit k s resource rlim = elim (do_prlimit k s k.current resource none) [
  | err e ↦ fails s e
  | ok (s', value) ↦ write_out k s' rlim value
]

abbrev pub set_current : RlimitEnv → System → ℕ → Rlimit → Answer
set_current k s resource new = elim (do_prlimit k s k.current resource (some new)) [
  | err e ↦ fails s e
  | ok (s', value) ↦ succeeds s'
]

unfoldable pub setrlimit : RlimitEnv → System → ℕ → ℕ → Answer
setrlimit k s resource rlim = elim (k.copy_from_user rlim) [
  | none ↦ fails s efault
  | some new ↦ set_current k s resource new
]

-- The 32-bit calls: a limit that is infinite or does not fit is written as COMPAT_RLIM_INFINITY.
abbrev pub compat_rlim_infinity : ℕ
compat_rlim_infinity = 2 ^ 32 - 1

abbrev pub from_compat : ℕ → ℕ
from_compat x = if x == compat_rlim_infinity then rlim_infinity else x

abbrev pub to_compat : ℕ → ℕ
to_compat x = if ltb compat_rlim_infinity x then compat_rlim_infinity else x

unfoldable pub compat_setrlimit : RlimitEnv → System → ℕ → ℕ → Answer
compat_setrlimit k s resource rlim = elim (k.copy_from_user rlim) [
  | none ↦ fails s efault
  | some r32 ↦
      set_current k s resource
        (record { rlim_cur = from_compat r32.rlim_cur; rlim_max = from_compat r32.rlim_max })
]

unfoldable pub compat_getrlimit : RlimitEnv → System → ℕ → ℕ → Answer
compat_getrlimit k s resource rlim = elim (do_prlimit k s k.current resource none) [
  | err e ↦ fails s e
  | ok (s', r) ↦
      write_out k s' rlim
        (record { rlim_cur = to_compat r.rlim_cur; rlim_max = to_compat r.rlim_max })
]

-- The values of the old call fit a signed 32-bit number.
abbrev pub old_value : ℕ → ℕ
old_value x = if ltb 0x7fff_ffff x then 0x7fff_ffff else x

unfoldable pub old_getrlimit : RlimitEnv → System → ℕ → ℕ → Answer
old_getrlimit k s resource rlim =
    let x = s.limits k.current.signal resource in
    if leb rlim_nlimits resource
    then fails s einval
    else write_out k s rlim
        (record { rlim_cur = old_value x.rlim_cur; rlim_max = old_value x.rlim_max })

-- On 64 bits the two infinities are one value, and the conversions keep every value.
abbrev pub rlim64_value : ℕ → ℕ
rlim64_value x = if x == rlim_infinity then rlim_infinity else x

abbrev pub rlim_to_rlim64 : Rlimit → Rlimit
rlim_to_rlim64 r = record { rlim_cur = rlim64_value r.rlim_cur; rlim_max = rlim64_value r.rlim_max }

abbrev pub rlim64_to_rlim : Rlimit → Rlimit
rlim64_to_rlim r = record { rlim_cur = rlim64_value r.rlim_cur; rlim_max = rlim64_value r.rlim_max }

-- All ids of the target are the real ids of the caller.
abbrev pub id_match : Process → Process → Bool
id_match cred tcred =
    cred.uid == tcred.euid
    && cred.uid == tcred.suid
    && cred.uid == tcred.uid
    && cred.gid == tcred.egid
    && cred.gid == tcred.sgid
    && cred.gid == tcred.gid

-- `reads` and `writes` are the flags LSM_PRLIMIT_READ and LSM_PRLIMIT_WRITE.
unfoldable pub check_prlimit_permission : RlimitEnv → Process → Bool → Bool → ℕ
check_prlimit_permission k task reads writes =
    if k.current.tid == task.tid
    then 0
    else if not (id_match k.current task) && not (k.ns_capable task.user_ns)
    then eperm
    else k.security_task_prlimit task reads writes

abbrev pub wanted : Option ℕ → Bool
wanted none = false
wanted (some address) = true

-- The new limit that `prlimit64` reads, if it is given an address for one.
abbrev pub read_new : RlimitEnv → Option ℕ → Result (Option Rlimit)
read_new k none = ok none
read_new k (some address) = elim (k.copy_from_user address) [
  | none ↦ err efault
  | some new64 ↦ ok (some (rlim64_to_rlim new64))
]

abbrev pub prlimit_target : RlimitEnv → ℤ → Option Process
prlimit_target k pid = if eq_ℤ pid (pos 0) then some k.current else k.find_task_by_vpid pid

-- `prlimit64` until the old limit is written out.
unfoldable pub change_limit :
    RlimitEnv → System → ℤ → ℕ → Option ℕ → Option ℕ → Result (System × Rlimit)
change_limit k s pid resource new_rlim old_rlim = do
  new ← read_new k new_rlim
  elim (prlimit_target k pid) [
    | none ↦ err esrch
    | some tsk ↦ do
      refuse (check_prlimit_permission k tsk (wanted old_rlim) (wanted new_rlim))
      do_prlimit k s tsk resource new
  ]

abbrev pub write_old : RlimitEnv → System → Option ℕ → Rlimit → Answer
write_old k s none old = succeeds s
write_old k s (some address) old = write_out k s address (rlim_to_rlim64 old)

unfoldable pub prlimit64 : RlimitEnv → System → ℤ → ℕ → Option ℕ → Option ℕ → Answer
prlimit64 k s pid resource new_rlim old_rlim =
    elim (change_limit k s pid resource new_rlim old_rlim) [
      | err e ↦ fails s e
      | ok (s', old) ↦ write_old k s' old_rlim old
    ]
