-- ===== src/Ids/User.antt =====
-- The user ids: `__sys_setreuid`, `__sys_setuid`, `__sys_setresuid` and `getresuid`.
use so2_202110206_2svac.Common.{ℕ, Bool, Option, none, some, not, ◌&&◌, ◌||◌, ◌==◌, if◌then◌else◌}
use so2_202110206_2svac.Common.Int.{ℤ, pos}
use so2_202110206_2svac.Common.Result.{refuse_if, refuse, Result, ok, err, ◌>>=◌, ◌>>◌}
use so2_202110206_2svac.Kernel.{eperm, eagain, enomem, einval, error}
use so2_202110206_2svac.Ids.{Cred, Current, IdEnv, minus_one, given, finish}

unfoldable pub set_user : IdEnv → Cred → Result Cred
set_user k new = elim (k.alloc_uid new.uid) [
  | none ↦ err eagain
  | some user ↦ ok (record new { user = user })
]

unfoldable pub flag_nproc_exceeded : IdEnv → Cred → Bool → Bool
flag_nproc_exceeded k new flag =
    if k.same_ucounts new then flag else k.over_nproc new && not (new.user == k.init_user)

-- The last steps of a change of the user ids.
unfoldable pub commit_uids : IdEnv → Current → Cred → Result Current
unfolding flag_nproc_exceeded
commit_uids k t new = do
  refuse (k.task_fix_setuid new t.cred)
  refuse (k.set_cred_ucounts new)
  ok (record { cred = new; nproc_exceeded = flag_nproc_exceeded k new t.nproc_exceeded })

-- `set_user`, if the real user id has changed.
unfoldable pub switch_user : IdEnv → Cred → Cred → Result Cred
switch_user k old new = if not (new.uid == old.uid) then set_user k new else ok new

-- The ids that `__sys_setreuid` first gives the copy, and what it makes of it afterwards.
abbrev pub reuid_start : IdEnv → Cred → ℕ → ℕ → Cred
reuid_start k old ruid euid = record old {
  uid = if given ruid then k.make_kuid ruid else old.uid;
  euid = if given euid then k.make_kuid euid else old.euid;
}

abbrev pub reuid_end : IdEnv → Cred → ℕ → ℕ → Cred → Cred
reuid_end k old ruid euid new = record new {
  suid =
      if given ruid || (given euid && not (k.make_kuid euid == old.uid))
      then new.euid
      else old.suid;
  fsuid = new.euid;
}

unfoldable pub setreuid : IdEnv → Current → ℕ → ℕ → Current × ℤ
setreuid k t ruid euid =
    let old = t.cred in
    let kruid = k.make_kuid ruid in
    let keuid = k.make_kuid euid in
    finish t (do
      refuse_if (given ruid && kruid == minus_one) einval
      refuse_if (given euid && keuid == minus_one) einval
      refuse_if (not k.prepare_creds_ok) enomem
      refuse_if (given ruid && not (old.uid == kruid || old.euid == kruid || k.setuid_capable))
          eperm
      refuse_if
          (given euid
            && not (old.uid == keuid || old.euid == keuid || old.suid == keuid || k.setuid_capable))
          eperm
      new ← switch_user k old (reuid_start k old ruid euid)
      commit_uids k t (reuid_end k old ruid euid new))

-- The saved id of the copy is still the old one when it is compared.
unfoldable pub setuid : IdEnv → Current → ℕ → Current × ℤ
setuid k t uid =
    let old = t.cred in
    let kuid = k.make_kuid uid in
    finish t (do
      refuse_if (kuid == minus_one) einval
      refuse_if (not k.prepare_creds_ok) enomem
      new ←
          if k.setuid_capable
          then switch_user k old (record old { suid = kuid; uid = kuid })
          else if not (kuid == old.uid) && not (kuid == old.suid)
          then err eperm
          else ok old
      commit_uids k t (record new { fsuid = kuid; euid = kuid }))

-- An id that is none of the three.
abbrev pub is_new : Cred → ℕ → Bool
is_new old kuid = not (kuid == old.uid) && not (kuid == old.euid) && not (kuid == old.suid)

-- The credentials of `__sys_setresuid` once `set_user` has seen the real id.
abbrev pub resuid_end : IdEnv → Cred → ℕ → ℕ → Cred → Cred
resuid_end k old euid suid new =
    let euid' = if given euid then k.make_kuid euid else old.euid in
    record new {
      euid = euid';
      suid = if given suid then k.make_kuid suid else old.suid;
      fsuid = euid';
    }

-- `__sys_setresuid` past its tests for a no-op.
unfoldable pub change_resuid : IdEnv → Current → ℕ → ℕ → ℕ → Result Current
change_resuid k t ruid euid suid =
    let old = t.cred in
    let foreign =
      given ruid && is_new old (k.make_kuid ruid)
      || given euid && is_new old (k.make_kuid euid)
      || given suid && is_new old (k.make_kuid suid) in
    do
      refuse_if (foreign && not k.setuid_capable) eperm
      refuse_if (not k.prepare_creds_ok) enomem
      new ←
          switch_user k old (record old { uid = if given ruid then k.make_kuid ruid else old.uid })
      commit_uids k t (resuid_end k old euid suid new)

unfoldable pub setresuid : IdEnv → Current → ℕ → ℕ → ℕ → Current × ℤ
setresuid k t ruid euid suid =
    let old = t.cred in
    let kruid = k.make_kuid ruid in
    let keuid = k.make_kuid euid in
    let ksuid = k.make_kuid suid in
    let no_op =
      (not (given ruid) || kruid == old.uid)
      && (not (given euid) || keuid == old.euid && keuid == old.fsuid)
      && (not (given suid) || ksuid == old.suid) in
    finish t (do
      refuse_if (given ruid && kruid == minus_one) einval
      refuse_if (given euid && keuid == minus_one) einval
      refuse_if (given suid && ksuid == minus_one) einval
      if no_op then ok t else change_resuid k t ruid euid suid)

-- What the caller's three variables are given, in order, and the code.
pub record Ids : Type 0 where
  pub first : Option ℕ
  pub second : Option ℕ
  pub third : Option ℕ
  pub code : ℤ

-- The three `put_user`, each only if the one before it has succeeded.
unfoldable pub put_ids : IdEnv → ℕ → ℕ → ℕ → ℕ → ℕ → ℕ → Ids
put_ids k a b c pa pb pc =
    if not (k.put_user pa == 0)
    then record { first = none; second = none; third = none; code = error (k.put_user pa) }
    else if not (k.put_user pb == 0)
    then record { first = some a; second = none; third = none; code = error (k.put_user pb) }
    else if not (k.put_user pc == 0)
    then record { first = some a; second = some b; third = none; code = error (k.put_user pc) }
    else record { first = some a; second = some b; third = some c; code = pos 0 }

unfoldable pub getresuid : IdEnv → Cred → ℕ → ℕ → ℕ → Ids
getresuid k cred ruidp euidp suidp =
    put_ids k (k.from_kuid_munged cred.uid) (k.from_kuid_munged cred.euid)
      (k.from_kuid_munged cred.suid) ruidp euidp suidp
