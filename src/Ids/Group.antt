-- ===== src/Ids/Group.antt =====
-- The group ids: `__sys_setregid`, `__sys_setgid`, `__sys_setresgid` and `getresgid`.
use so2_202110206_2svac.Common.{ℕ, Bool, not, ◌&&◌, ◌||◌, ◌==◌, if◌then◌else◌}
use so2_202110206_2svac.Common.Int.{ℤ}
use so2_202110206_2svac.Common.Result.{refuse_if, refuse, Result, ok, err, ◌>>◌}
use so2_202110206_2svac.Kernel.{eperm, enomem, einval}
use so2_202110206_2svac.Ids.{Cred, Current, IdEnv, minus_one, given, finish}
use so2_202110206_2svac.Ids.User.{Ids, put_ids}

-- The last steps of a change of the group ids.
unfoldable pub commit_gids : IdEnv → Current → Cred → Result Current
commit_gids k t new = do refuse (k.task_fix_setgid new t.cred); ok (record t { cred = new })

unfoldable pub setregid : IdEnv → Current → ℕ → ℕ → Current × ℤ
setregid k t rgid egid =
    let old = t.cred in
    let krgid = k.make_kgid rgid in
    let kegid = k.make_kgid egid in
    let egid' = if given egid then kegid else old.egid in
    finish t (do
      refuse_if (given rgid && krgid == minus_one) einval
      refuse_if (given egid && kegid == minus_one) einval
      refuse_if (not k.prepare_creds_ok) enomem
      refuse_if (given rgid && not (old.gid == krgid || old.egid == krgid || k.setgid_capable))
          eperm
      refuse_if
          (given egid
            && not (old.gid == kegid || old.egid == kegid || old.sgid == kegid || k.setgid_capable))
          eperm
      commit_gids k t (record old {
        gid = if given rgid then krgid else old.gid;
        egid = egid';
        sgid = if given rgid || (given egid && not (kegid == old.gid)) then egid' else old.sgid;
        fsgid = egid';
      }))

unfoldable pub setgid : IdEnv → Current → ℕ → Current × ℤ
setgid k t gid =
    let old = t.cred in
    let kgid = k.make_kgid gid in
    finish t (do
      refuse_if (kgid == minus_one) einval
      refuse_if (not k.prepare_creds_ok) enomem
      if k.setgid_capable
          then commit_gids k t (record old { gid = kgid; egid = kgid; sgid = kgid; fsgid = kgid })
          else if kgid == old.gid || kgid == old.sgid
          then commit_gids k t (record old { egid = kgid; fsgid = kgid })
          else err eperm)

-- An id that is none of the three.
abbrev is_new : Cred → ℕ → Bool
is_new old kgid = not (kgid == old.gid) && not (kgid == old.egid) && not (kgid == old.sgid)

-- `__sys_setresgid` past its tests for a no-op.
unfoldable pub change_resgid : IdEnv → Current → ℕ → ℕ → ℕ → Result Current
change_resgid k t rgid egid sgid =
    let old = t.cred in
    let foreign =
      given rgid && is_new old (k.make_kgid rgid)
      || given egid && is_new old (k.make_kgid egid)
      || given sgid && is_new old (k.make_kgid sgid) in
    let egid' = if given egid then k.make_kgid egid else old.egid in
    do
      refuse_if (foreign && not k.setgid_capable) eperm
      refuse_if (not k.prepare_creds_ok) enomem
      commit_gids k t (record old {
        gid = if given rgid then k.make_kgid rgid else old.gid;
        egid = egid';
        sgid = if given sgid then k.make_kgid sgid else old.sgid;
        fsgid = egid';
      })

unfoldable pub setresgid : IdEnv → Current → ℕ → ℕ → ℕ → Current × ℤ
setresgid k t rgid egid sgid =
    let old = t.cred in
    let krgid = k.make_kgid rgid in
    let kegid = k.make_kgid egid in
    let ksgid = k.make_kgid sgid in
    let no_op =
      (not (given rgid) || krgid == old.gid)
      && (not (given egid) || kegid == old.egid && kegid == old.fsgid)
      && (not (given sgid) || ksgid == old.sgid) in
    finish t (do
      refuse_if (given rgid && krgid == minus_one) einval
      refuse_if (given egid && kegid == minus_one) einval
      refuse_if (given sgid && ksgid == minus_one) einval
      if no_op then ok t else change_resgid k t rgid egid sgid)

unfoldable pub getresgid : IdEnv → Cred → ℕ → ℕ → ℕ → Ids
getresgid k cred rgidp egidp sgidp =
    put_ids k (k.from_kgid_munged cred.gid) (k.from_kgid_munged cred.egid)
      (k.from_kgid_munged cred.sgid) rgidp egidp sgidp
