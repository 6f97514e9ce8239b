-- ===== src/Ids/Fs.antt =====
-- The ids for file access: `__sys_setfsuid` and `__sys_setfsgid`, which return the old id however
-- they end.
use so2_202110206_2svac.Common.{ℕ, not, ◌&&◌, ◌||◌, ◌==◌, if◌then◌else◌}
use so2_202110206_2svac.Ids.{Current, IdEnv, minus_one}

unfoldable pub setfsuid : IdEnv → Current → ℕ → Current × ℕ
setfsuid k t uid =
    let old = t.cred in
    let old_fsuid = k.from_kuid_munged old.fsuid in
    let kuid = k.make_kuid uid in
    let new = record old { fsuid = kuid } in
    let allowed =
      kuid == old.uid
      || kuid == old.euid
      || kuid == old.suid
      || kuid == old.fsuid
      || k.setuid_capable in
    if kuid == minus_one
    then (t, old_fsuid)
    else if not k.prepare_creds_ok
    then (t, old_fsuid)
    else if allowed && not (kuid == old.fsuid) && k.task_fix_setuid new old == 0
    then (record t { cred = new }, old_fsuid)
    else (t, old_fsuid)

unfoldable pub setfsgid : IdEnv → Current → ℕ → Current × ℕ
setfsgid k t gid =
    let old = t.cred in
    let old_fsgid = k.from_kgid_munged old.fsgid in
    let kgid = k.make_kgid gid in
    let new = record old { fsgid = kgid } in
    let allowed =
      kgid == old.gid
      || kgid == old.egid
      || kgid == old.sgid
      || kgid == old.fsgid
      || k.setgid_capable in
    if kgid == minus_one
    then (t, old_fsgid)
    else if not k.prepare_creds_ok
    then (t, old_fsgid)
    else if allowed && not (kgid == old.fsgid) && k.task_fix_setgid new old == 0
    then (record t { cred = new }, old_fsgid)
    else (t, old_fsgid)
