-- ===== src/Ids/Drop.antt =====
-- What a change of ids leaves behind, and that a privileged one cannot be undone.
use so2_202110206_2svac.Common.{
  ℕ, true, false, ◌≡◌, ◌≢◌, ◌∙◌, ap, sym, subst, inl, inr, some, ◌==◌, arith, Option-cases,
  Bool-cases, if◌then◌else◌,
}
use so2_202110206_2svac.Common.Int.{pos}
use so2_202110206_2svac.Common.Result.{Result, ◌>>=◌}
use so2_202110206_2svac.Kernel.{error, eperm}
use so2_202110206_2svac.Ids.{Cred, Current, IdEnv, minus_one, finish, given}
use so2_202110206_2svac.Ids.User.{
  put_ids, set_user, switch_user, commit_uids, setuid, setresuid, change_resuid, resuid_end,
  getresuid,
}

-- A `setuid` with CAP_SETUID that succeeds sets all four user ids.
setuid-sets :
    (k : IdEnv) (t : Current) (uid : ℕ)
    → k.setuid_capable ≡ true
    → (setuid k t uid).1 ≡ pos 0
    → let c = (setuid k t uid).0.cred in
      let kuid = k.make_kuid uid in
      (c.uid ≡ kuid) × (c.euid ≡ kuid) × (c.suid ≡ kuid) × (c.fsuid ≡ kuid)
unfolding setuid switch_user set_user commit_uids
setuid-sets k t uid capable done = ground arith

setuid-refused :
    (k : IdEnv) (t : Current) (uid : ℕ)
    → k.setuid_capable ≡ false
    → k.prepare_creds_ok ≡ true
    → k.make_kuid uid ≢ minus_one
    → k.make_kuid uid ≢ t.cred.uid
    → k.make_kuid uid ≢ t.cred.suid
    → setuid k t uid ≡ (t, error eperm)
unfolding setuid
setuid-refused k t uid lost mem valid not_uid not_suid = ground arith

-- After a `setuid` with CAP_SETUID has succeeded, a task that has lost the capability cannot set
-- another id: `setuid` fails with -EPERM and changes nothing, for any id of the namespace that is
-- not the one set, if `prepare_creds` has memory.
pub setuid-irrevocable :
    (k later : IdEnv) (t : Current) (uid other : ℕ)
    → k.setuid_capable ≡ true
    → (setuid k t uid).1 ≡ pos 0
    → later.setuid_capable ≡ false
    → later.prepare_creds_ok ≡ true
    → later.make_kuid other ≢ minus_one
    → later.make_kuid other ≢ k.make_kuid uid
    → setuid later (setuid k t uid).0 other ≡ ((setuid k t uid).0, error eperm)
setuid-irrevocable k later t uid other capable done lost mem valid differs =
    let ids = setuid-sets k t uid capable done in
    setuid-refused later (setuid k t uid).0 other lost mem valid (λ e. differs (e ∙ ids.0))
      (λ e. differs (e ∙ ids.2))

commit_uids-done :
    (k : IdEnv) (t : Current) (new : Cred)
    → (finish t (commit_uids k t new)).1 ≡ pos 0
    → (finish t (commit_uids k t new)).0.cred ≡ new
unfolding commit_uids
commit_uids-done k t new done = ground arith

switch_user-done :
    (k : IdEnv) (t : Current) (old new : Cred) (rest : Cred → Result Current)
    → (finish t (switch_user k old new >>= rest)).1 ≡ pos 0
    → (user : ℕ) × (finish t (switch_user k old new >>= rest)
        ≡ finish t (rest (record new { user = user })))
unfolding switch_user set_user
switch_user-done k t old new rest done = elim (Bool-cases (new.uid == old.uid)) [
  | inl same ↦ (new.user, ground arith)
  | inr differs ↦ elim (Option-cases (k.alloc_uid new.uid)) [
    | inl full ↦ absurd (ground arith)
    | inr (user, got) ↦ (user, ground arith)
  ]
]

-- The three ids that `__sys_setresuid` is to set.
Sets : IdEnv → ℕ → ℕ → ℕ → Cred → Type 0
Sets k ruid euid suid c =
    (c.uid ≡ k.make_kuid ruid) × (c.euid ≡ k.make_kuid euid) × (c.suid ≡ k.make_kuid suid)

module _ (k : IdEnv) (t : Current) (ruid euid suid : ℕ) (gr : ruid ≢ minus_one)
    (ge : euid ≢ minus_one) (gs : suid ≢ minus_one) where
  start : Cred
  start = record t.cred { uid = if given ruid then k.make_kuid ruid else t.cred.uid }

  tail : Cred → Result Current
  tail new = commit_uids k t (resuid_end k t.cred euid suid new)

  switched-Sets :
      (finish t (switch_user k t.cred start >>= tail)).1 ≡ pos 0
      → Sets k ruid euid suid (finish t (switch_user k t.cred start >>= tail)).0.cred
  unfolding start tail Sets
  switched-Sets done =
      let (user, e) = switch_user-done k t t.cred start tail done in
      let end = resuid_end k t.cred euid suid (record start { user = user }) in
      rw e (
        subst (Sets k ruid euid suid)
          (sym (commit_uids-done k t end (ap (λ r. r.1) (sym e) ∙ done))) (ground arith))

  change_resuid-Sets :
      (finish t (change_resuid k t ruid euid suid)).1 ≡ pos 0
      → Sets k ruid euid suid (finish t (change_resuid k t ruid euid suid)).0.cred
  unfolding change_resuid start tail Sets
  change_resuid-Sets done = let sets = switched-Sets in ground arith

setresuid-sets :
    (k : IdEnv) (t : Current) (ruid euid suid : ℕ)
    → ruid ≢ minus_one
    → euid ≢ minus_one
    → suid ≢ minus_one
    → (setresuid k t ruid euid suid).1 ≡ pos 0
    → let c = (setresuid k t ruid euid suid).0.cred in
      (c.uid ≡ k.make_kuid ruid) × (c.euid ≡ k.make_kuid euid) × (c.suid ≡ k.make_kuid suid)
unfolding setresuid Sets
setresuid-sets k t ruid euid suid gr ge gs done =
    ground (arith, change_resuid-Sets k t ruid euid suid gr ge gs)

-- A `setresuid` that is given all three ids and succeeds is read back by `getresuid`, if the
-- namespace maps the three arguments back and the three addresses can be written.
pub getresuid-setresuid :
    (k : IdEnv) (t : Current) (ruid euid suid pr pe ps : ℕ)
    → ruid ≢ minus_one
    → euid ≢ minus_one
    → suid ≢ minus_one
    → k.from_kuid_munged (k.make_kuid ruid) ≡ ruid
    → k.from_kuid_munged (k.make_kuid euid) ≡ euid
    → k.from_kuid_munged (k.make_kuid suid) ≡ suid
    → k.put_user pr ≡ 0
    → k.put_user pe ≡ 0
    → k.put_user ps ≡ 0
    → (setresuid k t ruid euid suid).1 ≡ pos 0
    → getresuid k (setresuid k t ruid euid suid).0.cred pr pe ps
      ≡ record { first = some ruid; second = some euid; third = some suid; code = pos 0 }
unfolding getresuid put_ids
getresuid-setresuid k t ruid euid suid pr pe ps gr ge gs br be bs wr we ws done =
    let ids = setresuid-sets k t ruid euid suid gr ge gs done in ground arith
