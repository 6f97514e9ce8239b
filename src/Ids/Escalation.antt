-- ===== src/Ids/Escalation.antt =====
-- Without CAP_SETUID a task gains no user id.
use so2_202110206_2svac.Common.{
  ℕ, Bool, true, false, not, ◌&&◌, ◌||◌, ◌≡◌, refl, inl, inr, List, [], ◌∷◌, ◌==◌, Option-cases,
  if◌then◌else◌, arith,
}
use so2_202110206_2svac.Common.Result.{refuse_if, Result, ◌>>=◌, ◌>>◌}
use so2_202110206_2svac.Ids.{Cred, Current, IdEnv, finish, given}
use so2_202110206_2svac.Ids.User.{
  is_new, set_user, switch_user, commit_uids, setreuid, setuid, setresuid, change_resuid,
  reuid_start, reuid_end, resuid_end,
}
use so2_202110206_2svac.Ids.Fs.{setfsuid}

-- All four user ids are in a set of ids.
abbrev pub Within : (ℕ → Bool) → Cred → Type 0
Within p c = (p c.uid ≡ true) × (p c.euid ≡ true) × (p c.suid ≡ true) × (p c.fsuid ≡ true)

commit-Within :
    (p : ℕ → Bool) (k : IdEnv) (t : Current) (new : Cred)
    → Within p t.cred
    → Within p new
    → Within p (finish t (commit_uids k t new)).0.cred
unfolding commit_uids
commit-Within p k t new old_in new_in = ground arith

module _ (p : ℕ → Bool) (t : Current) (old_in : Within p t.cred) where
  -- A refusal leaves the credentials alone.
  after_refusal :
      (bad : Bool) (e : ℕ) (rest : Result Current)
      → (bad ≡ false → Within p (finish t rest).0.cred)
      → Within p (finish t (refuse_if bad e >> rest)).0.cred
  after_refusal true e rest h = old_in
  after_refusal false e rest h = h refl

  -- Whatever the rest does with the credentials, `set_user` hands it the same ids.
  after_switch :
      (k : IdEnv) (old new : Cred) (rest : Cred → Result Current)
      → ((user : ℕ) → Within p (finish t (rest (record new { user = user }))).0.cred)
      → Within p (finish t (switch_user k old new >>= rest)).0.cred
  unfolding switch_user set_user
  after_switch k old new rest h = elim (Option-cases (k.alloc_uid new.uid)) [
    | inl e ↦ ground (arith, h new.user)
    | inr (user, e) ↦ ground (arith, h new.user, h user)
  ]

setuid-Within :
    (p : ℕ → Bool) (k : IdEnv) (t : Current) (uid : ℕ)
    → k.setuid_capable ≡ false
    → Within p t.cred
    → Within p (setuid k t uid).0.cred
unfolding setuid
setuid-Within p k t uid h w = ground (
  arith,
  commit-Within p k t (record t.cred { fsuid = k.make_kuid uid; euid = k.make_kuid uid }) w,
)

setfsuid-Within :
    (p : ℕ → Bool) (k : IdEnv) (t : Current) (uid : ℕ)
    → k.setuid_capable ≡ false
    → Within p t.cred
    → Within p (setfsuid k t uid).0.cred
unfolding setfsuid
setfsuid-Within p k t uid h w = ground arith

setreuid-Within :
    (p : ℕ → Bool) (k : IdEnv) (t : Current) (ruid euid : ℕ)
    → k.setuid_capable ≡ false
    → Within p t.cred
    → Within p (setreuid k t ruid euid).0.cred
unfolding setreuid
setreuid-Within p k t ruid euid h w = ground (arith, changed)
  where
    old : Cred
    old = t.cred

    start : Cred
    start = reuid_start k old ruid euid

    end : Cred → Cred
    end = reuid_end k old ruid euid

    changed :
        (given ruid
            && not
                (old.uid == k.make_kuid ruid || old.euid == k.make_kuid ruid || k.setuid_capable))
          ≡ false
        → (given euid
            && not (
                old.uid == k.make_kuid euid
                || old.euid == k.make_kuid euid
                || old.suid == k.make_kuid euid
                || k.setuid_capable))
          ≡ false
        → Within p (finish t (switch_user k old start >>= λ new. commit_uids k t (end new))).0.cred
    changed r_ok e_ok =
        after_switch p t w k old start (λ new. commit_uids k t (end new))
          λ user. commit-Within p k t (end (record start { user = user })) w (ground arith)

change_resuid-Within :
    (p : ℕ → Bool) (k : IdEnv) (t : Current) (ruid euid suid : ℕ)
    → k.setuid_capable ≡ false
    → Within p t.cred
    → Within p (finish t (change_resuid k t ruid euid suid)).0.cred
unfolding change_resuid
change_resuid-Within p k t ruid euid suid h w = ground (arith, changed)
  where
    old : Cred
    old = t.cred

    start : Cred
    start = record old { uid = if given ruid then k.make_kuid ruid else old.uid }

    end : Cred → Cred
    end = resuid_end k old euid suid

    changed :
        (given ruid && is_new old (k.make_kuid ruid)
            || given euid && is_new old (k.make_kuid euid)
            || given suid && is_new old (k.make_kuid suid))
          ≡ false
        → Within p (finish t (switch_user k old start >>= λ new. commit_uids k t (end new))).0.cred
    changed own =
        after_switch p t w k old start (λ new. commit_uids k t (end new))
          λ user. commit-Within p k t (end (record start { user = user })) w (ground arith)

setresuid-Within :
    (p : ℕ → Bool) (k : IdEnv) (t : Current) (ruid euid suid : ℕ)
    → k.setuid_capable ≡ false
    → Within p t.cred
    → Within p (setresuid k t ruid euid suid).0.cred
unfolding setresuid
setresuid-Within p k t ruid euid suid h w =
    ground (arith, change_resuid-Within p k t ruid euid suid h w)

-- A call of a task on its user ids.
pub data IdCall : Type 0 where
  set_re : ℕ → ℕ → IdCall
  set : ℕ → IdCall
  set_res : ℕ → ℕ → ℕ → IdCall
  set_fs : ℕ → IdCall

unfoldable pub call : IdEnv → Current → IdCall → Current
call k t (set_re ruid euid) = (setreuid k t ruid euid).0
call k t (set uid) = (setuid k t uid).0
call k t (set_res ruid euid suid) = (setresuid k t ruid euid suid).0
call k t (set_fs uid) = (setfsuid k t uid).0

-- Calls in order, each with the kernel as it finds it.
unfoldable pub calls : Current → List (IdEnv × IdCall) → Current
calls t [] = t
calls t ((k, c) ∷ cs) = calls (call k t c) cs

-- None of the calls is made with CAP_SETUID.
abbrev pub Unprivileged : List (IdEnv × IdCall) → Type 0
Unprivileged [] = Unit {0}
Unprivileged ((k, c) ∷ cs) = (k.setuid_capable ≡ false) × Unprivileged cs

call-Within :
    (p : ℕ → Bool) (k : IdEnv) (t : Current) (c : IdCall)
    → k.setuid_capable ≡ false
    → Within p t.cred
    → Within p (call k t c).cred
unfolding call
call-Within p k t (set_re ruid euid) h w = setreuid-Within p k t ruid euid h w
call-Within p k t (set uid) h w = setuid-Within p k t uid h w
call-Within p k t (set_res ruid euid suid) h w = setresuid-Within p k t ruid euid suid h w
call-Within p k t (set_fs uid) h w = setfsuid-Within p k t uid h w

-- Calls of `setreuid`, `setuid`, `setresuid` and `setfsuid` without CAP_SETUID, in any number and
-- order, take a task to no id outside any set that holds its four user ids to begin with, whatever
-- the namespace maps the arguments to and whatever the kernel answers.
pub calls-Within :
    (p : ℕ → Bool) (t : Current) (cs : List (IdEnv × IdCall))
    → Unprivileged cs
    → Within p t.cred
    → Within p (calls t cs).cred
unfolding calls
calls-Within p t [] u w = w
calls-Within p t ((k, c) ∷ cs) u w = calls-Within p (call k t c) cs u.1 (call-Within p k t c u.0 w)
