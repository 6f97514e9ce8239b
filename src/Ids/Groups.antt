-- ===== src/Ids/Groups.antt =====
-- Without CAP_SETGID a task gains no group id.
use so2_202110206_2svac.Common.{ℕ, Bool, true, false, ◌≡◌, List, [], ◌∷◌, arith}
use so2_202110206_2svac.Ids.{Cred, Current, IdEnv, finish}
use so2_202110206_2svac.Ids.Group.{commit_gids, setregid, setgid, setresgid, change_resgid}
use so2_202110206_2svac.Ids.Fs.{setfsgid}

-- All four group ids are in a set of ids.
abbrev pub GroupsWithin : (ℕ → Bool) → Cred → Type 0
GroupsWithin p c = (p c.gid ≡ true) × (p c.egid ≡ true) × (p c.sgid ≡ true) × (p c.fsgid ≡ true)

module _ (p : ℕ → Bool) (k : IdEnv) (t : Current) (unprivileged : k.setgid_capable ≡ false)
    (w : GroupsWithin p t.cred) where
  commit-GroupsWithin :
      (new : Cred) → GroupsWithin p new → GroupsWithin p (finish t (commit_gids k t new)).0.cred
  unfolding commit_gids
  commit-GroupsWithin new new_in = ground arith

  setgid-GroupsWithin : (gid : ℕ) → GroupsWithin p (setgid k t gid).0.cred
  unfolding setgid commit_gids
  setgid-GroupsWithin gid = ground arith

  setregid-GroupsWithin : (rgid egid : ℕ) → GroupsWithin p (setregid k t rgid egid).0.cred
  unfolding setregid commit_gids
  setregid-GroupsWithin rgid egid = ground arith

  change_resgid-GroupsWithin :
      (rgid egid sgid : ℕ) → GroupsWithin p (finish t (change_resgid k t rgid egid sgid)).0.cred
  unfolding change_resgid commit_gids
  change_resgid-GroupsWithin rgid egid sgid = ground arith

  setresgid-GroupsWithin :
      (rgid egid sgid : ℕ) → GroupsWithin p (setresgid k t rgid egid sgid).0.cred
  unfolding setresgid
  setresgid-GroupsWithin rgid egid sgid = ground (arith, change_resgid-GroupsWithin rgid egid sgid)

  setfsgid-GroupsWithin : (gid : ℕ) → GroupsWithin p (setfsgid k t gid).0.cred
  unfolding setfsgid
  setfsgid-GroupsWithin gid = ground arith

-- A call of a task on its group ids.
pub data GroupCall : Type 0 where
  set_re : ℕ → ℕ → GroupCall
  set : ℕ → GroupCall
  set_res : ℕ → ℕ → ℕ → GroupCall
  set_fs : ℕ → GroupCall

unfoldable pub call : IdEnv → Current → GroupCall → Current
call k t (set_re rgid egid) = (setregid k t rgid egid).0
call k t (set gid) = (setgid k t gid).0
call k t (set_res rgid egid sgid) = (setresgid k t rgid egid sgid).0
call k t (set_fs gid) = (setfsgid k t gid).0

unfoldable pub calls : Current → List (IdEnv × GroupCall) → Current
calls t [] = t
calls t ((k, c) ∷ cs) = calls (call k t c) cs

-- None of the calls is made with CAP_SETGID.
abbrev pub Unprivileged : List (IdEnv × GroupCall) → Type 0
Unprivileged [] = Unit {0}
Unprivileged ((k, c) ∷ cs) = (k.setgid_capable ≡ false) × Unprivileged cs

call-GroupsWithin :
    (p : ℕ → Bool) (k : IdEnv) (t : Current) (c : GroupCall)
    → k.setgid_capable ≡ false
    → GroupsWithin p t.cred
    → GroupsWithin p (call k t c).cred
unfolding call
call-GroupsWithin p k t (set_re rgid egid) h w = setregid-GroupsWithin p k t h w rgid egid
call-GroupsWithin p k t (set gid) h w = setgid-GroupsWithin p k t h w gid
call-GroupsWithin p k t (set_res rgid egid sgid) h w =
    setresgid-GroupsWithin p k t h w rgid egid sgid
call-GroupsWithin p k t (set_fs gid) h w = setfsgid-GroupsWithin p k t h w gid

-- Calls of `setregid`, `setgid`, `setresgid` and `setfsgid` without CAP_SETGID, in any number and
-- order, take a task to no group id outside any set that holds its four group ids to begin with.
pub calls-GroupsWithin :
    (p : ℕ → Bool) (t : Current) (cs : List (IdEnv × GroupCall))
    → Unprivileged cs
    → GroupsWithin p t.cred
    → GroupsWithin p (calls t cs).cred
unfolding calls
calls-GroupsWithin p t [] u w = w
calls-GroupsWithin p t ((k, c) ∷ cs) u w =
    calls-GroupsWithin p (call k t c) cs u.1 (call-GroupsWithin p k t c u.0 w)
