-- ===== src/Rlimits/Answers.antt =====
-- What the calls on resource limits answer.
use so2_202110206_2svac.Common.{
  ℕ, ◌≤◌, ◌<◌, ◌≡◌, ◌≢◌, inl, inr, true, false, Option, none, some, arith,
}
use so2_202110206_2svac.Common.Int.{ℤ}
use so2_202110206_2svac.Common.Result.{ok}
use so2_202110206_2svac.Kernel.{efault}
use so2_202110206_2svac.Rlimits.{Rlimit, Process, System, RlimitEnv, do_prlimit, store_new}
use so2_202110206_2svac.Rlimits.Calls.{
  getrlimit, setrlimit, compat_setrlimit, compat_getrlimit, prlimit64, change_limit, prlimit_target,
  check_prlimit_permission, set_current, compat_rlim_infinity, from_compat, id_match,
}
use so2_202110206_2svac.Rlimits.Steps.{do_prlimit-cases, change_limit-Changes}

-- The new limit if there is one, else the old.
abbrev pub or_old : Rlimit → Option Rlimit → Rlimit
or_old old none = old
or_old old (some new) = new

-- A limit that was stored is the one read.
store_new-same :
    (k : RlimitEnv) (s : System) (p : Process) (resource : ℕ) (new : Rlimit)
    → (store_new k s p resource (some new)).limits p.signal resource ≡ new
store_new-same k s p resource new = ground arith

do_prlimit-reads :
    (k : RlimitEnv) (s : System) (p : Process) (resource : ℕ)
    → resource < 16
    → do_prlimit k s p resource none ≡ ok (s, s.limits p.signal resource)
unfolding do_prlimit
do_prlimit-reads k s p resource room = ground arith

module _ (k : RlimitEnv) (s : System) (resource from to : ℕ) (new : Rlimit)
    (reads : k.copy_from_user from ≡ some new) (writes : k.copy_to_user to ≡ true) where
  set_current-stores :
      (value : Rlimit)
      → (set_current k s resource value).code ≡ 0
      → ((set_current k s resource value).system ≡ store_new k s k.current resource (some value))
        × (resource < 16)
  set_current-stores value done = elim (do_prlimit-cases k s k.current resource (some value)) [
    | inl (e, h, bad) ↦ ground arith
    | inr (h, room, granted) ↦ (ground arith, room)
  ]

  -- After a `setrlimit` that succeeds, `getrlimit` of the same resource by the same task writes
  -- the limit that was set, if its address can be written.
  pub getrlimit-setrlimit :
      (setrlimit k s resource from).code ≡ 0
      → (getrlimit k (setrlimit k s resource from).system resource to).written ≡ some new
  unfolding setrlimit getrlimit
  getrlimit-setrlimit done =
      let after = store_new k s k.current resource (some new) in
      let stored = set_current-stores new (ground arith) in
      let sys : (setrlimit k s resource from).system ≡ after = ground (arith, stored.0) in
      let read = do_prlimit-reads k after k.current resource stored.1 in
      let same = store_new-same k s k.current resource new in rw sys (ground arith)

  -- After a 32-bit `setrlimit` that succeeds, of a limit whose values have 32 bits and may be
  -- infinite, the 32-bit `getrlimit` of the same resource by the same task writes that limit, if
  -- its address can be written.
  pub compat_getrlimit-compat_setrlimit :
      new.rlim_cur ≤ compat_rlim_infinity
      → new.rlim_max ≤ compat_rlim_infinity
      → (compat_setrlimit k s resource from).code ≡ 0
      → (compat_getrlimit k (compat_setrlimit k s resource from).system resource to).written
        ≡ some new
  unfolding compat_setrlimit compat_getrlimit
  compat_getrlimit-compat_setrlimit small_cur small_max done =
      let value : Rlimit = record {
        rlim_cur = from_compat new.rlim_cur;
        rlim_max = from_compat new.rlim_max;
      } in
      let after = store_new k s k.current resource (some value) in
      let stored = set_current-stores value (ground arith) in
      let sys : (compat_setrlimit k s resource from).system ≡ after = ground (arith, stored.0) in
      let read = do_prlimit-reads k after k.current resource stored.1 in
      let same = store_new-same k s k.current resource value in rw sys (ground arith)

-- On a task other than the caller, one of whose ids is not the caller's real id, and without
-- CAP_SYS_RESOURCE in the task's user namespace, `prlimit64` returns an error, changes no limit
-- and writes nothing.
pub prlimit64-refuses :
    (k : RlimitEnv) (s : System) (pid : ℤ) (resource : ℕ) (new_rlim old_rlim : Option ℕ)
    (p : Process)
    → prlimit_target k pid ≡ some p
    → k.current.tid ≢ p.tid
    → id_match k.current p ≡ false
    → k.ns_capable p.user_ns ≡ false
    → let a = prlimit64 k s pid resource new_rlim old_rlim in
      (a.code ≢ 0) × (a.system ≡ s) × (a.written ≡ none)
unfolding prlimit64 check_prlimit_permission
prlimit64-refuses k s pid resource new_rlim old_rlim p target other no_match no_right =
    elim (change_limit-Changes k s pid resource new_rlim old_rlim) [
      | inl (e, h, bad) ↦ ground arith
      | inr (q, new, read, target', permitted, granted, h) ↦
          let same : q ≡ p = ground arith in absurd (ground arith)
    ]

-- If only the address for the old limit cannot be written, `prlimit64` returns -EFAULT although
-- the new limit is stored.
pub prlimit64-unwritten :
    (k : RlimitEnv) (s : System) (pid : ℤ) (resource : ℕ) (new_rlim : Option ℕ) (address : ℕ)
    (t : System) (old : Rlimit)
    → change_limit k s pid resource new_rlim (some address) ≡ ok (t, old)
    → k.copy_to_user address ≡ false
    → prlimit64 k s pid resource new_rlim (some address)
      ≡ record { system = t; code = efault; written = none }
unfolding prlimit64
prlimit64-unwritten k s pid resource new_rlim address t old h bad = ground arith
