-- ===== src/Priority/Users.antt =====
-- What `setpriority` and `getpriority` leave alone.
use so2_202110206_2svac.Common.{
  ℕ, zero, suc, ◌≡◌, Bool, false, List, [], ◌∷◌, some, arith, get_elem?,
}
use so2_202110206_2svac.Common.Int.{ℤ}
use so2_202110206_2svac.Kernel.{error, esrch}
use so2_202110206_2svac.Priority.{
  Thread, Threads, PrioEnv, set_one_prio_perm, set_one_prio, set_first, set_all, setpriority,
  getpriority, user_of, clamp_nice, process_of, group_of, in_group, of_user,
}

-- However they end, `setpriority` and `getpriority` give back the reference to a user that they
-- take, and `getpriority` changes no thread.
pub setpriority-user_refs :
    (k : PrioEnv) (s : Threads) (which who niceval : ℤ)
    → ((setpriority k s which who niceval).0.user_refs ≡ s.user_refs)
      × ((getpriority k s which who).0 ≡ s)
unfolding setpriority getpriority user_of
setpriority-user_refs k s which who niceval = ground arith

module _ (k : PrioEnv) (t : Thread) (forbidden : set_one_prio_perm k t ≡ false) where
  set_one_prio-forbidden : (n code : ℤ) → (set_one_prio k t n code).0 ≡ t
  unfolding set_one_prio
  set_one_prio-forbidden n code = ground arith

  set_first-keeps :
      (pid n code : ℤ) (ts : List Thread) (i : ℕ)
      → get_elem? ts i ≡ some t
      → get_elem? (set_first k pid n code ts).0 i ≡ some t
  unfolding set_first
  set_first-keeps pid n code [] i h = h
  set_first-keeps pid n code (u ∷ ts) zero h = ground (arith, set_one_prio-forbidden n code)
  set_first-keeps pid n code (u ∷ ts) (suc i) h = ground (arith, set_first-keeps pid n code ts i h)

  set_all-keeps :
      (selects : Thread → Bool) (n : ℤ) (ts : List Thread) (i : ℕ) (code : ℤ)
      → get_elem? ts i ≡ some t
      → get_elem? (set_all k selects n code ts).0 i ≡ some t
  unfolding set_all
  set_all-keeps selects n [] i code h = h
  set_all-keeps selects n (u ∷ ts) zero code h = ground (arith, set_one_prio-forbidden n code)
  set_all-keeps selects n (u ∷ ts) (suc i) code h = set_all-keeps selects n ts i _ h

  -- A thread to which the caller has no right, since neither of its user ids is the caller's
  -- effective one and CAP_SYS_NICE is lacking, is the same after any `setpriority`.
  pub setpriority-forbidden :
      (s : Threads) (which who niceval : ℤ) (i : ℕ)
      → get_elem? s.threads i ≡ some t
      → get_elem? (setpriority k s which who niceval).0.threads i ≡ some t
  unfolding setpriority user_of
  setpriority-forbidden s which who niceval i h =
      let n = clamp_nice niceval in
      ground (
        arith,
        set_first-keeps (process_of k who) n (error esrch) s.threads i h,
        set_all-keeps (in_group (group_of k who)) n s.threads i (error esrch) h,
        set_all-keeps (of_user k.uid) n s.threads i (error esrch) h,
        set_all-keeps (of_user (k.make_kuid who)) n s.threads i (error esrch) h,
      )
