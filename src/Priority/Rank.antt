-- ===== src/Priority/Rank.antt =====
-- What `getpriority` reports after `setpriority`.
use so2_202110206_2svac.Common.{if◌then◌else◌, Bool, List, ◌≡◌, refl, inl, arith}
use so2_202110206_2svac.Common.Int.{ℤ, pos, negsuc, ltb_ℤ, ◌≤ℤ◌}
use so2_202110206_2svac.Kernel.{error, esrch}
use so2_202110206_2svac.Priority.{
  Thread, set_all, get_all, PrioEnv, Threads, clamp_nice, setpriority, getpriority, process_of,
  group_of, in_group, of_user, user_of,
}
use so2_202110206_2svac.Priority.Walks.{Renices, get_first-set_first, get_all-set_all}

-- After a walk over the threads of a test that does not look at the nice value.
ranked :
    (k : PrioEnv) (n : ℤ) (selects : Thread → Bool) (ts : List Thread)
    → Renices k
    → negsuc 19 ≤ℤ n
    → n ≤ℤ pos 19
    → pos 0 ≤ℤ k.nice_to_rlimit n
    → ((t : Thread) → selects (record t { nice = n }) ≡ selects t)
    → (set_all k selects n (error esrch) ts).1 ≡ pos 0
    → get_all k selects (error esrch) (set_all k selects n (error esrch) ts).0 ≡ k.nice_to_rlimit n
ranked k n selects ts r low high rank same =
    get_all-set_all k r n low high rank selects same (error esrch) (error esrch) ts
      (inl (refl, refl))

-- The nearest value from -20 to 19.
abbrev pub in_range : ℤ → ℤ
in_range n = if ltb_ℤ n (negsuc 19) then negsuc 19 else if ltb_ℤ (pos 19) n then pos 19 else n

in_range_bounds : (n : ℤ) → (negsuc 19 ≤ℤ in_range n) × (in_range n ≤ℤ pos 19)
in_range_bounds n = ground arith

clamp_nice-in_range : (n : ℤ) → clamp_nice n ≡ in_range n
unfolding clamp_nice
clamp_nice-in_range n = ground arith

-- Where `setpriority` of a thread, a group or a user succeeds, `getpriority` of the same answers
-- the rank of the nice value asked for, brought into the range from -20 to 19. `set_user_nice` is
-- taken to set a value of this range and to ignore any other, the rank of this one not to be
-- negative, and no security module to answer -ESRCH.
pub getpriority-setpriority :
    (k : PrioEnv) (s : Threads) (which who niceval : ℤ)
    → Renices k
    → pos 0 ≤ℤ k.nice_to_rlimit (in_range niceval)
    → (setpriority k s which who niceval).1 ≡ pos 0
    → (getpriority k (setpriority k s which who niceval).0 which who).1
      ≡ k.nice_to_rlimit (in_range niceval)
unfolding setpriority getpriority user_of
getpriority-setpriority k s which who niceval r rank done =
    let n = in_range niceval in
    let (low, high) = in_range_bounds niceval in
    ground (
      arith,
      clamp_nice-in_range niceval,
      get_first-set_first k r n low high rank (process_of k who) s.threads,
      ranked k n (in_group (group_of k who)) s.threads r low high rank (λ t. refl),
      ranked k n (of_user k.uid) s.threads r low high rank (λ t. refl),
      ranked k n (of_user (k.make_kuid who)) s.threads r low high rank (λ t. refl),
    )
