-- ===== src/Priority/Tests.antt =====
-- Changes of priority among three threads.
use so2_202110206_2svac.Common.{
  ℕ, ◌≡◌, refl, true, false, some, [], ◌∷◌, arith, ◌+◌, ◌-◌, get_elem?, ◌||◌, if◌then◌else◌,
}
use so2_202110206_2svac.Common.Int.{ℤ, ltb_ℤ, pos, negsuc, ◌≤ℤ◌, pos_part, neg_part}
use so2_202110206_2svac.Kernel.{error, eacces}
use so2_202110206_2svac.Priority.{
  Thread, PrioEnv, Threads, prio_process, prio_pgrp, prio_user, clamp_nice, setpriority,
  getpriority, set_one_prio_perm, set_one_prio, set_all, set_first,
}
use so2_202110206_2svac.Priority.Walks.{Renices}
use so2_202110206_2svac.Priority.Rank.{in_range, getpriority-setpriority}
use so2_202110206_2svac.Priority.Users.{setpriority-user_refs, setpriority-forbidden}

-- User 1000, who may only be nicer; the rank is 20 less the nice value.
abbrev user : PrioEnv
user = record {
  uid = 1000;
  euid = 1000;
  current_pid = pos 7;
  current_pgrp = pos 7;
  make_kuid = pos_part;
  sys_nice = λ t. false;
  can_nice = λ t n. false;
  task_setnice = λ t n. 0;
  set_user_nice =
      λ t n. if ltb_ℤ n (negsuc 19) || ltb_ℤ (pos 19) n then t else record t { nice = n };
  find_user = λ uid. true;
  nice_to_rlimit = λ n. pos (20 + neg_part n - pos_part n);
}

renices : Renices user
renices = record {
  sets = λ t n low high. ground arith;
  ignores_below = λ t n h. ground arith;
  ignores_above = λ t n h. ground arith;
  no_esrch = λ t n. omega arith;
}

abbrev thread : ℤ → ℤ → ℕ → Thread
thread pid pgrp uid = record { pid = pid; pgrp = pgrp; uid = uid; euid = uid; nice = pos 0 }

abbrev others : Thread
others = thread (pos 9) (pos 9) 2000

abbrev threads : Threads
threads = record {
  threads = thread (pos 7) (pos 7) 1000 ∷ thread (pos 8) (pos 7) 1000 ∷ others ∷ [];
  user_refs = 0;
}

nicer : (setpriority user threads prio_pgrp (pos 0) (pos 30)).1 ≡ pos 0
unfolding setpriority set_all set_one_prio set_one_prio_perm clamp_nice
nicer = refl

not_less_nice : (setpriority user threads prio_process (pos 8) (negsuc 4)).1 ≡ error eacces
unfolding setpriority set_first set_one_prio set_one_prio_perm clamp_nice
not_less_nice = refl

rank_30 : pos 0 ≤ℤ user.nice_to_rlimit (in_range (pos 30))
rank_30 = omega arith

getpriority-setpriority_example :
    (getpriority user (setpriority user threads prio_pgrp (pos 0) (pos 30)).0 prio_pgrp (pos 0)).1
    ≡ user.nice_to_rlimit (in_range (pos 30))
getpriority-setpriority_example =
    getpriority-setpriority user threads prio_pgrp (pos 0) (pos 30) renices rank_30 nicer

setpriority-user_refs_run :
    ((setpriority user threads prio_user (pos 2000) (pos 5)).0.user_refs ≡ 0)
    × ((getpriority user threads prio_user (pos 2000)).0 ≡ threads)
setpriority-user_refs_run = setpriority-user_refs user threads prio_user (pos 2000) (pos 5)

forbids : set_one_prio_perm user others ≡ false
unfolding set_one_prio_perm
forbids = refl

setpriority-forbidden_run :
    get_elem? (setpriority user threads prio_user (pos 2000) (pos 5)).0.threads 2 ≡ some others
setpriority-forbidden_run =
    setpriority-forbidden user others forbids threads prio_user (pos 2000) (pos 5) 2 refl
