-- ===== src/Priority/Walks.antt =====
-- The walks of `setpriority` and `getpriority` over the threads.
use so2_202110206_2svac.Common.{
  ◌≡◌, ◌≢◌, Bool, true, List, [], ◌∷◌, refl, arith, ◌⊎◌, inl, inr, Bool-cases,
}
use so2_202110206_2svac.Common.Int.{ℤ, pos, negsuc, ◌≤ℤ◌, ltb_ℤ}
use so2_202110206_2svac.Kernel.{error, esrch}
use so2_202110206_2svac.Priority.{
  Thread, PrioEnv, set_one_prio, set_first, set_all, raise, get_first, get_all,
}

-- What `set_user_nice` does, which sets a nice value from -20 to 19 and ignores any other, and that
-- no security module answers -ESRCH.
pub record Renices (k : PrioEnv) : Type 0 where
  pub sets :
      (t : Thread) (n : ℤ)
      → negsuc 19 ≤ℤ n
      → n ≤ℤ pos 19
      → k.set_user_nice t n ≡ record t { nice = n }
  pub ignores_below : (t : Thread) (n : ℤ) → ltb_ℤ n (negsuc 19) ≡ true → k.set_user_nice t n ≡ t
  pub ignores_above : (t : Thread) (n : ℤ) → ltb_ℤ (pos 19) n ≡ true → k.set_user_nice t n ≡ t
  pub no_esrch : (t : Thread) (n : ℤ) → k.task_setnice t n ≢ esrch

-- An error that no later thread takes back.
abbrev Stays : ℤ → Type 0
Stays code = (code ≢ error esrch) × (code ≢ pos 0)

module _ (k : PrioEnv) (r : Renices k) (n : ℤ) (low : negsuc 19 ≤ℤ n) (high : n ≤ℤ pos 19) where
  set_one_prio-Stays : (t : Thread) (code : ℤ) → Stays code → Stays (set_one_prio k t n code).1
  unfolding set_one_prio
  set_one_prio-Stays t code h = ground (arith, r.no_esrch t n)

  -- What is asked of one thread is done, or an error stays.
  set_one_prio-sets :
      (t : Thread) (code : ℤ)
      → (code ≡ error esrch) ⊎ (code ≡ pos 0)
      → (set_one_prio k t n code ≡ (record t { nice = n }, pos 0))
        ⊎ Stays (set_one_prio k t n code).1
  unfolding set_one_prio
  set_one_prio-sets t code h = ground (arith, r.no_esrch t n, r.sets t n low high)

  set_all-Stays :
      (selects : Thread → Bool) (code : ℤ) (ts : List Thread)
      → Stays code
      → Stays (set_all k selects n code ts).1
  unfolding set_all
  set_all-Stays selects code [] h = h
  set_all-Stays selects code (t ∷ ts) h = ground (
    arith,
    set_one_prio-Stays t code h,
    set_all-Stays selects code ts,
    set_all-Stays selects (set_one_prio k t n code).1 ts,
  )

  module _ (rank : pos 0 ≤ℤ k.nice_to_rlimit n) where
    pub get_first-set_first :
        (pid : ℤ) (ts : List Thread)
        → (set_first k pid n (error esrch) ts).1 ≡ pos 0
        → get_first k pid (error esrch) (set_first k pid n (error esrch) ts).0 ≡ k.nice_to_rlimit n
    unfolding set_first get_first
    get_first-set_first pid [] h = ground arith
    get_first-set_first pid (t ∷ ts) h =
        ground (arith, set_one_prio-sets t (error esrch) (inl refl), get_first-set_first pid ts)

    -- The code so far, and the rank found so far: nothing, or the new one.
    abbrev SoFar : ℤ → ℤ → Type 0
    SoFar code rank_ =
        ((code ≡ error esrch) × (rank_ ≡ error esrch))
        ⊎ ((code ≡ pos 0) × (rank_ ≡ k.nice_to_rlimit n))

    raise_rank :
        (found code : ℤ) → SoFar code found → raise (k.nice_to_rlimit n) found ≡ k.nice_to_rlimit n
    raise_rank found code h = ground arith

    pub get_all-set_all :
        (selects : Thread → Bool)
        → ((t : Thread) → selects (record t { nice = n }) ≡ selects t)
        → (code found : ℤ) (ts : List Thread) → SoFar code found
        → (set_all k selects n code ts).1 ≡ pos 0
        → get_all k selects found (set_all k selects n code ts).0 ≡ k.nice_to_rlimit n
    unfolding set_all get_all
    get_all-set_all selects same code found [] h done = ground arith
    get_all-set_all selects same code found (t ∷ ts) h done = elim (Bool-cases (selects t)) [
      | inr other ↦ ground (arith, get_all-set_all selects same code found ts h)
      | inl mine ↦ elim (set_one_prio-sets t code (ground arith)) [
        | inr stays ↦
            absurd (ground (arith, set_all-Stays selects (set_one_prio k t n code).1 ts stays))
        | inl set ↦ ground (
          arith,
          same t,
          raise_rank found code h,
          get_all-set_all selects same (pos 0) (k.nice_to_rlimit n) ts,
        )
      ]
    ]
