-- ===== src/Rlimits/Steps.antt =====
-- What sequences of calls by any tasks can do to the limits of all processes.
use native.Mathlib.Decide.{ℕ_discrete}
use so2_202110206_2svac.Kernel.{esrch, efault}
use so2_202110206_2svac.Common.{
  ℕ, ◌≤◌, ◌≡◌, ◌≢◌, ◌<◌, refl, ◌⊎◌, inl, inr, true, false, Option, none, some, arith, Option-cases,
}
use so2_202110206_2svac.Common.Int.{ℤ}
use so2_202110206_2svac.Common.Result.{ok, err}
use so2_202110206_2svac.Rlimits.{Rlimit, Process, System, RlimitEnv, do_prlimit, store_new}
use so2_202110206_2svac.Rlimits.Calls.{
  getrlimit, setrlimit, compat_setrlimit, compat_getrlimit, old_getrlimit, prlimit64, change_limit,
  read_new, prlimit_target, check_prlimit_permission, set_current, from_compat, wanted,
  rlim64_to_rlim,
}

-- One call, by a task and with a kernel around it that satisfy a condition.
pub data Step (P : RlimitEnv → Type 0) (s : System) : System → Type 0 where
  by_getrlimit :
      (k : RlimitEnv) (resource rlim : ℕ) → P k → Step P s (getrlimit k s resource rlim).system
  by_setrlimit :
      (k : RlimitEnv) (resource rlim : ℕ) → P k → Step P s (setrlimit k s resource rlim).system
  by_compat_setrlimit :
      (k : RlimitEnv) (resource rlim : ℕ)
      → P k
      → Step P s (compat_setrlimit k s resource rlim).system
  by_compat_getrlimit :
      (k : RlimitEnv) (resource rlim : ℕ)
      → P k
      → Step P s (compat_getrlimit k s resource rlim).system
  by_old_getrlimit :
      (k : RlimitEnv) (resource rlim : ℕ) → P k → Step P s (old_getrlimit k s resource rlim).system
  by_prlimit64 :
      (k : RlimitEnv) (pid : ℤ) (resource : ℕ) (new_rlim old_rlim : Option ℕ)
      → P k
      → Step P s (prlimit64 k s pid resource new_rlim old_rlim).system

-- Calls one after the other.
pub data Reach (P : RlimitEnv → Type 0) (s : System) : System → Type 0 where
  start : Reach P s s
  next : {t u : System} → Reach P s t → Step P t u → Reach P s u

-- What a new limit has been tested for.
abbrev pub Granted : RlimitEnv → System → Process → ℕ → Option Rlimit → Type 0
Granted k s p resource none = Unit {0}
Granted k s p resource (some new) =
    (new.rlim_cur ≤ new.rlim_max)
    × ((new.rlim_max ≤ (s.limits p.signal resource).rlim_max) ⊎ (k.capable ≡ true))
    × (resource ≡ 7 → new.rlim_max ≤ k.sysctl_nr_open)

-- `do_prlimit` fails, or it has tested the new limit and stores it.
pub do_prlimit-cases :
    (k : RlimitEnv) (s : System) (p : Process) (resource : ℕ) (new : Option Rlimit)
    → ((e : ℕ) × (do_prlimit k s p resource new ≡ err e) × (e ≢ 0))
      ⊎ ((do_prlimit k s p resource new
            ≡ ok (store_new k s p resource new, s.limits p.signal resource))
          × (resource < 16)
          × Granted k s p resource new)
unfolding do_prlimit
do_prlimit-cases k s p resource none = ground arith
do_prlimit-cases k s p resource (some new) = ground arith

-- A call leaves the limits alone, or stores a tested one.
Changes : RlimitEnv → System → System → Type 0
Changes k s t =
    (t ≡ s)
    ⊎ ((p : Process) × (resource : ℕ) × (new : Option Rlimit) × Granted k s p resource new
        × (t ≡ store_new k s p resource new))

module _ (k : RlimitEnv) (s : System) (resource rlim : ℕ) where
  getrlimit-Changes : (getrlimit k s resource rlim).system ≡ s
  unfolding getrlimit
  getrlimit-Changes = elim (do_prlimit-cases k s k.current resource none) [
    | inl (e, h, bad) ↦ ground arith
    | inr (h, room, granted) ↦ ground arith
  ]

  set_current-Changes : (new : Rlimit) → Changes k s (set_current k s resource new).system
  unfolding Changes
  set_current-Changes new = elim (do_prlimit-cases k s k.current resource (some new)) [
    | inl (e, h, bad) ↦ inl (ground arith)
    | inr (h, room, granted) ↦ inr (k.current, resource, some new, granted, ground arith)
  ]

  setrlimit-Changes : Changes k s (setrlimit k s resource rlim).system
  unfolding setrlimit Changes
  setrlimit-Changes = elim (Option-cases (k.copy_from_user rlim)) [
    | inl e ↦ inl (ground arith)
    | inr (new, e) ↦ rw (setrlimit, e) (set_current-Changes new)
  ]

  compat_setrlimit-Changes : Changes k s (compat_setrlimit k s resource rlim).system
  unfolding compat_setrlimit Changes
  compat_setrlimit-Changes = elim (Option-cases (k.copy_from_user rlim)) [
    | inl e ↦ inl (ground arith)
    | inr (r32, e) ↦
        rw (compat_setrlimit, e)
          (set_current-Changes
            (record { rlim_cur = from_compat r32.rlim_cur; rlim_max = from_compat r32.rlim_max }))
  ]

  compat_getrlimit-Changes : (compat_getrlimit k s resource rlim).system ≡ s
  unfolding compat_getrlimit
  compat_getrlimit-Changes = elim (do_prlimit-cases k s k.current resource none) [
    | inl (e, h, bad) ↦ ground arith
    | inr (h, room, granted) ↦ ground arith
  ]

  old_getrlimit-Changes : (old_getrlimit k s resource rlim).system ≡ s
  unfolding old_getrlimit
  old_getrlimit-Changes = ground arith

read_new-cases :
    (k : RlimitEnv) (new_rlim : Option ℕ)
    → (read_new k new_rlim ≡ err efault) ⊎ ((new : Option Rlimit) × (read_new k new_rlim ≡ ok new))
read_new-cases k none = inr (none, refl)
read_new-cases k (some address) = elim (Option-cases (k.copy_from_user address)) [
  | inl e ↦ inl (ground arith)
  | inr (new, e) ↦ inr (some (rlim64_to_rlim new), ground arith)
]

pub change_limit-Changes :
    (k : RlimitEnv) (s : System) (pid : ℤ) (resource : ℕ) (new_rlim old_rlim : Option ℕ)
    → ((e : ℕ) × (change_limit k s pid resource new_rlim old_rlim ≡ err e) × (e ≢ 0))
      ⊎ ((p : Process) × (new : Option Rlimit) × (read_new k new_rlim ≡ ok new)
          × (prlimit_target k pid ≡ some p)
          × (check_prlimit_permission k p (wanted old_rlim) (wanted new_rlim) ≡ 0)
          × Granted k s p resource new
          × (change_limit k s pid resource new_rlim old_rlim
              ≡ ok (store_new k s p resource new, s.limits p.signal resource)))
unfolding change_limit
change_limit-Changes k s pid resource new_rlim old_rlim = elim (read_new-cases k new_rlim) [
  | inl h ↦ inl (efault, ground arith, omega arith)
  | inr (new, h) ↦ elim (Option-cases (prlimit_target k pid)) [
    | inl g ↦ inl (esrch, ground arith, omega arith)
    | inr (p, g) ↦
        elim (ℕ_discrete (check_prlimit_permission k p (wanted old_rlim) (wanted new_rlim)) 0) [
          | yes z ↦ elim (do_prlimit-cases k s p resource new) [
            | inl (e, f, bad) ↦ inl (e, ground arith, bad)
            | inr (f, room, granted) ↦ inr (p, new, h, g, z, granted, ground arith)
          ]
          | no z ↦
              inl
                (check_prlimit_permission k p (wanted old_rlim) (wanted new_rlim), ground arith, z)
        ]
  ]
]

prlimit64-Changes :
    (k : RlimitEnv) (s : System) (pid : ℤ) (resource : ℕ) (new_rlim old_rlim : Option ℕ)
    → Changes k s (prlimit64 k s pid resource new_rlim old_rlim).system
unfolding prlimit64 Changes
prlimit64-Changes k s pid resource new_rlim old_rlim =
    elim (change_limit-Changes k s pid resource new_rlim old_rlim) [
      | inl (e, h, bad) ↦ inl (ground arith)
      | inr (p, new, read, target, permitted, granted, h) ↦ elim (Option-cases old_rlim) [
        | inl none_wanted ↦ inr (p, resource, new, granted, ground arith)
        | inr (address, given) ↦ inr (p, resource, new, granted, ground arith)
      ]
    ]

Step-Changes :
    {P : RlimitEnv → Type 0} {s t : System} → Step P s t → (k : RlimitEnv) × P k × Changes k s t
unfolding Changes
Step-Changes {P} {s} (by_getrlimit k resource rlim c) =
    (k, c, inl (getrlimit-Changes k s resource rlim))
Step-Changes {P} {s} (by_setrlimit k resource rlim c) = (k, c, setrlimit-Changes k s resource rlim)
Step-Changes {P} {s} (by_compat_setrlimit k resource rlim c) =
    (k, c, compat_setrlimit-Changes k s resource rlim)
Step-Changes {P} {s} (by_compat_getrlimit k resource rlim c) =
    (k, c, inl (compat_getrlimit-Changes k s resource rlim))
Step-Changes {P} {s} (by_old_getrlimit k resource rlim c) =
    (k, c, inl (old_getrlimit-Changes k s resource rlim))
Step-Changes {P} {s} (by_prlimit64 k pid resource new_rlim old_rlim c) =
    (k, c, prlimit64-Changes k s pid resource new_rlim old_rlim)

-- No soft limit is above its hard limit.
abbrev pub IsValid : System → Type 0
IsValid s =
    (signal resource : ℕ)
    → (s.limits signal resource).rlim_cur ≤ (s.limits signal resource).rlim_max

-- No hard limit of `t` is above that of `s`.
abbrev pub Lowers : System → System → Type 0
Lowers s t =
    (signal resource : ℕ)
    → (t.limits signal resource).rlim_max ≤ (s.limits signal resource).rlim_max

Changes-IsValid : (k : RlimitEnv) (s t : System) → Changes k s t → IsValid s → IsValid t
unfolding Changes
Changes-IsValid k s t (inl same) v signal resource = rw same (v signal resource)
Changes-IsValid k s t (inr (p, r, none, granted, same)) v signal resource =
    rw same (v signal resource)
Changes-IsValid k s t (inr (p, r, some new, granted, same)) v signal resource =
    let before = v signal resource in rw same (ground arith)

Changes-Lowers : (k : RlimitEnv) (s t : System) → k.capable ≡ false → Changes k s t → Lowers s t
unfolding Changes
Changes-Lowers k s t c (inl same) signal resource = rw same (omega arith)
Changes-Lowers k s t c (inr (p, r, none, granted, same)) signal resource = rw same (omega arith)
Changes-Lowers k s t c (inr (p, r, some new, granted, same)) signal resource =
    rw same (ground arith)

-- Whatever calls tasks make, with any rights, no soft limit gets above its hard limit.
pub Reach-IsValid : {P : RlimitEnv → Type 0} {s t : System} → Reach P s t → IsValid s → IsValid t
Reach-IsValid start v = v
Reach-IsValid (next r st) v =
    let (k, c, changes) = Step-Changes st in Changes-IsValid k _ _ changes (Reach-IsValid r v)

-- Whatever calls tasks make, if none of them has CAP_SYS_RESOURCE, then no hard limit of any
-- process is raised.
pub Reach-Lowers : {s t : System} → Reach (λ k. k.capable ≡ false) s t → Lowers s t
Reach-Lowers start signal resource = omega arith
Reach-Lowers (next {t} {u} r st) signal resource =
    let (k, c, changes) = Step-Changes st in
    let lower = Changes-Lowers k t u c changes signal resource in
    omega (arith, Reach-Lowers r signal resource, lower)
