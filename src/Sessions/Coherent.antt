-- ===== src/Sessions/Coherent.antt =====
-- Groups lie within sessions, whatever calls of `setpgid` and `setsid` processes make.
use native.Mathlib.Decide.{ℕ_discrete}
use so2_202110206_2svac.Common.{
  ℕ, zero, suc, ◌<◌, ◌≡◌, ◌≢◌, refl, sym, ap, ◌∙◌, ◌⊎◌, inl, inr, true, false, Option, none, some,
  ◌==◌, arith, Option-cases, Bool-cases,
}
use so2_202110206_2svac.Sessions.{Process, Processes, pid_task, change, in_group}
use so2_202110206_2svac.Sessions.Groups.{same_session}

-- Ids are below the bound. Processes of one group are of one session, and so are a process and
-- those of the group of its id.
pub record IsCoherent (pid_max : ℕ) (s : Processes) : Type 0 where
  pub bounded : (i : ℕ) (p : Process) → s i ≡ some p → i < pid_max
  pub groups :
      (i j : ℕ) (p q : Process)
      → s i ≡ some p
      → s j ≡ some q
      → p.pgrp ≡ q.pgrp
      → p.session ≡ q.session
  pub founders :
      (i j : ℕ) (p q : Process) → s i ≡ some p → s j ≡ some q → p.pgrp ≡ j → p.session ≡ q.session

in_group-some :
    (g : ℕ) (o : Option Process)
    → ((in_group g o ≡ true) × (p : Process) × (o ≡ some p) × (p.pgrp ≡ g))
      ⊎ ((in_group g o ≡ false) × ((p : Process) → o ≡ some p → p.pgrp ≢ g))
in_group-some g none = inr (refl, λ p e. ground arith)
in_group-some g (some q) = elim (Bool-cases (q.pgrp == g)) [
  | inl e ↦ inl (e, q, refl, ground arith)
  | inr e ↦ inr (e, λ p same. ground arith)
]

pub pid_task-none :
    (s : Processes) (g n i : ℕ) (p : Process)
    → pid_task s g n ≡ none
    → i < n
    → s i ≡ some p
    → p.pgrp ≢ g
pid_task-none s g zero i p h lt e = absurd (omega arith)
pid_task-none s g (suc n) i p h lt e = elim (in_group-some g (s n)) [
  | inl (yes_in, q, there, same) ↦ absurd (ground arith)
  | inr (no_in, apart) ↦ elim (ℕ_discrete i n) [
    | yes same ↦ apart p (ap s (sym same) ∙ e)
    | no other ↦ pid_task-none s g n i p (ground arith) (omega arith) e
  ]
]

pub pid_task-some :
    (s : Processes) (g n m : ℕ)
    → pid_task s g n ≡ some m
    → (p : Process) × (s m ≡ some p) × (p.pgrp ≡ g)
pid_task-some s g zero m h = absurd (ground arith)
pid_task-some s g (suc n) m h = elim (in_group-some g (s n)) [
  | inl (yes_in, q, there, same) ↦ let it : n ≡ m = ground arith in (q, ap s (sym it) ∙ there, same)
  | inr (no_in, apart) ↦ pid_task-some s g n m (ground arith)
]

change-cases :
    (s : Processes) (i : ℕ) (p : Process) (x : ℕ) (q : Process)
    → change s i p x ≡ some q
    → ((x ≡ i) × (p ≡ q)) ⊎ ((x ≢ i) × (s x ≡ some q))
change-cases s i p x q h = elim (ℕ_discrete x i) [
  | yes same ↦ inl (same, ground arith)
  | no other ↦ inr (other, ground arith)
]

-- A change of one process keeps groups within sessions if its new group holds only processes of
-- its session, and so does the group of its id.
module _ (max : ℕ) (s : Processes) (c : IsCoherent max s) (i : ℕ) (p : Process) (small : i < max)
    (own : (x : ℕ) (q : Process) → s x ≡ some q → q.pgrp ≡ p.pgrp → q.session ≡ p.session)
    (founder : (x : ℕ) (q : Process) → x ≢ i → s x ≡ some q → p.pgrp ≡ x → p.session ≡ q.session)
    (founded : (x : ℕ) (q : Process) → s x ≡ some q → q.pgrp ≡ i → q.session ≡ p.session) where
  pub change-IsCoherent : IsCoherent max (change s i p)
  change-IsCoherent = record {
    bounded = λ x q e. elim (change-cases s i p x q e) [
      | inl (same, it) ↦ omega arith
      | inr (other, there) ↦ c.bounded x q there
    ];
    groups = λ x y q r e f same. elim (change-cases s i p x q e) [
      | inl (x_i, it) ↦ elim (change-cases s i p y r f) [
        | inl (y_i, it') ↦ ground arith
        | inr (other, there) ↦ let o = own y r there in ground arith
      ]
      | inr (other, there) ↦ elim (change-cases s i p y r f) [
        | inl (y_i, it') ↦ let o = own x q there in ground arith
        | inr (other', there') ↦ c.groups x y q r there there' same
      ]
    ];
    founders = λ x y q r e f same. elim (change-cases s i p x q e) [
      | inl (x_i, it) ↦ elim (change-cases s i p y r f) [
        | inl (y_i, it') ↦ ground arith
        | inr (other, there) ↦ let o = founder y r other there in ground arith
      ]
      | inr (other, there) ↦ elim (change-cases s i p y r f) [
        | inl (y_i, it') ↦ let o = founded x q there in ground arith
        | inr (other', there') ↦ c.founders x y q r there there' same
      ]
    ];
  }

pub same_session-eq :
    (s : Processes) (i j : ℕ) (p : Process)
    → s i ≡ some p
    → same_session s i j ≡ true
    → (q : Process) × (s j ≡ some q) × (p.session ≡ q.session)
same_session-eq s i j p e h = elim (Option-cases (s j)) [
  | inl z ↦ absurd (ground arith)
  | inr (q, z) ↦ (q, z, ground arith)
]
