-- ===== src/Sessions/Steps.antt =====
-- Sequences of calls of `setpgid` and `setsid`, by any processes.
use native.Mathlib.Decide.{ℕ_discrete}
use so2_202110206_2svac.Common.{
  ℕ, ◌≡◌, sym, ap, subst, ◌∙◌, ◌⊎◌, inl, inr, true, false, none, some, arith, Option-cases,
  Bool-cases,
}
use so2_202110206_2svac.Common.Int.{ℤ, pos, negsuc}
use so2_202110206_2svac.Common.Result.{Result-cases, ok, err}
use so2_202110206_2svac.Kernel.{eperm}
use so2_202110206_2svac.Sessions.{Process, Processes, SessionEnv, pid_task, change}
use so2_202110206_2svac.Sessions.Groups.{
  same_session, may_move, may_join, move, set_group, setpgid, ksys_setsid, getsid, do_getpgid,
  or_else,
}
use so2_202110206_2svac.Sessions.Coherent.{
  IsCoherent, pid_task-none, pid_task-some, change-IsCoherent, same_session-eq,
}

-- What a process has been tested for that `setpgid` moves into a group.
pub record Moved (k : SessionEnv) (s t : Processes) (i g : ℕ) (p : Process) : Type 0 where
  pub there : s i ≡ some p
  pub result : t ≡ change s i (record p { pgrp = g })
  pub no_leader : p.leader ≡ false
  pub ours : (i ≡ k.current) ⊎ (same_session s i k.current ≡ true)
  pub joins :
      (g ≡ i) ⊎ ((m : ℕ) × (pid_task s g k.pid_max ≡ some m) × (same_session s m k.current ≡ true))

may_move-ok :
    (k : SessionEnv) (s : Processes) (i : ℕ) (p : Process)
    → may_move k s i p ≡ ok tt
    → (i ≡ k.current) ⊎ (same_session s i k.current ≡ true)
may_move-ok k s i p h = ground arith

may_join-ok :
    (k : SessionEnv) (s : Processes) (i g : ℕ)
    → may_join k s i g ≡ ok tt
    → (g ≡ i) ⊎ ((m : ℕ) × (pid_task s g k.pid_max ≡ some m) × (same_session s m k.current ≡ true))
may_join-ok k s i g h = elim (ℕ_discrete g i) [
  | yes e ↦ inl e
  | no ne ↦ elim (Option-cases (pid_task s g k.pid_max)) [
    | inl e ↦ absurd (ground arith)
    | inr (m, e) ↦ inr (m, e, ground arith)
  ]
]

move-Moved :
    (k : SessionEnv) (s t : Processes) (i g : ℕ) (p : Process)
    → s i ≡ some p
    → move k s i g p ≡ ok t
    → Moved k s t i g p
move-Moved k s t i g p there h = elim (Result-cases (may_move k s i p)) [
  | inl (e, bad) ↦ absurd (ground arith)
  | inr (u, mine) ↦ elim (Result-cases (may_join k s i g)) [
    | inl (e, bad) ↦ absurd (ground arith)
    | inr (v, joining) ↦ record {
      there = there;
      result = ground arith;
      no_leader = ground arith;
      ours = may_move-ok k s i p mine;
      joins = may_join-ok k s i g joining;
    }
  ]
]

setpgid-Moved :
    (k : SessionEnv) (s t : Processes) (pid pgid : ℤ)
    → setpgid k s pid pgid ≡ ok t
    → (i : ℕ) × (g : ℕ) × (p : Process) × Moved k s t i g p
unfolding setpgid
setpgid-Moved k s t pid pgid h =
    let target = or_else pid (pos k.current) in go target (or_else pgid target) h
  where
    found :
        (i : ℕ) (g : ℕ)
        → set_group k s (pos i) (pos g) ≡ ok t
        → (j : ℕ) × (e : ℕ) × (p : Process) × Moved k s t j e p
    found i g r = elim (Option-cases (k.process_of_thread i)) [
      | inl z ↦ absurd (ground arith)
      | inr (l, z) ↦ elim (Option-cases (s i)) [
        | inl y ↦ absurd (ground arith)
        | inr (p, y) ↦ (i, g, p, move-Moved k s t i g p y (ground arith))
      ]
    ]

    go :
        (target group : ℤ)
        → set_group k s target group ≡ ok t
        → (j : ℕ) × (e : ℕ) × (p : Process) × Moved k s t j e p
    go target (negsuc n) r = absurd (ground arith)
    go (negsuc m) (pos g) r = absurd (ground arith)
    go (pos i) (pos g) r = found i g r

-- The process moved is of the caller's session, and so is one of the group it joins.
Moved-group :
    (k : SessionEnv) (s t : Processes) (i g : ℕ) (p : Process)
    → Moved k s t i g p
    → (g ≡ i) ⊎ ((x : ℕ) × (q : Process) × (s x ≡ some q) × (q.pgrp ≡ g) × (q.session ≡ p.session))
Moved-group k s t i g p m = elim m.joins [
  | inl e ↦ inl e
  | inr (x, found, ours) ↦
      let (q, there, group) = pid_task-some s g k.pid_max x found in
      let (r, caller, same) = same_session-eq s x k.current q there ours in
      inr (
        x,
        q,
        there,
        group,
        elim m.ours [
          | inl it ↦ let at : s i ≡ s k.current = ap s it in ground (arith, m.there)
          | inr mine ↦
              let (r', caller', same') = same_session-eq s i k.current p m.there mine in
              ground arith
        ],
      )
]

Moved-IsCoherent :
    (k : SessionEnv) (s t : Processes) (i g : ℕ) (p : Process)
    → IsCoherent k.pid_max s
    → Moved k s t i g p
    → IsCoherent k.pid_max t
Moved-IsCoherent k s t i g p c m =
    let moved : Process = record p { pgrp = g } in
    let group = Moved-group k s t i g p m in
    subst (λ (u : Processes). IsCoherent k.pid_max u) (sym m.result)
      (change-IsCoherent k.pid_max s c i moved (c.bounded i p m.there)
        (λ x q there same. elim group [
          | inl e ↦ c.founders x i q p there m.there (same ∙ e)
          | inr (y, r, at, in_g, of) ↦ c.groups x y q r there at (same ∙ sym in_g) ∙ of
        ])
        (λ x q other there same. elim group [
          | inl e ↦ absurd (other (sym same ∙ e))
          | inr (y, r, at, in_g, of) ↦ sym of ∙ c.founders y x r q at there (in_g ∙ same)
        ])
        (λ x q there same. c.founders x i q p there m.there same))

ksys_setsid-made :
    (k : SessionEnv) (s t : Processes) (sid : ℕ)
    → ksys_setsid k s ≡ ok (t, sid)
    → (p : Process) × (s k.current ≡ some p)
      × (p.leader ≡ false)
      × (pid_task s k.current k.pid_max ≡ none)
      × (t
          ≡ change s k.current
              (record p { leader = true; pgrp = k.current; session = k.current; tty = none }))
      × (sid ≡ k.current)
unfolding ksys_setsid
ksys_setsid-made k s t sid h = elim (Option-cases (s k.current)) [
  | inl e ↦ absurd (ground arith)
  | inr (p, e) ↦ elim (Bool-cases p.leader) [
    | inl l ↦ absurd (ground arith)
    | inr l ↦ elim (Option-cases (pid_task s k.current k.pid_max)) [
      | inr (m, z) ↦ absurd (ground arith)
      | inl z ↦ (p, e, l, z, ground arith, ground arith)
    ]
  ]
]

ksys_setsid-IsCoherent :
    (k : SessionEnv) (s t : Processes) (sid : ℕ)
    → IsCoherent k.pid_max s
    → ksys_setsid k s ≡ ok (t, sid)
    → IsCoherent k.pid_max t
ksys_setsid-IsCoherent k s t sid c h =
    let (p, there, no_leader, alone, result, id) = ksys_setsid-made k s t sid h in
    let i = k.current in
    let made : Process = record p { leader = true; pgrp = i; session = i; tty = none } in
    let apart = λ (x : ℕ) (q : Process) (at : s x ≡ some q).
      pid_task-none s i k.pid_max x q alone (c.bounded x q at) at in
    subst (λ (u : Processes). IsCoherent k.pid_max u) (sym result)
      (change-IsCoherent k.pid_max s c i made (c.bounded i p there)
        (λ x q at same. absurd (apart x q at same)) (λ x q other at same. absurd (other (sym same)))
        (λ x q at same. absurd (apart x q at same)))

-- One call of either that succeeds, by any process.
pub data Step (max : ℕ) (s : Processes) : Processes → Type 0 where
  by_setpgid :
      (k : SessionEnv) (pid pgid : ℤ) {t : Processes}
      → k.pid_max ≡ max
      → setpgid k s pid pgid ≡ ok t
      → Step max s t
  by_setsid :
      (k : SessionEnv) (sid : ℕ) {t : Processes}
      → k.pid_max ≡ max
      → ksys_setsid k s ≡ ok (t, sid)
      → Step max s t

pub data Reach (max : ℕ) (s : Processes) : Processes → Type 0 where
  start : Reach max s s
  next : {t u : Processes} → Reach max s t → Step max t u → Reach max s u

Step-IsCoherent : {max : ℕ} {s t : Processes} → Step max s t → IsCoherent max s → IsCoherent max t
Step-IsCoherent {max} {s} {t} (by_setpgid k pid pgid same h) c =
    let (i, g, p, m) = setpgid-Moved k s t pid pgid h in
    let before = subst (λ (n : ℕ). IsCoherent n s) (sym same) c in
    subst (λ (n : ℕ). IsCoherent n t) same (Moved-IsCoherent k s t i g p before m)
Step-IsCoherent {max} {s} {t} (by_setsid k sid same h) c =
    let before = subst (λ (n : ℕ). IsCoherent n s) (sym same) c in
    subst (λ (n : ℕ). IsCoherent n t) same (ksys_setsid-IsCoherent k s t sid before h)

-- If each process group is within one session, and so is a process with the group of its id, and
-- all ids are below a bound, then this stays so whatever calls of `setpgid` and `setsid` succeed,
-- by whatever processes.
pub Reach-IsCoherent :
    {max : ℕ} {s t : Processes} → Reach max s t → IsCoherent max s → IsCoherent max t
Reach-IsCoherent start c = c
Reach-IsCoherent (next r st) c = Step-IsCoherent st (Reach-IsCoherent r c)

change-same : (s : Processes) (i : ℕ) (p : Process) → change s i p i ≡ some p
change-same s i p = ground arith

-- After a `setsid` that succeeds, the caller is in the session and in the group of its own id, and
-- it cannot make a session once more.
pub ksys_setsid-leads :
    (k : SessionEnv) (s t : Processes) (sid : ℕ)
    → ksys_setsid k s ≡ ok (t, sid)
    → (getsid k t (pos 0) ≡ ok sid)
      × (do_getpgid k t (pos 0) ≡ ok sid)
      × (ksys_setsid k t ≡ err eperm)
unfolding getsid do_getpgid ksys_setsid
ksys_setsid-leads k s t sid h =
    let (p, there, no_leader, alone, result, id) = ksys_setsid-made k s t sid h in
    let i = k.current in
    let made : Process = record p { leader = true; pgrp = i; session = i; tty = none } in
    let at : t i ≡ some made = ap (λ (u : Processes). u i) result ∙ change-same s i made in
    (ground arith, ground arith, ground arith)
