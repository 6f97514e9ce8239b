-- ===== src/Fork/Unwound.antt =====
-- A copy that fails gives back all that it got, in the reverse order.
use so2_202110206_2svac.Common.{
  ℕ, ◌≡◌, ◌≢◌, ◌⊎◌, ◌∙◌, inl, inr, refl, Bool, true, false, not, List, [], ◌∷◌, some, ◌==◌, arith,
  Bool-cases,
}
use so2_202110206_2svac.Common.Result.{err, Result-cases}
use so2_202110206_2svac.Mmap.{has}
use so2_202110206_2svac.Fork.{CloneArgs, clone_thread, clone_pidfd}
use so2_202110206_2svac.Fork.Stages.{
  Stage, Step, Copied, task, creds, delayacct, policy, perf, audit, security, semundo, files, fs,
  sighand, signal, mm, namespaces, io, thread, pid, pidfd, cgroup, undo, only, has_after, number,
}
use so2_202110206_2svac.Fork.Copy.{
  ForkEnv, stage, gives, gives_if, nothing, check_clone_flags, copy_links, copy_pid, copy_signals,
  copy_resources, copy_task, copy_process, bad_fork_cleanup_signal, bad_fork_cleanup_mm,
  bad_fork_cleanup_namespaces, bad_fork_cleanup_io, bad_fork_cleanup_thread, bad_fork_free_pid,
  bad_fork_put_pidfd, bad_fork_cancel_cgroup,
}

-- What a task has after each part of `copy_process`, the last first.
abbrev pub handlers : List Stage
handlers =
    sighand ∷ fs ∷ files ∷ semundo ∷ security ∷ audit ∷ perf ∷ policy ∷ delayacct ∷ creds ∷ task
    ∷ []

abbrev pub registers : ForkEnv → ℕ → List Stage
registers k flags =
    thread
    ∷ only k.has_io_context io
        (namespaces ∷ only k.has_mm mm (only (not (has flags clone_thread)) signal handlers))

abbrev pub whole_task : ForkEnv → ℕ → List Stage
whole_task k flags =
    cgroup ∷ only (has flags clone_pidfd) pidfd (only (not k.idle) pid (registers k flags))

-- Success leaves the task with all, and a failure with nothing.
pub record Settles (full had : List Stage) (t : Copied) : Type 0 where
  pub outcome :
      ((t.code ≡ 0) × (has_after had t.steps ≡ some full))
      ⊎ ((t.code ≢ 0) × (has_after had t.steps ≡ some []))

-- Steps that give all back, and steps in front that give something.
record Undoes (had : List Stage) (label : List Step) : Type 0 where
  undone : has_after had label ≡ some []

record Gains (had had' : List Stage) (gets : List Step → List Step) : Type 0 where
  gained : (l : List Step) → has_after had (gets l) ≡ has_after had' l

stage-Settles :
    (full had had' : List Stage) (code : ℕ) (label : List Step) (gets : List Step → List Step)
    (rest : Copied)
    → Undoes had label
    → Gains had had' gets
    → Settles full had' rest
    → Settles full had (stage code label gets rest)
unfolding stage
stage-Settles full had had' code label gets rest u g s = elim (Bool-cases (code == 0)) [
  | inr e ↦ rw (stage, e) (record { outcome = inr (ground arith, u.undone) })
  | inl e ↦
      rw (stage, e)
        (elim s.outcome [
          | inl (z, after) ↦ record { outcome = inl (z, g.gained rest.steps ∙ after) }
          | inr (z, after) ↦ record { outcome = inr (z, g.gained rest.steps ∙ after) }
        ])
]

undo-has_after :
    (s : Stage) (had : List Stage) (l : List Step)
    → has_after (s ∷ had) (undo s ∷ l) ≡ has_after had l
unfolding has_after
undo-has_after s had l =
    let same : (number s == number s) ≡ true = ground arith in rw (has_after, same)

only-undo :
    (b : Bool) (s : Stage) (had : List Stage) (l : List Step)
    → has_after (only b s had) (only b (undo s) l) ≡ has_after had l
only-undo true s had l = undo-has_after s had l
only-undo false s had l = refl

gives_if-Gains : (b : Bool) (s : Stage) (had : List Stage) → Gains had (only b s had) (gives_if b s)
unfolding has_after
gives_if-Gains true s had = record { gained = λ l. refl }
gives_if-Gains false s had = record { gained = λ l. refl }

gives-Gains : (s : Stage) (had : List Stage) → Gains had (s ∷ had) (gives s)
unfolding has_after
gives-Gains s had = record { gained = λ l. refl }

nothing-Gains : (had : List Stage) → Gains had had nothing
nothing-Gains had = record { gained = λ l. refl }

only-Undoes :
    (b : Bool) (s : Stage) (had : List Stage) (label : List Step)
    → Undoes had label
    → Undoes (only b s had) (only b (undo s) label)
only-Undoes b s had label u = record { undone = only-undo b s had label ∙ u.undone }

undo-Undoes :
    (s : Stage) (had : List Stage) (label : List Step)
    → Undoes had label
    → Undoes (s ∷ had) (undo s ∷ label)
undo-Undoes s had label u = record { undone = undo-has_after s had label ∙ u.undone }

-- Each label undo-Undoes what the task has there.
module _ (k : ForkEnv) (args : CloneArgs) where
  abbrev signals : List Stage
  signals = only (not (has args.flags clone_thread)) signal handlers

  abbrev memory : List Stage
  memory = only k.has_mm mm signals

  abbrev context : List Stage
  context = only k.has_io_context io (namespaces ∷ memory)

  abbrev numbered : List Stage
  numbered = only (not k.idle) pid (registers k args.flags)

  abbrev described : List Stage
  described = only (has args.flags clone_pidfd) pidfd numbered

  undo_signals : Undoes signals (bad_fork_cleanup_signal args.flags)
  unfolding has_after
  undo_signals =
      only-Undoes (not (has args.flags clone_thread)) signal handlers _ (record { undone = refl })

  undo_memory : Undoes memory (bad_fork_cleanup_mm k args.flags)
  undo_memory = only-Undoes k.has_mm mm signals _ undo_signals

  undo_namespaces : Undoes (namespaces ∷ memory) (bad_fork_cleanup_namespaces k args.flags)
  undo_namespaces = undo-Undoes namespaces memory _ undo_memory

  undo_context : Undoes context (bad_fork_cleanup_io k args.flags)
  undo_context = only-Undoes k.has_io_context io (namespaces ∷ memory) _ undo_namespaces

  undo_registers : Undoes (registers k args.flags) (bad_fork_cleanup_thread k args.flags)
  undo_registers = undo-Undoes thread context _ undo_context

  undo_pid : Undoes numbered (bad_fork_free_pid k args.flags)
  undo_pid = only-Undoes (not k.idle) pid (registers k args.flags) _ undo_registers

  undo_pidfd : Undoes described (bad_fork_put_pidfd k args.flags)
  undo_pidfd = only-Undoes (has args.flags clone_pidfd) pidfd numbered _ undo_pid

  undo_cgroup : Undoes (whole_task k args.flags) (bad_fork_cancel_cgroup k args.flags)
  undo_cgroup = undo-Undoes cgroup described _ undo_pidfd

  copy_links-Settles : Settles (whole_task k args.flags) described (copy_links k args)
  unfolding copy_links has_after
  copy_links-Settles =
      let full = whole_task k args.flags in
      stage-Settles full described full _ _ _ _ undo_pidfd (gives-Gains cgroup described) (
        stage-Settles full full full _ _ _ _ undo_cgroup (nothing-Gains full) (
          stage-Settles full full full _ _ _ _ undo_cgroup (nothing-Gains full)
            (record { outcome = inl (refl, refl) })))

  copy_pid-Settles : Settles (whole_task k args.flags) (registers k args.flags) (copy_pid k args)
  unfolding copy_pid has_after
  copy_pid-Settles =
      let full = whole_task k args.flags in
      stage-Settles full (registers k args.flags) numbered _ _ _ _ undo_registers
        (gives_if-Gains (not k.idle) pid (registers k args.flags))
        (stage-Settles full numbered described _ _ _ _ undo_pid
          (gives_if-Gains (has args.flags clone_pidfd) pidfd numbered)
          (stage-Settles full described described _ _ _ _ undo_pidfd (nothing-Gains described)
            copy_links-Settles))

  copy_signals-Settles : Settles (whole_task k args.flags) handlers (copy_signals k args)
  unfolding copy_signals has_after
  copy_signals-Settles =
      let full = whole_task k args.flags in
      stage-Settles full handlers signals _ _ _ _ (record { undone = refl })
        (gives_if-Gains (not (has args.flags clone_thread)) signal handlers)
        (stage-Settles full signals memory _ _ _ _ undo_signals (gives_if-Gains k.has_mm mm signals)
          (stage-Settles full memory (namespaces ∷ memory) _ _ _ _ undo_memory
            (gives-Gains namespaces memory)
            (stage-Settles full (namespaces ∷ memory) context _ _ _ _ undo_namespaces
              (gives_if-Gains k.has_io_context io (namespaces ∷ memory))
              (stage-Settles full context (registers k args.flags) _ _ _ _ undo_context
                (gives-Gains thread context) copy_pid-Settles))))

  abbrev early : List Stage
  early = policy ∷ delayacct ∷ creds ∷ task ∷ []

  copy_resources-Settles : Settles (whole_task k args.flags) early (copy_resources k args)
  unfolding copy_resources has_after
  copy_resources-Settles =
      let full = whole_task k args.flags in
      let s1 = perf ∷ early in
      let s2 = audit ∷ s1 in
      let s3 = security ∷ s2 in
      let s4 = semundo ∷ s3 in
      let s5 = files ∷ s4 in
      let s6 = fs ∷ s5 in
      stage-Settles full early early _ _ _ _ (record { undone = refl }) (nothing-Gains early)
        (stage-Settles full early s1 _ _ _ _ (record { undone = refl }) (gives-Gains perf early)
          (stage-Settles full s1 s2 _ _ _ _ (record { undone = refl }) (gives-Gains audit s1)
            (stage-Settles full s2 s3 _ _ _ _ (record { undone = refl }) (gives-Gains security s2)
              (stage-Settles full s3 s4 _ _ _ _ (record { undone = refl }) (gives-Gains semundo s3)
                (stage-Settles full s4 s5 _ _ _ _ (record { undone = refl }) (gives-Gains files s4)
                  (stage-Settles full s5 s6 _ _ _ _ (record { undone = refl }) (gives-Gains fs s5)
                    (stage-Settles full s6 handlers _ _ _ _ (record { undone = refl })
                      (gives-Gains sighand s6) copy_signals-Settles)))))))

  copy_task-Settles : Settles (whole_task k args.flags) [] (copy_task k args)
  unfolding copy_task has_after
  copy_task-Settles =
      let full = whole_task k args.flags in
      let s1 : List Stage = task ∷ [] in
      let s2 = creds ∷ s1 in
      let s3 = delayacct ∷ s2 in
      stage-Settles full [] [] _ _ _ _ (record { undone = refl }) (nothing-Gains [])
        (stage-Settles full [] s1 _ _ _ _ (record { undone = refl }) (gives-Gains task [])
          (stage-Settles full s1 s2 _ _ _ _ (record { undone = refl }) (gives-Gains creds s1)
            (stage-Settles full s2 s2 _ _ _ _ (record { undone = refl }) (nothing-Gains s2)
              (stage-Settles full s2 s3 _ _ _ _ (record { undone = refl })
                (gives-Gains delayacct s2)
                (stage-Settles full s3 s3 _ _ _ _ (record { undone = refl }) (nothing-Gains s3)
                  (stage-Settles full s3 early _ _ _ _ (record { undone = refl })
                    (gives-Gains policy s3) copy_resources-Settles))))))

  -- The refusals of flags have codes.
  check_clone_flags-ne : (e : ℕ) → check_clone_flags k args.flags ≡ err e → e ≢ 0
  unfolding check_clone_flags
  check_clone_flags-ne e h = ground arith

  -- Whatever the flags are and wherever `copy_process` fails, it gives back all that the task got,
  -- the last first, and returns an error; and if it does not fail the task keeps all its stages,
  -- with those parts that its flags and its caller give it.
  pub copy_process-Settles : Settles (whole_task k args.flags) [] (copy_process k args)
  unfolding copy_process has_after
  copy_process-Settles = elim (Result-cases (check_clone_flags k args.flags)) [
    | inl (e, h) ↦ rw (copy_process, h) (record { outcome = inr (check_clone_flags-ne e h, refl) })
    | inr (tt, h) ↦ rw (copy_process, h) copy_task-Settles
  ]
