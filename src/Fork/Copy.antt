-- ===== src/Fork/Copy.antt =====
-- `copy_process` of fork.c: its tests of the flags, its stages in order, and for each failure the
-- label it goes to. What a stage does to the task is seen as its step.
use so2_202110206_2svac.Common.{ℕ, Bool, not, ◌&&◌, ◌||◌, List, [], ◌∷◌, leb, ◌==◌, if◌then◌else◌}
use so2_202110206_2svac.Common.Result.{Result, ok, err, ◌>>◌, refuse_if}
use so2_202110206_2svac.Kernel.{einval, enomem, eagain, eintr}
use so2_202110206_2svac.Mmap.{has}
use so2_202110206_2svac.Fork.{
  CloneArgs, clone_vm, clone_fs, clone_sighand, clone_pidfd, clone_parent, clone_thread,
  clone_newns, clone_detached, clone_newuser, clone_newpid,
}
use so2_202110206_2svac.Fork.Stages.{
  Stage, Step, Copied, task, creds, delayacct, policy, perf, audit, security, semundo, files, fs,
  sighand, signal, mm, namespaces, io, thread, pid, pidfd, cgroup, get, undo, only,
}

-- The kernel around one copy: what the code reads of the calling task and of the new one, and the
-- code, 0 for none, with which each stage ends.
pub record ForkEnv : Type 0 where
  pub signal_unkillable : Bool
  pub own_pid_ns : Bool
  pub task_sigpending : Bool
  pub dup_task_struct_ok : Bool
  pub is_rlimit_overlimit : Bool
  pub init_user : Bool
  -- `capable(CAP_SYS_RESOURCE)` or `capable(CAP_SYS_ADMIN)`
  pub capable : Bool
  pub nr_threads : ℕ
  pub max_threads : ℕ
  pub set_kthread_struct_ok : Bool
  -- `p->mm` and `p->io_context` are not null once they are copied
  pub has_mm : Bool
  pub has_io_context : Bool
  -- the task is the idle task of a processor, which keeps `init_struct_pid`
  pub idle : Bool
  pub copy_creds : ℕ
  pub mpol_dup : ℕ
  pub sched_fork : ℕ
  pub perf_event_init_task : ℕ
  pub audit_alloc : ℕ
  pub security_task_alloc : ℕ
  pub copy_semundo : ℕ
  pub copy_files : ℕ
  pub copy_fs : ℕ
  pub copy_sighand : ℕ
  pub copy_signal : ℕ
  pub copy_mm : ℕ
  pub copy_namespaces : ℕ
  pub copy_io : ℕ
  pub copy_thread : ℕ
  pub alloc_pid : ℕ
  pub pidfd_prepare : ℕ
  pub put_user : ℕ
  pub cgroup_can_fork : ℕ
  pub pidns_adding : Bool
  pub fatal_signal_pending : Bool

-- ERESTARTNOINTR
abbrev pub erestartnointr : ℕ
erestartnointr = 513

-- The combinations of flags that are refused.
unfoldable pub check_clone_flags : ForkEnv → ℕ → Result (Unit {0})
check_clone_flags k flags = do
  refuse_if (has flags clone_newns && has flags clone_fs) einval
  refuse_if (has flags clone_newuser && has flags clone_fs) einval
  refuse_if (has flags clone_thread && not (has flags clone_sighand)) einval
  refuse_if (has flags clone_sighand && not (has flags clone_vm)) einval
  refuse_if (has flags clone_parent && k.signal_unkillable) einval
  refuse_if
      (has flags clone_thread
        && (has flags clone_newuser || has flags clone_newpid || not k.own_pid_ns))
      einval
  refuse_if (has flags clone_pidfd && (has flags clone_detached || has flags clone_thread)) einval

-- The labels at the end, each of which goes on with the next. At `fork_out`, as after a success, the
-- signals that were delayed meanwhile are let through, and nothing is given back.
abbrev fork_out : List Step
fork_out = []

abbrev bad_fork_free : List Step
bad_fork_free = undo task ∷ fork_out

abbrev bad_fork_cleanup_count : List Step
bad_fork_cleanup_count = undo creds ∷ bad_fork_free

abbrev bad_fork_cleanup_delayacct : List Step
bad_fork_cleanup_delayacct = undo delayacct ∷ bad_fork_cleanup_count

abbrev bad_fork_cleanup_policy : List Step
bad_fork_cleanup_policy = undo policy ∷ bad_fork_cleanup_delayacct

abbrev bad_fork_cleanup_perf : List Step
bad_fork_cleanup_perf = undo perf ∷ bad_fork_cleanup_policy

abbrev bad_fork_cleanup_audit : List Step
bad_fork_cleanup_audit = undo audit ∷ bad_fork_cleanup_perf

abbrev bad_fork_cleanup_security : List Step
bad_fork_cleanup_security = undo security ∷ bad_fork_cleanup_audit

abbrev bad_fork_cleanup_semundo : List Step
bad_fork_cleanup_semundo = undo semundo ∷ bad_fork_cleanup_security

abbrev bad_fork_cleanup_files : List Step
bad_fork_cleanup_files = undo files ∷ bad_fork_cleanup_semundo

abbrev bad_fork_cleanup_fs : List Step
bad_fork_cleanup_fs = undo fs ∷ bad_fork_cleanup_files

abbrev bad_fork_cleanup_sighand : List Step
bad_fork_cleanup_sighand = undo sighand ∷ bad_fork_cleanup_fs

-- A task that does not get a part of its own has none to give back.
abbrev pub bad_fork_cleanup_signal : ℕ → List Step
bad_fork_cleanup_signal flags =
    only (not (has flags clone_thread)) (undo signal) bad_fork_cleanup_sighand

abbrev pub bad_fork_cleanup_mm : ForkEnv → ℕ → List Step
bad_fork_cleanup_mm k flags = only k.has_mm (undo mm) (bad_fork_cleanup_signal flags)

abbrev pub bad_fork_cleanup_namespaces : ForkEnv → ℕ → List Step
bad_fork_cleanup_namespaces k flags = undo namespaces ∷ bad_fork_cleanup_mm k flags

abbrev pub bad_fork_cleanup_io : ForkEnv → ℕ → List Step
bad_fork_cleanup_io k flags = only k.has_io_context (undo io) (bad_fork_cleanup_namespaces k flags)

abbrev pub bad_fork_cleanup_thread : ForkEnv → ℕ → List Step
bad_fork_cleanup_thread k flags = undo thread ∷ bad_fork_cleanup_io k flags

abbrev pub bad_fork_free_pid : ForkEnv → ℕ → List Step
bad_fork_free_pid k flags = only (not k.idle) (undo pid) (bad_fork_cleanup_thread k flags)

abbrev pub bad_fork_put_pidfd : ForkEnv → ℕ → List Step
bad_fork_put_pidfd k flags = only (has flags clone_pidfd) (undo pidfd) (bad_fork_free_pid k flags)

abbrev pub bad_fork_cancel_cgroup : ForkEnv → ℕ → List Step
bad_fork_cancel_cgroup k flags = undo cgroup ∷ bad_fork_put_pidfd k flags

-- A stage: an error goes to a label, and a success gives the task something, or nothing.
unfoldable pub stage : ℕ → List Step → (List Step → List Step) → Copied → Copied
stage code label gets rest =
    if code == 0
    then record rest { steps = gets rest.steps }
    else record { steps = label; code = code }

abbrev pub gives : Stage → List Step → List Step
gives s l = get s ∷ l

abbrev pub gives_if : Bool → Stage → List Step → List Step
gives_if test s l = only test (get s) l

abbrev pub nothing : List Step → List Step
nothing l = l

-- A code under a test.
abbrev pub code_if : Bool → ℕ → ℕ
code_if test e = if test then e else 0

module _ (k : ForkEnv) (args : CloneArgs) where
  -- The last stages, and the tests before the new task becomes visible.
  unfoldable pub copy_links : Copied
  copy_links = stage k.cgroup_can_fork (bad_fork_put_pidfd k args.flags) (gives cgroup) (
      stage (code_if (not k.pidns_adding) enomem) (bad_fork_cancel_cgroup k args.flags) nothing (
        stage (code_if k.fatal_signal_pending eintr) (bad_fork_cancel_cgroup k args.flags) nothing
          (record { steps = []; code = 0 })))

  -- The process id and a descriptor for it.
  unfoldable pub copy_pid : Copied
  copy_pid =
      stage (code_if (not k.idle) k.alloc_pid) (bad_fork_cleanup_thread k args.flags)
        (gives_if (not k.idle) pid)
        (stage (code_if (has args.flags clone_pidfd) k.pidfd_prepare)
          (bad_fork_free_pid k args.flags) (gives_if (has args.flags clone_pidfd) pidfd)
          (stage (code_if (has args.flags clone_pidfd) k.put_user) (bad_fork_put_pidfd k args.flags)
            nothing copy_links))

  -- From the signals to the registers.
  unfoldable pub copy_signals : Copied
  copy_signals =
      stage k.copy_signal bad_fork_cleanup_sighand
        (gives_if (not (has args.flags clone_thread)) signal)
        (stage k.copy_mm (bad_fork_cleanup_signal args.flags) (gives_if k.has_mm mm) (
          stage k.copy_namespaces (bad_fork_cleanup_mm k args.flags) (gives namespaces) (
            stage k.copy_io (bad_fork_cleanup_namespaces k args.flags)
              (gives_if k.has_io_context io)
              (stage k.copy_thread (bad_fork_cleanup_io k args.flags) (gives thread) copy_pid))))

  -- From the scheduler to the handlers of signals.
  unfoldable pub copy_resources : Copied
  copy_resources = stage k.sched_fork bad_fork_cleanup_policy nothing (
      stage k.perf_event_init_task bad_fork_cleanup_policy (gives perf) (
        stage k.audit_alloc bad_fork_cleanup_perf (gives audit) (
          stage k.security_task_alloc bad_fork_cleanup_audit (gives security) (
            stage k.copy_semundo bad_fork_cleanup_security (gives semundo) (
              stage k.copy_files bad_fork_cleanup_semundo (gives files) (
                stage k.copy_fs bad_fork_cleanup_files (gives fs)
                  (stage k.copy_sighand bad_fork_cleanup_fs (gives sighand) copy_signals)))))))

  -- From the pending signals of the caller to the policy of memory.
  unfoldable pub copy_task : Copied
  copy_task = stage (code_if k.task_sigpending erestartnointr) fork_out nothing (
      stage (code_if (not k.dup_task_struct_ok) enomem) fork_out (gives task) (
        stage k.copy_creds bad_fork_free (gives creds) (
          stage (code_if (k.is_rlimit_overlimit && not k.init_user && not k.capable) eagain)
            bad_fork_cleanup_count nothing
            (stage (code_if (leb k.max_threads k.nr_threads) eagain) bad_fork_cleanup_count
              (gives delayacct)
              (stage (code_if (args.kthread && not k.set_kthread_struct_ok) eagain)
                bad_fork_cleanup_delayacct nothing
                (stage k.mpol_dup bad_fork_cleanup_delayacct (gives policy) copy_resources))))))

  unfoldable pub copy_process : Copied
  copy_process = elim (check_clone_flags k args.flags) [
    | err e ↦ record { steps = []; code = e }
    | ok done ↦ copy_task
  ]
