-- ===== src/Fork/Tests.antt =====
-- Copies of a task that end well or fail, and calls that make one.
use so2_202110206_2svac.Common.{◌≡◌, refl, true, false, List, [], ◌∷◌, replicate}
use so2_202110206_2svac.Kernel.{einval}
use so2_202110206_2svac.Monitor.Track.{Timespec, SyscallUsage, max_sys_calls, zeroed}
use so2_202110206_2svac.Fork.{clone_thread}
use so2_202110206_2svac.Fork.Stages.{get, undo, task, creds, delayacct, policy}
use so2_202110206_2svac.Fork.Copy.{
  ForkEnv, check_clone_flags, stage, copy_links, copy_pid, copy_signals, copy_resources, copy_task,
  copy_process,
}
use so2_202110206_2svac.Fork.Unwound.{whole_task, Settles, copy_process-Settles}
use so2_202110206_2svac.Fork.Create.{
  CloneEnv, no_args, fork_args, wake_up_new_task, init_vfork, await_vfork, started, kernel_clone,
  sys_vfork,
}
use so2_202110206_2svac.Fork.Counted.{Clones, kernel_clone-Clones}

-- A kernel in which everything succeeds.
abbrev fork_env : ForkEnv
fork_env = record {
  signal_unkillable = false;
  own_pid_ns = true;
  task_sigpending = false;
  dup_task_struct_ok = true;
  is_rlimit_overlimit = false;
  init_user = false;
  capable = false;
  nr_threads = 10;
  max_threads = 100;
  set_kthread_struct_ok = true;
  has_mm = true;
  has_io_context = false;
  idle = false;
  copy_creds = 0;
  mpol_dup = 0;
  sched_fork = 0;
  perf_event_init_task = 0;
  audit_alloc = 0;
  security_task_alloc = 0;
  copy_semundo = 0;
  copy_files = 0;
  copy_fs = 0;
  copy_sighand = 0;
  copy_signal = 0;
  copy_mm = 0;
  copy_namespaces = 0;
  copy_io = 0;
  copy_thread = 0;
  alloc_pid = 0;
  pidfd_prepare = 0;
  put_user = 0;
  cgroup_can_fork = 0;
  pidns_adding = true;
  fatal_signal_pending = false;
}

-- A failure of `sched_fork` gives back what comes before it.
copy_unscheduled : copy_process (record fork_env { sched_fork = 12 }) fork_args ≡ record {
  steps =
      get task
      ∷ get creds
      ∷ get delayacct
      ∷ get policy
      ∷ undo policy
      ∷ undo delayacct
      ∷ undo creds
      ∷ undo task
      ∷ [];
  code = 12;
}
unfolding copy_process copy_task copy_resources check_clone_flags stage
copy_unscheduled = refl

-- A thread without the handlers of signals of its group is refused.
copy_thread_alone :
    copy_process fork_env (record no_args { flags = clone_thread })
    ≡ record { steps = []; code = einval }
unfolding copy_process check_clone_flags
copy_thread_alone = refl

copy_process-Settles_example : Settles (whole_task fork_env 0) [] (copy_process fork_env fork_args)
copy_process-Settles_example = copy_process-Settles fork_env fork_args

abbrev clone_env : CloneEnv
clone_env = record {
  copying = fork_env;
  pid_vnr = 321;
  ptrace_event_enabled = λ e. false;
  lru_gen_walks_mmu = false;
  wait_for_vfork_done = false;
}

vfork_waits :
    (sys_vfork (record clone_env { wait_for_vfork_done = true })).events
    ≡ init_vfork ∷ wake_up_new_task ∷ await_vfork ∷ []
unfolding sys_vfork kernel_clone started copy_process copy_task copy_resources copy_signals copy_pid
    copy_links check_clone_flags stage
vfork_waits = refl

kernel_clone-Clones_example : Clones clone_env fork_args (kernel_clone clone_env fork_args)
kernel_clone-Clones_example = kernel_clone-Clones clone_env fork_args

abbrev array : List SyscallUsage
array = replicate max_sys_calls zeroed

abbrev time : Timespec
time = record { tv_sec = 1; tv_nsec = 2 }
