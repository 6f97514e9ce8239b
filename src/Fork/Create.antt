-- ===== src/Fork/Create.antt =====
-- `kernel_clone` of fork.c and the calls that make a task with it: `kernel_thread`,
-- `user_mode_thread`, `fork`, `vfork` and `clone`. What happens to the caller and to the new task
-- is the sequence of their events.
use so2_202110206_2svac.Common.{
  ℕ, ◌%◌, ◌^◌, Bool, true, false, not, ◌&&◌, List, [], ◌∷◌, bit_and, bit_or, ◌==◌, if◌then◌else◌,
}
use so2_202110206_2svac.Common.Int.{pos}
use so2_202110206_2svac.Common.Result.{Result, ok, err}
use so2_202110206_2svac.Kernel.{einval}
use so2_202110206_2svac.Mmap.{has}
use so2_202110206_2svac.Monitor.Track.{Timespec, Counters, Tracked, track_syscall}
use so2_202110206_2svac.Fork.{
  CloneArgs, clone_vm, clone_vfork, clone_pidfd, clone_parent_settid, clone_untraced, csignal,
  sigchld,
}
use so2_202110206_2svac.Fork.Stages.{Step, only}
use so2_202110206_2svac.Fork.Copy.{ForkEnv, copy_process}

-- The kernel around one call: the number of the new task, the tracer of the caller, and whether the
-- caller is killed while it waits.
pub record CloneEnv : Type 0 where
  pub copying : ForkEnv
  pub pid_vnr : ℕ
  pub ptrace_event_enabled : ℕ → Bool
  pub lru_gen_walks_mmu : Bool
  pub wait_for_vfork_done : Bool

-- What the call does once the new task is there.
pub data Event : Type 0 where
  -- the number goes to an address of the caller
  put_user : ℕ → ℕ → Event
  -- the new task will tell when it is done with the memory
  init_vfork : Event
  lru_gen_add_mm : Event
  wake_up_new_task : Event
  ptrace_event_pid : ℕ → Event
  await_vfork : Event

-- What becomes of the copy, the events, and the number of the new task or an error.
pub record Cloned : Type 0 where
  pub copied : List Step
  pub events : List Event
  pub result : Result ℕ

-- PTRACE_EVENT_FORK, PTRACE_EVENT_VFORK, PTRACE_EVENT_CLONE and PTRACE_EVENT_VFORK_DONE
abbrev event_fork : ℕ
event_fork = 1

abbrev event_vfork : ℕ
event_vfork = 2

abbrev event_clone : ℕ
event_clone = 3

abbrev event_vfork_done : ℕ
event_vfork_done = 5

-- The event for the tracer, 0 for none.
abbrev event_of : CloneArgs → ℕ
event_of args =
    if has args.flags clone_vfork
    then event_vfork
    else if args.exit_signal == sigchld
    then event_fork
    else event_clone

abbrev pub trace_of : CloneEnv → CloneArgs → ℕ
trace_of k args =
    if not (has args.flags clone_untraced) && k.ptrace_event_enabled (event_of args)
    then event_of args
    else 0

-- The wait for a task that borrows the memory of its parent.
abbrev waiting : CloneEnv → List Event
waiting k = await_vfork ∷ only (not k.wait_for_vfork_done) (ptrace_event_pid event_vfork_done) []

abbrev pub waiting_if : Bool → CloneEnv → List Event
waiting_if true k = waiting k
waiting_if false k = []

unfoldable pub started : CloneEnv → CloneArgs → List Event
started k args = only (has args.flags clone_parent_settid) (put_user k.pid_vnr args.parent_tid) (
    only (has args.flags clone_vfork) init_vfork (
      only (k.lru_gen_walks_mmu && not (has args.flags clone_vm)) lru_gen_add_mm (
        wake_up_new_task
        ∷ only (not (trace_of k args == 0)) (ptrace_event_pid (trace_of k args))
            (waiting_if (has args.flags clone_vfork) k))))

-- The number of a descriptor and that of the task would go to one place.
abbrev pub clashes : CloneArgs → Bool
clashes args =
    has args.flags clone_pidfd
    && has args.flags clone_parent_settid
    && args.pidfd == args.parent_tid

unfoldable pub kernel_clone : CloneEnv → CloneArgs → Cloned
kernel_clone k args =
    let made = copy_process k.copying args in
    if clashes args
    then (record { copied = []; events = []; result = err einval })
    else if made.code == 0
    then (record { copied = made.steps; events = started k args; result = ok k.pid_vnr })
    else (record { copied = made.steps; events = []; result = err made.code })

abbrev lower_32_bits : ℕ → ℕ
lower_32_bits n = n % 2 ^ 32

-- `& ~CSIGNAL` in 64 bits
abbrev without_signal : ℕ → ℕ
without_signal n = bit_and n 0xffff_ffff_ffff_ff00

-- The arguments that are not named are 0.
abbrev pub no_args : CloneArgs
no_args = record {
  flags = 0;
  exit_signal = 0;
  pidfd = 0;
  parent_tid = 0;
  child_tid = 0;
  stack = 0;
  tls = 0;
  kthread = false;
}

-- What `kernel_thread` and `user_mode_thread` ask for, with the test that tells them apart.
unfoldable pub thread_args : Bool → ℕ → CloneArgs
thread_args kthread flags = record no_args {
  flags = without_signal (bit_or (bit_or (lower_32_bits flags) clone_vm) clone_untraced);
  exit_signal = bit_and (lower_32_bits flags) csignal;
  kthread = kthread;
}

unfoldable pub kernel_thread : CloneEnv → ℕ → Cloned
kernel_thread k flags = kernel_clone k (thread_args true flags)

unfoldable pub user_mode_thread : CloneEnv → ℕ → Cloned
user_mode_thread k flags = kernel_clone k (thread_args false flags)

abbrev pub fork_args : CloneArgs
fork_args = record no_args { exit_signal = sigchld }

-- `__NR_fork` is 57.
unfoldable pub sys_fork : CloneEnv → Counters → Timespec → Tracked × Cloned
sys_fork k c now = (track_syscall c (pos 57) now, kernel_clone k fork_args)

unfoldable pub sys_vfork : CloneEnv → Cloned
sys_vfork k =
    kernel_clone k (record no_args { flags = bit_or clone_vfork clone_vm; exit_signal = sigchld })

unfoldable pub clone_args : ℕ → ℕ → ℕ → ℕ → ℕ → CloneArgs
clone_args clone_flags newsp parent_tidptr child_tidptr tls = record no_args {
  flags = without_signal (lower_32_bits clone_flags);
  pidfd = parent_tidptr;
  child_tid = child_tidptr;
  parent_tid = parent_tidptr;
  exit_signal = bit_and (lower_32_bits clone_flags) csignal;
  stack = newsp;
  tls = tls;
}

-- `__NR_clone` is 56.
unfoldable pub sys_clone : CloneEnv → Counters → Timespec → ℕ → ℕ → ℕ → ℕ → ℕ → Tracked × Cloned
sys_clone k c now clone_flags newsp parent_tidptr child_tidptr tls = (
  track_syscall c (pos 56) now,
  kernel_clone k (clone_args clone_flags newsp parent_tidptr child_tidptr tls),
)
