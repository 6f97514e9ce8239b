-- ===== src/Lib.antt =====
-- System calls and a kernel module added to Linux 6.8 in three projects: what they compute, keep and
-- promise. The repository holds new files under kernel/usac and changed copies of files of Linux; what
-- it calls of the rest of the kernel is a parameter of the model, a field of an environment for one
-- call, of which nothing is assumed but what a theorem states.
--
-- Parts, and the files that model them:
-- * Proyecto3/project3/kernel/usac/project3/crudmemlimit.c keeps a list of limits on the memory of
--   processes. Limits.antt has its state (`memory_list`, `memory_list_mutex`, and the blocks that it
--   has allocated) and its operations: `is_request_accepted`, and `add_memory_limit`,
--   `get_memory_limits`, `update_memory_limit` and `remove_memory_limit` for the system calls
--   `julioz_*`. Calls from several processes are a sequence, in the order in which they take the
--   mutex. Limits/Registry.antt has the abstract view, a map from processes to limits;
--   Limits/Invariant.antt the well-formed lists; Limits/Accept.antt the decisions of the check;
--   Limits/Buffer.antt the listing.
-- * Proyecto3/project3/mm/mmap.c calls that check in `brk` and in `ksys_mmap_pgoff`. Mmap.antt has
--   flags, files, areas and the environment; Mmap/Checks.antt the tests of sizes and limits;
--   Mmap/Brk.antt `brk` (as `sys_brk`) and `do_brk_flags`; Mmap/Map.antt `do_mmap`; Mmap/Ksys.antt
--   `ksys_mmap_pgoff` and the two system calls on it. Both calls also stand without the check, as in
--   Proyecto3/project3/files/originalmmap.c. Proofs: Mmap/Growth.antt, Mmap/Enforce.antt,
--   Mmap/Bounded.antt, Mmap/Intercept.antt and Mmap/Requests.antt.
-- * The same file keeps the memory areas of a process. Areas.antt has areas and an address space, as
--   the list that the tree holds in the order of addresses, `split_vma` and `vm_stat_account`;
--   Areas/Unmap.antt `do_vmi_munmap` and what it calls; Areas/Stack.antt `expand_downwards` and
--   `find_extend_vma_locked`. Areas/View.antt has the abstract view, a map from addresses to pages,
--   and well-formed areas. Proofs: Areas/Removal.antt, Areas/Munmap.antt, Areas/Prefix.antt,
--   Areas/Walk.antt, Areas/Shrinks.antt, Areas/Growth.antt and Areas/Extend.antt.
-- * Gaps.antt and its modules have the search for free addresses in that file: Gaps/Search.antt
--   `unmapped_area`, `unmapped_area_topdown` and `vm_unmapped_area`; Gaps/Generic.antt
--   `generic_get_unmapped_area`, its topdown twin and `get_unmapped_area`. Gaps/Free.antt has what is
--   asked of the search of the tree, which Gaps/Tests/FirstFit.antt shows to be possible. Proofs:
--   Gaps/Found.antt, Gaps/Complete.antt and Gaps/Requests.antt.
-- * `mmap_region` of that file puts a checked request among the areas. Regions.antt has its arguments and
--   tests; Regions/Join.antt `vma_expand` and the cases of `vma_merge` that a new area can meet;
--   Regions/Map.antt `mmap_region` from the unmapping of the range to its errors. Proofs:
--   Regions/Fills.antt, Regions/Flags.antt, Regions/Joined.antt, Regions/Merged.antt, Regions/Made.antt,
--   Regions/Settle.antt, Regions/Attach.antt and Regions/Correct.antt, over the abstract view of
--   Areas/View.antt.
-- * Proyecto2/p2-kernel-linux/kernel/usac reports memory. Usage/PidStats.antt has pidstats.c and
--   pidstatsv2.c, with the score as a parameter that the second fills; Usage/Global.antt
--   globalstats.c; Usage/Tamalloc.antt tamalloc.c. Proofs: Usage/Score.antt, Usage/Report.antt.
-- * Proyecto1/kernel-linux/kernel/usac and modules observe the system. Monitor/Snapshot.antt has
--   syscall1.c (and its copy in kernel/sys.c), Monitor/Track.antt syscall2.c, Monitor/IoStats.antt
--   syscall3.c, Monitor/CpuInfo.antt the module mem_and_cpu_info_202110206.c. Proofs about the
--   counters: Monitor/Counting.antt.
-- * Proyecto1/kernel-linux/kernel/sys.c is Linux's own, with a snapshot added. Ids.antt and its
--   modules have the system calls on user and group ids (Ids/User.antt, Ids/Group.antt, Ids/Fs.antt),
--   and the proofs in Ids/Escalation.antt, Ids/Groups.antt and Ids/Drop.antt. Priority.antt has
--   `setpriority` and `getpriority`, and Priority/Rank.antt and Priority/Users.antt the proofs.
--   Rlimits.antt has `do_prlimit` and Rlimits/Calls.antt the system calls on it; Rlimits/Steps.antt
--   and Rlimits/Answers.antt the proofs. Sessions.antt and Sessions/Groups.antt have `setpgid`,
--   `getpgid`, `getsid` and `setsid`; Sessions/Coherent.antt and Sessions/Steps.antt the proofs.
--   Sysinfo.antt has `do_sysinfo`, and Sysinfo/Bytes.antt the proofs.
-- * Proyecto1/kernel-linux/fs/read_write.c is Linux's own, with calls of `track_syscall` added. Io.antt
--   has files; Io/Seek.antt the functions that seek, up to `ksys_lseek`; Io/Transfer.antt
--   `rw_verify_area`, `vfs_read`, `vfs_write` and the system calls on them, `read` and `write` (as
--   `sys_read` and `sys_write`) with their calls of `track_syscall`. Proofs: Io/Positions.antt,
--   Io/Bounds.antt and Io/Counted.antt.
-- * Proyecto1/kernel-linux/fs/open.c is Linux's own, with a call of `track_syscall` added to `open`.
--   Open/Flags.antt has `build_open_flags`; Open/Descriptors.antt `do_sys_openat2` and the calls that
--   open or close a descriptor; Open/Truncate.antt, Open/Attributes.antt and Open/Directories.antt the
--   calls that change a file or a directory, as the sequences of what they take hold of, let go of and
--   change (Open/Holds.antt); Open/Access.antt `access`; Open/Allocate.antt `fallocate`. Proofs:
--   Open/Consistent.antt, Open/Installed.antt and Open/Balanced.antt.
-- * Proyecto1/kernel-linux/kernel/fork.c is Linux's own, with calls of `track_syscall` added to `fork`
--   and `clone`. Fork/Stages.antt has the stages in which a task gets what it needs; Fork/Copy.antt
--   `copy_process`; Fork/Create.antt `kernel_clone` and the calls on it. Proofs: Fork/Unwound.antt and
--   Fork/Counted.antt.
--
-- Common.antt gathers the notation and the lemmas that the parts share; Kernel.antt has tasks, error
-- codes and the kernel's services; Sample.antt a small process for the tests, which stand with the
-- runs of the theorems at concrete inputs in a module Tests of each part.
--
-- Integers: a `long`, `size_t` or `u64` is a natural number with its wrap-around at 2 ^ 64 written
-- out, an `int` that may be negative an integer. Addresses and lengths are bytes, pages have 4096. An
-- error is its number, negative as the result of a system call, and 2 ^ 64 less the number where it
-- is returned as an address or as a signed word. Loops walk finite lists by recursion on them, except
-- two. The jumps to `retry` of a search for free addresses take fuel, 2 ^ 64 units from the bottom up
-- and one more than the upper limit from the top down, which is enough as each of them moves the bound
-- of the search by at least one. The loop of `do_sysinfo` takes 33 units: its
-- unit, an `unsigned int`, is halved 31 times at most before it is 1.
--
-- Not modelled: the parts of mmap.c, sys.c, read_write.c, open.c and fork.c that the projects leave
-- alone beyond those named, among them the merging of areas that are already there; messages to the
-- kernel's log; and the programs that try the system calls out. Mmap/Map.antt and Mmap/Brk.antt take
-- `mmap_region` and `do_vma_munmap` as parameters. What a stage of `copy_process` does to a task, and
-- what the lookup of a path finds, is a parameter as well. The tree of areas (lib/maple_tree.c) is seen
-- as the list of what it holds. Locks other than the list's mutex are left out, and so are races
-- between a call and changes to the task that it looks at.
pub mod Common
pub mod Kernel
pub mod Limits
pub mod Sample
pub mod Mmap
pub mod Areas
pub mod Gaps
pub mod Rlimits
pub mod Io
pub mod Sessions
pub mod Sysinfo
pub mod Regions
pub mod Open
pub mod Fork
pub mod Usage
pub mod Monitor
pub mod Ids
pub mod Priority
