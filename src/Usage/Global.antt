-- ===== src/Usage/Global.antt =====
-- globalstats.c: the memory of all processes, in whole megabytes.
use so2_202110206_2svac.Common.{
  ℕ, ◌+◌, ◌-◌, ◌*◌, ◌/◌, ◌≤◌, ◌<◌, ◌≡◌, not, List, [], ◌∷◌, Option, none, some, ◌==◌, if◌then◌else◌,
  arith, length,
}
use so2_202110206_2svac.Common.Int.{ℤ, pos}
use so2_202110206_2svac.Common.Word.{word, add64, page_shl}
use so2_202110206_2svac.Kernel.{Task, Env, error, efault}

-- `struct global_mem_stats`
pub record GlobalMemStats : Type 0 where
  pub total_reserved_mb : ℕ
  pub total_committed_mb : ℕ

abbrev pub mb : ℕ
mb = 1024 * 1024

-- One round of `for_each_process`.
unfoldable pub add_task : GlobalMemStats → Task → GlobalMemStats
add_task stats task = elim task.mm [
  | none ↦ stats
  | some mm ↦ record {
    total_reserved_mb = add64 stats.total_reserved_mb (page_shl mm.total_vm / mb);
    total_committed_mb = add64 stats.total_committed_mb (page_shl mm.rss / mb);
  }
]

unfoldable pub sum_tasks : GlobalMemStats → List Task → GlobalMemStats
sum_tasks stats [] = stats
sum_tasks stats (task ∷ tasks) = sum_tasks (add_task stats task) tasks

unfoldable pub get_global_memory_usage_stats : Env → List Task → ℕ → Option GlobalMemStats × ℤ
get_global_memory_usage_stats env processes user_stats =
    if not (env.copy_to_user user_stats 16 == 0) then (none, error efault) else (
      some (sum_tasks (record { total_reserved_mb = 0; total_committed_mb = 0 }) processes),
      pos 0,
    )

-- The bytes that a process, and all processes, have reserved and hold in memory.
abbrev pub reserved : Task → ℕ
reserved task = elim task.mm [ none ↦ 0 | some mm ↦ page_shl mm.total_vm ]

abbrev pub committed : Task → ℕ
committed task = elim task.mm [ none ↦ 0 | some mm ↦ page_shl mm.rss ]

abbrev pub total : (Task → ℕ) → List Task → ℕ
total f [] = 0
total f (task ∷ tasks) = f task + total f tasks

-- The sum of the megabytes of each, as the loop forms it.
abbrev megabytes : (Task → ℕ) → List Task → ℕ
megabytes f [] = 0
megabytes f (task ∷ tasks) = f task / mb + megabytes f tasks

add_task-megabytes :
    (acc : GlobalMemStats) (t : Task)
    → acc.total_reserved_mb + reserved t / mb < word
    → acc.total_committed_mb + committed t / mb < word
    → ((add_task acc t).total_reserved_mb ≡ acc.total_reserved_mb + reserved t / mb)
      × ((add_task acc t).total_committed_mb ≡ acc.total_committed_mb + committed t / mb)
unfolding add_task
add_task-megabytes acc t hr hc = ground arith

sum_tasks-megabytes :
    (acc : GlobalMemStats) (ts : List Task)
    → acc.total_reserved_mb + megabytes reserved ts < word
    → acc.total_committed_mb + megabytes committed ts < word
    → ((sum_tasks acc ts).total_reserved_mb ≡ acc.total_reserved_mb + megabytes reserved ts)
      × ((sum_tasks acc ts).total_committed_mb ≡ acc.total_committed_mb + megabytes committed ts)
unfolding sum_tasks
sum_tasks-megabytes acc [] hr hc = omega arith
sum_tasks-megabytes acc (t ∷ ts) hr hc =
    ground (arith, add_task-megabytes acc t, sum_tasks-megabytes (add_task acc t) ts)

megabytes-near :
    (f : Task → ℕ) (ts : List Task)
    → (megabytes f ts * mb ≤ total f ts) × (total f ts ≤ megabytes f ts * mb + length ts * (mb - 1))
megabytes-near f [] = omega arith
megabytes-near f (t ∷ ts) = omega (arith, (megabytes-near f ts).0, (megabytes-near f ts).1)

-- If the bytes reserved by all processes, and those resident, each sum to less than 2 ^ 64, what
-- `julioz_get_global_memory_usage_stats` writes is at most the true sums, and short of each by less
-- than a megabyte for each process.
pub get_global_memory_usage_stats-near :
    (env : Env) (ts : List Task) (user_stats : ℕ) {stats : GlobalMemStats}
    → total reserved ts < word
    → total committed ts < word
    → (get_global_memory_usage_stats env ts user_stats).0 ≡ some stats
    → (stats.total_reserved_mb * mb ≤ total reserved ts)
      × (total reserved ts ≤ stats.total_reserved_mb * mb + length ts * (mb - 1))
      × (stats.total_committed_mb * mb ≤ total committed ts)
      × (total committed ts ≤ stats.total_committed_mb * mb + length ts * (mb - 1))
unfolding get_global_memory_usage_stats
get_global_memory_usage_stats-near env ts u hr hc e = ground (
  arith,
  sum_tasks-megabytes (record { total_reserved_mb = 0; total_committed_mb = 0 }) ts,
  megabytes-near reserved ts,
  megabytes-near committed ts,
)
