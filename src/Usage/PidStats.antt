-- ===== src/Usage/PidStats.antt =====
-- pidstats.c and pidstatsv2.c: what `julioz_get_memory_usage_stats` reports of one process, or of
-- all. The two files differ in the score alone.
use so2_202110206_2svac.Common.{
  ℕ, ◌+◌, ◌*◌, ◌/◌, ◌%◌, not, ◌||◌, List, [], ◌∷◌, ◌++◌, Option, none, some, ltb, leb, ◌==◌,
  if◌then◌else◌,
}
use so2_202110206_2svac.Common.Int.{ℤ, pos, is_neg, eq_ℤ, ◌+ℤ◌, ltb_ℤ, to_int}
use so2_202110206_2svac.Common.Word.{word, add64, page_shl}
use so2_202110206_2svac.Kernel.{Task, Env, error, esrch, efault, einval}

-- `struct mem_usage_stats`
pub record MemUsageStats : Type 0 where
  pub pid : ℤ
  pub vmsize : ℕ
  pub vmrss : ℕ
  pub oom_score : ℤ
  pub committed_percent : ℤ

abbrev pub stats_size : ℕ
stats_size = 32

-- `(pages << PAGE_SHIFT) / 1024`
abbrev pub to_kb : ℕ → ℕ
to_kb pages = page_shl pages / 1024

unfoldable pub percent : ℕ → ℕ → ℤ
percent vmsize vmrss = if ltb 0 vmsize then to_int (pos (vmrss * 100 % word / vmsize)) else pos 0

-- `stats` for a task and its score.
unfoldable pub fill_stats : Task → ℤ → MemUsageStats
fill_stats task score = elim task.mm [
  | none ↦ record {
    pid = task.pid;
    vmsize = 0;
    vmrss = 0;
    oom_score = score;
    committed_percent = pos 0;
  }
  | some mm ↦ record {
    pid = task.pid;
    vmsize = to_kb mm.total_vm;
    vmrss = to_kb mm.rss;
    oom_score = score;
    committed_percent = percent (to_kb mm.total_vm) (to_kb mm.rss);
  }
]

-- The score before its range is checked: a share of the pages in thousandths, and the adjustment.
unfoldable pub raw_score : ℕ → Task → ℤ
raw_score totalpages task =
    let rss : ℕ = elim task.mm [ none ↦ 0 | some mm ↦ mm.rss ] in
    let adj : ℤ = elim task.oom_score_adj [ none ↦ pos 0 | some a ↦ a ] in
    to_int (to_int (pos (rss * 1000 % word / totalpages)) +ℤ adj)

unfoldable pub clamp_score : ℤ → ℤ
clamp_score score =
    if is_neg score then pos 0 else if ltb_ℤ (pos 1000) score then pos 1000 else score

-- `calculate_oom_score` of pidstatsv2.c, given `totalram_pages + total_swap_pages`; `none` is the
-- fault of a division by 0.
unfoldable pub calculate_oom_score : ℕ → Task → Option ℤ
calculate_oom_score totalpages task =
    if totalpages == 0 then none else some (clamp_score (raw_score totalpages task))

-- What a call has copied out, each entry with its address and the first one first, and what it
-- returns.
pub record Reported : Type 0 where
  pub written : List (ℕ × MemUsageStats)
  pub code : ℤ

-- A score, or `none` if computing it faults.
abbrev pub Score : Type 0
Score = Task → Option ℤ

-- `&buffer[count]`
abbrev pub entry_at : ℕ → ℕ → ℕ
entry_at buffer count = add64 buffer (count * stats_size)

-- The loop over all processes.
unfoldable pub report_all :
    Env → Score → List Task → ℕ → ℕ → ℕ → List (ℕ × MemUsageStats) → Option Reported
report_all env score [] buffer count max_entries out =
    some (record { written = out; code = pos count })
report_all env score (task ∷ tasks) buffer count max_entries out =
    if leb max_entries count
    then some (record { written = out; code = pos count })
    else elim (score task) [
      | none ↦ none
      | some n ↦
          let rest =
            report_all env score tasks buffer (count + 1) max_entries
              (out ++ (entry_at buffer count, fill_stats task n) ∷ []) in
          if not (env.copy_to_user (entry_at buffer count) stats_size == 0)
          then some (record { written = out; code = error efault })
          else rest
    ]

unfoldable pub report_one : Env → Score → Task → ℕ → Option Reported
report_one env score task buffer = elim (score task) [
  | none ↦ none
  | some n ↦
      if not (env.copy_to_user buffer stats_size == 0)
      then some (record { written = []; code = error efault })
      else some (record { written = (buffer, fill_stats task n) ∷ []; code = pos 1 })
]

-- The system call; `processes` is what `for_each_process` goes through.
unfoldable pub get_memory_usage_stats : Env → Score → List Task → ℤ → ℕ → ℕ → Option Reported
get_memory_usage_stats env score processes pid buffer max_entries =
    if is_neg pid || (buffer == 0 || leb max_entries 0)
    then some (record { written = []; code = error einval })
    else if eq_ℤ pid (pos 0)
    then report_all env score processes buffer 0 max_entries []
    else elim (env.find_task_by_vpid pid) [
      | none ↦ some (record { written = []; code = error esrch })
      | some task ↦ report_one env score task buffer
    ]

-- That of pidstatsv2.c.
unfoldable pub get_memory_usage_stats_v2 : Env → ℕ → List Task → ℤ → ℕ → ℕ → Option Reported
get_memory_usage_stats_v2 env totalpages =
    get_memory_usage_stats env (calculate_oom_score totalpages)
