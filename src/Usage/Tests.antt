-- ===== src/Usage/Tests.antt =====
-- Reports on the process of the sample and on a kernel thread.
use so2_202110206_2svac.Common.{
  ℕ, ◌+◌, ◌-◌, ◌*◌, ◌/◌, ◌≤◌, ◌<◌, ◌≡◌, ◌⊎◌, refl, List, [], ◌∷◌, map, Option, none, some, arith,
  length, take, min,
}
use so2_202110206_2svac.Common.Int.{ℤ, pos, ◌≤ℤ◌}
use so2_202110206_2svac.Common.Word.{word, page_size, err_word}
use so2_202110206_2svac.Kernel.{Task, error, esrch, efault, einval, enomem}
use so2_202110206_2svac.Sample.{mm, task, env}
use so2_202110206_2svac.Usage.PidStats.{
  Reported, fill_stats, percent, to_kb, calculate_oom_score, get_memory_usage_stats,
}
use so2_202110206_2svac.Usage.Score.{
  calculate_oom_score_bounds, calculate_oom_score-share, percent_bounds,
}
use so2_202110206_2svac.Usage.Report.{
  side_by_side, get_memory_usage_stats-room, get_memory_usage_stats-lists,
}
use so2_202110206_2svac.Usage.Global.{
  GlobalMemStats, mb, add_task, sum_tasks, get_global_memory_usage_stats, reserved, committed,
  total, get_global_memory_usage_stats-near,
}
use so2_202110206_2svac.Usage.Tamalloc.{prot, flags, tamalloc, tamalloc_lem}

abbrev kernel_thread : Task
kernel_thread = record { pid = pos 2; mm = none; oom_score_adj = some (pos 0) }

-- A task whose `signal` is gone.
abbrev exiting : Task
exiting = record { pid = pos 7; mm = some mm; oom_score_adj = none }

abbrev tasks : List Task
tasks = kernel_thread ∷ task ∷ exiting ∷ []

abbrev score : Task → Option ℤ
score t = some (pos 5)

-- The 60 of the 100 pages, in kilobytes.
task_stats : fill_stats task (pos 5) ≡ record {
  pid = pos 7;
  vmsize = 400;
  vmrss = 240;
  oom_score = pos 5;
  committed_percent = pos 60;
}
unfolding fill_stats percent
task_stats = refl

calculate_oom_score_bounds_run :
    (n : ℤ) × (calculate_oom_score 1000 task ≡ some n) × (pos 0 ≤ℤ n) × (n ≤ℤ pos 1000)
calculate_oom_score_bounds_run = calculate_oom_score_bounds 1000 task (omega arith)

calculate_oom_score-share_run : calculate_oom_score 1000 exiting ≡ some (pos (60 * 1000 / 1000))
calculate_oom_score-share_run =
    calculate_oom_score-share 1000 exiting mm refl refl (omega arith) (omega arith) (omega arith)

percent_bounds_run :
    (pos 0 ≤ℤ percent (to_kb 100) (to_kb 60)) × (percent (to_kb 100) (to_kb 60) ≤ℤ pos 100)
percent_bounds_run = percent_bounds 100 60 (omega arith) (omega arith)

abbrev report : Reported
report = record {
  written = (64, fill_stats kernel_thread (pos 5)) ∷ (96, fill_stats task (pos 5)) ∷ [];
  code = pos 2;
}

reports : get_memory_usage_stats env score tasks (pos 0) 64 2 ≡ some report
reports =
    get_memory_usage_stats-lists env score (λ t. pos 5) tasks 64 2 (λ t. refl) (λ a. refl)
      (omega arith) (omega arith)

get_memory_usage_stats-room_run :
    (length report.written ≤ 2)
    × ((report.code ≡ pos (length report.written))
        ⊎ (report.code ≡ error einval)
        ⊎ (report.code ≡ error esrch)
        ⊎ (report.code ≡ error efault))
get_memory_usage_stats-room_run = get_memory_usage_stats-room env score tasks (pos 0) 64 2 reports

get_memory_usage_stats-lists_example :
    get_memory_usage_stats env score tasks (pos 0) 64 2
    ≡ some (record {
      written = side_by_side 64 0 (map (λ t. fill_stats t (pos 5)) (take 2 tasks));
      code = pos (min 2 (length tasks));
    })
get_memory_usage_stats-lists_example =
    get_memory_usage_stats-lists env score (λ t. pos 5) tasks 64 2 (λ t. refl) (λ a. refl)
      (omega arith) (omega arith)

-- Both processes are below one megabyte, and count as none.
abbrev global : GlobalMemStats
global = record { total_reserved_mb = 0; total_committed_mb = 0 }

global_sum : (get_global_memory_usage_stats env tasks 64).0 ≡ some global
unfolding get_global_memory_usage_stats sum_tasks add_task
global_sum = refl

get_global_memory_usage_stats-near_run :
    (global.total_reserved_mb * mb ≤ total reserved tasks)
    × (total reserved tasks ≤ global.total_reserved_mb * mb + length tasks * (mb - 1))
    × (global.total_committed_mb * mb ≤ total committed tasks)
    × (total committed tasks ≤ global.total_committed_mb * mb + length tasks * (mb - 1))
get_global_memory_usage_stats-near_run =
    get_global_memory_usage_stats-near env tasks 64 (omega arith) (omega arith) global_sum

abbrev size : ℕ
size = 5000

abbrev vm_mmap : ℕ → ℕ → ℕ → ℕ → ℕ → ℕ
vm_mmap a len p f o = 1048576

tamalloc_lem_run :
    ((size ≡ 0) × (tamalloc vm_mmap size ≡ err_word einval))
    ⊎ ((word - page_size < size) × (tamalloc vm_mmap size ≡ err_word enomem))
    ⊎ ((pages : ℕ) × (tamalloc vm_mmap size ≡ vm_mmap 0 (pages * page_size) prot flags 0)
        × (size ≤ pages * page_size)
        × (pages * page_size < size + page_size))
tamalloc_lem_run = tamalloc_lem vm_mmap size (omega arith)
