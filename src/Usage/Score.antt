-- ===== src/Usage/Score.antt =====
-- The numbers that pidstats.c and pidstatsv2.c compute.
use native.Mathlib.Nat.{div-le_of_le-mul}
use so2_202110206_2svac.Common.{ℕ, ◌*◌, ◌/◌, ◌%◌, ◌≤◌, ◌<◌, ◌≡◌, ◌≢◌, none, some, arith}
use so2_202110206_2svac.Common.Int.{ℤ, pos, ◌≤ℤ◌}
use so2_202110206_2svac.Common.Word.{word, page_size}
use so2_202110206_2svac.Kernel.{Mm, Task}
use so2_202110206_2svac.Usage.PidStats.{percent, to_kb, raw_score, clamp_score, calculate_oom_score}

clamp_score_bounds : (n : ℤ) → (pos 0 ≤ℤ clamp_score n) × (clamp_score n ≤ℤ pos 1000)
unfolding clamp_score
clamp_score_bounds n = ground arith

-- `calculate_oom_score` does not fault on a machine that has pages, and the score lies between 0
-- and 1000, whatever the memory and the adjustment of the process.
pub calculate_oom_score_bounds :
    (totalpages : ℕ) (task : Task)
    → totalpages ≢ 0
    → (score : ℤ) × (calculate_oom_score totalpages task ≡ some score)
      × (pos 0 ≤ℤ score)
      × (score ≤ℤ pos 1000)
unfolding calculate_oom_score
calculate_oom_score_bounds total task h = (
  clamp_score (raw_score total task),
  ground arith,
  (clamp_score_bounds (raw_score total task)).0,
  (clamp_score_bounds (raw_score total task)).1,
)

thousandth : (a b : ℕ) → 0 < b → a ≤ b → a * 1000 / b ≤ 1000
thousandth a b p h = div-le_of_le-mul b (grind arith)

-- Where a process has memory but no `signal`, and no more pages resident than the machine has, of
-- which a thousandfold is below 2 ^ 64, the score is its share of the pages in thousandths, rounded
-- down.
pub calculate_oom_score-share :
    (totalpages : ℕ) (task : Task) (mm : Mm)
    → task.mm ≡ some mm
    → task.oom_score_adj ≡ none
    → 0 < totalpages
    → mm.rss ≤ totalpages
    → totalpages * 1000 < word
    → calculate_oom_score totalpages task ≡ some (pos (mm.rss * 1000 / totalpages))
unfolding calculate_oom_score clamp_score raw_score
calculate_oom_score-share total task mm hm ha h fits small =
    let share = thousandth mm.rss total h fits in ground arith

hundredth : (a b : ℕ) → a ≤ b → a * 100 / b ≤ 100
hundredth a b h = div-le_of_le-mul b (grind arith)

-- A process with no more pages resident than reserved, and less than 2 ^ 64 / 100 bytes reserved,
-- is reported to use between 0 and 100 percent.
pub percent_bounds :
    (total_vm rss : ℕ)
    → rss ≤ total_vm
    → total_vm * page_size * 100 < word
    → (pos 0 ≤ℤ percent (to_kb total_vm) (to_kb rss))
      × (percent (to_kb total_vm) (to_kb rss) ≤ℤ pos 100)
unfolding percent
percent_bounds total_vm rss h small =
    let p = hundredth (to_kb rss) (to_kb total_vm) (omega arith) in
    let e : to_kb rss * 100 % word ≡ to_kb rss * 100 = omega arith in ground arith
