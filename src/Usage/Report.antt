-- ===== src/Usage/Report.antt =====
-- How much `julioz_get_memory_usage_stats` copies out, and of which processes.
use mathlib.Core.List.{append-nil, append_assoc}
use so2_202110206_2svac.Common.{
  ℕ, zero, suc, ◌+◌, ◌*◌, ◌%◌, ◌≤◌, ◌<◌, ◌≡◌, ◌⊎◌, inl, inr, List, [], ◌∷◌, ◌++◌, map, Option, none,
  some, arith, length, take, min, Option-cases, length-append,
}
use so2_202110206_2svac.Common.Int.{ℤ, pos}
use so2_202110206_2svac.Common.Word.{word}
use so2_202110206_2svac.Kernel.{Env, Task, error, efault, einval, esrch}
use so2_202110206_2svac.Usage.PidStats.{
  MemUsageStats, Reported, Score, fill_stats, stats_size, entry_at, report_all, report_one,
  get_memory_usage_stats,
}

-- What holds of a report that does not fault.
abbrev IfReported : Option Reported → (Reported → Type 0) → Type 0
IfReported none P = Unit {0}
IfReported (some r) P = P r

report_all-room :
    (env : Env) (score : Score) (ts : List Task) (buffer count max : ℕ)
    (out : List (ℕ × MemUsageStats))
    → length out ≡ count
    → count ≤ max
    → IfReported (report_all env score ts buffer count max out) (λ r.
      (length r.written ≤ max) × ((r.code ≡ pos (length r.written)) ⊎ (r.code ≡ error efault)))
unfolding report_all
report_all-room env score [] buffer count max out e h = ground arith
report_all-room env score (t ∷ ts) buffer count max out e h = elim (Option-cases (score t)) [
  | inl fault ↦ ground arith
  | inr (n, scored) ↦ ground (
    arith,
    report_all-room env score ts buffer (count + 1) max
        (out ++ (entry_at buffer count, fill_stats t n) ∷ []),
    length-append out ((entry_at buffer count, fill_stats t n) ∷ []),
  )
]

-- A call that does not fault copies out no more entries than the caller has room for, and returns
-- how many they are, or an error: -EINVAL, -ESRCH or -EFAULT.
pub get_memory_usage_stats-room :
    (env : Env) (score : Score) (processes : List Task) (pid : ℤ) (buffer max_entries : ℕ)
    {r : Reported}
    → get_memory_usage_stats env score processes pid buffer max_entries ≡ some r
    → (length r.written ≤ max_entries)
      × ((r.code ≡ pos (length r.written))
          ⊎ (r.code ≡ error einval)
          ⊎ (r.code ≡ error esrch)
          ⊎ (r.code ≡ error efault))
unfolding get_memory_usage_stats report_one
get_memory_usage_stats-room env score ps pid buffer max {r} e =
    ground (arith, report_all-room env score ps buffer 0 max [])

-- Entries side by side in a buffer, from the one with a number on; addresses are modulo 2 ^ 64.
abbrev pub side_by_side : ℕ → ℕ → List MemUsageStats → List (ℕ × MemUsageStats)
side_by_side buffer i [] = []
side_by_side buffer i (s ∷ more) = ((buffer + 32 * i) % word, s) ∷ side_by_side buffer (i + 1) more

report_all-lists :
    (env : Env) (score : Score) (value : Task → ℤ) (ts : List Task) (buffer count room max : ℕ)
    (out : List (ℕ × MemUsageStats))
    → ((t : Task) → score t ≡ some (value t))
    → ((a : ℕ) → env.copy_to_user a stats_size ≡ 0)
    → count + room ≡ max
    → report_all env score ts buffer count max out
      ≡ some (record {
        written =
            out ++ side_by_side buffer count (map (λ t. fill_stats t (value t)) (take room ts));
        code = pos (count + min room (length ts));
      })
unfolding report_all
report_all-lists env score value [] buffer count zero max out hs hc e =
    ground (arith, append-nil out)
report_all-lists env score value [] buffer count (suc room) max out hs hc e =
    ground (arith, append-nil out)
report_all-lists env score value (t ∷ ts) buffer count zero max out hs hc e =
    ground (arith, append-nil out)
report_all-lists env score value (t ∷ ts) buffer count (suc room) max out hs hc e =
    let item : ℕ × MemUsageStats = ((buffer + 32 * count) % word, fill_stats t (value t)) in
    let at : entry_at buffer count ≡ (buffer + 32 * count) % word = omega arith in
    ground (
      arith,
      hs t,
      hc (entry_at buffer count),
      report_all-lists env score value ts buffer (count + 1) room max (out ++ item ∷ []) hs hc,
      append_assoc out (item ∷ [])
          (side_by_side buffer (count + 1) (map (λ t'. fill_stats t' (value t')) (take room ts))),
    )

-- Asked for all processes, with a buffer that is not null, room for at least one entry, a score
-- that does not fault and memory that can be written, the call copies out the first `max_entries`
-- of them, in their order and side by side from the start of the buffer, 32 bytes each, and returns
-- how many they are.
pub get_memory_usage_stats-lists :
    (env : Env) (score : Score) (value : Task → ℤ) (processes : List Task) (buffer max_entries : ℕ)
    → ((t : Task) → score t ≡ some (value t))
    → ((a : ℕ) → env.copy_to_user a stats_size ≡ 0)
    → 0 < buffer
    → 0 < max_entries
    → get_memory_usage_stats env score processes (pos 0) buffer max_entries
      ≡ some (record {
        written =
            side_by_side buffer 0 (map (λ t. fill_stats t (value t)) (take max_entries processes));
        code = pos (min max_entries (length processes));
      })
unfolding get_memory_usage_stats
get_memory_usage_stats-lists env score value ps buffer max hs hc hb hm =
    ground (arith, report_all-lists env score value ps buffer 0 max max [] hs hc)
