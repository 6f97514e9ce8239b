-- ===== src/Monitor/Tests.antt =====
-- Snapshots, counts and readings on small inputs.
use so2_202110206_2svac.Common.{
  ℕ, ◌+◌, ◌-◌, ◌*◌, ◌/◌, ◌%◌, ◌≤◌, ◌<◌, ◌≡◌, ◌↔◌, ◌⊎◌, refl, some, List, [], ◌∷◌, arith, replicate,
  length-replicate, false,
}
use so2_202110206_2svac.Common.Int.{ℤ, pos, negsuc}
use so2_202110206_2svac.Common.Word.{word}
use so2_202110206_2svac.Sample.{env}
use so2_202110206_2svac.Monitor.Snapshot
use so2_202110206_2svac.Monitor.Snapshot.{
  Sysinfo, take_snapshot, to_kb, take_snapshot-swap, take_snapshot-cached,
}
use so2_202110206_2svac.Monitor.Track.{
  Timespec, SyscallUsage, max_sys_calls, zeroed, tracked, out_of_bounds, track_all,
}
use so2_202110206_2svac.Monitor.Counting.{
  count_of, occurrences, HasNegative, track_all-out_of_bounds_iff, track_all-counts,
}
use so2_202110206_2svac.Monitor.IoStats.{get_io_throttle}
use so2_202110206_2svac.Monitor.CpuInfo.{
  CpuStat, Previous, Later, times, busy, show, calculate_cpu_usage, show-usage,
}

abbrev stack : Sysinfo
stack = record { totalram = 1; freeram = 2; totalswap = 3; freeswap = 4 }

-- One page more in the swap cache than in files.
abbrev counters : Snapshot.Counters
counters = record {
  file_pages = 10;
  active_anon = 5;
  active_file = 6;
  swapcache_pages = 11;
  si_meminfo = λ i. record i { totalram = 1000; freeram = 500 };
}

take_snapshot-swap_run :
    ((take_snapshot stack counters).total_swap ≡ to_kb stack.totalswap)
    × ((take_snapshot stack counters).free_swap ≡ to_kb stack.freeswap)
take_snapshot-swap_run = take_snapshot-swap stack counters (λ i. (refl, refl))

take_snapshot-cached_run :
    ((counters.swapcache_pages ≤ counters.file_pages)
      × ((take_snapshot stack counters).cached_pages
          ≡ (counters.file_pages - counters.swapcache_pages) * 4))
    ⊎ ((counters.file_pages < counters.swapcache_pages)
        × ((take_snapshot stack counters).cached_pages
            ≡ word - (counters.swapcache_pages - counters.file_pages) * 4))
take_snapshot-cached_run = take_snapshot-cached stack counters (omega arith) (omega arith)

abbrev array : List SyscallUsage
array = replicate max_sys_calls zeroed

abbrev time : Timespec
time = record { tv_sec = 1; tv_nsec = 2 }

abbrev calls : List (ℤ × Timespec)
calls = (pos 1, time) ∷ (pos 0, time) ∷ (pos 1, time) ∷ (pos 5000, time) ∷ []

track_all-out_of_bounds_iff_example :
    (track_all (some array) ((negsuc 0, time) ∷ calls) ≡ out_of_bounds)
    ↔ HasNegative ((negsuc 0, time) ∷ calls)
track_all-out_of_bounds_iff_example =
    track_all-out_of_bounds_iff array ((negsuc 0, time) ∷ calls)
      (length-replicate max_sys_calls zeroed)

track_all-counts_run :
    (vs : List SyscallUsage) × (track_all (some array) calls ≡ tracked (some vs))
    × (count_of vs 1 ≡ (count_of array 1 + occurrences 1 calls) % word)
track_all-counts_run =
    track_all-counts array calls 1 (length-replicate max_sys_calls zeroed) (λ n. n) (omega arith)
      (omega arith)

abbrev at : ℕ → CpuStat
at n = record {
  user = n;
  nice = 0;
  system = n;
  idle = 2 * n;
  iowait = 0;
  irq = 0;
  softirq = 0;
  steal = 0;
}

abbrev never : Previous
never = record { prev_idle = 0; prev_total = 0 }

-- Half of the time is busy.
half : (show (show never (at 10) 1000 500).0 (at 60) 1000 400).1.cpu_usage ≡ 50
unfolding show calculate_cpu_usage
half = refl

later : Later (at 10) (at 60)
later = record {
  user = omega arith;
  nice = omega arith;
  system = omega arith;
  idle = omega arith;
  iowait = omega arith;
  irq = omega arith;
  softirq = omega arith;
  steal = omega arith;
}

show-usage_run :
    ((show (show never (at 10) 1000 500).0 (at 60) 1000 400).1.cpu_usage
      ≡ 100 * (busy (at 60) - busy (at 10)) / (times (at 60) - times (at 10)))
    × ((show (show never (at 10) 1000 500).0 (at 60) 1000 400).1.cpu_usage ≤ 100)
show-usage_run = show-usage never (at 10) (at 60) 1000 500 1000 400 later (omega arith)

-- A kernel without accounting reports no input and output.
no_accounting :
    get_io_throttle false env
      (record { read_bytes = 1; write_bytes = 2; cancelled_write_bytes = 3 })
      64
    ≡ (
      some (record {
        bytes_read = 0;
        bytes_written = 0;
        cancel_count = 0;
        io_wait_time = 0;
        disk_io_time = 0;
      }),
      pos 0,
    )
unfolding get_io_throttle
no_accounting = refl
