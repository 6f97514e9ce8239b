-- ===== src/Monitor/Snapshot.antt =====
-- kernel/usac/syscall1.c (and kernel/sys.c): a snapshot of the memory of the machine, in kilobytes.
use native.Mathlib.Decide.{dec_lt}
use so2_202110206_2svac.Common.{
  ℕ, ◌-◌, ◌*◌, ◌%◌, ◌≤◌, ◌<◌, ◌≡◌, ◌⊎◌, inl, inr, Option, none, some, not, ltb, ◌==◌, if◌then◌else◌,
  arith,
}
use so2_202110206_2svac.Common.Int.{ℤ, pos}
use so2_202110206_2svac.Common.Word.{word, add64, sub64}
use so2_202110206_2svac.Kernel.{Env, error, efault}

-- `struct mem_snapshot`
pub record MemSnapshot : Type 0 where
  pub total_memory : ℕ
  pub free_memory : ℕ
  pub total_swap : ℕ
  pub free_swap : ℕ
  pub active_pages : ℕ
  pub cached_pages : ℕ

-- The fields of `struct sysinfo` that are read, in pages.
pub record Sysinfo : Type 0 where
  pub totalram : ℕ
  pub freeram : ℕ
  pub totalswap : ℕ
  pub freeswap : ℕ

-- The counters of the virtual memory system, in pages: NR_FILE_PAGES, NR_ACTIVE_ANON,
-- NR_ACTIVE_FILE, and `total_swapcache_pages()`; and what `si_meminfo` makes of a structure.
pub record Counters : Type 0 where
  pub file_pages : ℕ
  pub active_anon : ℕ
  pub active_file : ℕ
  pub swapcache_pages : ℕ
  pub si_meminfo : Sysinfo → Sysinfo

-- `pages << (PAGE_SHIFT - 10)`
abbrev pub to_kb : ℕ → ℕ
to_kb pages = pages * 4 % word

-- `(cached < 0) ? 0 : cached` on an `unsigned long`.
unfoldable pub cached_of : Counters → ℕ
cached_of c =
    let cached = sub64 c.file_pages c.swapcache_pages in if ltb cached 0 then 0 else cached

-- The first argument is what the stack holds where `sysinfo` stands, before `si_meminfo`.
unfoldable pub take_snapshot : Sysinfo → Counters → MemSnapshot
unfolding cached_of
take_snapshot stack c =
    let sysinfo = c.si_meminfo stack in
    record {
      total_memory = to_kb sysinfo.totalram;
      free_memory = to_kb sysinfo.freeram;
      total_swap = to_kb sysinfo.totalswap;
      free_swap = to_kb sysinfo.freeswap;
      active_pages = to_kb (add64 c.active_anon c.active_file);
      cached_pages = to_kb (cached_of c);
    }

unfoldable pub capture_memory_snapshot : Env → Sysinfo → Counters → ℕ → Option MemSnapshot × ℤ
capture_memory_snapshot env stack c user_snapshot =
    if not (env.copy_to_user user_snapshot 48 == 0)
    then (none, error efault)
    else (some (take_snapshot stack c), pos 0)

-- The swap sizes of a snapshot are whatever the stack held, in kilobytes, if `si_meminfo` leaves
-- the two swap fields alone, as it does in Linux, where `si_swapinfo` fills them.
pub take_snapshot-swap :
    (stack : Sysinfo) (c : Counters)
    → ((i : Sysinfo)
        → ((c.si_meminfo i).totalswap ≡ i.totalswap) × ((c.si_meminfo i).freeswap ≡ i.freeswap))
    → ((take_snapshot stack c).total_swap ≡ to_kb stack.totalswap)
      × ((take_snapshot stack c).free_swap ≡ to_kb stack.freeswap)
unfolding take_snapshot
take_snapshot-swap stack c h = ground (arith, h stack)

-- If the file pages and those of the swap cache have less than 2 ^ 64 kilobytes each, the
-- snapshot's cached pages are their difference in kilobytes, where there are not more of the
-- latter; else the difference wraps, and the test for a negative number does not catch it: the
-- snapshot shows 2 ^ 64 less the missing kilobytes.
pub take_snapshot-cached :
    (stack : Sysinfo) (c : Counters)
    → c.file_pages * 4 < word
    → c.swapcache_pages * 4 < word
    → ((c.swapcache_pages ≤ c.file_pages)
        × ((take_snapshot stack c).cached_pages ≡ (c.file_pages - c.swapcache_pages) * 4))
      ⊎ ((c.file_pages < c.swapcache_pages)
          × ((take_snapshot stack c).cached_pages ≡ word - (c.swapcache_pages - c.file_pages) * 4))
unfolding take_snapshot
take_snapshot-cached stack c hf hs = elim (dec_lt c.file_pages c.swapcache_pages) [
  | yes wraps ↦ inr (wraps, ground arith)
  | no fine ↦ inl (omega arith, ground arith)
]
