-- ===== src/Mmap/Enforce.antt =====
-- What the limits of crudmemlimit.c do to `brk`.
use so2_202110206_2svac.Common.{
  ℕ, ◌+◌, ◌-◌, ◌*◌, ◌≤◌, ◌<◌, ◌≡◌, ◌↔◌, true, false, none, some, arith,
}
use so2_202110206_2svac.Common.Int.{ℤ}
use so2_202110206_2svac.Common.Word.{word, page_size, add64, sub64, page_shl, page_align}
use so2_202110206_2svac.Kernel.{Mm, Task, Env}
use so2_202110206_2svac.Limits.{Limits, free, is_request_accepted}
use so2_202110206_2svac.Limits.Registry.{limit_of}
use so2_202110206_2svac.Limits.Invariant.{is_request_accepted-state}
use so2_202110206_2svac.Limits.Accept.{accepts_unlimited, accepts_by_sum}
use so2_202110206_2svac.Mmap.{MmapEnv}
use so2_202110206_2svac.Mmap.Brk.{refused, sys_brk, original_brk}

-- A process as the limit check sees it: alive, with this memory.
pub record Lives (env : Env) (pid : ℤ) (mm : Mm) : Type 0 where
  pub task : Task
  pub found : env.find_task_by_vpid pid ≡ some task
  pub has_mm : task.mm ≡ some mm

-- The request that `brk` puts to the limit check.
abbrev pub brk_request : Mm → ℕ → ℕ
brk_request mm brk = sub64 (page_align brk) (page_align mm.brk)

-- How `brk` depends on the limit check.
module _ (k : MmapEnv) (s : Limits) (mm : Mm) (brk : ℕ) (v : s.mutex ≡ free) where
  pub sys_brk-accepted :
      (is_request_accepted k.env s k.current_pid (brk_request mm brk)).1 ≡ true
      → sys_brk k s mm brk ≡ (s, original_brk k mm brk)
  unfolding sys_brk original_brk
  sys_brk-accepted h =
      ground (arith, is_request_accepted-state k.env s k.current_pid (brk_request mm brk) v)

  pub sys_brk-refused :
      (is_request_accepted k.env s k.current_pid (brk_request mm brk)).1 ≡ false
      → k.lock_killed ≡ false
      → sys_brk k s mm brk ≡ (s, record { mm = mm; result = mm.brk; populated = 0 })
  unfolding sys_brk refused
  sys_brk-refused h live =
      ground (arith, is_request_accepted-state k.env s k.current_pid (brk_request mm brk) v)

  -- For a live process with no limit, and with the mutex free, `brk` does what the original `brk`
  -- does, and leaves the list of limits as it was.
  pub sys_brk-unlimited :
      Lives k.env k.current_pid mm
      → limit_of s.memory_list k.current_pid ≡ none
      → sys_brk k s mm brk ≡ (s, original_brk k mm brk)
  sys_brk-unlimited l h =
      sys_brk-accepted
        (accepts_unlimited k.env s k.current_pid (brk_request mm brk) l.found l.has_mm h)

module _ (k : MmapEnv) (s : Limits) (mm : Mm) (brk limit : ℕ) (v : s.mutex ≡ free)
    (lives : Lives k.env k.current_pid mm)
    (limited : limit_of s.memory_list k.current_pid ≡ some limit) where
  pub by_sum :
      ((is_request_accepted k.env s k.current_pid (brk_request mm brk)).1 ≡ true)
      ↔ (add64 (page_shl mm.total_vm) (brk_request mm brk) ≤ limit)
  by_sum =
      accepts_by_sum k.env s k.current_pid (brk_request mm brk) lives.found lives.has_mm limit
        limited

  decides :
      limit < add64 (page_shl mm.total_vm) (brk_request mm brk)
      → (is_request_accepted k.env s k.current_pid (brk_request mm brk)).1 ≡ false
  decides h = let by = by_sum in ground arith

  -- With the mutex free, a `brk` of a live process that does not move the break down by whole
  -- pages, is not interrupted, and whose pages with the memory are below 2 ^ 64 and above the
  -- limit, is refused: it returns the old break and changes nothing.
  pub sys_brk-over_limit :
      page_align mm.brk ≤ page_align brk
      → page_align brk < word
      → mm.total_vm * page_size + (page_align brk - page_align mm.brk) < word
      → limit < mm.total_vm * page_size + (page_align brk - page_align mm.brk)
      → k.lock_killed ≡ false
      → sys_brk k s mm brk ≡ (s, record { mm = mm; result = mm.brk; populated = 0 })
  sys_brk-over_limit up top small over live =
      sys_brk-refused k s mm brk v (decides (omega arith)) live

  -- With the mutex free, a `brk` that gives memory back, and is not interrupted, is refused as
  -- well, with nothing changed, if the live process is above its limit even without the pages that
  -- it gives back: the check comes before the branch that the code says is always allowed. Break
  -- and memory are below 2 ^ 64 bytes.
  pub sys_brk-shrink_over_limit :
      page_align brk ≤ page_align mm.brk
      → page_align mm.brk < word
      → mm.total_vm * page_size < word
      → limit + (page_align mm.brk - page_align brk) < mm.total_vm * page_size
      → k.lock_killed ≡ false
      → sys_brk k s mm brk ≡ (s, record { mm = mm; result = mm.brk; populated = 0 })
  sys_brk-shrink_over_limit down top small over live =
      sys_brk-refused k s mm brk v (decides (omega arith)) live
