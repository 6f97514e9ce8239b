-- ===== src/Mmap/Bounded.antt =====
-- `brk` keeps a process within its limit, and returns the break that the process has.
use so2_202110206_2svac.Common.{
  ℕ, ◌+◌, ◌*◌, ◌≤◌, ◌≡◌, true, false, some, arith, inl, inr, Bool-cases,
}
use native.Mathlib.Decide.{dec_lt}
use so2_202110206_2svac.Common.Word.{word, page_size}
use so2_202110206_2svac.Kernel.{Mm}
use so2_202110206_2svac.Limits.{Limits, free, is_request_accepted}
use so2_202110206_2svac.Limits.Registry.{limit_of}
use so2_202110206_2svac.Limits.Invariant.{is_request_accepted-state}
use so2_202110206_2svac.Mmap.{MmapEnv}
use so2_202110206_2svac.Mmap.Brk.{refused, sys_brk, original_brk}
use so2_202110206_2svac.Mmap.Growth.{Unmaps, original_brk-total_vm, brk_move-result}
use so2_202110206_2svac.Mmap.Enforce.{Lives, brk_request, by_sum, sys_brk-accepted, sys_brk-refused}

-- With the mutex free, and unless it is interrupted, `brk` returns the break that the process then
-- has, on every path, and it leaves the list of limits as it was. `do_vma_munmap` is taken not to
-- touch the break.
pub sys_brk-result :
    (k : MmapEnv) (s : Limits) (mm : Mm) (brk : ℕ)
    → Unmaps k
    → s.mutex ≡ free
    → k.lock_killed ≡ false
    → ((sys_brk k s mm brk).0 ≡ s) × ((sys_brk k s mm brk).1.result ≡ (sys_brk k s mm brk).1.mm.brk)
unfolding sys_brk refused
sys_brk-result k s mm brk u v live = ground (
  arith,
  is_request_accepted-state k.env s k.current_pid (brk_request mm brk) v,
  brk_move-result k u mm brk,
)

-- `brk` never takes a process over its limit. Take the mutex free, a live process with a limit
-- whose memory is within it, a break below the last page of the word, and a new break that with the
-- memory and one page more does not pass 2 ^ 64. Unless it is interrupted, the memory is within the
-- limit after `brk`, whatever break it asks for and however the call ends, if `do_vma_munmap` adds
-- no pages.
pub sys_brk-within_limit :
    (k : MmapEnv) (s : Limits) (mm : Mm) (brk limit : ℕ)
    → Unmaps k
    → s.mutex ≡ free
    → Lives k.env k.current_pid mm
    → limit_of s.memory_list k.current_pid ≡ some limit
    → k.lock_killed ≡ false
    → mm.brk + page_size ≤ word
    → mm.total_vm * page_size + brk + page_size ≤ word
    → mm.total_vm * page_size ≤ limit
    → (sys_brk k s mm brk).1.mm.total_vm * page_size ≤ limit
sys_brk-within_limit k s mm brk limit u v lives limited live old_small small within =
    elim (Bool-cases (is_request_accepted k.env s k.current_pid (brk_request mm brk)).1) [
      | inl yes_ ↦ rw (sys_brk-accepted k s mm brk v yes_) (accepted yes_)
      | inr no_ ↦ rw (sys_brk-refused k s mm brk v no_ live) within
    ]
  where
    accepted :
        (is_request_accepted k.env s k.current_pid (brk_request mm brk)).1 ≡ true
        → (original_brk k mm brk).mm.total_vm * page_size ≤ limit
    accepted h = elim (dec_lt mm.brk brk) [
      | yes up ↦ omega (
        arith,
        (by_sum k s mm brk limit v lives limited).0 h,
        (original_brk-total_vm k u mm brk).0,
      )
      | no down ↦ omega (arith, (original_brk-total_vm k u mm brk).1 (omega arith))
    ]
