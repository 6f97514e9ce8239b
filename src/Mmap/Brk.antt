-- ===== src/Mmap/Brk.antt =====
-- The `brk` system call of mmap.c, and that of files/originalmmap.c, which has no limit check.
use so2_202110206_2svac.Common.{
  ℕ, ◌+◌, Bool, true, false, not, ◌&&◌, Option, none, some, bit_or, ltb, leb, ◌==◌, if◌then◌else◌,
}
use so2_202110206_2svac.Common.Int.{ℤ, pos}
use so2_202110206_2svac.Common.Word.{add64, sub64, page_shr, page_align, page_size, err_word}
use so2_202110206_2svac.Kernel.{Mm, error, enomem, eintr}
use so2_202110206_2svac.Limits.{Limits, is_request_accepted}
use so2_202110206_2svac.Mmap.{Vma, MmapEnv, vm_locked, vm_account, has}
use so2_202110206_2svac.Mmap.Checks.{check_brk_limits, may_expand_vm}

-- `mm->total_vm += len >> PAGE_SHIFT`, and so `data_vm`, and `locked_vm` if the flags say so.
grow : Mm → ℕ → ℕ → Mm
grow mm npages flags = record mm {
  total_vm = add64 mm.total_vm npages;
  data_vm = add64 mm.data_vm npages;
  locked_vm = if has flags vm_locked then add64 mm.locked_vm npages else mm.locked_vm;
}

-- The area before `addr` that can be expanded in place.
expands : MmapEnv → Option Vma → ℕ → ℕ → Bool
expands k none addr flags = false
expands k (some vma) addr flags = vma.vm_end == addr && k.can_vma_merge_after vma flags

unfoldable pub do_brk_flags : MmapEnv → Mm → Option Vma → ℕ → ℕ → ℕ → Mm × ℤ
unfolding grow expands
do_brk_flags k mm vma addr len flags =
    let flags' = bit_or (bit_or (bit_or flags k.vm_data_default_flags) vm_account) mm.def_flags in
    let npages = page_shr len in
    if not (may_expand_vm k mm flags' npages)
    then (mm, error enomem)
    else if ltb k.sysctl_max_map_count mm.map_count
    then (mm, error enomem)
    else if k.out_of_memory npages
    then (mm, error enomem)
    else if expands k vma addr flags'
    then (if k.prealloc_ok then (grow mm npages flags', pos 0) else (mm, error enomem))
    else if not k.vm_area_alloc_ok
    then (mm, error enomem)
    else if not k.store_ok
    then (mm, error enomem)
    else (grow (record mm { map_count = mm.map_count + 1 }) npages flags', pos 0)

-- The memory after a call, what it returns, and how many bytes it populates.
pub record Outcome : Type 0 where
  pub mm : Mm
  pub result : ℕ
  pub populated : ℕ

-- The label `out`: the break is put back.
unfoldable pub refused : Mm → ℕ → Outcome
refused mm origbrk = record { mm = record mm { brk = origbrk }; result = origbrk; populated = 0 }

-- The label `success` with no pages to populate.
unfoldable pub moved : Mm → ℕ → Outcome
moved mm brk = record { mm = record mm { brk = brk }; result = brk; populated = 0 }

abbrev min_brk : MmapEnv → Mm → ℕ
min_brk k mm = if k.compat_brk && not k.brk_randomized then mm.end_data else mm.start_brk

-- The tests ahead of the limit check.
unfoldable pub brk_is_valid : MmapEnv → Mm → ℕ → Bool
brk_is_valid k mm brk =
    not (ltb brk (min_brk k mm))
    && not (k.check_data_rlimit k.rlimit_data brk mm.start_brk mm.end_data mm.start_data)

unfoldable pub brk_shrink : MmapEnv → Mm → ℕ → ℕ → ℕ → Outcome
unfolding refused moved
brk_shrink k mm brk newbrk oldbrk = elim (k.vma_find newbrk oldbrk) [
  | none ↦ refused mm mm.brk
  | some brkvma ↦
      if leb oldbrk brkvma.vm_start
      then refused mm mm.brk
      else let (mm', failed) = k.do_vma_munmap (record mm { brk = brk }) newbrk oldbrk in
        if failed then refused mm' mm.brk else record { mm = mm'; result = brk; populated = 0 }
]

-- Whether the area after the break leaves the new one its guard gap.
leaves_gap : MmapEnv → ℕ → ℕ → Bool
leaves_gap k oldbrk newbrk =
    elim (k.vma_find oldbrk (add64 (add64 newbrk page_size) k.stack_guard_gap)) [
      | none ↦ true
      | some next ↦ not (ltb next.start_gap (add64 newbrk page_size))
    ]

unfoldable pub brk_grow : MmapEnv → Mm → ℕ → ℕ → ℕ → Outcome
unfolding refused leaves_gap
brk_grow k mm brk newbrk oldbrk =
    if not (check_brk_limits k mm oldbrk (sub64 newbrk oldbrk))
    then refused mm mm.brk
    else if not (leaves_gap k oldbrk newbrk)
    then refused mm mm.brk
    else let (mm', code) =
        do_brk_flags k mm (k.vma_prev_limit mm.start_brk) oldbrk (sub64 newbrk oldbrk) 0 in
      elim code [
        | pos n ↦ record {
          mm = record mm' { brk = brk };
          result = brk;
          populated = if has mm.def_flags vm_locked then sub64 newbrk oldbrk else 0;
        }
        | _ ↦ refused mm' mm.brk
      ]

-- What follows the tests: nothing to do within a page, else unmap or map the difference.
unfoldable pub brk_move : MmapEnv → Mm → ℕ → Outcome
unfolding moved
brk_move k mm brk =
    let newbrk = page_align brk in
    let oldbrk = page_align mm.brk in
    if oldbrk == newbrk
    then moved mm brk
    else if leb brk mm.brk
    then brk_shrink k mm brk newbrk oldbrk
    else brk_grow k mm brk newbrk oldbrk

abbrev pub interrupted : Mm → Outcome
interrupted mm = record { mm = mm; result = err_word eintr; populated = 0 }

unfoldable pub sys_brk : MmapEnv → Limits → Mm → ℕ → Limits × Outcome
unfolding refused
sys_brk k s mm brk =
    if k.lock_killed
    then (s, interrupted mm)
    else if not (brk_is_valid k mm brk)
    then (s, refused mm mm.brk)
    else let request = sub64 (page_align brk) (page_align mm.brk) in
      let (s', accepted) = is_request_accepted k.env s k.current_pid request in
      if not accepted then (s', refused mm mm.brk) else (s', brk_move k mm brk)

unfoldable pub original_brk : MmapEnv → Mm → ℕ → Outcome
unfolding refused
original_brk k mm brk =
    if k.lock_killed
    then interrupted mm
    else if not (brk_is_valid k mm brk)
    then refused mm mm.brk
    else brk_move k mm brk
