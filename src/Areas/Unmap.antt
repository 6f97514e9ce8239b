-- ===== src/Areas/Unmap.antt =====
-- `do_vmi_munmap` of mmap.c: a range of addresses is taken out of the areas.
use so2_202110206_2svac.Common.{
  ℕ, ◌+◌, ◌-◌, ◌%◌, Bool, not, ◌&&◌, ◌||◌, List, [], ◌∷◌, ◌++◌, length, ltb, leb, ◌==◌,
  if◌then◌else◌,
}
use so2_202110206_2svac.Common.Result.{ok, err}
use so2_202110206_2svac.Common.Word.{page_size, add64, sub64, page_align}
use so2_202110206_2svac.Kernel.{Mm, enomem, einval, eintr}
use so2_202110206_2svac.Areas.View.{locked_pages}
use so2_202110206_2svac.Areas.{Area, Space, AreaEnv, vma_pages, split_vma, vm_stat_account}

-- The loop that detaches areas: those detached, those after them, how many were split, and the
-- error with which it stopped, 0 for none.
pub record Gathered : Type 0 where
  pub detached : List Area
  pub rest : List Area
  pub splits : ℕ
  pub code : ℕ

-- What is done to an area to detach it.
abbrev detach_code : AreaEnv → Area → ℕ
detach_code k a = if not (k.detach a == 0) then k.detach a else k.userfaultfd_unmap_prep a

abbrev stop : List Area → ℕ → ℕ → Gathered
stop rest splits code = record { detached = []; rest = rest; splits = splits; code = code }

abbrev detach_first : Area → Gathered → Gathered
detach_first a g = record g { detached = a ∷ g.detached }

-- An area that ends above the range is split there, and its lower part is the last one.
unfoldable pub gather_last : AreaEnv → ℕ → Area → List Area → Gathered
gather_last k end a more = elim (split_vma k a end) [
  | err e ↦ stop (a ∷ more) 0 e
  | ok (low, high) ↦
      if detach_code k low == 0
      then detach_first low (stop (high ∷ more) 1 0)
      else stop (low ∷ high ∷ more) 1 (detach_code k low)
]

unfoldable pub gather : AreaEnv → ℕ → List Area → Gathered
gather k end [] = stop [] 0 0
gather k end (a ∷ more) =
    let rest = gather k end more in
    if leb end a.vm_start
    then stop (a ∷ more) 0 0
    else if ltb end a.vm_end
    then gather_last k end a more
    else if detach_code k a == 0
    then detach_first a rest
    else stop (a ∷ more) 0 (detach_code k a)

-- The accounts of `remove_mt`.
unfoldable pub remove_mt : AreaEnv → Mm → List Area → Mm
remove_mt k mm [] = mm
remove_mt k mm (a ∷ more) =
    remove_mt k (vm_stat_account k mm a.vm_flags (sub64 0 (vma_pages a))) more

-- An address space after a call, and the error, 0 for none.
pub record Unmapped : Type 0 where
  pub space : Space
  pub code : ℕ

-- What is left of `do_vmi_align_munmap` once the areas are gathered.
unfoldable pub finish_munmap : AreaEnv → Mm → ℕ → ℕ → Gathered → Unmapped
finish_munmap k mm start end g =
    let split_mm : Mm = record mm { map_count = mm.map_count + g.splits } in
    let undone : Space = record { mm = split_mm; areas = g.detached ++ g.rest } in
    if not (g.code == 0)
    then record { space = undone; code = g.code }
    else if not (k.clear_range start end == 0)
    then record { space = undone; code = k.clear_range start end }
    else record {
      space = record {
        mm =
            remove_mt k
              (record split_mm {
                locked_vm = sub64 mm.locked_vm (locked_pages g.detached);
                map_count = split_mm.map_count - length g.detached;
              })
              g.detached;
        areas = g.rest;
      };
      code = 0;
    }

-- The same with an area in front that is not touched.
abbrev pub after : Area → Unmapped → Unmapped
after a u = record u { space = record u.space { areas = a ∷ u.space.areas } }

-- `do_vmi_align_munmap` from the first area `a` of the range on.
unfoldable pub align_munmap : AreaEnv → Mm → ℕ → ℕ → Area → List Area → Unmapped
align_munmap k mm start end a more =
    let unchanged : Space = record { mm = mm; areas = a ∷ more } in
    if not (ltb a.vm_start start)
    then finish_munmap k mm start end (gather k end (a ∷ more))
    else if ltb end a.vm_end && leb k.sysctl_max_map_count mm.map_count
    then record { space = unchanged; code = enomem }
    else elim (split_vma k a start) [
      | err e ↦ record { space = unchanged; code = e }
      | ok (low, high) ↦ after low (
          finish_munmap k (record mm { map_count = mm.map_count + 1 }) start end
            (gather k end (high ∷ more)))
    ]

-- The search for the first area of the range.
unfoldable pub find_and_munmap : AreaEnv → Mm → ℕ → ℕ → List Area → Unmapped
find_and_munmap k mm start end [] = record { space = record { mm = mm; areas = [] }; code = 0 }
find_and_munmap k mm start end (a ∷ more) =
    let further = find_and_munmap k mm start end more in
    if leb a.vm_end start
    then after a further
    else if leb end a.vm_start
    then record { space = record { mm = mm; areas = a ∷ more }; code = 0 }
    else align_munmap k mm start end a more

unfoldable pub do_vmi_munmap : AreaEnv → Space → ℕ → ℕ → Unmapped
do_vmi_munmap k s start len =
    let end = add64 start (page_align len) in
    if not (start % page_size == 0) || ltb k.task_size start || ltb (k.task_size - start) len
    then record { space = s; code = einval }
    else if end == start
    then record { space = s; code = einval }
    else find_and_munmap k s.mm start end s.areas

-- `vm_munmap` and the `munmap` system call; `signalled` is that a fatal signal comes before the
-- lock.
unfoldable pub vm_munmap : AreaEnv → Bool → Space → ℕ → ℕ → Unmapped
vm_munmap k signalled s start len =
    if signalled then record { space = s; code = eintr } else do_vmi_munmap k s start len
