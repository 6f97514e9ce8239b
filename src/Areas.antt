-- ===== src/Areas.antt =====
-- Proyecto3/project3/mm/mmap.c: the memory areas of a process, as the list that its tree holds in
-- the order of addresses, and what is done to them one at a time.
pub mod View
pub mod Unmap
pub mod Removal
pub mod Munmap
pub mod Prefix
pub mod Walk
pub mod Shrinks
pub mod Stack
pub mod Growth
pub mod Extend
mod Tests
use so2_202110206_2svac.Common.{
  ℕ, ◌+◌, ◌-◌, ◌*◌, ◌/◌, ◌≤◌, ◌<◌, ◌%◌, ◌≡◌, Bool, not, ◌&&◌, List, [], ◌∷◌, Option, none, some,
  length, ltb, leb, ◌==◌, if◌then◌else◌,
}
use so2_202110206_2svac.Common.Result.{Result, ok, err, ◌>>◌, ◌>>=◌, refuse_if, refuse}
use so2_202110206_2svac.Common.Word.{word, page_size, add64, sub64}
use so2_202110206_2svac.Kernel.{Mm, enomem}

-- `struct vm_area_struct`: its range, flags, and what it maps, which is pages of a file from one
-- page on, or anonymous memory. What else it holds is seen through the environment.
pub record Area : Type 0 where
  pub vm_start : ℕ
  pub vm_end : ℕ
  pub vm_flags : ℕ
  pub vm_pgoff : ℕ
  pub vm_file : Option ℕ

-- The address space: `mm_struct`, and the areas in its tree.
pub record Space : Type 0 where
  pub mm : Mm
  pub areas : List Area

-- The kernel around one change. An error is its number, and 0 is none.
pub record AreaEnv : Type 0 where
  pub task_size : ℕ
  pub sysctl_max_map_count : ℕ
  pub is_exec_mapping : ℕ → Bool
  pub is_stack_mapping : ℕ → Bool
  pub is_data_mapping : ℕ → Bool
  -- `vm_ops->may_split`, 0 if there is none
  pub may_split : Area → ℕ → ℕ
  pub area_dup_ok : Area → Bool
  pub prealloc_ok : Area → Bool
  pub dup_policy : Area → ℕ
  pub anon_vma_clone : Area → ℕ
  -- storing an area in the tree of those to detach, preparing its user faults, clearing the range
  pub detach : Area → ℕ
  pub userfaultfd_unmap_prep : Area → ℕ
  pub clear_range : ℕ → ℕ → ℕ

abbrev pub vma_pages : Area → ℕ
vma_pages a = (a.vm_end - a.vm_start) / page_size

-- The two parts of an area below and above an address inside it.
abbrev pub below : Area → ℕ → Area
below a addr = record a { vm_end = addr }

abbrev pub above : Area → ℕ → Area
above a addr = record a {
  vm_start = addr;
  vm_pgoff = add64 a.vm_pgoff ((addr - a.vm_start) / page_size);
}

-- `__split_vma`: whether the new area is the lower part or the upper, the two come out the same.
-- The new one is counted by its caller.
unfoldable pub split_vma : AreaEnv → Area → ℕ → Result (Area × Area)
split_vma k a addr = do
  refuse (k.may_split a addr)
  refuse_if (not (k.area_dup_ok a)) enomem
  refuse_if (not (k.prealloc_ok a)) enomem
  refuse (k.dup_policy a)
  refuse (k.anon_vma_clone a)
  ok (below a addr, above a addr)

unfoldable pub vm_stat_account : AreaEnv → Mm → ℕ → ℕ → Mm
vm_stat_account k mm flags npages =
    let mm' = record mm { total_vm = add64 mm.total_vm npages } in
    if k.is_exec_mapping flags
    then record mm' { exec_vm = add64 mm.exec_vm npages }
    else if k.is_stack_mapping flags
    then record mm' { stack_vm = add64 mm.stack_vm npages }
    else if k.is_data_mapping flags
    then record mm' { data_vm = add64 mm.data_vm npages }
    else mm'
