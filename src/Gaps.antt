-- ===== src/Gaps.antt =====
-- Proyecto3/project3/mm/mmap.c: the search for a free range of addresses, from `unmapped_area` to
-- `get_unmapped_area`. This file has what the searches share.
pub mod Search
pub mod Generic
pub mod Free
pub mod Found
pub mod Complete
pub mod Requests
mod Tests
use so2_202110206_2svac.Common.{
  ℕ, ◌+◌, ◌-◌, ◌<◌, Bool, List, [], ◌∷◌, Option, none, some, ltb, leb, if◌then◌else◌, bit_and,
}
use so2_202110206_2svac.Areas.{Area}

-- `struct vm_unmapped_area_info`; `topdown` is its flag VM_UNMAPPED_AREA_TOPDOWN.
pub record UnmappedInfo : Type 0 where
  pub topdown : Bool
  pub length : ℕ
  pub low_limit : ℕ
  pub high_limit : ℕ
  pub align_mask : ℕ
  pub align_offset : ℕ

-- The kernel around one search. The tree of areas finds where the lowest, and where the highest,
-- free range between two addresses starts, the second address included. `start_gap` and `end_gap`
-- are `vm_start_gap` and `vm_end_gap`, and `is_startgap` tests VM_STARTGAP_FLAGS.
pub record GapEnv : Type 0 where
  pub empty_area : List Area → ℕ → ℕ → ℕ → Option ℕ
  pub empty_area_rev : List Area → ℕ → ℕ → ℕ → Option ℕ
  pub mmap_min_addr : ℕ
  pub is_startgap : Area → Bool
  pub start_gap : Area → ℕ
  pub end_gap : Area → ℕ

-- `mas_next` and then `mas_prev`, from a free range that starts at an address: the areas after it
-- and before it.
abbrev pub area_after : ℕ → List Area → Option Area
area_after index [] = none
area_after index (a ∷ more) = if ltb index a.vm_end then some a else area_after index more

abbrev pub area_before : Option Area → ℕ → List Area → Option Area
area_before last index [] = last
area_before last index (a ∷ more) =
    if ltb index a.vm_end then last else area_before (some a) index more
