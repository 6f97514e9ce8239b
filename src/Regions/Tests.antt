-- ===== src/Regions/Tests.antt =====
-- Runs of `mmap_region` for a process with a heap and a locked stack.
use so2_202110206_2svac.Common.{
  ℕ, bit_or, ◌⊎◌, inl, inr, ◌≡◌, refl, true, false, [], ◌∷◌, none, some, arith,
}
use so2_202110206_2svac.Common.Result.{ok}
use so2_202110206_2svac.Sample.{kernel, mm, area_env, heap, heap-IsArea}
use so2_202110206_2svac.Mmap.Checks.{may_expand_vm}
use so2_202110206_2svac.Areas.{Area, Space, vm_stat_account}
use so2_202110206_2svac.Areas.View.{IsArea, Page, view}
use so2_202110206_2svac.Areas.Unmap.{
  gather, remove_mt, finish_munmap, align_munmap, find_and_munmap, do_vmi_munmap,
}
use so2_202110206_2svac.Regions.{
  Region, RegionEnv, admits, accountable_mapping, is_mergeable_vma, is_mergeable_anon_vma,
  can_vma_merge_before, can_vma_merge_after,
}
use so2_202110206_2svac.Regions.Join.{
  expand, join_both, next_merges, prev_merges, vma_merge_new_vma,
}
use so2_202110206_2svac.Regions.Map.{
  map_file, store, merge_again, place_file, place_new, settle, attach, place, mmap_region,
}
use so2_202110206_2svac.Regions.Made.{Documented}
use so2_202110206_2svac.Regions.Correct.{IsRequest, IsSound, mmap_region-IsSound}

-- A kernel in which everything succeeds; the mapper of a file sets VM_DONTEXPAND.
abbrev region_env : RegionEnv
region_env = record {
  kernel = kernel;
  area_env = area_env;
  is_file_hugepages = λ file. false;
  has_policy = λ a. false;
  same_policy = λ a b. true;
  has_close = λ a. false;
  userfaultfd_ctx = λ a. none;
  anon_vma_name = λ a. none;
  anon_vma = λ a. none;
  is_singular = λ a. true;
  call_mmap = λ a. ok (record a { vm_flags = bit_or a.vm_flags 0x4_0000; vm_pgoff = 3 });
  shmem_zero_setup = λ a. ok 9;
  mapping_map_writable = λ file. 0;
  map_deny_write_exec = λ a. false;
  arch_validate_flags = λ flags. true;
  is_dax_or_hugetlb = λ file flags. false;
}

-- A mapping that leaves a hole of two pages after the heap.
abbrev far : Area
far = record { vm_start = 90112; vm_end = 98304; vm_flags = 0; vm_pgoff = 22; vm_file = none }

abbrev space : Space
space = record { mm = record mm { total_vm = 6; map_count = 2 }; areas = heap ∷ far ∷ [] }

far-IsArea : IsArea far
far-IsArea = record {
  start_aligned = refl;
  end_aligned = refl;
  nonempty = omega arith;
  bounded = omega arith;
  fits = omega arith;
}

space_flags :
    (x : ℕ) (p : Page)
    → view space.areas x ≡ some p
    → (p.flags ≡ heap.vm_flags) ⊎ (p.flags ≡ far.vm_flags)
space_flags x p shown = ground arith

space-IsSound : IsSound region_env space
space-IsSound = record {
  valid = record {
    ordered = (omega arith, heap-IsArea, (omega arith, far-IsArea, tt));
    counts = record {
      all_pages = refl;
      all_locked = refl;
      all_areas = refl;
      small = omega arith;
      small_locked = omega arith;
    };
  };
  lockable =
      λ x p shown locked. elim (space_flags x p shown) [ inl e ↦ rw e refl | inr e ↦ rw e refl ];
}

region_env-Documented : Documented region_env
region_env-Documented = record {
  keeps_end = λ a b e. ground arith;
  offset = λ a b area e. let offset : b.vm_pgoff ≡ 3 = ground arith in omega (arith, area.bounded);
  mapper_fails = λ a e z. absurd (cc);
  shmem_fails = λ a e z. absurd (cc);
  unmarked_dax = λ file f g e. refl;
}

-- The hole: both areas take it in, and one is left.
abbrev hole : Region
hole = record { file = none; addr = 81920; len = 8192; vm_flags = 0; pgoff = 20 }

map_hole : mmap_region region_env space hole ≡ record {
  space = record {
    mm = record mm { total_vm = 8; data_vm = 42; map_count = 1 };
    areas = record heap { vm_end = 98304; vm_flags = 0x800_0000 } ∷ [];
  };
  code = 0;
}
unfolding mmap_region admits may_expand_vm do_vmi_munmap find_and_munmap accountable_mapping place
    attach expand next_merges prev_merges can_vma_merge_before can_vma_merge_after is_mergeable_vma
    is_mergeable_anon_vma join_both settle vm_stat_account
map_hole = refl

-- A file over the far mapping, to be locked: what its mapper sets forbids to merge and to lock it.
abbrev over : Region
over = record { file = some 5; addr = 90112; len = 8192; vm_flags = 0x2000; pgoff = 0 }

map_over : mmap_region region_env space over ≡ record {
  space = record {
    mm = record mm { total_vm = 6; data_vm = 40; map_count = 2 };
    areas =
        heap
        ∷ record {
          vm_start = 90112;
          vm_end = 98304;
          vm_flags = 0x804_0000;
          vm_pgoff = 3;
          vm_file = some 5;
        }
        ∷ [];
  };
  code = 0;
}
unfolding mmap_region admits may_expand_vm do_vmi_munmap find_and_munmap align_munmap gather
    finish_munmap remove_mt accountable_mapping place attach expand prev_merges can_vma_merge_after
    is_mergeable_vma place_new map_file place_file merge_again vma_merge_new_vma store settle
    vm_stat_account
map_over = refl

hole-IsRequest : IsRequest hole
hole-IsRequest = record { whole = refl; bounded = omega arith; numbered = omega arith }

mmap_region-IsSound_example : IsSound region_env (mmap_region region_env space hole).space
mmap_region-IsSound_example =
    mmap_region-IsSound region_env region_env-Documented space hole (omega arith) hole-IsRequest
      space-IsSound
