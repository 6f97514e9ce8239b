-- ===== src/Areas/Tests.antt =====
-- Runs of `munmap` and of the growth of a stack for a process with two areas.
use so2_202110206_2svac.Common.{
  ◌≤◌, ◌<◌, ◌≡◌, ◌≢◌, ◌⊎◌, refl, true, false, [], ◌∷◌, none, some, arith,
}
use so2_202110206_2svac.Sample.{kernel, mm, area_env, heap, heap-IsArea}
use so2_202110206_2svac.Mmap.Checks.{may_expand_vm, mlock_future_ok}
use so2_202110206_2svac.Areas.{Area, Space, split_vma, vm_stat_account}
use so2_202110206_2svac.Areas.View.{IsArea, view, cut, page_of, Includes, SameBelow}
use so2_202110206_2svac.Areas.Unmap.{
  gather, gather_last, remove_mt, finish_munmap, align_munmap, find_and_munmap, do_vmi_munmap,
}
use so2_202110206_2svac.Areas.Walk.{IsValid, do_vmi_munmap-IsValid, do_vmi_munmap-cuts}
use so2_202110206_2svac.Areas.Shrinks.{do_vmi_munmap-shrinks}
use so2_202110206_2svac.Areas.Stack.{
  StackEnv, page_down, acct_stack_growth, expand_downwards, extend, find_extend_vma_locked,
}
use so2_202110206_2svac.Areas.Extend.{
  find_extend_vma_locked-IsValid, find_extend_vma_locked-extends,
}

-- A locked stack that grows downwards.
abbrev stack : Area
stack = record {
  vm_start = 8388608;
  vm_end = 8396800;
  vm_flags = 0x2100;
  vm_pgoff = 2048;
  vm_file = none;
}

abbrev space : Space
space = record {
  mm = record mm { total_vm = 6; locked_vm = 2; map_count = 2 };
  areas = heap ∷ stack ∷ [];
}

stack-IsArea : IsArea stack
stack-IsArea = record {
  start_aligned = refl;
  end_aligned = refl;
  nonempty = omega arith;
  bounded = omega arith;
  fits = omega arith;
}

space-IsValid : IsValid space
space-IsValid = record {
  ordered = (omega arith, heap-IsArea, (omega arith, stack-IsArea, tt));
  counts = record {
    all_pages = refl;
    all_locked = refl;
    all_areas = refl;
    small = omega arith;
    small_locked = omega arith;
  };
}

-- The two middle pages of the heap go, and it is split.
munmap_middle : do_vmi_munmap area_env space 69632 8000 ≡ record {
  space = record {
    mm = record mm { total_vm = 4; data_vm = 38; locked_vm = 2; map_count = 3 };
    areas =
        record heap { vm_end = 69632 }
        ∷ record heap { vm_start = 77824; vm_pgoff = 19 }
        ∷ stack
        ∷ [];
  };
  code = 0;
}
unfolding do_vmi_munmap find_and_munmap align_munmap split_vma gather gather_last finish_munmap
    remove_mt vm_stat_account
munmap_middle = refl

do_vmi_munmap-IsValid_example : IsValid (do_vmi_munmap area_env space 69632 8000).space
do_vmi_munmap-IsValid_example =
    do_vmi_munmap-IsValid area_env space 69632 8000 (omega arith) space-IsValid

do_vmi_munmap-cuts_example :
    let u = do_vmi_munmap area_env space 69632 8000 in
    ((u.code ≡ 0) × (view u.space.areas ≡ cut 69632 77824 (view space.areas)))
    ⊎ ((u.code ≢ 0) × (view u.space.areas ≡ view space.areas))
do_vmi_munmap-cuts_example =
    do_vmi_munmap-cuts area_env space 69632 8000 (omega arith) space-IsValid

abbrev stack_env : StackEnv
stack_env = record {
  kernel = kernel;
  area_env = area_env;
  rlimit_stack = 8388608;
  first_user_address = 0;
  is_hugepage_only_range = λ start size. false;
  vma_is_accessible = λ a. true;
  preallocate_ok = λ a. true;
  anon_vma_prepare_ok = λ a. true;
}

-- A stack grows by three pages.
grow_stack : find_extend_vma_locked stack_env space 8376325 ≡ record {
  space = record {
    mm = record mm { total_vm = 9; data_vm = 43; locked_vm = 5; map_count = 2 };
    areas = heap ∷ record stack { vm_start = 8376320; vm_pgoff = 2045 } ∷ [];
  };
  found = some (record stack { vm_start = 8376320; vm_pgoff = 2045 });
}
unfolding find_extend_vma_locked extend expand_downwards acct_stack_growth vm_stat_account
    may_expand_vm mlock_future_ok
grow_stack = refl

find_extend_vma_locked-IsValid_example :
    IsValid (find_extend_vma_locked stack_env space 8376325).space
find_extend_vma_locked-IsValid_example =
    find_extend_vma_locked-IsValid stack_env space 8376325 space-IsValid

find_extend_vma_locked-extends_example :
    let page = page_down 8376325 in
    let e = find_extend_vma_locked stack_env space 8376325 in
    (((e.found ≡ none) × (e.space ≡ space))
      ⊎ ((a : Area) × (e.found ≡ some a)
          × (view e.space.areas page ≡ some (page_of a page))
          × (a.vm_start ≤ page)
          × (page < a.vm_end)))
    × Includes (view space.areas) (view e.space.areas)
    × SameBelow page (view space.areas) (view e.space.areas)
find_extend_vma_locked-extends_example =
    find_extend_vma_locked-extends stack_env space 8376325 space-IsValid

do_vmi_munmap-shrinks_example :
    let u = do_vmi_munmap area_env space 69632 8000 in
    (u.space.mm.total_vm ≤ 6) × (u.space.mm.brk ≡ mm.brk)
do_vmi_munmap-shrinks_example =
    do_vmi_munmap-shrinks area_env space 69632 8000 (omega arith) space-IsValid
