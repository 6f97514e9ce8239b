-- ===== src/Gaps/Tests.antt =====
-- Searches for free ranges between two areas, the second one a stack.
mod FirstFit
use FirstFit.{
  first_fit, last_fit, first_fit-found, first_fit-lowest, last_fit-found, last_fit-highest,
}
use so2_202110206_2svac.Common.{
  ℕ, ◌+◌, ◌-◌, ◌%◌, ◌≤◌, ◌<◌, ◌≡◌, ◌⊎◌, inl, refl, true, false, ◌&&◌, ltb, if◌then◌else◌, List, [],
  ◌∷◌, Option, none, some, arith,
}
use so2_202110206_2svac.Common.Word.{word, page_size, page_align, is_err_value}
use so2_202110206_2svac.Mmap.{has, vm_grows, map_fixed, map_shared}
use so2_202110206_2svac.Areas.{Area}
use so2_202110206_2svac.Areas.View.{IsArea, Ordered}
use so2_202110206_2svac.Gaps.{UnmappedInfo, GapEnv}
use so2_202110206_2svac.Gaps.Search.{
  retry_up, search_up, unmapped_area, retry_down, search_down, unmapped_area_topdown,
  vm_unmapped_area,
}
use so2_202110206_2svac.Gaps.Generic.{
  AreaRequest, Layout, hint_fits, before_search, search_info, generic_get_unmapped_area,
  generic_get_unmapped_area_topdown, ChooseEnv, get_unmapped_area,
}
use so2_202110206_2svac.Gaps.Free.{Free, IsGapEnv, StacksAbove, Clear}
use so2_202110206_2svac.Gaps.Found.{IsSearch}
use so2_202110206_2svac.Gaps.Complete.{vm_unmapped_area_complete}
use so2_202110206_2svac.Gaps.Requests.{
  IsLayout, Answers, IsChooseEnv, generic_get_unmapped_area-Answers,
  generic_get_unmapped_area_topdown-Answers, get_unmapped_area-bounds, get_unmapped_area-Free,
}

abbrev heap : Area
heap = record { vm_start = 65536; vm_end = 81920; vm_flags = 0; vm_pgoff = 16; vm_file = none }

abbrev stack : Area
stack = record {
  vm_start = 8388608;
  vm_end = 8396800;
  vm_flags = 0x100;
  vm_pgoff = 2048;
  vm_file = none;
}

abbrev areas : List Area
areas = heap ∷ stack ∷ []

-- A stack keeps a gap of 16 pages below it, or what there is down to address 0.
abbrev gap_env : GapEnv
gap_env = record {
  empty_area = first_fit;
  empty_area_rev = last_fit;
  mmap_min_addr = 65536;
  is_startgap = λ a. has a.vm_flags vm_grows;
  start_gap = λ a. if has a.vm_flags vm_grows then a.vm_start - 65536 else a.vm_start;
  end_gap = λ a. a.vm_end;
}

areas-Ordered : Ordered 0 areas
areas-Ordered = (
  omega arith,
  record {
    start_aligned = refl;
    end_aligned = refl;
    nonempty = omega arith;
    bounded = omega arith;
    fits = omega arith;
  },
  (
    omega arith,
    record {
      start_aligned = refl;
      end_aligned = refl;
      nonempty = omega arith;
      bounded = omega arith;
      fits = omega arith;
    },
    tt,
  ),
)

gap_env-IsGapEnv : IsGapEnv gap_env areas
gap_env-IsGapEnv = record {
  found = λ lo hi size index. first_fit-found hi size 0 lo index areas areas-Ordered;
  found_rev = λ lo hi size index. last_fit-found hi size 0 lo index areas areas-Ordered;
  lowest = λ lo hi size start. first_fit-lowest hi size 0 lo start areas areas-Ordered;
  highest = λ lo hi size start. last_fit-highest hi size 0 lo start areas areas-Ordered;
  under = λ a. ground arith;
  no_end_gap = λ a. refl;
}

areas-StacksAbove : StacksAbove gap_env areas
areas-StacksAbove = (λ g. ground arith, (λ g. omega arith, tt))

abbrev layout : Layout
layout = record {
  mmap_base = 65536;
  mmap_end = 16777216;
  topdown_base = 8388608;
  unmapped_base = 65536;
}

layout-IsLayout : IsLayout gap_env layout
layout-IsLayout = record {
  min_end = omega arith;
  some_end = omega arith;
  small_end = omega arith;
  small_base = omega arith;
  some_topdown = omega arith;
  small_topdown = omega arith;
  small_unmapped = omega arith;
}

abbrev down : UnmappedInfo
down = search_info true 8192 4096 8388608

down-IsSearch : IsSearch gap_env down
down-IsSearch = record {
  some_length = omega arith;
  some_room = omega arith;
  room = omega arith;
  long = omega arith;
  low = omega arith;
  min_low = omega arith;
}

-- The range ends where the gap of the stack starts.
down_run : vm_unmapped_area gap_env down areas ≡ some 8314880
unfolding vm_unmapped_area unmapped_area_topdown search_down retry_down
down_run = refl

-- A stack that reaches to the upper limit and starts within its guard gap of address 0: the search
-- from the top down starts anew below address 0, and finds what lies at the end of the word.
abbrev low_stack : Area
low_stack = record {
  vm_start = 65536;
  vm_end = 8388608;
  vm_flags = 0x100;
  vm_pgoff = 16;
  vm_file = none;
}

below_zero :
    vm_unmapped_area (record gap_env { mmap_min_addr = 4096 }) down (low_stack ∷ [])
    ≡ some (word - 8192)
unfolding vm_unmapped_area unmapped_area_topdown search_down retry_down
below_zero = refl

between-Free : Free areas 81920 8192
between-Free x p q = ground arith

vm_unmapped_area_complete_example :
    (r : ℕ) × (vm_unmapped_area gap_env down areas ≡ some r)
    × Free areas r 8192
    × (r + 8192 ≤ 8388608)
    × (((down.topdown ≡ true) × (81920 ≤ r)) ⊎ ((down.topdown ≡ false) × (r ≤ 81920)))
vm_unmapped_area_complete_example =
    vm_unmapped_area_complete gap_env areas down 81920 gap_env-IsGapEnv areas-Ordered down-IsSearch
      refl (omega arith) (omega arith) (omega arith) between-Free
      (λ g. ground arith, (λ g h. omega arith, tt))

abbrev request : AreaRequest
request = record { addr = 66000; len = 8192; pgoff = 0; flags = 0x22 }

generic_get_unmapped_area-Answers_run :
    (addr : ℕ) × (generic_get_unmapped_area gap_env layout areas request ≡ some addr)
    × Answers gap_env areas request addr
generic_get_unmapped_area-Answers_run =
    generic_get_unmapped_area-Answers gap_env areas layout gap_env-IsGapEnv areas-Ordered
      layout-IsLayout request (omega arith)

generic_get_unmapped_area_topdown-Answers_run :
    (addr : ℕ) × (generic_get_unmapped_area_topdown gap_env layout areas request ≡ some addr)
    × Answers gap_env areas request addr
generic_get_unmapped_area_topdown-Answers_run =
    generic_get_unmapped_area_topdown-Answers gap_env areas layout gap_env-IsGapEnv areas-Ordered
      layout-IsLayout request areas-StacksAbove (omega arith)

abbrev value : Option ℕ → ℕ
value none = 0
value (some x) = x

abbrev choose : ChooseEnv
choose = record {
  task_size = 16777216;
  arch_mmap_check = λ r. 0;
  mm_get_area = λ r. value (generic_get_unmapped_area_topdown gap_env layout areas r);
  shmem_get_area = λ r. 4096;
  thp_get_area = λ r. 2097152;
  transparent_hugepage = false;
  security_mmap_addr = λ addr. 0;
}

choose-IsChooseEnv : IsChooseEnv choose request
choose-IsChooseEnv = record { arch = inl refl; security = λ addr. inl refl; small = omega arith }

get_unmapped_area-bounds_run :
    let addr = get_unmapped_area choose none request in
    (is_err_value addr ≡ true)
    ⊎ ((addr + 8192 ≤ 16777216) × (addr % page_size ≡ 0) × (choose.security_mmap_addr addr ≡ 0))
get_unmapped_area-bounds_run = get_unmapped_area-bounds choose none request choose-IsChooseEnv

choose-searches :
    (q : AreaRequest)
    → 0 < q.len
    → generic_get_unmapped_area_topdown gap_env layout areas q ≡ some (choose.mm_get_area q)
choose-searches q pos =
    let found =
      generic_get_unmapped_area_topdown-Answers gap_env areas layout gap_env-IsGapEnv areas-Ordered
        layout-IsLayout q areas-StacksAbove pos in
    ground (arith, found.1)

get_unmapped_area-Free_example :
    let addr = get_unmapped_area choose none request in
    (is_err_value addr ≡ true) ⊎ (Free areas addr 8192 × (65536 ≤ addr) × (addr + 8192 ≤ 16777216))
get_unmapped_area-Free_example =
    get_unmapped_area-Free gap_env areas layout choose request gap_env-IsGapEnv areas-Ordered
      areas-StacksAbove layout-IsLayout choose-IsChooseEnv choose-searches refl refl refl
      (omega arith)
