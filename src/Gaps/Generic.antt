-- ===== src/Gaps/Generic.antt =====
-- `generic_get_unmapped_area`, its topdown twin and `get_unmapped_area` of mmap.c.
use so2_202110206_2svac.Common.{
  ℕ, ◌%◌, Bool, true, false, not, ◌&&◌, List, Option, none, some, ltb, leb, ◌==◌, if◌then◌else◌,
}
use so2_202110206_2svac.Common.Word.{page_size, add64, sub64, page_align, err_word, is_err_value}
use so2_202110206_2svac.Kernel.{enomem, einval}
use so2_202110206_2svac.Mmap.{has, map_fixed, map_shared}
use so2_202110206_2svac.Areas.{Area}
use so2_202110206_2svac.Gaps.{UnmappedInfo, GapEnv, area_after, area_before}
use so2_202110206_2svac.Gaps.Search.{vm_unmapped_area}

-- A request for a range, and the memory layout of the process and the kernel: `mmap_base` is that
-- of the descriptor, `mmap_end` and `topdown_base` are `arch_get_mmap_end` and
-- `arch_get_mmap_base`, and `unmapped_base` is TASK_UNMAPPED_BASE.
pub record AreaRequest : Type 0 where
  pub addr : ℕ
  pub len : ℕ
  pub pgoff : ℕ
  pub flags : ℕ

pub record Layout : Type 0 where
  pub mmap_base : ℕ
  pub mmap_end : ℕ
  pub topdown_base : ℕ
  pub unmapped_base : ℕ

-- A hint is taken if the range from it is in bounds and between the areas around it.
unfoldable pub hint_fits : GapEnv → Layout → List Area → ℕ → ℕ → Bool
hint_fits k y l len addr =
    let clear_above : Bool = elim (area_after addr l) [
      | none ↦ true
      | some next ↦ leb (add64 addr len) (k.start_gap next)
    ] in
    let clear_below : Bool = elim (area_before none addr l) [
      | none ↦ true
      | some prev ↦ leb (k.end_gap prev) addr
    ] in
    leb addr (sub64 y.mmap_end len) && leb k.mmap_min_addr addr && clear_above && clear_below

-- What both twins do before they search: the request is refused, or its address is taken.
unfoldable pub before_search : GapEnv → Layout → List Area → AreaRequest → Option ℕ
before_search k y l r =
    if ltb (sub64 y.mmap_end k.mmap_min_addr) r.len
    then some (err_word enomem)
    else if has r.flags map_fixed
    then some r.addr
    else if not (r.addr == 0) && hint_fits k y l r.len (page_align r.addr)
    then some (page_align r.addr)
    else none

abbrev pub search_info : Bool → ℕ → ℕ → ℕ → UnmappedInfo
search_info topdown len low high = record {
  topdown = topdown;
  length = len;
  low_limit = low;
  high_limit = high;
  align_mask = 0;
  align_offset = 0;
}

unfoldable pub generic_get_unmapped_area : GapEnv → Layout → List Area → AreaRequest → Option ℕ
generic_get_unmapped_area k y l r = elim (before_search k y l r) [
  | some addr ↦ some addr
  | none ↦ vm_unmapped_area k (search_info false r.len y.mmap_base y.mmap_end) l
]

-- Without an address from the top down the search goes from the bottom up.
unfoldable pub generic_get_unmapped_area_topdown :
    GapEnv → Layout → List Area → AreaRequest → Option ℕ
generic_get_unmapped_area_topdown k y l r = elim (before_search k y l r) [
  | some addr ↦ some addr
  | none ↦ elim (vm_unmapped_area k (search_info true r.len page_size y.topdown_base) l) [
    | none ↦ none
    | some addr ↦
        if not (addr % page_size == 0)
        then vm_unmapped_area k (search_info false r.len y.unmapped_base y.mmap_end) l
        else some addr
  ]
]

-- The kernel around `get_unmapped_area`. The functions that choose an address are that of the
-- process, that of the file if it has one, and those of shared memory and of huge pages; the
-- checks return an error as a word, 0 for none.
pub record ChooseEnv : Type 0 where
  pub task_size : ℕ
  pub arch_mmap_check : AreaRequest → ℕ
  pub mm_get_area : AreaRequest → ℕ
  pub shmem_get_area : AreaRequest → ℕ
  pub thp_get_area : AreaRequest → ℕ
  pub transparent_hugepage : Bool
  pub security_mmap_addr : ℕ → ℕ

-- `file` is none for anonymous memory, and has the function of the file, if any.
abbrev pub chosen_get_area : ChooseEnv → Option (Option (AreaRequest → ℕ)) → ℕ → AreaRequest → ℕ
chosen_get_area k (some (some of_file)) flags = of_file
chosen_get_area k (some none) flags = k.mm_get_area
chosen_get_area k none flags =
    if has flags map_shared
    then k.shmem_get_area
    else if k.transparent_hugepage
    then k.thp_get_area
    else k.mm_get_area

abbrev pub is_anonymous : Option (Option (AreaRequest → ℕ)) → Bool
is_anonymous none = true
is_anonymous (some f) = false

unfoldable pub get_unmapped_area : ChooseEnv → Option (Option (AreaRequest → ℕ)) → AreaRequest → ℕ
get_unmapped_area k file r =
    let addr =
      chosen_get_area k file r.flags (if is_anonymous file then record r { pgoff = 0 } else r) in
    if not (k.arch_mmap_check r == 0)
    then k.arch_mmap_check r
    else if ltb k.task_size r.len
    then err_word enomem
    else if is_err_value addr
    then addr
    else if ltb (sub64 k.task_size r.len) addr
    then err_word enomem
    else if not (addr % page_size == 0)
    then err_word einval
    else if not (k.security_mmap_addr addr == 0)
    then k.security_mmap_addr addr
    else addr
