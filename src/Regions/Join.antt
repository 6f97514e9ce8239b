-- ===== src/Regions/Join.antt =====
-- `vma_expand` and the three cases of `vma_merge` in which nothing is mapped in the range: the area
-- before the range, the one after it, or both, take it in.
use so2_202110206_2svac.Common.{
  ℕ, ◌-◌, Bool, true, false, not, ◌&&◌, List, [], ◌∷◌, Option, none, some, ◌==◌, if◌then◌else◌,
}
use so2_202110206_2svac.Common.Word.{add64, sub64, page_shr}
use so2_202110206_2svac.Areas.{Area}
use so2_202110206_2svac.Regions.{
  Region, RegionEnv, is_none, is_special, is_mergeable_anon_vma, can_vma_merge_before,
  can_vma_merge_after,
}

-- Areas around the one that shows a mapping: what stands directly before it, the area, those after
-- it, and the number of areas of the process.
pub record Placed : Type 0 where
  pub front : List Area
  pub area : Area
  pub back : List Area
  pub map_count : ℕ

abbrev pub before : Option Area → List Area
before none = []
before (some a) = a ∷ []

abbrev pub end_of : Region → ℕ
end_of r = add64 r.addr r.len

-- `dup_anon_vma` succeeds.
abbrev pub dup_ok : RegionEnv → Area → Area → Bool
dup_ok k dst src =
    if not (is_none (k.anon_vma src)) && is_none (k.anon_vma dst)
    then k.area_env.anon_vma_clone dst == 0
    else true

-- The area before the range and the one after it become one.
unfoldable pub join_both : RegionEnv → ℕ → Area → Area → List Area → Option Placed
join_both k count prev next more =
    if dup_ok k prev next && k.area_env.prealloc_ok prev
    then some (record {
      front = [];
      area = record prev { vm_end = next.vm_end };
      back = more;
      map_count = count - 1;
    })
    else none

unfoldable pub join_prev : RegionEnv → ℕ → ℕ → Area → List Area → Option Placed
join_prev k count end prev l =
    if k.area_env.prealloc_ok prev
    then some
        (record { front = []; area = record prev { vm_end = end }; back = l; map_count = count })
    else none

unfoldable pub join_next : RegionEnv → ℕ → ℕ → ℕ → Option Area → Area → List Area → Option Placed
join_next k count addr pglen prev next more =
    if k.area_env.prealloc_ok next
    then some (record {
      front = before prev;
      area = record next { vm_start = addr; vm_pgoff = sub64 next.vm_pgoff pglen };
      back = more;
      map_count = count;
    })
    else none

-- "Check next" of `mmap_region`.
unfoldable pub next_merges : RegionEnv → Region → Area → Bool
next_merges k r next =
    next.vm_start == end_of r
    && not (k.has_policy next)
    && can_vma_merge_before k next r.vm_flags none r.file (add64 r.pgoff (page_shr r.len)) none none

-- "Check prev", given the `anon_vma` and the user faults of a next area that merges.
unfoldable pub prev_merges : RegionEnv → Region → Area → Option ℕ → Option ℕ → Bool
prev_merges k r prev anon_vma ctx =
    prev.vm_end == r.addr
    && not (k.has_policy prev)
    && can_vma_merge_after k prev r.vm_flags anon_vma r.file r.pgoff ctx none

-- `mmap_region` up to `cannot_expand`: the areas around the range once one is expanded.
unfoldable pub expand : RegionEnv → ℕ → Region → Option Area → List Area → Option Placed
expand k count r none [] = none
expand k count r none (next ∷ more) =
    if next_merges k r next then join_next k count r.addr (page_shr r.len) none next more else none
expand k count r (some prev) [] =
    if prev_merges k r prev none none then join_prev k count (end_of r) prev [] else none
expand k count r (some prev) (next ∷ more) =
    if next_merges k r next
    then if prev_merges k r prev (k.anon_vma next) (k.userfaultfd_ctx next)
      then join_both k count prev next more
      else join_next k count r.addr (page_shr r.len) (some prev) next more
    else if prev_merges k r prev none none
    then join_prev k count (end_of r) prev (next ∷ more)
    else none

abbrev pub range_pages : Area → ℕ
range_pages a = page_shr (a.vm_end - a.vm_start)

-- `vma_merge_new_vma` for an area that no other one overlaps: whether the area before and the one
-- after it can take it in.
unfoldable pub prev_takes : RegionEnv → Area → Area → Bool
prev_takes k prev a =
    prev.vm_end == a.vm_start
    && k.same_policy prev a
    && can_vma_merge_after k prev a.vm_flags (k.anon_vma a) a.vm_file a.vm_pgoff
        (k.userfaultfd_ctx a) (k.anon_vma_name a)

unfoldable pub next_takes : RegionEnv → Area → Area → Bool
next_takes k next a =
    next.vm_start == a.vm_end
    && k.same_policy a next
    && can_vma_merge_before k next a.vm_flags (k.anon_vma a) a.vm_file
        (add64 a.vm_pgoff (range_pages a)) (k.userfaultfd_ctx a) (k.anon_vma_name a)

-- Cases 2, 3 and 1 of `vma_merge`.
unfoldable pub merge_tests :
    RegionEnv → ℕ → Area → Area → List Area → Area → Bool → Bool → Option Placed
merge_tests k count prev next more a true true =
    if is_mergeable_anon_vma k (k.anon_vma prev) (k.anon_vma next) none
    then join_both k count prev next more
    else join_prev k count a.vm_end prev (next ∷ more)
merge_tests k count prev next more a true false = join_prev k count a.vm_end prev (next ∷ more)
merge_tests k count prev next more a false true =
    join_next k count a.vm_start (range_pages a) (some prev) next more
merge_tests k count prev next more a false false = none

unfoldable pub vma_merge_new_vma : RegionEnv → ℕ → Area → List Area → Area → Option Placed
vma_merge_new_vma k count prev [] a =
    if not (is_special a.vm_flags) && prev_takes k prev a
    then join_prev k count a.vm_end prev []
    else none
vma_merge_new_vma k count prev (next ∷ more) a =
    if is_special a.vm_flags
    then none
    else merge_tests k count prev next more a (prev_takes k prev a) (next_takes k next a)
