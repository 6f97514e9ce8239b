-- ===== src/Regions.antt =====
-- Proyecto3/project3/mm/mmap.c: `mmap_region`, by which a checked request becomes part of the areas
-- of a process. This file has its arguments, the kernel around it, and its tests.
pub mod Join
pub mod Map
pub mod Flags
pub mod Fills
pub mod Joined
pub mod Merged
pub mod Made
pub mod Settle
pub mod Attach
pub mod Correct
mod Tests
use so2_202110206_2svac.Common.{
  ℕ, ◌+◌, ◌-◌, Bool, true, false, not, ◌&&◌, ◌||◌, List, [], ◌∷◌, Option, none, some, bit_and, min,
  ltb, leb, ◌==◌, if◌then◌else◌,
}
use so2_202110206_2svac.Common.Result.{Result}
use so2_202110206_2svac.Common.Word.{add64, sub64, page_shr}
use so2_202110206_2svac.Kernel.{Mm}
use so2_202110206_2svac.Mmap.{MmapEnv, has, without}
use so2_202110206_2svac.Mmap.Checks.{may_expand_vm}
use so2_202110206_2svac.Areas.{Area, AreaEnv, vma_pages}

abbrev pub vm_softdirty : ℕ
vm_softdirty = 0x800_0000

abbrev pub vm_lockonfault : ℕ
vm_lockonfault = 0x8_0000

-- `vm_flags & VM_SPECIAL`, one flag at a time: VM_IO, VM_DONTEXPAND, VM_PFNMAP and VM_MIXEDMAP.
abbrev pub is_special : ℕ → Bool
is_special flags =
    has flags 0x4000 || has flags 0x4_0000 || has flags 0x400 || has flags 0x1000_0000

-- The arguments of `mmap_region`.
pub record Region : Type 0 where
  pub file : Option ℕ
  pub addr : ℕ
  pub len : ℕ
  pub vm_flags : ℕ
  pub pgoff : ℕ

-- The kernel around one call. What an area has besides the fields of `Area` is a function of it.
pub record RegionEnv : Type 0 where
  pub kernel : MmapEnv
  pub area_env : AreaEnv
  pub is_file_hugepages : ℕ → Bool
  -- `vma_policy(vma)` is not null, and `mpol_equal` of the policies of two areas
  pub has_policy : Area → Bool
  pub same_policy : Area → Area → Bool
  -- `vma->vm_ops && vma->vm_ops->close`
  pub has_close : Area → Bool
  pub userfaultfd_ctx : Area → Option ℕ
  pub anon_vma_name : Area → Option ℕ
  pub anon_vma : Area → Option ℕ
  pub is_singular : Area → Bool
  -- the mapper of a file, with the area that it leaves, and the set-up of shared memory, with the
  -- file that it gives the area
  pub call_mmap : Area → Result Area
  pub shmem_zero_setup : Area → Result ℕ
  pub mapping_map_writable : ℕ → ℕ
  pub map_deny_write_exec : Area → Bool
  pub arch_validate_flags : ℕ → Bool
  -- `vma_is_dax(vma) || is_vm_hugetlb_page(vma)`, by the file and the flags of an area
  pub is_dax_or_hugetlb : Option ℕ → ℕ → Bool

abbrev pub same : Option ℕ → Option ℕ → Bool
same none none = true
same none (some n) = false
same (some m) none = false
same (some m) (some n) = m == n

abbrev pub is_none : Option ℕ → Bool
is_none none = true
is_none (some n) = false

-- `(vma->vm_flags ^ vm_flags) & ~VM_SOFTDIRTY` is 0.
abbrev pub same_flags : ℕ → ℕ → Bool
same_flags f g = without f vm_softdirty == without g vm_softdirty

unfoldable pub is_mergeable_vma :
    RegionEnv → Area → Option ℕ → ℕ → Option ℕ → Option ℕ → Bool → Bool
is_mergeable_vma k vma file vm_flags ctx name may_remove_vma =
    same_flags vma.vm_flags vm_flags
    && same vma.vm_file file
    && not (may_remove_vma && k.has_close vma)
    && same (k.userfaultfd_ctx vma) ctx
    && same (k.anon_vma_name vma) name

-- The third argument is the area whose chain must be singular, if there is one.
unfoldable pub is_mergeable_anon_vma : RegionEnv → Option ℕ → Option ℕ → Option Area → Bool
is_mergeable_anon_vma k a b vma =
    (is_none a || is_none b) && (elim vma [ none ↦ true | some v ↦ k.is_singular v ]) || same a b

unfoldable pub can_vma_merge_before :
    RegionEnv → Area → ℕ → Option ℕ → Option ℕ → ℕ → Option ℕ → Option ℕ → Bool
can_vma_merge_before k vma vm_flags anon_vma file vm_pgoff ctx name =
    is_mergeable_vma k vma file vm_flags ctx name true
    && is_mergeable_anon_vma k anon_vma (k.anon_vma vma) (some vma)
    && vma.vm_pgoff == vm_pgoff

unfoldable pub can_vma_merge_after :
    RegionEnv → Area → ℕ → Option ℕ → Option ℕ → ℕ → Option ℕ → Option ℕ → Bool
can_vma_merge_after k vma vm_flags anon_vma file vm_pgoff ctx name =
    is_mergeable_vma k vma file vm_flags ctx name false
    && is_mergeable_anon_vma k anon_vma (k.anon_vma vma) (some vma)
    && add64 vma.vm_pgoff (vma_pages vma) == vm_pgoff

-- `max` and the pages that areas have in a range.
abbrev max_of : ℕ → ℕ → ℕ
max_of a b = if ltb a b then b else a

unfoldable pub count_vma_pages_range : ℕ → ℕ → List Area → ℕ
count_vma_pages_range addr end [] = 0
count_vma_pages_range addr end (a ∷ more) =
    let rest = count_vma_pages_range addr end more in
    if leb a.vm_end addr
    then rest
    else if leb end a.vm_start
    then 0
    else page_shr (min end a.vm_end - max_of addr a.vm_start) + rest

-- The first test of `mmap_region`: the pages that go are not counted against the limit.
unfoldable pub admits : RegionEnv → Mm → List Area → Region → Bool
admits k mm areas r =
    may_expand_vm k.kernel mm r.vm_flags (page_shr r.len)
    || may_expand_vm k.kernel mm r.vm_flags
        (sub64 (page_shr r.len) (count_vma_pages_range r.addr (add64 r.addr r.len) areas))

unfoldable pub accountable_mapping : RegionEnv → Option ℕ → ℕ → Bool
accountable_mapping k file vm_flags =
    not (elim file [ none ↦ false | some f ↦ k.is_file_hugepages f ])
    && bit_and vm_flags 0x20_000a == 0x2
