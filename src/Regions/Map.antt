-- ===== src/Regions/Map.antt =====
-- `mmap_region` itself: the range is emptied, then an area next to it is expanded or a new one is
-- made, and the memory descriptor is brought up to date.
use so2_202110206_2svac.Common.{
  ℕ, ◌+◌, Bool, not, ◌&&◌, ◌||◌, List, [], ◌∷◌, ◌++◌, Option, none, some, bit_and, bit_or, leb,
  ◌==◌, if◌then◌else◌,
}
use so2_202110206_2svac.Common.Result.{Result, ok, err, ◌>>◌, ◌>>=◌, refuse, refuse_if}
use so2_202110206_2svac.Common.Word.{add64, page_shr}
use so2_202110206_2svac.Kernel.{Mm, enomem, eacces, einval}
use so2_202110206_2svac.Mmap.{has, without, vm_locked, vm_shared, vm_account}
use so2_202110206_2svac.Areas.{Area, Space, vm_stat_account}
use so2_202110206_2svac.Areas.Unmap.{do_vmi_munmap}
use so2_202110206_2svac.Regions.{
  Region, RegionEnv, vm_softdirty, vm_lockonfault, is_special, admits, accountable_mapping,
}
use so2_202110206_2svac.Regions.Join.{Placed, before, end_of, expand, vma_merge_new_vma}

-- An address space after a call, and its error; on success, 0, the call returns `addr`.
pub record Mapped : Type 0 where
  pub space : Space
  pub code : ℕ

-- A new area for the request.
abbrev pub requested : Region → Area
requested r = record {
  vm_start = r.addr;
  vm_end = end_of r;
  vm_flags = r.vm_flags;
  vm_pgoff = r.pgoff;
  vm_file = r.file;
}

-- What the mapper of a file makes of it. A mapping that may be written counts as a writer.
unfoldable pub map_file : RegionEnv → Region → ℕ → Result Area
map_file k r file = do
  a ← k.call_mmap (requested r)
  refuse (if bit_and a.vm_flags 0x28 == 0x28 then k.mapping_map_writable file else 0)
  refuse_if (not (a.vm_start == r.addr)) einval
  ok a

-- The last tests before a new area is stored.
unfoldable pub store : RegionEnv → ℕ → Option Area → List Area → Area → Result Placed
store k count prev l a = do
  refuse_if (k.map_deny_write_exec a) eacces
  refuse_if (not (k.arch_validate_flags a.vm_flags)) einval
  refuse_if (not (k.area_env.prealloc_ok a)) enomem
  ok (record { front = before prev; area = a; back = l; map_count = count + 1 })

-- A mapper that changes the flags of the area gets a second attempt to merge it.
unfoldable pub merge_again : RegionEnv → ℕ → Region → Option Area → List Area → Area → Option Placed
merge_again k count r none l a = none
merge_again k count r (some prev) l a =
    if a.vm_flags == r.vm_flags then none else vma_merge_new_vma k count prev l a

unfoldable pub place_file : RegionEnv → ℕ → Region → Option Area → List Area → Area → Result Placed
place_file k count r prev l a = elim (merge_again k count r prev l a) [
  | some p ↦ ok p
  | none ↦ store k count prev l a
]

-- From `cannot_expand` on.
unfoldable pub place_new : RegionEnv → ℕ → Region → Option Area → List Area → Result Placed
place_new k count r prev l = do
  refuse_if (not k.kernel.vm_area_alloc_ok) enomem
  elim r.file [
    | some f ↦ (map_file k r f >>= λ a. place_file k count r prev l a)
    | none ↦
        (if has r.vm_flags vm_shared
          then (k.shmem_zero_setup (requested r) >>= λ f.
              store k count prev l (record (requested r) { vm_file = some f }))
          else store k count prev l (requested r))
  ]

-- An area that must not be locked. The gate area, which the code tests for as well, is no area of
-- a process.
abbrev pub unlockable : RegionEnv → ℕ → Area → Bool
unlockable k vm_flags a = is_special vm_flags || k.is_dax_or_hugetlb a.vm_file a.vm_flags

abbrev pub settled_flags : RegionEnv → ℕ → Area → ℕ
settled_flags k vm_flags a =
    bit_or
      (if has vm_flags vm_locked && unlockable k vm_flags a
        then without (without a.vm_flags vm_locked) vm_lockonfault
        else a.vm_flags)
      vm_softdirty

abbrev pub settled_mm : RegionEnv → Mm → ℕ → ℕ → Placed → Mm
settled_mm k mm len vm_flags p =
    let counted : Mm =
      vm_stat_account k.area_env (record mm { map_count = p.map_count }) vm_flags (page_shr len) in
    if has vm_flags vm_locked && not (unlockable k vm_flags p.area)
    then record counted { locked_vm = add64 counted.locked_vm (page_shr len) }
    else counted

-- From `expanded` on.
unfoldable pub settle : RegionEnv → Mm → ℕ → ℕ → Placed → Mapped
settle k mm len vm_flags p = record {
  space = record {
    mm = settled_mm k mm len vm_flags p;
    areas = p.front ++ record p.area { vm_flags = settled_flags k vm_flags p.area } ∷ p.back;
  };
  code = 0;
}

abbrev pub expand_plain : RegionEnv → ℕ → Region → Option Area → List Area → Option Placed
expand_plain k count r prev l = if is_special r.vm_flags then none else expand k count r prev l

-- The mapping between an area before the range and those after it.
unfoldable pub attach : RegionEnv → Mm → Region → Option Area → List Area → Mapped
attach k mm r prev l = elim (expand_plain k mm.map_count r prev l) [
  | some p ↦ settle k mm r.len r.vm_flags p
  | none ↦ elim (place_new k mm.map_count r prev l) [
    | ok p ↦ settle k mm r.len p.area.vm_flags p
    | err e ↦ record { space = record { mm = mm; areas = before prev ++ l }; code = e }
  ]
]

-- The same with more in front.
abbrev pub behind : Option Area → Mapped → Mapped
behind prev m = record m { space = record m.space { areas = before prev ++ m.space.areas } }

-- The search for the areas around the range, `prev` being the last one seen.
unfoldable pub place : RegionEnv → Mm → Region → Option Area → List Area → Mapped
place k mm r prev [] = attach k mm r prev []
place k mm r prev (a ∷ more) =
    let further = behind prev (place k mm r (some a) more) in
    if leb a.vm_end r.addr then further else attach k mm r prev (a ∷ more)

-- The charge against the memory of the system is made by `security_vm_enough_memory_mm`, and is
-- no part of the address space.
abbrev pub charged : RegionEnv → Region → Region
charged k r = record r {
  vm_flags =
      if accountable_mapping k r.file r.vm_flags then bit_or r.vm_flags vm_account else r.vm_flags;
}

unfoldable pub mmap_region : RegionEnv → Space → Region → Mapped
mmap_region k s r =
    let u = do_vmi_munmap k.area_env s r.addr r.len in
    if not (admits k s.mm s.areas r)
    then record { space = s; code = enomem }
    else if not (u.code == 0)
    then record { space = u.space; code = enomem }
    else if accountable_mapping k r.file r.vm_flags && k.kernel.out_of_memory (page_shr r.len)
    then record { space = u.space; code = enomem }
    else place k u.space.mm (charged k r) none u.space.areas
