-- ===== src/Regions/Made.antt =====
-- How `mmap_region` makes a new area: the ways to fail, and what the area can be.
use so2_202110206_2svac.Common.{
  ℕ, zero, suc, Bool, subst, sym, ◌+◌, ◌<◌, ◌≡◌, ◌≢◌, ◌⊎◌, inl, inr, refl, true, false, List,
  Option, none, some, arith, Option-cases, Bool-cases, bit_and, ◌==◌, if◌then◌else◌, not,
}
use so2_202110206_2svac.Common.Word.{word}
use so2_202110206_2svac.Common.Result.{
  Result-cases, Result, ok, err, ◌>>◌, ◌>>=◌, refuse, refuse_if,
}
use so2_202110206_2svac.Kernel.{enomem, eacces, einval}
use so2_202110206_2svac.Mmap.{has, vm_shared}
use so2_202110206_2svac.Areas.{Area, vma_pages}
use so2_202110206_2svac.Areas.View.{IsArea}
use so2_202110206_2svac.Regions.{Region, RegionEnv}
use so2_202110206_2svac.Regions.Flags.{Alike}
use so2_202110206_2svac.Regions.Join.{Placed, before, vma_merge_new_vma}
use so2_202110206_2svac.Regions.Map.{requested, map_file, store, merge_again, place_file, place_new}

-- What is documented of the mapper of a file and of the set-up of shared memory: the mapper leaves
-- the size of the area, and an offset at which its pages have numbers; a failure has a code. That an
-- area must not be locked does not depend on the mark VM_SOFTDIRTY.
pub record Documented (k : RegionEnv) : Type 0 where
  pub keeps_end : (a b : Area) → k.call_mmap a ≡ ok b → b.vm_end ≡ a.vm_end
  pub offset : (a b : Area) → IsArea a → k.call_mmap a ≡ ok b → b.vm_pgoff + vma_pages a < word
  pub mapper_fails : (a : Area) (e : ℕ) → k.call_mmap a ≡ err e → e ≢ 0
  pub shmem_fails : (a : Area) (e : ℕ) → k.shmem_zero_setup a ≡ err e → e ≢ 0
  pub unmarked_dax :
      (file : Option ℕ) (f g : ℕ)
      → Alike f g
      → k.is_dax_or_hugetlb file f ≡ k.is_dax_or_hugetlb file g

-- Where an area comes from: the request, the mapper of its file, or shared memory.
abbrev pub Origin : RegionEnv → Region → Area → Type 0
Origin k r a =
    (a ≡ requested r)
    ⊎ ((k.call_mmap (requested r) ≡ ok a) × (a.vm_start ≡ r.addr))
    ⊎ ((f : ℕ) × (k.shmem_zero_setup (requested r) ≡ ok f)
        × (a ≡ record (requested r) { vm_file = some f }))

-- A new area by itself.
abbrev pub alone : ℕ → Option Area → List Area → Area → Placed
alone count prev l a = record { front = before prev; area = a; back = l; map_count = count + 1 }

-- A failure, an area of its own, or an area that the one before or after takes in.
pub data Outcome (k : RegionEnv) (count : ℕ) (r : Region) (prev : Option Area) (l : List Area)
    (m : Result Placed) : Type 0 where
  fails : (e : ℕ) → e ≢ 0 → m ≡ err e → Outcome k count r prev l m
  stands : (a : Area) → Origin k r a → m ≡ ok (alone count prev l a) → Outcome k count r prev l m
  merges :
      (a q : Area) (p : Placed)
      → Origin k r a
      → prev ≡ some q
      → vma_merge_new_vma k count q l a ≡ some p
      → m ≡ ok p
      → Outcome k count r prev l m

module _ (k : RegionEnv) (d : Documented k) (count : ℕ) (r : Region) where
  store-Outcome :
      (prev : Option Area) (l : List Area) (a : Area)
      → Origin k r a
      → Outcome k count r prev l (store k count prev l a)
  unfolding store
  store-Outcome prev l a o = elim (Bool-cases (k.map_deny_write_exec a)) [
    | inl t ↦ fails eacces (omega arith) (rw t)
    | inr f ↦ elim (Bool-cases (k.arch_validate_flags a.vm_flags)) [
      | inr g ↦ fails einval (omega arith) (rw (f, g))
      | inl g ↦ elim (Bool-cases (k.area_env.prealloc_ok a)) [
        | inr h ↦ fails enomem (omega arith) (rw (f, g, h))
        | inl h ↦ stands a o (rw (f, g, h))
      ]
    ]
  ]

  place_file-Outcome :
      (prev : Option Area) (l : List Area) (a : Area)
      → Origin k r a
      → Outcome k count r prev l (place_file k count r prev l a)
  unfolding place_file merge_again
  place_file-Outcome none l a o = store-Outcome none l a o
  place_file-Outcome (some q) l a o = elim (Bool-cases (a.vm_flags == r.vm_flags)) [
    | inl t ↦ rw (place_file, merge_again, t) (store-Outcome (some q) l a o)
    | inr f ↦ elim (Option-cases (vma_merge_new_vma k count q l a)) [
      | inl e ↦ rw (place_file, merge_again, f, e) (store-Outcome (some q) l a o)
      | inr (p, e) ↦ merges a q p o refl e (rw (place_file, merge_again, f, e))
    ]
  ]

  -- Two refusals, and what both let pass.
  refusals :
      (n : ℕ) (bad : Bool) (a : Area)
      → ((e : ℕ) × (e ≢ 0) × ((refuse n >> (refuse_if bad einval >> ok a)) ≡ err e))
        ⊎ ((bad ≡ false) × ((refuse n >> (refuse_if bad einval >> ok a)) ≡ ok a))
  refusals zero true a = inl (einval, omega arith, refl)
  refusals zero false a = inr (refl, refl)
  refusals (suc n) bad a = inl (suc n, omega arith, ground arith)

  map_file-cases :
      (file : ℕ)
      → ((e : ℕ) × (e ≢ 0) × (map_file k r file ≡ err e))
        ⊎ ((a : Area) × (k.call_mmap (requested r) ≡ ok a)
            × (a.vm_start ≡ r.addr)
            × (map_file k r file ≡ ok a))
  unfolding map_file
  map_file-cases file = elim (Result-cases (k.call_mmap (requested r))) [
    | inl (e, h) ↦ inl (e, d.mapper_fails _ e h, rw h)
    | inr (a, h) ↦
        rw h
          (elim (refusals
            (if bit_and a.vm_flags 0x28 == 0x28 then k.mapping_map_writable file else 0)
            (not (a.vm_start == r.addr)) a) [
              | inl z ↦ inl z
              | inr (at, z) ↦ inr (a, refl, ground arith, z)
            ])
  ]

  pub place_new-Outcome :
      (prev : Option Area) (l : List Area) → Outcome k count r prev l (place_new k count r prev l)
  unfolding place_new
  place_new-Outcome prev l = elim (Bool-cases k.kernel.vm_area_alloc_ok) [
    | inr h ↦ fails enomem (omega arith) (rw h)
    | inl h ↦ subst guarded (sym h) (from_file r.file)
  ]
    where
      guarded : Bool → Type 0
      guarded b = Outcome k count r prev l (
          refuse_if (not b) enomem >> elim r.file [
            | some f ↦ (map_file k r f >>= λ a. place_file k count r prev l a)
            | none ↦
                (if has r.vm_flags vm_shared
                  then (k.shmem_zero_setup (requested r) >>= λ f.
                      store k count prev l (record (requested r) { vm_file = some f }))
                  else store k count prev l (requested r))
          ])

      from_file :
          (file : Option ℕ)
          → Outcome k count r prev l (elim file [
            | some f ↦ (map_file k r f >>= λ a. place_file k count r prev l a)
            | none ↦
                (if has r.vm_flags vm_shared
                  then (k.shmem_zero_setup (requested r) >>= λ f.
                      store k count prev l (record (requested r) { vm_file = some f }))
                  else store k count prev l (requested r))
          ])
      from_file none = elim (Bool-cases (has r.vm_flags vm_shared)) [
        | inr s ↦ rw s (store-Outcome prev l (requested r) (inl refl))
        | inl s ↦ elim (Result-cases (k.shmem_zero_setup (requested r))) [
          | inl (e, z) ↦ rw (s, z) (fails e (d.shmem_fails _ e z) refl)
          | inr (f, z) ↦
              rw (s, z)
                (store-Outcome prev l (record (requested r) { vm_file = some f })
                  (inr (inr (f, z, refl))))
        ]
      ]
      from_file (some f) = elim (map_file-cases f) [
        | inl (e, bad, z) ↦ rw z (fails e bad refl)
        | inr (a, z, at, y) ↦ rw y (place_file-Outcome prev l a (inr (inl (z, at))))
      ]
