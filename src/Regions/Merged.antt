-- ===== src/Regions/Merged.antt =====
-- `expand` and `vma_merge_new_vma` in the terms of what they make the addresses show.
use so2_202110206_2svac.Common.{
  ℕ, ◌≤◌, ◌<◌, ◌≡◌, refl, true, false, List, [], ◌∷◌, ◌++◌, Option, none, some, length, arith,
  Bool-cases, inl, inr, if◌then◌else◌, not, ◌&&◌, Bool,
}
use so2_202110206_2svac.Common.Word.{page_shr}
use so2_202110206_2svac.Areas.{Area, vma_pages}
use so2_202110206_2svac.Areas.View.{IsArea}
use so2_202110206_2svac.Regions.{Region, RegionEnv, is_special, is_mergeable_anon_vma}
use so2_202110206_2svac.Regions.Fills.{Precedes, Follows}
use so2_202110206_2svac.Regions.Join.{
  Placed, before, end_of, join_prev, join_next, join_both, next_merges, prev_merges, expand,
  prev_takes, next_takes, range_pages, merge_tests, vma_merge_new_vma,
}
use so2_202110206_2svac.Regions.Joined.{
  Around, Merges, after-Precedes, before-Follows, join_prev-Merges, join_next-Merges,
  join_both-Merges,
}
use so2_202110206_2svac.Regions.Map.{requested}

module _ (k : RegionEnv) (r : Region) where
  next_merges-Follows :
      (next : Area)
      → IsArea (requested r)
      → page_shr r.len ≡ vma_pages (requested r)
      → next_merges k r next ≡ true
      → Follows next (requested r)
  unfolding next_merges
  next_merges-Follows next area whole h =
      before-Follows k next (requested r) none none none (page_shr r.len) area whole (ground arith)
        (ground arith)

  prev_merges-Precedes :
      (prev : Area) (anon ctx : Option ℕ)
      → IsArea prev
      → prev_merges k r prev anon ctx ≡ true
      → Precedes prev (requested r)
  unfolding prev_merges
  prev_merges-Precedes prev anon ctx area h =
      after-Precedes k prev (requested r) anon ctx none area (ground arith) (ground arith)

  module _ (lo count : ℕ) (p : Placed) (whole : page_shr r.len ≡ vma_pages (requested r)) where
    with_next :
        (prev next : Area) (more : List Area)
        → Around lo (requested r) (some prev) (next ∷ more)
        → length (prev ∷ next ∷ more) ≤ count
        → next_merges k r next ≡ true
        → (if prev_merges k r prev (k.anon_vma next) (k.userfaultfd_ctx next)
            then join_both k count prev next more
            else join_next k count r.addr (page_shr r.len) (some prev) next more)
          ≡ some p
        → Merges lo (requested r) (some prev) (next ∷ more) count p
    with_next prev next more around n t e =
        let after = next_merges-Follows next around.3 whole t in
        elim (Bool-cases (prev_merges k r prev (k.anon_vma next) (k.userfaultfd_ctx next))) [
          | inl t' ↦
              join_both-Merges k lo count (requested r) p prev next more around (omega arith)
                (prev_merges-Precedes prev _ _ around.1 t') after (rw t' at e)
          | inr f ↦
              join_next-Merges k lo count (requested r) p (some prev) next more _ around whole after
                (rw f at e)
        ]

    without_next :
        (prev next : Area) (more : List Area)
        → Around lo (requested r) (some prev) (next ∷ more)
        → (if prev_merges k r prev none none
            then join_prev k count (end_of r) prev (next ∷ more)
            else none)
          ≡ some p
        → Merges lo (requested r) (some prev) (next ∷ more) count p
    without_next prev next more around e = elim (Bool-cases (prev_merges k r prev none none)) [
      | inl t ↦
          join_prev-Merges k lo count (requested r) p prev (next ∷ more) around
            (prev_merges-Precedes prev none none around.1 t) (rw t at e)
      | inr f ↦ ground arith
    ]

    pub expand-Merges :
        (prev : Option Area) (l : List Area)
        → Around lo (requested r) prev l
        → length (before prev ++ l) ≤ count
        → expand k count r prev l ≡ some p
        → Merges lo (requested r) prev l count p
    unfolding expand
    expand-Merges none [] around n e = ground arith
    expand-Merges none (next ∷ more) around n e = elim (Bool-cases (next_merges k r next)) [
      | inl t ↦
          join_next-Merges k lo count (requested r) p none next more _ around whole
            (next_merges-Follows next around.1 whole t) (rw t at e)
      | inr f ↦ ground arith
    ]
    expand-Merges (some prev) [] around n e = elim (Bool-cases (prev_merges k r prev none none)) [
      | inl t ↦
          join_prev-Merges k lo count (requested r) p prev [] around
            (prev_merges-Precedes prev none none around.1 t) (rw t at e)
      | inr f ↦ ground arith
    ]
    expand-Merges (some prev) (next ∷ more) around n e = elim (Bool-cases (next_merges k r next)) [
      | inl t ↦ with_next prev next more around n t (rw t at e)
      | inr f ↦ without_next prev next more around (rw f at e)
    ]

-- A merge of an area that the mapper of a file has changed.
module _ (k : RegionEnv) (a : Area) (area : IsArea a) where
  prev_takes-Precedes : (prev : Area) → IsArea prev → prev_takes k prev a ≡ true → Precedes prev a
  unfolding prev_takes
  prev_takes-Precedes prev area' h =
      after-Precedes k prev a (k.anon_vma a) (k.userfaultfd_ctx a) (k.anon_vma_name a) area'
        (ground arith) (ground arith)

  next_takes-Follows : (next : Area) → next_takes k next a ≡ true → Follows next a
  unfolding next_takes
  next_takes-Follows next h =
      before-Follows k next a (k.anon_vma a) (k.userfaultfd_ctx a) (k.anon_vma_name a)
        (range_pages a) area refl (ground arith) (ground arith)

  module _ (lo count : ℕ) (p : Placed) where
    merge_tests-Merges :
        (prev next : Area) (more : List Area) (t u : Bool)
        → Around lo a (some prev) (next ∷ more)
        → 0 < count
        → prev_takes k prev a ≡ t
        → next_takes k next a ≡ u
        → merge_tests k count prev next more a t u ≡ some p
        → Merges lo a (some prev) (next ∷ more) count p
    unfolding merge_tests
    merge_tests-Merges prev next more true true around positive t u e =
        elim (Bool-cases (is_mergeable_anon_vma k (k.anon_vma prev) (k.anon_vma next) none)) [
          | inl both ↦
              join_both-Merges k lo count a p prev next more around positive
                (prev_takes-Precedes prev around.1 t) (next_takes-Follows next u) (rw both at e)
          | inr one ↦
              join_prev-Merges k lo count a p prev (next ∷ more) around
                (prev_takes-Precedes prev around.1 t) (rw one at e)
        ]
    merge_tests-Merges prev next more true false around positive t u e =
        join_prev-Merges k lo count a p prev (next ∷ more) around
          (prev_takes-Precedes prev around.1 t) e
    merge_tests-Merges prev next more false true around positive t u e =
        join_next-Merges k lo count a p (some prev) next more (range_pages a) around refl
          (next_takes-Follows next u) e
    merge_tests-Merges prev next more false false around positive t u e = ground arith

    pub vma_merge_new_vma-Merges :
        (prev : Area) (l : List Area)
        → Around lo a (some prev) l
        → 0 < count
        → vma_merge_new_vma k count prev l a ≡ some p
        → Merges lo a (some prev) l count p × (is_special a.vm_flags ≡ false)
    unfolding vma_merge_new_vma
    vma_merge_new_vma-Merges prev [] around positive e =
        elim (Bool-cases (not (is_special a.vm_flags) && prev_takes k prev a)) [
          | inl t ↦ (
            join_prev-Merges k lo count a p prev [] around
                (prev_takes-Precedes prev around.1 (ground arith)) (rw t at e),
            ground arith,
          )
          | inr f ↦ ground arith
        ]
    vma_merge_new_vma-Merges prev (next ∷ more) around positive e =
        elim (Bool-cases (is_special a.vm_flags)) [
          | inl t ↦ ground arith
          | inr f ↦ (merge_tests-Merges prev next more _ _ around positive refl refl (rw f at e), f)
        ]
