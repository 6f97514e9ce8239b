-- ===== src/Regions/Joined.antt =====
-- What a merge needs, and that each way to merge makes the mapping show in its range.
use so2_202110206_2svac.Common.{
  ℕ, ◌-◌, ◌≤◌, ◌<◌, ◌≡◌, subst, refl, true, List, [], ◌∷◌, ◌++◌, Option, none, some, arith,
  Bool-cases, ◌&&◌, inl, inr,
}
use so2_202110206_2svac.Common.Word.{add64, sub64}
use so2_202110206_2svac.Areas.{Area, vma_pages}
use so2_202110206_2svac.Areas.View.{Page, IsArea, Ordered, Ordered-weaken, view, page_of}
use so2_202110206_2svac.Regions.{
  RegionEnv, same, is_mergeable_vma, can_vma_merge_before, can_vma_merge_after,
}
use so2_202110206_2svac.Regions.Flags.{Alike}
use so2_202110206_2svac.Regions.Fills.{
  Precedes, Follows, Fills, Fills-front, Fills-prev, Fills-next, Fills-both,
}
use so2_202110206_2svac.Regions.Join.{Placed, before, dup_ok, join_both, join_prev, join_next}

same-eq : (a b : Option ℕ) → same a b ≡ true → a ≡ b
same-eq none none h = refl
same-eq none (some n) h = cc
same-eq (some m) none h = cc
same-eq (some m) (some n) h = ground arith

module _ (k : RegionEnv) (a b : Area) (anon ctx name : Option ℕ) where
  can_vma_merge_after-alike :
      (off : ℕ)
      → can_vma_merge_after k a b.vm_flags anon b.vm_file off ctx name ≡ true
      → Alike a.vm_flags b.vm_flags
        × (a.vm_file ≡ b.vm_file)
        × (add64 a.vm_pgoff (vma_pages a) ≡ off)
  unfolding can_vma_merge_after is_mergeable_vma
  can_vma_merge_after-alike off h = ground (arith, same-eq a.vm_file b.vm_file)

  can_vma_merge_before-alike :
      (off : ℕ)
      → can_vma_merge_before k a b.vm_flags anon b.vm_file off ctx name ≡ true
      → Alike a.vm_flags b.vm_flags × (a.vm_file ≡ b.vm_file) × (a.vm_pgoff ≡ off)
  unfolding can_vma_merge_before is_mergeable_vma
  can_vma_merge_before-alike off h = ground (arith, same-eq a.vm_file b.vm_file)

  pub after-Precedes :
      IsArea a
      → a.vm_end ≡ b.vm_start
      → can_vma_merge_after k a b.vm_flags anon b.vm_file b.vm_pgoff ctx name ≡ true
      → Precedes a b
  after-Precedes area ends h =
      let f = can_vma_merge_after-alike b.vm_pgoff h in
      record { ends = ends; same = f.0; file = f.1; offset = omega (arith, area.fits, f.2) }

  pub before-Follows :
      (n : ℕ)
      → IsArea b
      → n ≡ vma_pages b
      → a.vm_start ≡ b.vm_end
      → can_vma_merge_before k a b.vm_flags anon b.vm_file (add64 b.vm_pgoff n) ctx name ≡ true
      → Follows a b
  before-Follows n area whole starts h =
      let f = can_vma_merge_before-alike (add64 b.vm_pgoff n) h in
      record { starts = starts; same = f.0; file = f.1; offset = omega (arith, area.fits, f.2) }

-- Areas around the range of another one: the one before, and those after.
abbrev pub Around : ℕ → Area → Option Area → List Area → Type 0
Around lo b none l = (lo ≤ b.vm_start) × IsArea b × Ordered b.vm_end l
Around lo b (some a) l =
    (lo ≤ a.vm_start) × IsArea a × (a.vm_end ≤ b.vm_start) × IsArea b × Ordered b.vm_end l

-- The flags and the file are those of a page that is there.
pub record Seen (a : Area) (l : List Area) : Type 0 where
  pub at : ℕ
  pub page : Page
  pub there : view l at ≡ some page
  pub flags : page.flags ≡ a.vm_flags
  pub file : page.file ≡ a.vm_file

-- A way to place a mapping that takes it into areas that are there.
pub record Merges (lo : ℕ) (b : Area) (prev : Option Area) (l : List Area) (count : ℕ) (p : Placed)
    : Type 0 where
  pub fills :
      (flags : ℕ)
      → Alike flags b.vm_flags
      → Fills lo b
          (before prev ++ l)
          (p.front ++ record p.area { vm_flags = flags } ∷ p.back)
          count
          p.map_count
  pub same : Alike p.area.vm_flags b.vm_flags
  pub same_file : p.area.vm_file ≡ b.vm_file
  pub seen : Seen p.area (before prev ++ l)

pub some_inj {ℓ} : {A : Type ℓ} (a b : A) → some a ≡ some b → a ≡ b
some_inj a b e = cc

module _ (k : RegionEnv) (lo count : ℕ) (b : Area) where
  prev-Merges :
      (prev : Area) (l : List Area)
      → Around lo b (some prev) l
      → Precedes prev b
      → Merges lo b (some prev) l count (record {
        front = [];
        area = record prev { vm_end = b.vm_end };
        back = l;
        map_count = count;
      })
  prev-Merges prev l (h, first, under, area, o) joins = record {
    fills = λ f alike.
        let past = Ordered-weaken b.vm_end prev.vm_end l (omega (arith, area.nonempty)) o in
        Fills-prev lo b f l area alike count prev (h, first, past) o joins;
    same = joins.same;
    same_file = joins.file;
    seen = record {
      at = prev.vm_start;
      page = page_of prev prev.vm_start;
      there = ground (arith, first.nonempty);
      flags = refl;
      file = refl;
    };
  }

  next-Merges :
      (prev : Option Area) (next : Area) (more : List Area) (n : ℕ)
      → Around lo b prev (next ∷ more)
      → n ≡ vma_pages b
      → Follows next b
      → Merges lo b prev (next ∷ more) count (record {
        front = before prev;
        area = record next { vm_start = b.vm_start; vm_pgoff = sub64 next.vm_pgoff n };
        back = more;
        map_count = count;
      })
  next-Merges none next more n (h, area, (over, after, o)) whole joins =
      let low : sub64 next.vm_pgoff n ≡ b.vm_pgoff = omega (arith, after.fits, joins.offset) in
      record {
        fills = λ f alike. rw low (Fills-next lo b f more area alike count next h after o joins);
        same = joins.same;
        same_file = joins.file;
        seen = record {
          at = next.vm_start;
          page = page_of next next.vm_start;
          there = ground (arith, after.nonempty);
          flags = refl;
          file = refl;
        };
      }
  next-Merges (some prev) next more n (h, first, under, area, (over, after, o)) whole joins =
      let low : sub64 next.vm_pgoff n ≡ b.vm_pgoff = omega (arith, after.fits, joins.offset) in
      record {
        fills = λ f alike. rw low (
            Fills-front lo prev b (next ∷ more) _ count count h first under
              (Fills-next prev.vm_end b f more area alike count next under after o joins));
        same = joins.same;
        same_file = joins.file;
        seen = record {
          at = next.vm_start;
          page = page_of next next.vm_start;
          there = ground (arith, after.nonempty, area.nonempty);
          flags = refl;
          file = refl;
        };
      }

  both-Merges :
      (prev next : Area) (more : List Area)
      → Around lo b (some prev) (next ∷ more)
      → 0 < count
      → Precedes prev b
      → Follows next b
      → Merges lo b (some prev) (next ∷ more) count (record {
        front = [];
        area = record prev { vm_end = next.vm_end };
        back = more;
        map_count = count - 1;
      })
  both-Merges prev next more (h, first, under, area, (over, after, o)) positive joins joins' =
      record {
        fills = λ f alike.
            Fills-both lo b f more area alike count prev next h first after o joins joins' positive;
        same = joins.same;
        same_file = joins.file;
        seen = record {
          at = prev.vm_start;
          page = page_of prev prev.vm_start;
          there = ground (arith, first.nonempty);
          flags = refl;
          file = refl;
        };
      }

-- The parts of an attempt to merge.
module _ (k : RegionEnv) (lo count : ℕ) (b : Area) (p : Placed) where
  pub join_prev-Merges :
      (prev : Area) (l : List Area)
      → Around lo b (some prev) l
      → Precedes prev b
      → join_prev k count b.vm_end prev l ≡ some p
      → Merges lo b (some prev) l count p
  unfolding join_prev
  join_prev-Merges prev l around joins e = elim (Bool-cases (k.area_env.prealloc_ok prev)) [
    | inl t ↦
        subst (Merges lo b (some prev) l count) (some_inj _ p (rw t at e))
          (prev-Merges k lo count b prev l around joins)
    | inr f ↦ ground arith
  ]

  pub join_next-Merges :
      (prev : Option Area) (next : Area) (more : List Area) (n : ℕ)
      → Around lo b prev (next ∷ more)
      → n ≡ vma_pages b
      → Follows next b
      → join_next k count b.vm_start n prev next more ≡ some p
      → Merges lo b prev (next ∷ more) count p
  unfolding join_next
  join_next-Merges prev next more n around whole joins e =
      elim (Bool-cases (k.area_env.prealloc_ok next)) [
        | inl t ↦
            subst (Merges lo b prev (next ∷ more) count) (some_inj _ p (rw t at e))
              (next-Merges k lo count b prev next more n around whole joins)
        | inr f ↦ ground arith
      ]

  pub join_both-Merges :
      (prev next : Area) (more : List Area)
      → Around lo b (some prev) (next ∷ more)
      → 0 < count
      → Precedes prev b
      → Follows next b
      → join_both k count prev next more ≡ some p
      → Merges lo b (some prev) (next ∷ more) count p
  unfolding join_both
  join_both-Merges prev next more around positive joins joins' e =
      elim (Bool-cases (dup_ok k prev next && k.area_env.prealloc_ok prev)) [
        | inl t ↦
            subst (Merges lo b (some prev) (next ∷ more) count) (some_inj _ p (rw t at e))
              (both-Merges k lo count b prev next more around positive joins joins')
        | inr f ↦ ground arith
      ]
