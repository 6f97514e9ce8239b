-- ===== src/Areas/Prefix.antt =====
-- What a call does to areas, carried over to the same areas with more in front, split, or seen from
-- a lower address.
use so2_202110206_2svac.Common.{ℕ, ◌+◌, ◌≤◌, ◌≡◌, ◌≢◌, refl, List, [], ◌∷◌, arith, ◌∙◌}
use so2_202110206_2svac.Kernel.{Mm}
use so2_202110206_2svac.Areas.{Area, Space, vma_pages}
use so2_202110206_2svac.Areas.View.{IsArea, Ordered, Ordered-weaken, view, locked_pages}
use so2_202110206_2svac.Areas.Unmap.{Unmapped, after}
use so2_202110206_2svac.Areas.Removal.{Regroups}
use so2_202110206_2svac.Areas.Munmap.{Counts, Cuts}

-- An area below the range in front of the others.
pub Cuts-after :
    (lo start end : ℕ) (a : Area) (l : List Area) (u : Unmapped)
    → lo ≤ a.vm_start
    → IsArea a
    → a.vm_end ≤ start
    → Cuts a.vm_end start end l u
    → Cuts lo start end (a ∷ l) (after a u)
Cuts-after lo start end a l u h area low c = record {
  ordered = (h, area, c.ordered);
  done = λ z x. ground (arith, c.done z x);
  failed = λ z x. ground (arith, c.failed z x);
}

pub Counts-after :
    (total locked count : ℕ) (a : Area) (s : Space)
    → Counts (total + vma_pages a) (locked + locked_pages (a ∷ [])) (count + 1) s
    → Counts total locked count (record s { areas = a ∷ s.areas })
Counts-after total locked count a s c = record {
  all_pages = omega (arith, c.all_pages);
  all_locked = omega (arith, c.all_locked);
  all_areas = omega (arith, c.all_areas);
  small = c.small;
  small_locked = c.small_locked;
}

pub Counts-front :
    (total locked count : ℕ) (a : Area) (mm : Mm) (l : List Area)
    → Counts total locked count (record { mm = mm; areas = a ∷ l })
    → Counts
        (total + vma_pages a)
        (locked + locked_pages (a ∷ []))
        (count + 1)
        (record { mm = mm; areas = l })
Counts-front total locked count a mm l c = record {
  all_pages = omega (arith, c.all_pages);
  all_locked = omega (arith, c.all_locked);
  all_areas = omega (arith, c.all_areas);
  small = c.small;
  small_locked = c.small_locked;
}

pub Counts-split :
    (total locked count n lo : ℕ) (mm : Mm) (l m : List Area)
    → Regroups lo l m n
    → Counts total locked count (record { mm = mm; areas = l })
    → Counts total locked count
        (record { mm = record mm { map_count = mm.map_count + n }; areas = m })
Counts-split total locked count n lo mm l m r c = record {
  all_pages = omega (arith, c.all_pages, r.same_pages);
  all_locked = omega (arith, c.all_locked, r.same_locked);
  all_areas = omega (arith, c.all_areas, r.counted);
  small = c.small;
  small_locked = c.small_locked;
}

-- The same call on areas that show the same.
pub Cuts-same :
    (lo start end : ℕ) (l m : List Area) (u : Unmapped)
    → ((x : ℕ) → view m x ≡ view l x)
    → Cuts lo start end m u
    → Cuts lo start end l u
Cuts-same lo start end l m u same c = record {
  ordered = c.ordered;
  done = λ z x. ground (arith, c.done z x, same x);
  failed = λ z x. c.failed z x ∙ same x;
}

pub Cuts-weaken :
    (lo start end : ℕ) (l : List Area) (u : Unmapped)
    → lo ≤ start
    → Cuts start start end l u
    → Cuts lo start end l u
Cuts-weaken lo start end l u h c = record {
  ordered = Ordered-weaken start lo u.space.areas h c.ordered;
  done = c.done;
  failed = c.failed;
}

pub Cuts-error :
    (lo start end e : ℕ) (mm : Mm) (l : List Area)
    → Ordered lo l
    → e ≢ 0
    → Cuts lo start end l (record { space = record { mm = mm; areas = l }; code = e })
Cuts-error lo start end e mm l o bad = record {
  ordered = o;
  done = λ z. absurd (bad z);
  failed = λ z x. refl;
}
