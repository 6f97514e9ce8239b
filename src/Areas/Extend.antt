-- ===== src/Areas/Extend.antt =====
-- `find_extend_vma_locked` over all areas of a process: what it finds, and what it keeps.
use so2_202110206_2svac.Common.{
  Option-cases, ℕ, ◌+◌, ◌-◌, ◌*◌, ◌%◌, ◌≤◌, ◌<◌, ◌≡◌, ◌⊎◌, inl, inr, refl, ap, List, [], ◌∷◌, arith,
  none, some, Option,
}
use so2_202110206_2svac.Common.Word.{page_size, page_shr}
use so2_202110206_2svac.Kernel.{Mm}
use so2_202110206_2svac.Areas.{Area, Space, vma_pages}
use so2_202110206_2svac.Areas.View.{
  Includes, SameBelow, Page, IsArea, Ordered, view, locked_pages, page_of,
}
use so2_202110206_2svac.Areas.Munmap.{Counts}
use so2_202110206_2svac.Areas.Walk.{IsValid}
use so2_202110206_2svac.Areas.Prefix.{Counts-after, Counts-front}
use so2_202110206_2svac.Areas.Stack.{
  StackEnv, page_down, grown, Extended, extend, find_extend_vma_locked,
}
use so2_202110206_2svac.Areas.Growth.{
  Allows, expand_downwards-at, growth, after, after-IsArea, after-keeps, after-below, grown-Counts,
}

-- What a search for `addr` that may grow a stack does to areas from `lo` on.
pub record Extends (lo addr : ℕ) (mm : Mm) (l : List Area) (e : Extended) : Type 0 where
  pub ordered : Ordered lo e.space.areas
  pub keeps : (x : ℕ) (p : Page) → view l x ≡ some p → view e.space.areas x ≡ some p
  pub under : (x : ℕ) → x < addr → view e.space.areas x ≡ view l x
  pub missing : e.found ≡ none → e.space ≡ record { mm = mm; areas = l }
  pub there :
      (a : Area)
      → e.found ≡ some a
      → (view e.space.areas addr ≡ some (page_of a addr)) × (a.vm_start ≤ addr) × (addr < a.vm_end)

Extends-after :
    (addr lo : ℕ) (mm : Mm) (a : Area) (l : List Area) (e : Extended)
    → lo ≤ a.vm_start
    → IsArea a
    → a.vm_end ≤ addr
    → Extends a.vm_end addr mm l e
    → Extends lo addr mm (a ∷ l) (record e { space = record e.space { areas = a ∷ e.space.areas } })
Extends-after addr lo mm a l e from area under x = record {
  ordered = (from, area, x.ordered);
  keeps = λ y p shown. let kept = x.keeps y p in ground arith;
  under = λ y h. let same = x.under y h in ground arith;
  missing = λ z. ap (λ (s : Space). record s { areas = a ∷ s.areas }) (x.missing z);
  there = λ b z. let at_b = x.there b z in ground arith;
}

-- The search ends at its first area, which is there or cannot be.
Extends-same :
    (addr lo : ℕ) (mm : Mm) (a : Area) (l : List Area) (found : Option Area)
    → Ordered lo (a ∷ l)
    → (found ≡ none) ⊎ ((found ≡ some a) × (a.vm_start ≤ addr) × (addr < a.vm_end))
    → Extends lo addr mm
        (a ∷ l)
        (record { space = record { mm = mm; areas = a ∷ l }; found = found })
Extends-same addr lo mm a l found o at = record {
  ordered = o;
  keeps = λ y p shown. shown;
  under = λ y h. refl;
  missing = λ z. refl;
  there = λ b z. ground arith;
}

module _ (k : StackEnv) (mm : Mm) (prev : Option Area) (a : Area) (addr : ℕ)
    (aligned : addr % page_size ≡ 0) (low : addr < a.vm_start) (allows : Allows k prev a addr) where
  Extends-grown :
      (lo : ℕ) (l : List Area)
      → lo ≤ addr
      → Ordered lo (a ∷ l)
      → let g = grown k mm a addr (page_shr (a.vm_start - addr)) in
        Extends lo addr mm
          (a ∷ l)
          (record { space = record { mm = g.0; areas = g.1 ∷ l }; found = some g.1 })
  unfolding after growth
  Extends-grown lo l h (from, area, o) = record {
    ordered = (h, after-IsArea k mm prev a addr area aligned low allows, o);
    keeps = λ x p shown. after-keeps k mm prev a addr area aligned low allows l x p o shown;
    under = λ x under. after-below k mm prev a addr area aligned low allows l x under;
    missing = λ z. ground arith;
    there = λ b z. ground (arith, area.nonempty);
  }

extend-Extends :
    (k : StackEnv) (mm : Mm) (prev : Option Area) (addr lo : ℕ) (l : List Area)
    → addr % page_size ≡ 0
    → lo ≤ addr
    → Ordered lo l
    → Extends lo addr mm l (extend k mm prev addr l)
unfolding extend
extend-Extends k mm prev addr lo [] aligned h o = record {
  ordered = tt;
  keeps = λ x p e. e;
  under = λ x e. refl;
  missing = λ e. refl;
  there = λ a e. ground arith;
}
extend-Extends k mm prev addr lo (a ∷ l) aligned h (from, area, o) =
    let later = λ (p : a.vm_end ≤ addr).
      Extends-after addr lo mm a l _ from area p
        (extend-Extends k mm (some a) addr a.vm_end l aligned p o) in
    let same = Extends-same addr lo mm a l in
    let grows = λ (low : addr < a.vm_start) (allows : Allows k prev a addr).
      Extends-grown k mm prev a addr aligned low allows lo l h (from, area, o) in
    elim (expand_downwards-at k mm prev a addr aligned) [
      | inl (e, c) ↦ ground arith
      | inr (inl (there, c)) ↦ ground arith
      | inr (inr (low, allows, c)) ↦ ground arith
    ]

extend-Counts :
    (k : StackEnv) (mm : Mm) (prev : Option Area) (addr lo : ℕ) (l : List Area)
    (total locked count : ℕ)
    → addr % page_size ≡ 0
    → lo ≤ addr
    → Ordered lo l
    → total * page_size ≤ lo
    → locked * page_size ≤ lo
    → Counts total locked count (record { mm = mm; areas = l })
    → Counts total locked count (extend k mm prev addr l).space
unfolding extend after growth
extend-Counts k mm prev addr lo [] total locked count aligned h o under under' c = c
extend-Counts k mm prev addr lo (a ∷ l) total locked count aligned h (from, area, o) under under'
      c =
    let pages_fit : vma_pages a * page_size + lo ≤ a.vm_end =
      omega (arith, area.start_aligned, area.end_aligned, area.nonempty) in
    let later = λ (p : a.vm_end ≤ addr). Counts-after total locked count a _ (
      extend-Counts k mm (some a) addr a.vm_end l (total + vma_pages a)
        (locked + locked_pages (a ∷ [])) (count + 1) aligned p o (omega arith) (ground arith)
        (Counts-front total locked count a mm l c)) in
    let grows = λ (low : addr < a.vm_start) (allows : Allows k prev a addr).
      grown-Counts k mm prev a addr area aligned low allows total locked count l o (omega arith)
        (omega arith) c in
    elim (expand_downwards-at k mm prev a addr aligned) [
      | inl (e, result) ↦ ground arith
      | inr (inl (there, result)) ↦ ground arith
      | inr (inr (low, allows, result)) ↦ let grew = grows low allows in ground arith
    ]

-- A search of a well-formed address space that may grow a stack leaves it well-formed, with its
-- accounts right.
pub find_extend_vma_locked-IsValid :
    (k : StackEnv) (s : Space) (addr : ℕ)
    → IsValid s
    → IsValid (find_extend_vma_locked k s addr).space
unfolding find_extend_vma_locked
find_extend_vma_locked-IsValid k s addr v =
    let aligned : page_down addr % page_size ≡ 0 = omega arith in
    record {
      ordered =
          (extend-Extends k s.mm none (page_down addr) 0 s.areas aligned (omega arith)
            v.ordered).ordered;
      counts =
          extend-Counts k s.mm none (page_down addr) 0 s.areas 0 0 0 aligned (omega arith) v.ordered
            (omega arith) (omega arith) v.counts;
    }

-- A search of a well-formed address space for the page of an address finds no area and changes
-- nothing, or it finds an area that covers the page, and the page shows what the area has there.
-- In either case each address that showed a page shows the same page, and below the page searched
-- for nothing changes.
pub find_extend_vma_locked-extends :
    (k : StackEnv) (s : Space) (addr : ℕ)
    → IsValid s
    → let page = page_down addr in
      let e = find_extend_vma_locked k s addr in
      (((e.found ≡ none) × (e.space ≡ s))
        ⊎ ((a : Area) × (e.found ≡ some a)
            × (view e.space.areas page ≡ some (page_of a page))
            × (a.vm_start ≤ page)
            × (page < a.vm_end)))
      × Includes (view s.areas) (view e.space.areas)
      × SameBelow page (view s.areas) (view e.space.areas)
unfolding find_extend_vma_locked
find_extend_vma_locked-extends k s addr v =
    let x =
      extend-Extends k s.mm none (page_down addr) 0 s.areas (omega arith) (omega arith) v.ordered in
    (
      elim (Option-cases (extend k s.mm none (page_down addr) s.areas).found) [
        | inl e ↦ inl (e, x.missing e)
        | inr (a, e) ↦ let at = x.there a e in inr (a, e, at.0, at.1, at.2)
      ],
      x.keeps,
      x.under,
    )
