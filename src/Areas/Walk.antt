-- ===== src/Areas/Walk.antt =====
-- `do_vmi_munmap` over all areas: what it takes away, and what it keeps true.
use mathlib.Core.Path.{fun_ext}
use native.Mathlib.Decide.{ℕ_discrete}
use so2_202110206_2svac.Common.{
  ℕ, ◌+◌, ◌%◌, ◌≤◌, ◌<◌, ◌≡◌, ◌≢◌, ◌⊎◌, inl, inr, refl, List, [], ◌∷◌, arith,
}
use so2_202110206_2svac.Common.Word.{word, page_size, page_align}
use so2_202110206_2svac.Kernel.{Mm, enomem, einval}
use so2_202110206_2svac.Areas.{Area, AreaEnv, Space, below, above}
use so2_202110206_2svac.Areas.View.{
  Ordered, view, view-below, cut, below-IsArea, above-IsArea, view-split,
}
use so2_202110206_2svac.Areas.Unmap.{
  gather, finish_munmap, align_munmap, find_and_munmap, after, do_vmi_munmap,
}
use so2_202110206_2svac.Areas.Removal.{split_vma-cases, Regroups-split}
use so2_202110206_2svac.Areas.Prefix.{
  Cuts-after, Counts-after, Counts-front, Counts-split, Cuts-same, Cuts-weaken, Cuts-error,
}
use so2_202110206_2svac.Areas.Munmap.{Counts, Cuts, finish_munmap-Cuts, finish_munmap-Counts}

module _ (k : AreaEnv) (start end : ℕ) (order : start < end) (aligned : end % page_size ≡ 0)
    (start_aligned : start % page_size ≡ 0) where
  -- An area that the range starts in is split there.
  split-Cuts :
      (mm : Mm) (lo : ℕ) (a : Area) (l : List Area)
      → Ordered lo (a ∷ l)
      → a.vm_start < start
      → start < a.vm_end
      → Cuts lo start end
          (a ∷ l)
          (after (below a start) (finish_munmap k mm start end (gather k end (above a start ∷ l))))
  split-Cuts mm lo a l (h, area, o) from to =
      Cuts-same lo start end (a ∷ l) (below a start ∷ above a start ∷ l) _
        (view-split a start area start_aligned from to l)
        (Cuts-after lo start end (below a start) (above a start ∷ l) _ h
          (below-IsArea a start area start_aligned from to) (omega arith)
          (finish_munmap-Cuts k start end order aligned start_aligned mm (above a start ∷ l)
            (omega arith, above-IsArea a start area start_aligned from to, o)))

  split-Counts :
      (mm : Mm) (total locked count lo : ℕ) (a : Area) (l : List Area)
      → Ordered lo (a ∷ l)
      → a.vm_start < start
      → start < a.vm_end
      → Counts total locked count (record { mm = mm; areas = a ∷ l })
      → Counts total locked count
          (after (below a start) (
            finish_munmap k
              (record mm { map_count = mm.map_count + 1 })
              start
              end
              (gather k end (above a start ∷ l)))).space
  split-Counts mm total locked count lo a l o from to c =
      let mm' : Mm = record mm { map_count = mm.map_count + 1 } in
      let r = Regroups-split lo a l start o start_aligned from to in
      let s = Counts-split total locked count 1 lo mm (a ∷ l) _ r c in
      Counts-after total locked count (below a start) _ (
        finish_munmap-Counts k start end order aligned start_aligned mm' (above a start ∷ l) _ _ _
          (omega arith, above-IsArea a start o.1 start_aligned from to, o.2)
          (Counts-front total locked count (below a start) mm' (above a start ∷ l) s))

  align_munmap-Cuts :
      (mm : Mm) (lo : ℕ) (a : Area) (l : List Area)
      → lo ≤ start
      → Ordered lo (a ∷ l)
      → start < a.vm_end
      → Cuts lo start end (a ∷ l) (align_munmap k mm start end a l)
  unfolding align_munmap
  align_munmap-Cuts mm lo a l h o over =
      let whole = λ (p : start ≤ a.vm_start).
        Cuts-weaken lo start end (a ∷ l) _ h
          (finish_munmap-Cuts k start end order aligned start_aligned mm (a ∷ l) (p, o.1, o.2)) in
      let full = Cuts-error lo start end enomem mm (a ∷ l) o (omega arith) in
      let part = split-Cuts (record mm { map_count = mm.map_count + 1 }) lo a l o in
      elim (split_vma-cases k a start) [
        | inl e ↦ ground arith
        | inr (c, bad, e) ↦ let failed = Cuts-error lo start end c mm (a ∷ l) o bad in ground arith
      ]

  align_munmap-Counts :
      (mm : Mm) (total locked count lo : ℕ) (a : Area) (l : List Area)
      → lo ≤ start
      → Ordered lo (a ∷ l)
      → start < a.vm_end
      → Counts total locked count (record { mm = mm; areas = a ∷ l })
      → Counts total locked count (align_munmap k mm start end a l).space
  unfolding align_munmap
  align_munmap-Counts mm total locked count lo a l h o over c =
      let whole = λ (p : start ≤ a.vm_start).
        finish_munmap-Counts k start end order aligned start_aligned mm (a ∷ l) total locked count
          (p, o.1, o.2) c in
      let part = split-Counts mm total locked count lo a l o in
      elim (split_vma-cases k a start) [ inl e ↦ ground arith | inr (_, _, e) ↦ ground arith ]

  -- A range below all areas is empty already.
  beyond :
      (mm : Mm) (lo : ℕ) (a : Area) (l : List Area)
      → Ordered lo (a ∷ l)
      → end ≤ a.vm_start
      → Cuts lo start end (a ∷ l) (record { space = record { mm = mm; areas = a ∷ l }; code = 0 })
  beyond mm lo a l o p = record {
    ordered = o;
    done = λ z x. let under = view-below end x (a ∷ l) (p, o.1, o.2) in ground arith;
    failed = λ z x. refl;
  }

  find_and_munmap-Cuts :
      (mm : Mm) (lo : ℕ) (l : List Area)
      → lo ≤ start
      → Ordered lo l
      → Cuts lo start end l (find_and_munmap k mm start end l)
  unfolding find_and_munmap
  find_and_munmap-Cuts mm lo [] h o = record {
    ordered = tt;
    done = λ z x. ground arith;
    failed = λ z x. refl;
  }
  find_and_munmap-Cuts mm lo (a ∷ l) h o =
      let skip = λ (p : a.vm_end ≤ start).
        Cuts-after lo start end a l _ o.0 o.1 p (find_and_munmap-Cuts mm a.vm_end l p o.2) in
      let none_there = λ (p : end ≤ a.vm_start). beyond mm lo a l o p in
      let there = align_munmap-Cuts mm lo a l h o in ground arith

  find_and_munmap-Counts :
      (mm : Mm) (lo : ℕ) (l : List Area) (total locked count : ℕ)
      → lo ≤ start
      → Ordered lo l
      → Counts total locked count (record { mm = mm; areas = l })
      → Counts total locked count (find_and_munmap k mm start end l).space
  unfolding find_and_munmap
  find_and_munmap-Counts mm lo [] total locked count h o c = c
  find_and_munmap-Counts mm lo (a ∷ l) total locked count h o c =
      let skip = λ (p : a.vm_end ≤ start). Counts-after total locked count a _ (
        find_and_munmap-Counts mm a.vm_end l _ _ _ p o.2
          (Counts-front total locked count a mm l c)) in
      let there = align_munmap-Counts mm total locked count lo a l h o in ground arith

-- A well-formed address space: its areas lie in order and apart, and the descriptor has their
-- pages, those that are locked, and their number.
pub record IsValid (s : Space) : Type 0 where
  pub ordered : Ordered 0 s.areas
  pub counts : Counts 0 0 0 s

-- The call is refused, or its range is sound and the areas are searched.
pub do_vmi_munmap-cases :
    (k : AreaEnv) (s : Space) (start len : ℕ)
    → k.task_size + page_size ≤ word
    → (do_vmi_munmap k s start len ≡ record { space = s; code = einval })
      ⊎ ((do_vmi_munmap k s start len
            ≡ find_and_munmap k s.mm start (start + page_align len) s.areas)
          × (start < start + page_align len)
          × ((start + page_align len) % page_size ≡ 0)
          × (start % page_size ≡ 0))
unfolding do_vmi_munmap
do_vmi_munmap-cases k s start len small = ground arith

-- Whatever it is called with and however it ends, `do_vmi_munmap` leaves a well-formed address
-- space well-formed, if TASK_SIZE is at least a page below 2 ^ 64.
pub do_vmi_munmap-IsValid :
    (k : AreaEnv) (s : Space) (start len : ℕ)
    → k.task_size + page_size ≤ word
    → IsValid s
    → IsValid (do_vmi_munmap k s start len).space
do_vmi_munmap-IsValid k s start len small v = elim (do_vmi_munmap-cases k s start len small) [
  | inl e ↦ rw e v
  | inr (e, order, aligned, start_aligned) ↦
      let end = start + page_align len in
      rw e (record {
        ordered =
            (find_and_munmap-Cuts k start end order aligned start_aligned s.mm 0 s.areas
              (omega arith) v.ordered).ordered;
        counts =
            find_and_munmap-Counts k start end order aligned start_aligned s.mm 0 s.areas 0 0 0
              (omega arith) v.ordered v.counts;
      })
]

-- On a well-formed address space `do_vmi_munmap` takes from the map of addresses those of the
-- pages of the range, whatever areas it meets there, and returns 0; or it returns an error and
-- leaves every address as it was, though it may have split areas. TASK_SIZE is at least a page
-- below 2 ^ 64.
pub do_vmi_munmap-cuts :
    (k : AreaEnv) (s : Space) (start len : ℕ)
    → k.task_size + page_size ≤ word
    → IsValid s
    → let u = do_vmi_munmap k s start len in
      ((u.code ≡ 0) × (view u.space.areas ≡ cut start (start + page_align len) (view s.areas)))
      ⊎ ((u.code ≢ 0) × (view u.space.areas ≡ view s.areas))
do_vmi_munmap-cuts k s start len small v = elim (do_vmi_munmap-cases k s start len small) [
  | inl e ↦ rw e (inr (omega arith, refl))
  | inr (e, order, aligned, start_aligned) ↦
      let end = start + page_align len in
      let c =
        find_and_munmap-Cuts k start end order aligned start_aligned s.mm 0 s.areas (omega arith)
          v.ordered in
      rw e (elim (ℕ_discrete (find_and_munmap k s.mm start end s.areas).code 0) [
        | yes z ↦ inl (z, fun_ext (c.done z))
        | no z ↦ inr (z, fun_ext (c.failed z))
      ])
]
