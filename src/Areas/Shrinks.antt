-- ===== src/Areas/Shrinks.antt =====
-- `do_vmi_munmap` adds no pages and leaves the break, as `brk` relies on when it shrinks.
use so2_202110206_2svac.Common.{
  ℕ, ◌+◌, ◌-◌, ◌%◌, ◌≤◌, ◌<◌, ◌≡◌, refl, inl, inr, List, [], ◌∷◌, length, arith, ◌∙◌,
}
use so2_202110206_2svac.Common.Word.{word, page_size, sub64, page_align}
use so2_202110206_2svac.Kernel.{Mm}
use so2_202110206_2svac.Areas.{Area, AreaEnv, Space, vma_pages, above, vm_stat_account}
use so2_202110206_2svac.Areas.View.{
  Ordered, above-IsArea, pages, locked_pages, pages-append, pages-split,
}
use so2_202110206_2svac.Areas.Unmap.{
  Unmapped, gather, remove_mt, finish_munmap, align_munmap, find_and_munmap, do_vmi_munmap,
}
use so2_202110206_2svac.Areas.Removal.{split_vma-cases, gather-Regroups}
use so2_202110206_2svac.Areas.Munmap.{vm_stat_account-total_vm}
use so2_202110206_2svac.Areas.Walk.{IsValid, do_vmi_munmap-IsValid, do_vmi_munmap-cases}

-- A call that adds no pages to some areas and leaves the break.
Shrinks : Mm → List Area → Unmapped → Type 0
Shrinks mm l u = (pages u.space.areas ≤ pages l) × (u.space.mm.brk ≡ mm.brk)

remove_mt-brk : (k : AreaEnv) (mm : Mm) (l : List Area) → (remove_mt k mm l).brk ≡ mm.brk
unfolding remove_mt
remove_mt-brk k mm [] = refl
remove_mt-brk k mm (a ∷ l) =
    remove_mt-brk k (vm_stat_account k mm a.vm_flags (sub64 0 (vma_pages a))) l
    ∙ (vm_stat_account-total_vm k mm a.vm_flags (sub64 0 (vma_pages a))).3

module _ (k : AreaEnv) (start end : ℕ) (aligned : end % page_size ≡ 0)
    (start_aligned : start % page_size ≡ 0) (order : start < end) where
  finish_munmap-Shrinks :
      (mm : Mm) (lo : ℕ) (l : List Area)
      → Ordered lo l
      → Shrinks mm l (finish_munmap k mm start end (gather k end l))
  unfolding finish_munmap Shrinks
  finish_munmap-Shrinks mm lo l o =
      let g = gather k end l in
      let regrouped = gather-Regroups k end aligned lo l o in
      let both = pages-append g.detached g.rest in
      let split_mm : Mm = record mm { map_count = mm.map_count + g.splits } in
      let brk =
        remove_mt-brk k
          (record split_mm {
            locked_vm = sub64 mm.locked_vm (locked_pages g.detached);
            map_count = split_mm.map_count - length g.detached;
          })
          g.detached in
      ground (arith, regrouped.same_pages)

  align_munmap-Shrinks :
      (mm : Mm) (lo : ℕ) (a : Area) (l : List Area)
      → Ordered lo (a ∷ l)
      → start < a.vm_end
      → Shrinks mm (a ∷ l) (align_munmap k mm start end a l)
  unfolding align_munmap Shrinks
  align_munmap-Shrinks mm lo a l o over =
      let whole = finish_munmap-Shrinks mm lo (a ∷ l) o in
      let area = o.1 in
      let part = λ (from : a.vm_start < start).
        finish_munmap-Shrinks (record mm { map_count = mm.map_count + 1 }) start (above a start ∷ l)
          (omega arith, above-IsArea a start area start_aligned from over, o.2) in
      let split = pages-split a start area start_aligned in
      elim (split_vma-cases k a start) [ inl e ↦ ground arith | inr (_, _, e) ↦ ground arith ]

  find_and_munmap-Shrinks :
      (mm : Mm) (lo : ℕ) (l : List Area)
      → Ordered lo l
      → Shrinks mm l (find_and_munmap k mm start end l)
  unfolding find_and_munmap Shrinks
  find_and_munmap-Shrinks mm lo [] o = (omega arith, refl)
  find_and_munmap-Shrinks mm lo (a ∷ l) o =
      let further = find_and_munmap-Shrinks mm a.vm_end l o.2 in
      let there = align_munmap-Shrinks mm lo a l o in ground arith

-- On a well-formed address space, with TASK_SIZE at least a page below 2 ^ 64, `do_vmi_munmap`
-- never raises the count of pages, and it leaves the break alone.
pub do_vmi_munmap-shrinks :
    (k : AreaEnv) (s : Space) (start len : ℕ)
    → k.task_size + page_size ≤ word
    → IsValid s
    → let u = do_vmi_munmap k s start len in
      (u.space.mm.total_vm ≤ s.mm.total_vm) × (u.space.mm.brk ≡ s.mm.brk)
unfolding Shrinks
do_vmi_munmap-shrinks k s start len small v =
    let after = do_vmi_munmap-IsValid k s start len small v in
    elim (do_vmi_munmap-cases k s start len small) [
      | inl e ↦ ground arith
      | inr (e, order, aligned, start_aligned) ↦
          let end = start + page_align len in
          let shrinks =
            find_and_munmap-Shrinks k start end aligned start_aligned order s.mm 0 s.areas
              v.ordered in
          ground (arith, after.counts.all_pages, v.counts.all_pages)
    ]
