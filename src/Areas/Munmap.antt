-- ===== src/Areas/Munmap.antt =====
-- `do_vmi_munmap` as an operation on the map of addresses, and the accounts that it keeps.
use so2_202110206_2svac.Common.{
  ℕ, ◌+◌, ◌-◌, ◌%◌, ◌≤◌, ◌<◌, ◌≡◌, ◌≢◌, refl, List, [], ◌∷◌, ◌++◌, length, arith, length-append,
}
use so2_202110206_2svac.Common.Word.{word, page_size, add64, sub64}
use so2_202110206_2svac.Kernel.{Mm}
use so2_202110206_2svac.Areas.{Area, AreaEnv, Space, vma_pages, vm_stat_account}
use so2_202110206_2svac.Areas.View.{
  Ordered, Ordered-weaken, view, view-below, cut, pages, locked_pages, pages-append,
  locked_pages-append,
}
use so2_202110206_2svac.Areas.Unmap.{Gathered, Unmapped, gather, remove_mt, finish_munmap}
use so2_202110206_2svac.Areas.Removal.{Regroups, gather-Regroups, gather-Ordered, gather-view}

-- The accounts of a memory descriptor, over what lies in front of some areas.
pub record Counts (total locked count : ℕ) (s : Space) : Type 0 where
  pub all_pages : s.mm.total_vm ≡ total + pages s.areas
  pub all_locked : s.mm.locked_vm ≡ locked + locked_pages s.areas
  pub all_areas : s.mm.map_count ≡ count + length s.areas
  pub small : s.mm.total_vm < word
  pub small_locked : s.mm.locked_vm < word

-- What a call does to areas from an address on: its error leaves the view, and its success cuts
-- the range out of it.
pub record Cuts (lo start end : ℕ) (l : List Area) (u : Unmapped) : Type 0 where
  pub ordered : Ordered lo u.space.areas
  pub done : u.code ≡ 0 → (x : ℕ) → view u.space.areas x ≡ cut start end (view l) x
  pub failed : u.code ≢ 0 → (x : ℕ) → view u.space.areas x ≡ view l x

pub vm_stat_account-total_vm :
    (k : AreaEnv) (mm : Mm) (flags n : ℕ)
    → let m = vm_stat_account k mm flags n in
      (m.total_vm ≡ add64 mm.total_vm n)
      × (m.locked_vm ≡ mm.locked_vm)
      × (m.map_count ≡ mm.map_count)
      × (m.brk ≡ mm.brk)
unfolding vm_stat_account
vm_stat_account-total_vm k mm flags n = ground arith

remove_mt-total_vm :
    (k : AreaEnv) (mm : Mm) (l : List Area)
    → pages l ≤ mm.total_vm
    → mm.total_vm < word
    → let m = remove_mt k mm l in
      (m.total_vm ≡ mm.total_vm - pages l)
      × (m.locked_vm ≡ mm.locked_vm)
      × (m.map_count ≡ mm.map_count)
      × (m.brk ≡ mm.brk)
unfolding remove_mt
remove_mt-total_vm k mm [] h small = (omega arith, refl, refl, refl)
remove_mt-total_vm k mm (a ∷ l) h small =
    let m = vm_stat_account-total_vm k mm a.vm_flags (sub64 0 (vma_pages a)) in
    let more =
      remove_mt-total_vm k (vm_stat_account k mm a.vm_flags (sub64 0 (vma_pages a))) l
        (omega (arith, m.0)) (omega (arith, m.0)) in
    ground arith

module _ (k : AreaEnv) (start end : ℕ) (order : start < end) (aligned : end % page_size ≡ 0)
    (start_aligned : start % page_size ≡ 0) where
  -- After a loop without an error the rest shows what lies outside the range.
  cut-gather :
      (l : List Area) (x : ℕ)
      → Ordered start l
      → (gather k end l).code ≡ 0
      → view (gather k end l).rest x ≡ cut start end (view l) x
  cut-gather l x o done =
      let past =
        view-below end x (gather k end l).rest (gather-Ordered k end aligned start l o done) in
      let under = view-below start x l o in
      let same = gather-view k end aligned start l x o done in ground arith

  pub finish_munmap-Cuts :
      (mm : Mm) (l : List Area)
      → Ordered start l
      → Cuts start start end l (finish_munmap k mm start end (gather k end l))
  unfolding finish_munmap
  finish_munmap-Cuts mm l o = record { ordered = ordered; done = done; failed = failed }
    where
      g : Gathered
      g = gather k end l

      r : Regroups start l (g.detached ++ g.rest) g.splits
      r = gather-Regroups k end aligned start l o

      ordered : Ordered start (finish_munmap k mm start end g).space.areas
      ordered =
          let kept = r.ordered in
          let weaker = Ordered-weaken end start g.rest (omega arith) in
          let past = gather-Ordered k end aligned start l o in ground arith

      done :
          (finish_munmap k mm start end g).code ≡ 0
          → (x : ℕ) → view (finish_munmap k mm start end g).space.areas x ≡ cut start end (view l) x
      done z x = ground (arith, cut-gather l x o)

      failed :
          (finish_munmap k mm start end g).code ≢ 0
          → (x : ℕ) → view (finish_munmap k mm start end g).space.areas x ≡ view l x
      failed z x = ground (arith, r.same_view x)

  pub finish_munmap-Counts :
      (mm : Mm) (l : List Area) (total locked count : ℕ)
      → Ordered start l
      → Counts total locked count (record { mm = mm; areas = l })
      → Counts total locked count (finish_munmap k mm start end (gather k end l)).space
  unfolding finish_munmap
  finish_munmap-Counts mm l total locked count o c = ground (arith, undone, removed)
    where
      g : Gathered
      g = gather k end l

      r : Regroups start l (g.detached ++ g.rest) g.splits
      r = gather-Regroups k end aligned start l o

      split_mm : Mm
      split_mm = record mm { map_count = mm.map_count + g.splits }

      undone : Counts total locked count (record { mm = split_mm; areas = g.detached ++ g.rest })
      undone = record {
        all_pages = omega (arith, c.all_pages, r.same_pages);
        all_locked = omega (arith, c.all_locked, r.same_locked);
        all_areas = omega (arith, c.all_areas, r.counted);
        small = c.small;
        small_locked = c.small_locked;
      }

      left_mm : Mm
      left_mm = record split_mm {
        locked_vm = sub64 mm.locked_vm (locked_pages g.detached);
        map_count = split_mm.map_count - length g.detached;
      }

      removed :
          Counts total locked count (record { mm = remove_mt k left_mm g.detached; areas = g.rest })
      removed =
          let p = pages-append g.detached g.rest in
          let q = locked_pages-append g.detached g.rest in
          let n = length-append g.detached g.rest in
          let m =
            remove_mt-total_vm k left_mm g.detached (omega (arith, undone.all_pages, p)) c.small in
          record {
            all_pages = omega (arith, m.0, undone.all_pages, p);
            all_locked = omega (arith, m.1, undone.all_locked, q, undone.small_locked);
            all_areas = omega (arith, m.2, undone.all_areas, n);
            small = omega (arith, m.0, c.small);
            small_locked = omega (arith, m.1, c.small_locked);
          }
