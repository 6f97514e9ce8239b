-- ===== src/Areas/Growth.antt =====
-- The growth of one stack by `expand_downwards`: when it is allowed, and what it keeps.
use so2_202110206_2svac.Common.{
  ℕ, ◌+◌, ◌-◌, ◌*◌, ◌%◌, ◌≤◌, ◌<◌, ◌≡◌, ◌⊎◌, true, false, List, [], ◌∷◌, if◌then◌else◌, arith, some,
  Option,
}
use so2_202110206_2svac.Common.Result.{ok, err}
use so2_202110206_2svac.Common.Word.{word, page_size, add64, page_shr}
use so2_202110206_2svac.Kernel.{Mm}
use so2_202110206_2svac.Mmap.{has, vm_grows, vm_locked}
use so2_202110206_2svac.Areas.{Area, vma_pages}
use so2_202110206_2svac.Areas.View.{
  Page, IsArea, Ordered, view, view-below, pages, locked_pages, page_of,
}
use so2_202110206_2svac.Areas.Munmap.{Counts, vm_stat_account-total_vm}
use so2_202110206_2svac.Areas.Stack.{
  StackEnv, page_down, acct_stack_growth, too_close, grown, expand_downwards,
}

-- What a growth that is allowed has been tested for.
pub record Allows (k : StackEnv) (prev : Option Area) (a : Area) (address : ℕ) : Type 0 where
  pub grows : has a.vm_flags vm_grows ≡ true
  pub apart : too_close k prev address ≡ false
  pub in_limit : a.vm_end - address ≤ k.rlimit_stack
  pub offset : page_shr (a.vm_start - address) ≤ a.vm_pgoff
  pub not_low : k.kernel.mmap_min_addr ≤ address

-- `expand_downwards` fails, or finds the area grown already, or grows it as the limits allow.
pub expand_downwards-cases :
    (k : StackEnv) (mm : Mm) (prev : Option Area) (a : Area) (addr : ℕ)
    → let address = page_down addr in
      ((e : ℕ) × (expand_downwards k mm prev a addr ≡ err e))
      ⊎ ((a.vm_start ≤ address) × (expand_downwards k mm prev a addr ≡ ok (mm, a)))
      ⊎ ((address < a.vm_start)
          × Allows k prev a address
          × (expand_downwards k mm prev a addr
              ≡ ok (grown k mm a address (page_shr (a.vm_start - address)))))
unfolding expand_downwards acct_stack_growth
expand_downwards-cases k mm prev a addr = ground arith

-- The same at an address of a page.
pub expand_downwards-at :
    (k : StackEnv) (mm : Mm) (prev : Option Area) (a : Area) (addr : ℕ)
    → addr % page_size ≡ 0
    → ((e : ℕ) × (expand_downwards k mm prev a addr ≡ err e))
      ⊎ ((a.vm_start ≤ addr) × (expand_downwards k mm prev a addr ≡ ok (mm, a)))
      ⊎ ((addr < a.vm_start)
          × Allows k prev a addr
          × (expand_downwards k mm prev a addr
              ≡ ok (grown k mm a addr (page_shr (a.vm_start - addr)))))
expand_downwards-at k mm prev a addr aligned =
    let down : page_down addr ≡ addr = omega arith in
    rw down at (expand_downwards-cases k mm prev a addr)

-- The pages of areas that lie in order fit the addresses.
pub pages-bound :
    (lo : ℕ) (l : List Area) → lo ≤ word → Ordered lo l → lo + pages l * page_size ≤ word
pages-bound lo [] h o = omega arith
pages-bound lo (a ∷ l) h (from, area, o) =
    let more = pages-bound a.vm_end l (omega (arith, area.bounded)) o in
    omega (arith, more, area.start_aligned, area.end_aligned, area.nonempty, from)

pub locked_pages-le : (l : List Area) → locked_pages l ≤ pages l
locked_pages-le [] = omega arith
locked_pages-le (a ∷ l) = ground (arith, locked_pages-le l)

module _ (k : StackEnv) (mm : Mm) (prev : Option Area) (a : Area) (addr : ℕ) (area : IsArea a)
    (aligned : addr % page_size ≡ 0) (low : addr < a.vm_start) (allows : Allows k prev a addr) where
  unfoldable pub growth : ℕ
  growth = page_shr (a.vm_start - addr)

  unfoldable pub after : Area
  after = (grown k mm a addr growth).1

  pub after-IsArea : IsArea after
  unfolding after growth
  after-IsArea = record {
    start_aligned = aligned;
    end_aligned = area.end_aligned;
    nonempty = omega (arith, area.nonempty);
    bounded = area.bounded;
    fits = omega (arith, area.fits, area.start_aligned, area.end_aligned, allows.offset);
  }

  pub after-pages : vma_pages after ≡ vma_pages a + growth
  unfolding after growth
  after-pages = omega (arith, area.start_aligned, area.end_aligned)

  after-index : (x : ℕ) → a.vm_start ≤ x → (page_of after x).index ≡ (page_of a x).index
  unfolding after growth
  after-index x from = omega (arith, area.start_aligned, aligned, allows.offset)

  -- What the area showed it still shows.
  pub after-keeps :
      (more : List Area) (x : ℕ) (p : Page)
      → Ordered a.vm_end more
      → view (a ∷ more) x ≡ some p
      → view (after ∷ more) x ≡ some p
  unfolding after growth
  after-keeps more x p o h =
      let same = after-index x in
      let apart = view-below a.vm_end x more o in ground (arith, area.nonempty)

  pub after-below :
      (more : List Area) (x : ℕ) → x < addr → view (after ∷ more) x ≡ view (a ∷ more) x
  unfolding after growth
  after-below more x h = ground arith

  pub grown-Counts :
      (total locked count : ℕ) (more : List Area)
      → Ordered a.vm_end more
      → total * page_size ≤ addr
      → locked * page_size ≤ addr
      → Counts total locked count (record { mm = mm; areas = a ∷ more })
      → Counts total locked count
          (record { mm = (grown k mm a addr growth).0; areas = after ∷ more })
  unfolding after growth
  grown-Counts total locked count more o under under' c =
      let locked_mm : Mm =
        if has a.vm_flags vm_locked
        then record mm { locked_vm = add64 mm.locked_vm growth }
        else mm in
      let counted = vm_stat_account-total_vm k.area_env locked_mm a.vm_flags growth in
      let all = pages-bound a.vm_end more (omega (arith, area.bounded)) o in
      let some_locked = locked_pages-le more in
      let grows = after-pages in
      let fits : total + (vma_pages after + pages more) < word =
        omega (arith, after-IsArea.nonempty, area.bounded) in
      record {
        all_pages = ground (arith, counted, c.all_pages);
        all_locked = ground (arith, counted, c.all_locked);
        all_areas = ground (arith, counted, c.all_areas);
        small = ground (arith, counted, c.small);
        small_locked = ground (arith, counted, c.small_locked);
      }
