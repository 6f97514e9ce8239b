-- ===== src/Regions/Fills.antt =====
-- The areas of a process once a range of addresses that showed nothing shows a mapping, and the
-- forms that its area can have: alone, or taken in by the area before it, the one after it or both.
use so2_202110206_2svac.Common.{
  ℕ, ◌+◌, ◌-◌, ◌/◌, ◌≤◌, ◌<◌, ◌≡◌, List, ◌∷◌, Option, none, some, length, arith, if◌then◌else◌,
}
use so2_202110206_2svac.Common.Word.{page_size}
use so2_202110206_2svac.Mmap.{without}
use so2_202110206_2svac.Areas.{Area, vma_pages}
use so2_202110206_2svac.Areas.View.{
  Page, IsArea, Ordered, inside, page_of, view, pages, locked_pages, locked_pages_of,
}
use so2_202110206_2svac.Regions.{vm_softdirty}
use so2_202110206_2svac.Regions.Flags.{Alike, locked_alike}

-- What an address shows, but for the mark VM_SOFTDIRTY.
abbrev pub unmarked : Option Page → Option Page
unmarked none = none
unmarked (some p) = some (record p { flags = without p.flags vm_softdirty })

-- A view in which the range of an area shows its pages.
abbrev pub fill : Area → (ℕ → Option Page) → ℕ → Option Page
fill b v x = if inside b.vm_start b.vm_end x then some (page_of b x) else v x

-- What areas show, and what they show once another one fills its range, but for the mark.
abbrev pub marked_view : List Area → ℕ → Option Page
marked_view l x = unmarked (view l x)

abbrev pub marked_fill : Area → List Area → ℕ → Option Page
marked_fill b l x = unmarked (fill b (view l) x)

-- Areas from an address on, once an area fills its range.
pub record Fills (lo : ℕ) (b : Area) (l m : List Area) (count count' : ℕ) : Type 0 where
  pub ordered : Ordered lo m
  pub filled : (x : ℕ) → unmarked (view m x) ≡ unmarked (fill b (view l) x)
  pub all_pages : pages m ≡ pages l + vma_pages b
  pub all_locked : locked_pages m ≡ locked_pages l + locked_pages_of b
  pub counted : length m + count ≡ length l + count'

-- An area that ends where another starts, and shows what the other one would show there, and one
-- that starts where the other ends.
pub record Precedes (prev b : Area) : Type 0 where
  pub ends : prev.vm_end ≡ b.vm_start
  pub same : Alike prev.vm_flags b.vm_flags
  pub file : prev.vm_file ≡ b.vm_file
  pub offset : prev.vm_pgoff + vma_pages prev ≡ b.vm_pgoff

pub record Follows (next b : Area) : Type 0 where
  pub starts : next.vm_start ≡ b.vm_end
  pub same : Alike next.vm_flags b.vm_flags
  pub file : next.vm_file ≡ b.vm_file
  pub offset : b.vm_pgoff + vma_pages b ≡ next.vm_pgoff

-- The same with an area in front.
pub Fills-front :
    (lo : ℕ) (a b : Area) (l m : List Area) (count count' : ℕ)
    → lo ≤ a.vm_start
    → IsArea a
    → a.vm_end ≤ b.vm_start
    → Fills a.vm_end b l m count count'
    → Fills lo b (a ∷ l) (a ∷ m) count count'
Fills-front lo a b l m count count' h area under f = record {
  ordered = (h, area, f.ordered);
  filled = λ x. let rest = f.filled x in ground arith;
  all_pages = omega (arith, f.all_pages);
  all_locked = omega (arith, f.all_locked);
  counted = omega (arith, f.counted);
}

module _ (lo : ℕ) (b : Area) (flags : ℕ) (more : List Area) (area : IsArea b)
    (alike : Alike flags b.vm_flags) (count : ℕ) where
  -- A new area.
  pub Fills-new :
      lo ≤ b.vm_start
      → Ordered b.vm_end more
      → Fills lo b more (record b { vm_flags = flags } ∷ more) count (count + 1)
  Fills-new h o =
      let lock = locked_alike flags b.vm_flags alike in
      record {
        ordered = (
          h,
          record {
            start_aligned = area.start_aligned;
            end_aligned = area.end_aligned;
            nonempty = area.nonempty;
            bounded = area.bounded;
            fits = area.fits;
          },
          o,
        );
        filled = λ x. ground arith;
        all_pages = omega arith;
        all_locked = ground arith;
        counted = omega arith;
      }

  -- The area before, grown upwards.
  pub Fills-prev :
      (prev : Area)
      → Ordered lo (prev ∷ more)
      → Ordered b.vm_end more
      → Precedes prev b
      → Fills lo b
          (prev ∷ more)
          (record prev { vm_end = b.vm_end; vm_flags = flags } ∷ more)
          count
          count
  Fills-prev prev (h, before, past) o joins =
      let lock = locked_alike flags b.vm_flags alike in
      let lock' = locked_alike prev.vm_flags b.vm_flags joins.same in
      let grown : vma_pages (record prev { vm_end = b.vm_end }) ≡ vma_pages prev + vma_pages b =
        omega (
          arith, area.start_aligned, area.end_aligned, area.nonempty, before.nonempty,
          before.start_aligned,
        ) in
      let index = λ (x : ℕ) (p : b.vm_start ≤ x).
        let at : prev.vm_pgoff + (x - prev.vm_start) / page_size
            ≡ b.vm_pgoff + (x - b.vm_start) / page_size =
          omega (arith, before.start_aligned, before.end_aligned, before.nonempty) in
        at in
      record {
        ordered = (
          h,
          record {
            start_aligned = before.start_aligned;
            end_aligned = area.end_aligned;
            nonempty = omega (arith, before.nonempty, area.nonempty);
            bounded = area.bounded;
            fits = omega (arith, area.fits);
          },
          o,
        );
        filled = λ x. ground (arith, index x, before.nonempty, area.nonempty);
        all_pages = omega arith;
        all_locked = ground arith;
        counted = omega arith;
      }

  -- The area after, grown downwards.
  pub Fills-next :
      (next : Area)
      → lo ≤ b.vm_start
      → IsArea next
      → Ordered next.vm_end more
      → Follows next b
      → Fills lo b
          (next ∷ more)
          (record next { vm_start = b.vm_start; vm_pgoff = b.vm_pgoff; vm_flags = flags } ∷ more)
          count
          count
  Fills-next next h after o joins =
      let lock = locked_alike flags b.vm_flags alike in
      let lock' = locked_alike next.vm_flags b.vm_flags joins.same in
      let grown : vma_pages (record next { vm_start = b.vm_start }) ≡ vma_pages next + vma_pages b =
        omega (
          arith, area.start_aligned, area.end_aligned, area.nonempty, after.nonempty,
          after.end_aligned,
        ) in
      let index = λ (x : ℕ) (p : next.vm_start ≤ x).
        let at : b.vm_pgoff + (x - b.vm_start) / page_size
            ≡ next.vm_pgoff + (x - next.vm_start) / page_size =
          omega (arith, area.start_aligned, area.end_aligned, area.nonempty) in
        at in
      record {
        ordered = (
          h,
          record {
            start_aligned = area.start_aligned;
            end_aligned = after.end_aligned;
            nonempty = omega (arith, after.nonempty, area.nonempty);
            bounded = after.bounded;
            fits = omega (arith, after.fits);
          },
          o,
        );
        filled = λ x. ground (arith, index x, after.nonempty, area.nonempty);
        all_pages = omega arith;
        all_locked = ground arith;
        counted = omega arith;
      }

  -- Both of them, as one.
  pub Fills-both :
      (prev next : Area)
      → lo ≤ prev.vm_start
      → IsArea prev
      → IsArea next
      → Ordered next.vm_end more
      → Precedes prev b
      → Follows next b
      → 0 < count
      → Fills lo b
          (prev ∷ next ∷ more)
          (record prev { vm_end = next.vm_end; vm_flags = flags } ∷ more)
          count
          (count - 1)
  Fills-both prev next h before after o joins joins' positive =
      let lock = locked_alike flags b.vm_flags alike in
      let lock' = locked_alike prev.vm_flags b.vm_flags joins.same in
      let lock'' = locked_alike next.vm_flags b.vm_flags joins'.same in
      let grown : vma_pages (record prev { vm_end = next.vm_end })
          ≡ vma_pages prev + vma_pages b + vma_pages next =
        omega (
          arith, area.start_aligned, area.end_aligned, area.nonempty, before.nonempty,
          before.start_aligned, after.nonempty, after.end_aligned,
        ) in
      let index = λ (x : ℕ) (p : b.vm_start ≤ x).
        let at : prev.vm_pgoff + (x - prev.vm_start) / page_size
            ≡ b.vm_pgoff + (x - b.vm_start) / page_size =
          omega (arith, before.start_aligned, before.end_aligned, before.nonempty) in
        at in
      let index' = λ (x : ℕ) (p : next.vm_start ≤ x).
        let at : prev.vm_pgoff + (x - prev.vm_start) / page_size
            ≡ next.vm_pgoff + (x - next.vm_start) / page_size =
          omega (
            arith, before.start_aligned, before.end_aligned, before.nonempty, area.end_aligned,
            area.nonempty,
          ) in
        at in
      record {
        ordered = (
          h,
          record {
            start_aligned = before.start_aligned;
            end_aligned = after.end_aligned;
            nonempty = omega (arith, before.nonempty, area.nonempty, after.nonempty);
            bounded = after.bounded;
            fits = omega (arith, after.fits);
          },
          o,
        );
        filled =
            λ x. ground (arith, index x, index' x, before.nonempty, area.nonempty, after.nonempty);
        all_pages = omega arith;
        all_locked = ground arith;
        counted = omega arith;
      }
