-- ===== src/Areas/View.antt =====
-- The areas of a process seen as a map from addresses to what is there, and what makes them
-- well-formed.
use so2_202110206_2svac.Common.{
  ℕ, ◌+◌, ◌-◌, ◌/◌, ◌%◌, ◌≤◌, ◌<◌, ◌≡◌, refl, Bool, ◌&&◌, List, [], ◌∷◌, ◌++◌, Option, none, some,
  ltb, leb, if◌then◌else◌, arith,
}
use so2_202110206_2svac.Common.Word.{word, page_size}
use so2_202110206_2svac.Mmap.{has, vm_locked}
use so2_202110206_2svac.Areas.{Area, vma_pages, below, above}

-- What an address shows: flags, and a page of a file or of anonymous memory.
pub record Page : Type 0 where
  pub flags : ℕ
  pub file : Option ℕ
  pub index : ℕ

abbrev pub inside : ℕ → ℕ → ℕ → Bool
inside lo hi x = leb lo x && ltb x hi

abbrev pub page_of : Area → ℕ → Page
page_of a x = record {
  flags = a.vm_flags;
  file = a.vm_file;
  index = a.vm_pgoff + (x - a.vm_start) / page_size;
}

abbrev pub view : List Area → ℕ → Option Page
view [] x = none
view (a ∷ more) x = if inside a.vm_start a.vm_end x then some (page_of a x) else view more x

-- The view with a range taken out.
abbrev pub cut : ℕ → ℕ → (ℕ → Option Page) → ℕ → Option Page
cut lo hi v x = if inside lo hi x then none else v x

-- What the first view shows, the second one shows as well.
abbrev pub Includes : (ℕ → Option Page) → (ℕ → Option Page) → Type 0
Includes v w = (x : ℕ) (p : Page) → v x ≡ some p → w x ≡ some p

abbrev pub SameBelow : ℕ → (ℕ → Option Page) → (ℕ → Option Page) → Type 0
SameBelow addr v w = (x : ℕ) → x < addr → w x ≡ v x

-- Whole pages, at least one, whose page numbers do not wrap.
pub record IsArea (a : Area) : Type 0 where
  pub start_aligned : a.vm_start % page_size ≡ 0
  pub end_aligned : a.vm_end % page_size ≡ 0
  pub nonempty : a.vm_start < a.vm_end
  pub bounded : a.vm_end < word
  pub fits : a.vm_pgoff + vma_pages a < word

pub IsArea-flags : (a : Area) (f : ℕ) → IsArea a → IsArea (record a { vm_flags = f })
IsArea-flags a f area = record {
  start_aligned = area.start_aligned;
  end_aligned = area.end_aligned;
  nonempty = area.nonempty;
  bounded = area.bounded;
  fits = area.fits;
}

-- Areas in the order of addresses, from an address on, that do not overlap.
abbrev pub Ordered : ℕ → List Area → Type 0
Ordered lo [] = Unit {0}
Ordered lo (a ∷ more) = (lo ≤ a.vm_start) × IsArea a × Ordered a.vm_end more

pub Ordered-weaken : (lo lo' : ℕ) (l : List Area) → lo' ≤ lo → Ordered lo l → Ordered lo' l
Ordered-weaken lo lo' [] h o = tt
Ordered-weaken lo lo' (a ∷ more) h o = (omega (arith, o.0), o.1, o.2)

-- Below the first area there is nothing.
pub view-below : (lo x : ℕ) (l : List Area) → Ordered lo l → x < lo → view l x ≡ none
view-below lo x [] o h = refl
view-below lo x (a ∷ more) (from, area, o) h =
    ground (arith, area.nonempty, view-below a.vm_end x more o)

module _ (a : Area) (addr : ℕ) (area : IsArea a) (aligned : addr % page_size ≡ 0)
    (lo : a.vm_start < addr) (hi : addr < a.vm_end) where
  pub below-IsArea : IsArea (below a addr)
  below-IsArea = record {
    start_aligned = area.start_aligned;
    end_aligned = aligned;
    nonempty = lo;
    bounded = omega (arith, area.bounded);
    fits = omega (arith, area.fits, area.start_aligned, area.end_aligned);
  }

  pub above-IsArea : IsArea (above a addr)
  above-IsArea = record {
    start_aligned = aligned;
    end_aligned = area.end_aligned;
    nonempty = hi;
    bounded = area.bounded;
    fits = omega (arith, area.fits, area.start_aligned, area.end_aligned);
  }

  index-above :
      (x : ℕ) → addr ≤ x → x < a.vm_end → (page_of (above a addr) x).index ≡ (page_of a x).index
  index-above x from to = omega (arith, area.fits, area.start_aligned, area.end_aligned)

  pub view-split :
      (more : List Area) (x : ℕ) → view (below a addr ∷ above a addr ∷ more) x ≡ view (a ∷ more) x
  view-split more x = ground (arith, index-above x)

  pub pages-split : vma_pages (below a addr) + vma_pages (above a addr) ≡ vma_pages a
  pages-split = omega (arith, area.start_aligned, area.end_aligned)

-- The pages of all areas.
abbrev pub pages : List Area → ℕ
pages [] = 0
pages (a ∷ more) = vma_pages a + pages more

abbrev pub locked_pages_of : Area → ℕ
locked_pages_of a = if has a.vm_flags vm_locked then vma_pages a else 0

-- The pages of the locked ones.
abbrev pub locked_pages : List Area → ℕ
locked_pages [] = 0
locked_pages (a ∷ more) = locked_pages_of a + locked_pages more

module _ (l l' : List Area) where
  pub pages-append : pages (l ++ l') ≡ pages l + pages l'
  pages-append = go l
    where
      go : (m : List Area) → pages (m ++ l') ≡ pages m + pages l'
      go [] = omega arith
      go (a ∷ m) = omega (arith, go m)

  pub locked_pages-append : locked_pages (l ++ l') ≡ locked_pages l + locked_pages l'
  locked_pages-append = go l
    where
      go : (m : List Area) → locked_pages (m ++ l') ≡ locked_pages m + locked_pages l'
      go [] = omega arith
      go (a ∷ m) = omega (arith, go m)
