-- ===== src/Areas/Removal.antt =====
-- What `do_vmi_munmap` does to the map of addresses, on success and on every failure.
use so2_202110206_2svac.Common.{
  ℕ, ◌+◌, ◌%◌, ◌≤◌, ◌<◌, ◌≡◌, ◌≢◌, ◌⊎◌, inl, inr, refl, List, [], ◌∷◌, ◌++◌, length, arith,
}
use so2_202110206_2svac.Common.Result.{ok, err}
use so2_202110206_2svac.Common.Word.{page_size}
use so2_202110206_2svac.Areas.{Area, AreaEnv, split_vma, below, above}
use so2_202110206_2svac.Areas.View.{
  IsArea, Ordered, view, pages, locked_pages, below-IsArea, above-IsArea, view-split, pages-split,
}
use so2_202110206_2svac.Areas.Unmap.{gather, gather_last}

pub split_vma-cases :
    (k : AreaEnv) (a : Area) (addr : ℕ)
    → (split_vma k a addr ≡ ok (below a addr, above a addr))
      ⊎ ((e : ℕ) × (e ≢ 0) × (split_vma k a addr ≡ err e))
unfolding split_vma
split_vma-cases k a addr = ground arith

-- The areas that a loop has gathered, put back, are those that it found, some of them split.
pub record Regroups (lo : ℕ) (l m : List Area) (splits : ℕ) : Type 0 where
  pub same_view : (x : ℕ) → view m x ≡ view l x
  pub ordered : Ordered lo m
  pub same_pages : pages m ≡ pages l
  pub same_locked : locked_pages m ≡ locked_pages l
  pub counted : length m ≡ length l + splits

Regroups-refl : (lo : ℕ) (l : List Area) → Ordered lo l → Regroups lo l l 0
Regroups-refl lo l o = record {
  same_view = λ x. refl;
  ordered = o;
  same_pages = refl;
  same_locked = refl;
  counted = omega arith;
}

Regroups-cons :
    (lo : ℕ) (a : Area) (l m : List Area) (n : ℕ)
    → lo ≤ a.vm_start
    → IsArea a
    → Regroups a.vm_end l m n
    → Regroups lo (a ∷ l) (a ∷ m) n
Regroups-cons lo a l m n h area r = record {
  same_view = λ x. ground (arith, r.same_view x);
  ordered = (h, area, r.ordered);
  same_pages = omega (arith, r.same_pages);
  same_locked = omega (arith, r.same_locked);
  counted = omega (arith, r.counted);
}

pub Regroups-split :
    (lo : ℕ) (a : Area) (l : List Area) (addr : ℕ)
    → Ordered lo (a ∷ l)
    → addr % page_size ≡ 0
    → a.vm_start < addr
    → addr < a.vm_end
    → Regroups lo (a ∷ l) (below a addr ∷ above a addr ∷ l) 1
Regroups-split lo a l addr (h, area, o) aligned from to = record {
  same_view = view-split a addr area aligned from to l;
  ordered = (
    h,
    below-IsArea a addr area aligned from to,
    (omega arith, above-IsArea a addr area aligned from to, o),
  );
  same_pages = omega (arith, pages-split a addr area aligned from to);
  same_locked = let p = pages-split a addr area aligned from to in ground arith;
  counted = omega arith;
}

module _ (k : AreaEnv) (end : ℕ) (aligned : end % page_size ≡ 0) where
  gather_last-Regroups :
      (lo : ℕ) (a : Area) (l : List Area)
      → Ordered lo (a ∷ l)
      → a.vm_start < end
      → end < a.vm_end
      → let g = gather_last k end a l in Regroups lo (a ∷ l) (g.detached ++ g.rest) g.splits
  unfolding gather_last
  gather_last-Regroups lo a l o from to = elim (split_vma-cases k a end) [
    | inl e ↦ let r = Regroups-split lo a l end o aligned from to in ground arith
    | inr (c, _, e) ↦ let r = Regroups-refl lo (a ∷ l) o in ground arith
  ]

  pub gather-Regroups :
      (lo : ℕ) (l : List Area)
      → Ordered lo l
      → let g = gather k end l in Regroups lo l (g.detached ++ g.rest) g.splits
  unfolding gather
  gather-Regroups lo [] o = Regroups-refl lo [] o
  gather-Regroups lo (a ∷ l) o =
      let whole = Regroups-refl lo (a ∷ l) o in
      let more = Regroups-cons lo a l _ _ o.0 o.1 (gather-Regroups a.vm_end l o.2) in
      let last = gather_last-Regroups lo a l o in ground arith

  gather_last-rest :
      (lo : ℕ) (a : Area) (l : List Area)
      → Ordered lo (a ∷ l)
      → a.vm_start < end
      → end < a.vm_end
      → (gather_last k end a l).code ≡ 0
      → (gather_last k end a l).rest ≡ above a end ∷ l
  unfolding gather_last
  gather_last-rest lo a l o from to done = elim (split_vma-cases k a end) [
    | inl e ↦ ground arith
    | inr (c, positive, e) ↦ absurd (ground arith)
  ]

  -- What a loop that ends without an error leaves lies past the range, and is as before.
  pub gather-Ordered :
      (lo : ℕ) (l : List Area)
      → Ordered lo l
      → (gather k end l).code ≡ 0
      → Ordered end (gather k end l).rest
  unfolding gather
  gather-Ordered lo [] o done = tt
  gather-Ordered lo (a ∷ l) o done =
      let last = gather_last-rest lo a l o in
      let part = above-IsArea a end o.1 aligned in
      let more = gather-Ordered a.vm_end l o.2 in ground arith

  pub gather-view :
      (lo : ℕ) (l : List Area) (x : ℕ)
      → Ordered lo l
      → (gather k end l).code ≡ 0
      → end ≤ x
      → view (gather k end l).rest x ≡ view l x
  unfolding gather
  gather-view lo [] x o done h = refl
  gather-view lo (a ∷ l) x o done h =
      let last = gather_last-rest lo a l o in
      let part =
        λ (f : a.vm_start < end) (t : end < a.vm_end). view-split a end o.1 aligned f t l x in
      let more = gather-view a.vm_end l x o.2 in ground arith
