-- ===== src/Gaps/Free.antt =====
-- Free ranges of addresses, and what the tree of areas promises of its searches for them.
use so2_202110206_2svac.Common.{
  ℕ, ◌+◌, ◌≤◌, ◌<◌, ◌≡◌, refl, ◌⊎◌, inl, true, List, [], ◌∷◌, Option, none, some, arith,
}
use so2_202110206_2svac.Areas.{Area}
use so2_202110206_2svac.Areas.View.{IsArea, Ordered, view}
use so2_202110206_2svac.Gaps.{GapEnv, area_after, area_before}

-- No address of the range shows a page.
abbrev pub Free : List Area → ℕ → ℕ → Type 0
Free l from size = (x : ℕ) → from ≤ x → x < from + size → view l x ≡ none

-- What the searches of the tree are documented to do, and the gaps of areas on a machine where
-- stacks grow downwards, as x86-64: only below an area, and for one near address 0 down to it.
pub record IsGapEnv (k : GapEnv) (l : List Area) : Type 0 where
  pub found :
      (lo hi size index : ℕ)
      → k.empty_area l lo hi size ≡ some index
      → (lo ≤ index) × (index + size ≤ hi + 1) × Free l index size
  pub found_rev :
      (lo hi size index : ℕ)
      → k.empty_area_rev l lo hi size ≡ some index
      → (lo ≤ index) × (index + size ≤ hi + 1) × Free l index size
  pub lowest :
      (lo hi size start : ℕ)
      → 0 < size
      → lo ≤ start
      → start + size ≤ hi + 1
      → Free l start size
      → (index : ℕ) × (k.empty_area l lo hi size ≡ some index) × (index ≤ start)
  pub highest :
      (lo hi size start : ℕ)
      → 0 < size
      → lo ≤ start
      → start + size ≤ hi + 1
      → Free l start size
      → (index : ℕ) × (k.empty_area_rev l lo hi size ≡ some index) × (start ≤ index)
  pub under : (a : Area) → k.start_gap a ≤ a.vm_start
  pub no_end_gap : (a : Area) → k.end_gap a ≡ a.vm_end

pub area_after-vm_end :
    (index lo : ℕ) (l : List Area) (a : Area)
    → Ordered lo l
    → area_after index l ≡ some a
    → (index < a.vm_end) × IsArea a
area_after-vm_end index lo [] a o h = ground arith
area_after-vm_end index lo (b ∷ l) a o h =
    let later = area_after-vm_end index b.vm_end l a o.2 in let it = o.1 in ground arith

pub area_before-vm_end :
    (index : ℕ) (last : Option Area) (l : List Area) (a : Area)
    → area_before last index l ≡ some a
    → (last ≡ some a) ⊎ (a.vm_end ≤ index)
area_before-vm_end index last [] a h = inl h
area_before-vm_end index last (b ∷ l) a h =
    let later = area_before-vm_end index (some b) l a in ground arith

-- The area after a free range is the area after every address in it.
pub area_after-Free :
    (index x lo size : ℕ) (l : List Area)
    → Ordered lo l
    → Free l index size
    → index ≤ x
    → x < index + size
    → area_after x l ≡ area_after index l
area_after-Free index x lo size [] o f from to = refl
area_after-Free index x lo size (a ∷ l) o f from to =
    let later =
      area_after-Free index x a.vm_end size l o.2 (λ y p q. let at_y = f y p q in ground arith) from
        to in
    let at_index = f index in let at_start = f a.vm_start in ground (arith, o.1.nonempty)

-- No stack lies within its guard gap of address 0.
abbrev pub StacksAbove : GapEnv → List Area → Type 0
StacksAbove k [] = Unit {0}
StacksAbove k (a ∷ more) = (k.is_startgap a ≡ true → 0 < k.start_gap a) × StacksAbove k more

pub StacksAbove-area_after :
    (k : GapEnv) (l : List Area) (index : ℕ) (a : Area)
    → StacksAbove k l
    → area_after index l ≡ some a
    → k.is_startgap a ≡ true
    → 0 < k.start_gap a
StacksAbove-area_after k [] index a s e g = ground arith
StacksAbove-area_after k (b ∷ l) index a s e g =
    let later = StacksAbove-area_after k l index a s.1 in let here = s.0 in ground arith

-- A range from an address is clear of the guard gap of each stack above it.
abbrev pub Clear : GapEnv → List Area → ℕ → ℕ → Type 0
Clear k [] start size = Unit {0}
Clear k (a ∷ more) start size =
    (k.is_startgap a ≡ true → start < a.vm_end → start + size ≤ k.start_gap a)
    × Clear k more start size

pub Clear-area_after :
    (k : GapEnv) (l : List Area) (start size index : ℕ) (a : Area)
    → Clear k l start size
    → area_after index l ≡ some a
    → k.is_startgap a ≡ true
    → start < a.vm_end
    → start + size ≤ k.start_gap a
Clear-area_after k [] start size index a c e g h = ground arith
Clear-area_after k (b ∷ l) start size index a c e g h =
    let later = Clear-area_after k l start size index a c.1 in let here = c.0 in ground arith
