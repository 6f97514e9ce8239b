-- ===== src/Gaps/Tests/FirstFit.antt =====
-- Searches of a list of areas that keep what the tree of areas promises, for the tests.
use so2_202110206_2svac.Common.{
  ℕ, ◌+◌, ◌-◌, ◌≤◌, ◌<◌, ◌≡◌, refl, sym, ◌∙◌, ◌⊎◌, inl, inr, ◌&&◌, List, [], ◌∷◌, Option, none,
  some, ltb, leb, if◌then◌else◌, arith,
}
use so2_202110206_2svac.Areas.{Area}
use so2_202110206_2svac.Areas.View.{IsArea, Ordered, view-below}
use so2_202110206_2svac.Gaps.Free.{Free}

abbrev pub larger : ℕ → ℕ → ℕ
larger a b = if ltb a b then b else a

abbrev pub first_fit : List Area → ℕ → ℕ → ℕ → Option ℕ
first_fit [] lo hi size = if leb (lo + size) (hi + 1) then some lo else none
first_fit (a ∷ more) lo hi size =
    if leb (lo + size) a.vm_start && leb (lo + size) (hi + 1)
    then some lo
    else first_fit more (larger lo a.vm_end) hi size

abbrev pub or_else : Option ℕ → Option ℕ → Option ℕ
or_else none other = other
or_else (some x) other = some x

abbrev pub smaller : ℕ → ℕ → ℕ
smaller a b = if ltb a b then a else b

abbrev pub last_fit : List Area → ℕ → ℕ → ℕ → Option ℕ
last_fit [] lo hi size = if leb (lo + size) (hi + 1) then some (hi + 1 - size) else none
last_fit (a ∷ more) lo hi size =
    let end = smaller a.vm_start (hi + 1) in
    or_else (last_fit more (larger lo a.vm_end) hi size)
      (if leb (lo + size) end then some (end - size) else none)

module _ (hi size : ℕ) where
  -- A range below the first area is free, and so is one above it that is free of the others.
  Free-front :
      (base start : ℕ) (a : Area) (l : List Area)
      → Ordered base (a ∷ l)
      → start + size ≤ a.vm_start
      → Free (a ∷ l) start size
  Free-front base start a l o h x p q =
      view-below a.vm_start x (a ∷ l) (omega arith, o.1, o.2) (omega arith)

  Free-past :
      (start : ℕ) (a : Area) (l : List Area)
      → a.vm_end ≤ start
      → Free l start size
      → Free (a ∷ l) start size
  Free-past start a l h free x p q = let at = free x p q in ground arith

  Free-rest : (start : ℕ) (a : Area) (l : List Area) → Free (a ∷ l) start size → Free l start size
  Free-rest start a l free x p q = let at = free x p q in ground arith

  -- A free range does not meet the first area.
  Free-apart :
      (start : ℕ) (a : Area) (l : List Area)
      → 0 < size
      → IsArea a
      → Free (a ∷ l) start size
      → (start + size ≤ a.vm_start) ⊎ (a.vm_end ≤ start)
  Free-apart start a l pos area free =
      let at_start = free start in let at_area = free a.vm_start in ground (arith, area.nonempty)

  first_fit-cases :
      (lo : ℕ) (a : Area) (l : List Area)
      → ((lo + size ≤ a.vm_start) × (lo + size ≤ hi + 1) × (first_fit (a ∷ l) lo hi size ≡ some lo))
        ⊎ (((a.vm_start < lo + size) ⊎ (hi + 1 < lo + size))
            × (first_fit (a ∷ l) lo hi size ≡ first_fit l (larger lo a.vm_end) hi size))
  first_fit-cases lo a l = ground arith

  pub first_fit-found :
      (base lo index : ℕ) (l : List Area)
      → Ordered base l
      → first_fit l lo hi size ≡ some index
      → (lo ≤ index) × (index + size ≤ hi + 1) × Free l index size
  first_fit-found base lo index [] o e = (ground arith, ground arith, λ x p q. refl)
  first_fit-found base lo index (a ∷ l) o e = elim (first_fit-cases lo a l) [
    | inl (below, room, at) ↦
        let same : lo ≡ index = ground arith in
        (omega arith, omega arith, Free-front base index a l o (omega arith))
    | inr (other, at) ↦
        let later = first_fit-found a.vm_end (larger lo a.vm_end) index l o.2 (sym at ∙ e) in
        (ground (arith, later.0), later.1, Free-past index a l (ground (arith, later.0)) later.2)
  ]

  pub first_fit-lowest :
      (base lo start : ℕ) (l : List Area)
      → Ordered base l
      → 0 < size
      → lo ≤ start
      → start + size ≤ hi + 1
      → Free l start size
      → (index : ℕ) × (first_fit l lo hi size ≡ some index) × (index ≤ start)
  first_fit-lowest base lo start [] o pos from to free = (lo, ground arith, from)
  first_fit-lowest base lo start (a ∷ l) o pos from to free =
      let apart = Free-apart start a l pos o.1 free in
      let later = first_fit-lowest a.vm_end (larger lo a.vm_end) start l o.2 pos in
      elim (first_fit-cases lo a l) [
        | inl (below, room, at) ↦ (lo, at, from)
        | inr (other, at) ↦
            let past : a.vm_end ≤ start = ground arith in
            let further = later (ground arith) to (Free-rest start a l free) in
            (further.0, at ∙ further.1, further.2)
      ]

  last_fit-cases :
      (lo : ℕ) (a : Area) (l : List Area)
      → ((index : ℕ) × (last_fit l (larger lo a.vm_end) hi size ≡ some index)
          × (last_fit (a ∷ l) lo hi size ≡ some index))
        ⊎ ((last_fit l (larger lo a.vm_end) hi size ≡ none)
            × (lo + size ≤ smaller a.vm_start (hi + 1))
            × (last_fit (a ∷ l) lo hi size ≡ some (smaller a.vm_start (hi + 1) - size)))
        ⊎ ((last_fit l (larger lo a.vm_end) hi size ≡ none)
            × (smaller a.vm_start (hi + 1) < lo + size)
            × (last_fit (a ∷ l) lo hi size ≡ none))
  last_fit-cases lo a l = ground arith

  pub last_fit-found :
      (base lo index : ℕ) (l : List Area)
      → Ordered base l
      → last_fit l lo hi size ≡ some index
      → (lo ≤ index) × (index + size ≤ hi + 1) × Free l index size
  last_fit-found base lo index [] o e = (ground arith, ground arith, λ x p q. refl)
  last_fit-found base lo index (a ∷ l) o e = elim (last_fit-cases lo a l) [
    | inl (i, later, at) ↦
        let same : i ≡ index = ground arith in
        let found = last_fit-found a.vm_end (larger lo a.vm_end) index l o.2 (ground arith) in
        (ground (arith, found.0), found.1, Free-past index a l (ground (arith, found.0)) found.2)
    | inr (inl (missing, room, at)) ↦
        let same : smaller a.vm_start (hi + 1) - size ≡ index = ground arith in
        (ground arith, ground arith, Free-front base index a l o (ground arith))
    | inr (inr (missing, full, at)) ↦ ground arith
  ]

  pub last_fit-highest :
      (base lo start : ℕ) (l : List Area)
      → Ordered base l
      → 0 < size
      → lo ≤ start
      → start + size ≤ hi + 1
      → Free l start size
      → (index : ℕ) × (last_fit l lo hi size ≡ some index) × (start ≤ index)
  last_fit-highest base lo start [] o pos from to free = (hi + 1 - size, ground arith, omega arith)
  last_fit-highest base lo start (a ∷ l) o pos from to free =
      elim (Free-apart start a l pos o.1 free) [
        | inr above ↦
            let found =
              last_fit-highest a.vm_end (larger lo a.vm_end) start l o.2 pos (ground arith) to
                (Free-rest start a l free) in
            (found.0, ground (arith, found.1), found.2)
        | inl below ↦ elim (last_fit-cases lo a l) [
          | inl (i, later, at) ↦
              let found = last_fit-found a.vm_end (larger lo a.vm_end) i l o.2 later in
              (i, at, ground (arith, found.0, o.1.nonempty))
          | inr (inl (missing, room, at)) ↦ (smaller a.vm_start (hi + 1) - size, at, ground arith)
          | inr (inr (missing, full, at)) ↦ absurd (ground arith)
        ]
      ]
