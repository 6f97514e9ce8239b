-- ===== src/Gaps/Complete.antt =====
-- What the searches do when there is a range to find: they do not miss it.
use so2_202110206_2svac.Common.{
  Option-cases, Bool-cases, ℕ, zero, suc, ◌+◌, ◌≤◌, ◌<◌, ◌≡◌, refl, ◌⊎◌, inl, inr, true, false,
  List, none, some, ltb, arith, bit_and,
}
use so2_202110206_2svac.Common.Bits.{bit_and-le}
use so2_202110206_2svac.Common.Word.{word, add64, sub64}
use so2_202110206_2svac.Areas.{Area}
use so2_202110206_2svac.Areas.View.{Ordered}
use so2_202110206_2svac.Gaps.{UnmappedInfo, GapEnv, area_after}
use so2_202110206_2svac.Gaps.Search.{
  search_length, search_low, retry_up, search_up, unmapped_area, retry_down, search_down,
  unmapped_area_topdown, vm_unmapped_area,
}
use so2_202110206_2svac.Gaps.Free.{Free, IsGapEnv, Clear, Clear-area_after, area_after-vm_end}
use so2_202110206_2svac.Gaps.Found.{retry_before-none, IsSearch}

module _ (k : GapEnv) (l : List Area) (laws : IsGapEnv k l) (order : Ordered 0 l) (start size : ℕ)
    (pos : 0 < size) (free : Free l start size) (clear : Clear k l start size) where
  -- The search from below starts anew no further up than the range.
  retry_up-keeps :
      (index : ℕ)
      → index ≤ start
      → start + size < word
      → (retry_up k l size index index ≡ none)
        ⊎ ((again : ℕ) × (retry_up k l size index index ≡ some again)
            × (index < again)
            × (again ≤ start))
  unfolding retry_up
  retry_up-keeps index p q =
      let before = retry_before-none k l laws 0 order index index k.end_gap (omega arith) in
      elim (Option-cases (area_after index l)) [
        | inl e ↦ ground arith
        | inr (a, e) ↦
            let ends = area_after-vm_end index 0 l a order e in
            let apart = Clear-area_after k l start size index a clear e in ground arith
      ]

  search_up_complete :
      (i : UnmappedInfo) (fuel low : ℕ)
      → i.align_mask ≡ 0
      → i.length ≡ size
      → i.high_limit < word
      → start + size ≤ i.high_limit
      → low ≤ start
      → word ≤ low + fuel
      → (r : ℕ) × (search_up k i l fuel low ≡ some r)
        × Free l r size
        × (r + size ≤ i.high_limit)
        × (r ≤ start)
  unfolding search_up
  search_up_complete i zero low mask same high fits from enough = absurd (omega arith)
  search_up_complete i (suc fuel) low mask same high fits from enough =
      let at = laws.lowest low (sub64 i.high_limit 1) size start pos from (omega arith) free in
      let index = at.0 in
      let exact : search_length i ≡ size = omega arith in
      let small = bit_and-le (sub64 i.align_offset index) i.align_mask in
      let found = laws.found low (sub64 i.high_limit 1) size index at.1 in
      let no_offset : add64 index (bit_and (sub64 i.align_offset index) i.align_mask) ≡ index =
        omega (arith, at.2) in
      elim (retry_up-keeps index at.2 (omega arith)) [
        | inl none_again ↦ (index, ground (arith, at.1), found.2, omega (arith, found.1), at.2)
        | inr (again, retries, above, below) ↦
            let later =
              search_up_complete i fuel again mask same high fits below (omega (arith, found.0)) in
            (
              later.0,
              ground (arith, at.1, later.1),
              later.2,
              omega (arith, later.3, found.1),
              later.4,
            )
      ]

  retry_down-keeps :
      (index last : ℕ)
      → start ≤ index
      → last + 1 ≡ index + size
      → (retry_down k l index index last ≡ none)
        ⊎ ((again : ℕ) × (retry_down k l index index last ≡ some again)
            × (again ≤ last)
            × (start + size ≤ again))
  unfolding retry_down
  retry_down-keeps index last p q =
      let before =
        retry_before-none k l laws 0 order index index (λ prev. prev.vm_start) (omega arith) in
      elim (Option-cases (area_after index l)) [
        | inl e ↦ ground arith
        | inr (a, e) ↦
            let ends = area_after-vm_end index 0 l a order e in
            let apart = Clear-area_after k l start size index a clear e in ground arith
      ]

  search_down_complete :
      (i : UnmappedInfo) (fuel high : ℕ)
      → i.align_mask ≡ 0
      → i.length ≡ size
      → high < word
      → start + size ≤ high
      → search_low k i ≤ start
      → high < fuel
      → (r : ℕ) × (search_down k i l fuel high ≡ some r)
        × Free l r size
        × (r + size ≤ high)
        × (start ≤ r)
  unfolding search_down
  search_down_complete i zero high mask same small fits from enough = absurd (omega arith)
  search_down_complete i (suc fuel) high mask same small fits from enough =
      let at =
        laws.highest (search_low k i) (sub64 high 1) size start pos from (omega arith) free in
      let index = at.0 in
      let last = sub64 (add64 index size) 1 in
      let found = laws.found_rev (search_low k i) (sub64 high 1) size index at.1 in
      let exact : search_length i ≡ size = omega arith in
      let end = sub64 (add64 last 1) i.length in
      let masked = bit_and-le (sub64 end i.align_offset) i.align_mask in
      let no_offset : sub64 end (bit_and (sub64 end i.align_offset) i.align_mask) ≡ index =
        omega (arith, found.1) in
      elim (retry_down-keeps index last at.2 (omega (arith, found.1))) [
        | inl none_again ↦ (index, ground (arith, at.1), found.2, omega (arith, found.1), at.2)
        | inr (again, retries, below, above) ↦
            let later =
              search_down_complete i fuel again mask same (omega (arith, found.1)) above from
                (omega (arith, found.1)) in
            (
              later.0,
              ground (arith, at.1, later.1),
              later.2,
              omega (arith, later.3, found.1),
              later.4,
            )
      ]

-- Over areas in order, with a tree and gaps as documented, a search without alignment for a range of
-- some length, whose limits leave room in the word, succeeds if there is a range for it: one that
-- lies between its limits and above mmap_min_addr, is free, and keeps clear of the guard gaps of
-- the stacks above it. What the search finds is free and below the upper limit; from the top it is
-- no lower than that range, and from the bottom no higher.
pub vm_unmapped_area_complete :
    (k : GapEnv) (l : List Area) (i : UnmappedInfo) (start : ℕ)
    → IsGapEnv k l
    → Ordered 0 l
    → IsSearch k i
    → i.align_mask ≡ 0
    → i.low_limit ≤ start
    → k.mmap_min_addr ≤ start
    → start + i.length ≤ i.high_limit
    → Free l start i.length
    → Clear k l start i.length
    → (r : ℕ) × (vm_unmapped_area k i l ≡ some r)
      × Free l r i.length
      × (r + i.length ≤ i.high_limit)
      × (((i.topdown ≡ true) × (start ≤ r)) ⊎ ((i.topdown ≡ false) × (r ≤ start)))
unfolding vm_unmapped_area unmapped_area unmapped_area_topdown
vm_unmapped_area_complete k l i start laws o s mask low min_low high free clear =
    let wraps : ltb (search_length i) i.length ≡ false = ground (arith, s.long) in
    let from : search_low k i ≤ start = ground arith in
    let up =
      search_up_complete k l laws o start i.length s.some_length free clear i word (search_low k i)
        mask refl (omega (arith, s.room)) high from (omega arith) in
    let down =
      search_down_complete k l laws o start i.length s.some_length free clear i (suc i.high_limit)
        i.high_limit mask refl (omega (arith, s.room)) high from (omega arith) in
    elim (Bool-cases i.topdown) [
      | inl e ↦ (down.0, ground (arith, down.1), down.2, down.3, inl (e, down.4))
      | inr e ↦ (up.0, ground (arith, up.1), up.2, up.3, inr (e, up.4))
    ]
