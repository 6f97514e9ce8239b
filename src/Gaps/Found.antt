-- ===== src/Gaps/Found.antt =====
-- What `unmapped_area` and `unmapped_area_topdown` find, and that they end.
use so2_202110206_2svac.Common.{
  Option-cases, Bool-cases, ℕ, zero, suc, ◌+◌, ◌≤◌, ◌<◌, ◌≡◌, refl, sym, ◌∙◌, ◌⊎◌, inl, inr, true,
  false, List, none, some, ltb, arith, bit_and,
}
use so2_202110206_2svac.Common.Bits.{bit_and-le}
use so2_202110206_2svac.Common.Word.{word, add64, sub64, err_word}
use so2_202110206_2svac.Kernel.{enomem}
use so2_202110206_2svac.Areas.{Area}
use so2_202110206_2svac.Areas.View.{Ordered}
use so2_202110206_2svac.Gaps.{UnmappedInfo, GapEnv, area_after, area_before}
use so2_202110206_2svac.Gaps.Search.{
  search_length, search_low, retry_before, retry_up, search_up, unmapped_area, retry_down,
  search_down, unmapped_area_topdown, vm_unmapped_area,
}
use so2_202110206_2svac.Gaps.Free.{
  Free, IsGapEnv, StacksAbove, StacksAbove-area_after, area_after-vm_end, area_before-vm_end,
  area_after-Free,
}

-- A range that a search may return: in bounds, free, and clear of the gap of the stack above it.
pub record Fits (k : GapEnv) (l : List Area) (low high length addr : ℕ) : Type 0 where
  pub in_low : low ≤ addr
  pub in_high : addr + length ≤ high
  pub free : Free l addr length
  pub apart :
      (a : Area)
      → area_after addr l ≡ some a
      → k.is_startgap a ≡ true
      → addr + length ≤ k.start_gap a + 1

module _ (k : GapEnv) (l : List Area) (laws : IsGapEnv k l) (lo : ℕ) (order : Ordered lo l) where
  -- Where no gap lies above an area, the area before a range never makes the search start anew.
  pub retry_before-none :
      (index gap : ℕ) (again : Area → ℕ)
      → index ≤ gap
      → retry_before k gap again (area_before none index l) ≡ none
  retry_before-none index gap again p = elim (Option-cases (area_before none index l)) [
    | inl e ↦ ground arith
    | inr (a, e) ↦
        let ends = area_before-vm_end index none l a e in
        let gapless = laws.no_end_gap a in ground arith
  ]

  -- A step of the search from below: its range is good, or it starts anew from further up.
  retry_up-cases :
      (length index gap : ℕ)
      → index ≤ gap
      → gap + length ≤ word
      → 0 < length
      → ((retry_up k l length index gap ≡ none)
          × ((a : Area)
              → area_after index l ≡ some a
              → k.is_startgap a ≡ true
              → gap + length ≤ k.start_gap a + 1))
        ⊎ ((again : ℕ) × (retry_up k l length index gap ≡ some again)
            × (index < again)
            × (again < word))
  unfolding retry_up
  retry_up-cases length index gap p q pos =
      let before = retry_before-none index gap k.end_gap p in
      elim (Option-cases (area_after index l)) [
        | inl e ↦ ground arith
        | inr (a, e) ↦
            let ends = area_after-vm_end index lo l a order e in
            let bounded = ends.1.bounded in let low = laws.under a in ground arith
      ]

  Fits-weaken :
      (low low' high high' length addr : ℕ)
      → low ≤ low'
      → high' ≤ high
      → Fits k l low' high' length addr
      → Fits k l low high length addr
  Fits-weaken low low' high high' length addr p q f = record {
    in_low = omega (arith, f.in_low);
    in_high = omega (arith, f.in_high);
    free = f.free;
    apart = f.apart;
  }

  -- A range inside a free one, clear of the area above that.
  Fits-inside :
      (low high index size length addr : ℕ)
      → low ≤ addr
      → addr + length ≤ high
      → Free l index size
      → index ≤ addr
      → addr + length ≤ index + size
      → 0 < length
      → ((a : Area)
          → area_after index l ≡ some a
          → k.is_startgap a ≡ true
          → addr + length ≤ k.start_gap a + 1)
      → Fits k l low high length addr
  Fits-inside low high index size length addr p q free from to pos clear = record {
    in_low = p;
    in_high = q;
    free = λ x f t. free x (omega arith) (omega arith);
    apart = λ a e.
        clear a (sym (area_after-Free index addr lo size l order free from (omega arith)) ∙ e);
  }

  -- With as much fuel as there are addresses above, the search from below ends, and what it
  -- returns is an error or fits.
  search_up-finds :
      (i : UnmappedInfo) (fuel low : ℕ)
      → 0 < i.length
      → 0 < i.high_limit
      → i.high_limit + i.align_mask < word
      → i.length + i.align_mask < word
      → low < word
      → word ≤ low + fuel
      → (r : ℕ) × (search_up k i l fuel low ≡ some r)
        × ((r ≡ err_word enomem) ⊎ Fits k l low i.high_limit i.length r)
  unfolding search_up
  search_up-finds i zero low pos high fits long small enough = absurd (omega arith)
  search_up-finds i (suc fuel) low pos high fits long small enough =
      elim (Option-cases (k.empty_area l low (sub64 i.high_limit 1) (search_length i))) [
        | inl e ↦ (err_word enomem, ground arith, inl refl)
        | inr (index, e) ↦
            let offset = bit_and (sub64 i.align_offset index) i.align_mask in
            let gap = add64 index offset in
            let mask = bit_and-le (sub64 i.align_offset index) i.align_mask in
            let at = laws.found low (sub64 i.high_limit 1) (search_length i) index e in
            elim (retry_up-cases (search_length i) index gap (omega arith) (omega arith)
              (omega arith)) [
                | inl (none_again, clear) ↦ (
                  gap,
                  ground arith,
                  inr (
                      Fits-inside low i.high_limit index (search_length i) i.length gap
                        (omega arith) (omega arith) at.2 (omega arith) (omega arith) pos
                        (λ a p q. omega (arith, clear a p q))),
                )
                | inr (again, retries, above, bounded) ↦
                    let later =
                      search_up-finds i fuel again pos high fits long bounded (omega arith) in
                    (
                      later.0,
                      ground (arith, later.1),
                      elim later.2 [
                        | inl failed ↦ inl failed
                        | inr found ↦ inr (
                            Fits-weaken low again i.high_limit i.high_limit i.length later.0
                              (omega arith) (omega arith) found)
                      ],
                    )
              ]
      ]

  -- A step of the search from above: its range is good, or it starts anew from further down.
  retry_down-cases :
      (index gap gap_end : ℕ)
      → StacksAbove k l
      → index ≤ gap
      → ((retry_down k l index gap gap_end ≡ none)
          × ((a : Area)
              → area_after index l ≡ some a
              → k.is_startgap a ≡ true
              → gap_end < k.start_gap a))
        ⊎ ((again : ℕ) × (retry_down k l index gap gap_end ≡ some again)
            × (again ≤ gap_end)
            × (0 < again))
  unfolding retry_down
  retry_down-cases index gap gap_end above p =
      let before = retry_before-none index gap (λ prev. prev.vm_start) p in
      elim (Option-cases (area_after index l)) [
        | inl e ↦ ground arith
        | inr (a, e) ↦ let positive = StacksAbove-area_after k l index a above e in ground arith
      ]

  search_down-finds :
      (i : UnmappedInfo) (fuel high : ℕ)
      → StacksAbove k l
      → 0 < i.length
      → 0 < high
      → high < fuel
      → high < word
      → i.length + i.align_mask < word
      → (r : ℕ) × (search_down k i l fuel high ≡ some r)
        × ((r ≡ err_word enomem) ⊎ Fits k l (search_low k i) high i.length r)
  unfolding search_down
  search_down-finds i zero high stacks pos above enough small long = absurd (omega arith)
  search_down-finds i (suc fuel) high stacks pos above enough small long =
      elim (Option-cases (k.empty_area_rev l (search_low k i) (sub64 high 1) (search_length i))) [
        | inl e ↦ (err_word enomem, ground arith, inl refl)
        | inr (index, e) ↦
            let last = sub64 (add64 index (search_length i)) 1 in
            let end = sub64 (add64 last 1) i.length in
            let offset = bit_and (sub64 end i.align_offset) i.align_mask in
            let gap = sub64 end offset in
            let mask = bit_and-le (sub64 end i.align_offset) i.align_mask in
            let at = laws.found_rev (search_low k i) (sub64 high 1) (search_length i) index e in
            elim (retry_down-cases index gap last stacks (omega arith)) [
              | inl (none_again, clear) ↦ (
                gap,
                ground arith,
                inr (
                    Fits-inside (search_low k i) high index (search_length i) i.length gap
                      (omega arith) (omega arith) at.2 (omega arith) (omega arith) pos
                      (λ a p q. omega (arith, clear a p q))),
              )
              | inr (again, retries, below, positive) ↦
                  let later =
                    search_down-finds i fuel again stacks pos positive (omega arith) (omega arith)
                      long in
                  (
                    later.0,
                    ground (arith, later.1),
                    elim later.2 [
                      | inl failed ↦ inl failed
                      | inr found ↦ inr (
                          Fits-weaken (search_low k i) (search_low k i) high again i.length later.0
                            (omega arith) (omega arith) found)
                    ],
                  )
            ]
      ]

-- A search that the kernel may ask for: of some length, between bounds that leave room for the
-- alignment.
pub record IsSearch (k : GapEnv) (i : UnmappedInfo) : Type 0 where
  pub some_length : 0 < i.length
  pub some_room : 0 < i.high_limit
  pub room : i.high_limit + i.align_mask < word
  pub long : i.length + i.align_mask < word
  pub low : i.low_limit < word
  pub min_low : k.mmap_min_addr < word

-- The lower limit of a search is at least mmap_min_addr.
search_low-Fits :
    (k : GapEnv) (l : List Area) (i : UnmappedInfo) (r : ℕ)
    → IsGapEnv k l
    → Ordered 0 l
    → Fits k l (search_low k i) i.high_limit i.length r
    → Fits k l i.low_limit i.high_limit i.length r × (k.mmap_min_addr ≤ r)
search_low-Fits k l i r laws o f = (
  Fits-weaken k l laws 0 o i.low_limit (search_low k i) i.high_limit i.high_limit i.length r
      (ground arith) (omega arith) f,
  ground (arith, f.in_low),
)

pub vm_unmapped_area-finds :
    (k : GapEnv) (l : List Area) (i : UnmappedInfo)
    → IsGapEnv k l
    → Ordered 0 l
    → IsSearch k i
    → (i.topdown ≡ false) ⊎ StacksAbove k l
    → (r : ℕ) × (vm_unmapped_area k i l ≡ some r)
      × ((r ≡ err_word enomem)
          ⊎ (Fits k l i.low_limit i.high_limit i.length r × (k.mmap_min_addr ≤ r)))
unfolding vm_unmapped_area unmapped_area unmapped_area_topdown
vm_unmapped_area-finds k l i laws o s stacks =
    let low_small : search_low k i < word = ground (arith, s.low, s.min_low) in
    let up =
      search_up-finds k l laws 0 o i word (search_low k i) s.some_length s.some_room s.room s.long
        low_small (omega arith) in
    let down = λ (above : StacksAbove k l).
      search_down-finds k l laws 0 o i (suc i.high_limit) i.high_limit above s.some_length
        s.some_room (omega arith) (omega (arith, s.room)) s.long in
    let widen = λ (r : ℕ). search_low-Fits k l i r laws o in
    let wraps : ltb (search_length i) i.length ≡ false = ground (arith, s.long) in
    elim (Bool-cases i.topdown) [
      | inl e ↦ elim stacks [
        | inl upwards ↦ absurd (ground arith)
        | inr above ↦
            let found = down above in
            (
              found.0,
              ground (arith, found.1),
              elim found.2 [ inl z ↦ inl z | inr f ↦ inr (widen found.0 f) ],
            )
      ]
      | inr e ↦
          (up.0, ground (arith, up.1), elim up.2 [ inl z ↦ inl z | inr f ↦ inr (widen up.0 f) ])
    ]
