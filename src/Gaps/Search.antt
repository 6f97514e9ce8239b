-- ===== src/Gaps/Search.antt =====
-- `unmapped_area` and `unmapped_area_topdown` of mmap.c. A jump to `retry` is a call with one unit
-- of fuel less, and no result is the lack of fuel.
use so2_202110206_2svac.Common.{
  ℕ, zero, suc, List, Option, none, some, ltb, leb, if◌then◌else◌, bit_and,
}
use so2_202110206_2svac.Common.Word.{word, add64, sub64, err_word}
use so2_202110206_2svac.Kernel.{enomem}
use so2_202110206_2svac.Areas.{Area}
use so2_202110206_2svac.Gaps.{UnmappedInfo, GapEnv, area_after, area_before}

-- The length with the worst overhead of the alignment.
abbrev pub search_length : UnmappedInfo → ℕ
search_length i = add64 i.length i.align_mask

abbrev pub search_low : GapEnv → UnmappedInfo → ℕ
search_low k i = if ltb i.low_limit k.mmap_min_addr then k.mmap_min_addr else i.low_limit

-- Where an area before the range makes the search start anew.
abbrev pub retry_before : GapEnv → ℕ → (Area → ℕ) → Option Area → Option ℕ
retry_before k gap again none = none
retry_before k gap again (some prev) = if ltb gap (k.end_gap prev) then some (again prev) else none

unfoldable pub retry_up : GapEnv → List Area → ℕ → ℕ → ℕ → Option ℕ
retry_up k l length index gap =
    let before = retry_before k gap k.end_gap (area_before none index l) in
    elim (area_after index l) [
      | none ↦ before
      | some next ↦
          if k.is_startgap next
          then if ltb (k.start_gap next) (sub64 (add64 gap length) 1)
            then some next.vm_end
            else none
          else before
    ]

unfoldable pub search_up : GapEnv → UnmappedInfo → List Area → ℕ → ℕ → Option ℕ
search_up k i l zero low = none
search_up k i l (suc fuel) low =
    elim (k.empty_area l low (sub64 i.high_limit 1) (search_length i)) [
      | none ↦ some (err_word enomem)
      | some index ↦
          let gap = add64 index (bit_and (sub64 i.align_offset index) i.align_mask) in
          elim (retry_up k l (search_length i) index gap) [
            | none ↦ some gap
            | some low' ↦ search_up k i l fuel low'
          ]
    ]

unfoldable pub unmapped_area : GapEnv → UnmappedInfo → List Area → Option ℕ
unmapped_area k i l =
    if ltb (search_length i) i.length
    then some (err_word enomem)
    else search_up k i l word (search_low k i)

unfoldable pub retry_down : GapEnv → List Area → ℕ → ℕ → ℕ → Option ℕ
retry_down k l index gap gap_end =
    let before = retry_before k gap (λ prev. prev.vm_start) (area_before none index l) in
    elim (area_after index l) [
      | none ↦ before
      | some next ↦
          if k.is_startgap next
          then if leb (k.start_gap next) gap_end then some (k.start_gap next) else none
          else before
    ]

unfoldable pub search_down : GapEnv → UnmappedInfo → List Area → ℕ → ℕ → Option ℕ
search_down k i l zero high = none
search_down k i l (suc fuel) high =
    elim (k.empty_area_rev l (search_low k i) (sub64 high 1) (search_length i)) [
      | none ↦ some (err_word enomem)
      | some index ↦
          let last = sub64 (add64 index (search_length i)) 1 in
          let end = sub64 (add64 last 1) i.length in
          let gap = sub64 end (bit_and (sub64 end i.align_offset) i.align_mask) in
          elim (retry_down k l index gap last) [
            | none ↦ some gap
            | some high' ↦ search_down k i l fuel high'
          ]
    ]

unfoldable pub unmapped_area_topdown : GapEnv → UnmappedInfo → List Area → Option ℕ
unmapped_area_topdown k i l =
    if ltb (search_length i) i.length
    then some (err_word enomem)
    else search_down k i l (suc i.high_limit) i.high_limit

unfoldable pub vm_unmapped_area : GapEnv → UnmappedInfo → List Area → Option ℕ
vm_unmapped_area k i l = if i.topdown then unmapped_area_topdown k i l else unmapped_area k i l
