-- ===== src/Gaps/Requests.antt =====
-- What a request for a free range of addresses gets.
use native.Mathlib.Decide.{ℕ_discrete}
use so2_202110206_2svac.Common.{
  Bool-cases, ℕ, ◌+◌, ◌%◌, ◌≤◌, ◌<◌, ◌≡◌, refl, ◌⊎◌, inl, inr, Bool, true, false, List, [], ◌∷◌,
  Option, none, some, ltb, if◌then◌else◌, arith,
}
use so2_202110206_2svac.Common.Word.{word, page_size, page_align, err_word, is_err_value}
use so2_202110206_2svac.Kernel.{enomem}
use so2_202110206_2svac.Mmap.{has, map_fixed, map_shared}
use so2_202110206_2svac.Areas.{Area}
use so2_202110206_2svac.Areas.View.{Ordered, view-below}
use so2_202110206_2svac.Gaps.{GapEnv, area_after}
use so2_202110206_2svac.Gaps.Search.{vm_unmapped_area}
use so2_202110206_2svac.Gaps.Generic.{
  AreaRequest, Layout, hint_fits, before_search, search_info, generic_get_unmapped_area,
  generic_get_unmapped_area_topdown, ChooseEnv, chosen_get_area, is_anonymous, get_unmapped_area,
}
use so2_202110206_2svac.Gaps.Free.{Free, IsGapEnv, StacksAbove}
use so2_202110206_2svac.Gaps.Found.{IsSearch, vm_unmapped_area-finds}

-- A range that ends below the area after its first address is free.
area_after-clear :
    (lo addr len : ℕ) (l : List Area)
    → Ordered lo l
    → ((a : Area) → area_after addr l ≡ some a → addr + len ≤ a.vm_start)
    → Free l addr len
area_after-clear lo addr len [] o h x p q = refl
area_after-clear lo addr len (a ∷ l) o h x p q = elim (Bool-cases (ltb addr a.vm_end)) [
  | inl e ↦
      let under = view-below a.vm_start x (a ∷ l) (omega arith, o.1, o.2) in
      let here = h a (ground arith) in under (omega arith)
  | inr e ↦
      let later = area_after-clear a.vm_end addr len l o.2 (λ b f. h b (ground arith)) x p q in
      ground arith
]

-- The layout of a process leaves room in the word.
pub record IsLayout (k : GapEnv) (y : Layout) : Type 0 where
  pub min_end : k.mmap_min_addr ≤ y.mmap_end
  pub some_end : 0 < y.mmap_end
  pub small_end : y.mmap_end < word
  pub small_base : y.mmap_base < word
  pub some_topdown : 0 < y.topdown_base
  pub small_topdown : y.topdown_base < word
  pub small_unmapped : y.unmapped_base < word

-- What an answer to a request is: an error, the address that it insists on, or a range that is
-- free and above mmap_min_addr.
abbrev pub Answers : GapEnv → List Area → AreaRequest → ℕ → Type 0
Answers k l r addr =
    (addr ≡ err_word enomem)
    ⊎ ((has r.flags map_fixed ≡ true) × (addr ≡ r.addr))
    ⊎ (Free l addr r.len × (k.mmap_min_addr ≤ addr))

module _ (k : GapEnv) (l : List Area) (y : Layout) (laws : IsGapEnv k l) (order : Ordered 0 l)
    (layout : IsLayout k y) where
  hint_fits-Free :
      (len addr : ℕ)
      → len ≤ y.mmap_end
      → hint_fits k y l len addr ≡ true
      → Free l addr len × (k.mmap_min_addr ≤ addr)
  unfolding hint_fits
  hint_fits-Free len addr fits h =
      let room : addr + len ≤ y.mmap_end = ground (arith, layout.small_end) in
      let above : (a : Area) → area_after addr l ≡ some a → addr + len ≤ a.vm_start =
        λ a e. let low = laws.under a in ground (arith, layout.small_end) in
      (area_after-clear 0 addr len l order above, ground arith)

  before_search-cases :
      (r : AreaRequest)
      → ((before_search k y l r ≡ none) × (r.len ≤ y.mmap_end))
        ⊎ ((addr : ℕ) × (before_search k y l r ≡ some addr) × Answers k l r addr)
  unfolding before_search
  before_search-cases r =
      let hint = hint_fits-Free r.len (page_align r.addr) in
      ground (arith, layout.min_end, layout.small_end)

  search_info-IsSearch :
      (topdown : Bool) (len low high : ℕ)
      → 0 < len
      → len ≤ y.mmap_end
      → 0 < high
      → high < word
      → low < word
      → IsSearch k (search_info topdown len low high)
  search_info-IsSearch topdown len low high pos room some_high small_high small_low = record {
    some_length = pos;
    some_room = some_high;
    room = omega arith;
    long = omega (arith, layout.small_end);
    low = small_low;
    min_low = omega (arith, layout.min_end, layout.small_end);
  }

  -- A search made for a request answers it.
  search-Answers :
      (r : AreaRequest) (topdown : Bool) (low high : ℕ)
      → 0 < r.len
      → r.len ≤ y.mmap_end
      → 0 < high
      → high < word
      → low < word
      → (topdown ≡ false) ⊎ StacksAbove k l
      → (addr : ℕ) × (vm_unmapped_area k (search_info topdown r.len low high) l ≡ some addr)
        × Answers k l r addr
  search-Answers r topdown low high pos room some_high small_high small_low stacks =
      let found =
        vm_unmapped_area-finds k l (search_info topdown r.len low high) laws order
          (search_info-IsSearch topdown r.len low high pos room some_high small_high small_low)
          stacks in
      (
        found.0,
        found.1,
        elim found.2 [ inl e ↦ inl e | inr (f, min_low) ↦ inr (inr (f.free, min_low)) ],
      )

  -- Over areas in order, a tree and gaps as documented, and a layout that leaves room in the word,
  -- each request for a range of some length is answered, from the bottom up: with -ENOMEM, with
  -- the address that a fixed request names, or with a range that is free and above mmap_min_addr.
  pub generic_get_unmapped_area-Answers :
      (r : AreaRequest)
      → 0 < r.len
      → (addr : ℕ) × (generic_get_unmapped_area k y l r ≡ some addr) × Answers k l r addr
  unfolding generic_get_unmapped_area
  generic_get_unmapped_area-Answers r pos = elim (before_search-cases r) [
    | inl (e, room) ↦
        let found =
          search-Answers r false y.mmap_base y.mmap_end pos room layout.some_end layout.small_end
            layout.small_base (inl refl) in
        (found.0, ground (arith, found.1), found.2)
    | inr (addr, e, answer) ↦ (addr, ground arith, answer)
  ]

  -- The same from the top down, where a failed search is made again from the bottom up, if no stack
  -- lies within its guard gap of address 0.
  pub generic_get_unmapped_area_topdown-Answers :
      (r : AreaRequest)
      → StacksAbove k l
      → 0 < r.len
      → (addr : ℕ) × (generic_get_unmapped_area_topdown k y l r ≡ some addr) × Answers k l r addr
  unfolding generic_get_unmapped_area_topdown
  generic_get_unmapped_area_topdown-Answers r stacks pos = elim (before_search-cases r) [
    | inl (e, room) ↦
        let down =
          search-Answers r true page_size y.topdown_base pos room layout.some_topdown
            layout.small_topdown (omega arith) (inr stacks) in
        let up =
          search-Answers r false y.unmapped_base y.mmap_end pos room layout.some_end
            layout.small_end layout.small_unmapped (inl refl) in
        elim (ℕ_discrete (down.0 % page_size) 0) [
          | yes aligned ↦ (down.0, ground (arith, down.1), down.2)
          | no bad ↦ (up.0, ground (arith, down.1, up.1), up.2)
        ]
    | inr (addr, e, answer) ↦ (addr, ground arith, answer)
  ]

-- The checks of an architecture and of a security module return 0 or an error.
pub record IsChooseEnv (c : ChooseEnv) (r : AreaRequest) : Type 0 where
  pub arch : (c.arch_mmap_check r ≡ 0) ⊎ (is_err_value (c.arch_mmap_check r) ≡ true)
  pub security :
      (addr : ℕ)
      → (c.security_mmap_addr addr ≡ 0) ⊎ (is_err_value (c.security_mmap_addr addr) ≡ true)
  pub small : c.task_size < word

-- An error, or the address that was chosen, which has passed all checks.
get_unmapped_area-cases :
    (c : ChooseEnv) (file : Option (Option (AreaRequest → ℕ))) (r : AreaRequest)
    → IsChooseEnv c r
    → let chosen =
        chosen_get_area c file r.flags (if is_anonymous file then record r { pgoff = 0 } else r) in
      (is_err_value (get_unmapped_area c file r) ≡ true)
      ⊎ ((get_unmapped_area c file r ≡ chosen)
          × (chosen + r.len ≤ c.task_size)
          × (chosen % page_size ≡ 0)
          × (c.security_mmap_addr chosen ≡ 0))
unfolding get_unmapped_area
get_unmapped_area-cases c file r e =
    let chosen =
      chosen_get_area c file r.flags (if is_anonymous file then record r { pgoff = 0 } else r) in
    let secure = e.security chosen in ground (arith, e.arch, e.small)

-- Whatever function chooses the address, with checks that return 0 or an error,
-- `get_unmapped_area` returns an error, or an address at a page from which the length ends within
-- the address space of the process and which the security module allows.
pub get_unmapped_area-bounds :
    (c : ChooseEnv) (file : Option (Option (AreaRequest → ℕ))) (r : AreaRequest)
    → IsChooseEnv c r
    → let addr = get_unmapped_area c file r in
      (is_err_value addr ≡ true)
      ⊎ ((addr + r.len ≤ c.task_size) × (addr % page_size ≡ 0) × (c.security_mmap_addr addr ≡ 0))
get_unmapped_area-bounds c file r e = elim (get_unmapped_area-cases c file r e) [
  | inl bad ↦ inl bad
  | inr (same, fits, aligned, secure) ↦ rw same (inr (fits, aligned, secure))
]

-- A request for private anonymous memory of some length at no fixed address, of a process whose areas are in
-- order, with no stack within its guard gap of address 0, and whose function is the one that
-- searches from the top down, with a tree, gaps and
-- checks as documented, a layout that leaves room, and no huge pages for it: what
-- `get_unmapped_area` returns is an error, or starts a range that shows no page, above
-- mmap_min_addr and within the address space.
pub get_unmapped_area-Free :
    (k : GapEnv) (l : List Area) (y : Layout) (c : ChooseEnv) (r : AreaRequest)
    → IsGapEnv k l
    → Ordered 0 l
    → StacksAbove k l
    → IsLayout k y
    → IsChooseEnv c r
    → ((q : AreaRequest)
        → 0 < q.len
        → generic_get_unmapped_area_topdown k y l q ≡ some (c.mm_get_area q))
    → c.transparent_hugepage ≡ false
    → has r.flags map_shared ≡ false
    → has r.flags map_fixed ≡ false
    → 0 < r.len
    → let addr = get_unmapped_area c none r in
      (is_err_value addr ≡ true)
      ⊎ (Free l addr r.len × (k.mmap_min_addr ≤ addr) × (addr + r.len ≤ c.task_size))
get_unmapped_area-Free k l y c r laws o stacks layout e gets no_huge private floating pos =
    let q : AreaRequest = record r { pgoff = 0 } in
    let answer = generic_get_unmapped_area_topdown-Answers k l y laws o layout q stacks pos in
    let same : c.mm_get_area q ≡ answer.0 = ground (arith, gets q pos, answer.1) in
    elim (get_unmapped_area-cases c none r e) [
      | inl bad ↦ inl bad
      | inr (chosen, fits, aligned, secure) ↦
          let it : get_unmapped_area c none r ≡ answer.0 = ground (arith, chosen, same) in
          rw it (elim answer.2 [
            | inl bad ↦ inl (ground arith)
            | inr (inl (fixed, z)) ↦ ground arith
            | inr (inr (free, min_low)) ↦ inr (free, min_low, ground arith)
          ])
    ]
