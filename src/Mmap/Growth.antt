-- ===== src/Mmap/Growth.antt =====
-- How `brk` changes the pages that the process has, and the break that it leaves and returns.
use so2_202110206_2svac.Common.{ℕ, ◌+◌, ◌≤◌, ◌≡◌, Option, arith}
use so2_202110206_2svac.Common.Word.{sub64, page_shr, page_align}
use so2_202110206_2svac.Kernel.{Mm}
use so2_202110206_2svac.Mmap.{MmapEnv, Vma}
use so2_202110206_2svac.Mmap.Brk.{original_brk, brk_move, brk_shrink, brk_grow, do_brk_flags}

-- What `do_vma_munmap` does not do: it adds no pages, and leaves `mm->brk` to its caller.
pub record Unmaps (k : MmapEnv) : Type 0 where
  pub no_pages : (mm : Mm) (a b : ℕ) → (k.do_vma_munmap mm a b).0.total_vm ≤ mm.total_vm
  pub same_brk : (mm : Mm) (a b : ℕ) → (k.do_vma_munmap mm a b).0.brk ≡ mm.brk

do_brk_flags-total_vm :
    (k : MmapEnv) (mm : Mm) (vma : Option Vma) (addr len flags : ℕ)
    → (do_brk_flags k mm vma addr len flags).0.total_vm ≤ mm.total_vm + page_shr len
unfolding do_brk_flags
do_brk_flags-total_vm k mm vma addr len flags = ground arith

module _ (k : MmapEnv) (u : Unmaps k) (mm : Mm) (brk : ℕ) where
  brk_shrink-total_vm :
      (newbrk oldbrk : ℕ) → (brk_shrink k mm brk newbrk oldbrk).mm.total_vm ≤ mm.total_vm
  unfolding brk_shrink
  brk_shrink-total_vm newbrk oldbrk =
      ground (arith, u.no_pages (record mm { brk = brk }) newbrk oldbrk)

  brk_grow-total_vm :
      (newbrk oldbrk : ℕ)
      → (brk_grow k mm brk newbrk oldbrk).mm.total_vm ≤ mm.total_vm + page_shr (sub64 newbrk oldbrk)
  unfolding brk_grow
  brk_grow-total_vm newbrk oldbrk = ground (
    arith,
    do_brk_flags-total_vm k mm (k.vma_prev_limit mm.start_brk) oldbrk (sub64 newbrk oldbrk) 0,
  )

  -- `brk` adds at most the pages between the old break and the new, and none to move it down.
  pub original_brk-total_vm :
      ((original_brk k mm brk).mm.total_vm
        ≤ mm.total_vm + page_shr (sub64 (page_align brk) (page_align mm.brk)))
      × (brk ≤ mm.brk → (original_brk k mm brk).mm.total_vm ≤ mm.total_vm)
  unfolding original_brk brk_move
  original_brk-total_vm =
      let shrunk = brk_shrink-total_vm (page_align brk) (page_align mm.brk) in
      let grown = brk_grow-total_vm (page_align brk) (page_align mm.brk) in
      (ground arith, ground arith)

  brk_shrink-result :
      (newbrk oldbrk : ℕ) → let o = brk_shrink k mm brk newbrk oldbrk in o.result ≡ o.mm.brk
  unfolding brk_shrink
  brk_shrink-result newbrk oldbrk =
      ground (arith, u.same_brk (record mm { brk = brk }) newbrk oldbrk)

  brk_grow-result :
      (newbrk oldbrk : ℕ) → let o = brk_grow k mm brk newbrk oldbrk in o.result ≡ o.mm.brk
  unfolding brk_grow
  brk_grow-result newbrk oldbrk = ground arith

  pub brk_move-result : let o = brk_move k mm brk in o.result ≡ o.mm.brk
  unfolding brk_move
  brk_move-result = ground (
    arith,
    brk_shrink-result (page_align brk) (page_align mm.brk),
    brk_grow-result (page_align brk) (page_align mm.brk),
  )
