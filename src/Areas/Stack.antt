-- ===== src/Areas/Stack.antt =====
-- The growth of a stack in mmap.c: `acct_stack_growth`, `expand_downwards` and
-- `find_extend_vma_locked`, for stacks that grow downwards.
use so2_202110206_2svac.Common.{
  ℕ, ◌-◌, ◌*◌, ◌/◌, Bool, false, not, ◌&&◌, ◌||◌, List, [], ◌∷◌, Option, none, some, ltb, leb,
  if◌then◌else◌,
}
use so2_202110206_2svac.Common.Result.{Result, ok, err, ◌>>◌, refuse_if}
use so2_202110206_2svac.Common.Word.{page_size, add64, sub64, page_shl, page_shr}
use so2_202110206_2svac.Kernel.{Mm, enomem, efault, eperm}
use so2_202110206_2svac.Mmap.{MmapEnv, has, vm_locked, vm_grows}
use so2_202110206_2svac.Mmap.Checks.{mlock_future_ok, may_expand_vm}
use so2_202110206_2svac.Areas.{Area, Space, AreaEnv, vm_stat_account}

-- The kernel around one growth.
pub record StackEnv : Type 0 where
  pub kernel : MmapEnv
  pub area_env : AreaEnv
  pub rlimit_stack : ℕ
  pub first_user_address : ℕ
  pub is_hugepage_only_range : ℕ → ℕ → Bool
  pub vma_is_accessible : Area → Bool
  pub preallocate_ok : Area → Bool
  pub anon_vma_prepare_ok : Area → Bool

-- `address & PAGE_MASK`
abbrev pub page_down : ℕ → ℕ
page_down address = address / page_size * page_size

unfoldable pub acct_stack_growth : StackEnv → Mm → Area → ℕ → ℕ → Result (Unit {0})
acct_stack_growth k mm a size grow = do
  refuse_if (not (may_expand_vm k.kernel mm a.vm_flags grow)) enomem
  refuse_if (ltb k.rlimit_stack size) enomem
  refuse_if (not (mlock_future_ok k.kernel mm a.vm_flags (page_shl grow))) enomem
  refuse_if (k.is_hugepage_only_range (sub64 a.vm_end size) size) efault
  refuse_if (k.kernel.out_of_memory grow) enomem

-- The area before is too close to `address`, and no stack.
abbrev pub too_close : StackEnv → Option Area → ℕ → Bool
too_close k none address = false
too_close k (some prev) address =
    not (has prev.vm_flags vm_grows)
    && k.vma_is_accessible prev
    && ltb (sub64 address prev.vm_end) k.kernel.stack_guard_gap

-- The descriptor and the area once the growth is allowed.
abbrev pub grown : StackEnv → Mm → Area → ℕ → ℕ → Mm × Area
grown k mm a address grow =
    let locked : Mm =
      if has a.vm_flags vm_locked then record mm { locked_vm = add64 mm.locked_vm grow } else mm in
    (
      vm_stat_account k.area_env locked a.vm_flags grow,
      record a { vm_start = address; vm_pgoff = a.vm_pgoff - grow },
    )

unfoldable pub expand_downwards : StackEnv → Mm → Option Area → Area → ℕ → Result (Mm × Area)
expand_downwards k mm prev a addr =
    let address = page_down addr in
    let grow = page_shr (a.vm_start - address) in
    do
      refuse_if (not (has a.vm_flags vm_grows)) efault
      refuse_if (ltb address k.kernel.mmap_min_addr || ltb address k.first_user_address) eperm
      refuse_if (too_close k prev address) enomem
      refuse_if (not (k.preallocate_ok a)) enomem
      refuse_if (not (k.anon_vma_prepare_ok a)) enomem
      if ltb address a.vm_start
          then (do
            refuse_if (ltb a.vm_pgoff grow) enomem
            acct_stack_growth k mm a (a.vm_end - address) grow
            ok (grown k mm a address grow))
          else ok (mm, a)

-- The address space after a search, and the area found.
pub record Extended : Type 0 where
  pub space : Space
  pub found : Option Area

-- The walk of `find_extend_vma_locked`, which knows the area before.
unfoldable pub extend : StackEnv → Mm → Option Area → ℕ → List Area → Extended
extend k mm prev addr [] = record { space = record { mm = mm; areas = [] }; found = none }
extend k mm prev addr (a ∷ more) =
    let there : Space = record { mm = mm; areas = a ∷ more } in
    let later = extend k mm (some a) addr more in
    if leb a.vm_end addr
    then record later { space = record later.space { areas = a ∷ later.space.areas } }
    else if leb a.vm_start addr
    then record { space = there; found = some a }
    else elim (expand_downwards k mm prev a addr) [
      | err e ↦ record { space = there; found = none }
      | ok (mm', a') ↦ record { space = record { mm = mm'; areas = a' ∷ more }; found = some a' }
    ]

unfoldable pub find_extend_vma_locked : StackEnv → Space → ℕ → Extended
find_extend_vma_locked k s addr = extend k s.mm none (page_down addr) s.areas
