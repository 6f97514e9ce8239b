-- ===== src/Regions/Flags.antt =====
-- The flags of areas, with and without the mark VM_SOFTDIRTY, which `mmap_region` sets on every
-- area and which does not stand in the way of a merge.
use so2_202110206_2svac.Common.{
  ℕ, ◌≡◌, ◌∙◌, refl, sym, ap, false, bit_and, bit_or, not, ◌==◌, arith,
}
use so2_202110206_2svac.Common.Bits.{bit_and-clear_ne, bit_and-clear_self, clear-bit_or}
use so2_202110206_2svac.Mmap.{has, without, vm_locked}
use so2_202110206_2svac.Regions.{vm_softdirty, vm_lockonfault, is_special}

-- The same but for the mark.
abbrev pub Alike : ℕ → ℕ → Type 0
Alike f g = without f vm_softdirty ≡ without g vm_softdirty

pub mark-Alike : (f : ℕ) → Alike (bit_or f vm_softdirty) f
mark-Alike f = clear-bit_or 27 f

abbrev holds : ℕ → ℕ → ℕ
holds m f = bit_and f m

-- Any other flag is read alike.
alike_flag :
    (m f g : ℕ)
    → ((h : ℕ) → bit_and (without h vm_softdirty) m ≡ bit_and h m)
    → Alike f g
    → has f m ≡ has g m
alike_flag m f g clear e = ap (λ n. not (n == 0)) (sym (clear f) ∙ ap (holds m) e ∙ clear g)

pub locked_alike : (f g : ℕ) → Alike f g → has f vm_locked ≡ has g vm_locked
locked_alike f g = alike_flag vm_locked f g (λ h. bit_and-clear_ne 13 27 h (omega arith))

pub special_alike : (f g : ℕ) → Alike f g → is_special f ≡ is_special g
special_alike f g e =
    let io = alike_flag 0x4000 f g (λ h. bit_and-clear_ne 14 27 h (omega arith)) e in
    let dontexpand = alike_flag 0x4_0000 f g (λ h. bit_and-clear_ne 18 27 h (omega arith)) e in
    let pfnmap = alike_flag 0x400 f g (λ h. bit_and-clear_ne 10 27 h (omega arith)) e in
    let mixedmap = alike_flag 0x1000_0000 f g (λ h. bit_and-clear_ne 28 27 h (omega arith)) e in
    rw (io, dontexpand, pfnmap, mixedmap) refl

-- What clears VM_LOCKED_MASK clears VM_LOCKED.
pub cleared_not_locked :
    (f : ℕ) → has (without (without f vm_locked) vm_lockonfault) vm_locked ≡ false
cleared_not_locked f =
    ap (λ n. not (n == 0))
      (bit_and-clear_ne 13 19 (without f vm_locked) (omega arith) ∙ bit_and-clear_self 13 f)
