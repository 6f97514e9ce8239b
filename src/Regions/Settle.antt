-- ===== src/Regions/Settle.antt =====
-- `attach` and `place`: the mapping shows in its range and nothing else changes, or the call fails
-- and nothing changes at all.
use so2_202110206_2svac.Common.{
  ℕ, ◌+◌, ◌≡◌, ◌≢◌, ◌⊎◌, inl, inr, refl, sym, subst, true, false, List, ◌∷◌, ◌++◌, Option, none,
  some, arith, Bool-cases, Bool, ◌&&◌, ◌||◌, not, ◌∙◌, ap, if◌then◌else◌,
}
use so2_202110206_2svac.Common.Word.{page_shr, add64}
use so2_202110206_2svac.Kernel.{Mm}
use so2_202110206_2svac.Mmap.{has, without, vm_locked}
use so2_202110206_2svac.Areas.{Area}
use so2_202110206_2svac.Areas.Munmap.{vm_stat_account-total_vm}
use so2_202110206_2svac.Areas.View.{Page, IsArea-flags, view}
use so2_202110206_2svac.Regions.{Region, RegionEnv, vm_lockonfault, is_special}
use so2_202110206_2svac.Regions.Flags.{
  Alike, mark-Alike, locked_alike, special_alike, cleared_not_locked,
}
use so2_202110206_2svac.Regions.Fills.{Fills, Fills-front, Fills-new}
use so2_202110206_2svac.Regions.Join.{Placed, before}
use so2_202110206_2svac.Regions.Joined.{Around, Merges}
use so2_202110206_2svac.Regions.Map.{Mapped, unlockable, settled_flags, settled_mm, settle}
use so2_202110206_2svac.Regions.Made.{Documented, Origin, alone}

-- What forbids to lock pages: one of VM_IO, VM_DONTEXPAND, VM_PFNMAP and VM_MIXEDMAP among their
-- flags, a file that bypasses the page cache, or huge pages.
abbrev pub forbids : RegionEnv → Option ℕ → ℕ → Bool
forbids k file flags =
    has flags 0x4000
    || has flags 0x4_0000
    || has flags 0x400
    || has flags 0x1000_0000
    || k.is_dax_or_hugetlb file flags

-- No page is locked that must not be.
abbrev pub Lockable : RegionEnv → List Area → Type 0
Lockable k l =
    (x : ℕ) (p : Page)
    → view l x ≡ some p
    → has p.flags vm_locked ≡ true
    → forbids k p.file p.flags ≡ false

-- Locks are asked of an area that must not have them.
abbrev pub mislocked : RegionEnv → Area → Bool
mislocked k a = has a.vm_flags vm_locked && forbids k a.vm_file a.vm_flags

-- The area that a mapping shows: the one that was made, unless locks are asked of it that it must
-- not have; then that one without them.
abbrev pub Settled : RegionEnv → Area → Area → Type 0
Settled k a b =
    ((mislocked k a ≡ false) × (b ≡ a))
    ⊎ ((mislocked k a ≡ true)
        × (b ≡ record a { vm_flags = without (without a.vm_flags vm_locked) vm_lockonfault }))

-- The mark VM_SOFTDIRTY does not bear on it.
pub forbids_alike :
    (k : RegionEnv) (d : Documented k) (file : Option ℕ) (f g : ℕ)
    → Alike f g
    → forbids k file f ≡ forbids k file g
forbids_alike k d file f g e =
    let special = special_alike f g e in let dax = d.unmarked_dax file f g e in ground arith

-- A descriptor after so many pages are mapped.
pub record Charges (mm mm' : Mm) (flags pages : ℕ) : Type 0 where
  pub total : mm'.total_vm ≡ add64 mm.total_vm pages
  pub locked :
      mm'.locked_vm ≡ (if has flags vm_locked then add64 mm.locked_vm pages else mm.locked_vm)

settled_mm-Charges :
    (k : RegionEnv) (mm : Mm) (len vm_flags flags : ℕ) (p : Placed)
    → has flags vm_locked ≡ (has vm_flags vm_locked && not (unlockable k vm_flags p.area))
    → let m = settled_mm k mm len vm_flags p in
      Charges mm m flags (page_shr len) × (m.map_count ≡ p.map_count)
settled_mm-Charges k mm len vm_flags flags p e =
    let c =
      vm_stat_account-total_vm k.area_env (record mm { map_count = p.map_count }) vm_flags
        (page_shr len) in
    (record { total = ground arith; locked = ground arith }, ground arith)

-- A mapping that is made in the gap after `prev`, of a list of areas.
pub record Shows (k : RegionEnv) (r : Region) (lo : ℕ) (mm : Mm) (l : List Area) (m : Mapped)
    : Type 0 where
  pub made : Area
  pub area : Area
  pub origin : Origin k r made
  pub settled : Settled k made area
  pub fills : Fills lo area l m.space.areas mm.map_count m.space.mm.map_count
  pub charges : Charges mm m.space.mm area.vm_flags (page_shr r.len)
  pub allowed : has area.vm_flags vm_locked ≡ true → forbids k area.vm_file area.vm_flags ≡ false

-- Success, or an error that leaves everything.
abbrev pub Ends : RegionEnv → Region → ℕ → Mm → List Area → Mapped → Type 0
Ends k r lo mm l m =
    ((m.code ≡ 0) × Shows k r lo mm l m)
    ⊎ ((m.code ≢ 0) × (m.space ≡ record { mm = mm; areas = l }))

Fills-Around :
    (lo : ℕ) (b : Area) (prev : Option Area) (l : List Area) (f count : ℕ)
    → Around lo b prev l
    → Alike f b.vm_flags
    → Fills lo b (before prev ++ l) (before prev ++ record b { vm_flags = f } ∷ l) count (count + 1)
Fills-Around lo b none l f count (h, area, o) alike = Fills-new lo b f l area alike count h o
Fills-Around lo b (some q) l f count (h, first, under, area, o) alike =
    Fills-front lo q b l _ count (count + 1) h first under
      (Fills-new q.vm_end b f l area alike count under o)

-- The range of an area is what matters around it.
Around-flags :
    (lo : ℕ) (a : Area) (f : ℕ) (prev : Option Area) (l : List Area)
    → Around lo a prev l
    → Around lo (record a { vm_flags = f }) prev l
Around-flags lo a f none l (h, area, o) = (h, IsArea-flags a f area, o)
Around-flags lo a f (some q) l (h, first, under, area, o) =
    (h, first, under, IsArea-flags a f area, o)

abbrev clears : RegionEnv → ℕ → Area → Bool
clears k vm_flags a = has vm_flags vm_locked && unlockable k vm_flags a

module _ (k : RegionEnv) (d : Documented k) (r : Region) (lo : ℕ) (mm : Mm) (prev : Option Area)
    (l : List Area) (a : Area) (origin : Origin k r a) where
  -- A mapping that another area takes in. That area is locked only if it may be.
  merged-clears :
      (vm_flags : ℕ) (p : Placed)
      → Alike vm_flags a.vm_flags
      → is_special vm_flags ≡ false
      → Lockable k (before prev ++ l)
      → Merges lo a prev l mm.map_count p
      → clears k vm_flags p.area ≡ false
  merged-clears vm_flags p alike plain lockable m =
      let locked = locked_alike vm_flags p.area.vm_flags (alike ∙ sym m.same) in
      let page = m.seen.page in
      let same = ap (λ f. has f vm_locked) m.seen.flags in
      let seen =
        ap (λ f. forbids k page.file f) m.seen.flags
        ∙ ap (λ f. forbids k f p.area.vm_flags) m.seen.file in
      elim (Bool-cases (has vm_flags vm_locked)) [
        | inr f ↦ rw f refl
        | inl t ↦
            let allowed = lockable m.seen.at page m.seen.there (same ∙ sym locked ∙ t) in
            let here : forbids k p.area.vm_file p.area.vm_flags ≡ false = sym seen ∙ allowed in
            ground arith
      ]

  -- So the mapping itself may be.
  merged-mislocked :
      (vm_flags : ℕ) (p : Placed)
      → Alike vm_flags a.vm_flags
      → is_special vm_flags ≡ false
      → Merges lo a prev l mm.map_count p
      → clears k vm_flags p.area ≡ false
      → mislocked k a ≡ false
  merged-mislocked vm_flags p alike plain m clear =
      let locked = locked_alike a.vm_flags vm_flags (sym alike) in
      let special = special_alike a.vm_flags vm_flags (sym alike) in
      let dax =
        d.unmarked_dax p.area.vm_file p.area.vm_flags a.vm_flags m.same
        ∙ ap (λ f. k.is_dax_or_hugetlb f a.vm_flags) m.same_file in
      ground arith

  pub merged-Shows :
      (vm_flags : ℕ) (p : Placed)
      → Alike vm_flags a.vm_flags
      → is_special vm_flags ≡ false
      → Lockable k (before prev ++ l)
      → Merges lo a prev l mm.map_count p
      → Shows k r lo mm (before prev ++ l) (settle k mm r.len vm_flags p)
  unfolding settle
  merged-Shows vm_flags p alike plain lockable m =
      let clear = merged-clears vm_flags p alike plain lockable m in
      let locked = locked_alike a.vm_flags vm_flags (sym alike) in
      let c = settled_mm-Charges k mm r.len vm_flags a.vm_flags p (ground arith) in
      let f : Alike (settled_flags k vm_flags p.area) a.vm_flags =
        rw clear (mark-Alike p.area.vm_flags ∙ m.same) in
      record {
        made = a;
        area = a;
        origin = origin;
        settled = inl (merged-mislocked vm_flags p alike plain m clear, refl);
        fills =
            subst
              (λ n.
                Fills lo a (before prev ++ l)
                  (p.front ++ record p.area { vm_flags = settled_flags k vm_flags p.area } ∷ p.back)
                  mm.map_count n)
              (sym c.1) (m.fills _ f);
        charges = c.0;
        allowed = λ t. let sound = merged-mislocked vm_flags p alike plain m clear in ground arith;
      }

  alone_with :
      (f : ℕ)
      → Settled k a (record a { vm_flags = f })
      → Alike (settled_flags k a.vm_flags a) f
      → has f vm_locked ≡ (has a.vm_flags vm_locked && not (unlockable k a.vm_flags a))
      → (has f vm_locked ≡ true → forbids k a.vm_file f ≡ false)
      → Around lo a prev l
      → Shows k r lo mm
          (before prev ++ l)
          (settle k mm r.len a.vm_flags (alone mm.map_count prev l a))
  unfolding settle
  alone_with f settled alike locked allowed around =
      let c = settled_mm-Charges k mm r.len a.vm_flags f (alone mm.map_count prev l a) locked in
      record {
        made = a;
        area = record a { vm_flags = f };
        origin = origin;
        settled = settled;
        fills =
            subst
              (λ n.
                Fills lo (record a { vm_flags = f }) (before prev ++ l)
                  (before prev ++ record a { vm_flags = settled_flags k a.vm_flags a } ∷ l)
                  mm.map_count n)
              (sym c.1)
              (Fills-Around lo (record a { vm_flags = f }) prev l _ mm.map_count
                (Around-flags lo a f prev l around) alike);
        charges = c.0;
        allowed = allowed;
      }

  -- A new area.
  pub alone-Shows :
      Around lo a prev l
      → Shows k r lo mm
          (before prev ++ l)
          (settle k mm r.len a.vm_flags (alone mm.map_count prev l a))
  alone-Shows around = elim (Bool-cases (clears k a.vm_flags a)) [
    | inr keep ↦
        alone_with a.vm_flags (inl (ground arith, refl)) (rw keep (mark-Alike a.vm_flags))
          (ground arith) (λ t. ground arith) around
    | inl clear ↦
        alone_with _ (inr (ground arith, refl)) (rw clear (mark-Alike _))
          (cleared_not_locked a.vm_flags ∙ ground arith)
          (λ t. let off = cleared_not_locked a.vm_flags in ground arith) around
  ]
