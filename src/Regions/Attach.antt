-- ===== src/Regions/Attach.antt =====
-- `attach` and `place` of `mmap_region`, on every path.
use so2_202110206_2svac.Common.{
  ℕ, ◌≤◌, ◌<◌, ◌≡◌, inl, inr, refl, sym, subst, ap, true, List, [], ◌∷◌, ◌++◌, Option, none, some,
  length, arith, Option-cases, Bool-cases, ◌∙◌, leb,
}
use so2_202110206_2svac.Common.Word.{page_shr}
use so2_202110206_2svac.Common.Result.{ok, err}
use so2_202110206_2svac.Kernel.{Mm}
use so2_202110206_2svac.Areas.{Area, Space, vma_pages}
use so2_202110206_2svac.Areas.View.{IsArea, Ordered, inside, view, view-below}
use so2_202110206_2svac.Regions.{Region, RegionEnv, is_special}
use so2_202110206_2svac.Regions.Flags.{special_alike}
use so2_202110206_2svac.Regions.Fills.{Fills-front}
use so2_202110206_2svac.Regions.Join.{Placed, before, end_of, expand, vma_merge_new_vma}
use so2_202110206_2svac.Regions.Joined.{Around, some_inj}
use so2_202110206_2svac.Regions.Merged.{expand-Merges, vma_merge_new_vma-Merges}
use so2_202110206_2svac.Regions.Map.{Mapped, requested, place_new, settle, attach, behind, place}
use so2_202110206_2svac.Regions.Made.{
  Documented, Origin, Outcome, fails, stands, merges, place_new-Outcome,
}
use so2_202110206_2svac.Regions.Settle.{Lockable, Shows, Ends, merged-Shows, alone-Shows}

Around-range :
    (lo : ℕ) (a b : Area) (prev : Option Area) (l : List Area)
    → a.vm_start ≡ b.vm_start
    → a.vm_end ≡ b.vm_end
    → IsArea a
    → Around lo b prev l
    → Around lo a prev l
Around-range lo a b none l s e area (h, _, o) =
    (omega arith, area, subst (λ n. Ordered n l) (sym e) o)
Around-range lo a b (some q) l s e area (h, first, under, _, o) =
    (h, first, omega arith, area, subst (λ n. Ordered n l) (sym e) o)

Around-IsArea :
    (lo : ℕ) (b : Area) (prev : Option Area) (l : List Area) → Around lo b prev l → IsArea b
Around-IsArea lo b none l around = around.1
Around-IsArea lo b (some q) l around = around.3

module _ (k : RegionEnv) (d : Documented k) (r : Region)
    (whole : page_shr r.len ≡ vma_pages (requested r)) where
  -- An area that is made for a sound request has its range and is sound.
  Origin-IsArea :
      (a : Area)
      → IsArea (requested r)
      → Origin k r a
      → IsArea a × (a.vm_start ≡ r.addr) × (a.vm_end ≡ end_of r)
  Origin-IsArea a area (inl e) = (subst IsArea (sym e) area, ap Area.vm_start e, ap Area.vm_end e)
  Origin-IsArea a area (inr (inl (e, at))) =
      let end = d.keeps_end (requested r) a e in
      let fits = d.offset (requested r) a area e in
      (
        record {
          start_aligned = omega (arith, area.start_aligned);
          end_aligned = omega (arith, area.end_aligned);
          nonempty = omega (arith, area.nonempty);
          bounded = omega (arith, area.bounded);
          fits = rw (at, end) fits;
        },
        at,
        end,
      )
  Origin-IsArea a area (inr (inr (f, e, same))) =
      let sound : IsArea (record (requested r) { vm_file = some f }) = record {
        start_aligned = area.start_aligned;
        end_aligned = area.end_aligned;
        nonempty = area.nonempty;
        bounded = area.bounded;
        fits = area.fits;
      } in
      (subst IsArea (sym same) sound, ap Area.vm_start same, ap Area.vm_end same)

  Origin-Around :
      (lo : ℕ) (a : Area) (prev : Option Area) (l : List Area)
      → Origin k r a
      → Around lo (requested r) prev l
      → Around lo a prev l
  Origin-Around lo a prev l o around =
      let sound = Origin-IsArea a (Around-IsArea lo (requested r) prev l around) o in
      Around-range lo a (requested r) prev l sound.1 sound.2 sound.0 around

  module _ (lo : ℕ) (mm : Mm) where
    again-Shows :
        (prev q a : Area) (l : List Area) (p : Placed)
        → Around lo (requested r) (some prev) l
        → length (prev ∷ l) ≤ mm.map_count
        → Lockable k (prev ∷ l)
        → Origin k r a
        → prev ≡ q
        → vma_merge_new_vma k mm.map_count q l a ≡ some p
        → Shows k r lo mm (prev ∷ l) (settle k mm r.len p.area.vm_flags p)
    again-Shows prev q a l p around n lockable o same e =
        let (m, plain) =
          vma_merge_new_vma-Merges k a (Origin-IsArea a around.3 o).0 lo mm.map_count p prev l
            (Origin-Around lo a (some prev) l o around) (omega arith)
            (subst (λ q. vma_merge_new_vma k mm.map_count q l a ≡ some p) (sym same) e) in
        merged-Shows k d r lo mm (some prev) l a o p.area.vm_flags p m.same
          (special_alike p.area.vm_flags a.vm_flags m.same ∙ plain) lockable m

    -- What the second part of `attach` comes to.
    outcome-Ends :
        (prev : Option Area) (l : List Area)
        → Around lo (requested r) prev l
        → length (before prev ++ l) ≤ mm.map_count
        → Lockable k (before prev ++ l)
        → Outcome k mm.map_count r prev l (place_new k mm.map_count r prev l)
        → Ends k r lo mm (before prev ++ l) (elim (place_new k mm.map_count r prev l) [
          | ok p ↦ settle k mm r.len p.area.vm_flags p
          | err e ↦ record { space = record { mm = mm; areas = before prev ++ l }; code = e }
        ])
    unfolding settle
    outcome-Ends prev l around n lockable (fails e bad z) = rw z (inr (bad, refl))
    outcome-Ends prev l around n lockable (stands a o z) =
        rw z (inl (refl, alone-Shows k d r lo mm prev l a o (Origin-Around lo a prev l o around)))
    outcome-Ends none l around n lockable (merges a q p o e m z) = absurd (cc)
    outcome-Ends (some prev) l around n lockable (merges a q p o e m z) =
        rw z (inl (refl, again-Shows prev q a l p around n lockable o (some_inj prev q e) m))

    attach-Ends :
        (prev : Option Area) (l : List Area)
        → Around lo (requested r) prev l
        → length (before prev ++ l) ≤ mm.map_count
        → Lockable k (before prev ++ l)
        → Ends k r lo mm (before prev ++ l) (attach k mm r prev l)
    unfolding attach settle
    attach-Ends prev l around n lockable =
        let new =
          outcome-Ends prev l around n lockable (place_new-Outcome k d mm.map_count r prev l) in
        elim (Bool-cases (is_special r.vm_flags)) [
          | inl special ↦ rw (attach, special) new
          | inr plain ↦ elim (Option-cases (expand k mm.map_count r prev l)) [
            | inl e ↦ rw (attach, plain, e) new
            | inr (p, e) ↦
                rw (attach, plain, e)
                  (inl (
                    refl,
                    merged-Shows k d r lo mm prev l (requested r) (inl refl) r.vm_flags p refl plain
                        lockable (expand-Merges k r lo mm.map_count p whole prev l around n e),
                  ))
          ]
        ]

  pub Shows-range :
      (lo : ℕ) (mm : Mm) (l : List Area) (m : Mapped)
      → IsArea (requested r)
      → (s : Shows k r lo mm l m) → (s.area.vm_start ≡ r.addr) × (s.area.vm_end ≡ end_of r)
  Shows-range lo mm l m area s =
      let made = Origin-IsArea s.made area s.origin in
      elim s.settled [
        | inl (_, e) ↦ (ap Area.vm_start e ∙ made.1, ap Area.vm_end e ∙ made.2)
        | inr (_, e) ↦ (ap Area.vm_start e ∙ made.1, ap Area.vm_end e ∙ made.2)
      ]

  -- An outcome with an area in front that ends before the range.
  Ends-front :
      (lo : ℕ) (mm : Mm) (q : Area) (l : List Area) (m : Mapped)
      → IsArea (requested r)
      → lo ≤ q.vm_start
      → IsArea q
      → q.vm_end ≤ r.addr
      → Ends k r q.vm_end mm l m
      → Ends k r lo mm (q ∷ l) (behind (some q) m)
  Ends-front lo mm q l m area h first under (inr (bad, e)) =
      inr (bad, ap (λ (s : Space). record s { areas = q ∷ s.areas }) e)
  Ends-front lo mm q l m area h first under (inl (done, s)) =
      let range = Shows-range q.vm_end mm l m area s in
      inl (
        done,
        record {
          made = s.made;
          area = s.area;
          origin = s.origin;
          settled = s.settled;
          fills = Fills-front lo q s.area l m.space.areas _ _ h first (omega arith) s.fills;
          charges = s.charges;
          allowed = s.allowed;
        },
      )

  Lockable-tail :
      (q : Area) (l : List Area) → Ordered q.vm_end l → Lockable k (q ∷ l) → Lockable k l
  Lockable-tail q l o lockable x p shown locked =
      let low = view-below q.vm_end x l o in lockable x p (ground arith) locked

  -- Areas in front of the range, as the search has seen them.
  abbrev pub Passed : ℕ → Option Area → List Area → Type 0
  Passed lo none l = (lo ≤ r.addr) × Ordered lo l
  Passed lo (some q) l = (lo ≤ q.vm_start) × IsArea q × (q.vm_end ≤ r.addr) × Ordered q.vm_end l

  Passed-Around :
      (lo : ℕ) (prev : Option Area) (l : List Area)
      → IsArea (requested r)
      → Ordered (end_of r) l
      → Passed lo prev l
      → Around lo (requested r) prev l
  Passed-Around lo none l area o passed = (passed.0, area, o)
  Passed-Around lo (some q) l area o passed = (passed.0, passed.1, passed.2, area, o)

  abbrev pub Free : List Area → Type 0
  Free l = (x : ℕ) → inside r.addr (end_of r) x ≡ true → view l x ≡ none

  Free-tail : (a : Area) (more : List Area) → Free (a ∷ more) → Free more
  Free-tail a more free x h = let none_there = free x h in ground arith

  -- The first area that ends past the start of a free range starts past its end.
  Free-starts :
      (a : Area) (more : List Area)
      → IsArea (requested r)
      → IsArea a
      → r.addr < a.vm_end
      → Free (a ∷ more)
      → end_of r ≤ a.vm_start
  Free-starts a more area sound past free =
      let at = free r.addr in
      let from = free a.vm_start in ground (arith, area.nonempty, sound.nonempty)

  pub place-Ends :
      (lo : ℕ) (mm : Mm) (prev : Option Area) (l : List Area)
      → IsArea (requested r)
      → Passed lo prev l
      → Free l
      → length (before prev ++ l) ≤ mm.map_count
      → Lockable k (before prev ++ l)
      → Ends k r lo mm (before prev ++ l) (place k mm r prev l)
  unfolding place
  place-Ends lo mm none [] area passed free n lockable =
      attach-Ends lo mm none [] (Passed-Around lo none [] area tt passed) n lockable
  place-Ends lo mm (some q) [] area passed free n lockable =
      attach-Ends lo mm (some q) [] (Passed-Around lo (some q) [] area tt passed) n lockable
  place-Ends lo mm none (a ∷ more) area (h, (from, sound, o)) free n lockable =
      let rest = λ (x : ℕ) (p : inside r.addr (end_of r) x ≡ true). Free-tail a more free x p in
      elim (Bool-cases (leb a.vm_end r.addr)) [
        | inl low ↦
            rw low
              (place-Ends lo mm (some a) more area (from, sound, ground arith, o) rest n lockable)
        | inr high ↦
            let starts = Free-starts a more area sound (ground arith) free in
            rw high (attach-Ends lo mm none (a ∷ more) (h, area, (starts, sound, o)) n lockable)
      ]
  place-Ends lo mm (some q) (a ∷ more) area (h, first, under, (from, sound, o)) free n lockable =
      let rest = λ (x : ℕ) (p : inside r.addr (end_of r) x ≡ true). Free-tail a more free x p in
      elim (Bool-cases (leb a.vm_end r.addr)) [
        | inl low ↦ rw low (
            Ends-front lo mm q (a ∷ more) _ area h first under (
              place-Ends q.vm_end mm (some a) more area (from, sound, ground arith, o) rest
                (omega arith) (Lockable-tail q (a ∷ more) (from, sound, o) lockable)))
        | inr high ↦
            let starts = Free-starts a more area sound (ground arith) free in
            rw high (
              attach-Ends lo mm (some q) (a ∷ more) (h, first, under, area, (starts, sound, o)) n
                lockable)
      ]
