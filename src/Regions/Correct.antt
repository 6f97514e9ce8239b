-- ===== src/Regions/Correct.antt =====
-- `mmap_region` as an operation on the map of addresses, and what it keeps true.
use so2_202110206_2svac.Common.{
  ℕ, ◌+◌, ◌%◌, ◌≤◌, ◌<◌, ◌≡◌, ◌≢◌, ◌⊎◌, inl, inr, sym, subst, ap, true, false, List, Option, none,
  some, arith, Bool-cases, Option-cases, ◌∙◌,
}
use so2_202110206_2svac.Common.Word.{word, page_size, page_shr, page_align}
use so2_202110206_2svac.Kernel.{enomem}
use so2_202110206_2svac.Mmap.{has, vm_locked}
use so2_202110206_2svac.Areas.{Area, AreaEnv, Space, vma_pages}
use so2_202110206_2svac.Areas.View.{Page, IsArea, IsArea-flags, inside, page_of, view, cut}
use so2_202110206_2svac.Areas.Unmap.{do_vmi_munmap}
use so2_202110206_2svac.Areas.Growth.{pages-bound, locked_pages-le}
use so2_202110206_2svac.Areas.Walk.{IsValid, do_vmi_munmap-IsValid, do_vmi_munmap-cuts}
use so2_202110206_2svac.Regions.{Region, RegionEnv}
use so2_202110206_2svac.Regions.Flags.{Alike, locked_alike}
use so2_202110206_2svac.Regions.Fills.{unmarked, fill, marked_view, marked_fill}
use so2_202110206_2svac.Regions.Join.{end_of}
use so2_202110206_2svac.Regions.Map.{Mapped, requested, charged, place, mmap_region}
use so2_202110206_2svac.Regions.Made.{Documented, Origin}
use so2_202110206_2svac.Regions.Settle.{forbids, forbids_alike, Lockable, Settled, Shows, Ends}
use so2_202110206_2svac.Regions.Attach.{Free, Shows-range, place-Ends}

-- A request as `do_mmap` passes it on: whole pages, whose numbers do not wrap.
pub record IsRequest (r : Region) : Type 0 where
  pub whole : r.len % page_size ≡ 0
  pub bounded : r.len < word
  pub numbered : r.pgoff + page_shr r.len < word

-- A well-formed address space in which only what may be locked is locked.
pub record IsSound (k : RegionEnv) (s : Space) : Type 0 where
  pub valid : IsValid s
  pub lockable : Lockable k s.areas

-- A range that is unmapped lies in the addresses of a process.
unmapped_range :
    (k : AreaEnv) (s : Space) (start len : ℕ)
    → k.task_size + page_size ≤ word
    → (do_vmi_munmap k s start len).code ≡ 0
    → (start % page_size ≡ 0) × (start + len + page_size ≤ word) × (start < start + page_align len)
unfolding do_vmi_munmap
unmapped_range k s start len small done = ground arith

-- A page may be locked if one that differs in the mark alone may be.
Alike-lockable :
    (k : RegionEnv) (d : Documented k) (p q : Page)
    → unmarked (some p) ≡ unmarked (some q)
    → (has q.flags vm_locked ≡ true → forbids k q.file q.flags ≡ false)
    → has p.flags vm_locked ≡ true
    → forbids k p.file p.flags ≡ false
Alike-lockable k d p q same allowed locked =
    let alike : Alike p.flags q.flags = cc in
    let file : p.file ≡ q.file = cc in
    let kept =
      forbids_alike k d p.file p.flags q.flags alike ∙ ap (λ f. forbids k f q.flags) file in
    kept ∙ allowed (sym (locked_alike p.flags q.flags alike) ∙ locked)

filled-Lockable :
    (k : RegionEnv) (d : Documented k) (b : Area)
    → (has b.vm_flags vm_locked ≡ true → forbids k b.vm_file b.vm_flags ≡ false)
    → (l : List Area) → Lockable k l
    → (x : ℕ) (p : Page) → unmarked (some p) ≡ unmarked (fill b (view l) x)
    → has p.flags vm_locked ≡ true
    → forbids k p.file p.flags ≡ false
filled-Lockable k d b allowed l lockable x p same locked =
    elim (Bool-cases (inside b.vm_start b.vm_end x)) [
      | inl t ↦ Alike-lockable k d p (page_of b x) (rw t at same) allowed locked
      | inr f ↦ elim (Option-cases (view l x)) [
        | inl e ↦ absurd (let gone = rw (f, e) at same in cc)
        | inr (q, e) ↦ Alike-lockable k d p q (rw (f, e) at same) (lockable x q e) locked
      ]
    ]

-- A well-formed address space after a mapping that shows and is charged.
Shows-IsSound :
    (k : RegionEnv) (d : Documented k) (r : Region) (s : Space) (m : Mapped)
    → IsArea (requested r)
    → page_shr r.len ≡ vma_pages (requested r)
    → IsSound k s
    → Shows k r 0 s.mm s.areas m
    → IsSound k m.space
Shows-IsSound k d r s m area whole v w =
    let range = Shows-range k d r whole 0 s.mm s.areas m area w in
    let n : vma_pages w.area ≡ page_shr r.len = rw (range.0, range.1) (sym whole) in
    let f = w.fills in
    let all = pages-bound 0 m.space.areas (omega arith) f.ordered in
    let some_locked = locked_pages-le m.space.areas in
    let c = v.valid.counts in
    record {
      valid = record {
        ordered = f.ordered;
        counts = record {
          all_pages = omega (arith, w.charges.total, f.all_pages, c.all_pages);
          all_locked = ground (arith, w.charges.locked, f.all_locked, c.all_locked);
          all_areas = omega (arith, f.counted, c.all_areas);
          small = omega (arith, w.charges.total);
          small_locked = ground (arith, w.charges.locked, c.small_locked);
        };
      };
      lockable = λ x p shown locked.
          let same : unmarked (some p) ≡ unmarked (fill w.area (view s.areas) x) =
            ap unmarked (sym shown) ∙ f.filled x in
          filled-Lockable k d w.area w.allowed s.areas v.lockable x p same locked;
    }

-- What is unmapped cannot be locked.
munmap-IsSound :
    (k : RegionEnv) (s : Space) (start len : ℕ)
    → k.area_env.task_size + page_size ≤ word
    → IsSound k s
    → IsSound k (do_vmi_munmap k.area_env s start len).space
munmap-IsSound k s start len small v = record {
  valid = do_vmi_munmap-IsValid k.area_env s start len small v.valid;
  lockable = λ x p shown locked. elim (do_vmi_munmap-cuts k.area_env s start len small v.valid) [
    | inl (_, e) ↦
        let at = ap (λ (w : ℕ → Option Page). w x) e in v.lockable x p (ground arith) locked
    | inr (_, e) ↦
        let at = ap (λ (w : ℕ → Option Page). w x) e in v.lockable x p (sym at ∙ shown) locked
  ];
}

module _ (k : RegionEnv) (r : Region) (q : IsRequest r) where
  -- After a range is unmapped it can be requested.
  requested-IsArea :
      (s : Space)
      → k.area_env.task_size + page_size ≤ word
      → (do_vmi_munmap k.area_env s r.addr r.len).code ≡ 0
      → IsArea (requested r)
        × (page_shr r.len ≡ vma_pages (requested r))
        × (end_of r ≡ r.addr + page_align r.len)
  requested-IsArea s small done =
      let range = unmapped_range k.area_env s r.addr r.len small done in
      let end : end_of r ≡ r.addr + r.len = omega (arith, range) in
      (
        record {
          start_aligned = range.0;
          end_aligned = omega (arith, range, q.whole);
          nonempty = omega (arith, range, q.whole);
          bounded = omega (arith, range);
          fits = omega (arith, range, q.numbered);
        },
        omega arith,
        omega (arith, q.whole, q.bounded),
      )

-- A sound request for a free range of a sound address space.
place-IsSound :
    (k : RegionEnv) (d : Documented k) (r : Region) (s : Space)
    → IsArea (requested r)
    → (whole : page_shr r.len ≡ vma_pages (requested r)) → IsSound k s
    → Free k d r whole s.areas
    → let m = place k s.mm r none s.areas in Ends k r 0 s.mm s.areas m × IsSound k m.space
place-IsSound k d r s area whole v free =
    let c = v.valid.counts in
    let ends =
      place-Ends k d r whole 0 s.mm none s.areas area (omega arith, v.valid.ordered) free
        (omega (arith, c.all_areas)) v.lockable in
    (
      ends,
      elim ends [
        | inl (_, w) ↦ Shows-IsSound k d r s _ area whole v w
        | inr (_, e) ↦ subst (IsSound k) (sym e) v
      ],
    )

-- What `mmap_region` does to the map of addresses.
abbrev pub Maps : RegionEnv → Space → Region → Mapped → Type 0
Maps k s r m =
    ((m.code ≡ 0)
      × ((a : Area) × (b : Area) × Origin k (charged k r) a
          × Settled k a b
          × (b.vm_start ≡ r.addr)
          × (b.vm_end ≡ r.addr + r.len)
          × (marked_view m.space.areas ≡ marked_fill b s.areas)))
    ⊎ ((m.code ≢ 0)
        × ((view m.space.areas ≡ view s.areas)
            ⊎ (view m.space.areas ≡ cut r.addr (r.addr + r.len) (view s.areas))))

module _ (k : RegionEnv) (d : Documented k) (s : Space) (r : Region)
    (small : k.area_env.task_size + page_size ≤ word) (q : IsRequest r) (v : IsSound k s) where
  abbrev u : Space
  u = (do_vmi_munmap k.area_env s r.addr r.len).space

  -- The range is free once it is unmapped.
  Free-unmapped :
      (x : ℕ)
      → view u.areas ≡ cut r.addr (r.addr + page_align r.len) (view s.areas)
      → inside r.addr (r.addr + page_align r.len) x ≡ true
      → view u.areas x ≡ none
  Free-unmapped x e h = let at = ap (λ (w : ℕ → Option Page). w x) e in ground arith

  -- The call after the range is unmapped.
  place-both :
      (do_vmi_munmap k.area_env s r.addr r.len).code ≡ 0
      → view u.areas ≡ cut r.addr (r.addr + page_align r.len) (view s.areas)
      → let m = place k u.mm (charged k r) none u.areas in
        Ends k (charged k r) 0 u.mm u.areas m × IsSound k m.space
  place-both done e =
      let sound = requested-IsArea k r q s small done in
      place-IsSound k d (charged k r) u (IsArea-flags (requested r) _ sound.0) sound.1
        (munmap-IsSound k s r.addr r.len small v) (λ x h. Free-unmapped x e (rw (← sound.2) h))

  -- The call fails at once, after the range is unmapped or left, or it goes on to place the mapping.
  mmap_region-cases :
      (mmap_region k s r ≡ record { space = s; code = enomem })
      ⊎ (mmap_region k s r ≡ record { space = u; code = enomem })
      ⊎ (((do_vmi_munmap k.area_env s r.addr r.len).code ≡ 0)
          × (mmap_region k s r ≡ place k u.mm (charged k r) none u.areas))
  unfolding mmap_region
  mmap_region-cases = ground arith

  -- From a sound address space, and for a request of whole pages whose numbers do not wrap,
  -- `mmap_region` leaves a sound address space on every path: its areas lie in order and apart, the
  -- descriptor counts them, their pages and the locked ones, and no page is locked that is
  -- VM_SPECIAL, huge or in a file that bypasses the page cache. TASK_SIZE is at least a page below
  -- 2 ^ 64, and mappers do what is documented of them.
  pub mmap_region-IsSound : IsSound k (mmap_region k s r).space
  mmap_region-IsSound = elim mmap_region-cases [
    | inl e ↦ rw e v
    | inr (inl e) ↦ rw e (munmap-IsSound k s r.addr r.len small v)
    | inr (inr (done, e)) ↦ elim (do_vmi_munmap-cuts k.area_env s r.addr r.len small v.valid) [
      | inl (_, cut) ↦ rw e (place-both done cut).1
      | inr (bad, _) ↦ absurd (bad done)
    ]
  ]
