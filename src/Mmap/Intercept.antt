-- ===== src/Mmap/Intercept.antt =====
-- What the limits of crudmemlimit.c do to `ksys_mmap_pgoff`.
use so2_202110206_2svac.Common.{ℕ, ◌+◌, ◌*◌, ◌≤◌, ◌<◌, ◌≡◌, refl, Option, none, some, arith}
use so2_202110206_2svac.Common.Word.{word, page_size, page_shr, page_align, err_word}
use so2_202110206_2svac.Kernel.{Mm, enomem}
use so2_202110206_2svac.Limits.{Limits, free}
use so2_202110206_2svac.Limits.Registry.{limit_of}
use so2_202110206_2svac.Limits.Invariant.{is_request_accepted-state}
use so2_202110206_2svac.Limits.Accept.{accepts_within, accepts_unlimited}
use so2_202110206_2svac.Mmap.{File}
use so2_202110206_2svac.Mmap.Map.{MapEnv}
use so2_202110206_2svac.Mmap.Ksys.{
  Opened, returns, puts, opened, open_file, ksys_mmap_pgoff, checked_map, unchecked_map,
  original_ksys_mmap_pgoff,
}
use so2_202110206_2svac.Mmap.Enforce.{Lives}

module _ (k : MapEnv) (s : Limits) (mm : Mm) (held : ℕ) (v : s.mutex ≡ free) where
  checked_map-releases :
      (o : Opened) (addr prot flags pgoff : ℕ)
      → let r = checked_map k s mm held o addr prot flags pgoff in
        (r.files_held ≡ held) × (r.limits ≡ s)
  unfolding checked_map
  checked_map-releases (returns e) addr prot flags pgoff = (refl, refl)
  checked_map-releases (puts file e) addr prot flags pgoff = (omega arith, refl)
  checked_map-releases (opened file len) addr prot flags pgoff =
      ground (arith, is_request_accepted-state k.env s k.current_pid len v)

  checked_map-unlimited :
      Lives k.env k.current_pid mm
      → limit_of s.memory_list k.current_pid ≡ none
      → (o : Opened) (addr prot flags pgoff : ℕ)
      → checked_map k s mm held o addr prot flags pgoff
        ≡ unchecked_map k s mm held o addr prot flags pgoff
  unfolding checked_map unchecked_map
  checked_map-unlimited l h (returns e) addr prot flags pgoff = refl
  checked_map-unlimited l h (puts file e) addr prot flags pgoff = refl
  checked_map-unlimited l h (opened file len) addr prot flags pgoff = ground (
    arith,
    is_request_accepted-state k.env s k.current_pid len v,
    accepts_unlimited k.env s k.current_pid len l.found l.has_mm h,
  )

  checked_map-over_limit :
      (limit : ℕ) (file : Option File) (len addr prot flags pgoff : ℕ)
      → Lives k.env k.current_pid mm
      → limit_of s.memory_list k.current_pid ≡ some limit
      → mm.total_vm * page_size + len < word
      → limit < mm.total_vm * page_size + len
      → checked_map k s mm held (opened file len) addr prot flags pgoff
        ≡ record { limits = s; mm = mm; result = err_word enomem; files_held = held }
  unfolding checked_map
  checked_map-over_limit limit file len addr prot flags pgoff l h small over =
      let by = accepts_within k.env s k.current_pid len l.found l.has_mm limit h small in
      ground (arith, is_request_accepted-state k.env s k.current_pid len v)

  -- The pages that a mapping adds fit the limit, rounded up to a page.
  checked_map-within :
      (limit : ℕ) (file : Option File) (len addr prot flags pgoff : ℕ)
      → Lives k.env k.current_pid mm
      → limit_of s.memory_list k.current_pid ≡ some limit
      → mm.total_vm * page_size + len < word
      → mm.total_vm * page_size ≤ limit
      → (k.vm_mmap_pgoff mm file addr len prot flags pgoff).0.total_vm
        ≤ mm.total_vm + page_shr (page_align len)
      → (checked_map k s mm held (opened file len) addr prot flags pgoff).mm.total_vm * page_size
        < limit + page_size
  unfolding checked_map
  checked_map-within limit file len addr prot flags pgoff l h small within adds =
      let by = accepts_within k.env s k.current_pid len l.found l.has_mm limit h small in
      ground arith

  checked_map-above :
      (limit : ℕ) (file : Option File) (len addr prot flags pgoff : ℕ)
      → Lives k.env k.current_pid mm
      → limit_of s.memory_list k.current_pid ≡ some limit
      → mm.total_vm * page_size + len + page_size ≤ word
      → mm.total_vm * page_size + len ≤ limit
      → limit < mm.total_vm * page_size + page_align len
      → (k.vm_mmap_pgoff mm file addr len prot flags pgoff).0.total_vm
        ≡ mm.total_vm + page_shr (page_align len)
      → limit
        < (checked_map k s mm held (opened file len) addr prot flags pgoff).mm.total_vm * page_size
  unfolding checked_map
  checked_map-above limit file len addr prot flags pgoff l h small fits above adds =
      let by = accepts_within k.env s k.current_pid len l.found l.has_mm limit h (omega arith) in
      ground arith

  module _ (addr len prot flags fd pgoff : ℕ) where
    -- With the mutex free, on every path `ksys_mmap_pgoff` gives back the file reference that it
    -- takes, and leaves the list of limits as it was.
    pub ksys_mmap_pgoff-releases :
        let o = ksys_mmap_pgoff k s mm held addr len prot flags fd pgoff in
        (o.files_held ≡ held) × (o.limits ≡ s)
    unfolding ksys_mmap_pgoff
    ksys_mmap_pgoff-releases = checked_map-releases (open_file k len flags fd) addr prot flags pgoff

    -- For a live process with no limit, and with the mutex free, `ksys_mmap_pgoff` does what the
    -- original one does.
    pub ksys_mmap_pgoff-unlimited :
        Lives k.env k.current_pid mm
        → limit_of s.memory_list k.current_pid ≡ none
        → ksys_mmap_pgoff k s mm held addr len prot flags fd pgoff
          ≡ original_ksys_mmap_pgoff k s mm held addr len prot flags fd pgoff
    unfolding ksys_mmap_pgoff original_ksys_mmap_pgoff
    ksys_mmap_pgoff-unlimited l h =
        checked_map-unlimited l h (open_file k len flags fd) addr prot flags pgoff

    module _ (limit : ℕ) (file : Option File) (len' : ℕ) (lives : Lives k.env k.current_pid mm)
        (limited : limit_of s.memory_list k.current_pid ≡ some limit)
        (opens : open_file k len flags fd ≡ opened file len')
        (small : mm.total_vm * page_size + len' < word) where
      -- With the mutex free, a call of a live process that gets its file, or needs none, and whose
      -- length with the memory is below 2 ^ 64 and above the limit, fails with -ENOMEM: the memory
      -- and the list of limits are unchanged, and no file is kept.
      pub ksys_mmap_pgoff-over_limit :
          limit < mm.total_vm * page_size + len'
          → ksys_mmap_pgoff k s mm held addr len prot flags fd pgoff
            ≡ record { limits = s; mm = mm; result = err_word enomem; files_held = held }
      unfolding ksys_mmap_pgoff
      ksys_mmap_pgoff-over_limit over =
          rw opens
            (checked_map-over_limit limit file len' addr prot flags pgoff lives limited small over)

      -- Take the mutex free, a live process within its limit, and a call that gets its file, or
      -- needs none, and whose length with the memory is below 2 ^ 64. If `vm_mmap_pgoff` adds no
      -- more than the pages of the length, the process is less than one page above its limit after
      -- `ksys_mmap_pgoff`: the check takes the length as it is, and not rounded up to whole pages.
      pub ksys_mmap_pgoff-within :
          mm.total_vm * page_size ≤ limit
          → (k.vm_mmap_pgoff mm file addr len' prot flags pgoff).0.total_vm
            ≤ mm.total_vm + page_shr (page_align len')
          → (ksys_mmap_pgoff k s mm held addr len prot flags fd pgoff).mm.total_vm * page_size
            < limit + page_size
      unfolding ksys_mmap_pgoff
      ksys_mmap_pgoff-within within adds =
          rw opens (
            checked_map-within limit file len' addr prot flags pgoff lives limited small within
              adds)

    -- With the mutex free, take a call of a live process that gets its file, or needs none, and
    -- whose length with the memory and one page more does not pass 2 ^ 64. If length and memory fit
    -- the limit but the whole pages of the length do not, and `vm_mmap_pgoff` adds these pages, the
    -- process is above its limit after `ksys_mmap_pgoff`.
    pub ksys_mmap_pgoff-above_limit :
        (limit : ℕ) (file : Option File) (len' : ℕ)
        → Lives k.env k.current_pid mm
        → limit_of s.memory_list k.current_pid ≡ some limit
        → open_file k len flags fd ≡ opened file len'
        → mm.total_vm * page_size + len' + page_size ≤ word
        → mm.total_vm * page_size + len' ≤ limit
        → limit < mm.total_vm * page_size + page_align len'
        → (k.vm_mmap_pgoff mm file addr len' prot flags pgoff).0.total_vm
          ≡ mm.total_vm + page_shr (page_align len')
        → limit < (ksys_mmap_pgoff k s mm held addr len prot flags fd pgoff).mm.total_vm * page_size
    unfolding ksys_mmap_pgoff
    ksys_mmap_pgoff-above_limit limit file len' l h opens small fits above adds =
        rw opens (checked_map-above limit file len' addr prot flags pgoff l h small fits above adds)
