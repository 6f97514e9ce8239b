-- ===== src/Mmap/Map.antt =====
-- `do_mmap` of mmap.c, and the kernel around one mapping.
use so2_202110206_2svac.Common.{
  ℕ, ◌+◌, Bool, true, false, not, ◌&&◌, ◌||◌, Option, none, some, ◌⊎◌, bit_or, bit_and, ltb, ◌==◌,
  if◌then◌else◌,
}
use so2_202110206_2svac.Common.Result.{Result, ok, err, ◌>>=◌, ◌>>◌}
use so2_202110206_2svac.Common.Word.{add64, page_shr, page_align, err_word, is_err_value}
use so2_202110206_2svac.Kernel.{
  Mm, enomem, einval, eagain, eoverflow, eexist, eperm, eacces, enodev, etxtbsy, eopnotsupp,
}
use so2_202110206_2svac.Mmap.{
  File, MmapEnv, has, without, vm_exec, vm_shared, vm_may_access, vm_maywrite, vm_mayexec,
  vm_mayshare, vm_grows, vm_locked, vm_noreserve, map_shared, map_private, map_shared_validate,
  map_type, map_fixed, map_locked, map_noreserve, map_populate, map_populate_nonblock,
  map_fixed_noreplace, prot_read, prot_write, prot_exec,
}
use so2_202110206_2svac.Mmap.Checks.{mlock_future_ok, round_hint_to_min, file_mmap_ok}

-- `if (bad) return -e;`
abbrev pub fail_if : Bool → ℕ → Result (Unit {0})
fail_if true e = err (err_word e)
fail_if false e = ok tt

-- The kernel around one `mmap`: what the functions that it calls answer.
pub record MapEnv : Type 0 where
  pub base : MmapEnv
  pub open base use *
  pub read_implies_exec : Bool
  pub legacy_map_mask : ℕ
  -- whether `find_vma_intersection` finds an area
  pub intersects : ℕ → ℕ → Bool
  -- `calc_vm_prot_bits(prot, pkey)` with the key that the call chooses, and `calc_vm_flag_bits`
  pub calc_vm_prot_bits : ℕ → ℕ
  pub calc_vm_flag_bits : ℕ → ℕ
  pub can_do_mlock : Bool
  pub overcommit_never : Bool
  -- `mmap_region` for a file (or none), address, length, flags and offset
  pub mmap_region : Mm → Option File → ℕ → ℕ → ℕ → ℕ → Mm × ℕ
  pub fget : ℕ → Option File
  -- the page size that `hstate_sizelog` finds, and what `hugetlb_file_setup` makes of a length
  pub hstate_sizelog : ℕ → Option ℕ
  pub hugetlb_file_setup : ℕ → ℕ ⊎ File
  -- `vm_mmap_pgoff` for a file (or none), address, length, protection, flags and offset
  pub vm_mmap_pgoff : Mm → Option File → ℕ → ℕ → ℕ → ℕ → ℕ → Mm × ℕ

-- What `do_mmap` hands to `mmap_region`, with the flags that it looks at afterwards.
pub record Region : Type 0 where
  pub addr : ℕ
  pub len : ℕ
  pub flags : ℕ
  pub vm_flags : ℕ
  pub pgoff : ℕ

-- `flags & MAP_TYPE` for a file, from `case MAP_PRIVATE` on.
unfoldable pub private_file : File → Region → Result Region
private_file file r = do
  fail_if (not file.readable) eacces
  fail_if (file.noexec && has r.vm_flags vm_exec) eperm
  fail_if (not file.has_mmap) enodev
  let vm_flags = if file.noexec then without r.vm_flags vm_mayexec else r.vm_flags
  fail_if (has vm_flags vm_grows) einval
  ok (record r { vm_flags = vm_flags })

-- From `case MAP_SHARED_VALIDATE` on.
unfoldable pub shared_file : File → ℕ → ℕ → Region → Result Region
shared_file file flags_mask prot r = do
  fail_if (not (without r.flags flags_mask == 0)) eopnotsupp
  fail_if (has prot prot_write && not file.writable) eacces
  fail_if (has prot prot_write && file.swapfile) etxtbsy
  fail_if (file.append_only && file.writable) eacces
  let vm_flags = bit_or r.vm_flags (bit_or vm_shared vm_mayshare)
  let vm_flags' = if file.writable then vm_flags else without vm_flags (vm_maywrite + vm_shared)
  private_file file (record r { vm_flags = vm_flags' })

unfoldable pub file_type : MapEnv → File → ℕ → Region → Result Region
file_type k file prot r =
    let flags_mask = bit_or k.legacy_map_mask file.supported_flags in
    let type = bit_and r.flags map_type in
    if type == map_shared
    then shared_file file flags_mask prot (record r { flags = bit_and r.flags k.legacy_map_mask })
    else if type == map_shared_validate
    then shared_file file flags_mask prot r
    else if type == map_private
    then private_file file r
    else err (err_word einval)

unfoldable pub anonymous_type : Region → Result Region
anonymous_type r =
    let type = bit_and r.flags map_type in
    if type == map_shared
    then if has r.vm_flags vm_grows
      then err (err_word einval)
      else ok (record r { pgoff = 0; vm_flags = bit_or r.vm_flags (bit_or vm_shared vm_mayshare) })
    else if type == map_private
    then ok (record r { pgoff = page_shr r.addr })
    else err (err_word einval)

unfoldable pub checked_type : MapEnv → Option File → ℕ → Region → Result Region
checked_type k none prot r = anonymous_type r
checked_type k (some file) prot r = do
  fail_if (not (file_mmap_ok file r.pgoff r.len)) eoverflow
  file_type k file prot r

-- READ_IMPLIES_EXEC, except for a file on a filesystem mounted noexec.
unfoldable pub implied_prot : MapEnv → Option File → ℕ → ℕ
implied_prot k file prot =
    let noexec : Bool = elim file [ none ↦ false | some f ↦ f.noexec ] in
    if has prot prot_read && k.read_implies_exec && not noexec then bit_or prot prot_exec else prot

-- The flag VM_NORESERVE of a mapping that is not accounted for.
unfoldable pub reserve_flags : MapEnv → Option File → Region → Region
reserve_flags k file r =
    let huge : Bool = elim file [ none ↦ false | some f ↦ f.hugepages ] in
    if has r.flags map_noreserve && (not k.overcommit_never || huge)
    then record r { vm_flags = bit_or r.vm_flags vm_noreserve }
    else r

-- The first part of `do_mmap`: where the mapping goes, and its flags.
unfoldable pub place_mmap : MapEnv → Mm → Option File → ℕ → ℕ → ℕ → ℕ → ℕ → ℕ → Result Region
place_mmap k mm file addr len prot flags vm_flags pgoff = do
  fail_if (len == 0) einval
  let flags' = if has flags map_fixed_noreplace then bit_or flags map_fixed else flags
  let hint = if has flags' map_fixed then addr else round_hint_to_min k.base addr
  let len' = page_align len
  fail_if (len' == 0) enomem
  fail_if (ltb (add64 pgoff (page_shr len')) pgoff) eoverflow
  fail_if (ltb k.sysctl_max_map_count mm.map_count) enomem
  let addr' = k.get_unmapped_area file hint len' pgoff flags'
  if is_err_value addr' then err addr' else ok tt
  fail_if (has flags' map_fixed_noreplace && k.intersects addr' (add64 addr' len')) eexist
  let prot_bits = k.calc_vm_prot_bits (implied_prot k file prot)
  let vm_flags' =
      bit_or (bit_or vm_flags (bit_or prot_bits (k.calc_vm_flag_bits flags')))
        (bit_or mm.def_flags vm_may_access)
  ok (record { addr = addr'; len = len'; flags = flags'; vm_flags = vm_flags'; pgoff = pgoff })

-- The second part: whether it may be locked, and what its type and its file allow.
unfoldable pub permit_mmap : MapEnv → Mm → Option File → ℕ → Region → Result Region
permit_mmap k mm file prot r = do
  fail_if (has r.flags map_locked && not k.can_do_mlock) eperm
  fail_if (not (mlock_future_ok k.base mm r.vm_flags r.len)) eagain
  r' ← checked_type k file prot r
  ok (reserve_flags k file r')

-- `do_mmap` up to its call of `mmap_region`.
unfoldable pub prepare_mmap : MapEnv → Mm → Option File → ℕ → ℕ → ℕ → ℕ → ℕ → ℕ → Result Region
prepare_mmap k mm file addr len prot flags vm_flags pgoff = do
  r ← place_mmap k mm file addr len prot flags vm_flags pgoff
  permit_mmap k mm file (implied_prot k file prot) r

-- The memory afterwards, what the call returns, and `*populate`.
unfoldable pub do_mmap : MapEnv → Mm → Option File → ℕ → ℕ → ℕ → ℕ → ℕ → ℕ → Mm × ℕ × ℕ
do_mmap k mm file addr len prot flags vm_flags pgoff =
    elim (prepare_mmap k mm file addr len prot flags vm_flags pgoff) [
      | err e ↦ (mm, e, 0)
      | ok r ↦
          let (mm', addr') = k.mmap_region mm file r.addr r.len r.vm_flags r.pgoff in
          let wanted =
            has r.vm_flags vm_locked || bit_and r.flags map_populate_nonblock == map_populate in
          (mm', addr', if not (is_err_value addr') && wanted then r.len else 0)
    ]
