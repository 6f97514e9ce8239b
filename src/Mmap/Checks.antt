-- ===== src/Mmap/Checks.antt =====
-- The tests of mmap.c that `brk` and `mmap` share.
use so2_202110206_2svac.Common.{
  ℕ, ◌-◌, ◌/◌, ◌*◌, ◌^◌, Bool, true, false, not, ◌&&◌, ◌||◌, none, ltb, leb, ◌==◌, if◌then◌else◌,
}
use so2_202110206_2svac.Common.Word.{add64, sub64, page_shr, page_align, is_err_value, page_size}
use so2_202110206_2svac.Kernel.{Mm, cap_ipc_lock}
use so2_202110206_2svac.Mmap.{File, MmapEnv, vm_locked, map_fixed, has}

unfoldable pub mlock_future_ok : MmapEnv → Mm → ℕ → ℕ → Bool
mlock_future_ok k mm flags bytes =
    if not (has flags vm_locked) || k.capable cap_ipc_lock
    then true
    else leb (add64 (page_shr bytes) mm.locked_vm) (page_shr k.rlimit_memlock)

-- An `unsigned long` error of `get_unmapped_area`, or -EAGAIN, makes it fail.
unfoldable pub check_brk_limits : MmapEnv → Mm → ℕ → ℕ → Bool
unfolding mlock_future_ok
check_brk_limits k mm addr len =
    not (is_err_value (k.get_unmapped_area none addr len 0 map_fixed))
    && mlock_future_ok k mm mm.def_flags len

unfoldable pub may_expand_vm : MmapEnv → Mm → ℕ → ℕ → Bool
may_expand_vm k mm flags npages =
    if ltb (page_shr k.rlimit_as) (add64 mm.total_vm npages)
    then false
    else if k.is_data_mapping flags && ltb (page_shr k.rlimit_data) (add64 mm.data_vm npages)
    then if k.rlimit_data == 0 && leb (add64 mm.data_vm npages) (page_shr k.rlimit_max_data)
      then true
      else k.ignore_rlimit_data
    else true

unfoldable pub round_hint_to_min : MmapEnv → ℕ → ℕ
round_hint_to_min k hint =
    let hint' = hint / page_size * page_size in
    if not (hint' == 0) && ltb hint' k.mmap_min_addr then page_align k.mmap_min_addr else hint'

-- MAX_LFS_FILESIZE is LLONG_MAX, and ULONG_MAX is 2 ^ 64 - 1.
unfoldable pub file_mmap_size_max : File → ℕ
file_mmap_size_max file =
    if file.regular then 2 ^ 63 - 1 else if file.unsigned_offset then 0 else 2 ^ 64 - 1

unfoldable pub file_mmap_ok : File → ℕ → ℕ → Bool
unfolding file_mmap_size_max
file_mmap_ok file pgoff len =
    let maxsize = file_mmap_size_max file in
    if not (maxsize == 0) && ltb maxsize len
    then false
    else if ltb (page_shr (sub64 maxsize len)) pgoff
    then false
    else true
