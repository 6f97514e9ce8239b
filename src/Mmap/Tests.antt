-- ===== src/Mmap/Tests.antt =====
-- Runs of `brk` and `mmap` for the process of the sample, with and without a limit.
use so2_202110206_2svac.Common.{
  ℕ, ◌+◌, ◌*◌, ◌≤◌, ◌<◌, ◌≡◌, refl, true, false, none, some, arith, inl,
}
use so2_202110206_2svac.Common.Int.{pos}
use so2_202110206_2svac.Common.Result.{ok}
use so2_202110206_2svac.Common.Word.{page_size, page_shr, page_align, err_word}
use so2_202110206_2svac.Kernel.{enomem}
use so2_202110206_2svac.Limits.{empty}
use so2_202110206_2svac.Sample.{kernel, mm, task, env, listed, listed-limit_of, empty-limit_of}
use so2_202110206_2svac.Mmap.{File}
use so2_202110206_2svac.Mmap.Brk.{
  sys_brk, original_brk, brk_is_valid, brk_move, brk_grow, do_brk_flags,
}
use so2_202110206_2svac.Mmap.Map.{
  MapEnv, Region, private_file, shared_file, file_type, anonymous_type, checked_type, implied_prot,
  reserve_flags, place_mmap, permit_mmap, prepare_mmap,
}
use so2_202110206_2svac.Mmap.Checks.{
  mlock_future_ok, check_brk_limits, may_expand_vm, round_hint_to_min, file_mmap_ok,
}
use so2_202110206_2svac.Mmap.Ksys.{opened, open_file, ksys_mmap_pgoff, original_ksys_mmap_pgoff}
use so2_202110206_2svac.Mmap.Growth.{Unmaps}
use so2_202110206_2svac.Mmap.Enforce.{
  Lives, sys_brk-unlimited, sys_brk-over_limit, sys_brk-shrink_over_limit,
}
use so2_202110206_2svac.Mmap.Bounded.{sys_brk-result, sys_brk-within_limit}
use so2_202110206_2svac.Mmap.Intercept.{
  ksys_mmap_pgoff-releases, ksys_mmap_pgoff-unlimited, ksys_mmap_pgoff-over_limit,
  ksys_mmap_pgoff-within, ksys_mmap_pgoff-above_limit,
}
use so2_202110206_2svac.Mmap.Requests.{Mappable, prepare_mmap-Mappable, permit_mmap-Grants}

abbrev file : File
file = record {
  hugepages = false;
  huge_page_size = 2097152;
  readable = true;
  writable = true;
  unsigned_offset = false;
  regular = true;
  noexec = false;
  swapfile = false;
  append_only = false;
  has_mmap = true;
  supported_flags = 0;
}

-- A mapping in it adds the pages of its length.
abbrev maps : MapEnv
maps = record {
  base = kernel;
  read_implies_exec = false;
  legacy_map_mask = 0x7ffff;
  intersects = λ a b. false;
  calc_vm_prot_bits = λ prot. prot;
  calc_vm_flag_bits = λ flags. 0;
  can_do_mlock = true;
  overcommit_never = false;
  mmap_region =
      λ m f addr len flags pgoff. (record m { total_vm = m.total_vm + page_shr len }, addr);
  fget = λ fd. some file;
  hstate_sizelog = λ log. none;
  hugetlb_file_setup = λ len. inl (err_word enomem);
  vm_mmap_pgoff = λ m f addr len prot flags pgoff.
      (record m { total_vm = m.total_vm + page_shr (page_align len) }, addr);
}

lives : Lives env (pos 7) mm
lives = record { task = task; found = refl; has_mm = refl }

unmaps : Unmaps kernel
unmaps = record { no_pages = λ m a b. omega arith; same_brk = λ m a b. refl }

sys_brk-unlimited_run : sys_brk kernel empty mm 28672 ≡ (empty, original_brk kernel mm 28672)
sys_brk-unlimited_run = sys_brk-unlimited kernel empty mm 28672 refl lives empty-limit_of

-- The break grows by two pages.
brk_grows : (original_brk kernel mm 28672).mm.total_vm ≡ 102
unfolding original_brk brk_is_valid brk_move brk_grow do_brk_flags check_brk_limits may_expand_vm
brk_grows = refl

sys_brk-over_limit_run :
    sys_brk kernel (listed 410000) mm 28672
    ≡ (listed 410000, record { mm = mm; result = 20480; populated = 0 })
sys_brk-over_limit_run =
    sys_brk-over_limit kernel (listed 410000) mm 28672 410000 refl lives (listed-limit_of 410000)
      (omega arith) (omega arith) (omega arith) (omega arith) refl

sys_brk-shrink_over_limit_example :
    sys_brk kernel (listed 400000) mm 16384
    ≡ (listed 400000, record { mm = mm; result = 20480; populated = 0 })
sys_brk-shrink_over_limit_example =
    sys_brk-shrink_over_limit kernel (listed 400000) mm 16384 400000 refl lives
      (listed-limit_of 400000) (omega arith) (omega arith) (omega arith) (omega arith) refl

sys_brk-result_run :
    ((sys_brk kernel empty mm 28672).0 ≡ empty)
    × ((sys_brk kernel empty mm 28672).1.result ≡ (sys_brk kernel empty mm 28672).1.mm.brk)
sys_brk-result_run = sys_brk-result kernel empty mm 28672 unmaps refl refl

sys_brk-within_limit_example :
    (sys_brk kernel (listed 500000) mm 28672).1.mm.total_vm * page_size ≤ 500000
sys_brk-within_limit_example =
    sys_brk-within_limit kernel (listed 500000) mm 28672 500000 unmaps refl lives
      (listed-limit_of 500000) refl (omega arith) (omega arith) (omega arith)

-- Two pages of file 3, to be read and written.
ksys_mmap_pgoff-releases_example :
    ((ksys_mmap_pgoff maps (listed 500000) mm 0 0 8192 3 1 3 0).files_held ≡ 0)
    × ((ksys_mmap_pgoff maps (listed 500000) mm 0 0 8192 3 1 3 0).limits ≡ listed 500000)
ksys_mmap_pgoff-releases_example =
    ksys_mmap_pgoff-releases maps (listed 500000) mm 0 refl 0 8192 3 1 3 0

ksys_mmap_pgoff-unlimited_run :
    ksys_mmap_pgoff maps empty mm 0 0 8192 3 1 3 0
    ≡ original_ksys_mmap_pgoff maps empty mm 0 0 8192 3 1 3 0
ksys_mmap_pgoff-unlimited_run =
    ksys_mmap_pgoff-unlimited maps empty mm 0 refl 0 8192 3 1 3 0 lives empty-limit_of

opens_file : (len : ℕ) → open_file maps len 1 3 ≡ opened (some file) len
unfolding open_file
opens_file len = refl

ksys_mmap_pgoff-over_limit_run :
    ksys_mmap_pgoff maps (listed 410000) mm 0 0 8192 3 1 3 0
    ≡ record { limits = listed 410000; mm = mm; result = err_word enomem; files_held = 0 }
ksys_mmap_pgoff-over_limit_run =
    ksys_mmap_pgoff-over_limit maps (listed 410000) mm 0 refl 0 8192 3 1 3 0 410000 (some file) 8192
      lives (listed-limit_of 410000) (opens_file 8192) (omega arith) (omega arith)

ksys_mmap_pgoff-within_example :
    (ksys_mmap_pgoff maps (listed 500000) mm 0 0 8192 3 1 3 0).mm.total_vm * page_size
    < 500000 + page_size
ksys_mmap_pgoff-within_example =
    ksys_mmap_pgoff-within maps (listed 500000) mm 0 refl 0 8192 3 1 3 0 500000 (some file) 8192
      lives (listed-limit_of 500000) (opens_file 8192) (omega arith) (omega arith) (omega arith)

-- One byte is a page.
ksys_mmap_pgoff-above_limit_example :
    409700 < (ksys_mmap_pgoff maps (listed 409700) mm 0 0 1 3 1 3 0).mm.total_vm * page_size
ksys_mmap_pgoff-above_limit_example =
    ksys_mmap_pgoff-above_limit maps (listed 409700) mm 0 refl 0 1 3 1 3 0 409700 (some file) 1
      lives (listed-limit_of 409700) (opens_file 1) (omega arith) (omega arith) (omega arith)
      (omega arith)

-- A private anonymous mapping of 5000 bytes at offset 0.
abbrev region : Region
region = record { addr = 1048576; len = 8192; flags = 0x22; vm_flags = 0x73; pgoff = 256 }

prepared : prepare_mmap maps mm none 0 5000 3 0x22 0 0 ≡ ok region
unfolding prepare_mmap place_mmap implied_prot permit_mmap checked_type anonymous_type reserve_flags
    round_hint_to_min mlock_future_ok
prepared = refl

prepare_mmap-Mappable_example : Mappable maps mm 5000 0 region
prepare_mmap-Mappable_example =
    prepare_mmap-Mappable maps mm none 0 5000 3 0x22 0 0 (omega arith) prepared

-- Two pages of a file that may be written, shared.
abbrev shared : Region
shared = record { addr = 1048576; len = 8192; flags = 1; vm_flags = 0x73; pgoff = 0 }

permitted :
    permit_mmap maps mm (some file) 3 shared
    ≡ ok (record { addr = 1048576; len = 8192; flags = 1; vm_flags = 0xfb; pgoff = 0 })
unfolding permit_mmap checked_type file_type shared_file private_file reserve_flags mlock_future_ok
    file_mmap_ok
permitted = refl

permit_mmap-Grants_example :
    (file.readable ≡ true)
    × (file.has_mmap ≡ true)
    × (file.writable ≡ true)
    × (file.swapfile ≡ false)
    × (file.append_only ≡ false)
permit_mmap-Grants_example = permit_mmap-Grants maps mm file 3 shared (inl refl) refl permitted
