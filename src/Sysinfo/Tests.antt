-- ===== src/Sysinfo/Tests.antt =====
-- Sizes of a machine whose memory fits in bytes, and of one whose does not.
use so2_202110206_2svac.Common.{ℕ, ◌+◌, ◌*◌, ◌^◌, ◌≤◌, ◌≡◌, ◌⊎◌, refl, some, arith}
use so2_202110206_2svac.Common.Word.{word}
use so2_202110206_2svac.Sysinfo.{Sizes, count_bits, do_sysinfo}
use so2_202110206_2svac.Sysinfo.Bytes.{AreSizes, SameBytes, do_sysinfo-SameBytes}

-- In units of pages.
abbrev pages : ℕ → Sizes
pages n = record {
  totalram = n;
  freeram = 500;
  sharedram = 20;
  bufferram = 10;
  totalswap = 300;
  freeswap = 300;
  totalhigh = 0;
  freehigh = 0;
  mem_unit = 4096;
}

small_machine :
    do_sysinfo (pages 1000)
    ≡ some (record {
      totalram = 4096000;
      freeram = 2048000;
      sharedram = 81920;
      bufferram = 40960;
      totalswap = 1228800;
      freeswap = 1228800;
      totalhigh = 0;
      freehigh = 0;
      mem_unit = 1;
    })
unfolding do_sysinfo count_bits
small_machine = refl

large_machine : do_sysinfo (pages (2 ^ 53)) ≡ some (pages (2 ^ 53))
unfolding do_sysinfo count_bits
large_machine = refl

pages-AreSizes : AreSizes (pages 1000)
pages-AreSizes = record {
  ram = omega arith;
  swap = omega arith;
  free = omega arith;
  shared = omega arith;
  buffers = omega arith;
  high = omega arith;
  free_high = omega arith;
  free_swap = omega arith;
}

do_sysinfo-SameBytes_example :
    (j : Sizes) × (do_sysinfo (pages 1000) ≡ some j)
    × SameBytes (pages 1000) j
    × ((j.mem_unit ≡ 1) ⊎ (word ≤ (1000 + 300) * 4096))
do_sysinfo-SameBytes_example =
    do_sysinfo-SameBytes (pages 1000) 12 pages-AreSizes (omega arith) refl
