-- ===== src/Io/Tests.antt =====
-- Seeks, reads and writes of a file of 100 bytes.
use so2_202110206_2svac.Common.{
  ℕ, ◌+◌, ◌≡◌, refl, Bool, true, false, List, [], ◌∷◌, Option, none, some, ltb, if◌then◌else◌,
  arith, replicate,
}
use so2_202110206_2svac.Monitor.Track.{zeroed}
use so2_202110206_2svac.Io.{File}
use so2_202110206_2svac.Io.Seek.{vfs_setpos, generic_file_llseek_size, ksys_lseek}
use so2_202110206_2svac.Io.Transfer.{
  FileOps, IoEnv, max_rw_count, rw_verify_area, vfs_read, ksys_read, ksys_write, ksys_pread64,
  ksys_pwrite64, fsnotify_access, add_rchar, inc_syscr,
}
use so2_202110206_2svac.Io.Positions.{Sought, generic_file_llseek_size-Sought, ksys_lseek-tell}
use so2_202110206_2svac.Io.Bounds.{SameInRange, Moves, ksys-SameInRange, ksys-Moves}
use so2_202110206_2svac.Io.Counted.{Request, Serves, serve_all-counts}

abbrev file : File
file = record {
  f_pos = 10;
  f_version = 3;
  readable = true;
  can_read = true;
  writable = true;
  can_write = true;
  stream = false;
  seekable = true;
  pread = true;
  pwrite = true;
  unsigned_offsets = false;
}

abbrev env : IoEnv
env = record {
  access_ok = λ buf count. true;
  security_file_permission = λ writes. 0;
  fsnotify_file_area_perm = λ writes at count. 0;
}

abbrev advance : Option ℕ → ℕ → ℕ
advance none n = 0
advance (some at) n = at + n

-- A file that transfers all it is asked for.
abbrev ops : FileOps
ops = record {
  read = none;
  read_iter = some (λ buf count at. (count, at + count));
  write = some (λ buf count at. (count, advance at count));
  write_iter = none;
}

-- The same, but for more than MAX_RW_COUNT.
abbrev clipped : FileOps
clipped = record {
  read = none;
  read_iter = some (λ buf count at. if ltb max_rw_count count then (0, 0) else (count, at + count));
  write =
      some (λ buf count at. if ltb max_rw_count count then (0, 0) else (count, advance at count));
  write_iter = none;
}

read_run : ksys_read env ops (some file) 4096 20 ≡ record {
  ret = 20;
  file = some (record file { f_pos = 30 });
  calls = fsnotify_access ∷ add_rchar 20 ∷ inc_syscr ∷ [];
}
unfolding ksys_read vfs_read rw_verify_area
read_run = refl

generic_file_llseek_size-Sought_run : Sought file 1000 (generic_file_llseek_size file 5 2 1000 100)
generic_file_llseek_size-Sought_run =
    generic_file_llseek_size-Sought file 1000 refl (omega arith) (omega arith) 5 2 100 (omega arith)
      (omega arith)

ksys_lseek-tell_run :
    ksys_lseek
      (λ h o w. generic_file_llseek_size h o w 1000 100)
      (some (record file { f_pos = 105; f_version = 0 }))
      0
      1
    ≡ (some (record file { f_pos = 105; f_version = 0 }), 105)
unfolding ksys_lseek generic_file_llseek_size vfs_setpos
ksys_lseek-tell_run =
    ksys_lseek-tell file 1000 refl (omega arith) (omega arith)
      (record file { f_pos = 105; f_version = 0 }) 5 2 100 105 (omega arith) (omega arith) refl refl

ops-SameInRange : SameInRange ops clipped
ops-SameInRange = record {
  reads = λ buf count at small range. ground arith;
  writes = λ buf count at small range. ground arith;
}

ksys-SameInRange_example :
    (ksys_read env ops (some file) 4096 20 ≡ ksys_read env clipped (some file) 4096 20)
    × (ksys_write env ops (some file) 4096 20 ≡ ksys_write env clipped (some file) 4096 20)
    × (ksys_pread64 env ops (some file) 4096 20 7 ≡ ksys_pread64 env clipped (some file) 4096 20 7)
    × (ksys_pwrite64 env ops (some file) 4096 20 7
        ≡ ksys_pwrite64 env clipped (some file) 4096 20 7)
ksys-SameInRange_example = ksys-SameInRange env file refl ops clipped 4096 20 7 ops-SameInRange

ksys-Moves_run :
    Moves file (ksys_read env ops (some file) 4096 20)
    × Moves file (ksys_write env ops (some file) 4096 20)
    × ((ksys_pread64 env ops (some file) 4096 20 7).file ≡ some file)
    × ((ksys_pwrite64 env ops (some file) 4096 20 7).file ≡ some file)
ksys-Moves_run = ksys-Moves env ops file 4096 20 7

abbrev request : Bool → Option File → Request
request writes f = record {
  writes = writes;
  now = record { tv_sec = 1; tv_nsec = 0 };
  env = env;
  ops = ops;
  file = f;
  buf = 4096;
  count = 20;
}

-- A read, a write to a descriptor that is not open, and a read.
abbrev requests : List Request
requests = request false (some file) ∷ request true none ∷ request false (some file) ∷ []

serve_all-counts_example : Serves (replicate 1024 zeroed) requests
serve_all-counts_example =
    serve_all-counts (replicate 1024 zeroed) requests refl (omega arith) (omega arith)
