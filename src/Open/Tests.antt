-- ===== src/Open/Tests.antt =====
-- Runs of the calls of open.c on a small table of descriptors and small file systems.
use so2_202110206_2svac.Common.{
  ℕ, zero, suc, ◌+◌, ◌%◌, ◌≡◌, ◌≢◌, ◌∙◌, sym, refl, ap, true, false, List, [], ◌∷◌, ◌++◌, length,
  replicate, length-replicate, Option, none, some, arith, ◌==◌, if◌then◌else◌,
}
use so2_202110206_2svac.Common.Int.{pos, eq_ℤ}
use so2_202110206_2svac.Common.Word.{word}
use so2_202110206_2svac.Common.Result.{ok, err, ok_inj}
use so2_202110206_2svac.Kernel.{einval}
use so2_202110206_2svac.Monitor.Track.{Timespec, SyscallUsage, max_sys_calls, zeroed, tracked}
use so2_202110206_2svac.Monitor.Counting.{count_of}
use so2_202110206_2svac.Open.{OpenHow, OpenFlags}
use so2_202110206_2svac.Open.Flags.{
  build_open_how, build_open_flags, check_flags, access_of, intent_of, lookup_of,
}
use so2_202110206_2svac.Open.Consistent.{IsConsistent, build_open_flags-IsConsistent}
use so2_202110206_2svac.Open.Descriptors.{
  FdTable, OpenEnv, open_reserved, open_named, do_sys_openat2, do_sys_open, sys_open, sys_close,
}
use so2_202110206_2svac.Open.Installed.{FdLaws, Opens, sys_open-counts}
use so2_202110206_2svac.Open.Holds.{
  Keeps, take, drop, path, mount, inode, notify_change, no_attributes,
}
use so2_202110206_2svac.Open.Truncate.{
  Place, FsEnv, do_sys_truncate, vfs_truncate, truncate_mounted, truncate_writing, do_truncate,
}
use so2_202110206_2svac.Open.Balanced.{truncate, run, run-Keeps}
use so2_202110206_2svac.Open.Access.{AccessCred, AccessEnv}
use so2_202110206_2svac.Open.Allocate.{
  Target, AllocEnv, check_mode, check_target, vfs_fallocate, IsAllocatable,
  vfs_fallocate-IsAllocatable,
}

-- A table is the list of its files, and the next descriptor is its length.
abbrev file_at : List ℕ → ℕ → Option ℕ
file_at [] n = none
file_at (f ∷ more) zero = some f
file_at (f ∷ more) (suc n) = file_at more n

abbrev fds : FdTable (List ℕ)
fds = record {
  get_unused_fd_flags = λ t flags. ok (length t, t);
  put_unused_fd = λ t fd. t;
  fd_install = λ t fd f. t ++ f ∷ [];
  file_close_fd = λ t fd. none;
  file_of = file_at;
}

file_at-length : (t : List ℕ) → file_at t (length t) ≡ none
file_at-length [] = refl
file_at-length (f ∷ t) = file_at-length t

file_at-append : (t : List ℕ) (f : ℕ) → file_at (t ++ f ∷ []) (length t) ≡ some f
file_at-append [] f = refl
file_at-append (g ∷ t) f = file_at-append t f

file_at-append_ne : (t : List ℕ) (f n : ℕ) → n ≢ length t → file_at (t ++ f ∷ []) n ≡ file_at t n
file_at-append_ne [] f zero h = absurd (h refl)
file_at-append_ne [] f (suc n) h = refl
file_at-append_ne (g ∷ t) f zero h = refl
file_at-append_ne (g ∷ t) f (suc n) h = file_at-append_ne t f n (λ e. h (ap suc e))

-- What a reservation of a descriptor says.
reserved :
    (t t' : List ℕ) (flags fd : ℕ)
    → fds.get_unused_fd_flags t flags ≡ ok (fd, t')
    → (length t ≡ fd) × (t ≡ t')
reserved t t' flags fd h =
    let same = ok_inj (length t, t) (fd, t') h in (ap (λ p. p.0) same, ap (λ p. p.1) same)

fds-FdLaws : FdLaws fds
fds-FdLaws = record {
  was_free =
      λ t t' flags fd h. ap (file_at t) (sym (reserved t t' flags fd h).0) ∙ file_at-length t;
  put_back = λ t t' flags fd h. sym (reserved t t' flags fd h).1;
  installed = λ t t' flags fd f h.
      let (at, same) = reserved t t' flags fd h in rw (sym at, sym same) (file_at-append t f);
  others = λ t t' flags fd f n h other.
      let (at, same) = reserved t t' flags fd h in
      rw (sym same) (file_at-append_ne t f n (λ e. other (e ∙ at)));
}

-- A kernel in which every name is found.
abbrev open_env : OpenEnv
open_env = record {
  getname = λ name. ok name;
  do_filp_open = λ dfd name op. ok name;
  force_o_largefile = true;
  copy_how = λ how usize. err 14;
  file_count = λ f. 1;
  flush = λ f. 512;
}

-- `O_CREAT | O_WRONLY | O_TRUNC` with the mode 0644.
abbrev how : OpenHow
how = build_open_how 0x241 0x1a4

abbrev written : OpenFlags
written = record {
  open_flag = 0x241;
  mode = 0x81a4;
  acc_mode = 2;
  intent = 0x300;
  lookup_flags = 1;
}

build_how : build_open_flags (build_open_how 0x241 0x1a4) ≡ ok written
unfolding build_open_flags build_open_how check_flags access_of intent_of lookup_of
build_how = refl

-- A directory that is to be created as a file.
build_directory : build_open_flags (build_open_how 0x1_0040 0x1a4) ≡ err einval
unfolding build_open_flags build_open_how check_flags
build_directory = refl

build_open_flags-IsConsistent_example : IsConsistent written
build_open_flags-IsConsistent_example = build_open_flags-IsConsistent how written build_how

abbrev array : List SyscallUsage
array = replicate max_sys_calls zeroed

abbrev time : Timespec
time = record { tv_sec = 1; tv_nsec = 2 }

open_second : (do_sys_open fds open_env (8 ∷ []) (pos 0) 9 0x241 0x1a4) ≡ (8 ∷ 9 ∷ [], ok 1)
unfolding do_sys_open do_sys_openat2 open_named open_reserved build_open_flags build_open_how
    check_flags
open_second = refl

-- A flush that asks for a restart ends with EINTR; here there is no file to close.
close_missing : sys_close fds open_env (8 ∷ []) 3 ≡ (8 ∷ [], 9)
unfolding sys_close
close_missing = refl

sys_open-counts_example :
    let (track, o) = sys_open fds open_env (some array) time (8 ∷ []) 9 0x241 0x1a4 in
    ((vs : List SyscallUsage) × (track ≡ tracked (some vs))
      × (count_of vs 2 ≡ (count_of array 2 + (if eq_ℤ (pos 2) (pos 2) then 1 else 0)) % word))
    × Opens fds open_env (8 ∷ []) o
sys_open-counts_example =
    sys_open-counts fds fds-FdLaws open_env (8 ∷ []) array time 9 0x241 0x1a4 2
      (length-replicate max_sys_calls zeroed) (omega arith) (omega arith)

-- A regular file, of which the system keeps nothing to remove.
abbrev place : Place
place = record { name = 4; node = record { i_mode = 0x81a4; is_append = false } }

abbrev fs_env : FsEnv
fs_env = record {
  user_path_at = λ dfd name flags again. ok place;
  mnt_want_write = λ p. 0;
  inode_permission = λ p mask. 0;
  get_write_access = λ p. 0;
  break_lease = λ p. 0;
  security_path_truncate = λ p. 0;
  security_file_truncate = λ p. 0;
  dentry_needs_remove_privs = λ p. ok 0;
  notify_change = λ p a. 0;
}

truncate_steps : run (truncate fs_env 4 100) ≡ record {
  steps =
      take path
      ∷ take mount
      ∷ take inode
      ∷ notify_change (record no_attributes { ia_valid = 8; ia_size = some 100 })
      ∷ drop inode
      ∷ drop mount
      ∷ drop path
      ∷ [];
  code = 0;
}
unfolding do_sys_truncate vfs_truncate truncate_mounted truncate_writing do_truncate
truncate_steps = refl

run-Keeps_example : Keeps [] (run (truncate fs_env 4 100))
run-Keeps_example = run-Keeps (truncate fs_env 4 100)

-- A caller whose effective ids are those of root.
abbrev cred : AccessCred
cred = record {
  ids = record {
    uid = 1000;
    euid = 0;
    suid = 0;
    fsuid = 0;
    gid = 1000;
    egid = 1000;
    sgid = 1000;
    fsgid = 1000;
    user = 1000;
  };
  cap_effective = 0xff;
  cap_permitted = 0xff;
}

-- The file belongs to root, and nobody else may write it.
abbrev access_env : AccessEnv
access_env = record {
  no_setuid_fixup = false;
  root_uid = 0;
  prepare_creds_ok = true;
  user_path_at = λ c dfd name flags again. ok place;
  inode_permission = λ c p mask. if c.cap_effective == 0 then 13 else 0;
  path_noexec = λ p. false;
  mnt_is_readonly = λ p. false;
}

abbrev target : Target
target = record {
  writable = true;
  node = record { i_mode = 0x81a4; is_append = false };
  immutable = false;
  swapfile = false;
  s_maxbytes = 1000;
  fallocate = some (λ mode offset len. 0);
}

abbrev alloc_env : AllocEnv
alloc_env = record { security_file_permission = 0; fsnotify_file_area_perm = λ offset len. 0 }

allocate_inside : (vfs_fallocate alloc_env target 0 600 400).asked ≡ true
unfolding vfs_fallocate check_target check_mode
allocate_inside = refl

allocate_behind : (vfs_fallocate alloc_env target 0 600 401).code ≡ 27
unfolding vfs_fallocate check_target check_mode
allocate_behind = refl

vfs_fallocate-IsAllocatable_example : IsAllocatable target 0 600 400
vfs_fallocate-IsAllocatable_example =
    vfs_fallocate-IsAllocatable alloc_env target 0 600 400 (omega arith) (omega arith) (omega arith)
      allocate_inside
