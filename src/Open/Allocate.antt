-- ===== src/Open/Allocate.antt =====
-- `fallocate` of open.c: the tests before the file system is asked for space. An `loff_t` is its
-- 64-bit word.
use so2_202110206_2svac.Common.{
  ℕ, ◌⊎◌, refl, ◌+◌, ◌≤◌, ◌<◌, ◌≡◌, Bool, true, false, not, ◌&&◌, ◌||◌, Option, none, some, ◌==◌,
  arith, inl, inr,
}
use so2_202110206_2svac.Common.Result.{
  Result, ok, err, ◌>>◌, refuse, refuse_if, passed, passed_by, not_refused, Result-cases,
}
use so2_202110206_2svac.Common.Word.{word, add64}
use so2_202110206_2svac.Kernel.{einval, ebadf, eperm, enodev, etxtbsy, eopnotsupp}
use so2_202110206_2svac.Mmap.{has, without}
use so2_202110206_2svac.Io.{half, is_negative, signed_ltb}
use so2_202110206_2svac.Open.Truncate.{Inode, file_type, is_dir, is_reg, eisdir}

abbrev pub keep_size : ℕ
keep_size = 0x1

abbrev pub punch_hole : ℕ
punch_hole = 0x2

abbrev pub collapse_range : ℕ
collapse_range = 0x8

abbrev pub zero_range : ℕ
zero_range = 0x10

abbrev pub insert_range : ℕ
insert_range = 0x20

abbrev pub unshare_range : ℕ
unshare_range = 0x40

-- FALLOC_FL_SUPPORTED_MASK
abbrev pub supported_mask : ℕ
supported_mask = 0x7b

abbrev pub espipe : ℕ
espipe = 29

abbrev pub efbig : ℕ
efbig = 27

-- What the call reads of a file: FMODE_WRITE, its inode and the size that its file system allows.
pub record Target : Type 0 where
  pub writable : Bool
  pub node : Inode
  pub immutable : Bool
  pub swapfile : Bool
  pub s_maxbytes : ℕ
  -- `f_op->fallocate`, if there is one
  pub fallocate : Option (ℕ → ℕ → ℕ → ℕ)

-- The kernel around one call.
pub record AllocEnv : Type 0 where
  pub security_file_permission : ℕ
  pub fsnotify_file_area_perm : ℕ → ℕ → ℕ

-- Whether the file system was asked, and the error, 0 for none.
pub record Allocation : Type 0 where
  pub asked : Bool
  pub code : ℕ

-- The tests of the mode.
unfoldable pub check_mode : ℕ → Result (Unit {0})
check_mode mode = do
  refuse_if (not (without mode supported_mask == 0)) eopnotsupp
  refuse_if (has mode punch_hole && has mode zero_range) eopnotsupp
  refuse_if (has mode punch_hole && not (has mode keep_size)) eopnotsupp
  refuse_if (has mode collapse_range && not (without mode collapse_range == 0)) einval
  refuse_if (has mode insert_range && not (without mode insert_range == 0)) einval
  refuse_if (has mode unshare_range && not (without (without mode unshare_range) keep_size == 0))
      einval

-- All tests, in their order, and the function of the file system.
unfoldable pub check_target : AllocEnv → Target → ℕ → ℕ → ℕ → Result (Unit {0})
check_target k f mode offset len = do
  refuse_if (is_negative offset || is_negative len || len == 0) einval
  check_mode mode
  refuse_if (not f.writable) ebadf
  refuse_if (not (without mode keep_size == 0) && f.node.is_append) eperm
  refuse_if f.immutable eperm
  refuse_if f.swapfile etxtbsy
  refuse k.security_file_permission
  refuse (k.fsnotify_file_area_perm offset len)
  refuse_if (file_type f.node.i_mode == 1) espipe
  refuse_if (is_dir f.node) eisdir
  refuse_if (not (is_reg f.node) && not (file_type f.node.i_mode == 6)) enodev
  refuse_if (signed_ltb f.s_maxbytes (add64 offset len) || is_negative (add64 offset len)) efbig

unfoldable pub vfs_fallocate : AllocEnv → Target → ℕ → ℕ → ℕ → Allocation
vfs_fallocate k f mode offset len = elim (check_target k f mode offset len) [
  | err e ↦ record { asked = false; code = e }
  | ok done ↦ elim f.fallocate [
    | none ↦ record { asked = false; code = eopnotsupp }
    | some ask ↦ record { asked = true; code = ask mode offset len }
  ]
]

unfoldable pub ksys_fallocate : AllocEnv → Option Target → ℕ → ℕ → ℕ → Allocation
ksys_fallocate k file mode offset len = elim file [
  | none ↦ record { asked = false; code = ebadf }
  | some f ↦ vfs_fallocate k f mode offset len
]

-- A flag that is not set, or set with no flags but those of a mask.
abbrev pub IsAlone : ℕ → ℕ → ℕ → Type 0
IsAlone mode flag others = (has mode flag ≡ false) ⊎ (without (without mode flag) others ≡ 0)

-- A range inside the sizes that a file system allows, of a file that may be written and changed,
-- and a mode of supported flags that go together: a hole is punched with the size kept and not
-- zeroed, a range is collapsed or inserted with no other flag, and unshared with the size kept at
-- most.
pub record IsAllocatable (f : Target) (mode offset len : ℕ) : Type 0 where
  pub nonempty : 0 < len
  pub inside : offset + len ≤ f.s_maxbytes
  pub writable : f.writable ≡ true
  pub changeable : f.immutable ≡ false
  pub no_swap : f.swapfile ≡ false
  pub kind : (is_reg f.node || file_type f.node.i_mode == 6) ≡ true
  pub apart : (has mode punch_hole && has mode zero_range) ≡ false
  pub kept : (has mode punch_hole && not (has mode keep_size)) ≡ false
  pub known : without mode supported_mask ≡ 0
  pub collapsed : IsAlone mode collapse_range 0
  pub inserted : IsAlone mode insert_range 0
  pub unshared : IsAlone mode unshare_range keep_size
  pub appended : (f.node.is_append && not (without mode keep_size == 0)) ≡ false

-- The flags of a mode that passes its tests.
record IsMode (mode : ℕ) : Type 0 where
  known : without mode supported_mask ≡ 0
  apart : (has mode punch_hole && has mode zero_range) ≡ false
  kept : (has mode punch_hole && not (has mode keep_size)) ≡ false
  collapsed : IsAlone mode collapse_range 0
  inserted : IsAlone mode insert_range 0
  unshared : IsAlone mode unshare_range keep_size

-- A test of a flag and of what else is set.
alone : (b : Bool) (rest : ℕ) → (b && not (rest == 0)) ≡ false → (b ≡ false) ⊎ (rest ≡ 0)
alone b rest h = ground arith

none_else : (n : ℕ) → n ≡ 0 → without n 0 ≡ 0
none_else n e = rw e refl

without-IsAlone :
    (mode flag : ℕ) → (has mode flag && not (without mode flag == 0)) ≡ false → IsAlone mode flag 0
without-IsAlone mode flag h = elim (alone (has mode flag) (without mode flag) h) [
  | inl off ↦ inl off
  | inr only ↦ inr (none_else (without mode flag) only)
]

check_mode-IsMode : (mode : ℕ) → check_mode mode ≡ ok tt → IsMode mode
unfolding check_mode
check_mode-IsMode mode h =
    let supported = passed (not (without mode supported_mask == 0)) eopnotsupp _ h in
    let apart = passed (has mode punch_hole && has mode zero_range) eopnotsupp _ supported.1 in
    let kept = passed (has mode punch_hole && not (has mode keep_size)) eopnotsupp _ apart.1 in
    let collapsed =
      passed (has mode collapse_range && not (without mode collapse_range == 0)) einval _ kept.1 in
    let inserted =
      passed (has mode insert_range && not (without mode insert_range == 0)) einval _ collapsed.1 in
    let unshared =
      not_refused
        (has mode unshare_range && not (without (without mode unshare_range) keep_size == 0)) einval
        inserted.1 in
    record {
      known = ground (arith, supported.0);
      apart = apart.0;
      kept = kept.0;
      collapsed = without-IsAlone mode collapse_range collapsed.0;
      inserted = without-IsAlone mode insert_range inserted.0;
      unshared = alone (has mode unshare_range) _ unshared;
    }

-- The sum of a sound offset and length is within the sizes, and does not wrap.
inside_sizes :
    (max offset len : ℕ)
    → max < half
    → offset < word
    → len < word
    → (is_negative offset || is_negative len || len == 0) ≡ false
    → (signed_ltb max (add64 offset len) || is_negative (add64 offset len)) ≡ false
    → (0 < len) × (offset + len ≤ max)
inside_sizes max offset len small wide wide' sound fits = (ground arith, ground arith)

check_target-IsAllocatable :
    (k : AllocEnv) (f : Target) (mode offset len : ℕ)
    → f.s_maxbytes < half
    → offset < word
    → len < word
    → check_target k f mode offset len ≡ ok tt
    → IsAllocatable f mode offset len
unfolding check_target
check_target-IsAllocatable k f mode offset len small wide wide' h =
    let sound = passed _ _ _ h in
    let modes = passed_by _ _ sound.1 in
    let writable = passed _ _ _ modes.1 in
    let appended = passed _ _ _ writable.1 in
    let immutable = passed _ _ _ appended.1 in
    let swapfile = passed _ _ _ immutable.1 in
    let security = passed_by (refuse k.security_file_permission) _ swapfile.1 in
    let notified = passed_by (refuse (k.fsnotify_file_area_perm offset len)) _ security.1 in
    let fifo = passed (file_type f.node.i_mode == 1) espipe _ notified.1 in
    let dir = passed (is_dir f.node) eisdir _ fifo.1 in
    let kind = passed (not (is_reg f.node) && not (file_type f.node.i_mode == 6)) enodev _ dir.1 in
    let fits =
      not_refused (signed_ltb f.s_maxbytes (add64 offset len) || is_negative (add64 offset len))
        efbig kind.1 in
    let range = inside_sizes f.s_maxbytes offset len small wide wide' sound.0 fits in
    let flags = check_mode-IsMode mode modes.0 in
    record {
      nonempty = range.0;
      inside = range.1;
      writable = not_not (f.writable) writable.0;
      changeable = immutable.0;
      no_swap = swapfile.0;
      kind = either (is_reg f.node) (file_type f.node.i_mode == 6) kind.0;
      apart = flags.apart;
      kept = flags.kept;
      known = flags.known;
      collapsed = flags.collapsed;
      inserted = flags.inserted;
      unshared = flags.unshared;
      appended = swapped (not (without mode keep_size == 0)) f.node.is_append appended.0;
    }
  where
    not_not : (b : Bool) → not b ≡ false → b ≡ true
    not_not b h = ground arith

    either : (a b : Bool) → (not a && not b) ≡ false → (a || b) ≡ true
    either a b h = ground arith

    swapped : (a b : Bool) → (a && b) ≡ false → (b && a) ≡ false
    swapped a b h = ground arith

-- The file system is asked for space only where the file may be written and changed and the range
-- is not empty and ends, without a wrap, within the sizes that it allows. The mode then has
-- supported flags alone: a hole is punched with the size kept and not zeroed, a range is collapsed
-- or inserted with no other flag and unshared with none but the kept size, and an append-only file
-- gets no mode but that. For an offset and a length of 64 bits and a size that is not negative.
pub vfs_fallocate-IsAllocatable :
    (k : AllocEnv) (f : Target) (mode offset len : ℕ)
    → f.s_maxbytes < half
    → offset < word
    → len < word
    → (vfs_fallocate k f mode offset len).asked ≡ true
    → IsAllocatable f mode offset len
unfolding vfs_fallocate
vfs_fallocate-IsAllocatable k f mode offset len small wide wide' h =
    elim (Result-cases (check_target k f mode offset len)) [
      | inl (e, z) ↦ absurd (let gone = rw (vfs_fallocate, z) at h in cc)
      | inr (tt, z) ↦ check_target-IsAllocatable k f mode offset len small wide wide' z
    ]
