-- ===== src/Open/Truncate.antt =====
-- `truncate` and `ftruncate` of open.c, and what the calls on paths see of the kernel.
use so2_202110206_2svac.Common.{
  ℕ, ◌-◌, ◌^◌, ◌/◌, ◌%◌, Bool, false, true, not, ◌&&◌, ◌||◌, [], ◌∷◌, Option, none, some, bit_or,
  ltb, ◌==◌, if◌then◌else◌,
}
use so2_202110206_2svac.Common.Result.{Result, ok, err}
use so2_202110206_2svac.Kernel.{einval, ebadf, eperm}
use so2_202110206_2svac.Mmap.{has}
use so2_202110206_2svac.Io.{is_negative}
use so2_202110206_2svac.Open.{o_largefile}
use so2_202110206_2svac.Open.Holds.{
  file, mount, inode, superblock, Attributes, no_attributes, Trace, notify_change, fails_with,
  holding, retrying, unless_error, at_path,
}

-- What the calls read of an inode.
pub record Inode : Type 0 where
  pub i_mode : ℕ
  pub is_append : Bool

-- A path, and the inode at it.
pub record Place : Type 0 where
  pub name : ℕ
  pub node : Inode

-- An open file: `f_flags`, whether FMODE_WRITE is set, and its place.
pub record Handle : Type 0 where
  pub f_flags : ℕ
  pub writable : Bool
  pub place : Place

-- The kernel around one call. A code is an error, or 0.
pub record FsEnv : Type 0 where
  -- a lookup of a name, relative to a directory, with flags; again, if it is the second one
  pub user_path_at : ℕ → ℕ → ℕ → Bool → Result Place
  pub mnt_want_write : Place → ℕ
  pub inode_permission : Place → ℕ → ℕ
  pub get_write_access : Place → ℕ
  pub break_lease : Place → ℕ
  pub security_path_truncate : Place → ℕ
  pub security_file_truncate : Place → ℕ
  -- the flags of attributes to remove, or an error
  pub dentry_needs_remove_privs : Place → Result ℕ
  pub notify_change : Place → Attributes → ℕ

-- The type of a file, `i_mode & S_IFMT` without the permissions.
abbrev pub file_type : ℕ → ℕ
file_type i_mode = i_mode / 0x1000 % 16

abbrev pub is_dir : Inode → Bool
is_dir n = file_type n.i_mode == 4

abbrev pub is_reg : Inode → Bool
is_reg n = file_type n.i_mode == 8

abbrev pub eisdir : ℕ
eisdir = 21

-- ATTR_SIZE, ATTR_FORCE and ATTR_FILE
abbrev pub attr_size : ℕ
attr_size = 0x8

abbrev pub attr_force : ℕ
attr_force = 0x200

abbrev pub attr_file : ℕ
attr_file = 0x2000

-- The attributes of a new size; `privs` are those to remove, if there are any.
abbrev pub size_attributes : ℕ → ℕ → Bool → ℕ → Attributes
size_attributes length time_attrs of_file privs =
    let sized = bit_or attr_size time_attrs in
    let filed = if of_file then bit_or sized attr_file else sized in
    record no_attributes {
      ia_valid = if privs == 0 then filed else bit_or filed (bit_or privs attr_force);
      ia_size = some length;
    }

-- AT_FDCWD as the 32 bits that it has.
abbrev pub at_cwd : ℕ
at_cwd = 0xffff_ff9c

module _ (k : FsEnv) where
  unfoldable pub do_truncate : Place → ℕ → ℕ → Bool → Trace
  do_truncate p length time_attrs of_file =
      if is_negative length then fails_with einval else elim (k.dentry_needs_remove_privs p) [
        | err e ↦ fails_with e
        | ok privs ↦
            let attrs = size_attributes length time_attrs of_file privs in
            record { steps = notify_change attrs ∷ []; code = k.notify_change p attrs }
      ]

  -- With write access to the inode, and before it to the mount.
  unfoldable pub truncate_writing : Place → ℕ → Trace
  unfolding do_truncate
  truncate_writing p length =
      unless_error (k.break_lease p)
        (unless_error (k.security_path_truncate p) (do_truncate p length 0 false))

  unfoldable pub truncate_mounted : Place → ℕ → Trace
  unfolding truncate_writing
  truncate_mounted p length = unless_error (k.inode_permission p 2) (
      if p.node.is_append
      then fails_with eperm
      else unless_error (k.get_write_access p) (holding inode (truncate_writing p length)))

  unfoldable pub vfs_truncate : Place → ℕ → Trace
  unfolding truncate_mounted
  vfs_truncate p length =
      if is_dir p.node
      then fails_with eisdir
      else if not (is_reg p.node)
      then fails_with einval
      else unless_error (k.mnt_want_write p) (holding mount (truncate_mounted p length))

  -- A lookup that follows a last link; AT_FDCWD is its own number here.
  unfoldable pub do_sys_truncate : ℕ → ℕ → Trace
  unfolding vfs_truncate
  do_sys_truncate pathname length =
      if is_negative length
      then fails_with einval
      else retrying
          λ again. at_path (k.user_path_at at_cwd pathname 1 again) λ p. vfs_truncate p length

  -- MAX_NON_LFS is 2 ^ 31 - 1.
  unfoldable pub ftruncate_file : Handle → ℕ → Bool → Trace
  unfolding do_truncate
  ftruncate_file f length small =
      let small' = small && not (has f.f_flags o_largefile) in
      if not (is_reg f.place.node) || not f.writable
      then fails_with einval
      else if small' && ltb (2 ^ 31 - 1) length
      then fails_with einval
      else if f.place.node.is_append
      then fails_with eperm
      else holding superblock
          (unless_error (k.security_file_truncate f.place) (do_truncate f.place length 0x60 true))

  unfoldable pub do_sys_ftruncate : Option Handle → ℕ → Bool → Trace
  unfolding ftruncate_file
  do_sys_ftruncate f length small = if is_negative length then fails_with einval else elim f [
    | none ↦ fails_with ebadf
    | some h ↦ holding file (ftruncate_file h length small)
  ]
