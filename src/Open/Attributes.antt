-- ===== src/Open/Attributes.antt =====
-- `chmod`, `chown` and their kin of open.c.
use so2_202110206_2svac.Common.{
  ℕ, true, false, not, List, [], ◌∷◌, Option, none, some, bit_and, bit_or, ◌==◌, if◌then◌else◌,
}
use so2_202110206_2svac.Common.Result.{Result, ok, err}
use so2_202110206_2svac.Kernel.{einval, ebadf}
use so2_202110206_2svac.Mmap.{has, without}
use so2_202110206_2svac.Open.{all_permissions}
use so2_202110206_2svac.Open.Holds.{
  file, mount, Attributes, no_attributes, Trace, notify_change, fails_with, holding, then_again,
  unless_error, at_path_again,
}
use so2_202110206_2svac.Open.Truncate.{Inode, Place, Handle, FsEnv, is_dir}

-- The kernel around a change of attributes. `delegations` are those that others have of the inode:
-- each attempt meets one, and waiting for it ends with a code.
pub record AttrEnv : Type 0 where
  pub fs : FsEnv
  pub open fs use *
  pub mnt_want_write_file : Handle → ℕ
  pub delegations : Place → List ℕ
  pub security_path_chmod : Place → ℕ → ℕ
  pub security_path_chown : Place → Attributes → ℕ
  -- `make_kuid` and `make_kgid`, and the flag of `setattr_should_drop_sgid`
  pub make_kuid : ℕ → Option ℕ
  pub make_kgid : ℕ → Option ℕ
  pub should_drop_sgid : Place → ℕ

abbrev pub at_symlink_nofollow : ℕ
at_symlink_nofollow = 0x100

abbrev pub at_empty_path : ℕ
at_empty_path = 0x1000

-- The new mode of a file: its type stays. ATTR_MODE and ATTR_CTIME are 0x1 and 0x40.
abbrev pub mode_attributes : ℕ → Inode → Attributes
mode_attributes mode n = record no_attributes {
  ia_valid = 0x41;
  ia_mode = some (bit_or (bit_and mode all_permissions) (without n.i_mode all_permissions));
}

-- An id of 32 bits, of which the last, -1, leaves the owner.
abbrev pub no_id : ℕ
no_id = 0xffff_ffff

-- `setattr_vfsuid` and `setattr_vfsgid`, if the id is given: the flag and the id, or a failure.
abbrev pub owner : (ℕ → Option ℕ) → ℕ → ℕ → Result (ℕ × Option ℕ)
owner make id attr =
    if id == no_id
    then ok (0, none)
    else elim (make id) [ none ↦ err einval | some kid ↦ ok (attr, some kid) ]

module _ (k : AttrEnv) where
  -- The attempts to change an inode, one for each delegation and a last one.
  unfoldable pub change_waiting : Place → ℕ → Attributes → List ℕ → Trace
  change_waiting p security attrs [] =
      unless_error security
        (record { steps = notify_change attrs ∷ []; code = k.notify_change p attrs })
  change_waiting p security attrs (wait ∷ more) =
      let rest = change_waiting p security attrs more in
      let first : Trace = record { steps = notify_change attrs ∷ []; code = wait } in
      unless_error security (if wait == 0 then then_again first rest else first)

  unfoldable pub chmod_common : Place → ℕ → Trace
  unfolding change_waiting
  chmod_common p mode = unless_error (k.mnt_want_write p) (
      holding mount (
        change_waiting p (k.security_path_chmod p mode) (mode_attributes mode p.node)
          (k.delegations p)))

  unfoldable pub sys_fchmod : Option Handle → ℕ → Trace
  unfolding chmod_common
  sys_fchmod f mode = elim f [
    | none ↦ fails_with ebadf
    | some h ↦ holding file (chmod_common h.place mode)
  ]

  -- The flags of a lookup: LOOKUP_FOLLOW is 1 and LOOKUP_EMPTY 0x4000.
  abbrev pub lookup_flags : ℕ → ℕ
  lookup_flags flags =
      let follow = if has flags at_symlink_nofollow then 0 else 1 in
      if has flags at_empty_path then bit_or follow 0x4000 else follow

  -- Two lookups of a path, the second one for a retry, and what is done there.
  abbrev at_place : ℕ → ℕ → ℕ → (Place → Trace) → Trace
  at_place dfd filename lookup body =
      at_path_again (k.user_path_at dfd filename lookup false)
        (k.user_path_at dfd filename lookup true) body

  unfoldable pub do_fchmodat : ℕ → ℕ → ℕ → ℕ → Trace
  unfolding chmod_common
  do_fchmodat dfd filename mode flags =
      if not (without (without flags at_symlink_nofollow) at_empty_path == 0)
      then fails_with einval
      else at_place dfd filename (lookup_flags flags) λ p. chmod_common p mode

  -- ATTR_KILL_SUID and ATTR_KILL_PRIV are 0x800 and 0x4000.
  abbrev pub owner_attributes : Place → ℕ × Option ℕ → ℕ × Option ℕ → Attributes
  owner_attributes p (uid_attr, uid) (gid_attr, gid) =
      let named = bit_or (bit_or 0x40 uid_attr) gid_attr in
      record no_attributes {
        ia_valid =
            if is_dir p.node then named else bit_or named (bit_or 0x4800 (k.should_drop_sgid p));
        ia_uid = uid;
        ia_gid = gid;
      }

  -- ATTR_UID and ATTR_GID are 0x2 and 0x4.
  unfoldable pub chown_common : Place → ℕ → ℕ → Trace
  unfolding change_waiting
  chown_common p user group = elim (owner k.make_kuid user 0x2) [
    | err e ↦ fails_with e
    | ok uid ↦ elim (owner k.make_kgid group 0x4) [
      | err e ↦ fails_with e
      | ok gid ↦
          let attrs = owner_attributes p uid gid in
          change_waiting p (k.security_path_chown p attrs) attrs (k.delegations p)
    ]
  ]

  unfoldable pub chown_mounted : Place → ℕ → ℕ → Trace
  unfolding chown_common
  chown_mounted p user group =
      unless_error (k.mnt_want_write p) (holding mount (chown_common p user group))

  unfoldable pub do_fchownat : ℕ → ℕ → ℕ → ℕ → ℕ → Trace
  unfolding chown_mounted
  do_fchownat dfd filename user group flag =
      if not (without (without flag at_symlink_nofollow) at_empty_path == 0)
      then fails_with einval
      else at_place dfd filename (lookup_flags flag) λ p. chown_mounted p user group

  unfoldable pub vfs_fchown : Handle → ℕ → ℕ → Trace
  unfolding chown_common
  vfs_fchown h user group =
      unless_error (k.mnt_want_write_file h) (holding mount (chown_common h.place user group))

  unfoldable pub ksys_fchown : Option Handle → ℕ → ℕ → Trace
  unfolding vfs_fchown
  ksys_fchown f user group = elim f [
    | none ↦ fails_with ebadf
    | some h ↦ holding file (vfs_fchown h user group)
  ]
