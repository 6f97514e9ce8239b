-- ===== src/Open/Balanced.antt =====
-- The calls of open.c that change files or directories by a path or a descriptor: each lets go of
-- what it takes hold of.
use so2_202110206_2svac.Common.{
  ℕ, ◌≡◌, refl, Bool, true, false, not, List, [], ◌∷◌, Option, none, some, ◌==◌, inl, inr, ◌||◌,
}
use so2_202110206_2svac.Common.Result.{Result-cases, Result, ok, err}
use so2_202110206_2svac.Kernel.{einval, eperm, ebadf}
use so2_202110206_2svac.Io.{is_negative}
use so2_202110206_2svac.Open.Holds.{
  Hold, path, file, mount, inode, superblock, Attributes, Trace, Keeps, held, set_pwd, set_root,
  notify_change, may_change, fails_with, fails_with-Keeps, holding-Keeps, then_again-Keeps,
  if-Keeps, unless_error-Keeps, retrying-Keeps, at_path-Keeps, at_path_again-Keeps,
  notify_change-Keeps,
}
use so2_202110206_2svac.Open.Truncate.{
  Place, Handle, FsEnv, do_truncate, truncate_writing, truncate_mounted, vfs_truncate,
  do_sys_truncate, ftruncate_file, do_sys_ftruncate, size_attributes, is_dir, is_reg, eisdir,
  at_cwd,
}
use so2_202110206_2svac.Open.Attributes.{
  AttrEnv, owner, change_waiting, chmod_common, sys_fchmod, do_fchmodat, chown_common,
  chown_mounted, vfs_fchown, do_fchownat, ksys_fchown,
}
use so2_202110206_2svac.Open.Directories.{DirEnv, enotdir, sets, sys_chdir, sys_fchdir, sys_chroot}

-- One of the calls, with its kernel and arguments.
pub data FileCall : Type 0 where
  truncate : FsEnv → ℕ → ℕ → FileCall
  ftruncate : FsEnv → Option Handle → ℕ → Bool → FileCall
  fchmod : AttrEnv → Option Handle → ℕ → FileCall
  fchmodat : AttrEnv → ℕ → ℕ → ℕ → ℕ → FileCall
  fchown : AttrEnv → Option Handle → ℕ → ℕ → FileCall
  fchownat : AttrEnv → ℕ → ℕ → ℕ → ℕ → ℕ → FileCall
  chdir : DirEnv → ℕ → FileCall
  fchdir : DirEnv → Option Handle → FileCall
  chroot : DirEnv → ℕ → FileCall

abbrev pub run : FileCall → Trace
run (truncate k pathname length) = do_sys_truncate k pathname length
run (ftruncate k f length small) = do_sys_ftruncate k f length small
run (fchmod k f mode) = sys_fchmod k f mode
run (fchmodat k dfd filename mode flags) = do_fchmodat k dfd filename mode flags
run (fchown k f user group) = ksys_fchown k f user group
run (fchownat k dfd filename user group flag) = do_fchownat k dfd filename user group flag
run (chdir k filename) = sys_chdir k filename
run (fchdir k f) = sys_fchdir k f
run (chroot k filename) = sys_chroot k filename

sets_pwd-Keeps : (hs : List Hold) → Keeps hs (sets set_pwd)
unfolding held
sets_pwd-Keeps hs = record { kept = refl }

sets_root-Keeps : (hs : List Hold) → Keeps hs (sets set_root)
unfolding held
sets_root-Keeps hs = record { kept = refl }

do_truncate-Keeps :
    (k : FsEnv) (hs : List Hold) (p : Place) (length time_attrs : ℕ) (of_file : Bool)
    → may_change hs ≡ true
    → Keeps hs (do_truncate k p length time_attrs of_file)
unfolding do_truncate
do_truncate-Keeps k hs p length time_attrs of_file h =
    if-Keeps hs (is_negative length) (fails_with einval) _ (fails_with-Keeps hs einval)
      (changes (k.dentry_needs_remove_privs p))
  where
    changes :
        (privs : Result ℕ)
        → Keeps hs (elim privs [
          | err e ↦ fails_with e
          | ok n ↦ record {
            steps = notify_change (size_attributes length time_attrs of_file n) ∷ [];
            code = k.notify_change p (size_attributes length time_attrs of_file n);
          }
        ])
    changes (err e) = fails_with-Keeps hs e
    changes (ok n) =
        notify_change-Keeps hs (size_attributes length time_attrs of_file n)
          (k.notify_change p (size_attributes length time_attrs of_file n)) h

vfs_truncate-Keeps :
    (k : FsEnv) (hs : List Hold) (p : Place) (length : ℕ) → Keeps hs (vfs_truncate k p length)
unfolding vfs_truncate truncate_mounted truncate_writing
vfs_truncate-Keeps k hs p length =
    if-Keeps hs (is_dir p.node) (fails_with eisdir) _ (fails_with-Keeps hs eisdir) (
      if-Keeps hs (not (is_reg p.node)) (fails_with einval) _ (fails_with-Keeps hs einval) (
        unless_error-Keeps hs (k.mnt_want_write p) _ (
          holding-Keeps hs mount _ (
            unless_error-Keeps (mount ∷ hs) (k.inode_permission p 2) _ (
              if-Keeps (mount ∷ hs) p.node.is_append (fails_with eperm) _
                (fails_with-Keeps (mount ∷ hs) eperm)
                (unless_error-Keeps (mount ∷ hs) (k.get_write_access p) _ (
                  holding-Keeps (mount ∷ hs) inode _ (
                    unless_error-Keeps (inode ∷ mount ∷ hs) (k.break_lease p) _ (
                      unless_error-Keeps (inode ∷ mount ∷ hs) (k.security_path_truncate p) _
                        (do_truncate-Keeps k (inode ∷ mount ∷ hs) p length 0 false refl))))))))))

ftruncate_file-Keeps :
    (k : FsEnv) (hs : List Hold) (f : Handle) (length : ℕ) (small : Bool)
    → Keeps hs (ftruncate_file k f length small)
unfolding ftruncate_file
ftruncate_file-Keeps k hs f length small =
    if-Keeps hs (not (is_reg f.place.node) || not f.writable) (fails_with einval) _
      (fails_with-Keeps hs einval)
      (if-Keeps hs _ (fails_with einval) _ (fails_with-Keeps hs einval) (
        if-Keeps hs f.place.node.is_append (fails_with eperm) _ (fails_with-Keeps hs eperm) (
          holding-Keeps hs superblock _ (
            unless_error-Keeps (superblock ∷ hs) (k.security_file_truncate f.place) _
              (do_truncate-Keeps k (superblock ∷ hs) f.place length 0x60 true refl)))))

-- Write access lasts through every attempt to change an inode.
change_waiting-Keeps :
    (k : AttrEnv) (hs : List Hold) (p : Place) (security : ℕ) (attrs : Attributes) (waits : List ℕ)
    → may_change hs ≡ true
    → Keeps hs (change_waiting k p security attrs waits)
unfolding change_waiting
change_waiting-Keeps k hs p security attrs [] h =
    unless_error-Keeps hs security _ (notify_change-Keeps hs attrs (k.notify_change p attrs) h)
change_waiting-Keeps k hs p security attrs (wait ∷ more) h =
    let first = notify_change-Keeps hs attrs wait h in
    unless_error-Keeps hs security _ (
      if-Keeps hs (wait == 0) _ _
        (then_again-Keeps hs _ _ first (change_waiting-Keeps k hs p security attrs more h)) first)

chmod_common-Keeps :
    (k : AttrEnv) (hs : List Hold) (p : Place) (mode : ℕ) → Keeps hs (chmod_common k p mode)
unfolding chmod_common
chmod_common-Keeps k hs p mode =
    unless_error-Keeps hs (k.mnt_want_write p) _
      (holding-Keeps hs mount _ (change_waiting-Keeps k (mount ∷ hs) p _ _ (k.delegations p) refl))

chown_common-Keeps :
    (k : AttrEnv) (hs : List Hold) (p : Place) (user group : ℕ)
    → may_change hs ≡ true
    → Keeps hs (chown_common k p user group)
unfolding chown_common
chown_common-Keeps k hs p user group h = elim (Result-cases (owner k.make_kuid user 0x2)) [
  | inl (e, z) ↦ rw (chown_common, z) (fails_with-Keeps hs e)
  | inr (uid, z) ↦ elim (Result-cases (owner k.make_kgid group 0x4)) [
    | inl (e, y) ↦ rw (chown_common, z, y) (fails_with-Keeps hs e)
    | inr (gid, y) ↦ rw (chown_common, z, y) (change_waiting-Keeps k hs p _ _ (k.delegations p) h)
  ]
]

chown_mounted-Keeps :
    (k : AttrEnv) (hs : List Hold) (p : Place) (user group : ℕ)
    → Keeps hs (chown_mounted k p user group)
unfolding chown_mounted
chown_mounted-Keeps k hs p user group =
    unless_error-Keeps hs (k.mnt_want_write p) _
      (holding-Keeps hs mount _ (chown_common-Keeps k (mount ∷ hs) p user group refl))

vfs_fchown-Keeps :
    (k : AttrEnv) (hs : List Hold) (h : Handle) (user group : ℕ)
    → Keeps hs (vfs_fchown k h user group)
unfolding vfs_fchown
vfs_fchown-Keeps k hs h user group =
    unless_error-Keeps hs (k.mnt_want_write_file h) _
      (holding-Keeps hs mount _ (chown_common-Keeps k (mount ∷ hs) h.place user group refl))

-- Each call of `truncate`, `chmod`, `chown`, `chdir`, `chroot` and their kin, on every path, errors
-- and second attempts included, lets go of all the holds that it takes, the last one first; and it
-- has an inode changed only while it has write access to the mount or the superblock.
pub run-Keeps : (c : FileCall) → Keeps [] (run c)
unfolding do_sys_truncate do_sys_ftruncate sys_fchmod do_fchmodat ksys_fchown do_fchownat sys_chdir
    sys_fchdir sys_chroot
run-Keeps (truncate k pathname length) =
    if-Keeps [] (is_negative length) (fails_with einval) _ (fails_with-Keeps [] einval) (
      retrying-Keeps [] _ λ again.
        at_path-Keeps [] (k.user_path_at at_cwd pathname 1 again) _
          λ p. vfs_truncate-Keeps k (path ∷ []) p length)
run-Keeps (ftruncate k none length small) =
    if-Keeps [] (is_negative length) (fails_with einval) _ (fails_with-Keeps [] einval)
      (fails_with-Keeps [] ebadf)
run-Keeps (ftruncate k (some h) length small) =
    if-Keeps [] (is_negative length) (fails_with einval) _ (fails_with-Keeps [] einval)
      (holding-Keeps [] file _ (ftruncate_file-Keeps k (file ∷ []) h length small))
run-Keeps (fchmod k none mode) = fails_with-Keeps [] ebadf
run-Keeps (fchmod k (some h) mode) =
    holding-Keeps [] file _ (chmod_common-Keeps k (file ∷ []) h.place mode)
run-Keeps (fchmodat k dfd filename mode flags) =
    if-Keeps [] _ (fails_with einval) _ (fails_with-Keeps [] einval)
      (at_path_again-Keeps [] _ _ _ λ p. chmod_common-Keeps k (path ∷ []) p mode)
run-Keeps (fchown k none user group) = fails_with-Keeps [] ebadf
run-Keeps (fchown k (some h) user group) =
    holding-Keeps [] file _ (vfs_fchown-Keeps k (file ∷ []) h user group)
run-Keeps (fchownat k dfd filename user group flag) =
    if-Keeps [] _ (fails_with einval) _ (fails_with-Keeps [] einval)
      (at_path_again-Keeps [] _ _ _ λ p. chown_mounted-Keeps k (path ∷ []) p user group)
run-Keeps (chdir k filename) =
    at_path_again-Keeps [] _ _ _
      λ p. unless_error-Keeps (path ∷ []) (k.path_permission p) _ (sets_pwd-Keeps (path ∷ []))
run-Keeps (fchdir k none) = fails_with-Keeps [] ebadf
run-Keeps (fchdir k (some h)) = holding-Keeps [] file _ (
    if-Keeps (file ∷ []) (not (k.d_can_lookup h)) (fails_with enotdir) _
      (fails_with-Keeps (file ∷ []) enotdir)
      (unless_error-Keeps (file ∷ []) (k.file_permission h) _ (sets_pwd-Keeps (file ∷ []))))
run-Keeps (chroot k filename) = at_path_again-Keeps [] _ _ _ λ p.
    unless_error-Keeps (path ∷ []) (k.path_permission p) _ (
      if-Keeps (path ∷ []) (not k.chroot_capable) (fails_with eperm) _
        (fails_with-Keeps (path ∷ []) eperm)
        (unless_error-Keeps (path ∷ []) (k.security_path_chroot p) _ (sets_root-Keeps (path ∷ []))))
