-- ===== src/Open/Directories.antt =====
-- `chdir`, `fchdir` and `chroot` of open.c.
use so2_202110206_2svac.Common.{
  ℕ, Bool, true, false, not, [], ◌∷◌, Option, none, some, if◌then◌else◌,
}
use so2_202110206_2svac.Kernel.{ebadf, eperm}
use so2_202110206_2svac.Open.Holds.{
  file, Trace, Step, set_pwd, set_root, fails_with, holding, unless_error, at_path_again,
}
use so2_202110206_2svac.Open.Truncate.{Place, Handle, FsEnv, at_cwd}

pub record DirEnv : Type 0 where
  pub fs : FsEnv
  pub open fs use *
  -- `path_permission` and `file_permission` for MAY_EXEC and MAY_CHDIR
  pub path_permission : Place → ℕ
  pub file_permission : Handle → ℕ
  pub d_can_lookup : Handle → Bool
  -- `ns_capable(current_user_ns(), CAP_SYS_CHROOT)`
  pub chroot_capable : Bool
  pub security_path_chroot : Place → ℕ

abbrev pub enotdir : ℕ
enotdir = 20

-- The directory of the process is set, and nothing fails any more.
abbrev pub sets : Step → Trace
sets s = record { steps = s ∷ []; code = 0 }

module _ (k : DirEnv) where
  -- A lookup of a directory: `LOOKUP_FOLLOW | LOOKUP_DIRECTORY`.
  abbrev at_directory : ℕ → (Place → Trace) → Trace
  at_directory filename body =
      at_path_again (k.user_path_at at_cwd filename 3 false) (k.user_path_at at_cwd filename 3 true)
        body

  unfoldable pub sys_chdir : ℕ → Trace
  sys_chdir filename = at_directory filename λ p. unless_error (k.path_permission p) (sets set_pwd)

  unfoldable pub sys_fchdir : Option Handle → Trace
  sys_fchdir f = elim f [
    | none ↦ fails_with ebadf
    | some h ↦ holding file (
        if not (k.d_can_lookup h)
        then fails_with enotdir
        else unless_error (k.file_permission h) (sets set_pwd))
  ]

  unfoldable pub sys_chroot : ℕ → Trace
  sys_chroot filename = at_directory filename λ p. unless_error (k.path_permission p) (
      if not k.chroot_capable
      then fails_with eperm
      else unless_error (k.security_path_chroot p) (sets set_root))
