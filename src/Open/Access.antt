-- ===== src/Open/Access.antt =====
-- `access` and its kin of open.c: a test of a path with the real ids of the caller instead of the
-- effective ones, for which the credentials are switched only if the switch makes a difference.
use so2_202110206_2svac.Common.{
  ℕ, ◌≡◌, ◌↔◌, Bool, true, false, not, ◌&&◌, ◌||◌, bit_or, ◌==◌, if◌then◌else◌, arith,
}
use so2_202110206_2svac.Common.Result.{Result, ok, err}
use so2_202110206_2svac.Kernel.{einval, eacces, enomem}
use so2_202110206_2svac.Mmap.{has, without}
use so2_202110206_2svac.Ids.{Cred}
use so2_202110206_2svac.Open.Truncate.{Place, file_type, is_reg}
use so2_202110206_2svac.Open.Attributes.{at_symlink_nofollow, at_empty_path}

-- The credentials that the test depends on: the ids, and two sets of capabilities as numbers.
pub record AccessCred : Type 0 where
  pub ids : Cred
  pub cap_effective : ℕ
  pub cap_permitted : ℕ

-- The kernel around one call; the answers of a lookup and of a test of permissions depend on the
-- credentials that are in force.
pub record AccessEnv : Type 0 where
  -- `issecure(SECURE_NO_SETUID_FIXUP)`, and root of the user namespace
  pub no_setuid_fixup : Bool
  pub root_uid : ℕ
  pub prepare_creds_ok : Bool
  pub user_path_at : AccessCred → ℕ → ℕ → ℕ → Bool → Result Place
  pub inode_permission : AccessCred → Place → ℕ → ℕ
  pub path_noexec : Place → Bool
  pub mnt_is_readonly : Place → Bool

abbrev pub at_eaccess : ℕ
at_eaccess = 0x200

abbrev pub erofs : ℕ
erofs = 30

-- A device, a fifo or a socket.
abbrev pub special_file : ℕ → Bool
special_file i_mode =
    file_type i_mode == 2
    || file_type i_mode == 6
    || file_type i_mode == 1
    || file_type i_mode == 12

module _ (k : AccessEnv) where
  unfoldable pub access_need_override_creds : AccessCred → ℕ → Bool
  access_need_override_creds c flags =
      if has flags at_eaccess
      then false
      else if not (c.ids.fsuid == c.ids.uid) || not (c.ids.fsgid == c.ids.gid)
      then true
      else if k.no_setuid_fixup
      then false
      else if not (c.ids.uid == k.root_uid)
      then not (c.cap_effective == 0)
      else not (c.cap_effective == c.cap_permitted)

  -- The credentials that `access_override_creds` puts in force.
  unfoldable pub access_override_creds : AccessCred → AccessCred
  access_override_creds c = record c {
    ids = record c.ids { fsuid = c.ids.uid; fsgid = c.ids.gid };
    cap_effective =
        if k.no_setuid_fixup
        then c.cap_effective
        else if not (c.ids.uid == k.root_uid)
        then 0
        else c.cap_permitted;
  }

  -- The test of a path that is found: MAY_EXEC is 1, MAY_WRITE and S_IWOTH 2 and MAY_ACCESS 0x10.
  unfoldable pub check_access : AccessCred → Place → ℕ → ℕ
  check_access c p mode =
      let res = k.inode_permission c p (bit_or mode 0x10) in
      if has mode 0x1 && is_reg p.node && k.path_noexec p
      then eacces
      else if not (res == 0) || not (has mode 0x2) || special_file p.node.i_mode
      then res
      else if k.mnt_is_readonly p
      then erofs
      else 0

  abbrev second_attempt : AccessCred → Result Place → ℕ → ℕ
  second_attempt c (err e) mode = e
  second_attempt c (ok p) mode = check_access c p mode

  -- With credentials in force; ESTALE of the test gives the lookup a second attempt.
  unfoldable pub access_as : AccessCred → ℕ → ℕ → ℕ → ℕ → ℕ
  access_as c dfd filename mode lookup = elim (k.user_path_at c dfd filename lookup false) [
    | err e ↦ e
    | ok p ↦
        if check_access c p mode == 116
        then second_attempt c (k.user_path_at c dfd filename lookup true) mode
        else check_access c p mode
  ]

  abbrev pub access_lookup : ℕ → ℕ
  access_lookup flags =
      let follow = if has flags at_symlink_nofollow then 0 else 1 in
      if has flags at_empty_path then bit_or follow 0x4000 else follow

  -- The error of the call; `revert_creds` puts the old credentials back in force at its end.
  unfoldable pub do_faccessat : AccessCred → ℕ → ℕ → ℕ → ℕ → ℕ
  do_faccessat c dfd filename mode flags =
      if not (without mode 0x7 == 0)
      then einval
      else if not
          (without (without (without flags at_eaccess) at_symlink_nofollow) at_empty_path == 0)
      then einval
      else if not (access_need_override_creds c flags)
      then access_as c dfd filename mode (access_lookup flags)
      else if not k.prepare_creds_ok
      then enomem
      else access_as (access_override_creds c) dfd filename mode (access_lookup flags)

  -- Without AT_EACCESS the switch is left out exactly where it would change nothing.
  pub access_need_override_creds_iff :
      (c : AccessCred) (flags : ℕ)
      → has flags at_eaccess ≡ false
      → (access_need_override_creds c flags ≡ false) ↔ (access_override_creds c ≡ c)
  unfolding access_need_override_creds access_override_creds
  access_need_override_creds_iff c flags h = (λ e. ground arith, λ e. ground arith)

  -- What the call answers: it refuses, or it tests as the caller with the real ids, or with those
  -- in force where AT_EACCESS asks for it.
  abbrev pub access_reference : AccessCred → ℕ → ℕ → ℕ → ℕ → ℕ
  access_reference c dfd filename mode flags =
      let tester = if has flags at_eaccess then c else access_override_creds c in
      if not (without mode 0x7 == 0)
      then einval
      else if not
          (without (without (without flags at_eaccess) at_symlink_nofollow) at_empty_path == 0)
      then einval
      else access_as tester dfd filename mode (access_lookup flags)
