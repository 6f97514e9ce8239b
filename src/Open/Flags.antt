-- ===== src/Open/Flags.antt =====
-- `build_open_how` and `build_open_flags` of open.c: what `open` and its kin make of their flags.
use so2_202110206_2svac.Common.{ℕ, Bool, not, ◌&&◌, ◌||◌, bit_and, bit_or, ◌%◌, ◌==◌, if◌then◌else◌}
use so2_202110206_2svac.Common.Result.{Result, ok, ◌>>◌, refuse_if}
use so2_202110206_2svac.Kernel.{einval, eagain}
use so2_202110206_2svac.Mmap.{has, without}
use so2_202110206_2svac.Open.{
  OpenHow, OpenFlags, o_creat, o_excl, o_trunc, o_append, o_dsync, o_directory, o_nofollow,
  o_cloexec, o_sync, o_path, o_tmpfile, valid_open_flags, may_write, may_append, resolve_no_xdev,
  resolve_no_magiclinks, resolve_no_symlinks, resolve_beneath, resolve_in_root, resolve_cached,
  all_permissions, regular_file,
}

abbrev pub will_create : ℕ → Bool
will_create flags = has flags o_creat || has flags o_tmpfile

-- `O_DIRECTORY | O_NOFOLLOW | O_PATH | O_CLOEXEC`
abbrev pub o_path_flags : ℕ
o_path_flags = 0x2b_0000

unfoldable pub build_open_how : ℕ → ℕ → OpenHow
build_open_how flags mode =
    let valid = bit_and flags valid_open_flags in
    let flags' = if has valid o_path then bit_and valid o_path_flags else valid in
    record {
      flags = flags';
      mode = if will_create flags' then bit_and mode all_permissions else 0;
      resolve = 0;
    }

-- `ACC_MODE(flags)`: MAY_READ is 4.
abbrev pub acc_mode_of : ℕ → ℕ
acc_mode_of flags = if flags % 4 == 0 then 4 else if flags % 4 == 1 then 2 else 6

-- A flag of `mask`, if a test holds.
abbrev pub when : Bool → ℕ → ℕ → ℕ
when test mask flags = if test then bit_or flags mask else flags

-- The access that the flags ask for.
unfoldable pub access_of : ℕ → ℕ → ℕ
access_of acc_mode flags =
    let base = if has flags o_path then 0 else acc_mode in
    when (has flags o_append) may_append (when (has flags o_trunc) may_write base)

unfoldable pub intent_of : ℕ → ℕ
intent_of flags =
    let open_only = if has flags o_path then 0 else 0x100 in
    if has flags o_creat then when (has flags o_excl) 0x400 (bit_or open_only 0x200) else open_only

-- The flags of the lookup: O_EXCL of a file that is created stands for O_NOFOLLOW.
unfoldable pub lookup_of : ℕ → ℕ → ℕ
lookup_of flags resolve =
    let nofollow = has flags o_nofollow || has flags o_creat && has flags o_excl in
    when (has resolve resolve_cached) 0x20_0000 (
      when (has resolve resolve_in_root) 0x10_0000 (
        when (has resolve resolve_beneath) 0x8_0000 (
          when (has resolve resolve_no_symlinks) 0x1_0000 (
            when (has resolve resolve_no_magiclinks) 0x2_0000 (
              when (has resolve resolve_no_xdev) 0x4_0000
                (when (not nofollow) 0x1 (when (has flags o_directory) 0x2 0)))))))

-- The refusals, in their order. `flags & ~O_PATH_FLAGS` is written one flag at a time.
unfoldable pub check_flags : OpenHow → ℕ → Result (Unit {0})
check_flags how flags = do
  refuse_if (not (without flags valid_open_flags == 0)) einval
  refuse_if (not (without how.resolve 0x3f == 0)) einval
  refuse_if (has how.resolve resolve_beneath && has how.resolve resolve_in_root) einval
  refuse_if
      (if will_create flags
        then not (without how.mode all_permissions == 0)
        else not (how.mode == 0))
      einval
  refuse_if (has flags o_directory && has flags o_creat) einval
  refuse_if
      (has flags o_tmpfile
        && (not (has flags o_directory) || not (has (acc_mode_of how.flags) may_write)))
      einval
  refuse_if
      (has flags o_path
        && not (
            without (without (without (without flags o_directory) o_nofollow) o_path) o_cloexec
            == 0))
      einval
  refuse_if
      (has how.resolve resolve_cached
        && (has flags o_trunc || has flags o_creat || has flags o_tmpfile))
      eagain

unfoldable pub build_open_flags : OpenHow → Result OpenFlags
build_open_flags how =
    let flags = without (without how.flags 0x400_0000) o_cloexec in
    let synced = when (has flags o_sync) o_dsync flags in
    do
      check_flags how flags
      ok (record {
        open_flag = synced;
        mode = if will_create flags then bit_or how.mode regular_file else 0;
        acc_mode = access_of (acc_mode_of how.flags) synced;
        intent = intent_of synced;
        lookup_flags = lookup_of synced how.resolve;
      })
