-- ===== src/Open/Consistent.antt =====
-- What the flags of a file are like once `build_open_flags` has let them through.
use so2_202110206_2svac.Common.{
  ℕ, ◌≡◌, ◌≢◌, ◌∙◌, sym, refl, ap, Bool, true, false, not, ◌&&◌, bit_and, bit_or, ◌==◌, arith,
  if◌then◌else◌, Bool-cases, inl, inr, ◌⊎◌, subst,
}
use so2_202110206_2svac.Common.Bits.{
  bit, bit_and-clear_ne, bit_and-set_self, bit_and-set_ne, bit_and-bit-le,
}
use so2_202110206_2svac.Common.Result.{ok_inj, Result, ok, err}
use so2_202110206_2svac.Mmap.{has, without}
use so2_202110206_2svac.Open.{
  OpenHow, OpenFlags, o_creat, o_trunc, o_append, o_dsync, o_directory, o_nofollow, o_cloexec,
  o_sync, o_path, o_tmpfile, regular_file, may_write, may_append,
}
use so2_202110206_2svac.Open.Flags.{
  when, intent_of, lookup_of, will_create, acc_mode_of, access_of, check_flags, build_open_flags,
}

-- `a` holds only where `b` does.
abbrev pub OnlyIf : Bool → Bool → Type 0
OnlyIf a b = (a && not b) ≡ false

-- A directory is not created as a file; a temporary file has its directory and is written; a path
-- gives no access; O_SYNC comes with O_DSYNC, O_TRUNC with a write and O_APPEND with an append; and
-- only what is created has a mode.
pub record IsConsistent (op : OpenFlags) : Type 0 where
  pub directory : OnlyIf (has op.open_flag o_directory) (not (has op.open_flag o_creat))
  pub tmpfile :
      OnlyIf
        (has op.open_flag o_tmpfile)
        (has op.open_flag o_directory && has op.acc_mode may_write)
  pub path : OnlyIf (has op.open_flag o_path) (op.acc_mode == 0)
  pub sync : OnlyIf (has op.open_flag o_sync) (has op.open_flag o_dsync)
  pub trunc : OnlyIf (has op.open_flag o_trunc) (has op.acc_mode may_write)
  pub append : OnlyIf (has op.open_flag o_append) (has op.acc_mode may_append)
  pub mode : OnlyIf (not (op.mode == 0)) (will_create op.open_flag)

has-when : (t : Bool) (k j f : ℕ) → k ≢ j → has (when t (bit j) f) (bit k) ≡ has f (bit k)
has-when true k j f h = ap (λ n. not (n == 0)) (bit_and-set_ne k j f h)
has-when false k j f h = refl

has_set : (j f : ℕ) → has (bit_or f (bit j)) (bit j) ≡ not (bit j == 0)
has_set j f = ap (λ n. not (n == 0)) (bit_and-set_self j f)

-- A path has none of the flags that clearing its own leaves.
cleared : ℕ → ℕ
cleared f = without (without (without (without f o_directory) o_nofollow) o_path) o_cloexec

has-cleared :
    (k f : ℕ) → k ≢ 16 → k ≢ 17 → k ≢ 21 → k ≢ 19 → has (cleared f) (bit k) ≡ has f (bit k)
unfolding cleared
has-cleared k f directory nofollow path cloexec =
    ap (λ n. not (n == 0))
      (bit_and-clear_ne k 19 _ cloexec
        ∙ bit_and-clear_ne k 21 _ path
        ∙ bit_and-clear_ne k 17 _ nofollow
        ∙ bit_and-clear_ne k 16 f directory)

module _ (f : ℕ) (path : OnlyIf (has f o_path) (cleared f == 0)) where
  path_has :
      (k : ℕ) → k ≢ 16 → k ≢ 17 → k ≢ 21 → k ≢ 19 → OnlyIf (has f o_path) (not (has f (bit k)))
  path_has k directory nofollow path' cloexec =
      let same = has-cleared k f directory nofollow path' cloexec in
      elim (Bool-cases (has f o_path)) [
        | inr e ↦ rw e refl
        | inl e ↦
            let gone : cleared f ≡ 0 = ground arith in
            let zero_there : bit_and 0 (bit k) ≡ 0 = omega (arith, bit_and-bit-le k 0) in
            let off : has f (bit k) ≡ false =
              sym (rw gone at same) ∙ ap (λ n. not (n == 0)) zero_there in
            rw (e, off) refl
      ]

Unit_result : (m : Result (Unit {0})) → (m ≡ ok tt) ⊎ ((e : ℕ) × (m ≡ err e))
Unit_result (ok done) = inl refl
Unit_result (err e) = inr (e, refl)

-- What the refusals leave.
record Passes (how : OpenHow) (f : ℕ) : Type 0 where
  directory : (has f o_directory && has f o_creat) ≡ false
  tmpfile : OnlyIf (has f o_tmpfile) (has f o_directory && has (acc_mode_of how.flags) may_write)
  path : OnlyIf (has f o_path) (cleared f == 0)

check_flags-Passes : (how : OpenHow) (f : ℕ) → check_flags how f ≡ ok tt → Passes how f
unfolding check_flags cleared
check_flags-Passes how f h = record {
  directory = ground arith;
  tmpfile = ground arith;
  path = ground arith;
}

-- O_DSYNC is set for O_SYNC, and no other flag changes.
synced : ℕ → ℕ
synced f = when (has f o_sync) o_dsync f

has-synced : (k f : ℕ) → k ≢ 12 → has (synced f) (bit k) ≡ has f (bit k)
unfolding synced
has-synced k f h = has-when (has f o_sync) k 12 f h

synced-dsync : (f : ℕ) → OnlyIf (has (synced f) o_sync) (has (synced f) o_dsync)
unfolding synced
synced-dsync f =
    let same = has-synced 20 f (omega arith) in
    elim (Bool-cases (has f o_sync)) [
      | inr e ↦ ground arith
      | inl e ↦ let set = has_set 12 f in ground arith
    ]

-- The access, over the flags that change it.
module _ (acc f : ℕ) where
  abbrev base : ℕ
  base = if has f o_path then 0 else acc

  abbrev written : ℕ
  written = when (has f o_trunc) may_write base

  -- O_APPEND does not bear on MAY_WRITE.
  has-access_of : has (access_of acc f) may_write ≡ has written may_write
  unfolding access_of
  has-access_of = has-when (has f o_append) 1 3 written (omega arith)

  access_of-trunc : OnlyIf (has f o_trunc) (has (access_of acc f) may_write)
  access_of-trunc = elim (Bool-cases (has f o_trunc)) [
    | inr e ↦ rw e refl
    | inl e ↦ let set = has_set 1 base in let same = has-access_of in ground arith
  ]

  access_of-append : OnlyIf (has f o_append) (has (access_of acc f) may_append)
  unfolding access_of
  access_of-append = elim (Bool-cases (has f o_append)) [
    | inr e ↦ rw e refl
    | inl e ↦ let set = has_set 3 written in ground arith
  ]

  -- What is no path has the access that it asks for.
  access_of-kept :
      has f o_path ≡ false → has acc may_write ≡ true → has (access_of acc f) may_write ≡ true
  access_of-kept plain may = elim (Bool-cases (has f o_trunc)) [
    | inl e ↦ let set = has_set 1 base in let same = has-access_of in ground arith
    | inr e ↦ let same = has-access_of in ground arith
  ]

  -- A path that is neither cut nor appended to gives no access.
  access_of-path :
      OnlyIf (has f o_path) (not (has f o_trunc))
      → OnlyIf (has f o_path) (not (has f o_append))
      → OnlyIf (has f o_path) (access_of acc f == 0)
  unfolding access_of
  access_of-path trunc append = ground arith

-- What `build_open_flags` lets through is consistent.
Passes-IsConsistent :
    (how : OpenHow) (f : ℕ)
    → Passes how f
    → IsConsistent (record {
      open_flag = synced f;
      mode = if will_create f then bit_or how.mode regular_file else 0;
      acc_mode = access_of (acc_mode_of how.flags) (synced f);
      intent = intent_of (synced f);
      lookup_flags = lookup_of (synced f) how.resolve;
    })
Passes-IsConsistent how f p =
    let acc = acc_mode_of how.flags in
    let creat = has-synced 6 f (omega arith) in
    let trunc = has-synced 9 f (omega arith) in
    let append = has-synced 10 f (omega arith) in
    let directory = has-synced 16 f (omega arith) in
    let path = has-synced 21 f (omega arith) in
    let tmpfile = has-synced 22 f (omega arith) in
    let no_trunc = path_has f p.path 9 (omega arith) (omega arith) (omega arith) (omega arith) in
    let no_append = path_has f p.path 10 (omega arith) (omega arith) (omega arith) (omega arith) in
    let no_tmpfile = path_has f p.path 22 (omega arith) (omega arith) (omega arith) (omega arith) in
    record {
      directory = ground (arith, p.directory);
      tmpfile = ground (arith, p.tmpfile, access_of-kept acc (synced f));
      path = access_of-path acc (synced f) (ground arith) (ground arith);
      sync = synced-dsync f;
      trunc = access_of-trunc acc (synced f);
      append = access_of-append acc (synced f);
      mode = ground arith;
    }

-- Whatever `build_open_flags` is given, the flags that it makes are consistent, if it does not
-- refuse: no directory is created as a file, a temporary file has its directory and is written, a
-- path gives no access, O_SYNC comes with O_DSYNC, O_TRUNC with write access and O_APPEND with
-- append access, and what is not created has no mode.
pub build_open_flags-IsConsistent :
    (how : OpenHow) (op : OpenFlags) → build_open_flags how ≡ ok op → IsConsistent op
unfolding build_open_flags synced
build_open_flags-IsConsistent how op h =
    let f = without (without how.flags 0x400_0000) o_cloexec in
    elim (Unit_result (check_flags how f)) [
      | inl passed ↦
          let made = rw (build_open_flags, passed) at h in
          subst IsConsistent (ok_inj _ op made)
            (Passes-IsConsistent how f (check_flags-Passes how f passed))
      | inr (e, refused) ↦ absurd (let made = rw (build_open_flags, refused) at h in cc)
    ]
