-- ===== src/Open/Installed.antt =====
-- What the calls that open a file do to the table of descriptors.
use so2_202110206_2svac.Common.{
  ℕ, ◌+◌, ◌%◌, ◌<◌, ◌≡◌, ◌≢◌, ◌⊎◌, inl, inr, refl, none, some, List, length, arith, if◌then◌else◌,
}
use so2_202110206_2svac.Common.Int.{ℤ, pos, eq_ℤ}
use so2_202110206_2svac.Common.Word.{word}
use so2_202110206_2svac.Common.Result.{Result-cases, ok, err}
use so2_202110206_2svac.Monitor.Track.{Timespec, SyscallUsage, max_sys_calls, tracked}
use so2_202110206_2svac.Monitor.Counting.{
  count_of, after_call, track_syscall-after_call, count_of-after_call,
}
use so2_202110206_2svac.Open.{OpenHow, OpenFlags}
use so2_202110206_2svac.Open.Flags.{build_open_how, build_open_flags}
use so2_202110206_2svac.Open.Consistent.{IsConsistent, build_open_flags-IsConsistent}
use so2_202110206_2svac.Open.Descriptors.{
  FdTable, OpenEnv, Opened, open_reserved, open_named, do_sys_openat2, do_sys_open, sys_open, large,
  at_fdcwd,
}

-- What is documented of the table: a descriptor that is reserved was free, and giving it up undoes
-- the reservation; a file that is installed in it is found there, and the others stay.
pub record FdLaws {T : Type 0} (fds : FdTable T) : Type 0 where
  pub was_free :
      (t t' : T) (flags fd : ℕ)
      → fds.get_unused_fd_flags t flags ≡ ok (fd, t')
      → fds.file_of t fd ≡ none
  pub put_back :
      (t t' : T) (flags fd : ℕ)
      → fds.get_unused_fd_flags t flags ≡ ok (fd, t')
      → fds.put_unused_fd t' fd ≡ t
  pub installed :
      (t t' : T) (flags fd f : ℕ)
      → fds.get_unused_fd_flags t flags ≡ ok (fd, t')
      → fds.file_of (fds.fd_install t' fd f) fd ≡ some f
  pub others :
      (t t' : T) (flags fd f n : ℕ)
      → fds.get_unused_fd_flags t flags ≡ ok (fd, t')
      → n ≢ fd
      → fds.file_of (fds.fd_install t' fd f) n ≡ fds.file_of t n

-- Everywhere but at one descriptor two tables have the same files.
abbrev pub SameBut : {T : Type 0} → FdTable T → ℕ → T → T → Type 0
SameBut fds fd t t' = (n : ℕ) → n ≢ fd → fds.file_of t' n ≡ fds.file_of t n

-- A file that was looked up with consistent flags is in a descriptor that was free, and the other
-- descriptors have what they had.
pub record Installs {T : Type 0} (fds : FdTable T) (k : OpenEnv) (t t' : T) (fd : ℕ) : Type 0 where
  pub file : ℕ
  pub dfd : ℤ
  pub name : ℕ
  pub op : OpenFlags
  pub opened : k.do_filp_open dfd name op ≡ ok file
  pub consistent : IsConsistent op
  pub was_free : fds.file_of t fd ≡ none
  pub there : fds.file_of t' fd ≡ some file
  pub same : SameBut fds fd t t'

-- An error and the table as it was, or a descriptor with a new file.
abbrev pub Opens : {T : Type 0} → FdTable T → OpenEnv → T → Opened T → Type 0
Opens fds k t o =
    ((e : ℕ) × (o ≡ (t, err e))) ⊎ ((fd : ℕ) × (o.1 ≡ ok fd) × Installs fds k t o.0 fd)

module _ {T : Type 0} (fds : FdTable T) (laws : FdLaws fds) (k : OpenEnv) (t : T) where
  open_named-Opens :
      (dfd : ℤ) (name : ℕ) (how : OpenHow) (op : OpenFlags)
      → IsConsistent op
      → Opens fds k t (open_named fds k t dfd name how op)
  unfolding open_named open_reserved
  open_named-Opens dfd name how op sound =
      elim (Result-cases (fds.get_unused_fd_flags t how.flags)) [
        | inl (e, h) ↦ inl (e, rw (open_named, h))
        | inr ((fd, t'), h) ↦ elim (Result-cases (k.do_filp_open dfd name op)) [
          | inl (e, z) ↦
              inl (e, rw (open_named, h, open_reserved, z, laws.put_back t t' how.flags fd h))
          | inr (f, z) ↦
              rw (open_named, h, open_reserved, z)
                (inr (
                  fd,
                  refl,
                  record {
                    file = f;
                    dfd = dfd;
                    name = name;
                    op = op;
                    opened = z;
                    consistent = sound;
                    was_free = laws.was_free t t' how.flags fd h;
                    there = laws.installed t t' how.flags fd f h;
                    same = λ n other. laws.others t t' how.flags fd f n h other;
                  },
                ))
        ]
      ]

  -- `do_sys_openat2` returns an error and leaves the table of descriptors as it was, or it returns
  -- a descriptor that was free and now has the file that was looked up, with consistent flags, and
  -- the others have what they had; for a table with the documented laws.
  pub do_sys_openat2-Opens :
      (dfd : ℤ) (filename : ℕ) (how : OpenHow)
      → Opens fds k t (do_sys_openat2 fds k t dfd filename how)
  unfolding do_sys_openat2
  do_sys_openat2-Opens dfd filename how = elim (Result-cases (build_open_flags how)) [
    | inl (e, h) ↦ inl (e, rw (do_sys_openat2, h))
    | inr (op, h) ↦ elim (Result-cases (k.getname filename)) [
      | inl (e, z) ↦ inl (e, rw (do_sys_openat2, h, z))
      | inr (name, z) ↦
          rw (do_sys_openat2, h, z)
            (open_named-Opens dfd name how op (build_open_flags-IsConsistent how op h))
    ]
  ]

-- With an array of 1024 counters below 2 ^ 64, a call of `open`, whether it fails or not, counts up
-- the counter of `open` by one, modulo 2 ^ 64, and no other; it returns an error and leaves the
-- table of descriptors as it was, or it puts a file that was looked up with consistent flags in a
-- descriptor that was free. The table has the documented laws.
pub sys_open-counts :
    {T : Type 0} (fds : FdTable T) (laws : FdLaws fds) (k : OpenEnv) (t : T)
    (us : List SyscallUsage) (now : Timespec) (filename flags mode j : ℕ)
    → length us ≡ max_sys_calls
    → j < max_sys_calls
    → count_of us j < word
    → let (track, o) = sys_open fds k (some us) now t filename flags mode in
      ((vs : List SyscallUsage) × (track ≡ tracked (some vs))
        × (count_of vs j ≡ (count_of us j + (if eq_ℤ (pos 2) (pos j) then 1 else 0)) % word))
      × Opens fds k t o
unfolding sys_open do_sys_open
sys_open-counts fds laws k t us now filename flags mode j len in_array small =
    let counted = count_of-after_call us 2 now j (omega arith) len small in
    (
      (after_call us 2 now, track_syscall-after_call us 2 now len, counted),
      do_sys_openat2-Opens fds laws k t at_fdcwd filename (build_open_how (large fds k flags) mode),
    )
