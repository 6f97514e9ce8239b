-- ===== src/Io/Bounds.antt =====
-- What a file's functions are asked for, and what a transfer does to the file.
use so2_202110206_2svac.Common.{
  ℕ, ◌+◌, ◌≤◌, ◌<◌, ◌≡◌, ap, ◌⊎◌, inl, inr, Bool, true, false, Option, none, some, arith,
  Bool-cases, Option-cases,
}
use so2_202110206_2svac.Common.Result.{Result-cases, ok, err}
use so2_202110206_2svac.Io.{File, half, is_negative}
use so2_202110206_2svac.Io.Transfer.{
  FileOps, IoEnv, Transfer, Answer, max_rw_count, capped, rw_verify_area, admit, call_op,
  sync_reader, sync_writer, vfs_read, vfs_write, ksys_read, ksys_write, ksys_pread64, ksys_pwrite64,
  update_position, file_ppos,
}

-- Where a transfer of a count from a position does not pass the largest position.
abbrev pub InRange : Option ℕ → ℕ → Type 0
InRange none count = Unit {0}
InRange (some at) count = at + count < half

-- Two sets of functions that do the same for a count up to MAX_RW_COUNT in range.
pub record SameInRange (o o' : FileOps) : Type 0 where
  pub reads :
      (buf count : ℕ) (at : Option ℕ)
      → count ≤ max_rw_count
      → InRange at count
      → call_op o.read (sync_reader o) buf count at ≡ call_op o'.read (sync_reader o') buf count at
  pub writes :
      (buf count : ℕ) (at : Option ℕ)
      → count ≤ max_rw_count
      → InRange at count
      → call_op o.write (sync_writer o) buf count at
        ≡ call_op o'.write (sync_writer o') buf count at

module _ (k : IoEnv) (f : File) (signed : f.unsigned_offsets ≡ false) where
  admit-InRange :
      (writes mode can : Bool) (buf count : ℕ) (at : Option ℕ)
      → ((e : ℕ) × (admit k writes mode can f buf count at ≡ err e))
        ⊎ ((admit k writes mode can f buf count at ≡ ok tt) × InRange at (capped count))
  unfolding rw_verify_area
  admit-InRange writes mode can buf count none = ground arith
  admit-InRange writes mode can buf count (some at) = ground arith

  vfs_read-SameInRange :
      (o o' : FileOps) (buf count : ℕ) (at : Option ℕ)
      → SameInRange o o'
      → vfs_read k o f buf count at ≡ vfs_read k o' f buf count at
  unfolding vfs_read
  vfs_read-SameInRange o o' buf count at same =
      elim (admit-InRange false f.readable f.can_read buf count at) [
        | inl (e, refused) ↦ ground arith
        | inr (admitted, range) ↦
            let asked = same.reads buf (capped count) at (ground arith) range in ground arith
      ]

  vfs_write-SameInRange :
      (o o' : FileOps) (buf count : ℕ) (at : Option ℕ)
      → SameInRange o o'
      → vfs_write k o f buf count at ≡ vfs_write k o' f buf count at
  unfolding vfs_write
  vfs_write-SameInRange o o' buf count at same =
      elim (admit-InRange true f.writable f.can_write buf count at) [
        | inl (e, refused) ↦ ground arith
        | inr (admitted, range) ↦
            let asked = same.writes buf (capped count) at (ground arith) range in ground arith
      ]

  -- In a file with signed offsets, `read`, `write`, `pread64` and `pwrite64` ask the file's
  -- functions only for a count up to MAX_RW_COUNT from a position that leaves room for it: with
  -- functions that differ only in other cases the result, the file and the accounting are the same.
  pub ksys-SameInRange :
      (o o' : FileOps) (buf count at : ℕ)
      → SameInRange o o'
      → (ksys_read k o (some f) buf count ≡ ksys_read k o' (some f) buf count)
        × (ksys_write k o (some f) buf count ≡ ksys_write k o' (some f) buf count)
        × (ksys_pread64 k o (some f) buf count at ≡ ksys_pread64 k o' (some f) buf count at)
        × (ksys_pwrite64 k o (some f) buf count at ≡ ksys_pwrite64 k o' (some f) buf count at)
  unfolding ksys_read ksys_write ksys_pread64 ksys_pwrite64
  ksys-SameInRange o o' buf count at same =
      let reads = vfs_read-SameInRange o o' buf count in
      let writes = vfs_write-SameInRange o o' buf count in
      let r = reads (file_ppos f) same in
      let w = writes (file_ppos f) same in
      let p = reads (some at) same in
      let q = writes (some at) same in
      (ap (update_position f) r, ap (update_position f) w, ground arith, ground arith)

-- What a transfer on the file's own position does to the file: nothing, or it moves the position
-- of a file that is no stream.
abbrev pub Moves : File → Answer → Type 0
Moves f a =
    (a.file ≡ some f)
    ⊎ ((is_negative a.ret ≡ false)
        × (f.stream ≡ false)
        × (after : ℕ) × (a.file ≡ some (record f { f_pos = after })))

update_position-Moves :
    (f : File) (t : Transfer)
    → (f.stream ≡ true → t.position ≡ none)
    → Moves f (update_position f t)
update_position-Moves f t none_moved = elim (Bool-cases (is_negative t.ret)) [
  | inl e ↦ inl (ground arith)
  | inr e ↦ elim (Option-cases t.position) [
    | inl z ↦ inl (ground arith)
    | inr (after, z) ↦ elim (Bool-cases f.stream) [
      | inl s ↦ let nowhere = none_moved s in inl (ground arith)
      | inr s ↦ inr (e, s, after, ground arith)
    ]
  ]
]

module _ (k : IoEnv) (o : FileOps) (f : File) (buf count : ℕ) where
  reader-stream : (call_op o.read (sync_reader o) buf (capped count) none).1 ≡ none
  reader-stream = elim (Option-cases o.read) [
    | inl e ↦ elim (Option-cases o.read_iter) [ inl g ↦ ground arith | inr (r, g) ↦ ground arith ]
    | inr (r, e) ↦ ground arith
  ]

  writer-stream : (call_op o.write (sync_writer o) buf (capped count) none).1 ≡ none
  writer-stream = elim (Option-cases o.write) [
    | inl e ↦ elim (Option-cases o.write_iter) [ inl g ↦ ground arith | inr (r, g) ↦ ground arith ]
    | inr (r, e) ↦ ground arith
  ]

  vfs_read-stream : (vfs_read k o f buf count none).position ≡ none
  unfolding vfs_read
  vfs_read-stream =
      let moved = reader-stream in
      elim (Result-cases (admit k false f.readable f.can_read f buf count none)) [
        | inl (e, h) ↦ ground arith
        | inr (u, h) ↦ ground arith
      ]

  vfs_write-stream : (vfs_write k o f buf count none).position ≡ none
  unfolding vfs_write
  vfs_write-stream =
      let moved = writer-stream in
      elim (Result-cases (admit k true f.writable f.can_write f buf count none)) [
        | inl (e, h) ↦ ground arith
        | inr (u, h) ↦ ground arith
      ]

  -- A `read` or `write` leaves all of a file but its position as it is, and leaves that too if it
  -- fails or the file is a stream. `pread64` and `pwrite64`, at any position, leave the whole file.
  pub ksys-Moves :
      (at : ℕ)
      → Moves f (ksys_read k o (some f) buf count)
        × Moves f (ksys_write k o (some f) buf count)
        × ((ksys_pread64 k o (some f) buf count at).file ≡ some f)
        × ((ksys_pwrite64 k o (some f) buf count at).file ≡ some f)
  unfolding ksys_read ksys_write ksys_pread64 ksys_pwrite64
  ksys-Moves at =
      let reads = vfs_read-stream in
      let writes = vfs_write-stream in
      (
        update_position-Moves f (vfs_read k o f buf count (file_ppos f)) (λ s. ground arith),
        update_position-Moves f (vfs_write k o f buf count (file_ppos f)) (λ s. ground arith),
        ground arith,
        ground arith,
      )
