-- ===== src/Io/Positions.antt =====
-- What seeking does to the position of a file.
use so2_202110206_2svac.Common.{
  ℕ, ◌≤◌, ◌<◌, ◌≡◌, refl, ◌⊎◌, inl, inr, Bool, true, false, some, leb, ◌==◌, if◌then◌else◌, arith,
}
use so2_202110206_2svac.Common.Word.{word, add64, err_word, is_err_value}
use so2_202110206_2svac.Io.{File, half}
use so2_202110206_2svac.Io.Seek.{
  moved_to, vfs_setpos, generic_file_llseek_size, ksys_lseek, seek_cur, seek_hole, seek_end,
  seek_data, enxio,
}

-- The outcome of a seek in a file: an error, and the file as it was, or a position up to `maxsize`
-- that the file now has.
abbrev pub Sought : File → ℕ → File × ℕ → Type 0
Sought f maxsize r =
    ((is_err_value r.1 ≡ true) × (r.0 ≡ f)) ⊎ ((r.1 ≤ maxsize) × (r.0 ≡ moved_to f r.1))

-- What holds of both branches holds of the test.
if-both {ℓ κ} :
    {A : Type ℓ} (P : A → Type κ) (b : Bool) {x y : A} → P x → P y → P (if b then x else y)
if-both P true p q = p
if-both P false p q = q

-- A question for the position leaves it.
generic_file_llseek_size-tell :
    (g : File) (maxsize eof : ℕ) → generic_file_llseek_size g 0 seek_cur maxsize eof ≡ (g, g.f_pos)
unfolding generic_file_llseek_size
generic_file_llseek_size-tell g maxsize eof = refl

moved_to-fields :
    (f : File) (r : ℕ) → ((moved_to f r).f_pos ≡ r) × ((moved_to f r).seekable ≡ f.seekable)
moved_to-fields f r = ground arith

module _ (f : File) (maxsize : ℕ) (signed : f.unsigned_offsets ≡ false) (max : maxsize < half)
    (within : f.f_pos ≤ maxsize) where
  vfs_setpos-Sought : (offset : ℕ) → offset < word → Sought f maxsize (vfs_setpos f offset maxsize)
  unfolding vfs_setpos
  vfs_setpos-Sought offset small = ground arith

  -- In a file with signed offsets, at a position up to a largest size below 2 ^ 63, a seek of any
  -- kind, by any offset and for any end of 64 bits, returns an error and changes nothing, or it
  -- returns a position up to the largest size and the file is at that, its version reset if the
  -- position is a new one.
  pub generic_file_llseek_size-Sought :
      (offset whence eof : ℕ)
      → offset < word
      → eof < word
      → Sought f maxsize (generic_file_llseek_size f offset whence maxsize eof)
  unfolding generic_file_llseek_size
  generic_file_llseek_size-Sought offset whence eof small small_eof =
      let at_end = vfs_setpos-Sought (add64 offset eof) (omega arith) in
      let at_cur = vfs_setpos-Sought (add64 f.f_pos offset) (omega arith) in
      let at_offset = vfs_setpos-Sought offset small in
      let at_eof = vfs_setpos-Sought eof small_eof in
      let no_data : Sought f maxsize (f, err_word enxio) = inl (refl, refl) in
      let here : Sought f maxsize (f, f.f_pos) = inr (within, ground arith) in
      let P : File × ℕ → Type 0 = Sought f maxsize in
      if-both P (whence == seek_end) at_end (
        if-both P (whence == seek_cur) (if-both P (offset == 0) here at_cur) (
          if-both P (whence == seek_data) (if-both P (leb eof offset) no_data at_offset) (
            if-both P (whence == seek_hole) (if-both P (leb eof offset) no_data at_eof) at_offset)))

  -- After an `lseek` that succeeds, by `generic_file_llseek_size` in a file as above, an `lseek` by
  -- 0 from the current position returns the same result and leaves the file as it is.
  pub ksys_lseek-tell :
      (g : File) (offset whence eof r : ℕ)
      → offset < word
      → eof < word
      → ksys_lseek (λ h o w. generic_file_llseek_size h o w maxsize eof) (some f) offset whence
        ≡ (some g, r)
      → is_err_value r ≡ false
      → ksys_lseek (λ h o w. generic_file_llseek_size h o w maxsize eof) (some g) 0 seek_cur
        ≡ (some g, r)
  unfolding ksys_lseek
  ksys_lseek-tell g offset whence eof r small small_eof h fine =
      let at = generic_file_llseek_size-Sought offset whence eof small small_eof in
      let tell = generic_file_llseek_size-tell g maxsize eof in
      let fields = moved_to-fields f r in
      elim at [ inl (bad, same) ↦ ground arith | inr (fits, same) ↦ ground arith ]
