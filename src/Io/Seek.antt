-- ===== src/Io/Seek.antt =====
-- The functions of read_write.c that seek. Each gives the file after it, and its result.
use so2_202110206_2svac.Common.{
  ℕ, ◌-◌, not, ◌&&◌, ◌||◌, Option, none, some, leb, ◌==◌, if◌then◌else◌,
}
use so2_202110206_2svac.Common.Word.{add64, err_word}
use so2_202110206_2svac.Kernel.{einval, ebadf}
use so2_202110206_2svac.Io.{File, half, is_negative, signed_ltb}

abbrev pub enxio : ℕ
enxio = 6

abbrev pub espipe : ℕ
espipe = 29

abbrev pub seek_set : ℕ
seek_set = 0

abbrev pub seek_cur : ℕ
seek_cur = 1

abbrev pub seek_end : ℕ
seek_end = 2

abbrev pub seek_data : ℕ
seek_data = 3

abbrev pub seek_hole : ℕ
seek_hole = 4

-- A new position, which resets the version of the file.
abbrev pub moved_to : File → ℕ → File
moved_to f offset = if offset == f.f_pos then f else record f { f_pos = offset; f_version = 0 }

unfoldable pub vfs_setpos : File → ℕ → ℕ → File × ℕ
vfs_setpos f offset maxsize =
    if is_negative offset && not f.unsigned_offsets
    then (f, err_word einval)
    else if signed_ltb maxsize offset
    then (f, err_word einval)
    else (moved_to f offset, offset)

unfoldable pub generic_file_llseek_size : File → ℕ → ℕ → ℕ → ℕ → File × ℕ
generic_file_llseek_size f offset whence maxsize eof =
    if whence == seek_end
    then vfs_setpos f (add64 offset eof) maxsize
    else if whence == seek_cur
    then (if offset == 0 then (f, f.f_pos) else vfs_setpos f (add64 f.f_pos offset) maxsize)
    else if whence == seek_data
    then (if leb eof offset then (f, err_word enxio) else vfs_setpos f offset maxsize)
    else if whence == seek_hole
    then (if leb eof offset then (f, err_word enxio) else vfs_setpos f eof maxsize)
    else vfs_setpos f offset maxsize

-- `s_maxbytes` and the size of the inode.
abbrev pub generic_file_llseek : ℕ → ℕ → File → ℕ → ℕ → File × ℕ
generic_file_llseek s_maxbytes i_size f offset whence =
    generic_file_llseek_size f offset whence s_maxbytes i_size

unfoldable pub fixed_size_llseek : File → ℕ → ℕ → ℕ → File × ℕ
fixed_size_llseek f offset whence size =
    if leb whence seek_end
    then generic_file_llseek_size f offset whence size size
    else (f, err_word einval)

unfoldable pub no_seek_end_llseek_size : File → ℕ → ℕ → ℕ → File × ℕ
no_seek_end_llseek_size f offset whence size =
    if leb whence seek_cur
    then generic_file_llseek_size f offset whence size 0
    else (f, err_word einval)

-- OFFSET_MAX is the largest `loff_t`.
abbrev pub no_seek_end_llseek : File → ℕ → ℕ → File × ℕ
no_seek_end_llseek f offset whence = no_seek_end_llseek_size f offset whence (half - 1)

abbrev pub noop_llseek : File → ℕ → ℕ → File × ℕ
noop_llseek f offset whence = (f, f.f_pos)

-- The end of `default_llseek`, which knows no largest size.
abbrev pub default_setpos : File → ℕ → File × ℕ
default_setpos f offset =
    if not (is_negative offset) || f.unsigned_offsets
    then (moved_to f offset, offset)
    else (f, err_word einval)

unfoldable pub default_llseek : ℕ → File → ℕ → ℕ → File × ℕ
default_llseek i_size f offset whence =
    if whence == seek_end
    then default_setpos f (add64 offset i_size)
    else if whence == seek_cur
    then (if offset == 0 then (f, f.f_pos) else default_setpos f (add64 offset f.f_pos))
    else if whence == seek_data
    then (if signed_ltb offset i_size then default_setpos f offset else (f, err_word enxio))
    else if whence == seek_hole
    then (if signed_ltb offset i_size then default_setpos f i_size else (f, err_word enxio))
    else default_setpos f offset

-- The file's own function, if the file can be sought in.
abbrev pub vfs_llseek : (File → ℕ → ℕ → File × ℕ) → File → ℕ → ℕ → File × ℕ
vfs_llseek llseek f offset whence =
    if f.seekable then llseek f offset whence else (f, err_word espipe)

-- `lseek`; the file is none if the descriptor is not open. SEEK_MAX is SEEK_HOLE.
unfoldable pub ksys_lseek : (File → ℕ → ℕ → File × ℕ) → Option File → ℕ → ℕ → Option File × ℕ
ksys_lseek llseek none offset whence = (none, err_word ebadf)
ksys_lseek llseek (some f) offset whence =
    let (f', res) = vfs_llseek llseek f offset whence in
    if leb whence seek_hole then (some f', res) else (some f, err_word einval)
