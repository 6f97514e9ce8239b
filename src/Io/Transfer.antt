-- ===== src/Io/Transfer.antt =====
-- The functions of read_write.c that read and write.
use so2_202110206_2svac.Common.{
  ℕ, Bool, true, false, not, ◌&&◌, List, [], ◌∷◌, Option, none, some, ltb, leb, if◌then◌else◌,
}
use so2_202110206_2svac.Common.Int.{pos}
use so2_202110206_2svac.Common.Result.{Result, ok, err, ◌>>◌, refuse_if, refuse}
use so2_202110206_2svac.Common.Word.{add64, sub64, err_word}
use so2_202110206_2svac.Kernel.{einval, ebadf, efault, eoverflow}
use so2_202110206_2svac.Monitor.Track.{Timespec, Counters, Tracked, track_syscall}
use so2_202110206_2svac.Io.{File, is_negative}
use so2_202110206_2svac.Io.Seek.{espipe}

-- MAX_RW_COUNT, which is INT_MAX without the offset in its page.
abbrev pub max_rw_count : ℕ
max_rw_count = 0x7fff_f000

-- The functions of a file: each is given a buffer, a count and a position, and returns the result
-- and the position after it. A function for an iterator is given the position of its `kiocb`.
pub record FileOps : Type 0 where
  pub read : Option (ℕ → ℕ → Option ℕ → ℕ × ℕ)
  pub read_iter : Option (ℕ → ℕ → ℕ → ℕ × ℕ)
  pub write : Option (ℕ → ℕ → Option ℕ → ℕ × ℕ)
  pub write_iter : Option (ℕ → ℕ → ℕ → ℕ × ℕ)

-- The kernel around one call. `security_file_permission` and `fsnotify_file_area_perm` are asked
-- whether the file is written, and return an error's number, 0 for none.
pub record IoEnv : Type 0 where
  pub access_ok : ℕ → ℕ → Bool
  pub security_file_permission : Bool → ℕ
  pub fsnotify_file_area_perm : Bool → Option ℕ → ℕ → ℕ

-- The calls that notify others of a transfer and account for it.
pub data IoCall : Type 0 where
  fsnotify_access : IoCall
  fsnotify_modify : IoCall
  add_rchar : ℕ → IoCall
  add_wchar : ℕ → IoCall
  inc_syscr : IoCall
  inc_syscw : IoCall

-- The result of a transfer, the position after it, if there is one, and those calls in order.
pub record Transfer : Type 0 where
  pub ret : ℕ
  pub position : Option ℕ
  pub calls : List IoCall

abbrev pub check_position : File → Option ℕ → ℕ → Result (Unit {0})
check_position f none count = ok tt
check_position f (some at) count =
    if is_negative at
    then (do
      refuse_if (not f.unsigned_offsets) einval
      refuse_if (leb (sub64 0 at) count) eoverflow)
    else refuse_if (is_negative (add64 at count) && not f.unsigned_offsets) einval

unfoldable pub rw_verify_area : IoEnv → Bool → File → Option ℕ → ℕ → Result (Unit {0})
rw_verify_area k writes f at count = do
  refuse_if (is_negative count) einval
  check_position f at count
  refuse (k.security_file_permission writes)
  refuse (k.fsnotify_file_area_perm writes at count)

abbrev pub put_position : Option ℕ → ℕ → Option ℕ
put_position none after = none
put_position (some at) after = some after

abbrev pub position_or_zero : Option ℕ → ℕ
position_or_zero none = 0
position_or_zero (some at) = at

-- A result that is above 0, and one that is no error.
abbrev pub is_positive : ℕ → Bool
is_positive ret = not (is_negative ret) && ltb 0 ret

abbrev pub new_sync_read : (ℕ → ℕ → ℕ → ℕ × ℕ) → ℕ → ℕ → Option ℕ → ℕ × Option ℕ
new_sync_read read_iter buf len at =
    let (ret, after) = read_iter buf len (position_or_zero at) in (ret, put_position at after)

abbrev pub new_sync_write : (ℕ → ℕ → ℕ → ℕ × ℕ) → ℕ → ℕ → Option ℕ → ℕ × Option ℕ
new_sync_write write_iter buf len at =
    let (ret, after) = write_iter buf len (position_or_zero at) in
    (ret, (if is_positive ret then put_position at after else at))

-- The function of the file that is called, the plain one first.
abbrev pub call_op :
    Option (ℕ → ℕ → Option ℕ → ℕ × ℕ)
    → Option (ℕ → ℕ → Option ℕ → ℕ × Option ℕ)
    → ℕ
    → ℕ
    → Option ℕ
    → ℕ × Option ℕ
call_op (some op) sync buf count at =
    let (ret, after) = op buf count at in (ret, put_position at after)
call_op none (some sync) buf count at = sync buf count at
call_op none none buf count at = (err_word einval, at)

abbrev pub capped : ℕ → ℕ
capped count = if ltb max_rw_count count then max_rw_count else count

abbrev pub sync_reader : FileOps → Option (ℕ → ℕ → Option ℕ → ℕ × Option ℕ)
sync_reader o = elim o.read_iter [ none ↦ none | some iter ↦ some (new_sync_read iter) ]

abbrev pub sync_writer : FileOps → Option (ℕ → ℕ → Option ℕ → ℕ × Option ℕ)
sync_writer o = elim o.write_iter [ none ↦ none | some iter ↦ some (new_sync_write iter) ]

-- What both directions test first: the modes of the file, the buffer, and the area.
abbrev pub admit : IoEnv → Bool → Bool → Bool → File → ℕ → ℕ → Option ℕ → Result (Unit {0})
admit k writes mode can f buf count at = do
  refuse_if (not mode) ebadf
  refuse_if (not can) einval
  refuse_if (not (k.access_ok buf count)) efault
  rw_verify_area k writes f at count

abbrev pub refusal : Option ℕ → ℕ → Transfer
refusal at e = record { ret = err_word e; position = at; calls = [] }

unfoldable pub vfs_read : IoEnv → FileOps → File → ℕ → ℕ → Option ℕ → Transfer
vfs_read k o f buf count at =
    let (ret, after) = call_op o.read (sync_reader o) buf (capped count) at in
    elim (admit k false f.readable f.can_read f buf count at) [
      | err e ↦ refusal at e
      | ok done ↦ record {
        ret = ret;
        position = after;
        calls =
            if is_positive ret
            then fsnotify_access ∷ add_rchar ret ∷ inc_syscr ∷ []
            else inc_syscr ∷ [];
      }
    ]

unfoldable pub vfs_write : IoEnv → FileOps → File → ℕ → ℕ → Option ℕ → Transfer
vfs_write k o f buf count at =
    let (ret, after) = call_op o.write (sync_writer o) buf (capped count) at in
    elim (admit k true f.writable f.can_write f buf count at) [
      | err e ↦ refusal at e
      | ok done ↦ record {
        ret = ret;
        position = after;
        calls =
            if is_positive ret
            then fsnotify_modify ∷ add_wchar ret ∷ inc_syscw ∷ []
            else inc_syscw ∷ [];
      }
    ]

-- A system call's result, the file after it, and the calls that account for it.
pub record Answer : Type 0 where
  pub ret : ℕ
  pub file : Option File
  pub calls : List IoCall

abbrev pub fails : Option File → ℕ → Answer
fails file e = record { ret = err_word e; file = file; calls = [] }

-- The position that a call works on, if the file is no stream.
abbrev pub file_ppos : File → Option ℕ
file_ppos f = if f.stream then none else some f.f_pos

-- The end of a call that works on the file's own position.
abbrev pub update_position : File → Transfer → Answer
update_position f t = record {
  ret = t.ret;
  file = some (
      if is_negative t.ret
      then f
      else elim t.position [ none ↦ f | some after ↦ record f { f_pos = after } ]);
  calls = t.calls;
}

unfoldable pub ksys_read : IoEnv → FileOps → Option File → ℕ → ℕ → Answer
ksys_read k o none buf count = fails none ebadf
ksys_read k o (some f) buf count = update_position f (vfs_read k o f buf count (file_ppos f))

unfoldable pub ksys_write : IoEnv → FileOps → Option File → ℕ → ℕ → Answer
ksys_write k o none buf count = fails none ebadf
ksys_write k o (some f) buf count = update_position f (vfs_write k o f buf count (file_ppos f))

-- The end of a call that works on a position of its own.
abbrev pub keep_position : File → Transfer → Answer
keep_position f t = record { ret = t.ret; file = some f; calls = t.calls }

unfoldable pub ksys_pread64 : IoEnv → FileOps → Option File → ℕ → ℕ → ℕ → Answer
ksys_pread64 k o file buf count at =
    let present : Answer = elim file [
      | none ↦ fails none ebadf
      | some f ↦
          if f.pread
          then keep_position f (vfs_read k o f buf count (some at))
          else fails (some f) espipe
    ] in
    if is_negative at then fails file einval else present

unfoldable pub ksys_pwrite64 : IoEnv → FileOps → Option File → ℕ → ℕ → ℕ → Answer
ksys_pwrite64 k o file buf count at =
    let present : Answer = elim file [
      | none ↦ fails none ebadf
      | some f ↦
          if f.pwrite
          then keep_position f (vfs_write k o f buf count (some at))
          else fails (some f) espipe
    ] in
    if is_negative at then fails file einval else present

-- The system calls `read` and `write`, numbers 0 and 1 of x86-64, which are tracked first.
unfoldable pub sys_read :
    Counters → Timespec → IoEnv → FileOps → Option File → ℕ → ℕ → Tracked × Answer
sys_read c now k o file buf count = (track_syscall c (pos 0) now, ksys_read k o file buf count)

unfoldable pub sys_write :
    Counters → Timespec → IoEnv → FileOps → Option File → ℕ → ℕ → Tracked × Answer
sys_write c now k o file buf count = (track_syscall c (pos 1) now, ksys_write k o file buf count)
