-- ===== src/Io/Counted.antt =====
-- The calls of `track_syscall` in `read` and `write`.
use so2_202110206_2svac.Common.{
  ℕ, ◌+◌, ◌%◌, ◌<◌, ◌≡◌, refl, inl, inr, Bool, Bool-cases, map, Option, some, List, [], ◌∷◌, length,
  if◌then◌else◌, arith,
}
use so2_202110206_2svac.Common.Word.{word}
use so2_202110206_2svac.Monitor.Track.{
  Timespec, SyscallUsage, Counters, Tracked, tracked, out_of_bounds, max_sys_calls,
}
use so2_202110206_2svac.Monitor.Counting.{
  count_of, after_call, length-after_call, track_syscall-after_call, count_of-after_call,
}
use so2_202110206_2svac.Io.{File}
use so2_202110206_2svac.Io.Transfer.{
  FileOps, IoEnv, Answer, ksys_read, ksys_write, sys_read, sys_write,
}

-- One call of `read` or `write`, with the file that its descriptor names.
pub record Request : Type 0 where
  pub writes : Bool
  pub now : Timespec
  pub env : IoEnv
  pub ops : FileOps
  pub file : Option File
  pub buf : ℕ
  pub count : ℕ

abbrev pub serve : Counters → Request → Tracked × Answer
serve c r =
    if r.writes
    then sys_write c r.now r.env r.ops r.file r.buf r.count
    else sys_read c r.now r.env r.ops r.file r.buf r.count

-- Requests one after the other: the counters after them, and the answers.
abbrev pub serve_all : Counters → List Request → Tracked × List Answer
serve_all c [] = (tracked c, [])
serve_all c (r ∷ more) =
    let (t, a) = serve c r in
    elim t [
      | out_of_bounds ↦ (out_of_bounds, a ∷ [])
      | tracked c' ↦ let (u, answers) = serve_all c' more in (u, a ∷ answers)
    ]

abbrev pub writes_in : List Request → ℕ
writes_in [] = 0
writes_in (r ∷ more) = (if r.writes then 1 else 0) + writes_in more

abbrev pub reads_in : List Request → ℕ
reads_in [] = 0
reads_in (r ∷ more) = (if r.writes then 0 else 1) + reads_in more

abbrev pub answer_of : Request → Answer
answer_of r =
    if r.writes
    then ksys_write r.env r.ops r.file r.buf r.count
    else ksys_read r.env r.ops r.file r.buf r.count

-- What requests leave behind: counters in an array of as many, and the answers that the calls give
-- without the counting.
abbrev pub Serves : List SyscallUsage → List Request → Type 0
Serves us rs =
    (vs : List SyscallUsage) × (serve_all (some us) rs ≡ (tracked (some vs), map answer_of rs))
    × (count_of vs 0 ≡ (count_of us 0 + reads_in rs) % word)
    × (count_of vs 1 ≡ (count_of us 1 + writes_in rs) % word)

-- From an array of 1024 counters, whose first two are below 2 ^ 64, any sequence of `read` and
-- `write` calls, on any files, that fail or not: the first counter counts the reads and the second
-- one the writes, modulo 2 ^ 64, and each answer is that of the call without the counting.
pub serve_all-counts :
    (us : List SyscallUsage) (rs : List Request)
    → length us ≡ max_sys_calls
    → count_of us 0 < word
    → count_of us 1 < word
    → Serves us rs
unfolding sys_read sys_write
serve_all-counts us [] len small_0 small_1 = (us, refl, omega arith, omega arith)
serve_all-counts us (r ∷ more) len small_0 small_1 = elim (Bool-cases r.writes) [
  | inl e ↦
      let tracks = track_syscall-after_call us 1 r.now len in
      let at_0 = count_of-after_call us 1 r.now 0 (omega arith) len small_0 in
      let at_1 = count_of-after_call us 1 r.now 1 (omega arith) len small_1 in
      let (vs, served, zeros, ones) =
        serve_all-counts (after_call us 1 r.now) more (omega (arith, length-after_call us 1 r.now))
          (omega (arith, at_0)) (omega (arith, at_1)) in
      (vs, ground arith, ground arith, ground arith)
  | inr e ↦
      let tracks = track_syscall-after_call us 0 r.now len in
      let at_0 = count_of-after_call us 0 r.now 0 (omega arith) len small_0 in
      let at_1 = count_of-after_call us 0 r.now 1 (omega arith) len small_1 in
      let (vs, served, zeros, ones) =
        serve_all-counts (after_call us 0 r.now) more (omega (arith, length-after_call us 0 r.now))
          (omega (arith, at_0)) (omega (arith, at_1)) in
      (vs, ground arith, ground arith, ground arith)
]
