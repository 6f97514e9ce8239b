-- ===== src/Monitor/Counting.antt =====
-- What `track_syscall` counts, and when it leaves its array.
use native.Mathlib.Decide.{dec_lt, ℕ_discrete}
use so2_202110206_2svac.Common.{
  ℕ, zero, suc, ◌+◌, ◌%◌, ◌<◌, ◌≡◌, ◌↔◌, ◌⊎◌, inl, inr, refl, ap, ◌∙◌, none, some, List, [], ◌∷◌,
  leb, if◌then◌else◌, arith, length, get_elem?, set, length-set, get_elem?-set_self,
  get_elem?-set_ne, Option-cases,
}
use so2_202110206_2svac.Common.Int.{ℤ, pos, negsuc, eq_ℤ}
use so2_202110206_2svac.Common.Word.{word, add64}
use so2_202110206_2svac.Monitor.Track.{
  Timespec, SyscallUsage, max_sys_calls, tracked, out_of_bounds, bump, track_syscall, track_all,
}

abbrev pub count_of : List SyscallUsage → ℕ → ℕ
count_of us j = elim (get_elem? us j) [ none ↦ 0 | some u ↦ u.count ]

-- How many of the calls are of a system call.
abbrev pub occurrences : ℕ → List (ℤ × Timespec) → ℕ
occurrences j [] = 0
occurrences j ((id, now) ∷ calls) = (if eq_ℤ id (pos j) then 1 else 0) + occurrences j calls

abbrev pub HasNegative : List (ℤ × Timespec) → Type 0
HasNegative [] = ⊥
HasNegative ((pos i, now) ∷ calls) = HasNegative calls
HasNegative ((negsuc i, now) ∷ calls) = Unit {0}

in_range :
    (us : List SyscallUsage) (i : ℕ)
    → i < length us
    → (u : SyscallUsage) × (get_elem? us i ≡ some u)
in_range [] i h = absurd (omega arith)
in_range (u ∷ us) zero h = (u, refl)
in_range (u ∷ us) (suc i) h = in_range us i (omega arith)

-- The array after one call of a non-negative id.
pub after_call : List SyscallUsage → ℕ → Timespec → List SyscallUsage
after_call us i now = if leb max_sys_calls i then us else elim (get_elem? us i) [
  | none ↦ us
  | some u ↦ set us i (record { count = add64 u.count 1; time_last_used = now })
]

module _ (us : List SyscallUsage) (i : ℕ) (now : Timespec) where
  pub length-after_call : length (after_call us i now) ≡ length us
  unfolding after_call
  length-after_call = elim (Option-cases (get_elem? us i)) [
    | inl e ↦ ground arith
    | inr (u, e) ↦
        ground (arith, length-set us i (record { count = add64 u.count 1; time_last_used = now }))
  ]

  pub track_syscall-after_call :
      length us ≡ max_sys_calls
      → track_syscall (some us) (pos i) now ≡ tracked (some (after_call us i now))
  unfolding track_syscall bump after_call
  track_syscall-after_call h = elim (dec_lt i (length us)) [
    | yes p ↦ let e = (in_range us i p).1 in ground arith
    | no p ↦ ground arith
  ]

  pub count_of-after_call :
      (j : ℕ)
      → j < length us
      → length us ≡ max_sys_calls
      → count_of us j < word
      → count_of (after_call us i now) j
        ≡ (count_of us j + (if eq_ℤ (pos i) (pos j) then 1 else 0)) % word
  unfolding after_call
  count_of-after_call j hj h small = elim (ℕ_discrete i j) [
    | yes e ↦
        let e' : get_elem? us i ≡ get_elem? us j = ap (get_elem? us) e in
        let (u, found) = in_range us j hj in
        ground (
          arith,
          get_elem?-set_self us i (record { count = add64 u.count 1; time_last_used = now }),
          ap (get_elem? (set us i (record { count = add64 u.count 1; time_last_used = now }))) e,
        )
    | no ne ↦ elim (Option-cases (get_elem? us i)) [
      | inl e ↦ ground arith
      | inr (u, e) ↦
          ground (
            arith,
            get_elem?-set_ne us (record { count = add64 u.count 1; time_last_used = now }) ne,
          )
    ]
  ]

-- The array after all calls, none of a negative id.
after_all : List SyscallUsage → List (ℤ × Timespec) → List SyscallUsage
after_all us [] = us
after_all us ((pos i, now) ∷ calls) = after_all (after_call us i now) calls
after_all us ((negsuc i, now) ∷ calls) = us

track_all-after_all :
    (us : List SyscallUsage) (calls : List (ℤ × Timespec))
    → length us ≡ max_sys_calls
    → ¬ HasNegative calls
    → track_all (some us) calls ≡ tracked (some (after_all us calls))
unfolding track_all after_all
track_all-after_all us [] h safe = refl
track_all-after_all us ((pos i, now) ∷ calls) h safe = ground (
  arith,
  track_syscall-after_call us i now h,
  length-after_call us i now,
  track_all-after_all (after_call us i now) calls,
)
track_all-after_all us ((negsuc i, now) ∷ calls) h safe = absurd (safe tt)

count_of-after_all :
    (us : List SyscallUsage) (calls : List (ℤ × Timespec)) (j : ℕ)
    → length us ≡ max_sys_calls
    → ¬ HasNegative calls
    → j < max_sys_calls
    → count_of us j < word
    → count_of (after_all us calls) j ≡ (count_of us j + occurrences j calls) % word
unfolding after_all
count_of-after_all us [] j h safe hj small = omega arith
count_of-after_all us ((pos i, now) ∷ calls) j h safe hj small =
    let len = length-after_call us i now in
    let here = count_of-after_call us i now j (omega arith) h small in
    let below : count_of (after_call us i now) j < word = omega (arith, here) in
    let rest = count_of-after_all (after_call us i now) calls j (len ∙ h) safe hj below in
    omega (arith, rest, here)
count_of-after_all us ((negsuc i, now) ∷ calls) j h safe hj small = absurd (safe tt)

track_all-negative :
    (us : List SyscallUsage) (calls : List (ℤ × Timespec))
    → length us ≡ max_sys_calls
    → HasNegative calls
    → track_all (some us) calls ≡ out_of_bounds
unfolding track_all track_syscall
track_all-negative us [] h n = absurd n
track_all-negative us ((pos i, now) ∷ calls) h n = ground (
  arith,
  track_syscall-after_call us i now h,
  length-after_call us i now,
  track_all-negative (after_call us i now) calls,
)
track_all-negative us ((negsuc i, now) ∷ calls) h n = refl

HasNegative-dec : (calls : List (ℤ × Timespec)) → HasNegative calls ⊎ (¬ HasNegative calls)
HasNegative-dec [] = inr (λ n. n)
HasNegative-dec ((pos i, now) ∷ calls) = HasNegative-dec calls
HasNegative-dec ((negsuc i, now) ∷ calls) = inl tt

-- From an array of 1024 counters, calls of `track_syscall` write outside it exactly when one of
-- their ids is negative: the guard tests the upper end alone.
pub track_all-out_of_bounds_iff :
    (us : List SyscallUsage) (calls : List (ℤ × Timespec))
    → length us ≡ max_sys_calls
    → (track_all (some us) calls ≡ out_of_bounds) ↔ HasNegative calls
track_all-out_of_bounds_iff us calls h = (
  λ e. elim (HasNegative-dec calls) [
    | inl n ↦ n
    | inr safe ↦ absurd (ground (arith, track_all-after_all us calls h safe))
  ],
  track_all-negative us calls h,
)

-- From an array of 1024 counters, calls of `track_syscall` with no negative id keep to the array,
-- and count for each system call below 1024, on top of an old count below 2 ^ 64 and modulo 2 ^ 64,
-- how many of the calls are of it.
pub track_all-counts :
    (us : List SyscallUsage) (calls : List (ℤ × Timespec)) (j : ℕ)
    → length us ≡ max_sys_calls
    → ¬ HasNegative calls
    → j < max_sys_calls
    → count_of us j < word
    → (vs : List SyscallUsage) × (track_all (some us) calls ≡ tracked (some vs))
      × (count_of vs j ≡ (count_of us j + occurrences j calls) % word)
track_all-counts us calls j h safe hj small = (
  after_all us calls,
  track_all-after_all us calls h safe,
  count_of-after_all us calls j h safe hj small,
)
