-- ===== src/Sysinfo.antt =====
-- Proyecto1/kernel-linux/kernel/sys.c: `do_sysinfo`, which gives sizes of memory in bytes where
-- they fit.
pub mod Bytes
mod Tests
use so2_202110206_2svac.Common.{
  ℕ, zero, suc, ◌+◌, ◌*◌, ◌/◌, ◌%◌, ◌^◌, Bool, ◌||◌, Option, none, some, ltb, leb, if◌then◌else◌,
}
use so2_202110206_2svac.Common.Word.{word, add64}

-- The sizes in `struct sysinfo`, and their unit in bytes.
pub record Sizes : Type 0 where
  pub totalram : ℕ
  pub freeram : ℕ
  pub sharedram : ℕ
  pub bufferram : ℕ
  pub totalswap : ℕ
  pub freeswap : ℕ
  pub totalhigh : ℕ
  pub freehigh : ℕ
  pub mem_unit : ℕ

-- `x << n`
abbrev pub shift_left : ℕ → ℕ → ℕ
shift_left x n = (x * 2 ^ n) % word

-- The outcome of the loop: the bits of the unit, or that the total has overflowed.
pub data Counted : Type 0 where
  bits : ℕ → Counted
  overflow : Counted

-- The loop, which is out of fuel if it gives none.
unfoldable pub count_bits : ℕ → ℕ → ℕ → ℕ → Option Counted
count_bits zero mem_unit mem_total bitcount = none
count_bits (suc fuel) mem_unit mem_total bitcount =
    let doubled = shift_left mem_total 1 in
    let rest = count_bits fuel (mem_unit / 2) doubled (bitcount + 1) in
    if leb mem_unit 1
    then some (bits bitcount)
    else if ltb doubled mem_total
    then some overflow
    else rest

abbrev pub in_bytes : Sizes → ℕ → Sizes
in_bytes i n = record {
  totalram = shift_left i.totalram n;
  freeram = shift_left i.freeram n;
  sharedram = shift_left i.sharedram n;
  bufferram = shift_left i.bufferram n;
  totalswap = shift_left i.totalswap n;
  freeswap = shift_left i.freeswap n;
  totalhigh = shift_left i.totalhigh n;
  freehigh = shift_left i.freehigh n;
  mem_unit = 1;
}

-- An `unsigned int` is halved 32 times at most until it is not above 1.
abbrev pub max_bits : ℕ
max_bits = 33

-- What `do_sysinfo` makes of the sizes that `si_meminfo` and `si_swapinfo` have filled in.
unfoldable pub do_sysinfo : Sizes → Option Sizes
do_sysinfo i =
    let mem_total = add64 i.totalram i.totalswap in
    if ltb mem_total i.totalram || ltb mem_total i.totalswap
    then some i
    else elim (count_bits max_bits i.mem_unit mem_total 0) [
      | none ↦ none
      | some c ↦ elim c [ overflow ↦ some i | bits n ↦ some (in_bytes i n) ]
    ]
