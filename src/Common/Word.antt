-- ===== src/Common/Word.antt =====
-- `unsigned long` and `size_t`: native numbers below 2 ^ 64, with the wrap-around written out, and
-- the page arithmetic of x86-64 (PAGE_SHIFT is 12).
use Prim.Native.Nat.{ℕ, ◌+◌, ◌-◌, ◌*◌, ◌/◌, ◌%◌, ◌^◌}
use mathlib.Core.Bool.{Bool}
use so2_202110206_2svac.Common.Bools.{leb}

abbrev pub word : ℕ
word = 2 ^ 64

abbrev pub page_size : ℕ
page_size = 4096

abbrev pub add64 : ℕ → ℕ → ℕ
add64 a b = (a + b) % word

abbrev pub sub64 : ℕ → ℕ → ℕ
sub64 a b = (a + word - b) % word

-- `x << PAGE_SHIFT`: the bits that leave the word are lost.
abbrev pub page_shl : ℕ → ℕ
page_shl x = (x * page_size) % word

-- `x >> PAGE_SHIFT`
abbrev pub page_shr : ℕ → ℕ
page_shr x = x / page_size

-- `PAGE_ALIGN(x)`, which is `(x + PAGE_SIZE - 1) & PAGE_MASK`.
abbrev pub page_align : ℕ → ℕ
page_align x = add64 x 4095 / page_size * page_size

-- A negative error code as an `unsigned long`.
abbrev pub err_word : ℕ → ℕ
err_word e = word - e

-- `IS_ERR_VALUE(x)`: the last 4095 values of the word.
abbrev pub is_err_value : ℕ → Bool
is_err_value x = leb (word - 4095) x
