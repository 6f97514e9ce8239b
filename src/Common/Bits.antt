-- ===== src/Common/Bits.antt =====
-- `&` and `|` on native numbers, which the tactics take for an unknown: their laws for the flags
-- that are one bit.
use Prim.Native.Nat.{max, digits, bit_and-bitwise, bit_or-bitwise}
use so2_202110206_2svac.Common.{
  ℕ, zero, suc, ◌+◌, ◌-◌, ◌*◌, ◌/◌, ◌%◌, ◌≤◌, ◌≡◌, ◌≢◌, ap, sym, ◌∙◌, ◌⊎◌, inl, inr, refl, min,
  bit_and, bit_or, arith,
}

digits-le : (n a m : ℕ) → digits (λ b. 0) min n a m ≤ m
digits-le zero a m = omega arith
digits-le (suc n) zero m = omega arith
digits-le (suc n) (suc a) m = omega (arith, digits-le n (suc a / 2) (m / 2))

-- A mask bounds what it lets through.
pub bit_and-le : (a m : ℕ) → bit_and a m ≤ m
bit_and-le a m = omega (arith, bit_and-bitwise a m, digits-le a a m)

abbrev and_digits : ℕ → ℕ → ℕ → ℕ
and_digits n a b = digits (λ b. 0) min n a b

-- Every digit is in one of the two or in both.
digits-sum : (n a b : ℕ) → a ≤ n → digits (λ b. b) max n a b + and_digits n a b ≡ a + b
digits-sum zero zero b h = omega arith
digits-sum zero (suc a) b h = absurd (omega arith)
digits-sum (suc n) zero b h = omega arith
digits-sum (suc n) (suc a) b h = omega (arith, digits-sum n (suc a / 2) (b / 2) (omega arith))

pub bit_or-bit_and : (a b : ℕ) → bit_or a b + bit_and a b ≡ a + b
bit_or-bit_and a b =
    omega (arith, bit_or-bitwise a b, bit_and-bitwise a b, digits-sum a a b (omega arith))

-- The number whose only digit is at a place, and the digit of a number there.
abbrev pub bit : ℕ → ℕ
bit zero = 1
bit (suc k) = bit k * 2

abbrev pub digit : ℕ → ℕ → ℕ
digit zero a = a % 2
digit (suc k) a = digit k (a / 2)

and_digits-zero : (n a : ℕ) → and_digits n a 0 ≡ 0
and_digits-zero zero a = refl
and_digits-zero (suc n) zero = refl
and_digits-zero (suc n) (suc a) = omega (arith, and_digits-zero n (suc a / 2))

digit-zero : (k : ℕ) → digit k 0 ≡ 0
digit-zero zero = refl
digit-zero (suc k) = digit-zero k

and_digits-bit : (k n a : ℕ) → a ≤ n → and_digits n a (bit k) ≡ digit k a * bit k
and_digits-bit k zero zero h = rw (digit-zero k) (omega arith)
and_digits-bit k zero (suc a) h = absurd (omega arith)
and_digits-bit k (suc n) zero h = rw (digit-zero k) (omega arith)
and_digits-bit zero (suc n) (suc a) h = omega (arith, and_digits-zero n (suc a / 2))
and_digits-bit (suc k) (suc n) (suc a) h =
    let half : bit k * 2 / 2 ≡ bit k = omega arith in
    rw half (omega (arith, and_digits-bit k n (suc a / 2) (omega arith)))

-- A mask of one bit.
pub bit_and-bit : (k a : ℕ) → bit_and a (bit k) ≡ digit k a * bit k
bit_and-bit k a = omega (arith, bit_and-bitwise a (bit k), and_digits-bit k a a (omega arith))

digit-cases : (k a : ℕ) → (digit k a ≡ 0) ⊎ (digit k a ≡ 1)
digit-cases zero a = ground arith
digit-cases (suc k) a = digit-cases k (a / 2)

-- What a number has at a place, as a number.
abbrev part : ℕ → ℕ → ℕ
part k a = digit k a * bit k

part-le : (k a : ℕ) → part k a ≤ a
part-le zero a = omega arith
part-le (suc k) a = omega (arith, part-le k (a / 2))

half-part : (k a : ℕ) → (a - part (suc k) a) / 2 ≡ a / 2 - part k (a / 2)
half-part k a = omega (arith, part-le k (a / 2))

-- Taking one digit away leaves the others.
digit-sub_ne : (k j a : ℕ) → k ≢ j → digit k (a - part j a) ≡ digit k a
digit-sub_ne zero zero a h = absurd (h refl)
digit-sub_ne zero (suc j) a h = omega (arith, part-le j (a / 2))
digit-sub_ne (suc k) zero a h = ap (digit k) (omega arith)
digit-sub_ne (suc k) (suc j) a h = rw (half-part j a) (digit-sub_ne k j (a / 2) (λ e. h (ap suc e)))

digit-sub_self : (k a : ℕ) → digit k (a - part k a) ≡ 0
digit-sub_self zero a = omega arith
digit-sub_self (suc k) a = rw (half-part k a) (digit-sub_self k (a / 2))

digit-add : (k a : ℕ) → digit k a ≡ 0 → digit k (a + bit k) ≡ 1
digit-add zero a h = omega arith
digit-add (suc k) a h =
    let half : (a + bit k * 2) / 2 ≡ a / 2 + bit k = omega arith in rw half (digit-add k (a / 2) h)

-- Clearing one flag leaves the others.
pub bit_and-clear_ne :
    (k j a : ℕ) → k ≢ j → bit_and (a - bit_and a (bit j)) (bit k) ≡ bit_and a (bit k)
bit_and-clear_ne k j a h =
    rw (bit_and-bit j a, bit_and-bit k (a - part j a), bit_and-bit k a, digit-sub_ne k j a h) refl

pub bit_and-clear_self : (k a : ℕ) → bit_and (a - bit_and a (bit k)) (bit k) ≡ 0
bit_and-clear_self k a =
    rw (bit_and-bit k a, bit_and-bit k (a - part k a), digit-sub_self k a) (omega arith)

-- A flag that is set and then cleared is as if it were only cleared.
pub clear-bit_or :
    (k a : ℕ) → bit_or a (bit k) - bit_and (bit_or a (bit k)) (bit k) ≡ a - bit_and a (bit k)
clear-bit_or k a = rw (bit_and-bit k (bit_or a (bit k))) (elim (digit-cases k a) [
  | inl e ↦
      let whole : bit_or a (bit k) ≡ a + bit k =
        omega (arith, bit_or-bit_and a (bit k), rw e at (bit_and-bit k a)) in
      rw (whole, digit-add k a e) (omega (arith, rw e at (bit_and-bit k a)))
  | inr e ↦
      let whole : bit_or a (bit k) ≡ a =
        omega (arith, bit_or-bit_and a (bit k), rw e at (bit_and-bit k a)) in
      rw whole (omega (arith, bit_and-bit k a))
])

pub bit_and-bit-le : (k a : ℕ) → bit_and a (bit k) ≤ a
bit_and-bit-le k a = omega (arith, bit_and-bit k a, part-le k a)

-- Setting a flag sets it and leaves the others.
pub bit_and-set_self : (k a : ℕ) → bit_and (bit_or a (bit k)) (bit k) ≡ bit k
bit_and-set_self k a =
    let kept = clear-bit_or k a in
    let sum = bit_or-bit_and a (bit k) in
    let under = bit_and-le a (bit k) in
    let whole = bit_and-bit-le k a in
    let whole' = bit_and-bit-le k (bit_or a (bit k)) in
    elim (digit-cases k a) [
      | inl e ↦ let none_there = bit_and-bit k a in omega (arith, rw e at none_there)
      | inr e ↦ let there = bit_and-bit k a in omega (arith, rw e at there)
    ]

pub bit_and-set_ne : (k j a : ℕ) → k ≢ j → bit_and (bit_or a (bit j)) (bit k) ≡ bit_and a (bit k)
bit_and-set_ne k j a h =
    sym (bit_and-clear_ne k j (bit_or a (bit j)) h)
    ∙ ap (λ n. bit_and n (bit k)) (clear-bit_or j a)
    ∙ bit_and-clear_ne k j a h
