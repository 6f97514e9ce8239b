-- ===== src/Sysinfo/Bytes.antt =====
-- The sizes that `do_sysinfo` gives stand for the same number of bytes.
use native.Mathlib.Decide.{dec_lt}
use native.Mathlib.Nat.{pow-suc, one-le-pow}
use so2_202110206_2svac.Common.{
  ℕ, zero, suc, ◌+◌, ◌*◌, ◌/◌, ◌^◌, ◌≤◌, ◌<◌, ◌≡◌, refl, sym, ap, ◌∙◌, ◌⊎◌, inl, inr, some, arith,
}
use so2_202110206_2svac.Common.Word.{word, add64}
use so2_202110206_2svac.Sysinfo.{
  Sizes, shift_left, bits, overflow, count_bits, in_bytes, max_bits, do_sysinfo,
}

double-pow : (x k : ℕ) → x * 2 ^ suc k ≡ (x * 2) * 2 ^ k
double-pow x k = omega (arith, ap (λ (t : ℕ). x * t) (pow-suc 2 k))

mul-le : (x y p : ℕ) → x ≤ y → x * p ≤ y * p
mul-le x y zero h = omega arith
mul-le x y (suc p) h = omega (arith, mul-le x y p h)

-- The loop counts the bits of a power of 2, unless the total overflows with as many.
count_bits-pow :
    (fuel k total n : ℕ)
    → k < fuel
    → total < word
    → ((total * 2 ^ k < word) × (count_bits fuel (2 ^ k) total n ≡ some (bits (n + k))))
      ⊎ ((word ≤ total * 2 ^ k) × (count_bits fuel (2 ^ k) total n ≡ some overflow))
unfolding count_bits
count_bits-pow zero k total n h small = absurd (omega arith)
count_bits-pow (suc fuel) zero total n h small = inl (omega arith, ground arith)
count_bits-pow (suc fuel) (suc k) total n h small =
    let even : 2 ^ suc k / 2 ≡ 2 ^ k = omega (arith, pow-suc 2 k) in
    let more : 1 < 2 ^ suc k = omega (arith, pow-suc 2 k, one-le-pow k 2) in
    let assoc = double-pow total k in
    elim (dec_lt (total * 2) word) [
      | yes fits ↦
          let twice : shift_left total 1 ≡ total * 2 = omega arith in
          let same : count_bits fuel (2 ^ suc k / 2) (shift_left total 1) (n + 1)
              ≡ count_bits fuel (2 ^ k) (total * 2) (n + 1) =
            rw (even, twice) refl in
          elim (count_bits-pow fuel k (total * 2) (n + 1) (omega arith) fits) [
            | inl (small', counted) ↦ inl (omega arith, ground arith)
            | inr (large, counted) ↦ inr (omega arith, ground arith)
          ]
      | no over ↦
          let large = mul-le 1 (2 ^ k) (total * 2) (one-le-pow k 2 (omega arith)) in
          inr (omega arith, ground arith)
    ]

-- Sizes as the kernel fills them in: of 64 bits, and each part is within its total.
pub record AreSizes (i : Sizes) : Type 0 where
  pub ram : i.totalram < word
  pub swap : i.totalswap < word
  pub free : i.freeram ≤ i.totalram
  pub shared : i.sharedram ≤ i.totalram
  pub buffers : i.bufferram ≤ i.totalram
  pub high : i.totalhigh ≤ i.totalram
  pub free_high : i.freehigh ≤ i.totalram
  pub free_swap : i.freeswap ≤ i.totalswap

-- Two sets of sizes that stand for the same numbers of bytes.
pub record SameBytes (i j : Sizes) : Type 0 where
  pub totalram : j.totalram * j.mem_unit ≡ i.totalram * i.mem_unit
  pub freeram : j.freeram * j.mem_unit ≡ i.freeram * i.mem_unit
  pub sharedram : j.sharedram * j.mem_unit ≡ i.sharedram * i.mem_unit
  pub bufferram : j.bufferram * j.mem_unit ≡ i.bufferram * i.mem_unit
  pub totalswap : j.totalswap * j.mem_unit ≡ i.totalswap * i.mem_unit
  pub freeswap : j.freeswap * j.mem_unit ≡ i.freeswap * i.mem_unit
  pub totalhigh : j.totalhigh * j.mem_unit ≡ i.totalhigh * i.mem_unit
  pub freehigh : j.freehigh * j.mem_unit ≡ i.freehigh * i.mem_unit

-- A size within a total that fits in bytes.
shift_left-within :
    (x total k : ℕ) → x ≤ total → total * 2 ^ k < word → shift_left x k * 1 ≡ x * 2 ^ k
shift_left-within x total k h fits = let below = mul-le x total (2 ^ k) h in omega arith

SameBytes-refl : (i : Sizes) → SameBytes i i
SameBytes-refl i = record {
  totalram = refl;
  freeram = refl;
  sharedram = refl;
  bufferram = refl;
  totalswap = refl;
  freeswap = refl;
  totalhigh = refl;
  freehigh = refl;
}

in_bytes-SameBytes :
    (i : Sizes) (k : ℕ)
    → AreSizes i
    → i.mem_unit ≡ 2 ^ k
    → (i.totalram + i.totalswap) * 2 ^ k < word
    → SameBytes i (in_bytes i k)
in_bytes-SameBytes i k s unit fits =
    let within = λ (x : ℕ) (h : x ≤ i.totalram + i.totalswap).
      shift_left-within x (i.totalram + i.totalswap) k h fits ∙ ap (λ (u : ℕ). x * u) (sym unit) in
    record {
      totalram = within i.totalram (omega arith);
      freeram = within i.freeram (omega (arith, s.free));
      sharedram = within i.sharedram (omega (arith, s.shared));
      bufferram = within i.bufferram (omega (arith, s.buffers));
      totalswap = within i.totalswap (omega arith);
      freeswap = within i.freeswap (omega (arith, s.free_swap));
      totalhigh = within i.totalhigh (omega (arith, s.high));
      freehigh = within i.freehigh (omega (arith, s.free_high));
    }

-- For sizes as the kernel fills them in, whose unit is a power of 2 of 32 bits, the loop of
-- `do_sysinfo` ends. The sizes that it leaves stand for the same numbers of bytes, and they are
-- counted in bytes if main memory and swap together have fewer than 2 ^ 64 of these.
pub do_sysinfo-SameBytes :
    (i : Sizes) (k : ℕ)
    → AreSizes i
    → k < 32
    → i.mem_unit ≡ 2 ^ k
    → (j : Sizes) × (do_sysinfo i ≡ some j)
      × SameBytes i j
      × ((j.mem_unit ≡ 1) ⊎ (word ≤ (i.totalram + i.totalswap) * i.mem_unit))
unfolding do_sysinfo
do_sysinfo-SameBytes i k s small unit =
    let total = i.totalram + i.totalswap in
    let scaled : total * i.mem_unit ≡ total * 2 ^ k = ap (λ (u : ℕ). total * u) unit in
    elim (dec_lt total word) [
      | no over ↦
          let large = mul-le 1 (2 ^ k) total (one-le-pow k 2 (omega arith)) in
          (i, ground (arith, s.ram, s.swap), SameBytes-refl i, inr (omega arith))
      | yes fits ↦
          let sum : add64 i.totalram i.totalswap ≡ total = omega arith in
          let loop : count_bits max_bits i.mem_unit (add64 i.totalram i.totalswap) 0
              ≡ count_bits max_bits (2 ^ k) total 0 =
            rw (unit, sum) refl in
          elim (count_bits-pow max_bits k total 0 (omega arith) fits) [
            | inl (small', counted) ↦
                (in_bytes i k, ground arith, in_bytes-SameBytes i k s unit small', inl refl)
            | inr (large, counted) ↦ (i, ground arith, SameBytes-refl i, inr (omega arith))
          ]
    ]
