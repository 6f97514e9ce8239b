-- ===== src/Monitor/CpuInfo.antt =====
-- modules/mem_and_cpu_info_202110206.c: the file of /proc that shows the memory and how busy the
-- first processor has been since it was last read.
use native.Mathlib.Nat.{div-le_of_le-mul}
use so2_202110206_2svac.Common.{
  ℕ, zero, suc, ◌+◌, ◌-◌, ◌*◌, ◌/◌, ◌%◌, ◌≤◌, ◌<◌, ◌≡◌, refl, ltb, if◌then◌else◌, arith,
}
use so2_202110206_2svac.Common.Word.{word, sub64}

-- `kcpustat_cpu(0).cpustat`, in its own units.
pub record CpuStat : Type 0 where
  pub user : ℕ
  pub nice : ℕ
  pub system : ℕ
  pub idle : ℕ
  pub iowait : ℕ
  pub irq : ℕ
  pub softirq : ℕ
  pub steal : ℕ

-- The two static variables.
pub record Previous : Type 0 where
  pub prev_idle : ℕ
  pub prev_total : ℕ

abbrev pub times : CpuStat → ℕ
times c = c.user + c.nice + c.system + c.idle + c.iowait + c.irq + c.softirq + c.steal

-- The sum of 64-bit words is their sum modulo 2 ^ 64, in whatever order it is formed.
abbrev pub total_of : CpuStat → ℕ
total_of c = times c % word

unfoldable pub calculate_cpu_usage : Previous → CpuStat → Previous × ℕ
calculate_cpu_usage p c =
    let total = total_of c in
    let diff_idle = sub64 c.idle p.prev_idle in
    let diff_total = sub64 total p.prev_total in
    let usage =
      if ltb 0 diff_total then 100 * sub64 diff_total diff_idle % word / diff_total else 0 in
    (record { prev_idle = c.idle; prev_total = total }, usage)

-- The numbers of one reading, as they are printed.
pub record Shown : Type 0 where
  pub total_ram_kb : ℕ
  pub free_ram_kb : ℕ
  pub cpu_usage : ℕ

-- `memandprocessesinfo_show`, for the pages of memory that `si_meminfo` finds.
unfoldable pub show : Previous → CpuStat → ℕ → ℕ → Previous × Shown
show p c totalram freeram =
    let (p', usage) = calculate_cpu_usage p c in
    (
      p',
      record {
        total_ram_kb = totalram * 4 % word;
        free_ram_kb = freeram * 4 % word;
        cpu_usage = usage;
      },
    )

-- `memandprocessesinfo_init`
unfoldable pub init : CpuStat → Previous
init c = record { prev_idle = c.idle; prev_total = total_of c }

-- The division that the code guards: by 0 it would give 0.
if_positive : (n m : ℕ) → (if ltb 0 n then 100 * m / n else 0) ≡ 100 * m / n
if_positive zero m = omega arith
if_positive (suc n) m = ground arith

-- Every counter of a later reading is at least that of an earlier one.
pub record Later (c d : CpuStat) : Type 0 where
  pub user : c.user ≤ d.user
  pub nice : c.nice ≤ d.nice
  pub system : c.system ≤ d.system
  pub idle : c.idle ≤ d.idle
  pub iowait : c.iowait ≤ d.iowait
  pub irq : c.irq ≤ d.irq
  pub softirq : c.softirq ≤ d.softirq
  pub steal : c.steal ≤ d.steal

-- The time that is not idle.
abbrev pub busy : CpuStat → ℕ
busy c = c.user + c.nice + c.system + c.iowait + c.irq + c.softirq + c.steal

hundredth : (a b : ℕ) → a ≤ b → 100 * a / b ≤ 100
hundredth a b h = div-le_of_le-mul b (grind arith)

share :
    (c d : CpuStat)
    → Later c d
    → times d * 100 < word
    → (calculate_cpu_usage (init c) d).1 ≡ 100 * (busy d - busy c) / (times d - times c)
unfolding calculate_cpu_usage init
share c d l small =
    let total : sub64 (total_of d) (total_of c) ≡ times d - times c = omega arith in
    let idle : sub64 (times d - times c) (sub64 d.idle c.idle) ≡ busy d - busy c = omega arith in
    let product : 100 * (busy d - busy c) % word ≡ 100 * (busy d - busy c) = omega arith in
    rw (total, idle, product) (if_positive (times d - times c) (busy d - busy c))

share-show :
    (c d : CpuStat) (t f : ℕ)
    → Later c d
    → times d * 100 < word
    → (show (init c) d t f).1.cpu_usage ≡ 100 * (busy d - busy c) / (times d - times c)
unfolding show
share-show c d t f l small = share c d l small

show-init : (p : Previous) (c : CpuStat) (t f : ℕ) → (show p c t f).0 ≡ init c
unfolding show calculate_cpu_usage init
show-init p c t f = refl

-- After the file has been read at `c`, a reading at `d` whose counters have not gone back shows the
-- busy part of the time between the two in percent, rounded down, or 0 if no time has passed; it is
-- at most 100. A hundred times the sum of the later counters is to be below 2 ^ 64.
pub show-usage :
    (p : Previous) (c d : CpuStat) (t f t' f' : ℕ)
    → Later c d
    → times d * 100 < word
    → ((show (show p c t f).0 d t' f').1.cpu_usage ≡ 100 * (busy d - busy c) / (times d - times c))
      × ((show (show p c t f).0 d t' f').1.cpu_usage ≤ 100)
show-usage p c d t f t' f' l small =
    rw (show-init p c t f)
      (shown, rw shown (hundredth (busy d - busy c) (times d - times c) (omega arith)))
  where
    shown : (show (init c) d t' f').1.cpu_usage ≡ 100 * (busy d - busy c) / (times d - times c)
    shown = share-show c d t' f' l small
