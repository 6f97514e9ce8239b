-- ===== src/Limits/Accept.antt =====
-- What `is_request_accepted` decides.
use so2_202110206_2svac.Common.{
  ℕ, ◌+◌, ◌*◌, ◌≤◌, ◌<◌, ◌≡◌, ◌↔◌, ◌⊎◌, true, false, none, some, arith,
}
use so2_202110206_2svac.Common.Int.{ℤ}
use so2_202110206_2svac.Common.Word.{add64, page_shl, word, page_size}
use so2_202110206_2svac.Kernel.{Mm, Task, Env}
use so2_202110206_2svac.Limits.{Limits, is_request_accepted}
use so2_202110206_2svac.Limits.Registry.{limit_of}

module _ (env : Env) (s : Limits) (pid : ℤ) (n : ℕ) {task : Task} {mm : Mm}
    (found : env.find_task_by_vpid pid ≡ some task) (has_mm : task.mm ≡ some mm) where
  -- A request of a live process that has memory and no limit is accepted, whatever its size.
  pub accepts_unlimited :
      limit_of s.memory_list pid ≡ none → (is_request_accepted env s pid n).1 ≡ true
  unfolding is_request_accepted
  accepts_unlimited h = ground arith

  pub accepts_by_sum :
      (limit : ℕ)
      → limit_of s.memory_list pid ≡ some limit
      → ((is_request_accepted env s pid n).1 ≡ true) ↔ (add64 (page_shl mm.total_vm) n ≤ limit)
  unfolding is_request_accepted
  accepts_by_sum limit h = ground arith

  -- Where the bytes that a live process with a limit has and those that it asks for make a sum
  -- below 2 ^ 64, the request is accepted exactly when that sum is within the limit.
  pub accepts_within :
      (limit : ℕ)
      → limit_of s.memory_list pid ≡ some limit
      → mm.total_vm * page_size + n < word
      → ((is_request_accepted env s pid n).1 ≡ true) ↔ (mm.total_vm * page_size + n ≤ limit)
  accepts_within limit h small = let by_sum = accepts_by_sum limit h in ground arith

  -- The flaw of the test: where the bytes that a live process with a limit has, and those that it
  -- asks for, are each below 2 ^ 64 and together not, the sum wraps, and the request is accepted if
  -- the sum less 2 ^ 64 is within the limit.
  pub accepts_wrapped :
      (limit : ℕ)
      → limit_of s.memory_list pid ≡ some limit
      → mm.total_vm * page_size < word
      → n < word
      → word ≤ mm.total_vm * page_size + n
      → mm.total_vm * page_size + n ≤ limit + word
      → (is_request_accepted env s pid n).1 ≡ true
  accepts_wrapped limit h small fits over under = (accepts_by_sum limit h).1 (omega arith)

-- A request of a pid that no task has, or whose task has no memory, is refused.
pub refuses_unknown :
    (env : Env) (s : Limits) (pid : ℤ) (n : ℕ)
    → (env.find_task_by_vpid pid ≡ none)
      ⊎ ((task : Task) × (env.find_task_by_vpid pid ≡ some task) × (task.mm ≡ none))
    → is_request_accepted env s pid n ≡ (s, false)
unfolding is_request_accepted
refuses_unknown env s pid n h = ground arith
