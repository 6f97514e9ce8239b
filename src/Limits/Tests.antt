-- ===== src/Limits/Tests.antt =====
-- Runs of the calls of crudmemlimit.c on small lists.
use so2_202110206_2svac.Common.{
  ◌+◌, ◌-◌, ◌*◌, ◌≤◌, ◌≡◌, ◌↔◌, refl, true, List, [], ◌∷◌, none, some, arith, length, take,
}
use so2_202110206_2svac.Common.Int.{pos}
use so2_202110206_2svac.Common.Word.{word, page_size}
use so2_202110206_2svac.Kernel.{Env, error, esrch}
use so2_202110206_2svac.Limits.{
  is_request_accepted, add_memory_limit, update_memory_limit, remove_memory_limit,
  get_memory_limits, buffer_and_count, Call, accept, add, get, update, remove, step, run, empty,
}
use so2_202110206_2svac.Limits.Invariant.{IsValid, run-IsValid}
use so2_202110206_2svac.Limits.Registry.{
  limit_of, add_spec, change_spec, run_spec, add_refines, update_refines, remove_refines,
  run_refines,
}
use so2_202110206_2svac.Sample.{
  env, listed, empty-IsValid, listed-IsValid, listed-limit_of, empty-limit_of,
}
use so2_202110206_2svac.Limits.Accept.{accepts_unlimited, accepts_within, accepts_wrapped}
use so2_202110206_2svac.Limits.Buffer.{get_memory_limits-writes}

abbrev calls : List (Env × Call)
calls =
    (env, add (pos 7) 500000)
    ∷ (env, add (pos 7) 1)
    ∷ (env, accept (pos 7) 4096)
    ∷ (env, update (pos 7) 410000)
    ∷ (env, accept (pos 7) 4096)
    ∷ (env, get 64 3 32)
    ∷ (env, remove (pos 7))
    ∷ (env, remove (pos 7))
    ∷ []

calls_codes :
    (run empty calls).1
    ≡ pos 0 ∷ error 101 ∷ pos 1 ∷ pos 0 ∷ pos 0 ∷ pos 0 ∷ pos 0 ∷ error esrch ∷ []
unfolding run step
calls_codes = refl

calls_final : (run empty calls).0 ≡ empty
unfolding run step
calls_final = refl

run-IsValid_example : IsValid (run empty calls).0
run-IsValid_example = run-IsValid empty calls empty-IsValid

run_refines_example :
    limit_of (run empty calls).0.memory_list ≡ run_spec (limit_of empty.memory_list) calls
run_refines_example = run_refines empty calls empty-IsValid

add_refines_run :
    (limit_of (add_memory_limit env empty (pos 7) 5).0.memory_list
      ≡ (add_spec env (limit_of empty.memory_list) (pos 7) 5).0)
    × ((add_memory_limit env empty (pos 7) 5).1
        ≡ (add_spec env (limit_of empty.memory_list) (pos 7) 5).1)
add_refines_run = add_refines env empty (pos 7) 5

update_refines_run :
    (limit_of (update_memory_limit env (listed 5) (pos 7) 6).0.memory_list
      ≡ (change_spec env (limit_of (listed 5).memory_list) (pos 7) (some 6)).0)
    × ((update_memory_limit env (listed 5) (pos 7) 6).1
        ≡ (change_spec env (limit_of (listed 5).memory_list) (pos 7) (some 6)).1)
update_refines_run = update_refines env (listed 5) (pos 7) 6

remove_refines_run :
    (limit_of (remove_memory_limit env (listed 5) (pos 7)).0.memory_list
      ≡ (change_spec env (limit_of (listed 5).memory_list) (pos 7) none).0)
    × ((remove_memory_limit env (listed 5) (pos 7)).1
        ≡ (change_spec env (limit_of (listed 5).memory_list) (pos 7) none).1)
remove_refines_run = remove_refines env (listed 5) (pos 7) (listed-IsValid 5)

accepts_unlimited_run : (is_request_accepted env empty (pos 7) 4096).1 ≡ true
accepts_unlimited_run = accepts_unlimited env empty (pos 7) 4096 refl refl empty-limit_of

accepts_within_run :
    ((is_request_accepted env (listed 500000) (pos 7) 4096).1 ≡ true)
    ↔ (100 * page_size + 4096 ≤ 500000)
accepts_within_run =
    accepts_within env (listed 500000) (pos 7) 4096 refl refl 500000 (listed-limit_of 500000)
      (omega arith)

-- Process 7 is over its limit of 0 bytes, and a request of 2 ^ 64 less its own memory is accepted.
accepts_wrapped_example : (is_request_accepted env (listed 0) (pos 7) (word - 409600)).1 ≡ true
accepts_wrapped_example =
    accepts_wrapped env (listed 0) (pos 7) (word - 409600) refl refl 0 (listed-limit_of 0)
      (omega arith) (omega arith) (omega arith) (omega arith)

get_memory_limits-writes_run : get_memory_limits env (listed 5) 64 3 32 ≡ (
  listed 5,
  buffer_and_count (take 3 (listed 5).memory_list) (length (take 3 (listed 5).memory_list)),
  pos 0,
)
get_memory_limits-writes_run = get_memory_limits-writes env (listed 5) 64 3 32 refl refl refl refl
