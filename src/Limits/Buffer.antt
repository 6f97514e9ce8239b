-- ===== src/Limits/Buffer.antt =====
-- What `julioz_get_memory_limits` hands to its caller.
use so2_202110206_2svac.Common.{
  ℕ, zero, suc, ◌+◌, ◌*◌, ◌≡◌, true, List, [], ◌∷◌, ◌++◌, arith, length, take, min, length-take,
}
use so2_202110206_2svac.Common.Int.{pos}
use so2_202110206_2svac.Kernel.{Env}
use so2_202110206_2svac.Limits.{
  MemoryLimitation, Limits, free, limitation_size, fill, buffer_and_count, get_memory_limits,
}
use mathlib.Core.List.{append-nil, append_assoc}

-- The loop appends the first entries, as many as there is room for.
fill_lem :
    (es : List MemoryLimitation) (count room max : ℕ) (buffer : List MemoryLimitation)
    → count + room ≡ max
    → fill es count max buffer ≡ (buffer ++ take room es, count + min room (length es))
unfolding fill
fill_lem [] count zero max buffer h = ground (arith, append-nil buffer)
fill_lem [] count (suc room) max buffer h = ground (arith, append-nil buffer)
fill_lem (e ∷ es) count zero max buffer h = ground (arith, append-nil buffer)
fill_lem (e ∷ es) count (suc room) max buffer h = ground (
  arith,
  fill_lem es (count + 1) room max (buffer ++ e ∷ []),
  append_assoc buffer (e ∷ []) (take room es),
)

-- With the mutex free, memory for the kernel's array and two writable addresses,
-- `julioz_get_memory_limits` writes the first `max_entries` entries of the list and how many they
-- are, returns 0, and leaves the list, its mutex and the allocated memory as they were.
pub get_memory_limits-writes :
    (env : Env) (s : Limits) (buffer max_entries returned : ℕ)
    → s.mutex ≡ free
    → env.kmalloc_array max_entries limitation_size ≡ true
    → env.copy_to_user buffer (min max_entries (length s.memory_list) * limitation_size) ≡ 0
    → env.put_user returned ≡ 0
    → get_memory_limits env s buffer max_entries returned ≡ (
      s,
      buffer_and_count (take max_entries s.memory_list) (length (take max_entries s.memory_list)),
      pos 0,
    )
unfolding get_memory_limits
get_memory_limits-writes env s b m r v ha hc hp =
    ground (arith, fill_lem s.memory_list 0 m m [], length-take m s.memory_list)
