-- ===== src/Limits/Registry.antt =====
-- The list of crudmemlimit.c seen as a finite map from processes to limits, and the system calls as
-- operations on that map.
use mathlib.Core.Path.{fun_ext}
use so2_202110206_2svac.Common.{
  ℕ, ◌≡◌, ◌↔◌, refl, ap, ◌∙◌, not, List, [], ◌∷◌, Option, none, some, arith, if◌then◌else◌,
}
use so2_202110206_2svac.Common.Int.{ℤ, pos, is_neg, eq_ℤ, eq_ℤ_iff, eq_ℤ_refl}
use so2_202110206_2svac.Kernel.{Env, error, eperm, esrch, enomem, einval, cap_sys_admin}
use so2_202110206_2svac.Limits.{
  MemoryLimitation, Limits, entry_size, find_entry, update_entry, remove_entry, add_memory_limit,
  update_memory_limit, remove_memory_limit, Call, accept, add, get, update, remove, step, run,
}
use so2_202110206_2svac.Limits.Invariant.{
  Distinct, IfFound, IsValid, step-IsValid, is_request_accepted-state, get_memory_limits-state,
}

-- The limit that the list holds for each process.
abbrev pub Map : Type 0
Map = ℤ → Option ℕ

abbrev pub limit_of : List MemoryLimitation → Map
limit_of es pid = elim (find_entry pid es) [ none ↦ none | some e ↦ some e.memory_limit ]

abbrev pub put : Map → ℤ → Option ℕ → Map
put m pid v q = if eq_ℤ pid q then v else m q

-- What `add` promises: the code, and the map.
abbrev pub add_spec : Env → Map → ℤ → ℕ → Map × ℤ
add_spec env m pid limit =
    if is_neg pid
    then (m, error einval)
    else if not (env.capable cap_sys_admin)
    then (m, error eperm)
    else elim (env.find_task_by_vpid pid) [
      | none ↦ (m, error esrch)
      | some task ↦ elim (m pid) [
        | some old ↦ (m, error 101)
        | none ↦
            if env.kmalloc entry_size then (put m pid (some limit), pos 0) else (m, error enomem)
      ]
    ]

-- What `update` promises, and with no new limit what `remove` promises.
abbrev pub change_spec : Env → Map → ℤ → Option ℕ → Map × ℤ
change_spec env m pid limit =
    if is_neg pid
    then (m, error einval)
    else if not (env.capable cap_sys_admin)
    then (m, error eperm)
    else elim (m pid) [ none ↦ (m, error esrch) | some old ↦ (put m pid limit, pos 0) ]

limit_of-update_entry :
    (p : ℤ) (l : ℕ) (q : ℤ) (es : List MemoryLimitation)
    → IfFound (update_entry p l es) (λ fs. limit_of fs q ≡ put (limit_of es) p (some l) q)
unfolding update_entry find_entry
limit_of-update_entry p l q [] = tt
limit_of-update_entry p l q (e ∷ es) = ground (arith, limit_of-update_entry p l q es)

limit_of-remove_entry :
    (p q : ℤ) (es : List MemoryLimitation)
    → Distinct es
    → IfFound (remove_entry p es) (λ fs. limit_of fs q ≡ put (limit_of es) p none q)
unfolding remove_entry find_entry
limit_of-remove_entry p q [] d = tt
limit_of-remove_entry p q (e ∷ es) d =
    ground (arith, limit_of-remove_entry p q es, eq_ℤ_iff e.pid q, eq_ℤ_iff p q, eq_ℤ_iff e.pid p)

-- A walk that changes the list finds its entry exactly when the map has the process.
update_entry-finds :
    (p : ℤ) (l : ℕ) (es : List MemoryLimitation)
    → (update_entry p l es ≡ none) ↔ (limit_of es p ≡ none)
unfolding update_entry find_entry
update_entry-finds p l [] = ground arith
update_entry-finds p l (e ∷ es) = ground (arith, update_entry-finds p l es)

remove_entry-finds :
    (p : ℤ) (es : List MemoryLimitation) → (remove_entry p es ≡ none) ↔ (limit_of es p ≡ none)
unfolding remove_entry find_entry
remove_entry-finds p [] = ground arith
remove_entry-finds p (e ∷ es) = ground (arith, remove_entry-finds p es)

module _ (env : Env) (s : Limits) (p : ℤ) (l : ℕ) where
  add-limit_of :
      (q : ℤ)
      → limit_of (add_memory_limit env s p l).0.memory_list q
        ≡ (add_spec env (limit_of s.memory_list) p l).0 q
  unfolding add_memory_limit find_entry
  add-limit_of q = ground (arith, eq_ℤ_refl p)

  -- `julioz_add_memory_limit` returns -EINVAL for a negative pid, else -EPERM without
  -- CAP_SYS_ADMIN, else -ESRCH for no such task, else -101 for a process that has a limit, else
  -- -ENOMEM if `kmalloc` fails, else 0; and only in this last case does it change the map from
  -- processes to limits, by giving the process the limit.
  pub add_refines :
      (limit_of (add_memory_limit env s p l).0.memory_list
        ≡ (add_spec env (limit_of s.memory_list) p l).0)
      × ((add_memory_limit env s p l).1 ≡ (add_spec env (limit_of s.memory_list) p l).1)
  unfolding add_memory_limit
  add_refines = (fun_ext add-limit_of, ground arith)

  update-limit_of :
      (q : ℤ)
      → limit_of (update_memory_limit env s p l).0.memory_list q
        ≡ (change_spec env (limit_of s.memory_list) p (some l)).0 q
  unfolding update_memory_limit
  update-limit_of q =
      ground
        (arith, update_entry-finds p l s.memory_list, limit_of-update_entry p l q s.memory_list)

  -- `julioz_update_memory_limit` returns -EINVAL for a negative pid, else -EPERM without
  -- CAP_SYS_ADMIN, else -ESRCH for a process with no limit, else 0; and only in this last case does
  -- it change the map from processes to limits, where it gives this process the new limit.
  pub update_refines :
      (limit_of (update_memory_limit env s p l).0.memory_list
        ≡ (change_spec env (limit_of s.memory_list) p (some l)).0)
      × ((update_memory_limit env s p l).1
          ≡ (change_spec env (limit_of s.memory_list) p (some l)).1)
  unfolding update_memory_limit
  update_refines = (fun_ext update-limit_of, ground (arith, update_entry-finds p l s.memory_list))

module _ (env : Env) (s : Limits) (p : ℤ) (v : IsValid s) where
  remove-limit_of :
      (q : ℤ)
      → limit_of (remove_memory_limit env s p).0.memory_list q
        ≡ (change_spec env (limit_of s.memory_list) p none).0 q
  unfolding remove_memory_limit
  remove-limit_of q = ground (
    arith,
    remove_entry-finds p s.memory_list,
    limit_of-remove_entry p q s.memory_list v.distinct,
  )

  -- On a valid list `julioz_remove_memory_limit` returns -EINVAL for a negative pid, else -EPERM
  -- without CAP_SYS_ADMIN, else -ESRCH for a process with no limit, else 0; and only in this last
  -- case does it change the map from processes to limits, where it takes the limit of this process
  -- away.
  pub remove_refines :
      (limit_of (remove_memory_limit env s p).0.memory_list
        ≡ (change_spec env (limit_of s.memory_list) p none).0)
      × ((remove_memory_limit env s p).1 ≡ (change_spec env (limit_of s.memory_list) p none).1)
  unfolding remove_memory_limit
  remove_refines = (fun_ext remove-limit_of, ground (arith, remove_entry-finds p s.memory_list))

-- One call on the map. The check and the listing leave it alone.
abbrev pub step_spec : Map → Env × Call → Map
step_spec m (env, accept p n) = m
step_spec m (env, add p l) = (add_spec env m p l).0
step_spec m (env, get b n r) = m
step_spec m (env, update p l) = (change_spec env m p (some l)).0
step_spec m (env, remove p) = (change_spec env m p none).0

abbrev pub run_spec : Map → List (Env × Call) → Map
run_spec m [] = m
run_spec m (c ∷ cs) = run_spec (step_spec m c) cs

step_refines :
    (s : Limits) (c : Env × Call)
    → IsValid s
    → limit_of (step s c).0.memory_list ≡ step_spec (limit_of s.memory_list) c
unfolding step
step_refines s (env, accept p n) v =
    ap (λ t. limit_of t.memory_list) (is_request_accepted-state env s p n v.unlocked)
step_refines s (env, add p l) v = (add_refines env s p l).0
step_refines s (env, get b m r) v =
    ap (λ t. limit_of t.memory_list) (get_memory_limits-state env s b m r v.unlocked)
step_refines s (env, update p l) v = (update_refines env s p l).0
step_refines s (env, remove p) v = (remove_refines env s p v).0

-- Whatever calls are made on a valid list, in whatever order they take the mutex, the list then
-- holds the map from processes to limits that the same calls make of the map that it held.
pub run_refines :
    (s : Limits) (cs : List (Env × Call))
    → IsValid s
    → limit_of (run s cs).0.memory_list ≡ run_spec (limit_of s.memory_list) cs
unfolding run
run_refines s [] v = refl
run_refines s (c ∷ cs) v =
    run_refines (step s c).0 cs (step-IsValid s c v) ∙ ap (λ m. run_spec m cs) (step_refines s c v)
