-- ===== src/Limits/Invariant.antt =====
-- What every call of crudmemlimit.c keeps true of the list, its mutex and its memory.
use so2_202110206_2svac.Common.{
  ℕ, suc, ◌≡◌, ◌↔◌, false, List, [], ◌∷◌, Option, none, some, arith, length,
}
use so2_202110206_2svac.Common.Int.{ℤ, is_neg}
use so2_202110206_2svac.Kernel.{Env}
use so2_202110206_2svac.Limits.{
  MemoryLimitation, Limits, free, find_entry, update_entry, remove_entry, is_request_accepted,
  add_memory_limit, get_memory_limits, update_memory_limit, remove_memory_limit, Call, accept, add,
  get, update, remove, step, run,
}

-- No process stands twice in the list.
abbrev pub Distinct : List MemoryLimitation → Type 0
Distinct [] = Unit {0}
Distinct (e ∷ es) = (find_entry e.pid es ≡ none) × Distinct es

-- No entry is of a negative pid.
abbrev pub NonNegative : List MemoryLimitation → Type 0
NonNegative [] = Unit {0}
NonNegative (e ∷ es) = (is_neg e.pid ≡ false) × NonNegative es

pub record IsValid (s : Limits) : Type 0 where
  pub unlocked : s.mutex ≡ free
  pub balanced : s.allocated ≡ length s.memory_list
  pub distinct : Distinct s.memory_list
  pub non_negative : NonNegative s.memory_list

-- What holds of the list that a walk returns, if it finds its entry.
abbrev pub IfFound : Option (List MemoryLimitation) → (List MemoryLimitation → Type 0) → Type 0
IfFound none P = Unit {0}
IfFound (some es) P = P es

pub length-update_entry :
    (p : ℤ) (l : ℕ) (es : List MemoryLimitation)
    → IfFound (update_entry p l es) (λ fs. length fs ≡ length es)
unfolding update_entry
length-update_entry p l [] = tt
length-update_entry p l (e ∷ es) = ground (arith, length-update_entry p l es)

pub length-remove_entry :
    (p : ℤ) (es : List MemoryLimitation)
    → IfFound (remove_entry p es) (λ fs. suc (length fs) ≡ length es)
unfolding remove_entry
length-remove_entry p [] = tt
length-remove_entry p (e ∷ es) = ground (arith, length-remove_entry p es)

-- A lookup after an update, and after a removal.
pub find_entry-update_entry :
    (p : ℤ) (l : ℕ) (q : ℤ) (es : List MemoryLimitation)
    → IfFound (update_entry p l es) (λ fs. (find_entry q fs ≡ none) ↔ (find_entry q es ≡ none))
unfolding update_entry find_entry
find_entry-update_entry p l q [] = tt
find_entry-update_entry p l q (e ∷ es) = ground (arith, find_entry-update_entry p l q es)

pub find_entry-remove_entry :
    (p q : ℤ) (es : List MemoryLimitation)
    → IfFound (remove_entry p es) (λ fs. find_entry q es ≡ none → find_entry q fs ≡ none)
unfolding remove_entry find_entry
find_entry-remove_entry p q [] = tt
find_entry-remove_entry p q (e ∷ es) = ground (arith, find_entry-remove_entry p q es)

update_entry-Distinct :
    (p : ℤ) (l : ℕ) (es : List MemoryLimitation)
    → Distinct es
    → IfFound (update_entry p l es) Distinct
unfolding update_entry
update_entry-Distinct p l [] d = tt
update_entry-Distinct p l (e ∷ es) d =
    ground (arith, update_entry-Distinct p l es, find_entry-update_entry p l e.pid es)

remove_entry-Distinct :
    (p : ℤ) (es : List MemoryLimitation) → Distinct es → IfFound (remove_entry p es) Distinct
unfolding remove_entry
remove_entry-Distinct p [] d = tt
remove_entry-Distinct p (e ∷ es) d =
    ground (arith, remove_entry-Distinct p es, find_entry-remove_entry p e.pid es)

update_entry-NonNegative :
    (p : ℤ) (l : ℕ) (es : List MemoryLimitation)
    → NonNegative es
    → IfFound (update_entry p l es) NonNegative
unfolding update_entry
update_entry-NonNegative p l [] d = tt
update_entry-NonNegative p l (e ∷ es) d = ground (arith, update_entry-NonNegative p l es)

remove_entry-NonNegative :
    (p : ℤ) (es : List MemoryLimitation) → NonNegative es → IfFound (remove_entry p es) NonNegative
unfolding remove_entry
remove_entry-NonNegative p [] d = tt
remove_entry-NonNegative p (e ∷ es) d = ground (arith, remove_entry-NonNegative p es)

-- The check changes nothing: it frees the mutex that it takes.
pub is_request_accepted-state :
    (env : Env) (s : Limits) (p : ℤ) (n : ℕ)
    → s.mutex ≡ free
    → (is_request_accepted env s p n).0 ≡ s
unfolding is_request_accepted
is_request_accepted-state env s p n v = ground arith

-- Reading the list changes nothing: the buffer is freed and the mutex released on every path.
pub get_memory_limits-state :
    (env : Env) (s : Limits) (b m r : ℕ) → s.mutex ≡ free → (get_memory_limits env s b m r).0 ≡ s
unfolding get_memory_limits
get_memory_limits-state env s b m r v = ground arith

add_memory_limit-IsValid :
    (env : Env) (s : Limits) (p : ℤ) (l : ℕ) → IsValid s → IsValid (add_memory_limit env s p l).0
unfolding add_memory_limit
add_memory_limit-IsValid env s p l v = ground arith

update_memory_limit-IsValid :
    (env : Env) (s : Limits) (p : ℤ) (l : ℕ) → IsValid s → IsValid (update_memory_limit env s p l).0
unfolding update_memory_limit
update_memory_limit-IsValid env s p l v = ground (
  arith,
  length-update_entry p l s.memory_list,
  update_entry-Distinct p l s.memory_list,
  update_entry-NonNegative p l s.memory_list,
)

remove_memory_limit-IsValid :
    (env : Env) (s : Limits) (p : ℤ) → IsValid s → IsValid (remove_memory_limit env s p).0
unfolding remove_memory_limit
remove_memory_limit-IsValid env s p v = ground (
  arith,
  length-remove_entry p s.memory_list,
  remove_entry-Distinct p s.memory_list,
  remove_entry-NonNegative p s.memory_list,
)

pub step-IsValid : (s : Limits) (c : Env × Call) → IsValid s → IsValid (step s c).0
unfolding step
step-IsValid s (env, accept p n) v = rw (is_request_accepted-state env s p n v.unlocked) v
step-IsValid s (env, add p l) v = add_memory_limit-IsValid env s p l v
step-IsValid s (env, get b m r) v = rw (get_memory_limits-state env s b m r v.unlocked) v
step-IsValid s (env, update p l) v = update_memory_limit-IsValid env s p l v
step-IsValid s (env, remove p) v = remove_memory_limit-IsValid env s p v

-- From a valid list, any calls of any processes, whatever the kernel answers them, leave a valid
-- list: the mutex free, as many blocks allocated as entries, no process listed twice, and no
-- negative pid listed.
pub run-IsValid : (s : Limits) (cs : List (Env × Call)) → IsValid s → IsValid (run s cs).0
unfolding run
run-IsValid s [] v = v
run-IsValid s (c ∷ cs) v = run-IsValid (step s c).0 cs (step-IsValid s c v)
