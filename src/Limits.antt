-- ===== src/Limits.antt =====
-- Proyecto3/project3/kernel/usac/project3/crudmemlimit.c: the list of per-process memory limits,
-- the check that `brk` and `mmap` make, and the four system calls on the list.
pub mod Invariant
pub mod Registry
pub mod Accept
pub mod Buffer
mod Tests
use so2_202110206_2svac.Common.{
  ℕ, ◌+◌, ◌-◌, ◌*◌, Bool, true, false, ◌||◌, not, List, [], ◌∷◌, ◌++◌, Option, none, some, ltb, leb,
  ◌==◌, if◌then◌else◌,
}
use so2_202110206_2svac.Common.Int.{ℤ, pos, negsuc, is_neg, eq_ℤ}
use so2_202110206_2svac.Common.Word.{add64, page_shl}
use so2_202110206_2svac.Kernel.{
  Mm, Task, Env, error, eperm, esrch, enomem, efault, einval, cap_sys_admin,
}

-- `struct memory_limitation`; a `struct memory_limit_entry` is one of these in the list.
pub record MemoryLimitation : Type 0 where
  pub pid : ℤ
  pub memory_limit : ℕ

-- A mutex as its uses in order leave it: `broken` after a second lock or an unlock of a free one.
pub data Mutex : Type 0 where
  free held broken : Mutex

-- The file's state: `memory_list` from its head on, `memory_list_mutex`, and how many blocks of
-- memory the file has allocated and not freed.
pub record Limits : Type 0 where
  pub memory_list : List MemoryLimitation
  pub mutex : Mutex
  pub allocated : ℕ

abbrev lock_mutex : Mutex → Mutex
lock_mutex free = held
lock_mutex held = broken
lock_mutex broken = broken

abbrev unlock_mutex : Mutex → Mutex
unlock_mutex free = broken
unlock_mutex held = free
unlock_mutex broken = broken

abbrev lock : Limits → Limits
lock s = record s { mutex = lock_mutex s.mutex }

abbrev unlock : Limits → Limits
unlock s = record s { mutex = unlock_mutex s.mutex }

-- `sizeof(struct memory_limitation)` and `sizeof(struct memory_limit_entry)`
abbrev pub limitation_size : ℕ
limitation_size = 16

abbrev pub entry_size : ℕ
entry_size = 32

-- The entry at which a walk over the list for `pid` stops.
unfoldable pub find_entry : ℤ → List MemoryLimitation → Option MemoryLimitation
find_entry pid [] = none
find_entry pid (e ∷ es) = if eq_ℤ e.pid pid then some e else find_entry pid es

unfoldable pub is_request_accepted : Env → Limits → ℤ → ℕ → Limits × Bool
unfolding find_entry
is_request_accepted env s pid requested_memory = elim (env.find_task_by_vpid pid) [
  | none ↦ (s, false)
  | some task ↦ elim task.mm [
    | none ↦ (s, false)
    | some mm ↦
        let current_usage = page_shl mm.total_vm in
        elim (find_entry pid s.memory_list) [
          | none ↦ (unlock (lock s), true)
          | some entry ↦
              if ltb entry.memory_limit (add64 current_usage requested_memory)
              then (unlock (lock s), false)
              else (unlock (lock s), true)
        ]
  ]
]

-- The list with a new entry at its head, as `list_add` puts it.
add_entry : Limits → ℤ → ℕ → Limits
add_entry s pid limit = record s {
  memory_list = record { pid = pid; memory_limit = limit } ∷ s.memory_list;
  allocated = s.allocated + 1;
}

-- `memory_limit < 0` compares a `size_t`, so it is never true.
unfoldable pub add_memory_limit : Env → Limits → ℤ → ℕ → Limits × ℤ
unfolding find_entry add_entry
add_memory_limit env s process_pid memory_limit =
    if is_neg process_pid || ltb memory_limit 0
    then (s, error einval)
    else if not (env.capable cap_sys_admin)
    then (s, error eperm)
    else elim (env.find_task_by_vpid process_pid) [
      | none ↦ (s, error esrch)
      | some task ↦ elim (find_entry process_pid s.memory_list) [
        | some existing ↦ (unlock (lock s), error 101)
        | none ↦
            if not (env.kmalloc entry_size)
            then (unlock (lock s), error enomem)
            else (unlock (add_entry (lock s) process_pid memory_limit), pos 0)
      ]
    ]

-- The loop of `get_memory_limits`: the entries copied, in order, and their number.
unfoldable pub fill :
    List MemoryLimitation → ℕ → ℕ → List MemoryLimitation → List MemoryLimitation × ℕ
fill [] count max_entries buffer = (buffer, count)
fill (e ∷ es) count max_entries buffer =
    if leb max_entries count
    then (buffer, count)
    else fill es (count + 1) max_entries (buffer ++ e ∷ [])

-- What has surely reached the caller's memory: nothing (after a failed copy, an unknown part), the
-- array alone, or the array and the count.
pub data Written : Type 0 where
  nothing : Written
  buffer_only : List MemoryLimitation → Written
  buffer_and_count : List MemoryLimitation → ℕ → Written

unfoldable pub get_memory_limits : Env → Limits → ℕ → ℕ → ℕ → Limits × Written × ℤ
unfolding fill
get_memory_limits env s u_processes_buffer max_entries processes_returned =
    if not (env.kmalloc_array max_entries limitation_size)
    then (s, nothing, error enomem)
    else let s' = record s { allocated = s.allocated + 1 } in
      let s'' = unlock (lock s') in
      let (buffer, count) = fill s.memory_list 0 max_entries [] in
      let freed = record s'' { allocated = s''.allocated - 1 } in
      if not (env.copy_to_user u_processes_buffer (count * limitation_size) == 0)
      then (freed, nothing, error efault)
      else if not (env.put_user processes_returned == 0)
      then (freed, buffer_only buffer, error efault)
      else (freed, buffer_and_count buffer count, pos 0)

-- The list with the first entry of `pid` updated, or `none` if there is no such entry.
unfoldable pub update_entry : ℤ → ℕ → List MemoryLimitation → Option (List MemoryLimitation)
update_entry pid limit [] = none
update_entry pid limit (e ∷ es) =
    if eq_ℤ e.pid pid
    then some (record e { memory_limit = limit } ∷ es)
    else elim (update_entry pid limit es) [ none ↦ none | some es' ↦ some (e ∷ es') ]

unfoldable pub update_memory_limit : Env → Limits → ℤ → ℕ → Limits × ℤ
unfolding update_entry
update_memory_limit env s process_pid memory_limit =
    if is_neg process_pid || ltb memory_limit 0
    then (s, error einval)
    else if not (env.capable cap_sys_admin)
    then (s, error eperm)
    else elim (update_entry process_pid memory_limit s.memory_list) [
      | none ↦ (unlock (lock s), error esrch)
      | some es ↦ (unlock (record (lock s) { memory_list = es }), pos 0)
    ]

-- The list without the first entry of `pid`, or `none` if there is no such entry.
unfoldable pub remove_entry : ℤ → List MemoryLimitation → Option (List MemoryLimitation)
remove_entry pid [] = none
remove_entry pid (e ∷ es) =
    if eq_ℤ e.pid pid
    then some es
    else elim (remove_entry pid es) [ none ↦ none | some es' ↦ some (e ∷ es') ]

unfoldable pub remove_memory_limit : Env → Limits → ℤ → Limits × ℤ
unfolding remove_entry
remove_memory_limit env s process_pid =
    if is_neg process_pid
    then (s, error einval)
    else if not (env.capable cap_sys_admin)
    then (s, error eperm)
    else elim (remove_entry process_pid s.memory_list) [
      | none ↦ (unlock (lock s), error esrch)
      | some es ↦
          (unlock (record (lock s) { memory_list = es; allocated = s.allocated - 1 }), pos 0)
    ]

-- A call on the list by some process, with the kernel as it finds it.
pub data Call : Type 0 where
  accept : ℤ → ℕ → Call
  add : ℤ → ℕ → Call
  get : ℕ → ℕ → ℕ → Call
  update : ℤ → ℕ → Call
  remove : ℤ → Call

-- `pos 1` and `pos 0` stand for the check's `true` and `false`.
unfoldable pub step : Limits → Env × Call → Limits × ℤ
unfolding is_request_accepted add_memory_limit get_memory_limits update_memory_limit
    remove_memory_limit
step s (env, accept pid requested) =
    let (s', accepted) = is_request_accepted env s pid requested in
    (s', if accepted then pos 1 else pos 0)
step s (env, add pid limit) = add_memory_limit env s pid limit
step s (env, get buffer max_entries returned) =
    let (s', written, code) = get_memory_limits env s buffer max_entries returned in (s', code)
step s (env, update pid limit) = update_memory_limit env s pid limit
step s (env, remove pid) = remove_memory_limit env s pid

-- Calls of any processes, in the order in which they take the mutex.
unfoldable pub run : Limits → List (Env × Call) → Limits × List ℤ
run s [] = (s, [])
run s (c ∷ cs) = let (s', code) = step s c in let (s'', codes) = run s' cs in (s'', code ∷ codes)

-- The list as `LIST_HEAD` and `DEFINE_MUTEX` leave it.
abbrev pub empty : Limits
empty = record { memory_list = []; mutex = free; allocated = 0 }
