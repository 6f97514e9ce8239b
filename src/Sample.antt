-- ===== src/Sample.antt =====
-- A small process, the kernel around it and a list with its limit, for the tests of several parts.
use so2_202110206_2svac.Common.{ℕ, ◌≡◌, refl, true, false, [], ◌∷◌, none, some, if◌then◌else◌}
use so2_202110206_2svac.Common.Int.{pos, eq_ℤ}
use so2_202110206_2svac.Kernel.{Mm, Task, Env}
use so2_202110206_2svac.Limits.{MemoryLimitation, Limits, free, find_entry, empty}
use so2_202110206_2svac.Mmap.{MmapEnv}
use so2_202110206_2svac.Areas.{Area, AreaEnv}
use so2_202110206_2svac.Areas.View.{IsArea}
use so2_202110206_2svac.Common.{◌-◌, arith}
use so2_202110206_2svac.Common.Word.{page_shr}
use so2_202110206_2svac.Limits.Invariant.{IsValid}
use so2_202110206_2svac.Limits.Registry.{limit_of}

-- A process of 100 pages.
abbrev pub mm : Mm
mm = record {
  total_vm = 100;
  data_vm = 40;
  exec_vm = 10;
  stack_vm = 8;
  locked_vm = 0;
  rss = 60;
  brk = 20480;
  start_brk = 16384;
  start_data = 8192;
  end_data = 12288;
  map_count = 5;
  def_flags = 0;
}

abbrev pub task : Task
task = record { pid = pos 7; mm = some mm; oom_score_adj = some (pos 0) }

-- A kernel that knows process 7 alone, and whose services all succeed.
abbrev pub env : Env
env = record {
  find_task_by_vpid = λ p. if eq_ℤ p (pos 7) then some task else none;
  capable = λ c. true;
  kmalloc = λ n. true;
  kmalloc_array = λ n size. true;
  copy_to_user = λ to n. 0;
  put_user = λ to. 0;
}

abbrev pub entry : ℕ → MemoryLimitation
entry limit = record { pid = pos 7; memory_limit = limit }

abbrev pub listed : ℕ → Limits
listed limit = record { memory_list = entry limit ∷ []; mutex = free; allocated = 1 }

pub empty-IsValid : IsValid empty
empty-IsValid = record { unlocked = refl; balanced = refl; distinct = tt; non_negative = tt }

pub listed-IsValid : (limit : ℕ) → IsValid (listed limit)
unfolding find_entry
listed-IsValid limit = record {
  unlocked = refl;
  balanced = refl;
  distinct = (refl, tt);
  non_negative = (refl, tt);
}

pub listed-limit_of : (limit : ℕ) → limit_of (listed limit).memory_list (pos 7) ≡ some limit
unfolding find_entry
listed-limit_of limit = refl

pub empty-limit_of : limit_of empty.memory_list (pos 7) ≡ none
unfolding find_entry
empty-limit_of = refl

-- A kernel with room, in which unmapping takes the pages of the range away.
abbrev pub kernel : MmapEnv
kernel = record {
  env = env;
  current_pid = pos 7;
  lock_killed = false;
  compat_brk = false;
  brk_randomized = true;
  rlimit_data = 8388608;
  rlimit_max_data = 8388608;
  rlimit_as = 67108864;
  rlimit_memlock = 65536;
  ignore_rlimit_data = false;
  sysctl_max_map_count = 65530;
  stack_guard_gap = 1048576;
  mmap_min_addr = 65536;
  vm_data_default_flags = 0x73;
  check_data_rlimit = λ a b c d e. false;
  is_data_mapping = λ flags. true;
  get_unmapped_area = λ file addr len pgoff flags. 1048576;
  vma_find = λ from to. some (record { vm_start = 16384; vm_end = 20480; start_gap = 9437184 });
  vma_prev_limit = λ a. none;
  do_vma_munmap = λ m a b. (record m { total_vm = m.total_vm - page_shr (b - a) }, false);
  out_of_memory = λ pages. false;
  can_vma_merge_after = λ vma flags. false;
  prealloc_ok = true;
  vm_area_alloc_ok = true;
  store_ok = true;
}

-- Areas whose splitting and removal succeed, and a heap of four pages.
abbrev pub area_env : AreaEnv
area_env = record {
  task_size = 140737488351232;
  sysctl_max_map_count = 65530;
  is_exec_mapping = λ flags. false;
  is_stack_mapping = λ flags. false;
  is_data_mapping = λ flags. true;
  may_split = λ a addr. 0;
  area_dup_ok = λ a. true;
  prealloc_ok = λ a. true;
  dup_policy = λ a. 0;
  anon_vma_clone = λ a. 0;
  detach = λ a. 0;
  userfaultfd_unmap_prep = λ a. 0;
  clear_range = λ start end. 0;
}

abbrev pub heap : Area
heap = record { vm_start = 65536; vm_end = 81920; vm_flags = 0; vm_pgoff = 16; vm_file = none }

pub heap-IsArea : IsArea heap
heap-IsArea = record {
  start_aligned = refl;
  end_aligned = refl;
  nonempty = omega arith;
  bounded = omega arith;
  fits = omega arith;
}
