-- ===== src/Fork/Counted.antt =====
-- What the calls that make a task do to the caller, to the new task and to the counters.
use so2_202110206_2svac.Common.{
  ℕ, ◌+◌, ◌%◌, ◌≡◌, ◌⊎◌, inl, inr, refl, Bool, true, false, not, ◌&&◌, ◌∙◌, List, [], ◌∷◌, some,
  ◌==◌, arith, if◌then◌else◌, Bool-cases,
}
use so2_202110206_2svac.Common.Int.{pos, eq_ℤ}
use so2_202110206_2svac.Common.Word.{word}
use so2_202110206_2svac.Common.Result.{ok, err}
use so2_202110206_2svac.Kernel.{einval}
use so2_202110206_2svac.Mmap.{has}
use so2_202110206_2svac.Monitor.Track.{SyscallUsage, Tracked, tracked}
use so2_202110206_2svac.Monitor.Counting.{count_of}
use so2_202110206_2svac.Fork.{CloneArgs, clone_vfork, clone_vm, clone_parent_settid}
use so2_202110206_2svac.Fork.Stages.{only, has_after}
use so2_202110206_2svac.Fork.Copy.{copy_process}
use so2_202110206_2svac.Fork.Unwound.{whole_task, copy_process-Settles}
use so2_202110206_2svac.Fork.Create.{
  CloneEnv, Cloned, Event, put_user, init_vfork, lru_gen_add_mm, wake_up_new_task, ptrace_event_pid,
  await_vfork, trace_of, waiting_if, started, clashes, kernel_clone,
}

-- The new task is woken once; what concerns it asleep comes before, and what needs it to run after.
abbrev pub orderly : Bool → List Event → Bool
orderly awake [] = awake
orderly awake (put_user nr at ∷ more) = not awake && orderly awake more
orderly awake (init_vfork ∷ more) = not awake && orderly awake more
orderly awake (lru_gen_add_mm ∷ more) = not awake && orderly awake more
orderly awake (wake_up_new_task ∷ more) = not awake && orderly true more
orderly awake (ptrace_event_pid e ∷ more) = awake && orderly awake more
orderly awake (await_vfork ∷ more) = awake && orderly awake more

-- The caller waits for the new task.
abbrev pub awaits : List Event → Bool
awaits [] = false
awaits (put_user nr at ∷ more) = awaits more
awaits (init_vfork ∷ more) = awaits more
awaits (lru_gen_add_mm ∷ more) = awaits more
awaits (wake_up_new_task ∷ more) = awaits more
awaits (ptrace_event_pid e ∷ more) = awaits more
awaits (await_vfork ∷ more) = true

-- An error, no event, and nothing kept of the copy; or the number of a task that has all its
-- stages and is woken once, in the order above, with a wait where the memory is borrowed.
pub record Fails (o : Cloned) : Type 0 where
  pub error : ℕ
  pub returned : o.result ≡ err error
  pub quiet : o.events ≡ []
  pub undone : has_after [] o.copied ≡ some []

pub record Starts (k : CloneEnv) (args : CloneArgs) (o : Cloned) : Type 0 where
  pub returned : o.result ≡ ok k.pid_vnr
  pub order : orderly false o.events ≡ true
  pub waits : awaits o.events ≡ has args.flags clone_vfork
  pub complete : has_after [] o.copied ≡ some (whole_task k.copying args.flags)

abbrev pub Clones : CloneEnv → CloneArgs → Cloned → Type 0
Clones k args o = Fails o ⊎ Starts k args o

-- A test reads past an event that does not bear on it, if it is there.
only_same :
    (f : List Event → Bool) (b : Bool) (e : Event) (l : List Event)
    → f (e ∷ l) ≡ f l
    → f (only b e l) ≡ f l
only_same f true e l h = h
only_same f false e l h = refl

waiting_if-order : (b : Bool) (k : CloneEnv) → orderly true (waiting_if b k) ≡ true
waiting_if-order true k =
    only_same (orderly true) (not k.wait_for_vfork_done) (ptrace_event_pid 5) [] refl
waiting_if-order false k = refl

waiting_if-awaits : (b : Bool) (k : CloneEnv) → awaits (waiting_if b k) ≡ b
waiting_if-awaits true k = refl
waiting_if-awaits false k = refl

module _ (k : CloneEnv) (args : CloneArgs) where
  abbrev traced : Bool
  traced = not (trace_of k args == 0)

  abbrev walked : Bool
  walked = k.lru_gen_walks_mmu && not (has args.flags clone_vm)

  abbrev last_events : List Event
  last_events =
      only traced (ptrace_event_pid (trace_of k args)) (waiting_if (has args.flags clone_vfork) k)

  abbrev woken_events : List Event
  woken_events = wake_up_new_task ∷ last_events

  abbrev walked_events : List Event
  walked_events = only walked lru_gen_add_mm woken_events

  abbrev vfork_events : List Event
  vfork_events = only (has args.flags clone_vfork) init_vfork walked_events

  -- A test that reads past all events but the wake-up and the wait.
  started_same :
      (f : List Event → Bool)
      → ((nr at : ℕ) (l : List Event) → f (put_user nr at ∷ l) ≡ f l)
      → ((l : List Event) → f (init_vfork ∷ l) ≡ f l)
      → ((l : List Event) → f (lru_gen_add_mm ∷ l) ≡ f l)
      → f (started k args) ≡ f woken_events
  unfolding started
  started_same f tid vfork mm =
      only_same f (has args.flags clone_parent_settid) (put_user k.pid_vnr args.parent_tid)
        vfork_events (tid k.pid_vnr args.parent_tid vfork_events)
      ∙ only_same f (has args.flags clone_vfork) init_vfork walked_events (vfork walked_events)
      ∙ only_same f walked lru_gen_add_mm woken_events (mm woken_events)

  started-order : orderly false (started k args) ≡ true
  started-order =
      started_same (orderly false) (λ nr at l. refl) (λ l. refl) (λ l. refl)
      ∙ only_same (orderly true) traced (ptrace_event_pid (trace_of k args)) _ refl
      ∙ waiting_if-order (has args.flags clone_vfork) k

  started-awaits : awaits (started k args) ≡ has args.flags clone_vfork
  started-awaits =
      started_same awaits (λ nr at l. refl) (λ l. refl) (λ l. refl)
      ∙ only_same awaits traced (ptrace_event_pid (trace_of k args)) _ refl
      ∙ waiting_if-awaits (has args.flags clone_vfork) k

  -- For all flags and every kernel around it, `kernel_clone` returns an error, of which nothing is
  -- left and no event comes; or it returns the number of a task with all its stages, which it wakes
  -- once, after all that is done to it asleep and before it reports it to the tracer or waits for
  -- it, and it waits just if CLONE_VFORK is given.
  pub kernel_clone-Clones : Clones k args (kernel_clone k args)
  unfolding kernel_clone has_after
  kernel_clone-Clones = elim (Bool-cases (clashes args)) [
    | inl e ↦
        rw (kernel_clone, e)
          (inl (record { error = einval; returned = refl; quiet = refl; undone = refl }))
    | inr e ↦ elim (copy_process-Settles k.copying args).outcome [
      | inl (z, whole) ↦
          rw (kernel_clone, e, z)
            (inr (record {
              returned = refl;
              order = started-order;
              waits = started-awaits;
              complete = whole;
            }))
      | inr (ne, gone) ↦
          let off : ((copy_process k.copying args).code == 0) ≡ false = ground arith in
          rw (kernel_clone, e, off)
            (inl (record {
              error = (copy_process k.copying args).code;
              returned = refl;
              quiet = refl;
              undone = gone;
            }))
    ]
  ]

-- The counters after a call that counts one of them.
abbrev pub Counts : ℕ → List SyscallUsage → ℕ → Tracked → Type 0
Counts id us j track =
    (vs : List SyscallUsage) × (track ≡ tracked (some vs))
    × (count_of vs j ≡ (count_of us j + (if eq_ℤ (pos id) (pos j) then 1 else 0)) % word)
