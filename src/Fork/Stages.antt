-- ===== src/Fork/Stages.antt =====
-- What a new task gets while it is copied, stage by stage, and what is given back.
use so2_202110206_2svac.Common.{
  ℕ, Bool, true, false, List, [], ◌∷◌, Option, none, some, ◌==◌, if◌then◌else◌,
}

-- The stages of `copy_process` that are undone if a later one fails.
pub data Stage : Type 0 where
  task creds delayacct policy perf audit security semundo files fs sighand signal mm namespaces io
        thread pid pidfd cgroup :
      Stage

pub data Step : Type 0 where
  get undo : Stage → Step

-- The steps, and the error with which they end, 0 for none.
pub record Copied : Type 0 where
  pub steps : List Step
  pub code : ℕ

abbrev pub number : Stage → ℕ
number task = 1
number creds = 2
number delayacct = 3
number policy = 4
number perf = 5
number audit = 6
number security = 7
number semundo = 8
number files = 9
number fs = 10
number sighand = 11
number signal = 12
number mm = 13
number namespaces = 14
number io = 15
number thread = 16
number pid = 17
number pidfd = 18
number cgroup = 19

-- A stage, or a step, that is left out unless a test holds.
abbrev pub only {ℓ} : {A : Type ℓ} → Bool → A → List A → List A
only true a l = a ∷ l
only false a l = l

abbrev pub pop : Stage → List Stage → Option (List Stage)
pop s [] = none
pop s (t ∷ more) = if number s == number t then some more else none

-- What the task has after the steps, the last first; none if something is undone that is not the
-- last that it got.
unfoldable pub has_after : List Stage → List Step → Option (List Stage)
has_after had [] = some had
has_after had (get s ∷ more) = has_after (s ∷ had) more
has_after had (undo s ∷ more) = elim (pop s had) [ none ↦ none | some left ↦ has_after left more ]
