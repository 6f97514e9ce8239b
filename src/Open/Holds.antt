-- ===== src/Open/Holds.antt =====
-- What a call of open.c takes hold of on its way and lets go of, step by step, and the changes of
-- inodes that it asks for.
use so2_202110206_2svac.Common.Result.{Result, ok, err}
use so2_202110206_2svac.Common.{
  ℕ, ◌≡◌, refl, Bool, true, false, List, [], ◌∷◌, ◌++◌, Option, none, some, ◌==◌, if◌then◌else◌,
  Option-cases, Bool-cases, inl, inr, ◌∙◌, arith,
}

-- A reference to a path or to a file, write access to a mount, an inode or a superblock.
pub data Hold : Type 0 where
  path file mount inode superblock : Hold

-- The fields of `struct iattr` that are set, `ia_valid` among them.
pub record Attributes : Type 0 where
  pub ia_valid : ℕ
  pub ia_size : Option ℕ
  pub ia_mode : Option ℕ
  pub ia_uid : Option ℕ
  pub ia_gid : Option ℕ

abbrev pub no_attributes : Attributes
no_attributes = record {
  ia_valid = 0;
  ia_size = none;
  ia_mode = none;
  ia_uid = none;
  ia_gid = none;
}

-- A step of a call; the last three set the directories of the process and change an inode.
pub data Step : Type 0 where
  take drop : Hold → Step
  set_pwd set_root : Step
  notify_change : Attributes → Step

-- The steps of a call, and its error, 0 for none.
pub record Trace : Type 0 where
  pub steps : List Step
  pub code : ℕ

abbrev pub fails_with : ℕ → Trace
fails_with e = record { steps = []; code = e }

-- A call that goes on, with a hold on something, and one that is tried twice.
abbrev pub holding : Hold → Trace → Trace
holding h t = record t { steps = take h ∷ t.steps ++ drop h ∷ [] }

abbrev pub then_again : Trace → Trace → Trace
then_again t u = record u { steps = t.steps ++ u.steps }

-- A code that ends a call unless it is 0.
abbrev pub unless_error : ℕ → Trace → Trace
unless_error e t = if e == 0 then t else fails_with e

-- `retry_estale`: ESTALE is 116, and LOOKUP_REVAL is set for the second attempt.
abbrev pub retrying : (Bool → Trace) → Trace
retrying attempt =
    if (attempt false).code == 116 then then_again (attempt false) (attempt true) else attempt false

-- A lookup and what is done at the path that it finds; and the same with a second attempt, if the
-- path is there but what is done at it ends with ESTALE.
abbrev pub at_path : {P : Type 0} → Result P → (P → Trace) → Trace
at_path (err e) body = fails_with e
at_path (ok p) body = holding path (body p)

abbrev pub at_path_again : {P : Type 0} → Result P → Result P → (P → Trace) → Trace
at_path_again (err e) second body = fails_with e
at_path_again (ok p) second body =
    if (body p).code == 116
    then then_again (holding path (body p)) (at_path second body)
    else holding path (body p)

abbrev same_hold : Hold → Hold → Bool
same_hold path path = true
same_hold file file = true
same_hold mount mount = true
same_hold inode inode = true
same_hold superblock superblock = true
same_hold _ _ = false

-- Write access by way of a mount or of a superblock.
abbrev pub may_change : List Hold → Bool
may_change [] = false
may_change (mount ∷ more) = true
may_change (superblock ∷ more) = true
may_change (path ∷ more) = may_change more
may_change (file ∷ more) = may_change more
may_change (inode ∷ more) = may_change more

abbrev let_go : Hold → List Hold → Option (List Hold)
let_go h [] = none
let_go h (g ∷ more) = if same_hold h g then some more else none

-- What is held after the steps, the last taken first. There is no answer if something is let go of
-- that is not the last one held, or an inode is changed without write access.
unfoldable pub held : List Hold → List Step → Option (List Hold)
held hs [] = some hs
held hs (take h ∷ more) = held (h ∷ hs) more
held hs (drop h ∷ more) = elim (let_go h hs) [ none ↦ none | some hs' ↦ held hs' more ]
held hs (set_pwd ∷ more) = held hs more
held hs (set_root ∷ more) = held hs more
held hs (notify_change a ∷ more) = elim (may_change hs) [ true ↦ held hs more | false ↦ none ]

-- A call keeps what is held.
pub record Keeps (hs : List Hold) (t : Trace) : Type 0 where
  pub kept : held hs t.steps ≡ some hs

let_go_self : (h : Hold) (hs : List Hold) → let_go h (h ∷ hs) ≡ some hs
let_go_self path hs = refl
let_go_self file hs = refl
let_go_self mount hs = refl
let_go_self inode hs = refl
let_go_self superblock hs = refl

held-append :
    (hs hs' : List Hold) (xs ys : List Step)
    → held hs xs ≡ some hs'
    → held hs (xs ++ ys) ≡ held hs' ys
unfolding held
held-append hs hs' [] ys h = ground arith
held-append hs hs' (take g ∷ xs) ys h = held-append (g ∷ hs) hs' xs ys h
held-append hs hs' (drop g ∷ xs) ys h = elim (Option-cases (let_go g hs)) [
  | inl e ↦ absurd (let gone = rw (held, e) at h in cc)
  | inr (left, e) ↦ rw (held, e) (held-append left hs' xs ys (rw (held, e) at h))
]
held-append hs hs' (set_pwd ∷ xs) ys h = held-append hs hs' xs ys h
held-append hs hs' (set_root ∷ xs) ys h = held-append hs hs' xs ys h
held-append hs hs' (notify_change a ∷ xs) ys h = elim (Bool-cases (may_change hs)) [
  | inl t ↦ rw (held, t) (held-append hs hs' xs ys (rw (held, t) at h))
  | inr f ↦ absurd (let gone = rw (held, f) at h in cc)
]

pub fails_with-Keeps : (hs : List Hold) (e : ℕ) → Keeps hs (fails_with e)
unfolding held
fails_with-Keeps hs e = record { kept = refl }

pub holding-Keeps :
    (hs : List Hold) (h : Hold) (t : Trace) → Keeps (h ∷ hs) t → Keeps hs (holding h t)
unfolding held
holding-Keeps hs h t keeps = record {
  kept =
      held-append (h ∷ hs) (h ∷ hs) t.steps (drop h ∷ []) keeps.kept ∙ rw (held, let_go_self h hs);
}

pub then_again-Keeps :
    (hs : List Hold) (t u : Trace) → Keeps hs t → Keeps hs u → Keeps hs (then_again t u)
then_again-Keeps hs t u keeps keeps' = record {
  kept = held-append hs hs t.steps u.steps keeps.kept ∙ keeps'.kept;
}

pub if-Keeps :
    (hs : List Hold) (b : Bool) (t u : Trace)
    → Keeps hs t
    → Keeps hs u
    → Keeps hs (if b then t else u)
if-Keeps hs true t u keeps keeps' = keeps
if-Keeps hs false t u keeps keeps' = keeps'

pub unless_error-Keeps :
    (hs : List Hold) (e : ℕ) (t : Trace) → Keeps hs t → Keeps hs (unless_error e t)
unless_error-Keeps hs e t keeps =
    if-Keeps hs (e == 0) t (fails_with e) keeps (fails_with-Keeps hs e)

pub retrying-Keeps :
    (hs : List Hold) (attempt : Bool → Trace)
    → ((again : Bool) → Keeps hs (attempt again))
    → Keeps hs (retrying attempt)
retrying-Keeps hs attempt keeps =
    if-Keeps hs ((attempt false).code == 116) _ (attempt false)
      (then_again-Keeps hs (attempt false) (attempt true) (keeps false) (keeps true)) (keeps false)

pub at_path-Keeps :
    {P : Type 0} (hs : List Hold) (found : Result P) (body : P → Trace)
    → ((p : P) → Keeps (path ∷ hs) (body p))
    → Keeps hs (at_path found body)
at_path-Keeps hs (err e) body keeps = fails_with-Keeps hs e
at_path-Keeps hs (ok p) body keeps = holding-Keeps hs path (body p) (keeps p)

pub at_path_again-Keeps :
    {P : Type 0} (hs : List Hold) (found second : Result P) (body : P → Trace)
    → ((p : P) → Keeps (path ∷ hs) (body p))
    → Keeps hs (at_path_again found second body)
at_path_again-Keeps hs (err e) second body keeps = fails_with-Keeps hs e
at_path_again-Keeps hs (ok p) second body keeps =
    let first = holding-Keeps hs path (body p) (keeps p) in
    if-Keeps hs ((body p).code == 116) _ (holding path (body p))
      (then_again-Keeps hs (holding path (body p)) (at_path second body) first
        (at_path-Keeps hs second body keeps))
      first

pub notify_change-Keeps :
    (hs : List Hold) (a : Attributes) (e : ℕ)
    → may_change hs ≡ true
    → Keeps hs (record { steps = notify_change a ∷ []; code = e })
unfolding held
notify_change-Keeps hs a e h = record { kept = rw (held, h) }
