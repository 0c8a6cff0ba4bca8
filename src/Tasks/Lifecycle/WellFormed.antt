-- ===== src/Tasks/Lifecycle/WellFormed.antt =====
-- The invariant of a task snapshot: tasks are numbered 1, 2, …, name only earlier tasks, and hold
-- the policy and the run that their status promises. With the lemmas on lists of tasks.
use alfredo.Base.{
  ℕ, suc, ◌+◌, ◌<◌, ◌≤◌, Bool, true, false, not, ◌&&◌, ◌||◌, ◌≡◌, refl, sym, ap, ◌∙◌, subst, inl,
  inr, Bool-cases, List, [], ◌∷◌, ◌++◌, Option, none, some, arith, any, some-eq, leb, ◌==◌, length,
  All,
}
use alfredo.Policy.{WorkPolicy}
use alfredo.Assessment.{is_some}
use alfredo.Tasks.{
  TaskStatus, proposed, approved, cancelled, running, TaskRun, Task, Snapshot, max_tasks,
  has_evidence,
}
use alfredo.Tasks.Queries.{find_task}
use alfredo.Tasks.Edits.{set_task}

-- A run that was claimed and has not reported.
abbrev pub is_unfinished : Option TaskRun → Bool
is_unfinished none = false
is_unfinished (some r) = not (is_some r.evidence_sha256)

-- What a status promises: a running task has a policy and an unfinished run; one that reported has
-- a policy and evidence; one that has not started has no unfinished run.
abbrev pub governed : TaskStatus → Option WorkPolicy → Option TaskRun → Bool
governed proposed p r = not (is_unfinished r)
governed approved p r = not (is_unfinished r)
governed cancelled p r = not (is_unfinished r)
governed running p r = is_some p && is_unfinished r
governed _ p r = is_some p && has_evidence r

abbrev pub is_governed : Task → Bool
is_governed t = governed t.status t.policy t.run

abbrev pub ParentBelow : Option ℕ → ℕ → Type 0
ParentBelow none n = Unit
ParentBelow (some p) n = (0 < p) × (p < n)

abbrev pub AllBelow : ℕ → List ℕ → Type 0
AllBelow n = All (λ d. (0 < d) × (d < n))

abbrev pub IsLinked : Task → Type 0
IsLinked t = AllBelow t.id t.dependencies × ParentBelow t.repair_of t.id

-- The tasks of a list are numbered from `n`.
abbrev pub Numbered : ℕ → List Task → Type 0
Numbered n [] = Unit
Numbered n (t ∷ ts) = (t.id ≡ n) × IsLinked t × Numbered (suc n) ts

pub record IsWellFormed (s : Snapshot) : Type 0 where
  pub numbered : Numbered 1 s.tasks
  pub lawful : All (λ t. is_governed t ≡ true) s.tasks
  pub bounded : length s.tasks ≤ max_tasks

pub find_task-All {ℓ} :
    (P : Task → Type ℓ) (id : ℕ) (ts : List Task) (t : Task)
    → All P ts
    → find_task id ts ≡ some t
    → P t
find_task-All P id [] t h e = cc
find_task-All P id (u ∷ ts) t (h, hs) e = elim (Bool-cases (u.id == id)) [
  | inl same ↦ subst P (some-eq (rw same at e)) h
  | inr other ↦ find_task-All P id ts t hs (rw other at e)
]

pub set_task-All {ℓ} :
    (P : Task → Type ℓ) (id : ℕ) (t' : Task) (ts : List Task)
    → All P ts
    → P t'
    → All P (set_task id t' ts)
set_task-All P id t' [] h p = tt
set_task-All P id t' (u ∷ ts) (h, hs) p = elim (Bool-cases (u.id == id)) [
  | inl same ↦ rw same (p, hs)
  | inr other ↦ rw other (h, set_task-All P id t' ts hs p)
]

pub Numbered-find :
    (n id : ℕ) (ts : List Task) (t : Task)
    → Numbered n ts
    → find_task id ts ≡ some t
    → IsLinked t × (n ≤ t.id) × (t.id < n + length ts)
Numbered-find n id [] t h e = cc
Numbered-find n id (u ∷ ts) t (here, linked, rest) e = elim (Bool-cases (u.id == id)) [
  | inl same ↦
      let found : u ≡ t = some-eq (rw same at e) in
      subst (λ v. IsLinked v × (n ≤ v.id) × (v.id < n + suc (length ts))) found
        (linked, omega arith, omega arith)
  | inr other ↦
      let (link, low, high) = Numbered-find (suc n) id ts t rest (rw other at e) in
      (link, omega arith, omega arith)
]

pub Numbered-append :
    (n : ℕ) (ts : List Task) (t : Task)
    → Numbered n ts
    → t.id ≡ n + length ts
    → IsLinked t
    → Numbered n (ts ++ t ∷ [])
Numbered-append n [] t h e l = (omega arith, l, tt)
Numbered-append n (u ∷ ts) t (here, linked, rest) e l =
    (here, linked, Numbered-append (suc n) ts t rest (omega arith) l)

pub AllBelow-mono : {m n : ℕ} (ds : List ℕ) → m ≤ n → AllBelow m ds → AllBelow n ds
AllBelow-mono [] h a = tt
AllBelow-mono (d ∷ ds) h ((p, q), a) = ((p, omega arith), AllBelow-mono ds h a)

pub dependencies_below :
    (n : ℕ) (ds : List ℕ) → any (λ d. d == 0 || leb n d) ds ≡ false → AllBelow n ds
dependencies_below n [] h = tt
dependencies_below n (d ∷ ds) h =
    ((ground arith, ground arith), dependencies_below n ds (ground arith))

-- A task may be replaced by one with the same number and links.
pub Numbered-set :
    (n id : ℕ) (ts : List Task) (t t' : Task)
    → Numbered n ts
    → find_task id ts ≡ some t
    → t'.id ≡ t.id
    → IsLinked t'
    → Numbered n (set_task id t' ts)
Numbered-set n id [] t t' h e same l = tt
Numbered-set n id (u ∷ ts) t t' (here, linked, rest) e same l = elim (Bool-cases (u.id == id)) [
  | inl eq ↦
      let found : u ≡ t = some-eq (rw eq at e) in
      rw eq (same ∙ ap (λ v. v.id) (sym found) ∙ here, l, rest)
  | inr other ↦ rw other (here, linked, Numbered-set (suc n) id ts t t' rest (rw other at e) same l)
]

pub length-set_task : (id : ℕ) (t' : Task) (ts : List Task) → length (set_task id t' ts) ≡ length ts
length-set_task id t' [] = refl
length-set_task id t' (u ∷ ts) = ground (arith, length-set_task id t' ts)
