-- ===== src/Tasks/Runs/Exact.antt =====
-- What a successful `Start` of alfredo-tui/src/tasks.rs has checked: the task, its inputs, and the
-- run that a repair repeats.
use text.Mathlib.Text.{◌==◌ as str_eq}
use text.Mathlib.TextEquality.{eq_iff}
use alfredo.Base.{
  ℕ, String, Bool, true, false, not, ◌||◌, ◌≡◌, refl, ap, ap, List, [], ◌∷◌, map, Option, none,
  some, ok, refuse_if, arith, ==_iff, All, >>=-eq-ok, >>-eq-ok, refuse_if-eq-ok, ok_or-eq-ok,
  Option-cases, inl, inr, is_yes→path, is_yes, if◌then◌else◌,
}
use alfredo.Text.{codes_eq}
use alfredo.Assessment.{is_some}
use alfredo.Tasks.{
  TaskStatus, accepted, approved, TaskRun, Task, DependencyInput, Snapshot, Inputs-discrete,
  is_accepted, is_approved, source_id,
}
use alfredo.Tasks.Queries.{find_task}
use alfredo.Tasks.Runs.{
  evidence_is, exact_input, selected_input, check_inputs, check_parent, start_checks,
}

codes_eq→path : (xs ys : List ℕ) → codes_eq xs ys ≡ true → xs ≡ ys
unfolding codes_eq
codes_eq→path [] [] h = refl
codes_eq→path [] (y ∷ ys) h = cc
codes_eq→path (x ∷ xs) [] h = cc
codes_eq→path (x ∷ xs) (y ∷ ys) h =
    let head : x ≡ y = (==_iff x y).0 (ground arith) in
    λ i. head i ∷ codes_eq→path xs ys (ground arith) i

-- The input names the accepted result of its source: the run, and the digest of its evidence.
pub record IsExact (s : Snapshot) (i : DependencyInput) : Type 0 where
  pub source : Task
  pub run : TaskRun
  pub found : find_task (source_id i) s.tasks ≡ some source
  pub judged : source.status ≡ accepted
  pub bound : source.run ≡ some run
  pub same_run : run.id ≡ i.run
  pub same_evidence : run.evidence_sha256 ≡ some i.evidence_sha256

evidence_is→path : (o : Option String) (d : String) → evidence_is o d ≡ true → o ≡ some d
evidence_is→path none d h = cc
evidence_is→path (some e) d h = ap some ((eq_iff e d).0 h)

accepted→path : (k : TaskStatus) → is_accepted k ≡ true → k ≡ accepted
accepted→path k h = ground arith

pub exact_input-IsExact :
    (s : Snapshot) (i : DependencyInput) → exact_input s i ≡ ok tt → IsExact s i
unfolding exact_input
exact_input-IsExact s i h =
    let (source, found, h1) = >>=-eq-ok _ _ h in
    let (run, bound, h2) = >>=-eq-ok _ _ h1 in
    let checked = refuse_if-eq-ok _ _ h2 in
    record {
      source = source;
      run = run;
      found = ok_or-eq-ok _ _ found;
      judged = accepted→path source.status (ground arith);
      bound = ok_or-eq-ok _ _ bound;
      same_run = (eq_iff _ _).0 (ground arith);
      same_evidence = evidence_is→path _ _ (ground arith);
    }

check_inputs-IsExact :
    (s : Snapshot) (repairs : Bool) (inputs : List DependencyInput)
    → check_inputs s repairs inputs ≡ ok tt
    → All (IsExact s) inputs
unfolding check_inputs
check_inputs-IsExact s repairs [] h = tt
check_inputs-IsExact s repairs (i ∷ inputs) h =
    let (_, h1) = >>-eq-ok (if repairs then ok tt else selected_input s i) _ h in
    let (exact, h2) = >>-eq-ok (exact_input s i) _ h1 in
    (exact_input-IsExact s i exact, check_inputs-IsExact s repairs inputs h2)

-- A repair repeats the baseline and the inputs of the run that it repairs.
abbrev pub Repeats : Snapshot → String → List DependencyInput → Option ℕ → Type 0
Repeats s baseline inputs none = Unit
Repeats s baseline inputs (some parent) =
    (t : Task) × (run : TaskRun) × (find_task parent s.tasks ≡ some t)
    × (t.run ≡ some run)
    × (run.baseline ≡ baseline)
    × (run.inputs ≡ inputs)

check_parent-Repeats :
    (s : Snapshot) (baseline : String) (inputs : List DependencyInput) (parent : Option ℕ)
    → check_parent s baseline inputs parent ≡ ok tt
    → Repeats s baseline inputs parent
unfolding check_parent
check_parent-Repeats s baseline inputs none h = tt
check_parent-Repeats s baseline inputs (some parent) h =
    elim (Option-cases (find_task parent s.tasks)) [
      | inl missing ↦ absurd (ground (arith, rw (check_parent, missing) at h))
      | inr (t, found) ↦
          let (run, bound, h1) = >>=-eq-ok _ _ (rw (check_parent, found) at h) in
          let checked =
            refuse_if-eq-ok
              (not (str_eq run.baseline baseline)
                || not (is_yes (Inputs-discrete run.inputs inputs)))
              "Repair must use its parent's committed baseline" h1 in
          (
            t,
            run,
            found,
            ok_or-eq-ok _ _ bound,
            (eq_iff _ _).0 (ground arith),
            is_yes→path (Inputs-discrete run.inputs inputs) (ground arith),
          )
    ]

-- What `Start` needs of the task `t`.
pub record IsClaimable (s : Snapshot) (baseline : String) (inputs : List DependencyInput) (t : Task)
    : Type 0 where
  pub ready : t.status ≡ approved
  pub permitted : is_some t.policy ≡ true
  pub complete : map (λ i. i.task) inputs ≡ t.dependencies
  pub exact : All (IsExact s) inputs
  pub repeats : Repeats s baseline inputs t.repair_of

negated_test : (b : Bool) → not b ≡ false → b ≡ true
negated_test true h = refl
negated_test false h = cc

approved→path : (k : TaskStatus) → is_approved k ≡ true → k ≡ approved
approved→path k h = ground arith

pub start_checks-IsClaimable :
    (s : Snapshot) (baseline : String) (inputs : List DependencyInput) (t : Task)
    → start_checks s baseline inputs t ≡ ok tt
    → IsClaimable s baseline inputs t
unfolding start_checks
start_checks-IsClaimable s baseline inputs t h =
    let (status, h1) =
      >>-eq-ok (refuse_if (not (is_approved t.status) || not (is_some t.policy)) _) _ h in
    let allowed = refuse_if-eq-ok _ _ status in
    let (whole, h2) = >>-eq-ok _ _ h1 in
    let (exact, parent) = >>-eq-ok (check_inputs s (is_some t.repair_of) inputs) _ h2 in
    record {
      ready = approved→path t.status (ground arith);
      permitted = ground arith;
      complete = codes_eq→path _ _ (
          negated_test _ (
            refuse_if-eq-ok (not (codes_eq (map (λ i. i.task) inputs) t.dependencies))
              "Run inputs must match the exact task dependencies" whole));
      exact = check_inputs-IsExact s (is_some t.repair_of) inputs exact;
      repeats = check_parent-Repeats s baseline inputs t.repair_of parent;
    }
