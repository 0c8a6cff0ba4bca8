-- ===== src/Tasks/Runs.antt =====
-- The arms `Start` and `Finish` of `TaskStore::apply` in alfredo-tui/src/tasks.rs: a run is claimed
-- with its exact inputs, and its worker's report is bound to it.
pub mod Exact
use text.Mathlib.Text.{◌==◌ as str_eq}
use alfredo.Base.{
  ℕ, String, Bool, true, false, not, ◌||◌, List, [], ◌∷◌, map, Option, none, some, Result, ok, err,
  ◌>>=◌, ◌>>◌, refuse_if, ok_or, ◌==◌, if◌then◌else◌, is_yes,
}
use alfredo.Text.{is_hex, codes_eq}
use alfredo.Assessment.{is_some}
use alfredo.Tasks.{
  TaskStatus, running, DependencyInput, Task, Snapshot, is_approved, is_accepted, source_id,
  Inputs-discrete,
}
use alfredo.Tasks.Queries.{find_task, dependency_source}
use alfredo.Tasks.Edits.{edit_task, claimed_run, bad_result, finish_task}

-- `evidence_sha256.as_ref() == Some(digest)`
abbrev pub evidence_is : Option String → String → Bool
evidence_is none digest = false
evidence_is (some d) digest = str_eq d digest

abbrev pub option_eq : Option ℕ → Option ℕ → Bool
option_eq none none = true
option_eq (some m) (some n) = m == n
option_eq _ _ = false

-- One input of a run is the exact accepted result of its source.
pub exact_input : Snapshot → DependencyInput → Result (Unit {0})
exact_input s input = do
  parent ← ok_or (find_task (source_id input) s.tasks) "Unknown dependency"
  run ← ok_or parent.run "Dependency has no completed run"
  refuse_if
      (not (is_accepted parent.status)
        || not (str_eq run.id input.run)
        || not (evidence_is run.evidence_sha256 input.evidence_sha256)
        || not (is_hex 40 input.candidate))
      "Dependency input is not the exact accepted result"

-- A task that repairs nothing uses the selected resolution of each dependency.
pub selected_input : Snapshot → DependencyInput → Result (Unit {0})
selected_input s input = do
  source ← dependency_source s input.task
  refuse_if
      (not (option_eq input.source_task (if source.id == input.task then none else some source.id)))
      "Dependency input differs from selected resolution"

unfoldable pub check_inputs : Snapshot → Bool → List DependencyInput → Result (Unit {0})
unfolding exact_input selected_input
check_inputs s repairs [] = ok tt
check_inputs s repairs (input ∷ inputs) = do
  if repairs then ok tt else selected_input s input
  exact_input s input
  check_inputs s repairs inputs

-- A repair starts from its parent's baseline and inputs.
unfoldable pub check_parent :
    Snapshot → String → List DependencyInput → Option ℕ → Result (Unit {0})
unfolding Inputs-discrete
check_parent s baseline inputs none = ok tt
check_parent s baseline inputs (some parent) = elim (find_task parent s.tasks) [
  | none ↦ err "Missing repair parent run"
  | some t ↦ do
    original ← ok_or t.run "Missing repair parent run"
    refuse_if
        (not (str_eq original.baseline baseline)
          || not (is_yes (Inputs-discrete original.inputs inputs)))
        "Repair must use its parent's committed baseline"
]

-- The tests of `Start` on the task.
unfoldable pub start_checks : Snapshot → String → List DependencyInput → Task → Result (Unit {0})
start_checks s baseline inputs t = do
  refuse_if (not (is_approved t.status) || not (is_some t.policy))
      "Task needs explicit /permit policy followed by /approve"
  refuse_if (not (codes_eq (map (λ i. i.task) inputs) t.dependencies))
      "Run inputs must match the exact task dependencies"
  check_inputs s (is_some t.repair_of) inputs
  check_parent s baseline inputs t.repair_of

unfoldable pub start_task : Snapshot → ℕ → String → List DependencyInput → Task → Result Task
start_task s task baseline inputs t =
    start_checks s baseline inputs t
    >> ok (record t { status = running; run = some (claimed_run task s.revision baseline inputs) })

unfoldable pub apply_start : Snapshot → ℕ → String → List DependencyInput → Result (Snapshot × ℕ)
apply_start s task baseline inputs = do
  refuse_if (not (is_hex 40 baseline)) "Invalid baseline commit"
  edit_task s task (start_task s task baseline inputs)

unfoldable pub apply_finish :
    Snapshot → ℕ → String → TaskStatus → String → String → Result (Snapshot × ℕ)
apply_finish s task run status digest detail = do
  refuse_if (bad_result status digest detail) "Invalid worker result"
  edit_task s task (finish_task run status digest detail)
