-- ===== src/Tasks/Apply.antt =====
-- `TaskStore::apply` of alfredo-tui/src/tasks.rs: its arms for plans, branches and resolutions,
-- and the choice of the arm.
pub mod Resolution
use text.Mathlib.Text.{◌==◌ as str_eq}
use Prim.Native.String.{slice}
use alfredo.Base.{
  ℕ, suc, zero, ◌+◌, ◌-◌, String, Bool, true, false, not, ◌&&◌, ◌||◌, List, [], ◌∷◌, map, Option,
  none, some, Result, ok, err, ◌>>=◌, ◌>>◌, refuse_if, ok_or, any, ltb, ◌==◌, length, is_empty,
  if◌then◌else◌, is_yes,
}
use alfredo.Text.{is_hex, show, ◌+++◌}
use alfredo.Assessment.{
  Assessment, is_some, approves, validate_contract, validate_decision_contract,
}
use alfredo.Plan.{Plan, Step, Origin, Json, Origin-discrete}
use alfredo.Plan.Validate
use alfredo.Tasks.{
  Task, Action, Snapshot, review_architecture, resolve_repair, assign, plan, branch, repair,
  propose, approve, cancel, requeue, permit, start, finish, review_and_repair, decide, assess,
  review, max_tasks, is_accepted, is_unresolved, is_unsuccessful, has_evidence,
}
use alfredo.Tasks.Queries.{
  find_task, unknown_task, decision_for_task, assessment_for_task, acceptance_for_task, repair_root,
  has_root, resolution_for_family,
}
use alfredo.Tasks.Architecture.{architecture_blocker, architecture_origin}
use alfredo.Tasks.Edits.{
  edit_task, assign_task, approve_task, cancel_task, requeue_task, review_task,
}
use alfredo.Tasks.Runs.{apply_start, apply_finish}
use alfredo.Tasks.Handlers.{
  new_task, push_task, preamble, apply_propose, apply_permit, apply_repair, apply_decide,
  apply_review_and_repair, apply_review_architecture,
}

-- `branch::name`
unfoldable pub branch_name : ℕ → String → Result String
branch_name task commit = do
  refuse_if (task == 0 || not (is_hex 40 commit)) "Invalid branch candidate identity"
  ok ("alfredo/task-" +++ show task +++ "-" +++ slice commit 0 12)

unfoldable pub branch_checks : Snapshot → ℕ → String → String → Result (Unit {0})
unfolding branch_name
branch_checks s task name commit = do
  item ← ok_or (find_task task s.tasks) (unknown_task task)
  refuse_if (not (is_accepted item.status) || not (is_hex 40 commit))
      "Only an accepted candidate can be recorded as its review branch"
  expected ← branch_name task commit
  refuse_if (not (str_eq name expected))
      "Only an accepted candidate can be recorded as its review branch"

unfoldable pub apply_branch : Snapshot → ℕ → String → String → Result (Snapshot × ℕ)
apply_branch s task name commit = branch_checks s task name commit >> ok (s, task)

-- The `while let Some(id) = parent` loop of `ResolveRepair`, with fuel.
pub check_ancestors : List Task → ℕ → Option ℕ → Result (Unit {0})
check_ancestors tasks fuel none = ok tt
check_ancestors tasks zero (some id) = err "out of fuel"
check_ancestors tasks (suc fuel) (some id) = do
  ancestor ← ok_or (find_task id tasks) "Unknown repair ancestor"
  refuse_if (not (is_unsuccessful ancestor.status) || not (has_evidence ancestor.run))
      "Resolution ancestors must have terminal unsuccessful run evidence"
  check_ancestors tasks fuel ancestor.repair_of

-- The criteria of the resolved work are reviewed and passed.
check_contract : Snapshot → ℕ → List String → Result (Unit {0})
check_contract s task contract = elim (decision_for_task s task) [
  | some d ↦ do
    validate_decision_contract d contract
    refuse_if (not (approves d.outcome)) "Repair lacks passing criterion review"
  | none ↦ elim (assessment_for_task s task) [
    | some a ↦ do
      validate_contract a contract
      refuse_if (not a.accept) "Repair lacks passing criterion review"
    | none ↦ err "Repair requires recorded acceptance criterion review"
  ]
]

unfoldable pub resolve_checks : Snapshot → ℕ → Result (Unit {0})
unfolding check_ancestors check_contract
resolve_checks s task = do
  refuse_if (is_some (architecture_blocker s task))
      "Architect revision must be addressed before resolution"
  item ← ok_or (find_task task s.tasks) "Unknown repair"
  refuse_if (not (is_accepted item.status) || not (is_some item.repair_of))
      "Resolution requires an accepted repair"
  refuse_if (is_some (resolution_for_family s task)) "Repair family is already resolved"
  root ← ok_or (repair_root s task) "Invalid repair lineage"
  refuse_if (any (λ t. has_root s root t.id && is_unresolved t.status) s.tasks)
      "Repair family has an unresolved branch or human review hold"
  let contract = acceptance_for_task s task
  if is_empty contract then ok tt else check_contract s task contract
  check_ancestors s.tasks (length s.tasks) item.repair_of

unfoldable pub apply_resolve : Snapshot → ℕ → Result (Snapshot × ℕ)
apply_resolve s task = resolve_checks s task >> ok (s, task)

-- The steps of a plan, each proposed and given its policy; `first` is the id of step 1. Neither
-- action has a guard in the preamble.
unfoldable pub propose_steps : Snapshot → ℕ → List Step → Result Snapshot
propose_steps s first [] = ok s
propose_steps s first (step ∷ steps) = do
  added ← apply_propose s step.title step.model (map (λ id. first + id - 1) step.dependencies)
  permitted ← apply_permit added.0 added.1 step.policy
  propose_steps permitted.0 first steps

-- `context.baseline != run.baseline` of an architect's plan, with the cases of no context and no run.
foreign_baseline : Plan → Task → Bool
foreign_baseline p parent = elim p.context [
  | none ↦ false
  | some context ↦ elim parent.run [
    | none ↦ true
    | some r ↦ not (str_eq context.baseline r.baseline)
  ]
]

-- The one repair of an architect's revision; the plan's validation leaves it one step.
unfoldable pub push_revision : Snapshot → Task → ℕ → List Step → Result (Snapshot × ℕ)
push_revision s parent task [] = err "index out of bounds"
push_revision s parent task (step ∷ steps) = ok (
    push_task s (
      new_task (length s.tasks + 1) step.title step.model parent.dependencies (some step.policy)
        (some task)))

unfoldable pub adopt_revision : Snapshot → Plan → Origin → Result (Snapshot × ℕ)
unfolding foreign_baseline Origin-discrete
adopt_revision s p origin = do
  current ← architecture_origin s origin.task
  refuse_if (not (is_yes (Origin-discrete current origin))) "Stale Architect source binding"
  parent ← ok_or (find_task origin.task s.tasks) "Unknown Architect source"
  refuse_if (foreign_baseline p parent) "Architect context must match the source baseline"
  push_revision s parent origin.task p.tasks

-- What a plan adds: a revision of an architect, or its steps.
unfoldable pub add_plan : Snapshot → Plan → Option Origin → Result (Snapshot × ℕ)
add_plan s p (some origin) = adopt_revision s p origin
add_plan s p none = do
  planned ← propose_steps s (length s.tasks + 1) p.tasks
  ok (planned, length s.tasks + 1)

unfoldable pub apply_plan : Json → Snapshot → Plan → Result (Snapshot × ℕ)
apply_plan json s p = do
  Validate.validate json p
  refuse_if (ltb max_tasks (length s.tasks + length p.tasks)) "Task capacity reached"
  add_plan s p p.architecture

unfoldable pub apply_assess : Snapshot → ℕ → Assessment → Result (Snapshot × ℕ)
apply_assess s task a = do
  validate_contract a (acceptance_for_task s task)
  preamble s (review task a.accept)
  edit_task s task (review_task a.accept)

-- `match action`
unfoldable pub dispatch : Json → Snapshot → Action → Result (Snapshot × ℕ)
dispatch json s (review_architecture task d) = apply_review_architecture s task d
dispatch json s (resolve_repair task) = apply_resolve s task
dispatch json s (assign task model) = edit_task s task (assign_task model)
dispatch json s (plan p) = apply_plan json s p
dispatch json s (branch task name commit) = apply_branch s task name commit
dispatch json s (repair task reason) = apply_repair s task reason
dispatch json s (propose title model dependencies) = apply_propose s title model dependencies
dispatch json s (approve task) = edit_task s task approve_task
dispatch json s (cancel task) = edit_task s task cancel_task
dispatch json s (requeue task) = edit_task s task requeue_task
dispatch json s (permit task policy) = apply_permit s task policy
dispatch json s (start task baseline inputs) = apply_start s task baseline inputs
dispatch json s (finish task run status digest detail) =
    apply_finish s task run status digest detail
dispatch json s (review_and_repair task d) = apply_review_and_repair s task d
dispatch json s (decide task d) = apply_decide s task d
dispatch json s (assess task a) = apply_assess s task a
dispatch json s (review task accept) = edit_task s task (review_task accept)

unfoldable pub apply : Json → Snapshot → Action → Result (Snapshot × ℕ)
apply json s a = preamble s a >> dispatch json s a
