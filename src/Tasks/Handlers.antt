-- ===== src/Tasks/Handlers.antt =====
-- The guards with which `TaskStore::apply` of alfredo-tui/src/tasks.rs begins, and its arms for
-- proposals, policies, repairs and reviews. Where `apply` calls itself it is on an action whose arm
-- makes no such call: `decide_again` and `repair_again` are these calls.
use alfredo.Base.{
  ℕ, ◌+◌, String, not, ◌&&◌, ◌||◌, List, [], ◌∷◌, ◌++◌, Option, none, some, Result, ok, err, ◌>>=◌,
  ◌>>◌, refuse_if, ok_or, any, distinct, leb, ◌==◌, length, if◌then◌else◌,
}
use alfredo.Text.{text_valid, show, ◌+++◌}
use alfredo.Policy
use alfredo.Policy.{WorkPolicy}
use alfredo.Assessment.{Decision, is_some, proposes_repair, validate_decision_contract}
use alfredo.Tasks.{
  proposed, Task, Action, Snapshot, review_architecture, resolve_repair, repair, start,
  review_and_repair, decide, assess, review, max_tasks, is_held, is_outstanding, is_unresolved,
  some_is, can_repair,
}
use alfredo.Tasks.Queries.{find_task, acceptance_for_task, resolution_for_family}
use alfredo.Tasks.Architecture.{
  architecture_failures, architecture_obsolete, architecture_blocker, under_architecture,
}
use alfredo.Tasks.Edits.{edit_task, permit_task, decide_task}

-- A task that is pushed at the end of the list.
abbrev pub new_task : ℕ → String → String → List ℕ → Option WorkPolicy → Option ℕ → Task
new_task id title model dependencies policy repair_of = record {
  id = id;
  title = title;
  model = model;
  dependencies = dependencies;
  status = proposed;
  policy = policy;
  run = none;
  repair_of = repair_of;
}

abbrev pub push_task : Snapshot → Task → Snapshot × ℕ
push_task s t = (record s { tasks = s.tasks ++ t ∷ [] }, t.id)

-- The task that an action would change although its branch may be superseded.
abbrev pub obsolete_target : Action → Option ℕ
obsolete_target (repair task reason) = some task
obsolete_target (review_and_repair task d) = some task
obsolete_target (review_architecture task d) = some task
obsolete_target (start task baseline inputs) = some task
obsolete_target (decide task d) = some task
obsolete_target (assess task a) = some task
obsolete_target (review task accept) = some task
obsolete_target (resolve_repair task) = some task
obsolete_target _ = none

abbrev pub resolved_target : Action → Option ℕ
resolved_target (resolve_repair task) = none
resolved_target a = obsolete_target a

abbrev pub blocked_target : Action → Option ℕ
blocked_target (repair task reason) = some task
blocked_target (review_and_repair task d) = some task
blocked_target (review_architecture task d) = some task
blocked_target (start task baseline inputs) = some task
blocked_target _ = none

-- `if let … = action { test(task)?; }`
abbrev pub on_target : Option ℕ → (ℕ → Result (Unit {0})) → Result (Unit {0})
on_target none f = ok tt
on_target (some task) f = f task

refuse_blocked : Snapshot → ℕ → Result (Unit {0})
refuse_blocked s task = elim (architecture_blocker s task) [
  | none ↦ ok tt
  | some blocker ↦ err (
      "Architect revision required for task #"
      +++ show blocker
      +++ "; use /architect-revise "
      +++ show blocker)
]

-- The three tests with which `apply` begins.
unfoldable pub preamble : Snapshot → Action → Result (Unit {0})
unfolding refuse_blocked
preamble s a = do
  on_target (obsolete_target a) λ task.
      refuse_if (architecture_obsolete s task)
        "An adopted Architect revision supersedes this repair branch"
  on_target (resolved_target a)
      λ task. refuse_if (is_some (resolution_for_family s task)) "Repair family is already resolved"
  on_target (blocked_target a) (refuse_blocked s)

unfoldable pub apply_propose : Snapshot → String → String → List ℕ → Result (Snapshot × ℕ)
apply_propose s title model dependencies = do
  refuse_if (not (text_valid title 8192) || not (text_valid model 200))
      "Task title/model is empty, contains controls or exceeds its limit"
  refuse_if (length s.tasks == max_tasks) "Task capacity reached"
  let id = length s.tasks + 1
  refuse_if
      (not (distinct (λ a b. a == b) dependencies) || any (λ d. d == 0 || leb id d) dependencies)
      "Dependencies must be distinct existing earlier tasks"
  ok (push_task s (new_task id title model dependencies none none))

unfoldable pub apply_permit : Snapshot → ℕ → WorkPolicy → Result (Snapshot × ℕ)
apply_permit s task policy = Policy.validate policy >> edit_task s task (permit_task policy)

unfoldable pub apply_repair : Snapshot → ℕ → String → Result (Snapshot × ℕ)
apply_repair s task reason = do
  refuse_if (not (text_valid reason 2048)) "Repair reason must be 1–2048 bytes without controls"
  parent ← ok_or (find_task task s.tasks) "Unknown repair parent"
  refuse_if (not (can_repair parent))
      "Repair requires a failed, rejected or cancelled run with retained evidence"
  refuse_if (any (λ t. some_is t.repair_of task && is_outstanding t.status) s.tasks)
      "An unresolved repair already exists for this task"
  refuse_if (length s.tasks == max_tasks) "Task capacity reached"
  let id = length s.tasks + 1
  let title = "Repair #" +++ show task +++ ": " +++ reason
  ok (push_task s (new_task id title parent.model parent.dependencies parent.policy (some task)))

unfoldable pub apply_decide : Snapshot → ℕ → Decision → Result (Snapshot × ℕ)
apply_decide s task d = do
  validate_decision_contract d (acceptance_for_task s task)
  edit_task s task (decide_task s.receipts d)

-- The recursive calls of `apply` on `Decide` and `Repair`, with the guards.
unfoldable pub decide_again : Snapshot → ℕ → Decision → Result (Snapshot × ℕ)
decide_again s task d = preamble s (decide task d) >> apply_decide s task d

unfoldable pub repair_again : Snapshot → ℕ → String → Result (Snapshot × ℕ)
repair_again s task reason = preamble s (repair task reason) >> apply_repair s task reason

unfoldable pub apply_review_and_repair : Snapshot → ℕ → Decision → Result (Snapshot × ℕ)
apply_review_and_repair s task d = do
  refuse_if (not (proposes_repair d))
      "Automatic repair requires Needs repair or Rejected without unresolved risk"
  refuse_if (any (λ t. some_is t.repair_of task && is_held t.status) s.tasks)
      "An unresolved repair is held for human review; resolve its review first"
  decided ← decide_again s task d
  repair_again decided.0 task d.reason

-- Earlier architecture failures of the repaired family, before this one.
prior_failures : Snapshot → ℕ → ℕ
prior_failures s task = elim (find_task task s.tasks) [
  | none ↦ 0
  | some t ↦ elim t.repair_of [ none ↦ 0 | some parent ↦ architecture_failures s parent ]
]

-- A second failure waits for the architect; a first one is repaired.
unfoldable pub route_failure : Snapshot → ℕ → String → ℕ → Result (Snapshot × ℕ)
route_failure s task reason prior = if leb 1 prior then ok (s, task) else repair_again s task reason

unfoldable pub apply_review_architecture : Snapshot → ℕ → Decision → Result (Snapshot × ℕ)
unfolding prior_failures
apply_review_architecture s task d = do
  refuse_if (not (is_some d.failure) || not (proposes_repair d))
      "Architect routing requires a no-risk architecture failure review"
  refuse_if (any (λ t. some_is t.repair_of task && is_unresolved t.status) s.tasks)
      "An unresolved repair already exists"
  decided ← decide_again s task d
  let prior = if under_architecture decided.0 task then 0 else prior_failures s task
  route_failure decided.0 task d.reason prior
