-- ===== src/Tasks/Architecture.antt =====
-- When a repeated architecture failure needs the architect: the `architecture_` methods of
-- `Snapshot` in alfredo-tui/src/tasks.rs.
use text.Mathlib.Text.{◌==◌ as str_eq}
use alfredo.Base.{
  ℕ, suc, zero, String, Bool, true, false, not, ◌&&◌, ◌||◌, List, [], ◌∷◌, Option, none, some,
  Result, ok, ◌>>=◌, ◌>>◌, refuse_if, ok_or, any, find?, find_map, leb, ◌==◌, length, if◌then◌else◌,
}
use alfredo.Assessment.{Decision, is_some, proposes_repair}
use alfredo.Plan.{Plan, Origin}
use alfredo.Tasks.{
  Task, Receipt, Snapshot, is_rejected, is_cancelled, is_unresolved, review_architecture,
}
use alfredo.Tasks.Queries.{
  find_task, find_map_last, decision_for_task, plan_in, plan_for_task, repair_root, has_root,
  resolution_for_family, unknown_task,
}

-- `BTreeSet::insert`
insert_run : String → List String → List String
insert_run id runs = if any (str_eq id) runs then runs else id ∷ runs

failed_architecture : Option Decision → Bool
failed_architecture none = false
failed_architecture (some d) = is_some d.failure && proposes_repair d

add_failure : Snapshot → Task → List String → List String
unfolding insert_run failed_architecture
add_failure s t runs = elim t.run [
  | none ↦ runs
  | some r ↦ if failed_architecture (decision_for_task s t.id) then insert_run r.id runs else runs
]

is_architecture_plan : Option Plan → Bool
is_architecture_plan none = false
is_architecture_plan (some p) = is_some p.architecture

-- `plan_for_task(task).is_some_and(|p| p.architecture.is_some())`
unfoldable pub under_architecture : Snapshot → ℕ → Bool
unfolding is_architecture_plan
under_architecture s task = is_architecture_plan (plan_for_task s task)

failure_runs : Snapshot → ℕ → ℕ → List String → List String
unfolding add_failure
failure_runs s zero id runs = runs
failure_runs s (suc rounds) id runs = elim (find_task id s.tasks) [
  | none ↦ runs
  | some t ↦ elim (under_architecture s id) [
    | true ↦ add_failure s t runs
    | false ↦ elim t.repair_of [
      | none ↦ add_failure s t runs
      | some parent ↦ failure_runs s rounds parent (add_failure s t runs)
    ]
  ]
]

unfoldable pub architecture_failures : Snapshot → ℕ → ℕ
unfolding failure_runs under_architecture
architecture_failures s id = length (failure_runs s (length s.tasks) id [])

-- The receipt that routed a task's review to the architect.
routed : ℕ → Receipt → Option Receipt
routed task r = elim r.request.action [
  | review_architecture id d ↦ if id == task && r.task == task then some r else none
  | _ ↦ none
]

-- The receipt of a plan that revises a task.
revises : (ℕ → Bool) → Receipt → Option Receipt
revises is_source r = elim (plan_in r) [
  | none ↦ none
  | some p ↦ elim p.architecture [
    | none ↦ none
    | some origin ↦ if is_source origin.task then some r else none
  ]
]

-- Whether a revision was adopted and then cancelled before it ran, or none was adopted.
pending_revision : Snapshot → ℕ → Bool
unfolding revises
pending_revision s task = elim (find_map_last (revises (λ id. id == task)) s.receipts) [
  | none ↦ true
  | some adoption ↦
      any (λ t. t.id == adoption.task && is_cancelled t.status && not (is_some t.run)) s.tasks
]

unfoldable pub architecture_required : Snapshot → ℕ → Bool
unfolding routed pending_revision architecture_failures
architecture_required s task =
    any (λ t. t.id == task && is_rejected t.status) s.tasks
    && is_some (find_map (routed task) s.receipts)
    && pending_revision s task
    && leb 2 (architecture_failures s task)

-- The loop of `architecture_obsolete`: false when the walk up meets the boundary.
outside : List Task → ℕ → ℕ → ℕ → Bool
outside tasks zero boundary task = true
outside tasks (suc rounds) boundary task = elim (task == boundary) [
  | true ↦ false
  | false ↦ elim (find_task task tasks) [
    | none ↦ true
    | some t ↦ elim t.repair_of [ none ↦ true | some parent ↦ outside tasks rounds boundary parent ]
  ]
]

unfoldable pub architecture_obsolete : Snapshot → ℕ → Bool
unfolding outside revises
architecture_obsolete s task = elim (repair_root s task) [
  | none ↦ false
  | some root ↦ elim (find_map_last (revises (has_root s root)) s.receipts) [
    | none ↦ false
    | some r ↦ outside s.tasks (length s.tasks) r.task task
  ]
]

unfoldable pub architecture_blocker : Snapshot → ℕ → Option ℕ
architecture_blocker s task = elim (repair_root s task) [
  | none ↦ none
  | some root ↦ elim (find? (λ t. has_root s root t.id && architecture_required s t.id) s.tasks) [
    | none ↦ none
    | some t ↦ some t.id
  ]
]

-- `architecture_origin`
unfoldable pub architecture_origin : Snapshot → ℕ → Result Origin
unfolding routed
architecture_origin s task = do
  refuse_if (not (architecture_required s task) || is_some (resolution_for_family s task))
      "Task has no pending Architect revision"
  root ← ok_or (repair_root s task) "Unknown repair root"
  refuse_if (any (λ t. has_root s root t.id && is_unresolved t.status) s.tasks)
      "Resolve outstanding repair work or human holds before Architect revision"
  item ← ok_or (find_task task s.tasks) (unknown_task task)
  run ← ok_or item.run "Missing Architect source run"
  receipt ← ok_or (find_map_last (routed task) s.receipts) "Missing Architect route receipt"
  digest ← ok_or run.evidence_sha256 "Missing Architect source evidence"
  ok (record {
    task = task;
    review_revision = receipt.revision;
    run = run.id;
    evidence_sha256 = digest;
  })
