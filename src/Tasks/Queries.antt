-- ===== src/Tasks/Queries.antt =====
-- The read-only methods of `Snapshot` in alfredo-tui/src/tasks.rs. A `for _ in 0..n` loop is a
-- recursion on the rounds left.
pub mod Lineage
use alfredo.Base.{
  ℕ, suc, zero, ◌+◌, ◌-◌, String, Bool, true, false, ◌&&◌, List, [], ◌∷◌, Option, none, some,
  Result, ◌>>=◌, ok_or, find_map, get_elem?, ltb, leb, ◌==◌, length, if◌then◌else◌,
}
use alfredo.Text.{show, ◌+++◌}
use alfredo.Assessment.{Assessment, Decision}
use alfredo.Plan.{Plan, Step}
use alfredo.Tasks.{
  Task, Receipt, Snapshot, is_accepted, some_is, review_architecture, resolve_repair, plan, decide,
  assess, review_and_repair,
}

-- `tasks.iter().find(|t| t.id == id)`
abbrev pub find_task : ℕ → List Task → Option Task
find_task id [] = none
find_task id (t ∷ ts) = if t.id == id then some t else find_task id ts

-- `iter().rev().find_map(f)`
abbrev pub find_map_last {ℓ κ} : {A : Type ℓ} {B : Type κ} → (A → Option B) → List A → Option B
find_map_last f [] = none
find_map_last f (x ∷ xs) = elim (find_map_last f xs) [ none ↦ f x | some y ↦ some y ]

unfoldable pub unknown_task : ℕ → String
unknown_task task = "Unknown task " +++ show task +++ "; the task panel lists ids"

-- The decision that a receipt records about a task.
decision_in : ℕ → Receipt → Option Decision
decision_in task r = elim r.request.action [
  | decide id d ↦ if id == task then some d else none
  | review_and_repair id d ↦ if id == task then some d else none
  | review_architecture id d ↦ if id == task then some d else none
  | _ ↦ none
]

unfoldable pub decision_for_task : Snapshot → ℕ → Option Decision
unfolding decision_in
decision_for_task s task = find_map_last (decision_in task) s.receipts

assessment_in : ℕ → Receipt → Option Assessment
assessment_in task r = elim r.request.action [
  | assess id a ↦ if id == task then some a else none
  | _ ↦ none
]

unfoldable pub assessment_for_task : Snapshot → ℕ → Option Assessment
unfolding assessment_in
assessment_for_task s task = find_map_last (assessment_in task) s.receipts

-- The plan of a receipt, with its place among the tasks.
abbrev pub plan_in : Receipt → Option Plan
plan_in r = elim r.request.action [ plan p ↦ some p | _ ↦ none ]

plan_of_task : ℕ → Receipt → Option Plan
plan_of_task task r = elim (plan_in r) [
  | none ↦ none
  | some p ↦ if leb r.task task && ltb task (r.task + length p.tasks) then some p else none
]

unfoldable pub plan_for_task : Snapshot → ℕ → Option Plan
unfolding plan_of_task
plan_for_task s task = find_map (plan_of_task task) s.receipts

-- `checked_sub` and `get` of `acceptance_for_task`.
step_in : ℕ → Receipt → Option Step
step_in task r = elim (plan_in r) [
  | none ↦ none
  | some p ↦ if leb r.task task then get_elem? p.tasks (task - r.task) else none
]

acceptance_from : Snapshot → ℕ → ℕ → List String
unfolding step_in
acceptance_from s zero task = []
acceptance_from s (suc rounds) task = elim (find_map (step_in task) s.receipts) [
  | some step ↦ step.acceptance
  | none ↦ elim (find_task task s.tasks) [
    | none ↦ []
    | some t ↦ elim t.repair_of [
      | none ↦ []
      | some parent ↦ elim (ltb parent task) [ true ↦ acceptance_from s rounds parent | false ↦ [] ]
    ]
  ]
]

unfoldable pub acceptance_for_task : Snapshot → ℕ → List String
unfolding acceptance_from
acceptance_for_task s task = acceptance_from s (suc (length s.tasks)) task

-- `repair_root`, with the rounds left.
pub root_from : List Task → ℕ → ℕ → Option ℕ
root_from tasks zero id = none
root_from tasks (suc rounds) id = elim (find_task id tasks) [
  | none ↦ none
  | some t ↦ elim t.repair_of [
    | none ↦ some id
    | some parent ↦ elim (ltb parent id) [ true ↦ root_from tasks rounds parent | false ↦ none ]
  ]
]

unfoldable pub repair_root : Snapshot → ℕ → Option ℕ
repair_root s id = root_from s.tasks (suc (length s.tasks)) id

-- The inner loop of `resolved_by`: whether `id` is an ancestor of `current`.
pub is_ancestor : List Task → ℕ → ℕ → ℕ → Bool
is_ancestor tasks zero current id = false
is_ancestor tasks (suc rounds) current id = elim (find_task current tasks) [
  | none ↦ false
  | some t ↦ elim t.repair_of [
    | none ↦ false
    | some parent ↦ elim (parent == id) [ true ↦ true | false ↦ is_ancestor tasks rounds parent id ]
  ]
]

resolves : Snapshot → ℕ → Receipt → Option ℕ
unfolding is_ancestor
resolves s id r = elim r.request.action [
  | resolve_repair task ↦ if is_ancestor s.tasks (length s.tasks) task id then some task else none
  | _ ↦ none
]

unfoldable pub resolved_by : Snapshot → ℕ → Option ℕ
unfolding resolves
resolved_by s id = find_map (resolves s id) s.receipts

-- `self.repair_root(task) == Some(root)`
unfoldable pub has_root : Snapshot → ℕ → ℕ → Bool
unfolding repair_root root_from
has_root s root task = some_is (repair_root s task) root

resolves_family : Snapshot → ℕ → Receipt → Option ℕ
unfolding has_root
resolves_family s root r = elim r.request.action [
  | resolve_repair task ↦ if has_root s root task then some task else none
  | _ ↦ none
]

unfoldable pub resolution_for_family : Snapshot → ℕ → Option ℕ
unfolding resolves_family repair_root root_from
resolution_for_family s id = elim (repair_root s id) [
  | none ↦ none
  | some root ↦ find_map (resolves_family s root) s.receipts
]

accepted_only : Option Task → Option Task
accepted_only none = none
accepted_only (some t) = if is_accepted t.status then some t else none

unfoldable pub dependency_source : Snapshot → ℕ → Result Task
unfolding resolved_by accepted_only
dependency_source s id = do
  declared ← ok_or (find_task id s.tasks) "Unknown dependency"
  ok_or
      (accepted_only (
        if is_accepted declared.status
        then some declared
        else elim (resolved_by s id) [ none ↦ none | some source ↦ find_task source s.tasks ]))
      ("Dependency #" +++ show id +++ " is not accepted")
