-- ===== src/Tasks/Guards/Retained.antt =====
-- The evidence that `transact_checked` of alfredo-tui/src/tasks.rs reads for an action before it
-- applies it, with `architecture_context_locked`. A walk up a repair lineage is a recursion on fuel.
use text.Mathlib.Text.{◌==◌ as str_eq}
use Prim.Native.String.{len}
use alfredo.Base.{
  ℕ, suc, zero, ◌+◌, ◌*◌, String, Bool, true, false, not, ◌&&◌, ◌||◌, List, Option, none, some,
  Result, ok, err, ◌>>=◌, ◌>>◌, refuse_if, ok_or, for_each, any, ltb, ◌==◌, length, is_yes,
  if◌then◌else◌,
}
use alfredo.Text.{show, ◌+++◌}
use alfredo.Assessment.{is_some}
use alfredo.Plan.{Plan, Origin-discrete}
use alfredo.Tasks.{
  Task, TaskStatus, DependencyInput, Action, Snapshot, is_running, is_review_ready, is_proposed,
  source_id, can_review, review_architecture, resolve_repair, plan, branch, repair, approve, start,
  finish, review_and_repair, decide, assess, review,
}
use alfredo.Tasks.Queries.{find_task, unknown_task, plan_for_task}
use alfredo.Tasks.Architecture.{architecture_origin}
use alfredo.Tasks.Edits.{not_run, review_refusal, running_hint, status_label}
use alfredo.Tasks.Evidence.{Evidence, read_evidence}
use alfredo.Tasks.Guards.{Disk}

-- The evidence of a task's run, with the texts for a missing run and a missing digest.
retained : Disk → Snapshot → Task → ℕ → String → String → Result Evidence
retained disk s t id no_run no_digest = do
  run ← ok_or t.run no_run
  digest ← ok_or run.evidence_sha256 no_digest
  read_evidence disk.evidence_file s run.id digest id

-- `plan_for_task(…).is_some_and(|p| p.architecture.is_some())`
is_revision : Snapshot → ℕ → Bool
is_revision s task = elim (plan_for_task s task) [ none ↦ false | some p ↦ is_some p.architecture ]

-- The reference data that an architect receives: one part for each ancestor, up to a revision.
gather : Disk → Snapshot → ℕ → ℕ → Option ℕ → Result (Unit {0})
unfolding retained is_revision
gather disk s fuel size none = ok tt
gather disk s zero size (some current) = err "out of fuel"
gather disk s (suc fuel) size (some current) = do
  ancestor ← ok_or (find_task current s.tasks) "Unknown Architect ancestor"
  evidence ←
      retained disk s ancestor current "Missing Architect ancestor run"
        "Missing Architect evidence digest"
  let size' = size + disk.reference_bytes s current evidence
  refuse_if (ltb (128 * 1024) size')
      "Architect evidence reference exceeds 128 KiB; narrow the work before revision"
  gather disk s fuel size' (if is_revision s current then none else ancestor.repair_of)

root_of : List Task → ℕ → Task → Result Task
root_of tasks zero t = elim t.repair_of [ none ↦ ok t | some parent ↦ err "out of fuel" ]
root_of tasks (suc fuel) t = elim t.repair_of [
  | none ↦ ok t
  | some parent ↦ do
    up ← ok_or (find_task parent tasks) "Missing Architect root"
    root_of tasks fuel up
]

revision_prompt : Task → String
revision_prompt root =
    "Revise the architecture of task #"
    +++ show root.id
    +++ " after repeated architecture failures. Produce one complete corrected repair task with explicit criteria and exact file/check policy, preserving the original goal: "
    +++ root.title

-- The heading of the reference data has 69 bytes.
unfoldable pub architecture_context : Disk → Snapshot → ℕ → Result (Unit {0})
unfolding gather root_of revision_prompt
architecture_context disk s task = do
  origin ← architecture_origin s task
  item ← ok_or (find_task task s.tasks) "Unknown Architect source"
  gather disk s (suc (length s.tasks)) 69 (some task)
  root ← root_of s.tasks (length s.tasks) item
  refuse_if (ltb 8192 (len (revision_prompt root))) "Architect task goal exceeds prompt limit"
  run ← ok_or item.run "Missing Architect baseline"
  ok tt

check_plan : Disk → Snapshot → Plan → Result (Unit {0})
unfolding Origin-discrete
check_plan disk s p = elim p.architecture [
  | none ↦ ok tt
  | some origin ↦ do
    current ← architecture_origin s origin.task
    refuse_if (not (is_yes (Origin-discrete current origin))) "Stale Architect origin"
    architecture_context disk s origin.task
]

-- `evidence.candidate_commit == Some(commit)`
is_candidate : Evidence → String → Bool
is_candidate e commit = elim e.candidate_commit [ none ↦ false | some c ↦ str_eq c commit ]

-- `ResolveRepair` reads the evidence of the whole lineage; that of the repair holds a candidate.
check_lineage : Disk → Snapshot → ℕ → ℕ → Option ℕ → Result (Unit {0})
unfolding retained
check_lineage disk s fuel task none = ok tt
check_lineage disk s zero task (some current) = err "out of fuel"
check_lineage disk s (suc fuel) task (some current) = do
  item ← ok_or (find_task current s.tasks) "Unknown repair"
  evidence ←
      retained disk s item current "Repair lineage lacks run evidence" "Missing evidence digest"
  refuse_if
      ((current == task)
        && (not (is_review_ready evidence.status) || not (is_some evidence.candidate_commit)))
      "Resolution requires successful candidate evidence"
  check_lineage disk s fuel task item.repair_of

check_branch : Disk → Snapshot → ℕ → String → Result (Unit {0})
unfolding retained is_candidate
check_branch disk s task commit = do
  item ← ok_or (find_task task s.tasks) (unknown_task task)
  evidence ← retained disk s item task (not_run item) "Missing evidence digest"
  refuse_if (not (is_candidate evidence commit)) "Branch differs from the accepted candidate"

check_input : Disk → Snapshot → DependencyInput → Result (Unit {0})
unfolding is_candidate
check_input disk s input = do
  evidence ← read_evidence disk.evidence_file s input.run input.evidence_sha256 (source_id input)
  refuse_if (not (is_candidate evidence input.candidate))
      "Dependency candidate differs from saved evidence"

-- The comparison of statuses, by their names.
same_status : TaskStatus → TaskStatus → Bool
unfolding status_label
same_status a b = str_eq (status_label a) (status_label b)

check_report : Disk → Snapshot → ℕ → String → TaskStatus → String → String → Result (Unit {0})
unfolding same_status
check_report disk s task run status digest detail = do
  evidence ← read_evidence disk.evidence_file s run digest task
  refuse_if (not (same_status evidence.status status) || not (str_eq evidence.detail detail))
      "Worker result differs from its evidence"

-- The reviews and the repair; `reviews` says that the action is `Review` or `Assess`.
check_review : Disk → Snapshot → Bool → ℕ → Result (Unit {0})
unfolding retained
check_review disk s reviews task = do
  item ← ok_or (find_task task s.tasks) (unknown_task task)
  refuse_if (reviews && not (can_review item)) (review_refusal task item.status)
  refuse_if (is_running item.status) (running_hint task)
  evidence ← retained disk s item task (not_run item) "Task has no evidence receipt"
  ok tt

unfoldable pub check_evidence : Disk → Snapshot → Action → Result (Unit {0})
unfolding check_plan check_lineage check_branch check_input check_report check_review
check_evidence disk s a = elim a [
  | plan p ↦ check_plan disk s p
  | resolve_repair task ↦ check_lineage disk s (suc (length s.tasks)) task (some task)
  | branch task name commit ↦ check_branch disk s task commit
  | start task baseline inputs ↦ for_each (check_input disk s) inputs
  | finish task run status digest detail ↦ check_report disk s task run status digest detail
  | review task accept ↦ check_review disk s true task
  | assess task w ↦ check_review disk s true task
  | decide task d ↦ check_review disk s false task
  | review_and_repair task d ↦ check_review disk s false task
  | review_architecture task d ↦ check_review disk s false task
  | repair task reason ↦ check_review disk s false task
  | _ ↦ ok tt
]

-- Only new approvals need a policy.
unfoldable pub check_policy : Snapshot → Action → Result (Unit {0})
check_policy s a = elim a [
  | approve task ↦
      refuse_if
        (any (λ t. (t.id == task) && is_proposed t.status && not (is_some t.policy)) s.tasks)
        ("Task #"
          +++ show task
          +++ " has no files/check yet; set them with /permit "
          +++ show task
          +++ " {\"files\":[\"path\"],\"check\":[\"program\",\"arg\"]}")
  | _ ↦ ok tt
]
