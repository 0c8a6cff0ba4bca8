-- ===== src/Tasks/Guards.antt =====
-- What `transact_checked` of alfredo-tui/src/tasks.rs asks of a new request before it is applied: the
-- scope, the guards that only new requests meet, the backup of an older store, and the evidence.
-- The file system is a parameter, `Disk`.
pub mod Retained
use text.Mathlib.Text.{◌==◌ as str_eq}
use Prim.Native.String.{len}
use alfredo.Base.{
  ℕ, suc, zero, ◌+◌, ◌*◌, String, Bool, true, false, not, ◌&&◌, ◌||◌, List, [], ◌∷◌, Option, none,
  some, Result, ok, err, ◌>>=◌, ◌>>◌, refuse_if, ok_or, for_each, any, ltb, ◌==◌, length, is_empty,
  is_yes, if◌then◌else◌,
}
use alfredo.Text.{show, ◌+++◌}
use alfredo.Assessment.{is_some}
use alfredo.Scope.{Understanding, ensure_open, ensure_binding}
use alfredo.Plan.{Plan, Origin, Origin-discrete}
use alfredo.Tasks.{
  Task, TaskRun, TaskStatus, DependencyInput, Action, Snapshot, is_running, is_review_ready,
  is_held, is_proposed, source_id, some_is, can_review, review_architecture, resolve_repair, assign,
  plan, branch, repair, propose, approve, cancel, requeue, permit, start, finish, review_and_repair,
  decide, assess, review, max_receipts, schema_version,
}
use alfredo.Tasks.Queries.{
  find_task, unknown_task, plan_for_task, acceptance_for_task, resolution_for_family,
}
use alfredo.Tasks.Architecture.{architecture_origin}
use alfredo.Tasks.Edits.{not_run, review_refusal, running_hint}
use alfredo.Tasks.Evidence.{Evidence, EvidenceFile, read_evidence}
use alfredo.Tasks.Journal.{ungoverned_failure}
use alfredo.Tasks.Journal.Valid.{upgraded}

-- What opening the backup of an older store with `create_new` gives.
pub data BackupFile : Type 0 where
  created : Result (Unit {0}) → BackupFile
  already_exists : Result String → BackupFile
  not_opened : String → BackupFile

-- What the file system gives: the scope that its lock protects, the evidence file of a run, the bytes
-- of the store with the backup that is opened for them, and the sync of the directory. The last
-- field is the length of what an architect's reference says of a task.
pub record Disk : Type 0 where
  pub scope : Result Understanding
  pub evidence_file : String → Result EvidenceFile
  pub original : Result String
  pub open_backup : ℕ → BackupFile
  pub sync_directory : Result (Unit {0})
  pub reference_bytes : Snapshot → ℕ → Evidence → ℕ

-- The actions that need no confirmed scope: what closes or records work that is there.
abbrev pub is_closing : Action → Bool
is_closing (finish task run status digest detail) = true
is_closing (cancel task) = true
is_closing (review task accept) = true
is_closing (assess task a) = true
is_closing (decide task d) = true
is_closing (branch task name commit) = true
is_closing _ = false

check_binding : Disk → Snapshot → Action → Result (Unit {0})
check_binding disk s a = elim a [
  | plan p ↦ disk.scope >>= λ u. ensure_binding u p.scope
  | start task baseline inputs ↦ elim (plan_for_task s task) [
    | none ↦ ok tt
    | some p ↦ disk.scope >>= λ u. ensure_binding u p.scope
  ]
  | _ ↦ ok tt
]

unfoldable pub check_scope : Disk → Snapshot → Action → Result (Unit {0})
unfolding check_binding
check_scope disk s a = do
  if is_closing a then ok tt else (disk.scope >>= ensure_open)
  check_binding disk s a

-- `review_template`, for the criteria from `n`.
template_items : ℕ → ℕ → String
template_items n zero = ""
template_items n (suc zero) = "{\"criterion\":" +++ show n +++ ",\"met\":true,\"note\":\"…\"}"
template_items n (suc (suc k)) =
    "{\"criterion\":"
    +++ show n
    +++ ",\"met\":true,\"note\":\"…\"},"
    +++ template_items (suc n) (suc k)

unfoldable pub review_template : ℕ → ℕ → String
unfolding template_items
review_template task criteria =
    "/review "
    +++ show task
    +++ " {\"outcome\":\"approved\",\"reason\":\"…\",\"criteria\":["
    +++ template_items 1 criteria
    +++ "]}"

-- The guards that a replayed receipt does not meet.
pub check_new : Snapshot → Action → Result (Unit {0})
unfolding review_template
check_new s a = elim a [
  | repair task reason ↦
      refuse_if (any (λ t. some_is t.repair_of task && is_held t.status) s.tasks)
        "An unresolved repair is held for human review; resolve its review first"
  | review task accept ↦
      refuse_if
        (accept
          && any (λ t. (t.id == task) && is_review_ready t.status) s.tasks
          && not (is_empty (acceptance_for_task s task)))
        ("Use " +++ review_template task (length (acceptance_for_task s task)))
  | _ ↦ ok tt
]

pub check_family : Snapshot → Action → Result (Unit {0})
check_family s a = elim a [
  | repair task reason ↦
      refuse_if (is_some (resolution_for_family s task)) "Repair family is already resolved"
  | review_and_repair task d ↦
      refuse_if (is_some (resolution_for_family s task)) "Repair family is already resolved"
  | _ ↦ ok tt
]

unfoldable pub check_request : Snapshot → Action → Result (Unit {0})
unfolding check_new check_family
check_request s a = do
  check_family s a
  refuse_if (ungoverned_failure a) "Architecture failure requires its governed review route"
  check_new s a
  refuse_if (length s.receipts == max_receipts) "Task receipt capacity reached"

-- A store of an older schema is copied before it is changed; a copy that is there must be the same.
write_backup : String → BackupFile → Result (Unit {0})
write_backup original (created written) = written
write_backup original (already_exists bytes) = do
  found ← bytes
  refuse_if (not (str_eq found original)) "Legacy task backup differs; original state preserved"
write_backup original (not_opened e) = err e

pub back_up : Disk → ℕ → Result (Unit {0})
unfolding write_backup
back_up disk version = do
  original ← disk.original
  write_backup original (disk.open_backup version)
  disk.sync_directory

unfoldable pub migrate : Disk → Snapshot → Result Snapshot
unfolding back_up
migrate disk s =
    if ltb s.schema_version schema_version
    then (back_up disk s.schema_version >> ok (upgraded s))
    else ok s
