-- ===== src/Tests/Requests.antt =====
-- Witnesses of what a client of `transact_checked` of alfredo-tui/src/tasks.rs may rely on.
use alfredo.Base.{
  ℕ, ◌+◌, ◌≤◌, String, Bool, false, ◌≡◌, ◌≢◌, refl, sym, ◌∙◌, List, [], ◌∷◌, ◌++◌, Option, none,
  some, Result, ok, err, arith, length, count_if,
}
use alfredo.Text.{text_valid}
use alfredo.Scope.{Understanding}
use alfredo.Tasks.{
  TaskStatus, approved, accepted, TaskRun, Task, Action, Request, Receipt, Snapshot, propose,
  permit, approve, start, finish, review, is_running, max_receipts,
}
use alfredo.Tasks.Queries.{find_task}
use alfredo.Tasks.Apply.{apply}
use alfredo.Tasks.Journal.{Store, empty, has_correlation, ungoverned_failure, validate}
use alfredo.Tasks.Journal.Valid.{upgraded}
use alfredo.Tasks.Capacity.{claims, require_completion_capacity}
use alfredo.Tasks.Guards.{not_opened, check_scope, check_request, migrate}
use alfredo.Tasks.Guards.Retained.{check_evidence, check_policy}
use alfredo.Tasks.Storage.{File, bytes, read_locked}
use alfredo.Tasks.Transact.{
  done, Host, taken, synced, find_receipt, check_revision, prepare, save, transact,
}
use alfredo.Tasks.Transact.Durable.{Outcome, transact-Outcome}
use alfredo.Tasks.Transact.Answers.{transact_readable, acknowledged_durable}
use alfredo.Tasks.Transact.Retry.{retry_same}
use alfredo.Tasks.Transact.Kept.{accepted_stays, reports_have_room}
use alfredo.Tests.{store, json, request, receipt, next_task, accepted_task, second, second_valid}

abbrev no_scope : Understanding
no_scope = record {
  workspace = "/work";
  revision = 0;
  draft_revision = 0;
  brief = none;
  confirmed = false;
}

-- A host whose locks are free, whose encoder gives a fixed size, and which has no evidence file.
abbrev pub host : Host
host = record {
  json = json;
  snapshot_bytes = λ s. ok 1000;
  scope_lock = taken;
  store_lock = taken;
  disk = record {
    scope = ok no_scope;
    evidence_file = λ run. err "no file";
    original = ok "";
    open_backup = λ version. not_opened "no backup";
    sync_directory = ok tt;
    reference_bytes = λ s task evidence. 0;
  };
  write = synced;
}

abbrev file : File
file = bytes 1000 (some second)

-- A third task is proposed; the second request names an old revision.
abbrev proposal : Request
proposal = request 9 "y" (propose "Check it" "model" [])

abbrev late : Request
late = request 3 "z" (propose "Check it" "model" [])

abbrev third : Snapshot
third = record second {
  revision = 10;
  tasks =
      accepted_task
      ∷ next_task approved none
      ∷ record {
        id = 3;
        title = "Check it";
        model = "model";
        dependencies = [];
        status = TaskStatus.proposed;
        policy = none;
        run = none;
        repair_of = none;
      }
      ∷ [];
  receipts = second.receipts ++ receipt 9 "y" 3 (propose "Check it" "model" []) ∷ [];
}

file_reads : read_locked json store file ≡ ok second
unfolding read_locked
file_reads = rw second_valid refl

acknowledged :
    (transact host store file proposal).0
    ≡ done (third, receipt 9 "y" 3 (propose "Check it" "model" []))
unfolding alfredo.Policy.bad_path alfredo.Policy.validate alfredo.Tasks.Task-discrete
    alfredo.Tasks.Apply.dispatch alfredo.Tasks.Architecture.architecture_required
    alfredo.Tasks.Architecture.architecture_obsolete alfredo.Tasks.Architecture.architecture_blocker
    alfredo.Tasks.Edits.edit_task alfredo.Tasks.Edits.approve_task alfredo.Tasks.Edits.permit_task
    alfredo.Tasks.Edits.claimed_run alfredo.Tasks.Edits.bad_result alfredo.Tasks.Edits.finish_task
    alfredo.Tasks.Edits.review_task alfredo.Tasks.Handlers.preamble
    alfredo.Tasks.Handlers.apply_propose alfredo.Tasks.Handlers.apply_permit
    alfredo.Tasks.Journal.schema_checks alfredo.Tasks.Journal.bad_sequence
    alfredo.Tasks.Journal.replay_step alfredo.Tasks.Journal.replay
    alfredo.Tasks.Journal.bad_identity alfredo.Tasks.Journal.validate
    alfredo.Tasks.Queries.resolution_for_family alfredo.Tasks.Runs.check_inputs
    alfredo.Tasks.Runs.check_parent alfredo.Tasks.Runs.start_checks alfredo.Tasks.Runs.start_task
    alfredo.Tasks.Runs.apply_start alfredo.Tasks.Runs.apply_finish alfredo.Text.text_valid
    alfredo.Text.is_hex alfredo.Text.codes_eq alfredo.Text.starts_with alfredo.Text.split
    alfredo.Text.show alfredo.Text.String-discrete alfredo.Base.ℕ_discrete apply empty
    alfredo.Tasks.Queries.dependency_source alfredo.Tasks.Inputs-discrete
    alfredo.Tasks.Queries.plan_for_task read_locked transact prepare check_revision find_receipt
    save check_scope check_request migrate check_evidence check_policy alfredo.Scope.ensure_open
    require_completion_capacity claims alfredo.Tasks.Queries.acceptance_for_task has_correlation
    ungoverned_failure upgraded
acknowledged = refl

new_proposal : find_receipt "y" second.receipts ≡ none
unfolding find_receipt
new_proposal = refl

first_is_accepted : find_task 1 second.tasks ≡ some accepted_task
first_is_accepted = refl

after_reads : read_locked json store (transact host store file proposal).1 ≡ ok third
after_reads =
    (acknowledged_durable host store file proposal third
      (receipt 9 "y" 3 (propose "Check it" "model" [])) acknowledged).0

transact_readable_example :
    (s : Snapshot) × (read_locked json store (transact host store file proposal).1 ≡ ok s)
    × (validate json store s ≡ ok tt)
transact_readable_example = transact_readable host store file proposal second file_reads

acknowledged_durable_example :
    (read_locked json store (transact host store file proposal).1 ≡ ok third)
    × (find_receipt "y" third.receipts ≡ some (receipt 9 "y" 3 (propose "Check it" "model" [])))
    × (proposal ≡ proposal)
acknowledged_durable_example =
    acknowledged_durable host store file proposal third
      (receipt 9 "y" 3 (propose "Check it" "model" [])) acknowledged

retry_same_example : transact host store (transact host store file proposal).1 proposal ≡ (
  done (third, receipt 9 "y" 3 (propose "Check it" "model" [])),
  (transact host store file proposal).1,
)
retry_same_example =
    retry_same host host store file proposal third (receipt 9 "y" 3 (propose "Check it" "model" []))
      acknowledged refl refl refl

accepted_stays_example : find_task 1 third.tasks ≡ some accepted_task
accepted_stays_example =
    accepted_stays host store file proposal second third 1 accepted_task file_reads
      first_is_accepted refl after_reads

reports_have_room_example :
    length third.receipts + count_if (λ t. is_running t.status) third.tasks ≤ max_receipts
reports_have_room_example =
    reports_have_room host store file proposal second third
      (receipt 9 "y" 3 (propose "Check it" "model" [])) file_reads new_proposal refl acknowledged

transact-Outcome_example : Outcome host store file proposal (transact host store file proposal)
transact-Outcome_example = transact-Outcome host store file proposal
