-- ===== src/Tests/Approvals.antt =====
-- Witness that a new approval needs a policy, `transact_checked` of alfredo-tui/src/tasks.rs.
use alfredo.Base.{
  ℕ, ◌+◌, ◌≤◌, String, Bool, true, false, ◌≡◌, ◌≢◌, refl, sym, ap, ◌∙◌, List, [], ◌∷◌, ◌++◌, Option,
  none, some, Result, ok, err, arith, length, count_if,
}
use alfredo.Text.{text_valid}
use alfredo.Scope.{Understanding}
use alfredo.Tasks.{
  TaskStatus, approved, accepted, TaskRun, Task, Action, Request, Receipt, Snapshot, propose,
  permit, approve, start, finish, review, is_running, max_receipts,
}
use alfredo.Tasks.Queries.{find_task}
use alfredo.Tasks.Apply.{apply}
use alfredo.Tasks.Journal.{Store, empty, has_correlation, ungoverned_failure, validate}
use alfredo.Tasks.Journal.Valid.{upgraded}
use alfredo.Tasks.Capacity.{claims, require_completion_capacity}
use alfredo.Tasks.Guards.{check_scope, check_request, migrate}
use alfredo.Tasks.Guards.Retained.{check_evidence, check_policy}
use alfredo.Tasks.Storage.{File, bytes, read_locked}
use alfredo.Tasks.Transact.{done, find_receipt, check_revision, prepare, save, transact}
use alfredo.Assessment.{is_some}
use alfredo.Tasks.{is_proposed}
use alfredo.Tasks.Edits.{set_task}
use alfredo.Tasks.Transact.Approval.{approval_permitted}
use alfredo.Tests.{store, json, policy, request, receipt, mission, first}
use alfredo.Tests.Requests.{host}

-- The mission when the first task has its policy, and when it is approved.
abbrev permitted : Snapshot
permitted =
    mission (first TaskStatus.proposed none ∷ [])
      (receipt 0 "p" 1 (propose "Write it" "model" []) ∷ receipt 1 "q" 1 (permit 1 policy) ∷ []) 2

abbrev approval : Request
approval = request 2 "r" (approve 1)

abbrev approved_mission : Snapshot
approved_mission =
    mission (first approved none ∷ []) (permitted.receipts ++ receipt 2 "r" 1 (approve 1) ∷ []) 3

abbrev permitted_file : File
permitted_file = bytes 1000 (some permitted)

permitted_reads : read_locked json store permitted_file ≡ ok permitted
unfolding alfredo.Policy.bad_path alfredo.Policy.validate alfredo.Tasks.Task-discrete
    alfredo.Tasks.Apply.dispatch alfredo.Tasks.Architecture.architecture_required
    alfredo.Tasks.Architecture.architecture_obsolete alfredo.Tasks.Architecture.architecture_blocker
    alfredo.Tasks.Edits.edit_task alfredo.Tasks.Edits.approve_task alfredo.Tasks.Edits.permit_task
    alfredo.Tasks.Edits.claimed_run alfredo.Tasks.Edits.bad_result alfredo.Tasks.Edits.finish_task
    alfredo.Tasks.Edits.review_task alfredo.Tasks.Handlers.preamble
    alfredo.Tasks.Handlers.apply_propose alfredo.Tasks.Handlers.apply_permit
    alfredo.Tasks.Journal.schema_checks alfredo.Tasks.Journal.bad_sequence
    alfredo.Tasks.Journal.replay_step alfredo.Tasks.Journal.replay
    alfredo.Tasks.Journal.bad_identity alfredo.Tasks.Journal.validate
    alfredo.Tasks.Queries.resolution_for_family alfredo.Tasks.Runs.check_inputs
    alfredo.Tasks.Runs.check_parent alfredo.Tasks.Runs.start_checks alfredo.Tasks.Runs.start_task
    alfredo.Tasks.Runs.apply_start alfredo.Tasks.Runs.apply_finish alfredo.Text.text_valid
    alfredo.Text.is_hex alfredo.Text.codes_eq alfredo.Text.starts_with alfredo.Text.split
    alfredo.Text.show alfredo.Text.String-discrete alfredo.Base.ℕ_discrete apply empty
    alfredo.Tasks.Queries.dependency_source alfredo.Tasks.Inputs-discrete
    alfredo.Tasks.Queries.plan_for_task read_locked transact prepare check_revision find_receipt
    save check_scope check_request migrate check_evidence check_policy alfredo.Scope.ensure_open
    require_completion_capacity claims alfredo.Tasks.Queries.acceptance_for_task has_correlation
    ungoverned_failure upgraded
permitted_reads = refl

acknowledged_approval :
    (transact host store permitted_file approval).0
    ≡ done (approved_mission, receipt 2 "r" 1 (approve 1))
unfolding alfredo.Policy.bad_path alfredo.Policy.validate alfredo.Tasks.Task-discrete
    alfredo.Tasks.Apply.dispatch alfredo.Tasks.Architecture.architecture_required
    alfredo.Tasks.Architecture.architecture_obsolete alfredo.Tasks.Architecture.architecture_blocker
    alfredo.Tasks.Edits.edit_task alfredo.Tasks.Edits.approve_task alfredo.Tasks.Edits.permit_task
    alfredo.Tasks.Edits.claimed_run alfredo.Tasks.Edits.bad_result alfredo.Tasks.Edits.finish_task
    alfredo.Tasks.Edits.review_task alfredo.Tasks.Handlers.preamble
    alfredo.Tasks.Handlers.apply_propose alfredo.Tasks.Handlers.apply_permit
    alfredo.Tasks.Journal.schema_checks alfredo.Tasks.Journal.bad_sequence
    alfredo.Tasks.Journal.replay_step alfredo.Tasks.Journal.replay
    alfredo.Tasks.Journal.bad_identity alfredo.Tasks.Journal.validate
    alfredo.Tasks.Queries.resolution_for_family alfredo.Tasks.Runs.check_inputs
    alfredo.Tasks.Runs.check_parent alfredo.Tasks.Runs.start_checks alfredo.Tasks.Runs.start_task
    alfredo.Tasks.Runs.apply_start alfredo.Tasks.Runs.apply_finish alfredo.Text.text_valid
    alfredo.Text.is_hex alfredo.Text.codes_eq alfredo.Text.starts_with alfredo.Text.split
    alfredo.Text.show alfredo.Text.String-discrete alfredo.Base.ℕ_discrete apply empty
    alfredo.Tasks.Queries.dependency_source alfredo.Tasks.Inputs-discrete
    alfredo.Tasks.Queries.plan_for_task read_locked transact prepare check_revision find_receipt
    save check_scope check_request migrate check_evidence check_policy alfredo.Scope.ensure_open
    require_completion_capacity claims alfredo.Tasks.Queries.acceptance_for_task has_correlation
    ungoverned_failure upgraded
acknowledged_approval = refl

new_approval : find_receipt "r" permitted.receipts ≡ none
unfolding find_receipt
new_approval = refl

approval_permitted_example :
    (t : Task) × (find_task 1 permitted.tasks ≡ some t)
    × (is_proposed t.status ≡ true)
    × (is_some t.policy ≡ true)
    × (approved_mission.tasks ≡ set_task 1 (record t { status = approved }) permitted.tasks)
approval_permitted_example =
    approval_permitted host store permitted_file approval 1 permitted approved_mission
      (receipt 2 "r" 1 (approve 1)) refl permitted_reads new_approval acknowledged_approval
