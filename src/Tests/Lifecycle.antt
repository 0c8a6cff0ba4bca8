-- ===== src/Tests/Lifecycle.antt =====
-- Witnesses of what the actions and the journal of alfredo-tui/src/tasks.rs keep.
use alfredo.Base.{
  ℕ, ◌+◌, ◌≤◌, String, Bool, true, false, ◌≡◌, ◌≢◌, refl, sym, ap, ◌∙◌, List, [], ◌∷◌, ◌++◌, Option,
  none, some, Result, arith, ok, err, All,
}
use alfredo.Text.{is_hex, text_valid}
use alfredo.Assessment.{is_some}
use alfredo.Tasks.{
  TaskStatus, approved, accepted, running, review_ready, TaskRun, Action, Request, Receipt,
  Snapshot, propose, permit, approve, start, finish, review, DependencyInput, has_evidence,
}
use alfredo.Tasks.Queries.{find_task}
use alfredo.Tasks.Edits.{passed, claimed_run}
use alfredo.Tasks.Apply.{apply}
use alfredo.Tasks.Journal.{Store, empty, has_correlation, ungoverned_failure, validate}
use alfredo.Tasks.Journal.Valid.{upgraded, committed, commit_validates, validate-IsWellFormed}
use alfredo.Tasks.Journal.Backing.{accepted_passed}
use alfredo.Tasks.Lifecycle.WellFormed.{IsWellFormed}
use alfredo.Tasks.Lifecycle.Invariant.{apply-IsWellFormed}
use alfredo.Tasks.Lifecycle.Frozen.{running_needs_start}
use alfredo.Tests.{
  first, store, json, hex40, input, request, ready, second, second_valid, running_task,
  accepted_task, next_task,
}

abbrev started_second : Snapshot × ℕ
started_second = (
  record second {
    tasks =
        accepted_task
        ∷ next_task running (
            some (record {
              id = "task-2-run-10";
              baseline = hex40;
              inputs = input ∷ [];
              evidence_sha256 = none;
              detail = "Worker claimed; effects may be in progress";
            }))
        ∷ [];
  },
  2,
)

second_started : apply json second (start 2 hex40 (input ∷ [])) ≡ ok started_second
unfolding alfredo.Policy.bad_path alfredo.Policy.validate alfredo.Tasks.Task-discrete
    alfredo.Tasks.Apply.dispatch alfredo.Tasks.Architecture.architecture_required
    alfredo.Tasks.Architecture.architecture_obsolete alfredo.Tasks.Architecture.architecture_blocker
    alfredo.Tasks.Edits.edit_task alfredo.Tasks.Edits.approve_task alfredo.Tasks.Edits.permit_task
    alfredo.Tasks.Edits.claimed_run alfredo.Tasks.Edits.bad_result alfredo.Tasks.Edits.finish_task
    alfredo.Tasks.Edits.review_task alfredo.Tasks.Handlers.preamble
    alfredo.Tasks.Handlers.apply_propose alfredo.Tasks.Handlers.apply_permit
    alfredo.Tasks.Journal.schema_checks alfredo.Tasks.Journal.bad_sequence
    alfredo.Tasks.Journal.replay_step alfredo.Tasks.Journal.replay
    alfredo.Tasks.Journal.bad_identity alfredo.Tasks.Journal.validate
    alfredo.Tasks.Queries.resolution_for_family alfredo.Tasks.Runs.check_inputs
    alfredo.Tasks.Runs.check_parent alfredo.Tasks.Runs.start_checks alfredo.Tasks.Runs.start_task
    alfredo.Tasks.Runs.apply_start alfredo.Tasks.Runs.apply_finish alfredo.Text.text_valid
    alfredo.Text.is_hex alfredo.Text.codes_eq alfredo.Text.starts_with alfredo.Text.split
    alfredo.Text.show alfredo.Text.String-discrete alfredo.Base.ℕ_discrete apply empty
    alfredo.Tasks.Queries.dependency_source alfredo.Tasks.Inputs-discrete
    alfredo.Tasks.Queries.plan_for_task
second_started = refl

first_accepted : find_task 1 second.tasks ≡ some accepted_task
unfolding alfredo.Policy.bad_path alfredo.Policy.validate alfredo.Tasks.Task-discrete
    alfredo.Tasks.Apply.dispatch alfredo.Tasks.Architecture.architecture_required
    alfredo.Tasks.Architecture.architecture_obsolete alfredo.Tasks.Architecture.architecture_blocker
    alfredo.Tasks.Edits.edit_task alfredo.Tasks.Edits.approve_task alfredo.Tasks.Edits.permit_task
    alfredo.Tasks.Edits.claimed_run alfredo.Tasks.Edits.bad_result alfredo.Tasks.Edits.finish_task
    alfredo.Tasks.Edits.review_task alfredo.Tasks.Handlers.preamble
    alfredo.Tasks.Handlers.apply_propose alfredo.Tasks.Handlers.apply_permit
    alfredo.Tasks.Journal.schema_checks alfredo.Tasks.Journal.bad_sequence
    alfredo.Tasks.Journal.replay_step alfredo.Tasks.Journal.replay
    alfredo.Tasks.Journal.bad_identity alfredo.Tasks.Journal.validate
    alfredo.Tasks.Queries.resolution_for_family alfredo.Tasks.Runs.check_inputs
    alfredo.Tasks.Runs.check_parent alfredo.Tasks.Runs.start_checks alfredo.Tasks.Runs.start_task
    alfredo.Tasks.Runs.apply_start alfredo.Tasks.Runs.apply_finish alfredo.Text.text_valid
    alfredo.Text.is_hex alfredo.Text.codes_eq alfredo.Text.starts_with alfredo.Text.split
    alfredo.Text.show alfredo.Text.String-discrete alfredo.Base.ℕ_discrete apply empty
    alfredo.Tasks.Queries.dependency_source alfredo.Tasks.Inputs-discrete
    alfredo.Tasks.Queries.plan_for_task
first_accepted = refl

first_started :
    apply json ready (start 1 hex40 []) ≡ ok (record ready { tasks = running_task ∷ [] }, 1)
unfolding alfredo.Policy.bad_path alfredo.Policy.validate alfredo.Tasks.Task-discrete
    alfredo.Tasks.Apply.dispatch alfredo.Tasks.Architecture.architecture_required
    alfredo.Tasks.Architecture.architecture_obsolete alfredo.Tasks.Architecture.architecture_blocker
    alfredo.Tasks.Edits.edit_task alfredo.Tasks.Edits.approve_task alfredo.Tasks.Edits.permit_task
    alfredo.Tasks.Edits.claimed_run alfredo.Tasks.Edits.bad_result alfredo.Tasks.Edits.finish_task
    alfredo.Tasks.Edits.review_task alfredo.Tasks.Handlers.preamble
    alfredo.Tasks.Handlers.apply_propose alfredo.Tasks.Handlers.apply_permit
    alfredo.Tasks.Journal.schema_checks alfredo.Tasks.Journal.bad_sequence
    alfredo.Tasks.Journal.replay_step alfredo.Tasks.Journal.replay
    alfredo.Tasks.Journal.bad_identity alfredo.Tasks.Journal.validate
    alfredo.Tasks.Queries.resolution_for_family alfredo.Tasks.Runs.check_inputs
    alfredo.Tasks.Runs.check_parent alfredo.Tasks.Runs.start_checks alfredo.Tasks.Runs.start_task
    alfredo.Tasks.Runs.apply_start alfredo.Tasks.Runs.apply_finish alfredo.Text.text_valid
    alfredo.Text.is_hex alfredo.Text.codes_eq alfredo.Text.starts_with alfredo.Text.split
    alfredo.Text.show alfredo.Text.String-discrete alfredo.Base.ℕ_discrete apply empty
    alfredo.Tasks.Queries.dependency_source alfredo.Tasks.Inputs-discrete
    alfredo.Tasks.Queries.plan_for_task
first_started = refl

ready_valid : validate json store ready ≡ ok tt
unfolding alfredo.Policy.bad_path alfredo.Policy.validate alfredo.Tasks.Task-discrete
    alfredo.Tasks.Apply.dispatch alfredo.Tasks.Architecture.architecture_required
    alfredo.Tasks.Architecture.architecture_obsolete alfredo.Tasks.Architecture.architecture_blocker
    alfredo.Tasks.Edits.edit_task alfredo.Tasks.Edits.approve_task alfredo.Tasks.Edits.permit_task
    alfredo.Tasks.Edits.claimed_run alfredo.Tasks.Edits.bad_result alfredo.Tasks.Edits.finish_task
    alfredo.Tasks.Edits.review_task alfredo.Tasks.Handlers.preamble
    alfredo.Tasks.Handlers.apply_propose alfredo.Tasks.Handlers.apply_permit
    alfredo.Tasks.Journal.schema_checks alfredo.Tasks.Journal.bad_sequence
    alfredo.Tasks.Journal.replay_step alfredo.Tasks.Journal.replay
    alfredo.Tasks.Journal.bad_identity alfredo.Tasks.Journal.validate
    alfredo.Tasks.Queries.resolution_for_family alfredo.Tasks.Runs.check_inputs
    alfredo.Tasks.Runs.check_parent alfredo.Tasks.Runs.start_checks alfredo.Tasks.Runs.start_task
    alfredo.Tasks.Runs.apply_start alfredo.Tasks.Runs.apply_finish alfredo.Text.text_valid
    alfredo.Text.is_hex alfredo.Text.codes_eq alfredo.Text.starts_with alfredo.Text.split
    alfredo.Text.show alfredo.Text.String-discrete alfredo.Base.ℕ_discrete apply empty
    alfredo.Tasks.Queries.dependency_source alfredo.Tasks.Inputs-discrete
    alfredo.Tasks.Queries.plan_for_task
ready_valid = refl

validate-IsWellFormed_example : IsWellFormed second
validate-IsWellFormed_example = validate-IsWellFormed json store second second_valid

apply-IsWellFormed_example : IsWellFormed started_second.0
apply-IsWellFormed_example =
    apply-IsWellFormed json second (start 2 hex40 (input ∷ [])) started_second
      (validate-IsWellFormed json store second second_valid) second_started

accepted_passed_example :
    (is_some accepted_task.policy ≡ true)
    × (has_evidence accepted_task.run ≡ true)
    × ((run : TaskRun) × (accepted_task.run ≡ some run) × (passed second.receipts 1 run.id ≡ true))
accepted_passed_example =
    accepted_passed json store second 1 accepted_task second_valid first_accepted refl

running_needs_start_example :
    (baseline : String) × (inputs : List DependencyInput) × (start 1 hex40 []
      ≡ start 1 baseline inputs)
    × (running_task.run ≡ some (claimed_run 1 ready.revision baseline inputs))
running_needs_start_example =
    running_needs_start json ready (start 1 hex40 [])
      (record ready { tasks = running_task ∷ [] }, 1) 1 (first approved none) running_task refl
      (λ h. ground arith) first_started refl refl

start_after_upgrade : apply json (upgraded second) (start 2 hex40 (input ∷ [])) ≡ ok started_second
unfolding upgraded alfredo.Policy.bad_path alfredo.Policy.validate alfredo.Tasks.Task-discrete
    alfredo.Tasks.Apply.dispatch alfredo.Tasks.Architecture.architecture_required
    alfredo.Tasks.Architecture.architecture_obsolete alfredo.Tasks.Architecture.architecture_blocker
    alfredo.Tasks.Edits.edit_task alfredo.Tasks.Edits.approve_task alfredo.Tasks.Edits.permit_task
    alfredo.Tasks.Edits.claimed_run alfredo.Tasks.Edits.bad_result alfredo.Tasks.Edits.finish_task
    alfredo.Tasks.Edits.review_task alfredo.Tasks.Handlers.preamble
    alfredo.Tasks.Handlers.apply_propose alfredo.Tasks.Handlers.apply_permit
    alfredo.Tasks.Journal.schema_checks alfredo.Tasks.Journal.bad_sequence
    alfredo.Tasks.Journal.replay_step alfredo.Tasks.Journal.replay
    alfredo.Tasks.Journal.bad_identity alfredo.Tasks.Journal.validate
    alfredo.Tasks.Queries.resolution_for_family alfredo.Tasks.Runs.check_inputs
    alfredo.Tasks.Runs.check_parent alfredo.Tasks.Runs.start_checks alfredo.Tasks.Runs.start_task
    alfredo.Tasks.Runs.apply_start alfredo.Tasks.Runs.apply_finish alfredo.Text.text_valid
    alfredo.Text.is_hex alfredo.Text.codes_eq alfredo.Text.starts_with alfredo.Text.split
    alfredo.Text.show alfredo.Text.String-discrete alfredo.Base.ℕ_discrete apply empty
    alfredo.Tasks.Queries.dependency_source alfredo.Tasks.Inputs-discrete
    alfredo.Tasks.Queries.plan_for_task
start_after_upgrade = refl

fresh_y : (text_valid "y" 160 ≡ true) × (has_correlation "y" second.receipts ≡ false)
unfolding has_correlation alfredo.Policy.bad_path alfredo.Policy.validate
    alfredo.Tasks.Task-discrete alfredo.Tasks.Apply.dispatch
    alfredo.Tasks.Architecture.architecture_required
    alfredo.Tasks.Architecture.architecture_obsolete alfredo.Tasks.Architecture.architecture_blocker
    alfredo.Tasks.Edits.edit_task alfredo.Tasks.Edits.approve_task alfredo.Tasks.Edits.permit_task
    alfredo.Tasks.Edits.claimed_run alfredo.Tasks.Edits.bad_result alfredo.Tasks.Edits.finish_task
    alfredo.Tasks.Edits.review_task alfredo.Tasks.Handlers.preamble
    alfredo.Tasks.Handlers.apply_propose alfredo.Tasks.Handlers.apply_permit
    alfredo.Tasks.Journal.schema_checks alfredo.Tasks.Journal.bad_sequence
    alfredo.Tasks.Journal.replay_step alfredo.Tasks.Journal.replay
    alfredo.Tasks.Journal.bad_identity alfredo.Tasks.Journal.validate
    alfredo.Tasks.Queries.resolution_for_family alfredo.Tasks.Runs.check_inputs
    alfredo.Tasks.Runs.check_parent alfredo.Tasks.Runs.start_checks alfredo.Tasks.Runs.start_task
    alfredo.Tasks.Runs.apply_start alfredo.Tasks.Runs.apply_finish alfredo.Text.text_valid
    alfredo.Text.is_hex alfredo.Text.codes_eq alfredo.Text.starts_with alfredo.Text.split
    alfredo.Text.show alfredo.Text.String-discrete alfredo.Base.ℕ_discrete apply empty
    alfredo.Tasks.Queries.dependency_source alfredo.Tasks.Inputs-discrete
    alfredo.Tasks.Queries.plan_for_task
fresh_y = (refl, refl)

governed_start : ungoverned_failure (start 2 hex40 (input ∷ [])) ≡ false
unfolding ungoverned_failure
governed_start = refl

commit_validates_example :
    validate json store (committed started_second (request 9 "y" (start 2 hex40 (input ∷ []))))
    ≡ ok tt
commit_validates_example =
    commit_validates json store second (request 9 "y" (start 2 hex40 (input ∷ []))) started_second
      second_valid fresh_y.0 fresh_y.1 refl governed_start refl start_after_upgrade
