-- ===== src/Tests.antt =====
-- Tests of the task authority on one small mission, and the witnesses of the properties.
pub mod Lifecycle
pub mod Repairs
pub mod Approvals
pub mod Policies
pub mod Admissions
pub mod Understandings
pub mod Rules
pub mod Prompts
pub mod Turns
pub mod Requests
use alfredo.Base.{
  ℕ, ◌+◌, ◌≤◌, String, Bool, true, false, ◌≡◌, ◌≢◌, refl, sym, ap, ◌∙◌, List, [], ◌∷◌, ◌++◌, Option,
  none, some, Result, ok, err,
}
use alfredo.Policy.{WorkPolicy}
use alfredo.Plan.{Json}
use alfredo.Tasks.{
  TaskStatus, approved, running, review_ready, accepted, TaskRun, Task, Action, Request, Receipt,
  Snapshot, propose, permit, approve, start, finish, review, DependencyInput,
}
use alfredo.Tasks.Queries.{find_task}
use alfredo.Tasks.Apply.{apply}
use alfredo.Tasks.Journal.{Store, empty, record_receipt, replay, validate}

abbrev store : Store
store = record { workspace = "/work"; mission = "m" }

-- An encoder for which no plan is too large.
abbrev json : Json
json = record { plan_bytes = λ p. ok 0; context_bytes = λ c. ok 0 }

abbrev policy : WorkPolicy
policy = record { files = "a.rs" ∷ []; check = "cargo" ∷ "test" ∷ [] }

abbrev request : ℕ → String → Action → Request
request n c a = record { correlation = c; expected_revision = n; action = a }

abbrev hex40 : String
hex40 = "0123456789012345678901234567890123456789"

abbrev hex64 : String
hex64 = "0123456789012345678901234567890123456789012345678901234567890123"

abbrev receipt : ℕ → String → ℕ → Action → Receipt
receipt n c task a = record { request = request n c a; revision = n + 1; task = task }

abbrev mission : List Task → List Receipt → ℕ → Snapshot
mission tasks receipts revision = record {
  schema_version = 17;
  workspace = "/work";
  mission = "m";
  revision = revision;
  tasks = tasks;
  receipts = receipts;
}

abbrev first_run : Option String → String → TaskRun
first_run digest detail = record {
  id = "task-1-run-4";
  baseline = hex40;
  inputs = [];
  evidence_sha256 = digest;
  detail = detail;
}

-- The first task of the mission, with its status and its run.
abbrev first : TaskStatus → Option TaskRun → Task
first status run = record {
  id = 1;
  title = "Write it";
  model = "model";
  dependencies = [];
  status = status;
  policy = some policy;
  run = run;
  repair_of = none;
}

abbrev running_task : Task
running_task = first running (some (first_run none "Worker claimed; effects may be in progress"))

abbrev accepted_task : Task
accepted_task = first accepted (some (first_run (some hex64) "done"))

-- The journal up to the approval of the first task, and from its start to its acceptance.
abbrev receipts_to_ready : List Receipt
receipts_to_ready =
    receipt 0 "p" 1 (propose "Write it" "model" [])
    ∷ receipt 1 "q" 1 (permit 1 policy)
    ∷ receipt 2 "r" 1 (approve 1)
    ∷ []

abbrev ready : Snapshot
ready = mission (first approved none ∷ []) receipts_to_ready 3

abbrev receipts_to_accepted : List Receipt
receipts_to_accepted =
    receipt 3 "s" 1 (start 1 hex40 [])
    ∷ receipt 4 "t" 1 (finish 1 "task-1-run-4" review_ready hex64 "done")
    ∷ receipt 5 "u" 1 (review 1 true)
    ∷ []

-- The second task depends on the first.
abbrev next_task : TaskStatus → Option TaskRun → Task
next_task status run = record {
  id = 2;
  title = "Use it";
  model = "model";
  dependencies = 1 ∷ [];
  status = status;
  policy = some policy;
  run = run;
  repair_of = none;
}

abbrev receipts_of_second : List Receipt
receipts_of_second =
    receipt 6 "v" 2 (propose "Use it" "model" (1 ∷ []))
    ∷ receipt 7 "w" 2 (permit 2 policy)
    ∷ receipt 8 "x" 2 (approve 2)
    ∷ []

abbrev second : Snapshot
second =
    mission (accepted_task ∷ next_task approved none ∷ [])
      (receipts_to_ready ++ receipts_to_accepted ++ receipts_of_second) 9

abbrev input : DependencyInput
input = record {
  task = 1;
  source_task = none;
  run = "task-1-run-4";
  evidence_sha256 = hex64;
  candidate = hex40;
}

second_valid : validate json store second ≡ ok tt
unfolding alfredo.Policy.bad_path alfredo.Policy.validate alfredo.Tasks.Task-discrete
    alfredo.Tasks.Apply.dispatch alfredo.Tasks.Architecture.architecture_required
    alfredo.Tasks.Architecture.architecture_obsolete alfredo.Tasks.Architecture.architecture_blocker
    alfredo.Tasks.Edits.edit_task alfredo.Tasks.Edits.approve_task alfredo.Tasks.Edits.permit_task
    alfredo.Tasks.Edits.claimed_run alfredo.Tasks.Edits.bad_result alfredo.Tasks.Edits.finish_task
    alfredo.Tasks.Edits.review_task alfredo.Tasks.Handlers.preamble
    alfredo.Tasks.Handlers.apply_propose alfredo.Tasks.Handlers.apply_permit
    alfredo.Tasks.Journal.schema_checks alfredo.Tasks.Journal.bad_sequence
    alfredo.Tasks.Journal.replay_step alfredo.Tasks.Journal.replay
    alfredo.Tasks.Journal.bad_identity alfredo.Tasks.Journal.validate
    alfredo.Tasks.Queries.resolution_for_family alfredo.Tasks.Runs.check_inputs
    alfredo.Tasks.Runs.check_parent alfredo.Tasks.Runs.start_checks alfredo.Tasks.Runs.start_task
    alfredo.Tasks.Runs.apply_start alfredo.Tasks.Runs.apply_finish alfredo.Text.text_valid
    alfredo.Text.is_hex alfredo.Text.codes_eq alfredo.Text.starts_with alfredo.Text.split
    alfredo.Text.show alfredo.Text.String-discrete alfredo.Base.ℕ_discrete empty apply
second_valid = refl
