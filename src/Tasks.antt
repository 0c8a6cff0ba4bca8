-- ===== src/Tasks.antt =====
-- The task authority of a mission: the types of alfredo-tui/src/tasks.rs, and the tests that it
-- makes on one task. The children hold the queries on a snapshot, the handlers of `apply`, the
-- replay of the journal, the transaction, and what is proved of them.
pub mod Queries
pub mod Architecture
pub mod Edits
pub mod Handlers
pub mod Runs
pub mod Apply
pub mod Lifecycle
pub mod Journal
pub mod Evidence
pub mod Capacity
pub mod Guards
pub mod Storage
pub mod Transact
use alfredo.Base.{
  ℕ, String, Bool, true, false, not, ◌&&◌, ◌||◌, List, Option, none, some, ◌==◌, ℕ_discrete,
}
use alfredo.Text.{String-discrete}
use alfredo.Policy.{WorkPolicy}
use alfredo.Assessment.{Assessment, Decision, is_some}
use alfredo.Plan.{Plan, Plan-discrete}

pub data TaskStatus : Type 0 where
  proposed approved cancelled running review_ready needs_human_review accepted failed rejected :
      TaskStatus

pub record DependencyInput : Type 0 where
  pub task : ℕ
  pub source_task : Option ℕ
  pub run : String
  pub evidence_sha256 : String
  pub candidate : String

pub record TaskRun : Type 0 where
  pub id : String
  pub baseline : String
  pub inputs : List DependencyInput
  pub evidence_sha256 : Option String
  pub detail : String

pub record Task : Type 0 where
  pub id : ℕ
  pub title : String
  pub model : String
  pub dependencies : List ℕ
  pub status : TaskStatus
  pub policy : Option WorkPolicy
  pub run : Option TaskRun
  pub repair_of : Option ℕ

pub data Action : Type 0 where
  review_architecture : ℕ → Decision → Action
  resolve_repair : ℕ → Action
  assign : ℕ → String → Action
  plan : Plan → Action
  branch : ℕ → String → String → Action
  repair : ℕ → String → Action
  propose : String → String → List ℕ → Action
  approve : ℕ → Action
  cancel : ℕ → Action
  requeue : ℕ → Action
  permit : ℕ → WorkPolicy → Action
  start : ℕ → String → List DependencyInput → Action
  finish : ℕ → String → TaskStatus → String → String → Action
  review_and_repair : ℕ → Decision → Action
  decide : ℕ → Decision → Action
  assess : ℕ → Assessment → Action
  review : ℕ → Bool → Action

pub record Request : Type 0 where
  pub correlation : String
  pub expected_revision : ℕ
  pub action : Action

pub record Receipt : Type 0 where
  pub request : Request
  pub revision : ℕ
  pub task : ℕ

pub record Snapshot : Type 0 where
  pub schema_version : ℕ
  pub workspace : String
  pub mission : String
  pub revision : ℕ
  pub tasks : List Task
  pub receipts : List Receipt

abbrev pub schema_version : ℕ
schema_version = 17

abbrev pub max_tasks : ℕ
max_tasks = 256

abbrev pub max_receipts : ℕ
max_receipts = 4096

-- The comparisons and `matches!` tests on a status.
abbrev pub is_proposed : TaskStatus → Bool
is_proposed proposed = true
is_proposed _ = false

abbrev pub is_approved : TaskStatus → Bool
is_approved approved = true
is_approved _ = false

abbrev pub is_cancelled : TaskStatus → Bool
is_cancelled cancelled = true
is_cancelled _ = false

abbrev pub is_running : TaskStatus → Bool
is_running running = true
is_running _ = false

abbrev pub is_review_ready : TaskStatus → Bool
is_review_ready review_ready = true
is_review_ready _ = false

abbrev pub is_held : TaskStatus → Bool
is_held needs_human_review = true
is_held _ = false

abbrev pub is_accepted : TaskStatus → Bool
is_accepted accepted = true
is_accepted _ = false

abbrev pub is_rejected : TaskStatus → Bool
is_rejected rejected = true
is_rejected _ = false

-- `Proposed | Approved`
abbrev pub is_open : TaskStatus → Bool
is_open proposed = true
is_open approved = true
is_open _ = false

-- `Proposed | Approved | Running | ReviewReady`
abbrev pub is_outstanding : TaskStatus → Bool
is_outstanding proposed = true
is_outstanding approved = true
is_outstanding running = true
is_outstanding review_ready = true
is_outstanding _ = false

-- The same with `NeedsHumanReview`.
abbrev pub is_unresolved : TaskStatus → Bool
is_unresolved status = is_outstanding status || is_held status

-- `Failed | Rejected | Cancelled`
abbrev pub is_unsuccessful : TaskStatus → Bool
is_unsuccessful failed = true
is_unsuccessful rejected = true
is_unsuccessful cancelled = true
is_unsuccessful _ = false

-- `ReviewReady | Failed | Cancelled`: what a worker may report.
abbrev pub is_result : TaskStatus → Bool
is_result review_ready = true
is_result failed = true
is_result cancelled = true
is_result _ = false

-- `ReviewReady | Failed | NeedsHumanReview`: what a reviewer may judge.
abbrev pub is_judgeable : TaskStatus → Bool
is_judgeable review_ready = true
is_judgeable failed = true
is_judgeable needs_human_review = true
is_judgeable _ = false

abbrev pub some_is : Option ℕ → ℕ → Bool
some_is none n = false
some_is (some m) n = m == n

-- `run.as_ref().and_then(|r| r.evidence_sha256.as_ref()).is_some()`
abbrev pub has_evidence : Option TaskRun → Bool
has_evidence none = false
has_evidence (some r) = is_some r.evidence_sha256

-- `DependencyInput::source_id`
abbrev pub source_id : DependencyInput → ℕ
source_id i = elim i.source_task [ none ↦ i.task | some source ↦ source ]

-- `Task::can_review`, `can_requeue` and `can_repair`.
abbrev pub can_review : Task → Bool
can_review t = is_review_ready t.status

abbrev pub can_requeue : Task → Bool
can_requeue t = is_cancelled t.status && is_some t.run && is_some t.policy

abbrev pub can_repair : Task → Bool
can_repair t = is_unsuccessful t.status && is_some t.policy && has_evidence t.run

unfoldable pub Inputs-discrete : Discrete (List DependencyInput)
Inputs-discrete = hlevel (ℕ_discrete, String-discrete)

unfoldable pub Task-discrete : Discrete (List Task)
Task-discrete = hlevel (ℕ_discrete, String-discrete)

unfoldable pub Request-discrete : Discrete Request
unfolding Plan-discrete
Request-discrete = hlevel (ℕ_discrete, String-discrete, Plan-discrete)
