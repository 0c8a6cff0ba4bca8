-- ===== src/Tasks/Journal.antt =====
-- `TaskStore::validate` of alfredo-tui/src/tasks.rs: a stored snapshot is believed only if the
-- replay of its receipts proves it.
pub mod Replay
pub mod Valid
pub mod Backing
use text.Mathlib.Text.{◌==◌ as str_eq}
use alfredo.Base.{
  ℕ, suc, zero, ◌+◌, String, Bool, true, false, not, ◌&&◌, ◌||◌, List, [], ◌∷◌, ◌++◌, Option, none,
  some, Result, ok, err, ◌>>=◌, ◌>>◌, refuse_if, any, all, ltb, leb, ◌==◌, length, is_empty, is_yes,
}
use alfredo.Text.{text_valid, between}
use alfredo.Assessment.{Decision, is_some, proposes_repair}
use alfredo.Plan.{Plan, Json}
use alfredo.Tasks.{
  Action, Receipt, Request, Snapshot, review_architecture, resolve_repair, assign, plan, branch,
  repair, propose, approve, cancel, requeue, start, review_and_repair, decide, assess,
  schema_version, max_tasks, max_receipts, Task-discrete,
}
use alfredo.Tasks.Apply.{apply}

-- The identity of a mission's store.
pub record Store : Type 0 where
  pub workspace : String
  pub mission : String

unfoldable pub empty : Store → Snapshot
empty store = record {
  schema_version = schema_version;
  workspace = store.workspace;
  mission = store.mission;
  revision = 0;
  tasks = [];
  receipts = [];
}

-- The `matches!` tests on an action.
abbrev on_plan : (Plan → Bool) → Action → Bool
on_plan f (plan p) = f p
on_plan f _ = false

abbrev is_assign : Action → Bool
is_assign (assign task model) = true
is_assign _ = false

abbrev is_branch : Action → Bool
is_branch (branch task name commit) = true
is_branch _ = false

abbrev is_repair : Action → Bool
is_repair (repair task reason) = true
is_repair _ = false

abbrev starts_with_inputs : Action → Bool
starts_with_inputs (start task baseline inputs) = not (is_empty inputs)
starts_with_inputs _ = false

abbrev starts_with_source : Action → Bool
starts_with_source (start task baseline inputs) = any (λ i. is_some i.source_task) inputs
starts_with_source _ = false

abbrev is_legacy : Action → Bool
is_legacy (propose title model dependencies) = true
is_legacy (approve task) = true
is_legacy (cancel task) = true
is_legacy _ = false

-- `Decide | ReviewAndRepair` with a decision that passes `f`.
abbrev pub on_decision : (Decision → Bool) → Action → Bool
on_decision f (decide task d) = f d
on_decision f (review_and_repair task d) = f d
on_decision f _ = false

abbrev on_decide : (Decision → Bool) → Action → Bool
on_decide f (decide task d) = f d
on_decide f _ = false

abbrev is_requeue : Action → Bool
is_requeue (requeue task) = true
is_requeue _ = false

abbrev is_route : Action → Bool
is_route (review_architecture task d) = true
is_route _ = false

abbrev is_resolve : Action → Bool
is_resolve (resolve_repair task) = true
is_resolve _ = false

abbrev is_review_and_repair : Action → Bool
is_review_and_repair (review_and_repair task d) = true
is_review_and_repair _ = false

abbrev is_assess : Action → Bool
is_assess (assess task a) = true
is_assess _ = false

-- A failure that must go through `ReviewArchitecture`.
unfoldable pub ungoverned_failure : Action → Bool
ungoverned_failure = on_decision (λ d. is_some d.failure && proposes_repair d)

-- What a store of an older schema may not hold.
unfoldable pub schema_checks : ℕ → Action → Result (Unit {0})
unfolding ungoverned_failure
schema_checks v a = do
  refuse_if (ltb v 9 && on_plan (λ p. is_some p.scope) a) "Plan scope binding requires schema v9"
  refuse_if (ltb v 8 && on_plan (λ p. is_some p.context) a)
      "Repository plan context requires schema v8"
  refuse_if (ltb v 7 && is_assign a) "Assignment receipts require schema v7"
  refuse_if (ltb v 6 && on_plan (λ p. true) a) "Plan receipts require schema v6"
  refuse_if (ltb v 5 && is_branch a) "Branch receipts require schema v5"
  refuse_if (ltb v 4 && starts_with_inputs a) "Dependency inputs require task schema v4"
  refuse_if (ltb v 3 && is_repair a) "Repair receipts require task schema v3"
  refuse_if ((v == 1) && not (is_legacy a)) "Legacy task state cannot grant execution permissions"
  refuse_if (ungoverned_failure a) "Architecture failure requires its governed review route"
  refuse_if (ltb v 17 && is_requeue a) "Requeue requires task schema v17"
  refuse_if
      (ltb v 16
        && (is_route a
            || on_decision (λ d. is_some d.failure) a
            || on_plan (λ p. is_some p.architecture) a))
      "Architect routing requires task schema v16"
  refuse_if (ltb v 15 && (is_resolve a || starts_with_source a))
      "Repair resolution requires task schema v15"
  refuse_if (ltb v 14 && is_review_and_repair a) "Atomic review and repair requires task schema v14"
  refuse_if (ltb v 13 && on_decide (λ d. is_some d.risk) a)
      "Review risk classification requires task schema v13"
  refuse_if (ltb v 12 && on_decide (λ d. true) a) "Review outcomes require task schema v12"
  refuse_if (ltb v 11 && is_assess a) "Criterion review requires task schema v11"
  refuse_if (ltb v 10 && on_plan (λ p. any (λ step. not (is_empty step.acceptance)) p.tasks) a)
      "Plan acceptance criteria require schema v10"

-- `receipt.request.correlation` is among those of the receipts.
unfoldable pub has_correlation : String → List Receipt → Bool
has_correlation c receipts = any (λ r. str_eq r.request.correlation c) receipts

-- The receipt continues the journal. The set `correlations` of the source holds those of the
-- receipts that were replayed, which are `proof.receipts`.
unfoldable pub bad_sequence : Snapshot → Receipt → Bool
unfolding has_correlation
bad_sequence proof r =
    not (text_valid r.request.correlation 160)
    || has_correlation r.request.correlation proof.receipts
    || not (r.request.expected_revision == proof.revision)
    || not (r.revision == proof.revision + 1)

-- `proof.revision += 1; proof.receipts.push(receipt)`
abbrev pub record_receipt : Snapshot → Receipt → Snapshot
record_receipt s r = record s { revision = s.revision + 1; receipts = s.receipts ++ r ∷ [] }

unfoldable pub replay_step : Json → ℕ → Snapshot → Receipt → Result Snapshot
replay_step json v proof r = do
  schema_checks v r.request.action
  refuse_if (bad_sequence proof r) "Task receipt sequence is invalid"
  applied ← apply json proof r.request.action
  refuse_if (not (applied.1 == r.task)) "Task receipt target is invalid"
  ok (record_receipt applied.0 r)

unfoldable pub replay : Json → ℕ → Snapshot → List Receipt → Result Snapshot
replay json v proof [] = ok proof
replay json v proof (r ∷ rs) = do proof' ← replay_step json v proof r; replay json v proof' rs

unfoldable pub bad_identity : Store → Snapshot → Bool
bad_identity store s =
    not (between 1 schema_version s.schema_version)
    || not (str_eq s.workspace store.workspace)
    || not (str_eq s.mission store.mission)
    || ltb max_tasks (length s.tasks)
    || ltb max_receipts (length s.receipts)
    || not (s.revision == length s.receipts)

unfoldable pub validate : Json → Store → Snapshot → Result (Unit {0})
validate json store s = do
  refuse_if (bad_identity store s) "Task state identity, version or bounds are invalid"
  proof ← replay json s.schema_version (empty store) s.receipts
  refuse_if (not (is_yes (Task-discrete proof.tasks s.tasks)))
      "Task state does not match its receipts"
