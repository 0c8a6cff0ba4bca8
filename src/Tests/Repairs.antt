-- ===== src/Tests/Repairs.antt =====
-- Witnesses of what holds of repair lineages in alfredo-tui/src/tasks.rs.
use alfredo.Base.{
  ℕ, ◌+◌, ◌≤◌, ◌<◌, String, Bool, true, false, ◌≡◌, ◌↔◌, refl, List, [], ◌∷◌, ◌++◌, Option, none,
  some, Result, ok, err, arith, length, any, ◌&&◌,
}
use alfredo.Assessment.{is_some}
use alfredo.Tasks.{
  TaskStatus, rejected, accepted, TaskRun, Task, Action, Snapshot, resolve_repair, is_accepted,
  is_unresolved,
}
use alfredo.Tasks.Queries.{
  find_task, is_ancestor, repair_root, has_root, resolution_for_family, acceptance_for_task,
  resolved_by,
}
use alfredo.Tasks.Queries.Lineage.{Ancestor, repair_root_total, is_ancestor_iff}
use alfredo.Tasks.Apply.{apply, apply_resolve, resolve_checks, check_ancestors}
use alfredo.Tasks.Apply.Resolution.{IsFailed, resolved_lineage, resolution_fuel}
use alfredo.Tasks.Lifecycle.WellFormed.{IsWellFormed}
use alfredo.Tests.{json, hex64, policy, mission, first, first_run}

-- The repair of the first task, accepted after the first was rejected.
abbrev repair_task : Task
repair_task = record {
  id = 2;
  title = "Repair #1: again";
  model = "model";
  dependencies = [];
  status = accepted;
  policy = some policy;
  run = some (record (first_run (some hex64) "done") { id = "task-2-run-8" });
  repair_of = some 1;
}

abbrev repaired : Snapshot
repaired = mission (first rejected (some (first_run (some hex64) "done")) ∷ repair_task ∷ []) [] 0

abbrev resolved_out : Snapshot × ℕ
resolved_out = (repaired, 2)

repaired-IsWellFormed : IsWellFormed repaired
repaired-IsWellFormed = record {
  numbered = (refl, (tt, tt), (refl, (tt, (ground arith, ground arith)), tt));
  lawful = (refl, (refl, tt));
  bounded = ground arith;
}

repair_resolves : apply json repaired (resolve_repair 2) ≡ ok (repaired, 2)
unfolding alfredo.Policy.bad_path alfredo.Policy.validate alfredo.Tasks.Task-discrete
    alfredo.Tasks.Apply.dispatch alfredo.Tasks.Architecture.architecture_required
    alfredo.Tasks.Architecture.architecture_obsolete alfredo.Tasks.Architecture.architecture_blocker
    alfredo.Tasks.Edits.edit_task alfredo.Tasks.Edits.approve_task alfredo.Tasks.Edits.permit_task
    alfredo.Tasks.Edits.claimed_run alfredo.Tasks.Edits.bad_result alfredo.Tasks.Edits.finish_task
    alfredo.Tasks.Edits.review_task alfredo.Tasks.Handlers.preamble
    alfredo.Tasks.Handlers.apply_propose alfredo.Tasks.Handlers.apply_permit
    alfredo.Tasks.Journal.schema_checks alfredo.Tasks.Journal.bad_sequence
    alfredo.Tasks.Journal.replay_step alfredo.Tasks.Journal.replay
    alfredo.Tasks.Journal.bad_identity alfredo.Tasks.Journal.validate
    alfredo.Tasks.Queries.resolution_for_family alfredo.Tasks.Runs.check_inputs
    alfredo.Tasks.Runs.check_parent alfredo.Tasks.Runs.start_checks alfredo.Tasks.Runs.start_task
    alfredo.Tasks.Runs.apply_start alfredo.Tasks.Runs.apply_finish alfredo.Text.text_valid
    alfredo.Text.is_hex alfredo.Text.codes_eq alfredo.Text.starts_with alfredo.Text.split
    alfredo.Text.show alfredo.Text.String-discrete alfredo.Base.ℕ_discrete apply
    alfredo.Tasks.Queries.dependency_source alfredo.Tasks.Inputs-discrete
    alfredo.Tasks.Queries.plan_for_task apply_resolve resolve_checks repair_root has_root
    acceptance_for_task
repair_resolves = refl

repair_root_total_example :
    (root : ℕ) × (r : Task) × (repair_root repaired 2 ≡ some root)
    × (find_task root repaired.tasks ≡ some r)
    × (r.repair_of ≡ none)
    × (root ≤ 2)
repair_root_total_example =
    repair_root_total repaired 2 repaired-IsWellFormed (ground arith) (ground arith)

is_ancestor_iff_example :
    (is_ancestor repaired.tasks (length repaired.tasks) 2 1 ≡ true) ↔ Ancestor repaired.tasks 1 2
is_ancestor_iff_example = is_ancestor_iff repaired 2 1 repaired-IsWellFormed (ground arith)

resolved_lineage_example :
    (resolved_out ≡ (repaired, 2))
    × (resolution_for_family repaired 2 ≡ none)
    × ((t : Task) × (root : ℕ) × (find_task 2 repaired.tasks ≡ some t)
        × (is_accepted t.status ≡ true)
        × (is_some t.repair_of ≡ true)
        × (repair_root repaired 2 ≡ some root)
        × (any (λ u. has_root repaired root u.id && is_unresolved u.status) repaired.tasks ≡ false))
    × ((id : ℕ) (u : Task)
        → Ancestor repaired.tasks id 2
        → find_task id repaired.tasks ≡ some u
        → IsFailed u)
resolved_lineage_example = resolved_lineage json repaired 2 resolved_out repair_resolves

resolution_fuel_example :
    check_ancestors repaired.tasks 9 repair_task.repair_of
    ≡ check_ancestors repaired.tasks (length repaired.tasks) repair_task.repair_of
resolution_fuel_example =
    resolution_fuel repaired 9 2 repair_task repaired-IsWellFormed refl (ground arith)
