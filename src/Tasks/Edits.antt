-- ===== src/Tasks/Edits.antt =====
-- What an action does to the one task that it names: the arms of `apply` in
-- alfredo-tui/src/tasks.rs that look a task up, test it and write it back.
use text.Mathlib.Text.{◌==◌ as str_eq}
use alfredo.Base.{
  ℕ, ◌+◌, String, Bool, false, not, ◌&&◌, ◌||◌, List, [], ◌∷◌, none, some, Result, ok, ◌>>=◌, ◌>>◌,
  refuse_if, ok_or, any, ◌==◌, if◌then◌else◌,
}
use alfredo.Text.{text_valid, is_hex, show, ◌+++◌}
use alfredo.Policy.{WorkPolicy}
use alfredo.Assessment.{Decision, Outcome, is_some, approves, requires_human_review}
use alfredo.Tasks.{
  TaskStatus, proposed, approved, cancelled, running, review_ready, needs_human_review, accepted,
  failed, rejected, DependencyInput, TaskRun, Task, Receipt, Snapshot, is_proposed, is_running,
  is_review_ready, is_open, is_result, is_judgeable, can_requeue, finish,
}
use alfredo.Tasks.Queries.{find_task, unknown_task}

-- `status_label`
unfoldable pub status_label : TaskStatus → String
status_label proposed = "proposed"
status_label approved = "approved"
status_label cancelled = "cancelled"
status_label running = "running"
status_label review_ready = "review-ready"
status_label needs_human_review = "needs-human-review"
status_label accepted = "accepted"
status_label failed = "failed"
status_label rejected = "rejected"

unfoldable pub running_hint : ℕ → String
running_hint task =
    "Task #"
    +++ show task
    +++ " is running; wait for it to finish, /stop it, or /recover "
    +++ show task
    +++ " if its worker died"

cancelled_before_run : ℕ → String
cancelled_before_run task =
    "Task #"
    +++ show task
    +++ " was cancelled before it ran; /task describes new work to do instead"

unfoldable pub not_run : Task → String
unfolding cancelled_before_run
not_run t = elim t.status [
  | cancelled ↦ cancelled_before_run t.id
  | _ ↦ "Task #" +++ show t.id +++ " has not run; /run " +++ show t.id +++ " first"
]

unfoldable pub review_refusal : ℕ → TaskStatus → String
unfolding status_label running_hint
review_refusal task status = elim status [
  | accepted ↦ "Task #" +++ show task +++ " is already " +++ status_label accepted
  | rejected ↦ "Task #" +++ show task +++ " is already " +++ status_label rejected
  | failed ↦ "Task #" +++ show task +++ " failed; /repair " +++ show task +++ " <hint>"
  | running ↦ running_hint task
  | proposed ↦
      "Task #"
      +++ show task
      +++ " is proposed; /approve "
      +++ show task
      +++ ", then /run "
      +++ show task
  | approved ↦
      "Task #" +++ show task +++ " has not run; /run " +++ show task +++ " first (it is approved)"
  | cancelled ↦ "Task #" +++ show task +++ " is cancelled; /tasks shows what can still be reviewed"
  | needs_human_review ↦ "Task #" +++ show task +++ " needs human review; /tasks shows its state"
  | review_ready ↦ "Task #" +++ show task +++ " is review-ready"
]

-- Write a task back in the place of the first with its id.
abbrev pub set_task : ℕ → Task → List Task → List Task
set_task id t' [] = []
set_task id t' (t ∷ ts) = if t.id == id then t' ∷ ts else t ∷ set_task id t' ts

-- `tasks.iter_mut().find(…).ok_or_else(unknown_task)?`, the tests, the assignments.
unfoldable pub edit_task : Snapshot → ℕ → (Task → Result Task) → Result (Snapshot × ℕ)
edit_task s id f = do
  item ← ok_or (find_task id s.tasks) (unknown_task id)
  item' ← f item
  ok (record s { tasks = set_task id item' s.tasks }, id)

-- `validate_assignment` and the arm `Assign`.
unfoldable pub assign_task : String → Task → Result Task
assign_task model t = do
  refuse_if (not (text_valid model 200)) "Invalid worker model identity"
  refuse_if (is_some t.run || not (is_open t.status))
      "Assignment can only change before execution; propose a repair task"
  ok (record t { model = model; status = proposed })

unfoldable pub approve_task : Task → Result Task
unfolding status_label
approve_task t = do
  refuse_if (not (is_proposed t.status)) (
      "Task #"
      +++ show t.id
      +++ " is "
      +++ status_label t.status
      +++ "; /approve needs a proposed task")
  ok (record t { status = approved })

unfoldable pub cancel_task : Task → Result Task
unfolding status_label running_hint
cancel_task t = do
  refuse_if (is_running t.status) (running_hint t.id)
  refuse_if (not (is_open t.status)) (
      "Task #"
      +++ show t.id
      +++ " is "
      +++ status_label t.status
      +++ "; /cancel-task needs a proposed or approved task")
  ok (record t { status = cancelled })

unfoldable pub requeue_task : Task → Result Task
requeue_task t = do
  refuse_if (not (can_requeue t)) "Requeue requires a task cancelled during a run"
  ok (record t { status = approved })

unfoldable pub permit_task : WorkPolicy → Task → Result Task
permit_task policy t = do
  refuse_if (not (is_open t.status))
      "Policy can only change before execution; propose a new repair task"
  ok (record t { policy = some policy; status = proposed })

-- The run that `Start` binds; its id holds the revision that the receipt will have.
unfoldable pub claimed_run : ℕ → ℕ → String → List DependencyInput → TaskRun
claimed_run task revision baseline inputs = record {
  id = "task-" +++ show task +++ "-run-" +++ show (revision + 1);
  baseline = baseline;
  inputs = inputs;
  evidence_sha256 = none;
  detail = "Worker claimed; effects may be in progress";
}

-- The shape of a worker's report.
unfoldable pub bad_result : TaskStatus → String → String → Bool
bad_result status digest detail =
    not (is_result status) || not (is_hex 64 digest) || not (text_valid detail 1024)

unfoldable pub finish_task : String → TaskStatus → String → String → Task → Result Task
finish_task run status digest detail t = do
  bound ← ok_or t.run "Task has no run"
  refuse_if (not (is_running t.status) || not (str_eq bound.id run))
      "Stale or mismatched worker result"
  ok (record t {
    run = some (record bound { evidence_sha256 = some digest; detail = detail });
    status = status;
  })

-- A receipt that records the successful check of a run of a task.
unfoldable pub records_success : ℕ → String → Receipt → Bool
records_success task run r = elim r.request.action [
  | finish id run_id status digest detail ↦
      id == task && str_eq run_id run && is_review_ready status
  | _ ↦ false
]

unfoldable pub passed : List Receipt → ℕ → String → Bool
unfolding records_success
passed receipts task run = any (records_success task run) receipts

unfoldable pub decided_status : Decision → TaskStatus
decided_status d = if requires_human_review d then needs_human_review else elim d.outcome [
  | Outcome.approved ↦ accepted
  | Outcome.approved_with_limitations ↦ accepted
  | Outcome.needs_human_review ↦ needs_human_review
  | Outcome.needs_repair ↦ rejected
  | Outcome.rejected ↦ rejected
]

unfoldable pub decide_task : List Receipt → Decision → Task → Result Task
decide_task receipts d t = do
  refuse_if (not (is_judgeable t.status))
      "Review outcomes require retained review-ready, failed or human-review work"
  run ← ok_or t.run (not_run t)
  refuse_if (approves d.outcome && not (passed receipts t.id run.id))
      "Approved outcomes require the original successful check evidence"
  ok (record t { status = decided_status d })

unfoldable pub review_task : Bool → Task → Result Task
unfolding review_refusal
review_task accept t = do
  refuse_if (not (is_review_ready t.status)) (review_refusal t.id t.status)
  ok (record t { status = if accept then accepted else rejected })
