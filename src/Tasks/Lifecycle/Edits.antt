-- ===== src/Tasks/Lifecycle/Edits.antt =====
-- What an arm of `apply` in alfredo-tui/src/tasks.rs does to the one task that it names is lawful.
use text.Mathlib.TextEquality.{eq_iff}
use alfredo.Base.{
  ℕ, String, Bool, true, false, not, ◌&&◌, ◌≡◌, sym, ap, ◌∙◌, List, [], ◌∷◌, some, Result, ok,
  >>=-eq-ok, >>-eq-ok, refuse_if-eq-ok, ok_or-eq-ok, ok-injective, arith, inl, inr, Bool-cases,
}
use alfredo.Policy.{WorkPolicy}
use alfredo.Assessment.{Decision, is_some, approves, requires_human_review}
use alfredo.Tasks.{
  TaskStatus, running, DependencyInput, TaskRun, is_judgeable, is_approved, Task, Action, Snapshot,
  start, finish,
}
use alfredo.Tasks.Queries.{find_task}
use alfredo.Tasks.Edits.{
  edit_task, set_task, assign_task, approve_task, cancel_task, requeue_task, permit_task,
  finish_task, claimed_run, bad_result, decide_task, review_task, decided_status, passed,
}
use alfredo.Tasks.Runs.{start_checks, start_task}
use alfredo.Tasks.Lifecycle.{
  Edit, reassigns, grants, withdraws, requeues, permits, claims, reports, holds, declines,
  accepts_passed, accepts_ready, edits, Changes, here, next,
}

pub find_task-id : (id : ℕ) (ts : List Task) (t : Task) → find_task id ts ≡ some t → t.id ≡ id
find_task-id id [] t h = cc
find_task-id id (u ∷ ts) t h = ground (arith, find_task-id id ts t)

pub edit_task-eq-ok :
    (s : Snapshot) (id : ℕ) (f : Task → Result Task) {out : Snapshot × ℕ}
    → edit_task s id f ≡ ok out
    → (t t' : Task) × (find_task id s.tasks ≡ some t)
      × (f t ≡ ok t')
      × (out.0 ≡ record s { tasks = set_task id t' s.tasks })
      × (out.1 ≡ id)
unfolding edit_task
edit_task-eq-ok s id f h =
    let (t, found, h1) = >>=-eq-ok _ _ h in
    let (t', changed, h2) = >>=-eq-ok _ _ h1 in (t, t', ok_or-eq-ok _ _ found, changed, cc, cc)

start_checks-approved :
    (s : Snapshot) (baseline : String) (inputs : List DependencyInput) (t : Task)
    → start_checks s baseline inputs t ≡ ok tt
    → (is_approved t.status ≡ true) × (is_some t.policy ≡ true)
unfolding start_checks
start_checks-approved s baseline inputs t h = ground arith

module _ (s : Snapshot) (a : Action) (t : Task) {t' : Task} where
  pub assign_task-Edit :
      (model : String) → assign_task model t ≡ ok t' → Edit s.receipts s.revision a t t'
  unfolding assign_task
  assign_task-Edit model h = reassigns model (ground arith) (ground arith) (ground arith)

  pub approve_task-Edit : approve_task t ≡ ok t' → Edit s.receipts s.revision a t t'
  unfolding approve_task
  approve_task-Edit h = grants (ground arith) (ground arith)

  pub cancel_task-Edit : cancel_task t ≡ ok t' → Edit s.receipts s.revision a t t'
  unfolding cancel_task
  cancel_task-Edit h = withdraws (ground arith) (ground arith)

  pub requeue_task-Edit : requeue_task t ≡ ok t' → Edit s.receipts s.revision a t t'
  unfolding requeue_task
  requeue_task-Edit h = requeues (ground arith) (ground arith)

  pub permit_task-Edit :
      (policy : WorkPolicy) → permit_task policy t ≡ ok t' → Edit s.receipts s.revision a t t'
  unfolding permit_task
  permit_task-Edit policy h = permits policy (ground arith) (ground arith)

  pub finish_task-Edit :
      (run : String) (status : TaskStatus) (digest detail : String)
      → a ≡ finish t.id run status digest detail
      → bad_result status digest detail ≡ false
      → finish_task run status digest detail t ≡ ok t'
      → Edit s.receipts s.revision a t t'
  unfolding finish_task bad_result
  finish_task-Edit run status digest detail e good h =
      let (bound, has, h1) = >>=-eq-ok _ _ h in
      let same : bound.id ≡ run = (eq_iff _ _).0 (ground arith) in
      reports bound status digest detail (rw same e) (ok_or-eq-ok _ _ has) (ground arith)
        (ground arith) (ground arith)

  decided_status-Edit :
      (d : Decision) (bound : TaskRun)
      → is_judgeable t.status ≡ true
      → t.run ≡ some bound
      → (approves d.outcome && not (passed s.receipts t.id bound.id)) ≡ false
      → t' ≡ record t { status = decided_status d }
      → Edit s.receipts s.revision a t t'
  unfolding decided_status
  decided_status-Edit d bound judged has checked e = elim (Bool-cases (requires_human_review d)) [
    | inl held ↦ holds judged (ground arith)
    | inr free ↦ elim (Bool-cases (approves d.outcome)) [
      | inl pass ↦ accepts_passed bound judged has (ground arith) (ground arith)
      | inr fail ↦ declines judged (ground arith)
    ]
  ]

  pub decide_task-Edit :
      (d : Decision) → decide_task s.receipts d t ≡ ok t' → Edit s.receipts s.revision a t t'
  unfolding decide_task
  decide_task-Edit d h =
      let (judged, h1) = >>-eq-ok _ _ h in
      let (bound, has, h2) = >>=-eq-ok _ _ h1 in
      let (checked, h3) = >>-eq-ok _ _ h2 in
      decided_status-Edit d bound (ground arith) (ok_or-eq-ok _ _ has) (refuse_if-eq-ok _ _ checked)
        (sym (ok-injective h3))

  pub review_task-Edit :
      (accept : Bool) → review_task accept t ≡ ok t' → Edit s.receipts s.revision a t t'
  unfolding review_task
  review_task-Edit true h = accepts_ready (ground arith) (ground arith)
  review_task-Edit false h = declines (ground arith) (ground arith)

  pub start_task-Edit :
      (task : ℕ) (baseline : String) (inputs : List DependencyInput)
      → a ≡ start task baseline inputs
      → t.id ≡ task
      → start_task s task baseline inputs t ≡ ok t'
      → Edit s.receipts s.revision a t t'
  unfolding start_task
  start_task-Edit task baseline inputs e same h =
      let (checked, h1) = >>-eq-ok (start_checks s baseline inputs t) _ h in
      let approved = start_checks-approved s baseline inputs t checked in
      claims baseline inputs (rw same e) approved.0 approved.1 (
        sym (ok-injective h1)
        ∙ ap
            (λ n. record t {
              status = running;
              run = some (claimed_run n s.revision baseline inputs);
            })
            (sym same))

-- An edit through `edit_task` is one lawful change of the snapshot.
pub edit_task-Changes :
    (s : Snapshot) (a : Action) (id : ℕ) (f : Task → Result Task) {out : Snapshot × ℕ}
    → ((t t' : Task) → t.id ≡ id → f t ≡ ok t' → Edit s.receipts s.revision a t t')
    → edit_task s id f ≡ ok out
    → Changes a s out.0
edit_task-Changes s a id f lawful h =
    let (t, t', found, changed, e, _) = edit_task-eq-ok s id f h in
    next here (edits id t t' found (lawful t t' (find_task-id id s.tasks t found) changed) e)
