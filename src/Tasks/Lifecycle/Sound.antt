-- ===== src/Tasks/Lifecycle/Sound.antt =====
-- Every change that `apply` of alfredo-tui/src/tasks.rs makes of a snapshot is lawful.
use alfredo.Base.{
  ℕ, ◌+◌, false, ◌≡◌, refl, sym, ap, subst, List, [], ◌∷◌, Option, none, some, ok, >>=-eq-ok,
  >>-eq-ok, refuse_if-eq-ok, ok_or-eq-ok, ok-injective, arith, ltb, length,
}
use alfredo.Plan.{Plan, Step, Origin, Json}
use alfredo.Tasks.{
  Task, Action, Snapshot, review_architecture, resolve_repair, assign, plan, branch, repair,
  propose, approve, cancel, requeue, permit, start, finish, review_and_repair, decide, assess,
  review, max_tasks,
}
use alfredo.Tasks.Queries.{find_task}
use alfredo.Tasks.Architecture.{architecture_origin}
use alfredo.Tasks.Handlers.{new_task, preamble}
use alfredo.Tasks.Runs.{apply_start, apply_finish}
use alfredo.Tasks.Apply.{
  push_revision, adopt_revision, add_plan, propose_steps, apply_plan, dispatch, apply,
}
use alfredo.Tasks.Lifecycle.{adds, Changes, here, next, repairs}
use alfredo.Tasks.Lifecycle.Edits.{
  edit_task-Changes, assign_task-Edit, approve_task-Edit, cancel_task-Edit, requeue_task-Edit,
  finish_task-Edit, review_task-Edit, start_task-Edit,
}
use alfredo.Tasks.Lifecycle.Arms.{
  Changes-trans, apply_propose-Changes, apply_permit-Changes, apply_repair-Changes,
  apply_decide-Changes, apply_branch-Changes, apply_resolve-Changes, apply_assess-Changes,
  apply_review_and_repair-Changes, apply_review_architecture-Changes,
}

propose_steps-Changes :
    (a : Action) (s : Snapshot) (first : ℕ) (steps : List Step) {u : Snapshot}
    → propose_steps s first steps ≡ ok u
    → Changes a s u
unfolding propose_steps
propose_steps-Changes a s first [] h = subst (Changes a s) (ok-injective h) here
propose_steps-Changes a s first (step ∷ steps) h =
    let (added, proposed, h1) = >>=-eq-ok _ _ h in
    let (permitted, approved, h2) = >>=-eq-ok _ _ h1 in
    Changes-trans
      (Changes-trans (apply_propose-Changes a s _ _ _ proposed)
        (apply_permit-Changes a added.0 _ _ approved))
      (propose_steps-Changes a permitted.0 first steps h2)

module _ (a : Action) (s : Snapshot) {out : Snapshot × ℕ} where
  push_revision-Changes :
      (parent : Task) (task : ℕ) (steps : List Step)
      → find_task task s.tasks ≡ some parent
      → ltb max_tasks (length s.tasks + length steps) ≡ false
      → push_revision s parent task steps ≡ ok out
      → Changes a s out.0
  unfolding push_revision
  push_revision-Changes parent task [] found room h = cc
  push_revision-Changes parent task (step ∷ steps) found room h =
      subst (λ o. Changes a s o.0) (ok-injective h)
        (next here (
          adds
            (new_task (length s.tasks + 1) step.title step.model parent.dependencies
              (some step.policy) (some task))
            (record {
              next_id = refl;
              room = ground arith;
              unapproved = refl;
              unrun = refl;
              lineage = repairs task parent found refl refl;
            })
            refl))

  adopt_revision-Changes :
      (p : Plan) (origin : Origin)
      → ltb max_tasks (length s.tasks + length p.tasks) ≡ false
      → adopt_revision s p origin ≡ ok out
      → Changes a s out.0
  unfolding adopt_revision
  adopt_revision-Changes p origin room h =
      let (current, _, h1) = >>=-eq-ok (architecture_origin s origin.task) _ h in
      let (_, h2) = >>-eq-ok _ _ h1 in
      let (parent, found, h3) = >>=-eq-ok _ _ h2 in
      let (_, h4) = >>-eq-ok _ _ h3 in
      push_revision-Changes parent origin.task p.tasks (ok_or-eq-ok _ _ found) room h4

  add_plan-Changes :
      (p : Plan) (origin : Option Origin)
      → ltb max_tasks (length s.tasks + length p.tasks) ≡ false
      → add_plan s p origin ≡ ok out
      → Changes a s out.0
  unfolding add_plan
  add_plan-Changes p (some origin) room h = adopt_revision-Changes p origin room h
  add_plan-Changes p none room h =
      let (planned, steps, done) = >>=-eq-ok _ _ h in
      subst (λ o. Changes a s o.0) (ok-injective done)
        (propose_steps-Changes a s (length s.tasks + 1) p.tasks steps)

  apply_plan-Changes : (json : Json) (p : Plan) → apply_plan json s p ≡ ok out → Changes a s out.0
  unfolding apply_plan
  apply_plan-Changes json p h =
      let (_, h1) = >>-eq-ok _ _ h in
      let (room, h2) = >>-eq-ok _ _ h1 in
      add_plan-Changes p p.architecture (refuse_if-eq-ok _ _ room) h2

-- The arm of each action.
dispatch-Changes :
    (json : Json) (s : Snapshot) (a : Action) {out : Snapshot × ℕ}
    → dispatch json s a ≡ ok out
    → Changes a s out.0
unfolding dispatch apply_start apply_finish
dispatch-Changes json s (review_architecture task d) h =
    apply_review_architecture-Changes _ s task d h
dispatch-Changes json s (resolve_repair task) h = apply_resolve-Changes _ s task h
dispatch-Changes json s (assign task model) h =
    edit_task-Changes s _ task _ (λ t t' _. assign_task-Edit s _ t model) h
dispatch-Changes json s (plan p) h = apply_plan-Changes _ s json p h
dispatch-Changes json s (branch task name commit) h = apply_branch-Changes _ s task name commit h
dispatch-Changes json s (repair task reason) h = apply_repair-Changes _ s task reason h
dispatch-Changes json s (propose title model dependencies) h =
    apply_propose-Changes _ s title model dependencies h
dispatch-Changes json s (approve task) h =
    edit_task-Changes s _ task _ (λ t t' _. approve_task-Edit s _ t) h
dispatch-Changes json s (cancel task) h =
    edit_task-Changes s _ task _ (λ t t' _. cancel_task-Edit s _ t) h
dispatch-Changes json s (requeue task) h =
    edit_task-Changes s _ task _ (λ t t' _. requeue_task-Edit s _ t) h
dispatch-Changes json s (permit task policy) h = apply_permit-Changes _ s task policy h
dispatch-Changes json s (start task baseline inputs) h =
    edit_task-Changes s _ task _ (λ t t' same. start_task-Edit s _ t task baseline inputs refl same)
      ((>>-eq-ok _ _ h).1)
dispatch-Changes json s (finish task run status digest detail) h =
    let (good, h1) = >>-eq-ok _ _ h in
    edit_task-Changes s _ task _
      (λ t t' same.
        finish_task-Edit s _ t run status digest detail
          (ap (λ n. finish n run status digest detail) (sym same)) (refuse_if-eq-ok _ _ good))
      h1
dispatch-Changes json s (review_and_repair task d) h = apply_review_and_repair-Changes _ s task d h
dispatch-Changes json s (decide task d) h = apply_decide-Changes _ s task d h
dispatch-Changes json s (assess task w) h = apply_assess-Changes _ s task w h
dispatch-Changes json s (review task accept) h =
    edit_task-Changes s _ task _ (λ t t' _. review_task-Edit s _ t accept) h

pub apply-Changes :
    (json : Json) (s : Snapshot) (a : Action) {out : Snapshot × ℕ}
    → apply json s a ≡ ok out
    → Changes a s out.0
unfolding apply
apply-Changes json s a h = dispatch-Changes json s a ((>>-eq-ok (preamble s a) _ h).1)
