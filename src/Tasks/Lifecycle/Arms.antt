-- ===== src/Tasks/Lifecycle/Arms.antt =====
-- The arms of `apply` in alfredo-tui/src/tasks.rs for proposals, repairs, reviews and routes make only
-- lawful changes.
use alfredo.Base.{
  ℕ, ◌+◌, String, ◌≡◌, refl, subst, List, none, some, Result, ok, ◌>>◌, >>=-eq-ok, >>-eq-ok,
  ok-injective, arith, leb, length, inl, inr, Option-cases, Bool-cases,
}
use alfredo.Policy.{WorkPolicy}
use alfredo.Assessment.{Assessment, Decision}
use alfredo.Tasks.{Action, Snapshot, repair, decide, review}
use alfredo.Tasks.Queries.{find_task}
use alfredo.Tasks.Edits.{permit_task}
use alfredo.Text.{show, ◌+++◌}
use alfredo.Tasks.Handlers.{
  new_task, preamble, apply_propose, apply_permit, apply_repair, apply_decide, decide_again,
  repair_again, route_failure, apply_review_and_repair, apply_review_architecture,
}
use alfredo.Tasks.Apply.{branch_checks, resolve_checks, apply_branch, apply_resolve, apply_assess}
use alfredo.Tasks.Lifecycle.{adds, Changes, here, next, original, repairs}
use alfredo.Tasks.Lifecycle.Edits.{
  edit_task-Changes, permit_task-Edit, decide_task-Edit, review_task-Edit,
}

pub Changes-trans : {a : Action} {s u v : Snapshot} → Changes a s u → Changes a u v → Changes a s v
Changes-trans r here = r
Changes-trans r (next q c) = next (Changes-trans r q) c

pub unchanged-Changes :
    (a : Action) (s : Snapshot) (out : Snapshot × ℕ) (task : ℕ) (checks : Result (Unit {0}))
    → (checks >> ok (s, task)) ≡ ok out
    → Changes a s out.0
unchanged-Changes a s out task checks h =
    let (_, done) = >>-eq-ok checks _ h in subst (λ o. Changes a s o.0) (ok-injective done) here

module _ (a : Action) (s : Snapshot) {out : Snapshot × ℕ} where
  pub apply_propose-Changes :
      (title model : String) (dependencies : List ℕ)
      → apply_propose s title model dependencies ≡ ok out
      → Changes a s out.0
  unfolding apply_propose
  apply_propose-Changes title model dependencies h = next here (
      adds (new_task (length s.tasks + 1) title model dependencies none none)
        (record {
          next_id = refl;
          room = ground arith;
          unapproved = refl;
          unrun = refl;
          lineage = original refl (ground arith);
        })
        (ground arith))

  pub apply_permit-Changes :
      (task : ℕ) (policy : WorkPolicy) → apply_permit s task policy ≡ ok out → Changes a s out.0
  unfolding apply_permit
  apply_permit-Changes task policy h =
      edit_task-Changes s a task (permit_task policy) (λ t t' _. permit_task-Edit s a t policy)
        ((>>-eq-ok _ _ h).1)

  pub apply_repair-Changes :
      (task : ℕ) (reason : String) → apply_repair s task reason ≡ ok out → Changes a s out.0
  unfolding apply_repair
  apply_repair-Changes task reason h = elim (Option-cases (find_task task s.tasks)) [
    | inl missing ↦ absurd (ground arith)
    | inr (parent, found) ↦ next here (
        adds
          (new_task (length s.tasks + 1) ("Repair #" +++ show task +++ ": " +++ reason) parent.model
            parent.dependencies parent.policy (some task))
          (record {
            next_id = refl;
            room = ground arith;
            unapproved = refl;
            unrun = refl;
            lineage = repairs task parent found refl refl;
          })
          (ground arith))
  ]

  pub apply_decide-Changes :
      (task : ℕ) (d : Decision) → apply_decide s task d ≡ ok out → Changes a s out.0
  unfolding apply_decide
  apply_decide-Changes task d h =
      edit_task-Changes s a task _ (λ t t' _. decide_task-Edit s a t d) ((>>-eq-ok _ _ h).1)

  pub decide_again-Changes :
      (task : ℕ) (d : Decision) → decide_again s task d ≡ ok out → Changes a s out.0
  unfolding decide_again
  decide_again-Changes task d h =
      apply_decide-Changes task d ((>>-eq-ok (preamble s (decide task d)) _ h).1)

  pub repair_again-Changes :
      (task : ℕ) (reason : String) → repair_again s task reason ≡ ok out → Changes a s out.0
  unfolding repair_again
  repair_again-Changes task reason h =
      apply_repair-Changes task reason ((>>-eq-ok (preamble s (repair task reason)) _ h).1)

  pub apply_branch-Changes :
      (task : ℕ) (name commit : String)
      → apply_branch s task name commit ≡ ok out
      → Changes a s out.0
  unfolding apply_branch
  apply_branch-Changes task name commit h =
      unchanged-Changes a s out task (branch_checks s task name commit) h

  pub apply_resolve-Changes : (task : ℕ) → apply_resolve s task ≡ ok out → Changes a s out.0
  unfolding apply_resolve
  apply_resolve-Changes task h = unchanged-Changes a s out task (resolve_checks s task) h

  pub apply_assess-Changes :
      (task : ℕ) (w : Assessment) → apply_assess s task w ≡ ok out → Changes a s out.0
  unfolding apply_assess
  apply_assess-Changes task w h =
      let (_, h1) = >>-eq-ok _ _ h in
      let (_, h2) = >>-eq-ok (preamble s (review task w.accept)) _ h1 in
      edit_task-Changes s a task _ (λ t t' _. review_task-Edit s a t w.accept) h2

module _ (a : Action) (s : Snapshot) {out : Snapshot × ℕ} where
  pub apply_review_and_repair-Changes :
      (task : ℕ) (d : Decision) → apply_review_and_repair s task d ≡ ok out → Changes a s out.0
  unfolding apply_review_and_repair
  apply_review_and_repair-Changes task d h =
      let (_, h1) = >>-eq-ok _ _ h in
      let (_, h2) = >>-eq-ok _ _ h1 in
      let (decided, judged, h3) = >>=-eq-ok (decide_again s task d) _ h2 in
      Changes-trans (decide_again-Changes a s task d judged)
        (repair_again-Changes a decided.0 task d.reason h3)

  pub route_failure-Changes :
      (task : ℕ) (reason : String) (prior : ℕ)
      → route_failure s task reason prior ≡ ok out
      → Changes a s out.0
  unfolding route_failure
  route_failure-Changes task reason prior h = elim (Bool-cases (leb 1 prior)) [
    | inl again ↦ subst (λ o. Changes a s o.0) (ok-injective (rw again at h)) here
    | inr first ↦ repair_again-Changes a s task reason (rw first at h)
  ]

module _ (a : Action) (s : Snapshot) {out : Snapshot × ℕ} where
  pub apply_review_architecture-Changes :
      (task : ℕ) (d : Decision) → apply_review_architecture s task d ≡ ok out → Changes a s out.0
  unfolding apply_review_architecture
  apply_review_architecture-Changes task d h =
      let (_, h1) = >>-eq-ok _ _ h in
      let (_, h2) = >>-eq-ok _ _ h1 in
      let (decided, judged, h3) = >>=-eq-ok (decide_again s task d) _ h2 in
      Changes-trans (decide_again-Changes a s task d judged)
        (route_failure-Changes a decided.0 task d.reason _ h3)
