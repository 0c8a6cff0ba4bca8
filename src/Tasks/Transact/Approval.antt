-- ===== src/Tasks/Transact/Approval.antt =====
-- New approvals through `transact_checked` of alfredo-tui/src/tasks.rs need a policy.
use alfredo.Base.{
  ℕ, true, false, not, ◌&&◌, ◌≡◌, sym, ap, ◌∙◌, subst, List, [], ◌∷◌, none, some, ok, arith, any,
  ◌==◌, refuse_if, refuse_if-eq-ok, ok-injective, >>-eq-ok, inl, inr, Bool-cases, some-eq,
}
use alfredo.Assessment.{is_some}
use alfredo.Plan.{Json}
use alfredo.Tasks.{approved, Task, Request, Receipt, Snapshot, is_proposed, approve}
use alfredo.Tasks.Queries.{find_task}
use alfredo.Tasks.Edits.{set_task, approve_task}
use alfredo.Tasks.Handlers.{preamble}
use alfredo.Tasks.Apply.{dispatch, apply}
use alfredo.Tasks.Journal.{Store}
use alfredo.Tasks.Journal.Valid.{upgraded}
use alfredo.Tasks.Lifecycle.Edits.{edit_task-eq-ok}
use alfredo.Tasks.Guards.Retained.{check_policy}
use alfredo.Tasks.Storage.{File, read_locked}
use alfredo.Tasks.Transact.{Checked, done, Host, find_receipt, transact}
use alfredo.Tasks.Transact.Prepared.{prepare-eq-done}
use alfredo.Tasks.Transact.Durable.{
  Outcome, refuses, repeats, commits, unsure, transact-Outcome, read_locked-validates,
}

approved_proposal :
    (json : Json) (s : Snapshot) (task : ℕ) (out : Snapshot × ℕ)
    → apply json s (approve task) ≡ ok out
    → (t : Task) × (find_task task s.tasks ≡ some t)
      × (is_proposed t.status ≡ true)
      × (out.0.tasks ≡ set_task task (record t { status = approved }) s.tasks)
unfolding apply dispatch approve_task
approved_proposal json s task out h =
    let (_, h1) = >>-eq-ok (preamble s (approve task)) _ h in
    let (t, t', found, changed, same, _) = edit_task-eq-ok s task approve_task h1 in
    let (status, e) = >>-eq-ok (refuse_if (not (is_proposed t.status)) _) _ changed in
    (
      t,
      found,
      ground (arith, refuse_if-eq-ok _ _ status),
      ap (λ u. u.tasks) same ∙ ap (λ v. set_task task v s.tasks) (sym (ok-injective e)),
    )

found_permitted :
    (task : ℕ) (ts : List Task) (t : Task)
    → find_task task ts ≡ some t
    → is_proposed t.status ≡ true
    → any (λ u. (u.id == task) && is_proposed u.status && not (is_some u.policy)) ts ≡ false
    → is_some t.policy ≡ true
found_permitted task [] t h p e = cc
found_permitted task (u ∷ ts) t h p e = elim (Bool-cases (u.id == task)) [
  | inl same ↦
      let eq : u ≡ t = some-eq (rw same at h) in
      let lacks : (is_proposed u.status && not (is_some u.policy)) ≡ false = ground arith in
      policy_of t p (subst (λ v. (is_proposed v.status && not (is_some v.policy)) ≡ false) eq lacks)
  | inr other ↦ found_permitted task ts t (rw other at h) p (ground arith)
]
  where
    policy_of :
        (t : Task)
        → is_proposed t.status ≡ true
        → (is_proposed t.status && not (is_some t.policy)) ≡ false
        → is_some t.policy ≡ true
    policy_of t p e = ground arith

check_policy-permitted :
    (s : Snapshot) (task : ℕ) (t : Task)
    → check_policy s (approve task) ≡ ok tt
    → find_task task s.tasks ≡ some t
    → is_proposed t.status ≡ true
    → is_some t.policy ≡ true
unfolding check_policy
check_policy-permitted s task t h found p = found_permitted task s.tasks t found p (
    refuse_if-eq-ok
      (any (λ u. (u.id == task) && is_proposed u.status && not (is_some u.policy)) s.tasks) _ h)

Outcome-permitted :
    (host : Host) (store : Store) (file : File) (request : Request) (task : ℕ)
    {out : Checked (Snapshot × Receipt) × File} (s s' : Snapshot) (r : Receipt)
    → Outcome host store file request out
    → request.action ≡ approve task
    → read_locked host.json store file ≡ ok s
    → find_receipt request.correlation s.receipts ≡ none
    → out.0 ≡ done (s', r)
    → (t : Task) × (find_task task s.tasks ≡ some t)
      × (is_proposed t.status ≡ true)
      × (is_some t.policy ≡ true)
      × (s'.tasks ≡ set_task task (record t { status = approved }) s.tasks)
unfolding upgraded
Outcome-permitted host store file request task s s' r (refuses q c) a old new h =
    absurd (ground arith)
Outcome-permitted host store file request task s s' r (unsure u o e f old' new' p w) a old new h =
    absurd (ground arith)
Outcome-permitted host store file request task s s' r (repeats u q old' found same) a old new h =
    absurd (
      ground (
        arith,
        sym (ap (λ v. find_receipt request.correlation v.receipts) (ok-injective (sym old' ∙ old)))
            ∙ found,
      ))
Outcome-permitted host store file request task s s' r (commits u o f old' new' p c w) a old new h =
    let same : u ≡ s = ok-injective (sym old' ∙ old) in
    let (_, _, _, _, _, policy, applied) =
      prepare-eq-done host store u request o (read_locked-validates host.json store file u old')
        p in
    let (t, found, status, tasks) =
      approved_proposal host.json (upgraded u) task o
        (subst (λ k. apply host.json (upgraded u) k ≡ ok o) a applied) in
    let permitted =
      check_policy-permitted (upgraded u) task t
        (subst (λ k. check_policy (upgraded u) k ≡ ok tt) a policy) found status in
    (
      t,
      ap (λ v. find_task task v.tasks) (sym same) ∙ found,
      status,
      permitted,
      ap (λ v. v.0.tasks) (done-same (sym h))
          ∙ tasks
          ∙ ap (λ v. set_task task (record t { status = approved }) v.tasks) same,
    )
  where
    done-same : {A : Type 0} {x y : A} → done x ≡ done y → x ≡ y
    done-same q = cc

-- When a new request to approve a task is acknowledged, the task was proposed and had a policy, and the
-- answered snapshot differs in its tasks only by this task's approval.
pub approval_permitted :
    (host : Host) (store : Store) (file : File) (request : Request) (task : ℕ) (s s' : Snapshot)
    (r : Receipt)
    → request.action ≡ approve task
    → read_locked host.json store file ≡ ok s
    → find_receipt request.correlation s.receipts ≡ none
    → (transact host store file request).0 ≡ done (s', r)
    → (t : Task) × (find_task task s.tasks ≡ some t)
      × (is_proposed t.status ≡ true)
      × (is_some t.policy ≡ true)
      × (s'.tasks ≡ set_task task (record t { status = approved }) s.tasks)
approval_permitted host store file request task s s' r a old new h =
    Outcome-permitted host store file request task s s' r (transact-Outcome host store file request)
      a old new h
