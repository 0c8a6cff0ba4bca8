-- ===== src/Tasks/Journal/Backing.antt =====
-- Accepted work of a snapshot that `validate` of alfredo-tui/src/tasks.rs admits rests on a receipt
-- of a successful check.
use text.Mathlib.TextEquality.{eq_iff}
use alfredo.Base.{
  ℕ, String, true, ◌||◌, ◌≡◌, refl, sym, ap, ◌∙◌, subst, List, [], ◌∷◌, ◌++◌, some, ok, arith,
  any-append-left, any-append-right, ==_iff, All, All-append,
}
use alfredo.Assessment.{is_some}
use alfredo.Plan.{Json}
use alfredo.Tasks.{
  TaskStatus, accepted, review_ready, TaskRun, Task, Receipt, Snapshot, finish, is_accepted,
  is_review_ready, is_result, has_evidence, schema_version,
}
use alfredo.Tasks.Queries.{find_task}
use alfredo.Tasks.Edits.{records_success, passed}
use alfredo.Tasks.Apply.{apply}
use alfredo.Tasks.Journal.{Store, empty, record_receipt, validate}
use alfredo.Tasks.Journal.Replay.{replay-inv}
use alfredo.Tasks.Journal.Valid.{upgraded, validate-replay, validate-IsWellFormed}
use alfredo.Tasks.Lifecycle.{
  Edit, reassigns, grants, withdraws, requeues, permits, claims, reports, holds, declines,
  accepts_passed, accepts_ready, Change, edits, adds, Changes, here, next,
}
use alfredo.Tasks.Lifecycle.Edits.{find_task-id}
use alfredo.Tasks.Lifecycle.Sound.{apply-Changes}
use alfredo.Tasks.Lifecycle.WellFormed.{find_task-All, set_task-All, is_governed}
use alfredo.Tasks.Lifecycle.Evolution.{Changes-journal}

-- Work that is ready for review or accepted has a run, and a receipt of its successful check.
abbrev pub Backed : List Receipt → Task → Type 0
Backed rs t =
    (is_accepted t.status || is_review_ready t.status) ≡ true
    → (run : TaskRun) × (t.run ≡ some run) × (passed rs t.id run.id ≡ true)

passed-append-left :
    (rs qs : List Receipt) (id : ℕ) (run : String)
    → passed rs id run ≡ true
    → passed (rs ++ qs) id run ≡ true
unfolding passed
passed-append-left rs qs id run h = any-append-left (records_success id run) rs qs h

reported_passed :
    (rs : List Receipt) (r : Receipt) (id : ℕ) (run digest detail : String)
    → r.request.action ≡ finish id run review_ready digest detail
    → passed (rs ++ r ∷ []) id run ≡ true
unfolding passed records_success
reported_passed rs r id run digest detail e =
    any-append-right (records_success id run) rs (r ∷ [])
      (rw (e, (==_iff id id).1 refl, (eq_iff run run).1 refl) refl)

ready_result :
    (st : TaskStatus)
    → is_result st ≡ true
    → (is_accepted st || is_review_ready st) ≡ true
    → st ≡ review_ready
ready_result st w h = ground arith

-- A lawful change by the action of the receipt `r` keeps work backed.
Edit-Backed :
    (rs : List Receipt) (n : ℕ) (r : Receipt) (t t' : Task)
    → Edit rs n r.request.action t t'
    → Backed (rs ++ r ∷ []) t
    → Backed (rs ++ r ∷ []) t'
Edit-Backed rs n r t t' (reassigns m p o e) b h = absurd (ground arith)
Edit-Backed rs n r t t' (grants o e) b h = absurd (ground arith)
Edit-Backed rs n r t t' (withdraws o e) b h = absurd (ground arith)
Edit-Backed rs n r t t' (requeues o e) b h = absurd (ground arith)
Edit-Backed rs n r t t' (permits p o e) b h = absurd (ground arith)
Edit-Backed rs n r t t' (claims p i q o w e) b h = absurd (ground arith)
Edit-Backed rs n r t t' (holds j e) b h = absurd (ground arith)
Edit-Backed rs n r t t' (declines j e) b h = absurd (ground arith)
Edit-Backed rs n r t t' (reports bound st d x q p o w e) b h =
    let ready : st ≡ review_ready = ready_result st w (rw (ap (λ v. v.status) e) at h) in
    (
      record bound { evidence_sha256 = some d; detail = x },
      ap (λ v. v.run) e,
      subst (λ k. passed (rs ++ r ∷ []) k bound.id ≡ true) (sym (ap (λ v. v.id) e))
          (reported_passed rs r t.id bound.id d x (q ∙ ap (λ k. finish t.id bound.id k d x) ready)),
    )
Edit-Backed rs n r t t' (accepts_passed bound j p w e) b h = (
  bound,
  ap (λ v. v.run) e ∙ p,
  subst (λ k. passed (rs ++ r ∷ []) k bound.id ≡ true) (sym (ap (λ v. v.id) e))
      (passed-append-left rs (r ∷ []) t.id bound.id w),
)
Edit-Backed rs n r t t' (accepts_ready j e) b h =
    let (run, has, pass) = b (ground arith) in
    (
      run,
      ap (λ v. v.run) e ∙ has,
      subst (λ k. passed (rs ++ r ∷ []) k run.id ≡ true) (sym (ap (λ v. v.id) e)) pass,
    )

module _ (rs : List Receipt) (r : Receipt) where
  Change-Backed :
      {s s' : Snapshot}
      → Change r.request.action s s'
      → s.receipts ≡ rs
      → All (Backed (rs ++ r ∷ [])) s.tasks
      → All (Backed (rs ++ r ∷ [])) s'.tasks
  Change-Backed {s = s} (edits id t t' found c e) same h =
      subst (λ u. All (Backed (rs ++ r ∷ [])) u.tasks) (sym e)
        (set_task-All (Backed (rs ++ r ∷ [])) id t' s.tasks h (
          Edit-Backed rs s.revision r t t'
            (subst (λ q. Edit q s.revision r.request.action t t') same c)
            (find_task-All (Backed (rs ++ r ∷ [])) id s.tasks t h found)))
  Change-Backed {s = s} (adds t f e) same h =
      subst (λ u. All (Backed (rs ++ r ∷ [])) u.tasks) (sym e)
        (All-append (Backed (rs ++ r ∷ [])) s.tasks (t ∷ []) h
          ((λ done. absurd (ground (arith, f.unapproved))), tt))

  Changes-Backed :
      {s s' : Snapshot}
      → Changes r.request.action s s'
      → s.receipts ≡ rs
      → All (Backed (rs ++ r ∷ [])) s.tasks
      → All (Backed (rs ++ r ∷ [])) s'.tasks
  Changes-Backed here same h = h
  Changes-Backed (next q c) same h =
      Change-Backed c ((Changes-journal q).0 ∙ same) (Changes-Backed q same h)

Backed-append :
    (rs qs : List Receipt) (ts : List Task) → All (Backed rs) ts → All (Backed (rs ++ qs)) ts
Backed-append rs qs [] h = tt
Backed-append rs qs (t ∷ ts) (b, h) = (
  (λ done. let (run, has, pass) = b done in (run, has, passed-append-left rs qs t.id run.id pass)),
  Backed-append rs qs ts h,
)

-- Applying an action and recording its receipt keeps all work backed.
record_receipt-Backed :
    (json : Json) (s : Snapshot) (r : Receipt) (out : Snapshot × ℕ)
    → All (Backed s.receipts) s.tasks
    → apply json s r.request.action ≡ ok out
    → All (Backed (record_receipt out.0 r).receipts) out.0.tasks
record_receipt-Backed json s r out h applied =
    let made = apply-Changes json s r.request.action applied in
    subst (λ q. All (Backed (q ++ r ∷ [])) out.0.tasks) (sym (Changes-journal made).0)
      (Changes-Backed s.receipts r made refl (Backed-append s.receipts (r ∷ []) s.tasks h))

validate-Backed :
    (json : Json) (store : Store) (s : Snapshot)
    → validate json store s ≡ ok tt
    → All (Backed s.receipts) s.tasks
unfolding upgraded empty
validate-Backed json store s h =
    replay-inv (λ p. All (Backed p.receipts) p.tasks) json schema_version
      (λ proof r out w _ applied. record_receipt-Backed json proof r out w applied) (empty store)
      s.receipts (upgraded s) tt (validate-replay json store s h)

governed_run :
    (t : Task)
    → t.status ≡ accepted
    → is_governed t ≡ true
    → (is_some t.policy ≡ true) × (has_evidence t.run ≡ true)
governed_run t h g = ground arith

-- In a snapshot that `validate` admits, every accepted task has a policy and a run with retained
-- evidence, and a receipt records that the check of this very run succeeded.
pub accepted_passed :
    (json : Json) (store : Store) (s : Snapshot) (id : ℕ) (t : Task)
    → validate json store s ≡ ok tt
    → find_task id s.tasks ≡ some t
    → t.status ≡ accepted
    → (is_some t.policy ≡ true)
      × (has_evidence t.run ≡ true)
      × ((run : TaskRun) × (t.run ≡ some run) × (passed s.receipts id run.id ≡ true))
accepted_passed json store s id t h found status =
    let well = validate-IsWellFormed json store s h in
    let (policy, evidence) =
      governed_run t status
        (find_task-All (λ u. is_governed u ≡ true) id s.tasks t well.lawful found) in
    let (run, has, pass) =
      find_task-All (Backed s.receipts) id s.tasks t (validate-Backed json store s h) found
        (ground arith) in
    (
      policy,
      evidence,
      (
        run,
        has,
        subst (λ k. passed s.receipts k run.id ≡ true) (find_task-id id s.tasks t found) pass,
      ),
    )
