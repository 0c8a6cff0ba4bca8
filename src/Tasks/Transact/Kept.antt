-- ===== src/Tasks/Transact/Kept.antt =====
-- What every request to `transact_checked` of alfredo-tui/src/tasks.rs leaves as it is in the file:
-- accepted work, and the room for the reports of running workers.
use alfredo.Base.{
  ℕ, ◌+◌, ◌≤◌, false, ◌≡◌, sym, ap, ◌∙◌, subst, none, some, ok, arith, length, inl, inr,
  ok-injective, count_if,
}
use alfredo.Tasks.{accepted, Task, Request, Receipt, Snapshot, max_receipts, is_running}
use alfredo.Tasks.Queries.{find_task}
use alfredo.Tasks.Journal.{Store}
use alfredo.Tasks.Journal.Valid.{upgraded, committed}
use alfredo.Tasks.Lifecycle.Frozen.{accepted_final}
use alfredo.Tasks.Capacity.{capacity_reserved}
use alfredo.Tasks.Storage.{File, read_locked}
use alfredo.Tasks.Transact.{
  Checked, done, Host, find_receipt, prepare, is_finish, check_capacity, transact,
}
use alfredo.Tasks.Transact.Prepared.{prepare-eq-done}
use alfredo.Tasks.Transact.Durable.{
  Outcome, refuses, repeats, commits, unsure, transact-Outcome, read_locked-validates,
}
use alfredo.Tasks.Transact.Answers.{done-injective}

commit_keeps_accepted :
    (host : Host) (store : Store) (file : File) (request : Request) (s u : Snapshot)
    (out : Snapshot × ℕ) (id : ℕ) (t : Task)
    → read_locked host.json store file ≡ ok u
    → prepare host u request ≡ done out
    → read_locked host.json store file ≡ ok s
    → find_task id s.tasks ≡ some t
    → t.status ≡ accepted
    → find_task id out.0.tasks ≡ some t
unfolding upgraded
commit_keeps_accepted host store file request s u out id t old p h found k =
    let (_, _, _, _, _, _, applied) =
      prepare-eq-done host store u request out (read_locked-validates host.json store file u old)
        p in
    accepted_final host.json (upgraded u) request.action out id t
      (ap (λ v. find_task id v.tasks) (ok-injective (sym old ∙ h)) ∙ found) k applied

Outcome-accepted :
    (host : Host) (store : Store) (file : File) (request : Request)
    {out : Checked (Snapshot × Receipt) × File} (s s' : Snapshot) (id : ℕ) (t : Task)
    → Outcome host store file request out
    → read_locked host.json store file ≡ ok s
    → find_task id s.tasks ≡ some t
    → t.status ≡ accepted
    → read_locked host.json store out.1 ≡ ok s'
    → find_task id s'.tasks ≡ some t
Outcome-accepted host store file request s s' id t (refuses r c) h found k h' =
    ap (λ v. find_task id v.tasks) (ok-injective (sym h' ∙ h)) ∙ found
Outcome-accepted host store file request s s' id t (repeats u r old look same) h found k h' =
    ap (λ v. find_task id v.tasks) (ok-injective (sym h' ∙ h)) ∙ found
Outcome-accepted host store file request s s' id t (commits u out file' old new p c written) h found
      k h' =
    ap (λ v. find_task id v.tasks) (ok-injective (sym h' ∙ written))
    ∙ commit_keeps_accepted host store file request s u out id t old p h found k
Outcome-accepted host store file request s s' id t (unsure u out e file' old new p (inl same)) h
      found k h' =
    ap (λ v. find_task id v.tasks)
      (ok-injective (sym h' ∙ ap (read_locked host.json store) same ∙ h))
    ∙ found
Outcome-accepted host store file request s s' id t (unsure u out e file' old new p (inr written)) h
      found k h' =
    ap (λ v. find_task id v.tasks) (ok-injective (sym h' ∙ written))
    ∙ commit_keeps_accepted host store file request s u out id t old p h found k

-- Accepted work is final in the file: after any request, whatever the answer and whatever the write
-- does, an accepted task is found again under its number, equal in all its fields.
pub accepted_stays :
    (host : Host) (store : Store) (file : File) (request : Request) (s s' : Snapshot) (id : ℕ)
    (t : Task)
    → read_locked host.json store file ≡ ok s
    → find_task id s.tasks ≡ some t
    → t.status ≡ accepted
    → read_locked host.json store (transact host store file request).1 ≡ ok s'
    → find_task id s'.tasks ≡ some t
accepted_stays host store file request s s' id t h found k h' =
    Outcome-accepted host store file request s s' id t (transact-Outcome host store file request) h
      found k h'

Outcome-capacity :
    (host : Host) (store : Store) (file : File) (request : Request)
    {out : Checked (Snapshot × Receipt) × File} (s s' : Snapshot) (r : Receipt)
    → Outcome host store file request out
    → read_locked host.json store file ≡ ok s
    → find_receipt request.correlation s.receipts ≡ none
    → is_finish request.action ≡ false
    → out.0 ≡ done (s', r)
    → length s'.receipts + count_if (λ t. is_running t.status) s'.tasks ≤ max_receipts
unfolding check_capacity
Outcome-capacity host store file request s s' r (refuses q c) old new other h =
    absurd (ground arith)
Outcome-capacity host store file request s s' r (repeats u q old' found same) old new other h =
    absurd (
      ground (
        arith,
        sym (ap (λ v. find_receipt request.correlation v.receipts) (ok-injective (sym old' ∙ old)))
            ∙ found,
      ))
Outcome-capacity host store file request s s' r (commits u out file' old' new' p c written) old new
      other h =
    subst (λ v. length v.0.receipts + count_if (λ t. is_running t.status) v.0.tasks ≤ max_receipts)
      (done-injective h)
      (capacity_reserved host.json host.snapshot_bytes (committed out request) (rw other at c))
Outcome-capacity host store file request s s' r (unsure u out e file' old' new' p w) old new other
      h =
    absurd (ground arith)

-- After a new request other than a report is acknowledged, the journal still has room for the report
-- of every running task.
pub reports_have_room :
    (host : Host) (store : Store) (file : File) (request : Request) (s s' : Snapshot) (r : Receipt)
    → read_locked host.json store file ≡ ok s
    → find_receipt request.correlation s.receipts ≡ none
    → is_finish request.action ≡ false
    → (transact host store file request).0 ≡ done (s', r)
    → length s'.receipts + count_if (λ t. is_running t.status) s'.tasks ≤ max_receipts
reports_have_room host store file request s s' r old new other h =
    Outcome-capacity host store file request s s' r (transact-Outcome host store file request) old
      new other h
