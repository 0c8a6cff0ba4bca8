-- ===== src/Tasks/Transact.antt =====
-- `TaskStore::transact_checked`, `read_locked` and `save` of alfredo-tui/src/tasks.rs: one request
-- against the stored snapshot. The lock, the file and the JSON encoder are a parameter, `Host`.
pub mod Prepared
pub mod Durable
pub mod Answers
pub mod Retry
pub mod Kept
pub mod Approval
use text.Mathlib.Text.{◌==◌ as str_eq}
use alfredo.Base.{
  ℕ, suc, zero, ◌+◌, ◌*◌, String, Bool, true, false, not, ◌&&◌, ◌||◌, List, [], ◌∷◌, ◌++◌, Option,
  none, some, Result, ok, err, refuse_if, ok_or, find?, ltb, ◌==◌, length, is_yes, if◌then◌else◌,
}
use alfredo.Text.{text_valid}
use alfredo.Plan.{Json}
use alfredo.Tasks.{Action, Request, Receipt, Snapshot, Request-discrete, finish, decide}
use alfredo.Tasks.Apply.{apply}
use alfredo.Tasks.Journal.{Store}
use alfredo.Tasks.Storage.{File, absent, unreadable, bytes, read_locked}
use alfredo.Tasks.Journal.Valid.{committed}
use alfredo.Tasks.Capacity.{max_store, require_completion_capacity}
use alfredo.Tasks.Guards.{Disk, check_scope, check_request, migrate}
use alfredo.Tasks.Guards.Retained.{check_evidence, check_policy}

-- `Refusal`
pub data Refusal : Type 0 where
  stale : Option Snapshot → Refusal
  busy : Refusal
  denied : String → Refusal
  uncertain : String → Refusal

abbrev pub is_uncertain : Refusal → Bool
is_uncertain (uncertain e) = true
is_uncertain _ = false

pub data Checked {ℓ} (A : Type ℓ) : Type ℓ where
  done : A → Checked A
  refused : Refusal → Checked A

infixl 5 ◌>>◌ ◌>>=◌
abbrev pub ◌>>◌ {κ} : {Rest : Type κ} → Checked (Unit {0}) → Checked Rest → Checked Rest
refused why >> rest = refused why
done _ >> rest = rest

abbrev pub ◌>>=◌ {κ ℓ} :
    {Value : Type κ} {Rest : Type ℓ} → Checked Value → (Value → Checked Rest) → Checked Rest
refused why >>= rest = refused why
done value >>= rest = rest value

-- `From<String> for Refusal`
abbrev pub lift {ℓ} : {A : Type ℓ} → Result A → Checked A
lift (ok a) = done a
lift (err e) = refused (denied e)

-- A lock is taken, still held by another at the deadline, or out of order.
pub data Lock : Type 0 where
  taken held_by_another : Lock
  broken : String → Lock

abbrev pub acquire : Lock → Checked (Unit {0})
acquire taken = done tt
acquire held_by_another = refused busy
acquire (broken e) = refused (denied e)

-- The write of a new file: it fails before the rename, or in the sync that follows the rename.
pub data Write : Type 0 where
  lost : String → Write
  unsynced : String → Write
  synced : Write

pub record Host : Type 0 where
  pub json : Json
  pub snapshot_bytes : Snapshot → Result ℕ
  pub scope_lock : Lock
  pub store_lock : Lock
  pub disk : Disk
  pub write : Write

unfoldable pub find_receipt : String → List Receipt → Option Receipt
find_receipt correlation receipts = find? (λ r. str_eq r.request.correlation correlation) receipts

unfoldable pub check_revision : Snapshot → ℕ → Checked (Unit {0})
check_revision s expected = if s.revision == expected then done tt else refused (stale (some s))

-- The guards of a new request on the snapshot that was read, and its application.
unfoldable pub prepare : Host → Snapshot → Request → Checked (Snapshot × ℕ)
prepare host s request = do
  lift (check_scope host.disk s request.action)
  check_revision s request.expected_revision
  lift (check_request s request.action)
  current ← lift (migrate host.disk s)
  lift (check_evidence host.disk current request.action)
  lift (check_policy current request.action)
  lift (apply host.json current request.action)

abbrev pub is_finish : Action → Bool
is_finish (finish task run status digest detail) = true
is_finish _ = false

-- The file after the write of a snapshot whose JSON has so many bytes.
pub write_file : Write → File → ℕ → Snapshot → Result (Unit {0}) × File
write_file (lost e) file size s = (err e, file)
write_file (unsynced e) file size s = (err e, bytes size (some s))
write_file synced file size s = (ok tt, bytes size (some s))

pub save_bytes : Write → File → Snapshot → Result ℕ → Result (Unit {0}) × File
unfolding write_file
save_bytes write file s (err e) = (err e, file)
save_bytes write file s (ok size) =
    if ltb max_store size
    then (err "Task state exceeds 4 MiB", file)
    else write_file write file size s

-- `save`: what the request is told, and what the file holds then.
unfoldable pub save : Host → File → Snapshot → Result (Unit {0}) × File
unfolding save_bytes write_file
save host file s = save_bytes host.write file s (host.snapshot_bytes s)

-- What `transact` answers after the save, and the file that it leaves.
pub report : Snapshot → Receipt → Result (Unit {0}) × File → Checked (Snapshot × Receipt) × File
report s r (ok _, file) = (done (s, r), file)
report s r (err e, file) = (refused (uncertain e), file)

pub record_checked :
    Host → File → Snapshot → Receipt → Result (Unit {0}) → Checked (Snapshot × Receipt) × File
unfolding report
record_checked host file s r (err e) = (refused (denied e), file)
record_checked host file s r (ok _) = report s r (save host file s)

-- Only a report may use the room that is kept for reports.
pub check_capacity : Host → Snapshot → Action → Result (Unit {0})
check_capacity host s a =
    if is_finish a then ok tt else require_completion_capacity host.json host.snapshot_bytes s

abbrev pub receipt_of : Snapshot × ℕ → Request → Receipt
receipt_of out request = record { request = request; revision = out.0.revision + 1; task = out.1 }

pub commit : Host → File → Request → Checked (Snapshot × ℕ) → Checked (Snapshot × Receipt) × File
unfolding record_checked check_capacity
commit host file request (refused r) = (refused r, file)
commit host file request (done out) =
    record_checked host file (committed out request) (receipt_of out request)
      (check_capacity host (committed out request) request.action)

-- A request whose correlation is in the journal gets the receipt that it got then.
pub answer : Host → File → Snapshot → Request → Option Receipt → Checked (Snapshot × Receipt) × File
unfolding Request-discrete commit
answer host file s request none = commit host file request (prepare host s request)
answer host file s request (some r) =
    if is_yes (Request-discrete r.request request)
    then (done (s, r), file)
    else (refused (denied "Correlation already belongs to a different task request"), file)

pub open_store : Host → Store → File → Request → Checked Snapshot
open_store host store file request = do
  lift (refuse_if (not (text_valid request.correlation 160)) "Invalid task correlation identity")
  acquire host.scope_lock
  acquire host.store_lock
  lift (read_locked host.json store file)

pub serve : Host → File → Request → Checked Snapshot → Checked (Snapshot × Receipt) × File
unfolding answer
serve host file request (refused r) = (refused r, file)
serve host file request (done s) =
    answer host file s request (find_receipt request.correlation s.receipts)

unfoldable pub transact : Host → Store → File → Request → Checked (Snapshot × Receipt) × File
unfolding serve open_store
transact host store file request = serve host file request (open_store host store file request)
