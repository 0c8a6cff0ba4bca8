-- ===== src/Understanding/Journal.antt =====
-- The file of the understanding, alfredo-tui/src/understanding.rs: `Store::read`, `Store::commit`,
-- `transact`, `enter_prepared`, `clear_flow` and `backup_v1`. The locks, the disk and the JSON encoder
-- are a parameter, `Host`.
use Prim.Native.String.{len}
use text.Mathlib.Text.{◌==◌ as str_eq}
use alfredo.Base.{
  ℕ, ◌+◌, String, Bool, true, false, not, ◌&&◌, ◌||◌, List, [], ◌∷◌, ◌++◌, Option, none, some,
  Result, ok, err, ◌>>=◌, ◌>>◌, refuse_if, ok_or, find?, any, ltb, ◌==◌, length, is_yes, zero, suc,
  if◌then◌else◌,
}
use alfredo.Text.{◌+++◌}
use alfredo.Assessment.{is_some}
use alfredo.Scope.{Brief, Brief-discrete}
use alfredo.Understanding.{
  Flow, Flow-discrete, Action, Request, Request-discrete, Receipt, Snapshot, confirm, is_enter,
  is_draft, apply, actor, validate_request,
}
use alfredo.Tasks.Transact.{Lock, taken, held_by_another, broken, Write, lost, unsynced, synced}

-- `LIMIT`
abbrev pub limit : ℕ
limit = 1048576

abbrev pub max_receipts : ℕ
max_receipts = 256

pub record Store : Type 0 where
  pub workspace : String

unfoldable pub empty : Store → Snapshot
empty store = record {
  schema_version = 2;
  workspace = store.workspace;
  revision = 0;
  draft_revision = 0;
  brief = none;
  confirmed = false;
  flow = none;
  receipts = [];
}

-- The file: absent, not readable as a regular file, or bytes, by their number and the snapshot that they
-- decode to.
pub data File : Type 0 where
  absent : File
  unreadable : String → File
  bytes : ℕ → Option Snapshot → File

-- The file `understanding-v1-backup.json`: absent, its first bytes up to one past the limit, or not
-- to be examined.
pub data Backup : Type 0 where
  missing : Backup
  kept : Result String → Backup
  hidden : String → Backup

pub record Host : Type 0 where
  pub snapshot_bytes : Snapshot → Result ℕ
  pub lock : Lock
  pub original : Result String
  pub backup : Backup
  pub create_backup : Result (Unit {0})
  pub write : Write

unfoldable pub bad_identity : Store → Snapshot → Bool
bad_identity store s =
    not (s.schema_version == 1 || s.schema_version == 2)
    || not (str_eq s.workspace store.workspace)
    || ltb max_receipts (length s.receipts)
    || not (s.revision == length s.receipts)

-- `ids` holds the correlations of the receipts that were replayed.
unfoldable pub has_id : String → List String → Bool
has_id c ids = any (λ i. str_eq i c) ids

-- One round of the loop of `read` on `proof` and `ids`.
unfoldable pub replay_step : ℕ → Snapshot → List String → Receipt → Result Snapshot
replay_step version proof ids r = do
  refuse_if
      ((is_enter r.request.action && ltb version 2)
        || not (str_eq r.actor (actor r.request.action)))
      "Unknown understanding actor"
  validate_request r.request
  refuse_if
      (not (r.request.expected_revision == proof.revision) || has_id r.request.correlation ids)
      "Invalid understanding receipt sequence"
  apply proof r.request.action

unfoldable pub replay : ℕ → Snapshot → List String → List Receipt → Result Snapshot
replay version proof ids [] = ok proof
replay version proof ids (r ∷ rs) = do
  proof' ← replay_step version proof ids r
  replay version proof' (r.request.correlation ∷ ids) rs

pub FlowOption-discrete : Discrete (Option Flow)
FlowOption-discrete = hlevel Flow-discrete

pub BriefOption-discrete : Discrete (Option Brief)
BriefOption-discrete = hlevel Brief-discrete

pub Bool-discrete : Discrete Bool
Bool-discrete = hlevel

-- The projection of the state is not that of its receipts.
unfoldable pub differs : Snapshot → Snapshot → Bool
unfolding FlowOption-discrete BriefOption-discrete Bool-discrete
differs proof s =
    (ltb s.schema_version 2 && is_some s.flow)
    || not (is_yes (FlowOption-discrete proof.flow s.flow))
    || not (is_yes (BriefOption-discrete proof.brief s.brief))
    || not (is_yes (Bool-discrete proof.confirmed s.confirmed))
    || not (proof.draft_revision == s.draft_revision)

unfoldable pub check : Store → Snapshot → Result (Unit {0})
check store s = do
  refuse_if (bad_identity store s) "Invalid understanding identity/version/bounds"
  proof ← replay s.schema_version (empty store) [] s.receipts
  refuse_if (differs proof s) "Understanding projection differs from receipts"

unfoldable pub read : Store → File → Result Snapshot
read store absent = ok (empty store)
read store (unreadable e) = err e
read store (bytes size decoded) = do
  refuse_if (ltb limit size) "Understanding state exceeds 1 MiB"
  s ← ok_or decoded "Malformed understanding state; original preserved"
  check store s
  ok s

unfoldable pub lock_error : Lock → Result (Unit {0})
lock_error taken = ok tt
lock_error held_by_another = err "Understanding state busy; retry the same request"
lock_error (broken e) = err e

unfoldable pub snapshot : Host → Store → File → Result Snapshot
snapshot host store file = do lock_error host.lock; read store file

backup_state : Host → String → Backup → Result (Unit {0})
backup_state host original missing = host.create_backup
backup_state host original (kept existing) = do
  old ← existing
  refuse_if (not (str_eq old original)) "Understanding v1 backup conflict; originals preserved"
backup_state host original (hidden e) = err e

unfoldable pub backup_v1 : Host → Result (Unit {0})
unfolding backup_state
backup_v1 host = do
  original ← host.original
  refuse_if (ltb limit (len original)) "Understanding backup exceeds limit"
  backup_state host original host.backup

abbrev pub receipt_of : Request → Receipt
receipt_of request = record { request = request; actor = actor request.action }

-- `state.schema_version = 2; state.receipts.push(...)`
abbrev pub record_request : Snapshot → Request → Snapshot
record_request s request = record s {
  schema_version = 2;
  receipts = s.receipts ++ receipt_of request ∷ [];
}

-- `"\"".repeat(n)`
unfoldable pub quotes : ℕ → String
quotes zero = ""
quotes (suc n) = "\"" +++ quotes n

-- The confirmation that a saved draft must leave room for.
unfoldable pub confirmation : Snapshot → Request
unfolding quotes
confirmation s = record {
  correlation = quotes 160;
  expected_revision = s.revision;
  action = confirm s.draft_revision;
}

unfoldable pub fits : Host → Snapshot → String → Result (Unit {0})
fits host s message = do size ← host.snapshot_bytes s; refuse_if (ltb limit size) message

-- `reserved.apply(&action)?; reserved.receipts.push(...)`, and its size.
unfoldable pub reserve : Host → Snapshot → Result (Unit {0})
unfolding confirmation
reserve host s = do
  reserved ← apply s (confirmation s).action
  fits host
      (record reserved {
        receipts =
            reserved.receipts
            ++ (record { request = confirmation s; actor = "mission-commander" }) ∷ [];
      })
      "Understanding capacity must reserve confirmation bytes"

unfoldable pub reserve_draft : Host → Snapshot → Action → Result (Unit {0})
reserve_draft host s action = if is_draft action then reserve host s else ok tt

-- The snapshot that a new request leads to.
unfoldable pub prepare : Host → Snapshot → Request → Result Snapshot
prepare host s request = do
  refuse_if (not (request.expected_revision == s.revision))
      "Understanding changed; review /scope before retrying"
  refuse_if (length s.receipts == max_receipts) "Understanding receipt capacity reached"
  refuse_if (is_draft request.action && ltb max_receipts (length s.receipts + 2))
      "Understanding capacity must reserve confirmation"
  applied ← apply s request.action
  let state = record_request applied request
  reserve_draft host state request.action
  fits host state "Understanding state exceeds 1 MiB"
  if s.schema_version == 1 then backup_v1 host else ok tt
  ok state

unfoldable pub size_of : Host → Snapshot → ℕ
size_of host s = elim (host.snapshot_bytes s) [ ok size ↦ size | err e ↦ 0 ]

-- The write and the rename of the new file, and what `commit` answers then.
unfoldable pub write_file : Write → File → ℕ → Snapshot → Result Snapshot × File
write_file (lost e) file size s = (err e, file)
write_file (unsynced e) file size s = (
  err ("Understanding acknowledgment uncertain: " +++ e +++ "; retry exact request"),
  bytes size (some s),
)
write_file synced file size s = (ok s, bytes size (some s))

unfoldable pub save : Host → File → Result Snapshot → Result Snapshot × File
unfolding write_file size_of
save host file (err e) = (err e, file)
save host file (ok s) = write_file host.write file (size_of host s) s

unfoldable pub find_receipt : String → List Receipt → Option Receipt
find_receipt correlation receipts = find? (λ r. str_eq r.request.correlation correlation) receipts

used_message : String
used_message = "Understanding correlation already used for another request"

unfoldable pub answer : Host → File → Snapshot → Request → Option Receipt → Result Snapshot × File
unfolding used_message Request-discrete
answer host file s request none = save host file (prepare host s request)
answer host file s request (some old) =
    if is_yes (Request-discrete old.request request) then (ok s, file) else (err used_message, file)

unfoldable pub commit_read : Host → File → Request → Result Snapshot → Result Snapshot × File
commit_read host file request (err e) = (err e, file)
commit_read host file request (ok s) =
    answer host file s request (find_receipt request.correlation s.receipts)

unfoldable pub commit : Host → Store → File → Request → Result Snapshot × File
unfolding commit_read answer save
commit host store file request = commit_read host file request (read store file)

-- A body that runs under the lock, if its request is valid and the lock is taken.
unfoldable pub guarded {ℓ} :
    {A : Type ℓ} → File → Result (Unit {0}) → Result A × File → Result A × File
guarded file (err e) body = (err e, file)
guarded file (ok _) body = body

unfoldable pub transact : Host → Store → File → Request → Result Snapshot × File
unfolding guarded
transact host store file request =
    guarded file (do validate_request request; lock_error host.lock)
      (commit host store file request)

admit : Result Snapshot × File → Result (Snapshot × Bool) × File
admit (err e, file) = (err e, file)
admit (ok s, file) = (ok (s, true), file)

enter_new : Host → Store → File → Request → Snapshot → Result (Snapshot × Bool) × File
unfolding admit
enter_new host store file request s =
    if is_some s.brief then (ok (s, false), file) else admit (commit host store file request)

enter_found :
    Host → Store → File → Request → Snapshot → Option Receipt → Result (Snapshot × Bool) × File
unfolding enter_new used_message Request-discrete
enter_found host store file request s none = enter_new host store file request s
enter_found host store file request s (some old) =
    if is_yes (Request-discrete old.request request)
    then (ok (s, true), file)
    else (err used_message, file)

enter_read : Host → Store → File → Request → Result Snapshot → Result (Snapshot × Bool) × File
unfolding enter_found
enter_read host store file request (err e) = (err e, file)
enter_read host store file request (ok s) =
    enter_found host store file request s (find_receipt request.correlation s.receipts)

unfoldable pub enter_prepared : Host → Store → File → Request → Result (Snapshot × Bool) × File
unfolding guarded enter_read
enter_prepared host store file request =
    guarded file
      (do
        validate_request request
        refuse_if (not (is_enter request.action)) "Prepared flow entry requires an Enter operation"
        lock_error host.lock)
      (enter_read host store file request (read store file))
