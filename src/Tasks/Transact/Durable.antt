-- ===== src/Tasks/Transact/Durable.antt =====
-- What the file of the store holds after `transact_checked` of alfredo-tui/src/tasks.rs, whatever it
-- answers, and that a retried request is answered again with the receipt that it got.
use text.Mathlib.TextEquality.{eq_iff}
use alfredo.Base.{
  ℕ, String, true, false, ◌≡◌, ◌≢◌, ◌⊎◌, refl, subst, Option, none, some, Result, ok, err,
  refuse_if, ok_or, ◌>>◌, ltb, inl, inr, Bool-cases, >>-eq-ok, >>=-eq-ok, ok-injective, is_yes,
  is_yes→path,
}
use alfredo.Text.{text_valid}
use alfredo.Plan.{Json}
use alfredo.Tasks.{Request, Request-discrete, Task-discrete, Receipt, Snapshot}
use alfredo.Tasks.Journal.{Store, empty, replay, bad_identity, validate}
use alfredo.Tasks.Journal.Valid.{committed}
use alfredo.Tasks.Capacity.{max_store}
use alfredo.Tasks.Storage.{File, absent, unreadable, bytes, read_locked}
use alfredo.Tasks.Transact.{
  Refusal, Checked, done, refused, denied, uncertain, Host, lost, unsynced, synced, find_receipt,
  prepare, is_uncertain, Write, save_bytes, write_file, save, report, record_checked,
  check_capacity, receipt_of, commit, answer, open_store, serve, transact,
}
use alfredo.Tasks.Transact.Prepared.{
  open_store-eq-done, prepare-certain, open_store-certain, prepared_validates,
}

empty_validates : (json : Json) (store : Store) → validate json store (empty store) ≡ ok tt
unfolding validate bad_identity empty replay Task-discrete
empty_validates json store =
    rw
      ((eq_iff store.workspace store.workspace).1 refl, (eq_iff store.mission store.mission).1 refl)
      refl

-- What `read_locked` gives is admissible.
pub read_locked-validates :
    (json : Json) (store : Store) (file : File) (s : Snapshot)
    → read_locked json store file ≡ ok s
    → validate json store s ≡ ok tt
unfolding read_locked
read_locked-validates json store absent s h =
    subst (λ u. validate json store u ≡ ok tt) (ok-injective h) (empty_validates json store)
read_locked-validates json store (unreadable e) s h = cc
read_locked-validates json store (bytes size decoded) s h =
    let (_, h1) = >>-eq-ok (refuse_if (ltb max_store size) _) _ h in
    let (u, _, h2) =
      >>=-eq-ok (ok_or decoded "Malformed task state; original bytes preserved")
        (λ v. validate json store v >> ok v) h1 in
    let (valid, h3) = >>-eq-ok (validate json store u) _ h2 in
    subst (λ v. validate json store v ≡ ok tt) (ok-injective h3) valid

read_written :
    (json : Json) (store : Store) (size : ℕ) (s : Snapshot)
    → ltb max_store size ≡ false
    → validate json store s ≡ ok tt
    → read_locked json store (bytes size (some s)) ≡ ok s
unfolding read_locked
read_written json store size s fits h = rw (fits, h) refl

write_file-read :
    (json : Json) (store : Store) (write : Write) (file : File) (s : Snapshot) (size : ℕ)
    → ltb max_store size ≡ false
    → validate json store s ≡ ok tt
    → (read_locked json store (write_file write file size s).1 ≡ ok s)
      ⊎ (((write_file write file size s).1 ≡ file) × ((write_file write file size s).0 ≢ ok tt))
unfolding write_file
write_file-read json store (lost e) file s size fits h = inr (refl, λ q. cc)
write_file-read json store (unsynced e) file s size fits h =
    inl (read_written json store size s fits h)
write_file-read json store synced file s size fits h = inl (read_written json store size s fits h)

-- A write leaves the old file, or a file that reads as the new snapshot; after success it is this.
save_bytes-read :
    (json : Json) (store : Store) (write : Write) (file : File) (s : Snapshot) (size : Result ℕ)
    → validate json store s ≡ ok tt
    → (read_locked json store (save_bytes write file s size).1 ≡ ok s)
      ⊎ (((save_bytes write file s size).1 ≡ file) × ((save_bytes write file s size).0 ≢ ok tt))
unfolding save_bytes
save_bytes-read json store write file s (err e) h = inr (refl, λ q. cc)
save_bytes-read json store write file s (ok size) h = elim (Bool-cases (ltb max_store size)) [
  | inl large ↦ rw large (inr (refl, λ q. cc))
  | inr fits ↦ rw fits (write_file-read json store write file s size fits h)
]

pub save-read :
    (host : Host) (store : Store) (file : File) (s : Snapshot)
    → validate host.json store s ≡ ok tt
    → (read_locked host.json store (save host file s).1 ≡ ok s)
      ⊎ (((save host file s).1 ≡ file) × ((save host file s).0 ≢ ok tt))
unfolding save
save-read host store file s h =
    save_bytes-read host.json store host.write file s (host.snapshot_bytes s) h

-- The specification of `transact`: the answers that a request may get, with what is then true of
-- the file.
pub data Outcome (host : Host) (store : Store) (file : File) (request : Request)
    : Checked (Snapshot × Receipt) × File → Type 0 where
  refuses :
      (r : Refusal) → is_uncertain r ≡ false → Outcome host store file request (refused r, file)
  repeats :
      (s : Snapshot) (r : Receipt)
      → read_locked host.json store file ≡ ok s
      → find_receipt request.correlation s.receipts ≡ some r
      → r.request ≡ request
      → Outcome host store file request (done (s, r), file)
  commits :
      (s : Snapshot) (out : Snapshot × ℕ) (file' : File)
      → read_locked host.json store file ≡ ok s
      → find_receipt request.correlation s.receipts ≡ none
      → prepare host s request ≡ done out
      → check_capacity host (committed out request) request.action ≡ ok tt
      → read_locked host.json store file' ≡ ok (committed out request)
      → Outcome host store file request
          (done (committed out request, receipt_of out request), file')
  unsure :
      (s : Snapshot) (out : Snapshot × ℕ) (e : String) (file' : File)
      → read_locked host.json store file ≡ ok s
      → find_receipt request.correlation s.receipts ≡ none
      → prepare host s request ≡ done out
      → (file' ≡ file) ⊎ (read_locked host.json store file' ≡ ok (committed out request))
      → Outcome host store file request (refused (uncertain e), file')

module _ (host : Host) (store : Store) (file : File) (request : Request) (s : Snapshot) where
  record_checked-Outcome :
      (out : Snapshot × ℕ)
      → read_locked host.json store file ≡ ok s
      → find_receipt request.correlation s.receipts ≡ none
      → prepare host s request ≡ done out
      → validate host.json store (committed out request) ≡ ok tt
      → (capacity : Result (Unit {0}))
      → check_capacity host (committed out request) request.action ≡ capacity
      → Outcome host store file request
          (record_checked host file (committed out request) (receipt_of out request) capacity)
  unfolding record_checked report
  record_checked-Outcome out old new prepared valid (err e) room = refuses (denied e) refl
  record_checked-Outcome out old new prepared valid (ok _) room =
      saved (save host file (committed out request))
        (save-read host store file (committed out request) valid)
    where
      saved :
          (outcome : Result (Unit {0}) × File)
          → (read_locked host.json store outcome.1 ≡ ok (committed out request))
            ⊎ ((outcome.1 ≡ file) × (outcome.0 ≢ ok tt))
          → Outcome host store file request
              (report (committed out request) (receipt_of out request) outcome)
      saved (ok _, file') (inl written) = commits s out file' old new prepared room written
      saved (ok _, file') (inr (same, failed)) = absurd (failed refl)
      saved (err e, file') (inl written) = unsure s out e file' old new prepared (inr written)
      saved (err e, file') (inr (same, failed)) = unsure s out e file' old new prepared (inl same)

  commit-Outcome :
      read_locked host.json store file ≡ ok s
      → text_valid request.correlation 160 ≡ true
      → find_receipt request.correlation s.receipts ≡ none
      → (c : Checked (Snapshot × ℕ)) → prepare host s request ≡ c
      → Outcome host store file request (commit host file request c)
  unfolding commit
  commit-Outcome old text new (refused r) prepared =
      refuses r (prepare-certain host s request r prepared)
  commit-Outcome old text new (done out) prepared =
      record_checked-Outcome out old new prepared
        (prepared_validates host store s request out
          (read_locked-validates host.json store file s old) text new prepared)
        _ refl

  answer-Outcome :
      read_locked host.json store file ≡ ok s
      → text_valid request.correlation 160 ≡ true
      → (found : Option Receipt) → find_receipt request.correlation s.receipts ≡ found
      → Outcome host store file request (answer host file s request found)
  unfolding answer
  answer-Outcome old text none new = commit-Outcome old text new _ refl
  answer-Outcome old text (some r) found =
      elim (Bool-cases (is_yes (Request-discrete r.request request))) [
        | inl same ↦
            rw same (repeats s r old found (is_yes→path (Request-discrete r.request request) same))
        | inr other ↦ rw other (refuses _ refl)
      ]

-- Every answer of `transact`, on any file and whatever its host does, is one that the specification
-- allows.
pub transact-Outcome :
    (host : Host) (store : Store) (file : File) (request : Request)
    → Outcome host store file request (transact host store file request)
unfolding transact serve
transact-Outcome host store file request = opened (open_store host store file request) refl
  where
    opened :
        (c : Checked Snapshot)
        → open_store host store file request ≡ c
        → Outcome host store file request (serve host file request c)
    opened (refused r) e = refuses r (open_store-certain host store file request r e)
    opened (done s) e =
        let (text, old) = open_store-eq-done host store file request s e in
        answer-Outcome host store file request s old text _ refl
