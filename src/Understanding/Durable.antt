-- ===== src/Understanding/Durable.antt =====
-- What the file holds after `transact` of alfredo-tui/src/understanding.rs, and that a request takes
-- effect once.
use alfredo.Base.{
  ℕ, ◌+◌, String, false, ◌&&◌, ◌≡◌, inl, inr, refl, sym, subst, Option, none, some, Result, ok, err,
  arith, >>-eq-ok, >>=-eq-ok, refuse_if-eq-ok, ok-injective, ==_iff, ◌==◌, length, ltb, is_yes,
  is_yes→path, Bool-cases,
}
use alfredo.Understanding.{
  Request, Request-discrete, Receipt, Snapshot, apply, validate_request, is_draft,
}
use alfredo.Understanding.Journal.{
  Store, File, bytes, Host, max_receipts, check, read, limit, record_request, find_receipt,
  reserve_draft, fits, size_of, prepare, write_file, save, answer, commit_read, commit, transact,
  lock_error, guarded,
}
use alfredo.Understanding.Replay.{committed_checks}
use alfredo.Understanding.Binding.{read-check}
use alfredo.Tasks.Transact.{Write, lost, unsynced, synced}

-- What `commit` has established of a new request when it writes.
pub record IsPrepared (host : Host) (s : Snapshot) (request : Request) (t : Snapshot) : Type 0 where
  pub current : request.expected_revision ≡ s.revision
  pub room : (length s.receipts == max_receipts) ≡ false
  pub spare : (is_draft request.action && ltb max_receipts (length s.receipts + 2)) ≡ false
  pub applied : apply s request.action ≡ ok t
  pub reserved : reserve_draft host (record_request t request) request.action ≡ ok tt
  pub fits_file : ltb limit (size_of host (record_request t request)) ≡ false

fits_size :
    (host : Host) (s : Snapshot) (e : String)
    → fits host s e ≡ ok tt
    → ltb limit (size_of host s) ≡ false
unfolding fits size_of
fits_size host s e h =
    let (size, encoded, h1) = >>=-eq-ok (host.snapshot_bytes s) _ h in
    rw (encoded, size_of) (refuse_if-eq-ok _ _ h1)

pub prepare-IsPrepared :
    (host : Host) (s : Snapshot) (request : Request) (u : Snapshot)
    → prepare host s request ≡ ok u
    → (t : Snapshot) × IsPrepared host s request t × (u ≡ record_request t request)
unfolding prepare
prepare-IsPrepared host s request u h =
    let (revision, h1) = >>-eq-ok _ _ h in
    let (room, h2) = >>-eq-ok _ _ h1 in
    let (spare, h3) = >>-eq-ok _ _ h2 in
    let (t, applied, h4) = >>=-eq-ok (apply s request.action) _ h3 in
    let (reserved, h5) =
      >>-eq-ok (reserve_draft host (record_request t request) request.action) _ h4 in
    let (fitting, h6) = >>-eq-ok (fits host (record_request t request) _) _ h5 in
    let (_, h7) = >>-eq-ok _ _ h6 in
    let same = refuse_if-eq-ok _ _ revision in
    (
      t,
      record {
        current = (==_iff _ _).0 (ground arith);
        room = refuse_if-eq-ok _ _ room;
        spare = refuse_if-eq-ok _ _ spare;
        applied = applied;
        reserved = reserved;
        fits_file = fits_size host (record_request t request) _ fitting;
      },
      sym (ok-injective h7),
    )

read_written :
    (store : Store) (size : ℕ) (s : Snapshot)
    → ltb limit size ≡ false
    → check store s ≡ ok tt
    → read store (bytes size (some s)) ≡ ok s
unfolding read
read_written store size s small h = rw (small, h) refl

-- The answers of `commit`, and of `transact`, with what is then true of the file.
pub data Outcome (host : Host) (store : Store) (file : File) (request : Request)
    : Result Snapshot × File → Type 0 where
  refuses : (e : String) → Outcome host store file request (err e, file)
  repeats :
      (s : Snapshot) (r : Receipt)
      → read store file ≡ ok s
      → find_receipt request.correlation s.receipts ≡ some r
      → r.request ≡ request
      → Outcome host store file request (ok s, file)
  commits :
      (s t : Snapshot) (file' : File)
      → read store file ≡ ok s
      → find_receipt request.correlation s.receipts ≡ none
      → IsPrepared host s request t
      → read store file' ≡ ok (record_request t request)
      → Outcome host store file request (ok (record_request t request), file')
  unsure :
      (s t : Snapshot) (e : String) (file' : File)
      → read store file ≡ ok s
      → find_receipt request.correlation s.receipts ≡ none
      → IsPrepared host s request t
      → read store file' ≡ ok (record_request t request)
      → Outcome host store file request (err e, file')

module _ (host : Host) (store : Store) (file : File) (request : Request) (s : Snapshot) where
  write-Outcome :
      (write : Write) (t : Snapshot)
      → read store file ≡ ok s
      → find_receipt request.correlation s.receipts ≡ none
      → IsPrepared host s request t
      → check store (record_request t request) ≡ ok tt
      → Outcome host store file request (
          write_file write file
            (size_of host (record_request t request))
            (record_request t request))
  unfolding write_file
  write-Outcome (lost e) t old new prepared valid = refuses e
  write-Outcome (unsynced e) t old new prepared valid =
      unsure s t _ _ old new prepared
        (read_written store (size_of host (record_request t request)) _ prepared.fits_file valid)
  write-Outcome synced t old new prepared valid =
      commits s t _ old new prepared
        (read_written store (size_of host (record_request t request)) _ prepared.fits_file valid)

  save-Outcome :
      (prepared : Result Snapshot)
      → prepare host s request ≡ prepared
      → validate_request request ≡ ok tt
      → read store file ≡ ok s
      → find_receipt request.correlation s.receipts ≡ none
      → Outcome host store file request (save host file prepared)
  unfolding save
  save-Outcome (err e) h valid old new = refuses e
  save-Outcome (ok u) h valid old new =
      let (t, prepared, same) = prepare-IsPrepared host s request u h in
      subst (λ q. Outcome host store file request (write_file host.write file (size_of host q) q))
        (sym same)
        (write-Outcome host.write t old new prepared (
          committed_checks store s t request (read-check store file s old) valid new
            prepared.current prepared.room prepared.applied))

  answer-Outcome :
      (found : Option Receipt)
      → find_receipt request.correlation s.receipts ≡ found
      → validate_request request ≡ ok tt
      → read store file ≡ ok s
      → Outcome host store file request (answer host file s request found)
  unfolding answer
  answer-Outcome none new valid old = save-Outcome (prepare host s request) refl valid old new
  answer-Outcome (some r) found valid old =
      elim (Bool-cases (is_yes (Request-discrete r.request request))) [
        | inl same ↦
            rw same (repeats s r old found (is_yes→path (Request-discrete r.request request) same))
        | inr other ↦ rw other (refuses _)
      ]

commit_read-Outcome :
    (host : Host) (store : Store) (file : File) (request : Request) (current : Result Snapshot)
    → read store file ≡ current
    → validate_request request ≡ ok tt
    → Outcome host store file request (commit_read host file request current)
unfolding commit_read
commit_read-Outcome host store file request (err e) old valid = refuses e
commit_read-Outcome host store file request (ok s) old valid =
    answer-Outcome host store file request s (find_receipt request.correlation s.receipts) refl
      valid old

guarded-Outcome :
    (host : Host) (store : Store) (file : File) (request : Request) (entry : Result (Unit {0}))
    → (entry ≡ ok tt → Outcome host store file request (commit host store file request))
    → Outcome host store file request (guarded file entry (commit host store file request))
unfolding guarded
guarded-Outcome host store file request (err e) h = refuses e
guarded-Outcome host store file request (ok _) h = h refl

-- `transact` refuses and leaves the file, answers a request of the journal as before, commits a request
-- that was prepared on the state of the file, or is unsure of a commit; a written file reads as the state
-- that the request led to.
pub scope_transact-Outcome :
    (host : Host) (store : Store) (file : File) (request : Request)
    → Outcome host store file request (transact host store file request)
unfolding transact commit
scope_transact-Outcome host store file request =
    guarded-Outcome host store file request _ (λ passed.
      commit_read-Outcome host store file request (read store file) refl
        (>>-eq-ok (validate_request request) (lock_error host.lock) passed).0)
