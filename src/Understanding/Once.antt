-- ===== src/Understanding/Once.antt =====
-- A request that was acknowledged by `transact` of alfredo-tui/src/understanding.rs, and its retry.
use text.Mathlib.TextEquality.{eq_iff}
use alfredo.Base.{
  String, ◌≡◌, refl, sym, ◌∙◌, ap, List, [], ◌∷◌, ◌++◌, none, some, Result, ok, err, arith,
  >>-eq-ok, ok-injective, is_yes_of,
}
use alfredo.Understanding.{Request, Request-discrete, Receipt, Snapshot, validate_request}
use alfredo.Understanding.Journal.{
  Store, File, Host, read, receipt_of, record_request, find_receipt, answer, commit, transact,
  lock_error, guarded,
}
use alfredo.Understanding.Stages.{apply-frame}
use alfredo.Understanding.Durable.{
  IsPrepared, Outcome, refuses, repeats, commits, unsure, scope_transact-Outcome,
}
use alfredo.Tasks.Transact.{taken}

-- Where a new receipt is found.
find_receipt-last :
    (c : String) (rs : List Receipt) (r : Receipt)
    → find_receipt c rs ≡ none
    → r.request.correlation ≡ c
    → find_receipt c (rs ++ r ∷ []) ≡ some r
unfolding find_receipt
find_receipt-last c [] r h same = rw ((eq_iff r.request.correlation c).1 same) refl
find_receipt-last c (x ∷ rs) r h same = ground (arith, find_receipt-last c rs r)

committed_found :
    (host : Host) (s t : Snapshot) (request : Request)
    → IsPrepared host s request t
    → find_receipt request.correlation s.receipts ≡ none
    → find_receipt request.correlation (record_request t request).receipts
      ≡ some (receipt_of request)
committed_found host s t request prepared new =
    let (rs, _, _, _) = apply-frame s request.action prepared.applied in
    rw rs (find_receipt-last request.correlation s.receipts (receipt_of request) new refl)

outcome_durable :
    (host : Host) (store : Store) (file : File) (request : Request) {out : Result Snapshot × File}
    (s : Snapshot)
    → Outcome host store file request out
    → out.0 ≡ ok s
    → (r : Receipt) × (read store out.1 ≡ ok s)
      × (find_receipt request.correlation s.receipts ≡ some r)
      × (r.request ≡ request)
outcome_durable host store file request s (refuses e) h = absurd (ground arith)
outcome_durable host store file request s (unsure _ _ e _ _ _ _ _) h = absurd (ground arith)
outcome_durable host store file request s (repeats u r old found same) h =
    let e : u ≡ s = ok-injective h in
    (r, old ∙ h, ap (λ q. find_receipt request.correlation q.receipts) (sym e) ∙ found, same)
outcome_durable host store file request s (commits u t file' old new prepared written) h =
    let e : record_request t request ≡ s = ok-injective h in
    (
      receipt_of request,
      written ∙ h,
      ap (λ q. find_receipt request.correlation q.receipts) (sym e)
          ∙ committed_found host u t request prepared new,
      refl,
    )

-- A request that is acknowledged with a snapshot is in the file: the file reads as that snapshot, and
-- the snapshot's journal has the request under its correlation.
pub acknowledged_read :
    (host : Host) (store : Store) (file : File) (request : Request) (s : Snapshot)
    → (transact host store file request).0 ≡ ok s
    → (r : Receipt) × (read store (transact host store file request).1 ≡ ok s)
      × (find_receipt request.correlation s.receipts ≡ some r)
      × (r.request ≡ request)
acknowledged_read host store file request s h =
    outcome_durable host store file request s (scope_transact-Outcome host store file request) h

repeated :
    (host : Host) (store : Store) (file : File) (request : Request) (s : Snapshot) (r : Receipt)
    → validate_request request ≡ ok tt
    → host.lock ≡ taken
    → read store file ≡ ok s
    → find_receipt request.correlation s.receipts ≡ some r
    → r.request ≡ request
    → transact host store file request ≡ (ok s, file)
unfolding transact guarded commit answer lock_error
repeated host store file request s r valid lock old found same =
    rw (valid, lock, old, found, is_yes_of (Request-discrete r.request request) same) refl

guarded_passed :
    (file : File) (entry : Result (Unit {0})) (body : Result Snapshot × File) (s : Snapshot)
    → (guarded file entry body).0 ≡ ok s
    → entry ≡ ok tt
unfolding guarded
guarded_passed file (err e) body s h = cc
guarded_passed file (ok _) body s h = refl

acknowledged_valid :
    (host : Host) (store : Store) (file : File) (request : Request) (s : Snapshot)
    → (transact host store file request).0 ≡ ok s
    → validate_request request ≡ ok tt
unfolding transact
acknowledged_valid host store file request s h =
    (>>-eq-ok (validate_request request) (lock_error host.lock)
      (guarded_passed file _ (commit host store file request) s h)).0

-- A request that was acknowledged and is sent again with the lock free, by this or another process,
-- gets the same snapshot, and the file stays as it is.
pub retry_idempotent :
    (host again : Host) (store : Store) (file : File) (request : Request) (s : Snapshot)
    → (transact host store file request).0 ≡ ok s
    → again.lock ≡ taken
    → transact again store (transact host store file request).1 request
      ≡ (ok s, (transact host store file request).1)
retry_idempotent host again store file request s h lock =
    let (r, old, found, same) = acknowledged_read host store file request s h in
    repeated again store (transact host store file request).1 request s r
      (acknowledged_valid host store file request s h) lock old found same
