-- ===== src/Tasks/Transact/Answers.antt =====
-- What a client of `transact_checked` of alfredo-tui/src/tasks.rs may rely on: the file stays readable,
-- an answer is durable, and a refusal changes nothing.
use text.Mathlib.Text.{◌==◌ as str_eq}
use text.Mathlib.TextEquality.{eq_iff}
use alfredo.Base.{
  ℕ, ◌+◌, String, ◌≡◌, refl, ap, ◌∙◌, subst, List, [], ◌∷◌, ◌++◌, none, some, ok, arith, inl, inr,
  Bool-cases,
}
use alfredo.Tasks.{Request, Receipt, Snapshot}
use alfredo.Tasks.Journal.{Store, validate}
use alfredo.Tasks.Journal.Valid.{upgraded, committed}
use alfredo.Tasks.Lifecycle.Evolution.{Changes-journal}
use alfredo.Tasks.Lifecycle.Sound.{apply-Changes}
use alfredo.Tasks.Storage.{File, read_locked}
use alfredo.Tasks.Transact.{Checked, done, Host, find_receipt, prepare, receipt_of, transact}
use alfredo.Tasks.Transact.Prepared.{prepare-eq-done}
use alfredo.Tasks.Transact.Durable.{
  Outcome, refuses, repeats, commits, unsure, transact-Outcome, read_locked-validates,
}

pub done-injective {ℓ} : {A : Type ℓ} {a b : A} → done a ≡ done b → a ≡ b
done-injective h = cc

find_receipt-append :
    (c : String) (rs : List Receipt) (r : Receipt)
    → find_receipt c rs ≡ none
    → r.request.correlation ≡ c
    → find_receipt c (rs ++ r ∷ []) ≡ some r
unfolding find_receipt
find_receipt-append c [] r h e = rw ((eq_iff r.request.correlation c).1 e) refl
find_receipt-append c (x ∷ rs) r h e = elim (Bool-cases (str_eq x.request.correlation c)) [
  | inl same ↦ absurd (ground (arith, rw same at h))
  | inr other ↦ rw other (find_receipt-append c rs r (rw other at h) e)
]

-- The journal that a commit writes ends with the receipt of the request.
committed-journal :
    (host : Host) (store : Store) (s : Snapshot) (request : Request) (out : Snapshot × ℕ)
    → validate host.json store s ≡ ok tt
    → prepare host s request ≡ done out
    → ((committed out request).receipts ≡ s.receipts ++ receipt_of out request ∷ [])
      × ((committed out request).revision ≡ s.revision + 1)
unfolding upgraded
committed-journal host store s request out h e =
    let (_, _, _, _, _, _, applied) = prepare-eq-done host store s request out h e in
    let (rs, n, _, _, _) =
      Changes-journal (apply-Changes host.json (upgraded s) request.action applied) in
    (ap (λ q. q ++ receipt_of out request ∷ []) rs, ap (λ k. k + 1) n)

module _ {host : Host} {store : Store} {file : File} {request : Request} where
  Outcome-readable :
      {out : Checked (Snapshot × Receipt) × File} (s : Snapshot)
      → Outcome host store file request out
      → read_locked host.json store file ≡ ok s
      → (s' : Snapshot) × (read_locked host.json store out.1 ≡ ok s')
  Outcome-readable s (refuses r c) h = (s, h)
  Outcome-readable s (repeats u r old found same) h = (s, h)
  Outcome-readable s (commits u out file' old new p c written) h = (committed out request, written)
  Outcome-readable s (unsure u out e file' old new p (inl same)) h =
      (s, ap (read_locked host.json store) same ∙ h)
  Outcome-readable s (unsure u out e file' old new p (inr written)) h =
      (committed out request, written)

  Outcome-done :
      {out : Checked (Snapshot × Receipt) × File} (s : Snapshot) (r : Receipt)
      → Outcome host store file request out
      → out.0 ≡ done (s, r)
      → (read_locked host.json store out.1 ≡ ok s)
        × (find_receipt request.correlation s.receipts ≡ some r)
        × (r.request ≡ request)
  Outcome-done s r (refuses q c) h = absurd (ground arith)
  Outcome-done s r (repeats u q old found same) h =
      subst
        (λ v.
          (read_locked host.json store file ≡ ok v.0)
          × (find_receipt request.correlation v.0.receipts ≡ some v.1)
          × (v.1.request ≡ request))
        (done-injective h) (old, found, same)
  Outcome-done s r (commits u out file' old new p c written) h =
      let journal =
        committed-journal host store u request out
          (read_locked-validates host.json store file u old) p in
      subst
        (λ v.
          (read_locked host.json store file' ≡ ok v.0)
          × (find_receipt request.correlation v.0.receipts ≡ some v.1)
          × (v.1.request ≡ request))
        (done-injective h)
        (
          written,
          ap (find_receipt request.correlation) journal.0
              ∙ find_receipt-append request.correlation u.receipts (receipt_of out request) new
                  refl,
          refl,
        )
  Outcome-done s r (unsure u out e file' old new p w) h = absurd (ground arith)

-- On a file that reads as an admissible snapshot, whatever `transact` answers and whatever the write
-- does, the file reads as an admissible snapshot again.
pub transact_readable :
    (host : Host) (store : Store) (file : File) (request : Request) (s : Snapshot)
    → read_locked host.json store file ≡ ok s
    → (s' : Snapshot) × (read_locked host.json store (transact host store file request).1 ≡ ok s')
      × (validate host.json store s' ≡ ok tt)
transact_readable host store file request s h =
    let (s', after) = Outcome-readable s (transact-Outcome host store file request) h in
    (s', after, read_locked-validates host.json store _ s' after)

-- What `transact` acknowledges is in the file: it reads as the snapshot of the answer, whose journal
-- has the answered receipt for the correlation, and this receipt is of the request itself.
pub acknowledged_durable :
    (host : Host) (store : Store) (file : File) (request : Request) (s : Snapshot) (r : Receipt)
    → (transact host store file request).0 ≡ done (s, r)
    → (read_locked host.json store (transact host store file request).1 ≡ ok s)
      × (find_receipt request.correlation s.receipts ≡ some r)
      × (r.request ≡ request)
acknowledged_durable host store file request s r h =
    Outcome-done s r (transact-Outcome host store file request) h
