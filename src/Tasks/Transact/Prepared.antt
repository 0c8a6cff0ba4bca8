-- ===== src/Tasks/Transact/Prepared.antt =====
-- What `transact_checked` of alfredo-tui/src/tasks.rs has established when it has applied a new
-- request to the snapshot that it read.
use alfredo.Base.{
  ℕ, String, Bool, true, false, not, ◌≡◌, refl, sym, ap, ◌∙◌, subst, List, [], ◌∷◌, none, Result,
  ok, err, refuse_if, arith, ◌==◌, length, ltb, inl, inr, Bool-cases, >>-eq-ok, refuse_if-eq-ok,
  ok-injective,
}
use alfredo.Text.{text_valid}
use alfredo.Plan.{Json}
use alfredo.Tasks.{Action, Request, Receipt, Snapshot, schema_version, max_receipts}
use alfredo.Tasks.Apply.{apply}
use alfredo.Tasks.Journal.{Store, has_correlation, ungoverned_failure, bad_identity, validate}
use alfredo.Tasks.Journal.Valid.{upgraded, committed, validate-eq-ok, commit_validates}
use alfredo.Tasks.Guards.{
  Disk, check_scope, check_family, check_new, check_request, migrate, back_up,
}
use alfredo.Tasks.Guards.Retained.{check_evidence, check_policy}
use alfredo.Tasks.Storage.{File, read_locked}
use alfredo.Tasks.Transact.{
  Refusal, is_uncertain, Lock, Checked, done, refused, ◌>>=◌, ◌>>◌, lift, acquire, Host,
  find_receipt, check_revision, prepare, open_store,
}

module _ {κ} {Rest : Type κ} {out : Rest} where
  pub >>-eq-done :
      (check : Checked (Unit {0})) (rest : Checked Rest)
      → (check >> rest) ≡ done out
      → (check ≡ done tt) × (rest ≡ done out)
  >>-eq-done (refused why) rest passed = cc
  >>-eq-done (done tt) rest passed = (refl, passed)

  pub >>=-eq-done {ℓ} :
      {Value : Type ℓ} (first : Checked Value) (rest : Value → Checked Rest)
      → (first >>= rest) ≡ done out
      → (value : Value) × (first ≡ done value) × (rest value ≡ done out)
  >>=-eq-done (refused why) rest passed = cc
  >>=-eq-done (done value) rest passed = (value, refl, passed)

pub lift-eq-done {ℓ} : {A : Type ℓ} (m : Result A) {a : A} → lift m ≡ done a → m ≡ ok a
lift-eq-done (ok a) h = cc
lift-eq-done (err e) h = cc

-- No refusal of a computation is uncertain.
IsCertain {ℓ} : {A : Type ℓ} → Checked A → Type ℓ
IsCertain m = (r : Refusal) → m ≡ refused r → is_uncertain r ≡ false

lift-IsCertain {ℓ} : {A : Type ℓ} (m : Result A) → IsCertain (lift m)
unfolding IsCertain
lift-IsCertain (ok a) r h = cc
lift-IsCertain (err e) r h = ground arith

acquire-IsCertain : (lock : Lock) → IsCertain (acquire lock)
unfolding IsCertain
acquire-IsCertain lock r h = ground arith

check_revision-IsCertain : (s : Snapshot) (n : ℕ) → IsCertain (check_revision s n)
unfolding IsCertain check_revision
check_revision-IsCertain s n r h = ground arith

>>=-IsCertain {ℓ κ} :
    {A : Type ℓ} {B : Type κ} (m : Checked A) (f : A → Checked B)
    → IsCertain m
    → ((a : A) → IsCertain (f a))
    → IsCertain (m >>= f)
unfolding IsCertain
>>=-IsCertain (done a) f h k r e = k a r e
>>=-IsCertain (refused q) f h k r e = h r (cc)

>>-IsCertain {κ} :
    {Rest : Type κ} (check : Checked (Unit {0})) (rest : Checked Rest)
    → IsCertain check
    → IsCertain rest
    → IsCertain (check >> rest)
unfolding IsCertain
>>-IsCertain (done _) rest h k r e = k r e
>>-IsCertain (refused q) rest h k r e = h r cc

pub prepare-certain :
    (host : Host) (s : Snapshot) (request : Request) (r : Refusal)
    → prepare host s request ≡ refused r
    → is_uncertain r ≡ false
unfolding prepare IsCertain
prepare-certain host s request r h =
    >>-IsCertain (lift (check_scope host.disk s request.action)) _ (lift-IsCertain _)
      (>>-IsCertain (check_revision s request.expected_revision) _ (check_revision-IsCertain s _) (
        >>-IsCertain (lift (check_request s request.action)) _ (lift-IsCertain _) (
          >>=-IsCertain (lift (migrate host.disk s)) _ (lift-IsCertain _) λ current.
            >>-IsCertain (lift (check_evidence host.disk current request.action)) _
              (lift-IsCertain _)
              (>>-IsCertain (lift (check_policy current request.action)) _ (lift-IsCertain _)
                (lift-IsCertain (apply host.json current request.action))))))
      r h

pub open_store-certain :
    (host : Host) (store : Store) (file : File) (request : Request) (r : Refusal)
    → open_store host store file request ≡ refused r
    → is_uncertain r ≡ false
unfolding open_store IsCertain
open_store-certain host store file request r h =
    >>-IsCertain (lift (refuse_if (not (text_valid request.correlation 160)) _)) _
      (lift-IsCertain _)
      (>>-IsCertain (acquire host.scope_lock) _ (acquire-IsCertain _) (
        >>-IsCertain (acquire host.store_lock) _ (acquire-IsCertain _)
          (lift-IsCertain (read_locked host.json store file))))
      r h

check_request-eq-ok :
    (s : Snapshot) (a : Action)
    → check_request s a ≡ ok tt
    → (ungoverned_failure a ≡ false) × ((length s.receipts == max_receipts) ≡ false)
unfolding check_request
check_request-eq-ok s a h =
    let (_, h1) = >>-eq-ok (check_family s a) _ h in
    let (governed, h2) = >>-eq-ok (refuse_if (ungoverned_failure a) _) _ h1 in
    let (_, room) = >>-eq-ok (check_new s a) _ h2 in
    (refuse_if-eq-ok _ _ governed, refuse_if-eq-ok _ _ room)

-- The schema of an admissible snapshot is at most the current one.
admitted_schema :
    (json : Json) (store : Store) (s : Snapshot)
    → validate json store s ≡ ok tt
    → ltb s.schema_version schema_version ≡ false
    → s ≡ upgraded s
unfolding bad_identity upgraded
admitted_schema json store s h current =
    let (identity, _) = validate-eq-ok json store s h in
    let same : s.schema_version ≡ schema_version = ground arith in
    ap (λ v. record s { schema_version = v }) same

migrate-upgraded :
    (json : Json) (store : Store) (disk : Disk) (s u : Snapshot)
    → validate json store s ≡ ok tt
    → migrate disk s ≡ ok u
    → u ≡ upgraded s
unfolding migrate
migrate-upgraded json store disk s u h e = elim (Bool-cases (ltb s.schema_version schema_version)) [
  | inl older ↦ sym (ok-injective ((>>-eq-ok (back_up disk s.schema_version) _ (rw older at e)).1))
  | inr current ↦ sym (ok-injective (rw current at e)) ∙ admitted_schema json store s h current
]

current_revision : (s : Snapshot) (n : ℕ) → check_revision s n ≡ done tt → n ≡ s.revision
unfolding check_revision
current_revision s n h = ground arith

-- What a prepared request has passed.
pub prepare-eq-done :
    (host : Host) (store : Store) (s : Snapshot) (request : Request) (out : Snapshot × ℕ)
    → validate host.json store s ≡ ok tt
    → prepare host s request ≡ done out
    → (request.expected_revision ≡ s.revision)
      × (ungoverned_failure request.action ≡ false)
      × ((length s.receipts == max_receipts) ≡ false)
      × (check_scope host.disk s request.action ≡ ok tt)
      × (check_evidence host.disk (upgraded s) request.action ≡ ok tt)
      × (check_policy (upgraded s) request.action ≡ ok tt)
      × (apply host.json (upgraded s) request.action ≡ ok out)
unfolding prepare
prepare-eq-done host store s request out h e =
    let (scope, e1) = >>-eq-done (lift (check_scope host.disk s request.action)) _ e in
    let (revision, e2) = >>-eq-done (check_revision s request.expected_revision) _ e1 in
    let (asked, e3) = >>-eq-done (lift (check_request s request.action)) _ e2 in
    let (governed, room) = check_request-eq-ok s request.action (lift-eq-done _ asked) in
    let (current, moved, e4) = >>=-eq-done (lift (migrate host.disk s)) _ e3 in
    let (evidence, e5) = >>-eq-done (lift (check_evidence host.disk current request.action)) _ e4 in
    let (policy, applied) = >>-eq-done (lift (check_policy current request.action)) _ e5 in
    let same : current ≡ upgraded s =
      migrate-upgraded host.json store host.disk s current h (lift-eq-done _ moved) in
    (
      current_revision s request.expected_revision revision,
      governed,
      room,
      lift-eq-done _ scope,
      subst (λ u. check_evidence host.disk u request.action ≡ ok tt) same (lift-eq-done _ evidence),
      subst (λ u. check_policy u request.action ≡ ok tt) same (lift-eq-done _ policy),
      subst (λ u. apply host.json u request.action ≡ ok out) same (lift-eq-done _ applied),
    )

pub find_receipt-none :
    (c : String) (rs : List Receipt) → find_receipt c rs ≡ none → has_correlation c rs ≡ false
unfolding find_receipt has_correlation
find_receipt-none c [] h = refl
find_receipt-none c (r ∷ rs) h = ground (arith, find_receipt-none c rs)

pub open_store-eq-done :
    (host : Host) (store : Store) (file : File) (request : Request) (s : Snapshot)
    → open_store host store file request ≡ done s
    → (text_valid request.correlation 160 ≡ true) × (read_locked host.json store file ≡ ok s)
unfolding open_store
open_store-eq-done host store file request s h =
    let (valid, h1) =
      >>-eq-done (lift (refuse_if (not (text_valid request.correlation 160)) _)) _ h in
    let (_, h2) = >>-eq-done (acquire host.scope_lock) _ h1 in
    let (_, h3) = >>-eq-done (acquire host.store_lock) _ h2 in
    (negated_test (refuse_if-eq-ok _ _ (lift-eq-done _ valid)), lift-eq-done _ h3)
  where
    negated_test : {b : Bool} → not b ≡ false → b ≡ true
    negated_test {b = true} h = refl
    negated_test {b = false} h = cc

-- The snapshot that a prepared request makes is admissible.
pub prepared_validates :
    (host : Host) (store : Store) (s : Snapshot) (request : Request) (out : Snapshot × ℕ)
    → validate host.json store s ≡ ok tt
    → text_valid request.correlation 160 ≡ true
    → find_receipt request.correlation s.receipts ≡ none
    → prepare host s request ≡ done out
    → validate host.json store (committed out request) ≡ ok tt
prepared_validates host store s request out h valid new e =
    let (revision, governed, room, _, _, _, applied) =
      prepare-eq-done host store s request out h e in
    commit_validates host.json store s request out h valid
      (find_receipt-none request.correlation s.receipts new) revision governed room applied
