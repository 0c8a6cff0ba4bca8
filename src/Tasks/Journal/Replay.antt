-- ===== src/Tasks/Journal/Replay.antt =====
-- What `validate` of alfredo-tui/src/tasks.rs establishes of a stored snapshot, and that a snapshot
-- extended by one applied request validates again.
use alfredo.Base.{
  ℕ, ◌+◌, false, ◌≡◌, sym, ap, ◌∙◌, subst, List, [], ◌∷◌, ◌++◌, append-nil, append_assoc, ok, arith,
  length, ==_iff, >>=-eq-ok, >>-eq-ok, refuse_if-eq-ok, ok-injective,
}
use alfredo.Plan.{Json}
use alfredo.Tasks.{Action, Receipt, Snapshot, schema_version}
use alfredo.Tasks.Apply.{apply}
use alfredo.Tasks.Journal.{
  ungoverned_failure, schema_checks, bad_sequence, record_receipt, replay_step, replay,
}
use alfredo.Tasks.Lifecycle.Sound.{apply-Changes}
use alfredo.Tasks.Lifecycle.Evolution.{Changes-journal}

-- The parts of one replayed receipt.
pub replay_step-eq-ok :
    (json : Json) (v : ℕ) (proof p : Snapshot) (r : Receipt)
    → replay_step json v proof r ≡ ok p
    → (out : Snapshot × ℕ) × (schema_checks v r.request.action ≡ ok tt)
      × (bad_sequence proof r ≡ false)
      × (apply json proof r.request.action ≡ ok out)
      × (out.1 ≡ r.task)
      × (p ≡ record_receipt out.0 r)
unfolding replay_step
replay_step-eq-ok json v proof p r h =
    let (schema, h1) = >>-eq-ok (schema_checks v r.request.action) _ h in
    let (order, h2) = >>-eq-ok _ _ h1 in
    let (out, applied, h3) = >>=-eq-ok (apply json proof r.request.action) _ h2 in
    let (target, h4) = >>-eq-ok _ _ h3 in
    (
      out,
      schema,
      refuse_if-eq-ok _ _ order,
      applied,
      (==_iff _ _).0 (ground (arith, refuse_if-eq-ok _ _ target)),
      sym (ok-injective h4),
    )

-- What each replayed receipt keeps holds at the end of the replay.
pub replay-inv {ℓ} :
    (P : Snapshot → Type ℓ) (json : Json) (v : ℕ)
    → ((proof : Snapshot) (r : Receipt) (out : Snapshot × ℕ)
        → P proof
        → bad_sequence proof r ≡ false
        → apply json proof r.request.action ≡ ok out
        → P (record_receipt out.0 r))
    → (proof : Snapshot) (rs : List Receipt) (p : Snapshot) → P proof
    → replay json v proof rs ≡ ok p
    → P p
unfolding replay
replay-inv P json v step proof [] p h e = subst P (ok-injective e) h
replay-inv P json v step proof (r ∷ rs) p h e =
    let (proof', stepped, e1) = >>=-eq-ok (replay_step json v proof r) _ e in
    let (out, _, order, applied, _, result) = replay_step-eq-ok json v proof proof' r stepped in
    replay-inv P json v step proof' rs p (subst P (sym result) (step proof r out h order applied))
      e1

-- The replay rebuilds the journal that it reads.
pub replay-journal :
    (json : Json) (v : ℕ) (proof : Snapshot) (rs : List Receipt) (p : Snapshot)
    → replay json v proof rs ≡ ok p
    → (p.receipts ≡ proof.receipts ++ rs)
      × (p.revision ≡ proof.revision + length rs)
      × (p.workspace ≡ proof.workspace)
      × (p.mission ≡ proof.mission)
      × (p.schema_version ≡ proof.schema_version)
unfolding replay
replay-journal json v proof [] p e =
    let same : p ≡ proof = sym (ok-injective e) in
    (
      ap (λ s. s.receipts) same ∙ sym (append-nil proof.receipts),
      ap (λ s. s.revision) same ∙ omega arith,
      ap (λ s. s.workspace) same,
      ap (λ s. s.mission) same,
      ap (λ s. s.schema_version) same,
    )
replay-journal json v proof (r ∷ rs) p e =
    let (proof', stepped, e1) = >>=-eq-ok (replay_step json v proof r) _ e in
    let (out, _, _, applied, _, same) = replay_step-eq-ok json v proof proof' r stepped in
    let (rs', n, w, m, k) = Changes-journal (apply-Changes json proof r.request.action applied) in
    let (rs'', n', w', m', k') = replay-journal json v proof' rs p e1 in
    (
      rs''
          ∙ ap (λ s. s.receipts ++ rs) same
          ∙ ap (λ q. (q ++ r ∷ []) ++ rs) rs'
          ∙ append_assoc proof.receipts (r ∷ []) rs,
      n' ∙ ap (λ s. s.revision + length rs) same ∙ omega (arith, n),
      w' ∙ ap (λ s. s.workspace) same ∙ w,
      m' ∙ ap (λ s. s.mission) same ∙ m,
      k' ∙ ap (λ s. s.schema_version) same ∙ k,
    )

-- At the current schema only an ungoverned failure is refused.
pub schema_checks_current :
    (a : Action) → ungoverned_failure a ≡ false → schema_checks schema_version a ≡ ok tt
unfolding schema_checks
schema_checks_current a h = ground arith

pub schema_checks-governed :
    (v : ℕ) (a : Action) → schema_checks v a ≡ ok tt → ungoverned_failure a ≡ false
unfolding schema_checks
schema_checks-governed v a h = ground arith
