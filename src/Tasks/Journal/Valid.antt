-- ===== src/Tasks/Journal/Valid.antt =====
-- What a snapshot that `validate` of alfredo-tui/src/tasks.rs admits is, and that one more applied
-- request leaves it admissible.
use text.Mathlib.TextEquality.{eq_iff}
use alfredo.Base.{
  ℕ, ◌+◌, String, true, false, not, ◌≡◌, refl, sym, ap, ◌∙◌, List, [], ◌∷◌, ◌++◌, ok, ◌>>=◌,
  refuse_if, arith, length, length-append, ◌==◌, ==_iff, is_yes, is_yes→path, >>=-eq-ok, >>-eq-ok,
  refuse_if-eq-ok, ok-injective,
}
use alfredo.Text.{text_valid}
use alfredo.Plan.{Json}
use alfredo.Tasks.{Request, Receipt, Snapshot, Task-discrete, schema_version, max_receipts}
use alfredo.Tasks.Apply.{apply}
use alfredo.Tasks.Journal.{
  Store, empty, ungoverned_failure, schema_checks, has_correlation, bad_sequence, record_receipt,
  replay_step, replay, bad_identity, validate,
}
use alfredo.Tasks.Journal.Replay.{
  replay-inv, replay-journal, schema_checks_current, schema_checks-governed,
}
use alfredo.Tasks.Lifecycle.Sound.{apply-Changes}
use alfredo.Tasks.Lifecycle.WellFormed.{IsWellFormed}
use alfredo.Tasks.Lifecycle.Invariant.{apply-IsWellFormed}
use alfredo.Tasks.Lifecycle.Evolution.{Changes-journal}

-- The snapshot that a commit extends: `current` with the schema of today.
unfoldable pub upgraded : Snapshot → Snapshot
upgraded s = record s { schema_version = schema_version }

-- The parts of a validation.
pub validate-eq-ok :
    (json : Json) (store : Store) (s : Snapshot)
    → validate json store s ≡ ok tt
    → (bad_identity store s ≡ false)
      × ((proof : Snapshot) × (replay json s.schema_version (empty store) s.receipts ≡ ok proof)
          × (proof.tasks ≡ s.tasks))
unfolding validate
validate-eq-ok json store s h =
    let (identity, h1) = >>-eq-ok _ _ h in
    let (proof, replayed, h2) =
      >>=-eq-ok (replay json s.schema_version (empty store) s.receipts) _ h1 in
    (
      refuse_if-eq-ok _ _ identity,
      (
        proof,
        replayed,
        is_yes→path (Task-discrete proof.tasks s.tasks) (ground (arith, refuse_if-eq-ok _ _ h2)),
      ),
    )

-- A step that replays for an older schema replays for the current one.
replay_step_current :
    (json : Json) (v : ℕ) (proof p : Snapshot) (r : Receipt)
    → replay_step json v proof r ≡ ok p
    → replay_step json schema_version proof r ≡ ok p
unfolding replay_step
replay_step_current json v proof p r h =
    let (schema, h1) = >>-eq-ok (schema_checks v r.request.action) _ h in
    rw (schema_checks_current r.request.action (schema_checks-governed v r.request.action schema))
      h1

replay_current :
    (json : Json) (v : ℕ) (proof : Snapshot) (rs : List Receipt) (p : Snapshot)
    → replay json v proof rs ≡ ok p
    → replay json schema_version proof rs ≡ ok p
unfolding replay
replay_current json v proof [] p h = h
replay_current json v proof (r ∷ rs) p h =
    let (proof', stepped, h1) = >>=-eq-ok (replay_step json v proof r) _ h in
    rw (replay_step_current json v proof proof' r stepped) (replay_current json v proof' rs p h1)

replay-append :
    (json : Json) (v : ℕ) (proof u : Snapshot) (rs : List Receipt) (r : Receipt)
    → replay json v proof rs ≡ ok u
    → replay json v proof (rs ++ r ∷ []) ≡ (replay_step json v u r >>= ok)
unfolding replay
replay-append json v proof u [] r h = ap (λ w. replay_step json v w r >>= ok) (ok-injective h)
replay-append json v proof u (x ∷ rs) r h =
    let (proof', stepped, h1) = >>=-eq-ok (replay_step json v proof x) _ h in
    rw stepped (replay-append json v proof' u rs r h1)

-- The replay of an admissible snapshot's receipts is the snapshot itself.
pub validate-replay :
    (json : Json) (store : Store) (s : Snapshot)
    → validate json store s ≡ ok tt
    → replay json schema_version (empty store) s.receipts ≡ ok (upgraded s)
unfolding bad_identity empty upgraded
validate-replay json store s h =
    let (identity, (proof, replayed, same)) = validate-eq-ok json store s h in
    let (rs, n, w, m, k) =
      replay-journal json s.schema_version (empty store) s.receipts proof replayed in
    let w' : s.workspace ≡ store.workspace = (eq_iff _ _).0 (ground arith) in
    let m' : s.mission ≡ store.mission = (eq_iff _ _).0 (ground arith) in
    let n' : s.revision ≡ length s.receipts = (==_iff _ _).0 (ground arith) in
    let total : proof.revision ≡ s.revision = omega (arith, n, n') in
    replay_current json s.schema_version (empty store) s.receipts proof replayed
    ∙ ap ok (λ i. record {
      schema_version = k i;
      workspace = (w ∙ sym w') i;
      mission = (m ∙ sym m') i;
      revision = total i;
      tasks = same i;
      receipts = rs i;
    })

upgraded-IsWellFormed : (s : Snapshot) → IsWellFormed s → IsWellFormed (upgraded s)
unfolding upgraded
upgraded-IsWellFormed s w = record { numbered = w.numbered; lawful = w.lawful; bounded = w.bounded }

fresh-IsWellFormed : (store : Store) → IsWellFormed (empty store)
unfolding empty
fresh-IsWellFormed store = record { numbered = tt; lawful = tt; bounded = omega arith }

-- A snapshot that `validate` admits is well formed.
pub validate-IsWellFormed :
    (json : Json) (store : Store) (s : Snapshot) → validate json store s ≡ ok tt → IsWellFormed s
unfolding upgraded
validate-IsWellFormed json store s h = same (
    replay-inv IsWellFormed json schema_version
      (λ proof r out w _ applied.
        carry out.0 r (apply-IsWellFormed json proof r.request.action out w applied))
      (empty store) s.receipts (upgraded s) (fresh-IsWellFormed store)
      (validate-replay json store s h))
  where
    carry : (p : Snapshot) (r : Receipt) → IsWellFormed p → IsWellFormed (record_receipt p r)
    carry p r w = record { numbered = w.numbered; lawful = w.lawful; bounded = w.bounded }

    same : IsWellFormed (record s { schema_version = schema_version }) → IsWellFormed s
    same w = record { numbered = w.numbered; lawful = w.lawful; bounded = w.bounded }

-- The snapshot that `transact` writes after it applied `request` to `s` with the result `out`.
abbrev pub committed : Snapshot × ℕ → Request → Snapshot
committed out request =
    record_receipt out.0 (record { request = request; revision = out.0.revision + 1; task = out.1 })

replayed_commit :
    (json : Json) (s : Snapshot) (request : Request) (out : Snapshot × ℕ)
    → text_valid request.correlation 160 ≡ true
    → has_correlation request.correlation s.receipts ≡ false
    → request.expected_revision ≡ s.revision
    → ungoverned_failure request.action ≡ false
    → apply json (upgraded s) request.action ≡ ok out
    → replay_step json schema_version
        (upgraded s)
        (record { request = request; revision = out.0.revision + 1; task = out.1 })
      ≡ ok (committed out request)
unfolding replay_step bad_sequence upgraded
replayed_commit json s request out valid new current governed applied =
    let (_, n, _, _, _) =
      Changes-journal (apply-Changes json (upgraded s) request.action applied) in
    rw (schema_checks_current request.action governed) (
      rw
        (
          applied,
          valid,
          new,
          current,
          n,
          (==_iff s.revision s.revision).1 refl,
          (==_iff (s.revision + 1) (s.revision + 1)).1 refl,
          (==_iff out.1 out.1).1 refl,
        )
        refl)

upgraded-receipts : (s : Snapshot) → (upgraded s).receipts ≡ s.receipts
unfolding upgraded
upgraded-receipts s = refl

upgraded-schema : (s : Snapshot) → (upgraded s).schema_version ≡ schema_version
unfolding upgraded
upgraded-schema s = refl

is_yes_refuse {ℓ} : {P : Type ℓ} (e : String) (d : Dec P) → P → refuse_if (not (is_yes d)) e ≡ ok tt
is_yes_refuse e (yes p) h = refl
is_yes_refuse e (no p) h = absurd (p h)

committed_identity :
    (json : Json) (store : Store) (s : Snapshot) (request : Request) (out : Snapshot × ℕ)
    → validate json store s ≡ ok tt
    → (length s.receipts == max_receipts) ≡ false
    → apply json (upgraded s) request.action ≡ ok out
    → bad_identity store (committed out request) ≡ false
unfolding bad_identity upgraded
committed_identity json store s request out h room applied =
    let (identity, _) = validate-eq-ok json store s h in
    let (rs, n, w, m, k) =
      Changes-journal (apply-Changes json (upgraded s) request.action applied) in
    let well =
      apply-IsWellFormed json (upgraded s) request.action out
        (upgraded-IsWellFormed s (validate-IsWellFormed json store s h)) applied in
    let count : length (
          out.0.receipts
          ++ (record { request = request; revision = out.0.revision + 1; task = out.1 }) ∷ [])
        ≡ length s.receipts + 1 =
      length-append out.0.receipts _ ∙ ap (λ q. length q + 1) rs in
    rw (count, n, w, m, k) (ground (arith, well.bounded))

-- A snapshot that `validate` admits is admitted again with one more request in it, when the request
-- has a valid correlation that no receipt has, names the current revision, is no ungoverned
-- architecture failure, is applied with success, and the journal is not full.
pub commit_validates :
    (json : Json) (store : Store) (s : Snapshot) (request : Request) (out : Snapshot × ℕ)
    → validate json store s ≡ ok tt
    → text_valid request.correlation 160 ≡ true
    → has_correlation request.correlation s.receipts ≡ false
    → request.expected_revision ≡ s.revision
    → ungoverned_failure request.action ≡ false
    → (length s.receipts == max_receipts) ≡ false
    → apply json (upgraded s) request.action ≡ ok out
    → validate json store (committed out request) ≡ ok tt
unfolding validate
commit_validates json store s request out h valid new current governed room applied =
    let (rs, n, w, m, k) =
      Changes-journal (apply-Changes json (upgraded s) request.action applied) in
    let same_receipts : out.0.receipts ≡ s.receipts = rs ∙ upgraded-receipts s in
    let receipt : Receipt = record {
      request = request;
      revision = out.0.revision + 1;
      task = out.1;
    } in
    let replayed : replay json schema_version (empty store) (s.receipts ++ receipt ∷ [])
        ≡ ok (committed out request) =
      replay-append json schema_version (empty store) (upgraded s) s.receipts receipt
        (validate-replay json store s h)
      ∙ ap (λ q. q >>= ok)
          (replayed_commit json s request out valid new current governed applied) in
    rw
      (
        committed_identity json store s request out h room applied,
        k ∙ upgraded-schema s,
        same_receipts,
        replayed,
      )
      (is_yes_refuse _ (Task-discrete out.0.tasks out.0.tasks) refl)
