-- ===== src/Understanding/Replay.antt =====
-- What `Store::read` of alfredo-tui/src/understanding.rs proves of a stored snapshot by the replay of
-- its receipts, and that one more applied request leaves it readable.
use text.Mathlib.Text.{◌==◌ as str_eq}
use text.Mathlib.TextEquality.{eq_iff}
use alfredo.Base.{
  ℕ, ◌+◌, String, true, false, ◌≡◌, refl, sym, ◌∙◌, ap, subst, List, [], ◌∷◌, ◌++◌, append-nil,
  append_assoc, none, ok, arith, ◌>>=◌, >>-eq-ok, >>=-eq-ok, refuse_if-eq-ok, ok-injective, ==_iff,
  ◌==◌, length, length-append, is_yes→path, is_yes_of,
}
use alfredo.Understanding.{
  Action, enter, draft, confirm, Request, Receipt, Snapshot, apply, actor, validate_request,
}
use alfredo.Understanding.Journal.{
  Store, empty, max_receipts, bad_identity, has_id, replay_step, replay, differs, check,
  FlowOption-discrete, BriefOption-discrete, Bool-discrete, receipt_of, record_request,
  find_receipt,
}
use alfredo.Understanding.Stages.{
  Stage, outside, entered, drafted, agreed, apply-frame, apply-Stage,
}

-- The state that the replay keeps: no receipts, and the schema of today.
unfoldable pub settled : Snapshot → Snapshot
settled s = record s { schema_version = 2; receipts = [] }

-- The correlations that the loop has seen after `rs`.
ids_after : List String → List Receipt → List String
ids_after ids [] = ids
ids_after ids (r ∷ rs) = ids_after (r.request.correlation ∷ ids) rs

pub replay_step-apply :
    (v : ℕ) (proof : Snapshot) (ids : List String) (r : Receipt) {t : Snapshot}
    → replay_step v proof ids r ≡ ok t
    → apply proof r.request.action ≡ ok t
unfolding replay_step
replay_step-apply v proof ids r h =
    let (_, h1) = >>-eq-ok _ _ h in
    let (_, h2) = >>-eq-ok (validate_request r.request) _ h1 in let (_, h3) = >>-eq-ok _ _ h2 in h3

replay_step_current :
    (v : ℕ) (proof : Snapshot) (ids : List String) (r : Receipt) {t : Snapshot}
    → replay_step v proof ids r ≡ ok t
    → replay_step 2 proof ids r ≡ ok t
unfolding replay_step
replay_step_current v proof ids r h = ground arith

replay_current :
    (v : ℕ) (proof : Snapshot) (ids : List String) (rs : List Receipt) (t : Snapshot)
    → replay v proof ids rs ≡ ok t
    → replay 2 proof ids rs ≡ ok t
unfolding replay
replay_current v proof ids [] t h = h
replay_current v proof ids (r ∷ rs) t h =
    let (u, stepped, h1) = >>=-eq-ok (replay_step v proof ids r) _ h in
    rw (replay_step_current v proof ids r stepped)
      (replay_current v u (r.request.correlation ∷ ids) rs t h1)

pub replay-frame :
    (v : ℕ) (proof : Snapshot) (ids : List String) (rs : List Receipt) (t : Snapshot)
    → replay v proof ids rs ≡ ok t
    → (t.receipts ≡ proof.receipts)
      × (t.workspace ≡ proof.workspace)
      × (t.schema_version ≡ proof.schema_version)
      × (t.revision ≡ proof.revision + length rs)
unfolding replay
replay-frame v proof ids [] t h = ground arith
replay-frame v proof ids (r ∷ rs) t h =
    let (u, stepped, h1) = >>=-eq-ok (replay_step v proof ids r) _ h in
    let (rs1, w1, k1, n1) =
      apply-frame proof r.request.action (replay_step-apply v proof ids r stepped) in
    let (rs2, w2, k2, n2) = replay-frame v u (r.request.correlation ∷ ids) rs t h1 in
    (rs2 ∙ rs1, w2 ∙ w1, k2 ∙ k1, omega arith)

replay-Stage :
    (v : ℕ) (proof : Snapshot) (ids : List String) (seen rs : List Receipt) (t : Snapshot)
    → replay v proof ids rs ≡ ok t
    → Stage proof seen
    → Stage t (seen ++ rs)
unfolding replay
replay-Stage v proof ids seen [] t h stage =
    subst (λ q. Stage t q) (sym (append-nil seen))
      (subst (λ q. Stage q seen) (ok-injective h) stage)
replay-Stage v proof ids seen (r ∷ rs) t h stage =
    let (u, stepped, h1) = >>=-eq-ok (replay_step v proof ids r) _ h in
    subst (λ q. Stage t q) (append_assoc seen (r ∷ []) rs)
      (replay-Stage v u (r.request.correlation ∷ ids) (seen ++ r ∷ []) rs t h1
        (apply-Stage proof u seen r (replay_step-apply v proof ids r stepped) stage))

replay-append :
    (v : ℕ) (proof : Snapshot) (ids : List String) (rs : List Receipt) (r : Receipt) (t : Snapshot)
    → replay v proof ids rs ≡ ok t
    → replay v proof ids (rs ++ r ∷ []) ≡ (replay_step v t (ids_after ids rs) r >>= ok)
unfolding replay ids_after
replay-append v proof ids [] r t h = ap (λ q. replay_step v q ids r >>= ok) (ok-injective h)
replay-append v proof ids (x ∷ rs) r t h =
    let (u, stepped, h1) = >>=-eq-ok (replay_step v proof ids x) _ h in
    rw stepped (replay-append v u (x.request.correlation ∷ ids) rs r t h1)

has_id-ids_after :
    (c : String) (ids : List String) (rs : List Receipt)
    → has_id c ids ≡ false
    → find_receipt c rs ≡ none
    → has_id c (ids_after ids rs) ≡ false
unfolding has_id ids_after find_receipt
has_id-ids_after c ids [] h k = h
has_id-ids_after c ids (r ∷ rs) h k =
    has_id-ids_after c (r.request.correlation ∷ ids) rs (ground arith) (ground arith)

unsettle : (s : Snapshot) (rs : List Receipt) → Stage (settled s) rs → Stage s rs
unfolding settled
unsettle s rs (outside a b c d e f) = outside a b c d e f
unsettle s rs (entered f a b c d e g) = entered f a b c d e g
unsettle s rs (drafted p r b c d e f g h i) = drafted p r b c d e f g h i
unsettle s rs (agreed p r q b c d e f g h i j) = agreed p r q b c d e f g h i j

module _ (store : Store) (s : Snapshot) (checked : check store s ≡ ok tt) where
  -- The parts of `check`: the replay gives the state itself.
  pub check-replay :
      (bad_identity store s ≡ false)
      × (replay s.schema_version (empty store) [] s.receipts ≡ ok (settled s))
  unfolding check differs bad_identity settled empty
  check-replay =
      let (identity, h1) = >>-eq-ok _ _ checked in
      let known = refuse_if-eq-ok _ _ identity in
      let (proof, replayed, h2) =
        >>=-eq-ok (replay s.schema_version (empty store) [] s.receipts) _ h1 in
      let same = refuse_if-eq-ok _ _ h2 in
      let (rs, w, k, n) =
        replay-frame s.schema_version (empty store) [] s.receipts proof replayed in
      let w' : s.workspace ≡ store.workspace = (eq_iff _ _).0 (ground arith) in
      let n' : s.revision ≡ length s.receipts = (==_iff _ _).0 (ground arith) in
      let f : proof.flow ≡ s.flow =
        is_yes→path (FlowOption-discrete proof.flow s.flow) (ground arith) in
      let b : proof.brief ≡ s.brief =
        is_yes→path (BriefOption-discrete proof.brief s.brief) (ground arith) in
      let c : proof.confirmed ≡ s.confirmed =
        is_yes→path (Bool-discrete proof.confirmed s.confirmed) (ground arith) in
      let d : proof.draft_revision ≡ s.draft_revision = (==_iff _ _).0 (ground arith) in
      let total : proof.revision ≡ s.revision = omega (arith, n, n') in
      (
        known,
        replayed
            ∙ ap ok (λ i. record {
              schema_version = k i;
              workspace = (w ∙ sym w') i;
              revision = total i;
              draft_revision = d i;
              brief = b i;
              confirmed = c i;
              flow = f i;
              receipts = rs i;
            }),
      )

  settled_Stage : Stage (settled s) s.receipts
  settled_Stage =
      replay-Stage s.schema_version (empty store) [] [] s.receipts (settled s) check-replay.1
        (unfold empty in outside refl refl refl refl refl refl)

  -- Every readable snapshot is at a stage of its journal.
  pub check-Stage : Stage s s.receipts
  check-Stage = unsettle s s.receipts settled_Stage

apply-settled :
    (s t : Snapshot) (a : Action) → apply s a ≡ ok t → apply (settled s) a ≡ ok (settled t)
unfolding apply settled
apply-settled s t (enter f) h = ground arith
apply-settled s t (draft b) h = ground arith
apply-settled s t (confirm n) h = ground arith

actor_known : (a : Action) → str_eq (actor a) (actor a) ≡ true
actor_known a = (eq_iff (actor a) (actor a)).1 refl

-- The receipt of a new request replays on the state that `commit` found.
replayed_commit :
    (s t : Snapshot) (ids : List String) (request : Request)
    → validate_request request ≡ ok tt
    → request.expected_revision ≡ s.revision
    → has_id request.correlation ids ≡ false
    → apply s request.action ≡ ok t
    → replay_step 2 (settled s) ids (receipt_of request) ≡ ok (settled t)
unfolding replay_step
replayed_commit s t ids request valid current new applied =
    rw (valid, new, actor_known request.action, apply-settled s t request.action applied)
      (unfold settled in ground arith)

committed_identity :
    (store : Store) (s t : Snapshot) (request : Request)
    → bad_identity store s ≡ false
    → (length s.receipts == max_receipts) ≡ false
    → apply s request.action ≡ ok t
    → bad_identity store (record_request t request) ≡ false
unfolding bad_identity
committed_identity store s t request known room applied =
    let (rs, w, _, n) = apply-frame s request.action applied in
    let longer = length-append t.receipts (receipt_of request ∷ []) in
    rw (w, rs) (ground (arith, length-append s.receipts (receipt_of request ∷ [])))

settled_same :
    (t : Snapshot) (rs : List Receipt)
    → differs (settled t) (record t { schema_version = 2; receipts = rs }) ≡ false
unfolding differs settled
settled_same t rs =
    rw
      (
        is_yes_of (FlowOption-discrete t.flow t.flow) refl,
        is_yes_of (BriefOption-discrete t.brief t.brief) refl,
        is_yes_of (Bool-discrete t.confirmed t.confirmed) refl,
        (==_iff t.draft_revision t.draft_revision).1 refl,
      )
      refl

-- What `commit` writes after it applied a new request is readable again.
pub committed_checks :
    (store : Store) (s t : Snapshot) (request : Request)
    → check store s ≡ ok tt
    → validate_request request ≡ ok tt
    → find_receipt request.correlation s.receipts ≡ none
    → request.expected_revision ≡ s.revision
    → (length s.receipts == max_receipts) ≡ false
    → apply s request.action ≡ ok t
    → check store (record_request t request) ≡ ok tt
unfolding check
committed_checks store s t request checked valid new current room applied =
    let (known, replayed) = check-replay store s checked in
    let (rs, _, _, _) = apply-frame s request.action applied in
    let extended : replay 2 (empty store) [] (s.receipts ++ receipt_of request ∷ [])
        ≡ ok (settled t) =
      replay-append 2 (empty store) [] s.receipts (receipt_of request) (settled s)
        (replay_current s.schema_version (empty store) [] s.receipts (settled s) replayed)
      ∙ ap (λ q. q >>= ok)
          (replayed_commit s t (ids_after [] s.receipts) request valid current
            (has_id-ids_after request.correlation [] s.receipts (unfold has_id in refl) new)
            applied) in
    rw (committed_identity store s t request known room applied, rs, extended)
      (rw (settled_same t (s.receipts ++ receipt_of request ∷ [])) refl)
