-- ===== src/Understanding/Reserve.antt =====
-- The room that `commit` of alfredo-tui/src/understanding.rs keeps for the confirmation of a draft.
use Prim.Native.String.{len}
use alfredo.Base.{
  ℕ, ◌+◌, ◌≤◌, ◌<◌, String, Bool, true, false, ◌&&◌, ◌||◌, ◌≡◌, refl, sym, ◌∙◌, ap, subst, [], ◌∷◌,
  ◌++◌, none, some, Result, ok, arith, ◌>>◌, >>=-eq-ok, refuse_if-eq-ok, ok-injective, ==_iff, ◌==◌,
  length, length-append, ltb, any, if◌then◌else◌,
}
use alfredo.Text.{chars, is_blank, is_control}
use alfredo.Scope.{Brief}
use alfredo.Understanding.{
  draft, confirm, Request, Snapshot, apply, validate_request, is_draft, actor,
}
use alfredo.Understanding.Journal.{
  Store, File, Host, max_receipts, read, limit, receipt_of, record_request, find_receipt, quotes,
  confirmation, fits, reserve, reserve_draft, prepare, size_of, write_file, save, answer,
  commit_read, commit, transact, lock_error, guarded,
}
use alfredo.Understanding.Stages.{apply-frame}
use alfredo.Understanding.Replay.{check-replay}
use alfredo.Understanding.Binding.{read-check, identity_bounds}
use alfredo.Understanding.Once.{acknowledged_read}
use alfredo.Understanding.Durable.{
  IsPrepared, Outcome, refuses, repeats, commits, unsure, scope_transact-Outcome,
}
use alfredo.Tasks.Transact.{taken, synced}

-- A correlation that `validate_request` admits.
unfoldable pub bad_correlation : String → Bool
bad_correlation c = is_blank c || ltb 160 (len c) || any is_control (chars c)

-- The confirmation of the draft of `s`, as a terminal sends it.
abbrev pub confirm_with : Snapshot → String → Request
confirm_with s c = record {
  correlation = c;
  expected_revision = s.revision;
  action = confirm s.draft_revision;
}

abbrev with_receipt : Snapshot → Request → Snapshot
with_receipt s r = record s {
  receipts = s.receipts ++ (record { request = r; actor = "mission-commander" }) ∷ [];
}

-- What JSON promises of texts: no admitted correlation of a last receipt is longer, once escaped, than
-- 160 quotation marks.
abbrev pub QuotesAreLongest : (Snapshot → Result ℕ) → Type 0
QuotesAreLongest encode =
    (s t : Snapshot) (c : String) (n : ℕ)
    → bad_correlation c ≡ false
    → encode (with_receipt t (confirm_with s (quotes 160))) ≡ ok n
    → (m : ℕ) × (encode (with_receipt t (confirm_with s c)) ≡ ok m) × (m ≤ n)

-- What a committed draft has reserved.
record IsReserved (host : Host) (s : Snapshot) (b : Brief) : Type 0 where
  agreed_state : Snapshot
  agreed_size : ℕ
  drafted : s.brief ≡ some b
  current_schema : s.schema_version ≡ 2
  exact : s.revision ≡ s.draft_revision
  positive : 0 < s.draft_revision
  spare : ltb max_receipts (length s.receipts + 1) ≡ false
  applies : apply s (confirm s.draft_revision) ≡ ok agreed_state
  encoded :
      host.snapshot_bytes (with_receipt agreed_state (confirm_with s (quotes 160))) ≡ ok agreed_size
  within : ltb limit agreed_size ≡ false

draft_state :
    (s t : Snapshot) (b : Brief)
    → apply s (draft b) ≡ ok t
    → (t.brief ≡ some b) × (t.revision ≡ t.draft_revision) × (0 < t.draft_revision)
unfolding apply
draft_state s t b h = (ground arith, ground arith, ground arith)

reserve_parts :
    (host : Host) (s : Snapshot)
    → reserve host s ≡ ok tt
    → (u : Snapshot) × (n : ℕ) × (apply s (confirm s.draft_revision) ≡ ok u)
      × (host.snapshot_bytes (with_receipt u (confirm_with s (quotes 160))) ≡ ok n)
      × (ltb limit n ≡ false)
unfolding reserve confirmation fits
reserve_parts host s h =
    let (u, applied, h1) = >>=-eq-ok (apply s (confirm s.draft_revision)) _ h in
    let (n, encoded, h2) = >>=-eq-ok (host.snapshot_bytes _) _ h1 in
    (u, n, applied, encoded, refuse_if-eq-ok _ _ h2)

prepared-IsReserved :
    (host : Host) (s t : Snapshot) (request : Request) (b : Brief)
    → request.action ≡ draft b
    → IsPrepared host s request t
    → IsReserved host (record_request t request) b
unfolding reserve_draft
prepared-IsReserved host s t request b drawn p =
    let applied : apply s (draft b) ≡ ok t = subst (λ a. apply s a ≡ ok t) drawn p.applied in
    let (brief, exact, positive) = draft_state s t b applied in
    let (rs, _, _, _) = apply-frame s request.action p.applied in
    let is_drawn : is_draft request.action ≡ true = ap is_draft drawn in
    let room : ltb max_receipts (length s.receipts + 2) ≡ false =
      subst (λ q. (q && ltb max_receipts (length s.receipts + 2)) ≡ false) is_drawn p.spare in
    let reserved : reserve host (record_request t request) ≡ ok tt =
      subst (λ q. (if q then reserve host (record_request t request) else ok tt) ≡ ok tt) is_drawn
        p.reserved in
    let (u, n, applies, encoded, within) = reserve_parts host (record_request t request) reserved in
    record {
      agreed_state = u;
      agreed_size = n;
      drafted = brief;
      current_schema = refl;
      exact = exact;
      positive = positive;
      spare = rw rs (ground (arith, length-append s.receipts (receipt_of request ∷ [])));
      applies = applies;
      encoded = encoded;
      within = within;
    }

confirm_applied :
    (s u : Snapshot)
    → apply s (confirm s.draft_revision) ≡ ok u
    → (u.confirmed ≡ true) × (u.brief ≡ s.brief) × (u.schema_version ≡ s.schema_version)
unfolding apply
confirm_applied s u h = (ground arith, ground arith, ground arith)

module _ (host again : Host) (s : Snapshot) (b : Brief) (c : String) (r : IsReserved host s b)
    (same : again.snapshot_bytes ≡ host.snapshot_bytes)
    (longest : QuotesAreLongest host.snapshot_bytes) (good : bad_correlation c ≡ false) where
  agreed : Snapshot
  agreed = record_request r.agreed_state (confirm_with s c)

  agreed_is : agreed ≡ with_receipt r.agreed_state (confirm_with s c)
  unfolding agreed actor
  agreed_is =
      let (_, _, k) = confirm_applied s r.agreed_state r.applies in
      λ i. record (with_receipt r.agreed_state (confirm_with s c)) {
        schema_version = sym (k ∙ r.current_schema) i;
      }

  agreed_bytes : (m : ℕ) × (again.snapshot_bytes agreed ≡ ok m) × (ltb limit m ≡ false)
  agreed_bytes =
      let (m, encoded, short) = longest s r.agreed_state c r.agreed_size good r.encoded in
      let within : ltb limit r.agreed_size ≡ false = r.within in
      (m, ap (λ f. f agreed) same ∙ ap host.snapshot_bytes agreed_is ∙ encoded, ground arith)

  confirm_prepared : prepare again s (confirm_with s c) ≡ ok agreed
  unfolding prepare fits reserve_draft agreed
  confirm_prepared =
      let (m, encoded, within) = agreed_bytes in
      let room : (length s.receipts == max_receipts) ≡ false =
        let spare : ltb max_receipts (length s.receipts + 1) ≡ false = r.spare in ground arith in
      rw ((==_iff s.revision s.revision).1 refl, room, r.applies, encoded, within, r.current_schema)
        refl

confirm_valid :
    (s : Snapshot) (c : String)
    → bad_correlation c ≡ false
    → s.revision ≡ s.draft_revision
    → 0 < s.draft_revision
    → s.revision ≤ 256
    → validate_request (confirm_with s c) ≡ ok tt
unfolding validate_request bad_correlation
confirm_valid s c good exact positive short =
    let small : ltb 256 s.revision ≡ false = ground arith in
    let small_draft : ltb 256 s.draft_revision ≡ false = ground arith in
    let some_draft : (s.draft_revision == 0) ≡ false = ground arith in
    let same : (s.revision == s.draft_revision) ≡ true = (==_iff _ _).1 exact in ground arith

-- A valid new request whose preparation and write succeed is acknowledged with the prepared state.
transact_prepared :
    (host : Host) (store : Store) (file : File) (request : Request) (s u : Snapshot)
    → validate_request request ≡ ok tt
    → host.lock ≡ taken
    → host.write ≡ synced
    → read store file ≡ ok s
    → find_receipt request.correlation s.receipts ≡ none
    → prepare host s request ≡ ok u
    → (transact host store file request).0 ≡ ok u
unfolding transact guarded commit commit_read answer save write_file lock_error
transact_prepared host store file request s u valid lock write old new prepared =
    let entry : (validate_request request >> lock_error host.lock) ≡ ok tt =
      rw valid (ap lock_error lock) in
    ap (λ q. (guarded file q (commit host store file request)).0) entry
    ∙ rw (old, new, prepared) (ap (λ w. (write_file w file (size_of host u) u).0) write)

outcome-IsReserved :
    (host : Host) (store : Store) (file : File) (request : Request) {out : Result Snapshot × File}
    (old s : Snapshot) (b : Brief)
    → Outcome host store file request out
    → out.0 ≡ ok s
    → read store file ≡ ok old
    → find_receipt request.correlation old.receipts ≡ none
    → request.action ≡ draft b
    → IsReserved host s b
outcome-IsReserved host store file request old s b (refuses e) h was new drawn =
    absurd (ground arith)
outcome-IsReserved host store file request old s b (unsure _ _ e _ _ _ _ _) h was new drawn =
    absurd (ground arith)
outcome-IsReserved host store file request old s b (repeats u r read_it found _) h was new drawn =
    let same : old ≡ u = ok-injective (sym was ∙ read_it) in
    absurd (ground (arith, ap (λ q. find_receipt request.correlation q.receipts) same))
outcome-IsReserved host store file request old s b (commits u t file' _ _ prepared _) h was new
      drawn =
    subst (λ q. IsReserved host q b) (ok-injective h)
      (prepared-IsReserved host u t request b drawn prepared)

-- A draft that is committed as a new request can be confirmed: with the lock free and a write that
-- succeeds, the confirmation of its revision, sent next under a fresh correlation, is acknowledged, and the
-- state then has the draft's brief, confirmed. JSON is taken to escape no correlation to more bytes than 160
-- quotation marks.
pub draft_confirmable :
    (host again : Host) (store : Store) (file : File) (request : Request) (old s : Snapshot)
    (b : Brief) (c : String)
    → request.action ≡ draft b
    → read store file ≡ ok old
    → find_receipt request.correlation old.receipts ≡ none
    → (transact host store file request).0 ≡ ok s
    → QuotesAreLongest host.snapshot_bytes
    → again.snapshot_bytes ≡ host.snapshot_bytes
    → again.lock ≡ taken
    → again.write ≡ synced
    → bad_correlation c ≡ false
    → find_receipt c s.receipts ≡ none
    → (u : Snapshot) × ((transact again store
          (transact host store file request).1
          (confirm_with s c)).0
        ≡ ok u)
      × (u.confirmed ≡ true)
      × (u.brief ≡ some b)
unfolding agreed
draft_confirmable host again store file request old s b c drawn was new done longest same lock write
      good fresh =
    let (_, now, _, _) = acknowledged_read host store file request s done in
    let file' = (transact host store file request).1 in
    let r =
      outcome-IsReserved host store file request old s b
        (scope_transact-Outcome host store file request) done was new drawn in
    let short = identity_bounds store s (check-replay store s (read-check store file' s now)).0 in
    let (confirmed, brief, _) = confirm_applied s r.agreed_state r.applies in
    (
      agreed host again s b c r same longest good,
      transact_prepared again store file' (confirm_with s c) s
          (agreed host again s b c r same longest good)
          (confirm_valid s c good r.exact r.positive short) lock write now fresh
          (confirm_prepared host again s b c r same longest good),
      confirmed,
      brief ∙ r.drafted,
    )
