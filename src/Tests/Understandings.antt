-- ===== src/Tests/Understandings.antt =====
-- A project whose understanding is drafted and confirmed, alfredo-tui/src/understanding.rs, and
-- witnesses.
use Prim.Native.String.{len}
use alfredo.Base.{
  ℕ, ◌+◌, ◌*◌, ◌≤◌, ◌<◌, String, true, false, ◌≡◌, ◌↔◌, refl, ap, List, [], ◌∷◌, ◌++◌, none, some,
  Result, ok, arith, ok-injective,
}
use alfredo.Text.{starts_with, String-discrete}
use alfredo.Scope
use alfredo.Scope.{Brief, Brief-discrete, binding, validate_brief, bad_field}
use alfredo.Understanding.{
  draft, confirm, Request, Receipt, Snapshot, view, apply, actor, validate_request, bad_prompt,
  Request-discrete,
}
use alfredo.Understanding.Journal.{
  Store, File, absent, bytes, Host, missing, read, receipt_of, find_receipt, transact, quotes,
  empty, check, bad_identity, has_id, replay, replay_step, differs, fits, reserve, reserve_draft,
  prepare, commit, snapshot, lock_error,
}
use alfredo.Understanding.Binding.{read-binding_valid, confirmed_exact}
use alfredo.Understanding.Durable.{Outcome, scope_transact-Outcome}
use alfredo.Understanding.Once.{retry_idempotent}
use alfredo.Understanding.Reserve.{
  bad_correlation, confirm_with, QuotesAreLongest, draft_confirmable,
}
use alfredo.Understanding.Cleared.{clear_flow, flow_cleared, cleared_exact}
use alfredo.Tasks.Transact.{taken, synced}

abbrev store : Store
store = record { workspace = "/work" }

-- An encoder that spends two bytes for each byte of a correlation, and a fixed number for the rest.
abbrev correlation_bytes : List Receipt → ℕ
correlation_bytes [] = 400
correlation_bytes (r ∷ rs) = 2 * len r.request.correlation + correlation_bytes rs

abbrev encode : Snapshot → Result ℕ
encode s = ok (correlation_bytes s.receipts)

abbrev host : Host
host = record {
  snapshot_bytes = encode;
  lock = taken;
  original = ok "";
  backup = missing;
  create_backup = ok tt;
  write = synced;
}

abbrev goal : Brief
goal = record {
  destination = "A faster search";
  scope = "The index only";
  constraints = "No new service";
  uncertainty = "Size of the index";
}

abbrev draft_request : Request
draft_request = record { correlation = "scope-1"; expected_revision = 0; action = draft goal }

abbrev confirm_request : Request
confirm_request = record { correlation = "scope-2"; expected_revision = 1; action = confirm 1 }

abbrev drafted : Snapshot
drafted = record {
  schema_version = 2;
  workspace = "/work";
  revision = 1;
  draft_revision = 1;
  brief = some goal;
  confirmed = false;
  flow = none;
  receipts = receipt_of draft_request ∷ [];
}

abbrev confirmed : Snapshot
confirmed = record {
  schema_version = 2;
  workspace = "/work";
  revision = 2;
  draft_revision = 1;
  brief = some goal;
  confirmed = true;
  flow = none;
  receipts = receipt_of draft_request ∷ receipt_of confirm_request ∷ [];
}

abbrev file : File
file = bytes 428 (some confirmed)

-- `transact` and `read`, open for the tests.
run : Host → Store → File → Request → Result Snapshot × File
unfolding transact validate_request validate_brief bad_field lock_error commit find_receipt empty
    prepare apply reserve_draft reserve fits read check bad_identity replay replay_step actor has_id
    differs Brief-discrete String-discrete Request-discrete bad_prompt
run h s f r = transact h s f r

reading : Store → File → Result Snapshot
unfolding run
reading s f = read s f

abbrev empty_state : Snapshot
unfolding empty
empty_state = empty store

absent_reads : read store absent ≡ ok empty_state
unfolding reading
absent_reads = refl

absent_new : find_receipt "scope-1" empty_state.receipts ≡ none
unfolding find_receipt empty
absent_new = refl

good_id : bad_correlation "yes-1" ≡ false
unfolding bad_correlation
good_id = refl

new_id : find_receipt "yes-1" drafted.receipts ≡ none
unfolding find_receipt
new_id = refl

cleared : (clear_flow host store file (ok tt) none).0 ≡ ok confirmed
unfolding clear_flow snapshot reading
cleared = refl

drafts : transact host store absent draft_request ≡ (ok drafted, bytes 414 (some drafted))
unfolding run
drafts = refl

confirms :
    transact host store (bytes 414 (some drafted)) confirm_request
    ≡ (ok confirmed, bytes 428 (some confirmed))
unfolding run
confirms = refl

file_reads : read store file ≡ ok confirmed
unfolding reading
file_reads = refl

scope_transact-Outcome_example :
    Outcome host store
      (bytes 414 (some drafted))
      confirm_request
      (transact host store (bytes 414 (some drafted)) confirm_request)
scope_transact-Outcome_example =
    scope_transact-Outcome host store (bytes 414 (some drafted)) confirm_request

retry_idempotent_example :
    transact host store (transact host store absent draft_request).1 draft_request
    ≡ (ok drafted, (transact host store absent draft_request).1)
retry_idempotent_example =
    retry_idempotent host host store absent draft_request drafted (ap (λ q. q.0) drafts) refl

read-binding_valid_example : Scope.validate (binding (view confirmed)) ≡ ok tt
unfolding starts_with
read-binding_valid_example = read-binding_valid store file confirmed refl file_reads

confirmed_exact_example :
    (before : List Receipt) × (r : Receipt) × (last : Receipt) × (b : Brief) × (confirmed.receipts
      ≡ before ++ (r ∷ last ∷ []))
    × (r.request.action ≡ draft b)
    × (last.request.action ≡ confirm confirmed.draft_revision)
    × (confirmed.brief ≡ some b)
confirmed_exact_example = confirmed_exact store file confirmed file_reads refl

correlation_bytes-append :
    (rs : List Receipt) (r : Receipt)
    → correlation_bytes (rs ++ r ∷ []) ≡ correlation_bytes rs + 2 * len r.request.correlation
correlation_bytes-append [] r = omega arith
correlation_bytes-append (x ∷ rs) r = omega (arith, correlation_bytes-append rs r)

abbrev with_id : Snapshot → String → Receipt
with_id s c = record { request = confirm_with s c; actor = "mission-commander" }

encode_longest : QuotesAreLongest encode
unfolding bad_correlation quotes
encode_longest s t c n good encoded =
    let longest : Receipt = with_id s (quotes 160) in
    let chosen : Receipt = with_id s c in
    let size : correlation_bytes (t.receipts ++ longest ∷ []) ≡ n = ok-injective encoded in
    let marks : len (quotes 160) ≡ 160 = refl in
    let short : len c ≤ 160 = ground arith in
    (
      correlation_bytes (t.receipts ++ chosen ∷ []),
      refl,
      omega (
        arith,
        correlation_bytes-append t.receipts longest,
        correlation_bytes-append t.receipts chosen,
      ),
    )

draft_confirmable_example :
    (u : Snapshot) × ((transact host store
        (transact host store absent draft_request).1
        (confirm_with drafted "yes-1")).0
      ≡ ok u)
    × (u.confirmed ≡ true)
    × (u.brief ≡ some goal)
draft_confirmable_example =
    draft_confirmable host host store absent draft_request empty_state drafted goal "yes-1" refl
      absent_reads absent_new (ap (λ q. q.0) drafts) encode_longest refl refl refl good_id new_id

cleared_exact_example :
    (read store file ≡ ok confirmed)
    × (0 < confirmed.revision)
    × ((flow_cleared (clear_flow host store file (ok tt) none).1 2 ≡ true)
        ↔ (2 ≡ confirmed.revision))
cleared_exact_example = cleared_exact host store file (ok tt) none confirmed 2 cleared
