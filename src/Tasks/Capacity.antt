-- ===== src/Tasks/Capacity.antt =====
-- `require_completion_capacity` of alfredo-tui/src/tasks.rs: room in the journal, and in the file,
-- for the report of every running worker. The size of a snapshot's JSON is a parameter.
use alfredo.Base.{
  ℕ, suc, zero, ◌+◌, ◌*◌, ◌≤◌, String, true, false, ◌≡◌, List, [], ◌∷◌, Option, none, some, Result,
  ok, ◌>>=◌, ◌>>◌, refuse_if, ok_or, ltb, length, is_empty, if◌then◌else◌, arith, >>=-eq-ok,
  >>-eq-ok, refuse_if-eq-ok, sym, ap, ◌∙◌, ok_or-eq-ok, some-eq, count_if, Bool-cases, Option-cases,
  inl, inr,
}
use alfredo.Text.{◌+++◌}
use alfredo.Plan.{Json}
use alfredo.Tasks.{Task, Request, Snapshot, review_ready, finish, is_running, max_receipts}
use alfredo.Tasks.Apply.{apply}
use alfredo.Tasks.Journal.{record_receipt}

-- `MAX_STORE`
abbrev pub max_store : ℕ
max_store = 4 * 1024 * 1024

-- `str::repeat`
repeat : ℕ → String → String
repeat zero s = ""
repeat (suc n) s = s +++ repeat n s

-- The running tasks with the ids of their runs; `none` where the source would panic.
unfoldable pub claims : List Task → Option (List (ℕ × String))
claims [] = some []
claims (t ∷ ts) = elim (claims ts) [
  | none ↦ none
  | some rest ↦ elim (is_running t.status) [
    | false ↦ some rest
    | true ↦ elim t.run [ none ↦ none | some r ↦ some ((t.id, r.id) ∷ rest) ]
  ]
]

-- The longest report that a worker can make.
longest_report : ℕ → ℕ → String → Request
unfolding repeat
longest_report revision task run = record {
  correlation = repeat 160 "\"";
  expected_revision = revision;
  action = finish task run review_ready (repeat 64 "0") (repeat 1024 "\"");
}

-- The snapshot after all the reports.
project : Json → Snapshot → List (ℕ × String) → Result Snapshot
unfolding longest_report
project json s [] = ok s
project json s ((task, run) ∷ rest) = do
  let request = longest_report s.revision task run
  applied ← apply json s request.action
  project json
      (record_receipt applied.0
        (record { request = request; revision = applied.0.revision + 1; task = applied.1 }))
      rest

unfoldable pub require_completion_capacity :
    Json → (Snapshot → Result ℕ) → Snapshot → Result (Unit {0})
unfolding project claims
require_completion_capacity json snapshot_bytes s = do
  running ← ok_or (claims s.tasks) "validated running task"
  refuse_if (ltb max_receipts (length s.receipts + length running))
      "Task receipt capacity is reserved for running worker results"
  if is_empty running then ok tt else (do
    projected ← project json s running
    size ← snapshot_bytes projected
    refuse_if (ltb max_store size) "Task storage capacity is reserved for running worker results")

claims_count :
    (ts : List Task) (runs : List (ℕ × String))
    → claims ts ≡ some runs
    → length runs ≡ count_if (λ t. is_running t.status) ts
unfolding claims
claims_count [] runs h = ap length (sym (some-eq h))
claims_count (t ∷ ts) runs h = elim (Option-cases (claims ts)) [
  | inl missing ↦ absurd (ground (arith, rw missing at h))
  | inr (rest, found) ↦ elim (Bool-cases (is_running t.status)) [
    | inl busy ↦ elim (Option-cases t.run) [
      | inl unrun ↦ absurd (ground (arith, rw (found, busy, unrun) at h))
      | inr (r, bound) ↦ rw busy (
          ap length (sym (some-eq (rw (found, busy, bound) at h)))
          ∙ ap suc (claims_count ts rest found))
    ]
    | inr idle ↦
        rw idle (ap length (sym (some-eq (rw (found, idle) at h))) ∙ claims_count ts rest found)
  ]
]

-- A snapshot that has completion capacity has room in its journal for the report of every running
-- task.
pub capacity_reserved :
    (json : Json) (snapshot_bytes : Snapshot → Result ℕ) (s : Snapshot)
    → require_completion_capacity json snapshot_bytes s ≡ ok tt
    → length s.receipts + count_if (λ t. is_running t.status) s.tasks ≤ max_receipts
unfolding require_completion_capacity
capacity_reserved json snapshot_bytes s h =
    let (runs, claimed, h1) = >>=-eq-ok _ _ h in
    let (room, h2) = >>-eq-ok _ _ h1 in
    let fits = refuse_if-eq-ok (ltb max_receipts (length s.receipts + length runs)) _ room in
    let count = claims_count s.tasks runs (ok_or-eq-ok _ _ claimed) in ground (arith, count, fits)
