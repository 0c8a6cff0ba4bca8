-- ===== src/Tasks/Evidence.antt =====
-- `TaskStore::read_evidence` of alfredo-tui/src/tasks.rs and `Record::validate` of agent.rs. The
-- file system, SHA-256 and the JSON decoder are a parameter, `Host`, that gives for a run what they
-- find in its evidence file.
use text.Mathlib.Text.{◌==◌ as str_eq}
use Prim.Native.String.{len}
use alfredo.Base.{
  ℕ, ◌*◌, String, Bool, true, false, not, ◌&&◌, ◌||◌, Option, none, some, Result, ok, ◌>>=◌, ◌>>◌,
  refuse_if, ok_or, any, all, ltb, leb, ◌==◌,
}
use alfredo.Text.{chars, starts_with, is_alphanumeric, is_control, is_hex}
use alfredo.Tasks.{TaskStatus, Snapshot, is_review_ready}
use alfredo.Tasks.Queries.{find_task}

pub record AgentRecord : Type 0 where
  pub agent : String
  pub model : String
  pub continued_from : Option String
  pub reason : String
  pub transcript_sha256 : Option String

pub record CheckReceipt : Type 0 where
  pub status : String
  pub exit_zero : Bool
  pub reconciliation_required : Bool

-- The fields of `Evidence` that the store reads.
pub record Evidence : Type 0 where
  pub agent : Option AgentRecord
  pub run : String
  pub baseline : String
  pub status : TaskStatus
  pub detail : String
  pub candidate_commit : Option String
  pub check : Option CheckReceipt

-- An evidence file: its size, the hexadecimal SHA-256 of its bytes, what its JSON decodes to, and
-- whether it is UTF-8.
pub record EvidenceFile : Type 0 where
  pub size : ℕ
  pub sha256 : String
  pub decoded : Option Evidence
  pub is_utf8 : Bool

identity : String → Bool
identity s =
    let cs = chars s in
    not (str_eq s "") && leb (len s) 100 && all (λ c. is_alphanumeric c || c == b'-') cs

bad_continuation : Option String → String → String → Bool
unfolding identity
bad_continuation none agent run = not (str_eq agent run)
bad_continuation (some s) agent run = not (identity s) || str_eq s run

not_hex : ℕ → Option String → Bool
not_hex n none = false
not_hex n (some s) = not (is_hex n s)

validate_agent : String → String → Option AgentRecord → Result (Unit {0})
unfolding identity bad_continuation not_hex
validate_agent run model none = ok tt
validate_agent run model (some a) =
    refuse_if
      (not (identity a.agent)
        || not (str_eq a.model model)
        || str_eq a.reason ""
        || ltb 200 (len a.reason)
        || any is_control (chars a.reason)
        || bad_continuation a.continued_from a.agent run
        || not_hex 64 a.transcript_sha256)
      "Invalid Local Agent conversation binding"

unfoldable pub failed_check : Option CheckReceipt → Bool
failed_check none = true
failed_check (some c) =
    not (str_eq c.status "completed") || not c.exit_zero || c.reconciliation_required

-- `run_directory`: the name of a run's directory.
bad_run_name : String → Bool
bad_run_name id =
    ltb 100 (len id)
    || not (starts_with (chars id) (chars "task-"))
    || not (all (λ c. is_alphanumeric c || c == b'-') (chars id))

unfoldable pub read_evidence :
    (String → Result EvidenceFile) → Snapshot → String → String → ℕ → Result Evidence
unfolding validate_agent not_hex failed_check bad_run_name
read_evidence file s run digest task = do
  item ← ok_or (find_task task s.tasks) "Unknown evidence task"
  bound ← ok_or item.run "Evidence is not bound to this task"
  refuse_if (not (str_eq bound.id run)) "Evidence is not bound to this task"
  refuse_if (bad_run_name run) "Invalid run identity"
  found ← file run
  refuse_if (ltb (1024 * 1024) found.size || not (str_eq found.sha256 digest))
      "Evidence size or digest mismatch; review blocked"
  evidence ← ok_or found.decoded "Malformed worker evidence"
  validate_agent run item.model evidence.agent
  refuse_if (not_hex 40 evidence.candidate_commit) "Invalid evidence candidate commit identity"
  refuse_if (not (str_eq evidence.run run) || not (str_eq evidence.baseline bound.baseline))
      "Evidence run/baseline mismatch"
  refuse_if (is_review_ready evidence.status && failed_check evidence.check)
      "Review evidence lacks a successful bounded check receipt"
  refuse_if (not found.is_utf8) "Evidence is not UTF-8"
  ok evidence
