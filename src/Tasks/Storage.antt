-- ===== src/Tasks/Storage.antt =====
-- The file of the task store, and `read_locked` of alfredo-tui/src/tasks.rs.
use alfredo.Base.{ℕ, String, Option, Result, ok, err, ◌>>=◌, ◌>>◌, refuse_if, ok_or, ltb}
use alfredo.Plan.{Json}
use alfredo.Tasks.{Snapshot}
use alfredo.Tasks.Journal.{Store, empty, validate}
use alfredo.Tasks.Capacity.{max_store}

-- The file of the store: absent, not readable as a regular file, or bytes, by their number and the
-- snapshot that they decode to.
pub data File : Type 0 where
  absent : File
  unreadable : String → File
  bytes : ℕ → Option Snapshot → File

unfoldable pub read_locked : Json → Store → File → Result Snapshot
read_locked json store absent = ok (empty store)
read_locked json store (unreadable e) = err e
read_locked json store (bytes size decoded) = do
  refuse_if (ltb max_store size) "Task state exceeds 4 MiB"
  s ← ok_or decoded "Malformed task state; original bytes preserved"
  validate json store s
  ok s
