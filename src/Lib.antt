-- ===== src/Lib.antt =====
-- A model of the task authority of Alfredo, the terminal program of alfredo-tui, and what is proved
-- of it. The owner of a mission proposes tasks, permits files and a check for each, and approves
-- them; a worker claims an approved task, reports a candidate with its evidence, and a reviewer
-- accepts, rejects, holds or repairs it. All of this is one journal of requests per mission, kept by
-- `TaskStore` of alfredo-tui/src/tasks.rs. Every other part of the program (the planner, the workers,
-- the autopilot, the interface) acts on tasks only through its `transact`.
--
-- The files, and the code that each one is about:
--   Base, Base/*            shared names: tests on numbers, `Result` with early returns, list lemmas
--   Text                    `text_valid`, hexadecimal tests, `trim`, `split`, decimal numbers
--   Policy                  `WorkPolicy::validate` of alfredo-tui/src/tasks.rs
--   Assessment              alfredo-tui/src/assessment.rs
--   Scope                   `Brief`, `Binding` and the guards of alfredo-tui/src/understanding.rs
--   Plan, Plan/Validate     `Plan::validate` of alfredo-tui/src/planner.rs, with the parts of a plan
--                           in planning_context.rs, metrics.rs, architecture.rs and dashboard.rs
--   Tasks                   the types of alfredo-tui/src/tasks.rs and the tests on one task
--   Tasks/Queries           the methods of `Snapshot` that search tasks and receipts
--   Tasks/Architecture      its `architecture_` methods
--   Tasks/Edits             the arms of `TaskStore::apply` that edit the task that they name
--   Tasks/Handlers          its guards, and the arms for proposals, repairs and reviews
--   Tasks/Runs              its arms `Start` and `Finish`
--   Tasks/Apply             its arms for plans, branches and resolutions, and the choice of the arm
--   Tasks/Journal           `TaskStore::validate`, the replay of the receipts
--   Tasks/Evidence          `read_evidence`, and `Record::validate` of alfredo-tui/src/agent.rs
--   Tasks/Capacity          `require_completion_capacity`
--   Tasks/Guards            the guards of `transact_checked`, and the evidence that it reads
--   Tasks/Storage           `read_locked`
--   Tasks/Transact          `transact_checked` and `save`
--   Tasks/Lifecycle         the specification of the actions: lawful edits of a task, fresh tasks, and
--                           the invariant of a snapshot, with the proofs that `apply` implements it
--   Policy/Confined, Tasks/Queries/Lineage, Tasks/Apply/Resolution, Tasks/Runs/Exact,
--   Tasks/Journal/*, Tasks/Transact/*    proofs about the code of their parents
--   Admission               the ledger and `choose` of alfredo-tui/src/inference_admission.rs
--   Admission/Poll          its `reap` and `Queue::poll`
--   Admission/Choice, Admission/Grant, Admission/Poll/*    proofs about them
--   Understanding           the types and `Snapshot::apply` of alfredo-tui/src/understanding.rs
--   Understanding/Journal   its `Store`: read, commit, transact, enter_prepared, backup_v1
--   Understanding/Cleared   its clear_flow and flow_cleared
--   Understanding/Entry, Stages, Replay, Binding, Durable, Once, Reserve    proofs about them
--   Chat                    the action cards of alfredo-tui/src/chat_tools/approval.rs, and the tiers of
--                           the tools, chat_tools/mod.rs
--   Chat/Allow              when an always-allow rule matches, chat_tools/allow.rs
--   Chat/Allow/Hint         its `rule_for` and `available`, with what dashboard.rs shows of a text
--   Chat/Allow/Rules        its `Rules`, the file of a mission's rules
--   Chat/Allow/Covers, Chat/Allow/Rules/*    proofs about them
--   Session                 `Session` of alfredo-tui/src/model.rs and its constants
--   Session/Utf8            lengths and cuts of texts in bytes, boundaries, clusters
--   Session/Draft           its cursor, motions and edits of the prompt
--   Session/History         the prompts that Up and Down recall
--   Session/Tools           its tool rounds, with `prefill` of chat_tools/propose.rs
--   Session/Queue           its queued messages, and `checkpoint`
--   Session/Turn            its `begin`, `begin_queued`, `retry`, `cancel` and `apply`
--   Session/Approval        its card that waits for the owner
--   Session/Saved           the checks of `Saved::validate`, alfredo-tui/src/conversations.rs
--   Session/Keys            the keys of the prompt, and what each of them keeps
--   Session/Draft/*, Keys/*, Queue/*, Turn/*, Approval/*    proofs about them
--   Tests, Tests/*          a small mission, tests, and the witnesses of the results
--
-- The admission is a component of its own: the processes of a host share the slots of a model server by
-- a ledger file, in which each waiter has a ticket, and each poll grants the free slots.
--
-- The understanding is one too: a journal for each project, of prepared entries, drafts and confirmations
-- of what is to be done. The task store reads it through `binding` (Scope), which plans are bound to.
--
-- So is a chat session: a prompt, the turns that a model answers, and action cards. A card pauses a turn
-- until the owner's key decides on it, unless an always-allow rule of the mission matches it. The session
-- asks `available` of Chat/Allow/Hint whether a card may be always-allowed.
--
-- State is passed explicitly. `apply json s a` gives the changed snapshot and the task number, where
-- the source changes `snapshot` in place; an `Err` is `err` with its text. The source drops the
-- snapshot when `apply` fails, so nothing is said of it then. Where `apply` calls itself, the model
-- calls the arm with its guards (`decide_again`, `repair_again`, `propose_steps`). `transact` gives the
-- answer and the file that is left, and the outcome of each write is an input, so that a failed or
-- interrupted save is a case like any other. One call of `transact` holds the lock from its reading to
-- its writing; the order of calls is the order in which they get the lock.
--
-- Numbers are the native ℕ. The source uses u64 and usize; task numbers are at most 256, revisions at
-- most 4096 in a store that `read_locked` accepts, so no sum here reaches 2 ^ 64. A step that adds two
-- dependency numbers of a plan does so after `Plan::validate` has bounded them. Decimal texts have room
-- for the twenty digits of a u64.
--
-- The loops `for _ in 0..n` of the source are recursions on the same bound. Two kinds of loop have no
-- bound in the source, the walks up a repair lineage in `ResolveRepair`, in the evidence that
-- `transact_checked` reads for it, and in `architecture_context_locked`. They have fuel for the number
-- of tasks: a parent has a smaller number than its repair in every admissible snapshot, so a lineage is
-- no longer than that. A walk that ran out would give an error of its own text. The granting loop of
-- `Queue::poll` has a round for each slot of the capacity, and its projection of the order of grants a
-- round for each entry.
--
-- Parameters stand for what is not code of the repository: serde_json by the sizes that it gives
-- (`Json`, `snapshot_bytes`) and by what a file decodes to (`File`, `EvidenceFile`), SHA-256 by the digest
-- of a file, the file system and its locks by their outcomes (`Host`, `Disk`). The length of one part of
-- an architect's reference text is a parameter too (`reference_bytes`); the text itself is not
-- modelled. `Segmenter` stands for the crate unicode-segmentation, by its law that the clusters of a
-- text make it up; `columns` for unicode-width; `Encoder` for the bytes of calls of tools as JSON.
--
-- Not modelled: the making of paths and their symbolic-link tests (`TaskStore::new`, `lock_checked`),
-- mission selection, the publication and release of the admission ledger, `preflight_branch`,
-- `repair_context`, the display texts and the fields that only the display reads, the request that a
-- session sends to the model and its compaction, the tools of a chat, and the other parts of the program:
-- planner conversations, workers and their sandbox, model providers, the autopilot, and the terminal
-- interface.
pub mod Base
pub mod Text
pub mod Policy
pub mod Assessment
pub mod Scope
pub mod Plan
pub mod Tasks
pub mod Admission
pub mod Tests
pub mod Understanding
pub mod Chat
pub mod Session
