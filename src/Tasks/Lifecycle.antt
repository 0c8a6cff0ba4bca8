-- ===== src/Tasks/Lifecycle.antt =====
-- The specification of the task authority: the lawful changes of one task, and the changes of a
-- snapshot that an action may make. `Lifecycle/Sound` shows that `apply` of alfredo-tui/src/tasks.rs
-- makes no other.
pub mod Edits
pub mod Arms
pub mod Sound
pub mod WellFormed
pub mod Invariant
pub mod Evolution
pub mod Frozen
use alfredo.Base.{
  ℕ, ◌+◌, ◌<◌, ◌≤◌, String, Bool, true, false, not, ◌&&◌, ◌||◌, ◌≡◌, ◌≢◌, ◌⊎◌, List, [], ◌∷◌, ◌++◌,
  Option, none, some, any, distinct, leb, ◌==◌, length,
}
use alfredo.Policy.{WorkPolicy}
use alfredo.Assessment.{is_some}
use alfredo.Tasks.{
  TaskStatus, proposed, approved, cancelled, running, review_ready, needs_human_review, accepted,
  rejected, DependencyInput, TaskRun, Task, Action, Receipt, Snapshot, is_proposed, is_approved,
  is_running, is_review_ready, is_open, is_result, is_judgeable, can_requeue, start, finish,
  max_tasks,
}
use alfredo.Tasks.Queries.{find_task}
use alfredo.Tasks.Edits.{set_task, claimed_run, passed}

-- The lawful changes of a task `t` into `t'` by an action `a`, after the receipts `rs`, at `revision`.
pub data Edit (rs : List Receipt) (revision : ℕ) (a : Action) (t t' : Task) : Type 0 where
  reassigns :
      (model : String)
      → is_some t.run ≡ false
      → is_open t.status ≡ true
      → t' ≡ record t { model = model; status = proposed }
      → Edit rs revision a t t'
  grants :
      is_proposed t.status ≡ true → t' ≡ record t { status = approved } → Edit rs revision a t t'
  withdraws :
      is_open t.status ≡ true → t' ≡ record t { status = cancelled } → Edit rs revision a t t'
  requeues : can_requeue t ≡ true → t' ≡ record t { status = approved } → Edit rs revision a t t'
  permits :
      (policy : WorkPolicy)
      → is_open t.status ≡ true
      → t' ≡ record t { policy = some policy; status = proposed }
      → Edit rs revision a t t'
  claims :
      (baseline : String) (inputs : List DependencyInput)
      → a ≡ start t.id baseline inputs
      → is_approved t.status ≡ true
      → is_some t.policy ≡ true
      → t' ≡ record t { status = running; run = some (claimed_run t.id revision baseline inputs) }
      → Edit rs revision a t t'
  reports :
      (bound : TaskRun) (status : TaskStatus) (digest detail : String)
      → a ≡ finish t.id bound.id status digest detail
      → t.run ≡ some bound
      → is_running t.status ≡ true
      → is_result status ≡ true
      → t' ≡ record t {
        run = some (record bound { evidence_sha256 = some digest; detail = detail });
        status = status;
      }
      → Edit rs revision a t t'
  holds :
      is_judgeable t.status ≡ true
      → t' ≡ record t { status = needs_human_review }
      → Edit rs revision a t t'
  declines :
      is_judgeable t.status ≡ true → t' ≡ record t { status = rejected } → Edit rs revision a t t'
  accepts_passed :
      (bound : TaskRun)
      → is_judgeable t.status ≡ true
      → t.run ≡ some bound
      → passed rs t.id bound.id ≡ true
      → t' ≡ record t { status = accepted }
      → Edit rs revision a t t'
  accepts_ready :
      is_review_ready t.status ≡ true
      → t' ≡ record t { status = accepted }
      → Edit rs revision a t t'

-- What ties a new task to the earlier ones: fresh dependencies, or those of the task it repairs.
pub data Lineage (s : Snapshot) (t : Task) : Type 0 where
  original :
      t.repair_of ≡ none → any (λ d. d == 0 || leb t.id d) t.dependencies ≡ false → Lineage s t
  repairs :
      (parent_id : ℕ) (parent : Task)
      → find_task parent_id s.tasks ≡ some parent
      → t.repair_of ≡ some parent_id
      → t.dependencies ≡ parent.dependencies
      → Lineage s t

pub record IsFresh (s : Snapshot) (t : Task) : Type 0 where
  pub next_id : t.id ≡ length s.tasks + 1
  pub room : length s.tasks ≢ max_tasks
  pub unapproved : t.status ≡ proposed
  pub unrun : t.run ≡ none
  pub lineage : Lineage s t

-- One change of a snapshot: a lawful change of the first task with an id, or a fresh task.
pub data Change (a : Action) (s s' : Snapshot) : Type 0 where
  edits :
      (id : ℕ) (t t' : Task)
      → find_task id s.tasks ≡ some t
      → Edit s.receipts s.revision a t t'
      → s' ≡ record s { tasks = set_task id t' s.tasks }
      → Change a s s'
  adds : (t : Task) → IsFresh s t → s' ≡ record s { tasks = s.tasks ++ t ∷ [] } → Change a s s'

pub data Changes (a : Action) (s : Snapshot) : Snapshot → Type 0 where
  here : Changes a s s
  next : {u s' : Snapshot} → Changes a s u → Change a u s' → Changes a s s'

-- The lawful changes of one task by one action, in order.
pub data Evolves (rs : List Receipt) (revision : ℕ) (a : Action) (t : Task) : Task → Type 0 where
  rests : Evolves rs revision a t t
  moves :
      {u v : Task} → Evolves rs revision a t u → Edit rs revision a u v → Evolves rs revision a t v
