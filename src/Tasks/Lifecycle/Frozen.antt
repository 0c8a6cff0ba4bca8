-- ===== src/Tasks/Lifecycle/Frozen.antt =====
-- What no action of `apply` in alfredo-tui/src/tasks.rs can do: change accepted work, or set a task
-- running without `Start`.
use alfredo.Base.{ℕ, ◌≡◌, ◌≢◌, refl, sym, ap, ◌∙◌, List, some, ok, arith, some-eq, String}
use alfredo.Plan.{Json}
use alfredo.Tasks.{Task, DependencyInput, Action, Receipt, Snapshot, start, running, accepted}
use alfredo.Tasks.Queries.{find_task}
use alfredo.Tasks.Edits.{claimed_run}
use alfredo.Tasks.Apply.{apply}
use alfredo.Tasks.Lifecycle.{
  Edit, reassigns, grants, withdraws, requeues, permits, claims, reports, holds, declines,
  accepts_passed, accepts_ready, Evolves, rests, moves,
}
use alfredo.Tasks.Lifecycle.Edits.{find_task-id}
use alfredo.Tasks.Lifecycle.Evolution.{apply-Evolves}

Edit-accepted :
    {rs : List Receipt} {n : ℕ} {a : Action} (t t' : Task) → Edit rs n a t t' → t.status ≢ accepted
Edit-accepted t t' (reassigns m r o e) h = ground arith
Edit-accepted t t' (grants o e) h = ground arith
Edit-accepted t t' (withdraws o e) h = ground arith
Edit-accepted t t' (requeues o e) h = ground arith
Edit-accepted t t' (permits p o e) h = ground arith
Edit-accepted t t' (claims b i q o p e) h = ground arith
Edit-accepted t t' (reports b st d x q r o p e) h = ground arith
Edit-accepted t t' (holds j e) h = ground arith
Edit-accepted t t' (declines j e) h = ground arith
Edit-accepted t t' (accepts_passed b j r p e) h = ground arith
Edit-accepted t t' (accepts_ready j e) h = ground arith

Evolves-accepted :
    {rs : List Receipt} {n : ℕ} {a : Action} {t t' : Task}
    → Evolves rs n a t t'
    → t.status ≡ accepted
    → t' ≡ t
Evolves-accepted rests h = refl
Evolves-accepted (moves {u = u} {v = v} r c) h =
    absurd (Edit-accepted u v c (ap (λ k. k.status) (Evolves-accepted r h) ∙ h))

-- Once a task is accepted, no action that succeeds changes anything of it: it is found again under
-- its number, equal in all its fields.
pub accepted_final :
    (json : Json) (s : Snapshot) (a : Action) (out : Snapshot × ℕ) (id : ℕ) (t : Task)
    → find_task id s.tasks ≡ some t
    → t.status ≡ accepted
    → apply json s a ≡ ok out
    → find_task id out.0.tasks ≡ some t
accepted_final json s a out id t found status h =
    let (t', found', e) = apply-Evolves json s a out id t h found in
    found' ∙ ap some (Evolves-accepted e status)

Edit-running :
    {rs : List Receipt} {n : ℕ} {a : Action} (t t' : Task)
    → Edit rs n a t t'
    → t'.status ≡ running
    → (baseline : String) × (inputs : List DependencyInput) × (a ≡ start t'.id baseline inputs)
      × (t'.run ≡ some (claimed_run t'.id n baseline inputs))
Edit-running {n = n} t t' (claims b i q o p e) h =
    let same : t'.id ≡ t.id = ap (λ v. v.id) e in
    (
      b,
      i,
      q ∙ ap (λ k. start k b i) (sym same),
      ap (λ v. v.run) e ∙ ap (λ k. some (claimed_run k n b i)) (sym same),
    )
Edit-running t t' (reports b st d x q r o p e) h = absurd (ground arith)
Edit-running t t' (reassigns m r o e) h = absurd (ground arith)
Edit-running t t' (grants o e) h = absurd (ground arith)
Edit-running t t' (withdraws o e) h = absurd (ground arith)
Edit-running t t' (requeues o e) h = absurd (ground arith)
Edit-running t t' (permits p o e) h = absurd (ground arith)
Edit-running t t' (holds j e) h = absurd (ground arith)
Edit-running t t' (declines j e) h = absurd (ground arith)
Edit-running t t' (accepts_passed b j r p e) h = absurd (ground arith)
Edit-running t t' (accepts_ready j e) h = absurd (ground arith)

-- A task that no action had claimed becomes running only by `Start` of that task, which binds a run
-- that is named by the task and by the revision of its receipt, and that has no evidence yet.
pub running_needs_start :
    (json : Json) (s : Snapshot) (a : Action) (out : Snapshot × ℕ) (id : ℕ) (t t' : Task)
    → find_task id s.tasks ≡ some t
    → t.status ≢ running
    → apply json s a ≡ ok out
    → find_task id out.0.tasks ≡ some t'
    → t'.status ≡ running
    → (baseline : String) × (inputs : List DependencyInput) × (a ≡ start id baseline inputs)
      × (t'.run ≡ some (claimed_run id s.revision baseline inputs))
running_needs_start json s a out id t t' found idle h found' run =
    let (u, found_u, e) = apply-Evolves json s a out id t h found in
    let same : u ≡ t' = some-eq (sym found_u ∙ found') in
    let id' : u.id ≡ id = find_task-id id out.0.tasks u found_u in
    last e (ap (λ k. k.status) same ∙ run) same id'
  where
    last :
        {u : Task}
        → Evolves s.receipts s.revision a t u
        → u.status ≡ running
        → u ≡ t'
        → u.id ≡ id
        → (baseline : String) × (inputs : List DependencyInput) × (a ≡ start id baseline inputs)
          × (t'.run ≡ some (claimed_run id s.revision baseline inputs))
    last rests r same id' = absurd (idle r)
    last (moves {u = u} {v = v} q c) r same id' =
        let (b, i, by, bound) = Edit-running u v c r in
        (
          b,
          i,
          by ∙ ap (λ k. start k b i) id',
          ap (λ k. k.run) (sym same) ∙ bound ∙ ap (λ k. some (claimed_run k s.revision b i)) id',
        )
