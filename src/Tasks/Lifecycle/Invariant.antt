-- ===== src/Tasks/Lifecycle/Invariant.antt =====
-- Every action of `apply` in alfredo-tui/src/tasks.rs keeps the invariant of the snapshot.
use alfredo.Base.{
  ℕ, ◌+◌, true, ◌≡◌, sym, subst, List, [], ◌∷◌, ok, arith, length, All-append, length-append,
}
use alfredo.Plan.{Json}
use alfredo.Tasks.{Task, Action, Receipt, Snapshot}
use alfredo.Tasks.Edits.{claimed_run}
use alfredo.Tasks.Apply.{apply}
use alfredo.Tasks.Lifecycle.{
  Edit, reassigns, grants, withdraws, requeues, permits, claims, reports, holds, declines,
  accepts_passed, accepts_ready, Change, edits, adds, Changes, here, next, Lineage, original,
  repairs,
}
use alfredo.Tasks.Lifecycle.Sound.{apply-Changes}
use alfredo.Tasks.Lifecycle.Edits.{find_task-id}
use alfredo.Tasks.Lifecycle.WellFormed.{
  IsWellFormed, IsLinked, ParentBelow, AllBelow, is_governed, find_task-All, set_task-All,
  Numbered-find, Numbered-append, Numbered-set, AllBelow-mono, dependencies_below, length-set_task,
}

-- A lawful change leaves the number, the links and the title of the task.
pub Edit-links :
    {rs : List Receipt} {n : ℕ} {a : Action} (t t' : Task)
    → Edit rs n a t t'
    → (t'.id ≡ t.id)
      × (t'.dependencies ≡ t.dependencies)
      × (t'.repair_of ≡ t.repair_of)
      × (t'.title ≡ t.title)
Edit-links t t' (reassigns m r o e) = (cc, cc, cc, cc)
Edit-links t t' (grants o e) = (cc, cc, cc, cc)
Edit-links t t' (withdraws o e) = (cc, cc, cc, cc)
Edit-links t t' (requeues o e) = (cc, cc, cc, cc)
Edit-links t t' (permits p o e) = (cc, cc, cc, cc)
Edit-links t t' (claims b i q o p e) = (cc, cc, cc, cc)
Edit-links t t' (reports b st d x q r o p e) = (cc, cc, cc, cc)
Edit-links t t' (holds j e) = (cc, cc, cc, cc)
Edit-links t t' (declines j e) = (cc, cc, cc, cc)
Edit-links t t' (accepts_passed b j r p e) = (cc, cc, cc, cc)
Edit-links t t' (accepts_ready j e) = (cc, cc, cc, cc)

Edit-governed :
    {rs : List Receipt} {n : ℕ} {a : Action} (t t' : Task)
    → Edit rs n a t t'
    → is_governed t ≡ true
    → is_governed t' ≡ true
unfolding claimed_run
Edit-governed t t' (reassigns m r o e) g = ground arith
Edit-governed t t' (grants o e) g = ground arith
Edit-governed t t' (withdraws o e) g = ground arith
Edit-governed t t' (requeues o e) g = ground arith
Edit-governed t t' (permits p o e) g = ground arith
Edit-governed t t' (claims b i q o p e) g = ground arith
Edit-governed t t' (reports b st d x q r o p e) g = ground arith
Edit-governed t t' (holds j e) g = ground arith
Edit-governed t t' (declines j e) g = ground arith
Edit-governed t t' (accepts_passed b j r p e) g = ground arith
Edit-governed t t' (accepts_ready j e) g = ground arith

Lineage-IsLinked :
    (s : Snapshot) (t : Task)
    → IsWellFormed s
    → t.id ≡ length s.tasks + 1
    → Lineage s t
    → IsLinked t
Lineage-IsLinked s t w e (original top checked) =
    (dependencies_below t.id t.dependencies checked, subst (λ p. ParentBelow p t.id) (sym top) tt)
Lineage-IsLinked s t w e (repairs id parent found links deps) =
    let (linked, low, high) = Numbered-find 1 id s.tasks parent w.numbered found in
    let same : parent.id ≡ id = find_task-id id s.tasks parent found in
    (
      subst (AllBelow t.id) (sym deps) (AllBelow-mono parent.dependencies (omega arith) linked.0),
      subst (λ p. ParentBelow p t.id) (sym links) (omega arith, omega arith),
    )

Edit-IsLinked :
    {rs : List Receipt} {n : ℕ} {a : Action} (t t' : Task)
    → Edit rs n a t t'
    → IsLinked t
    → IsLinked t'
Edit-IsLinked t t' c l =
    let (id, deps, parent, _) = Edit-links t t' c in
    (
      subst (λ n. AllBelow n t'.dependencies) (sym id) (subst (AllBelow t.id) (sym deps) l.0),
      subst (λ n. ParentBelow t'.repair_of n) (sym id)
          (subst (λ p. ParentBelow p t.id) (sym parent) l.1),
    )

Change-IsWellFormed :
    {a : Action} {s s' : Snapshot} → Change a s s' → IsWellFormed s → IsWellFormed s'
Change-IsWellFormed {s = s} (edits id t t' found c e) w =
    let (linked, _, _) = Numbered-find 1 id s.tasks t w.numbered found in
    let good = find_task-All (λ u. is_governed u ≡ true) id s.tasks t w.lawful found in
    subst IsWellFormed (sym e) (record {
      numbered =
          Numbered-set 1 id s.tasks t t' w.numbered found (Edit-links t t' c).0
            (Edit-IsLinked t t' c linked);
      lawful =
          set_task-All (λ u. is_governed u ≡ true) id t' s.tasks w.lawful
            (Edit-governed t t' c good);
      bounded = omega (arith, length-set_task id t' s.tasks, w.bounded);
    })
Change-IsWellFormed {s = s} (adds t f e) w = subst IsWellFormed (sym e) (record {
  numbered =
      Numbered-append 1 s.tasks t w.numbered (omega (arith, f.next_id))
        (Lineage-IsLinked s t w f.next_id f.lineage);
  lawful =
      All-append (λ u. is_governed u ≡ true) s.tasks (t ∷ []) w.lawful
        (ground (arith, f.unapproved, f.unrun), tt);
  bounded = omega (arith, length-append s.tasks (t ∷ []), w.bounded, f.room);
})

pub Changes-IsWellFormed :
    {a : Action} {s s' : Snapshot} → Changes a s s' → IsWellFormed s → IsWellFormed s'
Changes-IsWellFormed here w = w
Changes-IsWellFormed (next r c) w = Change-IsWellFormed c (Changes-IsWellFormed r w)

-- Every action that succeeds keeps the snapshot well formed.
pub apply-IsWellFormed :
    (json : Json) (s : Snapshot) (a : Action) (out : Snapshot × ℕ)
    → IsWellFormed s
    → apply json s a ≡ ok out
    → IsWellFormed out.0
apply-IsWellFormed json s a out w h = Changes-IsWellFormed (apply-Changes json s a h) w
