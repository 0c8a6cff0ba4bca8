-- ===== src/Tasks/Queries/Lineage.antt =====
-- Repair lineages in a well-formed list of tasks: the loops of `repair_root` and `resolved_by` of
-- alfredo-tui/src/tasks.rs have rounds enough.
use alfredo.Base.{
  ℕ, suc, zero, ◌+◌, ◌≤◌, ◌<◌, true, ◌≡◌, ◌↔◌, refl, ap, ◌∙◌, subst, List, [], ◌∷◌, none, some,
  arith, length, ltb, ◌==◌, ==_iff, inl, inr, Bool-cases, Option-cases,
}
use alfredo.Tasks.{Task, Snapshot}
use alfredo.Tasks.Queries.{find_task, root_from, repair_root, is_ancestor}
use alfredo.Tasks.Lifecycle.Edits.{find_task-id}
use alfredo.Tasks.Lifecycle.WellFormed.{IsWellFormed, Numbered, ParentBelow, Numbered-find}

pub Numbered-lookup :
    (n k : ℕ) (ts : List Task)
    → Numbered n ts
    → n ≤ k
    → k < n + length ts
    → (t : Task) × (find_task k ts ≡ some t)
Numbered-lookup n k [] h low high = absurd (omega arith)
Numbered-lookup n k (t ∷ ts) (here, linked, rest) low high = elim (Bool-cases (t.id == k)) [
  | inl same ↦ (t, rw same refl)
  | inr other ↦
      let (u, found) =
        Numbered-lookup (suc n) k ts rest (ground (arith, here, other)) (omega arith) in
      (u, rw other found)
]

-- The parent of a task is an earlier task of the list.
pub parent_below :
    (ts : List Task) (id parent : ℕ) (t : Task)
    → Numbered 1 ts
    → find_task id ts ≡ some t
    → t.repair_of ≡ some parent
    → (0 < parent) × (parent < id) × (id ≤ length ts)
parent_below ts id parent t h found up =
    let (linked, low, high) = Numbered-find 1 id ts t h found in
    let same : t.id ≡ id = find_task-id id ts t found in
    let below : ParentBelow (some parent) t.id = subst (λ p. ParentBelow p t.id) up linked.1 in
    (below.0, omega (arith, below.1, same), omega (arith, high, same))

root_from-total :
    (ts : List Task) (rounds id : ℕ)
    → Numbered 1 ts
    → 0 < id
    → id ≤ length ts
    → id ≤ rounds
    → (root : ℕ) × (r : Task) × (root_from ts rounds id ≡ some root)
      × (find_task root ts ≡ some r)
      × (r.repair_of ≡ none)
      × (root ≤ id)
unfolding root_from
root_from-total ts zero id h low high enough = absurd (omega arith)
root_from-total ts (suc rounds) id h low high enough =
    let (t, found) = Numbered-lookup 1 id ts h (omega arith) (omega arith) in
    elim (Option-cases t.repair_of) [
      | inl top ↦ (id, t, rw (root_from, found, top) refl, found, top, omega arith)
      | inr (parent, up) ↦
          let (positive, below, _) = parent_below ts id parent t h found up in
          let earlier : ltb parent id ≡ true = ground arith in
          let (root, r, walk, at_root, top, le) =
            root_from-total ts rounds parent h positive (omega arith) (omega arith) in
          (root, r, rw (root_from, found, up, earlier) walk, at_root, top, omega arith)
    ]

-- In a well-formed snapshot the walk up from any task reaches its root: a task that repairs nothing
-- and has no later number. The rounds that the code allows are enough.
pub repair_root_total :
    (s : Snapshot) (id : ℕ)
    → IsWellFormed s
    → 0 < id
    → id ≤ length s.tasks
    → (root : ℕ) × (r : Task) × (repair_root s id ≡ some root)
      × (find_task root s.tasks ≡ some r)
      × (r.repair_of ≡ none)
      × (root ≤ id)
unfolding repair_root
repair_root_total s id w low high =
    root_from-total s.tasks (suc (length s.tasks)) id w.numbered low high (omega arith)

-- `Ancestor tasks current id`: `current` repairs `id`, or repairs a task that has `id` as ancestor.
pub data Ancestor (tasks : List Task) (id : ℕ) : ℕ → Type 0 where
  parent :
      (current : ℕ) (t : Task)
      → find_task current tasks ≡ some t
      → t.repair_of ≡ some id
      → Ancestor tasks id current
  above :
      (current up : ℕ) (t : Task)
      → find_task current tasks ≡ some t
      → t.repair_of ≡ some up
      → Ancestor tasks id up
      → Ancestor tasks id current

is_ancestor_sound :
    (ts : List Task) (rounds current id : ℕ)
    → is_ancestor ts rounds current id ≡ true
    → Ancestor ts id current
unfolding is_ancestor
is_ancestor_sound ts zero current id h = cc
is_ancestor_sound ts (suc rounds) current id h = elim (Option-cases (find_task current ts)) [
  | inl missing ↦ absurd (ground (arith, rw (is_ancestor, missing) at h))
  | inr (t, found) ↦ elim (Option-cases t.repair_of) [
    | inl top ↦ absurd (ground (arith, rw (is_ancestor, found, top) at h))
    | inr (up, repairs) ↦ elim (Bool-cases (up == id)) [
      | inl same ↦ parent current t found (repairs ∙ ap some ((==_iff up id).0 same))
      | inr other ↦
          above current up t found repairs
            (is_ancestor_sound ts rounds up id (rw (is_ancestor, found, repairs, other) at h))
    ]
  ]
]

is_ancestor_complete :
    (ts : List Task) (rounds current id : ℕ)
    → Numbered 1 ts
    → current ≤ rounds
    → Ancestor ts id current
    → is_ancestor ts rounds current id ≡ true
unfolding is_ancestor
is_ancestor_complete ts zero current id h enough (parent _ t found up) =
    absurd (omega (arith, (parent_below ts current id t h found up).1))
is_ancestor_complete ts zero current id h enough (above _ up t found repairs a) =
    absurd (omega (arith, (parent_below ts current up t h found repairs).1))
is_ancestor_complete ts (suc rounds) current id h enough (parent _ t found up) =
    rw (is_ancestor, found, up, (==_iff id id).1 refl) refl
is_ancestor_complete ts (suc rounds) current id h enough (above _ up t found repairs a) =
    let (_, below, _) = parent_below ts current up t h found repairs in
    elim (Bool-cases (up == id)) [
      | inl same ↦ rw (is_ancestor, found, repairs, same) refl
      | inr other ↦
          rw (is_ancestor, found, repairs, other)
            (is_ancestor_complete ts rounds up id h (omega arith) a)
    ]

-- In a well-formed snapshot the loop of `resolved_by` decides whether a task descends from another
-- by repairs.
pub is_ancestor_iff :
    (s : Snapshot) (current id : ℕ)
    → IsWellFormed s
    → current ≤ length s.tasks
    → (is_ancestor s.tasks (length s.tasks) current id ≡ true) ↔ Ancestor s.tasks id current
is_ancestor_iff s current id w high = (
  is_ancestor_sound s.tasks (length s.tasks) current id,
  is_ancestor_complete s.tasks (length s.tasks) current id w.numbered high,
)
