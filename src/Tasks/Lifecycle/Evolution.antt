-- ===== src/Tasks/Lifecycle/Evolution.antt =====
-- What one action of `apply` in alfredo-tui/src/tasks.rs may do to one task that is there before it.
use alfredo.Base.{
  ℕ, ◌≡◌, ◌≢◌, refl, sym, ap, ◌∙◌, subst, List, [], ◌∷◌, ◌++◌, some, ok, arith, ◌==◌, ==_iff, inl,
  inr, Bool-cases, some-eq,
}
use alfredo.Plan.{Json}
use alfredo.Tasks.{Task, Action, Receipt, Snapshot}
use alfredo.Tasks.Queries.{find_task}
use alfredo.Tasks.Edits.{set_task}
use alfredo.Tasks.Apply.{apply}
use alfredo.Tasks.Lifecycle.{Edit, Change, edits, adds, Changes, here, next, Evolves, rests, moves}
use alfredo.Tasks.Lifecycle.Edits.{find_task-id}
use alfredo.Tasks.Lifecycle.Sound.{apply-Changes}
use alfredo.Tasks.Lifecycle.Invariant.{Edit-links}

find_task-set :
    (id : ℕ) (t t' : Task) (ts : List Task)
    → find_task id ts ≡ some t
    → t'.id ≡ id
    → find_task id (set_task id t' ts) ≡ some t'
find_task-set id t t' [] h same = cc
find_task-set id t t' (u ∷ ts) h same = ground (arith, find_task-set id t t' ts)

find_task-set_ne :
    (id other : ℕ) (t' : Task) (ts : List Task)
    → id ≢ other
    → t'.id ≡ other
    → find_task id (set_task other t' ts) ≡ find_task id ts
find_task-set_ne id other t' [] ne same = refl
find_task-set_ne id other t' (u ∷ ts) ne same =
    ground (arith, find_task-set_ne id other t' ts ne same)

pub find_task-append :
    (id : ℕ) (ts us : List Task) (t : Task)
    → find_task id ts ≡ some t
    → find_task id (ts ++ us) ≡ some t
find_task-append id [] us t h = cc
find_task-append id (u ∷ ts) us t h = ground (arith, find_task-append id ts us t)

-- No action touches the journal.
pub Changes-journal :
    {a : Action} {s s' : Snapshot}
    → Changes a s s'
    → (s'.receipts ≡ s.receipts)
      × (s'.revision ≡ s.revision)
      × (s'.workspace ≡ s.workspace)
      × (s'.mission ≡ s.mission)
      × (s'.schema_version ≡ s.schema_version)
Changes-journal here = (refl, refl, refl, refl, refl)
Changes-journal (next r (edits id t t' found c e)) =
    let (rs, n, w, m, v) = Changes-journal r in
    (
      ap (λ s. s.receipts) e ∙ rs,
      ap (λ s. s.revision) e ∙ n,
      ap (λ s. s.workspace) e ∙ w,
      ap (λ s. s.mission) e ∙ m,
      ap (λ s. s.schema_version) e ∙ v,
    )
Changes-journal (next r (adds t f e)) =
    let (rs, n, w, m, v) = Changes-journal r in
    (
      ap (λ s. s.receipts) e ∙ rs,
      ap (λ s. s.revision) e ∙ n,
      ap (λ s. s.workspace) e ∙ w,
      ap (λ s. s.mission) e ∙ m,
      ap (λ s. s.schema_version) e ∙ v,
    )

module _ {a : Action} where
  Change-Evolves :
      (rs : List Receipt) (n id : ℕ) (t : Task) {s s' : Snapshot}
      → Change a s s'
      → s.receipts ≡ rs
      → s.revision ≡ n
      → find_task id s.tasks ≡ some t
      → (t' : Task) × (find_task id s'.tasks ≡ some t') × Evolves rs n a t t'
  Change-Evolves rs n id t {s} (edits other u u' found c e) er en h =
      elim (Bool-cases (other == id)) [
        | inl eq ↦
            let o : other ≡ id = (==_iff other id).0 eq in
            let found' : find_task id s.tasks ≡ some u =
              subst (λ k. find_task k s.tasks ≡ some u) o found in
            let same : u'.id ≡ id = (Edit-links u u' c).0 ∙ find_task-id id s.tasks u found' in
            (
              u',
              ap (λ v. find_task id v.tasks) e
                  ∙ subst (λ k. find_task id (set_task k u' s.tasks) ≡ some u') (sym o)
                      (find_task-set id u u' s.tasks found' same),
              moves rests (
                  subst (λ v. Edit rs n a v u') (some-eq (sym found' ∙ h))
                    (subst (λ k. Edit rs k a u u') en
                      (subst (λ q. Edit q s.revision a u u') er c))),
            )
        | inr ne ↦ (
          t,
          ap (λ v. find_task id v.tasks) e
              ∙ find_task-set_ne id other u' s.tasks (λ o. cc ((==_iff other id).1 (sym o)))
                  ((Edit-links u u' c).0 ∙ find_task-id other s.tasks u found)
              ∙ h,
          rests,
        )
      ]
  Change-Evolves rs n id t {s} (adds u f e) er en h =
      (t, ap (λ v. find_task id v.tasks) e ∙ find_task-append id s.tasks (u ∷ []) t h, rests)

  Evolves-trans :
      {rs : List Receipt} {n : ℕ} {t u v : Task}
      → Evolves rs n a t u
      → Evolves rs n a u v
      → Evolves rs n a t v
  Evolves-trans r rests = r
  Evolves-trans r (moves q c) = moves (Evolves-trans r q) c

  -- A task that is there stays there, and evolves lawfully.
  Changes-Evolves :
      (s : Snapshot) (id : ℕ) (t : Task) {s' : Snapshot}
      → Changes a s s'
      → find_task id s.tasks ≡ some t
      → (t' : Task) × (find_task id s'.tasks ≡ some t') × Evolves s.receipts s.revision a t t'
  Changes-Evolves s id t here h = (t, h, rests)
  Changes-Evolves s id t (next r c) h =
      let (u, at_u, e1) = Changes-Evolves s id t r h in
      let j = Changes-journal r in
      let (v, at_v, e2) = Change-Evolves s.receipts s.revision id u c j.0 j.1 at_u in
      (v, at_v, Evolves-trans e1 e2)

pub apply-Evolves :
    (json : Json) (s : Snapshot) (a : Action) (out : Snapshot × ℕ) (id : ℕ) (t : Task)
    → apply json s a ≡ ok out
    → find_task id s.tasks ≡ some t
    → (t' : Task) × (find_task id out.0.tasks ≡ some t') × Evolves s.receipts s.revision a t t'
apply-Evolves json s a out id t h found = Changes-Evolves s id t (apply-Changes json s a h) found
