-- ===== src/Tasks/Apply/Resolution.antt =====
-- What `ResolveRepair` of alfredo-tui/src/tasks.rs has established of a repair and of its lineage.
use alfredo.Base.{
  ℕ, suc, zero, ◌≤◌, ◌<◌, true, false, not, ◌&&◌, ◌||◌, ◌≡◌, refl, sym, ap, ◌∙◌, subst, List,
  Option, none, some, ok, ◌>>◌, refuse_if, ok_or, arith, length, any, is_empty, >>-eq-ok, >>=-eq-ok,
  refuse_if-eq-ok, ok_or-eq-ok, ok-injective, some-eq, if◌then◌else◌, inl, inr, Option-cases,
}
use alfredo.Assessment.{is_some}
use alfredo.Plan.{Json}
use alfredo.Tasks.{
  Task, Snapshot, resolve_repair, is_accepted, is_unresolved, is_unsuccessful, has_evidence,
}
use alfredo.Tasks.Queries.{
  find_task, acceptance_for_task, repair_root, has_root, resolution_for_family,
}
use alfredo.Tasks.Queries.Lineage.{Ancestor, parent, above, parent_below}
use alfredo.Tasks.Architecture.{architecture_blocker}
use alfredo.Tasks.Handlers.{preamble}
use alfredo.Tasks.Apply.{
  check_ancestors, check_contract, resolve_checks, apply_resolve, dispatch, apply,
}
use alfredo.Tasks.Lifecycle.WellFormed.{IsWellFormed, Numbered}

-- Terminal work that failed, with retained evidence.
abbrev pub IsFailed : Task → Type 0
IsFailed t = (is_unsuccessful t.status ≡ true) × (has_evidence t.run ≡ true)

check_ancestors-step :
    (ts : List Task) (fuel id : ℕ)
    → check_ancestors ts fuel (some id) ≡ ok tt
    → (t : Task) × (rest : ℕ) × (find_task id ts ≡ some t)
      × IsFailed t
      × (check_ancestors ts rest t.repair_of ≡ ok tt)
unfolding check_ancestors
check_ancestors-step ts zero id h = cc
check_ancestors-step ts (suc fuel) id h =
    let (t, found, h1) = >>=-eq-ok (ok_or (find_task id ts) "Unknown repair ancestor") _ h in
    let (failed, h2) =
      >>-eq-ok (refuse_if (not (is_unsuccessful t.status) || not (has_evidence t.run)) _) _ h1 in
    let checked = refuse_if-eq-ok _ _ failed in
    (t, fuel, ok_or-eq-ok _ _ found, (ground arith, ground arith), h2)

-- The walk has seen every ancestor.
check_ancestors-all :
    (ts : List Task) (id fuel current : ℕ) (t u : Task)
    → find_task current ts ≡ some t
    → check_ancestors ts fuel t.repair_of ≡ ok tt
    → Ancestor ts id current
    → find_task id ts ≡ some u
    → IsFailed u
check_ancestors-all ts id fuel current t u found h (parent _ v at_v up) at_u =
    let up' : t.repair_of ≡ some id = ap (λ w. w.repair_of) (some-eq (sym found ∙ at_v)) ∙ up in
    let (w, rest, at_w, failed, _) =
      check_ancestors-step ts fuel id (subst (λ p. check_ancestors ts fuel p ≡ ok tt) up' h) in
    subst IsFailed (some-eq (sym at_w ∙ at_u)) failed
check_ancestors-all ts id fuel current t u found h (above _ next v at_v up a) at_u =
    let up' : t.repair_of ≡ some next = ap (λ w. w.repair_of) (some-eq (sym found ∙ at_v)) ∙ up in
    let (w, rest, at_w, _, h') =
      check_ancestors-step ts fuel next (subst (λ p. check_ancestors ts fuel p ≡ ok tt) up' h) in
    check_ancestors-all ts id rest next w u at_w h' a at_u

resolve_checks-eq-ok :
    (s : Snapshot) (task : ℕ)
    → resolve_checks s task ≡ ok tt
    → (t : Task) × (root : ℕ) × (find_task task s.tasks ≡ some t)
      × (is_accepted t.status ≡ true)
      × (is_some t.repair_of ≡ true)
      × (resolution_for_family s task ≡ none)
      × (repair_root s task ≡ some root)
      × (any (λ u. has_root s root u.id && is_unresolved u.status) s.tasks ≡ false)
      × (check_ancestors s.tasks (length s.tasks) t.repair_of ≡ ok tt)
unfolding resolve_checks
resolve_checks-eq-ok s task h =
    let (_, h1) = >>-eq-ok (refuse_if (is_some (architecture_blocker s task)) _) _ h in
    let (t, found, h2) = >>=-eq-ok (ok_or (find_task task s.tasks) "Unknown repair") _ h1 in
    let (status, h3) =
      >>-eq-ok (refuse_if (not (is_accepted t.status) || not (is_some t.repair_of)) _) _ h2 in
    let (family, h4) = >>-eq-ok (refuse_if (is_some (resolution_for_family s task)) _) _ h3 in
    let (root, top, h5) = >>=-eq-ok (ok_or (repair_root s task) "Invalid repair lineage") _ h4 in
    let (settled, h6) =
      >>-eq-ok (refuse_if (any (λ u. has_root s root u.id && is_unresolved u.status) s.tasks) _) _
        h5 in
    let (_, h7) =
      >>-eq-ok
        (if is_empty (acceptance_for_task s task)
          then ok tt
          else check_contract s task (acceptance_for_task s task))
        _ h6 in
    let checked = refuse_if-eq-ok _ _ status in
    (
      t,
      root,
      ok_or-eq-ok _ _ found,
      ground arith,
      ground arith,
      unresolved (resolution_for_family s task) (refuse_if-eq-ok _ _ family),
      ok_or-eq-ok _ _ top,
      refuse_if-eq-ok _ _ settled,
      h7,
    )
  where
    unresolved : (o : Option ℕ) → is_some o ≡ false → o ≡ none
    unresolved none h = refl
    unresolved (some n) h = cc

-- `ResolveRepair` that succeeds changes nothing but the journal; the task is an accepted repair of a
-- family that was not resolved before and has no unresolved task, and every task that it repairs,
-- directly or through others, ended unsuccessfully with retained evidence.
pub resolved_lineage :
    (json : Json) (s : Snapshot) (task : ℕ) (out : Snapshot × ℕ)
    → apply json s (resolve_repair task) ≡ ok out
    → (out ≡ (s, task))
      × (resolution_for_family s task ≡ none)
      × ((t : Task) × (root : ℕ) × (find_task task s.tasks ≡ some t)
          × (is_accepted t.status ≡ true)
          × (is_some t.repair_of ≡ true)
          × (repair_root s task ≡ some root)
          × (any (λ u. has_root s root u.id && is_unresolved u.status) s.tasks ≡ false))
      × ((id : ℕ) (u : Task)
          → Ancestor s.tasks id task
          → find_task id s.tasks ≡ some u
          → IsFailed u)
unfolding apply dispatch apply_resolve
resolved_lineage json s task out h =
    let (_, h1) = >>-eq-ok (preamble s (resolve_repair task)) _ h in
    let (checked, h2) = >>-eq-ok (resolve_checks s task) _ h1 in
    let (t, root, found, status, repairs, family, top, settled, walk) =
      resolve_checks-eq-ok s task checked in
    (
      sym (ok-injective h2),
      family,
      (t, root, found, status, repairs, top, settled),
      (λ id u a at_u. check_ancestors-all s.tasks id (length s.tasks) task t u found walk a at_u),
    )

check_ancestors-enough :
    (ts : List Task) (fuel more id : ℕ)
    → Numbered 1 ts
    → 0 < id
    → id ≤ fuel
    → id ≤ more
    → check_ancestors ts fuel (some id) ≡ check_ancestors ts more (some id)
unfolding check_ancestors
check_ancestors-enough ts zero more id h low le le' = absurd (omega arith)
check_ancestors-enough ts (suc fuel) zero id h low le le' = absurd (omega arith)
check_ancestors-enough ts (suc fuel) (suc more) id h low le le' =
    elim (Option-cases (find_task id ts)) [
      | inl missing ↦ rw (check_ancestors, missing) refl
      | inr (t, found) ↦
          rw (check_ancestors, found)
            (ap
              (λ rest.
                refuse_if (not (is_unsuccessful t.status) || not (has_evidence t.run))
                  "Resolution ancestors must have terminal unsuccessful run evidence"
                >> rest)
              (elim (Option-cases t.repair_of) [
                | inl top ↦ rw (check_ancestors, top) refl
                | inr (up, repairs) ↦
                    let (positive, below, _) = parent_below ts id up t h found repairs in
                    subst (λ p. check_ancestors ts fuel p ≡ check_ancestors ts more p) (sym repairs)
                      (check_ancestors-enough ts fuel more up h positive (omega arith)
                        (omega arith))
              ]))
    ]

-- In a well-formed snapshot the walk of `ResolveRepair` up the lineage of a task has steps enough: more
-- of them than there are tasks never change its result.
pub resolution_fuel :
    (s : Snapshot) (fuel task : ℕ) (t : Task)
    → IsWellFormed s
    → find_task task s.tasks ≡ some t
    → length s.tasks ≤ fuel
    → check_ancestors s.tasks fuel t.repair_of
      ≡ check_ancestors s.tasks (length s.tasks) t.repair_of
unfolding check_ancestors
resolution_fuel s fuel task t w found enough = elim (Option-cases t.repair_of) [
  | inl top ↦ rw (check_ancestors, top) refl
  | inr (up, repairs) ↦
      let (positive, below, low) = parent_below s.tasks task up t w.numbered found repairs in
      subst (λ p. check_ancestors s.tasks fuel p ≡ check_ancestors s.tasks (length s.tasks) p)
        (sym repairs)
        (check_ancestors-enough s.tasks fuel (length s.tasks) up w.numbered positive (omega arith)
          (omega arith))
]
