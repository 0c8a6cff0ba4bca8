-- ===== src/Understanding/Stages.antt =====
-- The stages of an understanding under `Snapshot::apply` of alfredo-tui/src/understanding.rs, and
-- what each owes to the last receipts.
use alfredo.Base.{
  ℕ, ◌+◌, ◌<◌, true, false, ◌≡◌, refl, ◌∙◌, ap, List, [], ◌∷◌, ◌++◌, append_assoc, none, some, ok,
  arith, >>-eq-ok,
}
use alfredo.Scope.{Brief, validate_brief}
use alfredo.Understanding.{
  Flow, Action, enter, draft, confirm, Receipt, Snapshot, entry_brief, bad_prompt, apply,
}
use alfredo.Understanding.Entry.{entry_brief-valid}

-- What `apply` leaves as it is, and the revision that it counts.
pub apply-frame :
    (s : Snapshot) (a : Action) {t : Snapshot}
    → apply s a ≡ ok t
    → (t.receipts ≡ s.receipts)
      × (t.workspace ≡ s.workspace)
      × (t.schema_version ≡ s.schema_version)
      × (t.revision ≡ s.revision + 1)
unfolding apply
apply-frame s (enter flow) h = ground arith
apply-frame s (draft brief) h = ground arith
apply-frame s (confirm revision) h = ground arith

-- A snapshot `s` whose journal is `rs` is outside the flow, just entered, drafted or agreed.
pub data Stage (s : Snapshot) (rs : List Receipt) : Type 0 where
  outside :
      rs ≡ []
      → s.brief ≡ none
      → s.flow ≡ none
      → s.confirmed ≡ false
      → s.revision ≡ 0
      → s.draft_revision ≡ 0
      → Stage s rs
  entered :
      (f : Flow)
      → s.flow ≡ some f
      → s.brief ≡ some (entry_brief f.prompt)
      → validate_brief (entry_brief f.prompt) ≡ ok tt
      → s.confirmed ≡ false
      → s.revision ≡ 1
      → s.draft_revision ≡ 1
      → Stage s rs
  drafted :
      (before : List Receipt) (r : Receipt) (b : Brief)
      → rs ≡ before ++ r ∷ []
      → r.request.action ≡ draft b
      → s.brief ≡ some b
      → validate_brief b ≡ ok tt
      → s.confirmed ≡ false
      → s.revision ≡ s.draft_revision
      → 0 < s.draft_revision
      → Stage s rs
  agreed :
      (before : List Receipt) (r confirmation : Receipt) (b : Brief)
      → rs ≡ before ++ (r ∷ confirmation ∷ [])
      → r.request.action ≡ draft b
      → confirmation.request.action ≡ confirm s.draft_revision
      → s.brief ≡ some b
      → validate_brief b ≡ ok tt
      → s.confirmed ≡ true
      → s.revision ≡ s.draft_revision + 1
      → 0 < s.draft_revision
      → Stage s rs

module _ (s t : Snapshot) (rs : List Receipt) (r : Receipt) where
  enter-first :
      (f : Flow) → apply s (enter f) ≡ ok t → (bad_prompt f.prompt ≡ false) × (s.revision ≡ 0)
  unfolding apply
  enter-first f h = ground arith

  enter-Stage : (f : Flow) → apply s (enter f) ≡ ok t → Stage t (rs ++ r ∷ [])
  unfolding apply
  enter-Stage f h =
      let (good, first) = enter-first f h in
      entered f (ground arith) (ground arith) (entry_brief-valid f.prompt good) (ground arith)
        (ground arith) (ground arith)

  draft-Stage :
      (b : Brief) → r.request.action ≡ draft b → apply s (draft b) ≡ ok t → Stage t (rs ++ r ∷ [])
  unfolding apply
  draft-Stage b action h =
      let (good, h1) = >>-eq-ok (validate_brief b) _ h in
      drafted rs r b refl action (ground arith) good (ground arith) (ground arith) (ground arith)

  confirm-Stage :
      (n : ℕ)
      → r.request.action ≡ confirm n
      → apply s (confirm n) ≡ ok t
      → Stage s rs
      → Stage t (rs ++ r ∷ [])
  unfolding apply
  confirm-Stage n action h (outside _ no_brief _ _ _ _) = absurd (ground arith)
  confirm-Stage n action h (entered f flow _ _ _ _ first) = absurd (ground arith)
  confirm-Stage n action h (agreed _ _ _ _ _ _ _ _ _ confirmed _ _) = absurd (ground arith)
  confirm-Stage n action h (drafted before rd b journal drawn brief good pending same positive) =
      let exact : s.draft_revision ≡ n = ground arith in
      agreed before rd r b (ap (λ q. q ++ r ∷ []) journal ∙ append_assoc before (rd ∷ []) (r ∷ []))
        drawn (ground arith) (ground arith) good (ground arith) (ground arith) (ground arith)

  stage_of :
      (a : Action) → r.request.action ≡ a → apply s a ≡ ok t → Stage s rs → Stage t (rs ++ r ∷ [])
  stage_of (enter f) action h stage = enter-Stage f h
  stage_of (draft b) action h stage = draft-Stage b action h
  stage_of (confirm n) action h stage = confirm-Stage n action h stage

pub apply-Stage :
    (s t : Snapshot) (rs : List Receipt) (r : Receipt)
    → apply s r.request.action ≡ ok t
    → Stage s rs
    → Stage t (rs ++ r ∷ [])
apply-Stage s t rs r h stage = stage_of s t rs r r.request.action refl h stage
