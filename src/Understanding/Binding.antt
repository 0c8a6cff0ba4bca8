-- ===== src/Understanding/Binding.antt =====
-- What the planner and the task store may take from a readable understanding,
-- alfredo-tui/src/understanding.rs: its `Binding` is valid, and a confirmed brief is one that was drafted.
use text.Mathlib.TextEquality.{eq_iff}
use alfredo.Base.{
  ◌≤◌, String, true, false, ◌≡◌, refl, subst, List, [], ◌∷◌, ◌++◌, some, ok, arith, ◌>>◌, refuse_if,
  >>-eq-ok, >>=-eq-ok, ok-injective, ltb, ok_or,
}
use alfredo.Text.{chars, starts_with}
use alfredo.Scope
use alfredo.Scope.{Brief, Understanding, binding, validate_brief, to_u64}
use alfredo.Understanding.{draft, confirm, Receipt, Snapshot, view}
use alfredo.Understanding.Journal.{
  Store, File, absent, unreadable, bytes, empty, bad_identity, replay, differs, check, read, limit,
}
use alfredo.Understanding.Stages.{Stage, outside, entered, drafted, agreed}
use alfredo.Understanding.Replay.{check-replay, check-Stage}

empty_checks : (store : Store) → check store (empty store) ≡ ok tt
unfolding check empty replay differs bad_identity
empty_checks store = rw ((eq_iff store.workspace store.workspace).1 refl) refl

pub read-check :
    (store : Store) (file : File) (s : Snapshot) → read store file ≡ ok s → check store s ≡ ok tt
unfolding read
read-check store absent s h =
    subst (λ q. check store q ≡ ok tt) (ok-injective h) (empty_checks store)
read-check store (unreadable e) s h = cc
read-check store (bytes size decoded) s h =
    let (_, h1) = >>-eq-ok (refuse_if (ltb limit size) _) _ h in
    let (u, _, h2) =
      >>=-eq-ok (ok_or decoded "Malformed understanding state; original preserved")
        (λ q. check store q >> ok q) h1 in
    let (valid, h3) = >>-eq-ok (check store u) _ h2 in
    subst (λ q. check store q ≡ ok tt) (ok-injective h3) valid

abbrev IsAbsolute : String → Type 0
IsAbsolute path = starts_with (chars path) (b'/' ∷ []) ≡ true

stage_binding :
    (s : Snapshot)
    → IsAbsolute s.workspace
    → s.revision ≤ 256
    → Stage s s.receipts
    → Scope.validate (binding (view s)) ≡ ok tt
unfolding Scope.validate binding view
stage_binding s absolute short (outside _ b _ c n d) = rw (absolute, b, c, n, d) refl
stage_binding s absolute short (entered f _ b good c n d) = rw (absolute, b, c, n, d, good) refl
stage_binding s absolute short (drafted _ _ _ _ _ b good c n d) =
    rw (absolute, b, c, good) (ground arith)
stage_binding s absolute short (agreed _ _ _ _ _ _ _ b good c n d) =
    rw (absolute, b, c, good) (ground arith)

pub identity_bounds :
    (store : Store) (s : Snapshot) → bad_identity store s ≡ false → s.revision ≤ 256
unfolding bad_identity
identity_bounds store s h = ground arith

-- The binding of every readable understanding, in a workspace with an absolute path, passes the checks
-- that a plan's binding must pass.
pub read-binding_valid :
    (store : Store) (file : File) (s : Snapshot)
    → IsAbsolute s.workspace
    → read store file ≡ ok s
    → Scope.validate (binding (view s)) ≡ ok tt
read-binding_valid store file s absolute h =
    let checked = read-check store file s h in
    stage_binding s absolute (identity_bounds store s (check-replay store s checked).0)
      (check-Stage store s checked)

agreed_exact :
    (s : Snapshot)
    → s.confirmed ≡ true
    → Stage s s.receipts
    → (before : List Receipt) × (r : Receipt) × (last : Receipt) × (b : Brief) × (s.receipts
        ≡ before ++ (r ∷ last ∷ []))
      × (r.request.action ≡ draft b)
      × (last.request.action ≡ confirm s.draft_revision)
      × (s.brief ≡ some b)
agreed_exact s yes' (outside _ _ _ c _ _) = absurd (ground arith)
agreed_exact s yes' (entered _ _ _ _ c _ _) = absurd (ground arith)
agreed_exact s yes' (drafted _ _ _ _ _ _ _ c _ _) = absurd (ground arith)
agreed_exact s yes' (agreed before r last b journal drawn exact brief _ _ _ _) =
    (before, r, last, b, journal, drawn, exact, brief)

-- A readable understanding that is confirmed ends with the receipt of the draft of its brief, followed by
-- the confirmation of exactly that draft's revision: no other receipt came between.
pub confirmed_exact :
    (store : Store) (file : File) (s : Snapshot)
    → read store file ≡ ok s
    → s.confirmed ≡ true
    → (before : List Receipt) × (r : Receipt) × (last : Receipt) × (b : Brief) × (s.receipts
        ≡ before ++ (r ∷ last ∷ []))
      × (r.request.action ≡ draft b)
      × (last.request.action ≡ confirm s.draft_revision)
      × (s.brief ≡ some b)
confirmed_exact store file s h confirmed =
    agreed_exact s confirmed (check-Stage store s (read-check store file s h))
