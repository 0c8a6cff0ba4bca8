-- ===== src/Session/Approval/Seen.antt =====
-- The decisions on a card of alfredo-tui/src/model.rs, and what comes before them.
use mathlib.Core.Bool.{false≢true}
use alfredo.Base.{
  ℕ, ◌+◌, ◌-◌, ◌≤◌, Bool, true, false, not, ◌&&◌, ◌||◌, ◌≡◌, refl, sym, ◌∙◌, ap, subst, List,
  Option, none, some, arith, ltb, ◌==◌, ◌⊎◌, inl, inr, if◌then◌else◌, is_empty,
}
use alfredo.Chat.{Card}
use alfredo.Chat.Allow.Hint.{available}
use alfredo.Session.{Session}
use alfredo.Session.Queue.{has_card}
use alfredo.Session.Approval.{
  arm, Decision, always_allow, is_deny, await_approval, note_key, is_quiet, approval_key_answers,
  decision_of, decide, decision, answer_approval,
}
use alfredo.Session.Approval.Events.{Event, run, OnScreen, LastDrawWhole, Quiet}
use alfredo.Session.Approval.Keeps.{Kept-seen, run-Keeps, awaited-Keeps}

-- A decision is one of the three, with what it needs.
record Decided (columns : ℕ → ℕ) (key now : ℕ) (s : Session) (d : Decision) : Type 0 where
  card : Card
  start : ℕ
  up : s.approval ≡ some (card, some start)
  aged : start + arm ≤ now
  whole : is_deny d ≡ false → s.approval_whole ≡ true
  offered : d ≡ always_allow → available columns card ≡ true
  quiet : is_quiet now s.key_times.0 ≡ true
  empty : is_empty s.draft ≡ true

denies : Option Decision → Bool
denies none = false
denies (some d) = is_deny d

if-some {ℓ} :
    {A : Type ℓ} {d : A} (b : Bool) (x y : Option A)
    → (if b then x else y) ≡ some d
    → ((b ≡ true) × (x ≡ some d)) ⊎ ((b ≡ false) × (y ≡ some d))
if-some true x y h = inl (refl, h)
if-some false x y h = inr (refl, h)

module _ (columns : ℕ → ℕ) (key now : ℕ) (d : Decision) where
  decision_of-offered :
      (card : Card)
      → decision_of columns key card ≡ some d
      → (d ≡ always_allow → available columns card ≡ true)
        × (is_deny d ≡ false → (key == b'n') ≡ false)
  unfolding decision_of denies
  decision_of-offered card h = elim (if-some (key == b'y') _ _ h) [
    | inl h0 ↦ (λ e. cc, λ e. ground (arith, h0.0))
    | inr h1 ↦ elim (if-some (key == b'n') _ _ h1.1) [
      | inl h0 ↦ (λ e. cc, λ e. absurd (false≢true (sym e ∙ sym (ap denies h0.1))))
      | inr h2 ↦ elim (if-some (key == b'a' && available columns card) _ _ h2.1) [
        | inl h3 ↦ (λ e. ground (arith, h3.0), λ e. h2.0)
        | inr h3 ↦ cc
      ]
    ]
  ]

  decide-Decided :
      (whole : Bool) (a : Option (Card × Option ℕ))
      → decide columns key now whole a ≡ some d
      → (card : Card) × (start : ℕ) × (a ≡ some (card, some start))
        × (start + arm ≤ now)
        × (is_deny d ≡ false → whole ≡ true)
        × (d ≡ always_allow → available columns card ≡ true)
  unfolding decide
  decide-Decided whole none h = cc
  decide-Decided whole (some (card, none)) h = cc
  decide-Decided whole (some (card, some start)) h = elim (if-some (ltb (now - start) arm) _ _ h) [
    | inl h0 ↦ cc
    | inr h1 ↦ elim (if-some (not (key == b'n') && not whole) _ _ h1.1) [
      | inl h0 ↦ cc
      | inr h2 ↦
          let (allowed, denied) = decision_of-offered card h2.1 in
          (card, start, refl, ground (arith, h1.0), (λ e. ground (arith, h2.0, denied e)), allowed)
    ]
  ]

  answers-quiet :
      (pending bare quiet : Bool)
      → (if not pending || not bare then false else quiet) ≡ true
      → (quiet ≡ true) × (bare ≡ true)
  answers-quiet pending bare quiet h = (ground arith, ground arith)

  Decided-Decided :
      (s : Session) → decision columns key now s ≡ some d → Decided columns key now s d
  unfolding decision approval_key_answers
  Decided-Decided s h = elim (if-some (approval_key_answers now s) _ _ h) [
    | inr h0 ↦ cc
    | inl h1 ↦
        let (card, start, up, aged, whole, offered) =
          decide-Decided s.approval_whole s.approval h1.1 in
        let (quiet, empty) =
          answers-quiet (has_card s) (is_empty s.draft) (is_quiet now s.key_times.0) h1.0 in
        record {
          card = card;
          start = start;
          up = up;
          aged = aged;
          whole = whole;
          offered = offered;
          quiet = quiet;
          empty = empty;
        }
  ]

-- What a decision on the card has behind it.
pub record IsConsidered (columns : ℕ → ℕ) (card : Card) (es : List Event) (now : ℕ) (s : Session)
    (d : Decision) : Type 0 where
  pub start : ℕ
  pub on_screen : OnScreen es start
  pub aged : start + arm ≤ now
  pub whole : is_deny d ≡ false → LastDrawWhole es
  pub offered : d ≡ always_allow → available columns card ≡ true
  pub quiet : Quiet es now
  pub empty : is_empty s.draft ≡ true

-- While a card waits, any sequence of draws, key presses and edits may come in between: a key decides on
-- the card only when the card has been on the screen without a break for at least `arm`; when the last
-- draw showed the whole card, unless the key denies; when the card may be always-allowed, for that
-- decision; when the last key before it came at least `arm` ago; and when the prompt is empty.
pub decided-IsConsidered :
    (columns : ℕ → ℕ) (attempt : ℕ) (card : Card) (s : Session) (es : List Event) (key now : ℕ)
    (d : Decision)
    → (await_approval attempt card s).1 ≡ true
    → (answer_approval columns key now
        (note_key now (run columns es (await_approval attempt card s).0))).1
      ≡ some d
    → IsConsidered columns card es now (run columns es (await_approval attempt card s).0) d
unfolding answer_approval note_key
decided-IsConsidered columns attempt card s es key now d h e =
    let last = run columns es (await_approval attempt card s).0 in
    let v =
      run-Keeps columns card es (await_approval attempt card s).0
        (awaited-Keeps attempt card s h) in
    let w = Decided-Decided columns key now d (note_key now last) e in
    let (same, seen) = Kept-seen es card w.card w.start last.approval v.card_kept w.up in
    record {
      start = w.start;
      on_screen = seen;
      aged = w.aged;
      whole = λ g. v.whole_kept (w.whole g);
      offered = λ g. subst (λ c. available columns c ≡ true) same (w.offered g);
      quiet = v.last_key now w.quiet;
      empty = w.empty;
    }
