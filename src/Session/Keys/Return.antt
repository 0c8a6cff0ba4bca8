-- ===== src/Session/Keys/Return.antt =====
-- Up, and then Down, in the prompt of alfredo-tui/src/model.rs.
use alfredo.Base.{
  ℕ, zero, suc, ◌-◌, ◌<◌, Bool, true, false, ◌≡◌, ◌⊎◌, refl, sym, ◌∙◌, ap, subst, List, [], ◌∷◌,
  none, some, some-eq, arith, Bool-cases, Option-cases, inl, inr, if◌then◌else◌, is_empty, length,
}
use alfredo.Session.{Chars, Session}
use alfredo.Session.Utf8.{Segmenter}
use alfredo.Session.Draft.{cursor_of, replace_pending}
use alfredo.Session.Keys.Remembered.{first_index-lt}
use alfredo.Session.History.{restore_history, show_prompt, first_index, recall, history_previous}
use alfredo.Session.Keys.Down.{ups, downs, Browsing, Returned, down_returns, shown_parts}

nonempty : (ts : List Chars) (i : ℕ) → i < length ts → is_empty ts ≡ false
nonempty [] i h = absurd (omega arith)
nonempty (t ∷ ts) i h = refl

-- Up has not set anything aside yet, since there is no prompt to recall.
record Idle (g : Segmenter) (draft : Chars) (at : ℕ) (s : Session) : Type 0 where
  index : s.history_index ≡ none
  same : s.draft ≡ draft
  placed : cursor_of g s ≡ at
  typed : replace_pending s ≡ false

restored :
    (g : Segmenter) (draft : Chars) (at : ℕ) (s : Session)
    → Idle g draft at s
    → Idle g draft at (restore_history s)
unfolding restore_history replace_pending cursor_of
restored g draft at s h = record {
  index = h.index;
  same = h.same;
  placed = h.placed;
  typed = h.typed;
}

unclaimed : (s : Session) → s.rejected ≡ none → replace_pending s ≡ false
unfolding replace_pending
unclaimed s h = rw (h, replace_pending) refl

none-some : (i : ℕ) → none ≡ some i → ⊥
none-some i h = cc

panicked :
    (g : Segmenter) (n : ℕ) (s t : Session)
    → history_previous g s ≡ none
    → ups g (suc n) s ≡ some t
    → ⊥
unfolding ups
panicked g n s t h e = let stuck : ups g (suc n) s ≡ none = rw (h, ups) refl in cc

rest_of :
    (g : Segmenter) (n : ℕ) (s t u : Session)
    → history_previous g s ≡ some u
    → ups g (suc n) s ≡ some t
    → ups g n u ≡ some t
unfolding ups
rest_of g n s t u h e = let step : ups g (suc n) s ≡ ups g n u = rw (h, ups) refl in sym step ∙ e

first_up :
    {g : Segmenter} {draft : Chars} {at : ℕ} (s t : Session)
    → Idle g draft at s
    → is_empty s.history ≡ false
    → recall g s none ≡ some t
    → (i : ℕ) × Browsing draft at t i
unfolding recall
first_up {g} {draft} {at} s t h prompts up =
    let i = first_index s.history (length s.history - 1) s.draft in
    (
      i,
      (shown_parts draft at (record s { unsent = some (s.draft, cursor_of g s) }) t i up
          (λ j. some (h.same j, h.placed j)) (first_index-lt s.history s.draft prompts)).1,
    )

module _ (g : Segmenter) (draft : Chars) (at : ℕ) where
  -- The history that Up looks at.
  filled : Session → Session
  filled s = if is_empty s.history then restore_history s else s

  filled-Idle : (s : Session) → Idle g draft at s → Idle g draft at (filled s)
  unfolding filled
  filled-Idle s h = pick (is_empty s.history)
    where
      pick : (b : Bool) → Idle g draft at (if b then restore_history s else s)
      pick true = restored g draft at s h
      pick false = h

  up-Idle :
      (s t : Session)
      → Idle g draft at s
      → history_previous g s ≡ some t
      → Idle g draft at t ⊎ ((i : ℕ) × Browsing draft at t i)
  unfolding history_previous filled
  up-Idle s t h up = elim (Bool-cases (is_empty (filled s).history)) [
    | inl nothing ↦
        let stays : history_previous g s ≡ some (filled s) = rw (h.typed, nothing) refl in
        inl (subst (λ q. Idle g draft at q) (some-eq (sym stays ∙ up)) (filled-Idle s h))
    | inr prompts ↦
        let idle = filled-Idle s h in
        let recalls : history_previous g s ≡ recall g (filled s) none =
          rw (h.typed, prompts) (ap (recall g (filled s)) idle.index) in
        inr (first_up (filled s) t idle prompts (sym recalls ∙ up))
  ]

  up-Browsing :
      (s t : Session) (i : ℕ)
      → Browsing draft at s i
      → history_previous g s ≡ some t
      → Browsing draft at t (i - 1)
  unfolding history_previous recall
  up-Browsing s t i b up =
      let typed : replace_pending s ≡ false = unclaimed s b.claimed in
      let prompts = nonempty s.history i b.below in
      let recalls : history_previous g s ≡ show_prompt s (i - 1) =
        rw (typed, prompts, prompts) (ap (recall g s) b.index) in
      (shown_parts draft at s t (i - 1) (sym recalls ∙ up) b.aside (omega (arith, b.below))).1

  -- Where the session is after some keys of Up.
  abbrev Up : Session → Type 0
  Up s = Idle g draft at s ⊎ ((i : ℕ) × Browsing draft at s i)

  Up-step : (s t : Session) → Up s → history_previous g s ≡ some t → Up t
  Up-step s t (inl idle) up = up-Idle s t idle up
  Up-step s t (inr (i, b)) up = inr (i - 1, up-Browsing s t i b up)

  ups_track : (n : ℕ) (s t : Session) → Up s → ups g n s ≡ some t → Up t
  unfolding ups
  ups_track zero s t h e = subst Up (some-eq e) h
  ups_track (suc n) s t h e = elim (Option-cases (history_previous g s)) [
    | inl panic ↦ absurd (panicked g n s t panic e)
    | inr (u, up) ↦ ups_track n u t (Up-step s u h up) (rest_of g n s t u up e)
  ]

  returns :
      (t : Session) (i : ℕ)
      → Up t
      → t.history_index ≡ some i
      → (u : Session) × (downs (length t.history - i) t ≡ some u) × Returned draft at u
  returns t i (inl idle) h = absurd (none-some i (sym idle.index ∙ h))
  returns t i (inr (j, b)) h =
      let same : j ≡ i = some-eq (sym b.index ∙ h) in
      let below : j < length t.history = b.below in
      let (u, down, done) = down_returns draft at (length t.history - j - 1) t j b (omega arith) in
      let steps : suc (length t.history - j - 1) ≡ length t.history - i = omega (arith, same) in
      (u, subst (λ k. downs k t ≡ some u) steps down, done)

-- Down undoes Up: after any number of keys of Up, if prompt `i` is shown then, the keys of Down that lead past
-- the last prompt bring back the draft and the cursor from before, and no prompt is shown. Before, no prompt
-- was shown, and no rejected command was pending.
pub up_down_returns :
    (g : Segmenter) (n : ℕ) (s t : Session) (i : ℕ)
    → s.history_index ≡ none
    → replace_pending s ≡ false
    → ups g n s ≡ some t
    → t.history_index ≡ some i
    → (u : Session) × (downs (length t.history - i) t ≡ some u)
      × (u.draft ≡ s.draft)
      × (u.cursor ≡ cursor_of g s)
      × (u.history_index ≡ none)
up_down_returns g n s t i index typed up shown =
    let (u, down, (draft, placed, none_shown)) =
      returns g s.draft (cursor_of g s) t i
        (ups_track g s.draft (cursor_of g s) n s t
          (inl (record { index = index; same = refl; placed = refl; typed = typed })) up)
        shown in
    (u, down, draft, placed, none_shown)
