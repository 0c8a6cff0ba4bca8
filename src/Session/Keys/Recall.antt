-- ===== src/Session/Keys/Recall.antt =====
-- Up and Down in the prompt of alfredo-tui/src/model.rs, and any sequence of keys.
use alfredo.Base.{
  ℕ, ◌+◌, ◌-◌, true, false, ◌&&◌, ◌≡◌, refl, sym, ◌∙◌, ap, List, [], ◌∷◌, Option, none, some, arith,
  ltb, Bool-cases, inl, inr, if◌then◌else◌, is_empty, all, length,
}
use alfredo.Text.{trim, trim_start, trim_end}
use alfredo.Session.{Chars, Session}
use alfredo.Session.Utf8.{Segmenter}
use alfredo.Session.Draft.{cursor_of, replace_pending}
use alfredo.Session.Draft.Cursor.{cursor-IsBoundary, trim_end-prefix, trim_start-suffix}
use alfredo.Session.Keys.{Key, press, press-IsSound, good, InRange, IsUnsent, IsSound, all-append}
use alfredo.Session.History.{
  restore_history, recall, history_previous, history_next, reject_draft, remember_submission,
  remember, next_from, back_to_unsent,
}
use alfredo.Session.Keys.Remembered.{
  first_index-lt, remember-IsPrompt, shown-IsSound, filled-IsSound, released, reindexed,
  first_index-lt,
}

module _ (g : Segmenter) where
  recall-IsSound :
      (s : Session) (index : Option ℕ)
      → IsSound s
      → InRange index (length s.history)
      → is_empty s.history ≡ false
      → (t : Session) × (recall g s index ≡ some t) × IsSound t
  unfolding recall
  recall-IsSound s (some i) v r h = shown-IsSound s (i - 1) v (omega arith)
  recall-IsSound s none v r h =
      shown-IsSound (record s { unsent = some (s.draft, cursor_of g s) }) _
        (reindexed s (some (s.draft, cursor_of g s)) (v.prompt, cursor-IsBoundary g s) v)
        (first_index-lt s.history s.draft h)

  filled_of : Session → Session
  filled_of s = if is_empty s.history then restore_history s else s

  filled_of-IsSound : (s : Session) → IsSound s → IsSound (filled_of s)
  unfolding filled_of
  filled_of-IsSound s v = elim (Bool-cases (is_empty s.history)) [
    | inl none_yet ↦ rw none_yet (filled-IsSound s none_yet v)
    | inr old ↦ rw old v
  ]

  -- Up never reads outside the history of a sound session, and leaves the session sound.
  previous-IsSound :
      (s : Session) → IsSound s → (t : Session) × (history_previous g s ≡ some t) × IsSound t
  unfolding history_previous filled_of
  previous-IsSound s v = elim (Bool-cases (replace_pending s)) [
    | inl pending ↦
        (record s { rejected = none }, rw pending refl, unfold filled_of in released s v)
    | inr typed ↦ elim (Bool-cases (is_empty (filled_of s).history)) [
      | inl nothing ↦ (filled_of s, rw (typed, nothing) refl, filled_of-IsSound s v)
      | inr some_prompt ↦
          let w = filled_of-IsSound s v in
          let (t, shown, u) =
            recall-IsSound (filled_of s) (filled_of s).history_index w w.in_range some_prompt in
          (t, rw (typed, some_prompt) shown, u)
    ]
  ]

-- So does Down.
back-IsSound :
    (s : Session) (unsent : Option (Chars × ℕ))
    → IsUnsent unsent
    → IsSound s
    → IsSound (back_to_unsent s unsent)
unfolding back_to_unsent
back-IsSound s none u v = record {
  prompt = v.prompt;
  placed = v.placed;
  remembered = v.remembered;
  in_range = tt;
  unsent = v.unsent;
  sent = v.sent;
}
back-IsSound s (some (draft, at)) u v = record {
  prompt = u.0;
  placed = u.1;
  remembered = v.remembered;
  in_range = tt;
  unsent = tt;
  sent = v.sent;
}

next_from-IsSound :
    (s : Session) (index : Option ℕ)
    → IsSound s
    → (t : Session) × (next_from s index ≡ some t) × IsSound t
unfolding next_from
next_from-IsSound s none v = (s, refl, v)
next_from-IsSound s (some i) v = elim (Bool-cases (ltb (i + 1) (length s.history))) [
  | inl later ↦ rw later (shown-IsSound s (i + 1) v (ground arith))
  | inr last ↦ rw last (back_to_unsent s s.unsent, refl, back-IsSound s s.unsent v.unsent v)
]

next-IsSound : (s : Session) → IsSound s → (t : Session) × (history_next s ≡ some t) × IsSound t
unfolding history_next
next-IsSound s v = next_from-IsSound s s.history_index v

-- A key of the prompt, Up and Down included; `none` is a panic.
pub data Move : Type 0 where
  edit_key : Key → Move
  up down reject : Move

unfoldable pub moved : Segmenter → Session → Move → Option Session
moved g s (edit_key k) = some (press g s k)
moved g s up = history_previous g s
moved g s down = history_next s
moved g s reject = some (reject_draft s)

unfoldable pub moves : Segmenter → Session → List Move → Option Session
moves g s [] = some s
moves g s (m ∷ ms) = elim (moved g s m) [ none ↦ none | some t ↦ moves g t ms ]

trim_good : (t : Chars) → all good t ≡ true → all good (trim t) ≡ true
unfolding trim
trim_good t h =
    let (lead, start) = trim_start-suffix t in
    let (rest, finish) = trim_end-prefix (trim_start t) in
    let whole : (all good lead && all good (trim_start t)) ≡ true =
      sym (all-append good lead (trim_start t)) ∙ ap (all good) start ∙ h in
    let kept : (all good (trim_end (trim_start t)) && all good rest) ≡ true =
      sym (all-append good (trim_end (trim_start t)) rest) ∙ ap (all good) finish ∙ ground arith in
    ground arith

reject-IsSound : (s : Session) → IsSound s → IsSound (reject_draft s)
unfolding reject_draft remember_submission remember
reject-IsSound s v = record {
  prompt = v.prompt;
  placed = v.placed;
  remembered =
      remember-IsPrompt s.history (trim s.draft) (trim_good s.draft v.prompt.1) v.remembered;
  in_range = tt;
  unsent = v.unsent;
  sent = v.sent;
}

moved-IsSound :
    (g : Segmenter) (s : Session) (m : Move)
    → IsSound s
    → (t : Session) × (moved g s m ≡ some t) × IsSound t
unfolding moved
moved-IsSound g s (edit_key k) v = (press g s k, refl, press-IsSound g s k v)
moved-IsSound g s up v = previous-IsSound g s v
moved-IsSound g s down v = next-IsSound s v
moved-IsSound g s reject v = (reject_draft s, refl, reject-IsSound s v)

-- Whatever keys are pressed in a sound session, none of them panics, and the session stays sound: the draft
-- is within 16 KiB and free of control characters but the line feed, the cursor stands between two of its
-- characters, and so it is with all that the history may bring back.
pub moves-IsSound :
    (g : Segmenter) (s : Session) (ms : List Move)
    → IsSound s
    → (t : Session) × (moves g s ms ≡ some t) × IsSound t
unfolding moves
moves-IsSound g s [] v = (s, refl, v)
moves-IsSound g s (m ∷ ms) v =
    let (t, pressed, w) = moved-IsSound g s m v in
    let (u, rest, x) = moves-IsSound g t ms w in (u, rw (pressed, moves) rest, x)
