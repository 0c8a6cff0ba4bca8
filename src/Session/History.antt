-- ===== src/Session/History.antt =====
-- The prompts of alfredo-tui/src/model.rs that Up and Down recall.
use alfredo.Base.{
  ℕ, ◌+◌, ◌-◌, Bool, false, ◌&&◌, ◌||◌, List, [], ◌∷◌, ◌++◌, Option, none, some, ltb, length,
  get_elem?, is_empty, if◌then◌else◌,
}
use alfredo.Text.{trim, codes_eq}
use alfredo.Session.{
  Chars, user, assistant, Message, Session, max_draft, max_text, max_history, total_len, is_blank,
}
use alfredo.Session.Utf8.{byte_len, Segmenter}
use alfredo.Session.Draft.{cursor_of, to_end, replace_pending}

-- The oldest prompts go while there are too many, or too much text.
unfoldable pub shrink : List Chars → List Chars
shrink [] = []
shrink (t ∷ ts) =
    let rest = shrink ts in
    if ltb max_history (length (t ∷ ts)) || ltb max_text (total_len (t ∷ ts)) then rest else t ∷ ts

-- `self.history.last() == Some(&text)`
unfoldable pub is_last : Chars → List Chars → Bool
is_last text [] = false
is_last text (t ∷ []) = codes_eq t text
is_last text (t ∷ u ∷ ts) = is_last text (u ∷ ts)

unfoldable pub remember_in : List Chars → Chars → List Chars
remember_in history text =
    if is_empty text || ltb max_draft (byte_len text) || is_last text history
    then history
    else shrink (history ++ text ∷ [])

unfoldable pub remember : Session → Chars → Session
remember s text = record s { history = remember_in s.history text }

unfoldable pub remember_submission : Session → Session
remember_submission s = remember s (trim s.draft)

-- The prompts of the user in the transcript.
unfoldable pub prompts : List Message → List Chars
prompts [] = []
prompts (m ∷ ms) =
    let rest = prompts ms in elim m.role [ user ↦ m.content ∷ rest | assistant ↦ rest ]

unfoldable pub remember_all : List Chars → List Chars → List Chars
remember_all history [] = history
remember_all history (t ∷ ts) = remember_all (remember_in history t) ts

-- `restore_history`
unfoldable pub restore_history : Session → Session
restore_history s = record s { history = remember_all s.history (prompts s.messages) }

-- `self.draft = self.history[i].clone(); self.end()`; `none` is the panic of an index out of range.
unfoldable pub show_prompt : Session → ℕ → Option Session
show_prompt s i = elim (get_elem? s.history i) [
  | none ↦ none
  | some text ↦ some (to_end (record s { history_index = some i; draft = text }))
]

-- The text at `i` is the draft, but for white space around this.
unfoldable pub is_shown : List Chars → ℕ → Chars → Bool
is_shown history i draft = elim (get_elem? history i) [
  | none ↦ false
  | some text ↦ codes_eq text (trim draft)
]

-- The index that the first Up recalls, where `last` is that of the last prompt.
unfoldable pub first_index : List Chars → ℕ → Chars → ℕ
first_index history last draft =
    if ltb 0 last && is_shown history last draft then last - 1 else last

module _ (g : Segmenter) where
  unfoldable pub recall : Session → Option ℕ → Option Session
  recall s (some i) = show_prompt s (i - 1)
  recall s none =
      show_prompt (record s { unsent = some (s.draft, cursor_of g s) })
        (first_index s.history (length s.history - 1) s.draft)

  unfoldable pub history_previous : Session → Option Session
  unfolding recall
  history_previous s =
      let filled = if is_empty s.history then restore_history s else s in
      if replace_pending s
      then some (record s { rejected = none })
      else if is_empty filled.history
      then some filled
      else recall filled filled.history_index

-- `reject_draft`
unfoldable pub reject_draft : Session → Session
reject_draft s = record (remember_submission s) {
  history_index = none;
  rejected = if is_blank s.draft then none else some s.draft;
}

unfoldable pub back_to_unsent : Session → Option (Chars × ℕ) → Session
back_to_unsent s none = record s { history_index = none }
back_to_unsent s (some (draft, cursor)) = record s {
  history_index = none;
  unsent = none;
  draft = draft;
  cursor = cursor;
}

unfoldable pub next_from : Session → Option ℕ → Option Session
unfolding back_to_unsent
next_from s none = some s
next_from s (some i) =
    if ltb (i + 1) (length s.history)
    then show_prompt s (i + 1)
    else some (back_to_unsent s s.unsent)

unfoldable pub history_next : Session → Option Session
unfolding next_from
history_next s = next_from s s.history_index
