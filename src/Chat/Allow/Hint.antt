-- ===== src/Chat/Allow/Hint.antt =====
-- What the key line of a card shows of a command, and the rule that the key `a` adds:
-- alfredo-tui/src/chat_tools/allow.rs, with `card_hidden`, `safe_visible` and `show_tabs` of dashboard.rs.
-- The cells of a character on the terminal are those of the crate unicode-width.
use alfredo.Base.{
  ℕ, ◌+◌, ◌-◌, ◌%◌, Bool, true, false, not, ◌&&◌, ◌||◌, List, [], ◌∷◌, ◌++◌, none, some, Result, ok,
  err, ◌>>=◌, ◌>>◌, refuse_if, ok_or, any, ltb, ◌==◌, length, is_empty, if◌then◌else◌,
}
use alfredo.Text.{Chars, chars, between, is_control, trim, split, ◌+++◌}
use alfredo.Plan.Validate.{hidden, show_hex, contains}
use alfredo.Chat.{Card, is_shell}
use alfredo.Chat.Allow.{Rule, offered}

default_ignorable : ℕ → Bool
default_ignorable c =
    c == 0x34f
    || between 0x115f 0x1160 c
    || between 0x17b4 0x17b5 c
    || between 0x180b 0x180d c
    || c == 0x180f
    || c == 0x3164
    || between 0xfe00 0xfe0f c
    || c == 0xffa0
    || between 0xfff0 0xfff8 c
    || between 0xe0000 0xe0fff c

unfoldable pub card_hidden : ℕ → Bool
unfolding default_ignorable
card_hidden c = hidden c || default_ignorable c

-- `<U+XXXX>`
escape : ℕ → Chars
escape c = chars ("<U+" +++ show_hex c +++ ">")

unfoldable pub safe_visible : Chars → Chars
unfolding escape
safe_visible [] = []
safe_visible (c ∷ s) =
    let rest = safe_visible s in
    if c == 0x0a || c == 0x09 || not (card_hidden c) then c ∷ rest else escape c ++ rest

-- Controls but the tab, as `show_command` spells them.
spelled : Chars → Chars
unfolding escape
spelled [] = []
spelled (c ∷ s) =
    let rest = spelled s in if is_control c && not (c == 0x09) then escape c ++ rest else c ∷ rest

spaces : ℕ → Chars
spaces n =
    if n == 0
    then []
    else if n == 1
    then 0x20 ∷ []
    else if n == 2
    then 0x20 ∷ 0x20 ∷ []
    else 0x20 ∷ 0x20 ∷ 0x20 ∷ []

-- `.replace('\u{21B5}', "<U+21B5>")`
spell_return : Chars → Chars
spell_return [] = []
spell_return (c ∷ s) =
    let rest = spell_return s in if c == 0x21b5 then chars "<U+21B5>" ++ rest else c ∷ rest

drop_two : Chars → Chars
drop_two (c ∷ d ∷ s) = s
drop_two s = []

module _ (columns : ℕ → ℕ) where
  -- `show_tabs` from a column: `→` and blanks up to the next stop of four, for each tab.
  show_tabs : ℕ → Chars → Chars
  unfolding spaces
  show_tabs column [] = []
  show_tabs column (c ∷ s) =
      let next =
        if c == 0x0a
        then 0
        else if c == 0x09
        then column + (4 - column % 4)
        else if c == 0x2192
        then column + 8
        else column + columns c in
      let rest = show_tabs next s in
      if c == 0x09
      then 0x2192 ∷ (spaces (4 - column % 4 - 1) ++ rest)
      else if c == 0x2192
      then chars "<U+2192>" ++ rest
      else c ∷ rest

  -- `show_line`
  unfoldable pub show_line : Chars → Chars
  unfolding show_tabs spell_return
  show_line line = show_tabs 0 (spell_return (safe_visible line))

  show_lines : List Chars → Chars
  unfolding spelled drop_two
  show_lines [] = []
  show_lines (line ∷ []) = drop_two (show_line (chars "$ " ++ spelled line))
  show_lines (line ∷ next ∷ lines) =
      drop_two (show_line (chars "$ " ++ spelled line)) ++ (0x21b5 ∷ show_lines (next ∷ lines))

  unfoldable pub show_command : Chars → Chars
  unfolding show_lines
  show_command command = show_lines (split 0x0a command)

  unfoldable pub hint_command : Chars → Result Chars
  hint_command command = do
    refuse_if (any (λ c. is_control c && not (c == 0x09) && not (c == 0x0a)) command)
        "has control characters it cannot show"
    refuse_if (contains command (chars "<U+")) "contains text that looks like an escape"
    refuse_if (ltb 80 (length (show_command (trim command))))
        "too long to always-allow (over 80 characters as shown)"
    ok (show_command (trim command))

  unfoldable pub shell_rule : Card → Result Rule
  shell_rule card = do
    raw ← ok_or card.command "run_command has no command"
    hint_command raw >>= λ hint.
        refuse_if (is_empty (trim raw)) "run_command has no command"
        >> ok (record { id = 0; tool = card.tool; command = some (trim raw); host = false })

  -- The error of a card that is not offered names its tool in the source.
  unfoldable pub rule_for : Card → Result Rule
  unfolding shell_rule
  rule_for card = do
    refuse_if (not (offered card)) "this tool can never be always-allowed"
    (if is_shell card.kind
        then shell_rule card
        else ok (record { id = 0; tool = card.tool; command = none; host = false }))

  shown_rule : Result Rule → Bool
  shown_rule (err e) = false
  shown_rule (ok rule) = elim rule.command [
    | none ↦ true
    | some command ↦ elim (hint_command command) [ err e ↦ false | ok hint ↦ true ]
  ]

  -- `available`: `offer` gives a hint.
  unfoldable pub available : Card → Bool
  unfolding shown_rule
  available card = shown_rule (rule_for card)
