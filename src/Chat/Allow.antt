-- ===== src/Chat/Allow.antt =====
-- The always-allow rules of alfredo-tui/src/chat_tools/allow.rs.
pub mod Hint
pub mod Covers
pub mod Rules
use mathlib.Core.List.{reverse}
use alfredo.Base.{
  ℕ, ◌+◌, String, Bool, true, false, not, ◌&&◌, ◌||◌, List, [], ◌∷◌, ◌++◌, Option, none, some,
  Result, ok, err, ◌>>=◌, ◌>>◌, refuse_if, ok_or, any, find?, ltb, leb, ◌==◌, length, is_empty,
  if◌then◌else◌,
}
use alfredo.Text.{Chars, chars, is_whitespace, trim, codes_eq, starts_with}
use alfredo.Plan.Validate.{contains}
use alfredo.Chat.{Card, CardKind, shell, is_shell, is_push, escalated, Tier, allowlistable, tools}

-- `METACHARS`
unfoldable pub is_meta : ℕ → Bool
is_meta c =
    c == b';'
    || c == b'&'
    || c == b'|'
    || c == b'`'
    || c == b'$'
    || c == b'>'
    || c == b'<'
    || c == 0x0a
    || c == 0x0d
    || c == 0x5c
    || c == b'('
    || c == b')'

pub record Rule : Type 0 where
  pub id : ℕ
  pub tool : Chars
  pub command : Option Chars
  pub host : Bool

-- The words between separators, empty ones left out; `word` is the one that is being read.
words_from : (ℕ → Bool) → Chars → Chars → List Chars
words_from separates word [] = if is_empty word then [] else word ∷ []
words_from separates word (c ∷ s) =
    let rest = words_from separates (if separates c then [] else word ++ c ∷ []) s in
    if separates c && not (is_empty word) then word ∷ rest else rest

-- `split_whitespace`
unfoldable pub words : Chars → List Chars
unfolding words_from
words s = words_from is_whitespace [] s

is_quote : ℕ → Bool
is_quote c = c == 0x22 || c == 0x27

drop_quotes : Chars → Chars
unfolding is_quote
drop_quotes [] = []
drop_quotes (c ∷ s) = let rest = drop_quotes s in if is_quote c then rest else c ∷ s

unquoted : Chars → Chars
unfolding drop_quotes
unquoted s = reverse (drop_quotes (reverse (drop_quotes s)))

-- `w == "git" || w.ends_with("/git")`
is_git : Chars → Bool
is_git word = codes_eq word (chars "git") || starts_with (reverse word) (reverse (chars "/git"))

-- A `git` word, and a `push` word after it.
pushes_in : List Chars → Bool
unfolding is_git unquoted
pushes_in [] = false
pushes_in (w ∷ ws) =
    let later = pushes_in ws in
    if is_git (unquoted w) then any (λ v. codes_eq (unquoted v) (chars "push")) ws else later

-- `pushes`. The empty words that the split of the source keeps are neither.
unfoldable pub pushes : Chars → Bool
unfolding words_from pushes_in
pushes command = pushes_in (words_from (λ c. is_whitespace c || is_meta c) [] command)

abbrev pub on_command : (Chars → Bool) → Option Chars → Bool
on_command f none = false
on_command f (some command) = f command

unfoldable pub is_tool : Chars → Bool
is_tool name = any (λ tool. codes_eq tool.0 name && allowlistable tool.1) tools

-- `offered`
unfoldable pub offered : Card → Bool
unfolding is_tool
offered card =
    not (is_push card.kind)
    && not (escalated card)
    && not (codes_eq card.tool (chars "write_file") && contains card.fingerprint (chars "+dirs:"))
    && is_tool card.tool
    && not (on_command pushes card.command)

unfoldable pub has_meta : Chars → Bool
has_meta s = any is_meta s

-- `exact`
unfoldable pub exact : Rule → Bool
exact rule = rule.host || on_command has_meta rule.command

-- The words of the rule are the first words of the command.
unfoldable pub leads : List Chars → List Chars → Bool
leads [] given = true
leads (w ∷ ws) [] = false
leads (w ∷ ws) (v ∷ vs) = codes_eq v w && leads ws vs

unfoldable pub command_matches : Chars → Chars → Bool
command_matches rule command =
    if is_empty (trim rule)
    then false
    else if codes_eq (trim rule) (trim command)
    then true
    else if has_meta (trim rule) || has_meta (trim command)
    then false
    else leads (words (trim rule)) (words (trim command))

-- The texts of a rule and of a card.
unfoldable pub text_matches : Rule → Option Chars → Option Chars → Bool
text_matches rule (some text) (some command) =
    if exact rule then codes_eq (trim text) (trim command) else command_matches text command
text_matches rule _ _ = false

abbrev pub has_text : Option Chars → Bool
has_text none = false
has_text (some text) = true

-- `matches`
unfoldable pub matches : Rule → Card → Bool
unfolding text_matches
matches rule card =
    offered card
    && codes_eq rule.tool card.tool
    && (if is_shell card.kind
        then not (escalated card) && not rule.host && text_matches rule rule.command card.command
        else not (has_text rule.command) && not rule.host)
