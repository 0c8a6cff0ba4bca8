-- ===== src/Tests/Rules.antt =====
-- An always-allow rule, alfredo-tui/src/chat_tools/allow.rs, and witnesses.
use alfredo.Base.{
  ℕ, true, false, ◌≡◌, ◌≢◌, ◌↔◌, refl, [], ◌∷◌, Option, none, some, Result, ok, find?,
}
use alfredo.Text.{Chars, chars, trim, trim_start, trim_end, codes_eq, starts_with, split}
use alfredo.Plan.Validate.{contains, show_hex, hidden}
use alfredo.Chat.{Card, shell, is_push, escalated}
use alfredo.Chat.Allow.{
  Rule, is_meta, words, pushes, is_tool, offered, has_meta, exact, leads, command_matches,
  text_matches, matches,
}
use alfredo.Chat.Allow.Hint.{
  card_hidden, safe_visible, show_line, show_command, hint_command, shell_rule, rule_for,
}
use alfredo.Chat.Allow.Covers.{Covers, command_matches_iff}
use alfredo.Chat.Allow.Rules.{File, bytes, rules_of, matching_in, matching, last_id, add_new, add}
use alfredo.Chat.Allow.Rules.Safe.{Grants, matching_safe}
use alfredo.Chat.Allow.Rules.Always.{always_covers}

abbrev wanted : Rule
wanted = record {
  id = 0;
  tool = chars "run_command";
  command = some (chars "cargo test");
  host = false;
}

abbrev first_rule : Rule
first_rule = record wanted { id = 1 }

abbrev card : Chars → Card
card command = record {
  tool = chars "run_command";
  kind = shell false;
  command = some command;
  fingerprint = [];
}

abbrev file : File
file = bytes 120 (some (first_rule ∷ []))

covering : Chars → Option Rule
unfolding matching matching_in rules_of matches text_matches offered is_tool pushes exact has_meta
    is_meta leads command_matches words trim trim_start trim_end codes_eq starts_with contains
    escalated
covering command = matching file (card command)

covered : covering (chars "cargo test --lib") ≡ some first_rule
unfolding covering
covered = refl

not_covered : covering (chars "cargo test; rm -r x") ≡ none
unfolding covering
not_covered = refl

command_matches_iff_example :
    (command_matches (chars "cargo test") (chars "cargo test --lib") ≡ true)
    ↔ Covers (chars "cargo test") (chars "cargo test --lib")
command_matches_iff_example = command_matches_iff (chars "cargo test") (chars "cargo test --lib")

matching_safe_example :
    (is_push (card (chars "cargo test --lib")).kind ≡ false)
    × (escalated (card (chars "cargo test --lib")) ≡ false)
    × ((card (chars "cargo test --lib")).tool ≢ chars "git_push")
    × (first_rule.tool ≡ (card (chars "cargo test --lib")).tool)
    × (first_rule.host ≡ false)
    × Grants first_rule (card (chars "cargo test --lib"))
unfolding covering
matching_safe_example = matching_safe file (card (chars "cargo test --lib")) first_rule covered

abbrev one_column : ℕ → ℕ
one_column c = 1

wanted_of : Chars → Result Rule
unfolding covering rule_for shell_rule hint_command show_command show_line safe_visible card_hidden
    hidden show_hex split
wanted_of command = rule_for one_column (card command)

made : wanted_of (chars "cargo test") ≡ ok wanted
unfolding wanted_of
made = refl

added : add [] wanted ≡ ok (first_rule, first_rule ∷ [])
unfolding add add_new last_id
added = refl

always_covers_example :
    (matches first_rule (card (chars "cargo test")) ≡ true)
    × ((rule : Rule) × (find? (λ r. matches r (card (chars "cargo test"))) (first_rule ∷ [])
          ≡ some rule))
unfolding wanted_of
always_covers_example =
    always_covers one_column [] (card (chars "cargo test")) wanted (first_rule, first_rule ∷ [])
      made added
