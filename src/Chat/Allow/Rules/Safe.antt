-- ===== src/Chat/Allow/Rules/Safe.antt =====
-- What a matching rule of alfredo-tui/src/chat_tools/allow.rs can let run without a card.
use alfredo.Base.{
  Bool, true, false, not, ◌&&◌, ◌≡◌, ◌≢◌, ◌⊎◌, inl, inr, refl, ap, subst, List, [], ◌∷◌, Option,
  none, some, some-eq, Result, ok, err, arith, find?, Bool-cases, if◌then◌else◌,
}
use alfredo.Text.{Chars, chars, trim, codes_eq}
use alfredo.Chat.{Card, is_shell, is_push, escalated}
use alfredo.Chat.Allow.{
  Rule, pushes, exact, is_tool, offered, text_matches, matches, on_command, has_text,
}
use alfredo.Chat.Allow.Covers.{codes_eq_iff, Covers, command_matches_iff}
use alfredo.Chat.Allow.Rules.{File, rules_of, matching_in, matching}

-- What a rule grants: every call of a tool, or the runs of its command in the sandbox.
pub data Grants (rule : Rule) (card : Card) : Type 0 where
  tool_calls : is_shell card.kind ≡ false → rule.command ≡ none → Grants rule card
  runs :
      (text command : Chars)
      → rule.command ≡ some text
      → card.command ≡ some command
      → pushes command ≡ false
      → (trim text ≡ trim command) ⊎ Covers text command
      → Grants rule card

pub found_passes {ℓ} :
    {A : Type ℓ} (p : A → Bool) (xs : List A) (x : A) → find? p xs ≡ some x → p x ≡ true
found_passes p [] x h = cc
found_passes p (y ∷ xs) x h = pick (p y) refl h (found_passes p xs x)
  where
    pick :
        (b : Bool)
        → p y ≡ b
        → (if b then some y else find? p xs) ≡ some x
        → (find? p xs ≡ some x → p x ≡ true)
        → p x ≡ true
    pick true e found later = subst (λ z. p z ≡ true) (some-eq found) e
    pick false e found later = later found

text-Covers :
    (rule : Rule) (text command : Chars)
    → rule.host ≡ false
    → rule.command ≡ some text
    → text_matches rule (some text) (some command) ≡ true
    → (trim text ≡ trim command) ⊎ Covers text command
unfolding text_matches
text-Covers rule text command host given h = elim (Bool-cases (exact rule)) [
  | inl own ↦ inl ((codes_eq_iff (trim text) (trim command)).0 (ground arith))
  | inr open_ended ↦ inr ((command_matches_iff text command).0 (ground arith))
]

pub three : (a b c : Bool) → (a && b && c) ≡ true → (a ≡ true) × (b ≡ true) × (c ≡ true)
three a b c h = (ground arith, ground arith, ground arith)

pub five :
    (a b c d e : Bool)
    → (a && b && c && d && e) ≡ true
    → (a ≡ true) × (b ≡ true) × (c ≡ true) × (d ≡ true) × (e ≡ true)
five a b c d e h = (ground arith, ground arith, ground arith, ground arith, ground arith)

no_text : (rule : Rule) (command : Option Chars) → text_matches rule none command ≡ true → ⊥
unfolding text_matches
no_text rule none h = cc
no_text rule (some c) h = cc

no_command : (rule : Rule) (text : Chars) → text_matches rule (some text) none ≡ true → ⊥
unfolding text_matches
no_command rule text h = cc

no_push :
    (card : Card) (command : Chars)
    → card.command ≡ some command
    → offered card ≡ true
    → pushes command ≡ false
unfolding offered
no_push card command h o =
    let (_, _, _, _, quiet) =
      five (not (is_push card.kind)) (not (escalated card)) _ (is_tool card.tool)
        (not (on_command pushes card.command)) o in
    let same = ap (on_command pushes) h in ground arith

granted :
    (rule : Rule) (card : Card) (text command : Option Chars)
    → rule.command ≡ text
    → card.command ≡ command
    → offered card ≡ true
    → rule.host ≡ false
    → text_matches rule text command ≡ true
    → Grants rule card
granted rule card none command h k o host m = absurd (no_text rule command m)
granted rule card (some text) none h k o host m = absurd (no_command rule text m)
granted rule card (some text) (some command) h k o host m =
    runs text command h k (no_push card command k o) (text-Covers rule text command host h m)

no_command_of : (o : Option Chars) → has_text o ≡ false → o ≡ none
no_command_of none h = refl
no_command_of (some c) h = cc

kind_Grants :
    (rule : Rule) (card : Card)
    → offered card ≡ true
    → (b : Bool) → is_shell card.kind ≡ b
    → (if b
        then not (escalated card) && not rule.host && text_matches rule rule.command card.command
        else not (has_text rule.command) && not rule.host)
      ≡ true
    → (rule.host ≡ false) × Grants rule card
kind_Grants rule card o true e h =
    let (_, host, text) =
      three (not (escalated card)) (not rule.host) (text_matches rule rule.command card.command)
        h in
    let inside : rule.host ≡ false = ground arith in
    (inside, granted rule card rule.command card.command refl refl o inside text)
kind_Grants rule card o false e h =
    let plain : rule.command ≡ none = no_command_of rule.command (ground arith) in
    (ground arith, tool_calls e plain)

matches-Grants :
    (rule : Rule) (card : Card)
    → matches rule card ≡ true
    → (offered card ≡ true) × (rule.tool ≡ card.tool) × (rule.host ≡ false) × Grants rule card
unfolding matches
matches-Grants rule card h =
    let (offer, same, kind) = three (offered card) (codes_eq rule.tool card.tool) _ h in
    let (host, grants) = kind_Grants rule card offer (is_shell card.kind) refl kind in
    (offer, (codes_eq_iff rule.tool card.tool).0 same, host, grants)

matching_in-passes :
    (card : Card) (rules : Result (List Rule)) (rule : Rule)
    → matching_in card rules ≡ some rule
    → matches rule card ≡ true
unfolding matching_in
matching_in-passes card (err e) rule h = cc
matching_in-passes card (ok rules) rule h = found_passes (λ r. matches r card) rules rule h

not_push_tool : (card : Card) → is_tool card.tool ≡ true → card.tool ≢ chars "git_push"
not_push_tool card h e =
    let closed : is_tool (chars "git_push") ≡ false = unfold is_tool codes_eq in refl in
    absurd (ground (arith, ap is_tool e))

rule_safe :
    (rule : Rule) (card : Card)
    → matches rule card ≡ true
    → (is_push card.kind ≡ false)
      × (escalated card ≡ false)
      × (card.tool ≢ chars "git_push")
      × (rule.tool ≡ card.tool)
      × (rule.host ≡ false)
      × Grants rule card
unfolding offered
rule_safe rule card h =
    let (offer, same, host, grants) = matches-Grants rule card h in
    let (kind, inside, _, tool, _) =
      five (not (is_push card.kind)) (not (escalated card)) _ (is_tool card.tool)
        (not (on_command pushes card.command)) offer in
    (ground arith, ground arith, not_push_tool card tool, same, host, grants)

-- Whatever the file of the rules holds, a rule that lets a card go unasked is of the card's tool and not of
-- a run on the host; the card is no push, no run on the host and no call of git_push. It is either a call
-- of another tool than run_command that the rule grants altogether, or the run of a command that pushes
-- nothing and is the rule's own text or covered by it.
pub matching_safe :
    (file : File) (card : Card) (rule : Rule)
    → matching file card ≡ some rule
    → (is_push card.kind ≡ false)
      × (escalated card ≡ false)
      × (card.tool ≢ chars "git_push")
      × (rule.tool ≡ card.tool)
      × (rule.host ≡ false)
      × Grants rule card
unfolding matching
matching_safe file card rule h =
    rule_safe rule card (matching_in-passes card (rules_of file) rule h)
