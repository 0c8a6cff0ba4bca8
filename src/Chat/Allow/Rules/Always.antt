-- ===== src/Chat/Allow/Rules/Always.antt =====
-- What the answer `a` on a card leads to, alfredo-tui/src/chat_tools/allow.rs.
use alfredo.Base.{
  ℕ, ◌+◌, Bool, true, false, not, ◌≡◌, inl, inr, refl, sym, ◌∙◌, ap, subst, List, [], ◌∷◌, ◌++◌,
  Option, none, some, some-eq, ok, ok_or, arith, find?, is_empty, Bool-cases, if◌then◌else◌,
  >>-eq-ok, >>=-eq-ok, ok_or-eq-ok, refuse_if-eq-ok, ok-injective,
}
use alfredo.Text.{Chars, trim, codes_eq}
use alfredo.Chat.{Card, is_shell, is_push, escalated}
use alfredo.Chat.Allow.{
  Rule, pushes, exact, is_tool, offered, text_matches, matches, command_matches, on_command,
}
use alfredo.Chat.Allow.Hint.{hint_command, shell_rule, rule_for}
use alfredo.Chat.Allow.Covers.{codes_eq_iff, trim_twice}
use alfredo.Chat.Allow.Rules.{same_grant, command_eq, flag_eq, add_new, add, last_id}
use alfredo.Chat.Allow.Rules.Safe.{found_passes, three, five}

-- A rule that `rule_for` makes covers its card.
offered_inside : (card : Card) → offered card ≡ true → escalated card ≡ false
unfolding offered
offered_inside card o =
    let (_, inside, _, _, _) =
      five (not (is_push card.kind)) (not (escalated card)) _ (is_tool card.tool)
        (not (on_command pushes card.command)) o in
    ground arith

own_text :
    (card : Card) (raw : Chars)
    → is_shell card.kind ≡ true
    → escalated card ≡ false
    → offered card ≡ true
    → card.command ≡ some raw
    → is_empty (trim raw) ≡ false
    → matches (record { id = 0; tool = card.tool; command = some (trim raw); host = false }) card
      ≡ true
unfolding matches text_matches command_matches
own_text card raw kind inside o given text =
    let same : codes_eq (trim (trim raw)) (trim raw) ≡ true =
      (codes_eq_iff (trim (trim raw)) (trim raw)).1 (trim_twice raw) in
    let text' : is_empty (trim (trim raw)) ≡ false = ap is_empty (trim_twice raw) ∙ text in
    rw (o, (codes_eq_iff card.tool card.tool).1 refl, kind, inside, given, same, text')
      (either
        (exact (record { id = 0; tool = card.tool; command = some (trim raw); host = false })))
  where
    either : (b : Bool) → (if b then true else true) ≡ true
    either true = refl
    either false = refl

shell_rule-matches :
    (columns : ℕ → ℕ) (card : Card) (rule : Rule)
    → is_shell card.kind ≡ true
    → offered card ≡ true
    → shell_rule columns card ≡ ok rule
    → matches rule card ≡ true
unfolding shell_rule
shell_rule-matches columns card rule kind o h =
    let (raw, given, h1) = >>=-eq-ok (ok_or card.command "run_command has no command") _ h in
    let (hint, _, h2) = >>=-eq-ok (hint_command columns raw) _ h1 in
    let (text, h3) = >>-eq-ok _ _ h2 in
    let some_text = refuse_if-eq-ok _ _ text in
    let inside : escalated card ≡ false = offered_inside card o in
    let made = ok-injective h3 in
    subst (λ q. matches q card ≡ true) made
      (own_text card raw kind inside o (ok_or-eq-ok card.command _ given) some_text)

by_kind :
    (columns : ℕ → ℕ) (card : Card) (rule : Rule)
    → offered card ≡ true
    → (b : Bool) → is_shell card.kind ≡ b
    → (if b
        then shell_rule columns card
        else ok (record { id = 0; tool = card.tool; command = none; host = false }))
      ≡ ok rule
    → matches rule card ≡ true
unfolding matches
by_kind columns card rule o true e h = shell_rule-matches columns card rule e o h
by_kind columns card rule o false e h =
    subst (λ q. matches q card ≡ true) (ok-injective h)
      (rw (o, (codes_eq_iff card.tool card.tool).1 refl, e) refl)

rule_for-matches :
    (columns : ℕ → ℕ) (card : Card) (rule : Rule)
    → rule_for columns card ≡ ok rule
    → matches rule card ≡ true
unfolding rule_for
rule_for-matches columns card rule h =
    let (o, h1) = >>-eq-ok _ _ h in
    let offer = refuse_if-eq-ok _ _ o in
    by_kind columns card rule (ground arith) (is_shell card.kind) refl h1

command_same : (s t : Option Chars) → command_eq s t ≡ true → s ≡ t
unfolding command_eq
command_same none none h = refl
command_same none (some t) h = cc
command_same (some s) none h = cc
command_same (some s) (some t) h = ap some ((codes_eq_iff s t).0 h)

flag_same : (a b : Bool) → flag_eq a b ≡ true → a ≡ b
unfolding flag_eq
flag_same true b h = sym h
flag_same false true h = cc
flag_same false false h = refl

-- A match does not read the number of the rule.
matches_at :
    (card : Card) (t t' : Chars) (c c' : Option Chars) (h h' : Bool) (i i' : ℕ)
    → t ≡ t'
    → c ≡ c'
    → h ≡ h'
    → matches (record { id = i'; tool = t'; command = c'; host = h' }) card ≡ true
    → matches (record { id = i; tool = t; command = c; host = h }) card ≡ true
unfolding matches exact
matches_at card t t' c c' h h' i i' et ec eh m = rw (et, ec, eh) m

renumbered :
    (wanted rule : Rule) (card : Card)
    → rule.tool ≡ wanted.tool
    → rule.command ≡ wanted.command
    → rule.host ≡ wanted.host
    → matches wanted card ≡ true
    → matches rule card ≡ true
unfolding matches text_matches exact
renumbered wanted rule card tool command host m =
    matches_at card rule.tool wanted.tool rule.command wanted.command rule.host wanted.host rule.id
      wanted.id tool command host m

-- Two rules that grant the same match the same cards.
same_grant-matches :
    (wanted rule : Rule) (card : Card)
    → same_grant wanted rule ≡ true
    → matches wanted card ≡ true
    → matches rule card ≡ true
unfolding same_grant
same_grant-matches wanted rule card h m =
    let (tool, command, host) =
      three (codes_eq rule.tool wanted.tool) (command_eq rule.command wanted.command)
        (flag_eq rule.host wanted.host) h in
    renumbered wanted rule card ((codes_eq_iff rule.tool wanted.tool).0 tool)
      (command_same rule.command wanted.command command) (flag_same rule.host wanted.host host) m

find_other {ℓ} :
    {A : Type ℓ} (p q : A → Bool) (xs : List A) (x : A)
    → find? p xs ≡ some x
    → q x ≡ true
    → (z : A) × (find? q xs ≡ some z)
find_other p q [] x h k = cc
find_other {A = A} p q (y ∷ xs) x h k = pick (p y) (q y) refl h (find_other p q xs x)
  where
    pick :
        (b c : Bool)
        → q y ≡ c
        → (if b then some y else find? p xs) ≡ some x
        → (find? p xs ≡ some x → q x ≡ true → (z : A) × (find? q xs ≡ some z))
        → (z : A) × ((if c then some y else find? q xs) ≡ some z)
    pick b true e found later = (y, refl)
    pick true false e found later = absurd (ground (arith, ap q (some-eq found)))
    pick false false e found later = later found k

find_last {ℓ} :
    {A : Type ℓ} (q : A → Bool) (xs : List A) (x : A)
    → q x ≡ true
    → (z : A) × (find? q (xs ++ x ∷ []) ≡ some z)
find_last q [] x h = (x, rw h refl)
find_last q (y ∷ xs) x h =
    let (z, later) = find_last q xs x h in
    elim (Bool-cases (q y)) [ inl here ↦ (y, rw here refl) | inr other ↦ (z, rw other later) ]

new_covers :
    (rules : List Rule) (wanted : Rule) (card : Card) (out : Rule × List Rule)
    → matches wanted card ≡ true
    → add_new rules wanted ≡ ok out
    → (matches out.0 card ≡ true)
      × ((rule : Rule) × (find? (λ r. matches r card) out.1 ≡ some rule))
unfolding add_new
new_covers rules wanted card out covers h =
    let (_, h1) = >>-eq-ok _ _ h in
    let rule : Rule = record wanted { id = last_id rules + 1 } in
    let m : matches rule card ≡ true = renumbered wanted rule card refl refl refl covers in
    subst
      (λ q. (matches q.0 card ≡ true) × ((r : Rule) × (find? (λ r. matches r card) q.1 ≡ some r)))
      (ok-injective h1) (m, find_last (λ r. matches r card) rules rule m)

-- After the answer `a` on a card adds its rule, or finds one that grants the same, the card is covered: the
-- same action runs unasked the next time.
pub always_covers :
    (columns : ℕ → ℕ) (rules : List Rule) (card : Card) (wanted : Rule) (out : Rule × List Rule)
    → rule_for columns card ≡ ok wanted
    → add rules wanted ≡ ok out
    → (matches out.0 card ≡ true)
      × ((rule : Rule) × (find? (λ r. matches r card) out.1 ≡ some rule))
unfolding add
always_covers columns rules card wanted out made added =
    by_find (find? (same_grant wanted) rules) refl added
  where
    covers : matches wanted card ≡ true
    covers = rule_for-matches columns card wanted made

    by_find :
        (found : Option Rule)
        → find? (same_grant wanted) rules ≡ found
        → elim found [ some rule ↦ ok (rule, rules) | none ↦ add_new rules wanted ] ≡ ok out
        → (matches out.0 card ≡ true)
          × ((rule : Rule) × (find? (λ r. matches r card) out.1 ≡ some rule))
    by_find (some rule) e h =
        let m =
          same_grant-matches wanted rule card (found_passes (same_grant wanted) rules rule e)
            covers in
        subst
          (λ q.
            (matches q.0 card ≡ true) × ((r : Rule) × (find? (λ r. matches r card) q.1 ≡ some r)))
          (ok-injective h) (m, find_other (same_grant wanted) (λ r. matches r card) rules rule e m)
    by_find none e h = new_covers rules wanted card out covers h
