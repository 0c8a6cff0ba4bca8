-- ===== src/Chat/Allow/Rules.antt =====
-- The rules of a mission, `Rules` of alfredo-tui/src/chat_tools/allow.rs, and what an answer `a` leads to.
pub mod Safe
pub mod Always
use alfredo.Base.{
  ℕ, ◌+◌, ◌≤◌, String, Bool, true, false, not, ◌&&◌, ◌||◌, List, [], ◌∷◌, ◌++◌, Option, none, some,
  Result, ok, err, ◌>>=◌, ◌>>◌, refuse_if, ok_or, any, find?, ltb, leb, ◌==◌, length, is_empty,
  is_yes, if◌then◌else◌,
}
use alfredo.Text.{Chars, codes_eq}
use alfredo.Chat.{Card}
use alfredo.Chat.Allow.{Rule, matches}
use alfredo.Chat.Allow.Hint.{rule_for}

-- `MAX_FILE`
abbrev pub max_file : ℕ
max_file = 1048576

-- `MAX_RULES`
abbrev pub max_rules : ℕ
max_rules = 200

-- The file of the rules: not there, not to be read, or bytes, by their number and what they decode to.
pub data File : Type 0 where
  absent : File
  unreadable : String → File
  bytes : ℕ → Option (List Rule) → File

-- `list`
unfoldable pub rules_of : File → Result (List Rule)
rules_of absent = ok []
rules_of (unreadable e) = err e
rules_of (bytes size decoded) =
    if ltb max_file size
    then err "file exceeds 1 MiB"
    else if size == 0
    then ok []
    else ok_or decoded "malformed JSON"

unfoldable pub matching_in : Card → Result (List Rule) → Option Rule
matching_in card (err e) = none
matching_in card (ok rules) = find? (λ rule. matches rule card) rules

-- `matching`: an unreadable file matches nothing.
unfoldable pub matching : File → Card → Option Rule
unfolding matching_in
matching file card = matching_in card (rules_of file)

unfoldable pub command_eq : Option Chars → Option Chars → Bool
command_eq none none = true
command_eq (some s) (some t) = codes_eq s t
command_eq _ _ = false

unfoldable pub flag_eq : Bool → Bool → Bool
flag_eq true b = b
flag_eq false b = not b

-- `rule` grants the same as `wanted`.
unfoldable pub same_grant : Rule → Rule → Bool
unfolding command_eq flag_eq
same_grant wanted rule =
    codes_eq rule.tool wanted.tool
    && command_eq rule.command wanted.command
    && flag_eq rule.host wanted.host

-- `rules.iter().map(|r| r.id).max().unwrap_or(0)`
unfoldable pub last_id : List Rule → ℕ
last_id [] = 0
last_id (r ∷ rs) = let rest = last_id rs in if ltb rest r.id then r.id else rest

unfoldable pub add_new : List Rule → Rule → Result (Rule × List Rule)
unfolding last_id
add_new rules wanted = do
  refuse_if (leb max_rules (length rules)) "at most 200 rules; /allow clear some"
  let rule = record wanted { id = last_id rules + 1 }
  ok (rule, rules ++ rule ∷ [])

-- The change of `add_for` for a rule that is wanted.
unfoldable pub add : List Rule → Rule → Result (Rule × List Rule)
unfolding add_new
add rules wanted = elim (find? (same_grant wanted) rules) [
  | some rule ↦ ok (rule, rules)
  | none ↦ add_new rules wanted
]

unfoldable pub without : ℕ → List Rule → List Rule
without id [] = []
without id (r ∷ rs) = let rest = without id rs in if r.id == id then rs else r ∷ rest

-- The change of `remove`: the first rule with the number goes.
unfoldable pub remove : List Rule → ℕ → Result (Rule × List Rule)
remove rules id = do
  rule ← ok_or (find? (λ r. r.id == id) rules) "no rule with that number; /allow lists them"
  ok (rule, without id rules)

-- The change of `clear`, with the number of rules that were there.
unfoldable pub clear : List Rule → Result (ℕ × List Rule)
clear rules = ok (length rules, [])

module _ {ℓ} {T : Type ℓ} where
  -- The write and the rename of the changed file, which has `size` bytes.
  written : Result (Unit {0}) → File → ℕ → T × List Rule → Result T × File
  written (err e) file size out = (err e, file)
  written (ok _) file size (t, rules) = (ok t, bytes size (some rules))

  store : Result (Unit {0}) → File → (List Rule → ℕ) → Result (T × List Rule) → Result T × File
  unfolding written
  store write file encode (err e) = (err e, file)
  store write file encode (ok out) = written write file (encode out.1) out

  -- `update`, once the lock is held.
  unfoldable pub update :
      Result (Unit {0})
      → File
      → (List Rule → ℕ)
      → (List Rule → Result (T × List Rule))
      → Result T × File
  unfolding store
  update write file encode change = store write file encode (rules_of file >>= change)

-- `add_for`
unfoldable pub add_for :
    (ℕ → ℕ) → Result (Unit {0}) → File → (List Rule → ℕ) → Card → Result Rule × File
unfolding update
add_for columns write file encode card = elim (rule_for columns card) [
  | err e ↦ (err e, file)
  | ok wanted ↦ update write file encode (λ rules. add rules wanted)
]
