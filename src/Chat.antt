-- ===== src/Chat.antt =====
-- The cards of alfredo-tui/src/chat_tools/approval.rs, and the tiers of the tools, chat_tools/mod.rs.
pub mod Allow
use alfredo.Base.{ℕ, Bool, true, false, ◌||◌, List, [], ◌∷◌, Option, none, some, any, if◌then◌else◌}
use alfredo.Text.{Chars, chars, codes_eq}

pub data CardKind : Type 0 where
  edit git push : CardKind
  shell : Bool → CardKind

-- A pending action; `command` is the text under that key of its JSON arguments.
pub record Card : Type 0 where
  pub tool : Chars
  pub kind : CardKind
  pub command : Option Chars
  pub fingerprint : Chars

pub data Tier : Type 0 where
  reading mutating proposing pushing : Tier

abbrev pub is_shell : CardKind → Bool
is_shell (shell escalated) = true
is_shell _ = false

abbrev pub is_push : CardKind → Bool
is_push push = true
is_push _ = false

-- `Card::escalated`
unfoldable pub escalated : Card → Bool
escalated card = elim card.kind [ shell host ↦ host | _ ↦ false ]

-- `Tier::allowlistable`
abbrev pub allowlistable : Tier → Bool
allowlistable mutating = true
allowlistable _ = false

-- `TOOLS`: the names and the tiers.
abbrev pub tools : List (Chars × Tier)
tools =
    (chars "read_file", reading)
    ∷ (chars "list_files", reading)
    ∷ (chars "grep", reading)
    ∷ (chars "git_status", reading)
    ∷ (chars "git_branch", reading)
    ∷ (chars "git_log", reading)
    ∷ (chars "git_diff", reading)
    ∷ (chars "write_file", mutating)
    ∷ (chars "edit_file", mutating)
    ∷ (chars "git_commit", mutating)
    ∷ (chars "git_switch", mutating)
    ∷ (chars "git_merge", mutating)
    ∷ (chars "git_push", pushing)
    ∷ (chars "run_command", mutating)
    ∷ (chars "propose_plan", proposing)
    ∷ []
