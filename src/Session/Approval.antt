-- ===== src/Session/Approval.antt =====
-- The card that waits for the owner, alfredo-tui/src/model.rs, and its decisions, chat_tools/approval.rs.
-- Times are milliseconds; the cells of characters are those of the crate unicode-width.
pub mod Keeps
pub mod Events
pub mod Seen
use alfredo.Base.{
  ℕ, ◌-◌, Bool, true, false, not, ◌&&◌, ◌||◌, Option, none, some, ltb, leb, ◌==◌, is_empty,
  if◌then◌else◌,
}
use alfredo.Chat.{Card, is_shell}
use alfredo.Chat.Allow.Hint.{available}
use alfredo.Session.{Session, is_active}
use alfredo.Session.Queue.{has_card}

-- `ARM`
abbrev pub arm : ℕ
arm = 500

pub data Decision : Type 0 where
  approve deny always_allow : Decision

abbrev pub is_deny : Decision → Bool
is_deny deny = true
is_deny _ = false

-- What `approval_visible` makes of the card.
abbrev pub made_visible : Bool → ℕ → Option (Card × Option ℕ) → Option (Card × Option ℕ)
made_visible visible now none = none
made_visible true now (some (card, none)) = some (card, some now)
made_visible true now (some (card, some shown)) = some (card, some shown)
made_visible false now (some (card, shown)) = some (card, none)

unfoldable pub approval_visible : Bool → ℕ → Session → Session
approval_visible visible now s = record s { approval = made_visible visible now s.approval }

-- `set_approval_header_drawn` and `set_approval_whole`, which the draw calls.
unfoldable pub set_drawn : Bool → Bool → Session → Session
set_drawn header whole s = record s { approval_header_drawn = header; approval_whole = whole }

-- The session, and whether the card waits. The clock of the turn is left out.
unfoldable pub await_approval : ℕ → Card → Session → Session × Bool
await_approval attempt card s =
    if not (s.attempt == attempt) || not (is_active s.status) then (s, false) else (
      record s {
        approval_header_drawn = false;
        approval_whole = false;
        approval = some (card, none);
      },
      true,
    )

unfoldable pub note_key : ℕ → Session → Session
note_key now s = record s { key_times = (s.key_times.1, some now) }

abbrev pub is_quiet : ℕ → Option ℕ → Bool
is_quiet now none = true
is_quiet now (some previous) = leb arm (now - previous)

unfoldable pub approval_key_answers : ℕ → Session → Bool
approval_key_answers now s =
    if not (has_card s) || not (is_empty s.draft) then false else is_quiet now s.key_times.0

module _ (columns : ℕ → ℕ) where
  -- The decision that a key stands for.
  unfoldable pub decision_of : ℕ → Card → Option Decision
  decision_of key card =
      if key == b'y'
      then some approve
      else if key == b'n'
      then some deny
      else if key == b'a' && available columns card
      then some always_allow
      else none

  -- The part of `answer_approval` behind the first test.
  unfoldable pub decide : ℕ → ℕ → Bool → Option (Card × Option ℕ) → Option Decision
  decide key now whole none = none
  decide key now whole (some (card, none)) = none
  decide key now whole (some (card, some shown)) =
      if ltb (now - shown) arm
      then none
      else if not (key == b'n') && not whole
      then none
      else decision_of key card

  unfoldable pub decision : ℕ → ℕ → Session → Option Decision
  decision key now s =
      if approval_key_answers now s then decide key now s.approval_whole s.approval else none

-- The session behind a decision: the card is closed.
abbrev runs_shell : Option (Card × Option ℕ) → Bool
runs_shell none = false
runs_shell (some (card, shown)) = is_shell card.kind

abbrev pub closed : Option Decision → Session → Session
closed none s = s
closed (some d) s = record s {
  running_command = not (is_deny d) && runs_shell s.approval;
  approval = none;
}

unfoldable pub answer_approval : (ℕ → ℕ) → ℕ → ℕ → Session → Session × Option Decision
answer_approval columns key now s =
    (closed (decision columns key now s) s, decision columns key now s)
