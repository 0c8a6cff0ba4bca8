-- ===== src/Session/Queue.antt =====
-- The messages that wait behind a running turn, and the copy of a conversation that is saved:
-- `queue_draft`, `restore_queue` and `checkpoint` of alfredo-tui/src/model.rs.
pub mod Kept
use alfredo.Base.{
  ℕ, ◌+◌, ◌-◌, String, Bool, true, false, not, ◌&&◌, ◌||◌, List, [], ◌∷◌, ◌++◌, Option, none, some,
  Result, ok, ◌>>◌, refuse_if, ltb, leb, length, is_empty, if◌then◌else◌,
}
use alfredo.Text.{trim, starts_with}
use alfredo.Session.{
  Chars, Session, is_active, is_blank, max_draft, max_queued, max_queued_bytes, total_len,
}
use alfredo.Session.Utf8.{byte_len, before}
use alfredo.Session.Draft.{to_end, clear_draft}
use alfredo.Session.History.{remember_submission, remember_all}

abbrev pub is_some {ℓ} : {A : Type ℓ} → Option A → Bool
is_some none = false
is_some (some a) = true

-- A card is pending while its turn runs.
unfoldable pub has_card : Session → Bool
has_card s = is_active s.status && is_some s.approval

-- The message of BUSY.
abbrev pub busy : String
busy = "Esc stops the reply, or wait for it"

unfoldable pub queue_draft : Session → Result Session
queue_draft s = do
  refuse_if (not (is_active s.status) || has_card s) busy
  refuse_if (is_empty (trim s.draft)) "Enter a prompt"
  refuse_if (starts_with (trim s.draft) (b'/' ∷ []))
      "Commands cannot be queued; press Enter again when the reply ends"
  refuse_if
      (leb max_queued (length s.queue)
        || ltb max_queued_bytes (total_len s.queue + byte_len (trim s.draft)))
      "Queue full (3 messages); your text stays in the prompt until one is sent"
  let kept = remember_submission s
  ok (clear_draft (record kept { queue = s.queue ++ trim s.draft ∷ [] }))

-- `join("\n")`
unfoldable pub join : List Chars → Chars
join [] = []
join (t ∷ []) = t
join (t ∷ u ∷ ts) = t ++ (0x0a ∷ join (u ∷ ts))

-- The draft with the queued text in front.
unfoldable pub joined_draft : Session → Chars
joined_draft s = if is_blank s.draft then join s.queue else join s.queue ++ (0x0a ∷ s.draft)

unfoldable pub restore_queue : Session → Session
restore_queue s =
    let emptied = record s { queue = [] } in
    if is_empty s.queue
    then s
    else if leb (byte_len (joined_draft s)) max_draft
    then to_end (record emptied { draft = joined_draft s; history_index = none; unsent = none })
    else record emptied { history = remember_all s.history s.queue }

-- The draft is cut where the queued text leaves it no room.
unfoldable pub make_room : Session → Session
make_room s =
    let room = max_draft - (byte_len (join s.queue) + 1) in
    if not (is_empty s.queue) && ltb room (byte_len s.draft)
    then record s { draft = before room s.draft }
    else s

unfoldable pub restore_queue_saved : Session → Session
restore_queue_saved s = restore_queue (make_room s)

unfoldable pub from_unsent : Session → Option (Chars × ℕ) → Session
from_unsent s none = s
from_unsent s (some (draft, cursor)) = record s { draft = draft; cursor = cursor }

unfoldable pub from_aside : Session → Option Chars → Session
from_aside s none = s
from_aside s (some chat) = record s { draft = chat; cursor = byte_len chat }

-- The draft that is saved: that set aside for an agent view, or by Up, or the one in the prompt.
unfoldable pub saved_draft : Session → Session
unfolding from_unsent from_aside
saved_draft s = from_aside (from_unsent s s.unsent) s.aside

unfoldable pub checkpoint : Session → Session
checkpoint s =
    let restored = restore_queue_saved (record (saved_draft s) { aside = none }) in
    record restored { history = []; history_index = none; unsent = none }
