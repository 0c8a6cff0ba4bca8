-- ===== src/Tests/Turns.antt =====
-- The turns of a session and a card that waits, alfredo-tui/src/model.rs, and witnesses.
use alfredo.Base.{
  ℕ, ◌+◌, ◌≤◌, Bool, true, ◌≡◌, refl, List, [], ◌∷◌, ◌++◌, none, some, Result, ok, arith,
}
use alfredo.Text.{starts_with, chars, codes_eq, trim, trim_start, trim_end}
use alfredo.Chat.{Card, git}
use alfredo.Session.{ToolCall, Session, user, assistant, connecting, streaming, new}
use alfredo.Session.Utf8.{width, byte_len, bounds, before}
use alfredo.Session.Draft.{last_upto, cursor_of, clear_draft, to_end}
use alfredo.Session.History.{remember_submission, remember, remember_in, is_last, shrink}
use alfredo.Session.Tools.{Encoder, tool_bytes}
use alfredo.Session.Queue.{
  checkpoint, saved_draft, from_unsent, from_aside, restore_queue_saved, make_room, restore_queue,
  queue_draft, has_card,
}
use alfredo.Session.Saved.{draft_bad}
use alfredo.Session.Turn.{done, token, begin, abandon, start, turn_bytes, apply}
use alfredo.Session.Turn.Reached.{Reached}
use alfredo.Session.Approval.{
  approve, await_approval, approval_visible, set_drawn, note_key, approval_key_answers, decision_of,
  decide, decision, answer_approval,
}
use alfredo.Session.Approval.Events.{Event, shown, drawn, edited, step, run}
use alfredo.Session.Approval.Seen.{IsConsidered, decided-IsConsidered}
use alfredo.Tests.Prompts.{characters, each}

-- An encoder that spends forty bytes on a call.
call_bytes : List ToolCall → ℕ
call_bytes [] = 0
call_bytes (c ∷ cs) = 40 + call_bytes cs

call_bytes_joined : (a b : List ToolCall) → call_bytes (a ++ b) ≤ call_bytes a + call_bytes b
unfolding call_bytes
call_bytes_joined [] b = omega arith
call_bytes_joined (c ∷ a) b = omega (arith, call_bytes_joined a b)

abbrev encoder : Encoder
encoder = record { calls_bytes = call_bytes; joined = call_bytes_joined }

abbrev fresh : Session
unfolding new
fresh = new

abbrev asking : Session
asking = record fresh { draft = chars "hi"; cursor = 2 }

abbrev asked : Session
asked = record fresh {
  messages =
      record { role = user; content = chars "hi" } ∷ record { role = assistant; content = [] } ∷ [];
  attempt = 1;
  status = connecting;
  history = chars "hi" ∷ [];
}

-- `begin`, open for the tests.
run_begin : Session → Result Session
unfolding begin abandon start turn_bytes tool_bytes clear_draft remember_submission remember
    remember_in is_last shrink codes_eq trim trim_start trim_end byte_len width
run_begin s = begin encoder s

begun : run_begin asking ≡ ok asked
unfolding run_begin fresh
begun = refl

abbrev answered : Session
answered = apply encoder 1 done (apply encoder 1 (token (chars "Hello")) asked)

saved_bad : Session → Bool
unfolding apply draft_bad checkpoint saved_draft from_unsent from_aside restore_queue_saved
    make_room restore_queue cursor_of last_upto bounds each byte_len width before to_end tool_bytes
saved_bad s = draft_bad characters (checkpoint s)

abbrev card : Card
card = record { tool = chars "git_commit"; kind = git; command = none; fingerprint = [] }

abbrev one_column : ℕ → ℕ
one_column c = 1

abbrev running : Session
running = record fresh { status = streaming; attempt = 1 }

-- The card comes to the screen, is drawn as a whole, and a text is typed and taken back.
abbrev events : List Event
events = edited [] 0 ∷ edited (chars "x") 1 ∷ drawn true true ∷ shown true 100 ∷ []

abbrev waiting : Session
waiting = run one_column events (await_approval 1 card running).0

awaited : (await_approval 1 card running).1 ≡ true
unfolding await_approval new
awaited = refl

decided : (answer_approval one_column b'y' 700 (note_key 700 waiting)).1 ≡ some approve
unfolding await_approval new run step approval_visible set_drawn note_key answer_approval decision
    decide decision_of approval_key_answers has_card
decided = refl

decided-IsConsidered_example : IsConsidered one_column card events 700 waiting approve
decided-IsConsidered_example =
    decided-IsConsidered one_column 1 card running events b'y' 700 approve awaited decided

-- A message is typed while the turn runs, and waits behind it.
abbrev typing : Session
typing = record asked { draft = chars "one"; cursor = 3 }

abbrev queueing : Session
queueing = record asked { queue = chars "one" ∷ []; history = chars "hi" ∷ chars "one" ∷ [] }

queue_one : Session → Result Session
unfolding run_begin queue_draft has_card starts_with
queue_one s = queue_draft s
