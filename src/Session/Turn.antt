-- ===== src/Session/Turn.antt =====
-- The turns of a conversation, alfredo-tui/src/model.rs: `begin`, `begin_queued`, `retry`, `cancel` and
-- `apply`. The request that goes to the model and the fields that only the display reads are left out.
pub mod Lists
pub mod Turned
pub mod Keeps
pub mod Reports
pub mod Reached
pub mod Queued
use alfredo.Base.{
  ℕ, ◌+◌, ◌-◌, String, Bool, true, false, not, ◌&&◌, ◌||◌, List, [], ◌∷◌, ◌++◌, Option, none, some,
  Result, ok, err, ◌>>◌, refuse_if, ltb, leb, ◌==◌, length, is_empty, if◌then◌else◌,
}
use alfredo.Text.{chars, trim, starts_with, codes_eq}
use alfredo.Session.{
  Chars, user, assistant, Message, Status, connecting, streaming, complete, cancelled, failed,
  is_active, is_interrupted, is_complete, is_blank, ToolCall, ToolStep, Session, max_text,
  max_messages, total_len, content_len,
}
use alfredo.Session.Utf8.{byte_len}
use alfredo.Session.Draft.{clear_draft}
use alfredo.Session.History.{remember_submission}
use alfredo.Session.Tools.{
  Encoder, prefill, propose, add_round, remove_rounds, tool_bytes, refuses_step, push_tool_result,
}
use alfredo.Session.Queue.{busy, restore_queue}

-- `HARD_CAP`
abbrev hard_cap : String
hard_cap =
    "Conversation limit reached; press Ctrl+N for a new conversation or type /clear to restart this one"

abbrev pub output_limit : String
output_limit =
    "Conversation output limit reached; run /compact or /clear, or press Ctrl+N for a new conversation"

abbrev pub no_text : String
no_text = "Model returned no text; Ctrl+R retries or send again"

-- `CANCELLED_RESULT`
abbrev cancelled_result : Chars
cancelled_result = chars "cancelled after "

-- What a turn reports; the payload that only the display reads is left out.
pub data Update : Type 0 where
  queued queue_progress capacity_wait admitted thinking retrying metrics tool_calls stopped notice
        done :
      Update
  token : Chars → Update
  tool_step : ToolStep → Update
  tool_result : ToolCall → Chars → Bool → Update
  rule_running : Chars → Update
  broken : String → Update

abbrev attached_len : List (ℕ × Chars) → ℕ
attached_len [] = 0
attached_len ((i, block) ∷ rest) = byte_len block + attached_len rest

abbrev summary_len : Option Chars → ℕ
summary_len none = 0
summary_len (some summary) = byte_len summary

-- `messages.pop()`
unfoldable pub drop_last : List Message → List Message
drop_last [] = []
drop_last (m ∷ []) = []
drop_last (m ∷ n ∷ ms) = m ∷ drop_last (n ∷ ms)

-- `messages.last_mut().unwrap().content.push_str(text)`
unfoldable pub push_text : Chars → List Message → List Message
push_text text [] = []
push_text text (m ∷ []) = record m { content = m.content ++ text } ∷ []
push_text text (m ∷ n ∷ ms) = m ∷ push_text text (n ∷ ms)

-- `messages.last().is_none_or(|message| message.content.trim().is_empty())`
unfoldable pub is_textless : List Message → Bool
is_textless [] = true
is_textless (m ∷ []) = is_blank m.content
is_textless (m ∷ n ∷ ms) = is_textless (n ∷ ms)

abbrev pub is_cancelled : Status → Bool
is_cancelled cancelled = true
is_cancelled _ = false

abbrev pub reply : Message
reply = record { role = assistant; content = [] }

unfoldable pub start : Session → Session
start s = record s {
  messages = s.messages ++ reply ∷ [];
  attempt = s.attempt + 1;
  approval = none;
  status = connecting;
}

-- An interrupted turn that is left behind.
unfoldable pub abandon : Session → Session
abandon s =
    if is_interrupted s.status
    then record s { interrupted = s.interrupted ++ (length s.messages - 2) ∷ [] }
    else s

unfoldable pub retry : Session → Result Session
unfolding start
retry s = do
  refuse_if (not (is_interrupted s.status)) "Only interrupted turns can be retried"
  let left = drop_last s.messages
  ok (start (record s { messages = left; tool_steps = remove_rounds (length left) s.tool_steps }))

unfoldable pub cancel : Session → Session
cancel s =
    let back = restore_queue s in
    let closed = record back {
      compacting = false;
      approval = none;
      approval_header_drawn = false;
      approval_whole = false;
      running_command = false;
    } in
    if is_active s.status then record closed { status = cancelled } else closed

-- The updates that leave the mark of a running command alone.
abbrev pub keeps_running : Update → Bool
keeps_running metrics = true
keeps_running (rule_running tool) = true
keeps_running _ = false

unfoldable pub settle : Status → Session → Session
settle (failed reason) s = record (restore_queue s) { running_command = false }
settle connecting s = s
settle streaming s = s
settle _ s = record s { running_command = false }

module _ (e : Encoder) where
  unfoldable pub turn_bytes : Session → ℕ
  turn_bytes s =
      content_len s.messages
      + attached_len s.attachments
      + tool_bytes e s.tool_steps
      + summary_len s.summary

  unfoldable pub begin : Session → Result Session
  unfolding start abandon
  begin s = do
    refuse_if (is_active s.status) busy
    let prompt = trim s.draft
    refuse_if (is_empty prompt) "Enter a prompt"
    refuse_if s.compacting "Summarising earlier turns; wait for it, or press Esc to keep the draft"
    refuse_if
        (ltb max_text (turn_bytes s + byte_len prompt) || ltb max_messages (length s.messages + 2))
        hard_cap
    let left = abandon (remember_submission s)
    let asked = record left {
      messages = left.messages ++ record { role = user; content = prompt } ∷ [];
    }
    ok (start (clear_draft asked))

  begun :
      Session → Session → Chars → List Chars → Result Session → Session × Option (Result (Unit {0}))
  begun s t text rest (ok after) =
      (record after { draft = s.draft; cursor = s.cursor }, some (ok tt))
  begun s t text rest (err reason) =
      (restore_queue (record s { queue = text ∷ rest }), some (err reason))

  -- The draft is taken aside for the queued text.
  queue_begin : Session → List Chars → Session × Option (Result (Unit {0}))
  unfolding begun
  queue_begin s [] = (s, none)
  queue_begin s (text ∷ rest) =
      let taken = record s { queue = rest; draft = text } in begun s taken text rest (begin taken)

  unfoldable pub begin_queued : Session → Session × Option (Result (Unit {0}))
  unfolding queue_begin
  begin_queued s = if is_complete s.status then queue_begin s s.queue else (s, none)

  push_token : Session → Chars → Session
  push_token s text =
      if ltb max_text (content_len s.messages + tool_bytes e s.tool_steps + byte_len text)
      then record s { status = failed output_limit }
      else record s { messages = push_text text s.messages; status = streaming }

  push_step : Session → ToolStep → Session
  push_step s step =
      let filled = propose s (prefill step) in
      if refuses_step e s step then record s { status = failed output_limit } else record filled {
        tool_steps = add_round (length s.messages - 1) (λ steps. steps ++ step ∷ []) s.tool_steps;
      }

  push_result : Session → Session × Bool → Session
  push_result s (t, true) = t
  push_result s (t, false) = record t { status = failed output_limit }

  handle : Update → Session → Session
  unfolding push_token push_step push_result
  handle (rule_running tool) s = record s { running_command = codes_eq tool (chars "run_command") }
  handle (token text) s = push_token s text
  handle (tool_step step) s = push_step s step
  handle (tool_result call result new_round) s =
      push_result s (push_tool_result e s call result new_round)
  handle done s = record s { status = if is_textless s.messages then failed no_text else complete }
  handle (broken reason) s = record s { status = failed reason }
  handle _ s = s

  -- A command that was killed is reported after the cancel.
  is_late : Session → Update → Bool
  is_late s (tool_result call result new_round) =
      is_cancelled s.status && not (is_empty s.messages) && starts_with result cancelled_result
  is_late s _ = false

  late : Session → Update → Session
  late s (tool_result call result new_round) = (push_tool_result e s call result new_round).0
  late s _ = s

  unfoldable pub apply : ℕ → Update → Session → Session
  unfolding handle is_late late settle
  apply attempt update s =
      let marked = record s { running_command = keeps_running update && s.running_command } in
      if not (s.attempt == attempt)
      then s
      else if is_late s update
      then late s update
      else if not (is_active s.status)
      then s
      else (let t = handle update marked in settle t.status t)
