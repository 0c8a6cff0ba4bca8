-- ===== src/Session/Saved.antt =====
-- The checks that a conversation passes before it is saved, and when it is loaded:
-- `Saved::validate` of alfredo-tui/src/conversations.rs. The name of the model and the commands are left out.
use Prim.Native.String.{len}
use alfredo.Base.{
  ℕ, ◌+◌, ◌/◌, ◌%◌, Bool, true, false, not, ◌&&◌, ◌||◌, List, [], ◌∷◌, Result, ◌>>◌, refuse_if, any,
  all, ltb, ◌==◌, length, is_empty,
}
use alfredo.Text.{is_control}
use alfredo.Session.{
  Role, user, assistant, Message, Status, ready, failed, Session, max_text, max_draft, max_messages,
  content_len,
}
use alfredo.Session.Utf8
use alfredo.Session.Utf8.{Segmenter}
use alfredo.Session.Draft.{cursor_of}
use alfredo.Session.Tools.{Encoder, tool_bytes}

-- `u64::MAX`
abbrev pub last_attempt : ℕ
last_attempt = 18446744073709551615

unfoldable pub increasing : List ℕ → Bool
increasing [] = true
increasing (i ∷ []) = true
increasing (i ∷ j ∷ is) = ltb i j && increasing (j ∷ is)

-- An abandoned turn: its user message, and one behind the reply.
abbrev pub is_abandoned : ℕ → ℕ → Bool
is_abandoned n i = i % 2 == 0 && ltb (i + 2) n

unfoldable pub valid_interrupted : Session → Bool
valid_interrupted s =
    increasing s.interrupted && all (is_abandoned (length s.messages)) s.interrupted

-- `m.role != if index % 2 == 0 { "user" } else { "assistant" }`
abbrev is_role : Bool → Role → Bool
is_role true user = true
is_role true assistant = false
is_role false user = false
is_role false assistant = true

unfoldable pub disordered : ℕ → List Message → Bool
disordered index [] = false
disordered index (m ∷ ms) = not (is_role (index % 2 == 0) m.role) || disordered (index + 1) ms

abbrev pub is_ready : Status → Bool
is_ready ready = true
is_ready _ = false

abbrev pub reason_len : Status → ℕ
reason_len (failed reason) = len reason
reason_len _ = 0

unfoldable pub draft_bad : Segmenter → Session → Bool
draft_bad g s =
    ltb max_draft (Utf8.byte_len s.draft)
    || not (s.cursor == cursor_of g s)
    || any (λ c. is_control c && not (c == 0x0a)) s.draft

unfoldable pub turns_bad : Encoder → Session → Bool
turns_bad e s =
    s.attempt == last_attempt
    || ltb s.attempt (length s.messages / 2)
    || ltb max_messages (length s.messages)
    || ltb max_text (content_len s.messages + tool_bytes e s.tool_steps)

unfoldable pub check_session : Segmenter → Encoder → Session → Result (Unit {0})
check_session g e s = do
  refuse_if (draft_bad g s || turns_bad e s) "Conversation exceeds supported bounds"
  refuse_if (not (length s.messages % 2 == 0) || disordered 0 s.messages)
      "Conversation role order is invalid"
  refuse_if (not (valid_interrupted s)) "Conversation interrupted turns are invalid"
  refuse_if
      ((is_empty s.messages && not (is_ready s.status))
        || (not (is_empty s.messages) && (is_ready s.status || s.attempt == 0)))
      "Conversation lifecycle does not match its turns"
  refuse_if (ltb max_text (reason_len s.status)) "Conversation failure exceeds bounds"
