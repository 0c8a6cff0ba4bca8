-- ===== src/Session.antt =====
-- The conversation of alfredo-tui/src/model.rs, `Session`: what it keeps, and the tests on it. The
-- fields that only the display reads are left out (timing, metrics, reading position, sources, marks).
pub mod Utf8
pub mod Draft
pub mod History
pub mod Keys
pub mod Tools
pub mod Queue
pub mod Turn
pub mod Approval
pub mod Saved
use alfredo.Base.{
  ℕ, ◌+◌, ◌*◌, String, Bool, true, false, not, ◌&&◌, ◌||◌, List, [], ◌∷◌, Option, none, some, any,
  all, ltb, leb, ◌==◌, length, is_empty, if◌then◌else◌,
}
pub use alfredo.Text.{Chars}
use alfredo.Chat.{Card}
use alfredo.Text.{is_control, is_whitespace, trim}
use alfredo.Session.Utf8.{byte_len}

abbrev pub max_text : ℕ
max_text = 131072

abbrev pub max_draft : ℕ
max_draft = 16384

abbrev pub max_queued : ℕ
max_queued = 3

abbrev pub max_queued_bytes : ℕ
max_queued_bytes = 8192

abbrev pub max_messages : ℕ
max_messages = 4096

abbrev pub max_history : ℕ
max_history = 100

pub data Role : Type 0 where
  user assistant : Role

pub record Message : Type 0 where
  pub role : Role
  pub content : Chars

pub data Status : Type 0 where
  ready connecting streaming complete cancelled : Status
  failed : String → Status

abbrev pub is_active : Status → Bool
is_active connecting = true
is_active streaming = true
is_active _ = false

-- `matches!(self.status, Status::Failed(_) | Status::Cancelled)`
abbrev pub is_interrupted : Status → Bool
is_interrupted cancelled = true
is_interrupted (failed e) = true
is_interrupted _ = false

abbrev pub is_complete : Status → Bool
is_complete complete = true
is_complete _ = false

-- A call of a tool; its arguments are a JSON text.
pub record ToolCall : Type 0 where
  pub name : Chars
  pub arguments : Chars

pub record ToolStep : Type 0 where
  pub calls : List ToolCall
  pub results : List Chars

pub record Session : Type 0 where
  pub draft : Chars
  pub cursor : ℕ
  pub messages : List Message
  pub compacting : Bool
  pub summary : Option Chars
  pub attachments : List (ℕ × Chars)
  pub tool_steps : List (ℕ × List ToolStep)
  pub interrupted : List ℕ
  pub status : Status
  pub attempt : ℕ
  pub queue : List Chars
  pub history : List Chars
  pub history_index : Option ℕ
  pub unsent : Option (Chars × ℕ)
  pub rejected : Option Chars
  pub running_command : Bool
  pub aside : Option Chars
  pub approval : Option (Card × Option ℕ)
  pub approval_header_drawn : Bool
  pub approval_whole : Bool
  pub key_times : Option ℕ × Option ℕ

-- `Session::new`
unfoldable pub new : Session
new = record {
  draft = [];
  cursor = 0;
  messages = [];
  compacting = false;
  summary = none;
  attachments = [];
  tool_steps = [];
  interrupted = [];
  status = ready;
  attempt = 0;
  queue = [];
  history = [];
  history_index = none;
  unsent = none;
  rejected = none;
  running_command = false;
  aside = none;
  approval = none;
  approval_header_drawn = false;
  approval_whole = false;
  key_times = (none, none);
}

-- `text.trim().is_empty()`
abbrev pub is_blank : Chars → Bool
is_blank = all is_whitespace

-- The sum of the lengths of texts, and of the contents of messages.
abbrev pub total_len : List Chars → ℕ
total_len [] = 0
total_len (t ∷ ts) = byte_len t + total_len ts

abbrev pub content_len : List Message → ℕ
content_len [] = 0
content_len (m ∷ ms) = byte_len m.content + content_len ms
