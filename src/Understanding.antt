-- ===== src/Understanding.antt =====
-- The project's understanding, alfredo-tui/src/understanding.rs: its types, and `Snapshot::apply`.
pub mod Entry
pub mod Journal
pub mod Stages
pub mod Replay
pub mod Binding
pub mod Durable
pub mod Once
pub mod Reserve
pub mod Cleared
use Prim.Native.Char.{len_utf8}
use Prim.Native.String.{len}
use Prim.Native.String
use text.Mathlib.Text.{◌==◌ as str_eq}
use alfredo.Base.{
  ℕ, ◌+◌, ◌-◌, String, Bool, true, false, not, ◌&&◌, ◌||◌, List, Option, none, some, Result, ok,
  ◌>>◌, refuse_if, any, ltb, leb, ◌==◌, ℕ_discrete, if◌then◌else◌,
}
use alfredo.Text.{chars, is_blank, is_control, String-discrete, ◌+++◌}
use alfredo.Assessment.{is_some}
use alfredo.Scope.{Brief, Brief-discrete, Understanding, validate_brief}

pub data Mode : Type 0 where
  chart work_through : Mode

pub record Flow : Type 0 where
  pub mode : Mode
  pub prompt : String

pub data Action : Type 0 where
  enter : Flow → Action
  draft : Brief → Action
  confirm : ℕ → Action

pub record Request : Type 0 where
  pub correlation : String
  pub expected_revision : ℕ
  pub action : Action

pub record Receipt : Type 0 where
  pub request : Request
  pub actor : String

pub record Snapshot : Type 0 where
  pub schema_version : ℕ
  pub workspace : String
  pub revision : ℕ
  pub draft_revision : ℕ
  pub brief : Option Brief
  pub confirmed : Bool
  pub flow : Option Flow
  pub receipts : List Receipt

pub Mode-discrete : Discrete Mode
Mode-discrete = hlevel

unfoldable pub Flow-discrete : Discrete Flow
unfolding Mode-discrete
Flow-discrete = hlevel (Mode-discrete, String-discrete)

pub Action-discrete : Discrete Action
unfolding Flow-discrete
Action-discrete = hlevel (ℕ_discrete, Flow-discrete, Brief-discrete)

unfoldable pub Request-discrete : Discrete Request
unfolding Action-discrete
Request-discrete = hlevel (ℕ_discrete, String-discrete, Action-discrete)

-- What the task store and the planner see of the snapshot, through `Snapshot::binding`.
unfoldable pub view : Snapshot → Understanding
view s = record {
  workspace = s.workspace;
  revision = s.revision;
  draft_revision = s.draft_revision;
  brief = s.brief;
  confirmed = s.confirmed;
}

-- `crate::model::MAX_DRAFT`
abbrev pub max_draft : ℕ
max_draft = 16384

abbrev pub bad_char : ℕ → Bool
bad_char c = is_control c && not (c == 0x0a)

-- The tests on the prompt, which `apply` and `validate_request` share.
unfoldable pub bad_prompt : String → Bool
bad_prompt prompt = is_blank prompt || ltb max_draft (len prompt) || any bad_char (chars prompt)

-- `&prompt[..end]` with `end` the last character boundary up to `room`.
unfoldable pub excerpt : ℕ → String → String
excerpt room String.[] = ""
excerpt room (String.◌∷◌ c s) =
    let rest = excerpt (room - len_utf8 c) s in
    if leb (len_utf8 c) room then String.◌∷◌ c rest else ""

abbrev pub excerpt_room : ℕ
excerpt_room = 1800

unfoldable pub suffix : String → String
suffix prompt =
    if ltb (len (excerpt excerpt_room prompt)) (len prompt)
    then " (excerpt; full request retained in flow)"
    else ""

-- The brief that a prepared entry starts with.
unfoldable pub entry_brief : String → Brief
entry_brief prompt = record {
  destination = "Requested direction: " +++ excerpt excerpt_room prompt +++ suffix prompt;
  scope = "Not agreed yet; identify what is included and excluded.";
  constraints = "Not agreed yet; identify compatibility, safety and delivery limits.";
  uncertainty = "Open questions and acceptance evidence still need discussion.";
}

-- `self.revision += 1`
abbrev pub advance : Snapshot → Snapshot
advance s = record s { revision = s.revision + 1 }

unfoldable pub apply : Snapshot → Action → Result Snapshot
apply s (enter flow) = do
  refuse_if (is_some s.brief || is_some s.flow || not (s.revision == 0))
      "Continue the existing understanding flow"
  refuse_if (bad_prompt flow.prompt) "Wayfinder entry needs bounded prompt text"
  ok (
      advance (record s {
        brief = some (entry_brief flow.prompt);
        flow = some flow;
        confirmed = false;
        draft_revision = s.revision + 1;
      }))
apply s (draft brief) = do
  validate_brief brief
  ok (advance (record s { brief = some brief; confirmed = false; draft_revision = s.revision + 1 }))
apply s (confirm revision) = do
  refuse_if (is_some s.flow && s.draft_revision == 1)
      "Provide destination, scope, constraints and uncertainty before confirming this new flow"
  refuse_if (not (is_some s.brief) || s.confirmed || not (s.draft_revision == revision))
      "Confirm the exact pending draft revision"
  ok (advance (record s { confirmed = true }))

-- `actor`
unfoldable pub actor : Action → String
actor (enter flow) = "wayfinder-alfredo"
actor _ = "mission-commander"

abbrev pub is_enter : Action → Bool
is_enter (enter flow) = true
is_enter _ = false

abbrev pub is_draft : Action → Bool
is_draft (draft brief) = true
is_draft _ = false

validate_action : ℕ → Action → Result (Unit {0})
validate_action expected (enter flow) =
    refuse_if (not (expected == 0) || bad_prompt flow.prompt)
      "Wayfinder entry needs bounded prompt text at revision zero"
validate_action expected (draft brief) = validate_brief brief
validate_action expected (confirm revision) =
    refuse_if (revision == 0 || ltb 256 revision || not (expected == revision))
      "Confirmation must bind its exact draft revision"

unfoldable pub validate_request : Request → Result (Unit {0})
unfolding validate_action
validate_request request = do
  refuse_if
      (is_blank request.correlation
        || ltb 160 (len request.correlation)
        || any is_control (chars request.correlation)
        || ltb 256 request.expected_revision)
      "Invalid understanding identity or revision"
  validate_action request.expected_revision request.action
