-- ===== src/Session/Tools.antt =====
-- The tool rounds of a reply, alfredo-tui/src/model.rs, and the command that a proposal puts in the prompt,
-- `prefill` of alfredo-tui/src/chat_tools/propose.rs.
use alfredo.Base.{
  ℕ, ◌+◌, ◌-◌, ◌≤◌, Bool, true, false, not, ◌&&◌, ◌||◌, List, [], ◌∷◌, ◌++◌, Option, none, some,
  any, all, ltb, leb, ◌==◌, length, is_empty, if◌then◌else◌,
}
use alfredo.Text.{chars, is_control, codes_eq, starts_with}
use alfredo.Session.{Chars, ToolCall, ToolStep, Session, max_text, total_len, content_len, is_blank}
use alfredo.Session.Utf8.{byte_len}
use alfredo.Session.Draft.{to_end}

call_ok : ToolCall → Bool
call_ok call =
    not (is_empty call.name) && leb (byte_len call.name) 64 && not (any is_control call.name)

-- `ToolStep::valid`
unfoldable pub step_valid : ToolStep → Bool
unfolding call_ok
step_valid step =
    not (is_empty step.calls)
    && (length step.calls == length step.results)
    && leb (length step.calls) 64
    && all call_ok step.calls

-- The rest of a text behind a prefix.
strip_prefix : Chars → Chars → Option Chars
strip_prefix [] s = some s
strip_prefix (c ∷ p) [] = none
strip_prefix (c ∷ p) (d ∷ s) = let rest = strip_prefix p s in if c == d then rest else none

-- `lines().next()` of a text that is not empty: up to the line feed, less a carriage return before it.
first_line : Chars → Chars
first_line [] = []
first_line (c ∷ s) =
    let rest = first_line s in
    if c == 0x0a || (c == 0x0d && starts_with s (0x0a ∷ [])) then [] else c ∷ rest

proposed_line : Option Chars → Option Chars
unfolding first_line
proposed_line none = none
proposed_line (some []) = none
proposed_line (some (c ∷ s)) =
    let line = first_line (c ∷ s) in
    if starts_with line (chars "/plan ") || starts_with line (chars "/go ") then some line else none

prefill_in : List ToolCall → List Chars → Option Chars
unfolding strip_prefix proposed_line
prefill_in [] results = none
prefill_in (call ∷ calls) [] = none
prefill_in (call ∷ calls) (result ∷ results) =
    let rest = prefill_in calls results in
    let here = proposed_line (strip_prefix (chars "proposed: ") result) in
    if codes_eq call.name (chars "propose_plan")
    then elim here [ none ↦ rest | some line ↦ some line ]
    else rest

unfoldable pub prefill : ToolStep → Option Chars
unfolding prefill_in
prefill step = prefill_in step.calls step.results

-- A proposal fills an empty prompt, unless a prompt of the history is shown.
unfoldable pub propose : Session → Option Chars → Session
propose s none = s
propose s (some command) =
    if is_blank s.draft && elim s.history_index [ none ↦ true | some i ↦ false ]
    then to_end (record s { draft = command })
    else s

-- `serde_json::to_string(&calls)`, by the number of its bytes; joining two arrays drops a pair of brackets.
pub record Encoder : Type 0 where
  pub calls_bytes : List ToolCall → ℕ
  pub joined : (a b : List ToolCall) → calls_bytes (a ++ b) ≤ calls_bytes a + calls_bytes b

unfoldable pub last_round : Bool → ToolStep → List ToolStep → List ToolStep
last_round new_round step [] = step ∷ []
last_round new_round step (r ∷ []) =
    if not new_round && ltb (length r.calls) 64
    then (record { calls = r.calls ++ step.calls; results = r.results ++ step.results }) ∷ []
    else r ∷ step ∷ []
last_round new_round step (r ∷ q ∷ rs) = r ∷ last_round new_round step (q ∷ rs)

-- The rounds of the reply at `index`, with one more.
unfoldable pub add_round :
    ℕ → (List ToolStep → List ToolStep) → List (ℕ × List ToolStep) → List (ℕ × List ToolStep)
add_round index f [] = (index, f []) ∷ []
add_round index f ((i, rounds) ∷ rest) =
    let later = add_round index f rest in
    if i == index then (i, f rounds) ∷ rest else (i, rounds) ∷ later

-- `self.tool_steps.remove(&index)`
unfoldable pub remove_rounds : ℕ → List (ℕ × List ToolStep) → List (ℕ × List ToolStep)
remove_rounds index [] = []
remove_rounds index ((i, rounds) ∷ rest) =
    let later = remove_rounds index rest in if i == index then later else (i, rounds) ∷ later

module _ (e : Encoder) where
  unfoldable pub step_bytes : ToolStep → ℕ
  step_bytes step = e.calls_bytes step.calls + total_len step.results

  unfoldable pub rounds_bytes : List ToolStep → ℕ
  rounds_bytes [] = 0
  rounds_bytes (step ∷ steps) = step_bytes step + rounds_bytes steps

  unfoldable pub tool_bytes : List (ℕ × List ToolStep) → ℕ
  tool_bytes [] = 0
  tool_bytes ((i, rounds) ∷ rest) = rounds_bytes rounds + tool_bytes rest

  -- A step has no room, or is malformed.
  unfoldable pub refuses_step : Session → ToolStep → Bool
  refuses_step s step =
      not (step_valid step)
      || ltb max_text (content_len s.messages + tool_bytes s.tool_steps + step_bytes step)

  -- `push_tool_result`: the session, and whether the call joined the reply.
  unfoldable pub push_tool_result : Session → ToolCall → Chars → Bool → Session × Bool
  push_tool_result s call result new_round =
      let step : ToolStep = record { calls = call ∷ []; results = result ∷ [] } in
      let filled = propose s (prefill step) in
      if refuses_step s step then (s, false) else (
        record filled {
          tool_steps = add_round (length s.messages - 1) (last_round new_round step) s.tool_steps;
        },
        true,
      )
