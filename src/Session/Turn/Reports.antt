-- ===== src/Session/Turn/Reports.antt =====
-- What the reports on a turn of alfredo-tui/src/model.rs, by `apply`, keep.
use Prim.Native.String.{len}
use alfredo.Base.{
  ℕ, ◌+◌, ◌-◌, String, ◌≤◌, Bool, true, false, not, ◌&&◌, ◌≡◌, sym, subst, List, [], ◌∷◌, ◌++◌,
  arith, ltb, ◌==◌, Bool-cases, inl, inr, length,
}
use alfredo.Session.{
  Chars, Status, ready, connecting, streaming, complete, cancelled, failed, is_active, ToolStep,
  ToolCall, Session, max_text, content_len,
}
use alfredo.Session.Utf8
use alfredo.Session.Tools.{
  Encoder, prefill, propose, add_round, last_round, tool_bytes, step_bytes, rounds_bytes,
  refuses_step, push_tool_result,
}
use alfredo.Session.Turn.{
  Update, queued, queue_progress, capacity_wait, admitted, thinking, retrying, metrics, tool_calls,
  stopped, notice, done, token, tool_step, tool_result, rule_running, broken, settle, apply,
  keeps_running, output_limit, no_text, is_textless, push_token, push_step, push_result, handle,
  late, is_late,
}
use alfredo.Session.Turn.Lists.{rounds_bytes-append, last_round-le, add_round-le}
use alfredo.Session.Turn.Turned.{
  turn, IsTurned, turn-propose, status-IsTurned, rounds-IsTurned, texted-IsTurned,
}
use alfredo.Session.Turn.Keeps.{not_ready, back}

-- The failure of a provider is no longer than a conversation may be.
abbrev pub IsShort : Update → Type 0
IsShort (broken reason) = len reason ≤ max_text
IsShort _ = Unit {0}

module _ (e : Encoder) (s : Session) (v : IsTurned e (turn s)) where
  fail-IsTurned :
      (message : String)
      → is_active s.status ≡ true
      → len message ≤ max_text
      → IsTurned e (turn (record s { status = failed message }))
  fail-IsTurned message runs short =
      status-IsTurned e (turn s) v (failed message) (sym (not_ready s.status runs)) short

  -- A step that is not refused leaves the reply within its size.
  added-IsTurned :
      (filled : Session) (step : ToolStep) (index : ℕ) (f : List ToolStep → List ToolStep)
      → turn filled ≡ turn s
      → refuses_step e s step ≡ false
      → ((rs : List ToolStep) → rounds_bytes e (f rs) ≤ rounds_bytes e rs + step_bytes e step)
      → IsTurned e (turn (record filled { tool_steps = add_round index f s.tool_steps }))
  unfolding refuses_step
  added-IsTurned filled step index f same room adds =
      subst (λ t. IsTurned e (record t { tool_steps = add_round index f s.tool_steps })) (sym same)
        (rounds-IsTurned e (turn s) v (add_round index f s.tool_steps)
          (ground (arith, add_round-le e index (step_bytes e step) f s.tool_steps adds)))

  push-IsTurned :
      (call : ToolCall) (result : Chars) (new_round : Bool)
      → IsTurned e (turn (push_tool_result e s call result new_round).0)
  unfolding push_tool_result
  push-IsTurned call result new_round =
      let step : ToolStep = record { calls = call ∷ []; results = result ∷ [] } in
      elim (Bool-cases (refuses_step e s step)) [
        | inl full ↦ rw full v
        | inr room ↦ rw room (
            added-IsTurned (propose s (prefill step)) step (length s.messages - 1)
              (last_round new_round step) (turn-propose s (prefill step)) room
              (last_round-le e new_round step))
      ]

  result-IsTurned :
      (call : ToolCall) (result : Chars) (new_round : Bool)
      → is_active s.status ≡ true
      → IsTurned e (turn (push_result e s (push_tool_result e s call result new_round)))
  unfolding push_tool_result push_result
  result-IsTurned call result new_round runs =
      let step : ToolStep = record { calls = call ∷ []; results = result ∷ [] } in
      elim (Bool-cases (refuses_step e s step)) [
        | inl full ↦ rw full (fail-IsTurned output_limit runs (omega arith))
        | inr room ↦ rw room (
            added-IsTurned (propose s (prefill step)) step (length s.messages - 1)
              (last_round new_round step) (turn-propose s (prefill step)) room
              (last_round-le e new_round step))
      ]

  push_step-IsTurned :
      (step : ToolStep) → is_active s.status ≡ true → IsTurned e (turn (push_step e s step))
  unfolding push_step
  push_step-IsTurned step runs = elim (Bool-cases (refuses_step e s step)) [
    | inl full ↦ rw full (fail-IsTurned output_limit runs (omega arith))
    | inr room ↦ rw room (
        added-IsTurned (propose s (prefill step)) step (length s.messages - 1)
          (λ steps. steps ++ step ∷ []) (turn-propose s (prefill step)) room
          (λ rs. unfold rounds_bytes in omega (arith, rounds_bytes-append e rs (step ∷ []))))
  ]

  push_token-IsTurned :
      (text : Chars) → is_active s.status ≡ true → IsTurned e (turn (push_token e s text))
  unfolding push_token
  push_token-IsTurned text runs =
      elim (Bool-cases
        (ltb max_text (content_len s.messages + tool_bytes e s.tool_steps + Utf8.byte_len text))) [
          | inl full ↦ rw full (fail-IsTurned output_limit runs (omega arith))
          | inr room ↦
              rw room (texted-IsTurned e (turn s) v text (not_ready s.status runs) (ground arith))
        ]

module _ (e : Encoder) where
  settle-IsTurned :
      (st : Status) (s : Session) → IsTurned e (turn s) → IsTurned e (turn (settle st s))
  unfolding settle
  settle-IsTurned (failed reason) s v = back e s v
  settle-IsTurned connecting s v = v
  settle-IsTurned streaming s v = v
  settle-IsTurned ready s v = v
  settle-IsTurned complete s v = v
  settle-IsTurned cancelled s v = v

  handle-IsTurned :
      (update : Update) (s : Session)
      → IsShort update
      → is_active s.status ≡ true
      → IsTurned e (turn s)
      → IsTurned e (turn (handle e update s))
  unfolding handle
  handle-IsTurned (rule_running tool) s short runs v = v
  handle-IsTurned (token text) s short runs v = push_token-IsTurned e s v text runs
  handle-IsTurned (tool_step step) s short runs v = push_step-IsTurned e s v step runs
  handle-IsTurned (tool_result call result new_round) s short runs v =
      result-IsTurned e s v call result new_round runs
  handle-IsTurned done s short runs v = elim (Bool-cases (is_textless s.messages)) [
    | inl bare ↦ rw bare (fail-IsTurned e s v no_text runs (omega arith))
    | inr answered ↦
        rw answered
          (status-IsTurned e (turn s) v complete (sym (not_ready s.status runs)) (omega arith))
  ]
  handle-IsTurned (broken reason) s short runs v = fail-IsTurned e s v reason runs short
  handle-IsTurned queued s short runs v = v
  handle-IsTurned queue_progress s short runs v = v
  handle-IsTurned capacity_wait s short runs v = v
  handle-IsTurned admitted s short runs v = v
  handle-IsTurned thinking s short runs v = v
  handle-IsTurned retrying s short runs v = v
  handle-IsTurned metrics s short runs v = v
  handle-IsTurned tool_calls s short runs v = v
  handle-IsTurned stopped s short runs v = v
  handle-IsTurned notice s short runs v = v

  late-IsTurned :
      (s : Session) (update : Update) → IsTurned e (turn s) → IsTurned e (turn (late e s update))
  unfolding late
  late-IsTurned s (tool_result call result new_round) v = push-IsTurned e s v call result new_round
  late-IsTurned s (rule_running tool) v = v
  late-IsTurned s (token text) v = v
  late-IsTurned s (tool_step step) v = v
  late-IsTurned s done v = v
  late-IsTurned s (broken reason) v = v
  late-IsTurned s queued v = v
  late-IsTurned s queue_progress v = v
  late-IsTurned s capacity_wait v = v
  late-IsTurned s admitted v = v
  late-IsTurned s thinking v = v
  late-IsTurned s retrying v = v
  late-IsTurned s metrics v = v
  late-IsTurned s tool_calls v = v
  late-IsTurned s stopped v = v
  late-IsTurned s notice v = v

  pub apply-IsTurned :
      (attempt : ℕ) (update : Update) (s : Session)
      → IsShort update
      → IsTurned e (turn s)
      → IsTurned e (turn (apply e attempt update s))
  unfolding apply
  apply-IsTurned attempt update s short v = elim (Bool-cases (not (s.attempt == attempt))) [
    | inl old ↦ rw old v
    | inr current ↦ rw current (elim (Bool-cases (is_late e s update)) [
      | inl killed ↦ rw killed (late-IsTurned s update v)
      | inr timely ↦ rw timely (elim (Bool-cases (not (is_active s.status))) [
        | inl still ↦ rw still v
        | inr runs ↦
            let marked : Session = record s {
              running_command = keeps_running update && s.running_command;
            } in
            rw runs (
              settle-IsTurned (handle e update marked).status (handle e update marked)
                (handle-IsTurned update marked short (ground (arith, runs)) v))
      ])
    ])
  ]
