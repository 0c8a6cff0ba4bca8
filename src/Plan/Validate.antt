-- ===== src/Plan/Validate.antt =====
-- `Plan::validate` of alfredo-tui/src/planner.rs and the checks it makes of the plan's parts:
-- planning_context.rs, metrics.rs, architecture.rs and `hidden` of dashboard.rs.
use Prim.Native.String.{len}
use text.Mathlib.Text.{◌==◌ as str_eq}
use alfredo.Base.{
  ℕ, ◌+◌, ◌*◌, ◌/◌, ◌%◌, String, Bool, true, false, not, ◌&&◌, ◌||◌, List, [], ◌∷◌, map, Option,
  none, some, Result, ok, err, ◌>>=◌, ◌>>◌, refuse_if, any, all, distinct, find?, ltb, leb, ◌==◌,
  length, is_empty, if◌then◌else◌,
}
use alfredo.Text.{
  chars, text_valid, is_hex, is_control, is_alphanumeric, between, codes_eq, trim, split,
  starts_with, show, ◌+++◌,
}
use alfredo.Policy
use alfredo.Policy.{WorkPolicy}
use alfredo.Scope
use alfredo.Scope.{Binding, Binding-discrete}
use alfredo.Plan.{RepositoryContext, Usage, Origin, Step, Plan, Json}

bad_context_path : String → Bool
bad_context_path path =
    let cs = chars path in
    is_empty cs
    || ltb 512 (len path)
    || any is_control cs
    || starts_with cs (b'/' ∷ [])
    || any (λ c. c == 0x5c) cs
    || any (λ part. is_empty part || codes_eq part (chars ".") || codes_eq part (chars ".."))
        (split b'/' cs)

validate_context : Json → RepositoryContext → Result (Unit {0})
unfolding bad_context_path
validate_context json c = do
  refuse_if
      (not (is_hex 40 c.baseline)
        || ltb 256 (length c.paths)
        || ltb 8 (length c.sources)
        || any bad_context_path c.paths
        || not (distinct str_eq c.paths)
        || not (distinct (λ s t. str_eq s.path t.path) c.sources)
        || any
            (λ s.
              bad_context_path s.path
              || not (is_hex 40 s.blob)
              || ltb 8192 (len s.content)
              || any (λ ch. ch == 0) (chars s.content))
            c.sources)
      "Repository planning context is invalid or exceeds its bounds"
  bytes ← json.context_bytes c
  refuse_if (ltb (64 * 1024) bytes) "Repository planning context is invalid or exceeds its bounds"

unfoldable pub validate_origin : Origin → Result (Unit {0})
validate_origin o =
    refuse_if
      (o.task == 0
        || o.review_revision == 0
        || ltb 100 (len o.run)
        || not (starts_with (chars o.run) (chars "task-"))
        || not (all (λ c. is_alphanumeric c || c == b'-') (chars o.run))
        || not (is_hex 64 o.evidence_sha256))
      "Invalid Architect source binding"

at_most : ℕ → Option ℕ → Bool
at_most limit none = true
at_most limit (some n) = leb n limit

in_bounds : Usage → Bool
unfolding at_most
in_bounds u =
    at_most 1_000_000_000 u.prompt_tokens
    && at_most 1_000_000_000 u.completion_tokens
    && at_most 86_400_000_000_000 u.model_ns

-- `dashboard::hidden`: controls, line separators and invisible or bidirectional characters.
unfoldable pub hidden : ℕ → Bool
hidden c =
    is_control c
    || c == 0x85
    || c == 0x2028
    || c == 0x2029
    || c == 0xad
    || between 0x600 0x605 c
    || c == 0x61c
    || c == 0x6dd
    || c == 0x70f
    || c == 0x8e2
    || c == 0x180e
    || between 0x200b 0x200f c
    || between 0x202a 0x202e c
    || between 0x2060 0x206f c
    || c == 0xfeff
    || between 0xfff9 0xfffb c
    || c == 0x110bd
    || c == 0x110cd
    || between 0x13430 0x1343f c
    || between 0x1bca0 0x1bca3 c
    || between 0x1d173 0x1d17a c
    || c == 0xe0001
    || between 0xe0020 0xe007f c

hex_digit : ℕ → String
hex_digit n =
    if ltb n 10
    then show n
    else if n == 10
    then "A"
    else if n == 11
    then "B"
    else if n == 12
    then "C"
    else if n == 13
    then "D"
    else if n == 14
    then "E"
    else "F"

-- `{:04X}` of a character's number, which has six digits at most.
unfoldable pub show_hex : ℕ → String
unfolding hex_digit
show_hex n =
    (if ltb n 0x100000 then "" else hex_digit (n / 0x100000))
    +++ (if ltb n 0x10000 then "" else hex_digit (n / 0x10000 % 16))
    +++ hex_digit (n / 0x1000 % 16)
    +++ hex_digit (n / 0x100 % 16)
    +++ hex_digit (n / 0x10 % 16)
    +++ hex_digit (n % 16)

unfoldable pub contains : List ℕ → List ℕ → Bool
contains [] t = is_empty t
contains (c ∷ s) t = starts_with (c ∷ s) t || contains s t

-- `scan` of `reject_hidden_text`.
scan : String → String → Result (Unit {0})
unfolding hidden contains show_hex
scan field value = elim (find? hidden (chars value)) [
  | none ↦ ok tt
  | some c ↦ err (
      if (c == 0x0a || c == 0x0d) && contains (chars field) (chars " check argument ")
      then "Plan " +++ field
        +++ " contains a line break; put the code in a script file listed in the task's files, or write it on one line"
      else "Plan "
        +++ field
        +++ " contains hidden character U+"
        +++ show_hex c
        +++ "; remove invisible or bidirectional characters")
]

-- `for (i, x) in xs.iter().enumerate() { f(i, x)?; }` from `i` on.
for_each_from : {A : Type 0} → ℕ → (ℕ → A → Result (Unit {0})) → List A → Result (Unit {0})
for_each_from i f [] = ok tt
for_each_from i f (x ∷ xs) = f i x >> for_each_from (i + 1) f xs

scan_step : ℕ → Step → Result (Unit {0})
unfolding scan for_each_from
scan_step index step =
    let n = show (index + 1) in
    do
      scan ("task " +++ n +++ " title") step.title
      for_each_from 0 (λ i line. scan ("task " +++ n +++ " acceptance " +++ show (i + 1)) line)
          step.acceptance
      for_each_from 0 (λ i arg. scan ("task " +++ n +++ " check argument " +++ show (i + 1)) arg)
          step.policy.check

unfoldable pub reject_hidden_text : Plan → Result (Unit {0})
unfolding scan_step
reject_hidden_text p = do scan "prompt" p.prompt; for_each_from 0 scan_step p.tasks

-- One round of the loop over the plan's steps.
validate_step : ℕ → Step → Result (Unit {0})
validate_step index step = do
  refuse_if (not (text_valid step.title 8192) || not (text_valid step.model 200))
      "Invalid plan task title or model"
  refuse_if
      (not (distinct (λ a b. a == b) step.dependencies)
        || any (λ id. id == 0 || ltb index id) step.dependencies)
      "Plan dependencies must name distinct earlier steps (starting at 1)"
  refuse_if
      (ltb 16 (length step.acceptance)
        || not (distinct codes_eq (map (λ s. trim (chars s)) step.acceptance))
        || any (λ s. not (text_valid s 1024)) step.acceptance)
      "Acceptance criteria need at most 16 distinct nonempty lines of up to 1024 bytes"
  refuse_if (is_empty step.policy.files) (
      "Task "
      +++ show (index + 1)
      +++ " lists no policy files; every task must write at least one file.")
  Policy.validate step.policy

-- The steps that an architect's revision may have: one, with criteria and no dependencies.
revision_steps : List Step → Bool
revision_steps (step ∷ []) = is_empty step.dependencies && not (is_empty step.acceptance)
revision_steps _ = false

validate_architecture : Option Origin → List Step → Result (Unit {0})
unfolding revision_steps
validate_architecture none steps = ok tt
validate_architecture (some origin) steps = do
  validate_origin origin
  refuse_if (not (revision_steps steps))
      "Architect revision requires exactly one repair step with acceptance criteria and no new dependencies"

when_some : {A : Type 0} → (A → Result (Unit {0})) → Option A → Result (Unit {0})
when_some f none = ok tt
when_some f (some a) = f a

usage_bounds : Usage → Result (Unit {0})
unfolding in_bounds
usage_bounds u = refuse_if (not (in_bounds u)) "Plan usage exceeds supported bounds"

unfoldable pub validate : Json → Plan → Result (Unit {0})
unfolding when_some usage_bounds validate_context validate_architecture validate_step for_each_from
validate json p = do
  when_some usage_bounds p.usage
  when_some Scope.validate p.scope
  when_some (validate_context json) p.context
  validate_architecture p.architecture p.tasks
  reject_hidden_text p
  refuse_if
      (not (text_valid p.prompt 8192)
        || not (text_valid p.planner 200)
        || is_empty p.tasks
        || ltb 16 (length p.tasks))
      "Plan needs a bounded prompt, planner and 1–16 tasks"
  for_each_from 0 validate_step p.tasks
  bytes ← json.plan_bytes p
  refuse_if (ltb (128 * 1024) bytes) "Plan exceeds 128 KiB"
