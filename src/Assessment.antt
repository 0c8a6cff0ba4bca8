-- ===== src/Assessment.antt =====
-- What a reviewer records about a finished run: alfredo-tui/src/assessment.rs.
use alfredo.Base.{
  ℕ, ◌+◌, String, Bool, true, false, not, ◌&&◌, ◌||◌, List, [], ◌∷◌, map, Option, none, some,
  Result, ok, ◌>>◌, refuse_if, any, distinct, ltb, ◌==◌, length, is_empty, if◌then◌else◌,
  ℕ_discrete,
}
use alfredo.Text.{chars, text_valid, codes_eq, trim, String-discrete}

pub record Criterion : Type 0 where
  pub criterion : ℕ
  pub met : Bool
  pub note : String

pub record Assessment : Type 0 where
  pub accept : Bool
  pub reason : String
  pub criteria : List Criterion

pub data Outcome : Type 0 where
  approved approved_with_limitations needs_repair needs_human_review rejected : Outcome

pub data ReviewRisk : Type 0 where
  critical security merge_risk : ReviewRisk

pub data FailureKind : Type 0 where
  architecture : FailureKind

pub record Decision : Type 0 where
  pub failure : Option FailureKind
  pub risk : Option ReviewRisk
  pub outcome : Outcome
  pub reason : String
  pub criteria : List Criterion
  pub limitations : List String

abbrev pub is_some {ℓ} : {A : Type ℓ} → Option A → Bool
is_some none = false
is_some (some a) = true

-- The loop of `Assessment::validate`; `index` counts from 0.
check_criteria : Bool → ℕ → List Criterion → Result (Unit {0})
check_criteria accept index [] = ok tt
check_criteria accept index (item ∷ items) = do
  refuse_if (not (item.criterion == index + 1) || not (text_valid item.note 1024))
      "Review criteria must be ordered 1..N with a nonempty evidence note (up to 1024 bytes)"
  refuse_if (accept && not item.met)
      "Acceptance requires every recorded criterion to be assessed as met"
  check_criteria accept (index + 1) items

unfoldable pub validate : Assessment → Result (Unit {0})
unfolding check_criteria
validate a = do
  refuse_if (not (text_valid a.reason 2048) || ltb 16 (length a.criteria))
      "Review needs a nonempty reason (up to 2048 bytes) and at most 16 criteria"
  check_criteria a.accept 0 a.criteria

unfoldable pub validate_contract : Assessment → List String → Result (Unit {0})
unfolding validate
validate_contract a contract = do
  validate a
  refuse_if (not (length a.criteria == length contract))
      "Review must assess each recorded acceptance criterion exactly once; inspect /evidence ID"

abbrev pub approves : Outcome → Bool
approves Outcome.approved = true
approves Outcome.approved_with_limitations = true
approves _ = false

abbrev pub is_repair_outcome : Outcome → Bool
is_repair_outcome Outcome.needs_repair = true
is_repair_outcome Outcome.rejected = true
is_repair_outcome _ = false

abbrev pub is_human_review : Outcome → Bool
is_human_review Outcome.needs_human_review = true
is_human_review _ = false

abbrev pub is_limited : Outcome → Bool
is_limited Outcome.approved_with_limitations = true
is_limited _ = false

abbrev pub proposes_repair : Decision → Bool
proposes_repair d = not (is_some d.risk) && is_repair_outcome d.outcome

abbrev pub requires_human_review : Decision → Bool
requires_human_review d = is_some d.risk || is_human_review d.outcome

abbrev pub assessment : Decision → Assessment
assessment d = record { accept = approves d.outcome; reason = d.reason; criteria = d.criteria }

abbrev bad_limitations : Decision → Bool
bad_limitations d =
    ltb 8 (length d.limitations)
    || not (distinct codes_eq (map (λ s. trim (chars s)) d.limitations))
    || any (λ s. not (text_valid s 1024)) d.limitations
    || (if is_limited d.outcome then is_empty d.limitations else not (is_empty d.limitations))

unfoldable pub validate_decision : Decision → Result (Unit {0})
unfolding validate
validate_decision d = do
  validate (assessment d)
  refuse_if (is_some d.failure && approves d.outcome)
      "An approved review cannot declare unresolved failure"
  refuse_if (is_some d.risk && approves d.outcome)
      "Unresolved critical, security or merge risk requires human review before approval"
  refuse_if (bad_limitations d)
      "Only Approved with limitations requires 1–8 distinct nonempty limitation lines (up to 1024 bytes each)"

unfoldable pub validate_decision_contract : Decision → List String → Result (Unit {0})
unfolding validate_decision validate_contract
validate_decision_contract d contract = do
  validate_decision d
  validate_contract (assessment d) contract

pub Criterion-discrete : Discrete Criterion
Criterion-discrete = hlevel (ℕ_discrete, String-discrete)
