-- ===== src/Scope.antt =====
-- The scope that a plan was drafted under: `Brief`, `Binding` and the guards that the task store
-- asks of the project's understanding, alfredo-tui/src/understanding.rs.
use Prim.Native.String.{len}
use alfredo.Base.{
  ℕ, ◌+◌, String, Bool, true, false, not, ◌&&◌, ◌||◌, [], ◌∷◌, Option, none, some, Result, ok, ◌>>◌,
  refuse_if, for_each, any, ltb, ◌==◌, ℕ_discrete, is_yes,
}
use alfredo.Text.{chars, is_blank, is_control, starts_with, String-discrete, show, ◌+++◌}

pub record Brief : Type 0 where
  pub destination : String
  pub scope : String
  pub constraints : String
  pub uncertainty : String

pub record Binding : Type 0 where
  pub workspace : String
  pub revision : ℕ
  pub draft_revision : ℕ
  pub brief : Option Brief
  pub confirmed : Bool

-- The fields of the understanding's snapshot that the task store reads.
pub record Understanding : Type 0 where
  pub workspace : String
  pub revision : ℕ
  pub draft_revision : ℕ
  pub brief : Option Brief
  pub confirmed : Bool

unfoldable pub bad_field : String → Bool
bad_field field =
    is_blank field
    || ltb 2048 (len field)
    || any (λ c. is_control c && not (c == 0x0a)) (chars field)

unfoldable pub validate_brief : Brief → Result (Unit {0})
unfolding bad_field
validate_brief b =
    for_each
      (λ field. refuse_if (bad_field field) "Each understanding field needs 1–2048 bytes of text")
      (b.destination ∷ b.scope ∷ b.constraints ∷ b.uncertainty ∷ [])

abbrev pub to_u64 : Bool → ℕ
to_u64 true = 1
to_u64 false = 0

-- `checked_add` cannot overflow below the revision limit, which is tested first.
unfoldable pub validate : Binding → Result (Unit {0})
unfolding validate_brief
validate b = do
  refuse_if (not (starts_with (chars b.workspace) (b'/' ∷ [])) || ltb 256 b.revision)
      "Invalid plan scope identity or revision"
  elim b.brief [
    | some brief ↦ do
      validate_brief brief
      refuse_if (b.draft_revision == 0 || not (b.revision == b.draft_revision + to_u64 b.confirmed))
          "Invalid plan scope confirmation"
    | none ↦
        refuse_if (not (b.revision == 0) || not (b.draft_revision == 0) || b.confirmed)
          "Outside-flow scope cannot imply confirmation"
  ]

unfoldable pub Brief-discrete : Discrete Brief
Brief-discrete = hlevel String-discrete

unfoldable pub Binding-discrete : Discrete Binding
unfolding Brief-discrete
Binding-discrete = hlevel (ℕ_discrete, String-discrete, Brief-discrete)

unfoldable pub binding : Understanding → Binding
binding u = record {
  workspace = u.workspace;
  revision = u.revision;
  draft_revision = u.draft_revision;
  brief = u.brief;
  confirmed = u.confirmed;
}

-- `Guard::ensure_binding` on the state that the guard read.
unfoldable pub ensure_binding : Understanding → Option Binding → Result (Unit {0})
unfolding binding Binding-discrete
ensure_binding u none =
    refuse_if (not (u.revision == 0))
      "Plan scope changed or was not recorded; generate and review a fresh /plan"
ensure_binding u (some b) =
    refuse_if (not (is_yes (Binding-discrete b (binding u))))
      "Plan scope changed or was not recorded; generate and review a fresh /plan"

-- `Guard::ensure_open`.
unfoldable pub ensure_open : Understanding → Result (Unit {0})
ensure_open u = elim u.brief [
  | none ↦ ok tt
  | some b ↦ refuse_if (not u.confirmed) (
      "Shared Understanding pending · review /scope and confirm draft "
      +++ show u.draft_revision
      +++ " before saving plans or starting new work")
]
