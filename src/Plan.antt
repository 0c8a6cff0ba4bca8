-- ===== src/Plan.antt =====
-- The plan that the architect drafts: the types of alfredo-tui/src/planner.rs, with the repository
-- context (planning_context.rs), the usage (metrics.rs) and the architect's origin (architecture.rs).
-- The length of the JSON that serde_json writes is a parameter, `Json`.
pub mod Validate
use Prim.Native.String.{len}
use text.Mathlib.Text.{◌==◌ as str_eq}
use alfredo.Base.{
  ℕ, suc, zero, ◌+◌, ◌*◌, String, Bool, true, false, not, ◌&&◌, ◌||◌, List, [], ◌∷◌, map, Option,
  none, some, Result, ok, err, ◌>>=◌, ◌>>◌, refuse_if, for_each, any, all, distinct, find?, ltb,
  leb, ◌==◌, length, is_empty, if◌then◌else◌, ℕ_discrete,
}
use alfredo.Text.{
  chars, text_valid, is_hex, is_control, is_alphanumeric, between, codes_eq, trim, split,
  starts_with, show, ◌+++◌, String-discrete,
}
use alfredo.Policy
use alfredo.Policy.{WorkPolicy}
use alfredo.Scope
use alfredo.Scope.{Binding, Binding-discrete}

pub record Source : Type 0 where
  pub path : String
  pub blob : String
  pub content : String

pub record RepositoryContext : Type 0 where
  pub baseline : String
  pub paths : List String
  pub omitted_paths : ℕ
  pub sources : List Source
  pub omitted_sources : ℕ
  pub listing_truncated : Bool

pub record Usage : Type 0 where
  pub prompt_tokens : Option ℕ
  pub completion_tokens : Option ℕ
  pub model_ns : Option ℕ

-- The failed review that an architect's revision answers.
pub record Origin : Type 0 where
  pub task : ℕ
  pub review_revision : ℕ
  pub run : String
  pub evidence_sha256 : String

pub record Step : Type 0 where
  pub title : String
  pub acceptance : List String
  pub model : String
  pub dependencies : List ℕ
  pub policy : WorkPolicy

pub record Plan : Type 0 where
  pub prompt : String
  pub planner : String
  pub tasks : List Step
  pub context : Option RepositoryContext
  pub scope : Option Binding
  pub architecture : Option Origin
  pub usage : Option Usage

-- serde_json: the bytes of the JSON of a value, or the error of writing it.
pub record Json : Type 0 where
  pub plan_bytes : Plan → Result ℕ
  pub context_bytes : RepositoryContext → Result ℕ

unfoldable pub Origin-discrete : Discrete Origin
Origin-discrete = hlevel (ℕ_discrete, String-discrete)

unfoldable pub Plan-discrete : Discrete Plan
unfolding Binding-discrete Origin-discrete
Plan-discrete = hlevel (ℕ_discrete, String-discrete, Binding-discrete, Origin-discrete)
