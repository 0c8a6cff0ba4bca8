-- ===== src/Policy.antt =====
-- The files and the check that the owner approves for a task: `WorkPolicy` and its `validate` in
-- alfredo-tui/src/tasks.rs.
pub mod Confined
use text.Mathlib.Text.{◌==◌ as str_eq}
use alfredo.Base.{
  ℕ, String, Bool, false, not, ◌||◌, List, [], ◌∷◌, Result, ok, ◌>>◌, refuse_if, any, ltb, ◌==◌,
  length, is_empty,
}
use alfredo.Text.{chars, text_valid, codes_eq, starts_with, split}

pub record WorkPolicy : Type 0 where
  pub files : List String
  pub check : List String

first_is_dot : List (List ℕ) → Bool
first_is_dot [] = false
first_is_dot (part ∷ parts) = codes_eq part (chars ".")

-- What `Path::components` yields that is no `Normal` component: a leading slash, a leading ".",
-- and ".." anywhere. Empty parts and later "." are skipped by it.
abnormal_component : List ℕ → Bool
unfolding first_is_dot
abnormal_component path =
    starts_with path (b'/' ∷ [])
    || first_is_dot (split b'/' path)
    || any (λ part. codes_eq part (chars "..")) (split b'/' path)

-- The test on one part between slashes.
pub bad_part : List ℕ → Bool
bad_part part =
    is_empty part
    || starts_with part (chars ".git")
    || codes_eq part (chars ".")
    || codes_eq part (chars "..")

-- The condition of the loop over `files`, but for the `unique` set.
unfoldable pub bad_path : String → Bool
unfolding bad_part abnormal_component
bad_path path =
    let cs = chars path in
    not (text_valid path 512)
    || any (λ c. c == 0x5c) cs
    || any (λ c. c == b':') cs
    || starts_with cs (b'-' ∷ [])
    || any bad_part (split b'/' cs)
    || abnormal_component cs

-- The loop; `seen` is the set `unique`.
pub check_files : List String → List String → Result (Unit {0})
check_files seen [] = ok tt
check_files seen (path ∷ files) =
    refuse_if (bad_path path || any (str_eq path) seen)
      "Policy files must be distinct repository-relative paths without Git metadata or traversal"
    >> check_files (path ∷ seen) files

-- The numbers of files and arguments, and the arguments.
abbrev pub out_of_bounds : WorkPolicy → Bool
out_of_bounds policy =
    is_empty policy.files
    || ltb 32 (length policy.files)
    || is_empty policy.check
    || ltb 32 (length policy.check)
    || any (λ arg. not (text_valid arg 2048)) policy.check

unfoldable pub validate : WorkPolicy → Result (Unit {0})
unfolding check_files
validate policy = do
  refuse_if (out_of_bounds policy) "Policy needs 1–32 exact files and a bounded check argv"
  check_files [] policy.files
