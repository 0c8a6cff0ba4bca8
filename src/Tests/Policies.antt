-- ===== src/Tests/Policies.antt =====
-- Witness of what holds of the work policies of alfredo-tui/src/tasks.rs.
use text.Mathlib.Text.{◌==◌ as str_eq}
use alfredo.Base.{true, false, ◌≡◌, refl, [], ◌∷◌, ok, All, distinct, is_empty, ltb, length}
use alfredo.Text.{text_valid, codes_eq, starts_with, split}
use alfredo.Policy
use alfredo.Policy.{WorkPolicy, bad_path}
use alfredo.Policy.Confined.{IsConfined, validate-IsConfined}

abbrev two_files : WorkPolicy
two_files = record { files = "src/main.rs" ∷ "README.md" ∷ []; check = "cargo" ∷ "test" ∷ [] }

two_files_valid : Policy.validate two_files ≡ ok tt
unfolding Policy.validate bad_path text_valid codes_eq starts_with split
two_files_valid = refl

-- A path that leaves the workspace is not permitted.
test_traversal : bad_path "src/../../x" ≡ true
unfolding bad_path text_valid codes_eq starts_with split
test_traversal = refl

validate-IsConfined_example :
    All IsConfined two_files.files
    × (distinct str_eq two_files.files ≡ true)
    × (is_empty two_files.files ≡ false)
    × (ltb 32 (length two_files.files) ≡ false)
validate-IsConfined_example = validate-IsConfined two_files two_files_valid
