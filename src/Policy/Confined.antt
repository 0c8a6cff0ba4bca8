-- ===== src/Policy/Confined.antt =====
-- `WorkPolicy::validate` of alfredo-tui/src/tasks.rs permits only files inside the workspace.
use text.Mathlib.Text.{◌==◌ as str_eq}
use text.Mathlib.TextEquality.{eq_iff}
use alfredo.Base.{
  ℕ, String, true, false, ◌||◌, ◌≡◌, refl, sym, subst, List, [], ◌∷◌, Option, none, some, ok,
  refuse_if, arith, any, distinct, length, is_empty, ltb, All, >>-eq-ok, refuse_if-eq-ok, inl, inr,
  Bool-cases,
}
use alfredo.Text.{chars, codes_eq, starts_with, split}
use alfredo.Policy
use alfredo.Policy.{WorkPolicy, bad_part, abnormal_component, bad_path, check_files, out_of_bounds}

-- How a system resolves the parts of a relative path below a directory, innermost part first; `none`
-- when ".." would leave the directory.
abbrev pub resolve : List (List ℕ) → List (List ℕ) → Option (List (List ℕ))
resolve place [] = some place
resolve place (part ∷ parts) = elim (is_empty part || codes_eq part (chars ".")) [
  | true ↦ resolve place parts
  | false ↦ elim (codes_eq part (chars "..")) [
    | false ↦ resolve (part ∷ place) parts
    | true ↦ elim place [ [] ↦ none | above ∷ rest ↦ resolve rest parts ]
  ]
]

abbrev pub reverse_onto : List (List ℕ) → List (List ℕ) → List (List ℕ)
reverse_onto place [] = place
reverse_onto place (part ∷ parts) = reverse_onto (part ∷ place) parts

-- The file is below the workspace at exactly its own parts, is not absolute, and none of its parts is
-- Git metadata.
pub record IsConfined (path : String) : Type 0 where
  pub inside :
      resolve [] (split b'/' (chars path)) ≡ some (reverse_onto [] (split b'/' (chars path)))
  pub relative : starts_with (chars path) (b'/' ∷ []) ≡ false
  pub no_metadata : any (λ part. starts_with part (chars ".git")) (split b'/' (chars path)) ≡ false

resolve-normal :
    (place parts : List (List ℕ))
    → any bad_part parts ≡ false
    → resolve place parts ≡ some (reverse_onto place parts)
unfolding bad_part
resolve-normal place [] h = refl
resolve-normal place (part ∷ parts) h =
    let here : (is_empty part || codes_eq part (chars ".")) ≡ false = ground arith in
    let up : codes_eq part (chars "..") ≡ false = ground arith in
    rw (resolve, here, up) (resolve-normal (part ∷ place) parts (ground arith))

normal-metadata :
    (parts : List (List ℕ))
    → any bad_part parts ≡ false
    → any (λ part. starts_with part (chars ".git")) parts ≡ false
unfolding bad_part
normal-metadata [] h = refl
normal-metadata (part ∷ parts) h = ground (arith, normal-metadata parts)

bad_path-parts :
    (path : String)
    → bad_path path ≡ false
    → (any bad_part (split b'/' (chars path)) ≡ false)
      × (starts_with (chars path) (b'/' ∷ []) ≡ false)
unfolding bad_path abnormal_component
bad_path-parts path h = (ground arith, ground arith)

path-IsConfined : (path : String) → bad_path path ≡ false → IsConfined path
path-IsConfined path h =
    let (parts, relative) = bad_path-parts path h in
    record {
      inside = resolve-normal [] (split b'/' (chars path)) parts;
      relative = relative;
      no_metadata = normal-metadata (split b'/' (chars path)) parts;
    }

str_eq-sym : (a b : String) → str_eq a b ≡ false → str_eq b a ≡ false
str_eq-sym a b h = elim (Bool-cases (str_eq b a)) [
  | inl same ↦ absurd (ground (arith, h, (eq_iff a b).1 (sym ((eq_iff b a).0 same))))
  | inr other ↦ other
]

-- The files after one that was seen differ from it.
check_files-unseen :
    (path : String) (seen files : List String)
    → any (str_eq path) seen ≡ true
    → check_files seen files ≡ ok tt
    → any (str_eq path) files ≡ false
unfolding check_files
check_files-unseen path seen [] h e = refl
check_files-unseen path seen (file ∷ files) h e =
    let (good, e1) = >>-eq-ok (refuse_if (bad_path file || any (str_eq file) seen) _) _ e in
    let checked = refuse_if-eq-ok (bad_path file || any (str_eq file) seen) _ good in
    let rest = check_files-unseen path (file ∷ seen) files (ground (arith, h)) e1 in
    elim (Bool-cases (str_eq path file)) [
      | inl same ↦ absurd (
          ground
            (arith, checked, subst (λ q. any (str_eq q) seen ≡ true) ((eq_iff path file).0 same) h))
      | inr other ↦ rw other rest
    ]

check_files-IsConfined :
    (seen files : List String)
    → check_files seen files ≡ ok tt
    → All IsConfined files × (distinct str_eq files ≡ true)
unfolding check_files
check_files-IsConfined seen [] h = (tt, refl)
check_files-IsConfined seen (path ∷ files) h =
    let (good, h1) = >>-eq-ok (refuse_if (bad_path path || any (str_eq path) seen) _) _ h in
    let checked = refuse_if-eq-ok (bad_path path || any (str_eq path) seen) _ good in
    let (rest, unique) = check_files-IsConfined (path ∷ seen) files h1 in
    let unseen : any (str_eq path) files ≡ false =
      check_files-unseen path (path ∷ seen) files (rw ((eq_iff path path).1 refl) refl) h1 in
    ((path-IsConfined path (ground arith), rest), ground arith)

-- The files of a policy that `validate` accepts are distinct and confined to the workspace, and are 1
-- to 32.
pub validate-IsConfined :
    (policy : WorkPolicy)
    → Policy.validate policy ≡ ok tt
    → All IsConfined policy.files
      × (distinct str_eq policy.files ≡ true)
      × (is_empty policy.files ≡ false)
      × (ltb 32 (length policy.files) ≡ false)
unfolding Policy.validate
validate-IsConfined policy h =
    let (sized, files) = >>-eq-ok (refuse_if (out_of_bounds policy) _) _ h in
    let bounds = refuse_if-eq-ok (out_of_bounds policy) _ sized in
    let (confined, unique) = check_files-IsConfined [] policy.files files in
    (confined, unique, ground (arith, bounds), ground (arith, bounds))
