-- ===== src/Session/Draft.antt =====
-- The prompt of alfredo-tui/src/model.rs: the cursor, its motions, and the edits of the draft.
pub mod Cursor
pub mod Insert
use alfredo.Base.{
  ℕ, zero, suc, ◌+◌, ◌-◌, Bool, true, false, not, ◌&&◌, ◌||◌, List, [], ◌∷◌, ◌++◌, Option, none,
  some, ltb, leb, ◌==◌, if◌then◌else◌,
}
use alfredo.Text.{is_control, is_whitespace, trim_start, trim_end, codes_eq}
use alfredo.Session.{Chars, Session, max_draft}
use alfredo.Session.Utf8.{width, byte_len, before, after, Segmenter, bounds}

-- The last position up to `at`, and the first one from `at` on.
unfoldable pub last_upto : ℕ → List ℕ → ℕ → ℕ
last_upto at [] found = found
last_upto at (x ∷ xs) found = let later = last_upto at xs x in if leb x at then later else found

unfoldable pub first_from : ℕ → List ℕ → ℕ → ℕ
first_from at [] found = found
first_from at (x ∷ xs) found = let later = first_from at xs found in if leb at x then x else later

-- The start of the last cluster, and the length of the first one.
unfoldable pub last_start : ℕ → List Chars → ℕ → ℕ
last_start at [] found = found
last_start at (c ∷ cs) found = last_start (at + byte_len c) cs at

unfoldable pub first_len : List Chars → ℕ
first_len [] = 0
first_len (c ∷ cs) = byte_len c

-- Where the last word of a text starts: behind its last white space.
unfoldable pub word_start : ℕ → Chars → ℕ → ℕ
word_start at [] found = found
word_start at (c ∷ s) found =
    word_start (at + width c) s (if is_whitespace c then at + width c else found)

-- The bytes before the first white space.
unfoldable pub word_len : Chars → ℕ
word_len [] = 0
word_len (c ∷ s) = let rest = word_len s in if is_whitespace c then 0 else width c + rest

-- `replace_range(start..end, "")`
unfoldable pub cut : ℕ → ℕ → Chars → Chars
cut start end s = before start s ++ after end s

-- What `insert` keeps of a cluster: tabs are four spaces, other controls but the line feed are dropped.
unfoldable pub filtered : Chars → Chars
filtered [] = []
filtered (c ∷ s) =
    let rest = filtered s in
    if c == 0x09
    then 0x20 ∷ 0x20 ∷ 0x20 ∷ 0x20 ∷ rest
    else if not (is_control c) || c == 0x0a
    then c ∷ rest
    else rest

-- The clean text of clusters that fits when `held` bytes are there, and whether the rest was cut.
unfoldable pub clean_from : ℕ → List Chars → Chars × Bool
clean_from held [] = ([], false)
clean_from held (c ∷ cs) =
    let rest = clean_from (held + byte_len (filtered c)) cs in
    if ltb max_draft (held + byte_len (filtered c))
    then ([], true)
    else (filtered c ++ rest.0, rest.1)

abbrev pub claimed : Session → Session
claimed s = record s { rejected = none }

unfoldable pub replace_pending : Session → Bool
replace_pending s = elim s.rejected [ none ↦ false | some text ↦ codes_eq text s.draft ]

unfoldable pub clear_draft : Session → Session
clear_draft s = record s {
  rejected = none;
  history_index = none;
  unsent = none;
  draft = [];
  cursor = 0;
}

unfoldable pub home : Session → Session
home s = record s { rejected = none; cursor = 0 }

unfoldable pub to_end : Session → Session
to_end s = record s { rejected = none; cursor = byte_len s.draft }

module _ (g : Segmenter) where
  unfoldable pub cursor_of : Session → ℕ
  cursor_of s = last_upto s.cursor (bounds 0 (g.clusters s.draft)) 0

  unfoldable pub left : Session → Session
  left s = record (claimed s) {
    cursor = last_start 0 (g.clusters (before (cursor_of s) s.draft)) 0;
  }

  unfoldable pub right : Session → Session
  right s = record (claimed s) {
    cursor = cursor_of s + first_len (g.clusters (after (cursor_of s) s.draft));
  }

  unfoldable pub backspace : Session → Session
  unfolding left
  backspace s = record (left s) { draft = cut (left s).cursor (cursor_of s) s.draft }

  unfoldable pub delete : Session → Session
  unfolding right
  delete s = record (claimed s) {
    draft = cut (cursor_of s) (right s).cursor s.draft;
    cursor = cursor_of s;
  }

  unfoldable pub word_left : Session → Session
  word_left s = record (claimed s) {
    cursor = word_start 0 (trim_end (before (cursor_of s) s.draft)) 0;
  }

  unfoldable pub word_right : Session → Session
  word_right s =
      let rest = after (cursor_of s) s.draft in
      let word = trim_start rest in
      record (claimed s) { cursor = cursor_of s + (byte_len rest - byte_len word) + word_len word }

  unfoldable pub kill_to_end : Session → Session
  kill_to_end s = record (claimed s) { draft = before (cursor_of s) s.draft; cursor = cursor_of s }

  unfoldable pub delete_word : Session → Session
  delete_word s =
      let start = word_start 0 (trim_end (before (cursor_of s) s.draft)) 0 in
      record (claimed s) { draft = cut start (cursor_of s) s.draft; cursor = start }

  -- The session, the bytes that were accepted, and whether the text was truncated.
  unfoldable pub insert : Session → Chars → Session × ℕ × Bool
  insert s text =
      let at = cursor_of s in
      let clean = clean_from (byte_len s.draft) (g.clusters text) in
      let draft = before at s.draft ++ (clean.0 ++ after at s.draft) in
      (
        record s {
          draft = draft;
          cursor =
              first_from (at + byte_len clean.0) (bounds 0 (g.clusters draft)) (byte_len draft);
        },
        byte_len clean.0,
        clean.1,
      )

  unfoldable pub type_char : Session → ℕ → Session
  type_char s c =
      let cleared = if replace_pending s then clear_draft s else s in (insert cleared (c ∷ [])).0
