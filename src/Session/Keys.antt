-- ===== src/Session/Keys.antt =====
-- The keys that edit the prompt of alfredo-tui/src/model.rs, and what every one of them keeps.
pub mod Down
pub mod Remembered
pub mod Recall
pub mod Return
use alfredo.Base.{
  ℕ, zero, suc, ◌+◌, ◌-◌, ◌≤◌, ◌<◌, Bool, true, false, not, ◌&&◌, ◌||◌, ◌≡◌, refl, sym, ◌∙◌, ap,
  subst, List, [], ◌∷◌, ◌++◌, append-nil, append_assoc, Option, none, some, arith, ltb, leb, ◌==◌,
  Bool-cases, Option-cases, inl, inr, if◌then◌else◌, is_empty, all, length, length-append,
  get_elem?, All, All-append,
}
use alfredo.Text.{is_control, trim, trim_start, trim_end, codes_eq}
use alfredo.Session.{
  Chars, Role, user, assistant, Message, Session, max_draft, max_text, max_history, total_len,
}
use alfredo.Session.Utf8.{
  byte_len, before, after, Segmenter, IsBoundary, byte_len-append, before-after, cut-byte_len,
  IsBoundary-zero, IsBoundary-end, bounds,
}
use alfredo.Session.Draft.{
  cut, filtered, clean_from, replace_pending, clear_draft, home, to_end, cursor_of, left, right,
  backspace, delete, word_left, word_right, kill_to_end, delete_word, insert, type_char,
}
use alfredo.Session.Draft.Cursor.{
  cursor-IsBoundary, left-IsBoundary, left-le, word_left-le, right-IsBoundary, word_left-IsBoundary,
  word_right-IsBoundary, first_from-IsBoundary, cut-IsBoundary,
}
use alfredo.Session.History.{
  shrink, remember_in, prompts, remember_all, restore_history, show_prompt, first_index, recall,
  history_previous, history_next,
}

-- Text that the prompt may hold.
abbrev pub good : ℕ → Bool
good c = not (is_control c) || c == 0x0a

abbrev pub IsPrompt : Chars → Type 0
IsPrompt t = (byte_len t ≤ max_draft) × (all good t ≡ true)

abbrev pub InRange : Option ℕ → ℕ → Type 0
InRange none n = Unit {0}
InRange (some i) n = i < n

abbrev pub IsUnsent : Option (Chars × ℕ) → Type 0
IsUnsent none = Unit {0}
IsUnsent (some (t, at)) = IsPrompt t × IsBoundary at t

-- The draft is short and clean, the cursor stands between two of its characters, and what Up and Down may
-- bring back is so too.
pub record IsSound (s : Session) : Type 0 where
  pub prompt : IsPrompt s.draft
  pub placed : IsBoundary s.cursor s.draft
  pub remembered : All IsPrompt s.history
  pub in_range : InRange s.history_index (length s.history)
  pub unsent : IsUnsent s.unsent
  pub sent : All (λ t. all good t ≡ true) (prompts s.messages)

pub all-append : (p : ℕ → Bool) (xs ys : List ℕ) → all p (xs ++ ys) ≡ all p xs && all p ys
all-append p [] ys = refl
all-append p (x ∷ xs) ys = ground (arith, all-append p xs ys)

module _ (at : ℕ) (s : Chars) (prompt : IsPrompt s) where
  good_parts : (all good (before at s) ≡ true) × (all good (after at s) ≡ true)
  good_parts =
      let whole : (all good (before at s) && all good (after at s)) ≡ true =
        sym (all-append good (before at s) (after at s))
        ∙ ap (all good) (before-after at s)
        ∙ prompt.1 in
      (ground arith, ground arith)

  before-IsPrompt : IsPrompt (before at s)
  before-IsPrompt = (omega (arith, cut-byte_len at s, prompt.0), good_parts.0)

-- A cut between two positions leaves a prompt.
before-le :
    (n m : ℕ) (s : Chars)
    → IsBoundary n s
    → IsBoundary m s
    → n ≤ m
    → byte_len (before n s) ≤ byte_len (before m s)
before-le n m s hn hm h = omega (arith, hn, hm)

cut-IsPrompt :
    (start end : ℕ) (s : Chars)
    → IsBoundary start s
    → IsBoundary end s
    → start ≤ end
    → IsPrompt s
    → IsPrompt (cut start end s)
unfolding cut
cut-IsPrompt start end s from to h p = (
  omega (arith, byte_len-append (before start s) (after end s), cut-byte_len end s, from, to, p.0),
  all-append good (before start s) (after end s)
      ∙ ground (arith, (good_parts start s p).0, (good_parts end s p).1),
)

filtered_good : (t : Chars) → all good (filtered t) ≡ true
unfolding filtered
filtered_good [] = refl
filtered_good (c ∷ t) = elim (Bool-cases (c == 0x09)) [
  | inl tab ↦ rw tab (filtered_good t)
  | inr other ↦ rw other (elim (Bool-cases (good c)) [
    | inl keep ↦ rw keep (ground (arith, filtered_good t))
    | inr drop ↦ rw drop (filtered_good t)
  ])
]

clean_good : (held : ℕ) (cs : List Chars) → all good (clean_from held cs).0 ≡ true
unfolding clean_from
clean_good held [] = refl
clean_good held (c ∷ cs) = elim (Bool-cases (ltb max_draft (held + byte_len (filtered c)))) [
  | inl full ↦ rw full refl
  | inr room ↦ rw room (
      all-append good (filtered c) (clean_from (held + byte_len (filtered c)) cs).0
      ∙ ground (arith, filtered_good c, clean_good (held + byte_len (filtered c)) cs))
]

clean_short :
    (held : ℕ) (cs : List Chars)
    → held ≤ max_draft
    → held + byte_len (clean_from held cs).0 ≤ max_draft
unfolding clean_from
clean_short held [] h = unfold byte_len in omega arith
clean_short held (c ∷ cs) h = elim (Bool-cases (ltb max_draft (held + byte_len (filtered c)))) [
  | inl full ↦ rw full (unfold byte_len in omega arith)
  | inr room ↦
      let below : held + byte_len (filtered c) ≤ max_draft = ground arith in
      let rest = clean_short (held + byte_len (filtered c)) cs below in
      let sum = byte_len-append (filtered c) (clean_from (held + byte_len (filtered c)) cs).0 in
      let total : held + byte_len (filtered c ++ (clean_from (held + byte_len (filtered c)) cs).0)
          ≤ max_draft =
        omega (arith, sum, rest) in
      rw room total
]

module _ (g : Segmenter) (s : Session) (text : Chars) where
  insert-IsPrompt : IsPrompt s.draft → IsPrompt (insert g s text).0.draft
  unfolding insert
  insert-IsPrompt p =
      let at = cursor_of g s in
      let clean = (clean_from (byte_len s.draft) (g.clusters text)).0 in
      let front = before at s.draft in
      let rest = after at s.draft in
      let (front_good, rest_good) = good_parts at s.draft p in
      let tail : all good (clean ++ rest) ≡ true =
        all-append good clean rest
        ∙ ground (arith, clean_good (byte_len s.draft) (g.clusters text), rest_good) in
      (
        omega (
          arith,
          byte_len-append front (clean ++ rest),
          byte_len-append clean rest,
          cut-byte_len at s.draft,
          clean_short (byte_len s.draft) (g.clusters text) p.0,
        ),
        all-append good front (clean ++ rest) ∙ ground (arith, front_good, tail),
      )

  insert_placed : IsBoundary (insert g s text).0.cursor (insert g s text).0.draft
  unfolding insert
  insert_placed = first_from-IsBoundary g _ _

abbrev same_memory :
    (s : Session) (draft : Chars) (cursor : ℕ)
    → IsSound s
    → IsPrompt draft
    → IsBoundary cursor draft
    → IsSound (record s { rejected = none; draft = draft; cursor = cursor })
same_memory s draft cursor v p b = record {
  prompt = p;
  placed = b;
  remembered = v.remembered;
  in_range = v.in_range;
  unsent = v.unsent;
  sent = v.sent;
}

-- A key of the prompt.
pub data Key : Type 0 where
  char : ℕ → Key
  paste : Chars → Key
  left_key right_key home_key end_key backspace_key delete_key : Key
  word_left_key word_right_key kill_key delete_word_key clear_key : Key

unfoldable pub press : Segmenter → Session → Key → Session
press g s (char c) = type_char g s c
press g s (paste text) = (insert g s text).0
press g s left_key = left g s
press g s right_key = right g s
press g s home_key = home s
press g s end_key = to_end s
press g s backspace_key = backspace g s
press g s delete_key = delete g s
press g s word_left_key = word_left g s
press g s word_right_key = word_right g s
press g s kill_key = kill_to_end g s
press g s delete_word_key = delete_word g s
press g s clear_key = clear_draft s

insert-IsSound :
    (g : Segmenter) (s : Session) (text : Chars) → IsSound s → IsSound (insert g s text).0
unfolding insert
insert-IsSound g s text v = record {
  prompt = insert-IsPrompt g s text v.prompt;
  placed = insert_placed g s text;
  remembered = v.remembered;
  in_range = v.in_range;
  unsent = v.unsent;
  sent = v.sent;
}

clear_draft-IsSound : (s : Session) → IsSound s → IsSound (clear_draft s)
unfolding clear_draft
clear_draft-IsSound s v = record {
  prompt = (unfold byte_len in omega arith, refl);
  placed = IsBoundary-zero [];
  remembered = v.remembered;
  in_range = tt;
  unsent = tt;
  sent = v.sent;
}

right-le : (g : Segmenter) (s : Session) → cursor_of g s ≤ (right g s).cursor
unfolding right
right-le g s = omega arith

typed-IsSound :
    (g : Segmenter) (s : Session) (c : ℕ) (b : Bool)
    → IsSound s
    → IsSound (insert g (if b then clear_draft s else s) (c ∷ [])).0
typed-IsSound g s c true v = insert-IsSound g (clear_draft s) (c ∷ []) (clear_draft-IsSound s v)
typed-IsSound g s c false v = insert-IsSound g s (c ∷ []) v

-- Every editing key keeps the prompt sound: within 16 KiB, free of control characters but the line feed,
-- with the cursor between two of its characters.
pub press-IsSound : (g : Segmenter) (s : Session) (k : Key) → IsSound s → IsSound (press g s k)
unfolding press type_char left right home to_end backspace delete word_left word_right kill_to_end
    delete_word
press-IsSound g s (char c) v = typed-IsSound g s c (replace_pending s) v
press-IsSound g s (paste text) v = insert-IsSound g s text v
press-IsSound g s left_key v = same_memory s s.draft _ v v.prompt (left-IsBoundary g s)
press-IsSound g s right_key v = same_memory s s.draft _ v v.prompt (right-IsBoundary g s)
press-IsSound g s home_key v = same_memory s s.draft 0 v v.prompt (IsBoundary-zero s.draft)
press-IsSound g s end_key v =
    same_memory s s.draft (byte_len s.draft) v v.prompt (IsBoundary-end s.draft)
press-IsSound g s backspace_key v =
    same_memory s _ _ v
      (cut-IsPrompt (left g s).cursor (cursor_of g s) s.draft (left-IsBoundary g s)
        (cursor-IsBoundary g s) (left-le g s) v.prompt)
      (cut-IsBoundary (left g s).cursor (cursor_of g s) s.draft (left-IsBoundary g s))
press-IsSound g s delete_key v =
    same_memory s _ _ v
      (cut-IsPrompt (cursor_of g s) (right g s).cursor s.draft (cursor-IsBoundary g s)
        (right-IsBoundary g s) (right-le g s) v.prompt)
      (cut-IsBoundary (cursor_of g s) (right g s).cursor s.draft (cursor-IsBoundary g s))
press-IsSound g s word_left_key v = same_memory s s.draft _ v v.prompt (word_left-IsBoundary g s)
press-IsSound g s word_right_key v = same_memory s s.draft _ v v.prompt (word_right-IsBoundary g s)
press-IsSound g s kill_key v =
    same_memory s _ _ v (before-IsPrompt (cursor_of g s) s.draft v.prompt) (
      subst (λ k. IsBoundary k (before (cursor_of g s) s.draft)) (cursor-IsBoundary g s)
        (IsBoundary-end (before (cursor_of g s) s.draft)))
press-IsSound g s delete_word_key v =
    same_memory s _ _ v
      (cut-IsPrompt _ (cursor_of g s) s.draft (word_left-IsBoundary g s) (cursor-IsBoundary g s)
        (word_left-le g s) v.prompt)
      (cut-IsBoundary _ (cursor_of g s) s.draft (word_left-IsBoundary g s))
press-IsSound g s clear_key v = clear_draft-IsSound s v
