-- ===== src/Session/Draft/Cursor.antt =====
-- Where the cursor of the prompt of alfredo-tui/src/model.rs can stand: between characters of the draft.
use alfredo.Base.{
  ℕ, ◌+◌, ◌-◌, ◌≤◌, inl, inr, Bool, true, false, ◌&&◌, ◌≡◌, refl, sym, ◌∙◌, ap, subst, List, [],
  ◌∷◌, ◌++◌, append_assoc, arith, leb, Bool-cases, if◌then◌else◌, is_empty,
}
use alfredo.Text.{is_whitespace, trim_start, trim_end}
use alfredo.Session.{Chars, Session}
use alfredo.Session.Utf8.{
  width, byte_len, before, after, Segmenter, Among, bounds, IsBoundary, byte_len-append,
  before-after, before-byte_len, IsBoundary-at, IsBoundary-zero, IsBoundary-le, IsBoundary-prefix,
  IsBoundary-behind, IsBoundary-end, clusters-IsBoundary,
}
use alfredo.Session.Draft.{
  last_upto, first_from, last_start, first_len, word_start, word_len, cut, cursor_of, left, right,
  word_right,
}

-- A search among positions gives one of them, or the default.
last_upto-found :
    (P : ℕ → Type 0) (at : ℕ) (xs : List ℕ) (found : ℕ)
    → ((n : ℕ) → Among n xs → P n)
    → P found
    → P (last_upto at xs found)
unfolding last_upto
last_upto-found P at [] found all h = h
last_upto-found P at (x ∷ xs) found all h = elim (Bool-cases (leb x at)) [
  | inl low ↦ rw low (last_upto-found P at xs x (λ n m. all n (inr m)) (all x (inl refl)))
  | inr high ↦ rw high h
]

first_from-found :
    (P : ℕ → Type 0) (at : ℕ) (xs : List ℕ) (found : ℕ)
    → ((n : ℕ) → Among n xs → P n)
    → P found
    → P (first_from at xs found)
unfolding first_from
first_from-found P at [] found all h = h
first_from-found P at (x ∷ xs) found all h = elim (Bool-cases (leb at x)) [
  | inl high ↦ rw high (all x (inl refl))
  | inr low ↦ rw low (first_from-found P at xs found (λ n m. all n (inr m)) h)
]

last_start-found :
    (P : ℕ → Type 0) (at : ℕ) (cs : List Chars) (found : ℕ)
    → ((n : ℕ) → Among n (bounds at cs) → P n)
    → P found
    → P (last_start at cs found)
unfolding last_start bounds
last_start-found P at [] found all h = h
last_start-found P at (c ∷ cs) found all h =
    last_start-found P (at + byte_len c) cs at (λ n m. all n (inr m)) (all at (inl refl))

module _ (g : Segmenter) (s : Session) where
  pub cursor-IsBoundary : IsBoundary (cursor_of g s) s.draft
  unfolding cursor_of
  cursor-IsBoundary =
      last_upto-found (λ n. IsBoundary n s.draft) s.cursor (bounds 0 (g.clusters s.draft)) 0
        (clusters-IsBoundary g s.draft) (IsBoundary-zero s.draft)

-- A boundary in front of the cut stays one.
IsBoundary-before :
    (n at : ℕ) (s t : Chars) → IsBoundary n (before at s) → IsBoundary n (before at s ++ t)
IsBoundary-before n at s t h = IsBoundary-prefix n (before at s) t h

IsBoundary-of_before : (n at : ℕ) (s : Chars) → IsBoundary n (before at s) → IsBoundary n s
IsBoundary-of_before n at s h =
    subst (λ q. IsBoundary n q) (before-after at s)
      (IsBoundary-prefix n (before at s) (after at s) h)

word_start-IsBoundary :
    (at : ℕ) (done s : Chars) (found : ℕ)
    → byte_len done ≡ at
    → IsBoundary found (done ++ s)
    → IsBoundary (word_start at s found) (done ++ s)
unfolding word_start
word_start-IsBoundary at done [] found h b = b
word_start-IsBoundary at done (c ∷ s) found h b =
    let step : byte_len (done ++ c ∷ []) ≡ at + width c =
      byte_len-append done (c ∷ []) ∙ unfold byte_len in omega (arith, h) in
    subst (λ q. IsBoundary (word_start (at + width c) s (next_start (is_whitespace c))) q)
      (append_assoc done (c ∷ []) s)
      (word_start-IsBoundary (at + width c) (done ++ c ∷ []) s (next_start (is_whitespace c)) step (
        subst (λ q. IsBoundary (next_start (is_whitespace c)) q)
          (sym (append_assoc done (c ∷ []) s)) (next_boundary (is_whitespace c) step)))
  where
    next_start : Bool → ℕ
    next_start b' = if b' then at + width c else found

    next_boundary :
        (b' : Bool)
        → byte_len (done ++ c ∷ []) ≡ at + width c
        → IsBoundary (next_start b') (done ++ c ∷ s)
    next_boundary true step =
        subst (λ q. IsBoundary (at + width c) q) (append_assoc done (c ∷ []) s)
          (IsBoundary-at (done ++ c ∷ []) s (at + width c) step)
    next_boundary false step = b

-- What `trim_end` and `trim_start` take away.
pub trim_end-prefix : (s : Chars) → (rest : Chars) × (trim_end s ++ rest ≡ s)
unfolding trim_end
trim_end-prefix [] = ([], refl)
trim_end-prefix (c ∷ s) =
    let (rest, h) = trim_end-prefix s in
    elim (Bool-cases (is_empty (trim_end s) && is_whitespace c)) [
      | inl gone ↦ rw gone (c ∷ s, refl)
      | inr stays ↦ rw stays (rest, ap (λ q. c ∷ q) h)
    ]

pub trim_start-suffix : (s : Chars) → (lead : Chars) × (lead ++ trim_start s ≡ s)
unfolding trim_start
trim_start-suffix [] = ([], refl)
trim_start-suffix (c ∷ s) =
    let (lead, h) = trim_start-suffix s in
    elim (Bool-cases (is_whitespace c)) [
      | inl gone ↦ rw gone (c ∷ lead, ap (λ q. c ∷ q) h)
      | inr stays ↦ rw stays ([], refl)
    ]

IsBoundary-next : (c : ℕ) (s : Chars) (n : ℕ) → IsBoundary n s → IsBoundary (width c + n) (c ∷ s)
IsBoundary-next c s n h =
    let one : byte_len (c ∷ []) ≡ width c = unfold byte_len in omega arith in
    subst (λ k. IsBoundary (k + n) (c ∷ s)) one (IsBoundary-behind (c ∷ []) s n h)

word_len-IsBoundary : (s : Chars) → IsBoundary (word_len s) s
unfolding word_len
word_len-IsBoundary [] = IsBoundary-zero []
word_len-IsBoundary (c ∷ s) = elim (Bool-cases (is_whitespace c)) [
  | inl space ↦ rw space (IsBoundary-zero (c ∷ s))
  | inr other ↦ rw other (IsBoundary-next c s (word_len s) (word_len-IsBoundary s))
]

first_len-IsBoundary : (g : Segmenter) (s : Chars) → IsBoundary (first_len (g.clusters s)) s
unfolding first_len bounds
first_len-IsBoundary g s = first (g.clusters s) (clusters-IsBoundary g s)
  where
    first :
        (cs : List Chars)
        → ((n : ℕ) → Among n (bounds 0 cs) → IsBoundary n s)
        → IsBoundary (first_len cs) s
    first [] all = IsBoundary-zero s
    first (c ∷ []) all = all (byte_len c) (inr (inl (omega arith)))
    first (c ∷ d ∷ cs) all = all (byte_len c) (inr (inl (omega arith)))

module _ (g : Segmenter) (s : Session) where
  -- A boundary of the text behind the cursor, counted from the cursor.
  behind_cursor :
      (n : ℕ)
      → IsBoundary n (after (cursor_of g s) s.draft)
      → IsBoundary (cursor_of g s + n) s.draft
  behind_cursor n h =
      let at = cursor_of g s in
      subst (λ k. IsBoundary (k + n) s.draft) (cursor-IsBoundary g s)
        (subst (λ q. IsBoundary (byte_len (before at s.draft) + n) q) (before-after at s.draft)
          (IsBoundary-behind (before at s.draft) (after at s.draft) n h))

  left_front : IsBoundary (left g s).cursor (before (cursor_of g s) s.draft)
  unfolding left
  left_front =
      let front = before (cursor_of g s) s.draft in
      last_start-found (λ n. IsBoundary n front) 0 (g.clusters front) 0
        (clusters-IsBoundary g front) (IsBoundary-zero front)

  pub left-IsBoundary : IsBoundary (left g s).cursor s.draft
  left-IsBoundary = IsBoundary-of_before (left g s).cursor (cursor_of g s) s.draft left_front

  pub left-le : (left g s).cursor ≤ cursor_of g s
  left-le = omega (
    arith,
    IsBoundary-le (left g s).cursor (before (cursor_of g s) s.draft) left_front,
    before-byte_len (cursor_of g s) s.draft,
  )

  pub right-IsBoundary : IsBoundary (right g s).cursor s.draft
  unfolding right
  right-IsBoundary = behind_cursor _ (first_len-IsBoundary g (after (cursor_of g s) s.draft))

  abbrev word_left_at : ℕ
  word_left_at = word_start 0 (trim_end (before (cursor_of g s) s.draft)) 0

  word_left_front : IsBoundary word_left_at (before (cursor_of g s) s.draft)
  word_left_front =
      let front = before (cursor_of g s) s.draft in
      let (rest, whole) = trim_end-prefix front in
      subst (λ q. IsBoundary word_left_at q) whole
        (IsBoundary-prefix word_left_at (trim_end front) rest (
          word_start-IsBoundary 0 [] (trim_end front) 0 (unfold byte_len in refl)
            (IsBoundary-zero (trim_end front))))

  pub word_left-IsBoundary :
      IsBoundary (word_start 0 (trim_end (before (cursor_of g s) s.draft)) 0) s.draft
  word_left-IsBoundary = IsBoundary-of_before word_left_at (cursor_of g s) s.draft word_left_front

  pub word_left-le : word_start 0 (trim_end (before (cursor_of g s) s.draft)) 0 ≤ cursor_of g s
  word_left-le = omega (
    arith,
    IsBoundary-le word_left_at (before (cursor_of g s) s.draft) word_left_front,
    before-byte_len (cursor_of g s) s.draft,
  )

  pub word_right-IsBoundary : IsBoundary (word_right g s).cursor s.draft
  unfolding word_right
  word_right-IsBoundary =
      let rest = after (cursor_of g s) s.draft in
      let word = trim_start rest in
      let (lead, whole) = trim_start-suffix rest in
      let skipped : byte_len lead ≡ byte_len rest - byte_len word =
        omega (arith, byte_len-append lead word, ap byte_len whole) in
      let sum : cursor_of g s + (byte_len lead + word_len word)
          ≡ cursor_of g s + (byte_len rest - byte_len word) + word_len word =
        omega (arith, skipped) in
      subst (λ k. IsBoundary k s.draft) sum
        (behind_cursor (byte_len lead + word_len word) (
          subst (λ q. IsBoundary (byte_len lead + word_len word) q) whole
            (IsBoundary-behind lead word (word_len word) (word_len-IsBoundary word))))

-- The cursor after an insertion.
pub first_from-IsBoundary :
    (g : Segmenter) (at : ℕ) (s : Chars)
    → IsBoundary (first_from at (bounds 0 (g.clusters s)) (byte_len s)) s
first_from-IsBoundary g at s =
    first_from-found (λ n. IsBoundary n s) at (bounds 0 (g.clusters s)) (byte_len s)
      (clusters-IsBoundary g s) (IsBoundary-end s)

-- The place of a cut is a boundary of what is left.
pub cut-IsBoundary :
    (start end : ℕ) (s : Chars) → IsBoundary start s → IsBoundary start (cut start end s)
unfolding cut
cut-IsBoundary start end s h = IsBoundary-at (before start s) (after end s) start h
