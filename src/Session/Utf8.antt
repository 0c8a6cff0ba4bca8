-- ===== src/Session/Utf8.antt =====
-- Bytes of texts as alfredo-tui/src/model.rs counts and cuts them: UTF-8 lengths, prefixes up to a byte
-- position, and the grapheme clusters that the crate unicode-segmentation finds.
use alfredo.Base.{
  ℕ, ◌+◌, ◌-◌, ◌≤◌, ◌<◌, ◌⊎◌, true, false, ◌≡◌, refl, sym, ◌∙◌, ap, List, [], ◌∷◌, ◌++◌, append-nil,
  append_assoc, subst, arith, ltb, leb, leb→le, if◌then◌else◌, Bool-cases, inl, inr,
}

-- `char::len_utf8`
unfoldable pub width : ℕ → ℕ
width c = if ltb c 128 then 1 else if ltb c 2048 then 2 else if ltb c 65536 then 3 else 4

-- `str::len`
unfoldable pub byte_len : List ℕ → ℕ
byte_len [] = 0
byte_len (c ∷ s) = width c + byte_len s

-- `&s[..n]` and `&s[n..]`; the source slices at boundaries of characters only.
unfoldable pub before : ℕ → List ℕ → List ℕ
before n [] = []
before n (c ∷ s) = let rest = before (n - width c) s in if leb (width c) n then c ∷ rest else []

unfoldable pub after : ℕ → List ℕ → List ℕ
after n [] = []
after n (c ∷ s) = let rest = after (n - width c) s in if leb (width c) n then rest else c ∷ s

-- `is_char_boundary`
abbrev pub IsBoundary : ℕ → List ℕ → Type 0
IsBoundary n s = byte_len (before n s) ≡ n

unfoldable pub concat : List (List ℕ) → List ℕ
concat [] = []
concat (c ∷ cs) = c ++ concat cs

-- `str::graphemes(true)`: the clusters of a text, which make it up.
pub record Segmenter : Type 0 where
  pub clusters : List ℕ → List (List ℕ)
  pub clusters_concat : (s : List ℕ) → concat (clusters s) ≡ s

-- `n` is among the positions.
abbrev pub Among : ℕ → List ℕ → Type 0
Among n [] = ⊥
Among n (x ∷ xs) = (n ≡ x) ⊎ Among n xs

-- The first bytes of clusters, and the end of the text.
unfoldable pub bounds : ℕ → List (List ℕ) → List ℕ
bounds at [] = at ∷ []
bounds at (c ∷ cs) = at ∷ bounds (at + byte_len c) cs

width-pos : (c : ℕ) → 0 < width c
unfolding width
width-pos c = ground arith

pub byte_len-append : (s t : List ℕ) → byte_len (s ++ t) ≡ byte_len s + byte_len t
unfolding byte_len
byte_len-append [] t = omega arith
byte_len-append (c ∷ s) t = omega (arith, byte_len-append s t)

pub before-after : (n : ℕ) (s : List ℕ) → before n s ++ after n s ≡ s
unfolding before after
before-after n [] = refl
before-after n (c ∷ s) = elim (Bool-cases (leb (width c) n)) [
  | inl fits ↦ rw fits (ap (λ t. c ∷ t) (before-after (n - width c) s))
  | inr large ↦ rw large refl
]

pub before-byte_len : (n : ℕ) (s : List ℕ) → byte_len (before n s) ≤ n
unfolding before byte_len
before-byte_len n [] = omega arith
before-byte_len n (c ∷ s) = elim (Bool-cases (leb (width c) n)) [
  | inl fits ↦
      let rest = before-byte_len (n - width c) s in
      let whole : width c + byte_len (before (n - width c) s) ≤ n =
        omega (arith, leb→le (width c) n fits) in
      rw fits whole
  | inr large ↦ rw large (omega arith)
]

le→leb : (a b : ℕ) → a ≤ b → leb a b ≡ true
le→leb a b h = ground arith

before_zero : (t : List ℕ) → before 0 t ≡ []
unfolding before
before_zero [] = refl
before_zero (c ∷ t) =
    let large : leb (width c) 0 ≡ false = ground (arith, width-pos c) in rw large refl

before-append : (s t : List ℕ) → before (byte_len s) (s ++ t) ≡ s
unfolding before byte_len
before-append [] t = before_zero t
before-append (c ∷ s) t =
    let fits : leb (width c) (width c + byte_len s) ≡ true = le→leb _ _ (omega arith) in
    let room : width c + byte_len s - width c ≡ byte_len s = omega arith in
    rw (fits, room) (ap (λ q. c ∷ q) (before-append s t))

append_cancel : (s t u : List ℕ) → s ++ t ≡ s ++ u → t ≡ u
append_cancel [] t u h = h
append_cancel (c ∷ s) t u h = append_cancel s t u (tail_eq h)
  where
    tail_eq : {x y : List ℕ} → c ∷ x ≡ c ∷ y → x ≡ y
    tail_eq e = cc

after-append : (s t : List ℕ) → after (byte_len s) (s ++ t) ≡ t
after-append s t = append_cancel s (after (byte_len s) (s ++ t)) t (
    ap (λ q. q ++ after (byte_len s) (s ++ t)) (sym (before-append s t))
    ∙ before-after (byte_len s) (s ++ t))

-- The length of the two parts of a cut.
pub cut-byte_len : (n : ℕ) (s : List ℕ) → byte_len (before n s) + byte_len (after n s) ≡ byte_len s
cut-byte_len n s = sym (byte_len-append (before n s) (after n s)) ∙ ap byte_len (before-after n s)

pub IsBoundary-at : (done t : List ℕ) (n : ℕ) → byte_len done ≡ n → IsBoundary n (done ++ t)
IsBoundary-at done t n h =
    subst (λ k. byte_len (before k (done ++ t)) ≡ k) h (ap byte_len (before-append done t))

pub IsBoundary-zero : (s : List ℕ) → IsBoundary 0 s
unfolding byte_len
IsBoundary-zero s = ap byte_len (before_zero s)

-- Every position that `bounds` gives is a boundary, also where more text follows.
bounds-IsBoundary :
    (at : ℕ) (done : List ℕ) (cs : List (List ℕ)) (rest : List ℕ) (n : ℕ)
    → byte_len done ≡ at
    → Among n (bounds at cs)
    → IsBoundary n (done ++ (concat cs ++ rest))
unfolding bounds concat
bounds-IsBoundary at done [] rest n h (inl e) = IsBoundary-at done rest n (h ∙ sym e)
bounds-IsBoundary at done [] rest n h (inr e) = absurd e
bounds-IsBoundary at done (c ∷ cs) rest n h (inl e) =
    IsBoundary-at done ((c ++ concat cs) ++ rest) n (h ∙ sym e)
bounds-IsBoundary at done (c ∷ cs) rest n h (inr m) =
    subst (λ q. IsBoundary n q)
      (append_assoc done c (concat cs ++ rest)
        ∙ ap (λ q. done ++ q) (sym (append_assoc c (concat cs) rest)))
      (bounds-IsBoundary (at + byte_len c) (done ++ c) cs rest n
        (byte_len-append done c ∙ ap (λ k. k + byte_len c) h) m)

pub IsBoundary-le : (n : ℕ) (s : List ℕ) → IsBoundary n s → n ≤ byte_len s
IsBoundary-le n s h = omega (arith, h, cut-byte_len n s)

-- A boundary of a prefix is one of the text.
pub IsBoundary-prefix : (n : ℕ) (s t : List ℕ) → IsBoundary n s → IsBoundary n (s ++ t)
IsBoundary-prefix n s t h =
    subst (λ q. IsBoundary n q)
      (sym (append_assoc (before n s) (after n s) t) ∙ ap (λ q. q ++ t) (before-after n s))
      (IsBoundary-at (before n s) (after n s ++ t) n h)

-- A boundary behind a prefix.
pub IsBoundary-behind :
    (s t : List ℕ) (n : ℕ) → IsBoundary n t → IsBoundary (byte_len s + n) (s ++ t)
IsBoundary-behind s t n h =
    subst (λ q. IsBoundary (byte_len s + n) q)
      (append_assoc s (before n t) (after n t) ∙ ap (λ q. s ++ q) (before-after n t))
      (IsBoundary-at (s ++ before n t) (after n t) (byte_len s + n)
        (byte_len-append s (before n t) ∙ ap (λ k. byte_len s + k) h))

pub IsBoundary-end : (s : List ℕ) → IsBoundary (byte_len s) s
IsBoundary-end s =
    subst (λ q. IsBoundary (byte_len s) q) (append-nil s) (IsBoundary-at s [] (byte_len s) refl)

module _ (g : Segmenter) where
  -- The boundaries of a text's clusters are boundaries of its characters.
  pub clusters-IsBoundary :
      (s : List ℕ) (n : ℕ) → Among n (bounds 0 (g.clusters s)) → IsBoundary n s
  unfolding byte_len
  clusters-IsBoundary s n m =
      subst (λ q. IsBoundary n q) (append-nil (concat (g.clusters s)) ∙ g.clusters_concat s)
        (bounds-IsBoundary 0 [] (g.clusters s) [] n refl m)
