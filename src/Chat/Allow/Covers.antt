-- ===== src/Chat/Allow/Covers.antt =====
-- Which commands an always-allow rule of alfredo-tui/src/chat_tools/allow.rs covers.
use alfredo.Base.{
  ℕ, Bool, true, false, ◌&&◌, ◌||◌, ◌≡◌, ◌≢◌, ◌⊎◌, ◌↔◌, inl, inr, refl, sym, ◌∙◌, ap, List, [], ◌∷◌,
  ◌++◌, arith, ==_iff, is_empty, Bool-cases, if◌then◌else◌,
}
use alfredo.Text.{Chars, is_whitespace, trim, trim_start, trim_end, codes_eq}
use alfredo.Chat.Allow.{words, has_meta, leads, command_matches}

pub codes_eq_iff : (s t : Chars) → (codes_eq s t ≡ true) ↔ (s ≡ t)
unfolding codes_eq
codes_eq_iff [] [] = (λ h. refl, λ h. refl)
codes_eq_iff [] (d ∷ t) = (λ h. cc, λ h. cc)
codes_eq_iff (c ∷ s) [] = (λ h. cc, λ h. cc)
codes_eq_iff (c ∷ s) (d ∷ t) =
    let (from, to) = codes_eq_iff s t in
    (λ h. ground (arith, from, ==_iff c d), λ h. ground (arith, to, ==_iff c d))

leads-prefix : (ws vs : List Chars) → leads ws vs ≡ true → (rest : List Chars) × (vs ≡ ws ++ rest)
unfolding leads
leads-prefix [] vs h = (vs, refl)
leads-prefix (w ∷ ws) [] h = absurd (ground arith)
leads-prefix (w ∷ ws) (v ∷ vs) h =
    let (rest, more) = leads-prefix ws vs (ground arith) in
    let same : v ≡ w = (codes_eq_iff v w).0 (ground arith) in (rest, cc)

leads_of_prefix : (ws vs rest : List Chars) → vs ≡ ws ++ rest → leads ws vs ≡ true
unfolding leads
leads_of_prefix [] vs rest h = refl
leads_of_prefix (w ∷ ws) [] rest h = cc
leads_of_prefix (w ∷ ws) (v ∷ vs) rest h =
    let same : v ≡ w = cc in
    let more : vs ≡ ws ++ rest = cc in
    ground (arith, (codes_eq_iff v w).1 same, leads_of_prefix ws vs rest more)

-- The commands that a rule is meant to cover: its own text, or, where neither holds a shell operator, the
-- commands that start with its words.
pub data Covers (rule command : Chars) : Type 0 where
  same : trim rule ≢ [] → trim rule ≡ trim command → Covers rule command
  longer :
      (rest : List Chars)
      → trim rule ≢ []
      → has_meta (trim rule) ≡ false
      → has_meta (trim command) ≡ false
      → words (trim command) ≡ words (trim rule) ++ rest
      → Covers rule command

chosen :
    (none_left equal operator first : Bool)
    → (if none_left then false else if equal then true else if operator then false else first)
      ≡ true
    → (none_left ≡ false) × ((equal ≡ true) ⊎ ((operator ≡ false) × (first ≡ true)))
chosen true equal operator first h = absurd (ground arith)
chosen false true operator first h = (refl, inl refl)
chosen false false true first h = absurd (ground arith)
chosen false false false first h = (refl, inr (refl, h))

not_empty : (s : Chars) → is_empty s ≡ false → s ≢ []
not_empty [] h = λ e. cc
not_empty (c ∷ s) h = λ e. cc

empty_not : (s : Chars) → s ≢ [] → is_empty s ≡ false
empty_not [] h = absurd (h refl)
empty_not (c ∷ s) h = refl

module _ (rule command : Chars) where
  matches-Covers : command_matches rule command ≡ true → Covers rule command
  unfolding command_matches
  matches-Covers h =
      let (some_text, why) =
        chosen (is_empty (trim rule)) (codes_eq (trim rule) (trim command))
          (has_meta (trim rule) || has_meta (trim command))
          (leads (words (trim rule)) (words (trim command))) h in
      covers (not_empty (trim rule) some_text) why
    where
      covers :
          trim rule ≢ []
          → (codes_eq (trim rule) (trim command) ≡ true)
            ⊎ (((has_meta (trim rule) || has_meta (trim command)) ≡ false)
                × (leads (words (trim rule)) (words (trim command)) ≡ true))
          → Covers rule command
      covers text (inl equal) = same text ((codes_eq_iff (trim rule) (trim command)).0 equal)
      covers text (inr (plain, first)) =
          let (rest, prefix) = leads-prefix (words (trim rule)) (words (trim command)) first in
          longer rest text (ground arith) (ground arith) prefix

  Covers-matches : Covers rule command → command_matches rule command ≡ true
  unfolding command_matches
  Covers-matches (same text equal) =
      rw (empty_not (trim rule) text, (codes_eq_iff (trim rule) (trim command)).1 equal) refl
  Covers-matches (longer rest text plain given prefix) =
      rw
        (
          empty_not (trim rule) text,
          plain,
          given,
          leads_of_prefix (words (trim rule)) (words (trim command)) rest prefix,
        )
        (either (codes_eq (trim rule) (trim command)))
    where
      either : (b : Bool) → (if b then true else true) ≡ true
      either true = refl
      either false = refl

-- `command_matches` decides `Covers`: a rule covers exactly its own text and, where neither holds a shell
-- operator, the commands whose first words are those of the rule.
pub command_matches_iff :
    (rule command : Chars) → (command_matches rule command ≡ true) ↔ Covers rule command
command_matches_iff rule command = (matches-Covers rule command, Covers-matches rule command)

-- What `trim` leaves begins and ends with no white space, so a second `trim` leaves it too.
trim_end_twice : (s : Chars) → trim_end (trim_end s) ≡ trim_end s
unfolding trim_end
trim_end_twice [] = refl
trim_end_twice (c ∷ s) = elim (Bool-cases (is_empty (trim_end s) && is_whitespace c)) [
  | inl gone ↦ rw gone refl
  | inr stays ↦ rw stays (rw (trim_end_twice s, stays) refl)
]

first_stays :
    (c : ℕ) (s : Chars) → is_whitespace c ≡ false → trim_start (trim_end (c ∷ s)) ≡ trim_end (c ∷ s)
unfolding trim_start trim_end
first_stays c s solid = elim (Bool-cases (is_empty (trim_end s))) [
  | inl nothing ↦ rw (nothing, solid, solid) refl
  | inr more ↦ rw (more, solid) refl
]

trim_start_solid : (s : Chars) (e : Chars) → trim_start s ≡ e → trim_start (trim_end e) ≡ trim_end e
unfolding trim_start
trim_start_solid [] e h = rw (← h) (unfold trim_end in refl)
trim_start_solid (c ∷ s) e h = elim (Bool-cases (is_whitespace c)) [
  | inl space ↦ trim_start_solid s e (sym (dropped space) ∙ h)
  | inr solid ↦ rw (← (sym (kept solid) ∙ h)) (first_stays c s solid)
]
  where
    dropped :
        is_whitespace c ≡ true → (if is_whitespace c then trim_start s else c ∷ s) ≡ trim_start s
    dropped space = rw space refl

    kept : is_whitespace c ≡ false → (if is_whitespace c then trim_start s else c ∷ s) ≡ c ∷ s
    kept solid = rw solid refl

pub trim_twice : (s : Chars) → trim (trim s) ≡ trim s
unfolding trim
trim_twice s = ap trim_end (trim_start_solid s (trim_start s) refl) ∙ trim_end_twice (trim_start s)
