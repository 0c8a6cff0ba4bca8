-- ===== src/Understanding/Entry.antt =====
-- The brief that `Snapshot::apply` of alfredo-tui/src/understanding.rs makes of an entry's prompt.
use text.Mathlib.TextLemmas.{nil-append, cons-append}
use Prim.Native.Char.{Char, len_utf8, code}
use Prim.Native.String.{len}
use Prim.Native.String
use text.Mathlib.TextPositions.{len-append}
use alfredo.Base.{
  ℕ, ◌+◌, ◌-◌, ◌≤◌, String, Bool, true, false, ◌≡◌, refl, ◌∙◌, ap, List, [], ◌∷◌, ◌++◌, ok, any,
  leb, ltb, leb→le, arith, Bool-cases, inl, inr, if◌then◌else◌,
}
use alfredo.Text.{chars, ◌+++◌}
use alfredo.Scope.{bad_field, validate_brief}
use alfredo.Understanding.{bad_char, excerpt, excerpt_room, suffix, entry_brief, bad_prompt}

pick-len :
    (room : ℕ) (c : Char) (rest : String) (b : Bool)
    → (b ≡ true → len_utf8 c + len rest ≤ room)
    → len (if b then String.◌∷◌ c rest else "") ≤ room
pick-len room c rest true h =
    let whole : len (String.◌∷◌ c rest) ≡ len_utf8 c + len rest = λ i. String.len.cons c rest i in
    rw whole (h refl)
pick-len room c rest false h = ground arith

excerpt-len : (room : ℕ) (s : String) → len (excerpt room s) ≤ room
unfolding excerpt
excerpt-len room String.[] = omega arith
excerpt-len room (String.◌∷◌ c s) =
    let shorter = excerpt-len (room - len_utf8 c) s in
    pick-len room c (excerpt (room - len_utf8 c) s) (leb (len_utf8 c) room)
      (λ fits. omega (arith, leb→le _ _ fits))

chars-append : (s t : String) → chars (s +++ t) ≡ chars s ++ chars t
chars-append String.[] t = ap chars (nil-append t)
chars-append (String.◌∷◌ c s) t =
    ap chars (cons-append c s t) ∙ ap (λ cs. code c ∷ cs) (chars-append s t)

any-append_false :
    (p : ℕ → Bool) (xs ys : List ℕ) → any p xs ≡ false → any p ys ≡ false → any p (xs ++ ys) ≡ false
any-append_false p [] ys h k = k
any-append_false p (x ∷ xs) ys h k = ground (arith, any-append_false p xs ys)

excerpt-chars :
    (room : ℕ) (s : String)
    → any bad_char (chars s) ≡ false
    → any bad_char (chars (excerpt room s)) ≡ false
unfolding excerpt
excerpt-chars room String.[] h = refl
excerpt-chars room (String.◌∷◌ c s) h = elim (Bool-cases (leb (len_utf8 c) room)) [
  | inl fits ↦ rw fits (ground (arith, excerpt-chars (room - len_utf8 c) s))
  | inr large ↦ rw large refl
]

suffix-len : (prompt : String) → len (suffix prompt) ≤ 43
unfolding suffix
suffix-len prompt = elim (Bool-cases (ltb (len (excerpt excerpt_room prompt)) (len prompt))) [
  | inl cut ↦ rw cut (omega arith)
  | inr whole ↦ rw whole (omega arith)
]

suffix-chars : (prompt : String) → any bad_char (chars (suffix prompt)) ≡ false
unfolding suffix
suffix-chars prompt = elim (Bool-cases (ltb (len (excerpt excerpt_room prompt)) (len prompt))) [
  | inl cut ↦ rw cut refl
  | inr whole ↦ rw whole refl
]

abbrev lead : String
lead = "Requested direction: "

led_good :
    (t : String) → len t ≤ 1843 → any bad_char (chars t) ≡ false → bad_field (lead +++ t) ≡ false
unfolding bad_field
led_good t short h =
    rw (chars-append lead t)
      (ground (arith, len-append lead t, any-append_false bad_char (chars lead) (chars t) refl h))

good_destination :
    (prompt : String)
    → bad_prompt prompt ≡ false
    → bad_field (entry_brief prompt).destination ≡ false
unfolding entry_brief bad_prompt
good_destination prompt h =
    let body = excerpt excerpt_room prompt in
    led_good (body +++ suffix prompt)
      (omega (
        arith,
        len-append body (suffix prompt),
        excerpt-len excerpt_room prompt,
        suffix-len prompt,
      ))
      (rw (chars-append body (suffix prompt)) (
        any-append_false bad_char (chars body) (chars (suffix prompt))
          (excerpt-chars excerpt_room prompt (ground arith)) (suffix-chars prompt)))

pub entry_brief-valid :
    (prompt : String) → bad_prompt prompt ≡ false → validate_brief (entry_brief prompt) ≡ ok tt
unfolding validate_brief
entry_brief-valid prompt h = rw (good_destination prompt h) (unfold entry_brief bad_field in refl)
