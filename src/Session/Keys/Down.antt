-- ===== src/Session/Keys/Down.antt =====
-- Down in the prompt of alfredo-tui/src/model.rs, back to the draft that was set aside.
use alfredo.Base.{
  ℕ, zero, suc, ◌+◌, ◌<◌, true, false, ◌≡◌, refl, ◌∙◌, ap, subst, List, [], ◌∷◌, Option, none, some,
  some-eq, arith, ltb, length, get_elem?,
}
use alfredo.Session.{Chars, Session}
use alfredo.Session.Utf8.{Segmenter}
use alfredo.Session.Draft.{to_end}
use alfredo.Session.History.{show_prompt, history_previous, history_next, next_from, back_to_unsent}

unfoldable pub ups : Segmenter → ℕ → Session → Option Session
ups g zero s = some s
ups g (suc n) s = elim (history_previous g s) [ none ↦ none | some t ↦ ups g n t ]

unfoldable pub downs : ℕ → Session → Option Session
downs zero s = some s
downs (suc n) s = elim (history_next s) [ none ↦ none | some t ↦ downs n t ]

pub element {ℓ} :
    {A : Type ℓ} (xs : List A) (i : ℕ) → i < length xs → (x : A) × (get_elem? xs i ≡ some x)
element [] i h = absurd (omega arith)
element (x ∷ xs) zero h = (x, refl)
element (x ∷ xs) (suc i) h = element xs i (omega arith)

show_total :
    (s : Session) (i : ℕ) → i < length s.history → (u : Session) × (show_prompt s i ≡ some u)
unfolding show_prompt
show_total s i h =
    let (text, found) = element s.history i h in
    (to_end (record s { history_index = some i; draft = text }), rw (found, show_prompt) refl)

module _ (draft : Chars) (at : ℕ) where
  -- The draft is set aside while prompt `i` is shown.
  pub record Browsing (s : Session) (i : ℕ) : Type 0 where
    pub index : s.history_index ≡ some i
    pub below : i < length s.history
    pub aside : s.unsent ≡ some (draft, at)
    pub claimed : s.rejected ≡ none

  pub opened :
      (s t : Session) (i : ℕ) (found : Option Chars)
      → elim found as (λ x. Option Session) [
        | none ↦ none
        | some text ↦ some (to_end (record s { history_index = some i; draft = text }))
      ]
        ≡ some t
      → s.unsent ≡ some (draft, at)
      → i < length s.history
      → (t.history ≡ s.history) × Browsing t i
  unfolding to_end
  opened s t i none h aside below = cc
  opened s t i (some text) h aside below =
      subst (λ q. (q.history ≡ s.history) × Browsing q i) (some-eq h)
        (refl, record { index = refl; below = below; aside = aside; claimed = refl })

  pub shown_parts :
      (s t : Session) (i : ℕ)
      → show_prompt s i ≡ some t
      → s.unsent ≡ some (draft, at)
      → i < length s.history
      → (t.history ≡ s.history) × Browsing t i
  unfolding show_prompt
  shown_parts s t i h aside below = opened s t i (get_elem? s.history i) h aside below

  -- The session that Down ends in.
  abbrev pub Returned : Session → Type 0
  Returned u = (u.draft ≡ draft) × (u.cursor ≡ at) × (u.history_index ≡ none)

  back_Returned :
      (s : Session) (o : Option (Chars × ℕ)) → o ≡ some (draft, at) → Returned (back_to_unsent s o)
  unfolding back_to_unsent
  back_Returned s none h = cc
  back_Returned s (some (d, c)) h =
      let e : (d, c) ≡ (draft, at) = some-eq h in (ap (λ q. q.0) e, ap (λ q. q.1) e, refl)

  down_last :
      (s : Session) (i : ℕ)
      → Browsing s i
      → i + 1 ≡ length s.history
      → (u : Session) × (history_next s ≡ some u) × Returned u
  unfolding history_next next_from
  down_last s i b h =
      let last : ltb (i + 1) (length s.history) ≡ false = ground arith in
      (
        back_to_unsent s s.unsent,
        ap (next_from s) b.index ∙ rw last refl,
        back_Returned s s.unsent b.aside,
      )

  down_next :
      (s : Session) (i : ℕ)
      → Browsing s i
      → i + 1 < length s.history
      → (u : Session) × (history_next s ≡ some u) × (u.history ≡ s.history) × Browsing u (i + 1)
  unfolding history_next next_from
  down_next s i b h =
      let later : ltb (i + 1) (length s.history) ≡ true = ground arith in
      let (u, shown) = show_total s (i + 1) h in
      let (same, next) = shown_parts s u (i + 1) shown b.aside h in
      (u, ap (next_from s) b.index ∙ rw later shown, same, next)

  pub down_returns :
      (n : ℕ) (s : Session) (i : ℕ)
      → Browsing s i
      → i + suc n ≡ length s.history
      → (u : Session) × (downs (suc n) s ≡ some u) × Returned u
  unfolding downs
  down_returns zero s i b h =
      let (u, next, done) = down_last s i b (omega arith) in (u, rw (next, downs) refl, done)
  down_returns (suc n) s i b h =
      let (t, next, same, b') = down_next s i b (omega arith) in
      let (u, rest, done) = down_returns n t (i + 1) b' (omega (arith, ap length same)) in
      (u, rw (next, downs) rest, done)
