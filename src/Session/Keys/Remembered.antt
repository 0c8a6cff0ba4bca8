-- ===== src/Session/Keys/Remembered.antt =====
-- The remembered prompts of alfredo-tui/src/model.rs, and the prompt that is shown of them.
use alfredo.Base.{
  ℕ, zero, suc, ◌-◌, ◌<◌, true, false, ◌&&◌, ◌||◌, ◌≡◌, refl, List, [], ◌∷◌, ◌++◌, Option, none,
  some, arith, ltb, Bool-cases, inl, inr, is_empty, all, length, get_elem?, All, All-append,
}
use alfredo.Session.{Chars, Session, max_draft, max_text, max_history, total_len}
use alfredo.Session.Utf8.{byte_len, IsBoundary-end}
use alfredo.Session.Draft.{to_end}
use alfredo.Session.Keys.{good, IsPrompt, InRange, IsUnsent, IsSound}
use alfredo.Session.History.{
  shrink, is_last, remember_in, prompts, remember_all, restore_history, show_prompt, is_shown,
  first_index,
}

found_in {ℓ κ} :
    {A : Type ℓ} (P : A → Type κ) (xs : List A) (i : ℕ)
    → i < length xs
    → All P xs
    → (x : A) × (get_elem? xs i ≡ some x) × P x
found_in P [] i h all = absurd (omega arith)
found_in P (x ∷ xs) zero h all = (x, refl, all.0)
found_in P (x ∷ xs) (suc i) h all = found_in P xs i (omega arith) all.1

shrink-All : (P : Chars → Type 0) (ts : List Chars) → All P ts → All P (shrink ts)
unfolding shrink
shrink-All P [] h = tt
shrink-All P (t ∷ ts) h =
    elim (Bool-cases (ltb max_history (length (t ∷ ts)) || ltb max_text (total_len (t ∷ ts)))) [
      | inl full ↦ rw full (shrink-All P ts h.1)
      | inr room ↦ rw room h
    ]

-- A text that is remembered is within the limit of the prompt.
pub remember-IsPrompt :
    (ts : List Chars) (t : Chars)
    → all good t ≡ true
    → All IsPrompt ts
    → All IsPrompt (remember_in ts t)
unfolding remember_in
remember-IsPrompt ts t clean h =
    elim (Bool-cases (is_empty t || ltb max_draft (byte_len t) || is_last t ts)) [
      | inl skip ↦ rw skip h
      | inr fresh ↦ rw fresh (
          shrink-All IsPrompt (ts ++ t ∷ [])
            (All-append IsPrompt ts (t ∷ []) h ((ground arith, clean), tt)))
    ]

remember_all-IsPrompt :
    (ts new : List Chars)
    → All (λ t. all good t ≡ true) new
    → All IsPrompt ts
    → All IsPrompt (remember_all ts new)
unfolding remember_all
remember_all-IsPrompt ts [] clean h = h
remember_all-IsPrompt ts (t ∷ new) clean h =
    remember_all-IsPrompt (remember_in ts t) new clean.1 (remember-IsPrompt ts t clean.0 h)

-- A prompt of the history is shown, and the session stays sound.
pub shown-IsSound :
    (s : Session) (i : ℕ)
    → IsSound s
    → i < length s.history
    → (t : Session) × (show_prompt s i ≡ some t) × IsSound t
unfolding show_prompt to_end
shown-IsSound s i v h =
    let (text, found, prompt) = found_in IsPrompt s.history i h v.remembered in
    (
      to_end (record s { history_index = some i; draft = text }),
      rw (found, show_prompt) refl,
      record {
        prompt = prompt;
        placed = IsBoundary-end text;
        remembered = v.remembered;
        in_range = h;
        unsent = v.unsent;
        sent = v.sent;
      },
    )

no_index :
    (index : Option ℕ) (ts : List Chars) (n : ℕ)
    → is_empty ts ≡ true
    → InRange index (length ts)
    → InRange index n
no_index none ts n h r = tt
no_index (some i) [] n h r = absurd (omega arith)
no_index (some i) (t ∷ ts) n h r = cc

pub filled-IsSound :
    (s : Session) → is_empty s.history ≡ true → IsSound s → IsSound (restore_history s)
unfolding restore_history
filled-IsSound s h v = record {
  prompt = v.prompt;
  placed = v.placed;
  remembered = remember_all-IsPrompt s.history (prompts s.messages) v.sent v.remembered;
  in_range = no_index s.history_index s.history _ h v.in_range;
  unsent = v.unsent;
  sent = v.sent;
}

pub released : (s : Session) → IsSound s → IsSound (record s { rejected = none })
released s v = record {
  prompt = v.prompt;
  placed = v.placed;
  remembered = v.remembered;
  in_range = v.in_range;
  unsent = v.unsent;
  sent = v.sent;
}

-- A session whose index may change within the history.
pub reindexed :
    (s : Session) (unsent : Option (Chars × ℕ))
    → IsUnsent unsent
    → IsSound s
    → IsSound (record s { unsent = unsent })
reindexed s unsent u v = record {
  prompt = v.prompt;
  placed = v.placed;
  remembered = v.remembered;
  in_range = v.in_range;
  unsent = u;
  sent = v.sent;
}

pub first_index-lt :
    (history : List Chars) (draft : Chars)
    → is_empty history ≡ false
    → first_index history (length history - 1) draft < length history
unfolding first_index
first_index-lt [] draft h = cc
first_index-lt (t ∷ ts) draft h =
    elim (Bool-cases
      (ltb 0 (suc (length ts) - 1) && is_shown (t ∷ ts) (suc (length ts) - 1) draft)) [
        | inl same ↦ rw same (omega arith)
        | inr other ↦ rw other (omega arith)
      ]
