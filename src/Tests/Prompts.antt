-- ===== src/Tests/Prompts.antt =====
-- A session and its prompt, alfredo-tui/src/model.rs, and witnesses. The clusters of the tests are the
-- characters.
use alfredo.Base.{ℕ, false, ◌≡◌, refl, ap, List, [], ◌∷◌, none, some, arith}
use alfredo.Text.{chars, codes_eq, trim, trim_start, trim_end}
use alfredo.Session.{Session, new}
use alfredo.Session.Utf8.{width, byte_len, before, concat, Segmenter, bounds}
use alfredo.Session.Draft.{last_upto, replace_pending, cursor_of, to_end}
use alfredo.Session.History.{prompts, show_prompt, is_shown, first_index, recall, history_previous}
use alfredo.Session.Keys.{IsSound, char, backspace_key}
use alfredo.Session.Keys.Recall.{Move, edit_key, up, down, moves, moves-IsSound}
use alfredo.Session.Keys.Return.{up_down_returns}
use alfredo.Session.Keys.Down.{ups, downs}

unfoldable pub each : List ℕ → List (List ℕ)
each [] = []
each (c ∷ s) = (c ∷ []) ∷ each s

pub concat-each : (s : List ℕ) → concat (each s) ≡ s
unfolding each concat
concat-each [] = refl
concat-each (c ∷ s) = ap (λ t. c ∷ t) (concat-each s)

abbrev pub characters : Segmenter
characters = record { clusters = each; clusters_concat = concat-each }

-- "ab" is typed, with the cursor between; "hi" and "yo" were sent before.
abbrev typed : Session
unfolding new
typed = record new { draft = chars "ab"; cursor = 1; history = chars "hi" ∷ chars "yo" ∷ [] }

typed-IsSound : IsSound typed
unfolding new byte_len width before prompts
typed-IsSound = record {
  prompt = (omega arith, refl);
  placed = refl;
  remembered = ((omega arith, refl), ((omega arith, refl), tt));
  in_range = tt;
  unsent = tt;
  sent = tt;
}

abbrev keys : List Move
keys = edit_key (char b'x') ∷ up ∷ up ∷ edit_key backspace_key ∷ down ∷ down ∷ down ∷ []

moves-IsSound_example : (t : Session) × (moves characters typed keys ≡ some t) × IsSound t
moves-IsSound_example = moves-IsSound characters typed keys typed-IsSound

abbrev shown : Session
shown = record typed {
  draft = chars "hi";
  cursor = 2;
  history_index = some 0;
  unsent = some (chars "ab", 1);
}

two_ups : ups characters 2 typed ≡ some shown
unfolding new ups history_previous recall show_prompt is_shown first_index replace_pending cursor_of
    last_upto bounds each byte_len width to_end codes_eq trim trim_start trim_end
two_ups = refl

no_claim : replace_pending typed ≡ false
unfolding new replace_pending
no_claim = refl

up_down_returns_example :
    (u : Session) × (downs 2 shown ≡ some u)
    × (u.draft ≡ chars "ab")
    × (u.cursor ≡ cursor_of characters typed)
    × (u.history_index ≡ none)
unfolding new
up_down_returns_example = up_down_returns characters 2 typed shown 0 refl no_claim two_ups refl
