-- ===== src/Session/Approval/Events.antt =====
-- What can happen while a card of alfredo-tui/src/model.rs waits, and what it leaves to be seen.
use alfredo.Base.{ℕ, ◌+◌, ◌≤◌, Bool, true, false, ◌≡◌, List, [], ◌∷◌, ◌++◌, All}
use alfredo.Session.{Chars, Session}
use alfredo.Session.Approval.{arm, approval_visible, set_drawn, note_key, answer_approval}

-- What happens while a card waits: the draw tells whether it is on the screen, and whether it is
-- there as a whole; a key is noted and may answer; the draft is edited.
pub data Event : Type 0 where
  shown : Bool → ℕ → Event
  drawn : Bool → Bool → Event
  keyed : ℕ → ℕ → Event
  edited : Chars → ℕ → Event

unfoldable pub step : (ℕ → ℕ) → Event → Session → Session
step columns (shown visible now) s = approval_visible visible now s
step columns (drawn header whole) s = set_drawn header whole s
step columns (keyed key now) s = (answer_approval columns key now (note_key now s)).0
step columns (edited draft cursor) s = record s { draft = draft; cursor = cursor }

-- The last event stands first.
unfoldable pub run : (ℕ → ℕ) → List Event → Session → Session
run columns [] s = s
run columns (e ∷ es) s = step columns e (run columns es s)

abbrev pub IsHidden : Event → Type 0
IsHidden (shown false now) = Unit {0}
IsHidden _ = ⊥

-- The card came to the screen at `start`, and has not left it since.
pub record OnScreen (es : List Event) (start : ℕ) : Type 0 where
  pub later : List Event
  pub earlier : List Event
  pub split : es ≡ later ++ shown true start ∷ earlier
  pub stayed : All (λ e. IsHidden e → ⊥) later

-- The last draw, if any, drew the whole card; there was one.
unfoldable pub LastDrawWhole : List Event → Type 0
LastDrawWhole [] = ⊥
LastDrawWhole (drawn header whole ∷ es) = whole ≡ true
LastDrawWhole (e ∷ es) = LastDrawWhole es

-- The last key came `arm` before `now`, or earlier.
unfoldable pub Quiet : List Event → ℕ → Type 0
Quiet [] now = Unit {0}
Quiet (keyed key at ∷ es) now = at + arm ≤ now
Quiet (e ∷ es) now = Quiet es now
