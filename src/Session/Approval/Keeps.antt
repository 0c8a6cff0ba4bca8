-- ===== src/Session/Approval/Keeps.antt =====
-- What a session of alfredo-tui/src/model.rs keeps of the events while a card waits.
use mathlib.Core.Bool.{false≢true}
use alfredo.Base.{
  ℕ, ◌+◌, ◌-◌, ◌≤◌, Bool, true, false, not, ◌||◌, ◌≡◌, refl, ap, subst, List, [], ◌∷◌, Option, none,
  some, arith, leb, leb→le, ◌==◌, if◌then◌else◌,
}
use alfredo.Chat.{Card}
use alfredo.Session.{Session, is_active}
use alfredo.Session.Approval.{
  arm, Decision, made_visible, approval_visible, set_drawn, await_approval, note_key, is_quiet,
  decision, closed, answer_approval,
}
use alfredo.Session.Approval.Events.{
  Event, shown, drawn, keyed, edited, step, run, IsHidden, OnScreen, LastDrawWhole, Quiet,
}

-- The card, and since when it is on the screen.
unfoldable pub Kept : List Event → Card → Option (Card × Option ℕ) → Type 0
Kept es card none = Unit {0}
Kept es card (some (c, none)) = c ≡ card
Kept es card (some (c, some start)) = (c ≡ card) × OnScreen es start

stays :
    (es : List Event) (e : Event) (card : Card) (a : Option (Card × Option ℕ))
    → (IsHidden e → ⊥)
    → Kept es card a
    → Kept (e ∷ es) card a
unfolding Kept
stays es e card none here h = tt
stays es e card (some (c, none)) here h = h
stays es e card (some (c, some start)) here h = (
  h.0,
  record {
    later = e ∷ h.1.later;
    earlier = h.1.earlier;
    split = ap (λ xs. e ∷ xs) h.1.split;
    stayed = (here, h.1.stayed);
  },
)

shown-Kept :
    (es : List Event) (visible : Bool) (now : ℕ) (card : Card) (a : Option (Card × Option ℕ))
    → Kept es card a
    → Kept (shown visible now ∷ es) card (made_visible visible now a)
unfolding Kept
shown-Kept es true now card none h = tt
shown-Kept es false now card none h = tt
shown-Kept es true now card (some (c, none)) h =
    (h, record { later = []; earlier = es; split = refl; stayed = tt })
shown-Kept es true now card (some (c, some start)) h =
    stays es (shown true now) card (some (c, some start)) (λ e. e) h
shown-Kept es false now card (some (c, none)) h = h
shown-Kept es false now card (some (c, some start)) h = h.0

closed-Kept :
    (es : List Event) (key now : ℕ) (card : Card) (d : Option Decision) (s : Session)
    → Kept es card s.approval
    → Kept (keyed key now ∷ es) card (closed d s).approval
unfolding Kept
closed-Kept es key now card none s h = stays es (keyed key now) card s.approval (λ e. e) h
closed-Kept es key now card (some d) s h = tt

pub Kept-seen :
    (es : List Event) (card c : Card) (start : ℕ) (a : Option (Card × Option ℕ))
    → Kept es card a
    → a ≡ some (c, some start)
    → (c ≡ card) × OnScreen es start
unfolding Kept
Kept-seen es card c start a h e = subst (Kept es card) e h

-- What a session keeps of the events since the card came.
pub record Keeps (card : Card) (es : List Event) (s : Session) : Type 0 where
  pub card_kept : Kept es card s.approval
  pub whole_kept : s.approval_whole ≡ true → LastDrawWhole es
  pub last_key : (now : ℕ) → is_quiet now s.key_times.1 ≡ true → Quiet es now

quiet_le : (now previous : ℕ) → is_quiet now (some previous) ≡ true → previous + arm ≤ now
quiet_le now previous h =
    let h2 : leb arm (now - previous) ≡ true = h in omega (arith, leb→le arm (now - previous) h2)

module _ (columns : ℕ → ℕ) (card : Card) where
  closed-Keeps :
      (es : List Event) (key now : ℕ) (d : Option Decision) (s : Session)
      → Keeps card es s
      → Keeps card (keyed key now ∷ es) (closed d (note_key now s))
  unfolding note_key LastDrawWhole Quiet
  closed-Keeps es key now none s v = record {
    card_kept = closed-Kept es key now card none (note_key now s) v.card_kept;
    whole_kept = v.whole_kept;
    last_key = λ later quiet. quiet_le later now quiet;
  }
  closed-Keeps es key now (some d) s v = record {
    card_kept = closed-Kept es key now card (some d) (note_key now s) v.card_kept;
    whole_kept = v.whole_kept;
    last_key = λ later quiet. quiet_le later now quiet;
  }

  step-Keeps :
      (es : List Event) (e : Event) (s : Session)
      → Keeps card es s
      → Keeps card (e ∷ es) (step columns e s)
  unfolding step approval_visible set_drawn answer_approval LastDrawWhole Quiet
  step-Keeps es (shown visible now) s v = record {
    card_kept = shown-Kept es visible now card s.approval v.card_kept;
    whole_kept = v.whole_kept;
    last_key = v.last_key;
  }
  step-Keeps es (drawn header whole) s v = record {
    card_kept = stays es (drawn header whole) card s.approval (λ e. e) v.card_kept;
    whole_kept = λ h. h;
    last_key = v.last_key;
  }
  step-Keeps es (keyed key now) s v =
      closed-Keeps es key now (decision columns key now (note_key now s)) s v
  step-Keeps es (edited draft cursor) s v = record {
    card_kept = stays es (edited draft cursor) card s.approval (λ e. e) v.card_kept;
    whole_kept = v.whole_kept;
    last_key = v.last_key;
  }

  pub run-Keeps :
      (es : List Event) (s : Session) → Keeps card [] s → Keeps card es (run columns es s)
  unfolding run
  run-Keeps [] s v = v
  run-Keeps (e ∷ es) s v = step-Keeps es e (run columns es s) (run-Keeps es s v)

-- The session with a new card.
abbrev awaiting : Card → Session → Session
awaiting card s = record s {
  approval_header_drawn = false;
  approval_whole = false;
  approval = some (card, none);
}

awaiting-Keeps :
    (stale : Bool) (card : Card) (s : Session)
    → (let r : Session × Bool = if stale then (s, false) else (awaiting card s, true) in r.1 ≡ true)
    → (let r : Session × Bool = if stale then (s, false) else (awaiting card s, true) in
        Keeps card [] r.0)
unfolding Kept Quiet
awaiting-Keeps true card s h = absurd (false≢true h)
awaiting-Keeps false card s h = record {
  card_kept = refl;
  whole_kept = λ e. absurd (false≢true e);
  last_key = λ now quiet. tt;
}

pub awaited-Keeps :
    (attempt : ℕ) (card : Card) (s : Session)
    → (await_approval attempt card s).1 ≡ true
    → Keeps card [] (await_approval attempt card s).0
unfolding await_approval
awaited-Keeps attempt card s =
    awaiting-Keeps (not (s.attempt == attempt) || not (is_active s.status)) card s
