-- ===== src/Session/Turn/Lists.antt =====
-- The messages and the tool rounds of a conversation of alfredo-tui/src/model.rs, and their sizes.
use alfredo.Base.{
  ℕ, suc, ◌+◌, ◌*◌, ◌≤◌, Bool, false, not, ◌&&◌, ◌≡◌, refl, ap, List, [], ◌∷◌, ◌++◌, arith, ltb,
  ◌==◌, Bool-cases, inl, inr, is_empty, length,
}
use alfredo.Session.{Chars, user, assistant, Message, ToolStep, total_len, content_len}
use alfredo.Session.Utf8.{byte_len, byte_len-append}
use alfredo.Session.Tools.{
  Encoder, last_round, add_round, remove_rounds, step_bytes, rounds_bytes, tool_bytes,
}
use alfredo.Session.Turn.{drop_last, push_text}

-- User and assistant take turns.
unfoldable pub Turns : List Message → Type 0
Turns [] = Unit {0}
Turns (m ∷ []) = ⊥
Turns (m ∷ n ∷ ms) = (m.role ≡ user) × (n.role ≡ assistant) × Turns ms

pub Turns-append :
    (ms : List Message) (m n : Message)
    → m.role ≡ user
    → n.role ≡ assistant
    → Turns ms
    → Turns ((ms ++ m ∷ []) ++ n ∷ [])
unfolding Turns
Turns-append [] m n asks answers h = (asks, answers, tt)
Turns-append (a ∷ []) m n asks answers h = absurd h
Turns-append (a ∷ b ∷ ms) m n asks answers (h0, h1, h) =
    (h0, h1, Turns-append ms m n asks answers h)

pub Turns-even : (ms : List Message) → Turns ms → (k : ℕ) × (length ms ≡ 2 * k)
unfolding Turns
Turns-even [] h = (0, refl)
Turns-even (m ∷ []) h = absurd h
Turns-even (m ∷ n ∷ ms) (h0, h1, h) =
    let (k, even) = Turns-even ms h in (k + 1, omega (arith, even))

-- A conversation that has begun has a turn.
pub Turns-begun :
    (ms : List Message) → Turns ms → is_empty ms ≡ false → (k : ℕ) × (length ms ≡ 2 * k + 2)
unfolding Turns
Turns-begun [] turns h = cc
Turns-begun (m ∷ []) turns h = absurd turns
Turns-begun (m ∷ n ∷ ms) turns h = let (k, even) = Turns-even ms turns.2 in (k, omega (arith, even))

-- The last message of a conversation that has begun is the assistant's.
module _ (n : Message) (answers : n.role ≡ assistant) where
  pub Turns-retry :
      (ms : List Message) → is_empty ms ≡ false → Turns ms → Turns (drop_last ms ++ n ∷ [])
  unfolding Turns drop_last
  Turns-retry [] full h = cc
  Turns-retry (a ∷ []) full h = absurd h
  Turns-retry (a ∷ b ∷ []) full (h0, h1, h) = (h0, answers, tt)
  Turns-retry (a ∷ b ∷ c ∷ ms) full (h0, h1, h) = (h0, h1, Turns-retry (c ∷ ms) refl h)

pub Turns-push_text : (text : Chars) (ms : List Message) → Turns ms → Turns (push_text text ms)
unfolding Turns push_text
Turns-push_text text [] h = tt
Turns-push_text text (a ∷ []) h = absurd h
Turns-push_text text (a ∷ b ∷ []) (h0, h1, h) = (h0, h1, tt)
Turns-push_text text (a ∷ b ∷ c ∷ ms) (h0, h1, h) = (h0, h1, Turns-push_text text (c ∷ ms) h)

pub length-push_text : (text : Chars) (ms : List Message) → length (push_text text ms) ≡ length ms
unfolding push_text
length-push_text text [] = refl
length-push_text text (m ∷ []) = refl
length-push_text text (m ∷ n ∷ ms) = ap suc (length-push_text text (n ∷ ms))

pub length-drop_last :
    (ms : List Message) → is_empty ms ≡ false → length (drop_last ms) + 1 ≡ length ms
unfolding drop_last
length-drop_last [] full = cc
length-drop_last (m ∷ []) full = refl
length-drop_last (m ∷ n ∷ ms) full = omega (arith, length-drop_last (n ∷ ms) refl)

pub content_len-append :
    (ms ns : List Message) → content_len (ms ++ ns) ≡ content_len ms + content_len ns
content_len-append [] ns = omega arith
content_len-append (m ∷ ms) ns = omega (arith, content_len-append ms ns)

pub content_len-push_text :
    (text : Chars) (ms : List Message)
    → content_len (push_text text ms) ≤ content_len ms + byte_len text
unfolding push_text
content_len-push_text text [] = omega arith
content_len-push_text text (m ∷ []) = omega (arith, byte_len-append m.content text)
content_len-push_text text (m ∷ n ∷ ms) = omega (arith, content_len-push_text text (n ∷ ms))

pub content_len-drop_last : (ms : List Message) → content_len (drop_last ms) ≤ content_len ms
unfolding drop_last
content_len-drop_last [] = omega arith
content_len-drop_last (m ∷ []) = omega arith
content_len-drop_last (m ∷ n ∷ ms) = omega (arith, content_len-drop_last (n ∷ ms))

pub total_len-append : (ts us : List Chars) → total_len (ts ++ us) ≡ total_len ts + total_len us
total_len-append [] us = omega arith
total_len-append (t ∷ ts) us = omega (arith, total_len-append ts us)

module _ (e : Encoder) where
  pub rounds_bytes-append :
      (rs qs : List ToolStep) → rounds_bytes e (rs ++ qs) ≡ rounds_bytes e rs + rounds_bytes e qs
  unfolding rounds_bytes
  rounds_bytes-append [] qs = omega arith
  rounds_bytes-append (r ∷ rs) qs = omega (arith, rounds_bytes-append rs qs)

  pub last_round-le :
      (new_round : Bool) (step : ToolStep) (rs : List ToolStep)
      → rounds_bytes e (last_round new_round step rs) ≤ rounds_bytes e rs + step_bytes e step
  unfolding last_round rounds_bytes step_bytes
  last_round-le new_round step [] = omega arith
  last_round-le new_round step (r ∷ []) =
      elim (Bool-cases (not new_round && ltb (length r.calls) 64)) [
        | inl joins ↦
            rw joins
              (omega (arith, e.joined r.calls step.calls, total_len-append r.results step.results))
        | inr fresh ↦ rw fresh (omega arith)
      ]
  last_round-le new_round step (r ∷ q ∷ rs) = omega (arith, last_round-le new_round step (q ∷ rs))

  -- The bytes that a change of the rounds of one reply adds.
  pub add_round-le :
      (index n : ℕ) (f : List ToolStep → List ToolStep) (rounds : List (ℕ × List ToolStep))
      → ((rs : List ToolStep) → rounds_bytes e (f rs) ≤ rounds_bytes e rs + n)
      → tool_bytes e (add_round index f rounds) ≤ tool_bytes e rounds + n
  unfolding add_round tool_bytes rounds_bytes
  add_round-le index n f [] adds = omega (arith, adds [])
  add_round-le index n f ((i, rs) ∷ rest) adds = elim (Bool-cases (i == index)) [
    | inl here ↦ rw here (omega (arith, adds rs))
    | inr other ↦ rw other (omega (arith, add_round-le index n f rest adds))
  ]

  pub remove_rounds-le :
      (index : ℕ) (rounds : List (ℕ × List ToolStep))
      → tool_bytes e (remove_rounds index rounds) ≤ tool_bytes e rounds
  unfolding remove_rounds tool_bytes
  remove_rounds-le index [] = omega arith
  remove_rounds-le index ((i, rs) ∷ rest) = elim (Bool-cases (i == index)) [
    | inl here ↦ rw here (omega (arith, remove_rounds-le index rest))
    | inr other ↦ rw other (omega (arith, remove_rounds-le index rest))
  ]
