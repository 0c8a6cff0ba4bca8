-- ===== src/Session/Turn/Turned.antt =====
-- What the turns of a conversation of alfredo-tui/src/model.rs keep.
use alfredo.Base.{
  ℕ, ◌+◌, ◌-◌, ◌*◌, ◌%◌, ◌≤◌, Bool, true, false, ◌&&◌, ◌≡◌, refl, sym, ◌∙◌, subst, List, [], ◌∷◌,
  ◌++◌, Option, none, some, arith, leb, if◌then◌else◌, is_empty, length, length-append, all,
}
use alfredo.Session.{
  Chars, user, Message, Status, connecting, streaming, ToolStep, Session, max_text, max_draft,
  max_messages, is_blank, content_len,
}
use alfredo.Session.Utf8
use alfredo.Session.Draft.{to_end}
use alfredo.Session.Tools.{Encoder, propose, remove_rounds, tool_bytes}
use alfredo.Session.Queue.{joined_draft, restore_queue}
use alfredo.Session.Saved.{is_abandoned, increasing, reason_len, is_ready}
use alfredo.Session.Turn.{drop_last, push_text, reply}
use alfredo.Session.Turn.Lists.{
  Turns, Turns-begun, Turns-append, Turns-retry, Turns-push_text, length-push_text,
  length-drop_last, content_len-append, content_len-push_text, content_len-drop_last,
  remove_rounds-le,
}

-- The part of a session that its turns change.
pub record Turn : Type 0 where
  pub messages : List Message
  pub tool_steps : List (ℕ × List ToolStep)
  pub interrupted : List ℕ
  pub status : Status
  pub attempt : ℕ

abbrev pub turn : Session → Turn
turn s = record {
  messages = s.messages;
  tool_steps = s.tool_steps;
  interrupted = s.interrupted;
  status = s.status;
  attempt = s.attempt;
}

pub record IsTurned (e : Encoder) (t : Turn) : Type 0 where
  pub turns : Turns t.messages
  pub small : content_len t.messages + tool_bytes e t.tool_steps ≤ max_text
  pub few : length t.messages ≤ max_messages
  pub counted : length t.messages ≤ 2 * t.attempt
  pub climbs : increasing t.interrupted ≡ true
  pub abandoned : all (is_abandoned (length t.messages)) t.interrupted ≡ true
  pub begun : is_empty t.messages ≡ is_ready t.status
  pub reason : reason_len t.status ≤ max_text

pub same_if :
    (b : Bool) (s t : Session) (u : Turn) → turn s ≡ u → turn t ≡ u → turn (if b then s else t) ≡ u
same_if true s t u here there = here
same_if false s t u here there = there

pub turn-restore_queue : (s : Session) → turn (restore_queue s) ≡ turn s
unfolding restore_queue to_end
turn-restore_queue s =
    same_if (is_empty s.queue) _ _ (turn s) refl
      (same_if (leb (Utf8.byte_len (joined_draft s)) max_draft) _ _ (turn s) refl refl)

pub turn-propose : (s : Session) (o : Option Chars) → turn (propose s o) ≡ turn s
unfolding propose to_end
turn-propose s none = refl
turn-propose s (some command) =
    same_if (is_blank s.draft && elim s.history_index [ none ↦ true | some i ↦ false ]) _ _ (turn s)
      refl refl

pub all_mono :
    (n m : ℕ) (is : List ℕ)
    → n ≤ m
    → all (is_abandoned n) is ≡ true
    → all (is_abandoned m) is ≡ true
all_mono n m [] h given = refl
all_mono n m (i ∷ is) h given = ground (arith, all_mono n m is h)

all-snoc :
    (p : ℕ → Bool) (is : List ℕ) (k : ℕ)
    → all p is ≡ true
    → p k ≡ true
    → all p (is ++ k ∷ []) ≡ true
all-snoc p [] k given holds = ground (arith, holds)
all-snoc p (i ∷ is) k given holds = ground (arith, all-snoc p is k)

-- An index that is abandoned now comes behind the earlier ones.
increasing-snoc :
    (n k : ℕ) (is : List ℕ)
    → n ≤ k + 2
    → increasing is ≡ true
    → all (is_abandoned n) is ≡ true
    → increasing (is ++ k ∷ []) ≡ true
unfolding increasing
increasing-snoc n k [] h up given = refl
increasing-snoc n k (i ∷ []) h up given = ground arith
increasing-snoc n k (i ∷ j ∷ is) h up given = ground (arith, increasing-snoc n k (j ∷ is) h)

left_behind : (n k : ℕ) → n ≡ 2 * k + 2 → is_abandoned (n + 2) (n - 2) ≡ true
left_behind n k two = let even : (n - 2) % 2 ≡ 0 = omega (arith, two) in ground (arith, even, two)

is_empty-snoc : (ms : List Message) (m : Message) → is_empty (ms ++ m ∷ []) ≡ false
is_empty-snoc [] m = refl
is_empty-snoc (n ∷ ms) m = refl

is_empty-push_text : (text : Chars) (ms : List Message) → is_empty (push_text text ms) ≡ is_empty ms
unfolding push_text
is_empty-push_text text [] = refl
is_empty-push_text text (m ∷ []) = refl
is_empty-push_text text (m ∷ n ∷ ms) = refl

module _ (e : Encoder) (t : Turn) (v : IsTurned e t) where
  pub status-IsTurned :
      (st : Status)
      → is_ready st ≡ is_ready t.status
      → reason_len st ≤ max_text
      → IsTurned e (record t { status = st })
  status-IsTurned st same short = record {
    turns = v.turns;
    small = v.small;
    few = v.few;
    counted = v.counted;
    climbs = v.climbs;
    abandoned = v.abandoned;
    begun = v.begun ∙ sym same;
    reason = short;
  }

  pub rounds-IsTurned :
      (rounds : List (ℕ × List ToolStep))
      → content_len t.messages + tool_bytes e rounds ≤ max_text
      → IsTurned e (record t { tool_steps = rounds })
  rounds-IsTurned rounds small = record {
    turns = v.turns;
    small = small;
    few = v.few;
    counted = v.counted;
    climbs = v.climbs;
    abandoned = v.abandoned;
    begun = v.begun;
    reason = v.reason;
  }

  -- A session that is not ready has a turn.
  has_turn : is_ready t.status ≡ false → (k : ℕ) × (length t.messages ≡ 2 * k + 2)
  has_turn h = Turns-begun t.messages v.turns (v.begun ∙ h)

  -- A prompt and an empty reply come behind the turns; an interrupted one may be left behind.
  pub asked-IsTurned :
      (prompt : Chars) (is : List ℕ)
      → content_len t.messages + tool_bytes e t.tool_steps + Utf8.byte_len prompt ≤ max_text
      → length t.messages + 2 ≤ max_messages
      → increasing is ≡ true
      → all (is_abandoned (length t.messages + 2)) is ≡ true
      → IsTurned e (record t {
        messages = (t.messages ++ record { role = user; content = prompt } ∷ []) ++ reply ∷ [];
        interrupted = is;
        status = connecting;
        attempt = t.attempt + 1;
      })
  asked-IsTurned prompt is small few climbs abandoned =
      let asked : Message = record { role = user; content = prompt } in
      let two : length ((t.messages ++ asked ∷ []) ++ reply ∷ []) ≡ length t.messages + 2 = omega (
        arith,
        length-append (t.messages ++ asked ∷ []) (reply ∷ []),
        length-append t.messages (asked ∷ []),
      ) in
      record {
        turns = Turns-append t.messages asked reply refl refl v.turns;
        small =
            unfold Utf8.byte_len in
            omega (
              arith,
              content_len-append (t.messages ++ asked ∷ []) (reply ∷ []),
              content_len-append t.messages (asked ∷ []),
              small,
            );
        few = omega (arith, two, few);
        counted = omega (arith, two, v.counted);
        climbs = climbs;
        abandoned = subst (λ n. all (is_abandoned n) is ≡ true) (sym two) abandoned;
        begun = is_empty-snoc (t.messages ++ asked ∷ []) reply;
        reason = omega arith;
      }

  -- The reply of an interrupted turn gives way to a new one.
  pub retried-IsTurned :
      (index : ℕ)
      → is_ready t.status ≡ false
      → IsTurned e (record t {
        messages = drop_last t.messages ++ reply ∷ [];
        tool_steps = remove_rounds index t.tool_steps;
        status = connecting;
        attempt = t.attempt + 1;
      })
  retried-IsTurned index begun =
      let same : length (drop_last t.messages ++ reply ∷ []) ≡ length t.messages =
        length-append (drop_last t.messages) (reply ∷ [])
        ∙ length-drop_last t.messages (v.begun ∙ begun) in
      record {
        turns = Turns-retry reply refl t.messages (v.begun ∙ begun) v.turns;
        small =
            unfold Utf8.byte_len in
            omega (
              arith,
              content_len-append (drop_last t.messages) (reply ∷ []),
              content_len-drop_last t.messages,
              remove_rounds-le e index t.tool_steps,
              v.small,
            );
        few = omega (arith, same, v.few);
        counted = omega (arith, same, v.counted);
        climbs = v.climbs;
        abandoned = subst (λ n. all (is_abandoned n) t.interrupted ≡ true) (sym same) v.abandoned;
        begun = is_empty-snoc (drop_last t.messages) reply;
        reason = omega arith;
      }

  pub texted-IsTurned :
      (text : Chars)
      → is_ready t.status ≡ false
      → content_len t.messages + tool_bytes e t.tool_steps + Utf8.byte_len text ≤ max_text
      → IsTurned e (record t { messages = push_text text t.messages; status = streaming })
  texted-IsTurned text begun small = record {
    turns = Turns-push_text text t.messages v.turns;
    small = omega (arith, content_len-push_text text t.messages, small);
    few = omega (arith, length-push_text text t.messages, v.few);
    counted = omega (arith, length-push_text text t.messages, v.counted);
    climbs = v.climbs;
    abandoned =
        subst (λ n. all (is_abandoned n) t.interrupted ≡ true)
          (sym (length-push_text text t.messages)) v.abandoned;
    begun = is_empty-push_text text t.messages ∙ v.begun ∙ begun;
    reason = omega arith;
  }

  -- The turn that is left behind is the last one.
  pub abandoned-IsTurned :
      is_ready t.status ≡ false
      → (increasing (t.interrupted ++ (length t.messages - 2) ∷ []) ≡ true)
        × (all
              (is_abandoned (length t.messages + 2))
              (t.interrupted ++ (length t.messages - 2) ∷ [])
            ≡ true)
  abandoned-IsTurned begun =
      let (k, two) = has_turn begun in
      (
        increasing-snoc (length t.messages) (length t.messages - 2) t.interrupted (omega arith)
            v.climbs v.abandoned,
        all-snoc (is_abandoned (length t.messages + 2)) t.interrupted (length t.messages - 2)
            (all_mono (length t.messages) (length t.messages + 2) t.interrupted (omega arith)
              v.abandoned)
            (left_behind (length t.messages) k two),
      )
