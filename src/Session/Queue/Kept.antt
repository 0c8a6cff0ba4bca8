-- ===== src/Session/Queue/Kept.antt =====
-- What becomes of the queued messages of alfredo-tui/src/model.rs.
use alfredo.Base.{
  ℕ, ◌+◌, ◌≤◌, true, false, not, ◌||◌, ◌≡◌, ◌⊎◌, inl, inr, refl, sym, ◌∙◌, ap, subst, List, [], ◌∷◌,
  ◌++◌, append_assoc, arith, ltb, leb, leb→le, Bool-cases, is_empty, length, length-append, All,
  All-append, ok, refuse_if, refuse_if-eq-ok, >>-eq-ok, ok-injective,
}
use alfredo.Text.{trim, starts_with}
use alfredo.Chat.Allow.Covers.{codes_eq_iff}
use alfredo.Session.{
  Chars, Session, max_draft, max_text, max_history, max_queued, max_queued_bytes, total_len,
  is_active,
}
use alfredo.Session.Utf8.{byte_len}
use alfredo.Session.Draft.{to_end, clear_draft}
use alfredo.Session.History.{
  remember, remember_submission, shrink, is_last, remember_in, remember_all,
}
use alfredo.Session.Turn.Lists.{total_len-append}
use alfredo.Session.Queue.{joined_draft, restore_queue, queue_draft, has_card}

-- `t` is among the texts.
abbrev pub Among : Chars → List Chars → Type 0
Among t [] = ⊥
Among t (x ∷ xs) = (x ≡ t) ⊎ Among t xs

Among-append : (t : Chars) (xs ys : List Chars) → Among t ys → Among t (xs ++ ys)
Among-append t [] ys h = h
Among-append t (x ∷ xs) ys h = inr (Among-append t xs ys h)

Among-front : (t : Chars) (xs ys : List Chars) → Among t xs → Among t (xs ++ ys)
Among-front t [] ys h = absurd h
Among-front t (x ∷ xs) ys (inl e) = inl e
Among-front t (x ∷ xs) ys (inr m) = inr (Among-front t xs ys m)

-- `t` is among the last texts, `n` of them at most, of `b` bytes at most.
record Late (t : Chars) (n b : ℕ) (ts : List Chars) : Type 0 where
  older : List Chars
  newer : List Chars
  whole : ts ≡ older ++ newer
  among : Among t newer
  few : length newer ≤ n
  small : total_len newer ≤ b

-- Texts that fit are not dropped by `shrink`.
shrink-fits : (ts : List Chars) → length ts ≤ max_history → total_len ts ≤ max_text → shrink ts ≡ ts
unfolding shrink
shrink-fits [] few small = refl
shrink-fits (t ∷ ts) few small =
    let fits : (ltb max_history (length (t ∷ ts)) || ltb max_text (total_len (t ∷ ts))) ≡ false =
      ground arith in
    rw fits refl

shrink-Late :
    (older newer : List Chars)
    → length newer ≤ max_history
    → total_len newer ≤ max_text
    → (left : List Chars) × (shrink (older ++ newer) ≡ left ++ newer)
unfolding shrink
shrink-Late [] newer few small = ([], shrink-fits newer few small)
shrink-Late (t ∷ older) newer few small =
    elim (Bool-cases (
      ltb max_history (length (t ∷ (older ++ newer)))
      || ltb max_text (total_len (t ∷ (older ++ newer))))) [
        | inl full ↦ let (left, same) = shrink-Late older newer few small in (left, rw full same)
        | inr fits ↦ (t ∷ older, rw fits refl)
      ]

is_last-split :
    (t : Chars) (ts : List Chars)
    → is_last t ts ≡ true
    → (older : List Chars) × (ts ≡ older ++ t ∷ [])
unfolding is_last
is_last-split t [] h = cc
is_last-split t (u ∷ []) h = ([], ap (λ x. x ∷ []) ((codes_eq_iff u t).0 h))
is_last-split t (u ∷ v ∷ ts) h =
    let (older, same) = is_last-split t (v ∷ ts) h in (u ∷ older, ap (λ xs. u ∷ xs) same)

-- One more text, after which an earlier one is still there.
remember_in-Late :
    (t u : Chars) (n b : ℕ) (ts : List Chars)
    → n + 1 ≤ max_history
    → b + byte_len u ≤ max_text
    → Late t n b ts
    → Late t (n + 1) (b + byte_len u) (remember_in ts u)
unfolding remember_in
remember_in-Late t u n b ts few small h =
    elim (Bool-cases (is_empty u || ltb max_draft (byte_len u) || is_last u ts)) [
      | inl skip ↦ rw skip (record {
        older = h.older;
        newer = h.newer;
        whole = h.whole;
        among = h.among;
        few = omega (arith, h.few);
        small = omega (arith, h.small);
      })
      | inr fresh ↦
          let bytes : total_len (h.newer ++ u ∷ []) ≤ b + byte_len u =
            omega (arith, total_len-append h.newer (u ∷ []), h.small) in
          let count : length (h.newer ++ u ∷ []) ≤ n + 1 =
            omega (arith, length-append h.newer (u ∷ []), h.few) in
          let (left, same) =
            shrink-Late h.older (h.newer ++ u ∷ []) (omega (arith, count)) (omega (arith, bytes)) in
          rw fresh (record {
            older = left;
            newer = h.newer ++ u ∷ [];
            whole =
                ap (λ xs. shrink (xs ++ u ∷ [])) h.whole
                ∙ ap shrink (append_assoc h.older h.newer (u ∷ []))
                ∙ same;
            among = Among-front t h.newer (u ∷ []) h.among;
            few = count;
            small = bytes;
          })
    ]

-- A text that may be remembered is.
remember_in-last :
    (t : Chars) (ts : List Chars)
    → is_empty t ≡ false
    → byte_len t ≤ max_draft
    → Late t 1 (byte_len t) (remember_in ts t)
unfolding remember_in
remember_in-last t ts filled short = elim (Bool-cases (is_last t ts)) [
  | inl again ↦
      let (older, same) = is_last-split t ts again in
      let skip : (is_empty t || ltb max_draft (byte_len t) || is_last t ts) ≡ true =
        ground (arith, again) in
      rw skip (record {
        older = older;
        newer = t ∷ [];
        whole = same;
        among = inl refl;
        few = omega arith;
        small = omega arith;
      })
  | inr new ↦
      let fresh : (is_empty t || ltb max_draft (byte_len t) || is_last t ts) ≡ false =
        ground (arith, filled, new) in
      let (left, same) = shrink-Late ts (t ∷ []) (omega arith) (omega arith) in
      rw fresh (record {
        older = left;
        newer = t ∷ [];
        whole = same;
        among = inl refl;
        few = omega arith;
        small = omega arith;
      })
]

remember_all-Late :
    (t : Chars) (n b : ℕ) (ts us : List Chars)
    → n + length us ≤ max_history
    → b + total_len us ≤ max_text
    → Late t n b ts
    → Among t (remember_all ts us)
unfolding remember_all
remember_all-Late t n b ts [] few small h =
    subst (Among t) (sym h.whole) (Among-append t h.older h.newer h.among)
remember_all-Late t n b ts (u ∷ us) few small h =
    remember_all-Late t (n + 1) (b + byte_len u) (remember_in ts u) us (omega (arith, few))
      (omega (arith, small))
      (remember_in-Late t u n b ts (omega (arith, few)) (omega (arith, small)) h)

-- The queue as `queue_draft` keeps it: few texts, small ones, none of them empty.
pub record IsQueue (ts : List Chars) : Type 0 where
  pub few : length ts ≤ max_queued
  pub small : total_len ts ≤ max_queued_bytes
  pub filled : All (λ t. is_empty t ≡ false) ts

remember_all-Among :
    (t : Chars) (ts us : List Chars) → IsQueue us → Among t us → Among t (remember_all ts us)
unfolding remember_all
remember_all-Among t ts [] v m = absurd m
remember_all-Among t ts (u ∷ us) v (inl same) =
    subst (λ x. Among x (remember_all (remember_in ts u) us)) same
      (remember_all-Late u 1 (byte_len u) (remember_in ts u) us (omega (arith, v.few))
        (omega (arith, v.small)) (remember_in-last u ts v.filled.0 (omega (arith, v.small))))
remember_all-Among t ts (u ∷ us) v (inr m) =
    remember_all-Among t (remember_in ts u) us
      (record { few = omega (arith, v.few); small = omega (arith, v.small); filled = v.filled.1 }) m

-- `queue_draft` keeps the queue so.
pub queue_draft-IsQueue : (s t : Session) → IsQueue s.queue → queue_draft s ≡ ok t → IsQueue t.queue
unfolding queue_draft clear_draft remember_submission remember
queue_draft-IsQueue s t v h =
    let text = trim s.draft in
    let (_, h1) = >>-eq-ok (refuse_if (not (is_active s.status) || has_card s) _) _ h in
    let (written, h2) = >>-eq-ok (refuse_if (is_empty text) _) _ h1 in
    let (_, h3) = >>-eq-ok (refuse_if (starts_with text (b'/' ∷ [])) _) _ h2 in
    let (fits, last) =
      >>-eq-ok
        (refuse_if
          (leb max_queued (length s.queue)
            || ltb max_queued_bytes (total_len s.queue + byte_len text))
          _)
        _ h3 in
    let room = refuse_if-eq-ok _ _ fits in
    subst IsQueue (ap (λ u. u.queue) (ok-injective last)) (record {
      few = ground (arith, length-append s.queue (text ∷ []));
      small = ground (arith, total_len-append s.queue (text ∷ []));
      filled =
          All-append (λ u. is_empty u ≡ false) s.queue (text ∷ []) v.filled
            (refuse_if-eq-ok _ _ written, tt);
    })

no_texts : (ts : List Chars) → is_empty ts ≡ true → ts ≡ []
no_texts [] h = refl
no_texts (t ∷ ts) h = cc

-- `restore_queue` loses no text of a queue that `queue_draft` keeps.
pub restore_queue_keeps :
    (s : Session)
    → IsQueue s.queue
    → ((restore_queue s).queue ≡ [])
      × ((((restore_queue s).draft ≡ joined_draft s) × (byte_len (joined_draft s) ≤ max_draft))
          ⊎ (((restore_queue s).draft ≡ s.draft)
              × ((t : Chars) → Among t s.queue → Among t (restore_queue s).history)))
unfolding restore_queue to_end
restore_queue_keeps s v = elim (Bool-cases (is_empty s.queue)) [
  | inl none_waits ↦
      let none = no_texts s.queue none_waits in
      rw none_waits (none, inr (refl, λ t m. absurd (subst (Among t) none m)))
  | inr waits ↦ elim (Bool-cases (leb (byte_len (joined_draft s)) max_draft)) [
    | inl fits ↦ rw (waits, fits) (refl, inl (refl, leb→le _ _ fits))
    | inr long ↦
        rw (waits, long) (refl, inr (refl, λ t m. remember_all-Among t s.history s.queue v m))
  ]
]
