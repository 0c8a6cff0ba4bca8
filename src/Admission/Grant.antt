-- ===== src/Admission/Grant.antt =====
-- The loop of `Queue::poll` in alfredo-tui/src/inference_admission.rs that grants slots: it ends, it
-- never exceeds the capacity, it leaves no slot unused that a waiter could have, and it changes nothing
-- of the tickets.
use alfredo.Base.{
  ℕ, suc, zero, ◌+◌, ◌≤◌, true, false, ◌&&◌, ◌≡◌, ◌⊎◌, refl, sym, ap, ◌∙◌, subst, List, [], ◌∷◌,
  none, some, arith, all, get_elem?, ltb, inl, inr, Bool-cases, Option-cases, some-eq,
}
use alfredo.Admission.{
  Class, Entry, waits, is_active, active_count, entry_ok, ids, sequences, activate, choose, grant,
}
use alfredo.Admission.Choice.{choose_fifo, choose-streak}

activate-count :
    (es : List Entry) (i : ℕ) (e : Entry)
    → get_elem? es i ≡ some e
    → is_active e ≡ false
    → active_count (activate i es) ≡ suc (active_count es)
activate-count [] i e at idle = cc
activate-count (x ∷ es) zero e at idle =
    let still : is_active x ≡ false = subst (λ v. is_active v ≡ false) (sym (some-eq at)) idle in
    rw still refl
activate-count (x ∷ es) (suc i) e at idle = ground (arith, activate-count es i e at idle)

waits-idle : (c : Class) (e : Entry) → waits c e ≡ true → is_active e ≡ false
waits-idle c e h = ground arith

-- A chosen entry takes one slot more.
choose-count :
    (es : List Entry) (streak i : ℕ)
    → (choose es streak).0 ≡ some i
    → active_count (activate i es) ≡ suc (active_count es)
choose-count es streak i h =
    let (c, e, first) = choose_fifo es streak i h in
    activate-count es i e first.at (waits-idle c e first.waiter)

pub grant_full :
    (rounds capacity : ℕ) (es : List Entry) (streak : ℕ)
    → active_count es ≤ capacity
    → capacity ≤ active_count es + rounds
    → (active_count (grant rounds capacity es streak).0 ≤ capacity)
      × ((active_count (grant rounds capacity es streak).0 ≡ capacity)
          ⊎ ((choose (grant rounds capacity es streak).0 (grant rounds capacity es streak).1).0
              ≡ none))
unfolding grant
grant_full zero capacity es streak fits enough = (fits, inl (omega arith))
grant_full (suc rounds) capacity es streak fits enough =
    elim (Bool-cases (ltb (active_count es) capacity)) [
      | inr full ↦ rw (grant, full) (fits, inl (ground arith))
      | inl free ↦ elim (Option-cases (choose es streak).0) [
        | inl nobody ↦ rw (grant, free, nobody) (fits, inr nobody)
        | inr (i, next) ↦
            let count = choose-count es streak i next in
            rw (grant, free, next)
              (grant_full rounds capacity (activate i es) (choose es streak).1
                (ground (arith, count, free)) (omega (arith, count)))
      ]
    ]

activate-ids : (i : ℕ) (es : List Entry) → ids (activate i es) ≡ ids es
activate-ids i [] = refl
activate-ids zero (e ∷ es) = refl
activate-ids (suc i) (e ∷ es) = ap (λ v. e.id ∷ v) (activate-ids i es)

activate-sequences : (i : ℕ) (es : List Entry) → sequences (activate i es) ≡ sequences es
activate-sequences i [] = refl
activate-sequences zero (e ∷ es) = refl
activate-sequences (suc i) (e ∷ es) = ap (λ v. e.sequence ∷ v) (activate-sequences i es)

activate-ok : (n i : ℕ) (es : List Entry) → all (entry_ok n) (activate i es) ≡ all (entry_ok n) es
activate-ok n i [] = refl
activate-ok n zero (e ∷ es) = refl
activate-ok n (suc i) (e ∷ es) = ap (λ v. entry_ok n e && v) (activate-ok n i es)

-- Granting changes no ticket, and keeps the streak in its bound.
pub grant-tickets :
    (rounds capacity n : ℕ) (es : List Entry) (streak : ℕ)
    → streak ≤ 3
    → (ids (grant rounds capacity es streak).0 ≡ ids es)
      × (sequences (grant rounds capacity es streak).0 ≡ sequences es)
      × (all (entry_ok n) (grant rounds capacity es streak).0 ≡ all (entry_ok n) es)
      × ((grant rounds capacity es streak).1 ≤ 3)
unfolding grant
grant-tickets zero capacity n es streak h = (refl, refl, refl, h)
grant-tickets (suc rounds) capacity n es streak h =
    elim (Bool-cases (ltb (active_count es) capacity)) [
      | inr full ↦ rw (grant, full) (refl, refl, refl, h)
      | inl free ↦ elim (Option-cases (choose es streak).0) [
        | inl nobody ↦ rw (grant, free, nobody) (refl, refl, refl, h)
        | inr (i, next) ↦
            let (a, b, c, d) =
              grant-tickets rounds capacity n (activate i es) (choose es streak).1
                (choose-streak es streak h) in
            rw (grant, free, next)
              (a ∙ activate-ids i es, b ∙ activate-sequences i es, c ∙ activate-ok n i es, d)
      ]
    ]
