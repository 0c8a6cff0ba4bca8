-- ===== src/Admission/Choice.antt =====
-- `choose` of alfredo-tui/src/inference_admission.rs takes the waiters of a class in their order, and
-- lets no background waiter wait for more than three foreground ones.
use alfredo.Base.{
  ℕ, suc, zero, ◌≤◌, true, false, ◌&&◌, ◌≡◌, ◌⊎◌, refl, sym, ap, subst, List, [], ◌∷◌, Option, none,
  some, arith, get_elem?, any, ltb, leb, inl, inr, Bool-cases, Option-cases, some-eq,
}
use alfredo.Admission.{Class, foreground, background, Entry, waits, oldest, pick, choose}

-- `e`, at place `i`, is a waiter of the class, and none of the class has a smaller sequence.
pub record IsOldest (c : Class) (es : List Entry) (i : ℕ) (e : Entry) : Type 0 where
  pub at : get_elem? es i ≡ some e
  pub waiter : waits c e ≡ true
  pub least :
      (k : ℕ) (u : Entry) → get_elem? es k ≡ some u → waits c u ≡ true → e.sequence ≤ u.sequence

oldest-none : (c : Class) (es : List Entry) → oldest c es ≡ none → any (waits c) es ≡ false
unfolding oldest
oldest-none c [] h = refl
oldest-none c (e ∷ es) h = elim (Option-cases (oldest c es)) [
  | inl rest ↦ ground (arith, oldest-none c es rest, rw (oldest, rest) at h)
  | inr (later, rest) ↦ absurd (ground (arith, rw (oldest, rest) at h))
]

any-none :
    (c : Class) (es : List Entry) (k : ℕ) (u : Entry)
    → any (waits c) es ≡ false
    → get_elem? es k ≡ some u
    → waits c u ≡ false
any-none c [] k u h e = cc
any-none c (x ∷ es) zero u h e = subst (λ v. waits c v ≡ false) (some-eq e) (ground arith)
any-none c (x ∷ es) (suc k) u h e = any-none c es k u (ground arith) e

head-IsOldest :
    (c : Class) (e : Entry) (es : List Entry)
    → waits c e ≡ true
    → ((k : ℕ) (u : Entry) → get_elem? es k ≡ some u → waits c u ≡ true → e.sequence ≤ u.sequence)
    → IsOldest c (e ∷ es) 0 e
head-IsOldest c e es w least = record { at = refl; waiter = w; least = below }
  where
    below :
        (k : ℕ) (u : Entry)
        → get_elem? (e ∷ es) k ≡ some u
        → waits c u ≡ true
        → e.sequence ≤ u.sequence
    below zero u at v = omega (arith, ap (λ x. x.sequence) (some-eq at))
    below (suc k) u at v = least k u at v

tail-IsOldest :
    (c : Class) (e x : Entry) (es : List Entry) (j : ℕ)
    → (waits c e ≡ true → x.sequence ≤ e.sequence)
    → IsOldest c es j x
    → IsOldest c (e ∷ es) (suc j) x
tail-IsOldest c e x es j earlier o = record { at = o.at; waiter = o.waiter; least = below }
  where
    below :
        (k : ℕ) (u : Entry)
        → get_elem? (e ∷ es) k ≡ some u
        → waits c u ≡ true
        → x.sequence ≤ u.sequence
    below zero u at v =
        let same : e ≡ u = some-eq at in
        omega
          (arith, ap (λ y. y.sequence) same, earlier (subst (λ y. waits c y ≡ true) (sym same) v))
    below (suc k) u at v = o.least k u at v

pub oldest-IsOldest :
    (c : Class) (es : List Entry) (found : ℕ × ℕ)
    → oldest c es ≡ some found
    → (e : Entry) × IsOldest c es found.0 e × (e.sequence ≡ found.1)
unfolding oldest
oldest-IsOldest c [] found h = cc
oldest-IsOldest c (e ∷ es) found h = elim (Option-cases (oldest c es)) [
  | inl rest ↦ elim (Bool-cases (waits c e)) [
    | inl w ↦
        subst (λ o. (x : Entry) × IsOldest c (e ∷ es) o.0 x × (x.sequence ≡ o.1))
          (some-eq (rw (oldest, rest, w) at h))
          (
            e,
            head-IsOldest c e es w (λ k u at v.
                absurd (ground (arith, any-none c es k u (oldest-none c es rest) at, v))),
            refl,
          )
    | inr idle ↦ absurd (ground (arith, rw (oldest, rest, idle) at h))
  ]
  | inr (later, rest) ↦
      let (x, o, q) = oldest-IsOldest c es later rest in
      elim (Bool-cases (waits c e && leb e.sequence later.1)) [
        | inl first ↦
            subst (λ o. (x : Entry) × IsOldest c (e ∷ es) o.0 x × (x.sequence ≡ o.1))
              (some-eq (rw (oldest, rest, first) at h))
              (
                e,
                head-IsOldest c e es (ground arith)
                    (λ k u at v. ground (arith, o.least k u at v, q, first)),
                refl,
              )
        | inr behind ↦
            subst (λ o. (x : Entry) × IsOldest c (e ∷ es) o.0 x × (x.sequence ≡ o.1))
              (some-eq (rw (oldest, rest, behind) at h))
              (x, tail-IsOldest c e x es later.0 (λ w. ground (arith, q, behind)) o, q)
      ]
]

pick-cases :
    (f b : Option (ℕ × ℕ)) (streak i : ℕ)
    → (pick f b streak).0 ≡ some i
    → ((o : ℕ × ℕ) × (f ≡ some o) × (i ≡ o.0)) ⊎ ((o : ℕ × ℕ) × (b ≡ some o) × (i ≡ o.0))
unfolding pick
pick-cases none none streak i h = cc
pick-cases none (some b) streak i h = inr (b, refl, sym (some-eq h))
pick-cases (some f) none streak i h = inl (f, refl, sym (some-eq h))
pick-cases (some f) (some b) streak i h = elim (Bool-cases (ltb streak 3)) [
  | inl less ↦ inl (f, refl, sym (some-eq (rw less at h)))
  | inr full ↦ inr (b, refl, sym (some-eq (rw full at h)))
]

-- The entry that is chosen waits, and no waiter of its class has a smaller sequence.
pub choose_fifo :
    (es : List Entry) (streak i : ℕ)
    → (choose es streak).0 ≡ some i
    → (c : Class) × (e : Entry) × IsOldest c es i e
unfolding choose
choose_fifo es streak i h =
    elim (pick-cases (oldest foreground es) (oldest background es) streak i h) [
      | inl (o, found, same) ↦
          let (e, first, _) = oldest-IsOldest foreground es o found in
          (foreground, e, subst (λ k. IsOldest foreground es k e) (sym same) first)
      | inr (o, found, same) ↦
          let (e, first, _) = oldest-IsOldest background es o found in
          (background, e, subst (λ k. IsOldest background es k e) (sym same) first)
    ]

pick-streak : (f b : Option (ℕ × ℕ)) (streak : ℕ) → streak ≤ 3 → (pick f b streak).1 ≤ 3
unfolding pick
pick-streak none none streak h = h
pick-streak none (some b) streak h = omega arith
pick-streak (some f) none streak h = omega arith
pick-streak (some f) (some b) streak h = ground arith

pub choose-streak : (es : List Entry) (streak : ℕ) → streak ≤ 3 → (choose es streak).1 ≤ 3
unfolding choose
choose-streak es streak h = pick-streak (oldest foreground es) (oldest background es) streak h
