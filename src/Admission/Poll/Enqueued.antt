-- ===== src/Admission/Poll/Enqueued.antt =====
-- A new ticket in the ledger of alfredo-tui/src/inference_admission.rs has a new id and a new sequence.
use text.Mathlib.Text.{◌==◌ as str_eq}
use alfredo.Base.{
  ℕ, ◌+◌, ◌-◌, ◌^◌, true, false, ◌≡◌, refl, sym, ap, ◌∙◌, subst, List, [], ◌∷◌, ◌++◌, ok, refuse_if,
  arith, all, any, distinct, length, length-append, is_empty, leb, ◌==◌, inl, inr, Bool-cases,
  >>-eq-ok, refuse_if-eq-ok, ok-injective,
}
use alfredo.Admission.{
  Class, Entry, Ledger, Coordinator, is_active, max_tickets, valid_id, entry_ok, ids, sequences,
}
use alfredo.Admission.Poll.{DirectoryEntry, Owner, has_name, restart, new_entry, enqueue}
use alfredo.Admission.Poll.Kept.{all-append, count-append, distinct-append, map-append, any-map}
use alfredo.Admission.Poll.Sound.{IsSound}

later-ok : (n : ℕ) (es : List Entry) → all (entry_ok n) es ≡ true → all (entry_ok (n + 1)) es ≡ true
later-ok n [] h = refl
later-ok n (e ∷ es) h = ground (arith, later-ok n es)

sequence-new :
    (n : ℕ) (es : List Entry) → all (entry_ok n) es ≡ true → any (λ e. e.sequence == n) es ≡ false
sequence-new n [] h = refl
sequence-new n (e ∷ es) h = ground (arith, sequence-new n es)

restart-IsSound :
    (c : Coordinator) (l : Ledger)
    → IsSound c l
    → IsSound c (restart l) × ((restart l).entries ≡ l.entries)
unfolding restart
restart-IsSound c l h = elim (Bool-cases (is_empty l.entries)) [
  | inl nobody ↦
      rw (restart, nobody)
        (
          record {
            version = h.version;
            same_origin = h.same_origin;
            bounded = h.bounded;
            streak = omega arith;
            room = h.room;
            next = refl;
            slots = h.slots;
            good = empty_all l.entries nobody;
            unique_ids = h.unique_ids;
            unique_sequences = h.unique_sequences;
          },
          refl,
        )
  | inr somebody ↦ rw (restart, somebody) (h, refl)
]
  where
    empty_all : (es : List Entry) → is_empty es ≡ true → all (entry_ok 1) es ≡ true
    empty_all [] q = refl
    empty_all (e ∷ es) q = cc

-- The entry that is added has a new id and a new sequence.
added-IsSound :
    (c : Coordinator) (class : Class) (owner : Owner) (r : Ledger)
    → IsSound c r
    → leb max_tickets (length r.entries) ≡ false
    → valid_id owner.id ≡ true
    → any (λ e. str_eq e.id owner.id) r.entries ≡ false
    → IsSound c (record r {
      next_sequence = r.next_sequence + 1;
      entries = r.entries ++ new_entry class owner r.next_sequence ∷ [];
    })
added-IsSound c class owner r h room valid fresh =
    let new = new_entry class owner r.next_sequence in
    record {
      version = h.version;
      same_origin = h.same_origin;
      bounded = h.bounded;
      streak = h.streak;
      room = ground (arith, length-append r.entries (new ∷ []), room);
      next = ground arith;
      slots = omega (arith, count-append is_active r.entries new refl, h.slots);
      good =
          all-append (entry_ok (r.next_sequence + 1)) r.entries new
            (later-ok r.next_sequence r.entries h.good) (ground (arith, valid, h.next));
      unique_ids =
          subst (λ q. distinct str_eq q ≡ true) (sym (map-append (λ e. e.id) r.entries new))
            (distinct-append str_eq (ids r.entries) owner.id h.unique_ids
              (any-map (λ q. str_eq q owner.id) (λ e. e.id) r.entries ∙ fresh));
      unique_sequences =
          subst (λ q. distinct (λ a b. a == b) q ≡ true)
            (sym (map-append (λ e. e.sequence) r.entries new))
            (distinct-append (λ a b. a == b) (sequences r.entries) r.next_sequence
              h.unique_sequences
              (any-map (λ q. q == r.next_sequence) (λ e. e.sequence) r.entries
                ∙ sequence-new r.next_sequence r.entries h.good));
    }

restart-fields :
    (l : Ledger)
    → ((restart l).schema_version ≡ l.schema_version)
      × ((restart l).origin ≡ l.origin)
      × ((restart l).capacity ≡ l.capacity)
      × ((restart l).entries ≡ l.entries)
unfolding restart
restart-fields l = elim (Bool-cases (is_empty l.entries)) [
  | inl nobody ↦ rw (restart, nobody) (refl, refl, refl, refl)
  | inr somebody ↦ rw (restart, somebody) (refl, refl, refl, refl)
]

pub enqueue-IsSound :
    (c : Coordinator) (directory : List DirectoryEntry) (class : Class) (owner : Owner)
    (l u : Ledger)
    → IsSound c l
    → valid_id owner.id ≡ true
    → (has_name owner.id directory ≡ false → any (λ e. str_eq e.id owner.id) l.entries ≡ false)
    → enqueue directory class owner l ≡ ok u
    → IsSound c u
unfolding enqueue
enqueue-IsSound c directory class owner l u h valid fresh e =
    let (room, e1) = >>-eq-ok (refuse_if (leb max_tickets (length l.entries)) _) _ e in
    let (_, e2) = >>-eq-ok (refuse_if ((restart l).next_sequence == 2 ^ 64 - 1) _) _ e1 in
    let (created, e3) = >>-eq-ok (refuse_if (has_name owner.id directory) _) _ e2 in
    let (sound, _) = restart-IsSound c l h in
    let (version, origin, capacity, entries) = restart-fields l in
    let added : IsSound c _ =
      added-IsSound c class owner (restart l) sound
        (ap (λ q. leb max_tickets (length q)) entries ∙ refuse_if-eq-ok _ _ room) valid
        (ap (any (λ v. str_eq v.id owner.id)) entries ∙ fresh (refuse_if-eq-ok _ _ created)) in
    subst (IsSound c) (ok-injective e3) (
      subst (IsSound c)
        (λ i. record {
          schema_version = version i;
          origin = origin i;
          capacity = capacity i;
          next_sequence = (restart l).next_sequence + 1;
          foreground_streak = (restart l).foreground_streak;
          entries = entries i ++ new_entry class owner (restart l).next_sequence ∷ [];
        })
        added)
