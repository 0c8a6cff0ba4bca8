-- ===== src/Admission/Poll/Sound.antt =====
-- What `Coordinator::read` of alfredo-tui/src/inference_admission.rs asks of a ledger, and that each
-- step of a poll keeps it.
use text.Mathlib.Text.{◌==◌ as str_eq}
use alfredo.Base.{
  suc, ◌≤◌, Bool, true, false, not, ◌≡◌, refl, sym, ap, ◌∙◌, subst, List, [], ◌∷◌, ok, refuse_if,
  arith, all, any, distinct, length, is_empty, ◌==◌, inl, inr, Bool-cases, >>=-eq-ok, >>-eq-ok,
  refuse_if-eq-ok, ok-injective,
}
use alfredo.Text.{between}
use alfredo.Admission.{
  Entry, Ledger, Coordinator, is_active, active_count, max_tickets, entry_ok, ids, sequences,
  bad_ledger, grant,
}
use alfredo.Admission.Grant.{grant_full, grant-tickets}
use alfredo.Admission.Poll.{
  DirectoryEntry, scan, has_name, is_live, retain, reap, proceeds, settle, granted_ledger,
}
use alfredo.Admission.Poll.Kept.{retain-length, retain-count, retain-all, retain-distinct}

-- The tests of `Coordinator::read`, one by one.
pub record IsSound (c : Coordinator) (l : Ledger) : Type 0 where
  pub version : (l.schema_version == 1) ≡ true
  pub same_origin : str_eq l.origin c.origin ≡ true
  pub bounded : between 1 8 l.capacity ≡ true
  pub streak : l.foreground_streak ≤ 3
  pub room : length l.entries ≤ max_tickets
  pub next : (l.next_sequence == 0) ≡ false
  pub slots : active_count l.entries ≤ l.capacity
  pub good : all (entry_ok l.next_sequence) l.entries ≡ true
  pub unique_ids : distinct str_eq (ids l.entries) ≡ true
  pub unique_sequences : distinct (λ a b. a == b) (sequences l.entries) ≡ true

pub bad_ledger-IsSound : (c : Coordinator) (l : Ledger) → bad_ledger c l ≡ false → IsSound c l
unfolding bad_ledger
bad_ledger-IsSound c l h = record {
  version = ground arith;
  same_origin = ground arith;
  bounded = ground arith;
  streak = ground arith;
  room = ground arith;
  next = ground arith;
  slots = ground arith;
  good = ground arith;
  unique_ids = ground arith;
  unique_sequences = ground arith;
}

pub ledger_read : (c : Coordinator) (l : Ledger) → IsSound c l → bad_ledger c l ≡ false
unfolding bad_ledger
ledger_read c l h = ground (
  arith, h.version, h.same_origin, h.bounded, h.streak, h.room, h.next, h.slots, h.good,
  h.unique_ids, h.unique_sequences,
)

pub reap-eq-ok :
    (directory : List DirectoryEntry) (l u : Ledger)
    → reap directory l ≡ ok u
    → (owners : List DirectoryEntry) × (scan 0 directory ≡ ok owners)
      × (any (λ e. not (has_name e.id owners)) l.entries ≡ false)
      × (u ≡ record l { entries = retain (is_live owners) l.entries })
unfolding reap
reap-eq-ok directory l u h =
    let (owners, scanned, h1) = >>=-eq-ok (scan 0 directory) _ h in
    let (proof, h2) =
      >>-eq-ok (refuse_if (any (λ e. not (has_name e.id owners)) l.entries) _) _ h1 in
    let (_, h3) = >>-eq-ok _ _ h2 in
    let (_, h4) = >>-eq-ok _ _ h3 in
    (owners, scanned, refuse_if-eq-ok _ _ proof, sym (ok-injective h4))

pub reap-IsSound :
    (c : Coordinator) (owners : List DirectoryEntry) (l : Ledger)
    → IsSound c l
    → IsSound c (record l { entries = retain (is_live owners) l.entries })
reap-IsSound c owners l h =
    let live = is_live owners in
    record {
      version = h.version;
      same_origin = h.same_origin;
      bounded = h.bounded;
      streak = h.streak;
      room = omega (arith, h.room, retain-length live l.entries);
      next = h.next;
      slots = omega (arith, h.slots, retain-count live is_active l.entries);
      good = retain-all live (entry_ok l.next_sequence) l.entries h.good;
      unique_ids = retain-distinct live (λ e. e.id) str_eq l.entries h.unique_ids;
      unique_sequences =
          retain-distinct live (λ e. e.sequence) (λ a b. a == b) l.entries h.unique_sequences;
    }

empty_count : (es : List Entry) → is_empty es ≡ true → active_count es ≡ 0
empty_count [] h = refl
empty_count (e ∷ es) h = cc

pub settle-IsSound :
    (c : Coordinator) (refuses : Bool) (l u : Ledger)
    → between 1 8 c.capacity ≡ true
    → IsSound c l
    → settle c refuses l ≡ ok (proceeds u)
    → IsSound c u × (u.entries ≡ l.entries)
unfolding settle
settle-IsSound c refuses l u bound h e = elim (Bool-cases (l.capacity == c.capacity)) [
  | inl same ↦
      let eq : l ≡ u = proceeds-injective (ok-injective (rw same at e)) in
      (subst (IsSound c) eq h, ap (λ v. v.entries) (sym eq))
  | inr other ↦ elim (Bool-cases (is_empty l.entries)) [
    | inl nobody ↦
        let eq : record l { capacity = c.capacity; foreground_streak = 0 } ≡ u =
          proceeds-injective (ok-injective (rw (other, nobody) at e)) in
        (
          subst (IsSound c) eq (record {
            version = h.version;
            same_origin = h.same_origin;
            bounded = bound;
            streak = omega arith;
            room = h.room;
            next = h.next;
            slots = omega (arith, empty_count l.entries nobody);
            good = h.good;
            unique_ids = h.unique_ids;
            unique_sequences = h.unique_sequences;
          }),
          ap (λ v. v.entries) (sym eq),
        )
    | inr somebody ↦ elim (Bool-cases refuses) [
      | inl refuse ↦ absurd (ground (arith, rw (other, somebody, refuse) at e))
      | inr wait ↦ absurd (ground (arith, rw (other, somebody, wait) at e))
    ]
  ]
]
  where
    proceeds-injective : {a b : Ledger} → proceeds a ≡ proceeds b → a ≡ b
    proceeds-injective q = cc

length-ids : (es : List Entry) → length (ids es) ≡ length es
length-ids [] = refl
length-ids (e ∷ es) = ap suc (length-ids es)

pub granted-IsSound : (c : Coordinator) (l : Ledger) → IsSound c l → IsSound c (granted_ledger l)
granted-IsSound c l h =
    let es = l.entries in
    let (fits, _) = grant_full l.capacity l.capacity es l.foreground_streak h.slots (omega arith) in
    let (a, b, d, s) =
      grant-tickets l.capacity l.capacity l.next_sequence es l.foreground_streak h.streak in
    let out = (grant l.capacity l.capacity es l.foreground_streak).0 in
    let size : length out ≡ length es = sym (length-ids out) ∙ ap length a ∙ length-ids es in
    record {
      version = h.version;
      same_origin = h.same_origin;
      bounded = h.bounded;
      streak = s;
      room = omega (arith, h.room, size);
      next = h.next;
      slots = fits;
      good = d ∙ h.good;
      unique_ids = ap (distinct str_eq) a ∙ h.unique_ids;
      unique_sequences = ap (distinct (λ x y. x == y)) b ∙ h.unique_sequences;
    }
