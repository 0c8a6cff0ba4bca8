-- ===== src/Admission/Poll/Valid.antt =====
-- `Queue::poll` of alfredo-tui/src/inference_admission.rs leaves a ledger that the next process can read.
use text.Mathlib.Text.{◌==◌ as str_eq}
use text.Mathlib.TextEquality.{eq_iff}
use alfredo.Base.{
  ℕ, ◌+◌, String, true, false, not, ◌≡◌, refl, sym, ap, ◌∙◌, subst, List, [], ◌∷◌, Option, none,
  some, ok, ◌>>=◌, refuse_if, arith, any, leb, inl, inr, Bool-cases, >>=-eq-ok, >>-eq-ok,
  ok-injective, if◌then◌else◌,
}
use alfredo.Text.{between}
use alfredo.Admission.{Entry, Ledger, Coordinator, valid_id, bad_ledger}
use alfredo.Admission.Poll.{
  DirectoryEntry, Queue, Owner, Polled, max_files, is_expected, scan, has_name, is_live, reap,
  Settled, proceeds, conflicts, settle, enqueue, has_id, granted_ledger, admit, join, proceed, poll,
}
use alfredo.Admission.Poll.Kept.{retain-any}
use alfredo.Admission.Poll.Enqueued.{enqueue-IsSound}
use alfredo.Admission.Poll.Sound.{
  IsSound, bad_ledger-IsSound, ledger_read, reap-eq-ok, reap-IsSound, settle-IsSound,
  granted-IsSound,
}

admit-eq-ok :
    (q : Queue) (id : String) (l : Ledger) (p : Polled)
    → admit q id l ≡ ok p
    → p.ledger ≡ granted_ledger l
unfolding admit
admit-eq-ok q id l p h =
    let (_, h1) = >>-eq-ok (refuse_if (not (has_id id l.entries)) _) _ h in
    ap (λ v. v.ledger) (sym (ok-injective h1))

join-IsSound :
    (c : Coordinator) (directory : List DirectoryEntry) (owner : Owner) (q : Queue) (l : Ledger)
    (p : Polled)
    → IsSound c l
    → valid_id owner.id ≡ true
    → (has_name owner.id directory ≡ false → any (λ e. str_eq e.id owner.id) l.entries ≡ false)
    → (ticket : Option String)
    → elim ticket [
      | some id ↦ admit q id l
      | none ↦ enqueue directory q.class owner l >>= admit q owner.id
    ]
      ≡ ok p
    → IsSound c p.ledger
join-IsSound c directory owner q l p h valid fresh (some id) e =
    subst (IsSound c) (sym (admit-eq-ok q id l p e)) (granted-IsSound c l h)
join-IsSound c directory owner q l p h valid fresh none e =
    let (u, queued, e1) = >>=-eq-ok (enqueue directory q.class owner l) _ e in
    subst (IsSound c) (sym (admit-eq-ok q owner.id u p e1))
      (granted-IsSound c u (enqueue-IsSound c directory q.class owner l u h valid fresh queued))

scan-names :
    (id : String) (index : ℕ) (ds owners : List DirectoryEntry)
    → scan index ds ≡ ok owners
    → has_name id ds ≡ false
    → has_name id owners ≡ false
unfolding scan
scan-names id index [] owners e h = ap (has_name id) (sym (ok-injective e))
scan-names id index (d ∷ ds) owners e h =
    let (_, e1) = >>-eq-ok (refuse_if (leb max_files index) _) _ e in
    let (_, e2) = >>-eq-ok (refuse_if (not (is_expected d.name)) _) _ e1 in
    let (rest, scanned, e3) = >>=-eq-ok (scan (index + 1) ds) _ e2 in
    let below = scan-names id (index + 1) ds rest scanned (ground arith) in
    let kept : has_name id (if valid_id d.name then d ∷ rest else rest) ≡ false =
      elim (Bool-cases (valid_id d.name)) [
        | inl owned ↦ rw owned (ground (arith, below))
        | inr other ↦ rw other below
      ] in
    subst (λ q. has_name id q ≡ false) (ok-injective e3) kept

unknown_id :
    (id : String) (owners : List DirectoryEntry) (es : List Entry)
    → any (λ e. not (has_name e.id owners)) es ≡ false
    → has_name id owners ≡ false
    → any (λ e. str_eq e.id id) es ≡ false
unknown_id id owners [] h k = refl
unknown_id id owners (e ∷ es) h k = elim (Bool-cases (str_eq e.id id)) [
  | inl same ↦
      absurd (
        ground (arith, h, subst (λ q. has_name q owners ≡ false) (sym ((eq_iff e.id id).0 same)) k))
  | inr other ↦ rw other (unknown_id id owners es (ground arith) k)
]

proceed-IsSound :
    (c : Coordinator) (directory : List DirectoryEntry) (owner : Owner) (q : Queue) (l : Ledger)
    (settled : Settled) (p : Polled)
    → between 1 8 c.capacity ≡ true
    → IsSound c l
    → valid_id owner.id ≡ true
    → (has_name owner.id directory ≡ false → any (λ e. str_eq e.id owner.id) l.entries ≡ false)
    → settle c q.refuse_conflicts l ≡ ok settled
    → proceed directory owner q l settled ≡ ok p
    → IsSound c p.ledger
unfolding proceed join
proceed-IsSound c directory owner q l (proceeds u) p bound h valid fresh e e' =
    let (sound, same) = settle-IsSound c q.refuse_conflicts l u bound h e in
    join-IsSound c directory owner q u p sound valid
      (λ new. ap (any (λ v. str_eq v.id owner.id)) same ∙ fresh new) q.ticket e'
proceed-IsSound c directory owner q l conflicts p bound h valid fresh e e' =
    subst (IsSound c) (ap (λ v. v.ledger) (ok-injective e')) h

-- When `poll` succeeds on a ledger that `read` accepts, the ledger that it publishes is accepted again:
-- in particular at most `capacity` requests are active, and ids and sequences are distinct. The
-- coordinator's capacity is 1 to 8, and the name of a new owner file has the form of an owner's name.
pub poll_readable :
    (c : Coordinator) (directory : List DirectoryEntry) (owner : Owner) (q : Queue) (l : Ledger)
    (p : Polled)
    → between 1 8 c.capacity ≡ true
    → valid_id owner.id ≡ true
    → bad_ledger c l ≡ false
    → poll c directory owner q l ≡ ok p
    → bad_ledger c p.ledger ≡ false
unfolding poll
poll_readable c directory owner q l p bound valid read h =
    let (_, h1) = >>-eq-ok (refuse_if q.completed _) _ h in
    let (u, reaped, h2) = >>=-eq-ok (reap directory l) _ h1 in
    let (settled, at, h3) = >>=-eq-ok (settle c q.refuse_conflicts u) _ h2 in
    let (owners, scanned, proof, same) = reap-eq-ok directory l u reaped in
    let live = is_live owners in
    ledger_read c p.ledger (
      proceed-IsSound c directory owner q u settled p bound
        (subst (IsSound c) (sym same) (reap-IsSound c owners l (bad_ledger-IsSound c l read))) valid
        (λ new.
          ap (λ v. any (λ e. str_eq e.id owner.id) v.entries) same
          ∙ retain-any live (λ e. str_eq e.id owner.id) l.entries
              (unknown_id owner.id owners l.entries proof
                (scan-names owner.id 0 directory owners scanned new)))
        at h3)
