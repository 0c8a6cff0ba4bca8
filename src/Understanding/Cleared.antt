-- ===== src/Understanding/Cleared.antt =====
-- The marker of `/scope-clear`: `clear_flow` and `flow_cleared` of alfredo-tui/src/understanding.rs.
use alfredo.Base.{
  ℕ, zero, suc, ◌+◌, ◌-◌, ◌*◌, ◌<◌, String, Bool, true, false, ◌&&◌, ◌≡◌, ◌↔◌, refl, sym, ◌∙◌, ap,
  List, [], ◌∷◌, Option, none, some, Result, ok, err, arith, ltb, ◌==◌, ==_iff, if◌then◌else◌,
  >>-eq-ok, ok-injective,
}
use alfredo.Text.{show, trim, chars, is_digit}
use alfredo.Understanding.{Snapshot}
use alfredo.Understanding.Journal.{Store, File, Host, read, snapshot, lock_error}
use alfredo.Understanding.Replay.{check-replay}
use alfredo.Understanding.Binding.{read-check, identity_bounds}

abbrev u64_mod : ℕ
u64_mod = 18446744073709551616

-- The loop of `u64::from_str`: each digit, with its checks of overflow.
parse_digits : ℕ → List ℕ → Option ℕ
parse_digits acc [] = some acc
parse_digits acc (c ∷ cs) =
    let rest = parse_digits (acc * 10 + (c - b'0')) cs in
    if is_digit c && ltb (acc * 10 + (c - b'0')) u64_mod then rest else none

parse_unsigned : List ℕ → Option ℕ
unfolding parse_digits
parse_unsigned [] = none
parse_unsigned (c ∷ cs) = parse_digits 0 (c ∷ cs)

-- `str::parse::<u64>`, which admits a plus sign before the digits.
unfoldable pub parse_u64 : List ℕ → Option ℕ
unfolding parse_unsigned
parse_u64 [] = none
parse_u64 (c ∷ cs) = if c == b'+' then parse_unsigned cs else parse_unsigned (c ∷ cs)

-- The marker is a file with a text, or there is none that can be read.
abbrev pub Marker : Type 0
Marker = Option String

-- `clear_flow`, where the write and the rename of the marker give `written`.
write_marker : Result (Unit {0}) → Marker → Snapshot → Result Snapshot × Marker
write_marker (err e) marker s = (err e, marker)
write_marker (ok _) marker s = (ok s, some (show s.revision))

clear_read : Result (Unit {0}) → Marker → Result Snapshot → Result Snapshot × Marker
unfolding write_marker
clear_read written marker (err e) = (err e, marker)
clear_read written marker (ok s) =
    if s.revision == 0
    then (err "No Wayfinder flow to clear", marker)
    else write_marker written marker s

unfoldable pub clear_flow :
    Host → Store → File → Result (Unit {0}) → Marker → Result Snapshot × Marker
unfolding clear_read
clear_flow host store file written marker = clear_read written marker (snapshot host store file)

unfoldable pub flow_cleared : Marker → ℕ → Bool
flow_cleared none revision = false
flow_cleared (some text) revision = elim (parse_u64 (trim (chars text))) [
  | none ↦ false
  | some n ↦ n == revision
]

-- The marker of every revision up to `n` reads back.
reads_back : ℕ → Bool
reads_back n = elim (parse_u64 (trim (chars (show n)))) [ none ↦ false | some m ↦ m == n ]

all_read_back : ℕ → Bool
all_read_back zero = true
all_read_back (suc n) = reads_back n && all_read_back n

reads_back_of : (bound n : ℕ) → all_read_back bound ≡ true → n < bound → reads_back n ≡ true
unfolding all_read_back
reads_back_of zero n h small = absurd (omega arith)
reads_back_of (suc bound) n h small = ground (arith, reads_back_of bound n)

revisions_read_back : all_read_back 257 ≡ true
unfolding all_read_back reads_back parse_u64 show trim
revisions_read_back = refl

flow_cleared_shown : (n r : ℕ) → reads_back n ≡ true → flow_cleared (some (show n)) r ≡ (n == r)
unfolding flow_cleared reads_back
flow_cleared_shown n r h = cleared (parse_u64 (trim (chars (show n)))) h
  where
    cleared :
        (parsed : Option ℕ)
        → elim parsed [ none ↦ false | some m ↦ m == n ] ≡ true
        → elim parsed as (λ x. Bool) [ none ↦ false | some m ↦ m == r ] ≡ (n == r)
    cleared none p = cc
    cleared (some m) p = ap (λ q. q == r) ((==_iff m n).0 p)

write_marker-eq-ok :
    (written : Result (Unit {0})) (marker : Marker) (s u : Snapshot)
    → (write_marker written marker s).0 ≡ ok u
    → (s ≡ u) × ((write_marker written marker s).1 ≡ some (show s.revision))
unfolding write_marker
write_marker-eq-ok (err e) marker s u h = cc
write_marker-eq-ok (ok _) marker s u h = (ok-injective h, refl)

later_of :
    (b : Bool) (out : Result Snapshot × Marker) (marker : Marker) (u : Snapshot)
    → (if b then (err "No Wayfinder flow to clear", marker) else out).0 ≡ ok u
    → (b ≡ false)
      × (out.0 ≡ ok u)
      × ((if b then (err "No Wayfinder flow to clear", marker) else out) ≡ out)
later_of true out marker u h = absurd (ground arith)
later_of false out marker u h = (refl, h, refl)

clear_read-eq-ok :
    (written : Result (Unit {0})) (marker : Marker) (current : Result Snapshot) (u : Snapshot)
    → (clear_read written marker current).0 ≡ ok u
    → (current ≡ ok u)
      × ((clear_read written marker current).1 ≡ some (show u.revision))
      × ((u.revision == 0) ≡ false)
unfolding clear_read
clear_read-eq-ok written marker (err e) u h = absurd (ground arith)
clear_read-eq-ok written marker (ok s) u h =
    let (later, done, same) =
      later_of (s.revision == 0) (write_marker written marker s) marker u h in
    let (is_u, marked) = write_marker-eq-ok written marker s u done in
    (
      ap ok is_u,
      ap (λ q. q.1) same ∙ marked ∙ ap (λ q. some (show q.revision)) is_u,
      ap (λ q. q.revision == 0) (sym is_u) ∙ later,
    )

-- After a `clear_flow` that succeeds, the marker counts as cleared at the revision of the understanding that
-- it answers, which is not zero and is that of the file, and at no other revision.
pub cleared_exact :
    (host : Host) (store : Store) (file : File) (written : Result (Unit {0})) (marker : Marker)
    (s : Snapshot) (r : ℕ)
    → (clear_flow host store file written marker).0 ≡ ok s
    → (read store file ≡ ok s)
      × (0 < s.revision)
      × ((flow_cleared (clear_flow host store file written marker).1 r ≡ true) ↔ (r ≡ s.revision))
unfolding clear_flow snapshot
cleared_exact host store file written marker s r h =
    let (current, marked, later) = clear_read-eq-ok written marker (snapshot host store file) s h in
    let (_, now) = >>-eq-ok (lock_error host.lock) (read store file) current in
    let short = identity_bounds store s (check-replay store s (read-check store file s now)).0 in
    let shown =
      flow_cleared_shown s.revision r
        (reads_back_of 257 s.revision revisions_read_back (omega arith)) in
    (now, ground arith, rw (marked, shown) (ground arith))
