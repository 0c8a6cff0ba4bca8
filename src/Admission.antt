-- ===== src/Admission.antt =====
-- The shared admission to a model server, alfredo-tui/src/inference_admission.rs: the ledger that the
-- processes of one host share, and the choice of the next waiter.
pub mod Choice
pub mod Grant
pub mod Poll
use text.Mathlib.Text.{◌==◌ as str_eq}
use Prim.Native.String.{len}
use alfredo.Base.{
  ℕ, suc, zero, ◌+◌, String, Bool, true, false, not, ◌&&◌, ◌||◌, List, [], ◌∷◌, map, Option, none,
  some, all, any, distinct, count_if, length, ltb, leb, ◌==◌, if◌then◌else◌,
}
use alfredo.Text.{chars, starts_with, between, is_digit}

pub data Class : Type 0 where
  foreground background : Class

pub data State : Type 0 where
  waiting active : State

pub record Entry : Type 0 where
  pub id : String
  pub sequence : ℕ
  pub owner_device : ℕ
  pub owner_inode : ℕ
  pub class : Class
  pub state : State

pub record Ledger : Type 0 where
  pub schema_version : ℕ
  pub origin : String
  pub capacity : ℕ
  pub next_sequence : ℕ
  pub foreground_streak : ℕ
  pub entries : List Entry

pub record Coordinator : Type 0 where
  pub origin : String
  pub capacity : ℕ

-- `MAX_TICKETS`
abbrev pub max_tickets : ℕ
max_tickets = 256

abbrev pub is_active : Entry → Bool
is_active e = elim e.state [ active ↦ true | waiting ↦ false ]

abbrev pub same_class : Class → Class → Bool
same_class foreground foreground = true
same_class background background = true
same_class _ _ = false

-- `e.class == class && e.state == State::Waiting`
abbrev pub waits : Class → Entry → Bool
waits c e = same_class e.class c && not (is_active e)

abbrev pub active_count : List Entry → ℕ
active_count es = count_if is_active es

unfoldable pub valid_id : String → Bool
valid_id id =
    let cs = chars id in
    starts_with cs (chars "owner-")
    && leb (len id) 100
    && all (λ c. is_digit c || c == b'-' || between b'a' b'z' c) cs

-- `Coordinator::empty`
unfoldable pub empty : Coordinator → Ledger
empty c = record {
  schema_version = 1;
  origin = c.origin;
  capacity = c.capacity;
  next_sequence = 1;
  foreground_streak = 0;
  entries = [];
}

-- The tests of `Coordinator::read` on one entry, but for the two sets.
abbrev pub entry_ok : ℕ → Entry → Bool
entry_ok next e = valid_id e.id && not (e.sequence == 0) && ltb e.sequence next

abbrev pub ids : List Entry → List String
ids es = map (λ e. e.id) es

abbrev pub sequences : List Entry → List ℕ
sequences es = map (λ e. e.sequence) es

-- The test with which `Coordinator::read` refuses a ledger.
unfoldable pub bad_ledger : Coordinator → Ledger → Bool
bad_ledger c l =
    not (l.schema_version == 1)
    || not (str_eq l.origin c.origin)
    || not (between 1 8 l.capacity)
    || ltb 3 l.foreground_streak
    || ltb max_tickets (length l.entries)
    || (l.next_sequence == 0)
    || ltb l.capacity (active_count l.entries)
    || not (all (entry_ok l.next_sequence) l.entries)
    || not (distinct str_eq (ids l.entries))
    || not (distinct (λ a b. a == b) (sequences l.entries))

-- `oldest` of `choose`: the place of the waiter of a class with the least sequence, with it.
unfoldable pub oldest : Class → List Entry → Option (ℕ × ℕ)
oldest c [] = none
oldest c (e ∷ es) = elim (oldest c es) [
  | none ↦ if waits c e then some (0, e.sequence) else none
  | some later ↦
      if waits c e && leb e.sequence later.1
      then some (0, e.sequence)
      else some (suc later.0, later.1)
]

-- The `match` of `choose`: the place of the next waiter, and the streak then.
unfoldable pub pick : Option (ℕ × ℕ) → Option (ℕ × ℕ) → ℕ → Option ℕ × ℕ
pick (some f) (some b) streak = if ltb streak 3 then (some f.0, streak + 1) else (some b.0, 0)
pick none (some b) streak = (some b.0, 0)
pick (some f) none streak = (some f.0, 0)
pick none none streak = (none, streak)

unfoldable pub choose : List Entry → ℕ → Option ℕ × ℕ
unfolding oldest pick
choose es streak = pick (oldest foreground es) (oldest background es) streak

-- `entries[index].state = State::Active`
abbrev pub activate : ℕ → List Entry → List Entry
activate i [] = []
activate zero (e ∷ es) = record e { state = active } ∷ es
activate (suc i) (e ∷ es) = e ∷ activate i es

-- The loop that grants while there is capacity; one round for each slot is enough.
unfoldable pub grant : ℕ → ℕ → List Entry → ℕ → List Entry × ℕ
unfolding choose
grant zero capacity es streak = (es, streak)
grant (suc rounds) capacity es streak = elim (ltb (active_count es) capacity) [
  | false ↦ (es, streak)
  | true ↦ elim (choose es streak).0 [
    | none ↦ (es, streak)
    | some i ↦ grant rounds capacity (activate i es) (choose es streak).1
  ]
]
