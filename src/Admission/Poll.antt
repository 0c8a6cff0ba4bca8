-- ===== src/Admission/Poll.antt =====
-- `Queue::poll` and `reap` of alfredo-tui/src/inference_admission.rs on the ledger that was read. What
-- the directory holds and which owner files are locked is a parameter, as is the owner file that is made
-- for a new ticket.
pub mod Kept
pub mod Sound
pub mod Enqueued
pub mod Valid
use text.Mathlib.Text.{◌==◌ as str_eq}
use alfredo.Base.{
  ℕ, suc, zero, ◌+◌, ◌-◌, ◌^◌, String, Bool, true, false, not, ◌&&◌, ◌||◌, List, [], ◌∷◌, ◌++◌,
  Option, none, some, Result, ok, err, ◌>>=◌, ◌>>◌, refuse_if, any, find?, length, is_empty, ltb,
  leb, ◌==◌, if◌then◌else◌,
}
use alfredo.Text.{chars, starts_with, codes_eq, show, ◌+++◌}
use alfredo.Admission.{
  Class, State, waiting, Entry, Ledger, Coordinator, is_active, active_count, max_tickets, valid_id,
  activate, choose, grant,
}

-- A file of the directory: its name, its identity, and whether another process holds its lock.
pub record DirectoryEntry : Type 0 where
  pub name : String
  pub device : ℕ
  pub inode : ℕ
  pub locked : Bool

pub record Observation : Type 0 where
  pub position : ℕ
  pub waiting : ℕ
  pub active : ℕ
  pub capacity : ℕ
  pub class : Class

pub record Queue : Type 0 where
  pub class : Class
  pub ticket : Option String
  pub observation : Option Observation
  pub conflict : Option ℕ
  pub refuse_conflicts : Bool
  pub completed : Bool

-- The owner file made for a new ticket: its name, from the process, the clock and a counter, and its
-- identity.
pub record Owner : Type 0 where
  pub id : String
  pub device : ℕ
  pub inode : ℕ

pub record Polled : Type 0 where
  pub granted : Bool
  pub queue : Queue
  pub ledger : Ledger

ends_with : List ℕ → List ℕ → Bool
ends_with [] t = codes_eq [] t
ends_with (c ∷ s) t = codes_eq (c ∷ s) t || ends_with s t

is_temporary : String → Bool
unfolding ends_with
is_temporary name =
    starts_with (chars name) (chars ".ledger-") && ends_with (chars name) (chars ".tmp")

is_expected : String → Bool
unfolding is_temporary
is_expected name =
    valid_id name || is_temporary name || str_eq name "ledger.json" || str_eq name "ledger.lock"

-- `MAX_FILES`
abbrev max_files : ℕ
max_files = 576

-- The scan of the directory: the owner files, when nothing else is there.
pub scan : ℕ → List DirectoryEntry → Result (List DirectoryEntry)
unfolding is_expected
scan index [] = ok []
scan index (d ∷ ds) = do
  refuse_if (leb max_files index) "Inference admission directory exceeds bounds"
  refuse_if (not (is_expected d.name)) "Unexpected inference admission entry; preserved"
  rest ← scan (index + 1) ds
  ok (if valid_id d.name then d ∷ rest else rest)

abbrev pub has_name : String → List DirectoryEntry → Bool
has_name id ds = any (λ d. str_eq d.name id) ds

abbrev pub is_live : List DirectoryEntry → Entry → Bool
is_live owners e = any (λ d. str_eq d.name e.id && d.locked) owners

identity_changed : List Entry → DirectoryEntry → Bool
identity_changed entries d = elim (find? (λ e. str_eq e.id d.name) entries) [
  | none ↦ false
  | some e ↦ not ((d.device == e.owner_device) && (d.inode == e.owner_inode))
]

-- `retain`
abbrev pub retain {ℓ} : {A : Type ℓ} → (A → Bool) → List A → List A
retain p [] = []
retain p (x ∷ xs) = let rest = retain p xs in if p x then x ∷ rest else rest

unfoldable pub reap : List DirectoryEntry → Ledger → Result Ledger
unfolding scan identity_changed
reap directory l = do
  owners ← scan 0 directory
  refuse_if (any (λ e. not (has_name e.id owners)) l.entries)
      "Inference owner proof is missing; shared capacity is unconfirmed and new requests are refused"
  refuse_if (any (identity_changed l.entries) owners)
      "Inference owner identity changed; shared capacity is unconfirmed and new requests are refused"
  refuse_if (any (λ d. d.locked && not (any (λ e. str_eq e.id d.name) l.entries)) owners)
      "Live inference owner has no saved admission; shared capacity is unconfirmed and new requests are refused"
  ok (record l { entries = retain (is_live owners) l.entries })

-- The capacity of the ledger is that of the coordinator, is taken over when nobody is in it, or is
-- waited out.
pub data Settled : Type 0 where
  proceeds : Ledger → Settled
  conflicts : Settled

unfoldable pub settle : Coordinator → Bool → Ledger → Result Settled
settle c refuses l =
    if l.capacity == c.capacity
    then ok (proceeds l)
    else (if is_empty l.entries
        then ok (proceeds (record l { capacity = c.capacity; foreground_streak = 0 }))
        else (if refuses
            then err (
                "Shared inference capacity conflict: live endpoint uses "
                +++ show l.capacity
                +++ ", requested "
                +++ show c.capacity)
            else ok conflicts))

-- The sequence starts again when nobody is in the ledger.
restart : Ledger → Ledger
restart l = if is_empty l.entries then record l { next_sequence = 1; foreground_streak = 0 } else l

abbrev pub new_entry : Class → Owner → ℕ → Entry
new_entry class owner sequence = record {
  id = owner.id;
  sequence = sequence;
  owner_device = owner.device;
  owner_inode = owner.inode;
  class = class;
  state = State.waiting;
}

unfoldable pub enqueue : List DirectoryEntry → Class → Owner → Ledger → Result Ledger
unfolding restart
enqueue directory class owner l = do
  refuse_if (leb max_tickets (length l.entries)) "Shared inference queue is full"
  refuse_if ((restart l).next_sequence == 2 ^ 64 - 1)
      "Inference admission sequence exhausted; wait for the queue to drain"
  refuse_if (has_name owner.id directory) "File exists"
  ok (record l {
    next_sequence = (restart l).next_sequence + 1;
    foreground_streak = (restart l).foreground_streak;
    entries = l.entries ++ new_entry class owner (restart l).next_sequence ∷ [];
  })

abbrev pub has_id : String → List Entry → Bool
has_id id es = any (λ e. str_eq e.id id) es

is_at : List Entry → ℕ → String → Bool
is_at [] i id = false
is_at (e ∷ es) zero id = str_eq e.id id
is_at (e ∷ es) (suc i) id = is_at es i id

-- The projected order of grants, up to the ticket.
place : ℕ → List Entry → ℕ → String → ℕ → ℕ
unfolding is_at
place zero es streak id position = position
place (suc rounds) es streak id position = elim (choose es streak).0 [
  | none ↦ position
  | some i ↦ elim (is_at es i id) [
    | true ↦ position + 1
    | false ↦ place rounds (activate i es) (choose es streak).1 id (position + 1)
  ]
]

observe : Class → Ledger → String → Option Observation
unfolding place
observe class l id =
    if any (λ e. str_eq e.id id && not (is_active e)) l.entries
    then some (record {
      position = place (length l.entries) l.entries l.foreground_streak id 0;
      waiting = length l.entries - active_count l.entries;
      active = active_count l.entries;
      capacity = l.capacity;
      class = class;
    })
    else none

abbrev pub granted_ledger : Ledger → Ledger
granted_ledger l =
    let out = grant l.capacity l.capacity l.entries l.foreground_streak in
    record l { entries = out.0; foreground_streak = out.1 }

-- The grants, and what the queue is told of its ticket.
unfoldable pub admit : Queue → String → Ledger → Result Polled
unfolding observe
admit q id l = do
  refuse_if (not (has_id id l.entries))
      "Live inference admission disappeared; request refused without replay"
  let l' = granted_ledger l
  let granted = any (λ e. str_eq e.id id && is_active e) l'.entries
  ok (record {
    granted = granted;
    queue = record q {
      ticket = if granted then none else some id;
      observation = observe q.class l' id;
      conflict = none;
      completed = granted;
    };
    ledger = l';
  })

unfoldable pub join : List DirectoryEntry → Owner → Queue → Ledger → Result Polled
join directory owner q l = elim q.ticket [
  | some id ↦ admit q id l
  | none ↦ enqueue directory q.class owner l >>= admit q owner.id
]

proceed : List DirectoryEntry → Owner → Queue → Ledger → Settled → Result Polled
proceed directory owner q l (proceeds l') = join directory owner q l'
proceed directory owner q l conflicts = ok (record {
  granted = false;
  queue = record q { conflict = some l.capacity; observation = none };
  ledger = l;
})

unfoldable pub poll : Coordinator → List DirectoryEntry → Owner → Queue → Ledger → Result Polled
unfolding proceed
poll c directory owner q l = do
  refuse_if q.completed "Inference admission queue has already completed"
  reaped ← reap directory l
  settled ← settle c q.refuse_conflicts reaped
  proceed directory owner q reaped settled
