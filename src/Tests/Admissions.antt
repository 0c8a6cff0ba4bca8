-- ===== src/Tests/Admissions.antt =====
-- Witnesses of the admission to a model server, alfredo-tui/src/inference_admission.rs.
use alfredo.Base.{ℕ, String, true, false, ◌≡◌, refl, List, [], ◌∷◌, none, some, ok}
use alfredo.Text.{starts_with, codes_eq}
use alfredo.Admission.{
  Class, foreground, background, State, waiting, active, Entry, Ledger, Coordinator, valid_id,
  bad_ledger, oldest, pick, choose, grant,
}
use alfredo.Admission.Choice.{IsOldest, choose_fifo}
use alfredo.Admission.Poll.{DirectoryEntry, Queue, Owner, reap, settle, enqueue, admit, join, poll}
use alfredo.Admission.Poll.Valid.{poll_readable}

abbrev entry : String → ℕ → Class → State → Entry
entry id sequence class state = record {
  id = id;
  sequence = sequence;
  owner_device = 7;
  owner_inode = sequence;
  class = class;
  state = state;
}

abbrev waiters : List Entry
waiters = entry "owner-a" 1 foreground waiting ∷ entry "owner-b" 2 background waiting ∷ []

abbrev coordinator : Coordinator
coordinator = record { origin = "http://localhost"; capacity = 2 }

abbrev ledger : Ledger
ledger = record {
  schema_version = 1;
  origin = "http://localhost";
  capacity = 2;
  next_sequence = 3;
  foreground_streak = 0;
  entries = waiters;
}

abbrev directory : List DirectoryEntry
directory =
    record { name = "ledger.json"; device = 7; inode = 9; locked = false }
    ∷ record { name = "owner-a"; device = 7; inode = 1; locked = true }
    ∷ record { name = "owner-b"; device = 7; inode = 2; locked = true }
    ∷ []

abbrev owner : Owner
owner = record { id = "owner-c"; device = 7; inode = 3 }

abbrev queue : Queue
queue = record {
  class = background;
  ticket = none;
  observation = none;
  conflict = none;
  refuse_conflicts = false;
  completed = false;
}

-- Both earlier waiters are granted a slot, and the new one waits.
polled_ledger : Ledger
polled_ledger = record ledger {
  next_sequence = 4;
  entries =
      entry "owner-a" 1 foreground active
      ∷ entry "owner-b" 2 background active
      ∷ entry "owner-c" 3 background waiting
      ∷ [];
}

polled :
    poll coordinator directory owner queue ledger
    ≡ ok (record {
      granted = false;
      queue = record queue {
        ticket = some "owner-c";
        observation =
            some
              (record { position = 1; waiting = 1; active = 2; capacity = 2; class = background });
      };
      ledger = polled_ledger;
    })
unfolding poll reap settle enqueue admit join valid_id starts_with codes_eq oldest pick choose grant
    polled_ledger
polled = refl

next_is_foreground : (choose waiters 0).0 ≡ some 0
unfolding choose oldest pick
next_is_foreground = refl

choose_fifo_example : (c : Class) × (e : Entry) × IsOldest c waiters 0 e
choose_fifo_example = choose_fifo waiters 0 0 next_is_foreground

readable : bad_ledger coordinator ledger ≡ false
unfolding bad_ledger valid_id starts_with
readable = refl

owner_name : valid_id "owner-c" ≡ true
unfolding valid_id starts_with
owner_name = refl

poll_readable_example : bad_ledger coordinator polled_ledger ≡ false
poll_readable_example =
    poll_readable coordinator directory owner queue ledger _ refl owner_name readable polled
