-- ===== src/Tasks/Transact/Retry.antt =====
-- A request that is sent again to `transact_checked` of alfredo-tui/src/tasks.rs, and one that comes too
-- late.
use alfredo.Base.{true, ◌≡◌, refl, ap, ◌∙◌, some, ok, arith, is_yes_of}
use alfredo.Text.{text_valid}
use alfredo.Tasks.{Request, Request-discrete, Receipt, Snapshot}
use alfredo.Tasks.Journal.{Store}
use alfredo.Tasks.Storage.{File, read_locked}
use alfredo.Tasks.Transact.{
  Checked, done, refused, Host, taken, find_receipt, open_store, serve, answer, transact,
}
use alfredo.Tasks.Transact.Prepared.{open_store-eq-done}
use alfredo.Tasks.Transact.Answers.{acknowledged_durable}

-- A request of the journal, sent with the locks free.
replayed :
    (host : Host) (store : Store) (file : File) (request : Request) (s : Snapshot) (r : Receipt)
    → text_valid request.correlation 160 ≡ true
    → host.scope_lock ≡ taken
    → host.store_lock ≡ taken
    → read_locked host.json store file ≡ ok s
    → find_receipt request.correlation s.receipts ≡ some r
    → r.request ≡ request
    → transact host store file request ≡ (done (s, r), file)
unfolding transact serve open_store answer
replayed host store file request s r text scope lock old found same =
    rw (text, scope, lock, old, found, is_yes_of (Request-discrete r.request request) same) refl

served_text :
    (host : Host) (store : Store) (file : File) (request : Request) (c : Checked Snapshot)
    {a : Snapshot × Receipt}
    → open_store host store file request ≡ c
    → (serve host file request c).0 ≡ done a
    → text_valid request.correlation 160 ≡ true
unfolding serve
served_text host store file request (refused r) e h = absurd (ground arith)
served_text host store file request (done s) e h =
    (open_store-eq-done host store file request s e).0

acknowledged_text :
    (host : Host) (store : Store) (file : File) (request : Request) {a : Snapshot × Receipt}
    → (transact host store file request).0 ≡ done a
    → text_valid request.correlation 160 ≡ true
unfolding transact
acknowledged_text host store file request h = served_text host store file request _ refl h

-- A request that was acknowledged and is sent again, with the locks free, gets the same answer, and
-- nothing is written: it takes effect once.
pub retry_same :
    (host again : Host) (store : Store) (file : File) (request : Request) (s : Snapshot)
    (r : Receipt)
    → (transact host store file request).0 ≡ done (s, r)
    → again.json ≡ host.json
    → again.scope_lock ≡ taken
    → again.store_lock ≡ taken
    → transact again store (transact host store file request).1 request
      ≡ (done (s, r), (transact host store file request).1)
retry_same host again store file request s r h json scope lock =
    let (old, found, same) = acknowledged_durable host store file request s r h in
    replayed again store (transact host store file request).1 request s r
      (acknowledged_text host store file request h) scope lock
      (ap (λ j. read_locked j store (transact host store file request).1) json ∙ old) found same
