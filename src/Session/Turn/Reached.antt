-- ===== src/Session/Turn/Reached.antt =====
-- The conversations that the turns of alfredo-tui/src/model.rs can lead to.
use alfredo.Base.{◌⊎◌, ℕ, ◌≡◌, refl, List, [], ◌∷◌, ok, arith, ◌==◌, is_empty, length}
use alfredo.Session.{Message, Session, new}
use alfredo.Session.Tools.{Encoder}
use alfredo.Session.Queue.{queue_draft}
use alfredo.Session.Turn.{Update, retry, cancel, begin, begin_queued, apply}
use alfredo.Session.Turn.Reports.{IsShort}
use alfredo.Session.Turn.Turned.{turn}

-- What can happen to a session, by its turns; everything else leaves them alone, and the queue too, or
-- gives it up by `restore_queue`.
pub data Step (e : Encoder) (s : Session) : Session → Type 0 where
  begins : {t : Session} → begin e s ≡ ok t → Step e s t
  begins_queued : Step e s (begin_queued e s).0
  retries : {t : Session} → retry s ≡ ok t → Step e s t
  queues : {t : Session} → queue_draft s ≡ ok t → Step e s t
  cancels : Step e s (cancel s)
  reports : (attempt : ℕ) (update : Update) → IsShort update → Step e s (apply e attempt update s)
  elsewhere : {t : Session} → turn t ≡ turn s → (t.queue ≡ s.queue) ⊎ (t.queue ≡ []) → Step e s t

pub data Reached (e : Encoder) : Session → Type 0 where
  opened : Reached e new
  after : {s t : Session} → Reached e s → Step e s t → Reached e t

filled : (ms : List Message) → is_empty ms ≡ (length ms == 0)
filled [] = refl
filled (m ∷ ms) = ground arith
