-- ===== src/Session/Turn/Queued.antt =====
-- The queue of the conversations that the turns of alfredo-tui/src/model.rs can lead to.
use alfredo.Base.{◌≡◌, ◌⊎◌, []}
use alfredo.Session.{Session}
use alfredo.Session.Turn.Reached.{Reached}

-- The queue stays, or is given up.
Given : Session → Session → Type 0
Given s t = (t.queue ≡ s.queue) ⊎ (t.queue ≡ [])
