-- ===== src/Session/Draft/Insert.antt =====
-- What `insert` of alfredo-tui/src/model.rs makes of a pasted text.
use alfredo.Base.{ℕ, ◌+◌, ◌<◌, Bool, true, false, ◌≡◌, ◌⊎◌, [], ◌++◌}
use alfredo.Session.{Chars, Session, max_draft}
use alfredo.Session.Utf8.{byte_len}
use alfredo.Session.Draft.{filtered}

-- The clusters are taken up to the first that does not fit.
abbrev Taken : ℕ → Chars → Chars → Bool → Type 0
Taken held text clean truncated =
    (taken : Chars) × (rest : Chars) × (taken ++ rest ≡ text)
    × (clean ≡ filtered taken)
    × (((truncated ≡ false) × (rest ≡ []))
        ⊎ ((truncated ≡ true) × (max_draft < held + byte_len (filtered text))))
