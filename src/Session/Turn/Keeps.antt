-- ===== src/Session/Turn/Keeps.antt =====
-- What each operation on the turns of alfredo-tui/src/model.rs keeps.
use alfredo.Base.{
  ◌+◌, ◌-◌, true, false, not, ◌||◌, ◌≡◌, refl, sym, ◌∙◌, ap, subst, List, [], ◌∷◌, ◌++◌, Result, ok,
  err, >>-eq-ok, refuse_if, refuse_if-eq-ok, arith, ltb, leb, Bool-cases, inl, inr, is_empty,
  length, ok-injective,
}
use alfredo.Text.{trim, starts_with}
use alfredo.Session.{
  Chars, Status, ready, connecting, streaming, complete, cancelled, failed, is_active,
  is_interrupted, is_complete, Session, max_text, max_messages, max_queued, max_queued_bytes,
  total_len,
}
use alfredo.Session.Utf8
use alfredo.Session.Draft.{clear_draft}
use alfredo.Session.History.{remember_submission, remember}
use alfredo.Session.Tools.{Encoder}
use alfredo.Session.Queue.{restore_queue, queue_draft, has_card}
use alfredo.Session.Saved.{is_ready}
use alfredo.Session.Turn.{
  drop_last, start, abandon, retry, cancel, begin, begin_queued, turn_bytes, queue_begin, begun,
}
use alfredo.Session.Turn.Turned.{
  all_mono, turn, IsTurned, turn-restore_queue, status-IsTurned, asked-IsTurned, retried-IsTurned,
  abandoned-IsTurned,
}

pub not_ready : (st : Status) → is_active st ≡ true → is_ready st ≡ false
not_ready ready h = cc
not_ready connecting h = refl
not_ready streaming h = refl
not_ready complete h = refl
not_ready cancelled h = refl
not_ready (failed reason) h = refl

interrupted_not_ready : (st : Status) → is_interrupted st ≡ true → is_ready st ≡ false
interrupted_not_ready ready h = cc
interrupted_not_ready connecting h = refl
interrupted_not_ready streaming h = refl
interrupted_not_ready complete h = refl
interrupted_not_ready cancelled h = refl
interrupted_not_ready (failed reason) h = refl

module _ (e : Encoder) (s : Session) (v : IsTurned e (turn s)) where
  pub back : IsTurned e (turn (restore_queue s))
  back = subst (IsTurned e) (sym (turn-restore_queue s)) v

  pub cancel-IsTurned : IsTurned e (turn (cancel s))
  unfolding cancel
  cancel-IsTurned = elim (Bool-cases (is_active s.status)) [
    | inl runs ↦ rw runs (
        status-IsTurned e (turn (restore_queue s)) back cancelled
          (sym (ap (λ t. is_ready t.status) (turn-restore_queue s) ∙ not_ready s.status runs))
          (omega arith))
    | inr still ↦ rw still back
  ]

  pub queue-IsTurned : {t : Session} → queue_draft s ≡ ok t → IsTurned e (turn t)
  unfolding queue_draft clear_draft remember_submission remember
  queue-IsTurned h =
      let (running, h1) = >>-eq-ok (refuse_if (not (is_active s.status) || has_card s) _) _ h in
      let (written, h2) = >>-eq-ok (refuse_if (is_empty (trim s.draft)) _) _ h1 in
      let (plain, h3) = >>-eq-ok (refuse_if (starts_with (trim s.draft) (b'/' ∷ [])) _) _ h2 in
      let (fits, last) =
        >>-eq-ok
          (refuse_if
            (leb max_queued (length s.queue)
              || ltb max_queued_bytes (total_len s.queue + Utf8.byte_len (trim s.draft)))
            _)
          _ h3 in
      subst (IsTurned e) (ap turn (ok-injective last)) v

  pub retry-IsTurned : {t : Session} → retry s ≡ ok t → IsTurned e (turn t)
  unfolding retry start
  retry-IsTurned h =
      let (checked, last) = >>-eq-ok (refuse_if (not (is_interrupted s.status)) _) _ h in
      let broke : is_interrupted s.status ≡ true = ground (arith, refuse_if-eq-ok _ _ checked) in
      subst (IsTurned e) (ap turn (ok-injective last)) (
        retried-IsTurned e (turn s) v (length (drop_last s.messages))
          (interrupted_not_ready s.status broke))

  pub begin-IsTurned : {t : Session} → begin e s ≡ ok t → IsTurned e (turn t)
  unfolding begin start abandon clear_draft remember_submission remember turn_bytes
  begin-IsTurned h =
      let (idle, h1) = >>-eq-ok (refuse_if (is_active s.status) _) _ h in
      let (written, h2) = >>-eq-ok (refuse_if (is_empty (trim s.draft)) _) _ h1 in
      let (settled, h3) = >>-eq-ok (refuse_if (s.compacting) _) _ h2 in
      let (fits, last) =
        >>-eq-ok
          (refuse_if
            (ltb max_text (turn_bytes e s + Utf8.byte_len (trim s.draft))
              || ltb max_messages (length s.messages + 2))
            _)
          _ h3 in
      let room = refuse_if-eq-ok _ _ fits in
      subst (IsTurned e) (ap turn (ok-injective last))
        (elim (Bool-cases (is_interrupted s.status)) [
          | inl broke ↦
              let (climbs, behind) =
                abandoned-IsTurned e (turn s) v (interrupted_not_ready s.status broke) in
              rw broke (
                asked-IsTurned e (turn s) v (trim s.draft)
                  (s.interrupted ++ (length s.messages - 2) ∷ []) (ground arith) (ground arith)
                  climbs behind)
          | inr other ↦ rw other (
              asked-IsTurned e (turn s) v (trim s.draft) s.interrupted (ground arith) (ground arith)
                v.climbs
                (all_mono (length s.messages) (length s.messages + 2) s.interrupted (omega arith)
                  v.abandoned))
        ])

module _ (e : Encoder) where
  begun-IsTurned :
      (s t : Session) (text : Chars) (rest : List Chars) (r : Result Session)
      → IsTurned e (turn s)
      → ((u : Session) → r ≡ ok u → IsTurned e (turn u))
      → IsTurned e (turn (begun e s t text rest r).0)
  unfolding begun
  begun-IsTurned s t text rest (ok u) v begins = begins u refl
  begun-IsTurned s t text rest (err reason) v begins = back e (record s { queue = text ∷ rest }) v

  queue_begin-IsTurned :
      (s : Session) (texts : List Chars)
      → IsTurned e (turn s)
      → IsTurned e (turn (queue_begin e s texts).0)
  unfolding queue_begin
  queue_begin-IsTurned s [] v = v
  queue_begin-IsTurned s (text ∷ rest) v =
      let taken : Session = record s { queue = rest; draft = text } in
      begun-IsTurned s taken text rest (begin e taken) v (λ u h. begin-IsTurned e taken v h)

  pub begin_queued-IsTurned :
      (s : Session) → IsTurned e (turn s) → IsTurned e (turn (begin_queued e s).0)
  unfolding begin_queued
  begin_queued-IsTurned s v = elim (Bool-cases (is_complete s.status)) [
    | inl over ↦ rw over (queue_begin-IsTurned s s.queue v)
    | inr other ↦ rw other v
  ]
