-- ===== src/Bolt/Connection/Delivering.antt =====
-- The records of a result reach the client: in their order, and with the summary behind them.
use neo4j_go_driver.Base.{
  ℕ, suc, ◌+◌, ◌≡◌, refl, sym, ap, ◌∙◌, arith, true, false, Option, none, some, List, [], ◌∷◌, ◌++◌,
  map, append_assoc, append-nil, length, ◌||◌,
}
use neo4j_go_driver.Bolt.Values.Value.{Items}
use neo4j_go_driver.Bolt.Values.Success.{Success}
use neo4j_go_driver.Bolt.Connection.Errors.{BoltState}
use neo4j_go_driver.Bolt.Connection.State.{
  Message, Handler, Bolt5, BoltStream, Host, StreamSummary, not_streaming,
}
use neo4j_go_driver.Bolt.Connection.Queue.{
  done, ◌>>◌, receive, receive_rounds, receive_all, with_current, early,
}
use neo4j_go_driver.Bolt.Connection.Streaming.{
  stream_of, is_finished, is_some, buffer_rounds, buffer_stream,
}
use neo4j_go_driver.Bolt.Connection.Recovery.{waiting_more, waiting_no_more}
use neo4j_go_driver.Bolt.Connection.Steps.{
  >>-passes, get_then, pure_lem, check_err-passes, choose-true, early-passes,
}
use neo4j_go_driver.Bolt.Connection.Pulling.{
  Pulls, Ended, row, with_rows, records, rounds_records, last_state, receive_last, last_state-Ended,
}

with_rows-fifo :
    (rs : List Items) (t : BoltStream) → (with_rows rs t).fifo ≡ t.fifo ++ map (row t.keys) rs
with_rows-fifo [] t = sym (append-nil t.fifo)
with_rows-fifo (vs ∷ rs) t =
    with_rows-fifo rs (record t { had_record = true; fifo = t.fifo ++ (row t.keys vs ∷ []) })
    ∙ append_assoc t.fifo (row t.keys vs ∷ []) (map (row t.keys) rs)

with_rows-discarding :
    (rs : List Items) (t : BoltStream) → (with_rows rs t).discarding ≡ t.discarding
with_rows-discarding [] t = refl
with_rows-discarding (vs ∷ rs) t =
    with_rows-discarding rs (record t { had_record = true; fifo = t.fifo ++ (row t.keys vs ∷ []) })

length-records :
    (rs : List Items) (s : Success) (ms : List Message)
    → suc (length (records rs (Message.success_message s ∷ ms))) ≡ length rs + suc (suc (length ms))
unfolding records
length-records [] s ms = omega arith
length-records (vs ∷ rs) s ms = omega (arith, length-records rs s ms)

plus_two : (n : ℕ) → n + 2 ≡ suc (n + 1)
plus_two n = omega arith

finished_by :
    (i : ℕ) (b : Bolt5) (r : StreamSummary)
    → (stream_of i b).sum ≡ some r
    → is_finished (stream_of i b) ≡ true
finished_by i b r p = ap (λ (o : Option StreamSummary). is_some o || is_some (stream_of i b).err) p

module _ (host : Host) (i : ℕ) (st : BoltState) (t : BoltStream) (rs : List Items) (s : Success)
    (rest : List Message) (b : Bolt5) (taking : t.discarding ≡ false) (last : s.has_more ≡ false)
    (pulls : Pulls i st t (records rs (Message.success_message s ∷ rest)) b) where
  received :
      (c : Bolt5) × (receive_all host b ≡ done tt c) × Ended host i st s (with_rows rs t) rest c
  unfolding receive_all receive_rounds
  received =
      let (c, e, w) =
        rounds_records host i st (suc (suc (length rest))) rs (Message.success_message s ∷ rest) t b
          taking pulls in
      let d = last_state host i st s rest c in
      let fuel =
        ap (λ (l : List Message). suc (length l)) pulls.arrivals ∙ length-records rs s rest in
      (
        d,
        get_then (λ x. length x.arrivals) _ b
            ∙ ap (λ (n : ℕ). receive_rounds host n b) fuel
            ∙ e
            ∙ waiting_more c.handlers (Handler.pull i) [] _ c w.handlers
            ∙ >>-passes _ _ c d tt (receive_last host i st s (with_rows rs t) rest c last w)
            ∙ waiting_no_more d.handlers (receive host >> receive_rounds host (length rest)) d refl,
        last_state-Ended host i st s (with_rows rs t) rest c (with_rows-discarding rs t ∙ taking) w,
      )

  -- The only open stream of a connection is buffered: its PULL is under way, and the server sends
  -- records and, behind them, a SUCCESS that says there are no more. Then the stream has what it had
  -- buffered, and behind it exactly these records, in their order and with the stream's keys, and its
  -- summary is made of the SUCCESS. The connection waits for nothing, keeps no error, is ready again
  -- or again in its transaction, and the messages behind the SUCCESS are untouched.
  pub buffer_stream-records :
      (c : Bolt5) × (buffer_stream host b ≡ done tt c)
      × ((stream_of i c).fifo ≡ t.fifo ++ map (row t.keys) rs)
      × ((r : StreamSummary) × ((stream_of i c).sum ≡ some r) × (r.of_success ≡ s))
      × (c.streams.curr ≡ none)
      × (c.handlers ≡ [])
      × (c.arrivals ≡ rest)
      × (c.err ≡ none)
      × (c.state ≡ not_streaming st)
  unfolding buffer_stream buffer_rounds
  buffer_stream-records =
      let (c, e, w) = received in
      let (r, sum, of) = w.summary in
      (
        c,
        ap
              (λ (o : Option ℕ).
                with_current o (λ j. early (buffer_rounds host (length b.arrivals + 2) j)) b)
              pulls.current
            ∙ ap (λ (n : ℕ). early (buffer_rounds host n i) b) (plus_two (length b.arrivals))
            ∙ early-passes _ b c (
                >>-passes _ _ b c tt e
                ∙ >>-passes _ _ c c tt (check_err-passes c w.err)
                ∙ choose-true _ _ _ c (finished_by i c r sum)
                ∙ pure_lem c),
        w.rows ∙ with_rows-fifo rs t,
        (r, sum, of),
        w.current,
        w.handlers,
        w.arrivals,
        w.err,
        w.state,
      )
