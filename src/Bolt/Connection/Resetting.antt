-- ===== src/Bolt/Connection/Resetting.antt =====
-- A connection that has failed is ready again after a reset.
use neo4j_go_driver.Base.{ℕ, ◌≡◌, refl, ap, ◌∙◌, false, none, List, [], ◌∷◌, ◌++◌}
use neo4j_go_driver.Bolt.Streams.Stream.{reset}
use neo4j_go_driver.Bolt.Values.Requests.{append_reset}
use neo4j_go_driver.Bolt.Values.Success.{Success}
use neo4j_go_driver.Bolt.Connection.Errors.{BoltState, state_beq}
use neo4j_go_driver.Bolt.Connection.State.{Message, Handler, Bolt5, Host, set_state}
use neo4j_go_driver.Bolt.Connection.Responses.{on_success}
use neo4j_go_driver.Bolt.Connection.Queue.{
  done, change, enqueue, enqueue_callback, send_queue, respond, receive,
}
use neo4j_go_driver.Bolt.Connection.Streaming.{send}
use neo4j_go_driver.Bolt.Connection.Calls.{force_reset, reset_connection, after_reset}
use neo4j_go_driver.Bolt.Connection.Recovery.{NoReset, ignoring, Awaits, receive_next, all_ignored}
use neo4j_go_driver.Bolt.Connection.Sending.{send_queue-sends, append-reset}
use neo4j_go_driver.Bolt.Connection.Steps.{
  >>-passes, change_lem, check_err-passes, choose-false, early-passes,
}

module _ (host : Host) (sound : (k : ℕ) → host.write_fault k ≡ none) where
  enqueued :
      (ms : List Message) (b : Bolt5)
      → Awaits [] ms b
      → (c : Bolt5) × (enqueue host append_reset Handler.reset b ≡ done tt c)
        × Awaits (Handler.reset ∷ []) ms c
  unfolding enqueue change enqueue_callback
  enqueued ms b w =
      let c = record b { out = record (append_reset b.out) { told = [] } } in
      (
        record c { handlers = b.handlers ++ (Handler.reset ∷ []) },
        ap (λ (d : Bolt5). done tt d) (append-reset host b w.told),
        record {
          handlers = ap (λ (l : List Handler). l ++ (Handler.reset ∷ [])) w.handlers;
          arrivals = w.arrivals;
          queue_err = w.queue_err;
          err = w.err;
          told = refl;
        },
      )

  sent_on :
      (hs : List Handler) (ms : List Message) (b : Bolt5)
      → Awaits hs ms b
      → (c : Bolt5) × (send host b ≡ done tt c) × Awaits hs ms c
  unfolding send
  sent_on hs ms b w =
      let (d, ws, e) = send_queue-sends host sound b in
      let c = record b { out = record b.out { chunker = d }; writes = b.writes ++ ws } in
      (
        c,
        >>-passes _ _ b c tt (change_lem (send_queue host) b ∙ ap (λ (x : Bolt5). done tt x) e)
            ∙ check_err-passes c w.err,
        record {
          handlers = w.handlers;
          arrivals = w.arrivals;
          queue_err = w.queue_err;
          err = w.err;
          told = w.told;
        },
      )

  answered :
      (s : Success) (ms : List Message) (b : Bolt5)
      → Awaits (Handler.reset ∷ []) (Message.success_message s ∷ ms) b
      → (c : Bolt5) × (receive host b ≡ done tt c) × (c.state ≡ BoltState.ready) × Awaits [] ms c
  unfolding respond on_success
  answered s ms b w = (
    set_state BoltState.ready (record b { arrivals = ms; handlers = [] }),
    receive_next host Handler.reset [] (Message.success_message s) ms b w,
    refl,
    record {
      handlers = refl;
      arrivals = refl;
      queue_err = w.queue_err;
      err = w.err;
      told = w.told;
    },
  )

  module _ (s : Success) (rest : List Message) (b : Bolt5)
      (alive : state_beq b.state BoltState.dead ≡ false) (reading : b.queue_err ≡ none)
      (packed : b.out.told ≡ []) (no_reset : NoReset b.handlers)
      (answers : b.arrivals ≡ ignoring b.handlers (Message.success_message s ∷ rest)) where
    force_reset-Recovers :
        (c : Bolt5) × (force_reset host b ≡ done tt c)
        × (c.state ≡ BoltState.ready)
        × Awaits [] rest c
    unfolding force_reset
    force_reset-Recovers =
        let b0 = record b { err = none } in
        let w0 : Awaits b.handlers (ignoring b.handlers (Message.success_message s ∷ rest)) b0 =
          record {
            handlers = refl;
            arrivals = answers;
            queue_err = reading;
            err = refl;
            told = packed;
          } in
        let (c1, e1, w1) =
          all_ignored host b.handlers (Message.success_message s ∷ rest) b0 no_reset w0 in
        let (c2, e2, w2) = enqueued _ c1 w1 in
        let (c3, e3, w3) = sent_on _ _ c2 w2 in
        let (c4, e4, ready, w4) = answered s rest c3 w3 in
        (
          c4,
          choose-false _ _ _ b alive
              ∙ early-passes _ b c4 (
                  >>-passes _ _ b b0 tt (change_lem _ b)
                  ∙ >>-passes _ _ b0 c1 tt e1
                  ∙ >>-passes _ _ c1 c1 tt (check_err-passes c1 w1.err)
                  ∙ >>-passes _ _ c1 c2 tt e2
                  ∙ >>-passes _ _ c2 c3 tt e3
                  ∙ e4),
          ready,
          w4,
        )

    -- A connection that is neither dead nor ready, whatever error it keeps, is put in order by Reset:
    -- where no write fails, no earlier RESET is under way, and the server answers IGNORED to each
    -- message that is under way and SUCCESS to the RESET, the connection is ready, it keeps no error,
    -- it waits for nothing, and the messages behind the SUCCESS are untouched. Its transaction, its
    -- bookmark and its database are cleared, and no stream is the current one.
    pub reset_connection-Recovers :
        state_beq b.state BoltState.ready ≡ false
        → (c : Bolt5) × (reset_connection host b ≡ done tt c)
          × (c.state ≡ BoltState.ready)
          × (c.err ≡ none)
          × (c.handlers ≡ [])
          × (c.arrivals ≡ rest)
          × (c.tx_id ≡ 0)
          × (c.bookmark ≡ [])
          × (c.database_name ≡ [])
          × (c.streams.curr ≡ none)
    unfolding reset_connection reset
    reset_connection-Recovers working =
        let (c, e, ready, w) = force_reset-Recovers in
        (
          after_reset host c,
          >>-passes _ _ b c tt (choose-false _ _ _ b working ∙ e) ∙ change_lem _ c,
          ready,
          refl,
          w.handlers,
          w.arrivals,
          refl,
          refl,
          refl,
          refl,
        )
