-- ===== src/Bolt/Connection/Ending.antt =====
-- The loops and the calls of a connection that end on any messages.
use neo4j_go_driver.Base.{
  ℕ, zero, suc, ◌+◌, ◌<◌, ◌≤◌, ◌≡◌, refl, ap, ◌∙◌, arith, Bool, true, false, Option, none, some,
  List, [], ◌∷◌, ◌++◌, length,
}
use neo4j_go_driver.Bolt.Values.Pack.{Outgoing}
use neo4j_go_driver.Bolt.Streams.Stream.{remove}
use neo4j_go_driver.Bolt.Connection.Errors.{BoltState, BoltError}
use neo4j_go_driver.Bolt.Connection.State.{
  Handler, Bolt5, BoltStream, Host, set_state, check_streams,
}
use neo4j_go_driver.Bolt.Connection.Queue.{
  Run, proceed, pure, ◌>>=◌, ◌>>◌, change, get, choose, branch, unless_error, check_err, raise,
  receive, receive_rounds, receive_all, append, enqueue, while_waiting,
}
use neo4j_go_driver.Bolt.Connection.Arrivals.{
  append-arrivals, append-handlers, send_queue-SameQueue, check_streams-SameQueue,
}
use neo4j_go_driver.Bolt.Connection.Streaming.{
  append_pull, append_discard, discard_request, stream_of, send, everything, pull_with, drop_stream,
  start_discarding, reset_streams, ask_discard, discard_batch, discard_rounds, discard_current,
  discard_stream, discard_all_streams,
}
use neo4j_go_driver.Bolt.Connection.Calls.{exchange}
use neo4j_go_driver.Bolt.Connection.Terminates.{
  Within, Below, Below-mono, receive_rounds-EndsBelow, Ends, EndsBelow, Within-mono, proceed-Within,
  proceed-Both, proceed-Less, >>=-Ends, >>-Ends, pure-Ends, get-Ends, throw-Ends, change-Ends,
  choose-Ends, branch-Ends, unless_error-Ends, check_err-Ends, early-Ends, with_current-Ends,
  assert_state-Ends, receive-Ends, receive_all-Ends, receive-Below,
}

pub ruleset end_rules = (
  >>=-Ends, >>-Ends, pure-Ends, get-Ends, throw-Ends, choose-Ends, branch-Ends, unless_error-Ends,
  check_err-Ends, early-Ends, with_current-Ends, assert_state-Ends, receive-Ends, receive_all-Ends,
)

module _ (host : Host) where
  pub enqueue-Ends : (f : Outgoing → Outgoing) (h : Handler) → Ends (enqueue host f h)
  unfolding enqueue
  enqueue-Ends f h = change-Ends (append host f h) (append-arrivals host f h)

  pub set_state-Ends : (s : BoltState) → Ends (change (set_state s))
  set_state-Ends s = change-Ends _ (λ b. refl)

  pub send-Ends : Ends (send host)
  unfolding send
  send-Ends =
      >>-Ends _ _ (change-Ends _ (λ b. (send_queue-SameQueue host b).arrivals)) check_err-Ends

  pub exchange-Ends : Ends (exchange host)
  unfolding exchange
  exchange-Ends = >>-Ends _ _ send-Ends (>>-Ends _ _ (receive_all-Ends host) check_err-Ends)

  pull_with-arrivals :
      (state : BoltState) (i : ℕ) (s : BoltStream) (b : Bolt5)
      → (pull_with host state i s b).arrivals ≡ b.arrivals
  pull_with-arrivals BoltState.streaming i s b = append-arrivals host _ (Handler.pull i) b
  pull_with-arrivals BoltState.streaming_tx i s b = append-arrivals host _ (Handler.pull i) b
  pull_with-arrivals state i s b = refl

  pub append_pull-arrivals : (i : ℕ) (b : Bolt5) → (append_pull host i b).arrivals ≡ b.arrivals
  unfolding append_pull
  append_pull-arrivals i b = pull_with-arrivals b.state i _ b

  append_discard-arrivals : (i : ℕ) (b : Bolt5) → (append_discard host i b).arrivals ≡ b.arrivals
  unfolding append_discard
  append_discard-arrivals i b =
      append-arrivals host (discard_request host (stream_of i b) b) (Handler.discard i) b

  append_discard-handlers :
      (i : ℕ) (b : Bolt5)
      → (append_discard host i b).handlers ≡ b.handlers ++ (Handler.discard i ∷ [])
  unfolding append_discard
  append_discard-handlers i b =
      append-handlers host (discard_request host (stream_of i b) b) (Handler.discard i) b

  ask_discard-arrivals : (i : ℕ) (b : Bolt5) → (ask_discard host i b).arrivals ≡ b.arrivals
  unfolding ask_discard
  ask_discard-arrivals i b =
      (send_queue-SameQueue host (append_discard host i (everything host i b))).arrivals
      ∙ append_discard-arrivals i (everything host i b)

  ask_discard-handlers :
      (i : ℕ) (b : Bolt5) → (ask_discard host i b).handlers ≡ b.handlers ++ (Handler.discard i ∷ [])
  unfolding ask_discard
  ask_discard-handlers i b =
      (send_queue-SameQueue host (append_discard host i (everything host i b))).handlers
      ∙ append_discard-handlers i (everything host i b)

  raise-Within :
      (o : Option BoltError) (k : Run (Unit {0})) (n : ℕ) (c : Bolt5)
      → length c.arrivals ≤ n
      → Within (length c.arrivals) (k c)
      → Within n (proceed (raise o c) (λ _. k))
  unfolding raise
  raise-Within none k n c l w = Within-mono _ n (k c) l w
  raise-Within (some e) k n c l w = l

  discard_batch-Within :
      (i : ℕ) (k : Run (Unit {0})) (b : Bolt5)
      → Within (length (ask_discard host i b).arrivals) (k (ask_discard host i b))
      → Within (length b.arrivals) ((discard_batch host i >> k) b)
  unfolding discard_batch change ◌>>◌ check_err unless_error
  discard_batch-Within i k b w =
      raise-Within (ask_discard host i b).err k (length b.arrivals) (ask_discard host i b)
        (omega (arith, ap length (ask_discard-arrivals i b))) w

  -- One where no message is waited for.
  one_if_idle : List Handler → ℕ
  one_if_idle [] = 1
  one_if_idle (h ∷ hs) = 0

  one_if_idle-append : (l : List Handler) (h : Handler) → one_if_idle (l ++ (h ∷ [])) ≡ 0
  unfolding one_if_idle
  one_if_idle-append [] h = refl
  one_if_idle-append (x ∷ l) h = refl

  one_if_idle-le : (l : List Handler) → one_if_idle l ≤ 1
  unfolding one_if_idle
  one_if_idle-le [] = omega arith
  one_if_idle-le (x ∷ l) = omega arith

  waiting-Below :
      (l : List Handler) (fuel : ℕ) (b : Bolt5)
      → length b.arrivals ≤ fuel
      → Below
          (length b.arrivals + one_if_idle l)
          (while_waiting l (receive host >> receive_rounds host fuel) b)
  unfolding ◌>>◌ one_if_idle
  waiting-Below [] fuel b lt = omega arith
  waiting-Below (h ∷ hs) fuel b lt = Below-mono (length b.arrivals) _ _ (omega arith) (
      proceed-Less (length b.arrivals) (receive host b) _ (receive-Below host b)
        (λ x c k. (receive_rounds-EndsBelow host fuel).run c (omega arith)))

  receive_all-Below :
      (b : Bolt5) → Below (length b.arrivals + one_if_idle b.handlers) (receive_all host b)
  unfolding receive_all ◌>>=◌ get receive_rounds
  receive_all-Below b = waiting-Below b.handlers (length b.arrivals) b (omega arith)

  -- With the fuel that `discard_stream` gives: one for each message, and two if none is waited for.
  EndsOn : ℕ → Run (Unit {0}) → Type 0
  EndsOn fuel m =
      (b : Bolt5)
      → length b.arrivals + one_if_idle b.handlers < fuel
      → Within (length b.arrivals) (m b)

  asked_fuel :
      (i : ℕ) (b : Bolt5) (fuel : ℕ)
      → length b.arrivals < fuel
      → length (ask_discard host i b).arrivals + one_if_idle (ask_discard host i b).handlers < fuel
  asked_fuel i b fuel lt = omega (
    arith,
    ap length (ask_discard-arrivals i b),
    ap one_if_idle (ask_discard-handlers i b) ∙ one_if_idle-append b.handlers (Handler.discard i),
  )

  branch-Within :
      (t : Bool) (m k : Run (Unit {0})) (b : Bolt5)
      → Within (length b.arrivals) (m b)
      → Within (length b.arrivals) (k b)
      → Within (length b.arrivals) (branch t m k b)
  unfolding branch
  branch-Within true m k b p q = p
  branch-Within false m k b p q = q

  after_checking :
      (fuel : ℕ) (t u : Bolt5 → Bool) (i : ℕ) (k l : Run (Unit {0})) (b : Bolt5)
      → Ends k
      → EndsOn fuel l
      → length b.arrivals < fuel
      → Within
          (length b.arrivals)
          ((check_err >> choose t (pure tt) (choose u k (discard_batch host i >> l))) b)
  unfolding EndsOn ◌>>◌ check_err unless_error choose
  after_checking fuel t u i k l b p q lt = raise-Within b.err _ _ b (omega arith) (
      branch-Within (t b) (pure tt) _ b ((pure-Ends tt).run b) (
        branch-Within (u b) k _ b (p.run b)
          (discard_batch-Within i l b (q (ask_discard host i b) (asked_fuel i b fuel lt)))))

  drop_stream-Ends : (i : ℕ) → Ends (change (drop_stream host i))
  drop_stream-Ends i =
      change-Ends _
        (λ b. (check_streams-SameQueue (record b { streams = remove i b.streams })).arrivals)

  discard_rounds-Within :
      (fuel : ℕ) (discarded : Bool) (i : ℕ) → EndsOn fuel (discard_rounds host fuel discarded i)
  unfolding EndsOn discard_rounds ◌>>◌
  discard_rounds-Within zero discarded i b lt = elim lt [ ]
  discard_rounds-Within (suc fuel) discarded i b lt =
      proceed-Both (length b.arrivals) fuel (receive_all host b) _ ((receive_all-Ends host).run b)
        (Below-mono _ fuel _ (omega arith) (receive_all-Below b))
        (λ x c l.
          after_checking fuel _ _ i (change (drop_stream host i)) (discard_rounds host fuel true i)
            c (drop_stream-Ends i) (discard_rounds-Within fuel true i) (omega arith))

  discard_current-Ends : (i : ℕ) → Ends (discard_current host i)
  unfolding discard_current EndsOn ◌>>=◌ get
  discard_current-Ends i = >>-Ends _ _ (change-Ends (start_discarding host i) (λ b. refl)) (
      early-Ends _ (record {
        run = λ b.
            discard_rounds-Within (length b.arrivals + 2) false i b
              (omega (arith, one_if_idle-le b.handlers));
      }))

  pub discard_stream-Ends : Ends (discard_stream host)
  unfolding discard_stream
  discard_stream-Ends =
      choose-Ends _ _ _
        (record {
          run = λ b.
              (with_current-Ends b.streams.curr (discard_current host) discard_current-Ends).run b;
        })
        (pure-Ends tt)

  pub discard_all_streams-Ends : Ends (discard_all_streams host)
  unfolding discard_all_streams
  discard_all_streams-Ends =
      choose-Ends _ _ _
        (>>-Ends _ _ discard_stream-Ends (
          change-Ends (λ b. check_streams (reset_streams host b))
            (λ b. (check_streams-SameQueue (reset_streams host b)).arrivals)))
        (pure-Ends tt)
