-- ===== src/Bolt/Connection/Streaming.antt =====
-- neo4j/internal/bolt/bolt5.go: the functions that read from a stream or stop reading from it, and
-- `run`. `now` is the time of the call.
use neo4j_go_driver.Base.{
  ℕ, zero, suc, ◌+◌, Bool, true, false, not, Option, none, some, [], ◌∷◌, ◌&&◌, ◌||◌, length,
  if◌then◌else◌,
}
use neo4j_go_driver.Base.Int.{ℤ, pos, negsuc, eq_ℤ}
use neo4j_go_driver.Bolt.Streams.Stream.{pause, resume, remove, reset, point}
use neo4j_go_driver.Bolt.Values.Value.{Text}
use neo4j_go_driver.Bolt.Values.Any.{Entries}
use neo4j_go_driver.Bolt.Values.Pack.{Outgoing}
use neo4j_go_driver.Bolt.Values.Requests.{
  append_run, append_pull_n, append_pull_n_qid, append_discard_n, append_discard_n_qid,
}
use neo4j_go_driver.Bolt.Connection.Errors.{BoltState, state_beq}
use neo4j_go_driver.Bolt.Connection.Meta.{InternalTx, to_meta}
use neo4j_go_driver.Bolt.Connection.State.{
  BoltStream, Handler, Bolt5, Host, set_state, with_stream, check_streams,
}
use neo4j_go_driver.Bolt.Connection.Queue.{
  Run, out_of_fuel, done, pure, get, change, ◌>>=◌, ◌>>◌, check_err, choose, early, with_current,
  append, enqueue, send_queue, receive, receive_all, assert_state,
}

abbrev pub is_some : {A : Type 0} → Option A → Bool
is_some none = false
is_some (some a) = true

-- `stream.sum != nil || stream.err != nil`
abbrev pub is_finished : BoltStream → Bool
is_finished s = is_some s.sum || is_some s.err

abbrev pub stream_of : ℕ → Bolt5 → BoltStream
stream_of i b = b.streams.store i

abbrev pub new_stream : ℤ → BoltStream
new_stream fetch_size = record {
  attached = false;
  keys = [];
  fifo = [];
  sum = none;
  err = none;
  qid = pos 0;
  fetch_size = fetch_size;
  key = 0;
  end_of_batch = false;
  discarding = false;
  tfirst = pos 0;
  had_record = false;
}

unfoldable pub normalize_fetch_size : ℤ → ℤ
normalize_fetch_size (pos zero) = pos 1000
normalize_fetch_size (pos (suc n)) = pos (suc n)
normalize_fetch_size (negsuc n) = negsuc 0

abbrev pub is_streaming : BoltState → Bool
is_streaming s = state_beq s BoltState.streaming || state_beq s BoltState.streaming_tx

-- RUN makes a connection that is ready stream, and one in a transaction likewise.
abbrev pub now_streaming : BoltState → BoltState
now_streaming BoltState.ready = BoltState.streaming
now_streaming BoltState.tx = BoltState.streaming_tx
now_streaming s = s

module _ (host : Host) where
  abbrev pub pull_with : BoltState → ℕ → BoltStream → Bolt5 → Bolt5
  pull_with BoltState.streaming i s b = append host (append_pull_n s.fetch_size) (Handler.pull i) b
  pull_with BoltState.streaming_tx i s b =
      append host
        (if eq_ℤ s.qid b.last_qid
          then append_pull_n s.fetch_size
          else append_pull_n_qid s.fetch_size s.qid)
        (Handler.pull i) b
  pull_with state i s b = b

  unfoldable pub append_pull : ℕ → Bolt5 → Bolt5
  unfolding append
  append_pull i b = pull_with b.state i (stream_of i b) b

  abbrev pub discard_request : BoltStream → Bolt5 → Outgoing → Outgoing
  discard_request s b =
      if state_beq b.state BoltState.streaming_tx && not (eq_ℤ s.qid b.last_qid)
      then append_discard_n_qid s.fetch_size s.qid
      else append_discard_n s.fetch_size

  unfoldable pub append_discard : ℕ → Bolt5 → Bolt5
  unfolding append
  append_discard i b = append host (discard_request (stream_of i b) b) (Handler.discard i) b

  unfoldable pub send : Run (Unit {0})
  unfolding send_queue
  send = change (send_queue host) >> check_err

  abbrev pub everything : ℕ → Bolt5 → Bolt5
  everything i = with_stream i (λ s. record s { fetch_size = negsuc 0 })

  unfoldable pub next_batch : ℕ → Run (Unit {0})
  unfolding append_pull send
  next_batch i =
      choose (λ b. (stream_of i b).end_of_batch)
        (change (λ c. append_pull i (everything i c)) >> send) (pure tt)

  -- The rounds of the loop; each but the first takes a message.
  unfoldable pub buffer_rounds : ℕ → ℕ → Run (Unit {0})
  unfolding next_batch receive_all
  buffer_rounds zero i b = out_of_fuel
  buffer_rounds (suc fuel) i b =
      (receive_all host
          >> (check_err
              >> choose (λ c. is_finished (stream_of i c)) (pure tt)
                  (next_batch i >> buffer_rounds fuel i)))
        b

  unfoldable pub buffer_stream : Run (Unit {0})
  unfolding buffer_rounds
  buffer_stream b =
      with_current b.streams.curr (λ i. early (buffer_rounds (length b.arrivals + 2) i)) b

  unfoldable pub pause_current : ℕ → Run (Unit {0})
  unfolding receive_all pause
  pause_current i =
      receive_all host
      >> (check_err
          >> choose (λ c. not (is_finished (stream_of i c)) && (stream_of i c).end_of_batch)
              (change (λ d. record d { streams = pause d.streams })) (pure tt))

  unfoldable pub pause_stream : Run (Unit {0})
  unfolding pause_current
  pause_stream b = with_current b.streams.curr (λ i. early (pause_current i)) b

  unfoldable pub resume_stream : ℕ → Bolt5 → Bolt5
  unfolding append_pull send_queue resume
  resume_stream i b = send_queue host (append_pull i (record b { streams = resume i b.streams }))

  abbrev pub drop_stream : ℕ → Bolt5 → Bolt5
  drop_stream i b = check_streams (record b { streams = remove i b.streams })

  -- Asks for the rest, and sends.
  unfoldable pub ask_discard : ℕ → Bolt5 → Bolt5
  unfolding append_discard send_queue
  ask_discard i b = send_queue host (append_discard i (everything i b))

  unfoldable pub discard_batch : ℕ → Run (Unit {0})
  unfolding ask_discard
  discard_batch i = change (ask_discard i) >> check_err

  unfoldable pub discard_rounds : ℕ → (discarded : Bool) → ℕ → Run (Unit {0})
  unfolding discard_batch receive_all check_streams remove
  discard_rounds zero discarded i b = out_of_fuel
  discard_rounds (suc fuel) discarded i b =
      (receive_all host
          >> (check_err
              >> choose (λ c. is_finished (stream_of i c)) (pure tt)
                  (choose (λ c. (stream_of i c).end_of_batch && discarded) (change (drop_stream i))
                    (discard_batch i >> discard_rounds fuel true i))))
        b

  abbrev pub start_discarding : ℕ → Bolt5 → Bolt5
  start_discarding i = with_stream i (λ s. record s { discarding = true })

  unfoldable pub discard_current : ℕ → Run (Unit {0})
  unfolding discard_rounds
  discard_current i =
      change (start_discarding i)
      >> early (get (λ b. length b.arrivals) >>= λ n. discard_rounds (n + 2) false i)

  unfoldable pub discard_stream : Run (Unit {0})
  unfolding discard_current
  discard_stream =
      choose (λ b. is_streaming b.state) (λ b. with_current b.streams.curr discard_current b)
        (pure tt)

  abbrev pub reset_streams : Bolt5 → Bolt5
  reset_streams b = record b { streams = reset host.now b.streams }

  unfoldable pub discard_all_streams : Run (Unit {0})
  unfolding discard_stream check_streams reset
  discard_all_streams =
      choose (λ b. is_streaming b.state)
        (discard_stream >> change (λ b. check_streams (reset_streams b))) (pure tt)

  -- Reads until the RUN is answered.
  unfoldable pub attach_rounds : ℕ → ℕ → Run (Unit {0})
  unfolding receive
  attach_rounds zero i b = out_of_fuel
  attach_rounds (suc fuel) i b =
      choose (λ c. (stream_of i c).attached) (pure tt)
        (receive host >> (check_err >> attach_rounds fuel i)) b

  unfoldable pub make_stream : ℤ → Run ℕ
  make_stream fetch_size b = done b.fresh (record b {
    fresh = suc b.fresh;
    streams = record b.streams { store = point b.fresh (new_stream fetch_size) b.streams.store };
  })

  unfoldable pub leave_stream : BoltState → Run (Unit {0})
  unfolding buffer_stream pause_stream
  leave_stream BoltState.streaming = buffer_stream >> check_err
  leave_stream BoltState.streaming_tx = pause_stream >> check_err
  leave_stream s = pure tt

  unfoldable pub run : Text → Entries → ℤ → Option InternalTx → Run ℕ
  unfolding leave_stream assert_state normalize_fetch_size send attach_rounds to_meta make_stream
  run cypher params raw_fetch_size tx = do
    state ← get (λ b. b.state)
    leave_stream state
    assert_state (BoltState.tx ∷ BoltState.ready ∷ BoltState.streaming_tx ∷ [])
    let fetch_size = normalize_fetch_size raw_fetch_size
    i ← make_stream fetch_size
    minor ← get (λ b. b.minor)
    enqueue host (append_run host.zones cypher params (to_meta minor tx)) (Handler.run i)
    enqueue host (append_pull_n fetch_size) (Handler.pull i)
    send
    n ← get (λ b. length b.arrivals)
    attach_rounds (suc n) i
    change (λ b. set_state (now_streaming b.state) b)
    pure i
