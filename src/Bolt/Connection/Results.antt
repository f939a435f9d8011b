-- ===== src/Bolt/Connection/Results.antt =====
-- neo4j/internal/bolt/bolt5.go: what is read from a stream, from Keys to Buffer.
use neo4j_go_driver.Base.{ℕ, zero, suc, false, Option, none, some, List, [], ◌∷◌, length}
use neo4j_go_driver.Bolt.Streams.Stream.{Next, buffered_next, err_of, get_unsafe, is_safe, is_curr}
use neo4j_go_driver.Bolt.Values.Value.{Text}
use neo4j_go_driver.Bolt.Connection.Errors.{BoltState, BoltError}
use neo4j_go_driver.Bolt.Connection.State.{Row, StreamSummary, Host, with_stream}
use neo4j_go_driver.Bolt.Connection.Queue.{
  Run, out_of_fuel, done, pure, get, change, throw, unless_error, ◌>>=◌, ◌>>◌, check_err, choose,
  is_empty, receive, assert_state,
}
use neo4j_go_driver.Bolt.Connection.Streaming.{
  stream_of, is_finished, append_pull, send, buffer_stream, pause_stream, resume_stream,
  discard_stream,
}

abbrev pub Stream : Type 0
Stream = Option ℕ

-- `getUnsafe` and its error.
unfoldable pub the_stream : Stream → Run ℕ
unfolding get_unsafe
the_stream handle = elim (get_unsafe handle) [
  | none ↦ throw BoltError.invalid_stream
  | some i ↦ pure i
]

unfoldable pub safe_stream : ℕ → Run (Unit {0})
safe_stream i = choose (λ b. is_safe i b.streams) (pure tt) (throw BoltError.invalid_stream)

module _ (host : Host) where
  unfoldable pub keys : Stream → Run (List Text)
  keys handle = do i ← the_stream handle; get (λ b. (stream_of i b).keys)

  unfoldable pub pull_batch : ℕ → Run (Unit {0})
  unfolding append_pull send
  pull_batch i =
      choose (λ b. (stream_of i b).end_of_batch)
        (change (append_pull host i)
          >> (send host >> change (with_stream i (λ s. record s { end_of_batch = false }))))
        (pure tt)

  unfoldable pub some_more : Run (Unit {0})
  some_more = choose is_empty (throw BoltError.more_results) (pure tt)

  -- What is buffered, or another round.
  unfoldable pub found :
      Next Row StreamSummary BoltError
      → Run (Next Row StreamSummary BoltError)
      → Run (Next Row StreamSummary BoltError)
  found (Next.next_record r) again = pure (Next.next_record r)
  found (Next.next_error e) again = throw e
  found (Next.next_summary s) again = pure (Next.next_summary s)
  found Next.not_buffered again = again

  unfoldable pub take_buffered : ℕ → Run (Next Row StreamSummary BoltError)
  unfolding buffered_next
  take_buffered i b =
      let (x, s) = buffered_next (stream_of i b) in done x (with_stream i (λ t. s) b)

  -- Each round takes a message.
  unfoldable pub next_rounds : ℕ → ℕ → Run (Next Row StreamSummary BoltError)
  unfolding take_buffered found pull_batch some_more receive
  next_rounds zero i b = out_of_fuel
  next_rounds (suc fuel) i b =
      (take_buffered i >>= λ x.
      found x (pull_batch i >> (some_more >> (receive host >> (check_err >> next_rounds fuel i)))))
        b

  unfoldable pub next : Stream → Run (Next Row StreamSummary BoltError)
  unfolding next_rounds the_stream
  next handle = do i ← the_stream handle; n ← get (λ b. length b.arrivals); next_rounds (suc n) i

  -- Makes a stream the current one.
  unfoldable pub make_current : ℕ → Run (Unit {0})
  unfolding pause_stream resume_stream
  make_current i =
      choose (λ b. is_curr i b.streams.curr) (pure tt)
        (pause_stream host >> (check_err >> change (resume_stream host i)))

  -- The stream must be one of the connection's, which is streaming.
  unfoldable pub own_stream : ℕ → Run (Unit {0})
  unfolding safe_stream assert_state make_current
  own_stream i = do
    safe_stream i
    assert_state (BoltState.streaming ∷ BoltState.streaming_tx ∷ [])
    make_current i

  abbrev summary_of : ℕ → Run (Option StreamSummary)
  summary_of i = unless_error (λ b. (stream_of i b).err) >> get (λ b. (stream_of i b).sum)

  unfoldable pub consume : Stream → Run (Option StreamSummary)
  unfolding the_stream own_stream discard_stream
  consume handle = do
    i ← the_stream handle
    choose (λ b. is_finished (stream_of i b)) (pure tt) (own_stream i >> discard_stream host)
    summary_of i

  unfoldable pub buffer : Stream → Run (Unit {0})
  unfolding the_stream own_stream buffer_stream err_of
  buffer handle = do
    i ← the_stream handle
    choose (λ b. is_finished (stream_of i b)) (pure tt) (own_stream i >> buffer_stream host)
    unless_error (λ b. err_of (stream_of i b))
