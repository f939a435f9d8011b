-- ===== src/Bolt/Connection/Pulling.antt =====
-- What a connection does with the records of its current stream.
use neo4j_go_driver.Base.{
  ℕ, suc, ◌+◌, ◌≡◌, refl, ap, ◌∙◌, arith, Bool, true, false, Option, none, some, List, [], ◌∷◌,
  ◌++◌, length, nat_beq_iff, if◌then◌else◌,
}
use neo4j_go_driver.Base.Int.{ℤ, pos}
use neo4j_go_driver.Bolt.Streams.Stream.{point, push, remove, is_curr, sub_one}
use neo4j_go_driver.Bolt.Values.Value.{Items, Text}
use neo4j_go_driver.Bolt.Values.Success.{Success}
use neo4j_go_driver.Bolt.Connection.Errors.{BoltState}
use neo4j_go_driver.Bolt.Connection.State.{
  Message, Handler, Bolt5, BoltStream, Host, Row, StreamSummary, with_stream, check_streams,
  not_streaming, is_positive,
}
use neo4j_go_driver.Bolt.Connection.Responses.{
  on_success, on_pull_record, on_pull_success, on_discard_success, finish_stream, take_record,
  drop_records, keep_bookmark, extract_summary, set_summary,
}
use neo4j_go_driver.Bolt.Connection.Queue.{done, respond, receive, receive_rounds}
use neo4j_go_driver.Bolt.Connection.Streaming.{stream_of}
use neo4j_go_driver.Bolt.Connection.Recovery.{receive_first, waiting_more}
use neo4j_go_driver.Bolt.Connection.Steps.{>>-passes}

suc-add : (m n : ℕ) → suc m + n ≡ suc (m + n)
suc-add m n = omega arith

zero-plus : (n : ℕ) → 0 + n ≡ n
zero-plus n = omega arith

if_false : {A : Type 0} (t : Bool) (x y : A) → t ≡ false → (if t then x else y) ≡ y
if_false true x y h = cc
if_false false x y h = refl

stream-with_stream :
    (i : ℕ) (f : BoltStream → BoltStream) (b : Bolt5)
    → stream_of i (with_stream i f b) ≡ f (stream_of i b)
stream-with_stream i f b = rw ((nat_beq_iff i i).1 refl)

-- The stream `i` is current and is the only one that is open, its PULL is under way, and it is as
-- `t` says.
pub record Pulls (i : ℕ) (st : BoltState) (t : BoltStream) (ms : List Message) (b : Bolt5)
    : Type 0 where
  pub handlers : b.handlers ≡ Handler.pull i ∷ []
  pub arrivals : b.arrivals ≡ ms
  pub queue_err : b.queue_err ≡ none
  pub err : b.err ≡ none
  pub stream : stream_of i b ≡ t
  pub current : b.streams.curr ≡ some i
  pub alone : b.streams.num ≡ pos 1
  pub state : b.state ≡ st

abbrev pub row : List Text → Items → Row
row keys vs = record { keys = keys; values = vs }

abbrev pub with_rows : List Items → BoltStream → BoltStream
with_rows [] t = t
with_rows (vs ∷ rs) t =
    with_rows rs (record t { had_record = true; fifo = t.fifo ++ (row t.keys vs ∷ []) })

abbrev add_row : Items → BoltStream → BoltStream
add_row vs t = record t { had_record = true; fifo = t.fifo ++ (row t.keys vs ∷ []) }

point_self : {A : Type 0} (i : ℕ) (a : A) (f : ℕ → A) → point i a f i ≡ a
point_self i a f = rw ((nat_beq_iff i i).1 refl)

take_record-kept :
    (vs : Items) (t : BoltStream) → t.discarding ≡ false → take_record vs t ≡ add_row vs t
unfolding push
take_record-kept vs t d = if_false t.discarding _ _ d

drop_records-kept : (t : BoltStream) → t.discarding ≡ false → drop_records t ≡ t
drop_records-kept t d = if_false t.discarding _ _ d

unfoldable pub records : List Items → List Message → List Message
records [] ms = ms
records (vs ∷ rs) ms = Message.record_message vs ∷ records rs ms

module _ (host : Host) (i : ℕ) (st : BoltState) where
  receive_record :
      (t : BoltStream) (vs : Items) (ms : List Message) (b : Bolt5)
      → t.discarding ≡ false
      → Pulls i st t (Message.record_message vs ∷ ms) b
      → (c : Bolt5) × (receive host b ≡ done tt c) × Pulls i st (add_row vs t) ms c
  unfolding respond on_pull_record
  receive_record t vs ms b d w =
      let e = record b { arrivals = ms; handlers = [] } in
      (
        on_pull_record i vs e,
        receive_first host (Handler.pull i) [] (Message.record_message vs) ms b w.queue_err
            w.arrivals w.handlers,
        record {
          handlers = refl;
          arrivals = refl;
          queue_err = w.queue_err;
          err = w.err;
          stream =
              stream-with_stream i (take_record vs) e
              ∙ ap (take_record vs) w.stream
              ∙ take_record-kept vs t d;
          current = w.current;
          alone = w.alone;
          state = w.state;
        },
      )

  pub rounds_records :
      (fuel : ℕ) (rs : List Items) (ms : List Message) (t : BoltStream) (b : Bolt5)
      → t.discarding ≡ false
      → Pulls i st t (records rs ms) b
      → (c : Bolt5) × (receive_rounds host (length rs + fuel) b ≡ receive_rounds host fuel c)
        × Pulls i st (with_rows rs t) ms c
  unfolding receive_rounds records
  rounds_records fuel [] ms t b d w =
      (b, ap (λ (n : ℕ). receive_rounds host n b) (zero-plus fuel), w)
  rounds_records fuel (vs ∷ rs) ms t b d w =
      let (c, e, v) = receive_record t vs (records rs ms) b d w in
      let (a, f, u) = rounds_records fuel rs ms (add_row vs t) c d v in
      (
        a,
        ap (λ (n : ℕ). receive_rounds host n b) (suc-add (length rs) fuel)
            ∙ waiting_more b.handlers (Handler.pull i) [] _ b w.handlers
            ∙ >>-passes _ _ b c tt e
            ∙ f,
        u,
      )

  -- The stream has ended.
  no_current : (o : Option ℕ) → o ≡ some i → (if is_curr i o then none else o) ≡ none
  no_current o p = rw (p, (nat_beq_iff i i).1 refl)

  pub record Ended (s : Success) (t : BoltStream) (ms : List Message) (c : Bolt5) : Type 0 where
    pub handlers : c.handlers ≡ []
    pub arrivals : c.arrivals ≡ ms
    pub err : c.err ≡ none
    pub state : c.state ≡ not_streaming st
    pub current : c.streams.curr ≡ none
    pub rows : (stream_of i c).fifo ≡ t.fifo
    pub summary : (r : StreamSummary) × ((stream_of i c).sum ≡ some r) × (r.of_success ≡ s)

  check_streams-none :
      (b : Bolt5)
      → is_positive b.streams.num ≡ false
      → check_streams b ≡ record b { state = not_streaming b.state }
  unfolding check_streams
  check_streams-none b h = if_false (is_positive b.streams.num) _ _ h

  -- `receive` at the last SUCCESS.
  abbrev pub last_state : Success → List Message → Bolt5 → Bolt5
  last_state s ms b =
      let e = with_stream i drop_records (record b { arrivals = ms; handlers = [] }) in
      let f = set_summary i (extract_summary s (stream_of i e) e) (keep_bookmark s.bookmark e) in
      record f { streams = remove i f.streams; state = not_streaming f.state }

  pub receive_last :
      (s : Success) (t : BoltStream) (ms : List Message) (b : Bolt5)
      → s.has_more ≡ false
      → Pulls i st t (Message.success_message s ∷ ms) b
      → receive host b ≡ done tt (last_state s ms b)
  unfolding respond on_success on_pull_success on_discard_success finish_stream remove
  receive_last s t ms b last w =
      receive_first host (Handler.pull i) [] (Message.success_message s) ms b w.queue_err w.arrivals
        w.handlers
      ∙ ap (λ (c : Bolt5). done tt c)
          (if_false s.has_more _ _ last
            ∙ check_streams-none _ (ap (λ (n : ℤ). is_positive (sub_one n)) w.alone))

  abbrev dropped : List Message → Bolt5 → Bolt5
  dropped ms b = with_stream i drop_records (record b { arrivals = ms; handlers = [] })

  abbrev summed : Success → List Message → Bolt5 → Bolt5
  summed s ms b =
      let e = dropped ms b in
      set_summary i (extract_summary s (stream_of i e) e) (keep_bookmark s.bookmark e)

  last_stream :
      (s : Success) (ms : List Message) (b : Bolt5)
      → stream_of i (last_state s ms b) ≡ record (stream_of i (summed s ms b)) { key = 0 }
  unfolding remove
  last_stream s ms b =
      point_self i (record (stream_of i (summed s ms b)) { key = 0 }) (summed s ms b).streams.store

  summed_stream :
      (s : Success) (ms : List Message) (b : Bolt5)
      → stream_of i (summed s ms b) ≡ record (stream_of i (dropped ms b)) {
        sum = some (extract_summary s (stream_of i (dropped ms b)) (dropped ms b));
      }
  summed_stream s ms b =
      stream-with_stream i
        (λ u. record u {
          sum = some (extract_summary s (stream_of i (dropped ms b)) (dropped ms b));
        })
        (keep_bookmark s.bookmark (dropped ms b))

  pub last_state-Ended :
      (s : Success) (t : BoltStream) (ms : List Message) (b : Bolt5)
      → t.discarding ≡ false
      → Pulls i st t (Message.success_message s ∷ ms) b
      → Ended s t ms (last_state s ms b)
  unfolding remove extract_summary
  last_state-Ended s t ms b d w = record {
    handlers = refl;
    arrivals = refl;
    err = w.err;
    state = ap not_streaming w.state;
    current = no_current b.streams.curr w.current;
    rows =
        ap (λ (u : BoltStream). u.fifo) (last_stream s ms b)
        ∙ ap (λ (u : BoltStream). u.fifo) (summed_stream s ms b)
        ∙ ap (λ (u : BoltStream). u.fifo)
            (stream-with_stream i drop_records (record b { arrivals = ms; handlers = [] }))
        ∙ ap (λ (u : BoltStream). (drop_records u).fifo) w.stream
        ∙ ap (λ (u : BoltStream). u.fifo) (drop_records-kept t d);
    summary = (
      extract_summary s (stream_of i (dropped ms b)) (dropped ms b),
      ap (λ (u : BoltStream). u.sum) (last_stream s ms b)
          ∙ ap (λ (u : BoltStream). u.sum) (summed_stream s ms b),
      refl,
    );
  }
