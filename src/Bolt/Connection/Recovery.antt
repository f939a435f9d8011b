-- ===== src/Bolt/Connection/Recovery.antt =====
-- What a connection reads from a server that ignores what was under way.
use neo4j_go_driver.Base.{
  ℕ, zero, suc, ◌<◌, ◌≡◌, refl, ap, ◌∙◌, arith, Bool, true, false, Option, none, some, List, [],
  ◌∷◌, ◌≤◌, length, if◌then◌else◌,
}
use neo4j_go_driver.Bolt.Streams.Stream.{remove}
use neo4j_go_driver.Bolt.Connection.Errors.{BoltError}
use neo4j_go_driver.Bolt.Connection.State.{
  Message, Handler, Bolt5, Host, check_streams, is_positive,
}
use neo4j_go_driver.Bolt.Connection.Responses.{on_ignored, fail_stream, end_stream}
use neo4j_go_driver.Bolt.Connection.Queue.{
  Run, done, respond, receive, receive_from, receive_rounds, receive_all, take_message, to_first,
  ignored, while_waiting,
}
use neo4j_go_driver.Bolt.Connection.Arrivals.{
  SameQueue, SameQueue-refl, SameQueue-trans, same_queue,
}
use neo4j_go_driver.Bolt.Connection.Steps.{>>-passes, get_then}

-- No RESET is under way.
abbrev pub NoReset : List Handler → Type 0
NoReset [] = Unit
NoReset (Handler.reset ∷ hs) = ⊥
NoReset (h ∷ hs) = NoReset hs

-- The server ignores each message that is under way.
unfoldable pub ignoring : List Handler → List Message → List Message
ignoring [] ms = ms
ignoring (h ∷ hs) ms = Message.ignored_message ∷ ignoring hs ms

-- The handlers that wait and the messages to come, with nothing gone wrong so far.
pub record Awaits (hs : List Handler) (ms : List Message) (b : Bolt5) : Type 0 where
  pub handlers : b.handlers ≡ hs
  pub arrivals : b.arrivals ≡ ms
  pub queue_err : b.queue_err ≡ none
  pub err : b.err ≡ none
  pub told : b.out.told ≡ []

-- What an IGNORED changes is only the streams.
record Skips (b c : Bolt5) : Type 0 where
  queue : SameQueue b c
  err : c.err ≡ b.err
  told : c.out.told ≡ b.out.told

Skips-refl : (b : Bolt5) → Skips b b
Skips-refl b = record { queue = SameQueue-refl b; err = refl; told = refl }

Skips-trans : {b c d : Bolt5} → Skips b c → Skips c d → Skips b d
Skips-trans p q = record {
  queue = SameQueue-trans p.queue q.queue;
  err = q.err ∙ p.err;
  told = q.told ∙ p.told;
}

Skips-if : {b c d : Bolt5} (t : Bool) → Skips b c → Skips b d → Skips b (if t then c else d)
Skips-if true p q = p
Skips-if false p q = q

check_streams-Skips : (b : Bolt5) → Skips b (check_streams b)
unfolding check_streams
check_streams-Skips b =
    Skips-if (is_positive b.streams.num) (Skips-refl b)
      (record { queue = same_queue b _ refl refl refl; err = refl; told = refl })

end_stream-Skips : (i : ℕ) (b : Bolt5) → Skips b (end_stream i b)
end_stream-Skips i b =
    Skips-trans
      (record {
        queue = same_queue b (record b { streams = remove i b.streams }) refl refl refl;
        err = refl;
        told = refl;
      })
      (check_streams-Skips _)

fail_stream-Skips : (i : ℕ) (e : BoltError) (b : Bolt5) → Skips b (fail_stream i e b)
fail_stream-Skips i e b = record { queue = same_queue b _ refl refl refl; err = refl; told = refl }

-- An IGNORED is accepted by every handler but that of a RESET.
on_ignored-Skips :
    (h : Handler) (hs : List Handler) (b : Bolt5)
    → NoReset (h ∷ hs)
    → (c : Bolt5) × (on_ignored h b ≡ some c) × Skips b c
unfolding on_ignored
on_ignored-Skips Handler.reset hs b n = absurd n
on_ignored-Skips (Handler.discard i) hs b n = (
  end_stream i (fail_stream i BoltError.interrupted_discard b),
  refl,
  Skips-trans (fail_stream-Skips i BoltError.interrupted_discard b) (end_stream-Skips i _),
)
on_ignored-Skips (Handler.pull i) hs b n = (
  end_stream i (fail_stream i BoltError.interrupted_pull b),
  refl,
  Skips-trans (fail_stream-Skips i BoltError.interrupted_pull b) (end_stream-Skips i _),
)
on_ignored-Skips h hs b n = (b, refl, Skips-refl b)

NoReset-tail : (h : Handler) (hs : List Handler) → NoReset (h ∷ hs) → NoReset hs
NoReset-tail Handler.reset hs n = absurd n
NoReset-tail h hs n = n

queue_next :
    (host : Host) (o : Option BoltError) (b : Bolt5)
    → o ≡ none
    → receive_from host o b ≡ take_message host b.arrivals b
queue_next host none b p = refl
queue_next host (some e) b p = cc

pub waiting_more :
    (l : List Handler) (h : Handler) (hs : List Handler) (m : Run (Unit {0})) (b : Bolt5)
    → l ≡ h ∷ hs
    → while_waiting l m b ≡ m b
waiting_more [] h hs m b p = cc
waiting_more (x ∷ l) h hs m b p = refl

pub waiting_no_more :
    (l : List Handler) (m : Run (Unit {0})) (b : Bolt5) → l ≡ [] → while_waiting l m b ≡ done tt b
waiting_no_more [] m b p = refl
waiting_no_more (x ∷ l) m b p = cc

module _ (host : Host) where
  pub receive_first :
      (h : Handler) (hs : List Handler) (m : Message) (ms : List Message) (b : Bolt5)
      → b.queue_err ≡ none
      → b.arrivals ≡ m ∷ ms
      → b.handlers ≡ h ∷ hs
      → receive host b ≡ respond host m h (record b { arrivals = ms; handlers = hs })
  unfolding receive
  receive_first h hs m ms b q a l =
      queue_next host b.queue_err b q
      ∙ ap (λ (x : List Message). take_message host x b) a
      ∙ ap (λ (x : List Handler). to_first host m x (record b { arrivals = ms })) l

  pub receive_next :
      (h : Handler) (hs : List Handler) (m : Message) (ms : List Message) (b : Bolt5)
      → Awaits (h ∷ hs) (m ∷ ms) b
      → receive host b ≡ respond host m h (record b { arrivals = ms; handlers = hs })
  receive_next h hs m ms b w = receive_first h hs m ms b w.queue_err w.arrivals w.handlers

  receive_ignored :
      (h : Handler) (hs : List Handler) (ms : List Message) (b : Bolt5)
      → NoReset (h ∷ hs)
      → Awaits (h ∷ hs) (Message.ignored_message ∷ ms) b
      → (c : Bolt5) × (receive host b ≡ done tt c) × Awaits hs ms c
  unfolding respond
  receive_ignored h hs ms b n w =
      let d = record b { arrivals = ms; handlers = hs } in
      let (c, e, k) = on_ignored-Skips h hs d n in
      (
        c,
        receive_next h hs Message.ignored_message ms b w
            ∙ ap (λ (o : Option Bolt5). ignored host o d) e,
        record {
          handlers = k.queue.handlers;
          arrivals = k.queue.arrivals;
          queue_err = k.queue.queue_err ∙ w.queue_err;
          err = k.err ∙ w.err;
          told = k.told ∙ w.told;
        },
      )

  rounds_ignored :
      (fuel : ℕ) (hs : List Handler) (ms : List Message) (b : Bolt5)
      → length hs < fuel
      → NoReset hs
      → Awaits hs (ignoring hs ms) b
      → (c : Bolt5) × (receive_rounds host fuel b ≡ done tt c) × Awaits [] ms c
  unfolding receive_rounds ignoring
  rounds_ignored zero hs ms b lt n w = elim lt [ ]
  rounds_ignored (suc fuel) [] ms b lt n w = (b, waiting_no_more b.handlers _ b w.handlers, w)
  rounds_ignored (suc fuel) (h ∷ hs) ms b lt n w =
      let (c, e, v) = receive_ignored h hs (ignoring hs ms) b n w in
      let (d, f, u) = rounds_ignored fuel hs ms c (omega arith) (NoReset-tail h hs n) v in
      (d, waiting_more b.handlers h hs _ b w.handlers ∙ >>-passes _ _ b c tt e ∙ f, u)

  length-ignoring : (hs : List Handler) (ms : List Message) → length hs ≤ length (ignoring hs ms)
  unfolding ignoring
  length-ignoring [] ms = omega arith
  length-ignoring (h ∷ hs) ms = omega (arith, length-ignoring hs ms)

  pub all_ignored :
      (hs : List Handler) (ms : List Message) (b : Bolt5)
      → NoReset hs
      → Awaits hs (ignoring hs ms) b
      → (c : Bolt5) × (receive_all host b ≡ done tt c) × Awaits [] ms c
  unfolding receive_all
  all_ignored hs ms b n w =
      let (c, e, v) =
        rounds_ignored (suc (length b.arrivals)) hs ms b
          (omega (arith, length-ignoring hs ms, ap length w.arrivals)) n w in
      (c, get_then (λ d. length d.arrivals) _ b ∙ e, v)
