-- ===== src/Bolt/Framing/EndToEnd.antt =====
-- A connection's messages from one chunker through the wire into a receiver.
use neo4j_go_driver.Base.{
  ℕ, zero, suc, ◌<◌, ◌≡◌, refl, arith, Option, none, some, List, [], ◌∷◌, length, flat, All,
}
use neo4j_go_driver.Bolt.Framing.Chunker.{new_chunker, IoFault, send, done}
use neo4j_go_driver.Bolt.Framing.Dechunker.{received, read_failed, out_of_fuel, dechunk_message}
use neo4j_go_driver.Bolt.Framing.Wire.{wire_all}
use neo4j_go_driver.Bolt.Framing.RoundTrip.{add_messages, send-wire_all, dechunk_message-wire}
use mathlib.Core.Option

-- `n` messages, each received with the buffer that the one before left; `none` after an error.
unfoldable pub receive_all : IoFault → ℕ → List ℕ → List ℕ → Option (List (List ℕ))
receive_all fault zero conn buf = some []
receive_all fault (suc n) conn buf = elim (dechunk_message fault conn buf) [
  | received buf' m rest ↦ Option.map (◌∷◌ m) (receive_all fault n rest buf')
  | read_failed e buf' ↦ none
  | out_of_fuel ↦ none
]

receive_all-wire_all :
    (fault : IoFault) (ms : List (List ℕ)) (buf : List ℕ)
    → All (λ m. 0 < length m) ms
    → receive_all fault (length ms) (wire_all ms) buf ≡ some ms
unfolding receive_all wire_all
receive_all-wire_all fault [] buf h = refl
receive_all-wire_all fault (m ∷ ms) buf h =
    let (buf', e) = dechunk_message-wire fault m (wire_all ms) buf h.0 in
    ground (arith, e, receive_all-wire_all fault ms buf' h.1)

-- Messages of at least one byte each, of any length, that are packed one after the other into a
-- new chunker and sent through a writer that takes every write, leave the chunker as new, and a
-- receiver at the other end gets exactly these messages in this order.
pub send-receive_all :
    (writer : ℕ → Option IoFault) (reader : IoFault) (ms : List (List ℕ)) (buf : List ℕ)
    → ((k : ℕ) → writer k ≡ none)
    → All (λ m. 0 < length m) ms
    → (writes : List (List ℕ)) × (send writer (add_messages ms new_chunker)
        ≡ done new_chunker writes)
      × (receive_all reader (length ms) (flat writes) buf ≡ some ms)
send-receive_all writer reader ms buf sound h =
    let (writes, e, w) = send-wire_all writer sound ms in
    (writes, e, rw w (receive_all-wire_all reader ms buf h))
