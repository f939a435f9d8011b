-- ===== src/Bolt/Framing/Tests.antt =====
-- Messages sent and received at concrete sizes, and the theorems of this tree at these inputs.
use neo4j_go_driver.Base.{ℕ, ◌≡◌, ◌≢◌, refl, arith, Option, none, some, List, [], ◌∷◌, ◌++◌, flat}
use neo4j_go_driver.Bolt.Framing.Chunker.{new_chunker, IoFault, canceled, send, done}
use neo4j_go_driver.Bolt.Framing.Dechunker.{received, out_of_fuel, dechunk_message}
use neo4j_go_driver.Bolt.Framing.Wire.{wire, wire_all, wire_chunks}
use neo4j_go_driver.Bolt.Framing.RoundTrip.{
  add_messages, send-wire_all, dechunk_message-wire, dechunk_message-ne-out_of_fuel,
}
use neo4j_go_driver.Bolt.Framing.EndToEnd.{receive_all, send-receive_all}
use neo4j_go_driver.Packstream.Bytes.{be_bytes}

abbrev two_messages : List (List ℕ)
two_messages = (1 ∷ 2 ∷ 3 ∷ []) ∷ (4 ∷ []) ∷ []

abbrev takes_all : ℕ → Option IoFault
takes_all k = none

wire_run : wire_all two_messages ≡ 0 ∷ 3 ∷ 1 ∷ 2 ∷ 3 ∷ 0 ∷ 0 ∷ 0 ∷ 1 ∷ 4 ∷ 0 ∷ 0 ∷ []
unfolding wire_all wire wire_chunks be_bytes
wire_run = refl

send-receive_all_example :
    (writes : List (List ℕ)) × (send takes_all (add_messages two_messages new_chunker)
      ≡ done new_chunker writes)
    × (receive_all canceled 2 (flat writes) [] ≡ some two_messages)
send-receive_all_example =
    send-receive_all takes_all canceled two_messages [] (λ k. refl) (omega arith, (omega arith, tt))

send-wire_all_example :
    (writes : List (List ℕ)) × (send takes_all (add_messages two_messages new_chunker)
      ≡ done new_chunker writes)
    × (flat writes ≡ wire_all two_messages)
send-wire_all_example = send-wire_all takes_all (λ k. refl) two_messages

dechunk_message-wire_example :
    (buf' : List ℕ) × (dechunk_message canceled (wire (7 ∷ 8 ∷ []) ++ (9 ∷ [])) []
      ≡ received buf' (7 ∷ 8 ∷ []) (9 ∷ []))
dechunk_message-wire_example = dechunk_message-wire canceled (7 ∷ 8 ∷ []) (9 ∷ []) [] (omega arith)

dechunk_message-ne-out_of_fuel_example : dechunk_message canceled (0 ∷ 5 ∷ 1 ∷ []) [] ≢ out_of_fuel
dechunk_message-ne-out_of_fuel_example = dechunk_message-ne-out_of_fuel canceled (0 ∷ 5 ∷ 1 ∷ []) []
