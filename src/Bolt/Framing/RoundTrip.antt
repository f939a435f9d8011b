-- ===== src/Bolt/Framing/RoundTrip.antt =====
-- From `send` to `dechunkMessage`: messages packed into a chunker, sent, and received one by one.
use neo4j_go_driver.Base.{
  ℕ, zero, suc, ◌+◌, ◌-◌, ◌≤◌, ◌<◌, ◌≡◌, ◌≢◌, refl, sym, ap, ◌∙◌, ◌⊎◌, inl, inr, false, Option,
  none, some, List, [], ◌∷◌, ◌++◌, length, take, drop, ltb, arith, append_assoc, append-nil,
  length-append, length-drop, take-length_eq, Bool-cases, drop-length, flat, flat-append, map,
}
use neo4j_go_driver.Bolt.Framing.Chunker.{
  Chunker, new_chunker, begin_message, end_message, IoFault, Sending, going, slice, last_write,
  send, reset, done,
}
use neo4j_go_driver.Bolt.Framing.Dechunker.{
  received, out_of_fuel, read_full, chunk_size, expand, write_at, dechunk_loop, dechunk_message,
}
use neo4j_go_driver.Bolt.Framing.Wire.{wire_chunks, wire, wire_all}
use neo4j_go_driver.Bolt.Framing.Send.{IsSplit, stream}
use neo4j_go_driver.Bolt.Framing.Delivery.{frames, send_sizes-Delivers, write_lem}
use neo4j_go_driver.Bolt.Framing.Receive.{receive_chunks, read_full_lem, size_zero}

read_full_cases :
    (n : ℕ) (conn : List ℕ)
    → (read_full n conn ≡ none)
      ⊎ ((n ≤ length conn) × (read_full n conn ≡ some (take n conn, drop n conn)))
unfolding read_full
read_full_cases n conn = ground arith

-- What outgoing does for each message: begin, the packed bytes, end.
unfoldable pub add_message : List ℕ → Chunker → Chunker
add_message m c = let begun = begin_message c in end_message (record begun { buf = begun.buf ++ m })

unfoldable pub add_messages : List (List ℕ) → Chunker → Chunker
add_messages [] c = c
add_messages (m ∷ ms) c = add_messages ms (add_message m c)

-- The buffer is all accounted for.
abbrev IsEven : Chunker → Type 0
IsEven c = c.offset ≡ length c.buf

add_message_lem :
    (m : List ℕ) (c : Chunker)
    → IsEven c
    → (IsEven (add_message m c))
      × ((add_message m c).buf ≡ c.buf ++ (0 ∷ 0 ∷ (m ++ (0 ∷ 0 ∷ []))))
      × ((add_message m c).sizes ≡ c.sizes ++ (length m ∷ []))
unfolding add_message begin_message end_message
add_message_lem m c even = (
  omega (
    arith,
    even,
    length-append c.buf (0 ∷ 0 ∷ []),
    length-append (c.buf ++ (0 ∷ 0 ∷ [])) m,
    length-append ((c.buf ++ (0 ∷ 0 ∷ [])) ++ m) (0 ∷ 0 ∷ []),
  ),
  simp append_assoc,
  ap (λ (n : ℕ). c.sizes ++ (n ∷ []))
      (omega
        (arith, even, length-append c.buf (0 ∷ 0 ∷ []), length-append (c.buf ++ (0 ∷ 0 ∷ [])) m)),
)

add_messages_lem :
    (ms : List (List ℕ)) (c : Chunker)
    → IsEven c
    → ((add_messages ms c).buf ≡ c.buf ++ frames ms)
      × ((add_messages ms c).sizes ≡ c.sizes ++ map length ms)
unfolding add_messages
add_messages_lem [] c even = (sym (append-nil c.buf), sym (append-nil c.sizes))
add_messages_lem (m ∷ ms) c even =
    let (even', b, z) = add_message_lem m c even in
    let (b', z') = add_messages_lem ms (add_message m c) even' in
    (
      b' ∙ rw b (simp append_assoc),
      z' ∙ rw z (append_assoc c.sizes (length m ∷ []) (map length ms)),
    )

whole_slice :
    (start end : ℕ) (buf pre : List ℕ)
    → buf ≡ pre ++ []
    → end ≡ length pre
    → slice start end buf ≡ drop start pre
whole_slice start end buf pre e h =
    rw (e, append-nil pre)
      (ap (take (end - start)) (sym (append-nil (drop start pre)))
        ∙ take-length_eq (end - start) (drop start pre) []
            (omega (arith, length-drop start pre, h)))

nothing_left :
    (start end : ℕ) (pre : List ℕ)
    → ltb start end ≡ false
    → end ≡ length pre
    → start ≤ length pre
    → drop start pre ≡ []
nothing_left start end pre over h k =
    let e : start ≡ length pre = ground arith in rw e (drop-length pre)

module _ (fault : ℕ → Option IoFault) (sound : (k : ℕ) → fault k ≡ none) where
  last_write_lem :
      (s : Sending) (pre : List ℕ)
      → IsSplit s pre []
      → (t : Sending) × (last_write fault s ≡ going t) × (flat t.writes ≡ stream s pre)
  unfolding last_write
  last_write_lem s pre split = elim (Bool-cases (ltb s.start s.end)) [
    | inl more ↦
        let out = slice s.start s.end s.buf in
        (
          record s { writes = s.writes ++ (out ∷ []) },
          rw more (write_lem fault sound s),
          flat-append s.writes (out ∷ [])
              ∙ ap (◌++◌ (flat s.writes))
                  (append-nil out ∙ whole_slice s.start s.end s.buf pre split.whole split.at),
        )
    | inr over ↦ (
      s,
      rw over,
      sym (
          rw (nothing_left s.start s.end pre over split.at split.started)
            (append-nil (flat s.writes))),
    )
  ]

  -- Whatever the messages, a writer without faults is given exactly their wire format, in order,
  -- and the chunker is then as good as new.
  pub send-wire_all :
      (ms : List (List ℕ))
      → (writes : List (List ℕ)) × (send fault (add_messages ms new_chunker)
          ≡ done new_chunker writes)
        × (flat writes ≡ wire_all ms)
  unfolding send new_chunker reset
  send-wire_all ms =
      let all = add_messages_lem ms new_chunker refl in
      let s : Sending = record {
        buf = (add_messages ms new_chunker).buf;
        start = 0;
        end = 0;
        writes = [];
      } in
      let split : IsSplit s [] (frames ms) = record {
        whole = all.0;
        at = refl;
        started = omega arith;
      } in
      let d = send_sizes-Delivers fault sound ms s [] split in
      let (t, e, w) = last_write_lem d.state d.ready d.split in
      (t.writes, rw (all.1, d.returns, e), w ∙ d.sent)

-- A message of at least one byte comes back as it was, and the connection is left behind it.
pub dechunk_message-wire :
    (fault : IoFault) (m rest buf : List ℕ)
    → 0 < length m
    → (buf' : List ℕ) × (dechunk_message fault (wire m ++ rest) buf ≡ received buf' m rest)
unfolding dechunk_message wire
dechunk_message-wire fault m rest buf pos =
    rw (append_assoc (wire_chunks (length m) m) (0 ∷ 0 ∷ []) rest) (
      receive_chunks fault (length m) m _ 0 buf [] rest pos (omega arith)
        (omega (arith, length-append (wire_chunks (length m) m) (0 ∷ 0 ∷ rest))) refl (omega arith)
        refl)

module _ (fault : IoFault) where
  -- More fuel than enough changes nothing.
  dechunk_loop_more :
      (fuel : ℕ) (conn buf : List ℕ) (off : ℕ)
      → dechunk_loop fault fuel conn buf off ≢ out_of_fuel
      → dechunk_loop fault (suc fuel) conn buf off ≡ dechunk_loop fault fuel conn buf off
  unfolding dechunk_loop
  dechunk_loop_more zero conn buf off h = absurd (h refl)
  dechunk_loop_more (suc fuel) conn buf off h =
      let rest = drop 2 conn in
      let n = chunk_size (take 2 conn) in
      ground (
        arith,
        read_full_cases 2 conn,
        read_full_cases n rest,
        dechunk_loop_more fuel rest buf off,
        dechunk_loop_more fuel (drop n rest) (write_at off (take n rest) (expand (off + n) buf))
            (off + n),
      )

  -- A round takes two bytes of the connection at least, so the fuel suffices on any input.
  dechunk_loop-ne-out_of_fuel :
      (fuel : ℕ) (conn buf : List ℕ) (off : ℕ)
      → length conn < fuel
      → dechunk_loop fault fuel conn buf off ≢ out_of_fuel
  unfolding dechunk_loop
  dechunk_loop-ne-out_of_fuel zero conn buf off h = absurd (omega arith)
  dechunk_loop-ne-out_of_fuel (suc fuel) conn buf off h =
      let rest = drop 2 conn in
      let n = chunk_size (take 2 conn) in
      ground (
        arith,
        read_full_cases 2 conn,
        read_full_cases n rest,
        length-drop 2 conn,
        length-drop n rest,
        dechunk_loop-ne-out_of_fuel fuel rest buf off,
        dechunk_loop-ne-out_of_fuel fuel (drop n rest)
            (write_at off (take n rest) (expand (off + n) buf)) (off + n),
      )

  -- `dechunkMessage` ends on every input, with a message or a read error.
  pub dechunk_message-ne-out_of_fuel :
      (conn buf : List ℕ) → dechunk_message fault conn buf ≢ out_of_fuel
  unfolding dechunk_message
  dechunk_message-ne-out_of_fuel conn buf =
      dechunk_loop-ne-out_of_fuel (suc (length conn)) conn buf 0 (omega arith)

  nop_step :
      (fuel : ℕ) (rest buf : List ℕ)
      → dechunk_loop fault (suc fuel) (0 ∷ 0 ∷ rest) buf 0 ≡ dechunk_loop fault fuel rest buf 0
  unfolding dechunk_loop
  nop_step fuel rest buf = ground (arith, read_full_lem 2 (0 ∷ 0 ∷ []) rest refl, size_zero)

  -- A chunk of length zero between messages is skipped.
  pub dechunk_message-nop :
      (rest buf : List ℕ)
      → dechunk_message fault (0 ∷ 0 ∷ rest) buf ≡ dechunk_message fault rest buf
  unfolding dechunk_message
  dechunk_message-nop rest buf =
      nop_step (suc (suc (length rest))) rest buf
      ∙ dechunk_loop_more (suc (length rest)) rest buf 0 (dechunk_message-ne-out_of_fuel rest buf)
