-- ===== src/Bolt/Framing/Delivery.antt =====
-- The loops of `send` under a writer that takes every write.
use neo4j_go_driver.Base.{
  ℕ, zero, suc, ◌-◌, ◌^◌, ◌≤◌, ◌<◌, ◌≡◌, refl, sym, ◌∙◌, inl, inr, Option, none, List, [], ◌∷◌,
  ◌++◌, length, take, drop, leb, arith, append_assoc, append-nil, length-drop, Bool-cases, leb→le,
  lt_of_leb, map,
}
use neo4j_go_driver.Packstream.Bytes.{be_bytes}
use neo4j_go_driver.Bolt.Framing.Chunker.{
  Sending, Sent, going, IoFault, slice, write, last_chunk, full_chunk, chunks, send_sizes,
}
use neo4j_go_driver.Bolt.Framing.Wire.{wire_chunks, wire_all}
use neo4j_go_driver.Bolt.Framing.Send.{
  IsSplit, stream, last_chunk-IsSplit, front, full_next, full_next-IsSplit, full_next-stream,
  gap_left,
}

-- `r` is `s` once `out` is behind what it had to write, and `rest` is what follows in the buffer.
pub record Delivers (s : Sending) (pre out rest : List ℕ) (r : Sent) : Type 0 where
  pub state : Sending
  pub ready : List ℕ
  pub returns : r ≡ going state
  pub split : IsSplit state ready rest
  pub sent : stream state ready ≡ stream s pre ++ out

last-Delivers :
    (s : Sending) (pre gap m rest : List ℕ)
    → length gap ≡ 2
    → length m < 2 ^ 16
    → IsSplit s pre (gap ++ (m ++ (0 ∷ 0 ∷ rest)))
    → Delivers s pre
        ((be_bytes 2 (length m) ++ m) ++ (0 ∷ 0 ∷ []))
        rest
        (going (last_chunk (length m) s))
last-Delivers s pre gap m rest g small split =
    let both = last_chunk-IsSplit s pre gap m rest g small split in
    record {
      state = last_chunk (length m) s;
      ready = pre ++ (be_bytes 2 (length m) ++ (m ++ (0 ∷ 0 ∷ [])));
      returns = refl;
      split = both.0;
      sent = both.1 ∙ rw (append_assoc (be_bytes 2 (length m)) m (0 ∷ 0 ∷ []));
    }

-- A full chunk of `k` bytes, and then what delivers the rest of the message.
after_full :
    (k : ℕ) (fits : k < 2 ^ 16) (m : List ℕ) (s : Sending) (pre gap tail rest out : List ℕ)
    (g : length gap ≡ 2) (big : k < length m) (split : IsSplit s pre (gap ++ (m ++ tail)))
    (more : ℕ → Sending → Sent)
    → Delivers
        (full_next k s)
        (pre ++ take k (front k m))
        (out ++ (0 ∷ 0 ∷ []))
        rest
        (more (length (drop k m)) (full_next k s))
    → Delivers s pre
        ((be_bytes 2 k ++ (take k m ++ out)) ++ (0 ∷ 0 ∷ []))
        rest
        (more (length m - k) (full_next k s))
after_full k fits m s pre gap tail rest out g big split more d = record {
  state = d.state;
  ready = d.ready;
  returns = rw (← length-drop k m) d.returns;
  split = d.split;
  sent = d.sent ∙ rw (full_next-stream k fits s pre gap m tail g big split) (simp append_assoc);
}

-- The messages in the buffer, each between two bytes for a length and its end mark.
abbrev pub frames : List (List ℕ) → List ℕ
frames [] = []
frames (m ∷ ms) = 0 ∷ 0 ∷ (m ++ (0 ∷ 0 ∷ frames ms))

module _ (fault : ℕ → Option IoFault) (sound : (k : ℕ) → fault k ≡ none) where
  pub write_lem :
      (s : Sending)
      → write fault s ≡ going (record s { writes = s.writes ++ (slice s.start s.end s.buf ∷ []) })
  unfolding write
  write_lem s = rw (sound (length s.writes), write)

  full_chunk_lem : (s : Sending) → full_chunk fault s ≡ going (full_next 0xffff s)
  unfolding full_chunk
  full_chunk_lem s = rw write_lem

  chunks-Delivers :
      (fuel : ℕ) (m : List ℕ) (s : Sending) (pre gap rest : List ℕ)
      → length m ≤ fuel
      → length gap ≡ 2
      → IsSplit s pre (gap ++ (m ++ (0 ∷ 0 ∷ rest)))
      → Delivers s pre (wire_chunks fuel m ++ (0 ∷ 0 ∷ [])) rest (chunks fault fuel (length m) s)
  unfolding chunks wire_chunks
  chunks-Delivers zero m s pre gap rest h g split =
      last-Delivers s pre gap m rest g (omega arith) split
  chunks-Delivers (suc fuel) m s pre gap rest h g split =
      elim (Bool-cases (leb (length m) 0xffff)) [
        | inl small ↦
            rw small (
              last-Delivers s pre gap m rest g (omega (arith, leb→le (length m) 0xffff small))
                split)
        | inr long ↦
            let big = lt_of_leb (length m) 0xffff long in
            rw (long, full_chunk_lem s)
              (after_full 0xffff (omega arith) m s pre gap (0 ∷ 0 ∷ rest) rest
                (wire_chunks fuel (drop 0xffff m)) g big split (chunks fault fuel)
                (chunks-Delivers fuel (drop 0xffff m) (full_next 0xffff s)
                  (pre ++ take 0xffff (front 0xffff m)) (drop 0xffff (front 0xffff m)) rest
                  (omega (arith, length-drop 0xffff m))
                  (gap_left 0xffff (omega arith) s pre gap m (0 ∷ 0 ∷ rest) g big split)
                  (full_next-IsSplit 0xffff (omega arith) s pre gap m (0 ∷ 0 ∷ rest) g big split)))
      ]

  pub send_sizes-Delivers :
      (ms : List (List ℕ)) (s : Sending) (pre : List ℕ)
      → IsSplit s pre (frames ms)
      → Delivers s pre (wire_all ms) [] (send_sizes fault (map length ms) s)
  unfolding send_sizes wire_all
  send_sizes-Delivers [] s pre split = record {
    state = s;
    ready = pre;
    returns = refl;
    split = split;
    sent = sym (append-nil _);
  }
  send_sizes-Delivers (m ∷ ms) s pre split =
      let d =
        chunks-Delivers (length m) m s pre (0 ∷ 0 ∷ []) (frames ms) (omega arith) refl split in
      let e = send_sizes-Delivers ms d.state d.ready d.split in
      record {
        state = e.state;
        ready = e.ready;
        returns = rw d.returns e.returns;
        split = e.split;
        sent = e.sent ∙ rw d.sent (append_assoc (stream s pre) _ (wire_all ms));
      }
