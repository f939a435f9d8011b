-- ===== src/Bolt/Framing/Send.antt =====
-- `send` writes the wire format of the messages, when the writer takes every write.
use neo4j_go_driver.Base.{
  ℕ, ◌+◌, ◌-◌, ◌%◌, ◌^◌, ◌≤◌, ◌<◌, ◌≡◌, refl, sym, ap, ◌∙◌, List, [], ◌∷◌, ◌++◌, length, take, drop,
  arith, append_assoc, append-nil, length-append, length-take, length-drop, drop-length_eq,
  take-length_eq, drop-append_le, take-append-drop, flat, flat-append,
}
use native.Mathlib.Nat.{mod-eq_of_lt}
use neo4j_go_driver.Packstream.Bytes.{be_bytes, length-be_bytes}
use neo4j_go_driver.Bolt.Framing.Chunker.{Sending, put_uint16, slice, last_chunk}

-- The buffer is `pre`, ready to be written from `start` on, and then `rest`.
pub record IsSplit (s : Sending) (pre rest : List ℕ) : Type 0 where
  pub whole : s.buf ≡ pre ++ rest
  pub at : s.end ≡ length pre
  pub started : s.start ≤ length pre

-- What the connection will have received once `pre` is written.
abbrev pub stream : Sending → List ℕ → List ℕ
stream s pre = flat s.writes ++ drop s.start pre

put_uint16_lem :
    (pre gap rest : List ℕ) (w : ℕ)
    → length gap ≡ 2
    → put_uint16 (length pre) w (pre ++ (gap ++ rest)) ≡ pre ++ (be_bytes 2 (w % 2 ^ 16) ++ rest)
put_uint16_lem pre gap rest w e = rw (
  take-length_eq (length pre) pre (gap ++ rest) refl,
  ← append_assoc pre gap rest,
  drop-length_eq (length pre + 2) (pre ++ gap) rest (omega (arith, length-append pre gap)),
)

pub last_chunk-IsSplit :
    (s : Sending) (pre gap m rest : List ℕ)
    → length gap ≡ 2
    → length m < 2 ^ 16
    → IsSplit s pre (gap ++ (m ++ (0 ∷ 0 ∷ rest)))
    → let out = be_bytes 2 (length m) ++ (m ++ (0 ∷ 0 ∷ [])) in
      let t = last_chunk (length m) s in
      IsSplit t (pre ++ out) rest × (stream t (pre ++ out) ≡ stream s pre ++ out)
unfolding last_chunk
last_chunk-IsSplit s pre gap m rest g small h =
    let out = be_bytes 2 (length m) ++ (m ++ (0 ∷ 0 ∷ [])) in
    (
      record {
        whole =
            rw
              (
                h.whole,
                h.at,
                put_uint16_lem pre gap (m ++ (0 ∷ 0 ∷ rest)) (length m) g,
                mod-eq_of_lt small,
              )
              (simp append_assoc);
        at = omega (
          arith,
          length-append pre out,
          length-append (be_bytes 2 (length m)) (m ++ (0 ∷ 0 ∷ [])),
          length-append m (0 ∷ 0 ∷ []),
          length-be_bytes 2 (length m),
          h.at,
        );
        started = omega (arith, length-append pre out, h.started);
      },
      rw (drop-append_le s.start pre out h.started) (sym (append_assoc (flat s.writes) _ out)),
    )

-- The full chunk over the first `k` bytes of `m`, its length included.
abbrev pub front : ℕ → List ℕ → List ℕ
front k m = be_bytes 2 k ++ take k m

-- What one round of the loop makes of the state, for chunks of `k` bytes.
abbrev pub full_next : ℕ → Sending → Sending
full_next k s = record {
  buf = put_uint16 s.end k s.buf;
  start = s.end + 2 + k - 2;
  end = s.end + 2 + k - 2;
  writes = s.writes ++ (slice s.start (s.end + 2 + k) (put_uint16 s.end k s.buf) ∷ []);
}

module _ (k : ℕ) (fits : k < 2 ^ 16) (s : Sending) (pre gap m rest : List ℕ) (g : length gap ≡ 2)
    (big : k < length m) (h : IsSplit s pre (gap ++ (m ++ rest))) where
  length-front : length (front k m) ≡ k + 2
  length-front = omega (
    arith,
    length-append (be_bytes 2 k) (take k m),
    length-be_bytes 2 k,
    length-take k m (omega arith),
  )

  full_buf : put_uint16 s.end k s.buf ≡ (pre ++ front k m) ++ (drop k m ++ rest)
  full_buf =
      rw (h.whole, h.at, put_uint16_lem pre gap (m ++ rest) k g, mod-eq_of_lt fits)
        (rw (append_assoc pre (front k m) (drop k m ++ rest)) (
          ap (◌++◌ pre) (
            rw (append_assoc (be_bytes 2 k) (take k m) (drop k m ++ rest)) (
              ap (◌++◌ (be_bytes 2 k))
                (rw (← append_assoc (take k m) (drop k m) rest, take-append-drop k m))))))

  full_slice :
      slice s.start (s.end + 2 + k) (put_uint16 s.end k s.buf) ≡ drop s.start pre ++ front k m
  full_slice =
      let ready = pre ++ front k m in
      let long = length-append pre (front k m) in
      rw
        (full_buf, drop-append_le s.start ready (drop k m ++ rest) (omega (arith, long, h.started)))
        (take-length_eq _ (drop s.start ready) (drop k m ++ rest)
            (omega (arith, length-drop s.start ready, long, h.at, h.started, length-front))
          ∙ drop-append_le s.start pre (front k m) h.started)

  pub full_next-IsSplit :
      IsSplit (full_next k s) (pre ++ take k (front k m)) (drop k (front k m) ++ (drop k m ++ rest))
  full_next-IsSplit =
      let long = length-append pre (take k (front k m)) in
      let short = length-take k (front k m) (omega (arith, length-front)) in
      record {
        whole =
            full_buf
            ∙ append_assoc pre (front k m) (drop k m ++ rest)
            ∙ rw (append_assoc pre (take k (front k m)) (drop k (front k m) ++ (drop k m ++ rest)))
                (ap (◌++◌ pre) (
                  rw (
                    ← append_assoc (take k (front k m)) (drop k (front k m)) (drop k m ++ rest),
                    take-append-drop k (front k m),
                  )));
        at = omega (arith, long, short, h.at);
        started = omega (arith, long, short, h.at);
      }

  pub full_next-stream :
      stream (full_next k s) (pre ++ take k (front k m)) ≡ stream s pre ++ front k m
  full_next-stream =
      let long = length-append pre (take k (front k m)) in
      let short = length-take k (front k m) (omega (arith, length-front)) in
      rw
        (
          full_slice,
          flat-append s.writes ((drop s.start pre ++ front k m) ∷ []),
          ← append-nil (pre ++ take k (front k m)),
          drop-length_eq (s.end + 2 + k - 2) (pre ++ take k (front k m)) []
              (omega (arith, long, short, h.at)),
        )
        (simp (append-nil, append_assoc))

  pub gap_left : length (drop k (front k m)) ≡ 2
  gap_left = omega (arith, length-drop k (front k m), length-front)
