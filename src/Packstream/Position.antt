-- ===== src/Packstream/Position.antt =====
-- An unpacker that stands before the bytes `rest` of its buffer, with nothing amiss so far, and
-- the reads that succeed there. The bound on the buffer keeps the uint32 offsets from wrapping.
use neo4j_go_driver.Base.{
  ℕ, ◌+◌, ◌^◌, ◌<◌, ◌≡◌, refl, sym, ◌∙◌, none, some, List, [], ◌∷◌, ◌++◌, ◌⊎◌, inl, inr, arith,
  length, drop, length-append, drop-drop, drop-length_append, take-length_append, get_elem?-of_drop,
}
use neo4j_go_driver.Base.Int.{of_word}
use neo4j_go_driver.Packstream.Bytes.{
  be_bytes, be_uint, length-be_bytes, be_uint-be_bytes1, be_uint-be_bytes2, be_uint-be_bytes4,
  be_uint-be_bytes8,
}
use neo4j_go_driver.Packstream.Unpacker.{
  Unpacker, Marker, markers, pop, next, read, readlen, slice, len_of, int,
}

pub record IsAt (u : Unpacker) (rest : List ℕ) : Type 0 where
  pub sized : u.len ≡ length u.buf
  pub small : u.len + 8 < 2 ^ 32
  pub ahead : drop u.off u.buf ≡ rest
  pub left : u.off + length rest ≡ u.len
  pub clean : u.err ≡ none

abbrev pub skip : ℕ → Unpacker → Unpacker
skip n u = record u { off = u.off + n }

-- The unpacker once it has read the marker byte `b`.
abbrev pub after : ℕ → Unpacker → Unpacker
after b u = record u { off = u.off + 1; mrk = markers b; curr = (markers b).typ }

-- A change of the marker and of the current type leaves the position.
pub marked-IsAt :
    {u : Unpacker} (m : Marker) (rest : List ℕ)
    → IsAt u rest
    → IsAt (record u { mrk = m; curr = m.typ }) rest
marked-IsAt m rest h = record {
  sized = h.sized;
  small = h.small;
  ahead = h.ahead;
  left = h.left;
  clean = h.clean;
}

module _ {u : Unpacker} where
  pub skip-IsAt :
      (xs rest : List ℕ) (n : ℕ) → length xs ≡ n → IsAt u (xs ++ rest) → IsAt (skip n u) rest
  skip-IsAt xs rest n e h = record {
    sized = h.sized;
    small = h.small;
    ahead = sym (drop-drop u.off n u.buf) ∙ rw (h.ahead, ← e) (drop-length_append xs rest);
    left = omega (arith, length-append xs rest, h.left);
    clean = h.clean;
  }

  pub pop_at : (b : ℕ) (rest : List ℕ) → IsAt u (b ∷ rest) → pop u ≡ some (b, skip 1 u)
  unfolding pop
  pop_at b rest h = ground (arith, get_elem?-of_drop u.off u.buf rest b h.ahead, h.left, h.small)

  pub next_at : (b : ℕ) (rest : List ℕ) → IsAt u (b ∷ rest) → next u ≡ some (after b u)
  unfolding next
  next_at b rest h = rw (pop_at b rest h)

  pub read_at :
      (xs rest : List ℕ) → IsAt u (xs ++ rest) → read (length xs) u ≡ some (xs, skip (length xs) u)
  unfolding read slice
  read_at xs rest h =
      ground (
        arith,
        length-append xs rest,
        h.left,
        h.sized,
        h.small,
        h.ahead,
        take-length_append xs rest,
      )

  readlen_at :
      (n w : ℕ) (rest : List ℕ)
      → (n ≡ 1) ⊎ ((n ≡ 2) ⊎ (n ≡ 4))
      → be_uint n (be_bytes n w ++ rest) ≡ some w
      → IsAt u (be_bytes n w ++ rest)
      → readlen n u ≡ some (w, skip n u)
  unfolding readlen
  readlen_at n w rest d e h =
      ground
        (arith, length-append (be_bytes n w) rest, length-be_bytes n w, h.left, h.small, h.ahead, e)

  -- The length behind a long marker, in one, two or four bytes.
  pub len_of_at1 :
      (w : ℕ) (rest : List ℕ)
      → w < 256
      → u.mrk.numlenbytes ≡ 1
      → IsAt u (be_bytes 1 w ++ rest)
      → len_of u ≡ some (w, skip 1 u)
  unfolding len_of
  len_of_at1 w rest hw m h =
      ground (arith, readlen_at 1 w rest (inl refl) (be_uint-be_bytes1 w rest hw) h)

  pub len_of_at2 :
      (w : ℕ) (rest : List ℕ)
      → w < 2 ^ 16
      → u.mrk.numlenbytes ≡ 2
      → IsAt u (be_bytes 2 w ++ rest)
      → len_of u ≡ some (w, skip 2 u)
  unfolding len_of
  len_of_at2 w rest hw m h =
      ground (arith, readlen_at 2 w rest (inr (inl refl)) (be_uint-be_bytes2 w rest hw) h)

  pub len_of_at4 :
      (w : ℕ) (rest : List ℕ)
      → w < 2 ^ 32
      → u.mrk.numlenbytes ≡ 4
      → IsAt u (be_bytes 4 w ++ rest)
      → len_of u ≡ some (w, skip 4 u)
  unfolding len_of
  len_of_at4 w rest hw m h =
      ground (arith, readlen_at 4 w rest (inr (inr refl)) (be_uint-be_bytes4 w rest hw) h)

  -- An integer behind a long marker.
  module _ (w : ℕ) (rest : List ℕ) where
    pub int_at1 :
        w < 256
        → u.mrk.numlenbytes ≡ 1
        → IsAt u (be_bytes 1 w ++ rest)
        → int u ≡ some (of_word (2 ^ 7) w, skip 1 u)
    unfolding int
    int_at1 hw m h = ground (
      arith,
      length-append (be_bytes 1 w) rest,
      length-be_bytes 1 w,
      h.left,
      h.small,
      h.ahead,
      be_uint-be_bytes1 w rest hw,
    )

    pub int_at2 :
        w < 2 ^ 16
        → u.mrk.numlenbytes ≡ 2
        → IsAt u (be_bytes 2 w ++ rest)
        → int u ≡ some (of_word (2 ^ 15) w, skip 2 u)
    unfolding int
    int_at2 hw m h = ground (
      arith,
      length-append (be_bytes 2 w) rest,
      length-be_bytes 2 w,
      h.left,
      h.small,
      h.ahead,
      be_uint-be_bytes2 w rest hw,
    )

    pub int_at4 :
        w < 2 ^ 32
        → u.mrk.numlenbytes ≡ 4
        → IsAt u (be_bytes 4 w ++ rest)
        → int u ≡ some (of_word (2 ^ 31) w, skip 4 u)
    unfolding int
    int_at4 hw m h = ground (
      arith,
      length-append (be_bytes 4 w) rest,
      length-be_bytes 4 w,
      h.left,
      h.small,
      h.ahead,
      be_uint-be_bytes4 w rest hw,
    )

    pub int_at8 :
        w < 2 ^ 64
        → u.mrk.numlenbytes ≡ 8
        → IsAt u (be_bytes 8 w ++ rest)
        → int u ≡ some (of_word (2 ^ 63) w, skip 8 u)
    unfolding int
    int_at8 hw m h = ground (
      arith,
      length-append (be_bytes 8 w) rest,
      length-be_bytes 8 w,
      h.left,
      h.small,
      h.ahead,
      be_uint-be_bytes8 w rest hw,
    )

pub after-IsAt : {u : Unpacker} (b : ℕ) (rest : List ℕ) → IsAt u (b ∷ rest) → IsAt (after b u) rest
after-IsAt b rest h = marked-IsAt (markers b) rest (skip-IsAt (b ∷ []) rest 1 refl h)
