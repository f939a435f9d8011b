-- ===== src/Packstream/Ints.antt =====
-- Reading back what the packer wrote for an integer, whatever follows it in the buffer.
use neo4j_go_driver.Base.{ℕ, ◌^◌, ◌<◌, ◌≡◌, refl, Option, some, List, ◌∷◌, ◌++◌, inl, inr, arith}
use neo4j_go_driver.Base.Int.{ℤ, pos, negsuc, to_word, of_word, IsInt64, ◌≤ℤ◌, ◌<ℤ◌}
use neo4j_go_driver.Packstream.Bytes.{be_bytes, length-be_bytes}
use neo4j_go_driver.Packstream.Unpacker.{Unpacker, PackedType, packed_int, markers, next, int}
use neo4j_go_driver.Packstream.Encoding.{int_encoding, int_encoding_cases}
use neo4j_go_driver.Packstream.Position.{
  IsAt, skip, after, skip-IsAt, after-IsAt, next_at, int_at1, int_at2, int_at4, int_at8,
}

-- After `next` the current type is `t`, and the method `get` gives `a` and leaves `rest`.
abbrev pub Yields {ℓ} :
    {A : Type ℓ} → Unpacker → PackedType → (Unpacker → Option (A × Unpacker)) → A → List ℕ → Type ℓ
Yields u t get a rest =
    (v : Unpacker) × (w : Unpacker) × (next u ≡ some v)
    × (v.curr ≡ t)
    × (get v ≡ some (a, w))
    × IsAt w rest

tiny_marker :
    (i : ℤ)
    → negsuc 0xf ≤ℤ i
    → i <ℤ pos 0x80
    → markers (to_word 256 i) ≡ record { typ = packed_int; shortlen = i; numlenbytes = 0 }
unfolding markers
tiny_marker (pos n) h k = ground arith
tiny_marker (negsuc n) h k = ground arith

tiny_int :
    (u : Unpacker) (i : ℤ) (b : ℕ)
    → markers b ≡ record { typ = packed_int; shortlen = i; numlenbytes = 0 }
    → int (after b u) ≡ some (i, after b u)
unfolding int
tiny_int u i b e = ground arith

tiny-Yields :
    (u : Unpacker) (i : ℤ) (b : ℕ) (rest : List ℕ)
    → markers b ≡ record { typ = packed_int; shortlen = i; numlenbytes = 0 }
    → IsAt u (b ∷ rest)
    → Yields u packed_int int i rest
tiny-Yields u i b rest e at =
    (after b u, after b u, next_at b rest at, rw e, tiny_int u i b e, after-IsAt b rest at)

-- An integer of `n` bytes behind the marker `b`, once the read itself is known.
wide-Yields :
    (u : Unpacker) (i j : ℤ) (b n w : ℕ) (rest : List ℕ)
    → (markers b).typ ≡ packed_int
    → j ≡ i
    → IsAt u (b ∷ be_bytes n w ++ rest)
    → int (after b u) ≡ some (j, skip n (after b u))
    → Yields u packed_int int i rest
wide-Yields u i j b n w rest t e at found = (
  after b u,
  skip n (after b u),
  next_at b (be_bytes n w ++ rest) at,
  t,
  rw (← e) found,
  skip-IsAt (be_bytes n w) rest n (length-be_bytes n w) (after-IsAt b (be_bytes n w ++ rest) at),
)

of_word-to_word1 : (i : ℤ) → negsuc 0x7f ≤ℤ i → i <ℤ pos 0x80 → of_word (2 ^ 7) (to_word 256 i) ≡ i
of_word-to_word1 (pos n) h k = ground arith
of_word-to_word1 (negsuc n) h k = ground arith

of_word-to_word2 :
    (i : ℤ) → negsuc 0x7fff ≤ℤ i → i <ℤ pos 0x8000 → of_word (2 ^ 15) (to_word (2 ^ 16) i) ≡ i
of_word-to_word2 (pos n) h k = ground arith
of_word-to_word2 (negsuc n) h k = ground arith

of_word-to_word4 :
    (i : ℤ)
    → negsuc 0x7fffffff ≤ℤ i
    → i <ℤ pos 0x80000000
    → of_word (2 ^ 31) (to_word (2 ^ 32) i) ≡ i
of_word-to_word4 (pos n) h k = ground arith
of_word-to_word4 (negsuc n) h k = ground arith

pub of_word-to_word8 : (i : ℤ) → IsInt64 i → of_word (2 ^ 63) (to_word (2 ^ 64) i) ≡ i
of_word-to_word8 (pos n) h = ground arith
of_word-to_word8 (negsuc n) h = ground arith

pub to_word-lt : (m : ℕ) (i : ℤ) → 0 < m → to_word m i < m
to_word-lt m (pos n) h = omega arith
to_word-lt m (negsuc n) h = omega arith

pub int-Yields :
    (u : Unpacker) (i : ℤ) (rest : List ℕ)
    → IsInt64 i
    → IsAt u (int_encoding i ++ rest)
    → Yields u packed_int int i rest
unfolding markers
int-Yields u i rest range h = elim (int_encoding_cases i) [
  | inl (lo, hi, e) ↦ tiny-Yields u i (to_word 256 i) rest (tiny_marker i lo hi) (rw e at h)
  | inr (inl (lo, hi, e)) ↦
      let at = rw e at h in
      let w = to_word 256 i in
      wide-Yields u i (of_word (2 ^ 7) w) 0xc8 1 w rest refl (of_word-to_word1 i lo hi) at (
        int_at1 w rest (to_word-lt 256 i (omega arith)) refl
          (after-IsAt 0xc8 (be_bytes 1 w ++ rest) at))
  | inr (inr (inl (lo, hi, e))) ↦
      let at = rw e at h in
      let w = to_word (2 ^ 16) i in
      wide-Yields u i (of_word (2 ^ 15) w) 0xc9 2 w rest refl (of_word-to_word2 i lo hi) at (
        int_at2 w rest (to_word-lt (2 ^ 16) i (omega arith)) refl
          (after-IsAt 0xc9 (be_bytes 2 w ++ rest) at))
  | inr (inr (inr (inl (lo, hi, e)))) ↦
      let at = rw e at h in
      let w = to_word (2 ^ 32) i in
      wide-Yields u i (of_word (2 ^ 31) w) 0xca 4 w rest refl (of_word-to_word4 i lo hi) at (
        int_at4 w rest (to_word-lt (2 ^ 32) i (omega arith)) refl
          (after-IsAt 0xca (be_bytes 4 w ++ rest) at))
  | inr (inr (inr (inr e))) ↦
      let at = rw e at h in
      let w = to_word (2 ^ 64) i in
      wide-Yields u i (of_word (2 ^ 63) w) 0xcb 8 w rest refl (of_word-to_word8 i range) at (
        int_at8 w rest (to_word-lt (2 ^ 64) i (omega arith)) refl
          (after-IsAt 0xcb (be_bytes 8 w ++ rest) at))
]
