-- ===== src/Packstream/RoundTrip.antt =====
-- A packed value, read by a fresh unpacker: what comes back, and which values are refused.
use neo4j_go_driver.Base.{
  ℕ, ◌+◌, ◌-◌, ◌^◌, ◌≤◌, ◌<◌, ◌≡◌, refl, Option, none, some, List, [], ◌++◌, arith, length,
  length-append, ◌%◌,
}
use neo4j_go_driver.Base.Int.{ℤ, pos, negsuc, IsInt64}
use neo4j_go_driver.Packstream.Packer.{
  Packer, begin, float64, array_header, map_header, int64, uint64, string, bytes, list_header, emit,
  list_overflow, uint_overflow,
}
use neo4j_go_driver.Packstream.Unpacker
use neo4j_go_driver.Packstream.Unpacker.{
  Unpacker, PackedType, reset, packed_int, packed_str, packed_byte_array, packed_float,
  packed_array, packed_map,
}
use neo4j_go_driver.Packstream.Encoding.{
  list_header-encoding, int64-encoding, string-encoding, bytes-encoding, empty,
}
use neo4j_go_driver.Packstream.Bytes.{be_bytes, length-be_bytes}
use neo4j_go_driver.Packstream.Position.{IsAt}
use neo4j_go_driver.Packstream.Ints.{Yields, int-Yields}
use neo4j_go_driver.Packstream.Lengths.{
  float-Yields, array_header-Yields, map_header-Yields, string-Yields, bytes-Yields,
}

pub reset-IsAt : (b : List ℕ) (u : Unpacker) → length b + 8 < 2 ^ 32 → IsAt (reset b u) b
unfolding reset
reset-IsAt b u h = record {
  sized = omega arith;
  small = omega arith;
  ahead = refl;
  left = omega arith;
  clean = refl;
}

-- The message that `pack` leaves in an empty buffer, with `more` behind it.
abbrev pub message : (Packer → Packer) → List ℕ → List ℕ
message pack more = (pack (begin [])).buf ++ more

-- From what a method appends to what is read back.
round_trip {ℓ} :
    {A : Type ℓ} {t : PackedType} {get : Unpacker → Option (A × Unpacker)} (enc : List ℕ)
    (pack : A → Packer → Packer) (a : A) (more : List ℕ) (u : Unpacker)
    → pack a empty ≡ emit enc empty
    → length (message (pack a) more) + 8 < 2 ^ 32
    → ((v : Unpacker) → IsAt v (enc ++ more) → Yields v t get a more)
    → ((pack a (begin [])).err ≡ none) × Yields (reset (message (pack a) more) u) t get a more
unfolding begin
round_trip enc pack a more u e h reads =
    rw e (refl, reads (reset (enc ++ more) u) (reset-IsAt (enc ++ more) u (rw e at h)))

-- A header has five bytes at most.
header_room :
    (l a b : ℕ) (more : List ℕ)
    → l < 2 ^ 32 - 1
    → length more + 16 < 2 ^ 32
    → length (message (list_header l a b) more) + 8 < 2 ^ 32
unfolding begin list_header
header_room l a b more fits h = ground (
  arith,
  length-be_bytes 2 (l % 2 ^ 16),
  length-be_bytes 4 l,
  length-be_bytes 4 (l % 2 ^ 32),
  length-append (be_bytes 2 (l % 2 ^ 16)) more,
  length-append (be_bytes 4 l) more,
  length-append (be_bytes 4 (l % 2 ^ 32)) more,
)

-- Every int64 is packed without an error, and the next value of the buffer is an integer that is
-- read back as the same int64; the bytes behind it are untouched and no error is noted.
pub int64_round_trip :
    (i : ℤ) (more : List ℕ) (u : Unpacker)
    → IsInt64 i
    → length (message (int64 i) more) + 8 < 2 ^ 32
    → ((int64 i (begin [])).err ≡ none)
      × Yields (reset (message (int64 i) more) u) packed_int Unpacker.int i more
unfolding begin
int64_round_trip i more u range h =
    round_trip _ int64 i more u (int64-encoding i empty) h (λ v at. int-Yields v i more range at)

-- A text that with its header, what follows it in the message and eight bytes more is shorter than
-- 2 ^ 32 bytes is packed without an error, and the next value of the message is a string that is
-- read back as the same bytes, whatever follows it.
pub string_round_trip :
    (s more : List ℕ) (u : Unpacker)
    → length s < 2 ^ 32 - 1
    → length (message (string s) more) + 8 < 2 ^ 32
    → ((string s (begin [])).err ≡ none)
      × Yields (reset (message (string s) more) u) packed_str Unpacker.string s more
unfolding begin
string_round_trip s more u fits h =
    round_trip _ string s more u (string-encoding s empty fits) h
      (λ v at. string-Yields v s more fits at)

-- A byte array that with its header, what follows it in the message and eight bytes more is shorter
-- than 2 ^ 32 bytes is packed without an error, and the next value of the message is a byte array
-- that is read back as the same bytes, whatever follows it.
pub bytes_round_trip :
    (b more : List ℕ) (u : Unpacker)
    → length b < 2 ^ 32
    → length (message (bytes b) more) + 8 < 2 ^ 32
    → ((bytes b (begin [])).err ≡ none)
      × Yields (reset (message (bytes b) more) u) packed_byte_array Unpacker.byte_array b more
unfolding begin
bytes_round_trip b more u fits h =
    round_trip _ bytes b more u (bytes-encoding b empty fits) h
      (λ v at. bytes-Yields v b more fits at)

-- Every float64 is packed without an error, and the next value of the buffer is a float that is
-- read back with the same bits, whatever follows it.
pub float64_round_trip :
    (bits : ℕ) (more : List ℕ) (u : Unpacker)
    → bits < 2 ^ 64
    → length (message (float64 bits) more) + 8 < 2 ^ 32
    → ((float64 bits (begin [])).err ≡ none)
      × Yields (reset (message (float64 bits) more) u) packed_float Unpacker.float bits more
unfolding begin float64
float64_round_trip bits more u fits h =
    round_trip _ float64 bits more u refl h (λ v at. float-Yields v bits more fits at)

-- The header of an array, and that of a map, of fewer than 2 ^ 32 - 1 elements is packed without an
-- error, and the next value of the buffer is an array, or a map, of that length.
pub header_round_trip :
    (l : ℕ) (more : List ℕ) (u : Unpacker)
    → l < 2 ^ 32 - 1
    → length more + 16 < 2 ^ 32
    → (((array_header l (begin [])).err ≡ none)
        × Yields (reset (message (array_header l) more) u) packed_array Unpacker.len_of l more)
      × (((map_header l (begin [])).err ≡ none)
          × Yields (reset (message (map_header l) more) u) packed_map Unpacker.len_of l more)
unfolding begin array_header map_header
header_round_trip l more u fits h = (
  round_trip _ array_header l more u (list_header-encoding l 0x90 0xd4 empty fits)
      (header_room l 0x90 0xd4 more fits h) (λ v at. array_header-Yields v l more fits at),
  round_trip _ map_header l more u (list_header-encoding l 0xa0 0xd8 empty fits)
      (header_room l 0xa0 0xd8 more fits h) (λ v at. map_header-Yields v l more fits at),
)

-- A text, array or map of 2 ^ 32 - 1 elements or more gets no header and the overflow error, and
-- every shorter one gets a header and no error.
pub list_header_limit :
    (l a b : ℕ) (p : Packer)
    → p.err ≡ none
    → ((list_header l a b p).err ≡ none → l < 2 ^ 32 - 1)
      × (2 ^ 32 - 1 ≤ l → list_header l a b p ≡ record p { err = some (list_overflow l) })
      × (l < 2 ^ 32 - 1 → (list_header l a b p).err ≡ none)
unfolding list_header
list_header_limit l a b p h = (ground arith, ground arith, ground arith)

-- A uint64 above the largest int64 notes the overflow error, and the bytes written are those of
-- the negative integer with the same bits; any other is packed as the same integer, with no error.
pub uint64_limit :
    (i : ℕ) (p : Packer)
    → i < 2 ^ 64
    → (i < 2 ^ 63 → uint64 i p ≡ int64 (pos i) p)
      × (2 ^ 63 ≤ i
          → uint64 i p ≡ int64 (negsuc (2 ^ 64 - 1 - i)) (record p { err = some uint_overflow }))
unfolding uint64
uint64_limit i p h = (ground arith, ground arith)
