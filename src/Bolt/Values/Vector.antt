-- ===== src/Bolt/Values/Vector.antt =====
-- neo4j/internal/bolt/hydrator.go, `vector`: a byte array of one marker, and one of the elements.
use neo4j_go_driver.Base.{
  ℕ, zero, suc, ◌/◌, ◌%◌, ◌^◌, Bool, true, false, Option, none, some, List, [], ◌∷◌, map, length,
  drop, nat_beq, if◌then◌else◌,
}
use mathlib.Core.Option
use neo4j_go_driver.Base.Int.{of_word}
use neo4j_go_driver.Packstream.Bytes.{be_uint}
use neo4j_go_driver.Packstream.Unpacker
use neo4j_go_driver.Packstream.Unpacker.{PackedType}
use neo4j_go_driver.Bolt.Values.Value.{Value, Elements}
use neo4j_go_driver.Bolt.Values.Run.{
  Run, done, panic, ProtocolError, ◌>>=◌, ◌>>◌, branch, call, next, assert_length, unless_err,
}
use neo4j_go_driver.Bolt.Values.Struct.{refuse}

-- The words of `width` bytes at `values[i*width:(i+1)*width]`, for each i below `n`.
unfoldable pub words : (n width : ℕ) → List ℕ → Option (List ℕ)
words zero width values = some []
words (suc n) width values = elim (be_uint width values) [
  | none ↦ none
  | some w ↦ Option.map (λ ws. w ∷ ws) (words n width (drop width values))
]

unfoldable pub vector_of : ℕ → (List ℕ → Elements) → List ℕ → Run Value
unfolding words
vector_of width elems values =
    if nat_beq (length values % width) 0
    then (λ h. elim (words (length values / width) width values) [
      | none ↦ panic
      | some ws ↦ done (Value.vector (elems ws)) h
    ])
    else refuse (ProtocolError.vector_values_size width)

unfoldable pub vector_values : ℕ → List ℕ → Run Value
unfolding vector_of
vector_values marker values =
    if nat_beq marker 0xc1
    then vector_of 8 Elements.float64s values
    else if nat_beq marker 0xc6
    then vector_of 4 Elements.float32s values
    else if nat_beq marker 0xc8
    then vector_of 1 (λ ws. Elements.int8s (map (of_word (2 ^ 7)) ws)) values
    else if nat_beq marker 0xc9
    then vector_of 2 (λ ws. Elements.int16s (map (of_word (2 ^ 15)) ws)) values
    else if nat_beq marker 0xca
    then vector_of 4 (λ ws. Elements.int32s (map (of_word (2 ^ 31)) ws)) values
    else if nat_beq marker 0xcb
    then vector_of 8 (λ ws. Elements.int64s (map (of_word (2 ^ 63)) ws)) values
    else refuse (ProtocolError.vector_marker marker)

abbrev is_byte_array : PackedType → Bool
is_byte_array PackedType.packed_byte_array = true
is_byte_array t = false

-- `if h.unp.Curr != packstream.PackedByteArray { ... }`
unfoldable pub expect_bytes : ProtocolError → (List ℕ → Run Value) → Run Value
unfolding branch refuse
expect_bytes e rest h =
    branch (is_byte_array h.unp.curr) (call Unpacker.byte_array >>= rest) (refuse e) h

-- `typeMarker[0]`, of a marker of one byte.
unfoldable pub read_values : List ℕ → Run Value
unfolding vector_values
read_values (m ∷ []) = next >> expect_bytes ProtocolError.vector_values_type (vector_values m)
read_values [] = refuse ProtocolError.vector_marker_size
read_values (m ∷ x ∷ more) = refuse ProtocolError.vector_marker_size

unfoldable pub vector : ℕ → Run Value
vector n =
    assert_length "vector" 2 n
    >> unless_err Value.nil (next >> expect_bytes ProtocolError.vector_marker_type read_values)
