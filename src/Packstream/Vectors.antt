-- ===== src/Packstream/Vectors.antt =====
-- neo4j/internal/packstream/packer.go, the typed vectors: a structure 'V' of the element type's
-- marker and the elements as one byte array. Floats are their bit patterns.
use neo4j_go_driver.Base.{ℕ, ◌*◌, ◌^◌, Bool, true, false, List, [], ◌∷◌, length}
use neo4j_go_driver.Base.Int.{ℤ, to_word}
use neo4j_go_driver.Packstream.Bytes.{be_bytes}
use neo4j_go_driver.Packstream.Packer.{
  Packer, emit, fail_with, bytes_overflow, struct_header, bytes, bytes_header, pack_each,
}

-- `false` for an error, which is noted in the packer too.
unfoldable pub prepare_vector_data : ℕ → Packer → Packer × Bool
prepare_vector_data total_size p =
    let (q, fits) = bytes_header total_size p in
    elim fits [ true ↦ (q, true) | false ↦ (fail_with (bytes_overflow total_size) q, false) ]

-- What the six functions share: the marker, the empty case, the size and the loop.
unfoldable pub vector {ℓ} : {A : Type ℓ} → ℕ → ℕ → (A → List ℕ) → List A → Packer → Packer
unfolding prepare_vector_data pack_each
vector marker width elem [] p = bytes [] (bytes (marker ∷ []) (struct_header b'V' 2 p))
vector marker width elem (v ∷ vec) p =
    let (q, fits) =
      prepare_vector_data (length (v ∷ vec) * width)
        (bytes (marker ∷ []) (struct_header b'V' 2 p)) in
    elim fits [ true ↦ pack_each (λ x. emit (elem x)) (v ∷ vec) q | false ↦ q ]

unfoldable pub vector_float64 : List ℕ → Packer → Packer
unfolding vector
vector_float64 = vector 0xc1 8 (be_bytes 8)

unfoldable pub vector_float32 : List ℕ → Packer → Packer
unfolding vector
vector_float32 = vector 0xc6 4 (be_bytes 4)

unfoldable pub vector_int8 : List ℤ → Packer → Packer
unfolding vector
vector_int8 = vector 0xc8 1 (λ v. to_word 256 v ∷ [])

unfoldable pub vector_int16 : List ℤ → Packer → Packer
unfolding vector
vector_int16 = vector 0xc9 2 (λ v. be_bytes 2 (to_word (2 ^ 16) v))

unfoldable pub vector_int32 : List ℤ → Packer → Packer
unfolding vector
vector_int32 = vector 0xca 4 (λ v. be_bytes 4 (to_word (2 ^ 32) v))

unfoldable pub vector_int64 : List ℤ → Packer → Packer
unfolding vector
vector_int64 = vector 0xcb 8 (λ v. be_bytes 8 (to_word (2 ^ 64) v))
