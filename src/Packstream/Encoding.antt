-- ===== src/Packstream/Encoding.antt =====
-- What each method of the packer appends, as a function of the value alone: a method appends its
-- encoding to the buffer and changes nothing else.
use neo4j_go_driver.Base.{
  ℕ, ◌+◌, ◌-◌, ◌^◌, ◌≤◌, ◌<◌, ◌≡◌, true, none, List, [], ◌∷◌, ◌++◌, ap, ◌⊎◌, arith, length,
  append_assoc,
}
use neo4j_go_driver.Base.Int.{ℤ, pos, negsuc, to_word, ◌≤ℤ◌, ◌<ℤ◌}
use neo4j_go_driver.Packstream.Bytes.{be_bytes}
use neo4j_go_driver.Packstream.Packer.{
  Packer, emit, int64, list_header, bytes_header, string, bytes,
}

abbrev pub empty : Packer
empty = record { buf = []; err = none }

unfoldable pub int_encoding : ℤ → List ℕ
unfolding int64
int_encoding i = (int64 i empty).buf

pub int64-encoding : (i : ℤ) (p : Packer) → int64 i p ≡ emit (int_encoding i) p
unfolding int_encoding
int64-encoding i p = ground arith

-- The five forms of an integer, each with its range.
pub int_encoding_cases :
    (i : ℤ)
    → ((negsuc 0xf ≤ℤ i) × (i <ℤ pos 0x80) × (int_encoding i ≡ to_word 256 i ∷ []))
      ⊎ (((negsuc 0x7f ≤ℤ i)
            × (i <ℤ pos 0x80)
            × (int_encoding i ≡ 0xc8 ∷ be_bytes 1 (to_word 256 i)))
          ⊎ (((negsuc 0x7fff ≤ℤ i)
                × (i <ℤ pos 0x8000)
                × (int_encoding i ≡ 0xc9 ∷ be_bytes 2 (to_word (2 ^ 16) i)))
              ⊎ (((negsuc 0x7fffffff ≤ℤ i)
                    × (i <ℤ pos 0x80000000)
                    × (int_encoding i ≡ 0xca ∷ be_bytes 4 (to_word (2 ^ 32) i)))
                  ⊎ (int_encoding i ≡ 0xcb ∷ be_bytes 8 (to_word (2 ^ 64) i)))))
unfolding int_encoding be_bytes
int_encoding_cases (pos n) = ground arith
int_encoding_cases (negsuc n) = ground arith

unfoldable pub header_encoding : ℕ → ℕ → ℕ → List ℕ
unfolding list_header
header_encoding a b l = (list_header l a b empty).buf

pub list_header-encoding :
    (l a b : ℕ) (p : Packer) → l < 2 ^ 32 - 1 → list_header l a b p ≡ emit (header_encoding a b l) p
unfolding header_encoding
list_header-encoding l a b p h = ground arith

-- The forms of a list header, each with its range.
pub header_encoding_cases :
    (a b l : ℕ)
    → a + 0x10 ≤ 256
    → b + 2 < 256
    → ((l < 0x10) × (header_encoding a b l ≡ (a + l) ∷ []))
      ⊎ (((l < 0x100) × (header_encoding a b l ≡ b ∷ be_bytes 1 l))
          ⊎ (((l < 0x10000) × (header_encoding a b l ≡ (b + 1) ∷ be_bytes 2 l))
              ⊎ ((l < 2 ^ 32 - 1 → header_encoding a b l ≡ (b + 2) ∷ be_bytes 4 l))))
unfolding header_encoding be_bytes
header_encoding_cases a b l ha hb = ground arith

unfoldable pub bytes_header_encoding : ℕ → List ℕ
unfolding bytes_header
bytes_header_encoding l = (bytes_header l empty).0.buf

pub bytes_header-encoding :
    (l : ℕ) (p : Packer) → l < 2 ^ 32 → bytes_header l p ≡ (emit (bytes_header_encoding l) p, true)
unfolding bytes_header_encoding
bytes_header-encoding l p h = ground arith

pub bytes_header_encoding_cases :
    (l : ℕ)
    → l < 2 ^ 32
    → ((l < 0x100) × (bytes_header_encoding l ≡ 0xcc ∷ be_bytes 1 l))
      ⊎ (((l < 0x10000) × (bytes_header_encoding l ≡ 0xcd ∷ be_bytes 2 l))
          ⊎ (bytes_header_encoding l ≡ 0xce ∷ be_bytes 4 l))
unfolding bytes_header_encoding be_bytes
bytes_header_encoding_cases l h = ground arith

abbrev pub string_encoding : List ℕ → List ℕ
string_encoding s = header_encoding 0x80 0xd0 (length s) ++ s

pub string-encoding :
    (s : List ℕ) (p : Packer) → length s < 2 ^ 32 - 1 → string s p ≡ emit (string_encoding s) p
unfolding string
string-encoding s p h =
    rw (list_header-encoding (length s) 0x80 0xd0 p h)
      (ap (λ b. record p { buf = b }) (append_assoc p.buf _ s))

abbrev pub bytes_encoding : List ℕ → List ℕ
bytes_encoding b = bytes_header_encoding (length b) ++ b

pub bytes-encoding :
    (b : List ℕ) (p : Packer) → length b < 2 ^ 32 → bytes b p ≡ emit (bytes_encoding b) p
unfolding bytes
bytes-encoding b p h = ground (
  arith,
  bytes_header-encoding (length b) p h,
  append_assoc p.buf (bytes_header_encoding (length b)) b,
)
