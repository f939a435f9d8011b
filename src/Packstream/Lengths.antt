-- ===== src/Packstream/Lengths.antt =====
-- Reading back headers, texts and byte arrays.
use neo4j_go_driver.Base.{
  ℕ, ◌+◌, ◌-◌, ◌^◌, ◌≤◌, ◌<◌, ◌≡◌, refl, some, List, [], ◌∷◌, ◌++◌, inl, inr, arith, length,
  append_assoc, append-nil, ◌>>=◌,
}
use neo4j_go_driver.Base.Int.{pos}
use neo4j_go_driver.Packstream.Bytes.{be_bytes, length-be_bytes, be_uint-be_bytes8}
use neo4j_go_driver.Packstream.Unpacker.{
  Unpacker, PackedType, packed_str, packed_array, packed_map, packed_byte_array, packed_float,
  markers, len_of, string, byte_array, float, read,
}
use neo4j_go_driver.Packstream.Encoding.{
  header_encoding, header_encoding_cases, bytes_header_encoding, bytes_header_encoding_cases,
  string_encoding, bytes_encoding,
}
use neo4j_go_driver.Packstream.Position.{
  IsAt, skip, after, skip-IsAt, after-IsAt, next_at, len_of_at1, len_of_at2, len_of_at4, read_at,
}
use neo4j_go_driver.Packstream.Ints.{Yields}

-- A marker of a length: the next byte gives it, or the next one, two or four bytes do.
pub record IsHeader (t : PackedType) (a b : ℕ) : Type 0 where
  pub short_fits : a + 0x10 ≤ 256
  pub long_fits : b + 2 < 256
  pub short :
      (l : ℕ) → l < 0x10 → markers (a + l) ≡ record { typ = t; shortlen = pos l; numlenbytes = 0 }
  pub long1 : markers b ≡ record { typ = t; shortlen = pos 0; numlenbytes = 1 }
  pub long2 : markers (b + 1) ≡ record { typ = t; shortlen = pos 0; numlenbytes = 2 }
  pub long4 : markers (b + 2) ≡ record { typ = t; shortlen = pos 0; numlenbytes = 4 }

string-IsHeader : IsHeader packed_str 0x80 0xd0
unfolding markers
string-IsHeader = record {
  short_fits = omega arith;
  long_fits = omega arith;
  short = λ l h. ground arith;
  long1 = refl;
  long2 = refl;
  long4 = refl;
}

array-IsHeader : IsHeader packed_array 0x90 0xd4
unfolding markers
array-IsHeader = record {
  short_fits = omega arith;
  long_fits = omega arith;
  short = λ l h. ground arith;
  long1 = refl;
  long2 = refl;
  long4 = refl;
}

map-IsHeader : IsHeader packed_map 0xa0 0xd8
unfolding markers
map-IsHeader = record {
  short_fits = omega arith;
  long_fits = omega arith;
  short = λ l h. ground arith;
  long1 = refl;
  long2 = refl;
  long4 = refl;
}

-- A length of `n` bytes behind the marker `m`.
long-Yields :
    (u : Unpacker) (t : PackedType) (m n l : ℕ) (rest : List ℕ)
    → markers m ≡ record { typ = t; shortlen = pos 0; numlenbytes = n }
    → IsAt u (m ∷ be_bytes n l ++ rest)
    → len_of (after m u) ≡ some (l, skip n (after m u))
    → Yields u t len_of l rest
long-Yields u t m n l rest e at found = (
  after m u,
  skip n (after m u),
  next_at m (be_bytes n l ++ rest) at,
  rw e,
  found,
  skip-IsAt (be_bytes n l) rest n (length-be_bytes n l) (after-IsAt m (be_bytes n l ++ rest) at),
)

short_len :
    (u : Unpacker) (t : PackedType) (m l : ℕ)
    → l < 0x10
    → markers m ≡ record { typ = t; shortlen = pos l; numlenbytes = 0 }
    → len_of (after m u) ≡ some (l, after m u)
unfolding len_of
short_len u t m l h e = ground arith

header-Yields :
    (u : Unpacker) (t : PackedType) (a b l : ℕ) (rest : List ℕ)
    → IsHeader t a b
    → l < 2 ^ 32 - 1
    → IsAt u (header_encoding a b l ++ rest)
    → Yields u t len_of l rest
header-Yields u t a b l rest k fits h =
    elim (header_encoding_cases a b l k.short_fits k.long_fits) [
      | inl (lt, e) ↦
          let at = rw e at h in
          let m = k.short l lt in
          (
            after (a + l) u,
            after (a + l) u,
            next_at (a + l) rest at,
            rw m,
            short_len u t (a + l) l lt m,
            after-IsAt (a + l) rest at,
          )
      | inr (inl (lt, e)) ↦
          let at = rw e at h in
          long-Yields u t b 1 l rest k.long1 at
            (len_of_at1 l rest lt (rw k.long1) (after-IsAt b (be_bytes 1 l ++ rest) at))
      | inr (inr (inl (lt, e))) ↦
          let at = rw e at h in
          long-Yields u t (b + 1) 2 l rest k.long2 at
            (len_of_at2 l rest lt (rw k.long2) (after-IsAt (b + 1) (be_bytes 2 l ++ rest) at))
      | inr (inr (inr e)) ↦
          let at = rw (e fits) at h in
          long-Yields u t (b + 2) 4 l rest k.long4 at (
            len_of_at4 l rest (omega arith) (rw k.long4)
              (after-IsAt (b + 2) (be_bytes 4 l ++ rest) at))
    ]

pub array_header-Yields :
    (u : Unpacker) (l : ℕ) (rest : List ℕ)
    → l < 2 ^ 32 - 1
    → IsAt u (header_encoding 0x90 0xd4 l ++ rest)
    → Yields u packed_array len_of l rest
array_header-Yields u l rest = header-Yields u packed_array 0x90 0xd4 l rest array-IsHeader

pub map_header-Yields :
    (u : Unpacker) (l : ℕ) (rest : List ℕ)
    → l < 2 ^ 32 - 1
    → IsAt u (header_encoding 0xa0 0xd8 l ++ rest)
    → Yields u packed_map len_of l rest
map_header-Yields u l rest = header-Yields u packed_map 0xa0 0xd8 l rest map-IsHeader

-- A length, and then that many bytes.
pub body-Yields :
    (u : Unpacker) (t : PackedType) (s rest : List ℕ)
    → Yields u t len_of (length s) (s ++ rest)
    → Yields u t (λ v. len_of v >>= λ r. read r.0 r.1) s rest
body-Yields u t s rest (v, w, n, c, l, at) =
    (v, skip (length s) w, n, c, rw l (read_at s rest at), skip-IsAt s rest (length s) refl at)

pub string-Yields :
    (u : Unpacker) (s rest : List ℕ)
    → length s < 2 ^ 32 - 1
    → IsAt u (string_encoding s ++ rest)
    → Yields u packed_str string s rest
unfolding string
string-Yields u s rest fits h = body-Yields u packed_str s rest (
    header-Yields u packed_str 0x80 0xd0 (length s) (s ++ rest) string-IsHeader fits
      (rw append_assoc at h))

bytes_header-Yields :
    (u : Unpacker) (l : ℕ) (rest : List ℕ)
    → l < 2 ^ 32
    → IsAt u (bytes_header_encoding l ++ rest)
    → Yields u packed_byte_array len_of l rest
unfolding markers
bytes_header-Yields u l rest fits h = elim (bytes_header_encoding_cases l fits) [
  | inl (lt, e) ↦
      let at = rw e at h in
      long-Yields u packed_byte_array 0xcc 1 l rest refl at
        (len_of_at1 l rest lt refl (after-IsAt 0xcc (be_bytes 1 l ++ rest) at))
  | inr (inl (lt, e)) ↦
      let at = rw e at h in
      long-Yields u packed_byte_array 0xcd 2 l rest refl at
        (len_of_at2 l rest lt refl (after-IsAt 0xcd (be_bytes 2 l ++ rest) at))
  | inr (inr e) ↦
      let at = rw e at h in
      long-Yields u packed_byte_array 0xce 4 l rest refl at
        (len_of_at4 l rest fits refl (after-IsAt 0xce (be_bytes 4 l ++ rest) at))
]

pub bytes-Yields :
    (u : Unpacker) (b rest : List ℕ)
    → length b < 2 ^ 32
    → IsAt u (bytes_encoding b ++ rest)
    → Yields u packed_byte_array byte_array b rest
unfolding byte_array
bytes-Yields u b rest fits h =
    body-Yields u packed_byte_array b rest
      (bytes_header-Yields u (length b) (b ++ rest) fits (rw append_assoc at h))

float_at :
    (u : Unpacker) (bits : ℕ) (rest : List ℕ)
    → bits < 2 ^ 64
    → IsAt u (be_bytes 8 bits ++ rest)
    → float u ≡ some (bits, skip 8 u)
unfolding float
float_at u bits rest fits at = ground (
  arith,
  length-be_bytes 8 bits,
  read_at (be_bytes 8 bits) rest at,
  be_uint-be_bytes8 bits [] fits,
  append-nil (be_bytes 8 bits),
  at.clean,
)

pub float-Yields :
    (u : Unpacker) (bits : ℕ) (rest : List ℕ)
    → bits < 2 ^ 64
    → IsAt u (0xc1 ∷ be_bytes 8 bits ++ rest)
    → Yields u packed_float float bits rest
unfolding float markers
float-Yields u bits rest fits h =
    let at = after-IsAt 0xc1 (be_bytes 8 bits ++ rest) h in
    (
      after 0xc1 u,
      skip 8 (after 0xc1 u),
      next_at 0xc1 (be_bytes 8 bits ++ rest) h,
      refl,
      float_at (after 0xc1 u) bits rest fits at,
      skip-IsAt (be_bytes 8 bits) rest 8 (length-be_bytes 8 bits) at,
    )
