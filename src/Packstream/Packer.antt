-- ===== src/Packstream/Packer.antt =====
-- neo4j/internal/packstream/packer.go. A byte slice is a list of numbers below 256; a float is its
-- IEEE bit pattern; lengths are int values and never negative. The capacity of the buffer, which
-- prepareVectorData grows ahead of time, has no part in what is written.
use neo4j_go_driver.Base.{
  ℕ, ◌+◌, ◌-◌, ◌%◌, ◌^◌, Bool, true, false, ◌&&◌, Option, none, some, List, [], ◌∷◌, ◌++◌, ltb,
  length, if◌then◌else◌,
}
use neo4j_go_driver.Base.Int.{ℤ, pos, negsuc, ltb_ℤ, leb_ℤ, to_word, of_word}
use neo4j_go_driver.Packstream.Bytes.{be_bytes}

-- The OverflowError of each place that makes one.
pub data PackError : Type 0 where
  struct_overflow uint_overflow : PackError
  list_overflow bytes_overflow : ℕ → PackError

pub record Packer : Type 0 where
  pub buf : List ℕ
  pub err : Option PackError

unfoldable pub begin : List ℕ → Packer
begin buf = record { buf = buf; err = none }

unfoldable pub end : Packer → List ℕ × Option PackError
end p = (p.buf, p.err)

unfoldable pub set_err : PackError → Packer → Packer
set_err e p = elim p.err [ none ↦ record p { err = some e } | some _ ↦ p ]

-- `p.buf = append(p.buf, bytes...)`
abbrev pub emit : List ℕ → Packer → Packer
emit bytes p = record p { buf = p.buf ++ bytes }

-- `p.err = err`, which replaces an earlier error.
abbrev pub fail_with : PackError → Packer → Packer
fail_with e p = record p { err = some e }

unfoldable pub struct_header : ℕ → ℕ → Packer → Packer
unfolding set_err
struct_header tag num p =
    if ltb 0x0f num
    then set_err struct_overflow p
    else emit (((0xb0 + num % 256) % 256) ∷ tag ∷ []) p

unfoldable pub int64 : ℤ → Packer → Packer
int64 i p =
    if leb_ℤ (negsuc 0xf) i && ltb_ℤ i (pos 0x80)
    then emit (to_word 256 i ∷ []) p
    else if leb_ℤ (negsuc 0x7f) i && ltb_ℤ i (negsuc 0xf)
    then emit (0xc8 ∷ to_word 256 i ∷ []) p
    else if leb_ℤ (negsuc 0x7fff) i && ltb_ℤ i (pos 0x8000)
    then emit (0xc9 ∷ be_bytes 2 (to_word (2 ^ 16) i)) p
    else if leb_ℤ (negsuc 0x7fffffff) i && ltb_ℤ i (pos 0x80000000)
    then emit (0xca ∷ be_bytes 4 (to_word (2 ^ 32) i)) p
    else emit (0xcb ∷ be_bytes 8 (to_word (2 ^ 64) i)) p

-- Int32, Int16, Int8 and Int convert to int64, which keeps the value.
unfoldable pub int32 : ℤ → Packer → Packer
unfolding int64
int32 i = int64 i

unfoldable pub int16 : ℤ → Packer → Packer
unfolding int64
int16 i = int64 i

unfoldable pub int8 : ℤ → Packer → Packer
unfolding int64
int8 i = int64 i

unfoldable pub int : ℤ → Packer → Packer
unfolding int64
int i = int64 i

unfoldable pub check_overflow_int : ℕ → Packer → Packer
check_overflow_int i p = if ltb (2 ^ 63 - 1) i then fail_with uint_overflow p else p

-- The conversion int64(i) of a uint64 reads the same bits as two's complement.
unfoldable pub uint64 : ℕ → Packer → Packer
unfolding check_overflow_int
uint64 i p = int64 (of_word (2 ^ 63) i) (check_overflow_int i p)

unfoldable pub uint32 : ℕ → Packer → Packer
uint32 i = int64 (pos i)

unfoldable pub uint16 : ℕ → Packer → Packer
uint16 i = int64 (pos i)

unfoldable pub uint8 : ℕ → Packer → Packer
uint8 i = int64 (pos i)

unfoldable pub float64 : ℕ → Packer → Packer
float64 bits = emit (0xc1 ∷ be_bytes 8 bits)

-- `convert` is Go's conversion of a float32 to a float64, on their bits.
unfoldable float32 : (convert : ℕ → ℕ) → ℕ → Packer → Packer
unfolding float64
float32 convert bits = float64 (convert bits)

unfoldable pub list_header : ℕ → ℕ → ℕ → Packer → Packer
list_header l short_offset long_offset p =
    if ltb l 0x10
    then emit (((short_offset + l % 256) % 256) ∷ []) p
    else if ltb l 0x100
    then emit (long_offset ∷ (l % 256) ∷ []) p
    else if ltb l 0x10000
    then emit (((long_offset + 1) % 256) ∷ be_bytes 2 (l % 2 ^ 16)) p
    else if ltb l (2 ^ 32 - 1)
    then emit (((long_offset + 2) % 256) ∷ be_bytes 4 (l % 2 ^ 32)) p
    else fail_with (list_overflow l) p

-- The bytes of the text follow whether or not the header was written.
unfoldable pub string : List ℕ → Packer → Packer
string s p = emit s (list_header (length s) 0x80 0xd0 p)

unfoldable pub array_header : ℕ → Packer → Packer
array_header l = list_header l 0x90 0xd4

unfoldable pub map_header : ℕ → Packer → Packer
map_header l = list_header l 0xa0 0xd8

-- `for _, x := range xs { pack(x) }`
unfoldable pub pack_each {ℓ} : {A : Type ℓ} → (A → Packer → Packer) → List A → Packer → Packer
pack_each pack [] p = p
pack_each pack (x ∷ xs) p = pack_each pack xs (pack x p)

unfoldable pub strings : List (List ℕ) → Packer → Packer
unfolding pack_each
strings ss p = pack_each string ss (list_header (length ss) 0x90 0xd4 p)

unfoldable pub ints : List ℤ → Packer → Packer
unfolding pack_each
ints ii p = pack_each int ii (list_header (length ii) 0x90 0xd4 p)

unfoldable pub int64s : List ℤ → Packer → Packer
unfolding pack_each
int64s ii p = pack_each int64 ii (list_header (length ii) 0x90 0xd4 p)

unfoldable pub float64s : List ℕ → Packer → Packer
unfolding pack_each
float64s ii p = pack_each float64 ii (list_header (length ii) 0x90 0xd4 p)

-- The error of bytesHeader comes back beside the packer: `false` for an error.
unfoldable pub bytes_header : ℕ → Packer → Packer × Bool
bytes_header l p =
    if ltb l 0x100
    then (emit (0xcc ∷ (l % 256) ∷ []) p, true)
    else if ltb l 0x10000
    then (emit (0xcd ∷ be_bytes 2 (l % 2 ^ 16)) p, true)
    else if ltb l 0x100000000
    then (emit (0xce ∷ be_bytes 4 (l % 2 ^ 32)) p, true)
    else (p, false)

unfoldable pub bytes : List ℕ → Packer → Packer
bytes b p =
    let (q, fits) = bytes_header (length b) p in
    elim fits [ true ↦ emit b q | false ↦ fail_with (bytes_overflow (length b)) q ]

-- The maps with a type of their own: the list is the map in the order of its iteration.
unfoldable pub entry {ℓ} : {A : Type ℓ} → (A → Packer → Packer) → List ℕ × A → Packer → Packer
entry pack (k, v) p = pack v (string k p)

unfoldable pub bytes_map : List (List ℕ × List ℕ) → Packer → Packer
unfolding pack_each entry
bytes_map m p = pack_each (entry bytes) m (list_header (length m) 0xa0 0xd8 p)

unfoldable pub int_map : List (List ℕ × ℤ) → Packer → Packer
unfolding pack_each entry
int_map m p = pack_each (entry int) m (list_header (length m) 0xa0 0xd8 p)

unfoldable pub int64_map : List (List ℕ × ℤ) → Packer → Packer
unfolding pack_each entry
int64_map m p = pack_each (entry int64) m (list_header (length m) 0xa0 0xd8 p)

unfoldable pub string_map : List (List ℕ × List ℕ) → Packer → Packer
unfolding pack_each entry
string_map m p = pack_each (entry string) m (list_header (length m) 0xa0 0xd8 p)

unfoldable pub float64_map : List (List ℕ × ℕ) → Packer → Packer
unfolding pack_each entry
float64_map m p = pack_each (entry float64) m (list_header (length m) 0xa0 0xd8 p)

unfoldable pub boolean : Bool → Packer → Packer
boolean true = emit (0xc3 ∷ [])
boolean false = emit (0xc2 ∷ [])

unfoldable pub nil : Packer → Packer
nil = emit (0xc0 ∷ [])

unfoldable pub uuid : List ℕ → Packer → Packer
uuid u = emit (0xe0 ∷ u)
