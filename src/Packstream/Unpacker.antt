-- ===== src/Packstream/Unpacker.antt =====
-- neo4j/internal/packstream/unpacker.go. A method returns its result and the new unpacker; `none`
-- is a Go panic, an index or a slice out of range. `off` and `len` are uint32 and wrap.
use neo4j_go_driver.Base.{
  ℕ, zero, suc, ◌+◌, ◌-◌, ◌%◌, ◌^◌, Bool, true, false, ◌&&◌, ◌||◌, Option, none, some, List, [],
  ◌∷◌, ltb, leb, nat_beq, length, take, drop, get_elem?, if◌then◌else◌, ◌>>=◌,
}
use neo4j_go_driver.Base.Int.{ℤ, pos, negsuc, to_word, of_word}
use neo4j_go_driver.Packstream.Bytes.{be_uint, be_acc}
use mathlib.Core.Option

pub data PackedType : Type 0 where
  packed_undef packed_int packed_float packed_str packed_struct packed_byte_array : PackedType
  packed_array packed_map packed_nil packed_true packed_false packed_uuid : PackedType

pub data UnpackError : Type 0 where
  io_error illegal_bool : UnpackError
  illegal_int_length : ℕ → UnpackError
  illegal_length : ℕ → PackedType → UnpackError

pub record Marker : Type 0 where
  pub typ : PackedType
  pub shortlen : ℤ
  pub numlenbytes : ℕ

abbrev short : PackedType → ℤ → Marker
short t l = record { typ = t; shortlen = l; numlenbytes = 0 }

abbrev long : PackedType → ℕ → Marker
long t n = record { typ = t; shortlen = pos 0; numlenbytes = n }

-- The table `markers` that `init` fills; what it leaves out stays the zero marker.
unfoldable pub markers : ℕ → Marker
markers i =
    if ltb i 0x80
    then short packed_int (pos i)
    else if ltb i 0x90
    then short packed_str (pos (i - 0x80))
    else if ltb i 0xa0
    then short packed_array (pos (i - 0x90))
    else if ltb i 0xb0
    then short packed_map (pos (i - 0xa0))
    else if ltb i 0xc0
    then short packed_struct (pos (i - 0xb0))
    else if nat_beq i 0xc0
    then short packed_nil (pos 0)
    else if nat_beq i 0xc1
    then long packed_float 8
    else if nat_beq i 0xc2
    then short packed_false (pos 0)
    else if nat_beq i 0xc3
    then short packed_true (pos 0)
    else if nat_beq i 0xc8
    then long packed_int 1
    else if nat_beq i 0xc9
    then long packed_int 2
    else if nat_beq i 0xca
    then long packed_int 4
    else if nat_beq i 0xcb
    then long packed_int 8
    else if nat_beq i 0xcc
    then long packed_byte_array 1
    else if nat_beq i 0xcd
    then long packed_byte_array 2
    else if nat_beq i 0xce
    then long packed_byte_array 4
    else if nat_beq i 0xd0
    then long packed_str 1
    else if nat_beq i 0xd1
    then long packed_str 2
    else if nat_beq i 0xd2
    then long packed_str 4
    else if nat_beq i 0xd4
    then long packed_array 1
    else if nat_beq i 0xd5
    then long packed_array 2
    else if nat_beq i 0xd6
    then long packed_array 4
    else if nat_beq i 0xd8
    then long packed_map 1
    else if nat_beq i 0xd9
    then long packed_map 2
    else if nat_beq i 0xda
    then long packed_map 4
    else if nat_beq i 0xe0
    then short packed_uuid (pos 0)
    else if leb 0xf0 i
    then short packed_int (negsuc (0xff - i))
    else short packed_undef (pos 0)

pub record Unpacker : Type 0 where
  pub buf : List ℕ
  pub off : ℕ
  pub len : ℕ
  pub mrk : Marker
  pub err : Option UnpackError
  pub curr : PackedType

-- Reset leaves the other fields of the marker as they were.
unfoldable pub reset : List ℕ → Unpacker → Unpacker
reset buf u = record {
  buf = buf;
  off = 0;
  len = length buf % 2 ^ 32;
  mrk = record { typ = packed_undef; shortlen = u.mrk.shortlen; numlenbytes = u.mrk.numlenbytes };
  err = none;
  curr = packed_undef;
}

unfoldable pub set_err : UnpackError → Unpacker → Unpacker
set_err e u = elim u.err [ none ↦ record u { err = some e } | some _ ↦ u ]

unfoldable pub pop : Unpacker → Option (ℕ × Unpacker)
unfolding set_err
pop u =
    if ltb u.off u.len
    then Option.map (λ x. (x, record u { off = (u.off + 1) % 2 ^ 32 })) (get_elem? u.buf u.off)
    else some (0, set_err io_error u)

unfoldable pub next : Unpacker → Option Unpacker
next u = Option.map (λ r. record r.1 { mrk = markers r.0; curr = (markers r.0).typ }) (pop u)

-- `b[start:end]`
unfoldable pub slice : List ℕ → ℕ → ℕ → Option (List ℕ)
slice b start end =
    if leb start end && leb end (length b) then some (take (end - start) (drop start b)) else none

unfoldable pub read : ℕ → Unpacker → Option (List ℕ × Unpacker)
unfolding set_err slice
read n u =
    let start = u.off in
    let end = (u.off + n) % 2 ^ 32 in
    if ltb ((u.len + 2 ^ 32 - u.off) % 2 ^ 32) n
    then some ([], set_err io_error u)
    else Option.map (λ b. (b, record u { off = end })) (slice u.buf start end)

-- A width without a case reads nothing and notes an error, and the offset moves all the same.
unfoldable pub readlen : ℕ → Unpacker → Option (ℕ × Unpacker)
unfolding set_err be_acc
readlen n u =
    let end = (u.off + n) % 2 ^ 32 in
    if ltb u.len end
    then some (0, set_err io_error u)
    else if nat_beq n 1 || nat_beq n 2 || nat_beq n 4
    then Option.map (λ l. (l, record u { off = end })) (be_uint n (drop u.off u.buf))
    else some (0, record (set_err (illegal_length n u.curr) u) { off = end })

unfoldable pub len_of : Unpacker → Option (ℕ × Unpacker)
len_of u =
    if nat_beq u.mrk.numlenbytes 0
    then some (to_word (2 ^ 32) u.mrk.shortlen, u)
    else readlen (u.mrk.numlenbytes % 2 ^ 32) u

abbrev int_at : ℕ → Unpacker → ℕ → ℕ → ℤ × Unpacker
int_at end u half w = (of_word half w, record u { off = end })

unfoldable pub int : Unpacker → Option (ℤ × Unpacker)
unfolding set_err be_acc
int u =
    let n = u.mrk.numlenbytes in
    let end = (u.off + n) % 2 ^ 32 in
    let at = drop u.off u.buf in
    if nat_beq n 0
    then some (u.mrk.shortlen, u)
    else if ltb u.len end
    then some (pos 0, set_err io_error u)
    else if nat_beq n 1
    then Option.map (int_at end u (2 ^ 7)) (be_uint 1 at)
    else if nat_beq n 2
    then Option.map (int_at end u (2 ^ 15)) (be_uint 2 at)
    else if nat_beq n 4
    then Option.map (int_at end u (2 ^ 31)) (be_uint 4 at)
    else if nat_beq n 8
    then Option.map (int_at end u (2 ^ 63)) (be_uint 8 at)
    else some (pos 0, set_err (illegal_int_length n) u)

-- The bit pattern of math.NaN().
abbrev pub nan : ℕ
nan = 0x7ff8000000000001

-- The check is of the sticky error, so it also answers NaN after an earlier one.
unfoldable pub float : Unpacker → Option (ℕ × Unpacker)
float u = read 8 u >>= λ r. elim r.1.err [
  | none ↦ Option.map (λ w. (w, r.1)) (be_uint 8 r.0)
  | some _ ↦ some (nan, r.1)
]

unfoldable pub struct_tag : Unpacker → Option (ℕ × Unpacker)
struct_tag u = pop u

unfoldable pub string : Unpacker → Option (List ℕ × Unpacker)
string u = len_of u >>= λ r. read r.0 r.1

unfoldable pub bool : Unpacker → Bool × Unpacker
unfolding set_err
bool u = elim u.curr [
  | packed_true ↦ (true, u)
  | packed_false ↦ (false, u)
  | _ ↦ (false, set_err illegal_bool u)
]

unfoldable pub byte_array : Unpacker → Option (List ℕ × Unpacker)
byte_array u = len_of u >>= λ r. read r.0 r.1

-- `copy(out[:], buf)` into an array of `n` zeros: what `buf` lacks stays zero.
abbrev pub copy_into : ℕ → List ℕ → List ℕ
copy_into zero b = []
copy_into (suc n) [] = 0 ∷ copy_into n []
copy_into (suc n) (x ∷ b) = x ∷ copy_into n b

unfoldable pub uuid : Unpacker → Option (List ℕ × Unpacker)
uuid u = Option.map (λ r. (copy_into 16 r.0, r.1)) (read 16 u)
