-- ===== src/Packstream/Tests.antt =====
-- Runs of the packer and the unpacker, and the theorems of this tree at concrete inputs.
use neo4j_go_driver.Base.{ℕ, ◌≡◌, refl, none, List, [], ◌∷◌, arith}
use neo4j_go_driver.Base.Int.{negsuc}
use neo4j_go_driver.Packstream.Bytes.{be_bytes}
use neo4j_go_driver.Packstream.Packer.{
  float64, array_header, map_header, begin, int64, string, bytes, list_header, bytes_header,
}
use neo4j_go_driver.Packstream.Unpacker
use neo4j_go_driver.Packstream.Unpacker.{
  Unpacker, reset, packed_undef, packed_float, packed_array, packed_map, packed_int, packed_str,
  packed_byte_array,
}
use neo4j_go_driver.Packstream.Safety.{IsSound}
use neo4j_go_driver.Packstream.Ints.{Yields}
use neo4j_go_driver.Packstream.Calls.{
  Call, call_next, call_string, call_int, perform_all, Returns, perform_all-Returns,
}
use neo4j_go_driver.Packstream.RoundTrip.{
  message, float64_round_trip, header_round_trip, int64_round_trip, string_round_trip,
  bytes_round_trip,
}

abbrev fresh : Unpacker
fresh = reset (0x82 ∷ 0x61 ∷ 0x62 ∷ 0xc9 ∷ []) (record {
  buf = [];
  off = 0;
  len = 0;
  mrk = Unpacker.markers 0;
  err = none;
  curr = packed_undef;
})

abbrev behind : List ℕ
behind = 0xc0 ∷ []

int64_run : message (int64 (negsuc 128)) behind ≡ 0xc9 ∷ 0xff ∷ 0x7f ∷ 0xc0 ∷ []
unfolding int64 begin be_bytes
int64_run = refl

int64_round_trip_example :
    ((int64 (negsuc 128) (begin [])).err ≡ none)
    × Yields
        (reset (message (int64 (negsuc 128)) behind) fresh)
        packed_int
        Unpacker.int
        (negsuc 128)
        behind
unfolding int64 begin be_bytes
int64_round_trip_example =
    int64_round_trip (negsuc 128) behind fresh (omega arith, omega arith) (omega arith)

string_round_trip_example :
    ((string (0x61 ∷ 0x62 ∷ []) (begin [])).err ≡ none)
    × Yields
        (reset (message (string (0x61 ∷ 0x62 ∷ [])) behind) fresh)
        packed_str
        Unpacker.string
        (0x61 ∷ 0x62 ∷ [])
        behind
unfolding string list_header begin
string_round_trip_example =
    string_round_trip (0x61 ∷ 0x62 ∷ []) behind fresh (omega arith) (omega arith)

bytes_round_trip_example :
    ((bytes (0 ∷ 255 ∷ []) (begin [])).err ≡ none)
    × Yields
        (reset (message (bytes (0 ∷ 255 ∷ [])) behind) fresh)
        packed_byte_array
        Unpacker.byte_array
        (0 ∷ 255 ∷ [])
        behind
unfolding bytes begin bytes_header
bytes_round_trip_example = bytes_round_trip (0 ∷ 255 ∷ []) behind fresh (omega arith) (omega arith)

fresh-IsSound : IsSound fresh
unfolding reset Unpacker.markers
fresh-IsSound = record {
  sized = refl;
  small = omega arith;
  within = omega arith;
  width = omega arith;
}

-- A string, and then an integer whose last byte is missing.
abbrev calls : List Call
calls = call_next ∷ call_string ∷ call_next ∷ call_int ∷ []

perform_all-Returns_example : Returns fresh (perform_all calls fresh)
perform_all-Returns_example = perform_all-Returns calls fresh fresh-IsSound

float64_round_trip_example :
    ((float64 0x3ff0000000000000 (begin [])).err ≡ none)
    × Yields
        (reset (message (float64 0x3ff0000000000000) behind) fresh)
        packed_float
        Unpacker.float
        0x3ff0000000000000
        behind
unfolding float64 begin be_bytes
float64_round_trip_example =
    float64_round_trip 0x3ff0000000000000 behind fresh (omega arith) (omega arith)

header_round_trip_example :
    (((array_header 300 (begin [])).err ≡ none)
      × Yields
          (reset (message (array_header 300) behind) fresh)
          packed_array
          Unpacker.len_of
          300
          behind)
    × (((map_header 300 (begin [])).err ≡ none)
        × Yields
            (reset (message (map_header 300) behind) fresh)
            packed_map
            Unpacker.len_of
            300
            behind)
header_round_trip_example = header_round_trip 300 behind fresh (omega arith) (omega arith)
