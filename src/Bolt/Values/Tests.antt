-- ===== src/Bolt/Values/Tests.antt =====
-- Concrete runs of the theorems of this part, and small tests.
use neo4j_go_driver.Base.{
  ℕ, ◌≡◌, refl, true, none, some, List, [], ◌∷◌, ◌++◌, length, arith, length-append,
}
use mathlib.Core.Bool.{true≢false}
use neo4j_go_driver.Base.Int.{pos, negsuc, eq_ℤ, ◌+ℤ◌}
use neo4j_go_driver.Packstream.Bytes.{be_bytes}
use neo4j_go_driver.Packstream.Packer
use neo4j_go_driver.Packstream.Packer.{begin}
use neo4j_go_driver.Packstream.Unpacker.{Unpacker, packed_undef, reset}
use neo4j_go_driver.Packstream.Position.{IsAt}
use neo4j_go_driver.Packstream.Encoding.{string_encoding, int_encoding, header_encoding}
use neo4j_go_driver.Packstream.RoundTrip.{reset-IsAt}
use neo4j_go_driver.Bolt.Values.Value.{ascii, text_beq}
use neo4j_go_driver.Bolt.Values.Times.{Zones, Rules, load}
use neo4j_go_driver.Bolt.Values.Any.{Any, Anys, Entries, count_entries, count_anys}
use neo4j_go_driver.Bolt.Values.Run.{Hydrator, ProtocolError, protocol, done, get_err, next, ◌>>◌}
use neo4j_go_driver.Bolt.Values.Hydrate.{value}
use neo4j_go_driver.Bolt.Values.Pack.{
  Outgoing, pack_x, zone_id, pack_time_time, pack_time_as, pack_utc_date_time_with_tz_name,
}
use neo4j_go_driver.Bolt.Values.Requests.{append_run}
use neo4j_go_driver.Bolt.Values.Format.{encoding, plain, each, IsAbsent}
use neo4j_go_driver.Bolt.Values.Meaning.{Fits, FitsAll, hydrated, hydrated_all, IsSendable}
use neo4j_go_driver.Bolt.Values.Parses.{IsReady}
use neo4j_go_driver.Bolt.Values.Message.{Answer, hydrate}
use neo4j_go_driver.Bolt.Values.Stale.{Reply, hydrate-stale}
use neo4j_go_driver.Bolt.Values.Steady.{Ends}
use neo4j_go_driver.Bolt.Values.Plain.{pack_x-plain}
use neo4j_go_driver.Bolt.Values.RoundTrip.{pack_x_round_trip}
use neo4j_go_driver.Bolt.Values.Records.{hydrate_record, list_encoding}
use neo4j_go_driver.Bolt.Values.Hydrates.{hydrate-Ends}
use neo4j_go_driver.Bolt.Values.Sent.{added, append_run_message}

-- A host where every location reads UTC.
abbrev utc_rules : Rules
utc_rules = record { offset_at = λ s. pos 0; from_calendar = λ s. s }

abbrev utc_zones : Zones
utc_zones = record { load_location = λ name. some utc_rules; local = utc_rules }

abbrev sender : Outgoing
sender = record {
  chunker = record { buf = []; sizes = []; offset = 0 };
  packer = record { buf = []; err = none };
  told = [];
  use_utc = true;
  supports_uuid = true;
}

abbrev blank : Unpacker
blank = record {
  buf = [];
  off = 0;
  len = 0;
  mrk = record { typ = packed_undef; shortlen = pos 0; numlenbytes = 0 };
  err = none;
  curr = packed_undef;
}

abbrev receiver : Hydrator
receiver = record { unp = blank; err = none; bolt_major = 5; use_utc = true; supports_uuid = true }

receiver-IsReady : IsReady true true receiver
receiver-IsReady = record { clean = refl; same_utc = refl; same_uuids = refl }

-- Two integers, a point, and a time in a zone of a name.
abbrev sample : Any
sample = Any.dict (
    Entries.entry (ascii "n") (Any.ints (pos 1 ∷ negsuc 199 ∷ [])) (
      Entries.entry (ascii "p") (Any.point2d 4326 0 1) (
        Entries.entry (ascii "t") (Any.time_time (pos 1700000000) 5 (ascii "Europe/London") (pos 0))
          Entries.no_entries)))

sample_time : IsSendable utc_zones true (pos 1700000000) 5 (ascii "Europe/London") (pos 0)
unfolding ◌+ℤ◌
sample_time = record {
  below_second = omega arith;
  instant = (omega arith, omega arith);
  reading = (omega arith, omega arith);
  zone = (omega arith, omega arith);
  short_name = omega arith;
  unique = λ l e f. absurd (true≢false e);
}

sample-Fits : Fits utc_zones true true (plain sample)
unfolding plain Fits IsAbsent text_beq count_entries count_anys each
sample-Fits = (
  omega arith,
  (
    omega arith,
    (refl, (refl, tt)),
    (omega arith, ((omega arith, omega arith), ((omega arith, omega arith), tt))),
    (
      omega arith,
      (refl, tt),
      (omega arith, omega arith, omega arith),
      (omega arith, tt, sample_time, tt),
    ),
  ),
)

sample_size : length (pack_x utc_zones sample sender).packer.buf ≡ 57
unfolding pack_x pack_time_time pack_time_as pack_utc_date_time_with_tz_name zone_id load text_beq
    eq_ℤ Packer.map_header Packer.list_header Packer.string Packer.ints Packer.pack_each Packer.int
    Packer.int64 Packer.array_header Packer.struct_header Packer.uint32 Packer.float64 be_bytes
    count_entries
sample_size = refl

-- Its bytes, and a byte of what follows.
abbrev sample_bytes : List ℕ
sample_bytes = (pack_x utc_zones sample sender).packer.buf

abbrev reading : Hydrator
reading = record receiver { unp = reset (sample_bytes ++ (0xc0 ∷ [])) blank }

pack_x_round_trip_example :
    ((pack_x utc_zones sample sender).told ≡ [])
    × ((pack_x utc_zones sample sender).packer.err ≡ none)
    × ((u : Unpacker) × ((next >> value utc_zones 201) reading
          ≡ done (hydrated utc_zones true true (plain sample)) (record reading { unp = u }))
        × IsAt u (0xc0 ∷ []))
unfolding begin reset
pack_x_round_trip_example =
    pack_x_round_trip utc_zones sample sender sample-Fits reading (0xc0 ∷ []) 200 refl
      (record { clean = refl; same_utc = refl; same_uuids = refl })
      (reset-IsAt (sample_bytes ++ (0xc0 ∷ [])) blank
        (omega (arith, sample_size, length-append sample_bytes (0xc0 ∷ []))))
      (omega (arith, sample_size))

pack_x-plain_example : pack_x utc_zones sample sender ≡ pack_x utc_zones (plain sample) sender
pack_x-plain_example = pack_x-plain utc_zones sample sender

-- A record of the sample and a text.
abbrev row : Anys
row = Anys.also (plain sample) (Anys.also (Any.text (ascii "x")) Anys.none_left)

row-Fits : FitsAll utc_zones true true row
unfolding Fits
row-Fits = (sample-Fits, (omega arith, tt))

row_size : length (list_encoding utc_zones true row) ≡ 60
unfolding encoding plain each zone_id load text_beq eq_ℤ int_encoding header_encoding
    Packer.list_header Packer.int64 be_bytes count_entries count_anys
row_size = refl

hydrate_record_example :
    (u : Unpacker) × (hydrate utc_zones (0xb1 ∷ 0x71 ∷ list_encoding utc_zones true row) receiver
      ≡ done
          (Answer.record_values (some (hydrated_all utc_zones true true row)))
          (record receiver { unp = u }))
    × IsAt u []
unfolding count_anys
hydrate_record_example =
    hydrate_record utc_zones true true row row-Fits (omega arith) receiver receiver-IsReady
      (omega (arith, row_size))

-- A failure whose cause is cut off.
abbrev cut_off : List ℕ
cut_off = 0xb1 ∷ 0x7f ∷ 0xa1 ∷ 0x85 ∷ b'c' ∷ b'a' ∷ b'u' ∷ b's' ∷ b'e' ∷ 0xa1 ∷ []

hydrate-Ends_example :
    Ends (record receiver { unp = reset cut_off blank }) (hydrate utc_zones cut_off receiver)
hydrate-Ends_example = hydrate-Ends utc_zones cut_off receiver (omega arith) (omega arith)

-- RUN of "RETURN $n" with one parameter and no metadata.
abbrev parameters : Entries
parameters = Entries.entry (ascii "n") (Any.int (pos 7)) Entries.no_entries

append_run_message_example :
    let sent = append_run utc_zones (ascii "RETURN $n") parameters Entries.no_entries sender in
    (sent.chunker
      ≡ added
          (0xb3
            ∷ 0x10
            ∷ (string_encoding (ascii "RETURN $n")
                ++ (encoding utc_zones true (plain (Any.dict parameters))
                    ++ encoding utc_zones true (plain (Any.dict Entries.no_entries)))))
          sender.chunker)
    × (sent.told ≡ [])
    × (sent.use_utc ≡ true)
    × (sent.supports_uuid ≡ true)
unfolding plain Fits count_entries IsAbsent
append_run_message_example =
    append_run_message utc_zones (ascii "RETURN $n") parameters Entries.no_entries sender
      (omega arith) (omega arith, (omega arith, tt, (omega arith, omega arith), tt))
      (omega arith, tt)

abbrev refused : Hydrator
refused = record receiver { err = some ProtocolError.not_a_node }

hydrate-stale_example :
    (u : Unpacker) × (hydrate utc_zones (0xb1 ∷ 0x70 ∷ 0xa0 ∷ []) refused
      ≡ done (Answer.success_message none) (record refused { unp = u }))
    × (get_err (record refused { unp = u }) ≡ some (protocol ProtocolError.not_a_node))
hydrate-stale_example =
    hydrate-stale utc_zones refused ProtocolError.not_a_node Reply.success_reply 1 (0xa0 ∷ []) refl
      (omega arith) (omega arith)
