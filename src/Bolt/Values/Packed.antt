-- ===== src/Bolt/Values/Packed.antt =====
-- What the packer appends for a value in its general form is the value's encoding.
use neo4j_go_driver.Base.{
  ℕ, ◌+◌, ◌-◌, ◌^◌, ◌<◌, ◌≡◌, refl, sym, ap, ◌∙◌, Bool, true, false, Option, none, some, List, [],
  ◌∷◌, ◌++◌, arith, length, append_assoc, append-nil,
}
use mathlib.Core.Path.{subst}
use neo4j_go_driver.Base.Int.{ℤ, pos, ◌+ℤ◌, floor_div}
use neo4j_go_driver.Packstream.Bytes.{be_bytes}
use neo4j_go_driver.Packstream.Ints.{of_word-to_word8}
use neo4j_go_driver.Packstream.Packer
use neo4j_go_driver.Packstream.Packer.{Packer, emit}
use neo4j_go_driver.Packstream.Encoding.{
  int_encoding, int64-encoding, list_header-encoding, string_encoding, string-encoding,
  bytes-encoding,
}
use neo4j_go_driver.Bolt.Values.Value.{Text}
use neo4j_go_driver.Bolt.Values.Times.{Zones, load}
use neo4j_go_driver.Bolt.Values.Any.{Any, Anys, Entries, count_anys, count_entries}
use neo4j_go_driver.Bolt.Values.Pack.{
  Outgoing, packs, pack_x, pack_all, pack_entries, pack_uuid, pack_time_time, pack_time_as, zone_id,
  pack_utc_date_time_with_tz_name, pack_utc_date_time_with_tz_offset,
  pack_legacy_date_time_with_tz_name, pack_legacy_date_time_with_tz_offset,
}
use neo4j_go_driver.Bolt.Values.Format.{encoding, encoding_all, encoding_entries, time_encoding}
use neo4j_go_driver.Bolt.Values.Meaning.{IsSendable, IsLeaf, Fits, FitsAll, FitsEntries}
use neo4j_go_driver.Bolt.Values.Zoned.{same_offset-some}

-- A step of the packer that appends these bytes, whatever is there.
abbrev pub Emits : (Packer → Packer) → List ℕ → Type 0
Emits f xs = (p : Packer) → f p ≡ emit xs p

then-Emits :
    {f g : Packer → Packer} (xs ys : List ℕ)
    → Emits f xs
    → Emits g ys
    → Emits (λ p. g (f p)) (xs ++ ys)
then-Emits xs ys e f p = rw (e p, f) (ap (λ b. record p { buf = b }) (append_assoc p.buf xs ys))

int-Emits : (i : ℤ) → Emits (Packer.int64 i) (int_encoding i)
int-Emits i p = int64-encoding i p

pub struct-Emits : (tag n : ℕ) → n < 16 → Emits (Packer.struct_header tag n) ((0xb0 + n) ∷ tag ∷ [])
unfolding Packer.struct_header
struct-Emits tag n h p = ground arith

float-Emits : (x : ℕ) → Emits (Packer.float64 x) (0xc1 ∷ be_bytes 8 x)
unfolding Packer.float64
float-Emits x p = refl

uint64-Emits : (n : ℕ) → n < 2 ^ 63 → Emits (Packer.uint64 n) (int_encoding (pos n))
unfolding Packer.uint64 Packer.check_overflow_int
uint64-Emits n h p = ground (arith, int64-encoding (pos n) p)

-- The seconds and the nanoseconds of a time, and what comes third.
stamp-Emits :
    (tag : ℕ) (secs : ℤ) (n : ℕ) (f : Packer → Packer) (xs : List ℕ)
    → Emits f xs
    → Emits
        (λ p. f (Packer.int (pos n) (Packer.int64 secs (Packer.struct_header tag 3 p))))
        (0xb3 ∷ tag ∷ (int_encoding secs ++ int_encoding (pos n) ++ xs))
unfolding Packer.int
stamp-Emits tag secs n f xs e =
    then-Emits _ xs
      (then-Emits _ (int_encoding (pos n))
        (then-Emits _ (int_encoding secs) (struct-Emits tag 3 (omega arith)) (int-Emits secs))
        (int-Emits (pos n)))
      e

-- What the outgoing side is after `f`, which appends `xs`.
abbrev pub Puts : Outgoing → Outgoing → List ℕ → Type 0
Puts o r xs = r ≡ packs (emit xs) o

pub put : (o : Outgoing) (f : Packer → Packer) (xs : List ℕ) → Emits f xs → Puts o (packs f o) xs
put o f xs e = ap (λ p. record o { packer = p }) (e o.packer)

put_nothing : (o : Outgoing) → Puts o o []
put_nothing o = ap (λ b. packs (λ p. record p { buf = b }) o) (sym (append-nil o.packer.buf))

pub then_put :
    (o : Outgoing) {q r : Outgoing} (xs ys : List ℕ)
    → Puts o q xs
    → Puts q r ys
    → Puts o r (xs ++ ys)
then_put o xs ys e f =
    f
    ∙ ap (packs (emit ys)) e
    ∙ ap (λ b. packs (λ p. record p { buf = b }) o) (append_assoc o.packer.buf xs ys)

id_short :
    (zones : Zones) (secs : ℤ) (name : Text) (off : ℤ) (id : Text)
    → zone_id zones secs name off ≡ some id
    → length name < 2 ^ 32 - 1
    → length id < 2 ^ 32 - 1
unfolding zone_id
id_short zones secs name off id e h =
    subst (λ t. length t < 2 ^ 32 - 1)
      (sym (same_offset-some secs name off (load zones name) id e).0) h

module _ (zones : Zones) where
  time-Puts :
      (utc : Bool) (secs : ℤ) (n : ℕ) (name : Text) (off : ℤ) (o : Outgoing)
      → o.use_utc ≡ utc
      → IsSendable zones utc secs n name off
      → Puts o
          (pack_time_time zones secs n name off o)
          (time_encoding zones utc secs n off (zone_id zones secs name off) utc)
  unfolding pack_time_time pack_time_as pack_utc_date_time_with_tz_name
      pack_utc_date_time_with_tz_offset pack_legacy_date_time_with_tz_name
      pack_legacy_date_time_with_tz_offset Packer.int
  time-Puts utc secs n name off o u s =
      ap (λ b. pack_time_as secs n off (zone_id zones secs name off) b o) u
      ∙ as-Puts utc (zone_id zones secs name off) refl
    where
      short_id : (id : Text) → zone_id zones secs name off ≡ some id → length id < 2 ^ 32 - 1
      short_id id e = id_short zones secs name off id e s.short_name

      as-Puts :
          (b : Bool) (r : Option Text)
          → zone_id zones secs name off ≡ r
          → Puts o (pack_time_as secs n off r b o) (time_encoding zones utc secs n off r b)
      as-Puts true none e = put o _ _ (stamp-Emits b'I' secs n _ _ (int-Emits off))
      as-Puts false none e =
          rw (of_word-to_word8 (secs +ℤ off) s.reading)
            (put o _ _ (stamp-Emits b'F' (secs +ℤ off) n _ _ (int-Emits off)))
      as-Puts true (some id) e =
          put o _ _ (stamp-Emits b'i' secs n _ _ (λ p. string-encoding id p (short_id id e)))
      as-Puts false (some id) e = rw (of_word-to_word8 (secs +ℤ off) s.reading) (
          put o _ _
            (stamp-Emits b'f' (secs +ℤ off) n _ _ (λ p. string-encoding id p (short_id id e))))

  leaf-Puts :
      (utc uuids : Bool) (x : Any) (o : Outgoing)
      → o.use_utc ≡ utc
      → o.supports_uuid ≡ uuids
      → Fits zones utc uuids x
      → IsLeaf x
      → Puts o (pack_x zones x o) (encoding zones utc x)
  unfolding pack_x pack_uuid Fits encoding IsLeaf Packer.nil Packer.boolean Packer.uint32
      Packer.uint64 Packer.uuid Packer.int Packer.check_overflow_int
  leaf-Puts utc uuids Any.nothing o u v f s = refl
  leaf-Puts utc uuids (Any.boolean true) o u v f s = refl
  leaf-Puts utc uuids (Any.boolean false) o u v f s = refl
  leaf-Puts utc uuids (Any.int i) o u v f s = put o _ _ (int-Emits i)
  leaf-Puts utc uuids (Any.uint64 n) o u v f s = put o _ _ (uint64-Emits n f)
  leaf-Puts utc uuids (Any.float x) o u v f s = put o _ _ (float-Emits x)
  leaf-Puts utc uuids (Any.text t) o u v f s = put o _ _ (λ p. string-encoding t p f)
  leaf-Puts utc uuids (Any.bytes b) o u v f s = put o _ _ (λ p. bytes-encoding b p f)
  leaf-Puts utc uuids (Any.uuid b) o u v f s = ground (arith, v, f.1)
  leaf-Puts utc uuids (Any.point2d id x y) o u v f s = put o _ _ (
      then-Emits _ _
        (then-Emits _ _ (then-Emits _ _ (struct-Emits b'X' 3 (omega arith)) (int-Emits (pos id)))
          (float-Emits x))
        (float-Emits y))
  leaf-Puts utc uuids (Any.point3d id x y z) o u v f s = put o _ _ (
      then-Emits _ _
        (then-Emits _ _
          (then-Emits _ _ (then-Emits _ _ (struct-Emits b'Y' 4 (omega arith)) (int-Emits (pos id)))
            (float-Emits x))
          (float-Emits y))
        (float-Emits z))
  leaf-Puts utc uuids (Any.time_time secs n name off) o u v f s =
      time-Puts utc secs n name off o u f
  leaf-Puts utc uuids (Any.local_date_time secs off n) o u v f s =
      rw (of_word-to_word8 (secs +ℤ off) f.1) (
        put o _ _ (
          then-Emits _ _
            (then-Emits _ _ (struct-Emits b'd' 2 (omega arith)) (int-Emits (secs +ℤ off)))
            (int-Emits (pos n))))
  leaf-Puts utc uuids (Any.date secs off) o u v f s = rw (of_word-to_word8 (secs +ℤ off) f.0) (
      put o _ _ (
        then-Emits _ _ (struct-Emits b'D' 1 (omega arith))
          (int-Emits (floor_div (secs +ℤ off) 86400))))
  leaf-Puts utc uuids (Any.time n off) o u v f s = put o _ _ (
      then-Emits _ _ (then-Emits _ _ (struct-Emits b'T' 2 (omega arith)) (int-Emits (pos n)))
        (int-Emits off))
  leaf-Puts utc uuids (Any.local_time n) o u v f s =
      put o _ _ (then-Emits _ _ (struct-Emits b't' 1 (omega arith)) (int-Emits (pos n)))
  leaf-Puts utc uuids (Any.duration a b c d) o u v f s = put o _ _ (
      then-Emits _ _
        (then-Emits _ _
          (then-Emits _ _ (then-Emits _ _ (struct-Emits b'E' 4 (omega arith)) (int-Emits a))
            (int-Emits b))
          (int-Emits c))
        (int-Emits d))
  leaf-Puts utc uuids (Any.slice xs) o u v f s = elim s [ ]
  leaf-Puts utc uuids (Any.dict m) o u v f s = elim s [ ]
  leaf-Puts utc uuids x o u v f s = elim f [ ]

  module _ (utc uuids : Bool) where
    mutual
      unfolding pack_x Fits encoding IsLeaf Packer.array_header Packer.map_header

      -- The packer appends to its buffer the encoding of the value and nothing else, and no error is
      -- told, for every value that has a place on the wire.
      pub pack_x-Puts :
          (x : Any) (o : Outgoing)
          → o.use_utc ≡ utc
          → o.supports_uuid ≡ uuids
          → Fits zones utc uuids x
          → Puts o (pack_x zones x o) (encoding zones utc x)
      pack_x-Puts (Any.slice xs) o u v f =
          then_put o _ _ (put o _ _ (λ p. list_header-encoding (count_anys xs) 0x90 0xd4 p f.0))
            (pack_all-Puts xs (packs (Packer.array_header (count_anys xs)) o) u v f.1)
      pack_x-Puts (Any.dict m) o u v f =
          then_put o _ _ (put o _ _ (λ p. list_header-encoding (count_entries m) 0xa0 0xd8 p f.0))
            (pack_entries-Puts m (packs (Packer.map_header (count_entries m)) o) u v f.1)
      pack_x-Puts x o u v f = leaf-Puts utc uuids x o u v f tt

      pack_all-Puts :
          (xs : Anys) (o : Outgoing)
          → o.use_utc ≡ utc
          → o.supports_uuid ≡ uuids
          → FitsAll zones utc uuids xs
          → Puts o (pack_all zones xs o) (encoding_all zones utc xs)
      pack_all-Puts Anys.none_left o u v f = put_nothing o
      pack_all-Puts (Anys.also x xs) o u v f =
          ap (pack_all zones xs) (pack_x-Puts x o u v f.0)
          ∙ then_put o (encoding zones utc x) (encoding_all zones utc xs) refl
              (pack_all-Puts xs (packs (emit (encoding zones utc x)) o) u v f.1)

      pack_entries-Puts :
          (m : Entries) (o : Outgoing)
          → o.use_utc ≡ utc
          → o.supports_uuid ≡ uuids
          → FitsEntries zones utc uuids m
          → Puts o (pack_entries zones m o) (encoding_entries zones utc m)
      pack_entries-Puts Entries.no_entries o u v f = put_nothing o
      pack_entries-Puts (Entries.entry k x m) o u v f =
          let keyed = packs (emit (string_encoding k)) o in
          ap (λ q. pack_entries zones m (pack_x zones x q))
            (put o (Packer.string k) (string_encoding k) (λ p. string-encoding k p f.0))
          ∙ ap (pack_entries zones m) (pack_x-Puts x keyed u v f.2)
          ∙ then_put o (string_encoding k) (encoding zones utc x ++ encoding_entries zones utc m)
              refl
              (then_put keyed (encoding zones utc x) (encoding_entries zones utc m) refl
                (pack_entries-Puts m (packs (emit (encoding zones utc x)) keyed) u v f.3))
