-- ===== src/Bolt/Values/Delivery.antt =====
-- Any value in its encoding, read by the hydrator with fuel for as many levels as it has bytes.
use neo4j_go_driver.Base.{
  ℕ, zero, suc, ◌+◌, ◌-◌, ◌^◌, ◌<◌, ◌≤◌, refl, sym, ap, Bool, List, ◌++◌, arith, append-nil, length,
  length-append, inl, inr,
}
use mathlib.Core.Path.{subst}
use neo4j_go_driver.Packstream.Unpacker
use neo4j_go_driver.Packstream.Unpacker.{packed_array, packed_map}
use neo4j_go_driver.Packstream.Encoding.{string_encoding, header_encoding, header_encoding_cases}
use neo4j_go_driver.Packstream.Lengths.{array_header-Yields, map_header-Yields}
use neo4j_go_driver.Bolt.Values.Value.{Value, Text, Fields}
use neo4j_go_driver.Bolt.Values.Times.{Zones}
use neo4j_go_driver.Bolt.Values.Any.{Any, Anys, Entries, count_anys, count_entries}
use neo4j_go_driver.Bolt.Values.Run.{Run, pure, next, ◌>>◌, call}
use neo4j_go_driver.Bolt.Values.Struct.{read_items, read_entries, array, amap}
use neo4j_go_driver.Bolt.Values.Hydrate.{value_of, value_by, value}
use neo4j_go_driver.Bolt.Values.Format.{encoding, encoding_all, encoding_entries}
use neo4j_go_driver.Bolt.Values.Meaning.{
  Fits, FitsAll, FitsEntries, IsLeaf, hydrated, hydrated_all, hydrated_entries,
}
use neo4j_go_driver.Bolt.Values.Dicts.{
  append_fields, Misses, append_fields_assoc, append_none, set_field-Misses, AreNew, append-AreNew,
  AreNew-empty,
}
use neo4j_go_driver.Bolt.Values.Parses.{
  Parses, bind_assoc, pure-Parses, bind-Parses, next_bind-Parses, next_string-Parses,
}
use neo4j_go_driver.Bolt.Values.Detect.{detected-Parses}
use neo4j_go_driver.Bolt.Values.Reading.{cast-Parses}
use neo4j_go_driver.Bolt.Values.Leaves.{leaf-Parses}

header-Positive :
    (a b l : ℕ) → a + 0x10 ≤ 256 → b + 2 < 256 → l < 2 ^ 32 - 1 → 1 ≤ length (header_encoding a b l)
header-Positive a b l ha hb h = elim (header_encoding_cases a b l ha hb) [
  | inl (lt, e) ↦ rw e (omega arith)
  | inr (inl (lt, e)) ↦ rw e (omega arith)
  | inr (inr (inl (lt, e))) ↦ rw e (omega arith)
  | inr (inr (inr e)) ↦ rw (e h) (omega arith)
]

module _ (zones : Zones) {utc uuids : Bool} where
  -- The list's header, and then its items.
  array-Parses :
      (nested : Run Value) (xs : Anys)
      → count_anys xs < 2 ^ 32 - 1
      → Parses utc uuids
          (read_items nested (count_anys xs))
          (encoding_all zones utc xs)
          (hydrated_all zones utc uuids xs)
      → Parses utc uuids
          (next >> value_by zones nested)
          (encoding zones utc (Any.slice xs))
          (hydrated zones utc uuids (Any.slice xs))
  unfolding value_of array encoding hydrated
  array-Parses nested xs h p =
      cast-Parses (ap (λ b. header_encoding 0x90 0xd4 (count_anys xs) ++ b) (append-nil _)) refl (
        detected-Parses zones nested packed_array Unpacker.len_of _ _ _ (count_anys xs) _ refl
          (λ u rest at. array_header-Yields u (count_anys xs) rest h at)
          (bind-Parses _ p (pure-Parses _)))

  map-Parses :
      (nested : Run Value) (m : Entries)
      → count_entries m < 2 ^ 32 - 1
      → Parses utc uuids
          (read_entries nested (count_entries m) Fields.end_fields)
          (encoding_entries zones utc m)
          (hydrated_entries zones utc uuids m)
      → Parses utc uuids
          (next >> value_by zones nested)
          (encoding zones utc (Any.dict m))
          (hydrated zones utc uuids (Any.dict m))
  unfolding value_of amap encoding hydrated
  map-Parses nested m h p =
      cast-Parses (ap (λ b. header_encoding 0xa0 0xd8 (count_entries m) ++ b) (append-nil _)) refl (
        detected-Parses zones nested packed_map Unpacker.len_of _ _ _ (count_entries m) _
          (bind_assoc (call Unpacker.len_of) (λ n. read_entries nested n Fields.end_fields)
            (λ fs. pure (Value.dict fs)))
          (λ u rest at. map_header-Yields u (count_entries m) rest h at)
          (bind-Parses _ p (pure-Parses _)))

  -- An item, and then the others.
  item-Parses :
      (nested : Run Value) (x : Any) (xs : Anys)
      → Parses utc uuids (next >> nested) (encoding zones utc x) (hydrated zones utc uuids x)
      → Parses utc uuids
          (read_items nested (count_anys xs))
          (encoding_all zones utc xs)
          (hydrated_all zones utc uuids xs)
      → Parses utc uuids
          (read_items nested (count_anys (Anys.also x xs)))
          (encoding_all zones utc (Anys.also x xs))
          (hydrated_all zones utc uuids (Anys.also x xs))
  unfolding read_items count_anys encoding hydrated
  item-Parses nested x xs p q =
      cast-Parses (ap (λ b. encoding zones utc x ++ b) (append-nil _)) refl
        (next_bind-Parses nested _ p (bind-Parses _ q (pure-Parses _)))

  entry-Parses :
      (nested : Run Value) (k : Text) (x : Any) (m : Entries) (acc : Fields)
      → length k < 2 ^ 32 - 1
      → Misses k acc
      → Parses utc uuids (next >> nested) (encoding zones utc x) (hydrated zones utc uuids x)
      → Parses utc uuids
          (read_entries nested
            (count_entries m)
            (append_fields acc (Fields.field k (hydrated zones utc uuids x) Fields.end_fields)))
          (encoding_entries zones utc m)
          (append_fields
            (append_fields acc (Fields.field k (hydrated zones utc uuids x) Fields.end_fields))
            (hydrated_entries zones utc uuids m))
      → Parses utc uuids
          (read_entries nested (count_entries (Entries.entry k x m)) acc)
          (encoding_entries zones utc (Entries.entry k x m))
          (append_fields acc (hydrated_entries zones utc uuids (Entries.entry k x m)))
  unfolding read_entries count_entries encoding hydrated append_fields
  entry-Parses nested k x m acc hk miss p q = cast-Parses refl (append_fields_assoc acc _ _) (
      bind-Parses _ (next_string-Parses k hk) (
        next_bind-Parses nested _ p (
          subst
            (λ t.
              Parses utc uuids (read_entries nested (count_entries m) t)
                (encoding_entries zones utc m)
                (append_fields
                  (append_fields acc
                    (Fields.field k (hydrated zones utc uuids x) Fields.end_fields))
                  (hydrated_entries zones utc uuids m)))
            (sym (set_field-Misses k (hydrated zones utc uuids x) acc miss)) q)))

-- A header takes a byte, which leaves one less to what is behind it.
module _ (a b l : ℕ) (ys : List ℕ) (ha : a + 0x10 ≤ 256) (hb : b + 2 < 256)
    (hl : l < 2 ^ 32 - 1) where
  inner_room : (fuel : ℕ) → length (header_encoding a b l ++ ys) ≤ suc fuel → length ys ≤ fuel
  inner_room fuel h =
      omega (arith, length-append (header_encoding a b l) ys, header-Positive a b l ha hb hl)

  no_room : length (header_encoding a b l ++ ys) ≤ 0 → ⊥
  no_room h =
      omega (arith, length-append (header_encoding a b l) ys, header-Positive a b l ha hb hl)

first_room : (xs ys : List ℕ) (n : ℕ) → length (xs ++ ys) ≤ n → length xs ≤ n
first_room xs ys n h = omega (arith, length-append xs ys)

rest_room : (xs ys : List ℕ) (n : ℕ) → length (xs ++ ys) ≤ n → length ys ≤ n
rest_room xs ys n h = omega (arith, length-append xs ys)

-- A value with fuel for its bytes is read back, whatever follows it.
module _ (zones : Zones) (utc uuids : Bool) where
  mutual
    unfolding value encoding hydrated Fits count_anys count_entries read_items read_entries
        append_fields AreNew IsLeaf

    pub value-Parses :
        (x : Any) (fuel : ℕ)
        → Fits zones utc uuids x
        → length (encoding zones utc x) ≤ fuel
        → Parses utc uuids
            (next >> value zones (suc fuel))
            (encoding zones utc x)
            (hydrated zones utc uuids x)
    value-Parses (Any.slice xs) zero f h =
        absurd (no_room 0x90 0xd4 (count_anys xs) _ (omega arith) (omega arith) f.0 h)
    value-Parses (Any.slice xs) (suc fuel) f h =
        array-Parses zones (value zones (suc fuel)) xs f.0 (
          items-Parses xs fuel f.1
            (inner_room 0x90 0xd4 (count_anys xs) _ (omega arith) (omega arith) f.0 fuel h))
    value-Parses (Any.dict m) zero f h =
        absurd (no_room 0xa0 0xd8 (count_entries m) _ (omega arith) (omega arith) f.0 h)
    value-Parses (Any.dict m) (suc fuel) f h = map-Parses zones (value zones (suc fuel)) m f.0 (
        entries-Parses m fuel Fields.end_fields f.1 (AreNew-empty m)
          (inner_room 0xa0 0xd8 (count_entries m) _ (omega arith) (omega arith) f.0 fuel h))
    value-Parses x fuel f h = leaf-Parses zones (value zones fuel) utc x f tt

    pub items-Parses :
        (xs : Anys) (fuel : ℕ)
        → FitsAll zones utc uuids xs
        → length (encoding_all zones utc xs) ≤ fuel
        → Parses utc uuids
            (read_items (value zones (suc fuel)) (count_anys xs))
            (encoding_all zones utc xs)
            (hydrated_all zones utc uuids xs)
    items-Parses Anys.none_left fuel f h = pure-Parses _
    items-Parses (Anys.also x xs) fuel f h =
        item-Parses zones (value zones (suc fuel)) x xs
          (value-Parses x fuel f.0
            (first_room (encoding zones utc x) (encoding_all zones utc xs) fuel h))
          (items-Parses xs fuel f.1
            (rest_room (encoding zones utc x) (encoding_all zones utc xs) fuel h))

    entries-Parses :
        (m : Entries) (fuel : ℕ) (acc : Fields)
        → FitsEntries zones utc uuids m
        → AreNew m acc
        → length (encoding_entries zones utc m) ≤ fuel
        → Parses utc uuids
            (read_entries (value zones (suc fuel)) (count_entries m) acc)
            (encoding_entries zones utc m)
            (append_fields acc (hydrated_entries zones utc uuids m))
    entries-Parses Entries.no_entries fuel acc f a h =
        cast-Parses refl (sym (append_none acc)) (pure-Parses acc)
    entries-Parses (Entries.entry k x m) fuel acc f a h =
        let tail =
          rest_room (string_encoding k) (encoding zones utc x ++ encoding_entries zones utc m) fuel
            h in
        entry-Parses zones (value zones (suc fuel)) k x m acc f.0 a.0
          (value-Parses x fuel f.2
            (first_room (encoding zones utc x) (encoding_entries zones utc m) fuel tail))
          (entries-Parses m fuel _ f.3 (append-AreNew k (hydrated zones utc uuids x) m acc a.1 f.1)
            (rest_room (encoding zones utc x) (encoding_entries zones utc m) fuel tail))
