-- ===== src/Bolt/Values/Leaves.antt =====
-- One value that is neither a list nor a map, in its encoding.
use neo4j_go_driver.Base.{
  ℕ, zero, suc, ◌≡◌, refl, sym, ap, ◌∙◌, Bool, true, false, Option, some, List, [], ◌∷◌, ◌++◌,
  arith, append-nil, length,
}
use mathlib.Core.Option
use mathlib.Core.Path.{subst}
use neo4j_go_driver.Base.Int.{ℤ, pos, IsInt64, ◌+ℤ◌}
use neo4j_go_driver.Packstream.Unpacker
use neo4j_go_driver.Packstream.Unpacker.{
  markers, PackedType, copy_into, packed_int, packed_float, packed_str, packed_byte_array,
  packed_uuid,
}
use neo4j_go_driver.Packstream.Position.{IsAt, skip, after, after-IsAt, skip-IsAt, next_at, read_at}
use neo4j_go_driver.Packstream.Encoding.{int_encoding}
use neo4j_go_driver.Packstream.Ints.{Yields, int-Yields}
use neo4j_go_driver.Packstream.Lengths.{float-Yields, string-Yields, bytes-Yields}
use neo4j_go_driver.Bolt.Values.Value.{Value}
use neo4j_go_driver.Bolt.Values.Times.{Zones}
use neo4j_go_driver.Bolt.Values.Any.{Any}
use neo4j_go_driver.Bolt.Values.Run.{Run, ProtocolError, pure, next, branch, ◌>>◌, ◌>>=◌, call}
use neo4j_go_driver.Bolt.Values.Struct.{refuse}
use neo4j_go_driver.Bolt.Values.Hydrate.{
  structure, structure_of, shape_of, value_of, value_by, uuid_value,
}
use neo4j_go_driver.Bolt.Values.Pack.{zone_id}
use neo4j_go_driver.Bolt.Values.Format.{encoding}
use neo4j_go_driver.Bolt.Values.Meaning.{Fits, IsLeaf, hydrated, days}
use neo4j_go_driver.Bolt.Values.Parses.{
  Parses, next_then, Yields-Parses, pure-Parses, next_bind-Parses,
}
use neo4j_go_driver.Bolt.Values.Detect.{
  detected-Parses, switch-Parses, marker-Parses, struct-Parses,
}
use neo4j_go_driver.Bolt.Values.Reading.{
  cast-Parses, point2d-Parses, point3d-Parses, date-Parses, time-Parses, local_time-Parses,
  duration-Parses, local_date_time-Parses,
}
use neo4j_go_driver.Bolt.Values.Zoned.{utc_time-Parses, legacy_time-Parses}

-- `Unpacker.uuid` on sixteen bytes.
copy_all : (n : ℕ) (u : List ℕ) → length u ≡ n → copy_into n u ≡ u
copy_all zero [] h = refl
copy_all zero (x ∷ u) h = absurd (omega arith)
copy_all (suc n) [] h = absurd (omega arith)
copy_all (suc n) (x ∷ u) h = ap (λ v. x ∷ v) (copy_all n u (omega arith))

uuid_at :
    (u : List ℕ)
    → length u ≡ 16
    → (w : Unpacker.Unpacker) (rest : List ℕ) → IsAt w (u ++ rest)
    → Unpacker.uuid w ≡ some (u, skip 16 w)
unfolding Unpacker.uuid
uuid_at u h w rest at =
    ap (Option.map (λ p. (copy_into 16 p.0, p.1)))
      (subst (λ n. Unpacker.read n w ≡ some (u, skip n w)) h (read_at u rest at))
    ∙ ap (λ c. some (c, skip 16 w)) (copy_all 16 u h)

uuid-Yields :
    (u : List ℕ)
    → length u ≡ 16
    → (v : Unpacker.Unpacker) (rest : List ℕ) → IsAt v (0xe0 ∷ u ++ rest)
    → Yields v packed_uuid Unpacker.uuid u rest
unfolding markers Unpacker.uuid
uuid-Yields u h v rest at = (
  after 0xe0 v,
  skip 16 (after 0xe0 v),
  next_at 0xe0 (u ++ rest) at,
  refl,
  uuid_at u h (after 0xe0 v) rest (after-IsAt 0xe0 (u ++ rest) at),
  skip-IsAt u rest 16 h (after-IsAt 0xe0 (u ++ rest) at),
)

-- A value of one method of the unpacker.
module _ (zones : Zones) (nested : Run Value) {utc uuids : Bool} where
  scalar-Parses {ℓ} :
      {A : Type ℓ} (t : PackedType) (get : Unpacker.Unpacker → Option (A × Unpacker.Unpacker))
      (f : A → Value) (xs : List ℕ) (a : A)
      → value_of zones t nested ≡ (call get >>= λ b. pure (f b))
      → ((u : Unpacker.Unpacker) (rest : List ℕ) → IsAt u (xs ++ rest) → Yields u t get a rest)
      → Parses utc uuids (next >> value_by zones nested) xs (f a)
  scalar-Parses t get f xs a e y =
      cast-Parses (append-nil xs) refl
        (detected-Parses zones nested t get (λ b. pure (f b)) xs [] a (f a) e y (pure-Parses (f a)))

  int_value-Parses :
      (i : ℤ)
      → IsInt64 i
      → Parses utc uuids (next >> value_by zones nested) (int_encoding i) (Value.int i)
  unfolding value_of
  int_value-Parses i h =
      scalar-Parses packed_int Unpacker.int Value.int (int_encoding i) i refl
        (λ u rest at. int-Yields u i rest h at)

  -- The hydrator makes a UUID of it where the connection may carry one.
  uuid_value-Parses :
      (u : List ℕ)
      → length u ≡ 16
      → uuids ≡ true
      → Parses utc uuids (next >> value_by zones nested) (0xe0 ∷ u) (Value.uuid u)
  unfolding value_of uuid_value branch markers
  uuid_value-Parses u h s =
      switch-Parses zones nested packed_uuid (0xe0 ∷ u) (Value.uuid u)
        (λ v rest at. (after 0xe0 v, next_at 0xe0 (u ++ rest) at, refl))
        (record {
          run = λ k rest i at.
              let w = after 0xe0 k.unp in
              let n = next_at 0xe0 (u ++ rest) at in
              let made : List ℕ → Run Value = λ b. pure (Value.uuid b) in
              let (z, e, at2) =
                (cast-Parses (append-nil (0xe0 ∷ u)) refl (
                    next_bind-Parses (call Unpacker.uuid) made
                      (Yields-Parses packed_uuid Unpacker.uuid (0xe0 ∷ u) u
                        (λ v r. uuid-Yields u h v r))
                      (pure-Parses (Value.uuid u)))).run
                  k rest i at in
              (
                z,
                next_then uuid_value k w n
                    ∙ ap
                        (λ b.
                          branch b (call Unpacker.uuid >>= made) (refuse ProtocolError.early_uuid)
                            (record k { unp = w }))
                        (i.same_uuids ∙ s)
                    ∙ sym (next_then (call Unpacker.uuid >>= made) k w n)
                    ∙ e,
                at2,
              );
        })

module _ (zones : Zones) {uuids : Bool} where
  -- Scalars and structures, which need no level below.
  pub leaf-Parses :
      (nested : Run Value) (utc : Bool) (x : Any)
      → Fits zones utc uuids x
      → IsLeaf x
      → Parses utc uuids
          (next >> value_by zones nested)
          (encoding zones utc x)
          (hydrated zones utc uuids x)
  unfolding value_of structure structure_of shape_of markers Fits encoding hydrated IsLeaf
  leaf-Parses nested utc Any.nothing f s = marker-Parses zones nested 0xc0 Value.nil refl
  leaf-Parses nested utc (Any.boolean true) f s =
      marker-Parses zones nested 0xc3 (Value.boolean true) refl
  leaf-Parses nested utc (Any.boolean false) f s =
      marker-Parses zones nested 0xc2 (Value.boolean false) refl
  leaf-Parses nested utc (Any.int i) f s = int_value-Parses zones nested i f
  leaf-Parses nested utc (Any.uint64 n) f s = int_value-Parses zones nested (pos n) (omega arith)
  leaf-Parses nested utc (Any.float x) f s =
      scalar-Parses zones nested packed_float Unpacker.float Value.float _ x refl
        (λ u rest at. float-Yields u x rest f at)
  leaf-Parses nested utc (Any.text t) f s =
      scalar-Parses zones nested packed_str Unpacker.string Value.text _ t refl
        (λ u rest at. string-Yields u t rest f at)
  leaf-Parses nested utc (Any.bytes b) f s =
      scalar-Parses zones nested packed_byte_array Unpacker.byte_array Value.bytes _ b refl
        (λ u rest at. bytes-Yields u b rest f at)
  leaf-Parses nested utc (Any.uuid u) f s = uuid_value-Parses zones nested u f.0 f.1
  leaf-Parses nested utc (Any.point2d id x y) f s =
      struct-Parses zones nested 3 b'X' _ _ (omega arith) (point2d-Parses id x y f.0 f.1 f.2)
  leaf-Parses nested utc (Any.point3d id x y z) f s =
      struct-Parses zones nested 4 b'Y' _ _ (omega arith) (point3d-Parses id x y z f.0 f.1 f.2 f.3)
  leaf-Parses nested true (Any.time_time secs n name off) f s =
      utc_time-Parses zones nested secs n name off (zone_id zones secs name off) refl f
  leaf-Parses nested false (Any.time_time secs n name off) f s =
      legacy_time-Parses zones nested secs n name off (zone_id zones secs name off) refl f
  leaf-Parses nested utc (Any.local_date_time secs off n) f s =
      struct-Parses zones nested 2 b'd' _ _ (omega arith)
        (local_date_time-Parses (secs +ℤ off) n f.1 f.0 zones f.2)
  leaf-Parses nested utc (Any.date secs off) f s =
      struct-Parses zones nested 1 b'D' _ _ (omega arith) (date-Parses (days secs off) f.1 f.2)
  leaf-Parses nested utc (Any.time n off) f s =
      struct-Parses zones nested 2 b'T' _ _ (omega arith) (time-Parses n off f.0 f.1)
  leaf-Parses nested utc (Any.local_time n) f s =
      struct-Parses zones nested 1 b't' _ _ (omega arith) (local_time-Parses n f)
  leaf-Parses nested utc (Any.duration a b c d) f s =
      struct-Parses zones nested 4 b'E' _ _ (omega arith) (duration-Parses a b c d f)
  leaf-Parses nested utc (Any.slice xs) f s = elim s [ ]
  leaf-Parses nested utc (Any.dict m) f s = elim s [ ]
  leaf-Parses nested utc x f s = elim f [ ]
