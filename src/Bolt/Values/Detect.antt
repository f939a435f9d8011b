-- ===== src/Bolt/Values/Detect.antt =====
-- One call of `value` on what `next` detects: by the type of the value, and by the tag of a structure.
use neo4j_go_driver.Base.{
  ℕ, ◌+◌, ◌<◌, ◌≡◌, refl, sym, ap, ◌∙◌, Bool, Option, some, List, [], ◌∷◌, ◌++◌, arith,
  append_assoc,
}
use mathlib.Core.Path.{subst}
use neo4j_go_driver.Base.Int.{pos}
use neo4j_go_driver.Packstream.Unpacker
use neo4j_go_driver.Packstream.Unpacker.{
  Unpacker, PackedType, packed_struct, packed_uuid, markers, pop, struct_tag, len_of, uuid,
  copy_into,
}
use neo4j_go_driver.Packstream.Position.{IsAt, skip, after, after-IsAt, skip-IsAt, next_at, pop_at}
use neo4j_go_driver.Packstream.Ints.{Yields}
use neo4j_go_driver.Bolt.Values.Value.{Value}
use neo4j_go_driver.Bolt.Values.Times.{Zones}
use neo4j_go_driver.Bolt.Values.Run.{Run, Hydrator, pure, ◌>>=◌, ◌>>◌, call, next}
use neo4j_go_driver.Bolt.Values.Hydrate.{structure, value_of, value_by}
use neo4j_go_driver.Bolt.Values.Parses.{
  Parses, unp-IsReady, call_bind, next_then, next_bind-Parses, Yields-Parses,
}

-- Before these bytes `next` detects the type `t`.
abbrev pub Detects : PackedType → List ℕ → Type 0
Detects t xs =
    (u : Unpacker) (rest : List ℕ)
    → IsAt u (xs ++ rest)
    → (v : Unpacker) × (Unpacker.next u ≡ some v) × (v.curr ≡ t)

byte_then_pure :
    {utc uuids : Bool} (b : ℕ) (v : Value) → Parses utc uuids (next >> pure v) (b ∷ []) v
unfolding ◌>>◌ next pure
byte_then_pure b v = record {
  run = λ h rest i at. (after b h.unp, rw (next_at b rest at) refl, after-IsAt b rest at);
}

module _ (zones : Zones) (nested : Run Value) where
  same_next :
      (t : PackedType) (h : Hydrator) (v : Unpacker)
      → Unpacker.next h.unp ≡ some v
      → v.curr ≡ t
      → (next >> value_by zones nested) h ≡ (next >> value_of zones t nested) h
  unfolding ◌>>◌ next value_by
  same_next t h v n c = rw n (ap (λ s. value_of zones s nested (record h { unp = v })) c)

  pub switch-Parses :
      {utc uuids : Bool} (t : PackedType) (xs : List ℕ) (v : Value)
      → Detects t xs
      → Parses utc uuids (next >> value_of zones t nested) xs v
      → Parses utc uuids (next >> value_by zones nested) xs v
  switch-Parses t xs v d p = record {
    run = λ h rest i at.
        let (w, n, c) = d h.unp rest at in
        let (u, e, at2) = p.run h rest i at in (u, same_next t h w n c ∙ e, at2);
  }

  -- The type `t` is read by `get`, and the rest by `k`.
  pub detected-Parses {ℓ} :
      {utc uuids : Bool} {A : Type ℓ} (t : PackedType) (get : Unpacker → Option (A × Unpacker))
      (k : A → Run Value) (xs ys : List ℕ) (a : A) (v : Value)
      → value_of zones t nested ≡ (call get >>= k)
      → ((u : Unpacker) (rest : List ℕ) → IsAt u (xs ++ rest) → Yields u t get a rest)
      → Parses utc uuids (k a) ys v
      → Parses utc uuids (next >> value_by zones nested) (xs ++ ys) v
  detected-Parses {utc} {uuids} t get k xs ys a v e y p =
      switch-Parses t (xs ++ ys) v
        (λ u rest at. let r = y u (ys ++ rest) (rw append_assoc at at) in (r.0, r.2, r.3))
        (subst (λ m. Parses utc uuids (next >> m) (xs ++ ys) v) (sym e)
          (next_bind-Parses (call get) k (Yields-Parses t get xs a y) p))

  -- A value that is its marker.
  pub marker-Parses :
      {utc uuids : Bool} (b : ℕ) (v : Value)
      → value_of zones (markers b).typ nested ≡ pure v
      → Parses utc uuids (next >> value_by zones nested) (b ∷ []) v
  marker-Parses {utc} {uuids} b v e =
      switch-Parses (markers b).typ (b ∷ []) v (λ u rest at. (after b u, next_at b rest at, refl))
        (subst (λ m. Parses utc uuids (next >> m) (b ∷ []) v) (sym e) (byte_then_pure b v))

pub struct_marker :
    (n : ℕ)
    → n < 16
    → markers (0xb0 + n) ≡ record { typ = packed_struct; shortlen = pos n; numlenbytes = 0 }
unfolding markers
struct_marker n h = ground arith

pub short_len :
    (u : Unpacker) (n : ℕ)
    → n < 16
    → u.mrk ≡ record { typ = packed_struct; shortlen = pos n; numlenbytes = 0 }
    → len_of u ≡ some (n, u)
unfolding len_of
short_len u n h e = ground arith

-- The marker and the tag of a structure, and then its fields.
module _ (zones : Zones) (nested : Run Value) {utc uuids : Bool} where
  header-Parses :
      (n tag : ℕ) (ys : List ℕ) (v : Value)
      → n < 16
      → Parses utc uuids (structure zones nested tag n) ys v
      → Parses utc uuids (next >> value_of zones packed_struct nested) ((0xb0 + n) ∷ tag ∷ ys) v
  unfolding value_of struct_tag
  header-Parses n tag ys v lt p = record {
    run = λ h rest i at.
        let b = 0xb0 + n in
        let at1 = after-IsAt b (tag ∷ ys ++ rest) at in
        let at2 = skip-IsAt (tag ∷ []) (ys ++ rest) 1 refl at1 in
        let w = skip 1 (after b h.unp) in
        let (z, e2, at3) = p.run (record h { unp = w }) rest (unp-IsReady w i) at2 in
        (
          z,
          next_then _ h (after b h.unp) (next_at b (tag ∷ ys ++ rest) at)
              ∙ call_bind Unpacker.struct_tag _ _ tag w (pop_at tag (ys ++ rest) at1)
              ∙ call_bind len_of _ _ n w (short_len w n lt (struct_marker n lt))
              ∙ e2,
          at3,
        );
  }

  pub struct-Parses :
      (n tag : ℕ) (ys : List ℕ) (v : Value)
      → n < 16
      → Parses utc uuids (structure zones nested tag n) ys v
      → Parses utc uuids (next >> value_by zones nested) ((0xb0 + n) ∷ tag ∷ ys) v
  struct-Parses n tag ys v lt p =
      switch-Parses zones nested packed_struct ((0xb0 + n) ∷ tag ∷ ys) v
        (λ u rest at. (
          after (0xb0 + n) u,
          next_at (0xb0 + n) (tag ∷ ys ++ rest) at,
          ap (λ m. m.typ) (struct_marker n lt),
        ))
        (header-Parses n tag ys v lt p)
