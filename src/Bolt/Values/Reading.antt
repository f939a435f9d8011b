-- ===== src/Bolt/Values/Reading.antt =====
-- Reading the structures of the format back.
use neo4j_go_driver.Base.{
  ℕ, ◌-◌, ◌^◌, ◌<◌, ◌≡◌, refl, ap, Bool, some, List, ◌∷◌, ◌++◌, arith, append_assoc, append-nil,
  length,
}
use neo4j_go_driver.Base.Int.{ℤ, pos, negsuc, IsInt64, floor_div, floor_mod, scale, ◌+ℤ◌, ◌-ℤ◌}
use neo4j_go_driver.Packstream.Bytes.{be_bytes}
use neo4j_go_driver.Packstream.Encoding.{int_encoding, string_encoding}
use neo4j_go_driver.Packstream.Ints.{of_word-to_word8}
use neo4j_go_driver.Bolt.Values.Value.{Value, Text, offset, named}
use neo4j_go_driver.Bolt.Values.Times.{
  Zones, Rules, load, second, day_of_nanos, unix_secs, unix_nanos,
}
use neo4j_go_driver.Bolt.Values.Run.{Run}
use neo4j_go_driver.Bolt.Values.Struct.{point2d, point3d}
use neo4j_go_driver.Bolt.Values.Temporal.{
  date_time_offset, utc_date_time_offset, date_time_named_zone, utc_date_time_named_zone,
  local_date_time, date, time, local_time, duration, in_location,
}
use neo4j_go_driver.Bolt.Values.Parses.{
  Parses, pure-Parses, bind-Parses, next_int-Parses, next_float-Parses, next_string-Parses,
}

pub cast-Parses {ℓ} :
    {utc uuids : Bool} {A : Type ℓ} {m : Run A} {xs ys : List ℕ} {a b : A}
    → xs ≡ ys
    → a ≡ b
    → Parses utc uuids m xs a
    → Parses utc uuids m ys b
cast-Parses e f p = rw (← e, ← f) p

module _ {utc uuids : Bool} where
  pub point2d-Parses :
      (id x y : ℕ)
      → id < 2 ^ 32
      → x < 2 ^ 64
      → y < 2 ^ 64
      → Parses utc uuids point2d
          (int_encoding (pos id) ++ (0xc1 ∷ be_bytes 8 x) ++ (0xc1 ∷ be_bytes 8 y))
          (Value.point2d id x y)
  unfolding point2d
  point2d-Parses id x y hi hx hy =
      cast-Parses (simp (append_assoc, append-nil)) (ap (λ n. Value.point2d n x y) (omega arith)) (
        bind-Parses _ (next_int-Parses (pos id) (omega arith)) (
          bind-Parses _ (next_float-Parses x hx)
            (bind-Parses _ (next_float-Parses y hy) (pure-Parses _))))

  pub point3d-Parses :
      (id x y z : ℕ)
      → id < 2 ^ 32
      → x < 2 ^ 64
      → y < 2 ^ 64
      → z < 2 ^ 64
      → Parses utc uuids point3d
          (int_encoding (pos id)
            ++ (0xc1 ∷ be_bytes 8 x)
            ++ (0xc1 ∷ be_bytes 8 y)
            ++ (0xc1 ∷ be_bytes 8 z))
          (Value.point3d id x y z)
  unfolding point3d
  point3d-Parses id x y z hi hx hy hz =
      cast-Parses (simp (append_assoc, append-nil)) (ap (λ n. Value.point3d n x y z) (omega arith))
        (bind-Parses _ (next_int-Parses (pos id) (omega arith)) (
          bind-Parses _ (next_float-Parses x hx) (
            bind-Parses _ (next_float-Parses y hy)
              (bind-Parses _ (next_float-Parses z hz) (pure-Parses _)))))

  pub date-Parses :
      (d : ℤ)
      → IsInt64 d
      → IsInt64 (scale 86400 d)
      → Parses utc uuids date (int_encoding d) (Value.date (scale 86400 d))
  unfolding date
  date-Parses d h k =
      cast-Parses (simp (append-nil)) (ap Value.date (of_word-to_word8 (scale 86400 d) k))
        (bind-Parses _ (next_int-Parses d h) (pure-Parses _))

  pub time-Parses :
      (n : ℕ) (off : ℤ)
      → n < day_of_nanos
      → IsInt64 off
      → Parses utc uuids time (int_encoding (pos n) ++ int_encoding off) (Value.time n off)
  unfolding time floor_mod
  time-Parses n off h k =
      cast-Parses (simp (append-nil)) (ap (λ m. Value.time m off) (omega arith)) (
        bind-Parses _ (next_int-Parses (pos n) (omega arith))
          (bind-Parses _ (next_int-Parses off k) (pure-Parses _)))

  pub local_time-Parses :
      (n : ℕ)
      → n < day_of_nanos
      → Parses utc uuids local_time (int_encoding (pos n)) (Value.local_time n)
  unfolding local_time floor_mod
  local_time-Parses n h =
      cast-Parses (simp (append-nil)) (ap Value.local_time (omega arith))
        (bind-Parses _ (next_int-Parses (pos n) (omega arith)) (pure-Parses _))

  pub duration-Parses :
      (a b c d : ℤ)
      → IsInt64 a × IsInt64 b × IsInt64 c × IsInt64 d
      → Parses utc uuids duration
          (int_encoding a ++ int_encoding b ++ int_encoding c ++ int_encoding d)
          (Value.duration a b c d)
  unfolding duration
  duration-Parses a b c d h = cast-Parses (simp (append_assoc, append-nil)) refl (
      bind-Parses _ (next_int-Parses a h.0) (
        bind-Parses _ (next_int-Parses b h.1) (
          bind-Parses _ (next_int-Parses c h.2)
            (bind-Parses _ (next_int-Parses d h.3) (pure-Parses _)))))

unix_secs-pos : (s : ℤ) (n : ℕ) → n < second → unix_secs s (pos n) ≡ s
unfolding unix_secs floor_div ◌+ℤ◌
unix_secs-pos (pos m) n h = ground arith
unix_secs-pos (negsuc m) n h = ground arith

unix_nanos-pos : (n : ℕ) → n < second → unix_nanos (pos n) ≡ n
unfolding unix_nanos floor_mod
unix_nanos-pos n h = omega arith

pub sub_add : (a b : ℤ) → (a +ℤ b) -ℤ b ≡ a
unfolding ◌+ℤ◌ ◌-ℤ◌
sub_add (pos m) (pos n) = ground arith
sub_add (pos m) (negsuc n) = ground arith
sub_add (negsuc m) (pos n) = ground arith
sub_add (negsuc m) (negsuc n) = ground arith

-- Three fields: seconds, nanoseconds, and an offset or the name of a zone.
module _ {utc uuids : Bool} (secs : ℤ) (n : ℕ) (hs : IsInt64 secs) (hn : n < second) where
  pub utc_date_time_offset-Parses :
      (off : ℤ)
      → IsInt64 off
      → Parses utc uuids utc_date_time_offset
          (int_encoding secs ++ int_encoding (pos n) ++ int_encoding off)
          (Value.date_time secs n (offset off))
  unfolding utc_date_time_offset
  utc_date_time_offset-Parses off h =
      cast-Parses (simp (append_assoc, append-nil))
        (rw (unix_secs-pos secs n hn, unix_nanos-pos n hn) refl)
        (bind-Parses _ (next_int-Parses secs hs) (
          bind-Parses _ (next_int-Parses (pos n) (omega arith))
            (bind-Parses _ (next_int-Parses off h) (pure-Parses _))))

  pub date_time_offset-Parses :
      (off : ℤ)
      → IsInt64 off
      → Parses utc uuids date_time_offset
          (int_encoding secs ++ int_encoding (pos n) ++ int_encoding off)
          (Value.date_time (secs -ℤ off) n (offset off))
  unfolding date_time_offset
  date_time_offset-Parses off h =
      cast-Parses (simp (append_assoc, append-nil))
        (rw (unix_secs-pos secs n hn, unix_nanos-pos n hn) refl)
        (bind-Parses _ (next_int-Parses secs hs) (
          bind-Parses _ (next_int-Parses (pos n) (omega arith))
            (bind-Parses _ (next_int-Parses off h) (pure-Parses _))))

  module _ (zones : Zones) where
    pub local_date_time-Parses :
        zones.local.from_calendar secs +ℤ zones.local.offset_at (zones.local.from_calendar secs)
          ≡ secs
        → Parses utc uuids
            (local_date_time zones)
            (int_encoding secs ++ int_encoding (pos n))
            (Value.local_date_time secs n)
    unfolding local_date_time
    local_date_time-Parses e =
        cast-Parses (simp (append-nil)) (rw (unix_secs-pos secs n hn, unix_nanos-pos n hn, e) refl)
          (bind-Parses _ (next_int-Parses secs hs)
            (bind-Parses _ (next_int-Parses (pos n) (omega arith)) (pure-Parses _)))

    module _ (id : Text) (l : Rules) (hl : load zones id ≡ some l)
        (hid : length id < 2 ^ 32 - 1) where
      pub utc_date_time_named_zone-Parses :
          Parses utc uuids
            (utc_date_time_named_zone zones)
            (int_encoding secs ++ int_encoding (pos n) ++ string_encoding id)
            (Value.date_time secs n (named id))
      unfolding utc_date_time_named_zone
      utc_date_time_named_zone-Parses =
          cast-Parses (simp (append_assoc, append-nil))
            (rw (unix_secs-pos secs n hn, unix_nanos-pos n hn)
              (ap (in_location id (λ l. secs) n) hl))
            (bind-Parses _ (next_int-Parses secs hs) (
              bind-Parses _ (next_int-Parses (pos n) (omega arith))
                (bind-Parses _ (next_string-Parses id hid) (pure-Parses _))))

      pub date_time_named_zone-Parses :
          Parses utc uuids
            (date_time_named_zone zones)
            (int_encoding secs ++ int_encoding (pos n) ++ string_encoding id)
            (Value.date_time (l.from_calendar secs) n (named id))
      unfolding date_time_named_zone
      date_time_named_zone-Parses =
          cast-Parses (simp (append_assoc, append-nil))
            (rw (unix_secs-pos secs n hn, unix_nanos-pos n hn)
              (ap (in_location id (λ l. l.from_calendar secs) n) hl))
            (bind-Parses _ (next_int-Parses secs hs) (
              bind-Parses _ (next_int-Parses (pos n) (omega arith))
                (bind-Parses _ (next_string-Parses id hid) (pure-Parses _))))
