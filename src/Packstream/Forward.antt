-- ===== src/Packstream/Forward.antt =====
-- The unpacker's reads on any input go forward in the buffer, and never past its end.
use neo4j_go_driver.Base.{
  ℕ, ◌+◌, ◌-◌, ◌%◌, ◌^◌, ◌≤◌, ◌<◌, ◌≡◌, refl, Bool, true, false, Option, none, some, arith,
  length-drop, drop, take, length-take, ◌>>=◌, ◌⊎◌, inl, inr, get_elem?-some,
}
use mathlib.Core.Option
use neo4j_go_driver.Packstream.Bytes.{be_acc-some}
use neo4j_go_driver.Packstream.Unpacker.{
  Unpacker, UnpackError, packed_int, set_err, pop, next, read, slice, readlen, len_of, int, float,
  struct_tag, string, byte_array, uuid, markers, copy_into,
}
use neo4j_go_driver.Packstream.Safety.{IsSound, set_err-Follows, marked-Follows, refl-Follows}

-- The unpacker `v` comes from `u` by reading.
pub record IsAhead (u v : Unpacker) : Type 0 where
  pub sound : IsSound v
  pub same_len : v.len ≡ u.len
  pub forward : u.off ≤ v.off

pub refl-IsAhead : {u : Unpacker} → IsSound u → IsAhead u u
refl-IsAhead s = record { sound = s; same_len = refl; forward = omega arith }

pub IsAhead-trans : {u v w : Unpacker} → IsAhead u v → IsAhead v w → IsAhead u w
IsAhead-trans f g = record {
  sound = g.sound;
  same_len = omega (arith, f.same_len, g.same_len);
  forward = omega (arith, f.forward, g.forward);
}

-- A call that reads, and that cannot panic.
abbrev pub Reads {ℓ} : {A : Type ℓ} → Unpacker → Option (A × Unpacker) → Type 0
Reads u none = ⊥
Reads u (some (a, v)) = IsAhead u v

map-Reads {ℓ κ} :
    {A : Type ℓ} {B : Type κ} (u : Unpacker) (f : A → B) (r : Option (A × Unpacker))
    → Reads u r
    → Reads u (Option.map (λ p. (f p.0, p.1)) r)
map-Reads u f none h = h
map-Reads u f (some (a, v)) h = h

module _ (u : Unpacker) (s : IsSound u) where
  pub set_err-IsAhead : (e : UnpackError) → IsAhead u (set_err e u)
  unfolding set_err
  set_err-IsAhead e = record {
    sound = (set_err-Follows u s e).sound;
    same_len = ground arith;
    forward = ground arith;
  }

  pub moved-IsAhead : (n : ℕ) → n ≤ u.len → u.off ≤ n → IsAhead u (record u { off = n })
  moved-IsAhead n h k = record {
    sound = record { sized = s.sized; small = s.small; within = h; width = s.width };
    same_len = refl;
    forward = k;
  }

  pub pop-Reads : Reads u (pop u)
  unfolding pop
  pop-Reads = ground (
    arith,
    get_elem?-some u.buf u.off,
    moved-IsAhead ((u.off + 1) % 2 ^ 32),
    set_err-IsAhead UnpackError.io_error,
  )

  pub read-Reads : (n : ℕ) → Reads u (read n u)
  unfolding read slice
  read-Reads n =
      ground (arith, moved-IsAhead ((u.off + n) % 2 ^ 32), set_err-IsAhead UnpackError.io_error)

  pub readlen-Reads : (n : ℕ) → n ≤ 8 → Reads u (readlen n u)
  unfolding readlen
  readlen-Reads n h = ground (
    arith,
    be_acc-some n 0 (drop u.off u.buf),
    length-drop u.off u.buf,
    moved-IsAhead ((u.off + n) % 2 ^ 32),
    set_err-IsAhead UnpackError.io_error,
    set_err-IsAhead (UnpackError.illegal_length n u.curr),
  )

  pub len_of-Reads : Reads u (len_of u)
  unfolding len_of
  len_of-Reads =
      ground
        (arith, readlen-Reads (u.mrk.numlenbytes % 2 ^ 32) (grind (arith, s.width)), refl-IsAhead s)

  pub int-Reads : Reads u (int u)
  unfolding int
  int-Reads = ground (
    arith,
    be_acc-some 1 0 (drop u.off u.buf),
    be_acc-some 2 0 (drop u.off u.buf),
    be_acc-some 4 0 (drop u.off u.buf),
    be_acc-some 8 0 (drop u.off u.buf),
    length-drop u.off u.buf,
    moved-IsAhead ((u.off + u.mrk.numlenbytes) % 2 ^ 32),
    set_err-IsAhead UnpackError.io_error,
    set_err-IsAhead (UnpackError.illegal_int_length u.mrk.numlenbytes),
  )

  pub float-Reads : Reads u (float u)
  unfolding float read slice
  float-Reads =
      let start = drop u.off u.buf in
      let size = (u.off + 8) % 2 ^ 32 - u.off in
      ground (
        arith,
        be_acc-some 8 0 (take size start),
        length-take size start,
        length-drop u.off u.buf,
        moved-IsAhead ((u.off + 8) % 2 ^ 32),
        set_err-IsAhead UnpackError.io_error,
      )

  pub struct_tag-Reads : Reads u (struct_tag u)
  unfolding struct_tag
  struct_tag-Reads = pop-Reads

  pub uuid-Reads : Reads u (uuid u)
  unfolding uuid
  uuid-Reads = map-Reads u (copy_into 16) (read 16 u) (read-Reads 16)

then-Reads {ℓ} :
    {A : Type ℓ} {u v : Unpacker} (r : Option (A × Unpacker)) → IsAhead u v → Reads v r → Reads u r
then-Reads none f g = g
then-Reads (some (a, w)) f g = IsAhead-trans f g

body-Reads :
    (u : Unpacker) (r : Option (ℕ × Unpacker)) → Reads u r → Reads u (r >>= λ p. read p.0 p.1)
body-Reads u none f = f
body-Reads u (some (n, v)) f = then-Reads (read n v) f (read-Reads v f.sound n)

module _ (u : Unpacker) (s : IsSound u) where
  pub string-Reads : Reads u (string u)
  unfolding string
  string-Reads = body-Reads u (len_of u) (len_of-Reads u s)

  pub byte_array-Reads : Reads u (byte_array u)
  unfolding byte_array
  byte_array-Reads = body-Reads u (len_of u) (len_of-Reads u s)

-- An error is noted.
abbrev pub noted : Option UnpackError → Bool
noted none = false
noted (some e) = true

-- At the end of the buffer `next` notes an error, and detects an integer.
abbrev pub IsPastEnd : Unpacker → Type 0
IsPastEnd v = (v.curr ≡ packed_int) × (noted v.err ≡ true)

-- What `next` leaves: a byte read, or the end of the buffer.
pub record IsNext (u v : Unpacker) : Type 0 where
  pub ahead : IsAhead u v
  pub progress : (u.off < v.off) ⊎ IsPastEnd v

abbrev pub ReadsNext : Unpacker → Option Unpacker → Type 0
ReadsNext u none = ⊥
ReadsNext u (some v) = IsNext u v

abbrev Progresses : Unpacker → Option (ℕ × Unpacker) → Type 0
Progresses u none = ⊥
Progresses u (some (b, v)) = (u.off < v.off) ⊎ ((b ≡ 0) × (noted v.err ≡ true))

pop-Progresses : (u : Unpacker) → IsSound u → Progresses u (pop u)
unfolding pop set_err
pop-Progresses u s = ground (arith, get_elem?-some u.buf u.off, s.small, s.within)

marked-IsNext :
    (u : Unpacker) (r : Option (ℕ × Unpacker))
    → Reads u r
    → Progresses u r
    → ReadsNext u (Option.map (λ p. record p.1 { mrk = markers p.0; curr = (markers p.0).typ }) r)
unfolding markers
marked-IsNext u none f p = f
marked-IsNext u (some (b, v)) f p = record {
  ahead = record {
    sound = (marked-Follows b (refl-Follows f.sound)).sound;
    same_len = f.same_len;
    forward = f.forward;
  };
  progress = elim p [ inl h ↦ inl h | inr e ↦ inr (rw e.0, e.1) ];
}

pub next-ReadsNext : (u : Unpacker) → IsSound u → ReadsNext u (next u)
unfolding next
next-ReadsNext u s = marked-IsNext u (pop u) (pop-Reads u s) (pop-Progresses u s)
