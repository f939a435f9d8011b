-- ===== src/Packstream/Safety.antt =====
-- The unpacker's reads on any input: none of them indexes out of range, and the first error stays.
use neo4j_go_driver.Base.{
  ℕ, ◌+◌, ◌%◌, ◌^◌, ◌≤◌, ◌<◌, ◌≡◌, Option, none, some, List, arith, length, length-drop, drop,
  get_elem?-some, ◌>>=◌,
}
use neo4j_go_driver.Packstream.Bytes.{be_acc-some}
use neo4j_go_driver.Packstream.Unpacker.{
  Unpacker, UnpackError, reset, set_err, pop, read, slice, readlen, int, markers,
}

-- The bound is on the message: four gigabytes less eight bytes.
pub record IsSound (u : Unpacker) : Type 0 where
  pub sized : u.len ≡ length u.buf
  pub small : u.len + 8 < 2 ^ 32
  pub within : u.off ≤ u.len
  pub width : u.mrk.numlenbytes ≤ 8

-- The unpacker `v` is what a call made of `u`.
pub record Follows (u v : Unpacker) : Type 0 where
  pub sound : IsSound v
  pub sticky : (e : UnpackError) → u.err ≡ some e → v.err ≡ some e

-- `⊥` is a Go panic.
abbrev pub Safe {ℓ} : {A : Type ℓ} → Unpacker → Option (A × Unpacker) → Type 0
Safe u none = ⊥
Safe u (some (a, v)) = Follows u v

pub reset-IsSound :
    (b : List ℕ) (u : Unpacker)
    → length b + 8 < 2 ^ 32
    → u.mrk.numlenbytes ≤ 8
    → IsSound (reset b u)
unfolding reset
reset-IsSound b u h k = record {
  sized = omega arith;
  small = omega arith;
  within = omega arith;
  width = k;
}

module _ (u : Unpacker) (s : IsSound u) where
  pub set_err-Follows : (e : UnpackError) → Follows u (set_err e u)
  unfolding set_err
  set_err-Follows e = record { sound = ground arith; sticky = λ f h. ground arith }

  pub moved-Follows : (n : ℕ) → n ≤ u.len → Follows u (record u { off = n })
  moved-Follows n h = record {
    sound = record { sized = s.sized; small = s.small; within = h; width = s.width };
    sticky = λ e k. k;
  }

  pub pop-Safe : Safe u (pop u)
  unfolding pop
  pop-Safe = ground (
    arith,
    get_elem?-some u.buf u.off,
    moved-Follows ((u.off + 1) % 2 ^ 32),
    set_err-Follows UnpackError.io_error,
  )

  pub read-Safe : (n : ℕ) → Safe u (read n u)
  unfolding read slice
  read-Safe n =
      ground (arith, moved-Follows ((u.off + n) % 2 ^ 32), set_err-Follows UnpackError.io_error)

  pub readlen-Safe : (n : ℕ) → n ≤ 8 → Safe u (readlen n u)
  unfolding readlen
  readlen-Safe n h = ground (
    arith,
    be_acc-some n 0 (drop u.off u.buf),
    length-drop u.off u.buf,
    moved-Follows ((u.off + n) % 2 ^ 32),
    set_err-Follows UnpackError.io_error,
    set_err-Follows (UnpackError.illegal_length n u.curr),
  )

  pub int-Safe : Safe u (int u)
  unfolding int
  int-Safe = ground (
    arith,
    be_acc-some 1 0 (drop u.off u.buf),
    be_acc-some 2 0 (drop u.off u.buf),
    be_acc-some 4 0 (drop u.off u.buf),
    be_acc-some 8 0 (drop u.off u.buf),
    length-drop u.off u.buf,
    moved-Follows ((u.off + u.mrk.numlenbytes) % 2 ^ 32),
    set_err-Follows UnpackError.io_error,
    set_err-Follows (UnpackError.illegal_int_length u.mrk.numlenbytes),
  )

markers_width : (i : ℕ) → (markers i).numlenbytes ≤ 8
unfolding markers
markers_width i = ground arith

pub marked-Follows :
    {u v : Unpacker} (b : ℕ)
    → Follows u v
    → Follows u (record v { mrk = markers b; curr = (markers b).typ })
marked-Follows b f = record {
  sound = record {
    sized = f.sound.sized;
    small = f.sound.small;
    within = f.sound.within;
    width = markers_width b;
  };
  sticky = f.sticky;
}

pub Follows-trans : {u v w : Unpacker} → Follows u v → Follows v w → Follows u w
Follows-trans f g = record { sound = g.sound; sticky = λ e h. g.sticky e (f.sticky e h) }

pub refl-Follows : {u : Unpacker} → IsSound u → Follows u u
refl-Follows s = record { sound = s; sticky = λ e h. h }

-- A length, and a read of that many bytes.
pub body-Safe :
    (u : Unpacker) (r : Option (ℕ × Unpacker)) → Safe u r → Safe u (r >>= λ p. read p.0 p.1)
body-Safe u none f = f
body-Safe u (some (n, v)) f = then_read (read n v) (read-Safe v f.sound n)
  where
    then_read : (r : Option (List ℕ × Unpacker)) → Safe v r → Safe u r
    then_read none g = g
    then_read (some (b, w)) g = Follows-trans f g
