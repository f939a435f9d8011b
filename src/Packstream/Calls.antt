-- ===== src/Packstream/Calls.antt =====
-- The unpacker under any sequence of calls of its methods.
use neo4j_go_driver.Base.{
  ℕ, ◌+◌, ◌-◌, ◌%◌, ◌^◌, Option, none, some, List, [], ◌∷◌, arith, length-drop, length-take, drop,
  take, ◌>>=◌,
}
use neo4j_go_driver.Packstream.Bytes.{be_acc-some}
use neo4j_go_driver.Packstream.Unpacker.{
  Unpacker, UnpackError, pop, next, read, slice, len_of, int, float, struct_tag, string, byte_array,
  uuid, bool, markers, copy_into,
}
use mathlib.Core.Option
use neo4j_go_driver.Packstream.Safety.{
  IsSound, Follows, Safe, marked-Follows, moved-Follows, set_err-Follows, Follows-trans,
  refl-Follows, body-Safe, pop-Safe, readlen-Safe, int-Safe, read-Safe,
}

-- The calls that the package's clients make.
pub data Call : Type 0 where
  call_next call_len call_int call_float call_struct_tag call_string : Call
  call_bool call_byte_array call_uuid : Call

abbrev forget {ℓ} : {A : Type ℓ} → Option (A × Unpacker) → Option Unpacker
forget r = Option.map (λ p. p.1) r

pub perform : Call → Unpacker → Option Unpacker
perform call_next u = next u
perform call_len u = forget (len_of u)
perform call_int u = forget (int u)
perform call_float u = forget (float u)
perform call_struct_tag u = forget (struct_tag u)
perform call_string u = forget (string u)
perform call_bool u = some (bool u).1
perform call_byte_array u = forget (byte_array u)
perform call_uuid u = forget (uuid u)

pub perform_all : List Call → Unpacker → Option Unpacker
perform_all [] u = some u
perform_all (c ∷ cs) u = perform c u >>= perform_all cs

-- The outcome of a call: no panic, the unpacker sound, and an error that was there still there.
abbrev pub Returns : Unpacker → Option Unpacker → Type 0
Returns u none = ⊥
Returns u (some v) = Follows u v

forget-Returns {ℓ} :
    {A : Type ℓ} (u : Unpacker) (r : Option (A × Unpacker)) → Safe u r → Returns u (forget r)
forget-Returns u none f = f
forget-Returns u (some (a, v)) f = f

module _ (u : Unpacker) (s : IsSound u) where
  len_of-Safe : Safe u (len_of u)
  unfolding len_of
  len_of-Safe = ground (
    arith,
    readlen-Safe u s (u.mrk.numlenbytes % 2 ^ 32) (grind (arith, s.width)),
    refl-Follows s,
  )

  next-Returns : Returns u (next u)
  unfolding next
  next-Returns = go (pop u) (pop-Safe u s)
    where
      go :
          (r : Option (ℕ × Unpacker))
          → Safe u r
          → Returns u
              (Option.map (λ p. record p.1 { mrk = markers p.0; curr = (markers p.0).typ }) r)
      go none f = f
      go (some (b, v)) f = marked-Follows b f

  float-Safe : Safe u (float u)
  unfolding float read slice
  float-Safe =
      let start = drop u.off u.buf in
      let size = (u.off + 8) % 2 ^ 32 - u.off in
      ground (
        arith,
        be_acc-some 8 0 (take size start),
        length-take size start,
        length-drop u.off u.buf,
        moved-Follows u s ((u.off + 8) % 2 ^ 32),
        set_err-Follows u s UnpackError.io_error,
      )

  bool-Follows : Follows u (bool u).1
  unfolding bool
  bool-Follows = ground (arith, refl-Follows s, set_err-Follows u s UnpackError.illegal_bool)

  perform-Returns : (c : Call) → Returns u (perform c u)
  unfolding perform string byte_array uuid struct_tag
  perform-Returns call_next = next-Returns
  perform-Returns call_len = forget-Returns u _ len_of-Safe
  perform-Returns call_int = forget-Returns u _ (int-Safe u s)
  perform-Returns call_float = forget-Returns u _ float-Safe
  perform-Returns call_struct_tag = forget-Returns u _ (pop-Safe u s)
  perform-Returns call_string = forget-Returns u _ (body-Safe u _ len_of-Safe)
  perform-Returns call_bool = bool-Follows
  perform-Returns call_byte_array = forget-Returns u _ (body-Safe u _ len_of-Safe)
  perform-Returns call_uuid = go (read 16 u) (read-Safe u s 16)
    where
      go :
          (r : Option (List ℕ × Unpacker))
          → Safe u r
          → Returns u (forget (Option.map (λ p. (copy_into 16 p.0, p.1)) r))
      go none f = f
      go (some (b, v)) f = f

-- From a sound unpacker no sequence of calls panics; the unpacker stays sound, and an error once
-- noted is the error reported at the end.
pub perform_all-Returns : (cs : List Call) (u : Unpacker) → IsSound u → Returns u (perform_all cs u)
unfolding perform_all
perform_all-Returns [] u s = refl-Follows s
perform_all-Returns (c ∷ cs) u s = go (perform_all-Returns cs) (perform c u) (perform-Returns u s c)
  where
    chain : (v : Unpacker) → Follows u v → (r : Option Unpacker) → Returns v r → Returns u r
    chain v f none g = g
    chain v f (some w) g = Follows-trans f g

    go :
        ((v : Unpacker) → IsSound v → Returns v (perform_all cs v))
        → (r : Option Unpacker) → Returns u r
        → Returns u (r >>= perform_all cs)
    go later none f = f
    go later (some v) f = chain v f (perform_all cs v) (later v f.sound)
