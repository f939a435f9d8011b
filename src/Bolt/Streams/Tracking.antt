-- ===== src/Bolt/Streams/Tracking.antt =====
-- Which handles a connection accepts: the set of open streams agrees with what was attached to it.
use neo4j_go_driver.Base.{
  ℕ, ◌+◌, ◌<◌, ◌≡◌, refl, arith, true, false, Option, none, some, List, [], ◌∷◌, length, nat_beq,
  nat_beq_iff, id_comparable, Option-cases, inl, inr,
}
use neo4j_go_driver.Base.Int.{pos}
use neo4j_go_driver.Bookmarks.Set.{contains, remove as take_out, contains-remove}
use neo4j_go_driver.Bolt.Streams.Stream.{
  OpenStreams, attach, detach, pause, resume, remove, reset, is_safe, point,
}

-- No pointer twice.
unfoldable pub IsDistinct : List ℕ → Type 0
IsDistinct [] = Unit
IsDistinct (i ∷ is) = (contains i is ≡ false) × IsDistinct is

take_out-absent : (i : ℕ) (l : List ℕ) → contains i l ≡ false → take_out i l ≡ l
unfolding take_out contains
take_out-absent i [] h = refl
take_out-absent i (j ∷ js) h = ground (arith, take_out-absent i js)

length-take_out :
    (i : ℕ) (l : List ℕ) → IsDistinct l → contains i l ≡ true → length (take_out i l) + 1 ≡ length l
unfolding take_out contains IsDistinct
length-take_out i [] d h = ground arith
length-take_out i (j ∷ js) d h = ground (arith, d.0, length-take_out i js d.1, take_out-absent i js)

take_out-IsDistinct : (i : ℕ) (l : List ℕ) → IsDistinct l → IsDistinct (take_out i l)
unfolding take_out IsDistinct
take_out-IsDistinct i [] d = tt
take_out-IsDistinct i (j ∷ js) d =
    ground (arith, d.0, contains-remove i j js, take_out-IsDistinct i js d.1)

-- The set has exactly the streams `opened`, and the current one is among them.
pub record IsTracked {R S E : Type 0} (o : OpenStreams R S E) (opened : List ℕ) : Type 0 where
  pub counted : o.num ≡ pos (length opened)
  pub safe : (i : ℕ) → is_safe i o ≡ contains i opened
  pub distinct : IsDistinct opened
  pub current : (i : ℕ) → o.curr ≡ some i → contains i opened ≡ true
  pub live : 0 < o.key

-- Uses of the set, with the streams that are then open: a reset at a time that no older stream has as
-- its key, the attaching of a stream that is not open while none is current, a pause, the resuming
-- and the removal of an open stream, and the detaching of the current one. A connection has one use
-- more: a PULL that is ignored after a failed RUN removes a stream that was never attached.
pub data Used {R S E : Type 0} : OpenStreams R S E → List ℕ → Type 0 where
  was_reset :
      (o : OpenStreams R S E) (now : ℕ)
      → 0 < now
      → ((i : ℕ) → nat_beq (o.store i).key now ≡ false)
      → Used (reset now o) []
  attached :
      (o : OpenStreams R S E) (l : List ℕ) (i : ℕ)
      → Used o l
      → o.curr ≡ none
      → contains i l ≡ false
      → Used (attach i o) (i ∷ l)
  paused : (o : OpenStreams R S E) (l : List ℕ) → Used o l → Used (pause o) l
  resumed :
      (o : OpenStreams R S E) (l : List ℕ) (i : ℕ)
      → Used o l
      → contains i l ≡ true
      → Used (resume i o) l
  removed :
      (o : OpenStreams R S E) (l : List ℕ) (i : ℕ)
      → Used o l
      → contains i l ≡ true
      → Used (remove i o) (take_out i l)
  detached :
      (o : OpenStreams R S E) (l : List ℕ) (i : ℕ) (sum : Option S) (err : Option E)
      → Used o l
      → o.curr ≡ some i
      → Used (detach sum err o) (take_out i l)

module _ {R S E : Type 0} {o : OpenStreams R S E} {l : List ℕ} (t : IsTracked o l) where
  attach-IsTracked : (i : ℕ) → o.curr ≡ none → contains i l ≡ false → IsTracked (attach i o) (i ∷ l)
  unfolding attach is_safe contains IsDistinct
  attach-IsTracked i idle new =
      rw (attach, idle)
        (record {
          counted = ground (arith, t.counted);
          safe = λ j. ground (arith, t.safe j);
          distinct = (new, t.distinct);
          current = λ j e. ground (arith, e);
          live = t.live;
        })

  resume-IsTracked : (i : ℕ) → contains i l ≡ true → IsTracked (resume i o) l
  unfolding resume is_safe
  resume-IsTracked i member = elim (Option-cases o.curr) [
    | inl idle ↦
        rw (resume, idle)
          (record {
            counted = t.counted;
            safe = t.safe;
            distinct = t.distinct;
            current = λ j e. ground (arith, e, member);
            live = t.live;
          })
    | inr (j, busy) ↦ rw (resume, busy) t
  ]

  remove-IsTracked : (i : ℕ) → contains i l ≡ true → IsTracked (remove i o) (take_out i l)
  unfolding remove is_safe
  remove-IsTracked i member = record {
    counted = ground (arith, t.counted, length-take_out i l t.distinct member);
    safe = λ j. ground (arith, t.safe j, contains-remove i j l, t.live);
    distinct = take_out-IsDistinct i l t.distinct;
    current = λ j e. ground (arith, e, t.current j, contains-remove i j l);
    live = t.live;
  }

-- What a stream's ending leaves of the rest.
ended-IsTracked :
    {R S E : Type 0} (o : OpenStreams R S E) (l : List ℕ) (i : ℕ) (sum : Option S) (err : Option E)
    → IsTracked o l
    → IsTracked
        (record o { store = point i (record (o.store i) { sum = sum; err = err }) o.store })
        l
unfolding is_safe
ended-IsTracked o l i sum err t = record {
  counted = t.counted;
  safe = λ j. ground (arith, t.safe j, nat_beq_iff i j);
  distinct = t.distinct;
  current = t.current;
  live = t.live;
}

-- After a reset at a time that no older stream has as its key, and as long as only streams that are
-- not open are attached, while none is current, only open ones are resumed and removed, and only
-- the current one is detached, the set counts exactly the streams that are open, accepts exactly
-- their handles, and has none or one of them as the current one.
pub Used-IsTracked :
    {R S E : Type 0} {o : OpenStreams R S E} {l : List ℕ} → Used o l → IsTracked o l
unfolding reset pause detach is_safe contains IsDistinct
Used-IsTracked (was_reset o now later old) = record {
  counted = refl;
  safe = old;
  distinct = tt;
  current = λ i e. ground (arith, e);
  live = later;
}
Used-IsTracked (attached o l i u idle new) = attach-IsTracked (Used-IsTracked u) i idle new
Used-IsTracked (paused o l u) =
    let t = Used-IsTracked u in
    record {
      counted = t.counted;
      safe = t.safe;
      distinct = t.distinct;
      current = λ i e. ground (arith, e);
      live = t.live;
    }
Used-IsTracked (resumed o l i u member) = resume-IsTracked (Used-IsTracked u) i member
Used-IsTracked (removed o l i u member) = remove-IsTracked (Used-IsTracked u) i member
Used-IsTracked (detached o l i sum err u busy) =
    let t = Used-IsTracked u in
    rw (detach, busy) (remove-IsTracked (ended-IsTracked o l i sum err t) i (t.current i busy))
