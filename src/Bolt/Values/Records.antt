-- ===== src/Bolt/Values/Records.antt =====
-- A record of a server, in the encoding of its values, as `hydrate` answers it.
use neo4j_go_driver.Base.{
  ℕ, suc, ◌+◌, ◌-◌, ◌^◌, ◌≤◌, ◌<◌, ◌≡◌, refl, sym, ap, ◌∙◌, Bool, none, some, List, [], ◌∷◌, ◌++◌,
  arith, length, length-append, append-nil,
}
use mathlib.Core.Path.{subst}
use neo4j_go_driver.Packstream.Unpacker
use neo4j_go_driver.Packstream.Unpacker.{
  Unpacker, packed_array, packed_struct, struct_tag, len_of, reset,
}
use neo4j_go_driver.Packstream.Encoding.{header_encoding}
use neo4j_go_driver.Packstream.Position.{IsAt, skip, after, after-IsAt, skip-IsAt, next_at, pop_at}
use neo4j_go_driver.Packstream.RoundTrip.{reset-IsAt}
use neo4j_go_driver.Packstream.Lengths.{array_header-Yields}
use neo4j_go_driver.Bolt.Values.Times.{Zones}
use neo4j_go_driver.Bolt.Values.Any.{Anys, count_anys}
use neo4j_go_driver.Bolt.Values.Run.{Hydrator, done, pure, branch, next, next_len, ◌>>◌}
use neo4j_go_driver.Bolt.Values.Hydrate.{value}
use neo4j_go_driver.Bolt.Values.Message.{
  Answer, record_message, by_tag, top_level, hydrate_with, hydrate, is_struct,
}
use neo4j_go_driver.Bolt.Values.Format.{encoding_all}
use neo4j_go_driver.Bolt.Values.Meaning.{FitsAll, hydrated_all}
use neo4j_go_driver.Bolt.Values.Parses.{
  IsReady, Parses, unp-IsReady, call_bind, next_then, pure-Parses, bind-Parses, then-Parses,
  Yields-Parses, assert_length-Parses, unless_err-Parses,
}
use neo4j_go_driver.Bolt.Values.Detect.{struct_marker, short_len}
use neo4j_go_driver.Bolt.Values.Reading.{cast-Parses}
use neo4j_go_driver.Bolt.Values.Delivery.{items-Parses}

-- The encoding of a record's list.
abbrev pub list_encoding : Zones → Bool → Anys → List ℕ
list_encoding zones utc xs = header_encoding 0x90 0xd4 (count_anys xs) ++ encoding_all zones utc xs

module _ (zones : Zones) (utc uuids : Bool) (xs : Anys) (fits : FitsAll zones utc uuids xs)
    (short : count_anys xs < 2 ^ 32 - 1) where
  record_message-Parses :
      (fuel : ℕ)
      → length (encoding_all zones utc xs) ≤ fuel
      → Parses utc uuids
          (record_message (value zones (suc fuel)) 1)
          (list_encoding zones utc xs)
          (some (hydrated_all zones utc uuids xs))
  unfolding record_message next_len
  record_message-Parses fuel room =
      cast-Parses (ap (λ b. header_encoding 0x90 0xd4 (count_anys xs) ++ b) (append-nil _)) refl (
        then-Parses (assert_length-Parses "record" 1) (
          unless_err-Parses none (
            bind-Parses _
              (Yields-Parses packed_array len_of (header_encoding 0x90 0xd4 (count_anys xs))
                (count_anys xs) (λ u rest at. array_header-Yields u (count_anys xs) rest short at))
              (bind-Parses _ (items-Parses zones utc uuids xs fuel fits room) (pure-Parses _)))))

  by_tag-Parses :
      (fuel : ℕ)
      → length (encoding_all zones utc xs) ≤ fuel
      → Parses utc uuids
          (by_tag zones (suc fuel) 1 0x71)
          (list_encoding zones utc xs)
          (Answer.record_values (some (hydrated_all zones utc uuids xs)))
  unfolding by_tag branch
  by_tag-Parses fuel room =
      cast-Parses (append-nil _) refl
        (bind-Parses _ (record_message-Parses fuel room) (pure-Parses _))

  abbrev record_encoding : List ℕ
  record_encoding = 0xb1 ∷ 0x71 ∷ list_encoding zones utc xs

  top_level_record :
      (fuel : ℕ) (h : Hydrator)
      → IsReady utc uuids h
      → IsAt h.unp record_encoding
      → length (encoding_all zones utc xs) ≤ fuel
      → (u : Unpacker) × ((next >> λ k.
              branch
                (is_struct k.unp.curr)
                (top_level zones (suc fuel))
                (pure Answer.expected_struct)
                k)
            h
          ≡ done
              (Answer.record_values (some (hydrated_all zones utc uuids xs)))
              (record h { unp = u }))
        × IsAt u []
  unfolding top_level struct_tag branch Unpacker.markers
  top_level_record fuel h ready at room =
      let body = list_encoding zones utc xs in
      let v = after 0xb1 h.unp in
      let at1 = after-IsAt 0xb1 (0x71 ∷ body) at in
      let w = skip 1 v in
      let at2 = skip-IsAt (0x71 ∷ []) body 1 refl at1 in
      let (u, e, at3) =
        (by_tag-Parses fuel room).run (record h { unp = w }) [] (unp-IsReady w ready)
          (subst (IsAt w) (sym (append-nil body)) at2) in
      (
        u,
        next_then _ h v (next_at 0xb1 (0x71 ∷ body) at)
            ∙ call_bind len_of _ (record h { unp = v }) 1 v
                (short_len v 1 (omega arith) (struct_marker 1 (omega arith)))
            ∙ call_bind struct_tag _ (record h { unp = v }) 0x71 w (pop_at 0x71 body at1)
            ∙ e,
        at3,
      )

  -- A record message with the encodings of the values is hydrated as the values that were meant, in
  -- their order, by a hydrator with the same settings and no error of an earlier message; it is read
  -- to its end, without an error.
  pub hydrate_record :
      (h : Hydrator)
      → IsReady utc uuids h
      → length record_encoding + 8 < 2 ^ 32
      → (u : Unpacker) × (hydrate zones record_encoding h
          ≡ done
              (Answer.record_values (some (hydrated_all zones utc uuids xs)))
              (record h { unp = u }))
        × IsAt u []
  unfolding hydrate hydrate_with
  hydrate_record h ready small =
      let at = reset-IsAt record_encoding h.unp small in
      top_level_record (length record_encoding + 1) (record h { unp = reset record_encoding h.unp })
        (record { clean = ready.clean; same_utc = ready.same_utc; same_uuids = ready.same_uuids })
        at
        (omega (
          arith,
          length-append (header_encoding 0x90 0xd4 (count_anys xs)) (encoding_all zones utc xs),
        ))
