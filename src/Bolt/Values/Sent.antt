-- ===== src/Bolt/Values/Sent.antt =====
-- What a message of the client leaves in the buffer of the chunker.
use neo4j_go_driver.Base.{
  ℕ, ◌-◌, ◌^◌, ◌<◌, ◌≡◌, refl, ap, ◌∙◌, Bool, List, [], ◌∷◌, ◌++◌, length, arith,
}
use neo4j_go_driver.Packstream.Packer
use neo4j_go_driver.Packstream.Packer.{emit}
use neo4j_go_driver.Packstream.Encoding.{string_encoding, string-encoding}
use neo4j_go_driver.Bolt.Framing.Chunker.{Chunker, begin_message, end_message}
use neo4j_go_driver.Bolt.Values.Value.{Text}
use neo4j_go_driver.Bolt.Values.Times.{Zones}
use neo4j_go_driver.Bolt.Values.Any.{Any, Entries}
use neo4j_go_driver.Bolt.Values.Pack.{Outgoing, packs, pack_map, pack_x}
use neo4j_go_driver.Bolt.Values.Format.{encoding, plain}
use neo4j_go_driver.Bolt.Values.Meaning.{Fits}
use neo4j_go_driver.Bolt.Values.Plain.{pack_x-plain}
use neo4j_go_driver.Bolt.Values.Packed.{Puts, put, then_put, struct-Emits, pack_x-Puts}
use neo4j_go_driver.Bolt.Values.Requests.{begin, end, message, append_run}

-- The chunker with one more message in it, between its header and its end.
pub added : List ℕ → Chunker → Chunker
added m c = let begun = begin_message c in end_message (record begun { buf = begun.buf ++ m })

-- The end of a message that has appended `xs`.
end-Puts :
    (o r : Outgoing) (xs : List ℕ)
    → Puts (begin o) r xs
    → end r ≡ record o {
      chunker = added xs o.chunker;
      packer = emit xs (Packer.begin (begin_message o.chunker).buf);
    }
unfolding begin end added Packer.begin Packer.end
end-Puts o r xs e = ap end e

module _ (zones : Zones) where
  map-Puts :
      (utc uuids : Bool) (m : Entries) (o : Outgoing)
      → o.use_utc ≡ utc
      → o.supports_uuid ≡ uuids
      → Fits zones utc uuids (plain (Any.dict m))
      → Puts o (pack_map zones m o) (encoding zones utc (plain (Any.dict m)))
  unfolding pack_map pack_x
  map-Puts utc uuids m o u v fits =
      pack_x-plain zones (Any.dict m) o
      ∙ pack_x-Puts zones utc uuids (plain (Any.dict m)) o u v fits

  -- RUN with a query and two maps that have a place on the wire adds one message to the chunker: the
  -- header of a structure of three fields with RUN's tag, and the encodings of the query, of the
  -- parameters and of the metadata, in this order. No error is told, and no setting changes.
  pub append_run_message :
      (cypher : Text) (params meta : Entries) (o : Outgoing)
      → length cypher < 2 ^ 32 - 1
      → Fits zones o.use_utc o.supports_uuid (plain (Any.dict params))
      → Fits zones o.use_utc o.supports_uuid (plain (Any.dict meta))
      → let sent = append_run zones cypher params meta o in
        (sent.chunker
          ≡ added
              (0xb3
                ∷ 0x10
                ∷ (string_encoding cypher
                    ++ (encoding zones o.use_utc (plain (Any.dict params))
                        ++ encoding zones o.use_utc (plain (Any.dict meta)))))
              o.chunker)
        × (sent.told ≡ o.told)
        × (sent.use_utc ≡ o.use_utc)
        × (sent.supports_uuid ≡ o.supports_uuid)
  unfolding append_run message begin
  append_run_message cypher params meta o hc hp hm =
      let b = begin o in
      let headed = packs (Packer.struct_header 0x10 3) b in
      let asked = packs (Packer.string cypher) headed in
      let with_params = pack_map zones params asked in
      let xs = string_encoding cypher in
      let ys = encoding zones o.use_utc (plain (Any.dict params)) in
      let zs = encoding zones o.use_utc (plain (Any.dict meta)) in
      let first = map-Puts o.use_utc o.supports_uuid params asked refl refl hp in
      let run : Puts b (pack_map zones meta with_params) (0xb3 ∷ 0x10 ∷ (xs ++ (ys ++ zs))) =
        then_put b (0xb3 ∷ 0x10 ∷ []) (xs ++ (ys ++ zs))
          (put b (Packer.struct_header 0x10 3) _ (struct-Emits 0x10 3 (omega arith)))
          (then_put headed xs (ys ++ zs)
            (put headed (Packer.string cypher) xs (λ p. string-encoding cypher p hc))
            (then_put asked ys zs first (
              map-Puts o.use_utc o.supports_uuid meta with_params (ap (λ s. s.use_utc) first)
                (ap (λ s. s.supports_uuid) first) hm))) in
      let e = end-Puts o _ _ run in
      (
        ap (λ s. s.chunker) e,
        ap (λ s. s.told) e,
        ap (λ s. s.use_utc) e,
        ap (λ s. s.supports_uuid) e,
      )
