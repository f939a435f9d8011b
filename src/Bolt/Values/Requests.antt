-- ===== src/Bolt/Values/Requests.antt =====
-- neo4j/internal/bolt/outgoing.go, the messages of a client, with the tags of
-- neo4j/internal/bolt/messages.go. `told` is what onPackErr is told.
use neo4j_go_driver.Base.{ℕ, none, some, List, [], ◌∷◌, length}
use neo4j_go_driver.Base.Int.{ℤ}
use neo4j_go_driver.Packstream.Packer
use neo4j_go_driver.Packstream.Packer.{Packer, pack_each}
use neo4j_go_driver.Bolt.Framing.Chunker.{begin_message, end_message}
use neo4j_go_driver.Bolt.Values.Value.{Text, ascii}
use neo4j_go_driver.Bolt.Values.Times.{Zones}
use neo4j_go_driver.Bolt.Values.Any.{Anys, Entries, count_anys}
use neo4j_go_driver.Bolt.Values.Pack.{PackProblem, Outgoing, on_pack_err, packs, pack_all, pack_map}

unfoldable pub begin : Outgoing → Outgoing
begin o = let c = begin_message o.chunker in record o { chunker = c; packer = Packer.begin c.buf }

unfoldable pub end : Outgoing → Outgoing
end o =
    let (buf, err) = Packer.end o.packer in
    let ended = record o { chunker = end_message (record o.chunker { buf = buf }) } in
    elim err [ none ↦ ended | some e ↦ on_pack_err (PackProblem.packing e) ended ]

-- A message of the tag `tag` with `n` fields, which `fields` packs.
unfoldable pub message : (tag n : ℕ) → (Outgoing → Outgoing) → Outgoing → Outgoing
unfolding begin end
message tag n fields o = end (fields (packs (Packer.struct_header tag n) (begin o)))

-- The messages without a field.
unfoldable pub append_logoff : Outgoing → Outgoing
unfolding message
append_logoff = message 0x6b 0 (λ o. o)

unfoldable pub append_commit : Outgoing → Outgoing
unfolding message
append_commit = message 0x12 0 (λ o. o)

unfoldable pub append_rollback : Outgoing → Outgoing
unfolding message
append_rollback = message 0x13 0 (λ o. o)

unfoldable pub append_pull_all : Outgoing → Outgoing
unfolding message
append_pull_all = message 0x3f 0 (λ o. o)

unfoldable pub append_reset : Outgoing → Outgoing
unfolding message
append_reset = message 0x0f 0 (λ o. o)

unfoldable pub append_goodbye : Outgoing → Outgoing
unfolding message
append_goodbye = message 0x02 0 (λ o. o)

unfoldable pub append_telemetry : ℤ → Outgoing → Outgoing
unfolding message
append_telemetry api = message 0x54 1 (packs (Packer.int api))

abbrev pack_n : ℤ → Packer → Packer
pack_n n p = Packer.int n (Packer.string (ascii "n") (Packer.map_header 1 p))

abbrev pack_n_qid : ℤ → ℤ → Packer → Packer
pack_n_qid n qid p =
    Packer.int64 qid (
      Packer.string (ascii "qid")
        (Packer.int n (Packer.string (ascii "n") (Packer.map_header 2 p))))

unfoldable pub append_pull_n : ℤ → Outgoing → Outgoing
unfolding message
append_pull_n n = message 0x3f 1 (packs (pack_n n))

unfoldable pub append_pull_n_qid : ℤ → ℤ → Outgoing → Outgoing
unfolding message
append_pull_n_qid n qid = message 0x3f 1 (packs (pack_n_qid n qid))

unfoldable pub append_discard_n : ℤ → Outgoing → Outgoing
unfolding message
append_discard_n n = message 0x2f 1 (packs (pack_n n))

unfoldable pub append_discard_n_qid : ℤ → ℤ → Outgoing → Outgoing
unfolding message
append_discard_n_qid n qid = message 0x2f 1 (packs (pack_n_qid n qid))

-- The first two fields of the routing messages.
unfoldable pub pack_route : List (Text × Text) → List Text → Packer → Packer
pack_route context bookmarks p = pack_each Packer.string bookmarks (
    Packer.array_header (length bookmarks)
      (pack_each (Packer.entry Packer.string) context (Packer.map_header (length context) p)))

-- The default database has the empty name.
abbrev pack_database : Text → Packer → Packer
pack_database [] = Packer.nil
pack_database (c ∷ name) = Packer.string (c ∷ name)

unfoldable pub append_route_to_v43 : List (Text × Text) → List Text → Text → Outgoing → Outgoing
unfolding message pack_route
append_route_to_v43 context bookmarks database =
    message 0x66 3 (packs (λ p. pack_database database (pack_route context bookmarks p)))

module _ (zones : Zones) where
  unfoldable pub append_hello : Entries → Outgoing → Outgoing
  unfolding message
  append_hello hello = message 0x01 1 (pack_map zones hello)

  unfoldable pub append_logon : Entries → Outgoing → Outgoing
  unfolding message
  append_logon logon = message 0x6a 1 (pack_map zones logon)

  unfoldable pub append_begin : Entries → Outgoing → Outgoing
  unfolding message
  append_begin meta = message 0x11 1 (pack_map zones meta)

  unfoldable pub append_run : Text → Entries → Entries → Outgoing → Outgoing
  unfolding message
  append_run cypher params meta =
      message 0x10 3
        (λ o. pack_map zones meta (pack_map zones params (packs (Packer.string cypher) o)))

  unfoldable pub append_route : List (Text × Text) → List Text → Entries → Outgoing → Outgoing
  unfolding message pack_route
  append_route context bookmarks what =
      message 0x66 3 (λ o. pack_map zones what (packs (pack_route context bookmarks) o))

  unfoldable pub append_x : ℕ → Anys → Outgoing → Outgoing
  unfolding message
  append_x tag fields = message tag (count_anys fields) (pack_all zones fields)
