-- ===== src/Bolt/Values/RoundTrip.antt =====
-- The packer of outgoing.go and the hydrator of hydrator.go together.
use neo4j_go_driver.Base.{ℕ, suc, ◌≤◌, ◌≡◌, refl, ap, ◌∙◌, List, [], ◌++◌, length}
use mathlib.Core.Path.{subst}
use neo4j_go_driver.Packstream.Packer.{begin}
use neo4j_go_driver.Packstream.Unpacker.{Unpacker}
use neo4j_go_driver.Packstream.Position.{IsAt}
use neo4j_go_driver.Bolt.Values.Times.{Zones}
use neo4j_go_driver.Bolt.Values.Any.{Any}
use neo4j_go_driver.Bolt.Values.Pack.{Outgoing, pack_x}
use neo4j_go_driver.Bolt.Values.Run.{Hydrator, done, next, ◌>>◌}
use neo4j_go_driver.Bolt.Values.Hydrate.{value}
use neo4j_go_driver.Bolt.Values.Format.{encoding, plain}
use neo4j_go_driver.Bolt.Values.Meaning.{Fits, hydrated}
use neo4j_go_driver.Bolt.Values.Parses.{IsReady}
use neo4j_go_driver.Bolt.Values.Delivery.{value-Parses}
use neo4j_go_driver.Bolt.Values.Plain.{pack_x-plain}
use neo4j_go_driver.Bolt.Values.Packed.{Puts, pack_x-Puts}

module _ (zones : Zones) (x : Any) (o : Outgoing)
    (fits : Fits zones o.use_utc o.supports_uuid (plain x)) where
  puts : Puts o (pack_x zones x o) (encoding zones o.use_utc (plain x))
  puts =
      pack_x-plain zones x o
      ∙ pack_x-Puts zones o.use_utc o.supports_uuid (plain x) o refl refl fits

  pub packed_buf :
      o.packer ≡ begin [] → (pack_x zones x o).packer.buf ≡ encoding zones o.use_utc (plain x)
  unfolding begin
  packed_buf e =
      ap (λ r. r.packer.buf) puts ∙ ap (λ p. p.buf ++ encoding zones o.use_utc (plain x)) e

  -- A value that has a place on the wire, vectors aside, is packed without an error, and a hydrator with the same
  -- settings that stands before these bytes, with fuel for them, makes of them the value that was
  -- meant and stands behind them, whatever follows.
  pub pack_x_round_trip :
      (h : Hydrator) (more : List ℕ) (fuel : ℕ)
      → o.packer ≡ begin []
      → IsReady o.use_utc o.supports_uuid h
      → IsAt h.unp ((pack_x zones x o).packer.buf ++ more)
      → length (pack_x zones x o).packer.buf ≤ fuel
      → ((pack_x zones x o).told ≡ o.told)
        × ((pack_x zones x o).packer.err ≡ o.packer.err)
        × ((u : Unpacker) × ((next >> value zones (suc fuel)) h
              ≡ done (hydrated zones o.use_utc o.supports_uuid (plain x)) (record h { unp = u }))
            × IsAt u more)
  pack_x_round_trip h more fuel e ready at room =
      let bytes = packed_buf e in
      (
        ap (λ r. r.told) puts,
        ap (λ r. r.packer.err) puts,
        (value-Parses zones o.use_utc o.supports_uuid (plain x) fuel fits
              (subst (λ b. length b ≤ fuel) bytes room)).run
            h more ready (subst (λ b. IsAt h.unp (b ++ more)) bytes at),
      )
