-- ===== src/Bolt/Values/Path.antt =====
-- neo4j/internal/bolt/path.go. An index out of range is a Go panic, `none`.
use neo4j_go_driver.Base.{zero, suc, Option, none, some, List, [], ◌∷◌, ◌>>=◌}
use neo4j_go_driver.Base.Int.{ℤ, pos, negsuc}
use neo4j_go_driver.Bolt.Values.Value.{
  Value, Items, end, item, node, relationship, rel_node, path, get_item,
}
use mathlib.Core.Option

abbrev pub at : Items → ℤ → Option Value
at vs (pos i) = get_item vs i
at vs (negsuc i) = none

-- `relNodes[relni-1]`, or `relNodes[(relni*-1)-1]` for a negative one.
abbrev pub rel_at : Items → ℤ → Option Value
rel_at rels (pos zero) = none
rel_at rels (pos (suc i)) = get_item rels i
rel_at rels (negsuc i) = get_item rels i

-- The relationship between the nodes `n1` and `n2`; the sign of the index is its direction.
abbrev pub connect : ℤ → Value → Value → Value → Option Value
connect (pos i) (rel_node id name props eid) (node i1 ls1 ps1 e1) (node i2 ls2 ps2 e2) =
    some (relationship id i1 i2 name props eid e1 e2)
connect (negsuc i) (rel_node id name props eid) (node i1 ls1 ps1 e1) (node i2 ls2 ps2 e2) =
    some (relationship id i2 i1 name props eid e2 e1)
connect i r n1 n2 = none

-- The loop, from the node that the step before ended at.
unfoldable pub build_rels : Items → Items → Value → List ℤ → Option Items
build_rels nodes rels n1 (relni ∷ n2i ∷ more) = rel_at rels relni >>= λ r. at nodes n2i >>= λ n2.
    connect relni r n1 n2 >>= λ rel. Option.map (item rel) (build_rels nodes rels n2 more)
build_rels nodes rels n1 (relni ∷ []) = some end
build_rels nodes rels n1 [] = some end

-- `indexes` has an even length, which the caller has checked.
unfoldable pub build_path : Items → Items → List ℤ → Option Value
build_path nodes rels [] = some (path nodes end)
build_path nodes rels (relni ∷ []) = some (path nodes end)
build_path nodes rels (relni ∷ n2i ∷ more) = get_item nodes 0 >>= λ n1.
    Option.map (path nodes) (build_rels nodes rels n1 (relni ∷ n2i ∷ more))
