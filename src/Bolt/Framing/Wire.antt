-- ===== src/Bolt/Framing/Wire.antt =====
-- The wire format by itself: what one message is on the connection.
use neo4j_go_driver.Base.{ℕ, zero, suc, List, [], ◌∷◌, ◌++◌, length, take, drop, leb, if◌then◌else◌}
use neo4j_go_driver.Packstream.Bytes.{be_bytes}

-- Chunks of 65,535 bytes and a last one of what is left, for a message of at most `fuel` bytes.
unfoldable pub wire_chunks : ℕ → List ℕ → List ℕ
wire_chunks zero m = be_bytes 2 (length m) ++ m
wire_chunks (suc fuel) m =
    let rest = wire_chunks fuel (drop 0xffff m) in
    if leb (length m) 0xffff
    then be_bytes 2 (length m) ++ m
    else be_bytes 2 0xffff ++ (take 0xffff m ++ rest)

unfoldable pub wire : List ℕ → List ℕ
wire m = wire_chunks (length m) m ++ (0 ∷ 0 ∷ [])

unfoldable pub wire_all : List (List ℕ) → List ℕ
unfolding wire
wire_all [] = []
wire_all (m ∷ ms) = wire m ++ wire_all ms
