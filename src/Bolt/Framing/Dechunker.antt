-- ===== src/Bolt/Framing/Dechunker.antt =====
-- neo4j/internal/bolt/dechunker.go. The connection is the bytes that it will still deliver and the
-- fault that follows them. The buffer is a list of its capacity, which is also its length. Deadlines
-- (newContext) show only in the fault.
use neo4j_go_driver.Base.{
  ℕ, zero, suc, ◌+◌, ◌-◌, ◌*◌, Option, none, some, List, [], ◌∷◌, ◌++◌, length, take, drop, ltb,
  leb, nat_beq, if◌then◌else◌,
}
use neo4j_go_driver.Bolt.Framing.Chunker.{IoFault, timeout, canceled, other}

pub data ReadError : Type 0 where
  connection_read_timeout connection_read_canceled : IoFault → ReadError
  plain : IoFault → ReadError

unfoldable pub process_read_error : IoFault → ReadError
process_read_error timeout = connection_read_timeout timeout
process_read_error canceled = connection_read_canceled canceled
process_read_error (other n) = plain (other n)

abbrev pub zeros : ℕ → List ℕ
zeros zero = []
zeros (suc n) = 0 ∷ zeros n

-- The big-endian length in the two bytes that precede a chunk.
unfoldable pub chunk_size : List ℕ → ℕ
chunk_size [] = 0
chunk_size (a ∷ []) = a
chunk_size (a ∷ b ∷ l) = a * 256 + b

-- `reader.ReadFull(ctx, buf)` for a buffer of `n` bytes: the bytes and what is left, or the fault.
unfoldable pub read_full : ℕ → List ℕ → Option (List ℕ × List ℕ)
read_full n conn = if leb n (length conn) then some (take n conn, drop n conn) else none

-- `copy(buf[off:], chunk)` for a chunk that fits.
unfoldable pub write_at : ℕ → List ℕ → List ℕ → List ℕ
write_at off chunk buf = take off buf ++ (chunk ++ drop (off + length chunk) buf)

unfoldable pub expand : ℕ → List ℕ → List ℕ
expand need buf = if ltb (length buf) need then buf ++ zeros (need + 4096 - length buf) else buf

pub data Dechunked : Type 0 where
  -- The buffer, the message, and what the connection still holds.
  received : List ℕ → List ℕ → List ℕ → Dechunked
  read_failed : ReadError → List ℕ → Dechunked
  out_of_fuel : Dechunked

module _ (fault : IoFault) where
  -- The rounds of the loop; each takes two bytes of the connection at least.
  unfoldable pub dechunk_loop : ℕ → List ℕ → List ℕ → ℕ → Dechunked
  dechunk_loop zero conn buf off = out_of_fuel
  dechunk_loop (suc fuel) conn buf off = elim (read_full 2 conn) [
    | none ↦ read_failed (process_read_error fault) buf
    | some (size, rest) ↦
        let n = chunk_size size in
        let grown = expand (off + n) buf in
        let nop = dechunk_loop fuel rest buf off in
        let empty = if ltb 0 off then received buf (take off buf) rest else nop in
        let full : Dechunked = elim (read_full n rest) [
          | none ↦ read_failed (process_read_error fault) grown
          | some (chunk, rest') ↦ dechunk_loop fuel rest' (write_at off chunk grown) (off + n)
        ] in
        if nat_beq n 0 then empty else full
  ]

  unfoldable pub dechunk_message : List ℕ → List ℕ → Dechunked
  dechunk_message conn buf = dechunk_loop (suc (length conn)) conn buf 0
