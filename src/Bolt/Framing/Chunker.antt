-- ===== src/Bolt/Framing/Chunker.antt =====
-- neo4j/internal/bolt/chunker.go. The writer is a parameter: `fault k` is the error of the k-th
-- write of the connection, `none` if it takes all the bytes. What was written is kept beside it.
use neo4j_go_driver.Base.{
  ℕ, zero, suc, ◌+◌, ◌-◌, ◌%◌, ◌^◌, Option, none, some, List, [], ◌∷◌, ◌++◌, length, take, drop,
  ltb, leb, if◌then◌else◌,
}
use neo4j_go_driver.Packstream.Bytes.{be_bytes}

pub record Chunker : Type 0 where
  pub buf : List ℕ
  pub sizes : List ℕ
  pub offset : ℕ

unfoldable pub new_chunker : Chunker
new_chunker = record { buf = []; sizes = []; offset = 0 }

unfoldable pub begin_message : Chunker → Chunker
begin_message c = record c { buf = c.buf ++ (0 ∷ 0 ∷ []); offset = c.offset + 2 }

unfoldable pub end_message : Chunker → Chunker
end_message c =
    let size = length c.buf - c.offset in
    record {
      buf = c.buf ++ (0 ∷ 0 ∷ []);
      sizes = c.sizes ++ (size ∷ []);
      offset = c.offset + size + 2;
    }

unfoldable pub reset : Chunker → Chunker
reset c = record { buf = []; sizes = []; offset = 0 }

-- `binary.BigEndian.PutUint16(buf[at:], w)`
abbrev pub put_uint16 : ℕ → ℕ → List ℕ → List ℕ
put_uint16 at w buf = take at buf ++ (be_bytes 2 (w % 2 ^ 16) ++ drop (at + 2) buf)

-- `buf[start:end]`
abbrev pub slice : ℕ → ℕ → List ℕ → List ℕ
slice start end buf = take (end - start) (drop start buf)

-- What `send` works with: the buffer, its two positions and the writes so far.
pub record Sending : Type 0 where
  pub buf : List ℕ
  pub start : ℕ
  pub end : ℕ
  pub writes : List (List ℕ)

-- context.DeadlineExceeded and other timeouts, context.Canceled, and the rest.
pub data IoFault : Type 0 where
  timeout canceled : IoFault
  other : ℕ → IoFault

pub data WriteError : Type 0 where
  connection_write_timeout connection_write_canceled : IoFault → WriteError
  plain : IoFault → WriteError

unfoldable pub process_write_error : IoFault → WriteError
process_write_error timeout = connection_write_timeout timeout
process_write_error canceled = connection_write_canceled canceled
process_write_error (other n) = plain (other n)

pub data Sent : Type 0 where
  going : Sending → Sent
  failed : IoFault → Sending → Sent

abbrev pub then_do : Sent → (Sending → Sent) → Sent
then_do (going s) f = f s
then_do (failed e s) f = failed e s

-- `binary.BigEndian.PutUint16(c.buf[end:], uint16(size)); end += 2 + size + 2`
unfoldable pub last_chunk : ℕ → Sending → Sending
last_chunk size s = record s { buf = put_uint16 s.end size s.buf; end = s.end + 2 + size + 2 }

-- The writes, and the chunker or the error. After an error the chunker is as it was, but for
-- the lengths that were put into its buffer.
pub data SendResult : Type 0 where
  done : Chunker → List (List ℕ) → SendResult
  write_failed : WriteError → Chunker → List (List ℕ) → SendResult

abbrev pub finish : Chunker → Sent → SendResult
finish c (going s) = done (reset (record c { buf = s.buf })) s.writes
finish c (failed e s) = write_failed (process_write_error e) (record c { buf = s.buf }) s.writes

module _ (fault : ℕ → Option IoFault) where
  -- `writer.Write(ctx, c.buf[start:end])`
  unfoldable pub write : Sending → Sent
  write s = elim (fault (length s.writes)) [
    | none ↦ going (record s { writes = s.writes ++ (slice s.start s.end s.buf ∷ []) })
    | some e ↦ failed e s
  ]

  -- One round of the loop over a message that needs several chunks.
  unfoldable pub full_chunk : Sending → Sent
  full_chunk s =
      then_do (write (record s { buf = put_uint16 s.end 0xffff s.buf; end = s.end + 2 + 0xffff }))
        (λ t. going (record t { end = t.end - 2; start = t.end - 2 }))

  -- `for size > 0xffff`; the fuel is the size.
  unfoldable pub chunks : ℕ → ℕ → Sending → Sent
  chunks zero size s = going (last_chunk size s)
  chunks (suc fuel) size s =
      let more = then_do (full_chunk s) (chunks fuel (size - 0xffff)) in
      if leb size 0xffff then going (last_chunk size s) else more

  unfoldable pub send_sizes : List ℕ → Sending → Sent
  send_sizes [] s = going s
  send_sizes (size ∷ sizes) s = then_do (chunks size size s) (send_sizes sizes)

  unfoldable pub last_write : Sending → Sent
  last_write s = if ltb s.start s.end then write s else going s

  unfoldable pub send : Chunker → SendResult
  send c = finish c (
      then_do (send_sizes c.sizes (record { buf = c.buf; start = 0; end = 0; writes = [] }))
        last_write)
