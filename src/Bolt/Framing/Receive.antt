-- ===== src/Bolt/Framing/Receive.antt =====
-- `dechunkMessage` on what `send` writes, and on any input.
use neo4j_go_driver.Base.{
  ℕ, zero, suc, ◌+◌, ◌-◌, ◌^◌, ◌≤◌, ◌<◌, ◌≡◌, refl, ap, ◌∙◌, inl, inr, some, List, [], ◌∷◌, ◌++◌,
  length, take, drop, leb, arith, append_assoc, length-append, length-drop, length-take, Bool-cases,
  leb→le, lt_of_leb, take-length_eq, drop-length_eq, take-append_le, take-append-drop,
}
use neo4j_go_driver.Packstream.Bytes.{be_bytes, length-be_bytes}
use neo4j_go_driver.Bolt.Framing.Chunker.{IoFault}
use neo4j_go_driver.Bolt.Framing.Dechunker.{
  Dechunked, received, chunk_size, read_full, write_at, expand, zeros, dechunk_loop,
}
use neo4j_go_driver.Bolt.Framing.Wire.{wire_chunks}

pub read_full_lem :
    (n : ℕ) (xs ys : List ℕ) → length xs ≡ n → read_full n (xs ++ ys) ≡ some (xs, ys)
unfolding read_full
read_full_lem n xs ys e =
    ground (arith, length-append xs ys, take-length_eq n xs ys e, drop-length_eq n xs ys e)

chunk_size-be_bytes : (n : ℕ) → n < 2 ^ 16 → chunk_size (be_bytes 2 n) ≡ n
unfolding be_bytes chunk_size
chunk_size-be_bytes n h = omega arith

-- The buffer after `chunk` has been read into it at `off`.
filled : ℕ → List ℕ → List ℕ → List ℕ
filled off chunk buf = write_at off chunk (expand (off + length chunk) buf)

length-zeros : (n : ℕ) → length (zeros n) ≡ n
length-zeros zero = refl
length-zeros (suc n) = ap suc (length-zeros n)

length-expand : (need : ℕ) (buf : List ℕ) → need ≤ length (expand need buf)
unfolding expand
length-expand need buf = ground (
  arith,
  length-append buf (zeros (need + 4096 - length buf)),
  length-zeros (need + 4096 - length buf),
)

take-expand : (n need : ℕ) (buf : List ℕ) → n ≤ length buf → take n (expand need buf) ≡ take n buf
unfolding expand
take-expand n need buf h = ground (arith, take-append_le n buf (zeros (need + 4096 - length buf)))

filled-lem :
    (off : ℕ) (chunk buf done : List ℕ)
    → length done ≡ off
    → off ≤ length buf
    → take off buf ≡ done
    → (take (off + length chunk) (filled off chunk buf) ≡ done ++ chunk)
      × (off + length chunk ≤ length (filled off chunk buf))
unfolding write_at filled
filled-lem off chunk buf done e h t =
    let need = off + length chunk in
    let grown = expand need buf in
    let head : take off grown ≡ done = take-expand off need buf h ∙ t in
    let behind = drop (off + length chunk) grown in
    rw (head, ← append_assoc done chunk behind)
      (
        take-length_eq need (done ++ chunk) behind (omega (arith, length-append done chunk)),
        omega (arith, length-append (done ++ chunk) behind, length-append done chunk),
      )

pub size_zero : chunk_size (0 ∷ 0 ∷ []) ≡ 0
unfolding chunk_size
size_zero = refl

module _ (fault : IoFault) where
  chunk_step :
      (fuel : ℕ) (chunk rest buf : List ℕ) (off : ℕ)
      → 0 < length chunk
      → length chunk < 2 ^ 16
      → dechunk_loop fault (suc fuel) (be_bytes 2 (length chunk) ++ (chunk ++ rest)) buf off
        ≡ dechunk_loop fault fuel rest (filled off chunk buf) (off + length chunk)
  unfolding dechunk_loop filled
  chunk_step fuel chunk rest buf off pos small = ground (
    arith,
    read_full_lem 2 (be_bytes 2 (length chunk)) (chunk ++ rest) (length-be_bytes 2 (length chunk)),
    chunk_size-be_bytes (length chunk) small,
    read_full_lem (length chunk) chunk rest refl,
  )

  end_step :
      (fuel : ℕ) (rest buf : List ℕ) (off : ℕ)
      → 0 < off
      → dechunk_loop fault (suc fuel) (0 ∷ 0 ∷ rest) buf off ≡ received buf (take off buf) rest
  unfolding dechunk_loop
  end_step fuel rest buf off pos = ground (arith, read_full_lem 2 (0 ∷ 0 ∷ []) rest refl, size_zero)

  -- The last chunk of a message and its end mark, behind the bytes `done` of the message.
  receive_last :
      (fuel off : ℕ) (m buf done rest : List ℕ)
      → 0 < fuel
      → 0 < length m
      → length m < 2 ^ 16
      → length done ≡ off
      → off ≤ length buf
      → take off buf ≡ done
      → dechunk_loop fault (suc fuel) ((be_bytes 2 (length m) ++ m) ++ (0 ∷ 0 ∷ rest)) buf off
        ≡ received (filled off m buf) (done ++ m) rest
  receive_last zero off m buf done rest f pos small e k t = absurd (omega arith)
  receive_last (suc fuel) off m buf done rest f pos small e k t =
      rw (append_assoc (be_bytes 2 (length m)) m (0 ∷ 0 ∷ rest)) (
        chunk_step (suc fuel) m (0 ∷ 0 ∷ rest) buf off pos small
        ∙ end_step fuel rest (filled off m buf) (off + length m) (omega arith)
        ∙ rw (filled-lem off m buf done e k t).0)

  -- A chunk of `k` bytes, and then the rest of the message and of the connection.
  receive_more :
      (k : ℕ) (fuel off : ℕ) (m buf done tail rest : List ℕ) (result : Dechunked)
      → 0 < k
      → k < 2 ^ 16
      → k < length m
      → dechunk_loop fault fuel (tail ++ rest) (filled off (take k m) buf) (off + k) ≡ result
      → dechunk_loop fault (suc fuel) ((be_bytes 2 k ++ (take k m ++ tail)) ++ rest) buf off
        ≡ result
  receive_more k fuel off m buf done tail rest result pos fits big e =
      let size = length-take k m (omega arith) in
      rw (append_assoc (be_bytes 2 k) (take k m ++ tail) rest, append_assoc (take k m) tail rest)
        (rw size at (
            chunk_step fuel (take k m) (tail ++ rest) buf off (omega (arith, size))
              (omega (arith, size)))
          ∙ e)

  length-more :
      (k : ℕ) (m tail : List ℕ)
      → k < length m
      → length (be_bytes 2 k ++ (take k m ++ tail)) ≡ k + 2 + length tail
  length-more k m tail big = omega (
    arith,
    length-append (be_bytes 2 k) (take k m ++ tail),
    length-append (take k m) tail,
    length-be_bytes 2 k,
    length-take k m (omega arith),
  )

  after_first :
      (k : ℕ) (pos : 0 < k) (fuel off : ℕ) (m buf done rest wired : List ℕ)
      → k < 2 ^ 16
      → k < length m
      → length done ≡ off
      → off ≤ length buf
      → take off buf ≡ done
      → length (be_bytes 2 k ++ (take k m ++ wired)) < suc fuel
      → (0 < length (drop k m)
          → length (drop k m) < length m
          → length wired < fuel
          → length (done ++ take k m) ≡ off + k
          → off + k ≤ length (filled off (take k m) buf)
          → take (off + k) (filled off (take k m) buf) ≡ done ++ take k m
          → (buf' : List ℕ) × (dechunk_loop fault fuel
                (wired ++ (0 ∷ 0 ∷ rest))
                (filled off (take k m) buf)
                (off + k)
              ≡ received buf' ((done ++ take k m) ++ drop k m) rest))
      → (buf' : List ℕ) × (dechunk_loop fault
            (suc fuel)
            ((be_bytes 2 k ++ (take k m ++ wired)) ++ (0 ∷ 0 ∷ rest))
            buf
            off
          ≡ received buf' (done ++ m) rest)
  after_first k pos fuel off m buf done rest wired fits big e h t f later =
      let size = length-take k m (omega arith) in
      let both = rw size at (filled-lem off (take k m) buf done e h t) in
      let (buf', r) =
        later (omega (arith, length-drop k m)) (omega (arith, length-drop k m))
          (omega (arith, length-more k m wired big))
          (omega (arith, length-append done (take k m), size)) both.1 both.0 in
      (
        buf',
        receive_more k fuel off m buf done wired (0 ∷ 0 ∷ rest) _ pos fits big r
            ∙ rw (append_assoc done (take k m) (drop k m), take-append-drop k m),
      )

  -- The message `m` behind what the buffer already holds of it.
  pub receive_chunks :
      (bound : ℕ) (m : List ℕ) (fuel off : ℕ) (buf done rest : List ℕ)
      → 0 < length m
      → length m ≤ bound
      → length (wire_chunks bound m) < fuel
      → length done ≡ off
      → off ≤ length buf
      → take off buf ≡ done
      → (buf' : List ℕ) × (dechunk_loop fault fuel (wire_chunks bound m ++ (0 ∷ 0 ∷ rest)) buf off
          ≡ received buf' (done ++ m) rest)
  unfolding wire_chunks
  receive_chunks zero m fuel off buf done rest pos h f e k t = absurd (omega arith)
  receive_chunks (suc bound) m zero off buf done rest pos h f e k t = absurd (omega arith)
  receive_chunks (suc bound) m (suc fuel) off buf done rest pos h f e k t =
      elim (Bool-cases (leb (length m) 0xffff)) [
        | inl small ↦
            let size = length-append (be_bytes 2 (length m)) m in
            let fits : 0 < fuel =
              omega (arith, size, length-be_bytes 2 (length m), rw small at f) in
            (
              filled off m buf,
              rw small (
                  receive_last fuel off m buf done rest fits pos
                    (omega (arith, leb→le (length m) 0xffff small)) e k t),
            )
        | inr long ↦
            let big = lt_of_leb (length m) 0xffff long in
            rw long (
              after_first 0xffff (omega arith) fuel off m buf done rest
                (wire_chunks bound (drop 0xffff m)) (omega arith) big e k t (rw long at f)
                (λ q r.
                  receive_chunks bound (drop 0xffff m) fuel (off + 0xffff)
                    (filled off (take 0xffff m) buf) (done ++ take 0xffff m) rest q (omega arith)))
      ]
