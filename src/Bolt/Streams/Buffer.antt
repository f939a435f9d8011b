-- ===== src/Bolt/Streams/Buffer.antt =====
-- The records that a stream buffers and the order in which they are read.
use neo4j_go_driver.Base.{
  ℕ, zero, suc, ◌≡◌, refl, sym, ap, ◌∙◌, none, List, [], ◌∷◌, ◌++◌, length, map, append_assoc,
  append-nil, ltb, if◌then◌else◌,
}
use neo4j_go_driver.Bolt.Streams.Stream.{
  Stream, Next, next_record, ending, buffered_next, push, err_of,
}

module _ {R S E : Type 0} where
  unfoldable pub push_all : List R → Stream R S E → Stream R S E
  push_all [] s = s
  push_all (r ∷ rs) s = push_all rs (push r s)

  -- What `n` calls of bufferedNext find.
  unfoldable pub read_next : ℕ → Stream R S E → List (Next R S E)
  read_next zero s = []
  read_next (suc n) s = (buffered_next s).0 ∷ read_next n (buffered_next s).1

  push_all_lem : (rs : List R) (s : Stream R S E) → push_all rs s ≡ record s { fifo = s.fifo ++ rs }
  unfolding push_all push
  push_all_lem [] s = ap (λ (l : List R). record s { fifo = l }) (sym (append-nil s.fifo))
  push_all_lem (r ∷ rs) s =
      push_all_lem rs (push r s)
      ∙ ap (λ (l : List R). record s { fifo = l }) (append_assoc s.fifo (r ∷ []) rs)

  read_all :
      (rs : List R) (s : Stream R S E)
      → read_next (suc (length rs)) (record s { fifo = rs })
        ≡ map next_record rs ++ (ending s.err s.sum ∷ [])
  unfolding read_next buffered_next
  read_all [] s = refl
  read_all (r ∷ rs) s = ap (◌∷◌ (next_record r)) (read_all rs s)

  -- Records pushed on a stream without buffered ones are read in the order in which they came, and
  -- behind them the stream's error, else its summary; the error is not reported before.
  pub read_next-push_all :
      (rs : List R) (s : Stream R S E)
      → s.fifo ≡ []
      → (read_next (suc (length rs)) (push_all rs s)
          ≡ map next_record rs ++ (ending s.err s.sum ∷ []))
        × (err_of (push_all rs s) ≡ (if ltb 0 (length rs) then none else s.err))
  unfolding err_of
  read_next-push_all rs s empty = rw (push_all_lem rs s, empty) (read_all rs s, refl)
