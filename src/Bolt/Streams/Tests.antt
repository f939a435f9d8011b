-- ===== src/Bolt/Streams/Tests.antt =====
-- The theorems on streams at concrete inputs.
use neo4j_go_driver.Base.{ℕ, ◌≡◌, refl, arith, false, none, some, [], ◌∷◌, id_comparable}
use neo4j_go_driver.Base.Int.{pos}
use neo4j_go_driver.Bookmarks.Set.{contains, remove as take_out}
use neo4j_go_driver.Bolt.Streams.Stream.{
  Stream, OpenStreams, next_record, next_error, attach, detach, pause, reset, err_of,
}
use neo4j_go_driver.Bolt.Streams.Buffer.{push_all, read_next, read_next-push_all}
use neo4j_go_driver.Bolt.Streams.Tracking.{
  Used, IsTracked, was_reset, attached, paused, detached, Used-IsTracked,
}

abbrev new_stream : Stream ℕ ℕ ℕ
new_stream = record {
  attached = false;
  keys = [];
  fifo = [];
  sum = none;
  err = none;
  qid = pos 0;
  fetch_size = pos 0;
  key = 0;
  end_of_batch = false;
  discarding = false;
  tfirst = pos 0;
  had_record = false;
}

abbrev broken : Stream ℕ ℕ ℕ
broken = record new_stream { err = some 7 }

abbrev no_streams : OpenStreams ℕ ℕ ℕ
no_streams = record { curr = none; num = pos 0; key = 0; store = λ i. new_stream }

read_next-push_all_example :
    (read_next 3 (push_all (1 ∷ 2 ∷ []) broken) ≡ next_record 1 ∷ next_record 2 ∷ next_error 7 ∷ [])
    × (err_of (push_all (1 ∷ 2 ∷ []) broken) ≡ none)
read_next-push_all_example = read_next-push_all (1 ∷ 2 ∷ []) broken refl

-- Two streams, of which the second ends.
two_attached :
    Used
      (detach (some 4) none (attach 2 (pause (attach 1 (reset 99 no_streams)))))
      (take_out 2 (2 ∷ 1 ∷ []))
unfolding attach pause reset contains
two_attached =
    detached _ _ 2 (some 4) none
      (attached _ _ 2
        (paused _ _ (attached _ _ 1 (was_reset no_streams 99 (omega arith) (λ i. refl)) refl refl))
        refl refl)
      refl

Used-IsTracked_example :
    IsTracked
      (detach (some 4) none (attach 2 (pause (attach 1 (reset 99 no_streams)))))
      (take_out 2 (2 ∷ 1 ∷ []))
Used-IsTracked_example = Used-IsTracked two_attached
