-- ===== src/Bolt/Connection/Sending.antt =====
-- Sending where no write fails: the chunker's loops go on to the end, and the connection is not
-- told of an error.
use neo4j_go_driver.Base.{
  ℕ, zero, suc, ◌+◌, ◌-◌, ◌≡◌, refl, ap, ◌∙◌, Bool, true, false, Option, none, List, [], ◌∷◌, ◌++◌,
  length, leb, ltb, if◌then◌else◌,
}
use neo4j_go_driver.Bolt.Framing.Chunker.{
  Chunker, IoFault, Sending, Sent, SendResult, write, full_chunk, chunks, send_sizes, last_write,
  then_do, finish, send as send_chunks,
}
use neo4j_go_driver.Packstream.Packer
use neo4j_go_driver.Bolt.Values.Pack.{Outgoing, PackProblem}
use neo4j_go_driver.Bolt.Values.Requests.{append_reset}
use neo4j_go_driver.Bolt.Connection.State.{Bolt5, Host, Handler}
use neo4j_go_driver.Bolt.Connection.Queue.{
  send_queue, sent, append, append_out, enqueue_callback, report,
}

-- The loop goes on.
IsGoing : Sent → Type 0
IsGoing (Sent.going s) = Unit
IsGoing (Sent.failed e s) = ⊥

then_do-IsGoing :
    (r : Sent) (f : Sending → Sent)
    → IsGoing r
    → ((s : Sending) → IsGoing (f s))
    → IsGoing (then_do r f)
unfolding IsGoing
then_do-IsGoing (Sent.going s) f p q = q s
then_do-IsGoing (Sent.failed e s) f p q = absurd p

if-IsGoing : (t : Bool) (r q : Sent) → IsGoing r → IsGoing q → IsGoing (if t then r else q)
if-IsGoing true r q p o = p
if-IsGoing false r q p o = o

module _ (fault : ℕ → Option IoFault) (sound : (k : ℕ) → fault k ≡ none) where
  write-IsGoing : (s : Sending) → IsGoing (write fault s)
  unfolding write IsGoing
  write-IsGoing s = rw (sound (length s.writes), IsGoing) tt

  full_chunk-IsGoing : (s : Sending) → IsGoing (full_chunk fault s)
  unfolding full_chunk IsGoing
  full_chunk-IsGoing s = then_do-IsGoing _ _ (write-IsGoing _) (λ t. tt)

  chunks-IsGoing : (fuel size : ℕ) (s : Sending) → IsGoing (chunks fault fuel size s)
  unfolding chunks IsGoing
  chunks-IsGoing zero size s = tt
  chunks-IsGoing (suc fuel) size s =
      if-IsGoing (leb size 0xffff) _ _ tt
        (then_do-IsGoing _ _ (full_chunk-IsGoing s) (chunks-IsGoing fuel (size - 0xffff)))

  send_sizes-IsGoing : (l : List ℕ) (s : Sending) → IsGoing (send_sizes fault l s)
  unfolding send_sizes IsGoing
  send_sizes-IsGoing [] s = tt
  send_sizes-IsGoing (size ∷ l) s =
      then_do-IsGoing _ _ (chunks-IsGoing size size s) (send_sizes-IsGoing l)

  last_write-IsGoing : (s : Sending) → IsGoing (last_write fault s)
  unfolding last_write IsGoing
  last_write-IsGoing s = if-IsGoing (ltb s.start s.end) _ _ (write-IsGoing s) tt

  finish-done :
      (c : Chunker) (r : Sent)
      → IsGoing r
      → (d : Chunker) × (ws : List (List ℕ)) × (finish c r ≡ SendResult.done d ws)
  unfolding IsGoing
  finish-done c (Sent.going s) p = (_, _, refl)
  finish-done c (Sent.failed e s) p = absurd p

  pub send_chunks-done :
      (c : Chunker)
      → (d : Chunker) × (ws : List (List ℕ)) × (send_chunks fault c ≡ SendResult.done d ws)
  unfolding send_chunks
  send_chunks-done c =
      finish-done c _ (then_do-IsGoing _ _ (send_sizes-IsGoing c.sizes _) last_write-IsGoing)

module _ (host : Host) (sound : (k : ℕ) → host.write_fault k ≡ none) where
  pub send_queue-sends :
      (b : Bolt5)
      → (d : Chunker) × (ws : List (List ℕ)) × (send_queue host b
          ≡ record b { out = record b.out { chunker = d }; writes = b.writes ++ ws })
  unfolding send_queue
  send_queue-sends b =
      let (d, ws, e) =
        send_chunks-done (λ k. host.write_fault (length b.writes + k))
          (λ k. sound (length b.writes + k)) b.out.chunker in
      (d, ws, ap (λ (r : SendResult). sent host r b) e)

reset-told : (o : Outgoing) → (append_reset o).told ≡ o.told
unfolding append_reset Packer.end Packer.struct_header Packer.begin
reset-told o = refl

report-quiet : (host : Host) (ps : List PackProblem) (b : Bolt5) → ps ≡ [] → report host ps b ≡ b
unfolding report
report-quiet host [] b h = refl
report-quiet host (p ∷ ps) b h = cc

-- RESET has nothing that cannot be packed.
pub append-reset :
    (host : Host) (b : Bolt5)
    → b.out.told ≡ []
    → append host append_reset Handler.reset b
      ≡ enqueue_callback Handler.reset
          (record b { out = record (append_reset b.out) { told = [] } })
unfolding append append_out
append-reset host b h =
    ap (enqueue_callback Handler.reset)
      (report-quiet host (append_reset b.out).told _ (reset-told b.out ∙ h))
