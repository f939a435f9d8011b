-- ===== src/Pool/Penalty.antt =====
-- The order in which `Borrow` tries the servers: what a penalty weighs first.
use neo4j_go_driver.Base.{
  ℕ, ◌+◌, ◌*◌, ◌%◌, ◌^◌, ◌≤◌, ◌<◌, ◌≡◌, ap, true, false, arith, nat_beq, length, if◌then◌else◌,
}
use neo4j_go_driver.Base.Bits.{or_low, and_mask8}
use neo4j_go_driver.Pool.Server.{Server, has_failed_connect, busy_penalty, calculate_penalty}

abbrev failed_bit : ℕ → Server → ℕ
failed_bit now s = if has_failed_connect now s then 1 else 0

abbrev fresh_bit : Server → ℕ
fresh_bit s = if nat_beq (length s.idle) 0 then 1 else 0

busy_penalty-le : (n : ℕ) → busy_penalty n ≤ 0xff
unfolding busy_penalty
busy_penalty-le n = ground arith

busy_penalty-lt : (m n : ℕ) → m < n → m < 255 → n < 2 ^ 32 → busy_penalty m < busy_penalty n
unfolding busy_penalty
busy_penalty-lt m n fewer few bound = ground arith

-- The bit fields of a penalty do not overlap.
penalty_fields :
    (now : ℕ) (s : Server)
    → calculate_penalty now s
      ≡ failed_bit now s * 2 ^ 31
        + busy_penalty (length s.busy) * 2 ^ 16
        + fresh_bit s * 2 ^ 8
        + s.round_robin % 256
unfolding calculate_penalty
penalty_fields now s = ground (
  arith,
  busy_penalty-le (length s.busy),
  or_low 31 (failed_bit now s) (busy_penalty (length s.busy) * 2 ^ 16),
  or_low 16 (failed_bit now s * 2 ^ 15 + busy_penalty (length s.busy)) 256,
  or_low 8 (failed_bit now s * 2 ^ 23 + busy_penalty (length s.busy) * 2 ^ 8 + fresh_bit s)
      (s.round_robin % 256),
  and_mask8 s.round_robin,
)

-- A server whose connect failed less than three minutes ago has a higher penalty than every
-- server without such a failure, whatever else they hold.
pub penalty-failed :
    (now : ℕ) (s t : Server)
    → has_failed_connect now s ≡ false
    → has_failed_connect now t ≡ true
    → calculate_penalty now s < calculate_penalty now t
penalty-failed now s t hs ht =
    ground (arith, penalty_fields now s, penalty_fields now t, busy_penalty-le (length s.busy))

-- Among servers that agree on a recent failed connect, the one with fewer busy connections has the
-- lower penalty, as long as it has fewer than 255 of them and the other fewer than 2 ^ 32.
pub penalty-busy :
    (now : ℕ) (s t : Server)
    → has_failed_connect now s ≡ has_failed_connect now t
    → length s.busy < length t.busy
    → length s.busy < 255
    → length t.busy < 2 ^ 32
    → calculate_penalty now s < calculate_penalty now t
penalty-busy now s t same fewer few bound = ground (
  arith,
  penalty_fields now s,
  penalty_fields now t,
  busy_penalty-lt (length s.busy) (length t.busy) fewer few bound,
)

-- Among servers that agree on a recent failed connect and have equally many busy connections, one
-- that has an idle connection has a lower penalty than one that has none.
pub penalty-idle :
    (now : ℕ) (s t : Server)
    → has_failed_connect now s ≡ has_failed_connect now t
    → length s.busy ≡ length t.busy
    → 0 < length s.idle
    → length t.idle ≡ 0
    → calculate_penalty now s < calculate_penalty now t
penalty-idle now s t same busy some_idle no_idle =
    ground (arith, penalty_fields now s, penalty_fields now t, ap busy_penalty busy)
