-- ===== src/Pool/Server.antt =====
-- neo4j/internal/pool/server.go. Times are nanoseconds; the zero time.Time is `none`. The head of
-- a list is its front. What a connection answers when it is asked (is it alive, does it
-- authenticate) is an argument. A method that takes the callback `close` returns the connections
-- that it closes, in order.
use neo4j_go_driver.Base.{
  ℕ, ◌+◌, ◌*◌, ◌%◌, ◌^◌, Bool, true, false, not, ◌&&◌, Option, none, some, List, [], ◌∷◌, ◌++◌,
  String, ltb, nat_beq, length, if◌then◌else◌,
}
use neo4j_go_driver.Base.Int.{ℤ, pos, ltb_ℤ, leb_ℤ, sub_ℕ}
use Prim.Native.Nat.{bit_and, bit_or}

-- A connection: its identity and what never changes of it.
pub record Conn : Type 0 where
  pub id : ℕ
  pub server_name : String
  pub birthdate : ℕ
  pub is_ssr_enabled : Bool

pub record Server : Type 0 where
  pub idle : List Conn
  pub busy : List Conn
  pub reservations : ℕ
  pub failed_connect_at : Option ℕ
  pub round_robin : ℕ
  pub closing : Bool

unfoldable pub new_server : Server
new_server = record {
  idle = [];
  busy = [];
  reservations = 0;
  failed_connect_at = none;
  round_robin = 0;
  closing = false;
}

-- Three minutes.
abbrev pub remember_failed_connect_duration : ℕ
remember_failed_connect_duration = 180000000000

abbrev pub get_front : Server → List Conn → Option Conn × Server
get_front s [] = (none, s)
get_front s (c ∷ rest) = (some c, record s { idle = rest; busy = c ∷ s.busy })

unfoldable pub get_idle : Server → Option Conn × Server
get_idle s = get_front s s.idle

-- What a connection answers in a health check, call by call; an error is a number.
pub record Health : Type 0 where
  pub is_peer_alive : Bool
  pub idle_date : ℕ
  pub is_alive_after_reset : Bool
  pub re_auth : Option ℕ
  pub is_alive : Bool
  pub ctx_err : Option ℕ

-- Healthy or not, the error, the server and the shared round-robin counter.
unfoldable pub health_check :
    Health
    → (now : ℕ) → (idleness_timeout : ℤ) → (shared : ℕ) → Server
    → Bool × Option ℕ × Server × ℕ
health_check h now idleness_timeout shared s =
    let shared' = (shared + 1) % 2 ^ 32 in
    if not h.is_peer_alive
    then (false, none, s, shared)
    else if ltb_ℤ idleness_timeout (sub_ℕ now h.idle_date) && not h.is_alive_after_reset
    then (false, h.ctx_err, s, shared)
    else elim h.re_auth [
      | some e ↦ (false, some e, s, shared)
      | none ↦
          if not h.is_alive
          then (false, h.ctx_err, s, shared)
          else (true, none, record s { round_robin = shared' }, shared')
    ]

unfoldable pub notify_failed_connect : ℕ → Server → Server
notify_failed_connect now s = record s { failed_connect_at = some now }

unfoldable pub notify_successful_connect : Server → Server
notify_successful_connect s = record s { failed_connect_at = none }

unfoldable pub has_failed_connect : ℕ → Server → Bool
has_failed_connect now s = elim s.failed_connect_at [
  | none ↦ false
  | some at ↦ ltb_ℤ (sub_ℕ now at) (pos remember_failed_connect_duration)
]

abbrev pub new_connection_penalty : ℕ
new_connection_penalty = 2 ^ 8

-- `numBusy` is the uint32 of the length, at most 0xff.
unfoldable pub busy_penalty : ℕ → ℕ
busy_penalty n = if ltb 0xff (n % 2 ^ 32) then 0xff else n % 2 ^ 32

unfoldable pub calculate_penalty : ℕ → Server → ℕ
calculate_penalty now s =
    let failed = if has_failed_connect now s then 1 * 2 ^ 31 else 0 * 2 ^ 31 in
    let busy = bit_or failed (busy_penalty (length s.busy) * 2 ^ 16) in
    let fresh = if nat_beq (length s.idle) 0 then bit_or busy new_connection_penalty else busy in
    bit_or fresh (bit_and s.round_robin 0xff)

-- The first connection that is the given one goes.
unfoldable pub remove_first : Conn → List Conn → List Conn
remove_first c [] = []
remove_first c (x ∷ xs) = if nat_beq x.id c.id then xs else x ∷ remove_first c xs

unfoldable pub unregister_busy : Conn → Server → Server
unregister_busy c s = record s { busy = remove_first c s.busy }

unfoldable pub return_busy : Conn → Server → Server × List Conn
return_busy c s =
    let t = unregister_busy c s in
    if t.closing then (t, c ∷ []) else (record t { idle = c ∷ t.idle }, [])

unfoldable pub num_idle : Server → ℕ
num_idle s = length s.idle

unfoldable pub num_busy : Server → ℕ
num_busy s = length s.busy

unfoldable pub register_busy : Conn → ℕ → Server → Server × ℕ
register_busy c shared s =
    let shared' = (shared + 1) % 2 ^ 32 in
    (record s { round_robin = shared'; busy = c ∷ s.busy }, shared')

unfoldable pub size : Server → ℕ
size s = length s.busy + length s.idle + s.reservations

-- `age >= maxAge`
unfoldable pub is_older_than : ℕ → ℤ → Conn → Bool
is_older_than now max_age c = leb_ℤ max_age (sub_ℕ now c.birthdate)

-- The loop: what stays idle, and what is closed.
unfoldable pub split_older : ℕ → ℤ → List Conn → List Conn × List Conn
split_older now max_age [] = ([], [])
split_older now max_age (c ∷ cs) =
    let (stay, go) = split_older now max_age cs in
    if is_older_than now max_age c then (stay, c ∷ go) else (c ∷ stay, go)

unfoldable pub remove_idle_older_than : ℕ → ℤ → Server → Server × List Conn
remove_idle_older_than now max_age s =
    let (stay, go) = split_older now max_age s.idle in (record s { idle = stay }, go)

-- The connections for which the callback is called, busy ones first.
unfoldable pub all_connections : Server → List Conn
all_connections s = s.busy ++ s.idle

unfoldable pub close_and_empty_connections : List Conn → List Conn × List Conn
close_and_empty_connections l = ([], l)

unfoldable pub start_closing : Server → Server × List Conn
start_closing s = (record s { closing = true; idle = [] }, s.idle)
