-- ===== src/Station/Clients.antt =====
-- The connections of basestation.c: accepting one, and writing a line to all. A connection is its file
-- descriptor; descriptors that are closed are logged, and so are the calls of `write`, with what they return.
pub mod Inv
pub mod Writes
pub mod Written
use inmarsat_sniffer.Base.{
  ℕ, zero, suc, ◌+◌, ◌-◌, ltb, if◌then◌else◌, Bool, true, false, List, [], ◌∷◌, ◌++◌, Option, none,
  some, length, at, set, take,
}

abbrev pub bs_max_clients : ℕ
bs_max_clients = 16

-- What `write` returns: the number of bytes that it took, which may be fewer than were given; -1 where
-- `errno` is `EAGAIN` or `EWOULDBLOCK`; or -1 with another error.
pub data Outcome : Type 0 where
  sent : ℕ → Outcome
  would_block failed : Outcome

-- `written < 0 && errno != EAGAIN && errno != EWOULDBLOCK`
unfoldable pub is_failed : Outcome → Bool
is_failed (Outcome.sent n) = false
is_failed Outcome.would_block = false
is_failed Outcome.failed = true

-- `n_clients` is the length of `clients`. `push` is `bs_mode == 1`, and `none` is a descriptor of -1.
pub record Connections : Type 0 where
  pub clients : List ℕ
  pub bs_client_fd : Option ℕ
  pub push : Bool
  pub closed : List ℕ
  pub written : List (ℕ × Outcome)

-- What `bs_accept_thread` does with an accepted connection.
unfoldable pub accept_client : Connections → ℕ → Connections
accept_client s client_fd =
    if ltb (length s.clients) bs_max_clients
    then record s { clients = s.clients ++ (client_fd ∷ []) }
    else record s { closed = s.closed ++ (client_fd ∷ []) }

-- `clients[0] = fd; n_clients = 1;`
unfoldable pub connected : Connections → ℕ → Connections
connected s fd = record s { clients = fd ∷ []; bs_client_fd = some fd }

-- `clients[i] = clients[--n_clients]`
unfoldable pub swap_remove : List ℕ → ℕ → List ℕ
swap_remove clients i = take (length clients - 1) (set clients i (at clients (length clients - 1)))

-- What follows a write to connection `i` that fails, other than for want of room.
unfoldable pub drop_client : Connections → ℕ → Connections
drop_client s i =
    let shut = record s { closed = s.closed ++ (at s.clients i ∷ []) } in
    if s.push
    then record shut { bs_client_fd = none; clients = [] }
    else record shut { clients = swap_remove s.clients i }

-- The loop from connection `i` on, with fuel; `write fd` is what the write to `fd` returns. The loop goes
-- on after a short write and after one that would block, and is left at the first that fails otherwise.
unfoldable pub write_loop : ℕ → (ℕ → Outcome) → Connections → ℕ → Connections
write_loop zero write s i = s
write_loop (suc fuel) write s i =
    let fd = at s.clients i in
    let s' = record s { written = s.written ++ ((fd, write fd) ∷ []) } in
    let rest = write_loop fuel write s' (i + 1) in
    if ltb i (length s.clients)
    then (if is_failed (write fd) then drop_client s' i else rest)
    else s

unfoldable pub write_all : (ℕ → Outcome) → Connections → Connections
write_all write s = write_loop (length s.clients + 1) write s 0
