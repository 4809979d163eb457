-- ===== src/Client/Opening.antt =====
-- client/lib/rpc.c, `rpc_handler` with `rpc_conn` and `rpc_disconn` in several threads of one
-- application, one access to `client_sock` at a time. What the messages hold is left out.
pub mod Sockets
pub mod Exclusive
pub mod Races
mod Tests
use freelite.Base.{ℕ, ℤ, pos, negsuc, minus_one, is_neg, Bool, true, false, ◌≡◌, ◌≢◌}
use freelite.Cluster.{update}

-- What the operating system holds of a socket. A number that is not in use is `absent`.
pub data Sock : Type 0 where
  absent opened bound connected : Sock

abbrev pub can_connect : Sock → Bool
can_connect opened = true
can_connect bound = true
can_connect _ = false

-- Where a thread stands.
pub data Pc : Type 0 where
  idle : Pc  -- in no call
  testing : Pc  -- before `client_sock == -1`
  opening : Pc  -- before `socket`
  binding : Pc  -- before the id of the container is read, and `bind`
  connecting : Pc  -- before `connect`
  leaving_conn : Pc  -- before `return client_sock` in `rpc_conn`
  sending : Pc  -- before `send`
  sent : Pc  -- before `recv`
  receiving : ℕ → Pc  -- in `recv` on this socket
  dropping : Pc  -- in `rpc_disconn`, after `close`
  returned : ℤ → Pc  -- with the result of `rpc_handler`

pub record Process : Type 0 where
  pub client_sock : ℤ
  pub socks : ℕ → Sock
  pub pc : ℕ → Pc

-- Before the first call.
abbrev pub started : Process
started = record { client_sock = minus_one; socks = λ fd. absent; pc = λ t. idle }

abbrev pub sock_at : ℤ → (ℕ → Sock) → Sock
sock_at (pos fd) socks = socks fd
sock_at (negsuc n) socks = absent

-- `close(fd)`; a number that is no socket is left alone.
abbrev pub closed : ℤ → (ℕ → Sock) → ℕ → Sock
closed (pos fd) socks = update socks fd absent
closed (negsuc n) socks = socks

-- One step of a thread: what `client_sock`, the sockets and its place become. A call of the
-- operating system succeeds if it can, and is refused if it cannot.
pub data Move (c : ℤ) (socks : ℕ → Sock) : Pc → ℤ → (ℕ → Sock) → Pc → Type 0 where
  call : Move c socks idle c socks testing
  is_open : c ≢ minus_one → Move c socks testing c socks sending
  not_open : c ≡ minus_one → Move c socks testing c socks opening
  socket :
      (fd : ℕ) → socks fd ≡ absent → Move c socks opening (pos fd) (update socks fd opened) binding
  bind :
      (fd : ℕ)
      → c ≡ pos fd
      → socks fd ≡ opened
      → Move c socks binding c (update socks fd bound) connecting
  bind_refused : sock_at c socks ≢ opened → Move c socks binding c (closed c socks) dropping
  connect :
      (fd : ℕ)
      → c ≡ pos fd
      → can_connect (socks fd) ≡ true
      → Move c socks connecting c (update socks fd connected) leaving_conn
  connect_refused :
      can_connect (sock_at c socks) ≡ false → Move c socks connecting c (closed c socks) dropping
  conn_returns : is_neg c ≡ false → Move c socks leaving_conn c socks sending
  conn_fails : is_neg c ≡ true → Move c socks leaving_conn c socks (returned minus_one)
  send : sock_at c socks ≡ connected → Move c socks sending c socks sent
  send_refused : sock_at c socks ≢ connected → Move c socks sending c (closed c socks) dropping
  recv : (fd : ℕ) → c ≡ pos fd → socks fd ≡ connected → Move c socks sent c socks (receiving fd)
  recv_refused : sock_at c socks ≢ connected → Move c socks sent c (closed c socks) dropping
  arrives : (fd : ℕ) → Move c socks (receiving fd) c socks (returned (pos 0))
  drop : Move c socks dropping minus_one socks (returned minus_one)
  leave : (r : ℤ) → Move c socks (returned r) c socks idle

-- A call of the operating system that could succeed fails, or, in the build for containers, the id of
-- the container cannot be read.
pub data Fault (container : Bool) (c : ℤ) (socks : ℕ → Sock)
    : Pc → ℤ → (ℕ → Sock) → Pc → Type 0 where
  socket_fails : Fault container c socks opening minus_one socks (returned minus_one)
  no_cid : container ≡ true → Fault container c socks binding c socks (returned minus_one)
  bind_fails : Fault container c socks binding c (closed c socks) dropping
  connect_fails : Fault container c socks connecting c (closed c socks) dropping
  send_fails : Fault container c socks sending c (closed c socks) dropping
  recv_fails : (fd : ℕ) → Fault container c socks (receiving fd) c (closed c socks) dropping
