-- ===== src/Client.antt =====
-- client/lib/rpc.c: a client's connection to the router on its host, in the container build (without
-- NO_CONTAINER).
pub mod Connection
pub mod Stubs
pub mod Calls
pub mod Identity
pub mod Failures
pub mod NoContainer
pub mod Threads
pub mod Opening
pub mod Log
mod Tests
use freelite.Base.{
  ℕ, zero, suc, ◌+◌, ◌-◌, ◌/◌, ◌%◌, ℤ, pos, minus_one, is_neg, eq_ℤ, Bytes, List, [], ◌∷◌, ◌++◌,
  Option, none, some, length, take, drop, ltb, if◌then◌else◌,
}
use freelite.Base.State.{M}
use freelite.Os.{Stream}
use freelite.Rpc.{RpcReqMsg, RpcRspMsg}

-- The calls of the operating system. `cpuset` is the content of /proc/1/cpuset, or `none` if the
-- file does not open.
pub record ClientOs (W : Type 0) : Type 0 where
  pub net : Stream W RpcReqMsg RpcRspMsg
  pub socket : M W ℤ
  pub cpuset : W → Option Bytes
  pub getpid : ℕ
  pub unlink : Bytes → W → W
  pub bind : ℤ → Bytes → M W ℤ
  pub connect : ℤ → Bytes → M W ℤ

-- The static variables of rpc.c with the world. `cid` is an array of seven bytes.
pub record Client (W : Type 0) : Type 0 where
  pub client_sock : ℤ
  pub cid : Bytes
  pub world : W

abbrev pub slash : ℕ
slash = b'/'

-- CLIENT_PATH, "/var/tmp/"
abbrev pub client_dir : Bytes
client_dir = slash ∷ b'v' ∷ b'a' ∷ b'r' ∷ slash ∷ b't' ∷ b'm' ∷ b'p' ∷ slash ∷ []

-- SERVER_PATH, "/var/tmp/tpf_unix_sock.server"; the name of the file below the directory.
abbrev pub server_name : Bytes
server_name =
    b't' ∷ b'p' ∷ b'f' ∷ b'_' ∷ b'u' ∷ b'n' ∷ b'i' ∷ b'x' ∷ b'_' ∷ b's' ∷ b'o' ∷ b'c' ∷ b'k' ∷ b'.'
    ∷ b's' ∷ b'e' ∷ b'r' ∷ b'v' ∷ b'e' ∷ b'r' ∷ []

abbrev pub server_path : Bytes
server_path = client_dir ++ server_name

-- The decimal digits of a number, the lowest `places` of them.
unfoldable pub decimal : ℕ → ℕ → Bytes
decimal zero n = []
decimal (suc places) n =
    let rest = decimal places (n / 10) in
    if ltb n 10 then (b'0' + n) ∷ [] else rest ++ (b'0' + n % 10) ∷ []

-- `zeros n s` puts `n` zeros in front of `s`.
unfoldable pub zeros : ℕ → Bytes → Bytes
zeros zero s = s
zeros (suc n) s = b'0' ∷ zeros n s

-- `%05d` of a process id, which has at most ten digits.
unfoldable pub print_pid : ℕ → Bytes
unfolding decimal zeros
print_pid pid = let s = decimal 10 pid in zeros (5 - length s) s

-- `sprintf(client_sockaddr.sun_path, "%s%s%05d", CLIENT_PATH, cid, getpid())`
abbrev pub client_path : Bytes → ℕ → Bytes
client_path cid pid = client_dir ++ (cid ++ print_pid pid)

module _ {W : Type 0} (os : ClientOs W) where
  unfoldable pub rpc_disconn : Client W → Client W
  rpc_disconn s = record s { client_sock = minus_one; world = os.net.close s.client_sock s.world }

  -- From `unlink` on: bind the path of this client and connect to the server.
  unfoldable pub bind_and_connect : Bytes → Bytes → M (Client W) ℤ
  unfolding rpc_disconn
  bind_and_connect path name s =
      let bound = os.bind s.client_sock path (os.unlink path s.world) in
      let s₁ = record s { world = bound.1 } in
      let connected = os.connect s.client_sock name s₁.world in
      let s₂ = record s₁ { world = connected.1 } in
      if is_neg bound.0
      then (minus_one, rpc_disconn s₁)
      else (if is_neg connected.0 then (minus_one, rpc_disconn s₂) else (s₂.client_sock, s₂))

  -- The fourteen calls of `getc`: eight bytes are skipped, six are the id of the container. A file
  -- that is too short leaves in `cid` what was read of it.
  unfoldable pub read_cid : Option Bytes → Bytes → M (Client W) ℤ
  unfolding bind_and_connect
  read_cid none name s = (minus_one, record s { cid = [] })
  read_cid (some text) name s =
      let s₁ = record s { cid = take 6 (drop 8 text) } in
      if ltb (length text) 14
      then (minus_one, s₁)
      else bind_and_connect (client_path s₁.cid os.getpid) name s₁

  unfoldable pub rpc_conn : Bytes → M (Client W) ℤ
  unfolding read_cid
  rpc_conn name s =
      let opened = os.socket s.world in
      let s₁ = record s { client_sock = opened.0; world = opened.1 } in
      if is_neg opened.0 then (minus_one, s₁) else read_cid (os.cpuset s₁.world) name s₁

  -- `send` and `recv` of `rpc_handler`. The result is the error code with what `*rsp_msg` holds.
  unfoldable pub exchange : RpcReqMsg → RpcRspMsg → M (Client W) (ℤ × RpcRspMsg)
  unfolding rpc_disconn
  exchange req rsp s =
      let sent = os.net.send s.client_sock req s.world in
      let s₁ = record s { world = sent.1 } in
      let received = os.net.recv s.client_sock rsp s₁.world in
      let s₂ = record s₁ { world = received.1 } in
      if is_neg sent.0
      then ((minus_one, rsp), rpc_disconn s₁)
      else (if is_neg received.0.0
          then ((minus_one, received.0.1), rpc_disconn s₂)
          else ((pos 0, received.0.1), s₂))

  unfoldable pub rpc_handler : RpcReqMsg → RpcRspMsg → M (Client W) (ℤ × RpcRspMsg)
  rpc_handler req rsp s =
      let (code, s') = rpc_conn server_path s in
      if eq_ℤ s.client_sock minus_one
      then (if is_neg code then ((minus_one, rsp), s') else exchange req rsp s')
      else exchange req rsp s
