-- ===== src/Client/Connection.antt =====
-- How client/lib/rpc.c looks after its socket.
use freelite.Base.{
  ◌<◌, pos, minus_one, is_neg, Bytes, Option, none, some, false, ◌≡◌, ◌⊎◌, arith, length,
}
use freelite.Rpc.{RpcReqMsg, RpcRspMsg}
use freelite.Client.{Client, ClientOs, rpc_conn, exchange, rpc_handler, server_path}

-- The file does not open, or holds fewer than fourteen bytes.
abbrev pub NoContainer : Option Bytes → Type 0
NoContainer none = Unit
NoContainer (some text) = length text < 14

module _ {W : Type 0} (os : ClientOs W) where
  -- `send` and `recv` give 0 and keep the socket, or give -1 and leave none.
  pub exchange-result :
      (req : RpcReqMsg) (rsp : RpcRspMsg) (s : Client W)
      → let r = exchange os req rsp s in
        ((r.0.0 ≡ pos 0) × (r.1.client_sock ≡ s.client_sock))
        ⊎ ((r.0.0 ≡ minus_one) × (r.1.client_sock ≡ minus_one))
  unfolding exchange
  exchange-result req rsp s = ground arith

  -- Outside a container `rpc_conn` fails, and the socket that it has opened stays in `client_sock`,
  -- unbound and not connected.
  rpc_conn-half_open :
      (name : Bytes) (s : Client W)
      → is_neg (os.socket s.world).0 ≡ false
      → NoContainer (os.cpuset (os.socket s.world).1)
      → let r = rpc_conn os name s in
        (r.0 ≡ minus_one)
        × (r.1.client_sock ≡ (os.socket s.world).0)
        × (r.1.world ≡ (os.socket s.world).1)
  unfolding rpc_conn
  rpc_conn-half_open name s fd none_here = ground arith

  -- A client without a socket that opens one and finds no container id, since the file does not open
  -- or is shorter than fourteen bytes, fails its first request. Its next request is not preceded by
  -- an attempt to connect: it is sent on the socket of the first, which was never connected.
  pub half_open_is_used :
      (s : Client W) (req req' : RpcReqMsg) (rsp rsp' : RpcRspMsg)
      → s.client_sock ≡ minus_one
      → is_neg (os.socket s.world).0 ≡ false
      → NoContainer (os.cpuset (os.socket s.world).1)
      → let first = rpc_handler os req rsp s in
        (first.0 ≡ (minus_one, rsp))
        × (rpc_handler os req' rsp' first.1 ≡ exchange os req' rsp' first.1)
  unfolding rpc_handler
  half_open_is_used s req req' rsp rsp' closed fd none_here =
      let half = rpc_conn-half_open server_path s fd none_here in ground arith
