-- ===== src/Client/NoContainer.antt =====
-- client/lib/rpc.c in the build with NO_CONTAINER: the client's path has no id of a container, and
-- nothing is read from /proc/1/cpuset.
use freelite.Base.{
  ℕ, ◌++◌, ℤ, pos, minus_one, is_neg, eq_ℤ, Bytes, true, false, ◌≡◌, ◌⊎◌, arith, if◌then◌else◌,
}
use freelite.Base.State.{M}
use freelite.Rpc.{RpcReqMsg, RpcRspMsg}
use freelite.Client.{
  Client, ClientOs, client_dir, print_pid, server_path, bind_and_connect, exchange,
}
use freelite.Client.Connection.{exchange-result}

-- `sprintf(client_sockaddr.sun_path, "%s%05d", CLIENT_PATH, getpid())`
abbrev pub host_path : ℕ → Bytes
host_path pid = client_dir ++ print_pid pid

module _ {W : Type 0} (os : ClientOs W) where
  unfoldable pub host_rpc_conn : Bytes → M (Client W) ℤ
  unfolding bind_and_connect
  host_rpc_conn name s =
      let opened = os.socket s.world in
      let s₁ = record s { client_sock = opened.0; world = opened.1 } in
      if is_neg opened.0 then (minus_one, s₁) else bind_and_connect os (host_path os.getpid) name s₁

  unfoldable pub host_rpc_handler : RpcReqMsg → RpcRspMsg → M (Client W) (ℤ × RpcRspMsg)
  unfolding host_rpc_conn exchange
  host_rpc_handler req rsp s =
      let (code, s') = host_rpc_conn server_path s in
      if eq_ℤ s.client_sock minus_one
      then (if is_neg code then ((minus_one, rsp), s') else exchange os req rsp s')
      else exchange os req rsp s

  host_rpc_conn-result :
      (name : Bytes) (s : Client W)
      → (is_neg (os.socket s.world).0 ≡ true → (os.socket s.world).0 ≡ minus_one)
      → let r = host_rpc_conn name s in
        ((is_neg r.0 ≡ false) × (is_neg r.1.client_sock ≡ false))
        ⊎ ((r.0 ≡ minus_one) × (r.1.client_sock ≡ minus_one))
  unfolding host_rpc_conn bind_and_connect
  host_rpc_conn-result name s failure = ground (arith, failure)

  -- When `socket` returns -1 for a failure, a request in this build succeeds on an open socket, or it
  -- fails with -1 and leaves no socket, so that the next one begins with a new connection.
  pub host_rpc_handler-result :
      (req : RpcReqMsg) (rsp : RpcRspMsg) (s : Client W)
      → (is_neg (os.socket s.world).0 ≡ true → (os.socket s.world).0 ≡ minus_one)
      → (s.client_sock ≡ minus_one) ⊎ (is_neg s.client_sock ≡ false)
      → let r = host_rpc_handler req rsp s in
        ((r.0.0 ≡ pos 0) × (is_neg r.1.client_sock ≡ false))
        ⊎ ((r.0.0 ≡ minus_one) × (r.1.client_sock ≡ minus_one))
  unfolding host_rpc_handler
  host_rpc_handler-result req rsp s failure start =
      let conn = host_rpc_conn-result server_path s failure in
      let new = exchange-result os req rsp (host_rpc_conn server_path s).1 in
      let old = exchange-result os req rsp s in ground (arith, conn, new, old, start)
