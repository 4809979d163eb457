-- ===== src/Router/Server.antt =====
-- router/test_router.cpp, `server_accept_request`: the thread that serves one client. A round of its
-- loop is one function; the loop runs on a number of rounds, since only the client can end it.
use freelite.Base.{ℕ, zero, suc, ℤ, pos, is_neg, eq_ℤ, Bytes, Option, none, some, if◌then◌else◌}
use freelite.Os.{Stream, Sockets}
use freelite.Routing.{Router}
use freelite.Rpc.{RpcReqMsg, RpcRspMsg, no_req, zeroed}
use freelite.Router.{Env, Outcome, responds, unknown_code, undefined, waits, cid_of_path}
use freelite.Router.Dispatch.{dispatch}

-- What the thread works on: the router's variables with the world, and its two buffers.
pub record Session (W : Type 0) : Type 0 where
  pub router : Router W
  pub req : RpcReqMsg
  pub rsp : RpcRspMsg

-- The thread goes on, has left by `pthread_exit`, still waits for the kernel, or has met something
-- that the language does not define or an exception that nothing catches.
pub data Status : Type 0 where
  running exited waiting broken uncaught : Status

abbrev pub in_world : {W : Type 0} → W → Session W → Session W
in_world w s = record s { router = record s.router { world = w } }

module _ {W : Type 0} (net : Stream W RpcRspMsg RpcReqMsg) (client_sock : ℤ) where
  -- `close(client_sock); pthread_exit(NULL);`
  abbrev pub hang_up : Session W → Status × Session W
  hang_up s = (exited, in_world (net.close client_sock s.router.world) s)

  unfoldable pub reply : Session W → Status × Session W
  reply s =
      let sent = net.send client_sock s.rsp s.router.world in
      let s' = in_world sent.1 s in if is_neg sent.0 then hang_up s' else (running, s')

  -- What follows the `switch`.
  unfoldable pub settle : Session W → Outcome × Router W → Status × Session W
  settle s (responds rsp, r) = reply (record s { router = r; rsp = rsp })
  settle s (unknown_code, r) = hang_up (record s { router = r })
  settle s (undefined, r) = (broken, record s { router = r })
  settle s (waits, r) = (waiting, record s { router = r })

module _ {W : Type 0} (e : Env W) (net : Stream W RpcRspMsg RpcReqMsg) (client_sock : ℤ) where
  -- One round of `while (1)`.
  unfoldable pub round : ℕ → Bytes → Session W → Status × Session W
  unfolding settle
  round fuel cid s =
      let received = net.recv client_sock s.req s.router.world in
      let ret_len = received.0.0 in
      let s' = in_world received.1 (record s { req = received.0.1 }) in
      if is_neg ret_len
      then hang_up net client_sock s'
      else (if eq_ℤ ret_len (pos 0)
          then hang_up net client_sock s'
          else settle net client_sock s' (dispatch e s'.rsp fuel cid s'.req s'.router))

  -- The first `n` rounds, or fewer if the thread stops before.
  unfoldable pub rounds : ℕ → ℕ → Bytes → Session W → Status × Session W
  rounds zero fuel cid s = (running, s)
  rounds (suc n) fuel cid s =
      let (status, s') = round fuel cid s in
      elim status [ running ↦ rounds n fuel cid s' | stopped ↦ (stopped, s') ]

  -- From `substr` on.
  unfoldable pub serve : ℕ → ℕ → Option Bytes → Session W → Status × Session W
  unfolding rounds
  serve n fuel none s = (uncaught, s)
  serve n fuel (some cid) s = rounds n fuel cid s

  -- `getpeername` gives the path of the client's socket.
  unfoldable pub server_accept_request : Sockets W → ℕ → ℕ → Router W → Status × Session W
  unfolding serve
  server_accept_request socks n fuel r =
      let peer = socks.getpeername client_sock r.world in
      let s : Session W = record {
        router = record r { world = peer.1 };
        req = record { func_code = pos 0; msg_body = no_req };
        rsp = zeroed;
      } in
      if is_neg peer.0.0 then hang_up net client_sock s else serve n fuel (cid_of_path peer.0.1) s
