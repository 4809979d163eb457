-- ===== src/MockRouter.antt =====
-- client/test_server.c: a stand-in for the router, which answers every function code with a constant.
-- What it prints is left out, and so are the bodies of the requests, which it only prints.
pub mod Agreement
pub mod Replies
mod Tests
use freelite.Base.{
  ℕ, zero, suc, ℤ, pos, negsuc, minus_one, is_neg, eq_ℤ, List, Option, none, some, if◌then◌else◌,
}
use freelite.Os.{Stream, Sockets}
use freelite.Rpc.{
  RpcReqMsg, RpcRspMsg, no_req, zeroed, get_node_id_code, join_code, alloc_remote_mem_code,
  rdma_write_code, rdma_read_code, send_reply_imm_fast_code, receive_message_fast_code,
  reply_message_code, register_application_code, dist_barrier_code, query_port_code,
  alloc_local_mem_code, free_local_mem_code,
}
use freelite.Listener.{Listener, Event, run}
use freelite.Listener.Startup.{ServerOs, exits, listens, open_server}
use freelite.Router.{with_int}
use freelite.Router.Server.{Status, running, exited}

-- The two cases that write the body of the response, too.
abbrev pub message_response : RpcRspMsg
message_response = record {
  int_rsp = pos 512;
  msg_body = record { descriptor = 114514; ret_length = pos 1919 };
}

abbrev pub memory_response : RpcRspMsg → RpcRspMsg
memory_response rsp = record {
  int_rsp = pos 0;
  msg_body = record rsp.msg_body { descriptor = 256 };
}

-- The `switch`; `none` is the default case.
unfoldable pub answer : ℤ → RpcRspMsg → Option RpcRspMsg
answer code rsp =
    if eq_ℤ code get_node_id_code
    then some (with_int rsp (pos 12))
    else (if eq_ℤ code join_code
        then some (with_int rsp (pos 12))
        else (if eq_ℤ code alloc_remote_mem_code
            then some (with_int rsp (pos 13))
            else (if eq_ℤ code rdma_write_code
                then some (with_int rsp minus_one)
                else (if eq_ℤ code rdma_read_code
                    then some (with_int rsp (negsuc 1))
                    else (if eq_ℤ code send_reply_imm_fast_code
                        then some (with_int rsp (pos 1024))
                        else (if eq_ℤ code receive_message_fast_code
                            then some message_response
                            else (if eq_ℤ code reply_message_code
                                then some (with_int rsp (negsuc 3))
                                else (if eq_ℤ code register_application_code
                                    then some (with_int rsp (negsuc 9))
                                    else (if eq_ℤ code dist_barrier_code
                                        then some (with_int rsp (negsuc 6))
                                        else (if eq_ℤ code query_port_code
                                            then some (with_int rsp (negsuc 8))
                                            else (if eq_ℤ code alloc_local_mem_code
                                                then some (memory_response rsp)
                                                else (if eq_ℤ code free_local_mem_code
                                                    then some (with_int rsp minus_one)
                                                    else none))))))))))))

-- What the thread of a client works on.
pub record Session (W : Type 0) : Type 0 where
  pub world : W
  pub req : RpcReqMsg
  pub rsp : RpcRspMsg

module _ {W : Type 0} (net : Stream W RpcRspMsg RpcReqMsg) (client_sock : ℤ) where
  -- `close(client_sock); pthread_exit(NULL);`
  unfoldable pub hang_up : Session W → Status × Session W
  hang_up s = (exited, record s { world = net.close client_sock s.world })

  unfoldable pub reply : Session W → Status × Session W
  unfolding hang_up
  reply s =
      let sent = net.send client_sock s.rsp s.world in
      let s' = record s { world = sent.1 } in if is_neg sent.0 then hang_up s' else (running, s')

  unfoldable pub respond : Session W → Status × Session W
  unfolding reply
  respond s = elim (answer s.req.func_code s.rsp) [
    | none ↦ hang_up s
    | some rsp ↦ reply (record s { rsp = rsp })
  ]

  -- One round of `while (1)`.
  unfoldable pub round : Session W → Status × Session W
  unfolding respond
  round s =
      let received = net.recv client_sock s.req s.world in
      let ret_len = received.0.0 in
      let s' = record s { req = received.0.1; world = received.1 } in
      if is_neg ret_len
      then hang_up s'
      else (if eq_ℤ ret_len (pos 0) then hang_up s' else respond s')

  -- The first `n` rounds, or fewer if the thread exits before.
  unfoldable pub rounds : ℕ → Session W → Status × Session W
  rounds zero s = (running, s)
  rounds (suc n) s =
      let (status, s') = round s in elim status [ running ↦ rounds n s' | stopped ↦ (stopped, s') ]

  unfoldable pub server_accept_request : Sockets W → ℕ → W → Status × Session W
  unfolding rounds
  server_accept_request socks n w =
      let peer = socks.getpeername client_sock w in
      let s : Session W = record {
        world = peer.1;
        req = record { func_code = pos 0; msg_body = no_req };
        rsp = zeroed;
      } in
      if is_neg peer.0.0 then hang_up s else rounds n s

-- Until the loop ends, or as far as the events go; `none` is `exit(EXIT_FAILURE)` before the loop.
unfoldable pub main : {W : Type 0} → ServerOs W → ℤ → List Event → W → Option (Listener × W)
unfolding open_server
main os junk events w = elim (open_server os junk w) [
  | exits w' ↦ none
  | listens l w' ↦ some (run l events, w')
]
