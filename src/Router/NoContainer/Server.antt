-- ===== src/Router/NoContainer/Server.antt =====
-- router/test_router.cpp, `server_accept_request` in the build with NO_CONTAINER: the thread reads no
-- id of a container from the path of its client.
use freelite.Base.{ℕ, zero, suc, ℤ, pos, is_neg, eq_ℤ, ◌≡◌, Option-cases, inl, inr, if◌then◌else◌}
use freelite.Os.{Stream, Sockets}
use freelite.Routing.{Router}
use freelite.Lite
use freelite.Rpc.{
  RpcReqMsg, RpcRspMsg, ReqBody, alloc_remote_mem_req, send_reply_imm_fast_req, query_port_req,
  no_req, zeroed, get_node_id_code, join_code, alloc_remote_mem_code, rdma_write_code,
  rdma_read_code, send_reply_imm_fast_code, receive_message_fast_code, reply_message_code,
  register_application_code, dist_barrier_code, query_port_code, alloc_local_mem_code,
  free_local_mem_code,
}
use freelite.Router.{Env, Outcome}
use freelite.Router.Effects.{Leaves, send_reply_imm_fast-seen}
use freelite.Router.Rule.{
  if-both, on_rdma_write-rule, on_rdma_read-rule, on_receive_message_fast-rule,
  on_reply_message-rule, on_register_application-rule, on_dist_barrier-rule,
  on_alloc_local_mem-rule, on_free_local_mem-rule,
}
use freelite.Router.Server.{Session, Status, running, in_world, hang_up, settle}
use freelite.Router.NoContainer.{
  host_node_id, host_alloc_remote_mem, host_send_reply_imm_fast, host_query_port, host_dispatch,
}

module _ {W : Type 0} (e : Env W) (net : Stream W RpcRspMsg RpcReqMsg) (client_sock : ℤ) where
  -- One round of `while (1)`.
  unfoldable pub host_round : ℕ → Session W → Status × Session W
  unfolding settle
  host_round fuel s =
      let received = net.recv client_sock s.req s.router.world in
      let ret_len = received.0.0 in
      let s' = in_world received.1 (record s { req = received.0.1 }) in
      if is_neg ret_len
      then hang_up net client_sock s'
      else (if eq_ℤ ret_len (pos 0)
          then hang_up net client_sock s'
          else settle net client_sock s' (host_dispatch e s'.rsp fuel s'.req s'.router))

  -- The first `n` rounds, or fewer if the thread stops before.
  unfoldable pub host_rounds : ℕ → ℕ → Session W → Status × Session W
  host_rounds zero fuel s = (running, s)
  host_rounds (suc n) fuel s =
      let (status, s') = host_round fuel s in
      elim status [ running ↦ host_rounds n fuel s' | stopped ↦ (stopped, s') ]

  unfoldable pub host_server_accept_request : Sockets W → ℕ → ℕ → Router W → Status × Session W
  unfolding host_rounds
  host_server_accept_request socks n fuel r =
      let peer = socks.getpeername client_sock r.world in
      let s : Session W = record {
        router = record r { world = peer.1 };
        req = record { func_code = pos 0; msg_body = no_req };
        rsp = zeroed;
      } in
      if is_neg peer.0.0 then hang_up net client_sock s else host_rounds n fuel s

-- What the kernel's work keeps, a request keeps.
module _ {W A : Type 0} (e : Env W) (seen : W → A) (l : Leaves e seen) (rsp : RpcRspMsg)
    (P : Router W → Type 0)
    (moved : (r : Router W) (w : W) → seen w ≡ seen r.world → P r → P (record r { world = w }))
    (s : Router W) (same : P s) where
  host_alloc_remote_mem-rule : (b : ReqBody) → P (host_alloc_remote_mem e rsp b s).1
  unfolding host_alloc_remote_mem Lite.alloc_remote_mem
  host_alloc_remote_mem-rule (alloc_remote_mem_req m) = moved s _ (l.syscall _ _ _) same
  host_alloc_remote_mem-rule _ = same

  host_query_port-rule : (b : ReqBody) → P (host_query_port e rsp b s).1
  unfolding host_query_port Lite.query_port
  host_query_port-rule (query_port_req m) = moved s _ (l.syscall _ _ _) same
  host_query_port-rule _ = same

  host_send_reply_imm_fast-rule :
      (fuel : ℕ) (b : ReqBody) → P (host_send_reply_imm_fast e rsp fuel b s).1
  unfolding host_send_reply_imm_fast
  host_send_reply_imm_fast-rule fuel (send_reply_imm_fast_req m) =
      elim (Option-cases (
        Lite.send_reply_imm_fast e.kernel fuel m.target_node m.port m.ret_addr m.size m.ret_addr
          m.ret_length m.max_ret_size s.world)) [
            | inl h ↦ rw (h, host_send_reply_imm_fast) same
            | inr ((n, w), h) ↦
                rw (h, host_send_reply_imm_fast)
                  (moved s w (send_reply_imm_fast-seen e seen l _ _ _ _ _ _ _ _ n s.world w h) same)
          ]
  host_send_reply_imm_fast-rule fuel _ = same

  pub host_dispatch-rule : (fuel : ℕ) (req : RpcReqMsg) → P (host_dispatch e rsp fuel req s).1
  unfolding host_dispatch host_node_id
  host_dispatch-rule fuel req =
      let b = req.msg_body in
      let code = req.func_code in
      let Q : Outcome × Router W → Type 0 = λ r. P r.1 in
      if-both Q (eq_ℤ code get_node_id_code) same (
        if-both Q (eq_ℤ code join_code) same (
          if-both Q (eq_ℤ code alloc_remote_mem_code) (host_alloc_remote_mem-rule b) (
            if-both Q (eq_ℤ code rdma_write_code) (on_rdma_write-rule e seen l rsp P moved s same b)
              (if-both Q (eq_ℤ code rdma_read_code)
                (on_rdma_read-rule e seen l rsp P moved s same b)
                (if-both Q (eq_ℤ code send_reply_imm_fast_code)
                  (host_send_reply_imm_fast-rule fuel b)
                  (if-both Q (eq_ℤ code receive_message_fast_code)
                    (on_receive_message_fast-rule e seen l rsp P moved s same fuel b)
                    (if-both Q (eq_ℤ code reply_message_code)
                      (on_reply_message-rule e seen l rsp P moved s same b)
                      (if-both Q (eq_ℤ code register_application_code)
                        (on_register_application-rule e seen l rsp P moved s same b)
                        (if-both Q (eq_ℤ code dist_barrier_code)
                          (on_dist_barrier-rule e seen l rsp P moved s same b)
                          (if-both Q (eq_ℤ code query_port_code) (host_query_port-rule b) (
                            if-both Q (eq_ℤ code alloc_local_mem_code)
                              (on_alloc_local_mem-rule e seen l rsp P moved s same b)
                              (if-both Q (eq_ℤ code free_local_mem_code)
                                (on_free_local_mem-rule e seen l rsp P moved s same b)
                                same))))))))))))
