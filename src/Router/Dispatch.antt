-- ===== src/Router/Dispatch.antt =====
-- router/test_router.cpp, `server_accept_request`: the `switch`, a function for each of its cases. A
-- case reads one member of the union.
use freelite.Base.{ℕ, to_u32, to_i32, Bytes, none, some, eq_ℤ, if◌then◌else◌}
use freelite.Base.State.{M}
use freelite.Routing.{Router, vcm_get_node_id, vcm_join, vcm_vid_nid}
use freelite.Lite
use freelite.Shm.{alloc_shm_mem, free_shm_mem}
use freelite.Rpc.{
  RpcReqMsg, RpcRspMsg, ReqBody, alloc_remote_mem_req, rdma_write_req, rdma_read_req,
  send_reply_imm_fast_req, receive_message_fast_req, reply_message_req, register_application_req,
  dist_barrier_req, query_port_req, alloc_local_mem_req, free_local_mem_req, remote_addr,
  get_node_id_code, join_code, alloc_remote_mem_code, rdma_write_code, rdma_read_code,
  send_reply_imm_fast_code, receive_message_fast_code, reply_message_code,
  register_application_code, dist_barrier_code, query_port_code, alloc_local_mem_code,
  free_local_mem_code,
}
use freelite.Router.{
  Env, Outcome, responds, unknown_code, undefined, waits, on_world, with_int, respond_int,
}

module _ {W : Type 0} (e : Env W) (rsp : RpcRspMsg) where
  unfoldable pub on_get_node_id : Bytes → M (Router W) Outcome
  on_get_node_id cid s = (responds (with_int rsp (vcm_get_node_id e.vcm cid s)), s)

  unfoldable pub on_join : Bytes → M (Router W) Outcome
  on_join cid s = respond_int rsp (vcm_join e.vcm e.router_nid cid s)

  unfoldable pub on_alloc_remote_mem : ReqBody → M (Router W) Outcome
  on_alloc_remote_mem (alloc_remote_mem_req m) s =
      let (temp_nid, s') = vcm_vid_nid e.vcm (to_i32 m.node_id) s in
      respond_int rsp (
        on_world (Lite.alloc_remote_mem e.kernel (to_u32 temp_nid) m.size m.atomic_flag m.password)
          s')
  on_alloc_remote_mem _ s = (undefined, s)

  unfoldable pub on_rdma_write : ReqBody → M (Router W) Outcome
  on_rdma_write (rdma_write_req m) s =
      respond_int rsp (
        on_world (Lite.rdma_write e.kernel m.lite_handler m.local_addr m.size m.offset m.password)
          s)
  on_rdma_write _ s = (undefined, s)

  unfoldable pub on_rdma_read : ReqBody → M (Router W) Outcome
  on_rdma_read (rdma_read_req m) s =
      respond_int rsp (
        on_world (Lite.rdma_read e.kernel m.lite_handler m.local_addr m.size m.offset m.password) s)
  on_rdma_read _ s = (undefined, s)

  -- The third argument of the call is `ret_addr`, as in the source.
  unfoldable pub on_send_reply_imm_fast : ℕ → ReqBody → M (Router W) Outcome
  on_send_reply_imm_fast fuel (send_reply_imm_fast_req m) s =
      let (temp_nid, s') = vcm_vid_nid e.vcm m.target_node s in
      elim (Lite.send_reply_imm_fast e.kernel fuel temp_nid m.port m.ret_addr m.size m.ret_addr
        m.ret_length m.max_ret_size s'.world) [
          | none ↦ (waits, s')
          | some (n, w) ↦ respond_int rsp (n, record s' { world = w })
        ]
  on_send_reply_imm_fast fuel _ s = (undefined, s)

  -- The kernel writes the two fields of the response.
  unfoldable pub on_receive_message_fast : ℕ → ReqBody → M (Router W) Outcome
  on_receive_message_fast fuel (receive_message_fast_req m) s =
      elim (Lite.receive_message_fast e.kernel fuel m.port m.ret_addr m.receive_size e.descriptor_at
        e.ret_length_at m.block_call s.world) [
          | none ↦ (waits, s)
          | some (n, w) ↦ (
            responds (record {
              int_rsp = n;
              msg_body = record {
                descriptor = e.kernel.load_word e.descriptor_at w;
                ret_length = e.kernel.load_int e.ret_length_at w;
              };
            }),
            record s { world = w },
          )
        ]
  on_receive_message_fast fuel _ s = (undefined, s)

  unfoldable pub on_reply_message : ReqBody → M (Router W) Outcome
  on_reply_message (reply_message_req m) s =
      respond_int rsp (on_world (Lite.reply_message e.kernel m.addr m.size m.descriptor) s)
  on_reply_message _ s = (undefined, s)

  unfoldable pub on_register_application : ReqBody → M (Router W) Outcome
  on_register_application (register_application_req m) s = respond_int rsp (
      on_world
        (Lite.register_application e.kernel m.destined_port m.max_size_per_message
          m.max_user_per_node m.name m.name_len)
        s)
  on_register_application _ s = (undefined, s)

  unfoldable pub on_dist_barrier : ReqBody → M (Router W) Outcome
  on_dist_barrier (dist_barrier_req m) s =
      respond_int rsp (on_world (Lite.dist_barrier e.kernel m.num) s)
  on_dist_barrier _ s = (undefined, s)

  unfoldable pub on_query_port : ReqBody → M (Router W) Outcome
  on_query_port (query_port_req m) s =
      let (temp_nid, s') = vcm_vid_nid e.vcm m.target_node s in
      respond_int rsp (on_world (Lite.query_port e.kernel temp_nid m.designed_port) s')
  on_query_port _ s = (undefined, s)

  unfoldable pub on_alloc_local_mem : ReqBody → M (Router W) Outcome
  on_alloc_local_mem (alloc_local_mem_req m) s =
      let ((n, addr), s') =
        on_world (alloc_shm_mem e.shm m.name m.size (remote_addr rsp.msg_body)) s in
      (responds (record { int_rsp = n; msg_body = record rsp.msg_body { descriptor = addr } }), s')
  on_alloc_local_mem _ s = (undefined, s)

  unfoldable pub on_free_local_mem : ReqBody → M (Router W) Outcome
  on_free_local_mem (free_local_mem_req m) s =
      respond_int rsp (on_world (free_shm_mem e.shm m.name m.size m.remote_addr) s)
  on_free_local_mem _ s = (undefined, s)

  -- The `switch`. `cid` is the id of the client's container.
  unfoldable pub dispatch : ℕ → Bytes → RpcReqMsg → M (Router W) Outcome
  unfolding on_get_node_id on_join on_alloc_remote_mem on_rdma_write on_rdma_read
      on_send_reply_imm_fast on_receive_message_fast on_reply_message on_register_application
      on_dist_barrier on_query_port on_alloc_local_mem on_free_local_mem
  dispatch fuel cid req s =
      let code = req.func_code in
      let body = req.msg_body in
      if eq_ℤ code get_node_id_code
      then on_get_node_id cid s
      else (if eq_ℤ code join_code
          then on_join cid s
          else (if eq_ℤ code alloc_remote_mem_code
              then on_alloc_remote_mem body s
              else (if eq_ℤ code rdma_write_code
                  then on_rdma_write body s
                  else (if eq_ℤ code rdma_read_code
                      then on_rdma_read body s
                      else (if eq_ℤ code send_reply_imm_fast_code
                          then on_send_reply_imm_fast fuel body s
                          else (if eq_ℤ code receive_message_fast_code
                              then on_receive_message_fast fuel body s
                              else (if eq_ℤ code reply_message_code
                                  then on_reply_message body s
                                  else (if eq_ℤ code register_application_code
                                      then on_register_application body s
                                      else (if eq_ℤ code dist_barrier_code
                                          then on_dist_barrier body s
                                          else (if eq_ℤ code query_port_code
                                              then on_query_port body s
                                              else (if eq_ℤ code alloc_local_mem_code
                                                  then on_alloc_local_mem body s
                                                  else (if eq_ℤ code free_local_mem_code
                                                      then on_free_local_mem body s
                                                      else (unknown_code, s)))))))))))))
