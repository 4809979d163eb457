-- ===== src/Router/NoContainer.antt =====
-- router/test_router.cpp in the build with NO_CONTAINER: there are no vids, and a node of a request is
-- a node of LITE. The cases of the `switch` that differ from Router/Dispatch.
pub mod Server
pub mod Serving
use freelite.Base.{
  ℕ, ◌<◌, ◌^◌, to_u32, to_i32, ℤ_discrete, Bytes, Bytes_discrete, none, some, ◌≡◌, arith, eq_ℤ,
  if◌then◌else◌, refl,
}
use freelite.Base.State.{M}
use freelite.Base.UnorderedMap.{find}
use freelite.Routing.{Router, vcm_get_node_id, vcm_join, vcm_vid_nid}
use freelite.Lite
use freelite.Rpc.{
  RpcReqMsg, RpcRspMsg, ReqBody, alloc_remote_mem_req, send_reply_imm_fast_req, query_port_req,
  get_node_id_code, join_code, alloc_remote_mem_code, rdma_write_code, rdma_read_code,
  send_reply_imm_fast_code, receive_message_fast_code, reply_message_code,
  register_application_code, dist_barrier_code, query_port_code, alloc_local_mem_code,
  free_local_mem_code,
}
use freelite.Router.{Env, Outcome, undefined, waits, unknown_code, on_world, respond_int}
use freelite.Router.Dispatch.{
  dispatch, on_get_node_id, on_join, on_alloc_remote_mem, on_rdma_write, on_rdma_read,
  on_send_reply_imm_fast, on_receive_message_fast, on_reply_message, on_register_application,
  on_dist_barrier, on_query_port, on_alloc_local_mem, on_free_local_mem,
}

module _ {W : Type 0} (e : Env W) (rsp : RpcRspMsg) where
  -- `get_node_id` and `join`.
  unfoldable pub host_node_id : M (Router W) Outcome
  host_node_id s = respond_int rsp (e.router_nid, s)

  unfoldable pub host_alloc_remote_mem : ReqBody → M (Router W) Outcome
  host_alloc_remote_mem (alloc_remote_mem_req m) s =
      respond_int rsp
        (on_world (Lite.alloc_remote_mem e.kernel m.node_id m.size m.atomic_flag m.password) s)
  host_alloc_remote_mem _ s = (undefined, s)

  unfoldable pub host_send_reply_imm_fast : ℕ → ReqBody → M (Router W) Outcome
  host_send_reply_imm_fast fuel (send_reply_imm_fast_req m) s =
      elim (Lite.send_reply_imm_fast e.kernel fuel m.target_node m.port m.ret_addr m.size m.ret_addr
        m.ret_length m.max_ret_size s.world) [
          | none ↦ (waits, s)
          | some (n, w) ↦ respond_int rsp (n, record s { world = w })
        ]
  host_send_reply_imm_fast fuel _ s = (undefined, s)

  unfoldable pub host_query_port : ReqBody → M (Router W) Outcome
  host_query_port (query_port_req m) s =
      respond_int rsp (on_world (Lite.query_port e.kernel m.target_node m.designed_port) s)
  host_query_port _ s = (undefined, s)

  -- The `switch`; the other cases are those of the build for containers.
  unfoldable pub host_dispatch : ℕ → RpcReqMsg → M (Router W) Outcome
  unfolding host_node_id host_alloc_remote_mem host_send_reply_imm_fast host_query_port
      on_rdma_write on_rdma_read on_receive_message_fast on_reply_message on_register_application
      on_dist_barrier on_alloc_local_mem on_free_local_mem
  host_dispatch fuel req s =
      let code = req.func_code in
      let body = req.msg_body in
      if eq_ℤ code get_node_id_code
      then host_node_id s
      else (if eq_ℤ code join_code
          then host_node_id s
          else (if eq_ℤ code alloc_remote_mem_code
              then host_alloc_remote_mem body s
              else (if eq_ℤ code rdma_write_code
                  then on_rdma_write e rsp body s
                  else (if eq_ℤ code rdma_read_code
                      then on_rdma_read e rsp body s
                      else (if eq_ℤ code send_reply_imm_fast_code
                          then host_send_reply_imm_fast fuel body s
                          else (if eq_ℤ code receive_message_fast_code
                              then on_receive_message_fast e rsp fuel body s
                              else (if eq_ℤ code reply_message_code
                                  then on_reply_message e rsp body s
                                  else (if eq_ℤ code register_application_code
                                      then on_register_application e rsp body s
                                      else (if eq_ℤ code dist_barrier_code
                                          then on_dist_barrier e rsp body s
                                          else (if eq_ℤ code query_port_code
                                              then host_query_port body s
                                              else (if eq_ℤ code alloc_local_mem_code
                                                  then on_alloc_local_mem e rsp body s
                                                  else (if eq_ℤ code free_local_mem_code
                                                      then on_free_local_mem e rsp body s
                                                      else (unknown_code, s)))))))))))))

  -- The node that a request names is in the router's map, as its own nid.
  abbrev pub KnowsItself : ReqBody → Router W → Type 0
  KnowsItself (alloc_remote_mem_req m) s =
      (m.node_id < 2 ^ 32)
      × (find ℤ_discrete (to_i32 m.node_id) s.vid_nid_map_cache ≡ some (to_i32 m.node_id))
  KnowsItself (send_reply_imm_fast_req m) s =
      find ℤ_discrete m.target_node s.vid_nid_map_cache ≡ some m.target_node
  KnowsItself (query_port_req m) s =
      find ℤ_discrete m.target_node s.vid_nid_map_cache ≡ some m.target_node
  KnowsItself _ s = Unit

  to_u32-to_i32 : (n : ℕ) → n < 2 ^ 32 → to_u32 (to_i32 n) ≡ n
  unfolding to_u32 to_i32
  to_u32-to_i32 n h = ground arith

  alloc_remote_mem-agrees :
      (b : ReqBody) (s : Router W)
      → KnowsItself b s
      → host_alloc_remote_mem b s ≡ on_alloc_remote_mem e rsp b s
  unfolding host_alloc_remote_mem on_alloc_remote_mem vcm_vid_nid
  alloc_remote_mem-agrees (alloc_remote_mem_req m) s (small, k) =
      let same = to_u32-to_i32 m.node_id small in rw (k, vcm_vid_nid) (rw same refl)
  alloc_remote_mem-agrees _ s k = refl

  query_port-agrees :
      (b : ReqBody) (s : Router W) → KnowsItself b s → host_query_port b s ≡ on_query_port e rsp b s
  unfolding host_query_port on_query_port vcm_vid_nid
  query_port-agrees (query_port_req m) s k = rw (k, vcm_vid_nid) refl
  query_port-agrees _ s k = refl

  send_reply_imm_fast-agrees :
      (fuel : ℕ) (b : ReqBody) (s : Router W)
      → KnowsItself b s
      → host_send_reply_imm_fast fuel b s ≡ on_send_reply_imm_fast e rsp fuel b s
  unfolding host_send_reply_imm_fast on_send_reply_imm_fast vcm_vid_nid
  send_reply_imm_fast-agrees fuel (send_reply_imm_fast_req m) s k = ground arith
  send_reply_imm_fast-agrees fuel _ s k = refl

  module _ (cid : Bytes) (s : Router W)
      (joined : find Bytes_discrete cid s.cid_vid_map ≡ some e.router_nid) where
    get_node_id-agrees : on_get_node_id e rsp cid s ≡ host_node_id s
    unfolding on_get_node_id vcm_get_node_id host_node_id
    get_node_id-agrees = rw (joined, vcm_get_node_id) refl

    join-agrees : on_join e rsp cid s ≡ host_node_id s
    unfolding on_join vcm_join host_node_id
    join-agrees = rw (joined, vcm_join) refl

    -- When the client's container has the router's nid as its vid, and the node that its request
    -- names is known as its own nid, the build with NO_CONTAINER does with the request what the build
    -- for containers does.
    pub host_dispatch-agrees :
        (fuel : ℕ) (req : RpcReqMsg)
        → KnowsItself req.msg_body s
        → host_dispatch fuel req s ≡ dispatch e rsp fuel cid req s
    unfolding host_dispatch dispatch
    host_dispatch-agrees fuel req k =
        let b = req.msg_body in
        rw
          (
            alloc_remote_mem-agrees b s k,
            query_port-agrees b s k,
            send_reply_imm_fast-agrees fuel b s k,
            get_node_id-agrees,
            join-agrees,
            host_dispatch,
            dispatch,
          )
          refl
