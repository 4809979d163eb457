-- ===== src/Router/Rule.antt =====
-- A rule for the `switch` of router/test_router.cpp: what holds of the router before a request, after
-- each call of routing.cpp, and through whatever the kernel does, holds after the request.
use freelite.Base.{
  ℕ, ℤ, eq_ℤ, Bytes, Bool, true, false, ◌≡◌, refl, Option-cases, inl, inr, if◌then◌else◌,
}
use freelite.Routing.{Router, vcm_join, vcm_vid_nid}
use freelite.Lite
use freelite.Rpc.{
  RpcReqMsg, RpcRspMsg, ReqBody, alloc_remote_mem_req, rdma_write_req, rdma_read_req,
  send_reply_imm_fast_req, receive_message_fast_req, reply_message_req, register_application_req,
  dist_barrier_req, query_port_req, alloc_local_mem_req, free_local_mem_req, get_node_id_code,
  join_code, alloc_remote_mem_code, rdma_write_code, rdma_read_code, send_reply_imm_fast_code,
  receive_message_fast_code, reply_message_code, register_application_code, dist_barrier_code,
  query_port_code, alloc_local_mem_code, free_local_mem_code,
}
use freelite.Router.{Env, Outcome}
use freelite.Router.Dispatch.{
  dispatch, on_get_node_id, on_join, on_alloc_remote_mem, on_rdma_write, on_rdma_read,
  on_send_reply_imm_fast, on_receive_message_fast, on_reply_message, on_register_application,
  on_dist_barrier, on_query_port, on_alloc_local_mem, on_free_local_mem,
}
use freelite.Router.Effects.{
  Leaves, receive_message_fast-seen, send_reply_imm_fast-seen, alloc_shm_mem-seen,
  free_shm_mem-seen,
}

pub if-both :
    {A : Type 0} (P : A → Type 0) (b : Bool) {x y : A} → P x → P y → P (if b then x else y)
if-both P true p q = p
if-both P false p q = q

module _ {W A : Type 0} (e : Env W) (seen : W → A) (l : Leaves e seen) (rsp : RpcRspMsg)
    (P : Router W → Type 0)
    (moved : (r : Router W) (w : W) → seen w ≡ seen r.world → P r → P (record r { world = w }))
    (s : Router W) (same : P s) where
  -- The cases that call only the kernel or the shared memory.
  pub on_rdma_write-rule : (b : ReqBody) → P (on_rdma_write e rsp b s).1
  unfolding on_rdma_write Lite.rdma_write_at
  on_rdma_write-rule (rdma_write_req m) = moved s _ (l.syscall _ _ _) same
  on_rdma_write-rule _ = same

  pub on_rdma_read-rule : (b : ReqBody) → P (on_rdma_read e rsp b s).1
  unfolding on_rdma_read Lite.rdma_read_at
  on_rdma_read-rule (rdma_read_req m) = moved s _ (l.syscall _ _ _) same
  on_rdma_read-rule _ = same

  pub on_reply_message-rule : (b : ReqBody) → P (on_reply_message e rsp b s).1
  unfolding on_reply_message Lite.reply_message_at
  on_reply_message-rule (reply_message_req m) =
      moved s _
        (if-both (λ (r : ℤ × W). seen r.1 ≡ seen s.world) (Lite.too_big m.size) refl
          (l.syscall _ _ _))
        same
  on_reply_message-rule _ = same

  pub on_register_application-rule : (b : ReqBody) → P (on_register_application e rsp b s).1
  unfolding on_register_application Lite.register_application
  on_register_application-rule (register_application_req m) = moved s _ (l.syscall _ _ _) same
  on_register_application-rule _ = same

  pub on_dist_barrier-rule : (b : ReqBody) → P (on_dist_barrier e rsp b s).1
  unfolding on_dist_barrier Lite.dist_barrier
  on_dist_barrier-rule (dist_barrier_req m) = moved s _ (l.syscall _ _ _) same
  on_dist_barrier-rule _ = same

  pub on_alloc_local_mem-rule : (b : ReqBody) → P (on_alloc_local_mem e rsp b s).1
  unfolding on_alloc_local_mem
  on_alloc_local_mem-rule (alloc_local_mem_req m) =
      moved s _ (alloc_shm_mem-seen e seen l m.name m.size _ s.world) same
  on_alloc_local_mem-rule _ = same

  pub on_free_local_mem-rule : (b : ReqBody) → P (on_free_local_mem e rsp b s).1
  unfolding on_free_local_mem
  on_free_local_mem-rule (free_local_mem_req m) =
      moved s _ (free_shm_mem-seen e seen l m.name m.size m.remote_addr s.world) same
  on_free_local_mem-rule _ = same

  pub on_receive_message_fast-rule :
      (fuel : ℕ) (b : ReqBody) → P (on_receive_message_fast e rsp fuel b s).1
  unfolding on_receive_message_fast
  on_receive_message_fast-rule fuel (receive_message_fast_req m) =
      elim (Option-cases (
        Lite.receive_message_fast e.kernel fuel m.port m.ret_addr m.receive_size e.descriptor_at
          e.ret_length_at m.block_call s.world)) [
            | inl h ↦ rw (h, on_receive_message_fast) same
            | inr ((n, w), h) ↦
                rw (h, on_receive_message_fast)
                  (moved s w (receive_message_fast-seen e seen l _ _ _ _ _ _ _ n s.world w h) same)
          ]
  on_receive_message_fast-rule fuel _ = same

  -- The cases that ask routing.cpp first.
  module _ (asked : (v : ℤ) → P (vcm_vid_nid e.vcm v s).1) where
    on_alloc_remote_mem-rule : (b : ReqBody) → P (on_alloc_remote_mem e rsp b s).1
    unfolding on_alloc_remote_mem Lite.alloc_remote_mem
    on_alloc_remote_mem-rule (alloc_remote_mem_req m) = moved _ _ (l.syscall _ _ _) (asked _)
    on_alloc_remote_mem-rule _ = same

    on_query_port-rule : (b : ReqBody) → P (on_query_port e rsp b s).1
    unfolding on_query_port Lite.query_port
    on_query_port-rule (query_port_req m) = moved _ _ (l.syscall _ _ _) (asked _)
    on_query_port-rule _ = same

    on_send_reply_imm_fast-rule :
        (fuel : ℕ) (b : ReqBody) → P (on_send_reply_imm_fast e rsp fuel b s).1
    unfolding on_send_reply_imm_fast
    on_send_reply_imm_fast-rule fuel (send_reply_imm_fast_req m) =
        let r = vcm_vid_nid e.vcm m.target_node s in
        elim (Option-cases (
          Lite.send_reply_imm_fast e.kernel fuel r.0 m.port m.ret_addr m.size m.ret_addr
            m.ret_length m.max_ret_size r.1.world)) [
              | inl h ↦ rw (h, on_send_reply_imm_fast) (asked m.target_node)
              | inr ((n, w), h) ↦
                  rw (h, on_send_reply_imm_fast)
                    (moved r.1 w (send_reply_imm_fast-seen e seen l _ _ _ _ _ _ _ _ n r.1.world w h)
                      (asked m.target_node))
            ]
    on_send_reply_imm_fast-rule fuel _ = same

    pub dispatch-rule :
        (fuel : ℕ) (cid : Bytes) (req : RpcReqMsg)
        → P (vcm_join e.vcm e.router_nid cid s).1
        → P (dispatch e rsp fuel cid req s).1
    unfolding dispatch on_get_node_id on_join
    dispatch-rule fuel cid req joined =
        let b = req.msg_body in
        let code = req.func_code in
        let Q : Outcome × Router W → Type 0 = λ r. P r.1 in
        if-both Q (eq_ℤ code get_node_id_code) same (
          if-both Q (eq_ℤ code join_code) joined (
            if-both Q (eq_ℤ code alloc_remote_mem_code) (on_alloc_remote_mem-rule b) (
              if-both Q (eq_ℤ code rdma_write_code) (on_rdma_write-rule b) (
                if-both Q (eq_ℤ code rdma_read_code) (on_rdma_read-rule b) (
                  if-both Q (eq_ℤ code send_reply_imm_fast_code)
                    (on_send_reply_imm_fast-rule fuel b)
                    (if-both Q (eq_ℤ code receive_message_fast_code)
                      (on_receive_message_fast-rule fuel b)
                      (if-both Q (eq_ℤ code reply_message_code) (on_reply_message-rule b) (
                        if-both Q (eq_ℤ code register_application_code)
                          (on_register_application-rule b)
                          (if-both Q (eq_ℤ code dist_barrier_code) (on_dist_barrier-rule b) (
                            if-both Q (eq_ℤ code query_port_code) (on_query_port-rule b) (
                              if-both Q (eq_ℤ code alloc_local_mem_code) (on_alloc_local_mem-rule b)
                                (if-both Q (eq_ℤ code free_local_mem_code)
                                  (on_free_local_mem-rule b) same))))))))))))
