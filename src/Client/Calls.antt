-- ===== src/Client/Calls.antt =====
-- client/lib/lite-lib.c: the functions that an application calls, from `rpc_handler` on. `junk` is
-- what the local variable `rsp_msg`, which is not initialised, holds before the call.
use freelite.Base.{
  ℕ, ℤ, minus_one, is_neg, Bytes, Bool, false, Option, none, some, ◌==◌, if◌then◌else◌,
}
use freelite.Base.State.{M}
use freelite.Rpc.{RpcReqMsg, RpcRspMsg, remote_addr}
use freelite.Shm.{SharedMemory, map_failed}
use freelite.Client.{Client, ClientOs, rpc_handler}
use freelite.Client.Stubs.{
  get_node_id_request, join_request, alloc_remote_mem_request, rdma_write_request,
  rdma_read_request, send_reply_imm_fast_request, receive_message_fast_request,
  reply_message_request, register_application_request, dist_barrier_request, query_port_request,
  alloc_local_mem_request, free_local_mem_request,
}

module _ {W : Type 0} (os : ClientOs W) (junk : RpcRspMsg) where
  -- `rpc_handler(&req_msg, &rsp_msg)`, whose result no caller reads.
  unfoldable pub response : RpcReqMsg → M (Client W) RpcRspMsg
  response req s = let r = rpc_handler os req junk s in (r.0.1, r.1)

  unfoldable pub int_call : RpcReqMsg → M (Client W) ℤ
  unfolding response
  int_call req s = let r = response req s in (r.0.int_rsp, r.1)

  -- A call with a text; `none` if the text does not fit the request.
  unfoldable pub text_call : Option RpcReqMsg → Client W → Option (ℤ × Client W)
  text_call none s = none
  text_call (some req) s = some (int_call req s)

  unfoldable pub get_node_id : M (Client W) ℤ
  get_node_id = int_call get_node_id_request

  unfoldable pub join : Bytes → ℤ → ℤ → Client W → Option (ℤ × Client W)
  join input_str eth_port ib_port = text_call (join_request input_str eth_port ib_port)

  unfoldable pub alloc_remote_mem : ℕ → ℕ → Bool → ℤ → M (Client W) ℤ
  alloc_remote_mem node_id size atomic_flag password =
      int_call (alloc_remote_mem_request node_id size atomic_flag password)

  unfoldable pub rdma_write : ℕ → ℕ → ℕ → ℕ → ℤ → M (Client W) ℤ
  rdma_write lite_handler local_addr size offset password =
      int_call (rdma_write_request lite_handler local_addr size offset password)

  unfoldable pub rdma_read : ℕ → ℕ → ℕ → ℕ → ℤ → M (Client W) ℤ
  rdma_read lite_handler local_addr size offset password =
      int_call (rdma_read_request lite_handler local_addr size offset password)

  unfoldable pub send_reply_imm_fast : ℤ → ℕ → ℕ → ℤ → ℕ → ℕ → ℤ → M (Client W) ℤ
  send_reply_imm_fast target_node port addr size ret_addr ret_length max_ret_size =
      int_call
        (send_reply_imm_fast_request target_node port addr size ret_addr ret_length max_ret_size)

  -- The result with `*descriptor` and `*ret_length`.
  unfoldable pub receive_message_fast : ℕ → ℕ → ℤ → ℤ → M (Client W) (ℤ × ℕ × ℤ)
  receive_message_fast port ret_addr receive_size block_call s =
      let r = response (receive_message_fast_request port ret_addr receive_size block_call) s in
      ((r.0.int_rsp, r.0.msg_body.descriptor, r.0.msg_body.ret_length), r.1)

  unfoldable pub reply_message : ℕ → ℤ → ℕ → M (Client W) ℤ
  reply_message addr size descriptor = int_call (reply_message_request addr size descriptor)

  unfoldable pub register_application : ℕ → ℕ → ℕ → Bytes → ℕ → Client W → Option (ℤ × Client W)
  register_application destined_port max_size_per_message max_user_per_node name name_len =
      text_call (
        register_application_request destined_port max_size_per_message max_user_per_node name
          name_len)

  unfoldable pub dist_barrier : ℕ → M (Client W) ℤ
  dist_barrier num = int_call (dist_barrier_request num)

  unfoldable pub query_port : ℤ → ℤ → M (Client W) ℤ
  query_port target_node designed_port = int_call (query_port_request target_node designed_port)

  unfoldable pub free_local_mem : Bytes → ℕ → ℕ → ℕ → Client W → Option (ℤ × Client W)
  free_local_mem name size local_addr remote = text_call (free_local_mem_request name size remote)

  -- The client's half of an allocation: it maps the object that the router has made. The result
  -- is the code with what `*local_addr` and `*remote_addr` hold then. `local_at` is the address of
  -- the variable `*local_addr`; that address, and not the variable, is what is compared.
  unfoldable pub map_local :
      SharedMemory W → Bytes → ℕ → ℕ → ℕ → ℕ → RpcRspMsg → M (Client W) (ℤ × ℕ × ℕ)
  map_local shm name size local_at local remote rsp s =
      let opened = shm.shm_open name false s.world in
      let mapped = shm.mmap size opened.0 opened.1 in
      if is_neg rsp.int_rsp
      then ((minus_one, local, remote), s)
      else (if is_neg opened.0
          then ((minus_one, local, remote), record s { world = opened.1 })
          else (if local_at == map_failed
              then ((minus_one, mapped.0, remote), record s { world = mapped.1 })
              else (
                (rsp.int_rsp, mapped.0, remote_addr rsp.msg_body),
                record s { world = mapped.1 },
              )))

  unfoldable pub alloc_local_mem :
      SharedMemory W → Bytes → ℕ → ℕ → ℕ → ℕ → Client W → Option ((ℤ × ℕ × ℕ) × Client W)
  unfolding map_local
  alloc_local_mem shm name size local_at local remote s = elim (alloc_local_mem_request name size) [
    | none ↦ none
    | some req ↦
        let r = response req s in some (map_local shm name size local_at local remote r.0 r.1)
  ]

  -- A variant for tests: nothing is mapped, and `*local_addr` is a constant.
  unfoldable pub alloc_local_mem_test : Bytes → ℕ → Client W → Option ((ℤ × ℕ × ℕ) × Client W)
  alloc_local_mem_test name size s = elim (alloc_local_mem_request name size) [
    | none ↦ none
    | some req ↦
        let r = response req s in some ((r.0.int_rsp, 0x900, remote_addr r.0.msg_body), r.1)
  ]
