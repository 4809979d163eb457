-- ===== src/Router/Translation.antt =====
-- From the client's stubs (client/lib/lite-lib.c) to the kernel (router/lib/lite-lib.c), through the
-- `switch` of router/test_router.cpp.
use freelite.Base.{ℕ, ℤ, Bytes, Bool, Option, some, ◌≡◌, arith}
use freelite.Routing.{Router}
use freelite.Rpc.{RpcReqMsg, RpcRspMsg}
use freelite.Router.{Env, Outcome, responds, unknown_code, undefined, waits}
use freelite.Router.Dispatch.{dispatch}
use freelite.Client.Stubs.{
  get_node_id_request, join_request, alloc_remote_mem_request, rdma_write_request,
  rdma_read_request, send_reply_imm_fast_request, receive_message_fast_request,
  reply_message_request, register_application_request, dist_barrier_request, query_port_request,
  alloc_local_mem_request, free_local_mem_request,
}

-- A call of the application, by the function that it calls.
pub data Api : Type 0 where
  get_node_id : Api
  join : Bytes → ℤ → ℤ → Api
  alloc_remote_mem : ℕ → ℕ → Bool → ℤ → Api
  rdma_write rdma_read : ℕ → ℕ → ℕ → ℕ → ℤ → Api
  send_reply_imm_fast : ℤ → ℕ → ℕ → ℤ → ℕ → ℕ → ℤ → Api
  receive_message_fast : ℕ → ℕ → ℤ → ℤ → Api
  reply_message : ℕ → ℤ → ℕ → Api
  register_application : ℕ → ℕ → ℕ → Bytes → ℕ → Api
  dist_barrier : ℕ → Api
  query_port : ℤ → ℤ → Api
  alloc_local_mem : Bytes → ℕ → Api
  free_local_mem : Bytes → ℕ → ℕ → Api

-- The request that the stub of the call sends, if it sends one.
abbrev pub request : Api → Option RpcReqMsg
request get_node_id = some get_node_id_request
request (join a b c) = join_request a b c
request (alloc_remote_mem a b c d) = some (alloc_remote_mem_request a b c d)
request (rdma_write a b c d e) = some (rdma_write_request a b c d e)
request (rdma_read a b c d e) = some (rdma_read_request a b c d e)
request (send_reply_imm_fast a b c d e f g) = some (send_reply_imm_fast_request a b c d e f g)
request (receive_message_fast a b c d) = some (receive_message_fast_request a b c d)
request (reply_message a b c) = some (reply_message_request a b c)
request (register_application a b c d e) = register_application_request a b c d e
request (dist_barrier a) = some (dist_barrier_request a)
request (query_port a b) = some (query_port_request a b)
request (alloc_local_mem a b) = alloc_local_mem_request a b
request (free_local_mem a b c) = free_local_mem_request a b c

-- The two calls for which the router waits in a loop until the kernel has written to memory.
abbrev pub Polls : Api → Type 0
Polls (send_reply_imm_fast a b c d e f g) = Unit
Polls (receive_message_fast a b c d) = Unit
Polls _ = ⊥

-- The router answers a call, or still waits for the kernel.
abbrev pub IsServed : Api → Outcome → Type 0
IsServed call (responds r) = Unit
IsServed call waits = Polls call
IsServed call unknown_code = ⊥
IsServed call undefined = ⊥

module _ {W : Type 0} (e : Env W) (rsp : RpcRspMsg) where
  -- The request that a stub sends is answered by the router, unless it is one of the two calls that
  -- poll and the kernel has not written yet when the fuel is used up: it neither meets a code that
  -- it does not know nor reads a member of the union that the stub has not written.
  pub dispatch-IsServed :
      (fuel : ℕ) (cid : Bytes) (call : Api) (req : RpcReqMsg) (s : Router W)
      → request call ≡ some req
      → IsServed call (dispatch e rsp fuel cid req s).0
  unfolding dispatch get_node_id_request join_request alloc_remote_mem_request rdma_write_request
      rdma_read_request send_reply_imm_fast_request receive_message_fast_request
      reply_message_request register_application_request dist_barrier_request query_port_request
      alloc_local_mem_request free_local_mem_request
  dispatch-IsServed fuel cid get_node_id req s h = ground arith
  dispatch-IsServed fuel cid call req s h = ground arith
